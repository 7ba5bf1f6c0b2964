-- ===== src/Guest/Hex.antt =====
-- The console of vlog.c: what `puts_` and `puthex_` put on it.
use cs360v_cs380_projects.Prelude.{
  ℕ, zero, suc, ◌+◌, ◌-◌, ◌*◌, ◌/◌, ◌^◌, ◌%◌, ◌<◌, ◌≡◌, ◌∙◌, arith, ltb, if◌then◌else◌, List, [],
  ◌∷◌, ◌++◌, append-nil, append_assoc, bit_and, u32_mod, All,
}
use cs360v_cs380_projects.Prelude.Bits.{bit_and_mask}
use cs360v_cs380_projects.Vmm.{Vmm, bus_store, serial_write}
use cs360v_cs380_projects.Guest.{returned, putc_, puts_, puthex_, puthex_loop, mmio_w32, hex_digit}

abbrev pub printed : Vmm → List ℕ → Vmm
printed v text = record v { console = v.console ++ text }

pub putc_-printed : (c : ℕ) (v : Vmm) → putc_ c v ≡ returned tt (printed v ((c % 256) ∷ []))
unfolding putc_ mmio_w32 bus_store serial_write
putc_-printed c v = let byte : c % 256 % u32_mod % 256 ≡ c % 256 = omega arith in rw byte

-- `puts_` puts the string's bytes on the console, in order.
pub puts_-printed :
    (s : List ℕ) (v : Vmm) → All (λ c. c < 256) s → puts_ s v ≡ returned tt (printed v s)
unfolding puts_
puts_-printed [] v h = rw append-nil
puts_-printed (c ∷ cs) v h =
    let byte : c % 256 ≡ c = omega arith in
    rw (putc_-printed c v, byte) (puts_-printed cs (printed v (c ∷ [])) h.1 ∙ rw append_assoc)

-- The digits of the low `4 n` bits.
pub hex_text : ℕ → ℕ → List ℕ
hex_text zero x = []
hex_text (suc n) x = (hex_digit (bit_and (x / 2 ^ (4 * n)) 0xf) % 256) ∷ hex_text n x

puthex_loop-printed :
    (n x : ℕ) (v : Vmm) → puthex_loop n x v ≡ returned tt (printed v (hex_text n x))
unfolding puthex_loop hex_text
puthex_loop-printed zero x v = rw append-nil
puthex_loop-printed (suc n) x v =
    let c : ℕ = hex_digit (bit_and (x / 2 ^ (4 * n)) 0xf) in
    rw (putc_-printed c v) (puthex_loop-printed n x (printed v ((c % 256) ∷ [])) ∙ rw append_assoc)

-- The number that hexadecimal digits stand for.
hex_value : ℕ → ℕ
hex_value c = if ltb c 58 then c - 48 else c - 87

unfoldable pub read_hex : ℕ → List ℕ → ℕ
unfolding hex_value
read_hex acc [] = acc
read_hex acc (c ∷ cs) = read_hex (acc * 16 + hex_value c) cs

all_digits : (n : ℕ) → n < 16 → hex_value (hex_digit n % 256) ≡ n
unfolding hex_value
all_digits n h = ground arith

read_nibble : (y : ℕ) → hex_value (hex_digit (bit_and y 0xf) % 256) ≡ y % 16
read_nibble y = rw (bit_and_mask 4 y) (all_digits (y % 16) (omega arith))

hex_text-read : (x : ℕ) → x < 2 ^ 32 → read_hex 0 (hex_text 8 x) ≡ x
unfolding read_hex hex_text
hex_text-read x h = simp read_nibble (omega arith)

pub puthex_-hex_text :
    (x : ℕ) (v : Vmm) → puthex_ x v ≡ returned tt (printed v (b'0' ∷ b'x' ∷ hex_text 8 x))
unfolding puthex_
puthex_-hex_text x v =
    rw
      (
        putc_-printed b'0' v,
        putc_-printed b'x' (printed v (b'0' ∷ [])),
        puthex_loop-printed 8 x (printed (printed v (b'0' ∷ [])) (b'x' ∷ [])),
      )
      (simp append_assoc)

-- `puthex_` of a 32-bit word puts `0x` and eight digits on the console that read back as the word.
pub puthex_-read_hex :
    (x : ℕ) (v : Vmm)
    → x < 2 ^ 32
    → (digits : List ℕ) × (puthex_ x v ≡ returned tt (printed v (b'0' ∷ b'x' ∷ digits)))
      × (read_hex 0 digits ≡ x)
puthex_-read_hex x v h = (hex_text 8 x, puthex_-hex_text x v, hex_text-read x h)
