-- ===== src/Guest.antt =====
-- project_1/guest/vlog.h and vlog.c: the guest's library for the console and the logging device. A
-- guest function runs against the machine monitor, through its bus.
pub mod Driver
pub mod Hex
pub mod Stat
pub mod Written
pub mod Programs
mod Tests
use cs360v_cs380_projects.Prelude.{
  ℕ, zero, suc, ◌+◌, ◌-◌, ◌*◌, ◌/◌, ◌%◌, ◌^◌, if◌then◌else◌, List, [], ◌∷◌, Bool, true, has_bit,
  bit_and, u32_mod, codes, get_elem?, Option, none, some, length,
}
use cs360v_cs380_projects.Memory.{serial_base, dev_base}
use cs360v_cs380_projects.Device.{status_error}
use cs360v_cs380_projects.Device.Reg
use cs360v_cs380_projects.Device.Cmd
use cs360v_cs380_projects.Vmm.{Vmm, bus_store, bus_value, serial_tx, serial_poweroff}

-- A guest call returns, or does not: the machine stopped under it, or the emulator crashed.
pub data Run (A : Type 0) : Type 0 where
  returned : A → Vmm → Run A
  halted : Vmm → Run A
  crashed : Run A

abbrev pub Guest : Type 0 → Type 0
Guest A = Vmm → Run A

abbrev pub pure : {A : Type 0} → A → Guest A
pure = returned

abbrev pub and_then : {A B : Type 0} → Run A → (A → Guest B) → Run B
and_then (returned a v) k = k a v
and_then (halted v) k = halted v
and_then crashed k = crashed

infixl 5 ◌>>=◌ ◌>>◌
abbrev pub ◌>>=◌ : {A B : Type 0} → Guest A → (A → Guest B) → Guest B
m >>= k = λ v. and_then (m v) k

abbrev pub ◌>>◌ : {B : Type 0} → Guest (Unit {0}) → Guest B → Guest B
m >> k = m >>= λ _. k

abbrev pub after_store : Option (Vmm × Bool) → Run (Unit {0})
after_store none = crashed
after_store (some (v, stop)) = if stop then halted v else returned tt v

unfoldable pub mmio_w32 : ℕ → ℕ → Guest (Unit {0})
mmio_w32 addr val v = after_store (bus_store v addr (val % u32_mod) true)

unfoldable pub mmio_r32 : ℕ → Guest ℕ
mmio_r32 addr v = returned (bus_value v addr) v

unfoldable pub putc_ : ℕ → Guest (Unit {0})
putc_ c = mmio_w32 (serial_base + serial_tx) (c % 256)

-- The bytes of the string before its NUL.
unfoldable pub puts_ : List ℕ → Guest (Unit {0})
puts_ [] = pure tt
puts_ (c ∷ cs) = putc_ c >> puts_ cs

abbrev pub hex_digits : List ℕ
hex_digits = codes "0123456789abcdef"

abbrev pub hex_digit : ℕ → ℕ
hex_digit n = elim (get_elem? hex_digits n) [ none ↦ 0 | some c ↦ c ]

-- The loop of `puthex_`, for `i` = 4 (n - 1), …, 4, 0.
unfoldable pub puthex_loop : ℕ → ℕ → Guest (Unit {0})
puthex_loop zero v = pure tt
puthex_loop (suc n) v = putc_ (hex_digit (bit_and (v / 2 ^ (4 * n)) 0xf)) >> puthex_loop n v

unfoldable pub puthex_ : ℕ → Guest (Unit {0})
unfolding puthex_loop
puthex_ v = putc_ b'0' >> (putc_ b'x' >> puthex_loop 8 v)

-- The endless loop after the store is never reached, since the machine halts on it.
unfoldable pub vm_exit : ℕ → Guest (Unit {0})
vm_exit code = mmio_w32 (serial_base + serial_poweroff) code

unfoldable pub vlog_id : Guest ℕ
vlog_id = mmio_r32 (dev_base + Reg.id)

unfoldable pub vlog_status : Guest ℕ
vlog_status = mmio_r32 (dev_base + Reg.status)

unfoldable pub vlog_seq : Guest ℕ
vlog_seq = mmio_r32 (dev_base + Reg.seq)

-- What the library returns for a word of STATUS.
unfoldable pub result_of : ℕ → ℕ
result_of st = if has_bit st status_error then bit_and (st / 2 ^ 8) 0xff else 0

-- `msg` is the address of the message, `len` its length.
unfoldable pub vlog_write : ℕ → ℕ → ℕ → Guest ℕ
vlog_write level msg len = do
  mmio_w32 (dev_base + Reg.msg_lo) msg
  mmio_w32 (dev_base + Reg.msg_hi) (msg / 2 ^ 32)
  mmio_w32 (dev_base + Reg.len) len
  mmio_w32 (dev_base + Reg.level) level
  mmio_w32 (dev_base + Reg.cmd) Cmd.log
  st ← mmio_r32 (dev_base + Reg.status)
  pure (result_of st)

-- `s` is the string's address, `text` its bytes before the NUL.
unfoldable pub vlog : ℕ → ℕ → List ℕ → Guest ℕ
vlog level s text = vlog_write level s (length text)

unfoldable pub vlog_stat : ℕ → ℕ → Guest ℕ
vlog_stat out len = do
  mmio_w32 (dev_base + Reg.msg_lo) (bit_and out 0xffffffff)
  mmio_w32 (dev_base + Reg.msg_hi) (out / 2 ^ 32)
  mmio_w32 (dev_base + Reg.len) len
  mmio_w32 (dev_base + Reg.cmd) Cmd.stat
  st ← mmio_r32 (dev_base + Reg.status)
  pure (result_of st)
