-- ===== src/Prelude/Text.antt =====
-- What the programs use of the C library on bytes: `%u`, `strtoul`, `isspace`, `strlen`, and
-- taking a field up to a separator.
use Prim.Native.Nat.{ℕ, zero, suc, ◌+◌, ◌-◌, ◌*◌, ◌/◌, ◌%◌, ◌^◌, ◌<◌, ◌≤◌}
use mathlib.Core.Path.{◌≡◌, refl, sym, ap, ◌∙◌}
use mathlib.Core.Logic.{inl, inr}
use mathlib.Core.Bool.{Bool, true, false, ◌&&◌, ◌||◌}
use mathlib.Core.List.{List, [], ◌∷◌, ◌++◌, append-nil}
use native.Mathlib.Nat.{pow-suc}
use native.Mathlib.Omega.{arith}
use cs360v_cs380_projects.Prelude.Tests.{◌==◌, ltb, leb, if◌then◌else◌, Bool-cases}
use cs360v_cs380_projects.Prelude.Lists.{All, length}

abbrev pub newline : ℕ
newline = 10

abbrev pub carriage_return : ℕ
carriage_return = 13

abbrev pub space : ℕ
space = 32

abbrev pub is_digit : ℕ → Bool
is_digit c = leb 48 c && leb c 57

abbrev pub is_space : ℕ → Bool
is_space c = (c == 32) || (leb 9 c && leb c 13)

-- `%u` and `%ld` of a number of at most 20 digits.
unfoldable pub decimal_digits : ℕ → ℕ → List ℕ → List ℕ
decimal_digits zero n acc = acc
decimal_digits (suc fuel) n acc =
    let rest = decimal_digits fuel (n / 10) ((48 + n % 10) ∷ acc) in
    if ltb n 10 then (48 + n % 10) ∷ acc else rest

unfoldable pub decimal : ℕ → List ℕ
unfolding decimal_digits
decimal n = decimal_digits 20 n []

-- The value of the leading digits, and what follows them.
unfoldable pub read_digits : ℕ → List ℕ → ℕ × List ℕ
read_digits acc [] = (acc, [])
read_digits acc (c ∷ cs) = elim (is_digit c) [
  | true ↦ read_digits (acc * 10 + (c - 48)) cs
  | false ↦ (acc, c ∷ cs)
]

-- `strtoul(s, NULL, 10)`: leading white space, a sign, digits; the greatest value on overflow.
unfoldable pub skip_spaces : List ℕ → List ℕ
skip_spaces [] = []
skip_spaces (c ∷ cs) = if is_space c then skip_spaces cs else c ∷ cs

abbrev pub clamp_unsigned : ℕ → ℕ
clamp_unsigned v = if ltb v (2 ^ 64) then v else 2 ^ 64 - 1

abbrev pub negate_unsigned : ℕ → ℕ
negate_unsigned v = if ltb v (2 ^ 64) then (2 ^ 64 - v) % 2 ^ 64 else 2 ^ 64 - 1

abbrev pub signed_digits : List ℕ → ℕ
signed_digits [] = 0
signed_digits (c ∷ cs) =
    if c == b'-'
    then negate_unsigned (read_digits 0 cs).0
    else if c == b'+'
    then clamp_unsigned (read_digits 0 cs).0
    else clamp_unsigned (read_digits 0 (c ∷ cs)).0

unfoldable pub strtoul : List ℕ → ℕ
unfolding skip_spaces read_digits
strtoul s = signed_digits (skip_spaces s)

-- A C string is what stands before the first NUL.
unfoldable pub c_string : List ℕ → List ℕ
c_string [] = []
c_string (c ∷ cs) = if c == 0 then [] else c ∷ c_string cs

-- The bytes before the first `sep`, and those after it (`[]` where there is none).
unfoldable pub split_at : ℕ → List ℕ → List ℕ × List ℕ
split_at sep [] = ([], [])
split_at sep (c ∷ cs) =
    let (before, after) = split_at sep cs in if c == sep then ([], cs) else (c ∷ before, after)

abbrev pub Lacks : ℕ → List ℕ → Type 0
Lacks sep = All (λ c. (c == sep) ≡ false)

pub split_at-append :
    (sep : ℕ) (xs ys : List ℕ) → Lacks sep xs → split_at sep (xs ++ sep ∷ ys) ≡ (xs, ys)
unfolding split_at
split_at-append sep [] ys h = ground arith
split_at-append sep (x ∷ xs) ys h = rw h.0 (rw (split_at-append sep xs ys h.1))

read_digit :
    (acc n : ℕ) (rest : List ℕ)
    → n < 10
    → read_digits acc ((48 + n) ∷ rest) ≡ read_digits (acc * 10 + n) rest
unfolding read_digits
read_digit acc n rest h =
    let e : is_digit (48 + n) ≡ true = ground arith in
    rw (e, read_digits) (ap (λ k. read_digits (acc * 10 + k) rest) (omega arith))

decimal_digits-read :
    (fuel n : ℕ) (acc rest : List ℕ)
    → n < 10 ^ fuel
    → read_digits 0 (decimal_digits fuel n acc ++ rest) ≡ read_digits n (acc ++ rest)
unfolding decimal_digits
decimal_digits-read zero n acc rest h = ap (λ k. read_digits k (acc ++ rest)) (omega arith)
decimal_digits-read (suc fuel) n acc rest h = elim (Bool-cases (ltb n 10)) [
  | inl small ↦ rw small (
      read_digit 0 (n % 10) (acc ++ rest) (omega arith)
      ∙ ap (λ k. read_digits k (acc ++ rest)) (ground arith))
  | inr big ↦ rw big (
      decimal_digits-read fuel (n / 10) ((48 + n % 10) ∷ acc) rest (small_quotient fuel n h)
      ∙ read_digit (n / 10) (n % 10) (acc ++ rest) (omega arith)
      ∙ ap (λ k. read_digits k (acc ++ rest)) (omega arith))
]
  where
    small_quotient : (fuel n : ℕ) → n < 10 ^ suc fuel → n / 10 < 10 ^ fuel
    small_quotient fuel n h = omega (arith, pow-suc 10 fuel)

-- A number printed by `%u` and followed by something else than a digit is read back.
pub read_digits-decimal :
    (n c : ℕ) (rest : List ℕ)
    → n < 2 ^ 64
    → is_digit c ≡ false
    → read_digits 0 (decimal n ++ c ∷ rest) ≡ (n, c ∷ rest)
unfolding decimal read_digits
read_digits-decimal n c rest h e =
    decimal_digits-read 20 n [] (c ∷ rest) (omega arith) ∙ rw (e, read_digits)

abbrev pub IsDigits : List ℕ → Type 0
IsDigits = All (λ c. is_digit c ≡ true)

decimal_digits-IsDigits :
    (fuel n : ℕ) (acc : List ℕ) → IsDigits acc → IsDigits (decimal_digits fuel n acc)
unfolding decimal_digits
decimal_digits-IsDigits zero n acc h = h
decimal_digits-IsDigits (suc fuel) n acc h =
    let digit : is_digit (48 + n % 10) ≡ true = ground arith in
    elim (Bool-cases (ltb n 10)) [
      | inl small ↦ rw small (digit, h)
      | inr big ↦ rw big (decimal_digits-IsDigits fuel (n / 10) ((48 + n % 10) ∷ acc) (digit, h))
    ]

pub decimal-IsDigits : (n : ℕ) → IsDigits (decimal n)
unfolding decimal
decimal-IsDigits n = decimal_digits-IsDigits 20 n [] tt

strtoul-IsDigits : (s : List ℕ) → IsDigits s → strtoul s ≡ clamp_unsigned (read_digits 0 s).0
unfolding strtoul
strtoul-IsDigits [] h = refl
strtoul-IsDigits (c ∷ cs) h =
    let shown : skip_spaces (c ∷ cs) ≡ c ∷ cs = ground (arith, h.0) in
    rw shown (ground (arith, h.0))

-- A number of at most 64 bits printed by `%u` is read back.
pub strtoul-decimal : (n : ℕ) → n < 2 ^ 64 → strtoul (decimal n) ≡ n
strtoul-decimal n h =
    strtoul-IsDigits (decimal n) (decimal-IsDigits n) ∙ ap clamp_unsigned value ∙ ground arith
  where
    value : (read_digits 0 (decimal n)).0 ≡ n
    value =
        unfold decimal in
        ap (λ l. (read_digits 0 l).0) (sym (append-nil (decimal_digits 20 n [])))
        ∙ ap (λ (r : ℕ × List ℕ). r.0) (decimal_digits-read 20 n [] [] (omega arith))
        ∙ unfold read_digits in refl

-- It is read back whatever follows.
pub read_digits-decimal_append :
    (n : ℕ) (rest : List ℕ) → n < 2 ^ 64 → read_digits 0 (decimal n ++ rest) ≡ read_digits n rest
unfolding decimal
read_digits-decimal_append n rest h = decimal_digits-read 20 n [] rest (omega arith)

-- There is at least one digit.
pub decimal-cons : (n : ℕ) → (c : ℕ) × (cs : List ℕ) × (decimal n ≡ c ∷ cs)
unfolding decimal decimal_digits
decimal-cons n = elim (Bool-cases (ltb n 10)) [
  | inl small ↦ (48 + n % 10, [], rw (small, decimal_digits) refl)
  | inr big ↦
      let (c, cs, e) = more 19 (n / 10) (48 + n % 10) [] in (c, cs, rw (big, decimal_digits) e)
]
  where
    more :
        (fuel n x : ℕ) (acc : List ℕ)
        → (c : ℕ) × (cs : List ℕ) × (decimal_digits fuel n (x ∷ acc) ≡ c ∷ cs)
    more zero n x acc = (x, acc, refl)
    more (suc fuel) n x acc = elim (Bool-cases (ltb n 10)) [
      | inl small ↦ (48 + n % 10, x ∷ acc, rw small refl)
      | inr big ↦ let (c, cs, e) = more fuel (n / 10) (48 + n % 10) (x ∷ acc) in (c, cs, rw big e)
    ]

-- There are 20 digits at most.
pub length-decimal : (n : ℕ) → length (decimal n) ≤ 20
unfolding decimal
length-decimal n = omega (arith, bound 20 n [])
  where
    bound : (fuel n : ℕ) (acc : List ℕ) → length (decimal_digits fuel n acc) ≤ fuel + length acc
    bound zero n acc = unfold decimal_digits in omega arith
    bound (suc fuel) n acc = elim (Bool-cases (ltb n 10)) [
      | inl small ↦ rw (small, decimal_digits) (omega arith)
      | inr big ↦
          rw (big, decimal_digits) (omega (arith, bound fuel (n / 10) ((48 + n % 10) ∷ acc)))
    ]

pub digits-Lacks :
    (c : ℕ) (xs : List ℕ) → is_digit c ≡ false → All (λ d. is_digit d ≡ true) xs → Lacks c xs
digits-Lacks c [] n h = tt
digits-Lacks c (x ∷ xs) n h = (ground (arith, h.0), digits-Lacks c xs n h.1)

decimal_digits-small :
    (fuel j n : ℕ) (acc : List ℕ)
    → n < 10 ^ suc j
    → length (decimal_digits fuel n acc) ≤ suc j + length acc
unfolding decimal_digits
decimal_digits-small zero j n acc h = omega arith
decimal_digits-small (suc fuel) zero n acc h =
    let small : ltb n 10 ≡ true = ground (arith, h) in rw (small, decimal_digits) (omega arith)
decimal_digits-small (suc fuel) (suc j) n acc h = elim (Bool-cases (ltb n 10)) [
  | inl small ↦ rw (small, decimal_digits) (omega arith)
  | inr big ↦
      let bound =
        decimal_digits-small fuel j (n / 10) ((48 + n % 10) ∷ acc)
          (omega (arith, h, pow-suc 10 (suc j))) in
      rw (big, decimal_digits) (omega (arith, bound))
]

-- A number below a power of ten has so many digits at most.
pub length-decimal_small : (j n : ℕ) → n < 10 ^ suc j → length (decimal n) ≤ suc j
unfolding decimal
length-decimal_small j n h = omega (arith, decimal_digits-small 20 j n [] h)

pub c_string-Lacks : (xs : List ℕ) → Lacks 0 xs → c_string xs ≡ xs
unfolding c_string
c_string-Lacks [] n = refl
c_string-Lacks (x ∷ xs) n = rw n.0 (ap (λ l. x ∷ l) (c_string-Lacks xs n.1))
