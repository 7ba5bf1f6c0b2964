-- ===== src/Runner/Numbers/Printed.antt =====
-- runner.c: numbers that are printed and read back by `strtoll` and `atoi`.
use cs360v_cs380_projects.Prelude.{
  ◌≤◌, length, ℕ, ◌-◌, ◌^◌, ◌<◌, ◌≡◌, refl, sym, subst, ◌∙◌, ap, ltb, ◌==◌, List, [], ◌∷◌, ◌++◌,
  true, false, arith, some, inl, inr, Bool-cases, append-nil,
}
use cs360v_cs380_projects.Prelude.Text.{
  length-decimal, is_space, is_digit, decimal, skip_spaces, read_digits, read_digits-decimal_append,
  decimal-cons, IsDigits, decimal-IsDigits,
}
use cs360v_cs380_projects.Runner.Numbers.{
  strtoll, atoi, signed_number, magnitude, signed_decimal, clamp_positive, clamp_negative,
}

-- What follows a number is no digit.
abbrev pub StopsDigits : List ℕ → Type 0
StopsDigits [] = Unit
StopsDigits (c ∷ cs) = is_digit c ≡ false

read_digits-stops : (n : ℕ) (rest : List ℕ) → StopsDigits rest → read_digits n rest ≡ (n, rest)
unfolding read_digits
read_digits-stops n [] h = refl
read_digits-stops n (c ∷ cs) h = rw (h, read_digits) refl

pub magnitude-decimal :
    (clamp : ℕ → ℕ) (n : ℕ) (rest : List ℕ)
    → n < 2 ^ 64
    → StopsDigits rest
    → magnitude clamp (decimal n ++ rest) ≡ some (clamp n, rest)
magnitude-decimal clamp n rest h stops =
    let (c, cs, e) = decimal-cons n in
    let digits : IsDigits (c ∷ cs) = subst IsDigits e (decimal-IsDigits n) in
    let value : read_digits 0 ((c ∷ cs) ++ rest) ≡ (n, rest) =
      ap (λ l. read_digits 0 (l ++ rest)) (sym e)
      ∙ read_digits-decimal_append n rest h
      ∙ read_digits-stops n rest stops in
    ap (λ l. magnitude clamp (l ++ rest)) e
    ∙ unfold magnitude in rw digits.0 (ap (λ (r : ℕ × List ℕ). some (clamp r.0, r.1)) value)

-- A digit is neither a sign nor white space.
pub positive_number :
    (n : ℕ) (rest : List ℕ)
    → n < 2 ^ 64
    → StopsDigits rest
    → signed_number (decimal n ++ rest) ≡ some (clamp_positive n, rest)
positive_number n rest h stops =
    let (c, cs, e) = decimal-cons n in
    let digits : IsDigits (c ∷ cs) = subst IsDigits e (decimal-IsDigits n) in
    let minus : (c == b'-') ≡ false = ground (arith, digits.0) in
    let plus : (c == b'+') ≡ false = ground (arith, digits.0) in
    let unsigned : signed_number ((c ∷ cs) ++ rest) ≡ magnitude clamp_positive ((c ∷ cs) ++ rest) =
      unfold signed_number in rw (minus, plus) refl in
    ap (λ l. signed_number (l ++ rest)) e
    ∙ unsigned
    ∙ ap (λ l. magnitude clamp_positive (l ++ rest)) (sym e)
    ∙ magnitude-decimal clamp_positive n rest h stops

negative_number :
    (n : ℕ) (rest : List ℕ)
    → n < 2 ^ 64
    → StopsDigits rest
    → signed_number (b'-' ∷ (decimal n ++ rest)) ≡ some (clamp_negative n, rest)
unfolding signed_number
negative_number n rest h stops = magnitude-decimal clamp_negative n rest h stops

pub digit_text : (c : ℕ) → is_digit c ≡ true → is_space c ≡ false
digit_text c h = ground (arith, h)

-- The byte that a printed number begins with.
pub signed_decimal-cons :
    (w : ℕ) → (c : ℕ) × (cs : List ℕ) × (signed_decimal w ≡ c ∷ cs) × (is_space c ≡ false)
unfolding signed_decimal
signed_decimal-cons w = elim (Bool-cases (ltb w (2 ^ 63))) [
  | inl positive ↦
      let (c, cs, e) = decimal-cons w in
      let digits : IsDigits (c ∷ cs) = subst IsDigits e (decimal-IsDigits w) in
      (c, cs, rw positive e, digit_text c digits.0)
  | inr negative ↦ (b'-', decimal (2 ^ 64 - w), rw negative refl, refl)
]

pub signed_number-signed_decimal :
    (w : ℕ) (rest : List ℕ)
    → w < 2 ^ 64
    → StopsDigits rest
    → signed_number (signed_decimal w ++ rest) ≡ some (w, rest)
unfolding signed_decimal
signed_number-signed_decimal w rest h stops = elim (Bool-cases (ltb w (2 ^ 63))) [
  | inl positive ↦
      rw positive (positive_number w rest h stops ∙ ap (λ v. some (v, rest)) (rw positive refl))
  | inr negative ↦ rw negative (
      negative_number (2 ^ 64 - w) rest (ground (arith, negative)) stops
      ∙ ap (λ v. some (v, rest)) (ground (arith, negative, h)))
]

pub strtoll-signed_decimal :
    (w : ℕ) (rest : List ℕ)
    → w < 2 ^ 64
    → StopsDigits rest
    → strtoll (signed_decimal w ++ rest) ≡ some (w, rest)
strtoll-signed_decimal w rest h stops =
    let (c, cs, e, t) = signed_decimal-cons w in
    let text : strtoll (c ∷ (cs ++ rest)) ≡ signed_number (c ∷ (cs ++ rest)) =
      unfold strtoll skip_spaces in rw t refl in
    ap (λ l. strtoll (l ++ rest)) e
    ∙ text
    ∙ ap (λ l. signed_number (l ++ rest)) (sym e)
    ∙ signed_number-signed_decimal w rest h stops

-- A number of 31 bits is read back by `atoi`.
pub atoi-decimal : (n : ℕ) → n < 2 ^ 31 → atoi (decimal n) ≡ n
atoi-decimal n h =
    let shown : signed_decimal n ≡ decimal n = unfold signed_decimal in ground (arith, h) in
    let whole : signed_decimal n ++ [] ≡ decimal n = append-nil (signed_decimal n) ∙ shown in
    let value : strtoll (decimal n) ≡ some (n, []) =
      ap strtoll (sym whole) ∙ strtoll-signed_decimal n [] (omega (arith, h)) tt in
    unfold atoi in rw (value, atoi) (omega (arith, h))

pub length-signed_decimal : (w : ℕ) → length (signed_decimal w) ≤ 21
unfolding signed_decimal
length-signed_decimal w = elim (Bool-cases (ltb w (2 ^ 63))) [
  | inl positive ↦ rw positive (omega (arith, length-decimal w))
  | inr negative ↦ rw negative (omega (arith, length-decimal (2 ^ 64 - w)))
]
