-- ===== src/Runner/Numbers.antt =====
-- What runner.c uses of the C library on signed numbers: `strtoll`, `atoi`, `%lld`. A signed number
-- of 64 bits is its word in two's complement.
pub mod Printed
use cs360v_cs380_projects.Prelude.{
  ℕ, zero, suc, ◌+◌, ◌-◌, ◌*◌, ◌%◌, ◌^◌, ◌<◌, ◌≡◌, refl, ◌∙◌, ap, ltb, ◌==◌, if◌then◌else◌, List,
  [], ◌∷◌, ◌++◌, Bool, true, false, inl, inr, Bool-cases, Option, none, some, u64_mod, arith,
}
use cs360v_cs380_projects.Prelude.Text.{
  is_digit, is_space, decimal, read_digits, read_digits-decimal, skip_spaces,
}

-- The greatest and the least number of 64 bits on overflow.
abbrev pub clamp_positive : ℕ → ℕ
clamp_positive v = if ltb v (2 ^ 63) then v else 2 ^ 63 - 1

abbrev pub clamp_negative : ℕ → ℕ
clamp_negative v = if ltb v (2 ^ 63) then (2 ^ 64 - v) % 2 ^ 64 else 2 ^ 63

-- The digits after a sign, if there are any.
unfoldable pub magnitude : (ℕ → ℕ) → List ℕ → Option (ℕ × List ℕ)
magnitude clamp [] = none
magnitude clamp (c ∷ cs) =
    let (v, rest) = read_digits 0 (c ∷ cs) in if is_digit c then some (clamp v, rest) else none

unfoldable pub signed_number : List ℕ → Option (ℕ × List ℕ)
unfolding magnitude
signed_number [] = none
signed_number (c ∷ cs) =
    if c == b'-'
    then magnitude clamp_negative cs
    else if c == b'+'
    then magnitude clamp_positive cs
    else magnitude clamp_positive (c ∷ cs)

-- `strtoll(s, &end, 10)`: the number and what follows it; `none` where there is none, and `end` is
-- `s`.
unfoldable pub strtoll : List ℕ → Option (ℕ × List ℕ)
unfolding signed_number
strtoll s = signed_number (skip_spaces s)

-- `atoi(s)`, as a word of 32 bits.
unfoldable pub atoi : List ℕ → ℕ
unfolding strtoll
atoi s = elim (strtoll s) [ none ↦ 0 | some (v, rest) ↦ v % 2 ^ 32 ]

-- `%lld`
unfoldable pub signed_decimal : ℕ → List ℕ
unfolding decimal
signed_decimal w = if ltb w (2 ^ 63) then decimal w else b'-' ∷ decimal (2 ^ 64 - w)
