-- ===== src/Runner/Functions/Ends.antt =====
-- runner.c: the built-in functions end, with a text that is one line and fits.
use cs360v_cs380_projects.Prelude.{
  ℕ, zero, suc, ◌+◌, ◌-◌, ◌*◌, ◌<◌, ◌≤◌, ◌≡◌, refl, subst, ap, ◌==◌, List, [], ◌∷◌, length, arith,
  length-take, Option, none, some, inl, inr, Bool-cases, Option-cases, codes, ◌^◌, ltb, All-take,
  false,
}
use cs360v_cs380_projects.Prelude.Text.{
  newline, Lacks, decimal, digits-Lacks, decimal-IsDigits, is_space, is_digit, skip_spaces,
  read_digits,
}
use cs360v_cs380_projects.Runner.Numbers.{
  strtoll, signed_number, magnitude, signed_decimal, clamp_positive, clamp_negative,
}
use cs360v_cs380_projects.Runner.Functions.{
  FnResult, ok, failed, text_of, signed_add, count_words, fn_wordcount, sum_loop, fn_sum, snprintf,
  out_size,
}

-- What `strtoll` leaves is shorter than what it is given.
read_digits-shorter : (s : List ℕ) (acc : ℕ) → length (read_digits acc s).1 ≤ length s
unfolding read_digits
read_digits-shorter [] acc = omega arith
read_digits-shorter (c ∷ cs) acc = elim (Bool-cases (is_digit c)) [
  | inl d ↦ rw (d, read_digits) (omega (arith, read_digits-shorter cs (acc * 10 + (c - 48))))
  | inr o ↦ rw (o, read_digits) (omega arith)
]

-- A result leaves less than `n` bytes.
abbrev Leaves : ℕ → Option (ℕ × List ℕ) → Type 0
Leaves n none = Unit
Leaves n (some (v, rest)) = length rest < n

magnitude-Leaves : (clamp : ℕ → ℕ) (s : List ℕ) → Leaves (length s) (magnitude clamp s)
unfolding magnitude read_digits
magnitude-Leaves clamp [] = tt
magnitude-Leaves clamp (c ∷ cs) = elim (Bool-cases (is_digit c)) [
  | inl d ↦
      rw (d, magnitude)
        (rw (d, read_digits) (omega (arith, read_digits-shorter cs (0 * 10 + (c - 48)))))
  | inr o ↦ rw (o, magnitude) tt
]

Leaves-suc : (n : ℕ) (o : Option (ℕ × List ℕ)) → Leaves n o → Leaves (suc n) o
Leaves-suc n none h = tt
Leaves-suc n (some (v, rest)) h = omega (arith, h)

signed_number-Leaves : (s : List ℕ) → Leaves (length s) (signed_number s)
unfolding signed_number
signed_number-Leaves [] = tt
signed_number-Leaves (c ∷ cs) = elim (Bool-cases (c == b'-')) [
  | inl minus ↦
      rw (minus, signed_number)
        (Leaves-suc (length cs) (magnitude clamp_negative cs) (magnitude-Leaves clamp_negative cs))
  | inr other ↦ elim (Bool-cases (c == b'+')) [
    | inl plus ↦
        rw (other, plus, signed_number)
          (Leaves-suc (length cs) (magnitude clamp_positive cs)
            (magnitude-Leaves clamp_positive cs))
    | inr digit ↦ rw (other, digit, signed_number) (magnitude-Leaves clamp_positive (c ∷ cs))
  ]
]

skip_spaces-shorter : (s : List ℕ) → length (skip_spaces s) ≤ length s
unfolding skip_spaces
skip_spaces-shorter [] = omega arith
skip_spaces-shorter (c ∷ cs) = elim (Bool-cases (is_space c)) [
  | inl blank ↦ rw (blank, skip_spaces) (omega (arith, skip_spaces-shorter cs))
  | inr text ↦ rw (text, skip_spaces) (omega arith)
]

strtoll-Leaves : (s : List ℕ) → Leaves (length s) (strtoll s)
unfolding strtoll
strtoll-Leaves s = weaken (strtoll s) (signed_number-Leaves (skip_spaces s))
  where
    weaken : (o : Option (ℕ × List ℕ)) → Leaves (length (skip_spaces s)) o → Leaves (length s) o
    weaken none h = tt
    weaken (some (v, rest)) h = omega (arith, h, skip_spaces-shorter s)

-- What the functions print has no newline.
decimal-Lacks : (n : ℕ) → Lacks newline (decimal n)
decimal-Lacks n = digits-Lacks newline (decimal n) refl (decimal-IsDigits n)

signed_decimal-Lacks : (w : ℕ) → Lacks newline (signed_decimal w)
unfolding signed_decimal
signed_decimal-Lacks w = elim (Bool-cases (ltb w (2 ^ 63))) [
  | inl positive ↦ rw positive (decimal-Lacks w)
  | inr negative ↦ rw negative (refl, decimal-Lacks (2 ^ 64 - w))
]

-- A text that fits the buffer of 256 bytes with its NUL, and is one line.
abbrev pub FitsOut : List ℕ → Type 0
FitsOut text = (length text < out_size) × Lacks newline text

pub snprintf-FitsOut : (text : List ℕ) → Lacks newline text → FitsOut (snprintf out_size text)
snprintf-FitsOut text h =
    (omega (arith, length-take 255 text), All-take (λ c. (c == newline) ≡ false) 255 text h)

pub wordcount-FitsOut : (payload : List ℕ) → FitsOut (text_of (fn_wordcount payload))
unfolding fn_wordcount
wordcount-FitsOut payload =
    snprintf-FitsOut (decimal (count_words false 0 payload))
      (decimal-Lacks (count_words false 0 payload))

module _ (overflow : ℕ → ℕ → ℕ) where
  abbrev Ends : ℕ → ℕ → List ℕ → Type 0
  Ends passes total s =
      (r : FnResult) × (sum_loop overflow passes total s ≡ some r) × FitsOut (text_of r)

  -- One pass, if the passes after it end.
  sum_pass :
      (passes total : ℕ) (s : List ℕ)
      → ((total' : ℕ) (rest : List ℕ) → length rest < passes → Ends passes total' rest)
      → length s < suc passes
      → Ends (suc passes) total s
  unfolding sum_loop
  sum_pass passes total s ih h = go (skip_spaces s) refl
    where
      go : (t : List ℕ) → skip_spaces s ≡ t → Ends (suc passes) total s
      go [] e = (
        ok (snprintf out_size (signed_decimal total)),
        rw (e, sum_loop) refl,
        snprintf-FitsOut (signed_decimal total) (signed_decimal-Lacks total),
      )
      go (c ∷ cs) e = elim (Option-cases (strtoll (c ∷ cs))) [
        | inl missing ↦ (
          failed (snprintf out_size (codes "not a number")),
          rw (e, missing, sum_loop) refl,
          snprintf-FitsOut (codes "not a number") (ground arith),
        )
        | inr ((v, rest), found) ↦
            let shorter : length rest < length (c ∷ cs) =
              subst (Leaves (length (c ∷ cs))) found (strtoll-Leaves (c ∷ cs)) in
            let (r, q, b) =
              ih (signed_add overflow total v) rest
                (omega (arith, shorter, h, skip_spaces-shorter s, ap length e)) in
            (r, rw (e, found, sum_loop) q, b)
      ]

  sum_loop-Ends : (passes total : ℕ) (s : List ℕ) → length s < passes → Ends passes total s
  sum_loop-Ends zero total s h = absurd (omega (arith, h))
  sum_loop-Ends (suc passes) total s h = sum_pass passes total s (sum_loop-Ends passes) h

  -- `sum` ends on every payload: the loop never needs more passes than the payload has bytes, and
  -- one for its end; and the text that it writes is one line, which fits the buffer of 256 bytes
  -- with its NUL.
  pub fn_sum-ends :
      (payload : List ℕ) → (r : FnResult) × (fn_sum overflow payload ≡ some r) × FitsOut (text_of r)
  unfolding fn_sum
  fn_sum-ends payload = sum_loop-Ends (suc (length payload)) 0 payload (omega arith)
