-- ===== src/Runner/Functions/Sum.antt =====
-- runner.c, `fn_sum`: it adds up what `%lld` prints.
use cs360v_cs380_projects.Prelude.{
  ℕ, zero, suc, ◌+◌, ◌%◌, ◌^◌, ◌<◌, ◌≤◌, ◌≡◌, refl, sym, ◌∙◌, ap, List, [], ◌∷◌, ◌++◌, Bool, true,
  false, All, length, arith, take_short, some, u64_mod, length-append,
}
use cs360v_cs380_projects.Prelude.Text.{is_space, is_digit, skip_spaces}
use cs360v_cs380_projects.Runner.Numbers.{strtoll, signed_decimal}
use cs360v_cs380_projects.Runner.Numbers.Printed.{
  StopsDigits, length-signed_decimal, signed_decimal-cons, strtoll-signed_decimal,
}
use cs360v_cs380_projects.Runner.Functions.{
  ok, adds_in_range, signed_add, sum_loop, fn_sum, snprintf, out_size,
}
use cs360v_cs380_projects.Runner.Functions.Spaced.{spaced, IsBlank, HasGaps}

blank_stops : (c : ℕ) → is_space c ≡ true → is_digit c ≡ false
blank_stops c h = ground (arith, h)

skip_spaces-text :
    (gap rest : List ℕ) (c : ℕ)
    → IsBlank gap
    → is_space c ≡ false
    → skip_spaces (gap ++ (c ∷ rest)) ≡ c ∷ rest
unfolding skip_spaces
skip_spaces-text [] rest c h t = rw t refl
skip_spaces-text (g ∷ gap) rest c h t = rw (h.0, skip_spaces) (skip_spaces-text gap rest c h.1 t)

skip_spaces-blank : (tail : List ℕ) → IsBlank tail → skip_spaces tail ≡ []
unfolding skip_spaces
skip_spaces-blank [] h = refl
skip_spaces-blank (c ∷ tail) h = rw (h.0, skip_spaces) (skip_spaces-blank tail h.1)

signed_add-adds_in_range :
    (overflow : ℕ → ℕ → ℕ) (total w : ℕ)
    → adds_in_range total w ≡ true
    → signed_add overflow total w ≡ (total + w) % u64_mod
unfolding signed_add
signed_add-adds_in_range overflow total w h = rw h refl

sum_loop-number :
    (overflow : ℕ → ℕ → ℕ) (passes total w : ℕ) (gap rest : List ℕ)
    → w < 2 ^ 64
    → adds_in_range total w ≡ true
    → IsBlank gap
    → StopsDigits rest
    → sum_loop overflow (suc passes) total (gap ++ (signed_decimal w ++ rest))
      ≡ sum_loop overflow passes ((total + w) % u64_mod) rest
sum_loop-number overflow passes total w gap rest h range blank stops =
    let (c, cs, e, t) = signed_decimal-cons w in
    let skipped : skip_spaces (gap ++ (c ∷ (cs ++ rest))) ≡ c ∷ (cs ++ rest) =
      skip_spaces-text gap (cs ++ rest) c blank t in
    let value : strtoll (c ∷ (cs ++ rest)) ≡ some (w, rest) =
      ap (λ l. strtoll (l ++ rest)) (sym e) ∙ strtoll-signed_decimal w rest h stops in
    let pass : sum_loop overflow (suc passes) total (gap ++ (c ∷ (cs ++ rest)))
        ≡ sum_loop overflow passes (signed_add overflow total w) rest =
      unfold sum_loop in rw (skipped, value, sum_loop) refl in
    ap (λ l. sum_loop overflow (suc passes) total (gap ++ (l ++ rest))) e
    ∙ pass
    ∙ ap (λ t. sum_loop overflow passes t rest) (signed_add-adds_in_range overflow total w range)

-- Numbers with the gaps before them, printed and added.
abbrev pub printed : List (List ℕ × ℕ) → List (List ℕ × List ℕ)
printed [] = []
printed ((gap, w) ∷ numbers) = (gap, signed_decimal w) ∷ printed numbers

abbrev pub sum_of : List (List ℕ × ℕ) → ℕ
sum_of [] = 0
sum_of ((gap, w) ∷ numbers) = w + sum_of numbers

-- Added one by one to `total`, no sum leaves the range of `long long`.
abbrev pub StaysInRange : ℕ → List (List ℕ × ℕ) → Type 0
StaysInRange total [] = Unit
StaysInRange total ((gap, w) ∷ numbers) =
    (adds_in_range total w ≡ true) × StaysInRange ((total + w) % u64_mod) numbers

spaced-stops :
    (numbers : List (List ℕ × ℕ)) (tail : List ℕ)
    → HasGaps true (printed numbers)
    → IsBlank tail
    → StopsDigits (spaced (printed numbers) tail)
spaced-stops [] [] g t = tt
spaced-stops [] (c ∷ tail) g t = blank_stops c t.0
spaced-stops (([], w) ∷ numbers) tail g t = absurd (omega (arith, g.0))
spaced-stops ((c ∷ gap, w) ∷ numbers) tail g t = blank_stops c g.1.0

weaken_gaps : (b : Bool) (words : List (List ℕ × List ℕ)) → HasGaps b words → HasGaps false words
weaken_gaps b [] g = tt
weaken_gaps false ((gap, word) ∷ words) g = g
weaken_gaps true ((gap, word) ∷ words) g = (g.1, g.2)

sum_loop-spaced :
    (overflow : ℕ → ℕ → ℕ) (numbers : List (List ℕ × ℕ)) (tail : List ℕ) (passes total : ℕ)
    → length numbers < passes
    → total < 2 ^ 64
    → HasGaps false (printed numbers)
    → All (λ n. n.1 < 2 ^ 64) numbers
    → StaysInRange total numbers
    → IsBlank tail
    → sum_loop overflow passes total (spaced (printed numbers) tail)
      ≡ some (ok (snprintf out_size (signed_decimal ((total + sum_of numbers) % 2 ^ 64))))
sum_loop-spaced overflow numbers tail zero total p b g h r t = absurd (omega (arith, p))
sum_loop-spaced overflow [] tail (suc passes) total p b g h r t =
    let blank : skip_spaces tail ≡ [] = skip_spaces-blank tail t in
    let end : sum_loop overflow (suc passes) total tail
        ≡ some (ok (snprintf out_size (signed_decimal total))) =
      unfold sum_loop in rw (blank, sum_loop) refl in
    end ∙ ap (λ v. some (ok (snprintf out_size (signed_decimal v)))) (omega (arith, b))
sum_loop-spaced overflow ((gap, w) ∷ numbers) tail (suc passes) total p b g h r t =
    sum_loop-number overflow passes total w gap (spaced (printed numbers) tail) h.0 r.0 g.0
      (spaced-stops numbers tail g.1 t)
    ∙ sum_loop-spaced overflow numbers tail passes ((total + w) % u64_mod) (omega (arith, p))
        (omega arith) (weaken_gaps true (printed numbers) g.1) h.1 r.1 t
    ∙ ap (λ v. some (ok (snprintf out_size (signed_decimal v)))) (omega arith)

length-spaced :
    (numbers : List (List ℕ × ℕ)) (tail : List ℕ)
    → length numbers ≤ length (spaced (printed numbers) tail)
length-spaced [] tail = omega arith
length-spaced ((gap, w) ∷ numbers) tail =
    let (c, cs, e, t) = signed_decimal-cons w in
    omega (
      arith,
      ap length e,
      length-spaced numbers tail,
      length-append gap (signed_decimal w ++ spaced (printed numbers) tail),
      length-append (signed_decimal w) (spaced (printed numbers) tail),
    )

-- Numbers of 64 bits as `%lld` prints them, in two's complement, with white space between them and
-- any before the first and behind the last, are added: if no sum on the way leaves the range of
-- `long long`, `sum` prints their sum, whatever the compiled program makes of an addition that
-- overflows.
pub fn_sum-spaced :
    (overflow : ℕ → ℕ → ℕ) (numbers : List (List ℕ × ℕ)) (tail : List ℕ)
    → HasGaps false (printed numbers)
    → All (λ n. n.1 < 2 ^ 64) numbers
    → StaysInRange 0 numbers
    → IsBlank tail
    → fn_sum overflow (spaced (printed numbers) tail)
      ≡ some (ok (signed_decimal (sum_of numbers % 2 ^ 64)))
unfolding fn_sum
fn_sum-spaced overflow numbers tail g h r t =
    sum_loop-spaced overflow numbers tail (suc (length (spaced (printed numbers) tail))) 0
      (omega (arith, length-spaced numbers tail)) (omega arith) g h r t
    ∙ ap (λ v. some (ok (snprintf out_size (signed_decimal (v % 2 ^ 64))))) (omega arith)
    ∙ ap (λ l. some (ok l))
        (take_short 255 (signed_decimal (sum_of numbers % 2 ^ 64))
          (omega (arith, length-signed_decimal (sum_of numbers % 2 ^ 64))))
