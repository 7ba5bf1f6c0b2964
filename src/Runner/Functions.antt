-- ===== src/Runner/Functions.antt =====
-- runner.c: the built-in functions `wordcount` and `sum`.
pub mod Spaced
pub mod Words
pub mod Ends
pub mod Sum
use cs360v_cs380_projects.Prelude.{
  ℕ, zero, suc, ◌+◌, ◌-◌, ◌%◌, ◌^◌, if◌then◌else◌, List, [], ◌∷◌, ◌++◌, Bool, true, false, Option,
  none, some, length, take, codes, ltb, leb, u64_mod, ◌&&◌,
}
use cs360v_cs380_projects.Prelude.Text.{is_space, decimal, skip_spaces}
use cs360v_cs380_projects.Runner.Numbers.{strtoll, signed_decimal}

-- `snprintf(out, n, …)` of a text: what fits before the NUL.
abbrev pub snprintf : ℕ → List ℕ → List ℕ
snprintf n text = take (n - 1) text

-- `sizeof out`
abbrev pub out_size : ℕ
out_size = 256

-- What a function returns, 0 or -1, with the text that it wrote.
pub data FnResult : Type 0 where
  ok : List ℕ → FnResult
  failed : List ℕ → FnResult

abbrev pub text_of : FnResult → List ℕ
text_of (ok out) = out
text_of (failed out) = out

-- The loop of `fn_wordcount`.
unfoldable pub count_words : (in_word : Bool) → ℕ → List ℕ → ℕ
count_words in_word words [] = words
count_words in_word words (c ∷ cs) = elim (is_space c) [
  | true ↦ count_words false words cs
  | false ↦ count_words true (if in_word then words else words + 1) cs
]

unfoldable pub fn_wordcount : List ℕ → FnResult
unfolding count_words
fn_wordcount payload = ok (snprintf out_size (decimal (count_words false 0 payload)))

-- A word of 64 bits in two's complement, moved up by 2 ^ 63: `long long` from its least value on.
abbrev pub biased : ℕ → ℕ
biased w = (w + 2 ^ 63) % u64_mod

-- The sum of two `long long` is one.
unfoldable pub adds_in_range : ℕ → ℕ → Bool
adds_in_range x y =
    leb (2 ^ 63) (biased x + biased y) && ltb (biased x + biased y) (2 ^ 63 + u64_mod)

-- `total += v` on `long long`. C does not define it where the sum is out of range: `overflow` is
-- whatever word the compiled program has there.
unfoldable pub signed_add : (overflow : ℕ → ℕ → ℕ) → ℕ → ℕ → ℕ
unfolding adds_in_range
signed_add overflow total v =
    if adds_in_range total v then (total + v) % u64_mod else overflow total v % u64_mod

-- The loop of `fn_sum`, with a total of 64 bits, for so many passes; `none` where they do not
-- suffice.
unfoldable pub sum_loop : (overflow : ℕ → ℕ → ℕ) (passes : ℕ) → ℕ → List ℕ → Option FnResult
unfolding signed_add
sum_loop overflow zero total s = none
sum_loop overflow (suc passes) total s = elim (skip_spaces s) [
  | [] ↦ some (ok (snprintf out_size (signed_decimal total)))
  | c ∷ cs ↦ elim (strtoll (c ∷ cs)) [
    | none ↦ some (failed (snprintf out_size (codes "not a number")))
    | some (v, rest) ↦ sum_loop overflow passes (signed_add overflow total v) rest
  ]
]

-- Every pass takes a byte off at least.
unfoldable pub fn_sum : (overflow : ℕ → ℕ → ℕ) → List ℕ → Option FnResult
unfolding sum_loop
fn_sum overflow payload = sum_loop overflow (suc (length payload)) 0 payload
