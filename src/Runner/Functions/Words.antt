-- ===== src/Runner/Functions/Words.antt =====
-- runner.c, `fn_wordcount`: what it counts.
use cs360v_cs380_projects.Prelude.{
  ℕ, ◌+◌, ◌<◌, ◌≡◌, refl, ◌∙◌, ap, List, [], ◌∷◌, ◌++◌, Bool, true, false, All, length, arith,
  take_short,
}
use cs360v_cs380_projects.Prelude.Text.{is_space, decimal, length-decimal}
use cs360v_cs380_projects.Runner.Functions.{count_words, fn_wordcount, ok, snprintf, out_size}
use cs360v_cs380_projects.Runner.Functions.Spaced.{spaced, IsBlank, HasGaps}

-- A word has a byte, and no white space.
pub record IsWord (word : List ℕ) : Type 0 where
  pub some_byte : 0 < length word
  pub no_space : All (λ c. is_space c ≡ false) word

count_words-blank :
    (gap rest : List ℕ) (n : ℕ)
    → IsBlank gap
    → count_words false n (gap ++ rest) ≡ count_words false n rest
unfolding count_words
count_words-blank [] rest n h = refl
count_words-blank (c ∷ gap) rest n h = rw (h.0, count_words) (count_words-blank gap rest n h.1)

count_words-gap :
    (b : Bool) (gap rest : List ℕ) (n : ℕ)
    → 0 < length gap
    → IsBlank gap
    → count_words b n (gap ++ rest) ≡ count_words false n rest
unfolding count_words
count_words-gap b [] rest n p h = absurd (omega (arith, p))
count_words-gap b (c ∷ gap) rest n p h = rw (h.0, count_words) (count_words-blank gap rest n h.1)

count_words-inside :
    (word rest : List ℕ) (n : ℕ)
    → All (λ c. is_space c ≡ false) word
    → count_words true n (word ++ rest) ≡ count_words true n rest
unfolding count_words
count_words-inside [] rest n h = refl
count_words-inside (c ∷ word) rest n h = rw (h.0, count_words) (count_words-inside word rest n h.1)

count_words-word :
    (word rest : List ℕ) (n : ℕ)
    → IsWord word
    → count_words false n (word ++ rest) ≡ count_words true (n + 1) rest
unfolding count_words
count_words-word [] rest n h = absurd (omega (arith, h.some_byte))
count_words-word (c ∷ word) rest n h =
    rw (h.no_space.0, count_words) (count_words-inside word rest (n + 1) h.no_space.1)

pub count_words-tail : (b : Bool) (tail : List ℕ) (n : ℕ) → IsBlank tail → count_words b n tail ≡ n
unfolding count_words
count_words-tail b [] n h = refl
count_words-tail b (c ∷ tail) n h = rw (h.0, count_words) (count_words-tail false tail n h.1)

count_words-spaced :
    (b : Bool) (words : List (List ℕ × List ℕ)) (tail : List ℕ) (n : ℕ)
    → HasGaps b words
    → All (λ w. IsWord w.1) words
    → IsBlank tail
    → count_words b n (spaced words tail) ≡ n + length words
count_words-spaced b [] tail n g h t = count_words-tail b tail n t ∙ omega arith
count_words-spaced false ((gap, word) ∷ words) tail n g h t =
    count_words-blank gap (word ++ spaced words tail) n g.0
    ∙ count_words-word word (spaced words tail) n h.0
    ∙ count_words-spaced true words tail (n + 1) g.1 h.1 t
    ∙ omega arith
count_words-spaced true ((gap, word) ∷ words) tail n g h t =
    count_words-gap true gap (word ++ spaced words tail) n g.0 g.1
    ∙ count_words-word word (spaced words tail) n h.0
    ∙ count_words-spaced true words tail (n + 1) g.2 h.1 t
    ∙ omega arith

-- A text of words, with white space between them and any before the first and behind the last, has
-- as many words as `wordcount` prints.
pub fn_wordcount-spaced :
    (words : List (List ℕ × List ℕ)) (tail : List ℕ)
    → HasGaps false words
    → All (λ w. IsWord w.1) words
    → IsBlank tail
    → fn_wordcount (spaced words tail) ≡ ok (decimal (length words))
unfolding fn_wordcount
fn_wordcount-spaced words tail g h t =
    ap (λ n. ok (snprintf out_size (decimal n)))
      (count_words-spaced false words tail 0 g h t ∙ omega arith)
    ∙ ap ok (take_short 255 (decimal (length words)) (omega (arith, length-decimal (length words))))
