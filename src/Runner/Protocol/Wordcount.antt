-- ===== src/Runner/Protocol/Wordcount.antt =====
-- runner.c: the command `RUN wordcount`, from the line to the reply.
use cs360v_cs380_projects.Prelude.{
  ℕ, zero, suc, ◌+◌, ◌-◌, ◌<◌, ◌≤◌, ◌≡◌, refl, sym, ◌∙◌, ap, List, [], ◌∷◌, ◌++◌, Bool, true, false,
  All, All-append, length, arith, take, take_short, inl, inr, Bool-cases, ltb, ◌==◌, if◌then◌else◌,
  append-nil, append_assoc, length-append, Option, some, codes,
}
use cs360v_cs380_projects.Prelude.Text.{
  newline, is_space, decimal, length-decimal, split_at, c_string, c_string-Lacks, Lacks,
}
use cs360v_cs380_projects.Sink.{is_eol, byte_at, strip_eol}
use cs360v_cs380_projects.Runner.Functions.{count_words, fn_wordcount, ok}
use cs360v_cs380_projects.Runner.Functions.Spaced.{spaced, IsBlank, HasGaps}
use cs360v_cs380_projects.Runner.Functions.Words.{IsWord, fn_wordcount-spaced, count_words-tail}
use cs360v_cs380_projects.Runner.Protocol.{
  Outcome, handle_line, command, stripped, run_command, run_fn, find_fn, skip_blanks, after_prefix,
  invoked_with,
}

take-suc : (n : ℕ) (p : List ℕ) → n < length p → take (suc n) p ≡ take n p ++ byte_at p n ∷ []
take-suc n [] h = absurd (omega (arith, h))
take-suc zero (x ∷ p) h = refl
take-suc (suc n) (x ∷ p) h = ap (λ l. x ∷ l) (take-suc n p (omega (arith, h)))

-- What is stripped is white space.
strip_eol-IsBlank :
    (p : List ℕ) (n : ℕ)
    → n ≤ length p
    → (eols : List ℕ) × (take n p ≡ take (strip_eol p n) p ++ eols) × IsBlank eols
unfolding strip_eol
strip_eol-IsBlank p zero h = ([], refl, tt)
strip_eol-IsBlank p (suc n) h = elim (Bool-cases (is_eol (byte_at p n))) [
  | inl eol ↦
      let (eols, e, blank) = strip_eol-IsBlank p n (omega (arith, h)) in
      (
        eols ++ byte_at p n ∷ [],
        rw (eol, strip_eol)
            (take-suc n p (omega (arith, h))
              ∙ ap (λ l. l ++ byte_at p n ∷ []) e
              ∙ append_assoc (take (strip_eol p n) p) eols (byte_at p n ∷ [])),
        All-append (λ c. is_space c ≡ true) eols (byte_at p n ∷ []) blank (ground (arith, eol), tt),
      )
  | inr text ↦ ([], rw (text, strip_eol) (sym (append-nil (take (suc n) p))), tt)
]

-- It ends behind a byte that is no line end.
strip_eol-floor : (p : List ℕ) (n m : ℕ) → m < n → is_eol (byte_at p m) ≡ false → m < strip_eol p n
unfolding strip_eol
strip_eol-floor p zero m h t = absurd (omega (arith, h))
strip_eol-floor p (suc n) m h t = elim (Bool-cases (is_eol (byte_at p n))) [
  | inr text ↦ rw (text, strip_eol) (omega (arith, h))
  | inl eol ↦ elim (Bool-cases (ltb m n)) [
    | inl less ↦ rw (eol, strip_eol) (strip_eol-floor p n m (ground (arith, less)) t)
    | inr same ↦
        let here : m ≡ n = ground (arith, same, h) in
        let both : true ≡ false = sym (ap (λ k. is_eol (byte_at p k)) here ∙ eol) ∙ t in
        absurd (ground (arith, both))
  ]
]

take_append : (xs ys : List ℕ) (j : ℕ) → take (length xs + j) (xs ++ ys) ≡ xs ++ take j ys
take_append [] ys j = ap (λ k. take k ys) (omega arith)
take_append (x ∷ xs) ys j =
    let e : suc (length xs) + j ≡ suc (length xs + j) = omega arith in
    ap (λ k. take k (x ∷ (xs ++ ys))) e ∙ ap (λ l. x ∷ l) (take_append xs ys j)

abbrev rest_of : List ℕ → List ℕ
rest_of [] = []
rest_of (x ∷ xs) = xs

append_cancel : (xs ys zs : List ℕ) → xs ++ ys ≡ xs ++ zs → ys ≡ zs
append_cancel [] ys zs e = e
append_cancel (x ∷ xs) ys zs e = append_cancel xs ys zs (ap rest_of e)

count_words-append :
    (b : Bool) (n : ℕ) (p eols : List ℕ)
    → IsBlank eols
    → count_words b n (p ++ eols) ≡ count_words b n p
unfolding count_words
count_words-append b n [] eols h = count_words-tail b eols n h
count_words-append b n (c ∷ p) eols h = elim (Bool-cases (is_space c)) [
  | inl blank ↦ rw (blank, count_words) (count_words-append false n p eols h)
  | inr text ↦ rw (text, count_words) (count_words-append true (if b then n else n + 1) p eols h)
]

abbrev prefix : List ℕ
prefix = codes "RUN wordcount "

-- A line of that command without its line ends.
stripped-prefix :
    (payload : List ℕ)
    → (q eols : List ℕ) × (stripped (prefix ++ payload) ≡ prefix ++ q)
      × (payload ≡ q ++ eols)
      × IsBlank eols
unfolding stripped
stripped-prefix payload =
    let line = prefix ++ payload in
    let n = length line in
    let (eols, e, blank) = strip_eol-IsBlank line n (omega arith) in
    let floor : 13 < strip_eol line n =
      strip_eol-floor line n 13 (omega (arith, length-append prefix payload)) refl in
    let j = strip_eol line n - 14 in
    let cut : take (strip_eol line n) line ≡ prefix ++ take j payload =
      ap (λ k. take k line) (omega (arith, floor)) ∙ take_append prefix payload j in
    let parts : prefix ++ payload ≡ prefix ++ (take j payload ++ eols) =
      sym (take_short n line (omega arith))
      ∙ e
      ∙ ap (λ l. l ++ eols) cut
      ∙ append_assoc prefix (take j payload) eols in
    (take j payload, eols, cut, append_cancel prefix payload (take j payload ++ eols) parts, blank)

fn_wordcount-append : (p eols : List ℕ) → IsBlank eols → fn_wordcount (p ++ eols) ≡ fn_wordcount p
unfolding fn_wordcount
fn_wordcount-append p eols h =
    ap (λ n. ok (take 255 (decimal n))) (count_words-append false 0 p eols h)

command-wordcount :
    (overflow : ℕ → ℕ → ℕ) (info : Option (List ℕ)) (q : List ℕ)
    → command overflow info (prefix ++ q) ≡ some (invoked_with (codes "wordcount") (fn_wordcount q))
unfolding command after_prefix run_command skip_blanks split_at run_fn find_fn
command-wordcount overflow info q = refl

-- What a client reads that asks for the number of words of a text.
abbrev pub counted : ℕ → Outcome
counted n = record {
  reply = codes "OK " ++ (decimal n ++ newline ∷ []);
  logs = (1, codes "invoke wordcount") ∷ (1, codes "wordcount -> " ++ decimal n) ∷ [];
  invoked = some (codes "wordcount");
}

invoked_with-counted : (n : ℕ) → invoked_with (codes "wordcount") (ok (decimal n)) ≡ counted n
unfolding invoked_with
invoked_with-counted n =
    ap
      (λ reply. record {
        reply = reply;
        logs = (1, codes "invoke wordcount") ∷ (1, codes "wordcount -> " ++ decimal n) ∷ [];
        invoked = some (codes "wordcount");
      })
      (take_short 511 (codes "OK " ++ (decimal n ++ newline ∷ []))
        (omega (arith, length-append (decimal n) (newline ∷ []), length-decimal n)))

prefix-Lacks : Lacks 0 prefix
prefix-Lacks = ground arith

-- The line `RUN wordcount TEXT` is answered `OK` and the number of words of the text, logged twice
-- at INFO, and told to `runner_on_invoke`: for words with white space between them, and any before
-- the first and behind the last, line ends included, without NUL.
pub handle_line-wordcount :
    (overflow : ℕ → ℕ → ℕ) (info : Option (List ℕ)) (words : List (List ℕ × List ℕ)) (tail : List ℕ)
    → HasGaps false words
    → All (λ w. IsWord w.1) words
    → IsBlank tail
    → Lacks 0 (spaced words tail)
    → handle_line overflow info (codes "RUN wordcount " ++ spaced words tail)
      ≡ some (counted (length words))
handle_line-wordcount overflow info words tail g h t z =
    let payload = spaced words tail in
    let (q, eols, cut, parts, blank) = stripped-prefix payload in
    let text : c_string (prefix ++ payload) ≡ prefix ++ payload =
      c_string-Lacks (prefix ++ payload)
        (All-append (λ c. (c == 0) ≡ false) prefix payload prefix-Lacks z) in
    let count : fn_wordcount q ≡ ok (decimal (length words)) =
      sym (fn_wordcount-append q eols blank)
      ∙ ap fn_wordcount (sym parts)
      ∙ fn_wordcount-spaced words tail g h t in
    let line : handle_line overflow info (prefix ++ payload) ≡ command overflow info (prefix ++ q) =
      unfold handle_line in
      ap (λ l. command overflow info (stripped l)) text ∙ ap (command overflow info) cut in
    line
    ∙ command-wordcount overflow info q
    ∙ ap (λ r. some (invoked_with (codes "wordcount") r)) count
    ∙ ap some (invoked_with-counted (length words))
