-- ===== src/Netlog/Lines.antt =====
-- What netlog.c makes of the bytes of a connection.
use cs360v_cs380_projects.Prelude.{
  ℕ, ◌+◌, ◌%◌, ◌^◌, ◌<◌, ◌≡◌, refl, sym, ◌∙◌, ap, ◌==◌, List, [], ◌∷◌, ◌++◌, append-nil,
  append_assoc, false, All-append, length, length-append, u32_mod, arith,
}
use cs360v_cs380_projects.Prelude.Text.{
  newline, space, strtoul, split_at, split_at-append, c_string, c_string-Lacks, Lacks, decimal,
  strtoul-decimal, is_digit, decimal-IsDigits, digits-Lacks,
}
use cs360v_cs380_projects.LogStore.{logstore_append}
use cs360v_cs380_projects.Netlog.{Netlog, process_line, feed_byte, feed, line_max}

-- How the bytes are cut into reads does not matter.
pub feed-append :
    (xs ys : List ℕ) (nl : Netlog) (buf : List ℕ)
    → feed nl buf (xs ++ ys) ≡ (let (nl', buf') = feed nl buf xs in feed nl' buf' ys)
unfolding feed
feed-append [] ys nl buf = refl
feed-append (x ∷ xs) ys nl buf = feed-append xs ys (feed_byte nl buf x).0 (feed_byte nl buf x).1

-- The buffer always has room for one byte more, its NUL.
abbrev pub HasRoom : List ℕ → Type 0
HasRoom buf = length buf < line_max

feed_byte-HasRoom :
    (nl : Netlog) (buf : List ℕ) (ch : ℕ) → HasRoom buf → HasRoom (feed_byte nl buf ch).1
unfolding feed_byte
feed_byte-HasRoom nl buf ch h = ground (arith, length-append buf (ch ∷ []))

-- Whatever bytes arrive, the line buffer of 4200 bytes never overflows, its NUL included.
pub feed-HasRoom :
    (bytes : List ℕ) (nl : Netlog) (buf : List ℕ) → HasRoom buf → HasRoom (feed nl buf bytes).1
unfolding feed
feed-HasRoom [] nl buf h = h
feed-HasRoom (ch ∷ bytes) nl buf h =
    feed-HasRoom bytes (feed_byte nl buf ch).0 (feed_byte nl buf ch).1
      (feed_byte-HasRoom nl buf ch h)

feed-text :
    (xs : List ℕ) (nl : Netlog) (buf : List ℕ)
    → Lacks newline xs
    → length buf + length xs < line_max
    → feed nl buf xs ≡ (nl, buf ++ xs)
unfolding feed
feed-text [] nl buf n h = rw append-nil
feed-text (x ∷ xs) nl buf n h =
    let kept : feed_byte nl buf x ≡ (nl, buf ++ x ∷ []) = unfold feed_byte in ground (arith, n.0) in
    ap (λ (s : Netlog × List ℕ). feed s.0 s.1 xs) kept
    ∙ feed-text xs nl (buf ++ x ∷ []) n.1 (omega (arith, length-append buf (x ∷ [])))
    ∙ rw append_assoc

pub feed-line :
    (nl : Netlog) (line : List ℕ)
    → Lacks newline line
    → length line < line_max
    → feed nl [] (line ++ newline ∷ []) ≡ (process_line nl line, [])
feed-line nl line n h =
    feed-append line (newline ∷ []) nl []
    ∙ ap (λ (s : Netlog × List ℕ). feed s.0 s.1 (newline ∷ []))
        (feed-text line nl [] n (omega arith))
    ∙ unfold feed feed_byte in refl

-- The line that a producer sends for a record.
abbrev pub request : ℕ → List ℕ → List ℕ
request level msg = decimal level ++ space ∷ msg

pub request-Lacks :
    (c level : ℕ) (msg : List ℕ)
    → is_digit c ≡ false
    → (space == c) ≡ false
    → Lacks c msg
    → Lacks c (request level msg)
request-Lacks c level msg d s n =
    All-append (λ x. (x == c) ≡ false) (decimal level) (space ∷ msg)
      (digits-Lacks c (decimal level) d (decimal-IsDigits level)) (s, n)

pub process_line-request :
    (nl : Netlog) (level : ℕ) (msg : List ℕ)
    → level < 2 ^ 32
    → Lacks 0 msg
    → process_line nl (request level msg)
      ≡ record { store = logstore_append nl.store nl.seq level msg; seq = (nl.seq + 1) % 2 ^ 32 }
unfolding process_line
process_line-request nl level msg small n =
    let whole : c_string (request level msg) ≡ request level msg =
      c_string-Lacks (request level msg) (request-Lacks 0 level msg refl refl n) in
    let parts : split_at space (request level msg) ≡ (decimal level, msg) =
      split_at-append space (decimal level) msg
        (digits-Lacks space (decimal level) refl (decimal-IsDigits level)) in
    let value : strtoul (decimal level) % u32_mod ≡ level =
      ap (λ v. v % u32_mod) (strtoul-decimal level (omega arith)) ∙ omega arith in
    rw (whole, parts, value)

-- The bytes of several reads, one after the other.
unfoldable pub feed_reads : Netlog → List ℕ → List (List ℕ) → Netlog × List ℕ
feed_reads nl buf [] = (nl, buf)
feed_reads nl buf (read ∷ reads) = let (nl', buf') = feed nl buf read in feed_reads nl' buf' reads

abbrev pub concat : List (List ℕ) → List ℕ
concat [] = []
concat (xs ∷ xss) = xs ++ concat xss

pub feed_reads-concat :
    (reads : List (List ℕ)) (nl : Netlog) (buf : List ℕ)
    → feed_reads nl buf reads ≡ feed nl buf (concat reads)
unfolding feed_reads
feed_reads-concat [] nl buf = unfold feed in refl
feed_reads-concat (read ∷ reads) nl buf =
    feed_reads-concat reads (feed nl buf read).0 (feed nl buf read).1
    ∙ sym (feed-append read (concat reads) nl buf)

-- A producer's record, `<level> <message>` and a newline, is appended once, with its level and its
-- message and under the listener's next number, in however many reads its bytes arrive, and leaves
-- the line buffer empty: for a level of 32 bits and a message without newline and NUL, if the line
-- is shorter than 4200 bytes.
pub feed_reads-request :
    (nl : Netlog) (level : ℕ) (msg : List ℕ) (reads : List (List ℕ))
    → level < 2 ^ 32
    → Lacks newline msg
    → Lacks 0 msg
    → length (request level msg) < line_max
    → concat reads ≡ request level msg ++ newline ∷ []
    → feed_reads nl [] reads ≡ (
      record { store = logstore_append nl.store nl.seq level msg; seq = (nl.seq + 1) % 2 ^ 32 },
      [],
    )
feed_reads-request nl level msg reads small n z short whole =
    feed_reads-concat reads nl []
    ∙ ap (feed nl []) whole
    ∙ feed-line nl (request level msg) (request-Lacks newline level msg refl refl n) short
    ∙ ap (λ s. (s, [])) (process_line-request nl level msg small z)
