-- ===== src/LogStore/Records.antt =====
-- The log file as text: the line that a record makes, and a reader of such lines.
use cs360v_cs380_projects.Prelude.{
  ℕ, zero, suc, ◌<◌, ◌/◌, ◌^◌, ◌==◌, ◌≡◌, refl, ◌∙◌, true, false, ltb, ◌&&◌, Bool-cases, inl, inr,
  if◌then◌else◌, Option, none, some, List, [], ◌∷◌, ◌++◌, map, append-nil, append_assoc, All,
  All-append, arith,
}
use cs360v_cs380_projects.Prelude.Text.{
  decimal, decimal_digits, read_digits, read_digits-decimal, split_at, split_at-append, Lacks,
  newline, space,
}
use cs360v_cs380_projects.LogStore.{
  LogStore, Entry, level_name, logstore_open, logstore_append, append_all,
}

-- `[<seq>] <LEVEL> <bytes>`, the line of one record less its newline.
abbrev pub line_of : ℕ → ℕ → List ℕ → List ℕ
line_of seq level bytes = b'[' ∷ (decimal seq ++ b']' ∷ space ∷ (level_name level ++ space ∷ bytes))

abbrev pub text_of : List Entry → List ℕ
text_of [] = []
text_of (e ∷ es) = line_of e.seq e.level e.bytes ++ newline ∷ text_of es

-- What a reader of the file makes of a line: sequence number, level name and message.
abbrev pub Reading : Type 0
Reading = ℕ × List ℕ × List ℕ

unfoldable pub read_fields : ℕ × List ℕ → Option Reading
unfolding split_at
read_fields (n, []) = none
read_fields (n, a ∷ []) = none
read_fields (n, a ∷ b ∷ rest) =
    let (name, message) = split_at space rest in
    if (a == b']') && (b == space) then some (n, name, message) else none

unfoldable pub read_line : List ℕ → Option Reading
unfolding read_digits read_fields
read_line [] = none
read_line (c ∷ cs) = if c == b'[' then read_fields (read_digits 0 cs) else none

-- The complete lines of a file; `cur` is the start of the present one.
unfoldable pub lines : List ℕ → List ℕ → List (List ℕ)
lines cur [] = []
lines cur (c ∷ cs) = elim (c == newline) [
  | true ↦ cur ∷ lines [] cs
  | false ↦ lines (cur ++ c ∷ []) cs
]

unfoldable pub read_log : List ℕ → List (Option Reading)
unfolding lines read_line
read_log file = map read_line (lines [] file)

abbrev pub IsClean : Entry → Type 0
IsClean e = (e.seq < 2 ^ 32) × Lacks newline e.bytes

abbrev pub reading_of : Entry → Option Reading
reading_of e = some (e.seq, level_name e.level, e.bytes)

Lacks-decimal_digits :
    (fuel n : ℕ) (acc : List ℕ) → Lacks newline acc → Lacks newline (decimal_digits fuel n acc)
unfolding decimal_digits
Lacks-decimal_digits zero n acc h = h
Lacks-decimal_digits (suc fuel) n acc h = elim (Bool-cases (ltb n 10)) [
  | inl small ↦ rw small (ground arith, h)
  | inr big ↦ rw big (Lacks-decimal_digits fuel (n / 10) _ (ground arith, h))
]

Lacks-newline-decimal : (n : ℕ) → Lacks newline (decimal n)
unfolding decimal
Lacks-newline-decimal n = Lacks-decimal_digits 20 n [] tt

Lacks-newline-level_name : (level : ℕ) → Lacks newline (level_name level)
Lacks-newline-level_name level = ground arith

Lacks-space-level_name : (level : ℕ) → Lacks space (level_name level)
Lacks-space-level_name level = ground arith

Lacks-line_of :
    (seq level : ℕ) (bytes : List ℕ) → Lacks newline bytes → Lacks newline (line_of seq level bytes)
Lacks-line_of seq level bytes h =
    let named =
      All-append (λ c. (c == newline) ≡ false) (level_name level) (space ∷ bytes)
        (Lacks-newline-level_name level) (refl, h) in
    let numbered =
      All-append (λ c. (c == newline) ≡ false) (decimal seq) _ (Lacks-newline-decimal seq)
        (refl, (refl, named)) in
    (refl, numbered)

lines-append :
    (cur xs rest : List ℕ)
    → Lacks newline xs
    → lines cur (xs ++ newline ∷ rest) ≡ (cur ++ xs) ∷ lines [] rest
unfolding lines
lines-append cur [] rest h = rw append-nil
lines-append cur (x ∷ xs) rest h =
    rw (h.0, lines) (lines-append (cur ++ x ∷ []) xs rest h.1 ∙ rw append_assoc)

read_line-line_of :
    (seq level : ℕ) (bytes : List ℕ)
    → seq < 2 ^ 32
    → read_line (line_of seq level bytes) ≡ some (seq, level_name level, bytes)
unfolding read_line read_fields
read_line-line_of seq level bytes h =
    rw (read_digits-decimal seq b']' _ (omega arith) refl)
      (rw (split_at-append space (level_name level) bytes (Lacks-space-level_name level)))

pub append_lem :
    (ls : LogStore) (seq level : ℕ) (bytes : List ℕ)
    → ls.pending ≡ []
    → logstore_append ls seq level bytes
      ≡ record { disk = ls.disk ++ (line_of seq level bytes ++ newline ∷ []); pending = [] }
unfolding logstore_append
append_lem ls seq level bytes h =
    rw (h, append_assoc (decimal seq), append_assoc (level_name level))

pub append_all_text :
    (es : List Entry) (ls : LogStore)
    → ls.pending ≡ []
    → append_all ls es ≡ record { disk = ls.disk ++ text_of es; pending = [] }
unfolding append_all
append_all_text [] ls h = rw (append-nil, ← h)
append_all_text (e ∷ es) ls h = rw (append_lem ls e.seq e.level e.bytes h) (
    append_all_text es _ refl
    ∙ rw (append_assoc ls.disk, append_assoc (line_of e.seq e.level e.bytes)))

read_text :
    (es : List Entry) → All IsClean es → map read_line (lines [] (text_of es)) ≡ map reading_of es
read_text [] h = unfold lines in refl
read_text (e ∷ es) h =
    rw
      (lines-append [] (line_of e.seq e.level e.bytes) (text_of es)
        (Lacks-line_of e.seq e.level e.bytes h.0.1))
      (rw (read_line-line_of e.seq e.level e.bytes h.0.0, read_text es h.1))

-- Whatever the producers append in turn to a freshly opened store, with 32-bit sequence numbers
-- and messages that hold no newline, a reader of the file gets back: one line for each call, in
-- the order of the calls, with its sequence number, its level's name and its message; and nothing
-- is left in the stdio buffer.
pub read_log-append_all :
    (es : List Entry)
    → All IsClean es
    → (read_log (append_all logstore_open es).disk ≡ map reading_of es)
      × ((append_all logstore_open es).pending ≡ [])
unfolding read_log
read_log-append_all es h = rw (append_all_text es logstore_open refl) (read_text es h, refl)
