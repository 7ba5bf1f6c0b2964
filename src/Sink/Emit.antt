-- ===== src/Sink/Emit.antt =====
-- What `vlog_sink_emit` appends.
use cs360v_cs380_projects.Prelude.{
  ℕ, zero, suc, ◌+◌, ◌-◌, ◌%◌, ◌^◌, ◌<◌, ◌≤◌, ◌≡◌, refl, ◌∙◌, ap, leb, ◌==◌, List, [], ◌∷◌, ◌++◌,
  true, false, ◌&&◌, All, take, length, length-append, arith, u32_mod, append_assoc, sym,
  if◌then◌else◌,
}
use cs360v_cs380_projects.Prelude.Text.{space}
use cs360v_cs380_projects.LogStore.{logstore_append}
use cs360v_cs380_projects.Sink.{Sink, byte_at, is_eol, strip_eol, append_record, vlog_sink_emit}

byte_at-append : (xs ys : List ℕ) (k : ℕ) → byte_at (xs ++ ys) (length xs + k) ≡ byte_at ys k
byte_at-append [] ys k = ap (byte_at ys) (omega arith)
byte_at-append (x ∷ xs) ys k =
    let e : suc (length xs) + k ≡ suc (length xs + k) = omega arith in rw e (byte_at-append xs ys k)

All-byte_at : (P : ℕ → Type 0) (xs : List ℕ) (k : ℕ) → All P xs → k < length xs → P (byte_at xs k)
All-byte_at P [] k h b = absurd (omega arith)
All-byte_at P (x ∷ xs) zero h b = h.0
All-byte_at P (x ∷ xs) (suc k) h b = All-byte_at P xs k h.1 (omega arith)

-- Line ends at the end are taken off one by one.
strip_eol-tail :
    (xs eols : List ℕ) (k : ℕ)
    → All (λ c. is_eol c ≡ true) eols
    → k ≤ length eols
    → strip_eol (xs ++ eols) (length xs + k) ≡ strip_eol (xs ++ eols) (length xs)
unfolding strip_eol
strip_eol-tail xs eols zero h b = ap (strip_eol (xs ++ eols)) (omega arith)
strip_eol-tail xs eols (suc k) h b =
    let e : length xs + suc k ≡ suc (length xs + k) = omega arith in
    let end : is_eol (byte_at (xs ++ eols) (length xs + k)) ≡ true =
      ap is_eol (byte_at-append xs eols k)
      ∙ All-byte_at (λ c. is_eol c ≡ true) eols k h (omega arith) in
    rw e (rw (end, strip_eol) (strip_eol-tail xs eols k h (omega arith)))

-- A text byte stops it.
strip_eol-text :
    (xs eols : List ℕ) (x : ℕ)
    → is_eol x ≡ false
    → All (λ c. is_eol c ≡ true) eols
    → strip_eol (xs ++ x ∷ eols) (length (xs ++ x ∷ eols)) ≡ suc (length xs)
unfolding strip_eol
strip_eol-text xs eols x t h =
    let whole : length (xs ++ x ∷ eols) ≡ length (xs ++ x ∷ []) + length eols =
      omega (arith, length-append xs (x ∷ eols), length-append xs (x ∷ [])) in
    let split : xs ++ x ∷ eols ≡ (xs ++ x ∷ []) ++ eols = rw append_assoc in
    let front : length (xs ++ x ∷ []) ≡ suc (length xs) =
      omega (arith, length-append xs (x ∷ [])) in
    let here : is_eol (byte_at (xs ++ x ∷ eols) (length xs)) ≡ false =
      ap (λ k. is_eol (byte_at (xs ++ x ∷ eols) k)) (omega arith)
      ∙ ap is_eol (byte_at-append xs (x ∷ eols) 0)
      ∙ t in
    ap (strip_eol (xs ++ x ∷ eols)) whole
    ∙ ap (λ p. strip_eol p (length (xs ++ x ∷ []) + length eols)) split
    ∙ strip_eol-tail (xs ++ x ∷ []) eols (length eols) h (omega arith)
    ∙ ap (λ p. strip_eol p (length (xs ++ x ∷ []))) (sym split)
    ∙ ap (strip_eol (xs ++ x ∷ eols)) front
    ∙ rw (here, strip_eol)

take-append : (xs eols : List ℕ) (x : ℕ) → take (suc (length xs)) (xs ++ x ∷ eols) ≡ xs ++ x ∷ []
take-append [] eols x = refl
take-append (y ∷ xs) eols x = ap (λ l. y ∷ l) (take-append xs eols x)

-- The level and the message of a record's text.
abbrev pub level_of : List ℕ → ℕ × List ℕ
level_of (a ∷ b ∷ rest) =
    if leb 48 a && leb a 57 && (b == space) then (a - 48, rest) else (1, a ∷ b ∷ rest)
level_of p = (1, p)

append_record-level_of :
    (sink : Sink) (p : List ℕ)
    → append_record sink p ≡ record {
      store = logstore_append sink.store sink.seq (level_of p).0 (level_of p).1;
      seq = (sink.seq + 1) % u32_mod;
    }
unfolding append_record
append_record-level_of sink [] = refl
append_record-level_of sink (a ∷ []) = refl
append_record-level_of sink (a ∷ b ∷ rest) = ground arith

emit_cut :
    (sink : Sink) (p : List ℕ) (n : ℕ)
    → strip_eol p (length p) ≡ suc n
    → vlog_sink_emit sink p ≡ append_record sink (take (suc n) p)
unfolding vlog_sink_emit
emit_cut sink p n e = rw (e, vlog_sink_emit) (ground arith)

emit_nothing :
    (sink : Sink) (p : List ℕ) → strip_eol p (length p) ≡ 0 → vlog_sink_emit sink p ≡ sink
unfolding vlog_sink_emit
emit_nothing sink p e = rw (e, vlog_sink_emit)

-- A text that ends in a byte other than a line end, with any number of line ends behind it, is
-- appended as one record without them, under the sink's next number: at the level of its leading
-- digit where a space follows that digit, which then belong to no message, and at INFO otherwise.
-- Line ends alone append nothing.
pub vlog_sink_emit_lem :
    (sink : Sink) (eols : List ℕ)
    → All (λ c. is_eol c ≡ true) eols
    → ((init : List ℕ) (last : ℕ)
        → is_eol last ≡ false
        → let (level, message) = level_of (init ++ last ∷ []) in
          vlog_sink_emit sink (init ++ last ∷ eols) ≡ record {
            store = logstore_append sink.store sink.seq level message;
            seq = (sink.seq + 1) % 2 ^ 32;
          })
      × (vlog_sink_emit sink eols ≡ sink)
vlog_sink_emit_lem sink eols h = (
  λ init last t.
      emit_cut sink (init ++ last ∷ eols) (length init) (strip_eol-text init eols last t h)
      ∙ ap (append_record sink) (take-append init eols last)
      ∙ append_record-level_of sink (init ++ last ∷ []),
  emit_nothing sink eols (
      ap (strip_eol eols) (omega arith)
      ∙ strip_eol-tail [] eols (length eols) h (omega arith)
      ∙ nothing),
)
  where
    nothing : strip_eol eols 0 ≡ 0
    nothing = unfold strip_eol in refl
