-- ===== src/Transports/Lines.antt =====
-- The three ways into the log of project_1: what one message leaves in the log.
use cs360v_cs380_projects.Prelude.{
  ℕ, ◌+◌, ◌<◌, ◌%◌, ◌^◌, ◌≡◌, refl, ◌∙◌, ap, sym, List, [], ◌∷◌, ◌++◌, length, arith, append_assoc,
  false,
}
use cs360v_cs380_projects.Prelude.Text.{
  newline, carriage_return, space, Lacks, decimal, decimal_digits,
}
use cs360v_cs380_projects.LogStore.{logstore_append}
use cs360v_cs380_projects.Sink.{Sink, is_eol, vlog_sink_emit}
use cs360v_cs380_projects.Sink.Emit.{level_of, vlog_sink_emit_lem}
use cs360v_cs380_projects.Netlog.{Netlog, feed}
use cs360v_cs380_projects.Netlog.Lines.{request, feed-line, request-Lacks, process_line-request}
use cs360v_cs380_projects.Transports.{Message, IsMessage, wire_line}

-- A text that holds no line end has a last byte that is none.
last_byte :
    (text : List ℕ)
    → 0 < length text
    → Lacks newline text
    → Lacks carriage_return text
    → (init : List ℕ) × (last : ℕ) × (text ≡ init ++ last ∷ []) × (is_eol last ≡ false)
last_byte [] some n r = absurd (omega (arith, some))
last_byte (c ∷ []) some n r = ([], c, refl, ground (arith, n.0, r.0))
last_byte (c ∷ d ∷ cs) some n r =
    let (init, last, split, text) = last_byte (d ∷ cs) (omega arith) n.1 r.1 in
    (c ∷ init, last, ap (λ (l : List ℕ). c ∷ l) split, text)

level_of-digit :
    (level : ℕ) (text : List ℕ)
    → level < 10
    → level_of ((48 + level) ∷ space ∷ text) ≡ (level, text)
level_of-digit level text h = ground arith

decimal-digit : (level : ℕ) → level < 10 → decimal level ≡ (48 + level) ∷ []
unfolding decimal decimal_digits
decimal-digit level h = ground arith

module _ (m : Message) (is : IsMessage m) where
  -- The virtio sink strips the newline and reads the level.
  pub emit-wire_line :
      (sink : Sink)
      → vlog_sink_emit sink (wire_line m) ≡ record {
        store = logstore_append sink.store sink.seq m.level m.held.text;
        seq = (sink.seq + 1) % 2 ^ 32;
      }
  emit-wire_line sink =
      let (init, last, split, not_eol) =
        last_byte m.held.text is.some_text is.no_newline is.no_return in
      let whole : wire_line m ≡ ((48 + m.level) ∷ space ∷ init) ++ last ∷ newline ∷ [] =
        ap (λ (l : List ℕ). (48 + m.level) ∷ space ∷ (l ++ newline ∷ [])) split
        ∙ ap (λ (l : List ℕ). (48 + m.level) ∷ space ∷ l)
            (append_assoc init (last ∷ []) (newline ∷ [])) in
      let parts : level_of (((48 + m.level) ∷ space ∷ init) ++ last ∷ []) ≡ (m.level, m.held.text) =
        level_of-digit m.level (init ++ last ∷ []) is.digit
        ∙ ap (λ (l : List ℕ). (m.level, l)) (sym split) in
      ap (vlog_sink_emit sink) whole
      ∙ (vlog_sink_emit_lem sink (newline ∷ []) (refl, tt)).0 ((48 + m.level) ∷ space ∷ init) last
          not_eol
      ∙ ap
          (λ (p : ℕ × List ℕ). record {
            store = logstore_append sink.store sink.seq p.0 p.1;
            seq = (sink.seq + 1) % 2 ^ 32;
          })
          parts

  -- The network listener splits the line at its first space.
  pub feed-wire_line :
      (nl : Netlog)
      → feed nl [] (wire_line m) ≡ (
        record {
          store = logstore_append nl.store nl.seq m.level m.held.text;
          seq = (nl.seq + 1) % 2 ^ 32;
        },
        [],
      )
  feed-wire_line nl =
      let digit : decimal m.level ≡ (48 + m.level) ∷ [] = decimal-digit m.level is.digit in
      let whole : wire_line m ≡ request m.level m.held.text ++ newline ∷ [] =
        ap (λ (l : List ℕ). (l ++ space ∷ m.held.text) ++ newline ∷ []) (sym digit) in
      let size : length (request m.level m.held.text) ≡ 2 + length m.held.text =
        ap (λ (l : List ℕ). length (l ++ space ∷ m.held.text)) digit ∙ omega arith in
      ap (feed nl []) whole
      ∙ feed-line nl (request m.level m.held.text)
          (request-Lacks newline m.level m.held.text refl refl is.no_newline)
          (omega (arith, size, is.short))
      ∙ ap (λ s. (s, []))
          (process_line-request nl m.level m.held.text (omega (arith, is.digit)) is.no_nul)
