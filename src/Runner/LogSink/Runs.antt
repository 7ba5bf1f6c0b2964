-- ===== src/Runner/LogSink/Runs.antt =====
-- runner.c: sequences of log records through the sink.
use cs360v_cs380_projects.Prelude.{
  ℕ, ◌+◌, ◌≤◌, ◌≡◌, sym, subst, ◌∙◌, ap, List, [], ◌∷◌, ◌++◌, some, inl, inr, arith, length, All,
  length-append, append_assoc, append-nil,
}
use cs360v_cs380_projects.Runner.LogSink.{LogSink, Net, pend_size, log_sink_emit}
use cs360v_cs380_projects.Runner.LogSink.Order.{in_transit, IsWhole, log_sink_emit-Follows}
use cs360v_cs380_projects.Runner.LogSink.Host.{log_sink_emit-host}

-- The records of a run, each with what its calls return.
abbrev pub emit_all : List (Net × List ℕ) → LogSink → LogSink
emit_all [] s = s
emit_all ((net, line) ∷ records) s = emit_all records (log_sink_emit net line s)

abbrev pub AreWhole : List (Net × List ℕ) → Type 0
AreWhole = All (λ r. IsWhole (r.0.write_line r.1) (length r.1))

-- `Sent before records after`: the bytes `after` are `before` and then some of the records, each of
-- them whole and in their order.
pub data Sent : List ℕ → List (Net × List ℕ) → List ℕ → Type 0 where
  done : {before : List ℕ} → Sent before [] before
  kept :
      {before after : List ℕ} {net : Net} {line : List ℕ} {records : List (Net × List ℕ)}
      → Sent (before ++ line) records after
      → Sent before ((net, line) ∷ records) after
  lost :
      {before after : List ℕ} {net : Net} {line : List ℕ} {records : List (Net × List ℕ)}
      → Sent before records after
      → Sent before ((net, line) ∷ records) after

-- Where no write takes a part of a record only, the bytes written to the collector, and then those
-- held back for it, are records of the run, whole and in the order in which they were made; some
-- may be missing.
pub emit_all-Sent :
    (records : List (Net × List ℕ)) (host : List ℕ) (s : LogSink)
    → s.host ≡ some host
    → AreWhole records
    → Sent (in_transit s) records (in_transit (emit_all records s))
emit_all-Sent [] host s on whole = done
emit_all-Sent ((net, line) ∷ records) host s on whole =
    let next =
      emit_all-Sent records host (log_sink_emit net line s) (log_sink_emit-host net line s ∙ on)
        whole.1 in
    elim (log_sink_emit-Follows net line host s on whole.0) [
      | inl follows ↦ kept (
          subst (λ b. Sent b records (in_transit (emit_all records (log_sink_emit net line s))))
            follows next)
      | inr drops ↦ lost (
          subst (λ b. Sent b records (in_transit (emit_all records (log_sink_emit net line s))))
            drops.0 next)
    ]

abbrev pub lines : List (Net × List ℕ) → List ℕ
lines [] = []
lines ((net, line) ∷ records) = line ++ lines records

-- Where no write takes a part of a record only, and what is under way and the records of the run
-- have 2048 bytes at most together, no record is missing and none is sent twice, however long the
-- collector takes to appear.
pub emit_all-lines :
    (records : List (Net × List ℕ)) (host : List ℕ) (s : LogSink)
    → s.host ≡ some host
    → AreWhole records
    → length (in_transit s) + length (lines records) ≤ pend_size
    → in_transit (emit_all records s) ≡ in_transit s ++ lines records
emit_all-lines [] host s on whole fits = sym (append-nil (in_transit s))
emit_all-lines ((net, line) ∷ records) host s on whole fits =
    let s' = log_sink_emit net line s in
    elim (log_sink_emit-Follows net line host s on whole.0) [
      | inl follows ↦
          emit_all-lines records host s' (log_sink_emit-host net line s ∙ on) whole.1 (
            omega (
              arith,
              ap length follows,
              length-append (in_transit s) line,
              length-append line (lines records),
            ))
          ∙ ap (λ l. l ++ lines records) follows
          ∙ append_assoc (in_transit s) line (lines records)
      | inr drops ↦ absurd (
          omega (
            arith,
            drops.1,
            ap length drops.0,
            length-append s'.wire s'.pend,
            length-append line (lines records),
          ))
    ]
