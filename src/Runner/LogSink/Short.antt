-- ===== src/Runner/LogSink/Short.antt =====
-- runner.c: a write that takes a part of a record only.
use cs360v_cs380_projects.Prelude.{
  ℕ, ◌+◌, ◌<◌, ◌≤◌, ◌≡◌, refl, ◌∙◌, ap, ltb, ◌==◌, List, [], ◌++◌, true, false, some, inl, inr,
  Bool-cases, arith, length, take,
}
use cs360v_cs380_projects.Runner.LogSink.{
  LogSink, Net, Write, taken, took, pend_size, log_pend, log_sink_drop, back_off, held,
  write_record, flush, emit_to, log_sink_emit,
}
use cs360v_cs380_projects.Runner.LogSink.Host.{log_sink_emit-emit_to}
use cs360v_cs380_projects.Runner.LogSink.Order.{in_transit}

log_pend-room :
    (line : List ℕ) (s : LogSink)
    → s.pend ≡ []
    → length line ≤ pend_size
    → in_transit (log_pend line s) ≡ s.wire ++ line
unfolding log_pend
log_pend-room line s empty fits =
    let room : ltb pend_size (length s.pend + length line) ≡ false =
      ground (arith, ap length empty, fits) in
    rw room (ap (λ p. s.wire ++ (p ++ line)) empty)

held-room :
    (fd : ℕ) (w : Write) (line : List ℕ) (s : LogSink)
    → s.pend ≡ []
    → length line ≤ pend_size
    → in_transit (held fd w line s) ≡ s.wire ++ line
unfolding held log_sink_drop back_off
held-room fd w line s empty fits = elim (Bool-cases w.would_block) [
  | inl waits ↦ rw waits (log_pend-room line s empty fits)
  | inr broken ↦ rw broken (log_pend-room line (log_sink_drop fd s) empty fits)
]

-- Where `write` takes `k` bytes only of a record, the collector is sent those, and the whole record
-- is held back behind them: its first `k` bytes go out twice.
pub log_sink_emit-short :
    (net : Net) (line host : List ℕ) (fd k : ℕ) (s : LogSink)
    → s.host ≡ some host
    → s.fd ≡ some fd
    → s.pend ≡ []
    → (net.write_line line).sent ≡ some k
    → k < length line
    → length line ≤ pend_size
    → in_transit (log_sink_emit net line s) ≡ (s.wire ++ take k line) ++ line
log_sink_emit-short net line host fd k s on up empty short less fits =
    let w = net.write_line line in
    let s' = record s { wire = s.wire ++ take (taken w) line } in
    let part : took w (length line) ≡ false = rw short (ground (arith, less)) in
    let count : taken w ≡ k = rw short refl in
    let none_held : (length s.pend == 0) ≡ true = rw empty (ground arith) in
    let written : emit_to net line (some fd) s ≡ held fd w line s' =
      unfold emit_to flush write_record in rw (none_held, part) refl in
    ap in_transit (log_sink_emit-emit_to net line host (some fd) s on up ∙ written)
    ∙ held-room fd w line s' empty fits
    ∙ ap (λ n. (s.wire ++ take n line) ++ line) count
