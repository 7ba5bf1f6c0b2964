-- ===== src/Runner/LogSink/Host.antt =====
-- runner.c: a record leaves the sink's host as it is.
use cs360v_cs380_projects.Prelude.{
  ℕ, ◌-◌, ◌≡◌, refl, ◌∙◌, ap, ltb, List, Option, none, some, inl, inr, Bool-cases, arith,
}
use cs360v_cs380_projects.Runner.LogSink.{
  LogSink, Net, Write, dial, connect_to, address, log_sink_connect, log_pend, back_off,
  log_sink_drop, held, write_record, flush, attempted, emit_to, log_sink_emit,
}

log_pend-host : (line : List ℕ) (s : LogSink) → (log_pend line s).host ≡ s.host
unfolding log_pend
log_pend-host line s = ground arith

held-host : (fd : ℕ) (w : Write) (line : List ℕ) (s : LogSink) → (held fd w line s).host ≡ s.host
unfolding held log_pend log_sink_drop back_off
held-host fd w line s = ground arith

write_record-host :
    (net : Net) (fd : ℕ) (line : List ℕ) (s : LogSink) → (write_record net fd line s).host ≡ s.host
unfolding write_record held log_pend log_sink_drop back_off
write_record-host net fd line s = ground arith

flush-host :
    (net : Net) (fd : ℕ) (line : List ℕ) (s : LogSink) → (flush net fd line s).host ≡ s.host
unfolding flush write_record held log_pend log_sink_drop back_off
flush-host net fd line s = ground arith

connect_to-host : (net : Net) (ip : Option ℕ) (s : LogSink) → (connect_to net ip s).0.host ≡ s.host
unfolding connect_to dial
connect_to-host net none s = refl
connect_to-host net (some ip) s = ground arith

attempted-host :
    (net : Net) (line : List ℕ) (r : LogSink × Option ℕ) → (attempted net line r).host ≡ r.0.host
unfolding attempted back_off
attempted-host net line (s, none) = log_pend-host line (back_off s)
attempted-host net line (s, some fd) =
    flush-host net fd line (record s { fd = some fd; backoff = 1 })

emit_to-host :
    (net : Net) (line : List ℕ) (fd : Option ℕ) (s : LogSink)
    → (emit_to net line fd s).host ≡ s.host
unfolding emit_to log_sink_connect
emit_to-host net line (some fd) s = flush-host net fd line s
emit_to-host net line none s = elim (Bool-cases (ltb 0 s.skip)) [
  | inl waits ↦ rw waits (log_pend-host line (record s { skip = s.skip - 1 }))
  | inr now ↦
      rw now
        (attempted-host net line (log_sink_connect net s) ∙ connect_to-host net (address s.host) s)
]

abbrev host_of : LogSink → Option (List ℕ)
host_of s = s.host

pub log_sink_emit-host :
    (net : Net) (line : List ℕ) (s : LogSink) → (log_sink_emit net line s).host ≡ s.host
unfolding log_sink_emit
log_sink_emit-host net line s =
    elim s.host
      as (λ h. host_of (elim h [ none ↦ s | some host ↦ emit_to net line s.fd s ]) ≡ s.host) [
        | none ↦ refl
        | some host ↦ emit_to-host net line s.fd s
      ]

-- With a host, what happens depends on the connection.
pub log_sink_emit-emit_to :
    (net : Net) (line host : List ℕ) (fd : Option ℕ) (s : LogSink)
    → s.host ≡ some host
    → s.fd ≡ fd
    → log_sink_emit net line s ≡ emit_to net line fd s
unfolding log_sink_emit
log_sink_emit-emit_to net line host fd s on e =
    ap
      (λ (h : Option (List ℕ)). elim h as (λ h. LogSink) [
        | none ↦ s
        | some host ↦ emit_to net line s.fd s
      ])
      on
    ∙ ap (λ f. emit_to net line f s) e
