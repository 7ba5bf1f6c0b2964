-- ===== src/Runner/LogSink/Bounds.antt =====
-- runner.c: the bounds of the log sink's buffer and of its gaps between attempts.
use cs360v_cs380_projects.Prelude.{
  ℕ, ◌+◌, ◌-◌, ◌≤◌, ◌≡◌, refl, ltb, ◌==◌, List, ◌∷◌, ◌++◌, Option, none, some, inl, inr, ◌⊎◌,
  Bool-cases, arith, length, take, drop, length-append, length-drop,
}
use cs360v_cs380_projects.Runner.LogSink.{
  LogSink, Net, Write, pend_size, taken, took, dial, connect_to, address, log_sink_connect,
  log_pend, back_off, log_sink_drop, held, write_record, flush, attempted, emit_to, log_sink_emit,
}

-- The gap is a power of two and at most 64.
abbrev pub IsGap : ℕ → Type 0
IsGap gap = (gap ≡ 1) ⊎ (gap ≡ 2) ⊎ (gap ≡ 4) ⊎ (gap ≡ 8) ⊎ (gap ≡ 16) ⊎ (gap ≡ 32) ⊎ (gap ≡ 64)

pub record IsValid (s : LogSink) : Type 0 where
  pub pend : length s.pend ≤ pend_size
  pub backoff : IsGap s.backoff
  pub skip : s.skip ≤ 64

log_pend-IsValid : (line : List ℕ) (s : LogSink) → IsValid s → IsValid (log_pend line s)
unfolding log_pend
log_pend-IsValid line s v = elim (Bool-cases (ltb pend_size (length s.pend + length line))) [
  | inl full ↦ rw full v
  | inr room ↦ rw room (record {
    pend = ground (arith, length-append s.pend line);
    backoff = v.backoff;
    skip = v.skip;
  })
]

back_off-IsValid : (s : LogSink) → IsValid s → IsValid (back_off s)
unfolding back_off
back_off-IsValid s v = record {
  pend = v.pend;
  backoff = ground (arith, v.backoff);
  skip = ground (arith, v.backoff);
}

held-IsValid :
    (fd : ℕ) (w : Write) (line : List ℕ) (s : LogSink) → IsValid s → IsValid (held fd w line s)
unfolding held log_sink_drop
held-IsValid fd w line s v = elim (Bool-cases w.would_block) [
  | inl waits ↦ rw waits (log_pend-IsValid line s v)
  | inr broken ↦ rw broken (
      log_pend-IsValid line (back_off (record s { fd = none; closed = fd ∷ s.closed })) (
        back_off-IsValid (record s { fd = none; closed = fd ∷ s.closed })
          (record { pend = v.pend; backoff = v.backoff; skip = v.skip })))
]

write_record-IsValid :
    (net : Net) (fd : ℕ) (line : List ℕ) (s : LogSink)
    → IsValid s
    → IsValid (write_record net fd line s)
unfolding write_record
write_record-IsValid net fd line s v =
    let w = net.write_line line in
    let s' = record s { wire = s.wire ++ take (taken w) line } in
    let v' : IsValid s' = record { pend = v.pend; backoff = v.backoff; skip = v.skip } in
    elim (Bool-cases (took w (length line))) [
      | inl all ↦ rw all v'
      | inr part ↦ rw part (held-IsValid fd w line s' v')
    ]

flush-IsValid :
    (net : Net) (fd : ℕ) (line : List ℕ) (s : LogSink) → IsValid s → IsValid (flush net fd line s)
unfolding flush
flush-IsValid net fd line s v =
    let w = net.write_pend s.pend in
    let s' = record s { wire = s.wire ++ take (taken w) s.pend; pend = drop (taken w) s.pend } in
    let v' : IsValid s' = record {
      pend = omega (arith, length-drop (taken w) s.pend, v.pend);
      backoff = v.backoff;
      skip = v.skip;
    } in
    elim (Bool-cases (length s.pend == 0)) [
      | inl empty ↦ rw empty (write_record-IsValid net fd line s v)
      | inr more ↦ elim (Bool-cases (took w (length s.pend))) [
        | inl all ↦ rw (more, all) (write_record-IsValid net fd line s' v')
        | inr part ↦ elim (Bool-cases (ltb 0 (taken w))) [
          | inl some_taken ↦ rw (more, part, some_taken) (log_pend-IsValid line s' v')
          | inr none_taken ↦ rw (more, part, none_taken) (held-IsValid fd w line s' v')
        ]
      ]
    ]

dial-IsValid :
    (net : Net) (ip : ℕ) (fd : Option ℕ) (s : LogSink) → IsValid s → IsValid (dial net ip fd s).0
unfolding dial
dial-IsValid net ip none s v = v
dial-IsValid net ip (some fd) s v = elim (Bool-cases net.connects) [
  | inl made ↦ rw made (record { pend = v.pend; backoff = v.backoff; skip = v.skip })
  | inr failed ↦ rw failed (record { pend = v.pend; backoff = v.backoff; skip = v.skip })
]

connect_to-IsValid :
    (net : Net) (ip : Option ℕ) (s : LogSink) → IsValid s → IsValid (connect_to net ip s).0
unfolding connect_to
connect_to-IsValid net none s v = v
connect_to-IsValid net (some ip) s v = dial-IsValid net ip net.socket s v

attempted-IsValid :
    (net : Net) (line : List ℕ) (r : LogSink × Option ℕ)
    → IsValid r.0
    → IsValid (attempted net line r)
unfolding attempted
attempted-IsValid net line (s, none) v = log_pend-IsValid line (back_off s) (back_off-IsValid s v)
attempted-IsValid net line (s, some fd) v =
    flush-IsValid net fd line (record s { fd = some fd; backoff = 1 })
      (record { pend = v.pend; backoff = inl refl; skip = v.skip })

emit_to-IsValid :
    (net : Net) (line : List ℕ) (fd : Option ℕ) (s : LogSink)
    → IsValid s
    → IsValid (emit_to net line fd s)
unfolding emit_to log_sink_connect
emit_to-IsValid net line (some fd) s v = flush-IsValid net fd line s v
emit_to-IsValid net line none s v = elim (Bool-cases (ltb 0 s.skip)) [
  | inl waits ↦ rw waits (
      log_pend-IsValid line (record s { skip = s.skip - 1 })
        (record { pend = v.pend; backoff = v.backoff; skip = omega (arith, v.skip) }))
  | inr now ↦ rw now (
      attempted-IsValid net line (log_sink_connect net s)
        (connect_to-IsValid net (address s.host) s v))
]

-- Every record leaves at most 2048 bytes held, and a gap between attempts that is a power of two
-- and at most 64, whatever socket, connect and write return.
pub log_sink_emit-IsValid :
    (net : Net) (line : List ℕ) (s : LogSink) → IsValid s → IsValid (log_sink_emit net line s)
unfolding log_sink_emit
log_sink_emit-IsValid net line s v =
    elim s.host as (λ h. IsValid (elim h [ none ↦ s | some host ↦ emit_to net line s.fd s ])) [
      | none ↦ v
      | some host ↦ emit_to-IsValid net line s.fd s v
    ]
