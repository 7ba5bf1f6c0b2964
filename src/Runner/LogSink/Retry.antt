-- ===== src/Runner/LogSink/Retry.antt =====
-- runner.c: a collector that comes back is found again.
use cs360v_cs380_projects.Prelude.{
  ℕ, zero, suc, ◌+◌, ◌-◌, ◌%◌, ◌≤◌, ◌≡◌, refl, ◌∙◌, ap, ltb, ◌==◌, List, [], ◌∷◌, ◌++◌, true, false,
  Option, none, some, inl, inr, Bool-cases, arith, length, take, drop, All, u16_mod,
}
use cs360v_cs380_projects.Runner.LogSink.{
  LogSink, Net, taken, took, address, dial, connect_to, log_sink_connect, log_pend, write_record,
  flush, attempted, emit_to, log_sink_emit,
}
use cs360v_cs380_projects.Runner.LogSink.Bounds.{IsValid}
use cs360v_cs380_projects.Runner.LogSink.Order.{took-taken, drop_all}
use cs360v_cs380_projects.Runner.LogSink.Runs.{emit_all}

-- The collector accepts and takes all that it is sent.
pub record IsGood (net : Net) : Type 0 where
  pub opened : ℕ
  pub socket : net.socket ≡ some opened
  pub connects : net.connects ≡ true
  pub takes_pend : (bytes : List ℕ) → (net.write_pend bytes).sent ≡ some (length bytes)
  pub takes_line : (bytes : List ℕ) → (net.write_line bytes).sent ≡ some (length bytes)

-- Not connected, with an address to connect to.
pub record IsDown (ip : ℕ) (s : LogSink) : Type 0 where
  pub target : address s.host ≡ some ip
  pub down : s.fd ≡ none

-- Connected, with nothing held back.
pub record IsUp (s : LogSink) : Type 0 where
  pub opened : ℕ
  pub up : s.fd ≡ some opened
  pub empty : s.pend ≡ []

write_record-IsUp :
    (net : Net) (fd : ℕ) (line : List ℕ) (s : LogSink)
    → IsGood net
    → IsUp s
    → IsUp (write_record net fd line s)
unfolding write_record
write_record-IsUp net fd line s good u =
    let all : took (net.write_line line) (length line) ≡ true =
      rw (good.takes_line line) (ground arith) in
    rw all (record { opened = u.opened; up = u.up; empty = u.empty })

flush-IsUp :
    (net : Net) (fd : ℕ) (line : List ℕ) (s : LogSink)
    → IsGood net
    → s.fd ≡ some fd
    → IsUp (flush net fd line s)
unfolding flush
flush-IsUp net fd line s good up =
    let w = net.write_pend s.pend in
    let s' = record s { wire = s.wire ++ take (taken w) s.pend; pend = drop (taken w) s.pend } in
    elim (Bool-cases (length s.pend == 0)) [
      | inl empty ↦ rw empty (
          write_record-IsUp net fd line s good
            (record { opened = fd; up = up; empty = ground (arith, empty) }))
      | inr more ↦
          let all : took w (length s.pend) ≡ true = rw (good.takes_pend s.pend) (ground arith) in
          rw (more, all)
            (write_record-IsUp net fd line s' good (record {
              opened = fd;
              up = up;
              empty = ap (λ k. drop k s.pend) (took-taken w (length s.pend) all) ∙ drop_all s.pend;
            }))
    ]

connected :
    (net : Net) (ip : ℕ) (s : LogSink) (good : IsGood net)
    → address s.host ≡ some ip
    → log_sink_connect net s
      ≡ (record s { dialled = (ip, s.port % u16_mod) ∷ s.dialled }, some good.opened)
unfolding log_sink_connect connect_to dial
connected net ip s good target = rw (target, good.socket, good.connects)

attempted-IsUp :
    (net : Net) (line : List ℕ) (ip : ℕ) (s : LogSink)
    → IsGood net
    → address s.host ≡ some ip
    → IsUp (attempted net line (log_sink_connect net s))
attempted-IsUp net line ip s good target = rw (connected net ip s good target) (
    unfold attempted in
    flush-IsUp net good.opened line
      (record s {
        fd = some good.opened;
        backoff = 1;
        dialled = (ip, s.port % u16_mod) ∷ s.dialled;
      })
      good refl)

-- A record that only waits.
log_pend-IsDown : (ip : ℕ) (line : List ℕ) (s : LogSink) → IsDown ip s → IsDown ip (log_pend line s)
unfolding log_pend
log_pend-IsDown ip line s d = elim (Bool-cases (ltb 2048 (length s.pend + length line))) [
  | inl full ↦ rw full d
  | inr room ↦ rw room (record { target = d.target; down = d.down })
]

emit_down :
    (net : Net) (line : List ℕ) (ip : ℕ) (s : LogSink)
    → IsDown ip s
    → log_sink_emit net line s ≡ emit_to net line none s
unfolding log_sink_emit
emit_down net line ip s d = go s.host s.fd d.target d.down
  where
    go :
        (h : Option (List ℕ)) (fd : Option ℕ)
        → address h ≡ some ip
        → fd ≡ none
        → (elim h [ none ↦ s | some host ↦ emit_to net line fd s ]) ≡ emit_to net line none s
    go none fd a e = absurd (ground (arith, a))
    go (some host) fd a e = ap (λ f. emit_to net line f s) e

emit_wait :
    (net : Net) (line : List ℕ) (ip k : ℕ) (s : LogSink)
    → IsDown ip s
    → s.skip ≡ suc k
    → log_sink_emit net line s ≡ log_pend line (record s { skip = k })
unfolding emit_to
emit_wait net line ip k s d e =
    let waits : ltb 0 s.skip ≡ true = ground (arith, e) in
    let left : s.skip - 1 ≡ k = omega (arith, e) in
    emit_down net line ip s d ∙ rw waits (ap (λ n. log_pend line (record s { skip = n })) left)

emit_now :
    (net : Net) (line : List ℕ) (ip : ℕ) (s : LogSink)
    → IsDown ip s
    → s.skip ≡ 0
    → log_sink_emit net line s ≡ attempted net line (log_sink_connect net s)
unfolding emit_to
emit_now net line ip s d e =
    let now : ltb 0 s.skip ≡ false = ground (arith, e) in emit_down net line ip s d ∙ rw now refl

log_pend-skip : (line : List ℕ) (s : LogSink) → (log_pend line s).skip ≡ s.skip
unfolding log_pend
log_pend-skip line s = ground arith

emit_all-skip :
    (n : ℕ) (records : List (Net × List ℕ)) (ip : ℕ) (s : LogSink)
    → s.skip ≡ n
    → IsDown ip s
    → All (λ r. IsGood r.0) records
    → length records ≡ suc n
    → IsUp (emit_all records s)
emit_all-skip n [] ip s k d good l = absurd (omega (arith, l))
emit_all-skip zero ((net, line) ∷ []) ip s k d good l =
    rw (emit_now net line ip s d k) (attempted-IsUp net line ip s good.0 d.target)
emit_all-skip zero ((net, line) ∷ r ∷ records) ip s k d good l = absurd (omega (arith, l))
emit_all-skip (suc n) ((net, line) ∷ records) ip s k d good l = rw (emit_wait net line ip n s d k) (
    emit_all-skip n records ip (log_pend line (record s { skip = n }))
      (log_pend-skip line (record s { skip = n }))
      (log_pend-IsDown ip line (record s { skip = n })
        (record { target = d.target; down = d.down }))
      good.1 (omega (arith, l)))

-- A collector that is not connected, and whose host is an address, is connected after as many
-- records as the gap has left and one more, and then nothing is held back, if from then on it
-- accepts and takes all that it is sent; these are 65 records at most in a valid state.
pub emit_all-IsUp :
    (ip : ℕ) (s : LogSink)
    → IsValid s
    → IsDown ip s
    → (suc s.skip ≤ 65)
      × ((records : List (Net × List ℕ))
          → All (λ r. IsGood r.0) records
          → length records ≡ suc s.skip
          → IsUp (emit_all records s))
emit_all-IsUp ip s v d =
    (omega (arith, v.skip), λ records good n. emit_all-skip s.skip records ip s refl d good n)
