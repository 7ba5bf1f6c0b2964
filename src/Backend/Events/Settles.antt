-- ===== src/Backend/Events/Settles.antt =====
-- The loop of `tx_kick` in backend.c, for a guest that negotiated EVENT_IDX: where it ends.
use cs360v_cs380_projects.Prelude.{
  ℕ, zero, suc, ◌+◌, ◌%◌, ◌<◌, ◌≤◌, ◌≡◌, ◌⊎◌, inl, inr, refl, ◌∙◌, ◌==◌, ◌||◌, Bool-cases, Option,
  some, List, Bool, true, false, u16_mod, arith,
}
use cs360v_cs380_projects.Memory.{Memory, load16, store16}
use cs360v_cs380_projects.Sink.{Sink}
use cs360v_cs380_projects.Virtq.{MemRegion, Virtq, Queue, avail_idx, used_idx, vlog_virtq_handle}
use cs360v_cs380_projects.Virtq.Used.{OutsideUsed}
use cs360v_cs380_projects.Virtq.Handle.{waiting}
use cs360v_cs380_projects.Backend.{avail_event, kick_loop}
use cs360v_cs380_projects.Backend.Events.{
  IsPolite, IsApart, IsReady, asked, queue_at, pass, avail_kept, asked-used, asked-event,
  asked-IsReady,
}

-- Where the loop stops, from `total` chains and position `last` on, after `chains` more.
pub record Settled (vq : Virtq) (mem : Memory) (last total chains : ℕ) (q' : Queue) (n : ℕ)
    : Type 0 where
  pub count : n ≡ total + chains
  pub rings : q'.vq ≡ record vq { last_avail = q'.vq.last_avail }
  pub position : q'.vq.last_avail ≡ (last + chains) % u16_mod
  pub used : used_idx q'.mem vq ≡ (used_idx mem vq + chains) % u16_mod
  pub event : load16 q'.mem (avail_event vq) ≡ q'.vq.last_avail
  pub all : waiting (avail_idx mem vq) last ≤ chains
  pub no_stall : (avail_idx q'.mem vq ≡ q'.vq.last_avail) ⊎ (chains ≡ 0)

-- The driver is polite in every pass, and publishes nothing more in the last one.
pub record Pauses (vq : Virtq) (driver : ℕ → Memory → Memory) : Type 0 where
  pub polite : (k : ℕ) → IsPolite vq (driver k)
  pub pause : (mem : Memory) → avail_idx (driver 0 mem) vq ≡ avail_idx mem vq

stopped : (idx ready n : ℕ) → ((idx == ready) || (n == 0)) ≡ true → (idx ≡ ready) ⊎ (n ≡ 0)
stopped idx ready n e = ground arith

ends_at : (idx ready n : ℕ) → idx ≡ ready → ((idx == ready) || (n == 0)) ≡ true
ends_at idx ready n e = ground arith

-- A pass that did not end the loop was followed by one that had a chain to do.
went_on :
    (idx ready more idx' last' n : ℕ)
    → ((idx == ready) || (n == 0)) ≡ false
    → idx < u16_mod
    → ready < u16_mod
    → waiting idx ready ≤ more
    → (idx' ≡ last') ⊎ (more ≡ 0)
    → (idx' ≡ last') ⊎ (n + more ≡ 0)
went_on idx ready more idx' last' n e small small' all (inl done) = inl done
went_on idx ready more idx' last' n e small small' all (inr none_left) = ground arith

module _ (vq : Virtq) (apart : IsApart vq) (driver : ℕ → Memory → Memory)
    (pauses : Pauses vq driver) (fuel : ℕ) (regions : List MemRegion) (enough : vq.num < fuel) where
  abbrev Result : Memory → ℕ → ℕ → Option (Queue × ℕ) → Type 0
  Result mem last total o =
      (q' : Queue) × (n : ℕ) × (chains : ℕ) × (o ≡ some (q', n))
      × Settled vq mem last total chains q' n

  -- The test that ends the loop.
  abbrev ends : ℕ → Memory → ℕ → ℕ → Bool
  ends passes mem' ready n =
      (avail_idx (asked (driver passes) vq ready mem') vq == ready) || (n == 0)

  loop_stops :
      (passes total : ℕ) (mem mem' : Memory) (last ready n : ℕ) (sink sink' : Sink)
      → vlog_virtq_handle fuel regions (queue_at vq mem last sink)
        ≡ some (queue_at vq mem' ready sink', n)
      → ends passes mem' ready n ≡ true
      → kick_loop (suc passes) fuel driver regions true (queue_at vq mem last sink) total
        ≡ some (queue_at vq (asked (driver passes) vq ready mem') ready sink', total + n)
  unfolding kick_loop
  loop_stops passes total mem mem' last ready n sink sink' run e = rw (run, kick_loop) (rw e refl)

  loop_goes_on :
      (passes total : ℕ) (mem mem' : Memory) (last ready n : ℕ) (sink sink' : Sink)
      → vlog_virtq_handle fuel regions (queue_at vq mem last sink)
        ≡ some (queue_at vq mem' ready sink', n)
      → ends passes mem' ready n ≡ false
      → kick_loop (suc passes) fuel driver regions true (queue_at vq mem last sink) total
        ≡ kick_loop passes fuel driver regions true
            (queue_at vq (asked (driver passes) vq ready mem') ready sink')
            (total + n)
  unfolding kick_loop
  loop_goes_on passes total mem mem' last ready n sink sink' run e = rw (run, kick_loop) (rw e refl)

  settles_now :
      (passes total : ℕ) (mem mem' : Memory) (last : ℕ) (sink' : Sink)
      → IsReady vq mem
      → last < u16_mod
      → used_idx mem' vq ≡ (used_idx mem vq + waiting (avail_idx mem vq) last) % u16_mod
      → ends passes mem' (avail_idx mem vq) (waiting (avail_idx mem vq) last) ≡ true
      → Settled vq mem last total
          (waiting (avail_idx mem vq) last)
          (queue_at vq (asked (driver passes) vq (avail_idx mem vq) mem') (avail_idx mem vq) sink')
          (total + waiting (avail_idx mem vq) last)
  settles_now passes total mem mem' last sink' r small counted e =
      let ready = avail_idx mem vq in
      let mem1 = asked (driver passes) vq ready mem' in
      record {
        count = refl;
        rings = refl;
        position = omega (arith, r.ready);
        used = asked-used vq apart (driver passes) (pauses.polite passes) mem' ready ∙ counted;
        event = asked-event vq apart (driver passes) (pauses.polite passes) mem' ready r.ready;
        all = omega arith;
        no_stall = stopped (avail_idx mem1 vq) ready (waiting ready last) e;
      }

  settles_later :
      (passes total : ℕ) (mem mem' : Memory) (last : ℕ) (q' : Queue) (n more : ℕ)
      → IsReady vq mem
      → last < u16_mod
      → used_idx mem' vq ≡ (used_idx mem vq + waiting (avail_idx mem vq) last) % u16_mod
      → IsReady vq (asked (driver passes) vq (avail_idx mem vq) mem')
      → ends passes mem' (avail_idx mem vq) (waiting (avail_idx mem vq) last) ≡ false
      → Settled vq
          (asked (driver passes) vq (avail_idx mem vq) mem')
          (avail_idx mem vq)
          (total + waiting (avail_idx mem vq) last)
          more
          q'
          n
      → Settled vq mem last total (waiting (avail_idx mem vq) last + more) q' n
  settles_later passes total mem mem' last q' n more r small counted r' e s =
      let ready = avail_idx mem vq in
      let mem1 = asked (driver passes) vq ready mem' in
      let kept : used_idx mem1 vq ≡ used_idx mem' vq =
        asked-used vq apart (driver passes) (pauses.polite passes) mem' ready in
      record {
        count = omega (arith, s.count);
        rings = s.rings;
        position = omega (arith, s.position, r.ready);
        used = omega (arith, s.used, kept, counted);
        event = s.event;
        all = omega arith;
        no_stall =
            went_on (avail_idx mem1 vq) ready more (avail_idx q'.mem vq) q'.vq.last_avail
              (waiting ready last) e r'.ready r.ready s.all s.no_stall;
      }

  -- In the last pass the driver published nothing more.
  last_ends :
      (mem mem' : Memory) (n : ℕ)
      → ((p : ℕ) → OutsideUsed vq p → mem' p ≡ mem p)
      → ends 0 mem' (avail_idx mem vq) n ≡ true
  last_ends mem mem' n out =
      let ready = avail_idx mem vq in
      let same : avail_idx (asked (driver 0) vq ready mem') vq ≡ ready =
        pauses.pause (store16 mem' (avail_event vq) ready)
        ∙ avail_kept vq apart (driver 0) (pauses.polite 0) mem mem' ready out in
      ends_at (avail_idx (asked (driver 0) vq ready mem') vq) ready n same

  pub kick_loop-Settled :
      (passes total : ℕ) (mem : Memory) (last : ℕ) (sink : Sink)
      → IsReady vq mem
      → last < u16_mod
      → Result mem last total
          (kick_loop (suc passes) fuel driver regions true (queue_at vq mem last sink) total)
  kick_loop-Settled zero total mem last sink r small =
      let (mem', sink', run, counted, out) =
        pass vq apart fuel regions mem last sink r small enough in
      let chains = waiting (avail_idx mem vq) last in
      let e = last_ends mem mem' chains out in
      (
        _,
        _,
        chains,
        loop_stops zero total mem mem' last (avail_idx mem vq) chains sink sink' run e,
        settles_now zero total mem mem' last sink' r small counted e,
      )
  kick_loop-Settled (suc passes) total mem last sink r small =
      let (mem', sink', run, counted, out) =
        pass vq apart fuel regions mem last sink r small enough in
      let ready = avail_idx mem vq in
      let chains = waiting ready last in
      elim (Bool-cases (ends (suc passes) mem' ready chains)) [
        | inl e ↦ (
          _,
          _,
          chains,
          loop_stops (suc passes) total mem mem' last ready chains sink sink' run e,
          settles_now (suc passes) total mem mem' last sink' r small counted e,
        )
        | inr e ↦
            let r' : IsReady vq (asked (driver (suc passes)) vq ready mem') =
              asked-IsReady vq apart (driver (suc passes)) (pauses.polite (suc passes)) mem mem'
                ready r out (omega (arith, counted)) in
            let (q', n, more, run', s) =
              kick_loop-Settled passes (total + chains) (asked (driver (suc passes)) vq ready mem')
                ready sink' r' r.ready in
            (
              q',
              n,
              chains + more,
              loop_goes_on (suc passes) total mem mem' last ready chains sink sink' run e ∙ run',
              settles_later (suc passes) total mem mem' last q' n more r small counted r' e s,
            )
      ]
