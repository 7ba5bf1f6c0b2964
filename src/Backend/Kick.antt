-- ===== src/Backend/Kick.antt =====
-- What a kick of backend.c does, as the transport and the guest see it.
use cs360v_cs380_projects.Prelude.{
  ℕ, suc, ◌+◌, ◌%◌, ◌^◌, ◌<◌, ◌≡◌, ◌∙◌, ap, ◌==◌, if◌then◌else◌, List, Bool, true, false, ◌||◌,
  some, u16_mod, has_bit, arith,
}
use cs360v_cs380_projects.Memory.{Memory}
use cs360v_cs380_projects.Virtq.{Queue, MemRegion, avail_idx, used_idx, vlog_virtq_handle}
use cs360v_cs380_projects.Virtq.Used.{OutsideUsed}
use cs360v_cs380_projects.Virtq.Handle.{IsServable, waiting, virtq_handle-Served}
use cs360v_cs380_projects.Backend.{
  Backend, VuDevRegion, build_mem, queue_of, kick_loop, interrupt, after_loop, tx_kick,
}

-- One pass, where the driver did not negotiate EVENT_IDX.
kick_loop-plain :
    (passes fuel : ℕ) (driver : ℕ → Memory → Memory) (regions : List MemRegion) (q q' : Queue)
    (n : ℕ)
    → vlog_virtq_handle fuel regions q ≡ some (q', n)
    → kick_loop (suc passes) fuel driver regions false q 0 ≡ some (q', n)
unfolding kick_loop
kick_loop-plain passes fuel driver regions q q' n e =
    rw (e, kick_loop) (ap (λ k. some (q', k)) (omega arith))

-- A queue that is set up.
abbrev pub is_set_up : Backend → Bool
is_set_up b =
    if (b.vuq.desc == 0) || (b.vuq.avail == 0) || (b.vuq.used == 0) || (b.vuq.num == 0)
    then false
    else true

pub set_up :
    (b : Backend)
    → is_set_up b ≡ true
    → ((b.vuq.desc == 0) || (b.vuq.avail == 0) || (b.vuq.used == 0) || (b.vuq.num == 0)) ≡ false
set_up b h = ground arith

-- A kick on a queue that is set up and servable, from a guest that did not negotiate EVENT_IDX,
-- always returns, with fuel for one descriptor more than the queue has, whatever the driver does
-- meanwhile: the transport's position is then the index that the driver had published, the used
-- index has advanced by the number of chains that waited, nothing outside the used ring is written,
-- and the guest is interrupted once if at least one chain waited and it can be interrupted, else
-- not.
pub tx_kick_lem :
    (passes fuel features : ℕ) (driver : ℕ → Memory → Memory) (regions : List VuDevRegion)
    (b : Backend)
    → is_set_up b ≡ true
    → has_bit features (2 ^ 29) ≡ false
    → IsServable (queue_of b)
    → b.vuq.num < fuel
    → avail_idx b.mem (queue_of b).vq < u16_mod
    → used_idx b.mem (queue_of b).vq < u16_mod
    → let vq = (queue_of b).vq in
      let chains = waiting (avail_idx b.mem vq) b.vuq.last_avail_idx in
      (b' : Backend) × (tx_kick (suc passes) fuel features driver regions b ≡ some b')
      × (b'.vuq.last_avail_idx ≡ avail_idx b.mem vq)
      × (used_idx b'.mem vq ≡ (used_idx b.mem vq + chains) % 2 ^ 16)
      × ((p : ℕ) → OutsideUsed vq p → b'.mem p ≡ b.mem p)
      × (b'.interrupts ≡ b.interrupts + interrupt b.vuq.call_fd chains)
unfolding tx_kick
tx_kick_lem passes fuel features driver regions b up plain servable enough ready word =
    let (q', total, run, served, completed) =
      virtq_handle-Served (build_mem regions) fuel (queue_of b) servable enough ready word in
    let looped : kick_loop (suc passes) fuel driver (build_mem regions) false (queue_of b) 0
        ≡ some (q', total) =
      kick_loop-plain passes fuel driver (build_mem regions) (queue_of b) q' total run in
    (
      after_loop b q' total,
      rw (set_up b up, plain, looped),
      served.position,
      served.used,
      served.outside,
      ap (λ k. b.interrupts + interrupt b.vuq.call_fd k) (served.count ∙ omega arith),
    )
