-- ===== src/Backend/Events/NoStall.antt =====
-- `tx_kick` of backend.c, for a guest that negotiated EVENT_IDX.
use cs360v_cs380_projects.Prelude.{
  ℕ, suc, ◌+◌, ◌%◌, ◌^◌, ◌<◌, ◌≤◌, ◌≡◌, ◌⊎◌, refl, ◌∙◌, ap, List, true, some, u16_mod, arith,
  has_bit,
}
use cs360v_cs380_projects.Memory.{Memory, load16}
use cs360v_cs380_projects.Virtq.{avail_idx, used_idx}
use cs360v_cs380_projects.Virtq.Handle.{waiting}
use cs360v_cs380_projects.Backend.{
  Backend, VuDevRegion, avail_event, build_mem, queue_of, interrupt, after_loop, tx_kick,
}
use cs360v_cs380_projects.Backend.Kick.{is_set_up, set_up}
use cs360v_cs380_projects.Backend.Events.{IsApart, IsReady}
use cs360v_cs380_projects.Backend.Events.Settles.{Pauses, kick_loop-Settled}

-- A kick on a queue that is set up, with entries, rings apart, no indirect descriptor and words of
-- 16 bits, from a guest that negotiated EVENT_IDX and whose driver goes on publishing between the
-- passes, as the specification allows, until it pauses, always returns, with fuel for one
-- descriptor more than the queue has: it handles at least the chains that waited when it started,
-- the position and the used index advance by the number it handled, `avail_event` then asks for a
-- kick at the new position, the guest is interrupted once if a chain was handled and it can be
-- interrupted, else not, and the queue does not stall: unless it handled nothing, no published
-- chain is left behind.
pub tx_kick-no_stall :
    (passes fuel features : ℕ) (driver : ℕ → Memory → Memory) (regions : List VuDevRegion)
    (b : Backend)
    → is_set_up b ≡ true
    → has_bit features (2 ^ 29) ≡ true
    → IsApart (queue_of b).vq
    → IsReady (queue_of b).vq b.mem
    → Pauses (queue_of b).vq driver
    → b.vuq.num < fuel
    → b.vuq.last_avail_idx < u16_mod
    → let vq = (queue_of b).vq in
      (b' : Backend) × (chains : ℕ) × (tx_kick (suc passes) fuel features driver regions b
        ≡ some b')
      × (waiting (avail_idx b.mem vq) b.vuq.last_avail_idx ≤ chains)
      × (b'.vuq.last_avail_idx ≡ (b.vuq.last_avail_idx + chains) % 2 ^ 16)
      × (used_idx b'.mem vq ≡ (used_idx b.mem vq + chains) % 2 ^ 16)
      × (load16 b'.mem (avail_event vq) ≡ b'.vuq.last_avail_idx)
      × (b'.interrupts ≡ b.interrupts + interrupt b.vuq.call_fd chains)
      × ((avail_idx b'.mem vq ≡ b'.vuq.last_avail_idx) ⊎ (chains ≡ 0))
unfolding tx_kick
tx_kick-no_stall passes fuel features driver regions b up event apart ready pauses enough small =
    let (q', n, chains, run, s) =
      kick_loop-Settled (queue_of b).vq apart driver pauses fuel (build_mem regions) enough passes 0
        b.mem b.vuq.last_avail_idx b.sink ready small in
    (
      after_loop b q' n,
      chains,
      rw (set_up b up, event, run) refl,
      s.all,
      s.position,
      s.used,
      s.event,
      ap (λ k. b.interrupts + interrupt b.vuq.call_fd k) (s.count ∙ omega arith),
      s.no_stall,
    )
