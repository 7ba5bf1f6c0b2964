-- ===== src/Virtq/Ring.antt =====
-- `vlog_virtq_handle`: a kick leaves the queue's rings where they are.
use cs360v_cs380_projects.Prelude.{
  ℕ, zero, suc, ◌+◌, ◌%◌, ◌≡◌, refl, ap, subst, ◌==◌, Bool-cases, inl, inr, Option, none, some,
  Option-cases, List, u16_mod,
}
use cs360v_cs380_projects.Virtq.{
  MemRegion, Virtq, Queue, avail_idx, walk_chain, finish_chain, head_of, handle_loop,
  vlog_virtq_handle,
}

-- Only the position changes.
abbrev SameRings : Virtq → Option (Queue × ℕ) → Type 0
SameRings vq none = Unit
SameRings vq (some (q, chains)) = q.vq ≡ record vq { last_avail = q.vq.last_avail }

abbrev pub moved_to : Virtq → ℕ → Virtq
moved_to vq n = record vq { last_avail = n }

moved :
    (vq : Virtq) (q : Queue) (head : ℕ) (rec : List ℕ)
    → q.vq ≡ record vq { last_avail = q.vq.last_avail }
    → (finish_chain q head rec).vq
      ≡ record vq { last_avail = (finish_chain q head rec).vq.last_avail }
unfolding finish_chain
moved vq q head rec e =
    ap {A = Virtq} {B = Virtq} (λ w. moved_to w ((q.vq.last_avail + 1) % u16_mod)) e

handle_loop-SameRings :
    (rounds fuel : ℕ) (regions : List MemRegion) (ready : ℕ) (vq : Virtq) (q : Queue) (chains : ℕ)
    → q.vq ≡ record vq { last_avail = q.vq.last_avail }
    → SameRings vq (handle_loop rounds fuel regions ready q chains)
unfolding handle_loop finish_chain
handle_loop-SameRings zero fuel regions ready vq q chains e = tt
handle_loop-SameRings (suc rounds) fuel regions ready vq q chains e =
    elim (Bool-cases (q.vq.last_avail == ready)) [
      | inl done ↦ rw (done, handle_loop) e
      | inr more ↦ elim (Option-cases (walk_chain fuel regions q)) [
        | inl stuck ↦ rw (more, stuck, handle_loop) tt
        | inr (rec, walked) ↦
            rw (more, walked, handle_loop)
              (handle_loop-SameRings rounds fuel regions ready vq (finish_chain q (head_of q) rec)
                (chains + 1) (moved vq q (head_of q) rec e))
      ]
    ]

-- A kick that returned changed no more of its queue than the position.
pub virtq_handle-SameRings :
    (fuel : ℕ) (regions : List MemRegion) (q q' : Queue) (n : ℕ)
    → vlog_virtq_handle fuel regions q ≡ some (q', n)
    → q'.vq ≡ record (q.vq) { last_avail = q'.vq.last_avail }
unfolding vlog_virtq_handle
virtq_handle-SameRings fuel regions q q' n run =
    subst (SameRings (q.vq)) run
      (handle_loop-SameRings (suc u16_mod) fuel regions (avail_idx q.mem q.vq) (q.vq) q 0 refl)
