-- ===== src/Virtq/Handle.antt =====
-- The outer loop of `vlog_virtq_handle`.
use cs360v_cs380_projects.Prelude.{
  ℕ, zero, suc, ◌+◌, ◌-◌, ◌%◌, ◌<◌, ◌≡◌, ◌≢◌, inl, inr, refl, subst, ◌∙◌, ap, ◌==◌, Bool-cases,
  Option, some, List, arith, true, false, u16_mod,
}
use cs360v_cs380_projects.Memory.{Memory}
use cs360v_cs380_projects.Virtq.{
  MemRegion, Queue, used_idx, avail_idx, complete, finish_chain, head_of, walk_chain, handle_loop,
  vlog_virtq_handle, chain_start,
}
use cs360v_cs380_projects.Virtq.Completed.{Completes, all_done, one_more, finish-IsCompleted}
use cs360v_cs380_projects.Virtq.Ends.{IsFlat, flat-Ends}
use cs360v_cs380_projects.Virtq.Used.{
  Apart, OutsideUsed, complete-IsFlat, complete_lem, load16-store16, with_len, written_frame,
}

-- The chains that wait: from the queue's position to the index that the driver published.
abbrev pub waiting : ℕ → ℕ → ℕ
waiting ready last = (ready + u16_mod - last) % u16_mod

-- What the handler needs of a queue: entries, rings that do not overlap, and no indirect
-- descriptor in the table.
pub record IsServable (q : Queue) : Type 0 where
  pub entries : 0 < q.vq.num
  pub apart : Apart q.vq
  pub flat : IsFlat q.mem q.vq.desc q.vq.num
  pub position : q.vq.last_avail < u16_mod

-- What it leaves, from `chains` done on.
pub record Served (ready chains : ℕ) (q q' : Queue) (total : ℕ) : Type 0 where
  pub position : q'.vq.last_avail ≡ ready
  pub count : total ≡ chains + waiting ready q.vq.last_avail
  pub used : used_idx q'.mem q.vq ≡ (used_idx q.mem q.vq + waiting ready q.vq.last_avail) % u16_mod
  pub outside : (p : ℕ) → OutsideUsed q.vq p → q'.mem p ≡ q.mem p

finish-IsServable :
    (q : Queue) (head : ℕ) (rec : List ℕ) → IsServable q → IsServable (finish_chain q head rec)
unfolding finish_chain
finish-IsServable q head rec s = record {
  entries = s.entries;
  apart = s.apart;
  flat = complete-IsFlat q.mem q.vq head s.entries s.apart s.flat;
  position = omega arith;
}

finish-Served :
    (ready chains : ℕ) (q : Queue) (head : ℕ) (rec : List ℕ) {q' : Queue} {total : ℕ}
    → IsServable q
    → ready < u16_mod
    → q.vq.last_avail ≢ ready
    → Served ready (chains + 1) (finish_chain q head rec) q' total
    → Served ready chains q q' total
unfolding finish_chain
finish-Served ready chains q head rec {q'} s small more v = record {
  position = v.position;
  count = omega (arith, v.count, s.position);
  used = omega (arith, v.used, s.position, next);
  outside = λ p out. v.outside p out ∙ kept p out;
}
  where
    next : used_idx (complete q.mem q.vq head) q.vq ≡ (used_idx q.mem q.vq + 1) % u16_mod
    next =
        ap (λ m. used_idx m q.vq) (complete_lem q.mem q.vq head)
        ∙ load16-store16 (with_len q.mem q.vq head) (q.vq.used + 2) _ (omega arith)

    kept : (p : ℕ) → OutsideUsed q.vq p → complete q.mem q.vq head p ≡ q.mem p
    kept p out =
        ap (λ (m : Memory). m p) (complete_lem q.mem q.vq head)
        ∙ written_frame q.mem q.vq head s.entries p out

module _ (regions : List MemRegion) (fuel ready : ℕ) (small : ready < u16_mod) where
  abbrev Result : ℕ → Queue → Option (Queue × ℕ) → Type 0
  Result chains q o =
      (q' : Queue) × (total : ℕ) × (o ≡ some (q', total))
      × Served ready chains q q' total
      × Completes fuel regions (waiting ready q.vq.last_avail) q q'

  Served-now :
      (chains : ℕ) (q : Queue)
      → q.vq.last_avail ≡ ready
      → used_idx q.mem q.vq < u16_mod
      → Served ready chains q q chains
  Served-now chains q e word = record {
    position = e;
    count = omega arith;
    used = omega arith;
    outside = λ p out. refl;
  }

  loop_now :
      (rounds chains : ℕ) (q : Queue)
      → (q.vq.last_avail == ready) ≡ true
      → handle_loop (suc rounds) fuel regions ready q chains ≡ some (q, chains)
  unfolding handle_loop
  loop_now rounds chains q e = rw (e, handle_loop)

  loop_next :
      (rounds chains : ℕ) (q : Queue) (rec : List ℕ)
      → (q.vq.last_avail == ready) ≡ false
      → walk_chain fuel regions q ≡ some rec
      → handle_loop (suc rounds) fuel regions ready q chains
        ≡ handle_loop rounds fuel regions ready (finish_chain q (head_of q) rec) (chains + 1)
  unfolding handle_loop
  loop_next rounds chains q rec e found = rw (e, handle_loop) (rw (found, handle_loop))

  -- The queue's next position is one chain nearer to what the driver published.
  nearer :
      (q : Queue) (head : ℕ) (rec : List ℕ) (rounds : ℕ)
      → IsServable q
      → q.vq.last_avail ≢ ready
      → waiting ready q.vq.last_avail < suc rounds
      → waiting ready (finish_chain q head rec).vq.last_avail < rounds
  unfolding finish_chain
  nearer q head rec rounds s more m = omega (arith, s.position)

  done-Completes :
      (q : Queue)
      → q.vq.last_avail ≡ ready
      → Completes fuel regions (waiting ready q.vq.last_avail) q q
  done-Completes q e = subst (λ n. Completes fuel regions n q q) (omega (arith, e, small)) all_done

  next-Completes :
      (q : Queue) (rec : List ℕ) {q' : Queue}
      → IsServable q
      → q.vq.last_avail ≢ ready
      → walk_chain fuel regions q ≡ some rec
      → Completes fuel regions
          (waiting ready (finish_chain q (head_of q) rec).vq.last_avail)
          (finish_chain q (head_of q) rec)
          q'
      → Completes fuel regions (waiting ready q.vq.last_avail) q q'
  next-Completes q rec {q'} s more found c =
      let fewer : suc (waiting ready (finish_chain q (head_of q) rec).vq.last_avail)
          ≡ waiting ready q.vq.last_avail =
        unfold finish_chain in omega (arith, s.position, more) in
      subst (λ n. Completes fuel regions n q q') fewer
        (one_more (finish-IsCompleted fuel regions q rec found) c)

  finish-num : (q : Queue) (head : ℕ) (rec : List ℕ) → (finish_chain q head rec).vq.num ≡ q.vq.num
  unfolding finish_chain
  finish-num q head rec = refl

  finish_word :
      (q : Queue) (head : ℕ) (rec : List ℕ)
      → used_idx (finish_chain q head rec).mem (finish_chain q head rec).vq < u16_mod
  unfolding finish_chain
  finish_word q head rec =
      let next : used_idx (complete q.mem q.vq head) q.vq ≡ (used_idx q.mem q.vq + 1) % u16_mod =
        ap (λ m. used_idx m q.vq) (complete_lem q.mem q.vq head)
        ∙ load16-store16 (with_len q.mem q.vq head) (q.vq.used + 2) _ (omega arith) in
      omega (arith, next)

  handle_loop-Served :
      (rounds chains : ℕ) (q : Queue)
      → IsServable q
      → q.vq.num < fuel
      → used_idx q.mem q.vq < u16_mod
      → waiting ready q.vq.last_avail < rounds
      → Result chains q (handle_loop rounds fuel regions ready q chains)
  unfolding handle_loop
  handle_loop-Served zero chains q s enough word m = absurd (omega arith)
  handle_loop-Served (suc rounds) chains q s enough word m =
      elim (Bool-cases (q.vq.last_avail == ready)) [
        | inl e ↦ (
          q,
          chains,
          loop_now rounds chains q e,
          Served-now chains q (ground arith) word,
          done-Completes q (ground arith),
        )
        | inr n ↦
            let more : q.vq.last_avail ≢ ready = ground arith in
            let (rec, found) =
              flat-Ends regions q.mem q.vq.num fuel (chain_start q) s.flat (omega arith) in
            let (q', total, run, served, completed) =
              handle_loop-Served rounds (chains + 1) (finish_chain q (head_of q) rec)
                (finish-IsServable q (head_of q) rec s)
                (omega (arith, finish-num q (head_of q) rec)) (finish_word q (head_of q) rec)
                (nearer q (head_of q) rec rounds s more m) in
            (
              q',
              total,
              loop_next rounds chains q rec n found ∙ run,
              finish-Served ready chains q (head_of q) rec s small more served,
              next-Completes q rec s more found completed,
            )
      ]

-- A kick on a queue with entries, rings that do not overlap and no indirect descriptor always
-- returns, with fuel for one descriptor more than the queue has. It returns the number of chains
-- that the driver had published, in 16-bit arithmetic, cyclic and broken ones included, stands at
-- the published index, advances the used index by that number, and writes nothing outside the used
-- ring. It gets there by completing so many chains one after the other: for each, what the walk
-- over it gives goes to the sink unless it is empty, the used entry that the used index names holds
-- the chain's head and the length 0, and no other byte than that entry and the index changes.
pub virtq_handle-Served :
    (regions : List MemRegion) (fuel : ℕ) (q : Queue)
    → IsServable q
    → q.vq.num < fuel
    → avail_idx q.mem q.vq < u16_mod
    → used_idx q.mem q.vq < u16_mod
    → (q' : Queue) × (total : ℕ) × (vlog_virtq_handle fuel regions q ≡ some (q', total))
      × Served (avail_idx q.mem q.vq) 0 q q' total
      × Completes fuel regions (waiting (avail_idx q.mem q.vq) q.vq.last_avail) q q'
unfolding vlog_virtq_handle
virtq_handle-Served regions fuel q s enough ready word =
    handle_loop-Served regions fuel (avail_idx q.mem q.vq) ready (suc u16_mod) 0 q s enough word
      (omega arith)
