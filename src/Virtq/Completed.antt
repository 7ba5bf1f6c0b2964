-- ===== src/Virtq/Completed.antt =====
-- The outer loop of `vlog_virtq_handle`: what it does to each chain.
use cs360v_cs380_projects.Prelude.{
  ℕ, zero, suc, ◌+◌, ◌%◌, ◌^◌, ◌<◌, ◌≤◌, ◌≡◌, ◌⊎◌, inl, inr, refl, ◌∙◌, ap, arith, some, List,
  u16_mod,
}
use cs360v_cs380_projects.Memory.{Memory, load32, store16, store32}
use cs360v_cs380_projects.Memory.Translate.{store32_frame}
use cs360v_cs380_projects.Virtq.{
  MemRegion, Queue, used_idx, used_elem, complete, emit, finish_chain, head_of, walk_chain,
}
use cs360v_cs380_projects.Virtq.Used.{
  complete_lem, load16-store16, load32-store16, load32-store32_apart, with_id, with_len,
  store16_frame,
}

-- The entry of the used ring that the queue's used index names.
abbrev pub slot_of : Queue → ℕ
slot_of q = used_elem q.vq (used_idx q.mem q.vq % q.vq.num)

-- The chain at the queue's position, taken from `q` to `q'`: its record is what the walk over it
-- gives, and goes to the sink unless it is empty; the next used entry names its head, with the
-- length 0; the used index and the position advance by one; no other byte changes.
pub record IsCompleted (fuel : ℕ) (regions : List MemRegion) (q : Queue) (rec : List ℕ) (q' : Queue)
    : Type 0 where
  pub walked : walk_chain fuel regions q ≡ some rec
  pub sent : q'.sink ≡ emit q.sink rec
  pub id : load32 q'.mem (slot_of q) ≡ head_of q % 2 ^ 32
  pub len : load32 q'.mem (slot_of q + 4) ≡ 0
  pub index : used_idx q'.mem q.vq ≡ (used_idx q.mem q.vq + 1) % 2 ^ 16
  pub position : q'.vq ≡ record (q.vq) { last_avail = (q.vq.last_avail + 1) % 2 ^ 16 }
  pub others :
      (p : ℕ)
      → (p < q.vq.used + 2) ⊎ (q.vq.used + 4 ≤ p)
      → (p < slot_of q) ⊎ (slot_of q + 8 ≤ p)
      → q'.mem p ≡ q.mem p

-- So many chains, one after the other.
pub data Completes (fuel : ℕ) (regions : List MemRegion) : ℕ → Queue → Queue → Type 0 where
  all_done : {q : Queue} → Completes fuel regions zero q q
  one_more :
      {n : ℕ} {q q' q'' : Queue} {rec : List ℕ}
      → IsCompleted fuel regions q rec q'
      → Completes fuel regions n q' q''
      → Completes fuel regions (suc n) q q''

load32-store32_word : (mem : Memory) (p v : ℕ) → load32 (store32 mem p v) p ≡ v % 2 ^ 32
load32-store32_word mem p v = ground arith

pub finish-IsCompleted :
    (fuel : ℕ) (regions : List MemRegion) (q : Queue) (rec : List ℕ)
    → walk_chain fuel regions q ≡ some rec
    → IsCompleted fuel regions q rec (finish_chain q (head_of q) rec)
unfolding finish_chain
finish-IsCompleted fuel regions q rec found = record {
  walked = found;
  sent = refl;
  id =
      ap (λ m. load32 m (slot_of q)) written
      ∙ load32-store16 entry (q.vq.used + 2) _ (slot_of q) (omega arith)
      ∙ load32-store32_apart named (slot_of q + 4) 0 (slot_of q) (omega arith)
      ∙ load32-store32_word q.mem (slot_of q) (head_of q);
  len =
      ap (λ m. load32 m (slot_of q + 4)) written
      ∙ load32-store16 entry (q.vq.used + 2) _ (slot_of q + 4) (omega arith)
      ∙ load32-store32_word named (slot_of q + 4) 0;
  index = ap (λ m. used_idx m q.vq) written ∙ load16-store16 entry (q.vq.used + 2) _ (omega arith);
  position = refl;
  others = λ p away apart.
      ap (λ (m : Memory). m p) written
      ∙ store16_frame entry (q.vq.used + 2) _ p (past p q.vq.used away)
      ∙ store32_frame named (slot_of q + 4) 0 p (second p (slot_of q) apart)
      ∙ store32_frame q.mem (slot_of q) (head_of q) p (first p (slot_of q) apart);
}
  where
    entry : Memory
    entry = with_len q.mem q.vq (head_of q)

    named : Memory
    named = with_id q.mem q.vq (head_of q)

    written :
        complete q.mem q.vq (head_of q)
        ≡ store16 entry (q.vq.used + 2) ((used_idx q.mem q.vq + 1) % u16_mod)
    written = complete_lem q.mem q.vq (head_of q)

    past : (p u : ℕ) → (p < u + 2) ⊎ (u + 4 ≤ p) → (p < u + 2) ⊎ (u + 2 + 2 ≤ p)
    past p u (inl l) = inl l
    past p u (inr g) = inr (omega arith)

    second : (p s : ℕ) → (p < s) ⊎ (s + 8 ≤ p) → (p < s + 4) ⊎ (s + 4 + 4 ≤ p)
    second p s (inl l) = inl (omega arith)
    second p s (inr g) = inr (omega arith)

    first : (p s : ℕ) → (p < s) ⊎ (s + 8 ≤ p) → (p < s) ⊎ (s + 4 ≤ p)
    first p s (inl l) = inl l
    first p s (inr g) = inr (omega arith)
