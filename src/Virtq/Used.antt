-- ===== src/Virtq/Used.antt =====
-- The used ring of `vlog_virtq_handle`: what completing a chain writes.
use cs360v_cs380_projects.Prelude.{
  ℕ, ◌+◌, ◌*◌, ◌%◌, ◌^◌, ◌<◌, ◌≤◌, ◌≡◌, ◌⊎◌, inl, inr, ◌∙◌, ap, arith, has_bit, u16_mod,
}
use cs360v_cs380_projects.Memory.{Memory, load16, load32, store16, store32}
use cs360v_cs380_projects.Memory.Translate.{store32_frame, load32-store32}
use cs360v_cs380_projects.Virtq.{
  Virtq, used_idx, used_elem, complete, desc_size, flag_indirect, VringDesc,
}
use cs360v_cs380_projects.Virtq.Ends.{IsFlat}
use cs360v_cs380_projects.Virtq.Reads.{read_desc-agree}

-- The part of the used ring that the device writes: its index and its entries.
abbrev pub OutsideUsed : Virtq → ℕ → Type 0
OutsideUsed vq q = (q < vq.used + 2) ⊎ (vq.used + 4 + 8 * vq.num ≤ q)

used_idx-store32 :
    (mem : Memory) (vq : Virtq) (p v : ℕ)
    → vq.used + 4 ≤ p
    → used_idx (store32 mem p v) vq ≡ used_idx mem vq
used_idx-store32 mem vq p v h = λ i.
    store32_frame mem p v (vq.used + 2) (inl (omega arith)) i
    + 2 ^ 8 * store32_frame mem p v (vq.used + 2 + 1) (inl (omega arith)) i

pub load16-store16 : (mem : Memory) (p v : ℕ) → v < 2 ^ 16 → load16 (store16 mem p v) p ≡ v
load16-store16 mem p v h = ground arith

pub store16_frame : (mem : Memory) (p v q : ℕ) → (q < p) ⊎ (p + 2 ≤ q) → store16 mem p v q ≡ mem q
store16_frame mem p v q h = ground arith

pub load32-store16 :
    (mem : Memory) (p v q : ℕ) → p + 2 ≤ q → load32 (store16 mem p v) q ≡ load32 mem q
load32-store16 mem p v q h = ground arith

pub load32-store32_apart :
    (mem : Memory) (p v q : ℕ) → q + 4 ≤ p → load32 (store32 mem p v) q ≡ load32 mem q
load32-store32_apart mem p v q h = ground arith

module _ (mem : Memory) (vq : Virtq) (head : ℕ) where
  abbrev slot : ℕ
  slot = used_elem vq (used_idx mem vq % vq.num)

  abbrev pub with_id : Memory
  with_id = store32 mem slot head

  abbrev pub with_len : Memory
  with_len = store32 with_id (slot + 4) 0

  -- The index is read three times, and is the same each time.
  pub complete_lem :
      complete mem vq head ≡ store16 with_len (vq.used + 2) ((used_idx mem vq + 1) % u16_mod)
  unfolding complete
  complete_lem =
      let after_id : used_idx with_id vq ≡ used_idx mem vq =
        used_idx-store32 mem vq slot head (omega arith) in
      let after_len : used_idx with_len vq ≡ used_idx mem vq =
        used_idx-store32 with_id vq (slot + 4) 0 (omega arith) ∙ after_id in
      ap
        (λ (k : ℕ).
          let m = store32 with_id (used_elem vq (k % vq.num) + 4) 0 in
          store16 m (vq.used + 2) ((used_idx m vq + 1) % u16_mod))
        after_id
      ∙ ap (λ (k : ℕ). store16 with_len (vq.used + 2) ((k + 1) % u16_mod)) after_len

  pub written_frame :
      0 < vq.num
      → (q : ℕ) → OutsideUsed vq q
      → store16 with_len (vq.used + 2) ((used_idx mem vq + 1) % u16_mod) q ≡ mem q
  written_frame pos q (inl below) =
      store16_frame with_len (vq.used + 2) _ q (inl below)
      ∙ store32_frame with_id (slot + 4) 0 q (inl (omega arith))
      ∙ store32_frame mem slot head q (inl (omega arith))
  written_frame pos q (inr above) =
      let last : used_idx mem vq % vq.num < vq.num = omega arith in
      store16_frame with_len (vq.used + 2) _ q (inr (omega arith))
      ∙ store32_frame with_id (slot + 4) 0 q (inr (omega arith))
      ∙ store32_frame mem slot head q (inr (omega arith))

  -- Completing a chain advances the used index by one in 16 bits, leaves the chain's head and the
  -- length 0 in the entry that the old index names, and writes nothing outside the used ring.
  pub complete-used :
      0 < vq.num
      → head < 2 ^ 32
      → (used_idx (complete mem vq head) vq ≡ (used_idx mem vq + 1) % 2 ^ 16)
        × (load32 (complete mem vq head) (used_elem vq (used_idx mem vq % vq.num)) ≡ head)
        × (load32 (complete mem vq head) (used_elem vq (used_idx mem vq % vq.num) + 4) ≡ 0)
        × ((q : ℕ) → OutsideUsed vq q → complete mem vq head q ≡ mem q)
  complete-used pos word = rw complete_lem (
    load16-store16 with_len (vq.used + 2) _ (omega arith),
    load32-store16 with_len (vq.used + 2) _ slot (omega arith)
        ∙ load32-store32_apart with_id (slot + 4) 0 slot (omega arith)
        ∙ load32-store32 mem slot head word,
    load32-store16 with_len (vq.used + 2) _ (slot + 4) (omega arith)
        ∙ load32-store32 with_id (slot + 4) 0 (omega arith),
    written_frame pos,
  )

-- The used ring and the descriptor table do not overlap.
abbrev pub Apart : Virtq → Type 0
Apart vq = (vq.desc + desc_size * vq.num ≤ vq.used + 2) ⊎ (vq.used + 4 + 8 * vq.num ≤ vq.desc)

pub outside :
    (vq : Virtq)
    → Apart vq
    → (q : ℕ) → vq.desc ≤ q
    → q < vq.desc + desc_size * vq.num
    → OutsideUsed vq q
outside vq (inl a) q l u = inl (omega arith)
outside vq (inr a) q l u = inr (omega arith)

-- Completing a chain leaves a flat descriptor table flat.
pub complete-IsFlat :
    (mem : Memory) (vq : Virtq) (head : ℕ)
    → 0 < vq.num
    → Apart vq
    → IsFlat mem vq.desc vq.num
    → IsFlat (complete mem vq head) vq.desc vq.num
complete-IsFlat mem vq head pos apart flat j b =
    let kept : (q : ℕ) → OutsideUsed vq q → complete mem vq head q ≡ mem q = λ q out.
      ap (λ (m : Memory). m q) (complete_lem mem vq head) ∙ written_frame mem vq head pos q out in
    ap (λ d. has_bit (VringDesc.flags d) flag_indirect)
      (read_desc-agree (complete mem vq head) mem vq.desc vq.num j
        (λ q l u. kept q (outside vq apart q l u)) b)
    ∙ flat j b
