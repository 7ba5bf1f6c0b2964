-- ===== src/Backend/Events.antt =====
-- The loop of `tx_kick` in backend.c, for a guest that negotiated EVENT_IDX: what one pass of it
-- leaves.
pub mod Settles
pub mod NoStall
use cs360v_cs380_projects.Prelude.{
  ℕ, zero, suc, ◌+◌, ◌*◌, ◌-◌, ◌%◌, ◌<◌, ◌≤◌, ◌≡◌, ◌⊎◌, inl, inr, refl, ◌∙◌, ap, sym, subst, ◌==◌,
  ◌||◌, Bool-cases, Option, none, some, List, Bool, true, false, u16_mod, arith, has_bit,
}
use cs360v_cs380_projects.Memory.{Memory, load16, store16}
use cs360v_cs380_projects.Virtq.{
  MemRegion, Virtq, Queue, VringDesc, avail_idx, used_idx, desc_size, flag_indirect,
  vlog_virtq_handle,
}
use cs360v_cs380_projects.Virtq.Ends.{IsFlat}
use cs360v_cs380_projects.Virtq.Reads.{load16-agree, read_desc-agree}
use cs360v_cs380_projects.Virtq.Used.{Apart, OutsideUsed, outside, load16-store16, store16_frame}
use cs360v_cs380_projects.Virtq.Handle.{IsServable, Served, waiting, virtq_handle-Served}
use cs360v_cs380_projects.Virtq.Ring.{moved_to, virtq_handle-SameRings}
use cs360v_cs380_projects.Sink.{Sink}
use cs360v_cs380_projects.Backend.{avail_event, kick_loop}

-- The used ring with `avail_event` behind it: the device's own part of the queue.
abbrev pub OutsideRing : Virtq → ℕ → Type 0
OutsideRing vq p = (p < vq.used + 2) ⊎ (vq.used + 6 + 8 * vq.num ≤ p)

-- The driver publishes buffers as the specification has it: it leaves the device's part of the
-- queue alone, chains no indirect descriptor, and its index has 16 bits.
pub record IsPolite (vq : Virtq) (act : Memory → Memory) : Type 0 where
  pub device_part :
      (mem : Memory) (p : ℕ) → vq.used + 2 ≤ p → p < vq.used + 6 + 8 * vq.num → act mem p ≡ mem p
  pub flat : (mem : Memory) → IsFlat mem vq.desc vq.num → IsFlat (act mem) vq.desc vq.num
  pub word : (mem : Memory) → avail_idx mem vq < u16_mod → avail_idx (act mem) vq < u16_mod

-- The rings of the queue do not overlap, `avail_event` included.
pub record IsApart (vq : Virtq) : Type 0 where
  pub entries : 0 < vq.num
  pub table : (vq.desc + desc_size * vq.num ≤ vq.used + 2) ⊎ (vq.used + 6 + 8 * vq.num ≤ vq.desc)
  pub avail : (vq.avail + 4 ≤ vq.used + 2) ⊎ (vq.used + 6 + 8 * vq.num ≤ vq.avail + 2)

-- What a pass needs of memory.
pub record IsReady (vq : Virtq) (mem : Memory) : Type 0 where
  pub flat : IsFlat mem vq.desc vq.num
  pub ready : avail_idx mem vq < u16_mod
  pub used : used_idx mem vq < u16_mod

-- `avail_event` and the re-check behind it, where the driver acted in between.
abbrev pub asked : (Memory → Memory) → Virtq → ℕ → Memory → Memory
asked act vq last mem = act (store16 mem (avail_event vq) last)

-- The queue at a position.
abbrev pub queue_at : Virtq → Memory → ℕ → Sink → Queue
queue_at vq mem last sink = record { vq = record vq { last_avail = last }; mem = mem; sink = sink }

module _ (vq : Virtq) (apart : IsApart vq) where
  IsApart-Apart : (last : ℕ) → Apart (record vq { last_avail = last })
  IsApart-Apart last = ground (arith, apart.table)

  servable :
      (mem : Memory) (last : ℕ) (sink : Sink)
      → IsReady vq mem
      → last < u16_mod
      → IsServable (queue_at vq mem last sink)
  servable mem last sink r small = record {
    entries = apart.entries;
    apart = IsApart-Apart last;
    flat = r.flat;
    position = small;
  }

  -- A pass of the handler leaves the queue where it is, at the published index.
  pub pass :
      (fuel : ℕ) (regions : List MemRegion) (mem : Memory) (last : ℕ) (sink : Sink)
      → IsReady vq mem
      → last < u16_mod
      → vq.num < fuel
      → (mem' : Memory) × (sink' : Sink) × (vlog_virtq_handle fuel regions
            (queue_at vq mem last sink)
          ≡ some (queue_at vq mem' (avail_idx mem vq) sink', waiting (avail_idx mem vq) last))
        × (used_idx mem' vq ≡ (used_idx mem vq + waiting (avail_idx mem vq) last) % u16_mod)
        × ((p : ℕ) → OutsideUsed vq p → mem' p ≡ mem p)
  pass fuel regions mem last sink r small enough =
      let (q', n, run, served, completed) =
        virtq_handle-Served regions fuel (queue_at vq mem last sink)
          (servable mem last sink r small) enough r.ready r.used in
      let same : q'.vq ≡ record vq { last_avail = q'.vq.last_avail } =
        virtq_handle-SameRings fuel regions (queue_at vq mem last sink) q' n run in
      let placed : q' ≡ queue_at vq q'.mem (avail_idx mem vq) q'.sink = λ i. record {
        vq = (same ∙ ap (λ l. moved_to vq l) served.position) i;
        mem = q'.mem;
        sink = q'.sink;
      } in
      let count : n ≡ waiting (avail_idx mem vq) last = served.count ∙ omega arith in
      (q'.mem, q'.sink, run ∙ (λ i. some (placed i, count i)), served.used, served.outside)

  -- What the driver leaves of a memory that a pass and `avail_event` were written to.
  module _ (act : Memory → Memory) (polite : IsPolite vq act) where
    table_kept :
        (mem mem' : Memory) (last : ℕ)
        → ((p : ℕ) → OutsideUsed vq p → mem' p ≡ mem p)
        → (p : ℕ) → vq.desc ≤ p
        → p < vq.desc + desc_size * vq.num
        → store16 mem' (avail_event vq) last p ≡ mem p
    table_kept mem mem' last out p l u =
        let away : OutsideUsed vq p = outside vq (IsApart-Apart vq.last_avail) p l u in
        let beside : (p < avail_event vq) ⊎ (avail_event vq + 2 ≤ p) =
          ground (arith, apart.table) in
        store16_frame mem' (avail_event vq) last p beside ∙ out p away

    asked-IsFlat :
        (mem mem' : Memory) (last : ℕ)
        → ((p : ℕ) → OutsideUsed vq p → mem' p ≡ mem p)
        → IsFlat mem vq.desc vq.num
        → IsFlat (asked act vq last mem') vq.desc vq.num
    asked-IsFlat mem mem' last out flat = polite.flat (store16 mem' (avail_event vq) last) (λ j b.
        ap (λ d. has_bit (VringDesc.flags d) flag_indirect)
          (read_desc-agree (store16 mem' (avail_event vq) last) mem vq.desc vq.num j
            (table_kept mem mem' last out) b)
        ∙ flat j b)

    pub avail_kept :
        (mem mem' : Memory) (last : ℕ)
        → ((p : ℕ) → OutsideUsed vq p → mem' p ≡ mem p)
        → avail_idx (store16 mem' (avail_event vq) last) vq ≡ avail_idx mem vq
    avail_kept mem mem' last out =
        load16-agree (store16 mem' (avail_event vq) last) mem (vq.avail + 2) (λ p l u.
          let beside : (p < avail_event vq) ⊎ (avail_event vq + 2 ≤ p) =
            ground (arith, apart.avail) in
          let away : OutsideUsed vq p = ground (arith, apart.avail) in
          store16_frame mem' (avail_event vq) last p beside ∙ out p away)

    pub asked-used :
        (mem : Memory) (last : ℕ) → used_idx (asked act vq last mem) vq ≡ used_idx mem vq
    asked-used mem last = load16-agree (asked act vq last mem) mem (vq.used + 2) (λ p l u.
        polite.device_part (store16 mem (avail_event vq) last) p l (omega arith)
        ∙ store16_frame mem (avail_event vq) last p (inl (omega arith)))

    pub asked-event :
        (mem : Memory) (last : ℕ)
        → last < u16_mod
        → load16 (asked act vq last mem) (avail_event vq) ≡ last
    asked-event mem last small =
        load16-agree (asked act vq last mem) (store16 mem (avail_event vq) last) (avail_event vq)
          (λ p l u.
            polite.device_part (store16 mem (avail_event vq) last) p (omega arith) (omega arith))
        ∙ load16-store16 mem (avail_event vq) last small

    -- The memory is ready for the next pass.
    pub asked-IsReady :
        (mem mem' : Memory) (last : ℕ)
        → IsReady vq mem
        → ((p : ℕ) → OutsideUsed vq p → mem' p ≡ mem p)
        → used_idx mem' vq < u16_mod
        → IsReady vq (asked act vq last mem')
    asked-IsReady mem mem' last r out word =
        let published : avail_idx (store16 mem' (avail_event vq) last) vq ≡ avail_idx mem vq =
          avail_kept mem mem' last out in
        let still : used_idx (asked act vq last mem') vq ≡ used_idx mem' vq =
          asked-used mem' last in
        let bounded : avail_idx (store16 mem' (avail_event vq) last) vq < u16_mod =
          subst (λ k. k < u16_mod) (sym published) r.ready in
        record {
          flat = asked-IsFlat mem mem' last out r.flat;
          ready = polite.word (store16 mem' (avail_event vq) last) bounded;
          used = subst (λ k. k < u16_mod) (sym still) word;
        }
