-- ===== src/Virtq/Tests.antt =====
-- The virtqueue on a concrete guest: two buffers chained, and a table that points at itself.
use cs360v_cs380_projects.Prelude.{
  ℕ, zero, suc, sym, ◌∙◌, ◌≡◌, ◌≢◌, ◌+◌, ◌<◌, ◌≤◌, refl, inl, arith, some, none, List, [], ◌∷◌,
  ◌==◌, if◌then◌else◌, length, true, false,
}
use cs360v_cs380_projects.Memory.{Memory, store16, store32}
use cs360v_cs380_projects.Sink.{vlog_sink_open}
use cs360v_cs380_projects.Virtq.{
  MemRegion, Cursor, Virtq, Queue, virtq_gpa_to_hva, read_desc, walk, vlog_virtq_handle, flag_next,
  flag_indirect, max_record, find_region,
}
use cs360v_cs380_projects.Virtq.Translate.{In, here, there, Holds, Found, virtq_gpa_to_hva_lem}
use cs360v_cs380_projects.Virtq.Walk.{Reaches, length-walk}
use cs360v_cs380_projects.Virtq.Ends.{IsFlat, DoesNotNest, Ends, walk-Ends, walk-hangs}
use cs360v_cs380_projects.Virtq.Reads.{AgreeOn, AgreeShared, walk-agree}
use cs360v_cs380_projects.Virtq.Completed.{Completes}
use cs360v_cs380_projects.Virtq.Handle.{IsServable, Served, virtq_handle-Served}

-- One page of guest memory.
abbrev page : MemRegion
page = record { gpa = 0x1000; size = 0x1000; hva = 0x5000 }

abbrev shared : List MemRegion
shared = page ∷ []

-- `struct vring_desc` written at `p`, for an address below 4 GiB.
abbrev write_desc : Memory → ℕ → (addr len flags next : ℕ) → Memory
write_desc mem p addr len flags next =
    store16 (store16 (store32 (store32 mem p addr) (p + 8) len) (p + 12) flags) (p + 14) next

abbrev text : Memory
text = store32 (λ _. 0) 0x5100 0x64636261

-- Two descriptors: three bytes, then one.
abbrev chained : Memory
chained = write_desc (write_desc text 0x8000 0x1100 3 flag_next 1) 0x8010 0x1103 1 0 0

-- The same, and one chain published.
abbrev published : Memory
published = store16 chained 0x9002 1

abbrev queue : Virtq
queue = record { desc = 0x8000; avail = 0x9000; used = 0xA000; num = 2; last_avail = 0 }

abbrev start : Cursor
start = record { table = 0x8000; t_size = 2; i = 0; x = 0; rec = [] }

-- A table whose first entry points at the table.
abbrev looped : Memory
looped = write_desc (λ _. 0) 0x5000 0x1000 16 flag_indirect 0

abbrev jumped : Cursor
jumped = record { table = 0x5000; t_size = 1; i = 0; x = 0; rec = [] }

chained-IsFlat : IsFlat chained 0x8000 2
unfolding read_desc
chained-IsFlat zero b = refl
chained-IsFlat (suc zero) b = refl
chained-IsFlat (suc (suc j)) b = absurd (omega arith)

abbrev sixteen : ℕ
sixteen = 16

virtq_gpa_to_hva_lem_example :
    ((p : ℕ) → virtq_gpa_to_hva shared 0x1ff0 16 ≡ some p → (0 < 16) × Found shared 0x1ff0 16 p)
    × ((r : MemRegion)
        → In r shared
        → 0 < 16
        → Holds r 0x1ff0 16
        → virtq_gpa_to_hva shared 0x1ff0 16 ≢ none)
    × (sixteen ≡ 0 → virtq_gpa_to_hva shared 0x1ff0 16 ≡ none)
virtq_gpa_to_hva_lem_example = virtq_gpa_to_hva_lem shared 0x1ff0 sixteen

length-walk_example :
    ((c' : Cursor) → Reaches shared looped 8 jumped c' → length c'.rec ≤ max_record)
    × ((fuel : ℕ) (out : List ℕ)
        → walk fuel shared looped 8 jumped ≡ some out
        → length out ≤ max_record)
length-walk_example = length-walk shared looped 8 jumped (ground arith)

true_ne_false : true ≡ false → ⊥
true_ne_false e = cc

walk-Ends_example : Ends (walk 4 shared chained 2 start)
walk-Ends_example = walk-Ends shared chained 2 4 start no_nesting (omega arith)
  where
    no_nesting : DoesNotNest shared chained 0x8000 2
    no_nesting j t b ind = λ e. absurd (true_ne_false (sym ind ∙ chained-IsFlat j b))

walk-hangs_example : walk 1000 shared looped 8 jumped ≡ none
unfolding read_desc virtq_gpa_to_hva find_region
walk-hangs_example =
    walk-hangs shared looped 8 0x5000 1000 0 [] refl refl (omega arith) (omega arith)

-- A memory that differs in a byte which the guest does not share.
abbrev elsewhere : Memory
elsewhere = λ q. if q == 0x100 then 1 else chained q

elsewhere-AgreeShared : AgreeShared chained elsewhere shared
elsewhere-AgreeShared r here q lo hi = ground arith
elsewhere-AgreeShared r (there m) q lo hi = elim m [ ]

elsewhere-AgreeOn : AgreeOn chained elsewhere 0x8000 0x8020
elsewhere-AgreeOn q lo hi = ground arith

walk-agree_example : walk 3 shared chained 2 start ≡ walk 3 shared elsewhere 2 start
walk-agree_example =
    walk-agree chained elsewhere shared 2 3 start elsewhere-AgreeShared elsewhere-AgreeOn

published-IsFlat : IsFlat published 0x8000 2
unfolding read_desc
published-IsFlat zero b = refl
published-IsFlat (suc zero) b = refl
published-IsFlat (suc (suc j)) b = absurd (omega arith)

abbrev kicked : Queue
kicked = record { vq = queue; mem = published; sink = vlog_sink_open }

kicked-IsServable : IsServable kicked
kicked-IsServable = record {
  entries = omega arith;
  apart = inl (omega arith);
  flat = published-IsFlat;
  position = omega arith;
}

virtq_handle-Served_example :
    (q' : Queue) × (total : ℕ) × (vlog_virtq_handle 3 shared kicked ≡ some (q', total))
    × Served 1 0 kicked q' total
    × Completes 3 shared 1 kicked q'
virtq_handle-Served_example =
    virtq_handle-Served shared 3 kicked kicked-IsServable (omega arith) (omega arith) (omega arith)
