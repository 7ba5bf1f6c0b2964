-- ===== src/Virtq.antt =====
-- project_1/vhost/virtq.h and virtio.c: the address translation of the vhost-user backend and the
-- split virtqueue. Descriptors and rings are bytes of memory that the guest fills; a kick sees one
-- snapshot of it, which only the device's own writes to the used ring change. The fences order
-- those accesses against the guest and have no effect on one snapshot.
pub mod Translate
pub mod Walk
pub mod Ends
pub mod Reads
pub mod Used
pub mod Completed
pub mod Handle
pub mod Ring
mod Tests
use cs360v_cs380_projects.Prelude.{
  ℕ, zero, suc, ◌+◌, ◌-◌, ◌*◌, ◌/◌, ◌%◌, ltb, leb, ◌==◌, if◌then◌else◌, List, [], ◌∷◌, ◌++◌, Bool,
  true, false, ◌&&◌, Option, none, some, has_bit, min, length, u16_mod,
}
use cs360v_cs380_projects.Memory.{Memory, load_bytes, load16, load32, load64, store16, store32}
use cs360v_cs380_projects.Sink.{Sink, vlog_sink_emit}

-- `struct virtq_mem_region`; a region list is `struct virtq_mem`.
pub record MemRegion : Type 0 where
  pub gpa : ℕ
  pub size : ℕ
  pub hva : ℕ

-- The loop of `virtq_gpa_to_hva`. Each subtraction stands behind the test that keeps it from
-- wrapping.
unfoldable pub find_region : List MemRegion → ℕ → ℕ → Option ℕ
find_region [] gpa len = none
find_region (r ∷ rs) gpa len =
    if leb r.gpa gpa && ltb (gpa - r.gpa) r.size && leb len (r.size - (gpa - r.gpa))
    then some (r.hva + (gpa - r.gpa))
    else find_region rs gpa len

unfoldable pub virtq_gpa_to_hva : List MemRegion → ℕ → ℕ → Option ℕ
virtq_gpa_to_hva regions gpa len = if len == 0 then none else find_region regions gpa len

-- `struct vring_desc`: 16 bytes.
pub record VringDesc : Type 0 where
  pub addr : ℕ
  pub len : ℕ
  pub flags : ℕ
  pub next : ℕ

abbrev pub desc_size : ℕ
desc_size = 16

-- `table[i]`
unfoldable pub read_desc : Memory → ℕ → ℕ → VringDesc
read_desc mem table i =
    let p = table + desc_size * i in
    record {
      addr = load64 mem p;
      len = load32 mem (p + 8);
      flags = load16 mem (p + 12);
      next = load16 mem (p + 14);
    }

abbrev pub flag_next : ℕ
flag_next = 1

abbrev pub flag_write : ℕ
flag_write = 2

abbrev pub flag_indirect : ℕ
flag_indirect = 4

abbrev pub max_record : ℕ
max_record = 4096

-- The bytes of one descriptor after those of `rec`, as many as fit.
unfoldable pub gather : List MemRegion → Memory → VringDesc → List ℕ → List ℕ
gather regions mem d rec =
    if has_bit d.flags flag_write then rec else elim (virtq_gpa_to_hva regions d.addr d.len) [
      | none ↦ rec
      | some p ↦ rec ++ load_bytes mem p (min d.len (max_record - length rec))
    ]

-- Where the walk stands: descriptor `i` of the `t_size` at `table`, `x` hops made, the record so
-- far.
pub record Cursor : Type 0 where
  pub table : ℕ
  pub t_size : ℕ
  pub i : ℕ
  pub x : ℕ
  pub rec : List ℕ

-- One round of the inner loop ends it with a record, or goes on.
pub data Hop : Type 0 where
  stop : List ℕ → Hop
  go : Cursor → Hop

-- The body for a descriptor `d` that is in range.
unfoldable pub visit : List MemRegion → Memory → Cursor → VringDesc → Hop
visit regions mem c d =
    if has_bit d.flags flag_indirect
    then elim (virtq_gpa_to_hva regions d.addr d.len) [
      | none ↦ stop c.rec
      | some t ↦ go (record c { table = t; t_size = d.len / desc_size; i = 0 })
    ]
    else if has_bit d.flags flag_next
    then go (record c { i = d.next; x = c.x + 1; rec = gather regions mem d c.rec })
    else stop (gather regions mem d c.rec)

unfoldable pub hop : List MemRegion → Memory → ℕ → Cursor → Hop
unfolding visit
hop regions mem num c =
    if ltb c.x num && ltb c.i c.t_size
    then visit regions mem c (read_desc mem c.table c.i)
    else stop c.rec

-- The inner loop. `none` means that the fuel ran out.
unfoldable pub walk : ℕ → List MemRegion → Memory → ℕ → Cursor → Option (List ℕ)
walk zero regions mem num c = none
walk (suc fuel) regions mem num c = elim (hop regions mem num c) [
  | stop rec ↦ some rec
  | go c' ↦ walk fuel regions mem num c'
]

-- `struct virtq`: host addresses of the three rings.
pub record Virtq : Type 0 where
  pub desc : ℕ
  pub avail : ℕ
  pub used : ℕ
  pub num : ℕ
  pub last_avail : ℕ

-- What the handler works on.
pub record Queue : Type 0 where
  pub vq : Virtq
  pub mem : Memory
  pub sink : Sink

abbrev pub avail_idx : Memory → Virtq → ℕ
avail_idx mem vq = load16 mem (vq.avail + 2)

abbrev pub avail_ring : Memory → Virtq → ℕ → ℕ
avail_ring mem vq i = load16 mem (vq.avail + 4 + 2 * i)

abbrev pub used_idx : Memory → Virtq → ℕ
used_idx mem vq = load16 mem (vq.used + 2)

abbrev pub used_elem : Virtq → ℕ → ℕ
used_elem vq i = vq.used + 4 + 8 * i

-- The used entry `{ head, 0 }` and the index behind it.
unfoldable pub complete : Memory → Virtq → ℕ → Memory
complete mem vq head =
    let m1 = store32 mem (used_elem vq (used_idx mem vq % vq.num)) head in
    let m2 = store32 m1 (used_elem vq (used_idx m1 vq % vq.num) + 4) 0 in
    store16 m2 (vq.used + 2) ((used_idx m2 vq + 1) % u16_mod)

abbrev pub emit : Sink → List ℕ → Sink
emit sink rec = if ltb 0 (length rec) then vlog_sink_emit sink rec else sink

-- One round of the outer loop, once its chain is walked.
unfoldable pub finish_chain : Queue → ℕ → List ℕ → Queue
unfolding complete
finish_chain q head rec = record {
  vq = record (q.vq) { last_avail = (q.vq.last_avail + 1) % u16_mod };
  mem = complete q.mem q.vq head;
  sink = emit q.sink rec;
}

abbrev pub head_of : Queue → ℕ
head_of q = avail_ring q.mem q.vq (q.vq.last_avail % q.vq.num)

-- The inner loop's start: the chain's head in the queue's own table.
abbrev pub chain_start : Queue → Cursor
chain_start q = record { table = q.vq.desc; t_size = q.vq.num; i = head_of q; x = 0; rec = [] }

abbrev pub walk_chain : ℕ → List MemRegion → Queue → Option (List ℕ)
walk_chain fuel regions q = walk fuel regions q.mem q.vq.num (chain_start q)

-- The outer loop. `rounds` bounds the chains, `fuel` the descriptors of one chain.
unfoldable pub handle_loop :
    (rounds fuel : ℕ) → List MemRegion → (ready : ℕ) → Queue → ℕ → Option (Queue × ℕ)
handle_loop zero fuel regions ready q chains = none
handle_loop (suc rounds) fuel regions ready q chains = elim (q.vq.last_avail == ready) [
  | true ↦ some (q, chains)
  | false ↦ elim (walk_chain fuel regions q) [
    | none ↦ none
    | some rec ↦ handle_loop rounds fuel regions ready (finish_chain q (head_of q) rec) (chains + 1)
  ]
]

-- `last_avail` counts in 16 bits, so 65536 rounds always reach `ready`.
unfoldable pub vlog_virtq_handle : ℕ → List MemRegion → Queue → Option (Queue × ℕ)
vlog_virtq_handle fuel regions q = handle_loop (suc u16_mod) fuel regions (avail_idx q.mem q.vq) q 0
