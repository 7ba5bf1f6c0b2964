-- ===== src/Backend.antt =====
-- project_1/vhost/backend.c: the queue kick around the virtqueue handler; the table of watched
-- descriptors and `main` have modules of their own. The vhost-user transport is not modelled: it
-- fills the records below.
pub mod Kick
pub mod Events
pub mod Watch
pub mod Main
mod Tests
use cs360v_cs380_projects.Prelude.{
  ℕ, zero, suc, ◌+◌, ◌*◌, ◌%◌, ◌^◌, ltb, ◌==◌, if◌then◌else◌, List, [], ◌∷◌, ◌++◌, Bool, true,
  false, ◌&&◌, ◌||◌, not, Option, none, some, u16_mod, u64_mod, take, map, has_bit, length,
}
use cs360v_cs380_projects.Memory.{Memory, store16}
use cs360v_cs380_projects.Sink.{Sink}
use cs360v_cs380_projects.Virtq.{MemRegion, Virtq, Queue, avail_idx, vlog_virtq_handle}

-- A region as the transport maps it.
pub record VuDevRegion : Type 0 where
  pub gpa : ℕ
  pub size : ℕ
  pub mmap_addr : ℕ
  pub mmap_offset : ℕ

-- VHOST_USER_MAX_RAM_SLOTS
abbrev pub max_ram_slots : ℕ
max_ram_slots = 32

abbrev pub region : VuDevRegion → MemRegion
region r = record { gpa = r.gpa; size = r.size; hva = (r.mmap_addr + r.mmap_offset) % u64_mod }

unfoldable pub build_mem : List VuDevRegion → List MemRegion
build_mem regions = map region (take max_ram_slots regions)

-- The transport's queue; an address of 0 is NULL, and `call_fd` is `none` where it is negative.
pub record VuVirtq : Type 0 where
  pub desc : ℕ
  pub avail : ℕ
  pub used : ℕ
  pub num : ℕ
  pub last_avail_idx : ℕ
  pub call_fd : Option ℕ

-- The queue, the memory behind it, the sink, and how often the guest was interrupted.
pub record Backend : Type 0 where
  pub vuq : VuVirtq
  pub mem : Memory
  pub sink : Sink
  pub interrupts : ℕ

abbrev pub queue_of : Backend → Queue
queue_of b = record {
  vq = record {
    desc = b.vuq.desc;
    avail = b.vuq.avail;
    used = b.vuq.used;
    num = b.vuq.num;
    last_avail = b.vuq.last_avail_idx;
  };
  mem = b.mem;
  sink = b.sink;
}

-- `&vq.used->ring[vq.num]`
abbrev pub avail_event : Virtq → ℕ
avail_event vq = vq.used + 4 + 8 * vq.num

-- The loop of `tx_kick`, for at most as many passes. `driver` is what the guest's driver does to
-- memory before the re-check of a pass, by the passes that are left. `none` means that fuel ran
-- out.
unfoldable pub kick_loop :
    (passes fuel : ℕ)
    → (ℕ → Memory → Memory)
    → List MemRegion
    → (event_idx : Bool) → Queue
    → ℕ
    → Option (Queue × ℕ)
kick_loop zero fuel driver regions event_idx q total = none
kick_loop (suc passes) fuel driver regions event_idx q total =
    elim (vlog_virtq_handle fuel regions q) [
      | none ↦ none
      | some (q', n) ↦ elim event_idx [
        | false ↦ some (q', total + n)
        | true ↦
            let asked = driver passes (store16 q'.mem (avail_event q'.vq) q'.vq.last_avail) in
            let q'' = record q' { mem = asked } in
            elim ((avail_idx asked q'.vq == q'.vq.last_avail) || (n == 0)) [
              | true ↦ some (q'', total + n)
              | false ↦ kick_loop passes fuel driver regions true q'' (total + n)
            ]
      ]
    ]

-- `eventfd_write`, if there is a descriptor to write to.
abbrev pub interrupt : Option ℕ → ℕ → ℕ
interrupt none total = 0
interrupt (some fd) total = if ltb 0 total then 1 else 0

-- The backend after its loop.
abbrev pub after_loop : Backend → Queue → ℕ → Backend
after_loop b q total = record {
  vuq = record (b.vuq) { last_avail_idx = q.vq.last_avail };
  mem = q.mem;
  sink = q.sink;
  interrupts = b.interrupts + interrupt b.vuq.call_fd total;
}

abbrev pub kicked : Backend → Option (Queue × ℕ) → Option Backend
kicked b none = none
kicked b (some (q, total)) = some (after_loop b q total)

-- A queue that is not set up is left alone. `features` is what the guest negotiated; bit 29 of it
-- is VIRTIO_RING_F_EVENT_IDX.
unfoldable pub tx_kick :
    (passes fuel features : ℕ) → (ℕ → Memory → Memory) → List VuDevRegion → Backend → Option Backend
unfolding kick_loop
tx_kick passes fuel features driver regions b =
    if (b.vuq.desc == 0) || (b.vuq.avail == 0) || (b.vuq.used == 0) || (b.vuq.num == 0)
    then some b
    else kicked b (
        kick_loop passes fuel driver (build_mem regions) (has_bit features (2 ^ 29)) (queue_of b) 0)
