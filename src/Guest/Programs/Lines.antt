-- ===== src/Guest/Programs/Lines.antt =====
-- The sample programs of project_1/guest: what their steps do.
use cs360v_cs380_projects.Prelude.{
  ℕ, ◌≡◌, ◌<◌, refl, ltb, ◌&&◌, List, [], ◌∷◌, Bool, true, All, arith,
}
use cs360v_cs380_projects.Device.{vlog_magic, vlog_device_mmio_read}
use cs360v_cs380_projects.Vmm.{Vmm, bus_value}
use cs360v_cs380_projects.Guest.{returned, puts_, vlog_id, vlog_seq, vlog_status, mmio_r32}
use cs360v_cs380_projects.Guest.Hex.{printed, puts_-printed}

abbrev pub are_bytes : List ℕ → Bool
are_bytes [] = true
are_bytes (c ∷ cs) = ltb c 256 && are_bytes cs

bytes-All : (s : List ℕ) → are_bytes s ≡ true → All (λ c. c < 256) s
bytes-All [] h = tt
bytes-All (c ∷ cs) h = (ground arith, bytes-All cs (ground arith))

pub puts_-text : (s : List ℕ) (v : Vmm) → are_bytes s ≡ true → puts_ s v ≡ returned tt (printed v s)
puts_-text s v h = puts_-printed s v (bytes-All s h)

pub vlog_id-magic : (v : Vmm) → vlog_id v ≡ returned vlog_magic v
unfolding vlog_id mmio_r32 bus_value vlog_device_mmio_read
vlog_id-magic v = refl

pub vlog_seq-seq : (v : Vmm) → vlog_seq v ≡ returned v.machine.dev.seq v
unfolding vlog_seq mmio_r32 bus_value vlog_device_mmio_read
vlog_seq-seq v = refl

pub vlog_status-status : (v : Vmm) → vlog_status v ≡ returned v.machine.dev.status v
unfolding vlog_status mmio_r32 bus_value vlog_device_mmio_read
vlog_status-status v = refl
