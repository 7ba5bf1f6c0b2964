-- ===== src/Memory/Translate.antt =====
-- What `vmm_gpa_to_host` promises, over unbounded numbers.
use cs360v_cs380_projects.Prelude.{
  ℕ, ◌+◌, ◌-◌, ◌^◌, ◌≤◌, ◌<◌, ◌≡◌, ◌⊎◌, ltb, leb, if◌then◌else◌, none, some, Bool, ◌&&◌, arith,
}
use cs360v_cs380_projects.Memory.{Memory, ram_base, ram_size, vmm_gpa_to_host, store32, load32}

-- `[gpa, gpa + len)` lies in guest RAM and starts in it.
abbrev pub in_ram : ℕ → ℕ → Bool
in_ram gpa len =
    leb ram_base gpa && ltb gpa (ram_base + ram_size) && leb (gpa + len) (ram_base + ram_size)

-- For every address and length, however large, the translation gives the offset of the address
-- exactly when the whole range lies in guest RAM (and the address itself does), else NULL.
pub vmm_gpa_to_host-in_ram :
    (gpa len : ℕ)
    → vmm_gpa_to_host gpa len ≡ (if in_ram gpa len then some (gpa - ram_base) else none)
unfolding vmm_gpa_to_host
vmm_gpa_to_host-in_ram gpa len = ground arith

-- A 32-bit store is read back.
pub load32-store32 : (mem : Memory) (p v : ℕ) → v < 2 ^ 32 → load32 (store32 mem p v) p ≡ v
load32-store32 mem p v h = ground arith

-- It changes its own four bytes alone.
pub store32_frame : (mem : Memory) (p v q : ℕ) → (q < p) ⊎ (p + 4 ≤ q) → store32 mem p v q ≡ mem q
store32_frame mem p v q h = ground arith
