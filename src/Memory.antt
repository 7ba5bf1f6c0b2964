-- ===== src/Memory.antt =====
-- project_1/emulator/vmm.h and vmm.c: the guest-physical memory map, guest RAM and the
-- translation of guest addresses.
pub mod Translate
mod Tests
use cs360v_cs380_projects.Prelude.{
  ℕ, zero, suc, ◌+◌, ◌-◌, ◌*◌, ◌/◌, ◌%◌, ◌^◌, ltb, leb, ◌==◌, if◌then◌else◌, Option, none, some,
  List, [], ◌∷◌, ◌≡◌, Bool, ◌&&◌,
}

abbrev pub ram_base : ℕ
ram_base = 0x100000

abbrev pub ram_size : ℕ
ram_size = 16 * 1024 * 1024

abbrev pub serial_base : ℕ
serial_base = 0x10000000

abbrev pub serial_size : ℕ
serial_size = 0x1000

abbrev pub dev_base : ℕ
dev_base = 0x20000000

abbrev pub dev_size : ℕ
dev_size = 0x1000

abbrev pub bootinfo_size : ℕ
bootinfo_size = 0x10000

abbrev pub bootinfo_base : ℕ
bootinfo_base = ram_base + ram_size - bootinfo_size

-- Bytes by host address. For the emulator an address is an offset into `v->ram`.
abbrev pub Memory : Type 0
Memory = ℕ → ℕ

-- `vmm_gpa_to_host`: the offset from `v->ram`, `none` for NULL. Each subtraction stands behind
-- the test that keeps it from wrapping.
unfoldable pub vmm_gpa_to_host : ℕ → ℕ → Option ℕ
vmm_gpa_to_host gpa len =
    if ltb gpa ram_base
    then none
    else if leb ram_size (gpa - ram_base)
    then none
    else if ltb (ram_size - (gpa - ram_base)) len
    then none
    else some (gpa - ram_base)

-- `len` bytes from `p` on.
unfoldable pub load_bytes : Memory → ℕ → ℕ → List ℕ
load_bytes mem p zero = []
load_bytes mem p (suc len) = mem p ∷ load_bytes mem (p + 1) len

abbrev pub store8 : Memory → ℕ → ℕ → Memory
store8 mem p v q = if q == p then v % 256 else mem q

-- Little-endian stores and loads of the host.
abbrev pub store16 : Memory → ℕ → ℕ → Memory
store16 mem p v = store8 (store8 mem p v) (p + 1) (v / 2 ^ 8)

abbrev pub store32 : Memory → ℕ → ℕ → Memory
store32 mem p v = store16 (store16 mem p v) (p + 2) (v / 2 ^ 16)

abbrev pub load16 : Memory → ℕ → ℕ
load16 mem p = mem p + 2 ^ 8 * mem (p + 1)

abbrev pub load32 : Memory → ℕ → ℕ
load32 mem p = load16 mem p + 2 ^ 16 * load16 mem (p + 2)

abbrev pub load64 : Memory → ℕ → ℕ
load64 mem p = load32 mem p + 2 ^ 32 * load32 mem (p + 4)
