-- ===== src/Vmm/Files.antt =====
-- project_1/emulator/vmm.c: the loaders of a guest and of its boot parameters.
use cs360v_cs380_projects.Prelude.{
  ℕ, ◌+◌, ◌-◌, ◌^◌, ltb, ◌==◌, if◌then◌else◌, Option, none, some, List, [], ◌∷◌, Bool, not, length,
  take,
}
use cs360v_cs380_projects.Memory.{Memory, ram_base, ram_size, bootinfo_base, bootinfo_size}
use cs360v_cs380_projects.Vmm.{Vmm, with_ram, set_rip, minus_one}

-- A file as the loaders meet it: whether it opens and seeks, its size by `ftell` (`none` for -1)
-- and the bytes that `fread` delivers.
pub record HostFile : Type 0 where
  pub opens : Bool
  pub seeks_end : Bool
  pub size : Option ℕ
  pub seeks_start : Bool
  pub delivers : List ℕ

-- Bytes written from offset `p` on.
unfoldable pub store_bytes : Memory → ℕ → List ℕ → Memory
store_bytes mem p [] = mem
store_bytes mem p (b ∷ bs) = store_bytes (λ q. if q == p then b else mem q) (p + 1) bs

abbrev pub opened : Vmm → Vmm
opened v = record v { files = v.files + 1 }

abbrev pub closed : Vmm → Vmm
closed v = record v { files = v.files - 1 }

-- `(uint64_t)ftell(fp)`
abbrev pub size_of : Option ℕ → ℕ
size_of none = 2 ^ 64 - 1
size_of (some n) = n

-- `rip_ok` is the outcome of writing the instruction pointer.
unfoldable pub vmm_load_binary : Vmm → HostFile → Bool → Vmm × ℕ
vmm_load_binary v f rip_ok =
    if not f.opens
    then (v, minus_one)
    else (let v1 = opened v in
        if not f.seeks_end
        then (v1, minus_one)
        else if ltb ram_size (size_of f.size)
        then (v1, minus_one)
        else if not f.seeks_start
        then (v1, minus_one)
        else (let bytes = take (size_of f.size) f.delivers in
            let v2 = with_ram v1 (store_bytes v1.machine.ram 0 bytes) in
            if not (length bytes == size_of f.size)
            then (v2, minus_one)
            else if not rip_ok
            then (v2, minus_one)
            else (closed (set_rip v2 ram_base), 0)))

unfoldable pub vmm_load_bootinfo : Vmm → HostFile → Vmm × ℕ
vmm_load_bootinfo v f =
    if not f.opens
    then (v, minus_one)
    else (let v1 = opened v in
        elim f.size [
          | none ↦ (closed v1, minus_one)
          | some sz ↦
              if ltb bootinfo_size sz
              then (closed v1, minus_one)
              else (let bytes = take sz f.delivers in
                  let v2 =
                    closed
                      (with_ram v1 (store_bytes v1.machine.ram (bootinfo_base - ram_base) bytes)) in
                  if not (length bytes == sz) then (v2, minus_one) else (v2, 0))
        ])
