-- ===== src/Vmm/Load.antt =====
-- Creating a machine, loading a guest and its boot parameters, and tearing down, in vmm.c.
use cs360v_cs380_projects.Prelude.{
  ℕ, ◌+◌, ◌-◌, ◌%◌, ◌<◌, ◌≤◌, ◌≡◌, ◌⊎◌, refl, some, arith, leb, ◌==◌, if◌then◌else◌, List, [], ◌∷◌,
  Bool, true, false, ◌&&◌, length, take, length-take, inr, subst,
}
use cs360v_cs380_projects.Memory.{
  Memory, ram_base, ram_size, bootinfo_base, bootinfo_size, load_bytes,
}
use cs360v_cs380_projects.Vmm.{
  Vmm, CreateOutcome, vmm_create, vmm_destroy, minus_one, set_rip, with_ram,
}
use cs360v_cs380_projects.Vmm.Files.{
  HostFile, vmm_load_binary, vmm_load_bootinfo, store_bytes, closed, opened,
}

-- Bytes outside the written range keep their value.
pub store_bytes_frame :
    (bs : List ℕ) (mem : Memory) (p q : ℕ)
    → (q < p) ⊎ (p + length bs ≤ q)
    → store_bytes mem p bs q ≡ mem q
unfolding store_bytes
store_bytes_frame [] mem p q h = refl
store_bytes_frame (b ∷ bs) mem p q h =
    ground (arith, store_bytes_frame bs (λ k. if k == p then b else mem k) (p + 1) q)

load_bytes-store_later : (bs : List ℕ) (mem : Memory) (p : ℕ) → store_bytes mem (p + 1) bs p ≡ mem p
load_bytes-store_later bs mem p = store_bytes_frame bs mem (p + 1) p (ground arith)

-- What is written from `p` on is read back from there.
pub load_bytes-store_bytes :
    (bs : List ℕ) (mem : Memory) (p : ℕ) → load_bytes (store_bytes mem p bs) p (length bs) ≡ bs
unfolding store_bytes load_bytes
load_bytes-store_bytes [] mem p = refl
load_bytes-store_bytes (b ∷ bs) mem p =
    rw
      (
        load_bytes-store_bytes bs (λ k. if k == p then b else mem k) (p + 1),
        load_bytes-store_later bs (λ k. if k == p then b else mem k) p,
      )
      (ground arith)

-- All that has to go well for a guest of `n` bytes to be loaded.
abbrev pub is_loadable : HostFile → ℕ → Bool → Bool
is_loadable f n rip_ok =
    f.opens
    && f.seeks_end
    && leb n ram_size
    && f.seeks_start
    && (length (take n f.delivers) == n)
    && rip_ok

abbrev loaded : Vmm → List ℕ → Vmm
loaded v bytes = closed (set_rip (with_ram (opened v) (store_bytes v.machine.ram 0 bytes)) ram_base)

load_binary-status :
    (v : Vmm) (f : HostFile) (rip_ok : Bool) (n : ℕ)
    → f.size ≡ some n
    → (vmm_load_binary v f rip_ok).1 ≡ (if is_loadable f n rip_ok then 0 else minus_one)
unfolding vmm_load_binary
load_binary-status v f rip_ok n e = ground arith

load_binary-loaded :
    (v : Vmm) (f : HostFile) (rip_ok : Bool) (n : ℕ)
    → f.size ≡ some n
    → is_loadable f n rip_ok ≡ true
    → vmm_load_binary v f rip_ok ≡ (loaded v (take n f.delivers), 0)
unfolding vmm_load_binary
load_binary-loaded v f rip_ok n e h = ground arith

-- The file as loaded: status 0 exactly when it opens, seeks both ways, is no larger than RAM, is
-- read whole and the instruction pointer can be set. Then RAM holds the file's bytes from its
-- start, the rest of RAM is as it was, the guest starts at the base of RAM and the stream is
-- closed.
pub vmm_load_binary_lem :
    (v : Vmm) (f : HostFile) (rip_ok : Bool) (n : ℕ)
    → f.size ≡ some n
    → ((vmm_load_binary v f rip_ok).1 ≡ (if is_loadable f n rip_ok then 0 else minus_one))
      × (is_loadable f n rip_ok ≡ true
          → let v' = (vmm_load_binary v f rip_ok).0 in
            (load_bytes v'.machine.ram 0 n ≡ take n f.delivers)
            × ((q : ℕ) → n ≤ q → v'.machine.ram q ≡ v.machine.ram q)
            × (v'.cpu.rip ≡ ram_base)
            × (v'.files ≡ v.files))
vmm_load_binary_lem v f rip_ok n e = (
  load_binary-status v f rip_ok n e,
  λ h. rw (load_binary-loaded v f rip_ok n e h) (loaded_state h),
)
  where
    loaded_state :
        is_loadable f n rip_ok ≡ true
        → let v' = loaded v (take n f.delivers) in
          (load_bytes v'.machine.ram 0 n ≡ take n f.delivers)
          × ((q : ℕ) → n ≤ q → v'.machine.ram q ≡ v.machine.ram q)
          × (v'.cpu.rip ≡ ram_base)
          × (v'.files ≡ v.files)
    loaded_state h =
        let whole : length (take n f.delivers) ≡ n = ground arith in
        (
          subst
              (λ k.
                load_bytes (store_bytes v.machine.ram 0 (take n f.delivers)) 0 k
                ≡ take n f.delivers)
              whole (load_bytes-store_bytes (take n f.delivers) v.machine.ram 0),
          λ q b. store_bytes_frame (take n f.delivers) v.machine.ram 0 q (inr (omega arith)),
          refl,
          omega arith,
        )

-- A guest that opens but is not loaded leaves its stream open.
pub vmm_load_binary-leak :
    (v : Vmm) (f : HostFile) (rip_ok : Bool)
    → f.opens ≡ true
    → (vmm_load_binary v f rip_ok).1 ≡ minus_one
    → (vmm_load_binary v f rip_ok).0.files ≡ v.files + 1
unfolding vmm_load_binary
vmm_load_binary-leak v f rip_ok o h = ground arith

abbrev bootinfo_offset : ℕ
bootinfo_offset = bootinfo_base - ram_base

-- The boot parameters: whatever the file is, the stream is closed again and nothing of RAM outside
-- its top 64 KiB changes; status 0 exactly when the file opens, fits and is read whole.
pub vmm_load_bootinfo_lem :
    (v : Vmm) (f : HostFile) (n : ℕ)
    → f.size ≡ some n
    → ((vmm_load_bootinfo v f).1 ≡ (
        if f.opens && leb n bootinfo_size && (length (take n f.delivers) == n)
        then 0
        else minus_one))
      × ((vmm_load_bootinfo v f).0.files ≡ v.files)
      × ((q : ℕ)
          → (q < bootinfo_base - ram_base) ⊎ (ram_size ≤ q)
          → (vmm_load_bootinfo v f).0.machine.ram q ≡ v.machine.ram q)
unfolding vmm_load_bootinfo
vmm_load_bootinfo_lem v f n e = (
  ground arith,
  ground arith,
  λ q h. ground (
    arith,
    store_bytes_frame (take n f.delivers) v.machine.ram bootinfo_offset q,
    length-take n f.delivers,
  ),
)

-- A created machine: status 0 exactly when every call into the host succeeds; then the stack
-- pointer is 16-byte aligned, in RAM, and below the boot parameters that RDI points at. Whichever
-- call fails, tearing down releases all that was acquired.
pub vmm_create_lem :
    (o : CreateOutcome) (trace : Bool)
    → let (v, status) = vmm_create o trace in
      (status ≡ (
        if o.store_opened && o.uc_opened && o.ram_allocated && o.ram_mapped && o.serial_mapped
          && o.dev_allocated && o.dev_mapped
        then 0
        else minus_one))
      × (status ≡ 0
          → (v.cpu.rsp % 16 ≡ 0)
            × (ram_base ≤ v.cpu.rsp)
            × (v.cpu.rsp + 16 ≤ v.cpu.rdi)
            × (v.cpu.rdi + bootinfo_size ≡ ram_base + ram_size)
            × (v.fault_hook ≡ true))
      × (let w = vmm_destroy v in
          (w.uc ≡ false) × (w.store ≡ false) × (w.ram ≡ false) × (w.dev ≡ false))
unfolding vmm_create vmm_destroy
vmm_create_lem o trace = (ground arith, ground arith, ground arith)
