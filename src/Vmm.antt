-- ===== src/Vmm.antt =====
-- project_1/emulator/vmm.c: the machine monitor around the device. The CPU (Unicorn) is not
-- modelled: it enters as the list of bus accesses that the guest makes, and calls into the host
-- that can fail enter as records of their outcomes. An `int` is its 32-bit pattern.
pub mod Files
pub mod Bus
pub mod Load
mod Tests
use cs360v_cs380_projects.Prelude.{
  ℕ, zero, suc, ◌+◌, ◌-◌, ◌*◌, ◌%◌, ◌^◌, ltb, leb, ◌==◌, if◌then◌else◌, Option, none, some, List,
  [], ◌∷◌, ◌++◌, Bool, true, false, ◌&&◌, ◌||◌, not, u32_mod, length, take,
}
use cs360v_cs380_projects.Memory.{
  Memory, ram_base, ram_size, serial_base, serial_size, dev_base, dev_size, bootinfo_base,
  bootinfo_size, store32, load32,
}
use cs360v_cs380_projects.LogStore.{LogStore, logstore_open}
use cs360v_cs380_projects.Device.{
  Device, Machine, vlog_device_init, vlog_device_mmio_read, vlog_device_mmio_write,
}

abbrev pub serial_tx : ℕ
serial_tx = 0x00

abbrev pub serial_poweroff : ℕ
serial_poweroff = 0x08

abbrev pub vmm_exit_fault : ℕ
vmm_exit_fault = 77

-- -1
abbrev pub minus_one : ℕ
minus_one = u32_mod - 1

-- The CPU registers that the monitor sets.
pub record Cpu : Type 0 where
  pub rip : ℕ
  pub rsp : ℕ
  pub rdi : ℕ

-- `struct vmm`. The pointers `uc`, `ram`, `store`, `dev` are the Booleans that say whether each is
-- held; what they point at is `machine`. `files` counts the streams that stay open.
pub record Vmm : Type 0 where
  pub uc : Bool
  pub ram : Bool
  pub store : Bool
  pub dev : Bool
  pub machine : Machine
  pub cpu : Cpu
  pub trace : Bool
  pub fault_hook : Bool
  pub powered_off : Bool
  pub exit_code : ℕ
  pub faulted : Bool
  pub fault_addr : ℕ
  pub console : List ℕ
  pub files : ℕ

abbrev pub serial_read : ℕ → ℕ
serial_read offset = 0

-- `accepted` says whether `putchar` takes the byte. The second result is a call of `uc_emu_stop`.
unfoldable pub serial_write : Bool → Vmm → ℕ → ℕ → Vmm × Bool
serial_write accepted v offset value =
    if offset == serial_tx
    then (if accepted
        then (record v { console = v.console ++ (value % 256) ∷ [] }, false)
        else (v, false))
    else if offset == serial_poweroff
    then (record v { exit_code = value % u32_mod; powered_off = true }, true)
    else (v, false)

-- The unmapped-memory callback: it records the fault and stops the CPU.
unfoldable pub mem_invalid : Vmm → ℕ → Vmm × Bool
mem_invalid v address = (record v { faulted = true; fault_addr = address }, true)

-- How the calls of `vmm_create` into the host turn out.
pub record CreateOutcome : Type 0 where
  pub store_opened : Bool
  pub uc_opened : Bool
  pub ram_allocated : Bool
  pub ram_mapped : Bool
  pub serial_mapped : Bool
  pub dev_allocated : Bool
  pub dev_mapped : Bool

-- `memset(v, 0, sizeof *v)`, with the zeroed RAM and log that the pointers will reach.
abbrev pub zeroed : Vmm
zeroed = record {
  uc = false;
  ram = false;
  store = false;
  dev = false;
  machine = record { dev = vlog_device_init; ram = λ _. 0; store = logstore_open };
  cpu = record { rip = 0; rsp = 0; rdi = 0 };
  trace = false;
  fault_hook = false;
  powered_off = false;
  exit_code = 0;
  faulted = false;
  fault_addr = 0;
  console = [];
  files = 0;
}

-- The state that `vmm_create` leaves and its status.
unfoldable pub vmm_create : CreateOutcome → Bool → Vmm × ℕ
vmm_create o trace =
    let v0 = record zeroed { trace = trace } in
    if not o.store_opened
    then (v0, minus_one)
    else (let v1 = record v0 { store = true } in
        if not o.uc_opened
        then (v1, minus_one)
        else (let v2 = record v1 { uc = true } in
            if not o.ram_allocated
            then (v2, minus_one)
            else (let v3 = record v2 { ram = true } in
                if not o.ram_mapped || not o.serial_mapped || not o.dev_allocated
                then (v3, minus_one)
                else (let v4 = record v3 { dev = true } in
                    if not o.dev_mapped then (v4, minus_one) else (
                      record v4 {
                        cpu = record { rip = 0; rsp = bootinfo_base - 16; rdi = bootinfo_base };
                        fault_hook = true;
                      },
                      0,
                    )))))

abbrev pub with_ram : Vmm → Memory → Vmm
with_ram v mem = record v { machine = record (v.machine) { ram = mem } }

abbrev pub set_rip : Vmm → ℕ → Vmm
set_rip v rip = record v { cpu = record (v.cpu) { rip = rip } }

unfoldable pub vmm_destroy : Vmm → Vmm
vmm_destroy v = record v { uc = false; store = false; ram = false; dev = false }

abbrev pub within : ℕ → ℕ → ℕ → Bool
within addr base size = leb base addr && ltb addr (base + size)

-- What a 32-bit load of the guest reads: RAM, or the region's read callback. A load that runs off
-- the end of RAM faults (`bus_load`), and reads nothing.
unfoldable pub bus_value : Vmm → ℕ → ℕ
bus_value v addr =
    if within addr ram_base ram_size && leb (addr + 4) (ram_base + ram_size)
    then load32 v.machine.ram (addr - ram_base)
    else if within addr serial_base serial_size
    then serial_read (addr - serial_base)
    else if within addr dev_base dev_size
    then vlog_device_mmio_read v.machine.dev (addr - dev_base)
    else 0

-- An access of the guest that leaves the CPU: a 32-bit store, a load, or one to an address that
-- nothing is mapped at. `accepted` is the console's answer to a store.
pub data Access : Type 0 where
  store : ℕ → ℕ → Bool → Access
  load : ℕ → Access

abbrev pub with_machine : Vmm → Option Machine → Option (Vmm × Bool)
with_machine v none = none
with_machine v (some m) = some (record v { machine = m }, false)

-- What Unicorn does with an access, by the regions that `vmm_create` maps: RAM, the two MMIO
-- regions, and the callback for all else. `none` is a crash of the emulator.
unfoldable pub bus_store : Vmm → ℕ → ℕ → Bool → Option (Vmm × Bool)
unfolding serial_write mem_invalid
bus_store v addr value accepted =
    if within addr ram_base ram_size && leb (addr + 4) (ram_base + ram_size)
    then some (with_ram v (store32 v.machine.ram (addr - ram_base) value), false)
    else if within addr serial_base serial_size
    then some (serial_write accepted v (addr - serial_base) value)
    else if within addr dev_base dev_size
    then with_machine v (vlog_device_mmio_write v.machine (addr - dev_base) value)
    else some (mem_invalid v addr)

unfoldable pub bus_load : Vmm → ℕ → Option (Vmm × Bool)
unfolding mem_invalid
bus_load v addr =
    if (within addr ram_base ram_size && leb (addr + 4) (ram_base + ram_size))
      || within addr serial_base serial_size
      || within addr dev_base dev_size
    then some (v, false)
    else some (mem_invalid v addr)

abbrev pub access : Vmm → Access → Option (Vmm × Bool)
access v (store addr value accepted) = bus_store v addr value accepted
access v (load addr) = bus_load v addr

-- How `uc_emu_start` ends: the CPU was stopped, or it met an error of its own.
pub data Ended : Type 0 where
  stopped : Ended
  cpu_error : Ended

-- `uc_emu_start`: the guest's accesses in turn, until one stops the CPU; if none does, the CPU
-- ends by itself, with or without an error.
unfoldable pub emulate : Vmm → List Access → Ended → Option (Vmm × Ended)
emulate v [] e = some (v, e)
emulate v (a ∷ rest) e = elim (access v a) [
  | none ↦ none
  | some (v', stop) ↦ elim stop [ true ↦ some (v', stopped) | false ↦ emulate v' rest e ]
]

abbrev pub is_error : Ended → Bool
is_error stopped = false
is_error cpu_error = true

-- What `vmm_run` makes of the state in which the CPU ended.
unfoldable pub run_status : Vmm → Ended → ℕ
run_status v e =
    if v.faulted
    then vmm_exit_fault
    else if is_error e && not v.powered_off
    then minus_one
    else v.exit_code

unfoldable pub vmm_run : Vmm → List Access → Ended → Option (Vmm × ℕ)
unfolding run_status
vmm_run v trace e = elim (emulate (set_rip v ram_base) trace e) [
  | none ↦ none
  | some (v', end) ↦ some (v', run_status v' end)
]
