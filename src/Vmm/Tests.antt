-- ===== src/Vmm/Tests.antt =====
-- The machine monitor on concrete guests and files.
use cs360v_cs380_projects.Prelude.{
  ◌≢◌, ◌+◌, ◌-◌, refl, arith, some, none, List, [], ◌∷◌, true, false,
}
use cs360v_cs380_projects.Memory.{ram_base, serial_base, dev_base, bootinfo_base}
use cs360v_cs380_projects.LogStore.{logstore_open}
use cs360v_cs380_projects.Device.{Machine}
use cs360v_cs380_projects.Device.Reg
use cs360v_cs380_projects.Device.Cmd
use cs360v_cs380_projects.Device.Status.{IsDevice, ready}
use cs360v_cs380_projects.Vmm.{
  Vmm, CreateOutcome, Access, store, load, stopped, emulate, bus_store, set_rip, serial_tx,
}
use cs360v_cs380_projects.Vmm.Files.{HostFile}
use cs360v_cs380_projects.Vmm.Bus.{RunsThrough, emulate-ne-none}

-- A machine after a good start, with an idle device.
abbrev machine : Machine
machine = record {
  dev = record {
    status = ready;
    msg_addr_lo = 0;
    msg_addr_hi = 0;
    len = 0;
    level = 1;
    seq = 0;
    bytes = 0;
  };
  ram = λ _. 0;
  store = logstore_open;
}

abbrev vmm : Vmm
vmm = record {
  uc = true;
  ram = true;
  store = true;
  dev = true;
  machine = machine;
  cpu = record { rip = 0; rsp = bootinfo_base - 16; rdi = bootinfo_base };
  trace = false;
  fault_hook = true;
  powered_off = false;
  exit_code = 0;
  faulted = false;
  fault_addr = 0;
  console = [];
  files = 0;
}

-- Prints `A`.
abbrev greeting : List Access
greeting = store (serial_base + serial_tx) 65 true ∷ []

abbrev greeted : Vmm
greeted = record (set_rip vmm ram_base) { console = 65 ∷ [] }

greeting-RunsThrough : RunsThrough (set_rip vmm ram_base) greeting greeted
unfolding emulate bus_store
greeting-RunsThrough = refl

-- A guest that logs, misaddresses and goes on.
abbrev busy : List Access
busy =
    store (dev_base + Reg.len) 5 true
    ∷ store (dev_base + Reg.cmd) Cmd.log true
    ∷ load (dev_base + Reg.status)
    ∷ store 0x4000 3 true
    ∷ []

machine-IsDevice : IsDevice machine.dev
machine-IsDevice = ground arith

emulate-ne-none_example : emulate vmm busy stopped ≢ none
emulate-ne-none_example = emulate-ne-none busy vmm stopped machine-IsDevice (ground arith)

-- Four bytes of code.
abbrev program : HostFile
program = record {
  opens = true;
  seeks_end = true;
  size = some 4;
  seeks_start = true;
  delivers = 1 ∷ 2 ∷ 3 ∷ 4 ∷ [];
}

-- The same file, of which only two bytes are read.
abbrev short_read : HostFile
short_read = record program { delivers = 1 ∷ 2 ∷ [] }

-- All goes well but the mapping of the device.
abbrev no_device : CreateOutcome
no_device = record {
  store_opened = true;
  uc_opened = true;
  ram_allocated = true;
  ram_mapped = true;
  serial_mapped = true;
  dev_allocated = true;
  dev_mapped = false;
}
