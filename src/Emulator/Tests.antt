-- ===== src/Emulator/Tests.antt =====
-- The monitor on a concrete host.
use cs360v_cs380_projects.Prelude.{
  ℕ, ◌+◌, ◌%◌, ◌^◌, ◌≡◌, refl, List, [], ◌∷◌, Bool, true, false, some, codes,
}
use cs360v_cs380_projects.Vmm.{
  Vmm, set_rip, emulate, serial_poweroff, vmm_create, store, load, cpu_error,
}
use cs360v_cs380_projects.Vmm.Files.{vmm_load_binary, vmm_load_bootinfo}
use cs360v_cs380_projects.Memory.{ram_base, serial_base}
use cs360v_cs380_projects.Emulator.{
  World, Exit, no_options, set_option, read_args, with_bootinfo, main,
}
use cs360v_cs380_projects.Emulator.Poweroff.{IsBooted, PowersOff, main-poweroff}
use cs360v_cs380_projects.Emulator.Released.{IsReleased, Releases, main-Releases}

-- A guest of two bytes, of which the host delivers all, that touches an address where nothing is;
-- no socket can be had.
abbrev world : World
world = record {
  log_opens = true;
  create = record {
    store_opened = true;
    uc_opened = true;
    ram_allocated = true;
    ram_mapped = true;
    serial_mapped = true;
    dev_allocated = true;
    dev_mapped = true;
  };
  file = λ path. record {
    opens = true;
    seeks_end = true;
    size = some 2;
    seeks_start = true;
    delivers = 144 ∷ 244 ∷ [];
  };
  rip_ok = true;
  netlog = record { allocated = true; socket = false; bound = true; thread = true };
  accesses = load 5 ∷ [];
  ended = cpu_error;
}

main-Releases_example :
    Releases (main world (codes "--listen" ∷ codes "9000" ∷ codes "guest.bin" ∷ []))
main-Releases_example =
    main-Releases world (codes "--listen" ∷ codes "9000" ∷ codes "guest.bin" ∷ []) created
  where
    created : (trace : Bool) → (vmm_create world.create trace).1 ≡ 0
    created trace = unfold vmm_create in refl

-- The same, but for a guest that powers off with 7.
abbrev powering : World
powering = record world { accesses = store (serial_base + serial_poweroff) 7 true ∷ [] }

abbrev args : List (List ℕ)
args = codes "--bootinfo" ∷ codes "boot.bin" ∷ codes "guest.bin" ∷ []

abbrev machine : Vmm
machine = (vmm_create powering.create false).0

abbrev loaded_machine : Vmm
loaded_machine = (vmm_load_binary machine (powering.file (codes "guest.bin")) true).0

abbrev guest_machine : Vmm
guest_machine = (with_bootinfo powering (some (codes "boot.bin")) loaded_machine).0

guest-IsBooted : IsBooted powering args guest_machine
unfolding vmm_create vmm_load_binary vmm_load_bootinfo read_args set_option
guest-IsBooted = record {
  options = record no_options {
    binpath = some (codes "guest.bin");
    bootinfo_path = some (codes "boot.bin");
  };
  path = codes "guest.bin";
  created = machine;
  loaded = loaded_machine;
  parsed = refl;
  guest = refl;
  creates = λ trace. refl;
  machine = refl;
  loads = refl;
  boots = refl;
}

guest-PowersOff : PowersOff powering guest_machine 7
unfolding vmm_create vmm_load_binary vmm_load_bootinfo emulate
guest-PowersOff = record {
  before = [];
  rest = [];
  accepted = true;
  reached = set_rip guest_machine ram_base;
  accesses = refl;
  runs = refl;
  no_fault = refl;
}

main-poweroff_example :
    (e : Exit) × (main powering args ≡ some e) × (e.status ≡ 7 % 2 ^ 32) × IsReleased e
main-poweroff_example = main-poweroff powering args guest_machine 7 guest-IsBooted guest-PowersOff
