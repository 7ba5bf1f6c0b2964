-- ===== src/Guest/Tests.antt =====
-- The guest's library on a concrete machine.
use cs360v_cs380_projects.Prelude.{
  List, [], ◌∷◌, ◌++◌, map, none, some, get_elem?, ℕ, ◌≡◌, ◌≢◌, ◌-◌, ◌<◌, ◌≤◌, ◌⊎◌, ◌↔◌, ◌%◌, refl,
  arith, true, false,
}
use cs360v_cs380_projects.Memory.{ram_base, bootinfo_base, load_bytes, load32}
use cs360v_cs380_projects.LogStore.{logstore_open, logstore_append}
use cs360v_cs380_projects.Device.Status.{IsDevice, failed}
use cs360v_cs380_projects.LogStore.Records.{read_log, reading_of}
use cs360v_cs380_projects.Vmm.{Vmm}
use cs360v_cs380_projects.Guest.Hex.{read_hex}
use cs360v_cs380_projects.Guest.Programs.{
  Addresses, test_log, started_text, processing_text, cache_miss_text, request_failed_text,
}
use cs360v_cs380_projects.Guest.Programs.Log.{
  IsLoaded, four_records, console_text, test_log-read_log,
}
use cs360v_cs380_projects.Guest.{returned, crashed, vlog_write, vlog_stat}
use cs360v_cs380_projects.Guest.Driver.{expected_code, vlog_write_lem}
use cs360v_cs380_projects.Guest.Stat.{overruns, stat_code, vlog_stat-crashed, vlog_stat_lem}

-- A machine that has logged 7 records, and whose device still shows an error.
abbrev vmm : Vmm
vmm = record {
  uc = true;
  ram = true;
  store = true;
  dev = true;
  machine = record {
    dev = record {
      status = failed 2;
      msg_addr_lo = 16;
      msg_addr_hi = 0;
      len = 5;
      level = 2;
      seq = 7;
      bytes = 30;
    };
    ram = λ q. q % 256;
    store = logstore_open;
  };
  cpu = record { rip = ram_base; rsp = bootinfo_base - 16; rdi = bootinfo_base };
  trace = false;
  fault_hook = true;
  powered_off = false;
  exit_code = 0;
  faulted = false;
  fault_addr = 0;
  console = [];
  files = 0;
}

vmm-IsDevice : IsDevice vmm.machine.dev
vmm-IsDevice = ground arith

vlog_write_lem_example :
    (v' : Vmm) × (vlog_write 3 0x100041 4 vmm ≡ returned 0 v')
    × (expected_code 0x100041 4 ≡ 0
        → v'.machine.store ≡ logstore_append logstore_open 7 3 (load_bytes vmm.machine.ram 0x41 4))
    × (expected_code 0x100041 4 ≢ 0 → v'.machine.store ≡ logstore_open)
    × (v'.machine.dev.seq ≡ 8)
vlog_write_lem_example =
    vlog_write_lem vmm 3 0x100041 4 (omega arith) (omega arith) (omega arith) vmm-IsDevice

vlog_stat-crashed_example : (vlog_stat 0x10ffff8 16 vmm ≡ crashed) ↔ (overruns 0x10ffff8 16 ≡ true)
vlog_stat-crashed_example =
    vlog_stat-crashed vmm 0x10ffff8 16 (omega arith) (omega arith) vmm-IsDevice

-- So that buffer does take the emulator down.
takes_down : vlog_stat 0x10ffff8 16 vmm ≡ crashed
takes_down = (vlog_stat-crashed vmm 0x10ffff8 16 (omega arith) (omega arith) vmm-IsDevice).1 refl

vlog_stat_lem_example :
    (v' : Vmm) × (vlog_stat 0x100100 8 vmm ≡ returned (stat_code 0x100100 8) v')
    × (stat_code 0x100100 8 ≡ 0
        → (load32 v'.machine.ram 0x100 ≡ 7) × (load32 v'.machine.ram 0x104 ≡ 30))
    × ((q : ℕ)
        → (stat_code 0x100100 8 ≢ 0) ⊎ (q < 0x100) ⊎ (0x108 ≤ q)
        → v'.machine.ram q ≡ vmm.machine.ram q)
    × (v'.machine.store ≡ logstore_open)
    × (v'.machine.dev.seq ≡ 7)
vlog_stat_lem_example = vlog_stat_lem vmm 0x100100 8 (omega arith) (omega arith) vmm-IsDevice refl

-- The strings of test_log.c from the start of RAM on, each with its NUL.
abbrev image : List ℕ
image =
    started_text ++ 0 ∷ processing_text ++ 0 ∷ cache_miss_text ++ 0 ∷ request_failed_text ++ 0 ∷ []

abbrev loaded : Vmm
loaded = record vmm {
  machine = record (vmm.machine) { ram = λ q. elim (get_elem? image q) [ none ↦ 0 | some c ↦ c ] };
}

abbrev addresses : Addresses
addresses = record {
  started = 0x100000;
  processing = 0x100018;
  cache_miss = 0x10002d;
  request_failed = 0x100038;
}

loaded-IsLoaded : IsLoaded addresses loaded
unfolding load_bytes
loaded-IsLoaded = record {
  started = record { in_range = refl; some_text = omega arith; short = omega arith; bytes = refl };
  processing = record {
    in_range = refl;
    some_text = omega arith;
    short = omega arith;
    bytes = refl;
  };
  cache_miss = record {
    in_range = refl;
    some_text = omega arith;
    short = omega arith;
    bytes = refl;
  };
  request_failed = record {
    in_range = refl;
    some_text = omega arith;
    short = omega arith;
    bytes = refl;
  };
}

test_log-read_log_example :
    (v' : Vmm) × (digits : List ℕ) × (test_log addresses loaded ≡ returned 0 v')
    × (read_log v'.machine.store.disk ≡ map reading_of (four_records 7))
    × (v'.console ≡ console_text digits)
    × (read_hex 0 digits ≡ 11)
test_log-read_log_example = test_log-read_log addresses loaded vmm-IsDevice loaded-IsLoaded refl
