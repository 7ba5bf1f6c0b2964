-- ===== src/Oracle/Tests.antt =====
-- The oracle's `log_one` for the seed 7.
use cs360v_cs380_projects.Prelude.{ℕ, ◌-◌, refl, List, none, some, get_elem?, arith}
use cs360v_cs380_projects.Memory.{Memory, ram_base, bootinfo_base, load_bytes}
use cs360v_cs380_projects.LogStore.{logstore_open}
use cs360v_cs380_projects.Device.Status.{ready}
use cs360v_cs380_projects.Vmm.{Vmm, zeroed}
use cs360v_cs380_projects.Oracle.{Case, bootinfo_at, rng_u32, rng_range, fill_printable}
use cs360v_cs380_projects.Oracle.Cases.{log_one_case}
use cs360v_cs380_projects.Oracle.Picked.{nop, log_one, picked, oracle, write_blob}
use cs360v_cs380_projects.Oracle.Scenarios.{Locals}
use cs360v_cs380_projects.Oracle.Passes.{IsFresh, IsInjected, Passes}
use cs360v_cs380_projects.Oracle.Agree.{oracle_agrees}

abbrev case_seven : Case
case_seven = oracle log_one 7

abbrev blob : List ℕ
blob = write_blob case_seven.bootinfo case_seven.scratch

abbrev injected : List ℕ → Memory
injected bytes q = elim (get_elem? bytes (q - (bootinfo_base - ram_base))) [ none ↦ 0 | some c ↦ c ]

abbrev vmm_with : List ℕ → Vmm
vmm_with bytes = record zeroed {
  machine = record {
    dev = record {
      status = ready;
      msg_addr_lo = 0;
      msg_addr_hi = 0;
      len = 0;
      level = 1;
      seq = 0;
      bytes = 0;
    };
    ram = injected bytes;
    store = logstore_open;
  };
}

abbrev vmm : Vmm
vmm = vmm_with blob

vmm-IsFresh : IsFresh vmm
vmm-IsFresh = record { device = ground arith; seq = refl; status = refl; store = refl }

vmm-IsInjected : IsInjected vmm case_seven
unfolding oracle picked log_one_case rng_range rng_u32 fill_printable write_blob bootinfo_at
    load_bytes
vmm-IsInjected = record { header = refl; scratch = refl }

abbrev locals : Locals
locals = record { st = 0x10e0000; small = 0x10e0010 }

oracle_agrees_example : Passes locals case_seven vmm
oracle_agrees_example = oracle_agrees log_one 7 locals vmm vmm-IsFresh vmm-IsInjected tt

-- A seed that picks 3.
abbrev case_known : Case
case_known = oracle nop 71159

abbrev vmm_known : Vmm
vmm_known = vmm_with (write_blob case_known.bootinfo case_known.scratch)
