-- ===== src/Oracle/Passes.antt =====
-- project_1/tests/oracle.c: what it asks of the test guest's run, and the ranges that it picks from.
use cs360v_cs380_projects.Prelude.{
  ℕ, zero, suc, ◌+◌, ◌-◌, ◌%◌, ◌^◌, ◌<◌, ◌≤◌, ◌≡◌, refl, ◌∙◌, ap, sym, List, ◌++◌, Option, none,
  some, arith, append-nil, length, if◌then◌else◌, ◌==◌,
}
use cs360v_cs380_projects.Memory.{ram_base, bootinfo_base, load_bytes}
use cs360v_cs380_projects.LogStore.{LogStore, Entry, logstore_open, append_all}
use cs360v_cs380_projects.Device.Status.{IsDevice, ready}
use cs360v_cs380_projects.Vmm.{Vmm}
use cs360v_cs380_projects.Guest.{returned}
use cs360v_cs380_projects.Oracle.{
  Bootinfo, Case, bootinfo_at, bootinfo_magic, rng_u32, rng_range, fill_printable,
}
use cs360v_cs380_projects.Oracle.Scenarios.{Locals}
use cs360v_cs380_projects.Oracle.Program.{run_scenario, ag_guest}
use cs360v_cs380_projects.Oracle.Steps.{Seen, Looks, Does, transcript}
use cs360v_cs380_projects.Oracle.Records.{fresh}

pub rng_range-bounds :
    (lo hi state : ℕ)
    → lo ≤ hi
    → (lo ≤ (rng_range lo hi state).0) × ((rng_range lo hi state).0 ≤ hi)
unfolding rng_range
rng_range-bounds lo hi state h =
    let u : ℕ = (rng_u32 state).0 in
    let below : u % (hi - lo + 1) < hi - lo + 1 = omega arith in (omega arith, omega (arith, below))

pub rng_u32-bound : (state : ℕ) → (rng_u32 state).0 < 2 ^ 32
unfolding rng_u32
rng_u32-bound state = omega arith

pub length-fill_printable : (len state : ℕ) → length (fill_printable len state) ≡ len
unfolding fill_printable
length-fill_printable zero state = refl
length-fill_printable (suc len) state =
    ap suc (length-fill_printable len (rng_range 0x21 0x7e state).1)

-- A machine with a device and a log that nothing has used yet.
pub record IsFresh (v : Vmm) : Type 0 where
  pub device : IsDevice v.machine.dev
  pub seq : v.machine.dev.seq ≡ 0
  pub status : v.machine.dev.status ≡ ready
  pub store : v.machine.store ≡ logstore_open

-- The blob of the case lies in RAM.
pub record IsInjected (v : Vmm) (c : Case) : Type 0 where
  pub header : bootinfo_at v.machine.ram (bootinfo_base - ram_base) ≡ c.bootinfo
  pub scratch :
      load_bytes v.machine.ram (c.bootinfo.scratch_addr - ram_base) (length c.scratch) ≡ c.scratch

abbrev pub HasLog : Option (List Entry) → LogStore → Type 0
HasLog none store = Unit
HasLog (some es) store = store ≡ append_all logstore_open es

-- The test guest returns 0 with the transcript and the log of the case.
abbrev pub Passes : Locals → Case → Vmm → Type 0
Passes at c v =
    (v' : Vmm) × (ag_guest at bootinfo_base v ≡ returned 0 v')
    × (v'.console ≡ v.console ++ transcript c.obs)
    × HasLog c.log v'.machine.store

-- A run of the scenario that ends as the case has it.
pub start-Passes :
    (at : Locals) (c : Case) (v : Vmm) (u : Seen)
    → IsFresh v
    → IsInjected v c
    → c.bootinfo.magic ≡ bootinfo_magic
    → (Looks v.machine.ram v.console fresh v
        → (v' : Vmm) × (run_scenario at c.bootinfo v ≡ returned 0 v')
          × Looks v.machine.ram v.console u v')
    → u.obs ≡ c.obs
    → ((store : LogStore) → store ≡ append_all logstore_open u.log → HasLog c.log store)
    → Passes at c v
unfolding ag_guest append_all
start-Passes at c v u f injected magic does same_obs same_log =
    let start : Looks v.machine.ram v.console fresh v = record {
      device = f.device;
      seq = f.seq;
      status = f.status;
      code = omega arith;
      memory = refl;
      console = sym (append-nil v.console);
      store = f.store;
    } in
    let (v', run, end) = does start in
    let found : ag_guest at bootinfo_base v ≡ run_scenario at c.bootinfo v =
      ap
        (λ (bi : Bootinfo).
          if bi.magic == bootinfo_magic then run_scenario at bi v else returned 1 v)
        injected.header
      ∙ ap (λ m. if m == bootinfo_magic then run_scenario at c.bootinfo v else returned 1 v)
          magic in
    (
      v',
      found ∙ run,
      end.console ∙ ap (λ obs. v.console ++ transcript obs) same_obs,
      same_log v'.machine.store end.store,
    )

pub Does-Passes :
    (at : Locals) (c : Case) (v : Vmm) (u : Seen)
    → IsFresh v
    → IsInjected v c
    → c.bootinfo.magic ≡ bootinfo_magic
    → Does v.machine.ram v.console (run_scenario at c.bootinfo) 0 fresh u
    → u.obs ≡ c.obs
    → ((store : LogStore) → store ≡ append_all logstore_open u.log → HasLog c.log store)
    → Passes at c v
Does-Passes at c v u f injected magic does same_obs same_log =
    start-Passes at c v u f injected magic (does v) same_obs same_log
