-- ===== src/Oracle.antt =====
-- project_1/tests: the test guest ag_guest.c with its parameters (bootinfo.h), and the reference
-- model oracle.c, which picks the parameters and says what a correct device makes of them.
pub mod Scenario
pub mod Cases
pub mod Probes
pub mod Picked
pub mod Observe
pub mod Scenarios
pub mod Program
pub mod Steps
pub mod Writes
pub mod Records
pub mod Errors
pub mod Registers
pub mod Passes
pub mod Each
pub mod Known
pub mod Agree
mod Tests
use cs360v_cs380_projects.Prelude.{
  ℕ, zero, suc, ◌+◌, ◌-◌, ◌*◌, ◌/◌, ◌%◌, ◌^◌, ◌==◌, if◌then◌else◌, List, [], ◌∷◌, codes, Option,
  none, some, u32_mod, u64_mod,
}
use cs360v_cs380_projects.Memory.{Memory, load32, load64, ram_base, bootinfo_base}
use cs360v_cs380_projects.LogStore.{Entry, entry}
use cs360v_cs380_projects.Device.{vlog_max_msg}
use cs360v_cs380_projects.Device.Err
use cs360v_cs380_projects.Oracle.Scenario

-- `struct bootinfo`
pub record Bootinfo : Type 0 where
  pub magic : ℕ
  pub scenario : ℕ
  pub scratch_addr : ℕ
  pub scratch_len : ℕ
  pub level : ℕ
  pub count : ℕ
  pub arg0 : ℕ
  pub arg1 : ℕ

abbrev pub bootinfo_magic : ℕ
bootinfo_magic = 0xB007B007

-- The packed header at `p`.
unfoldable pub bootinfo_at : Memory → ℕ → Bootinfo
bootinfo_at mem p = record {
  magic = load32 mem p;
  scenario = load32 mem (p + 4);
  scratch_addr = load64 mem (p + 8);
  scratch_len = load32 mem (p + 16);
  level = load32 mem (p + 20);
  count = load32 mem (p + 24);
  arg0 = load32 mem (p + 28);
  arg1 = load32 mem (p + 32);
}

-- `rng_seed`, and `rng_u32` with the state that it leaves.
abbrev pub rng_seed : ℕ → ℕ
rng_seed s = if s == 0 then 0x9E3779B97F4A7C15 else s

unfoldable pub rng_u32 : ℕ → ℕ × ℕ
rng_u32 state =
    let next = (state * 6364136223846793005 + 1442695040888963407) % u64_mod in
    (next / 2 ^ 33 % u32_mod, next)

-- No use of it wraps, since each has `lo` and `hi` in order.
unfoldable pub rng_range : (lo hi : ℕ) → ℕ → ℕ × ℕ
rng_range lo hi state = let (u, next) = rng_u32 state in (lo + u % (hi - lo + 1), next)

unfoldable pub fill_printable : (len : ℕ) → ℕ → List ℕ
fill_printable zero state = []
fill_printable (suc len) state =
    let (c, next) = rng_range 0x21 0x7e state in c ∷ fill_printable len next

-- What the oracle writes for a scenario and a seed: the header, the scratch bytes behind it, the
-- observations with their keys, and the log, where that is determined.
pub record Case : Type 0 where
  pub bootinfo : Bootinfo
  pub scratch : List ℕ
  pub obs : List (List ℕ × ℕ)
  pub log : Option (List Entry)

-- `memset`, the magic number and the scratch address.
abbrev pub blank_bootinfo : Bootinfo
blank_bootinfo = record {
  magic = bootinfo_magic;
  scenario = 0;
  scratch_addr = bootinfo_base + 64;
  scratch_len = 0;
  level = 0;
  count = 0;
  arg0 = 0;
  arg1 = 0;
}
