-- ===== src/Oracle/Probes.antt =====
-- project_1/tests/oracle.c: the parameters that it picks for the scenarios that try the device's
-- limits and its registers, and what it expects.
use cs360v_cs380_projects.Prelude.{ℕ, ◌+◌, ◌-◌, [], ◌∷◌, codes, none, some}
use cs360v_cs380_projects.Memory.{ram_base}
use cs360v_cs380_projects.Device.{vlog_magic, vlog_max_msg}
use cs360v_cs380_projects.Device.Err
use cs360v_cs380_projects.Oracle.{Case, blank_bootinfo, rng_u32, rng_range, fill_printable}
use cs360v_cs380_projects.Oracle.Scenario
use cs360v_cs380_projects.Oracle.Cases.{log_records}

unfoldable pub malformed_case : ℕ → Case
malformed_case state =
    let (level, s1) = rng_range 0 3 state in
    let (bad_len, s2) = rng_range (vlog_max_msg + 1) 100000 s1 in
    let (bad_addr, s3) = rng_range 0x1000 (ram_base - 16) s2 in
    record {
      bootinfo = record blank_bootinfo {
        scenario = Scenario.malformed;
        scratch_len = 8;
        level = level;
        arg0 = bad_len;
        arg1 = bad_addr;
      };
      scratch = fill_printable 8 s3;
      obs =
          (codes "err_badcmd", 1)
          ∷ (codes "errcode_badcmd", Err.bad_cmd)
          ∷ (codes "rc_badlen", Err.bad_len)
          ∷ (codes "rc_badaddr", Err.bad_addr)
          ∷ (codes "seq", 0)
          ∷ [];
      log = some [];
    }

unfoldable pub boundary_case : ℕ → Case
boundary_case state =
    let (level, s1) = rng_range 0 3 state in
    let (len, s2) = rng_range 1 16 s1 in
    record {
      bootinfo = record blank_bootinfo { scenario = Scenario.boundary; level = level; arg0 = len };
      scratch = [];
      obs =
          (codes "rc_at_top", 0)
          ∷ (codes "seq_after_top", 1)
          ∷ (codes "rc_past_top", Err.bad_addr)
          ∷ (codes "seq_final", 1)
          ∷ [];
      log = none;
    }

unfoldable pub empty_case : ℕ → Case
empty_case state =
    let (level, s1) = rng_range 0 3 state in
    record {
      bootinfo = record blank_bootinfo { scenario = Scenario.empty; level = level; count = 1 };
      scratch = [];
      obs = (codes "rc", 0) ∷ (codes "err", 0) ∷ (codes "seq", 1) ∷ [];
      log = some (log_records 1 0 level []);
    }

unfoldable pub max_len_case : ℕ → Case
max_len_case state =
    let (level, s1) = rng_range 0 3 state in
    let text = fill_printable vlog_max_msg s1 in
    record {
      bootinfo = record blank_bootinfo {
        scenario = Scenario.max_len;
        scratch_len = vlog_max_msg;
        level = level;
      };
      scratch = text;
      obs =
          (codes "rc_max", 0)
          ∷ (codes "seq_after_max", 1)
          ∷ (codes "rc_over", Err.bad_len)
          ∷ (codes "seq_final", 1)
          ∷ [];
      log = some (log_records 1 0 level text);
    }

unfoldable pub regs_case : ℕ → Case
regs_case state =
    let (lo, s1) = rng_u32 state in
    let (hi, s2) = rng_u32 s1 in
    let (len, s3) = rng_u32 s2 in
    let (level, s4) = rng_u32 s3 in
    record {
      bootinfo = record blank_bootinfo {
        scenario = Scenario.regs;
        arg0 = lo;
        arg1 = hi;
        count = len;
        level = level;
      };
      scratch = [];
      obs =
          (codes "msg_lo", lo)
          ∷ (codes "msg_hi", hi)
          ∷ (codes "len", len)
          ∷ (codes "level", level)
          ∷ (codes "id_after_ro", vlog_magic)
          ∷ (codes "seq_after_ro", 0)
          ∷ (codes "status_ro_unchanged", 1)
          ∷ [];
      log = none;
    }

unfoldable pub nop_case : ℕ → Case
nop_case state =
    let (bad_cmd, s1) = rng_range 3 0xffff state in
    record {
      bootinfo = record blank_bootinfo { scenario = Scenario.nop; arg0 = bad_cmd };
      scratch = [];
      obs =
          (codes "err_after_badcmd", 1)
          ∷ (codes "errcode_after_badcmd", Err.bad_cmd)
          ∷ (codes "err_after_nop", 0)
          ∷ (codes "seq", 0)
          ∷ [];
      log = none;
    }
