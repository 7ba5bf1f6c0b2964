-- ===== src/Oracle/Cases.antt =====
-- project_1/tests/oracle.c: the parameters that it picks for the scenarios that log messages, and
-- what it expects.
use cs360v_cs380_projects.Prelude.{ℕ, zero, suc, ◌-◌, List, [], ◌∷◌, codes, some}
use cs360v_cs380_projects.Memory.{ram_base}
use cs360v_cs380_projects.LogStore.{Entry, entry}
use cs360v_cs380_projects.Device.Err
use cs360v_cs380_projects.Oracle.{Case, blank_bootinfo, rng_range, fill_printable}
use cs360v_cs380_projects.Oracle.Scenario

-- `log_record` for `i` from `n` on.
abbrev pub log_records : (count n level : ℕ) → List ℕ → List Entry
log_records zero n level text = []
log_records (suc count) n level text = entry n level text ∷ log_records count (suc n) level text

-- The scenarios that log one message, in the ranges of its length and level.
unfoldable pub log_one_case : (longest low high : ℕ) → ℕ → Case
log_one_case longest low high state =
    let (len, s1) = rng_range 1 longest state in
    let (level, s2) = rng_range low high s1 in
    let text = fill_printable len s2 in
    record {
      bootinfo = record blank_bootinfo {
        scenario = Scenario.log_one;
        scratch_len = len;
        level = level;
        count = 1;
      };
      scratch = text;
      obs = (codes "rc", 0) ∷ (codes "err", 0) ∷ (codes "seq", 1) ∷ [];
      log = some (log_records 1 0 level text);
    }

unfoldable pub log_many_case : ℕ → Case
log_many_case state =
    let (count, s1) = rng_range 2 16 state in
    let (len, s2) = rng_range 1 32 s1 in
    let (level, s3) = rng_range 0 3 s2 in
    let text = fill_printable len s3 in
    record {
      bootinfo = record blank_bootinfo {
        scenario = Scenario.log_many;
        scratch_len = len;
        level = level;
        count = count;
      };
      scratch = text;
      obs = (codes "err", 0) ∷ (codes "seq", count) ∷ [];
      log = some (log_records count 0 level text);
    }

unfoldable pub recover_case : ℕ → Case
recover_case state =
    let (len, s1) = rng_range 1 32 state in
    let (level, s2) = rng_range 0 3 s1 in
    let (bad_cmd, s3) = rng_range 3 0xffff s2 in
    let text = fill_printable len s3 in
    record {
      bootinfo = record blank_bootinfo {
        scenario = Scenario.recover;
        scratch_len = len;
        level = level;
        arg0 = bad_cmd;
      };
      scratch = text;
      obs = (codes "err_after_bad", 1) ∷ (codes "rc", 0) ∷ (codes "err", 0) ∷ (codes "seq", 1) ∷ [];
      log = some (log_records 1 0 level text);
    }

unfoldable pub interleave_case : ℕ → Case
interleave_case state =
    let (len, s1) = rng_range 1 32 state in
    let (level, s2) = rng_range 0 3 s1 in
    let (bad_addr, s3) = rng_range 0x1000 (ram_base - 16) s2 in
    let text = fill_printable len s3 in
    record {
      bootinfo = record blank_bootinfo {
        scenario = Scenario.interleave;
        scratch_len = len;
        level = level;
        arg1 = bad_addr;
      };
      scratch = text;
      obs =
          (codes "rc1", 0) ∷ (codes "rc2", Err.bad_addr) ∷ (codes "rc3", 0) ∷ (codes "seq", 2) ∷ [];
      log = some (log_records 2 0 level text);
    }

unfoldable pub flush_case : ℕ → Case
flush_case state =
    let (len, s1) = rng_range 1 32 state in
    let (level, s2) = rng_range 0 3 s1 in
    let text = fill_printable len s2 in
    record {
      bootinfo = record blank_bootinfo {
        scenario = Scenario.flush;
        scratch_len = len;
        level = level;
        count = 1;
      };
      scratch = text;
      obs = (codes "rc_log", 0) ∷ (codes "err_after_flush", 0) ∷ (codes "seq", 1) ∷ [];
      log = some (log_records 1 0 level text);
    }
