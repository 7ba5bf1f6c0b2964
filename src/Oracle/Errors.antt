-- ===== src/Oracle/Errors.antt =====
-- project_1/tests/ag_guest.c: the scenarios with requests that the device refuses, and at the limits
-- of what it accepts.
use cs360v_cs380_projects.Prelude.{
  ℕ, ◌+◌, ◌-◌, ◌^◌, ◌<◌, ◌≤◌, ◌≡◌, refl, ◌∙◌, ap, sym, List, [], ◌∷◌, codes, arith,
}
use cs360v_cs380_projects.Memory.{Memory, ram_base, load_bytes}
use cs360v_cs380_projects.Device.{vlog_max_msg}
use cs360v_cs380_projects.Guest.Driver.{expected_code}
use cs360v_cs380_projects.Oracle.{Bootinfo}
use cs360v_cs380_projects.Oracle.Cases.{log_records}
use cs360v_cs380_projects.Oracle.Scenarios
use cs360v_cs380_projects.Oracle.Steps.{
  Does, bind-Does, pure-Does, obs-Does, vlog_seq-Does, dev_err-Does, dev_errcode-Does,
}
use cs360v_cs380_projects.Oracle.Writes.{log-Does, refused-Does, nop_command-Does, bad_command-Does}
use cs360v_cs380_projects.Oracle.Records.{fresh, IsLoggable}

module _ (ram : Memory) (before : List ℕ) (bi : Bootinfo) (level_word : bi.level < 2 ^ 32) where
  pub malformed-Does :
      bi.scratch_addr < 2 ^ 64
      → bi.arg0 < 2 ^ 32
      → bi.arg1 < 2 ^ 64
      → expected_code bi.scratch_addr bi.arg0 ≡ 3
      → expected_code bi.arg1 4 ≡ 2
      → Does ram before (Scenarios.malformed bi) 0 fresh (record {
        seq = 0;
        code = 2;
        obs =
            (codes "err_badcmd", 1)
            ∷ (codes "errcode_badcmd", 1)
            ∷ (codes "rc_badlen", 3)
            ∷ (codes "rc_badaddr", 2)
            ∷ (codes "seq", 0)
            ∷ [];
        log = [];
      })
  unfolding Scenarios.malformed
  malformed-Does wide word far long outside =
      bind-Does ram before _ (bad_command-Does ram before _ 0x7f (omega arith) (omega arith)) (
        bind-Does ram before _ (dev_err-Does ram before _) (
          bind-Does ram before _ (obs-Does ram before (codes "err_badcmd") 1 _ refl) (
            bind-Does ram before _ (dev_errcode-Does ram before _) (
              bind-Does ram before _ (obs-Does ram before (codes "errcode_badcmd") 1 _ refl) (
                bind-Does ram before _
                  (refused-Does ram before _ bi.level bi.scratch_addr bi.arg0 2 wide word level_word
                    long (omega arith))
                  (bind-Does ram before _ (obs-Does ram before (codes "rc_badlen") 3 _ refl) (
                    bind-Does ram before _
                      (refused-Does ram before _ bi.level bi.arg1 4 1 far (omega arith) level_word
                        outside (omega arith))
                      (bind-Does ram before _ (obs-Does ram before (codes "rc_badaddr") 2 _ refl) (
                        bind-Does ram before _ (vlog_seq-Does ram before _) (
                          bind-Does ram before _ (obs-Does ram before (codes "seq") 0 _ refl)
                            (pure-Does ram before 0 _)))))))))))

  pub boundary-Does :
      bi.arg0 < 2 ^ 32
      → expected_code (Scenarios.ram_top - bi.arg0) bi.arg0 ≡ 0
      → expected_code (Scenarios.ram_top - bi.arg0 + 1) bi.arg0 ≡ 2
      → Does ram before (Scenarios.boundary bi) 0 fresh (record {
        seq = 1;
        code = 2;
        obs =
            (codes "rc_at_top", 0)
            ∷ (codes "seq_after_top", 1)
            ∷ (codes "rc_past_top", 2)
            ∷ (codes "seq_final", 1)
            ∷ [];
        log =
            log_records 1 0 bi.level
              (load_bytes ram (Scenarios.ram_top - bi.arg0 - ram_base) bi.arg0);
      })
  unfolding Scenarios.boundary
  boundary-Does word inside past =
      bind-Does ram before _
        (log-Does ram before _ bi.level (Scenarios.ram_top - bi.arg0) bi.arg0
          (load_bytes ram (Scenarios.ram_top - bi.arg0 - ram_base) bi.arg0) (omega arith) word
          level_word inside refl)
        (bind-Does ram before _ (obs-Does ram before (codes "rc_at_top") 0 _ refl) (
          bind-Does ram before _ (vlog_seq-Does ram before _) (
            bind-Does ram before _ (obs-Does ram before (codes "seq_after_top") 1 _ refl) (
              bind-Does ram before _
                (refused-Does ram before _ bi.level (Scenarios.ram_top - bi.arg0 + 1) bi.arg0 1
                  (omega arith) word level_word past (omega arith))
                (bind-Does ram before _ (obs-Does ram before (codes "rc_past_top") 2 _ refl) (
                  bind-Does ram before _ (vlog_seq-Does ram before _) (
                    bind-Does ram before _ (obs-Does ram before (codes "seq_final") 1 _ refl)
                      (pure-Does ram before 0 _))))))))

  nothing : load_bytes ram (bi.scratch_addr - ram_base) 0 ≡ []
  unfolding load_bytes
  nothing = refl

  pub empty-Does :
      bi.scratch_addr < 2 ^ 64
      → expected_code bi.scratch_addr 0 ≡ 0
      → Does ram before (Scenarios.empty bi) 0 fresh (record {
        seq = 1;
        code = 0;
        obs = (codes "rc", 0) ∷ (codes "err", 0) ∷ (codes "seq", 1) ∷ [];
        log = log_records 1 0 bi.level [];
      })
  unfolding Scenarios.empty
  empty-Does wide accepted =
      bind-Does ram before _
        (log-Does ram before _ bi.level bi.scratch_addr 0 [] wide (omega arith) level_word accepted
          nothing)
        (bind-Does ram before _ (obs-Does ram before (codes "rc") 0 _ refl) (
          bind-Does ram before _ (dev_err-Does ram before _) (
            bind-Does ram before _ (obs-Does ram before (codes "err") 0 _ refl) (
              bind-Does ram before _ (vlog_seq-Does ram before _) (
                bind-Does ram before _ (obs-Does ram before (codes "seq") 1 _ refl)
                  (pure-Does ram before 0 _))))))

  pub nop-Does :
      4 ≤ bi.arg0
      → bi.arg0 < 2 ^ 32
      → Does ram before (Scenarios.nop bi) 0 fresh (record {
        seq = 0;
        code = 0;
        obs =
            (codes "err_after_badcmd", 1)
            ∷ (codes "errcode_after_badcmd", 1)
            ∷ (codes "err_after_nop", 0)
            ∷ (codes "seq", 0)
            ∷ [];
        log = [];
      })
  unfolding Scenarios.nop Scenarios.nop_checks
  nop-Does big word = bind-Does ram before _ (bad_command-Does ram before _ bi.arg0 big word) (
      bind-Does ram before _ (dev_err-Does ram before _) (
        bind-Does ram before _ (obs-Does ram before (codes "err_after_badcmd") 1 _ refl) (
          bind-Does ram before _ (dev_errcode-Does ram before _) (
            bind-Does ram before _ (obs-Does ram before (codes "errcode_after_badcmd") 1 _ refl) (
              bind-Does ram before _ (nop_command-Does ram before _) (
                bind-Does ram before _ (dev_err-Does ram before _) (
                  bind-Does ram before _ (obs-Does ram before (codes "err_after_nop") 0 _ refl) (
                    bind-Does ram before _ (vlog_seq-Does ram before _) (
                      bind-Does ram before _ (obs-Does ram before (codes "seq") 0 _ refl)
                        (pure-Does ram before 0 _))))))))))

module _ (ram : Memory) (before : List ℕ) (bi : Bootinfo) (text : List ℕ)
    (ok : IsLoggable ram bi text) where
  pub recover-Does :
      4 ≤ bi.arg0
      → bi.arg0 < 2 ^ 32
      → Does ram before (Scenarios.recover bi) 0 fresh (record {
        seq = 1;
        code = 0;
        obs =
            (codes "err_after_bad", 1) ∷ (codes "rc", 0) ∷ (codes "err", 0) ∷ (codes "seq", 1) ∷ [];
        log = log_records 1 0 bi.level text;
      })
  unfolding Scenarios.recover
  recover-Does big word = bind-Does ram before _ (bad_command-Does ram before _ bi.arg0 big word) (
      bind-Does ram before _ (dev_err-Does ram before _) (
        bind-Does ram before _ (obs-Does ram before (codes "err_after_bad") 1 _ refl) (
          bind-Does ram before _
            (log-Does ram before _ bi.level bi.scratch_addr bi.scratch_len text ok.wide ok.len
              ok.level ok.accepted ok.held)
            (bind-Does ram before _ (obs-Does ram before (codes "rc") 0 _ refl) (
              bind-Does ram before _ (dev_err-Does ram before _) (
                bind-Does ram before _ (obs-Does ram before (codes "err") 0 _ refl) (
                  bind-Does ram before _ (vlog_seq-Does ram before _) (
                    bind-Does ram before _ (obs-Does ram before (codes "seq") 1 _ refl)
                      (pure-Does ram before 0 _)))))))))

  pub max_len-Does :
      bi.scratch_len ≡ vlog_max_msg
      → expected_code bi.scratch_addr (vlog_max_msg + 1) ≡ 3
      → Does ram before (Scenarios.max_len bi) 0 fresh (record {
        seq = 1;
        code = 3;
        obs =
            (codes "rc_max", 0)
            ∷ (codes "seq_after_max", 1)
            ∷ (codes "rc_over", 3)
            ∷ (codes "seq_final", 1)
            ∷ [];
        log = log_records 1 0 bi.level text;
      })
  unfolding Scenarios.max_len
  max_len-Does full long =
      bind-Does ram before _
        (log-Does ram before _ bi.level bi.scratch_addr vlog_max_msg text ok.wide (omega arith)
          ok.level (ap (expected_code bi.scratch_addr) (sym full) ∙ ok.accepted)
          (ap (load_bytes ram (bi.scratch_addr - ram_base)) (sym full) ∙ ok.held))
        (bind-Does ram before _ (obs-Does ram before (codes "rc_max") 0 _ refl) (
          bind-Does ram before _ (vlog_seq-Does ram before _) (
            bind-Does ram before _ (obs-Does ram before (codes "seq_after_max") 1 _ refl) (
              bind-Does ram before _
                (refused-Does ram before _ bi.level bi.scratch_addr (vlog_max_msg + 1) 2 ok.wide
                  (omega arith) ok.level long (omega arith))
                (bind-Does ram before _ (obs-Does ram before (codes "rc_over") 3 _ refl) (
                  bind-Does ram before _ (vlog_seq-Does ram before _) (
                    bind-Does ram before _ (obs-Does ram before (codes "seq_final") 1 _ refl)
                      (pure-Does ram before 0 _))))))))
