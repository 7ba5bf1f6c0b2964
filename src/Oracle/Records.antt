-- ===== src/Oracle/Records.antt =====
-- project_1/tests/ag_guest.c: the scenarios, from a fresh device on.
use cs360v_cs380_projects.Prelude.{
  ℕ, zero, suc, ◌+◌, ◌-◌, ◌%◌, ◌^◌, ◌<◌, ◌≡◌, refl, ◌∙◌, ap, sym, subst, List, [], ◌∷◌, ◌++◌, codes,
  arith, append_assoc, append-nil,
}
use cs360v_cs380_projects.Memory.{Memory, ram_base, load_bytes}
use cs360v_cs380_projects.LogStore.{entry}
use cs360v_cs380_projects.Guest.Driver.{expected_code}
use cs360v_cs380_projects.Oracle.{Bootinfo}
use cs360v_cs380_projects.Oracle.Cases.{log_records}
use cs360v_cs380_projects.Oracle.Scenarios
use cs360v_cs380_projects.Oracle.Steps.{
  Seen, Looks, Does, bind-Does, pure-Does, obs-Does, vlog_seq-Does, dev_err-Does,
}
use cs360v_cs380_projects.Oracle.Writes.{recorded, log-Does, refused-Does, flush_command-Does}

abbrev pub fresh : Seen
fresh = record { seq = 0; code = 0; obs = []; log = [] }

-- The scratch message of the parameters can be logged, and has this text.
pub record IsLoggable (ram : Memory) (bi : Bootinfo) (text : List ℕ) : Type 0 where
  pub wide : bi.scratch_addr < 2 ^ 64
  pub len : bi.scratch_len < 2 ^ 32
  pub level : bi.level < 2 ^ 32
  pub accepted : expected_code bi.scratch_addr bi.scratch_len ≡ 0
  pub held : load_bytes ram (bi.scratch_addr - ram_base) bi.scratch_len ≡ text

module _ (ram : Memory) (before : List ℕ) (bi : Bootinfo) (text : List ℕ)
    (ok : IsLoggable ram bi text) where
  pub log_one-Does : Does ram before (Scenarios.log_one bi) 0 fresh (record {
    seq = 1;
    code = 0;
    obs = (codes "rc", 0) ∷ (codes "err", 0) ∷ (codes "seq", 1) ∷ [];
    log = log_records 1 0 bi.level text;
  })
  unfolding Scenarios.log_one
  log_one-Does =
      bind-Does ram before _
        (log-Does ram before fresh bi.level bi.scratch_addr bi.scratch_len text ok.wide ok.len
          ok.level ok.accepted ok.held)
        (bind-Does ram before _ (obs-Does ram before (codes "rc") 0 _ refl) (
          bind-Does ram before _ (dev_err-Does ram before _) (
            bind-Does ram before _ (obs-Does ram before (codes "err") 0 _ refl) (
              bind-Does ram before _ (vlog_seq-Does ram before _) (
                bind-Does ram before _ (obs-Does ram before (codes "seq") 1 _ refl)
                  (pure-Does ram before 0 _))))))

  pub interleave-Does :
      bi.arg1 < 2 ^ 64
      → expected_code bi.arg1 4 ≡ 2
      → Does ram before (Scenarios.interleave bi) 0 fresh (record {
        seq = 2;
        code = 0;
        obs = (codes "rc1", 0) ∷ (codes "rc2", 2) ∷ (codes "rc3", 0) ∷ (codes "seq", 2) ∷ [];
        log = log_records 2 0 bi.level text;
      })
  unfolding Scenarios.interleave
  interleave-Does far bad =
      bind-Does ram before _
        (log-Does ram before _ bi.level bi.scratch_addr bi.scratch_len text ok.wide ok.len ok.level
          ok.accepted ok.held)
        (bind-Does ram before _ (obs-Does ram before (codes "rc1") 0 _ refl) (
          bind-Does ram before _
            (refused-Does ram before _ bi.level bi.arg1 4 1 far (omega arith) ok.level bad
              (omega arith))
            (bind-Does ram before _ (obs-Does ram before (codes "rc2") 2 _ refl) (
              bind-Does ram before _
                (log-Does ram before _ bi.level bi.scratch_addr bi.scratch_len text ok.wide ok.len
                  ok.level ok.accepted ok.held)
                (bind-Does ram before _ (obs-Does ram before (codes "rc3") 0 _ refl) (
                  bind-Does ram before _ (vlog_seq-Does ram before _) (
                    bind-Does ram before _ (obs-Does ram before (codes "seq") 2 _ refl)
                      (pure-Does ram before 0 _))))))))

  pub flush-Does : Does ram before (Scenarios.flush bi) 0 fresh (record {
    seq = 1;
    code = 0;
    obs = (codes "rc_log", 0) ∷ (codes "err_after_flush", 0) ∷ (codes "seq", 1) ∷ [];
    log = log_records 1 0 bi.level text;
  })
  unfolding Scenarios.flush
  flush-Does =
      bind-Does ram before _
        (log-Does ram before _ bi.level bi.scratch_addr bi.scratch_len text ok.wide ok.len ok.level
          ok.accepted ok.held)
        (bind-Does ram before _ (obs-Does ram before (codes "rc_log") 0 _ refl) (
          bind-Does ram before _ (flush_command-Does ram before _) (
            bind-Does ram before _ (dev_err-Does ram before _) (
              bind-Does ram before _ (obs-Does ram before (codes "err_after_flush") 0 _ refl) (
                bind-Does ram before _ (vlog_seq-Does ram before _) (
                  bind-Does ram before _ (obs-Does ram before (codes "seq") 1 _ refl)
                    (pure-Does ram before 0 _)))))))

  log_loop-Does :
      (n : ℕ) (s : Seen)
      → s.seq + n < 2 ^ 32
      → s.code ≡ 0
      → Does ram before (Scenarios.log_loop n bi 0) 0 s (record {
        seq = s.seq + n;
        code = 0;
        obs = s.obs;
        log = s.log ++ log_records n s.seq bi.level text;
      })
  unfolding Scenarios.log_loop
  log_loop-Does zero s small none_yet v l =
      let same : s.seq ≡ s.seq + 0 = omega arith in
      (
        v,
        refl,
        subst (λ t. Looks ram before t v)
            (λ i. record {
              seq = same i;
              code = none_yet i;
              obs = s.obs;
              log = sym (append-nil s.log) i;
            })
            l,
      )
  log_loop-Does (suc n) s small none_yet v l =
      let next : (s.seq + 1) % 2 ^ 32 ≡ suc s.seq = omega (arith, small) in
      let total : (s.seq + 1) % 2 ^ 32 + n ≡ s.seq + suc n = omega (arith, small) in
      let (v', run, l') =
        bind-Does ram before _
          (log-Does ram before s bi.level bi.scratch_addr bi.scratch_len text ok.wide ok.len
            ok.level ok.accepted ok.held)
          (log_loop-Does n (recorded s bi.level text) (omega arith) refl) v l in
      (
        v',
        run,
        subst (λ t. Looks ram before t v')
            (λ i. record {
              seq = total i;
              code = 0;
              obs = s.obs;
              log =
                  (append_assoc s.log (entry s.seq bi.level text ∷ [])
                        (log_records n ((s.seq + 1) % 2 ^ 32) bi.level text)
                      ∙ ap (λ k. s.log ++ entry s.seq bi.level text ∷ log_records n k bi.level text)
                          next)
                    i;
            })
            l',
      )

  pub log_many-Does :
      bi.count < 2 ^ 32
      → Does ram before (Scenarios.log_many bi) 0 fresh (record {
        seq = bi.count;
        code = 0;
        obs = (codes "err", 0) ∷ (codes "seq", bi.count) ∷ [];
        log = log_records bi.count 0 bi.level text;
      })
  unfolding Scenarios.log_many
  log_many-Does small = bind-Does ram before _ (log_many_loop small) (
      bind-Does ram before _ (obs-Does ram before (codes "err") 0 _ refl) (
        bind-Does ram before _ (vlog_seq-Does ram before _) (
          bind-Does ram before _ (obs-Does ram before (codes "seq") bi.count _ refl)
            (pure-Does ram before 0 _))))
    where
      log_many_loop :
          bi.count < 2 ^ 32
          → Does ram before (Scenarios.log_loop bi.count bi 0) 0 fresh (record {
            seq = bi.count;
            code = 0;
            obs = [];
            log = log_records bi.count 0 bi.level text;
          })
      log_many_loop h v l =
          let none_before : 0 + bi.count ≡ bi.count = omega arith in
          let (v', run, l') = log_loop-Does bi.count fresh (omega arith) refl v l in
          (
            v',
            run,
            subst (λ t. Looks ram before t v')
                (λ i. record {
                  seq = none_before i;
                  code = 0;
                  obs = [];
                  log = log_records bi.count 0 bi.level text;
                })
                l',
          )
