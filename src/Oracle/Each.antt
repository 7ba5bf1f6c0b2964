-- ===== src/Oracle/Each.antt =====
-- project_1/tests: the test guest against its oracle, scenario by scenario.
use cs360v_cs380_projects.Prelude.{
  ℕ, ◌+◌, ◌-◌, ◌^◌, ◌<◌, ◌≤◌, ◌≡◌, ◌≢◌, refl, ◌∙◌, ap, sym, arith, length,
}
use cs360v_cs380_projects.Memory.{ram_base, bootinfo_base, load_bytes}
use cs360v_cs380_projects.Vmm.{Vmm}
use cs360v_cs380_projects.Oracle.{Bootinfo, rng_u32, rng_range, fill_printable}
use cs360v_cs380_projects.Oracle.Cases.{
  log_one_case, log_many_case, recover_case, interleave_case, flush_case,
}
use cs360v_cs380_projects.Oracle.Probes.{
  regs_case, malformed_case, boundary_case, empty_case, max_len_case, nop_case,
}
use cs360v_cs380_projects.Oracle.Scenarios.{Locals}
use cs360v_cs380_projects.Oracle.Program.{run_scenario}
use cs360v_cs380_projects.Oracle.Records.{
  IsLoggable, log_one-Does, log_many-Does, interleave-Does, flush-Does,
}
use cs360v_cs380_projects.Oracle.Errors.{
  malformed-Does, boundary-Does, empty-Does, nop-Does, recover-Does, max_len-Does,
}
use cs360v_cs380_projects.Oracle.Registers.{regs-Does}
use cs360v_cs380_projects.Oracle.Passes.{
  rng_u32-bound, IsFresh, IsInjected, Passes, Does-Passes, rng_range-bounds, length-fill_printable,
}

-- A printable text of 1 to 4096 bytes in the scratch area is one that the device logs.
scratch-IsLoggable :
    (v : Vmm) (bi : Bootinfo) (state : ℕ)
    → bi.scratch_addr ≡ bootinfo_base + 64
    → 1 ≤ bi.scratch_len
    → bi.scratch_len ≤ 4096
    → bi.level < 2 ^ 32
    → load_bytes v.machine.ram
        (bi.scratch_addr - ram_base)
        (length (fill_printable bi.scratch_len state))
      ≡ fill_printable bi.scratch_len state
    → IsLoggable v.machine.ram bi (fill_printable bi.scratch_len state)
scratch-IsLoggable v bi state place least most level held = record {
  wide = omega (arith, place);
  len = omega (arith, most);
  level = level;
  accepted = ground (arith, place, least, most);
  held =
      ap (load_bytes v.machine.ram (bi.scratch_addr - ram_base))
        (sym (length-fill_printable bi.scratch_len state))
      ∙ held;
}

module _ (at : Locals) (v : Vmm) (f : IsFresh v) (state : ℕ) where
  pub log_one_case-Passes :
      (longest low high : ℕ)
      → 1 ≤ longest
      → longest ≤ 64
      → low ≤ high
      → high < 2 ^ 32
      → IsInjected v (log_one_case longest low high state)
      → Passes at (log_one_case longest low high state) v
  unfolding log_one_case run_scenario
  log_one_case-Passes longest low high some_len short order word injected =
      let c = log_one_case longest low high state in
      let (len, s1) = rng_range 1 longest state in
      let (least, most) = rng_range-bounds 1 longest state some_len in
      let (low_level, high_level) = rng_range-bounds low high s1 order in
      let s2 = (rng_range low high s1).1 in
      Does-Passes at c v _ f injected refl
        (log_one-Does v.machine.ram v.console c.bootinfo c.scratch (
          scratch-IsLoggable v c.bootinfo s2 refl least (omega (arith, most))
            (omega (arith, high_level)) injected.scratch))
        refl (λ store h. h)

  pub log_many_case-Passes : IsInjected v (log_many_case state) → Passes at (log_many_case state) v
  unfolding log_many_case run_scenario
  log_many_case-Passes injected =
      let c = log_many_case state in
      let (count_low, count_high) = rng_range-bounds 2 16 state (omega arith) in
      let s1 = (rng_range 2 16 state).1 in
      let (len_low, len_high) = rng_range-bounds 1 32 s1 (omega arith) in
      let s2 = (rng_range 1 32 s1).1 in
      let (level_low, level_high) = rng_range-bounds 0 3 s2 (omega arith) in
      let s3 = (rng_range 0 3 s2).1 in
      Does-Passes at c v _ f injected refl
        (log_many-Does v.machine.ram v.console c.bootinfo c.scratch
          (scratch-IsLoggable v c.bootinfo s3 refl (omega (arith, len_low))
            (omega (arith, len_high)) (omega (arith, level_high)) injected.scratch)
          (omega (arith, count_high)))
        refl (λ store h. h)

  pub interleave_case-Passes :
      IsInjected v (interleave_case state) → Passes at (interleave_case state) v
  unfolding interleave_case run_scenario
  interleave_case-Passes injected =
      let c = interleave_case state in
      let (len_low, len_high) = rng_range-bounds 1 32 state (omega arith) in
      let s1 = (rng_range 1 32 state).1 in
      let (level_low, level_high) = rng_range-bounds 0 3 s1 (omega arith) in
      let s2 = (rng_range 0 3 s1).1 in
      let (addr_low, addr_high) = rng_range-bounds 0x1000 (ram_base - 16) s2 (omega arith) in
      let s3 = (rng_range 0x1000 (ram_base - 16) s2).1 in
      Does-Passes at c v _ f injected refl
        (interleave-Does v.machine.ram v.console c.bootinfo c.scratch
          (scratch-IsLoggable v c.bootinfo s3 refl (omega (arith, len_low))
            (omega (arith, len_high)) (omega (arith, level_high)) injected.scratch)
          (omega (arith, addr_high)) (ground (arith, addr_low, addr_high)))
        refl (λ store h. h)

  pub flush_case-Passes : IsInjected v (flush_case state) → Passes at (flush_case state) v
  unfolding flush_case run_scenario
  flush_case-Passes injected =
      let c = flush_case state in
      let (len_low, len_high) = rng_range-bounds 1 32 state (omega arith) in
      let s1 = (rng_range 1 32 state).1 in
      let (level_low, level_high) = rng_range-bounds 0 3 s1 (omega arith) in
      let s2 = (rng_range 0 3 s1).1 in
      Does-Passes at c v _ f injected refl
        (flush-Does v.machine.ram v.console c.bootinfo c.scratch (
          scratch-IsLoggable v c.bootinfo s2 refl (omega (arith, len_low)) (omega (arith, len_high))
            (omega (arith, level_high)) injected.scratch))
        refl (λ store h. h)

  pub recover_case-Passes :
      (rng_range 3 0xffff (rng_range 0 3 (rng_range 1 32 state).1).1).0 ≢ 3
      → IsInjected v (recover_case state)
      → Passes at (recover_case state) v
  unfolding recover_case run_scenario
  recover_case-Passes known injected =
      let c = recover_case state in
      let (len_low, len_high) = rng_range-bounds 1 32 state (omega arith) in
      let s1 = (rng_range 1 32 state).1 in
      let (level_low, level_high) = rng_range-bounds 0 3 s1 (omega arith) in
      let s2 = (rng_range 0 3 s1).1 in
      let (cmd_low, cmd_high) = rng_range-bounds 3 0xffff s2 (omega arith) in
      let s3 = (rng_range 3 0xffff s2).1 in
      Does-Passes at c v _ f injected refl
        (recover-Does v.machine.ram v.console c.bootinfo c.scratch
          (scratch-IsLoggable v c.bootinfo s3 refl (omega (arith, len_low))
            (omega (arith, len_high)) (omega (arith, level_high)) injected.scratch)
          (omega (arith, cmd_low, known)) (omega (arith, cmd_high)))
        refl (λ store h. h)

  pub malformed_case-Passes :
      IsInjected v (malformed_case state) → Passes at (malformed_case state) v
  unfolding malformed_case run_scenario
  malformed_case-Passes injected =
      let c = malformed_case state in
      let (level_low, level_high) = rng_range-bounds 0 3 state (omega arith) in
      let s1 = (rng_range 0 3 state).1 in
      let (bad_len_low, bad_len_high) = rng_range-bounds 4097 100000 s1 (omega arith) in
      let s2 = (rng_range 4097 100000 s1).1 in
      let (addr_low, addr_high) = rng_range-bounds 0x1000 (ram_base - 16) s2 (omega arith) in
      let s3 = (rng_range 0x1000 (ram_base - 16) s2).1 in
      Does-Passes at c v _ f injected refl
        (malformed-Does v.machine.ram v.console c.bootinfo (omega (arith, level_high)) (omega arith)
          (omega (arith, bad_len_high)) (omega (arith, addr_high))
          (ground (arith, bad_len_low, bad_len_high)) (ground (arith, addr_low, addr_high)))
        refl (λ store h. h)

  pub boundary_case-Passes : IsInjected v (boundary_case state) → Passes at (boundary_case state) v
  unfolding boundary_case run_scenario
  boundary_case-Passes injected =
      let c = boundary_case state in
      let (level_low, level_high) = rng_range-bounds 0 3 state (omega arith) in
      let s1 = (rng_range 0 3 state).1 in
      let (len_low, len_high) = rng_range-bounds 1 16 s1 (omega arith) in
      let s2 = (rng_range 1 16 s1).1 in
      Does-Passes at c v _ f injected refl
        (boundary-Does v.machine.ram v.console c.bootinfo (omega (arith, level_high))
          (omega (arith, len_high)) (ground (arith, len_low, len_high))
          (ground (arith, len_low, len_high)))
        refl (λ store h. tt)

  pub empty_case-Passes : IsInjected v (empty_case state) → Passes at (empty_case state) v
  unfolding empty_case run_scenario
  empty_case-Passes injected =
      let c = empty_case state in
      let (level_low, level_high) = rng_range-bounds 0 3 state (omega arith) in
      let s1 = (rng_range 0 3 state).1 in
      Does-Passes at c v _ f injected refl
        (empty-Does v.machine.ram v.console c.bootinfo (omega (arith, level_high)) (omega arith)
          refl)
        refl (λ store h. h)

  pub nop_case-Passes :
      (rng_range 3 0xffff state).0 ≢ 3
      → IsInjected v (nop_case state)
      → Passes at (nop_case state) v
  unfolding nop_case run_scenario
  nop_case-Passes known injected =
      let c = nop_case state in
      let (cmd_low, cmd_high) = rng_range-bounds 3 0xffff state (omega arith) in
      let s1 = (rng_range 3 0xffff state).1 in
      Does-Passes at c v _ f injected refl
        (nop-Does v.machine.ram v.console c.bootinfo (omega arith) (omega (arith, cmd_low, known))
          (omega (arith, cmd_high)))
        refl (λ store h. tt)

  pub max_len_case-Passes : IsInjected v (max_len_case state) → Passes at (max_len_case state) v
  unfolding max_len_case run_scenario
  max_len_case-Passes injected =
      let c = max_len_case state in
      let (level_low, level_high) = rng_range-bounds 0 3 state (omega arith) in
      let s1 = (rng_range 0 3 state).1 in
      Does-Passes at c v _ f injected refl
        (max_len-Does v.machine.ram v.console c.bootinfo c.scratch
          (scratch-IsLoggable v c.bootinfo s1 refl (omega arith) (omega arith)
            (omega (arith, level_high)) injected.scratch)
          refl (ground arith))
        refl (λ store h. h)

  pub regs_case-Passes : IsInjected v (regs_case state) → Passes at (regs_case state) v
  unfolding regs_case run_scenario
  regs_case-Passes injected =
      let c = regs_case state in
      let s1 = (rng_u32 state).1 in
      let s2 = (rng_u32 s1).1 in
      let s3 = (rng_u32 s2).1 in
      Does-Passes at c v _ f injected refl
        (regs-Does v.machine.ram v.console c.bootinfo (rng_u32-bound state) (rng_u32-bound s1)
          (rng_u32-bound s2) (rng_u32-bound s3))
        refl (λ store h. tt)
