-- ===== src/Oracle/Agree.antt =====
-- project_1/tests: the test guest against its oracle, for every seed.
use cs360v_cs380_projects.Prelude.{ℕ, ◌≢◌, arith}
use cs360v_cs380_projects.Vmm.{Vmm}
use cs360v_cs380_projects.Oracle.{rng_seed, rng_range}
use cs360v_cs380_projects.Oracle.Picked.{
  Test, log_one, level_oob, log_many, malformed, boundary, empty, max_len, regs, nop, recover,
  interleave, flush, picked, oracle,
}
use cs360v_cs380_projects.Oracle.Scenarios.{Locals}
use cs360v_cs380_projects.Oracle.Passes.{IsFresh, IsInjected, Passes}
use cs360v_cs380_projects.Oracle.Each.{
  log_one_case-Passes, log_many_case-Passes, interleave_case-Passes, flush_case-Passes,
  recover_case-Passes, malformed_case-Passes, boundary_case-Passes, empty_case-Passes,
  nop_case-Passes, max_len_case-Passes, regs_case-Passes,
}

-- The commands that the oracle takes for unknown are so: it may pick 3, which is STAT.
abbrev pub PicksUnknown : Test → ℕ → Type 0
PicksUnknown nop state = (rng_range 3 0xffff state).0 ≢ 3
PicksUnknown recover state = (rng_range 3 0xffff (rng_range 0 3 (rng_range 1 32 state).1).1).0 ≢ 3
PicksUnknown log_one state = Unit
PicksUnknown level_oob state = Unit
PicksUnknown log_many state = Unit
PicksUnknown malformed state = Unit
PicksUnknown boundary state = Unit
PicksUnknown empty state = Unit
PicksUnknown max_len state = Unit
PicksUnknown regs state = Unit
PicksUnknown interleave state = Unit
PicksUnknown flush state = Unit

-- For each of the twelve scenarios and every seed, wherever the compiler puts its locals: on a
-- machine with an unused device and log, and the oracle's blob in RAM, the test guest returns 0, and
-- the console has gained exactly the transcript that the oracle expects; the log holds exactly the
-- records that it expects, where it expects any. In the two scenarios that try an unknown command,
-- the command that the seed picks must not be 3.
pub oracle_agrees :
    (test : Test) (seed : ℕ) (at : Locals) (v : Vmm)
    → IsFresh v
    → IsInjected v (oracle test seed)
    → PicksUnknown test (rng_seed seed)
    → Passes at (oracle test seed) v
unfolding oracle picked
oracle_agrees log_one seed at v f i u =
    log_one_case-Passes at v f (rng_seed seed) 64 0 3 (omega arith) (omega arith) (omega arith)
      (omega arith) i
oracle_agrees level_oob seed at v f i u =
    log_one_case-Passes at v f (rng_seed seed) 32 4 1000 (omega arith) (omega arith) (omega arith)
      (omega arith) i
oracle_agrees log_many seed at v f i u = log_many_case-Passes at v f (rng_seed seed) i
oracle_agrees malformed seed at v f i u = malformed_case-Passes at v f (rng_seed seed) i
oracle_agrees boundary seed at v f i u = boundary_case-Passes at v f (rng_seed seed) i
oracle_agrees empty seed at v f i u = empty_case-Passes at v f (rng_seed seed) i
oracle_agrees max_len seed at v f i u = max_len_case-Passes at v f (rng_seed seed) i
oracle_agrees regs seed at v f i u = regs_case-Passes at v f (rng_seed seed) i
oracle_agrees nop seed at v f i u = nop_case-Passes at v f (rng_seed seed) u i
oracle_agrees recover seed at v f i u = recover_case-Passes at v f (rng_seed seed) u i
oracle_agrees interleave seed at v f i u = interleave_case-Passes at v f (rng_seed seed) i
oracle_agrees flush seed at v f i u = flush_case-Passes at v f (rng_seed seed) i
