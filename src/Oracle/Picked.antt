-- ===== src/Oracle/Picked.antt =====
-- project_1/tests/oracle.c: the blob that it writes, and its scenarios by name.
use cs360v_cs380_projects.Prelude.{ℕ, zero, suc, List, [], ◌∷◌, ◌++◌, ◌%◌, ◌/◌, ◌^◌}
use cs360v_cs380_projects.Oracle.{Bootinfo, Case, rng_seed}
use cs360v_cs380_projects.Oracle.Cases.{
  log_one_case, log_many_case, recover_case, interleave_case, flush_case,
}
use cs360v_cs380_projects.Oracle.Probes.{
  malformed_case, boundary_case, empty_case, max_len_case, regs_case, nop_case,
}

-- The bytes of a word of 32 bits.
abbrev pub word_bytes : ℕ → List ℕ
word_bytes n = (n % 256) ∷ (n / 2 ^ 8 % 256) ∷ (n / 2 ^ 16 % 256) ∷ (n / 2 ^ 24 % 256) ∷ []

abbrev pub zeros : ℕ → List ℕ
zeros zero = []
zeros (suc n) = 0 ∷ zeros n

-- `write_blob`: the packed header, zeros up to 64 bytes, and the scratch bytes.
unfoldable pub write_blob : Bootinfo → List ℕ → List ℕ
write_blob bi scratch =
    word_bytes bi.magic
    ++ word_bytes bi.scenario
    ++ word_bytes bi.scratch_addr
    ++ word_bytes (bi.scratch_addr / 2 ^ 32)
    ++ word_bytes bi.scratch_len
    ++ word_bytes bi.level
    ++ word_bytes bi.count
    ++ word_bytes bi.arg0
    ++ word_bytes bi.arg1
    ++ zeros 28
    ++ scratch

-- The scenarios by name, less `binsafe` and `stat`.
pub data Test : Type 0 where
  log_one : Test
  level_oob : Test
  log_many : Test
  malformed : Test
  boundary : Test
  empty : Test
  max_len : Test
  regs : Test
  nop : Test
  recover : Test
  interleave : Test
  flush : Test

-- `main`, for a scenario and the state of the generator.
unfoldable pub picked : Test → ℕ → Case
picked log_one = log_one_case 64 0 3
picked level_oob = log_one_case 32 4 1000
picked log_many = log_many_case
picked malformed = malformed_case
picked boundary = boundary_case
picked empty = empty_case
picked max_len = max_len_case
picked regs = regs_case
picked nop = nop_case
picked recover = recover_case
picked interleave = interleave_case
picked flush = flush_case

unfoldable pub oracle : Test → ℕ → Case
oracle test seed = picked test (rng_seed seed)
