-- ===== src/Oracle/Scenario.antt =====
-- project_1/tests/bootinfo.h: the codes of the scenarios.
use cs360v_cs380_projects.Prelude.{ℕ}

abbrev pub log_one : ℕ
log_one = 1

abbrev pub log_many : ℕ
log_many = 2

abbrev pub malformed : ℕ
malformed = 3

abbrev pub boundary : ℕ
boundary = 4

abbrev pub empty : ℕ
empty = 5

abbrev pub max_len : ℕ
max_len = 6

abbrev pub regs : ℕ
regs = 7

abbrev pub nop : ℕ
nop = 8

abbrev pub recover : ℕ
recover = 9

abbrev pub interleave : ℕ
interleave = 10

abbrev pub flush : ℕ
flush = 11

abbrev pub stat : ℕ
stat = 12
