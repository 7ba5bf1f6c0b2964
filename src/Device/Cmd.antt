-- ===== src/Device/Cmd.antt =====
-- project_1/emulator/device.h: command codes.
use cs360v_cs380_projects.Prelude.{ℕ}

abbrev pub nop : ℕ
nop = 0

abbrev pub log : ℕ
log = 1

abbrev pub flush : ℕ
flush = 2

abbrev pub stat : ℕ
stat = 3
