-- ===== src/Device/Err.antt =====
-- project_1/emulator/device.h: error codes.
use cs360v_cs380_projects.Prelude.{ℕ}

abbrev pub bad_cmd : ℕ
bad_cmd = 1

abbrev pub bad_addr : ℕ
bad_addr = 2

abbrev pub bad_len : ℕ
bad_len = 3
