-- ===== src/Device/Reg.antt =====
-- project_1/emulator/device.h: register offsets from the base of the device's region.
use cs360v_cs380_projects.Prelude.{ℕ}

abbrev pub id : ℕ
id = 0x00

abbrev pub version : ℕ
version = 0x04

abbrev pub status : ℕ
status = 0x08

abbrev pub cmd : ℕ
cmd = 0x0C

abbrev pub msg_lo : ℕ
msg_lo = 0x10

abbrev pub msg_hi : ℕ
msg_hi = 0x14

abbrev pub len : ℕ
len = 0x18

abbrev pub level : ℕ
level = 0x1C

abbrev pub seq : ℕ
seq = 0x20
