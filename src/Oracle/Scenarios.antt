-- ===== src/Oracle/Scenarios.antt =====
-- project_1/tests/ag_guest.c: the scenarios of the test guest.
use cs360v_cs380_projects.Prelude.{ℕ, zero, suc, ◌+◌, ◌-◌, ◌==◌, if◌then◌else◌, codes, bit_or}
use cs360v_cs380_projects.Memory.{ram_base, ram_size, dev_base}
use cs360v_cs380_projects.Device.{vlog_max_msg}
use cs360v_cs380_projects.Device.Reg
use cs360v_cs380_projects.Device.Cmd
use cs360v_cs380_projects.Guest.{
  Guest, pure, ◌>>=◌, ◌>>◌, mmio_w32, mmio_r32, vlog_id, vlog_seq, vlog_status, vlog_write,
  vlog_stat,
}
use cs360v_cs380_projects.Oracle.{Bootinfo}
use cs360v_cs380_projects.Oracle.Observe.{obs, dev_err, dev_errcode}

-- The cases of `main`, by scenario.
unfoldable pub log_one : Bootinfo → Guest ℕ
log_one bi = do
  rc ← vlog_write bi.level bi.scratch_addr bi.scratch_len
  obs (codes "rc") rc
  err ← dev_err
  obs (codes "err") err
  seq ← vlog_seq
  obs (codes "seq") seq
  pure 0

-- The loop over `count`, with `err` so far.
unfoldable pub log_loop : (count : ℕ) → Bootinfo → ℕ → Guest ℕ
log_loop zero bi err = pure err
log_loop (suc n) bi err =
    vlog_write bi.level bi.scratch_addr bi.scratch_len >>= λ rc. log_loop n bi (bit_or err rc)

unfoldable pub log_many : Bootinfo → Guest ℕ
log_many bi = do
  err ← log_loop bi.count bi 0
  obs (codes "err") (if err == 0 then 0 else 1)
  seq ← vlog_seq
  obs (codes "seq") seq
  pure 0

unfoldable pub malformed : Bootinfo → Guest ℕ
malformed bi = do
  mmio_w32 (dev_base + Reg.cmd) 0x7f
  err ← dev_err
  obs (codes "err_badcmd") err
  code ← dev_errcode
  obs (codes "errcode_badcmd") code
  bad_len ← vlog_write bi.level bi.scratch_addr bi.arg0
  obs (codes "rc_badlen") bad_len
  bad_addr ← vlog_write bi.level bi.arg1 4
  obs (codes "rc_badaddr") bad_addr
  seq ← vlog_seq
  obs (codes "seq") seq
  pure 0

abbrev pub ram_top : ℕ
ram_top = ram_base + ram_size

unfoldable pub boundary : Bootinfo → Guest ℕ
boundary bi = do
  at_top ← vlog_write bi.level (ram_top - bi.arg0) bi.arg0
  obs (codes "rc_at_top") at_top
  seq ← vlog_seq
  obs (codes "seq_after_top") seq
  past_top ← vlog_write bi.level (ram_top - bi.arg0 + 1) bi.arg0
  obs (codes "rc_past_top") past_top
  seq' ← vlog_seq
  obs (codes "seq_final") seq'
  pure 0

unfoldable pub empty : Bootinfo → Guest ℕ
empty bi = do
  rc ← vlog_write bi.level bi.scratch_addr 0
  obs (codes "rc") rc
  err ← dev_err
  obs (codes "err") err
  seq ← vlog_seq
  obs (codes "seq") seq
  pure 0

unfoldable pub max_len : Bootinfo → Guest ℕ
max_len bi = do
  rc ← vlog_write bi.level bi.scratch_addr vlog_max_msg
  obs (codes "rc_max") rc
  seq ← vlog_seq
  obs (codes "seq_after_max") seq
  over ← vlog_write bi.level bi.scratch_addr (vlog_max_msg + 1)
  obs (codes "rc_over") over
  seq' ← vlog_seq
  obs (codes "seq_final") seq'
  pure 0

unfoldable pub regs : Bootinfo → Guest ℕ
regs bi = do
  mmio_w32 (dev_base + Reg.msg_lo) bi.arg0
  mmio_w32 (dev_base + Reg.msg_hi) bi.arg1
  mmio_w32 (dev_base + Reg.len) bi.count
  mmio_w32 (dev_base + Reg.level) bi.level
  lo ← mmio_r32 (dev_base + Reg.msg_lo)
  obs (codes "msg_lo") lo
  hi ← mmio_r32 (dev_base + Reg.msg_hi)
  obs (codes "msg_hi") hi
  len ← mmio_r32 (dev_base + Reg.len)
  obs (codes "len") len
  level ← mmio_r32 (dev_base + Reg.level)
  obs (codes "level") level
  mmio_w32 (dev_base + Reg.id) 0xdeadbeef
  mmio_w32 (dev_base + Reg.seq) 0x55555555
  id ← vlog_id
  obs (codes "id_after_ro") id
  seq ← vlog_seq
  obs (codes "seq_after_ro") seq
  before ← vlog_status
  mmio_w32 (dev_base + Reg.status) 0xdeadbeef
  after ← vlog_status
  obs (codes "status_ro_unchanged") (if after == before then 1 else 0)
  pure 0

-- SC_NOP, after the unknown command.
unfoldable pub nop_checks : Guest ℕ
nop_checks = do
  err ← dev_err
  obs (codes "err_after_badcmd") err
  code ← dev_errcode
  obs (codes "errcode_after_badcmd") code
  mmio_w32 (dev_base + Reg.cmd) Cmd.nop
  err' ← dev_err
  obs (codes "err_after_nop") err'
  seq ← vlog_seq
  obs (codes "seq") seq
  pure 0

unfoldable pub nop : Bootinfo → Guest ℕ
unfolding nop_checks
nop bi = mmio_w32 (dev_base + Reg.cmd) bi.arg0 >> nop_checks

unfoldable pub recover : Bootinfo → Guest ℕ
recover bi = do
  mmio_w32 (dev_base + Reg.cmd) bi.arg0
  err ← dev_err
  obs (codes "err_after_bad") err
  rc ← vlog_write bi.level bi.scratch_addr bi.scratch_len
  obs (codes "rc") rc
  err' ← dev_err
  obs (codes "err") err'
  seq ← vlog_seq
  obs (codes "seq") seq
  pure 0

unfoldable pub interleave : Bootinfo → Guest ℕ
interleave bi = do
  rc1 ← vlog_write bi.level bi.scratch_addr bi.scratch_len
  obs (codes "rc1") rc1
  rc2 ← vlog_write bi.level bi.arg1 4
  obs (codes "rc2") rc2
  rc3 ← vlog_write bi.level bi.scratch_addr bi.scratch_len
  obs (codes "rc3") rc3
  seq ← vlog_seq
  obs (codes "seq") seq
  pure 0

unfoldable pub flush : Bootinfo → Guest ℕ
flush bi = do
  rc ← vlog_write bi.level bi.scratch_addr bi.scratch_len
  obs (codes "rc_log") rc
  mmio_w32 (dev_base + Reg.cmd) Cmd.flush
  err ← dev_err
  obs (codes "err_after_flush") err
  seq ← vlog_seq
  obs (codes "seq") seq
  pure 0

-- Where the compiler puts the two blocks of SC_STAT on the stack.
pub record Locals : Type 0 where
  pub st : ℕ
  pub small : ℕ

unfoldable pub stat : Locals → Bootinfo → Guest ℕ
stat at bi = do
  _ ← log_loop bi.count bi 0
  mmio_w32 at.st 0xdeadbeef
  mmio_w32 (at.st + 4) 0xdeadbeef
  rc ← vlog_stat at.st 8
  obs (codes "stat_rc") rc
  records ← mmio_r32 at.st
  obs (codes "records") records
  bytes ← mmio_r32 (at.st + 4)
  obs (codes "bytes") bytes
  seq ← vlog_seq
  obs (codes "seq") seq
  mmio_w32 at.small 0x11111111
  mmio_w32 (at.small + 4) 0x22222222
  small ← vlog_stat at.small bi.arg0
  obs (codes "small_rc") small
  untouched ← mmio_r32 at.small
  obs (codes "small_untouched") untouched
  bad_addr ← vlog_stat bi.arg1 8
  obs (codes "badaddr_rc") bad_addr
  pure 0
