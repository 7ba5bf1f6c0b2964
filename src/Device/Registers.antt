-- ===== src/Device/Registers.antt =====
-- The two MMIO handlers of device.c as a register file, and the errors that STATUS shows.
use cs360v_cs380_projects.Prelude.{
  ℕ, ◌^◌, ◌%◌, ◌<◌, ◌≤◌, ◌≡◌, ◌≢◌, subst, inl, inr, refl, ◌∙◌, Option, none, some, arith, ◌==◌,
  if◌then◌else◌, Bool, true, false, Bool-cases, bit_or, ◌||◌,
}
use cs360v_cs380_projects.Memory.Translate.{in_ram}
use cs360v_cs380_projects.LogStore.{logstore_append}
use cs360v_cs380_projects.Device.{
  Device, Machine, fail, with_dev, msg_addr, set_error, clear_error, vlog_max_msg, command,
  log_command, stat_command, vlog_device_mmio_write, vlog_device_mmio_read,
}
use cs360v_cs380_projects.Device.Reg
use cs360v_cs380_projects.Device.Cmd
use cs360v_cs380_projects.Device.Err
use cs360v_cs380_projects.Device.Status.{
  IsDevice, IsStatus, failed, ready, code_of, set_error-IsDevice, clear_error-IsDevice,
  set_error-or, clear_error-ready,
}
use cs360v_cs380_projects.Device.Commands.{
  logged, message, log_outcome, log_command_lem, stat_command_lem,
}

-- The registers that the guest may write and read back.
abbrev pub is_operand : ℕ → Bool
is_operand r = (r == Reg.msg_lo) || (r == Reg.msg_hi) || (r == Reg.len) || (r == Reg.level)

abbrev operand_written : Device → ℕ → ℕ → Device
operand_written d r v = record d {
  msg_addr_lo = if r == Reg.msg_lo then v % 2 ^ 32 else d.msg_addr_lo;
  msg_addr_hi = if r == Reg.msg_hi then v % 2 ^ 32 else d.msg_addr_hi;
  len = if r == Reg.len then v % 2 ^ 32 else d.len;
  level = if r == Reg.level then v % 2 ^ 32 else d.level;
}

mmio_write-operand :
    (m : Machine) (r v : ℕ)
    → is_operand r ≡ true
    → vlog_device_mmio_write m r v ≡ some (with_dev m (clear_error (operand_written m.dev r v)))
unfolding vlog_device_mmio_write
mmio_write-operand m r v h = ground arith

mmio_read-operand :
    (d : Device) (r v q : ℕ)
    → is_operand r ≡ true
    → IsStatus d.status
    → vlog_device_mmio_read (clear_error (operand_written d r v)) q ≡ (
        if q == r then v % 2 ^ 32 else if q == Reg.status then ready else vlog_device_mmio_read d q)
unfolding vlog_device_mmio_read clear_error
mmio_read-operand d r v q h s = ground (arith, clear_error-ready d s)

-- A write to an operand register is read back as its low 32 bits, leaves every other register but
-- STATUS as it was, clears the error in STATUS, and touches neither RAM nor the log.
pub mmio_read-mmio_write :
    (m : Machine) (r v : ℕ)
    → is_operand r ≡ true
    → IsDevice m.dev
    → (m' : Machine) × (vlog_device_mmio_write m r v ≡ some m')
      × ((q : ℕ)
          → vlog_device_mmio_read m'.dev q ≡ (
              if q == r
              then v % 2 ^ 32
              else if q == Reg.status
              then ready
              else vlog_device_mmio_read m.dev q))
      × (m'.store ≡ m.store)
      × (m'.ram ≡ m.ram)
mmio_read-mmio_write m r v h d = (
  with_dev m (clear_error (operand_written m.dev r v)),
  mmio_write-operand m r v h,
  λ q. mmio_read-operand m.dev r v q h d.status,
  refl,
  refl,
)

-- A write to a read-only register or to an unmapped offset is ignored.
pub mmio_write-ignored :
    (m : Machine) (r v : ℕ)
    → is_operand r ≡ false
    → r ≢ Reg.cmd
    → vlog_device_mmio_write m r v ≡ some m
unfolding vlog_device_mmio_write
mmio_write-ignored m r v h n = ground arith

mmio_write-command :
    (m : Machine) (r v : ℕ) → (r == Reg.cmd) ≡ true → vlog_device_mmio_write m r v ≡ command m v
unfolding vlog_device_mmio_write
mmio_write-command m r v e = ground arith

log_outcome-IsDevice : (m : Machine) → IsDevice m.dev → IsDevice (log_outcome m).dev
log_outcome-IsDevice m v = ground (
  arith,
  set_error-IsDevice Err.bad_len (inr (inr refl)) v,
  set_error-IsDevice Err.bad_addr (inr (inl refl)) v,
)

-- What a command that does not go through NULL leaves, if it keeps the register invariant.
abbrev Keeps : Option Machine → Type 0
Keeps none = Unit
Keeps (some m) = IsDevice m.dev

log_command-Keeps : (m : Machine) → IsDevice m.dev → Keeps (log_command m)
log_command-Keeps m v = rw (log_command_lem m v) (log_outcome-IsDevice m v)

stat_command-Keeps : (m : Machine) → IsDevice m.dev → Keeps (stat_command m)
stat_command-Keeps m v = rw (stat_command_lem m v) (
    ground (
      arith,
      clear_error-IsDevice v,
      set_error-IsDevice Err.bad_len (inr (inr refl)) v,
      set_error-IsDevice Err.bad_addr (inr (inl refl)) v,
    ))

command-Keeps : (m : Machine) (v : ℕ) → IsDevice m.dev → Keeps (command m v)
unfolding command
command-Keeps m v d = ground (
  arith,
  log_command-Keeps m d,
  stat_command-Keeps m d,
  clear_error-IsDevice d,
  set_error-IsDevice Err.bad_cmd (inl refl) (clear_error-IsDevice d),
)

operand_written-IsDevice : (d : Device) (r v : ℕ) → IsDevice d → IsDevice (operand_written d r v)
operand_written-IsDevice d r v h = ground arith

mmio_write-Keeps : (m : Machine) (r v : ℕ) → IsDevice m.dev → Keeps (vlog_device_mmio_write m r v)
mmio_write-Keeps m r v d = elim (Bool-cases (is_operand r)) [
  | inl yes' ↦
      rw (mmio_write-operand m r v yes')
        (clear_error-IsDevice (operand_written-IsDevice m.dev r v d))
  | inr other ↦ elim (Bool-cases (r == Reg.cmd)) [
    | inl e ↦ rw (mmio_write-command m r v e) (command-Keeps m v d)
    | inr n ↦ rw (mmio_write-ignored m r v other (ground arith)) d
  ]
]

-- Every write that the device survives keeps its registers 32-bit words and STATUS one of READY
-- alone and READY with ERROR and one of the three codes.
pub mmio_write-IsDevice :
    (m : Machine) (r v : ℕ) {m' : Machine}
    → IsDevice m.dev
    → vlog_device_mmio_write m r v ≡ some m'
    → IsDevice m'.dev
mmio_write-IsDevice m r v d h = subst Keeps h (mmio_write-Keeps m r v d)

-- A LOG that logs leaves STATUS as it was: an error that STATUS shows outlives the success.
pub log-stale :
    (m : Machine) (c : ℕ)
    → IsDevice m.dev
    → m.dev.status ≡ failed c
    → 0 < m.dev.len
    → m.dev.len ≤ vlog_max_msg
    → in_ram (msg_addr m.dev) m.dev.len ≡ true
    → (m' : Machine) × (vlog_device_mmio_write m Reg.cmd Cmd.log ≡ some m')
      × (m'.store ≡ logstore_append m.store m.dev.seq m.dev.level (message m))
      × (m'.dev.status ≡ failed c)
unfolding vlog_device_mmio_write command
log-stale m c d s pos small inside =
    (logged m (message m), log_command_lem m d ∙ ground arith, refl, s)

-- A LOG that is refused for its address while STATUS shows BADCMD makes it show BADLEN.
pub log-wrong_code :
    (m : Machine)
    → IsDevice m.dev
    → m.dev.status ≡ failed Err.bad_cmd
    → 0 < m.dev.len
    → m.dev.len ≤ vlog_max_msg
    → in_ram (msg_addr m.dev) m.dev.len ≡ false
    → (m' : Machine) × (vlog_device_mmio_write m Reg.cmd Cmd.log ≡ some m')
      × (m'.store ≡ m.store)
      × (m'.dev.status ≡ failed Err.bad_len)
unfolding vlog_device_mmio_write command
log-wrong_code m d s pos small outside =
    let code : (set_error m.dev Err.bad_addr).status ≡ failed (bit_or (code_of m.dev.status) 2) =
      set_error-or m.dev Err.bad_addr (inr (inl refl)) d.status in
    (fail m Err.bad_addr, log_command_lem m d ∙ ground arith, refl, code ∙ rw s)
