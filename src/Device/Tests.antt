-- ===== src/Device/Tests.antt =====
-- The device on concrete machines.
use cs360v_cs380_projects.Prelude.{ℕ, ◌%◌, arith}
use cs360v_cs380_projects.Memory.{ram_base}
use cs360v_cs380_projects.LogStore.{logstore_open}
use cs360v_cs380_projects.Device.{
  Device, Machine, log_command, vlog_device_mmio_write, msg_addr, command,
}
use cs360v_cs380_projects.Device.Err
use cs360v_cs380_projects.Device.Reg
use cs360v_cs380_projects.Device.Cmd
use cs360v_cs380_projects.Device.Status.{IsDevice, ready, failed}
use cs360v_cs380_projects.Device.Commands.{log_outcome, log_command_lem}
use cs360v_cs380_projects.Device.Registers.{mmio_write-IsDevice}

abbrev device_at : (status addr len : ℕ) → Device
device_at status addr len = record {
  status = status;
  msg_addr_lo = addr;
  msg_addr_hi = 0;
  len = len;
  level = 2;
  seq = 7;
  bytes = 30;
}

abbrev machine_with : Device → Machine
machine_with d = record { dev = d; ram = λ q. q % 256; store = logstore_open }

-- A message of 5 bytes at the start of RAM, with BADCMD still shown.
abbrev stale : Machine
stale = machine_with (device_at (failed Err.bad_cmd) ram_base 5)

-- The same with a message that lies below RAM.
abbrev below : Machine
below = machine_with (device_at (failed Err.bad_cmd) 16 5)

-- A buffer of 16 bytes whose last 8 lie above RAM.
abbrev overrunning : Machine
overrunning = machine_with (device_at ready 0x10ffff8 16)

stale-IsDevice : IsDevice stale.dev
stale-IsDevice = ground arith

below-IsDevice : IsDevice below.dev
below-IsDevice = ground arith

overrunning-IsDevice : IsDevice overrunning.dev
overrunning-IsDevice = ground arith

mmio_write-IsDevice_example : IsDevice (log_outcome stale).dev
unfolding vlog_device_mmio_write log_command command msg_addr
mmio_write-IsDevice_example =
    mmio_write-IsDevice stale Reg.cmd Cmd.log {m' = log_outcome stale} stale-IsDevice
      (log_command_lem stale stale-IsDevice)
