-- ===== src/Device.antt =====
-- project_1/emulator/device.h and device.c: the MMIO logging device. A handler takes the machine
-- that the device sees (its registers, guest RAM and the log store) and returns the next one;
-- `none` is a write through a NULL host pointer, which takes the emulator down.
pub mod Reg
pub mod Cmd
pub mod Err
pub mod Status
pub mod Commands
pub mod Registers
mod Tests
use cs360v_cs380_projects.Prelude.{
  ℕ, ◌+◌, ◌-◌, ◌*◌, ◌/◌, ◌%◌, ◌^◌, ltb, leb, ◌==◌, if◌then◌else◌, Option, none, some, List, [],
  bit_and, bit_or, u32_mod, u64_mod, Bool, ◌&&◌, ◌||◌,
}
use cs360v_cs380_projects.Memory.{Memory, ram_base, ram_size, vmm_gpa_to_host, load_bytes, store32}
use Reg
use Cmd
use Err
use cs360v_cs380_projects.LogStore.{LogStore, logstore_append, logstore_flush}

abbrev pub vlog_magic : ℕ
vlog_magic = 0x31474C56

abbrev pub vlog_version : ℕ
vlog_version = 1

abbrev pub vlog_max_msg : ℕ
vlog_max_msg = 4096

abbrev pub status_ready : ℕ
status_ready = 1

abbrev pub status_error : ℕ
status_error = 4

-- `sizeof(struct vlog_stats)`: two 32-bit words.
abbrev pub stats_size : ℕ
stats_size = 8

-- `struct vlog_device`, less its pointer to the VMM.
pub record Device : Type 0 where
  pub status : ℕ
  pub msg_addr_lo : ℕ
  pub msg_addr_hi : ℕ
  pub len : ℕ
  pub level : ℕ
  pub seq : ℕ
  pub bytes : ℕ

-- The device with what it reaches through `dev->vmm`.
pub record Machine : Type 0 where
  pub dev : Device
  pub ram : Memory
  pub store : LogStore

abbrev pub with_dev : Machine → Device → Machine
with_dev m d = record m { dev = d }

unfoldable pub msg_addr : Device → ℕ
msg_addr dev = bit_or dev.msg_addr_lo (dev.msg_addr_hi * 2 ^ 32 % u64_mod)

unfoldable pub set_error : Device → ℕ → Device
set_error dev code = record dev {
  status = bit_or dev.status (bit_or status_error (code * 2 ^ 8 % u32_mod));
}

-- `~x` of a 32-bit word is `2^32 - 1 - x`.
unfoldable pub clear_error : Device → Device
clear_error dev = record dev {
  status = bit_and dev.status (u32_mod - 1 - bit_or status_error (0xff * 2 ^ 8 % u32_mod));
}

unfoldable pub vlog_device_init : Device
vlog_device_init = record {
  status = status_ready;
  msg_addr_lo = 0;
  msg_addr_hi = 0;
  len = 0;
  level = 1;
  seq = 0;
  bytes = 0;
}

unfoldable pub vlog_device_mmio_read : Device → ℕ → ℕ
vlog_device_mmio_read dev offset =
    if offset == Reg.id
    then vlog_magic
    else if offset == Reg.version
    then vlog_version
    else if offset == Reg.status
    then dev.status
    else if offset == Reg.msg_lo
    then dev.msg_addr_lo
    else if offset == Reg.msg_hi
    then dev.msg_addr_hi
    else if offset == Reg.len
    then dev.len
    else if offset == Reg.level
    then dev.level
    else if offset == Reg.seq
    then dev.seq
    else 0

abbrev pub fail : Machine → ℕ → Machine
fail m code = with_dev m (set_error m.dev code)

-- `++dev->seq` after a record.
abbrev pub advance_seq : Device → Device
advance_seq dev = record dev { seq = (dev.seq + 1) % u32_mod }

-- `case VLOG_CMD_LOG`. The address subtractions stand behind the tests that keep them from
-- wrapping.
unfoldable pub log_command : Machine → Option Machine
log_command m =
    let dev = m.dev in
    let addr = msg_addr dev in
    if ltb vlog_max_msg dev.len
    then some (fail m Err.bad_len)
    else if addr == 0
    then some (fail m Err.bad_addr)
    else if ltb 0 dev.len && (ltb addr ram_base || ltb ((addr + dev.len) % u64_mod) ram_base)
    then some (fail m Err.bad_addr)
    else if ltb 0 dev.len
        && (leb ram_size (addr - ram_base) || ltb (ram_size - (addr - ram_base)) dev.len)
    then some (fail m Err.bad_addr)
    else if dev.len == 0
    then some
        (record m { dev = advance_seq dev; store = logstore_append m.store dev.seq dev.level [] })
    else if leb dev.len vlog_max_msg && ltb 0 dev.len
    then elim (vmm_gpa_to_host (msg_addr dev) dev.len) [
      | none ↦ none
      | some p ↦ some (record m {
        dev = record (advance_seq dev) { bytes = (dev.bytes + dev.len) % u32_mod };
        store = logstore_append m.store dev.seq dev.level (load_bytes m.ram p dev.len);
      })
    ]
    else some m

-- `case VLOG_CMD_STAT`.
unfoldable pub stat_command : Machine → Option Machine
stat_command m =
    let dev = m.dev in
    let addr = msg_addr dev in
    if ltb dev.len stats_size
    then some (fail m Err.bad_len)
    else if addr == 0
    then some (fail m Err.bad_addr)
    else if ltb addr ram_base || ltb ((stats_size + addr) % u64_mod) ram_base
    then some (fail m Err.bad_addr)
    else if ltb ram_size (addr - ram_base) || ltb (ram_size - (addr - ram_base)) stats_size
    then some (fail m Err.bad_addr)
    else elim (vmm_gpa_to_host (msg_addr dev) dev.len) [
      | none ↦ none
      | some p ↦ some (record m {
        dev = clear_error dev;
        ram = store32 (store32 m.ram p dev.seq) (p + 4) dev.bytes;
      })
    ]

-- The inner `switch(value)`.
unfoldable pub command : Machine → ℕ → Option Machine
unfolding log_command stat_command
command m value =
    if value == Cmd.nop
    then some (with_dev m (clear_error m.dev))
    else if value == Cmd.log
    then log_command m
    else if value == Cmd.flush
    then some (record m { dev = clear_error m.dev; store = logstore_flush m.store })
    else if value == Cmd.stat
    then stat_command m
    else some (with_dev m (set_error (clear_error m.dev) Err.bad_cmd))

unfoldable pub vlog_device_mmio_write : Machine → ℕ → ℕ → Option Machine
vlog_device_mmio_write m offset value =
    let dev = m.dev in
    let word = value % u32_mod in
    if offset == Reg.msg_lo
    then some (with_dev m (clear_error (record dev { msg_addr_lo = word })))
    else if offset == Reg.msg_hi
    then some (with_dev m (clear_error (record dev { msg_addr_hi = word })))
    else if offset == Reg.len
    then some (with_dev m (clear_error (record dev { len = word })))
    else if offset == Reg.level
    then some (with_dev m (clear_error (record dev { level = word })))
    else if offset == Reg.cmd
    then command m value
    else some m
