-- ===== src/Device/Commands.antt =====
-- The commands LOG and STAT of device.c against descriptions over unbounded numbers.
use cs360v_cs380_projects.Prelude.{
  ℕ, ◌+◌, ◌-◌, ◌%◌, ◌≡◌, none, some, arith, ltb, ◌==◌, if◌then◌else◌, List, [], u32_mod,
}
use cs360v_cs380_projects.Memory.{ram_base, load_bytes, store32}
use cs360v_cs380_projects.Memory.Translate.{in_ram, vmm_gpa_to_host-in_ram}
use cs360v_cs380_projects.LogStore.{logstore_append}
use cs360v_cs380_projects.Device.{
  Machine, fail, advance_seq, msg_addr, clear_error, vlog_max_msg, stats_size, log_command,
  stat_command,
}
use cs360v_cs380_projects.Device.Err
use cs360v_cs380_projects.Device.Status.{IsDevice, msg_addr-sum}

-- The machine once a record with these bytes is logged.
abbrev pub logged : Machine → List ℕ → Machine
logged m bytes = record m {
  dev = record (advance_seq m.dev) { bytes = (m.dev.bytes + m.dev.len) % u32_mod };
  store = logstore_append m.store m.dev.seq m.dev.level bytes;
}

-- The address range `[addr, addr + len)` in RAM, as bytes.
abbrev pub message : Machine → List ℕ
message m = load_bytes m.ram (msg_addr m.dev - ram_base) m.dev.len

abbrev pub log_outcome : Machine → Machine
log_outcome m =
    if ltb vlog_max_msg m.dev.len
    then fail m Err.bad_len
    else if m.dev.len == 0
    then (if msg_addr m.dev == 0 then fail m Err.bad_addr else logged m [])
    else if in_ram (msg_addr m.dev) m.dev.len
    then logged m (message m)
    else fail m Err.bad_addr

-- LOG never goes through a NULL pointer, and does one of three things: it refuses a length above
-- 4096, it refuses a range that is not wholly in guest RAM (at length 0, only the address 0),
-- or it appends one record with the message's bytes, level and number and counts it.
pub log_command_lem : (m : Machine) → IsDevice m.dev → log_command m ≡ some (log_outcome m)
unfolding log_command
log_command_lem m v =
    ground (arith, msg_addr-sum m.dev v.lo v.hi, vmm_gpa_to_host-in_ram (msg_addr m.dev) m.dev.len)

abbrev pub stats_written : Machine → Machine
stats_written m = record m {
  dev = clear_error m.dev;
  ram =
      store32 (store32 m.ram (msg_addr m.dev - ram_base) m.dev.seq) (msg_addr m.dev - ram_base + 4)
        m.dev.bytes;
}

-- STAT refuses a length below 8 and a block of 8 bytes that is not wholly in guest RAM. Else it
-- writes the block if the whole offered buffer is in RAM, and goes through a NULL pointer if not.
pub stat_command_lem :
    (m : Machine)
    → IsDevice m.dev
    → stat_command m ≡ (
        if ltb m.dev.len stats_size
        then some (fail m Err.bad_len)
        else if in_ram (msg_addr m.dev) stats_size
        then (if in_ram (msg_addr m.dev) m.dev.len then some (stats_written m) else none)
        else some (fail m Err.bad_addr))
unfolding stat_command
stat_command_lem m v =
    ground (arith, msg_addr-sum m.dev v.lo v.hi, vmm_gpa_to_host-in_ram (msg_addr m.dev) m.dev.len)
