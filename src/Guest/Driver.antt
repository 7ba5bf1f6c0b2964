-- ===== src/Guest/Driver.antt =====
-- The guest's library against the device: what its calls return and what they leave behind.
use cs360v_cs380_projects.Prelude.{
  ℕ, ◌+◌, ◌-◌, ◌/◌, ◌^◌, ◌%◌, ◌<◌, ◌≡◌, ◌≢◌, refl, ◌∙◌, ap, inl, inr, arith, ltb, ◌==◌,
  if◌then◌else◌, bit_and, u32_mod,
}
use cs360v_cs380_projects.Prelude.Bits.{zero-bit_or}
use cs360v_cs380_projects.LogStore.{logstore_append}
use cs360v_cs380_projects.Memory.{ram_base, dev_base, load_bytes}
use cs360v_cs380_projects.Memory.Translate.{in_ram}
use cs360v_cs380_projects.Device.{
  Device, Machine, vlog_max_msg, msg_addr, vlog_device_mmio_write, vlog_device_mmio_read, command,
  clear_error, set_error,
}
use cs360v_cs380_projects.Device.Status.{
  IsDevice, IsStatus, ready, failed, msg_addr-sum, set_error-or, IsCode,
}
use cs360v_cs380_projects.Device.Commands.{log_outcome, log_command_lem}
use cs360v_cs380_projects.Device.Err
use cs360v_cs380_projects.Device.Reg
use cs360v_cs380_projects.Device.Cmd
use cs360v_cs380_projects.Vmm.{Vmm, bus_store, bus_value}
use cs360v_cs380_projects.Guest.{returned, vlog_write, mmio_w32, mmio_r32, result_of}

-- The device once the library has set the operands of a LOG.
abbrev pub operands_set : Device → ℕ → ℕ → ℕ → Device
operands_set d level msg len = record d {
  status = ready;
  msg_addr_lo = msg % 2 ^ 32;
  msg_addr_hi = msg / 2 ^ 32 % 2 ^ 32;
  len = len % 2 ^ 32;
  level = level % 2 ^ 32;
}

abbrev pub requested : Vmm → ℕ → ℕ → ℕ → Machine
requested v level msg len = record (v.machine) { dev = operands_set v.machine.dev level msg len }

abbrev pub with_device : Vmm → Device → Vmm
with_device v d = record v { machine = record (v.machine) { dev = d } }

cleared : (s : ℕ) → IsStatus s → bit_and s 0xffff00fb ≡ ready
cleared s (inl e) = rw e
cleared s (inr (inl e)) = rw e
cleared s (inr (inr (inl e))) = rw e
cleared s (inr (inr (inr e))) = rw e

module _ (val : ℕ) (v : Vmm) (h : IsStatus v.machine.dev.status) where
  twice : val % u32_mod % u32_mod ≡ val % 2 ^ 32
  twice = omega arith

  pub store_lo :
      mmio_w32 (dev_base + Reg.msg_lo) val v
      ≡ returned tt
          (with_device v (record (v.machine.dev) { status = ready; msg_addr_lo = val % 2 ^ 32 }))
  unfolding mmio_w32 bus_store vlog_device_mmio_write clear_error
  store_lo = rw (cleared v.machine.dev.status h, twice)

  pub store_hi :
      mmio_w32 (dev_base + Reg.msg_hi) val v
      ≡ returned tt
          (with_device v (record (v.machine.dev) { status = ready; msg_addr_hi = val % 2 ^ 32 }))
  unfolding mmio_w32 bus_store vlog_device_mmio_write clear_error
  store_hi = rw (cleared v.machine.dev.status h, twice)

  pub store_len :
      mmio_w32 (dev_base + Reg.len) val v
      ≡ returned tt (with_device v (record (v.machine.dev) { status = ready; len = val % 2 ^ 32 }))
  unfolding mmio_w32 bus_store vlog_device_mmio_write clear_error
  store_len = rw (cleared v.machine.dev.status h, twice)

  pub store_level :
      mmio_w32 (dev_base + Reg.level) val v
      ≡ returned tt
          (with_device v (record (v.machine.dev) { status = ready; level = val % 2 ^ 32 }))
  unfolding mmio_w32 bus_store vlog_device_mmio_write clear_error
  store_level = rw (cleared v.machine.dev.status h, twice)

store_log :
    (v : Vmm)
    → IsDevice v.machine.dev
    → mmio_w32 (dev_base + Reg.cmd) Cmd.log v
      ≡ returned tt (record v { machine = log_outcome v.machine })
unfolding mmio_w32 bus_store vlog_device_mmio_write command
store_log v d = rw (log_command_lem v.machine d, vlog_device_mmio_write)

pub read_status : (v : Vmm) → mmio_r32 (dev_base + Reg.status) v ≡ returned v.machine.dev.status v
unfolding mmio_r32 bus_value vlog_device_mmio_read
read_status v = refl

pub requested-IsDevice :
    (v : Vmm) (level msg len : ℕ)
    → IsDevice v.machine.dev
    → IsDevice (requested v level msg len).dev
requested-IsDevice v level msg len d = ground arith

-- A LOG of the library is the device's LOG on a device without a pending error.
pub vlog_write-log_outcome :
    (v : Vmm) (level msg len : ℕ)
    → IsDevice v.machine.dev
    → let m = log_outcome (requested v level msg len) in
      vlog_write level msg len v ≡ returned (result_of m.dev.status) (record v { machine = m })
unfolding vlog_write
vlog_write-log_outcome v level msg len d =
    let d1 : Device = record (v.machine.dev) { status = ready; msg_addr_lo = msg % 2 ^ 32 } in
    let d2 : Device = record d1 { msg_addr_hi = msg / 2 ^ 32 % 2 ^ 32 } in
    let d3 : Device = record d2 { len = len % 2 ^ 32 } in
    let d4 : Device = record d3 { level = level % 2 ^ 32 } in
    let m : Machine = log_outcome (requested v level msg len) in
    rw (
      store_lo msg v d.status,
      store_hi (msg / 2 ^ 32) (with_device v d1) (inl refl),
      store_len len (with_device v d2) (inl refl),
      store_level level (with_device v d3) (inl refl),
      store_log (with_device v d4) (requested-IsDevice v level msg len d),
      read_status (record v { machine = m }),
    )

pub result_of-ready : result_of ready ≡ 0
unfolding result_of
result_of-ready = refl

pub result_of-failed : (c : ℕ) → IsCode c → result_of (failed c) ≡ c
unfolding result_of
result_of-failed c (inl e) = rw e
result_of-failed c (inr (inl e)) = rw e
result_of-failed c (inr (inr e)) = rw e

-- The code that an error of a command shows, where no error was pending.
pub result_of-set_error :
    (d : Device) (c : ℕ) → d.status ≡ ready → IsCode c → result_of (set_error d c).status ≡ c
result_of-set_error d c h k =
    ap result_of (set_error-or d c k (inl h)) ∙ rw (h, zero-bit_or c) (result_of-failed c k)

-- What a LOG request of the guest comes to.
abbrev pub expected_code : ℕ → ℕ → ℕ
expected_code msg len =
    if ltb vlog_max_msg len
    then Err.bad_len
    else if len == 0
    then (if msg == 0 then Err.bad_addr else 0)
    else if in_ram msg len
    then 0
    else Err.bad_addr

pub requested_addr :
    (v : Vmm) (level msg len : ℕ) → msg < 2 ^ 64 → msg_addr (requested v level msg len).dev ≡ msg
requested_addr v level msg len h =
    msg_addr-sum (requested v level msg len).dev (omega arith) (omega arith) ∙ omega arith

-- The machine once the request is carried out.
abbrev pub carried_out : Vmm → ℕ → ℕ → ℕ → Machine
carried_out v level msg len = log_outcome (requested v level msg len)

module _ (v : Vmm) (level msg len : ℕ) (wide : msg < 2 ^ 64) (len_word : len < 2 ^ 32)
    (level_word : level < 2 ^ 32) where
  pub code_returned : result_of (carried_out v level msg len).dev.status ≡ expected_code msg len
  code_returned = ground (
    arith,
    requested_addr v level msg len wide,
    result_of-ready,
    result_of-set_error (requested v level msg len).dev Err.bad_len refl (inr (inr refl)),
    result_of-set_error (requested v level msg len).dev Err.bad_addr refl (inr (inl refl)),
  )

  pub store_if_ok :
      expected_code msg len ≡ 0
      → (carried_out v level msg len).store
        ≡ logstore_append v.machine.store v.machine.dev.seq level
            (load_bytes v.machine.ram (msg - ram_base) len)
  unfolding load_bytes
  store_if_ok h = ground (arith, requested_addr v level msg len wide)

  pub store_if_error :
      expected_code msg len ≢ 0 → (carried_out v level msg len).store ≡ v.machine.store
  store_if_error h = ground (arith, requested_addr v level msg len wide)

  pub seq_after :
      (carried_out v level msg len).dev.seq
      ≡ (if expected_code msg len == 0 then (v.machine.dev.seq + 1) % 2 ^ 32 else v.machine.dev.seq)
  unfolding set_error
  seq_after = ground (arith, requested_addr v level msg len wide)

-- A LOG of the library, for any message address, length and level that fit their words, and
-- whatever error the device still showed: it returns 3 for a length above 4096, 2 for a range that
-- is not wholly in guest RAM (at length 0, for the address 0 alone), and 0 otherwise. With 0 the
-- log has gained one record, with the message's bytes, and the sequence number has advanced; with
-- an error neither has changed.
pub vlog_write_lem :
    (v : Vmm) (level msg len : ℕ)
    → msg < 2 ^ 64
    → len < 2 ^ 32
    → level < 2 ^ 32
    → IsDevice v.machine.dev
    → (v' : Vmm) × (vlog_write level msg len v ≡ returned (expected_code msg len) v')
      × (expected_code msg len ≡ 0
          → v'.machine.store
            ≡ logstore_append v.machine.store v.machine.dev.seq level
                (load_bytes v.machine.ram (msg - ram_base) len))
      × (expected_code msg len ≢ 0 → v'.machine.store ≡ v.machine.store)
      × (v'.machine.dev.seq ≡ (
          if expected_code msg len == 0
          then (v.machine.dev.seq + 1) % 2 ^ 32
          else v.machine.dev.seq))
vlog_write_lem v level msg len wide len_word level_word d = (
  record v { machine = carried_out v level msg len },
  vlog_write-log_outcome v level msg len d
      ∙ ap (λ c. returned c (record v { machine = carried_out v level msg len }))
          (code_returned v level msg len wide len_word level_word),
  store_if_ok v level msg len wide len_word level_word,
  store_if_error v level msg len wide len_word level_word,
  seq_after v level msg len wide len_word level_word,
)
