-- ===== src/Oracle/Writes.antt =====
-- project_1/tests/ag_guest.c: the commands that it gives to the device.
use cs360v_cs380_projects.Prelude.{
  ℕ, suc, ◌+◌, ◌-◌, ◌%◌, ◌^◌, ◌<◌, ◌≤◌, ◌≡◌, ◌≢◌, refl, ◌∙◌, ap, sym, inl, List, [], ◌∷◌, ◌++◌,
  arith, ◌==◌, if◌then◌else◌, append-nil,
}
use cs360v_cs380_projects.Memory.{Memory, ram_base, dev_base, load_bytes}
use cs360v_cs380_projects.LogStore.{
  LogStore, Entry, entry, logstore_open, append_all, logstore_append, logstore_flush,
}
use cs360v_cs380_projects.LogStore.Records.{text_of, append_all_text}
use cs360v_cs380_projects.Device.{command, clear_error, set_error, vlog_device_mmio_write}
use cs360v_cs380_projects.Device.Status.{
  clear_error-ready, clear_error-IsDevice, set_error-IsDevice,
}
use cs360v_cs380_projects.Device.Err
use cs360v_cs380_projects.Device.Reg
use cs360v_cs380_projects.Device.Cmd
use cs360v_cs380_projects.Vmm.{Vmm, bus_store}
use cs360v_cs380_projects.Guest.{returned, mmio_w32, vlog_write}
use cs360v_cs380_projects.Guest.Driver.{
  expected_code, carried_out, store_if_ok, store_if_error, seq_after, with_device,
}
use cs360v_cs380_projects.Guest.Written.{
  set_error-failed, carried_out-IsDevice, status_after, ram_after, vlog_write-carried_out, shown,
}
use cs360v_cs380_projects.Oracle.Steps.{Seen, Looks, Does}

append_all-append :
    (es : List Entry) (ls : LogStore) (e : Entry)
    → append_all ls (es ++ e ∷ []) ≡ logstore_append (append_all ls es) e.seq e.level e.bytes
unfolding append_all
append_all-append [] ls e = refl
append_all-append (x ∷ es) ls e = append_all-append es (logstore_append ls x.seq x.level x.bytes) e

-- One more record, under the next number.
abbrev pub recorded : Seen → ℕ → List ℕ → Seen
recorded s level text = record s {
  seq = (s.seq + 1) % 2 ^ 32;
  code = 0;
  log = s.log ++ entry s.seq level text ∷ [];
}

abbrev pub with_code : Seen → ℕ → Seen
with_code s code = record s { code = code }

module _ (ram : Memory) (before : List ℕ) where
  -- A LOG that the device accepts.
  pub log-Does :
      (s : Seen) (level msg len : ℕ) (text : List ℕ)
      → msg < 2 ^ 64
      → len < 2 ^ 32
      → level < 2 ^ 32
      → expected_code msg len ≡ 0
      → load_bytes ram (msg - ram_base) len ≡ text
      → Does ram before (vlog_write level msg len) 0 s (recorded s level text)
  log-Does s level msg len text wide len_word level_word ok held v l =
      let stored : (carried_out v level msg len).store
          ≡ append_all logstore_open (s.log ++ entry s.seq level text ∷ []) =
        store_if_ok v level msg len wide len_word level_word ok
        ∙ (λ i.
            logstore_append (l.store i) (l.seq i) level
              (load_bytes (l.memory i) (msg - ram_base) len))
        ∙ ap (logstore_append (append_all logstore_open s.log) s.seq level) held
        ∙ sym (append_all-append s.log logstore_open (entry s.seq level text)) in
      let number : (carried_out v level msg len).dev.seq ≡ (v.machine.dev.seq + 1) % 2 ^ 32 =
        seq_after v level msg len wide len_word level_word
        ∙ ap (λ c. if c == 0 then (v.machine.dev.seq + 1) % 2 ^ 32 else v.machine.dev.seq) ok in
      (
        record v { machine = carried_out v level msg len },
        vlog_write-carried_out v level msg len wide len_word level_word l.device
            ∙ ap (λ c. returned c (record v { machine = carried_out v level msg len })) ok,
        record {
          device = carried_out-IsDevice v level msg len l.device;
          seq = number ∙ ap (λ n. (n + 1) % 2 ^ 32) l.seq;
          status = status_after v level msg len wide len_word level_word ∙ ap shown ok;
          code = omega arith;
          memory = ram_after v level msg len wide len_word level_word ∙ l.memory;
          console = l.console;
          store = stored;
        },
      )

  -- A LOG that it refuses with `code`.
  pub refused-Does :
      (s : Seen) (level msg len code : ℕ)
      → msg < 2 ^ 64
      → len < 2 ^ 32
      → level < 2 ^ 32
      → expected_code msg len ≡ suc code
      → code < 3
      → Does ram before (vlog_write level msg len) (suc code) s (with_code s (suc code))
  refused-Does s level msg len code wide len_word level_word bad small v l =
      let error : expected_code msg len ≢ 0 = λ e. absurd (omega (arith, e, bad)) in
      (
        record v { machine = carried_out v level msg len },
        vlog_write-carried_out v level msg len wide len_word level_word l.device
            ∙ ap (λ c. returned c (record v { machine = carried_out v level msg len })) bad,
        record {
          device = carried_out-IsDevice v level msg len l.device;
          seq =
              seq_after v level msg len wide len_word level_word
              ∙ ap (λ c. if c == 0 then (v.machine.dev.seq + 1) % 2 ^ 32 else v.machine.dev.seq) bad
              ∙ ground (arith, l.seq);
          status = status_after v level msg len wide len_word level_word ∙ ap shown bad;
          code = omega arith;
          memory = ram_after v level msg len wide len_word level_word ∙ l.memory;
          console = l.console;
          store = store_if_error v level msg len wide len_word level_word error ∙ l.store;
        },
      )

  -- NOP, FLUSH and an unknown command.
  pub nop_command-Does :
      (s : Seen) → Does ram before (mmio_w32 (dev_base + Reg.cmd) Cmd.nop) tt s (with_code s 0)
  unfolding mmio_w32 bus_store vlog_device_mmio_write command
  nop_command-Does s v l = (
    with_device v (clear_error v.machine.dev),
    refl,
    record {
      device = clear_error-IsDevice l.device;
      seq = unfold clear_error in l.seq;
      status = clear_error-ready v.machine.dev l.device.status;
      code = omega arith;
      memory = l.memory;
      console = l.console;
      store = l.store;
    },
  )

  flush_nothing :
      (s : Seen) (v : Vmm)
      → Looks ram before s v
      → logstore_flush v.machine.store ≡ append_all logstore_open s.log
  unfolding logstore_flush
  flush_nothing s v l =
      ap logstore_flush (l.store ∙ append_all_text s.log logstore_open refl)
      ∙ ap (λ d. record { disk = d; pending = [] }) (append-nil (text_of s.log))
      ∙ sym (append_all_text s.log logstore_open refl)

  pub flush_command-Does :
      (s : Seen) → Does ram before (mmio_w32 (dev_base + Reg.cmd) Cmd.flush) tt s (with_code s 0)
  unfolding mmio_w32 bus_store vlog_device_mmio_write command
  flush_command-Does s v l = (
    record v {
      machine = record (v.machine) {
        dev = clear_error v.machine.dev;
        store = logstore_flush v.machine.store;
      };
    },
    refl,
    record {
      device = clear_error-IsDevice l.device;
      seq = unfold clear_error in l.seq;
      status = clear_error-ready v.machine.dev l.device.status;
      code = omega arith;
      memory = l.memory;
      console = l.console;
      store = flush_nothing s v l;
    },
  )

  pub bad_command-Does :
      (s : Seen) (c : ℕ)
      → 4 ≤ c
      → c < 2 ^ 32
      → Does ram before (mmio_w32 (dev_base + Reg.cmd) c) tt s (with_code s Err.bad_cmd)
  unfolding mmio_w32 bus_store vlog_device_mmio_write command
  bad_command-Does s c big word v l = (
    with_device v (set_error (clear_error v.machine.dev) Err.bad_cmd),
    ground arith,
    record {
      device = set_error-IsDevice Err.bad_cmd (inl refl) (clear_error-IsDevice l.device);
      seq = unfold clear_error in unfold set_error in l.seq;
      status =
          set_error-failed (clear_error v.machine.dev) Err.bad_cmd
            (clear_error-ready v.machine.dev l.device.status) (inl refl);
      code = omega arith;
      memory = l.memory;
      console = l.console;
      store = l.store;
    },
  )
