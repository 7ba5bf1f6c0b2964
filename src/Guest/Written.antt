-- ===== src/Guest/Written.antt =====
-- project_1/guest/vlog.c: what a LOG of the library leaves behind, besides the log.
use cs360v_cs380_projects.Prelude.{
  ℕ, ◌^◌, ◌<◌, ◌≡◌, refl, ◌∙◌, ap, inl, inr, arith, ◌==◌, if◌then◌else◌,
}
use cs360v_cs380_projects.Prelude.Bits.{zero-bit_or}
use cs360v_cs380_projects.Device.{Device, set_error, command, vlog_device_mmio_write}
use cs360v_cs380_projects.Device.Status.{IsDevice, IsCode, ready, failed, set_error-or}
use cs360v_cs380_projects.Device.Commands.{log_command_lem}
use cs360v_cs380_projects.Device.Registers.{mmio_write-IsDevice}
use cs360v_cs380_projects.Device.Err
use cs360v_cs380_projects.Device.Reg
use cs360v_cs380_projects.Device.Cmd
use cs360v_cs380_projects.Vmm.{Vmm}
use cs360v_cs380_projects.Guest.{returned, vlog_write}
use cs360v_cs380_projects.Guest.Driver.{
  requested, requested_addr, requested-IsDevice, carried_out, expected_code, code_returned,
  vlog_write-log_outcome,
}

-- STATUS for an error code, 0 for none.
abbrev pub shown : ℕ → ℕ
shown code = if code == 0 then ready else failed code

pub set_error-failed :
    (d : Device) (c : ℕ) → d.status ≡ ready → IsCode c → (set_error d c).status ≡ failed c
set_error-failed d c h k = set_error-or d c k (inl h) ∙ rw (h, zero-bit_or c) refl

pub carried_out-IsDevice :
    (v : Vmm) (level msg len : ℕ)
    → IsDevice v.machine.dev
    → IsDevice (carried_out v level msg len).dev
unfolding vlog_device_mmio_write command
carried_out-IsDevice v level msg len d =
    let r : IsDevice (requested v level msg len).dev = requested-IsDevice v level msg len d in
    mmio_write-IsDevice (requested v level msg len) Reg.cmd Cmd.log r
      (log_command_lem (requested v level msg len) r)

module _ (v : Vmm) (level msg len : ℕ) (wide : msg < 2 ^ 64) (len_word : len < 2 ^ 32)
    (level_word : level < 2 ^ 32) where
  pub status_after : (carried_out v level msg len).dev.status ≡ shown (expected_code msg len)
  status_after = ground (
    arith,
    requested_addr v level msg len wide,
    set_error-failed (requested v level msg len).dev Err.bad_len refl (inr (inr refl)),
    set_error-failed (requested v level msg len).dev Err.bad_addr refl (inr (inl refl)),
  )

  pub ram_after : (carried_out v level msg len).ram ≡ v.machine.ram
  ram_after = ground (arith, requested_addr v level msg len wide)

  pub vlog_write-carried_out :
      IsDevice v.machine.dev
      → vlog_write level msg len v
        ≡ returned (expected_code msg len) (record v { machine = carried_out v level msg len })
  vlog_write-carried_out d =
      vlog_write-log_outcome v level msg len d
      ∙ ap (λ c. returned c (record v { machine = carried_out v level msg len }))
          (code_returned v level msg len wide len_word level_word)
