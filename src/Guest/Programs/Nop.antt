-- ===== src/Guest/Programs/Nop.antt =====
-- project_1/guest/test_nop.c: what the program does on the machine.
use cs360v_cs380_projects.Prelude.{ℕ, ◌+◌, ◌≡◌, refl, List, ◌++◌, codes, append_assoc}
use cs360v_cs380_projects.Memory.{dev_base}
use cs360v_cs380_projects.Device.{command, clear_error, vlog_device_mmio_write}
use cs360v_cs380_projects.Device.Status.{IsDevice, ready, clear_error-ready}
use cs360v_cs380_projects.Device.Reg
use cs360v_cs380_projects.Device.Cmd
use cs360v_cs380_projects.Vmm.{Vmm, bus_store}
use cs360v_cs380_projects.Guest.{returned, mmio_w32}
use cs360v_cs380_projects.Guest.Driver.{with_device}
use cs360v_cs380_projects.Guest.Hex.{printed}
use cs360v_cs380_projects.Guest.Programs.{line, test_nop, nop_found, after_nop}
use cs360v_cs380_projects.Guest.Programs.Lines.{puts_-text, vlog_id-magic, vlog_status-status}

store_nop :
    (v : Vmm)
    → mmio_w32 (dev_base + Reg.cmd) Cmd.nop v
      ≡ returned tt (with_device v (clear_error v.machine.dev))
unfolding mmio_w32 bus_store vlog_device_mmio_write command
store_nop v = refl

abbrev ok_text : List ℕ
ok_text = line (codes "guest: nop ok") ++ line (codes "guest: done")

after_nop-ready :
    (status : ℕ) (v : Vmm) → status ≡ ready → after_nop status v ≡ returned 0 (printed v ok_text)
unfolding after_nop
after_nop-ready status v h =
    rw
      (
        h,
        puts_-text (line (codes "guest: nop ok")) v refl,
        puts_-text (line (codes "guest: done")) (printed v (line (codes "guest: nop ok"))) refl,
      )
      (rw append_assoc)

-- The text of a run that finds the device.
abbrev pub nop_text : List ℕ
nop_text = line (codes "guest: booting") ++ (line (codes "guest: device discovered") ++ ok_text)

-- On a machine with the device, whatever error that shows, test_nop.c returns 0, has put its four
-- lines on the console, and has changed nothing but the pending error.
pub test_nop-nop_text :
    (v : Vmm)
    → IsDevice v.machine.dev
    → test_nop v ≡ returned 0 (printed (with_device v (clear_error v.machine.dev)) nop_text)
unfolding test_nop nop_found
test_nop-nop_text v d =
    let v1 = printed v (line (codes "guest: booting")) in
    let v2 = printed v1 (line (codes "guest: device discovered")) in
    let v3 = with_device v2 (clear_error v.machine.dev) in
    rw
      (
        puts_-text (line (codes "guest: booting")) v refl,
        vlog_id-magic v1,
        puts_-text (line (codes "guest: device discovered")) v1 refl,
        store_nop v2,
        vlog_status-status v3,
        after_nop-ready (clear_error v.machine.dev).status v3
            (clear_error-ready v.machine.dev d.status),
      )
      (simp append_assoc)
