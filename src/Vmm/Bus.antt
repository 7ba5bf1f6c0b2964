-- ===== src/Vmm/Bus.antt =====
-- Running a guest in vmm.c: what stops the machine, what it exits with, what it survives.
use cs360v_cs380_projects.Prelude.{
  ℕ, ◌+◌, ◌-◌, ◌^◌, ◌%◌, ◌≡◌, ◌≢◌, refl, sym, ◌∙◌, Option, none, some, arith, List, [], ◌∷◌, ◌++◌,
  Bool, true, false, ◌||◌, not, All,
}
use cs360v_cs380_projects.Memory.{ram_base, ram_size, serial_base, serial_size, dev_base, dev_size}
use cs360v_cs380_projects.Device.{Machine, vlog_device_mmio_write, command}
use cs360v_cs380_projects.Device.Reg
use cs360v_cs380_projects.Device.Cmd
use cs360v_cs380_projects.Device.Status.{IsDevice}
use cs360v_cs380_projects.Device.Commands.{log_command_lem}
use cs360v_cs380_projects.Device.Registers.{mmio_write-IsDevice}
use cs360v_cs380_projects.Vmm.{
  Vmm, Access, store, load, access, bus_store, bus_load, serial_write, mem_invalid, emulate, Ended,
  stopped, cpu_error, vmm_run, run_status, within, serial_poweroff, set_rip, vmm_exit_fault,
  with_machine,
}

-- No region holds the address.
abbrev pub is_unmapped : ℕ → Bool
is_unmapped addr = not (
    within addr ram_base ram_size
    || within addr serial_base serial_size
    || within addr dev_base dev_size)

-- The accesses `before` run through: none of them stops the CPU (an end by an error of the CPU's
-- own is told apart from a stop).
abbrev pub RunsThrough : Vmm → List Access → Vmm → Type 0
RunsThrough v before v' = emulate v before cpu_error ≡ some (v', cpu_error)

-- The loop after its first access.
abbrev after : Option (Vmm × Bool) → List Access → Ended → Option (Vmm × Ended)
after none rest e = none
after (some (v, true)) rest e = some (v, stopped)
after (some (v, false)) rest e = emulate v rest e

emulate-after :
    (v : Vmm) (a : Access) (rest : List Access) (e : Ended)
    → emulate v (a ∷ rest) e ≡ after (access v a) rest e
unfolding emulate
emulate-after v a rest e = ground arith

stop_after :
    (o : Option (Vmm × Bool)) (before : List Access) {v1 v2 : Vmm} (a : Access) (rest : List Access)
    (e : Ended)
    → ((v : Vmm) → RunsThrough v before v1 → emulate v (before ++ a ∷ rest) e ≡ some (v2, stopped))
    → after o before cpu_error ≡ some (v1, cpu_error)
    → after o (before ++ a ∷ rest) e ≡ some (v2, stopped)
stop_after none before a rest e ih r = cc
stop_after (some (v, true)) before a rest e ih r = cc
stop_after (some (v, false)) before a rest e ih r = ih v r

-- One access that stops the CPU, after a run that does not.
emulate-stop :
    (before : List Access) (v : Vmm) {v1 v2 : Vmm} (a : Access) (rest : List Access) (e : Ended)
    → RunsThrough v before v1
    → access v1 a ≡ some (v2, true)
    → emulate v (before ++ a ∷ rest) e ≡ some (v2, stopped)
unfolding emulate
emulate-stop [] v a rest e r s = ground arith
emulate-stop (b ∷ before) v a rest e r s =
    emulate-after v b (before ++ a ∷ rest) e
    ∙ stop_after (access v b) before a rest e (λ w k. emulate-stop before w a rest e k s)
        (sym (emulate-after v b before cpu_error) ∙ r)

vmm_run-stop :
    (v : Vmm) (before : List Access) {v1 v2 : Vmm} (a : Access) (rest : List Access) (e : Ended)
    → RunsThrough (set_rip v ram_base) before v1
    → access v1 a ≡ some (v2, true)
    → vmm_run v (before ++ a ∷ rest) e ≡ some (v2, run_status v2 stopped)
unfolding vmm_run
vmm_run-stop v before a rest e r s =
    rw (emulate-stop before (set_rip v ram_base) a rest e r s, vmm_run)

-- A write of `code` to the power-off register ends the run: whatever the guest would do after it is
-- not done, the monitor records the code, and returns its low 32 bits, however the CPU ends.
pub vmm_run-poweroff :
    (v : Vmm) (before rest : List Access) (code : ℕ) (accepted : Bool) (e : Ended) {v1 : Vmm}
    → RunsThrough (set_rip v ram_base) before v1
    → v1.faulted ≡ false
    → vmm_run v (before ++ store (serial_base + serial_poweroff) code accepted ∷ rest) e
      ≡ some (record v1 { exit_code = code % 2 ^ 32; powered_off = true }, code % 2 ^ 32)
unfolding run_status bus_store
vmm_run-poweroff v before rest code accepted e {v1} r f =
    vmm_run-stop v before {v2 = record v1 { exit_code = code % 2 ^ 32; powered_off = true }}
      (store (serial_base + serial_poweroff) code accepted) rest e r refl
    ∙ rw f

-- An access to an address where nothing is mapped, load or store, ends the run: the monitor
-- survives it, records the address, and returns 77.
pub vmm_run-fault :
    (v : Vmm) (before rest : List Access) (addr value : ℕ) (accepted : Bool) (e : Ended) {v1 : Vmm}
    → RunsThrough (set_rip v ram_base) before v1
    → is_unmapped addr ≡ true
    → (vmm_run v (before ++ store addr value accepted ∷ rest) e
        ≡ some (record v1 { faulted = true; fault_addr = addr }, vmm_exit_fault))
      × (vmm_run v (before ++ load addr ∷ rest) e
          ≡ some (record v1 { faulted = true; fault_addr = addr }, vmm_exit_fault))
unfolding run_status bus_store bus_load
vmm_run-fault v before rest addr value accepted e {v1} r u =
    let v2 : Vmm = record v1 { faulted = true; fault_addr = addr } in
    (
      vmm_run-stop v before {v2 = v2} (store addr value accepted) rest e r (ground arith),
      vmm_run-stop v before {v2 = v2} (load addr) rest e r (ground arith),
    )

-- A guest that never issues STAT: no store of 3 to the command register.
abbrev pub NoStat : Access → Type 0
NoStat (store addr value accepted) = (addr ≡ dev_base + Reg.cmd) → value ≢ Cmd.stat
NoStat (load addr) = Unit

command_total :
    (m : Machine) (r v : ℕ)
    → IsDevice m.dev
    → ((r ≡ Reg.cmd) → v ≢ Cmd.stat)
    → vlog_device_mmio_write m r v ≢ none
unfolding vlog_device_mmio_write command
command_total m r v d n = ground (arith, log_command_lem m d)

-- What one access leaves if it does not crash the emulator and keeps the device's invariant.
abbrev Survives : Option (Vmm × Bool) → Type 0
Survives none = ⊥
Survives (some (v, stop)) = IsDevice v.machine.dev

device-Survives :
    (v : Vmm) (r value : ℕ) (o : Option Machine)
    → IsDevice v.machine.dev
    → vlog_device_mmio_write v.machine r value ≡ o
    → o ≢ none
    → Survives (with_machine v o)
device-Survives v r value none d e n = absurd (n refl)
device-Survives v r value (some m) d e n = mmio_write-IsDevice v.machine r value d e

access-Survives : (v : Vmm) (a : Access) → IsDevice v.machine.dev → NoStat a → Survives (access v a)
unfolding bus_store bus_load serial_write mem_invalid
access-Survives v (store addr value accepted) d n = ground (
  arith,
  device-Survives v (addr - dev_base) value _ d refl
      (command_total v.machine (addr - dev_base) value d (λ e. n (omega arith))),
)
access-Survives v (load addr) d n = ground arith

Survives-after :
    (o : Option (Vmm × Bool)) (rest : List Access) (e : Ended)
    → Survives o
    → ((v : Vmm) → IsDevice v.machine.dev → emulate v rest e ≢ none)
    → after o rest e ≢ none
Survives-after none rest e s ih = absurd s
Survives-after (some (v, true)) rest e s ih = λ p. cc
Survives-after (some (v, false)) rest e s ih = ih v s

-- A guest that never issues STAT cannot crash the emulator, whatever else it reads, writes,
-- misaddresses or asks of the device: the run ends.
pub emulate-ne-none :
    (accesses : List Access) (v : Vmm) (e : Ended)
    → IsDevice v.machine.dev
    → All NoStat accesses
    → emulate v accesses e ≢ none
unfolding emulate
emulate-ne-none [] v e d n = λ p. cc
emulate-ne-none (a ∷ rest) v e d n = rw (emulate-after v a rest e) (
    Survives-after (access v a) rest e (access-Survives v a d n.0)
      (λ w k. emulate-ne-none rest w e k n.1))
