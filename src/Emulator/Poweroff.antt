-- ===== src/Emulator/Poweroff.antt =====
-- project_1/emulator/main.c: a guest that is loaded, runs and powers off.
use cs360v_cs380_projects.Prelude.{
  ℕ, ◌+◌, ◌%◌, ◌^◌, ◌≡◌, refl, sym, subst, ◌∙◌, ap, if◌then◌else◌, List, ◌∷◌, ◌++◌, Bool, true,
  false, Option, none, some,
}
use cs360v_cs380_projects.Memory.{ram_base, serial_base}
use cs360v_cs380_projects.Vmm.{
  Vmm, zeroed, vmm_create, vmm_run, set_rip, Access, store, serial_poweroff,
}
use cs360v_cs380_projects.Vmm.Files.{vmm_load_binary}
use cs360v_cs380_projects.Vmm.Bus.{RunsThrough, vmm_run-poweroff}
use cs360v_cs380_projects.Emulator.{
  Options, World, Exit, no_options, listens, collect, exit_with, run_guest, boot, with_bootinfo,
  with_options, read_args, main,
}
use cs360v_cs380_projects.Emulator.Released.{IsReleased, Releases, main-Releases}

-- The guest runs on `v`, as far as `v1`, and then powers off with `code`.
pub record PowersOff (w : World) (v : Vmm) (code : ℕ) : Type 0 where
  pub before : List Access
  pub rest : List Access
  pub accepted : Bool
  pub reached : Vmm
  pub accesses : w.accesses ≡ before ++ store (serial_base + serial_poweroff) code accepted ∷ rest
  pub runs : RunsThrough (set_rip v ram_base) before reached
  pub no_fault : reached.faulted ≡ false

-- The machine that the arguments lead to: created, with the guest loaded, and
-- then the boot parameters where the arguments name a file of them.
pub record IsBooted (w : World) (args : List (List ℕ)) (v : Vmm) : Type 0 where
  pub options : Options
  pub path : List ℕ
  pub created : Vmm
  pub loaded : Vmm
  pub parsed : read_args args no_options ≡ some options
  pub guest : options.binpath ≡ some path
  pub creates : (trace : Bool) → (vmm_create w.create trace).1 ≡ 0
  pub machine : vmm_create w.create options.trace ≡ (created, 0)
  pub loads : vmm_load_binary created (w.file path) w.rip_ok ≡ (loaded, 0)
  pub boots : with_bootinfo w options.bootinfo_path loaded ≡ (v, 0)

abbrev Status : ℕ → Option Exit → Type 0
Status code none = ⊥
Status code (some e) = e.status ≡ code

run_guest-Status :
    (w : World) (o : Options) (v : Vmm) (code : ℕ)
    → PowersOff w v code
    → Status (code % 2 ^ 32) (run_guest w o v)
unfolding run_guest
run_guest-Status w o v code p =
    let run : vmm_run v w.accesses w.ended
        ≡ some
            (record (p.reached) { exit_code = code % 2 ^ 32; powered_off = true }, code % 2 ^ 32) =
      ap (λ a. vmm_run v a w.ended) p.accesses
      ∙ vmm_run-poweroff v p.before p.rest code p.accepted w.ended p.runs p.no_fault in
    rw (run, run_guest) refl

main-run_guest :
    (w : World) (args : List (List ℕ)) (v : Vmm) (b : IsBooted w args v)
    → main w args ≡ run_guest w b.options v
unfolding main boot
main-run_guest w args v b =
    ap (with_options w) b.parsed
    ∙ ap
        (λ (path : Option (List ℕ)). elim path as (λ p. Option Exit) [
          | none ↦ if listens b.options then some (collect w) else some (exit_with 2 zeroed)
          | some path ↦ boot w b.options path
        ])
        b.guest
    ∙ rw (b.machine, b.loads, b.boots) refl

finished :
    (code : ℕ) (o : Option Exit)
    → Status code o
    → Releases o
    → (e : Exit) × (o ≡ some e) × (e.status ≡ code) × IsReleased e
finished code none s r = absurd s
finished code (some e) s r = (e, refl, s, r)

-- A guest that is loaded from the path among the arguments, with the boot parameters that they name
-- if they name any, onto a machine that can be created, and that runs until it stores a code to the
-- power-off register without a fault, ends `main` with that code, of 32 bits, as its status. The
-- CPU, RAM, log store and device of the machine are released then, and the listener's memory,
-- socket and thread.
pub main-poweroff :
    (w : World) (args : List (List ℕ)) (v : Vmm) (code : ℕ)
    → IsBooted w args v
    → PowersOff w v code
    → (e : Exit) × (main w args ≡ some e) × (e.status ≡ code % 2 ^ 32) × IsReleased e
main-poweroff w args v code b p =
    finished (code % 2 ^ 32) (main w args)
      (subst (Status (code % 2 ^ 32)) (sym (main-run_guest w args v b))
        (run_guest-Status w b.options v code p))
      (main-Releases w args b.creates)
