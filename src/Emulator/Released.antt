-- ===== src/Emulator/Released.antt =====
-- project_1/emulator/main.c: what its exits leave behind.
use cs360v_cs380_projects.Prelude.{
  ℕ, ◌≤◌, ◌≡◌, refl, ◌==◌, if◌then◌else◌, List, Bool, true, false, Option, none, some, arith, inl,
  inr, Bool-cases, Option-cases,
}
use cs360v_cs380_projects.Vmm.{Vmm, zeroed, vmm_create, vmm_destroy, vmm_run}
use cs360v_cs380_projects.Vmm.Files.{vmm_load_binary}
use cs360v_cs380_projects.Emulator.{
  Options, World, Exit, Ingest, NetlogOutcome, no_ingest, no_options, exit_with, listens,
  netlog_start, netlog_stop, collect, run_guest, with_bootinfo, boot, with_options, read_args, main,
}

-- The CPU, RAM, log store and device of the machine, and what the listener holds. The open streams
-- of the loaders (`Vmm.files`) are not among them.
pub record IsReleased (e : Exit) : Type 0 where
  pub uc : e.vmm.uc ≡ false
  pub ram : e.vmm.ram ≡ false
  pub vmm_store : e.vmm.store ≡ false
  pub dev : e.vmm.dev ≡ false
  pub ingest : e.ingest ≡ no_ingest
  pub store : e.store ≡ false
  pub status : e.ran ≡ false → e.status ≤ 2

-- A listener that does not start leaves nothing, and stopping one leaves nothing.
netlog_start-failed :
    (o : NetlogOutcome) → (netlog_start o).1 ≡ true → (netlog_start o).0 ≡ no_ingest
unfolding netlog_start
netlog_start-failed o h = ground (arith, h)

netlog_stop-no_ingest : (nl : Ingest) → netlog_stop nl ≡ no_ingest
unfolding netlog_stop
netlog_stop-no_ingest nl = refl

stopped_ingest :
    (nl : Ingest) (failed : Bool)
    → (failed ≡ true → nl ≡ no_ingest)
    → (if failed then nl else netlog_stop nl) ≡ no_ingest
stopped_ingest nl true h = h refl
stopped_ingest nl false h = netlog_stop-no_ingest nl

unused : (status : ℕ) → status ≤ 2 → IsReleased (exit_with status zeroed)
unused status h = record {
  uc = refl;
  ram = refl;
  vmm_store = refl;
  dev = refl;
  ingest = refl;
  store = refl;
  status = λ q. h;
}

destroyed : (status : ℕ) (v : Vmm) → status ≤ 2 → IsReleased (exit_with status (vmm_destroy v))
unfolding vmm_destroy
destroyed status v h = record {
  uc = refl;
  ram = refl;
  vmm_store = refl;
  dev = refl;
  ingest = refl;
  store = refl;
  status = λ q. h;
}

collect-IsReleased : (w : World) → IsReleased (collect w)
unfolding collect
collect-IsReleased w = elim (Bool-cases w.log_opens) [
  | inr shut ↦ rw shut (unused 1 (omega arith))
  | inl opens ↦ elim (Bool-cases (netlog_start w.netlog).1) [
    | inl failed ↦
        rw (opens, failed)
          (record {
            uc = refl;
            ram = refl;
            vmm_store = refl;
            dev = refl;
            store = refl;
            status = λ q. omega arith;
            ingest = netlog_start-failed w.netlog failed;
          })
    | inr started ↦
        rw (opens, started)
          (record {
            uc = refl;
            ram = refl;
            vmm_store = refl;
            dev = refl;
            store = refl;
            status = λ q. omega arith;
            ingest = netlog_stop-no_ingest (netlog_start w.netlog).0;
          })
  ]
]

abbrev pub Releases : Option Exit → Type 0
Releases none = Unit
Releases (some e) = IsReleased e

ingest_stopped :
    (w : World) (b : Bool)
    → let (nl, failed) = if b then netlog_start w.netlog else (no_ingest, true) in
      (if failed then nl else netlog_stop nl) ≡ no_ingest
ingest_stopped w false = refl
ingest_stopped w true =
    stopped_ingest (netlog_start w.netlog).0 (netlog_start w.netlog).1
      (netlog_start-failed w.netlog)

run_guest-Releases : (w : World) (o : Options) (v : Vmm) → Releases (run_guest w o v)
unfolding run_guest vmm_destroy
run_guest-Releases w o v = elim (Option-cases (vmm_run v w.accesses w.ended)) [
  | inl crashed ↦ rw (crashed, run_guest) tt
  | inr ((v', rc), ended) ↦
      rw (ended, run_guest)
        (record {
          uc = refl;
          ram = refl;
          vmm_store = refl;
          dev = refl;
          store = refl;
          status = λ q. absurd (ground (arith, q));
          ingest = ingest_stopped w (listens o);
        })
]

boot-Releases :
    (w : World) (o : Options) (path : List ℕ)
    → (vmm_create w.create o.trace).1 ≡ 0
    → Releases (boot w o path)
unfolding boot
boot-Releases w o path made =
    let v1 = (vmm_load_binary (vmm_create w.create o.trace).0 (w.file path) w.rip_ok).0 in
    let v2 = (with_bootinfo w o.bootinfo_path v1).0 in
    let created : ((vmm_create w.create o.trace).1 == 0) ≡ true = ground (arith, made) in
    elim (Bool-cases
      ((vmm_load_binary (vmm_create w.create o.trace).0 (w.file path) w.rip_ok).1 == 0)) [
        | inr unloaded ↦ rw (created, unloaded) (destroyed 1 v1 (omega arith))
        | inl loaded ↦ elim (Bool-cases ((with_bootinfo w o.bootinfo_path v1).1 == 0)) [
          | inr failed ↦ rw (created, loaded, failed) (destroyed 1 v2 (omega arith))
          | inl booted ↦ rw (created, loaded, booted) (run_guest-Releases w o v2)
        ]
      ]

with_options-Releases :
    (w : World) (o : Option Options)
    → ((trace : Bool) → (vmm_create w.create trace).1 ≡ 0)
    → Releases (with_options w o)
with_options-Releases w none made = unused 2 (omega arith)
with_options-Releases w (some o) made = go o.binpath
  where
    collected : Releases (if listens o then some (collect w) else some (exit_with 2 zeroed))
    collected = elim (Bool-cases (listens o)) [
      | inl collects ↦ rw collects (collect-IsReleased w)
      | inr idle ↦ rw idle (unused 2 (omega arith))
    ]

    go :
        (path : Option (List ℕ))
        → Releases (elim path [
          | none ↦ if listens o then some (collect w) else some (exit_with 2 zeroed)
          | some path ↦ boot w o path
        ])
    go none = collected
    go (some path) = boot-Releases w o path (made o.trace)

-- If the machine can be created, then `main`, whatever the arguments, the files, the listener and
-- the guest do, returns with the CPU, RAM, log store and device of the machine released, and the
-- listener's memory, socket and thread, unless the guest crashes the emulator; and with a status of
-- at most 2 where the guest has not run. Streams that a failed load leaves open are not among
-- these.
pub main-Releases :
    (w : World) (args : List (List ℕ))
    → ((trace : Bool) → (vmm_create w.create trace).1 ≡ 0)
    → Releases (main w args)
unfolding main
main-Releases w args made = with_options-Releases w (read_args args no_options) made
