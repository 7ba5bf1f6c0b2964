-- ===== src/Emulator.antt =====
-- project_1/emulator/main.c, the entry point of the monitor, with `netlog_start` and `netlog_stop`
-- of project_1/emulator/netlog.c. What the calls into the host return, the files and the guest are
-- given.
pub mod Released
pub mod Poweroff
mod Tests
use cs360v_cs380_projects.Prelude.{
  ℕ, ◌^◌, ◌==◌, ltb, if◌then◌else◌, List, [], ◌∷◌, Bool, true, false, ◌&&◌, not, codes, Option,
  none, some, bytes_eq,
}
use cs360v_cs380_projects.Runner.Numbers.{atoi}
use cs360v_cs380_projects.Vmm.{
  Vmm, CreateOutcome, zeroed, vmm_create, vmm_destroy, Access, Ended, vmm_run,
}
use cs360v_cs380_projects.Vmm.Files.{HostFile, vmm_load_binary, vmm_load_bootinfo}

-- The locals that the arguments set; the port is a word of 32 bits.
pub record Options : Type 0 where
  pub binpath : Option (List ℕ)
  pub log_path : List ℕ
  pub bootinfo_path : Option (List ℕ)
  pub trace : Bool
  pub listen_port : ℕ

abbrev pub no_options : Options
no_options = record {
  binpath = none;
  log_path = codes "vlog.log";
  bootinfo_path = none;
  trace = false;
  listen_port = 0;
}

-- An option with its value; `none` where it takes none.
unfoldable pub set_option : List ℕ → List ℕ → Options → Option Options
set_option arg value o =
    if bytes_eq arg (codes "--log")
    then some (record o { log_path = value })
    else if bytes_eq arg (codes "--bootinfo")
    then some (record o { bootinfo_path = some value })
    else if bytes_eq arg (codes "--listen")
    then some (record o { listen_port = atoi value })
    else none

abbrev pub set_plain : List ℕ → Options → Options
set_plain arg o =
    if bytes_eq arg (codes "--trace")
    then record o { trace = true }
    else record o { binpath = some arg }

-- The loop over the arguments; `none` where an option lacks its value, and the status is 2.
unfoldable pub read_args : List (List ℕ) → Options → Option Options
unfolding set_option
read_args [] o = some o
read_args (arg ∷ []) o = elim (set_option arg [] o) [
  | some o' ↦ none
  | none ↦ some (set_plain arg o)
]
read_args (arg ∷ value ∷ args) o = elim (set_option arg value o) [
  | some o' ↦ read_args args o'
  | none ↦ read_args (value ∷ args) (set_plain arg o)
]

-- What the calls of `netlog_start` return, and what it holds: its memory, its socket and its
-- thread.
pub record NetlogOutcome : Type 0 where
  pub allocated : Bool
  pub socket : Bool
  pub bound : Bool
  pub thread : Bool

pub record Ingest : Type 0 where
  pub memory : Bool
  pub socket : Bool
  pub thread : Bool

abbrev pub no_ingest : Ingest
no_ingest = record { memory = false; socket = false; thread = false }

-- The listener, and whether it is NULL.
unfoldable pub netlog_start : NetlogOutcome → Ingest × Bool
netlog_start o =
    if not o.allocated
    then (no_ingest, true)
    else (let nl = record no_ingest { memory = true } in
        if not o.socket
        then (record nl { memory = false }, true)
        else (let nl' = record nl { socket = true } in
            if not o.bound
            then (record nl' { socket = false; memory = false }, true)
            else if not o.thread
            then (record nl' { socket = false; memory = false }, true)
            else (record nl' { thread = true }, false)))

-- The thread is joined before the socket is closed.
unfoldable pub netlog_stop : Ingest → Ingest
netlog_stop nl =
    let joined = record nl { thread = false } in
    let closed = record joined { socket = false } in record closed { memory = false }

-- The host and the guest.
pub record World : Type 0 where
  pub log_opens : Bool
  pub create : CreateOutcome
  pub file : List ℕ → HostFile
  pub rip_ok : Bool
  pub netlog : NetlogOutcome
  pub accesses : List Access
  pub ended : Ended

-- What is left when `main` returns: the status, the machine, the listener, whether the collector's
-- store is open, and whether the guest has run.
pub record Exit : Type 0 where
  pub status : ℕ
  pub vmm : Vmm
  pub ingest : Ingest
  pub store : Bool
  pub ran : Bool

abbrev pub exit_with : ℕ → Vmm → Exit
exit_with status v = record {
  status = status;
  vmm = v;
  ingest = no_ingest;
  store = false;
  ran = false;
}

-- `listen_port > 0`, for a word that stands for an `int`.
abbrev pub listens : Options → Bool
listens o = ltb 0 o.listen_port && ltb o.listen_port (2 ^ 31)

abbrev pub logstore_close : Exit → Exit
logstore_close e = record e { store = false }

-- The collector, up to the signal that ends it.
unfoldable pub collect : World → Exit
unfolding netlog_start netlog_stop
collect w =
    if not w.log_opens
    then exit_with 1 zeroed
    else (let opened = record (exit_with 1 zeroed) { store = true } in
        let (nl, failed) = netlog_start w.netlog in
        let listening = record opened { ingest = nl } in
        if failed
        then logstore_close listening
        else logstore_close (record listening { status = 0; ingest = netlog_stop nl }))

-- From the listener on, with a loaded machine; `none` where the guest crashes the emulator.
unfoldable pub run_guest : World → Options → Vmm → Option Exit
unfolding netlog_start netlog_stop
run_guest w o v =
    let (nl, failed) = if listens o then netlog_start w.netlog else (no_ingest, true) in
    elim (vmm_run v w.accesses w.ended) [
      | none ↦ none
      | some (v', rc) ↦ some (record {
        status = rc;
        vmm = vmm_destroy v';
        ingest = if failed then nl else netlog_stop nl;
        store = false;
        ran = true;
      })
    ]

-- The boot parameters, if there is a path: the machine and the status.
abbrev pub with_bootinfo : World → Option (List ℕ) → Vmm → Vmm × ℕ
with_bootinfo w none v = (v, 0)
with_bootinfo w (some path) v = vmm_load_bootinfo v (w.file path)

-- With the path of a guest.
unfoldable pub boot : World → Options → List ℕ → Option Exit
unfolding run_guest
boot w o path =
    let (v, created) = vmm_create w.create o.trace in
    let (v1, loaded) = vmm_load_binary v (w.file path) w.rip_ok in
    let (v2, booted) = with_bootinfo w o.bootinfo_path v1 in
    let guest = run_guest w o v2 in
    if not (created == 0)
    then some (exit_with 1 v)
    else if not (loaded == 0)
    then some (exit_with 1 (vmm_destroy v1))
    else if not (booted == 0)
    then some (exit_with 1 (vmm_destroy v2))
    else guest

abbrev pub with_options : World → Option Options → Option Exit
with_options w none = some (exit_with 2 zeroed)
with_options w (some o) = elim o.binpath [
  | none ↦ if listens o then some (collect w) else some (exit_with 2 zeroed)
  | some path ↦ boot w o path
]

-- `main`, on its arguments after the program's name.
unfoldable pub main : World → List (List ℕ) → Option Exit
unfolding read_args collect boot
main w args = with_options w (read_args args no_options)
