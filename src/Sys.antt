-- ===== src/Sys.antt =====
-- Calls into the host, for project_2/runtime: each call is recorded with whether it succeeded, and
-- a function ends with a value or gives up (it returns -1). What the host answers may depend on all
-- that was called before.
pub mod Trace
pub mod Avoid
pub mod Gate
use cs360v_cs380_projects.Prelude.{
  ℕ, List, [], ◌∷◌, ◌++◌, Bool, true, false, if◌then◌else◌, codes, Option,
}
use cs360v_cs380_projects.Prelude.Text.{decimal}
use cs360v_cs380_projects.Seccomp.{Syscall, SockFilter}

abbrev pub Text : Type 0
Text = List ℕ

-- How a process ended, as `waitpid` reports it.
pub data Status : Type 0 where
  exited : ℕ → Status
  signaled : ℕ → Status

-- The calls of the runtime that reach the kernel or the host.
pub data Call : Type 0 where
  open_write : Text → Call
  write : (path value : Text) → Call
  close_file : Text → Call
  mkdir : Text → Call
  rmdir : Text → Call
  pipe : Call
  malloc_stack : Call
  free_stack : Call
  clone : ℕ → Call
  close_sync : ℕ → Call
  read_sync : Call
  write_sync : Call
  wait_for : ℕ → Call
  sethostname : Text → Call
  socket : Call
  close_socket : Call
  inet_pton : Text → Call
  get_flags : Text → Call
  set_up : Text → Call
  set_addr : (interface ip : Text) → Call
  set_netmask : Text → ℕ → Call
  add_route : Text → Call
  mount_private : Call
  bind : (source target : Text) → Call
  remount_read_only : Text → Call
  mount_fs : (kind target : Text) → Call
  touch : Text → Call
  chdir : Text → Call
  pivot_root : Call
  detach_old_root : Call
  drop_bounding : ℕ → Call
  clear_capabilities : Call
  no_new_privs : Call
  install_filter : List SockFilter → Call
  fork_exec : List Text → Call
  ip : List Text → Call

abbrev pub Event : Type 0
Event = Call × Bool

-- The latest event first.
abbrev pub Trace : Type 0
Trace = List Event

-- The host: how each call turns out after what came before, the reason where it fails, and the
-- values that calls return.
pub record Host : Type 0 where
  pub ok : Trace → Call → Bool
  pub errno : Trace → Call → ℕ
  pub uid : ℕ
  pub gid : ℕ
  pub child : ℕ
  pub child_status : Status
  pub command : ℕ
  pub reaped : List (ℕ × Status)
  pub number : Syscall → ℕ
  pub audit_arch : ℕ
  pub last_cap : ℕ

pub data Outcome (A : Type 0) : Type 0 where
  done : A → Trace → Outcome A
  failed : Trace → Outcome A

abbrev pub Action : Type 0 → Type 0
Action A = Host → Trace → Outcome A

abbrev pub pure : {A : Type 0} → A → Action A
pure x h t = done x t

abbrev pub give_up : {A : Type 0} → Action A
give_up h t = failed t

abbrev pub and_then : {A B : Type 0} → Outcome A → (A → Action B) → Host → Outcome B
and_then (done x t) k h = k x h t
and_then (failed t) k h = failed t

infixl 5 ◌>>=◌
infixr 4 ◌>>◌
abbrev pub ◌>>=◌ : {A B : Type 0} → Action A → (A → Action B) → Action B
m >>= k = λ h t. and_then (m h t) k h

abbrev pub ◌>>◌ : {B : Type 0} → Action (Unit {0}) → Action B → Action B
m >> k = m >>= λ _. k

-- What the host answers.
unfoldable pub with_host : {A : Type 0} → (Host → Action A) → Action A
with_host m h t = m h h t

-- A call whose result the code tests.
unfoldable pub ask : Call → Action Bool
ask c h t = done (h.ok t c) ((c, h.ok t c) ∷ t)

-- A call whose failure is returned at once.
unfoldable pub must : Call → Action (Unit {0})
must c h t = if h.ok t c then done tt ((c, true) ∷ t) else failed ((c, false) ∷ t)

-- A call whose result is not looked at.
unfoldable pub note : Call → Action (Unit {0})
note c h t = done tt ((c, h.ok t c) ∷ t)

abbrev pub when : Bool → Action (Unit {0}) → Action (Unit {0})
when b m = if b then m else pure tt

-- A result that does not count.
abbrev pub regardless : {A : Type 0} → Outcome A → Outcome (Unit {0})
regardless (done x t) = done tt t
regardless (failed t) = done tt t

abbrev pub ignore : {A : Type 0} → Action A → Action (Unit {0})
ignore m = λ h t. regardless (m h t)

-- The same last step, whichever way the others end.
abbrev pub lastly : Outcome (Unit {0}) → Call → Host → Outcome (Unit {0})
lastly (done x t) c h = note c h t
lastly (failed t) c h = (note c >> give_up) h t

abbrev pub finally : Action (Unit {0}) → Call → Action (Unit {0})
finally m c = λ h t. lastly (m h t) c h

-- util.c, `write_file`: the file is closed whether or not all bytes are written.
unfoldable pub write_file : (path value : Text) → Action (Unit {0})
write_file path value =
    must (open_write path) >> finally (must (write path value)) (close_file path)
