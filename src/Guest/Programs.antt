-- ===== src/Guest/Programs.antt =====
-- project_1/guest/test_log.c and test_nop.c: the sample programs that run on the guest's library.
-- The addresses of the strings that test_log.c logs, which the linker chooses, are given.
pub mod Lines
pub mod Nop
pub mod Logged
pub mod Log
use cs360v_cs380_projects.Prelude.{
  ℕ, ◌+◌, ◌==◌, if◌then◌else◌, List, [], ◌∷◌, ◌++◌, Bool, codes, has_bit,
}
use cs360v_cs380_projects.Memory.{dev_base}
use cs360v_cs380_projects.Device.{status_error, vlog_magic}
use cs360v_cs380_projects.Device.Reg
use cs360v_cs380_projects.Device.Cmd
use cs360v_cs380_projects.Guest.{
  Guest, pure, ◌>>=◌, ◌>>◌, mmio_w32, puts_, puthex_, vlog, vlog_id, vlog_seq, vlog_status,
}

-- VLOG_LVL_DEBUG, INFO, WARN and ERROR.
abbrev pub level_debug : ℕ
level_debug = 0

abbrev pub level_info : ℕ
level_info = 1

abbrev pub level_warn : ℕ
level_warn = 2

abbrev pub level_error : ℕ
level_error = 3

abbrev pub line : List ℕ → List ℕ
line text = text ++ b'\n' ∷ []

-- The branch of both programs where the device does not show its magic number.
unfoldable pub device_missing : Guest ℕ
device_missing = puts_ (line (codes "guest: device MISSING")) >> pure 1

unfoldable pub after_nop : ℕ → Guest ℕ
after_nop status =
    if has_bit status status_error
    then puts_ (line (codes "guest: nop FAILED")) >> pure 1
    else puts_ (line (codes "guest: nop ok")) >> (puts_ (line (codes "guest: done")) >> pure 0)

unfoldable pub nop_found : Guest ℕ
nop_found = do
  puts_ (line (codes "guest: device discovered"))
  mmio_w32 (dev_base + Reg.cmd) Cmd.nop
  status ← vlog_status
  after_nop status

-- `main` of test_nop.c.
unfoldable pub test_nop : Guest ℕ
test_nop = do
  puts_ (line (codes "guest: booting"))
  id ← vlog_id
  if id == vlog_magic then nop_found else device_missing

-- A string of the program, at its address.
pub record Str : Type 0 where
  pub addr : ℕ
  pub text : List ℕ

-- Where the linker put the four strings.
pub record Addresses : Type 0 where
  pub started : ℕ
  pub processing : ℕ
  pub cache_miss : ℕ
  pub request_failed : ℕ

abbrev pub started_text : List ℕ
started_text = codes "function runner started"

abbrev pub processing_text : List ℕ
processing_text = codes "processing request 1"

abbrev pub cache_miss_text : List ℕ
cache_miss_text = codes "cache miss"

abbrev pub request_failed_text : List ℕ
request_failed_text = codes "request 1 failed"

unfoldable pub logged_all : Guest ℕ
logged_all = do
  puts_ (codes "guest: logged ")
  seq ← vlog_seq
  puthex_ seq
  puts_ (line (codes " records"))
  puts_ (line (codes "guest: done"))
  pure 0

unfoldable pub log_found : Addresses → Guest ℕ
log_found a = do
  _ ← vlog level_info a.started started_text
  _ ← vlog level_debug a.processing processing_text
  _ ← vlog level_warn a.cache_miss cache_miss_text
  _ ← vlog level_error a.request_failed request_failed_text
  logged_all

-- `main` of test_log.c.
unfoldable pub test_log : Addresses → Guest ℕ
test_log a = do
  puts_ (line (codes "guest: logging test"))
  id ← vlog_id
  if id == vlog_magic then log_found a else device_missing
