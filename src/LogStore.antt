-- ===== src/LogStore.antt =====
-- project_1/emulator/logstore.c: the log store that every ingest path appends to.
-- The mutex makes each call one atomic step, so a run of several producers is a list of calls.
pub mod Records
mod Tests
use cs360v_cs380_projects.Prelude.{ℕ, ◌==◌, if◌then◌else◌, List, [], ◌∷◌, ◌++◌, codes, ◌%◌, u32_mod}
use cs360v_cs380_projects.Prelude.Text.{decimal, newline}

-- `struct logstore`: the file on disk, and what stdio still holds back.
pub record LogStore : Type 0 where
  pub disk : List ℕ
  pub pending : List ℕ

abbrev pub level_name : ℕ → List ℕ
level_name level =
    if level == 0
    then codes "DEBUG"
    else if level == 1
    then codes "INFO"
    else if level == 2
    then codes "WARN"
    else if level == 3
    then codes "ERROR"
    else codes "LVL?"

-- `fopen(path, "w")` truncates.
abbrev pub logstore_open : LogStore
logstore_open = record { disk = []; pending = [] }

-- `fprintf`, `fwrite` and `fputc`: into the stdio buffer.
abbrev pub put : LogStore → List ℕ → LogStore
put ls bytes = record ls { pending = ls.pending ++ bytes }

-- `fflush`
abbrev pub fflush : LogStore → LogStore
fflush ls = record { disk = ls.disk ++ ls.pending; pending = [] }

-- `len` is the length of `bytes`.
unfoldable pub logstore_append : LogStore → ℕ → ℕ → List ℕ → LogStore
logstore_append ls seq level bytes =
    let prefixed = put ls (b'[' ∷ (decimal seq ++ (b']' ∷ 32 ∷ (level_name level ++ (32 ∷ []))))) in
    let filled = put prefixed bytes in fflush (put filled (newline ∷ []))

unfoldable pub logstore_flush : LogStore → LogStore
logstore_flush ls = fflush ls

-- One call of `logstore_append`: sequence number, level and message.
pub record Entry : Type 0 where
  pub seq : ℕ
  pub level : ℕ
  pub bytes : List ℕ

abbrev pub entry : ℕ → ℕ → List ℕ → Entry
entry s l m = record { seq = s; level = l; bytes = m }

-- The calls of all producers, in the order in which they hold the lock.
unfoldable pub append_all : LogStore → List Entry → LogStore
append_all ls [] = ls
append_all ls (e ∷ es) = append_all (logstore_append ls e.seq e.level e.bytes) es
