-- ===== src/Runner/Protocol.antt =====
-- runner.c: `logrec` and `handle_line`, the commands and their replies. The text that
-- `runner_platform_info` leaves is an argument, since a build may replace that function.
pub mod Replies
pub mod Wordcount
pub mod Collected
use cs360v_cs380_projects.Prelude.{
  ℕ, suc, ◌+◌, ◌-◌, ◌==◌, ltb, if◌then◌else◌, List, [], ◌∷◌, ◌++◌, Bool, true, false, Option, none,
  some, length, take, codes, bytes_eq, map,
}
use cs360v_cs380_projects.Prelude.Text.{newline, space, decimal, c_string, split_at}
use cs360v_cs380_projects.Sink.{strip_eol}
use cs360v_cs380_projects.Runner.LogSink.{LogSink, Net, log_sink_emit}
use cs360v_cs380_projects.Runner.Functions.{
  FnResult, ok, failed, snprintf, out_size, fn_wordcount, fn_sum,
}

abbrev pub log_debug : ℕ
log_debug = 0

abbrev pub log_info : ℕ
log_info = 1

abbrev pub log_warn : ℕ
log_warn = 2

abbrev pub log_error : ℕ
log_error = 3

-- LINE_MAX_LEN
abbrev pub line_max_len : ℕ
line_max_len = 4096

-- The bytes of a log record: the level and the message, cut so that the newline and the NUL fit.
unfoldable pub record_line : ℕ → List ℕ → List ℕ
record_line level message =
    take (line_max_len - 2) (decimal level ++ space ∷ message) ++ newline ∷ []

-- `runner_platform_info`, unless a build replaces it; `none` where it does not return 0.
abbrev pub runner_platform_info : Option (List ℕ)
runner_platform_info = some (snprintf out_size (codes "platform=posix"))

-- FUNCS
abbrev pub funcs : (overflow : ℕ → ℕ → ℕ) → List (List ℕ × (List ℕ → Option FnResult))
funcs overflow =
    (codes "wordcount", λ payload. some (fn_wordcount payload))
    ∷ (codes "sum", fn_sum overflow)
    ∷ []

-- The loop that looks for a function.
unfoldable pub find_fn :
    List ℕ → List (List ℕ × (List ℕ → Option FnResult)) → Option (List ℕ → Option FnResult)
find_fn name [] = none
find_fn name ((known, fn) ∷ fs) =
    let later = find_fn name fs in if bytes_eq name known then some fn else later

-- `sizeof reply`
abbrev pub reply_size : ℕ
reply_size = 512

-- What a command leads to: its reply, the log records in their order, and the function that
-- `runner_on_invoke` is told of.
pub record Outcome : Type 0 where
  pub reply : List ℕ
  pub logs : List (ℕ × List ℕ)
  pub invoked : Option (List ℕ)

abbrev pub answered : List ℕ → List (ℕ × List ℕ) → Outcome
answered text logs = record {
  reply = snprintf reply_size (text ++ newline ∷ []);
  logs = logs;
  invoked = none;
}

-- The names after `OK`, while they fit.
unfoldable pub list_funcs : ℕ → List (List ℕ × (List ℕ → Option FnResult)) → List ℕ
list_funcs off [] = if ltb off reply_size then snprintf (reply_size - off) (newline ∷ []) else []
list_funcs off ((name, fn) ∷ fs) =
    let rest = list_funcs (off + suc (length name)) fs in
    if ltb off reply_size then snprintf (reply_size - off) (space ∷ name) ++ rest else rest

abbrev pub invoke_log : List ℕ → ℕ × List ℕ
invoke_log name = (log_info, codes "invoke " ++ name)

-- After a function has returned.
unfoldable pub invoked_with : List ℕ → FnResult → Outcome
invoked_with name (failed out) =
    answered (codes "ERR " ++ out)
      (invoke_log name ∷ (log_error, name ++ (codes " failed: " ++ out)) ∷ [])
invoked_with name (ok out) = record {
  reply = snprintf reply_size (codes "OK " ++ (out ++ newline ∷ []));
  logs = invoke_log name ∷ (log_info, name ++ (codes " -> " ++ out)) ∷ [];
  invoked = some name;
}

-- The function of that name, if there is one; `none` where its loop ran out of passes.
unfoldable pub run_fn : (overflow : ℕ → ℕ → ℕ) → List ℕ → List ℕ → Option Outcome
unfolding find_fn invoked_with
run_fn overflow name payload = elim (find_fn name (funcs overflow)) [
  | none ↦ some (
      answered (codes "ERR no such function") ((log_warn, codes "no such function: " ++ name) ∷ []))
  | some fn ↦ elim (fn payload) [ none ↦ none | some result ↦ some (invoked_with name result) ]
]

unfoldable pub skip_blanks : List ℕ → List ℕ
skip_blanks [] = []
skip_blanks (c ∷ cs) = let later = skip_blanks cs in if c == space then later else c ∷ cs

-- `RUN`, after its first space: the name, cut to 63 bytes, and the payload after the next space.
unfoldable pub run_command : (overflow : ℕ → ℕ → ℕ) → List ℕ → Option Outcome
unfolding skip_blanks run_fn
run_command overflow rest =
    let (name, payload) = split_at space (skip_blanks rest) in
    run_fn overflow (take 63 name) payload

-- What follows a prefix.
unfoldable pub after_prefix : List ℕ → List ℕ → Option (List ℕ)
after_prefix [] s = some s
after_prefix (p ∷ ps) [] = none
after_prefix (p ∷ ps) (c ∷ cs) = let later = after_prefix ps cs in if c == p then later else none

-- Without the line ends at the end.
unfoldable pub stripped : List ℕ → List ℕ
unfolding strip_eol
stripped line = take (strip_eol line (length line)) line

abbrev pub info_text : Option (List ℕ) → List ℕ
info_text none = snprintf out_size (codes "unavailable")
info_text (some text) = snprintf out_size text

unfoldable pub command : (overflow : ℕ → ℕ → ℕ) → Option (List ℕ) → List ℕ → Option Outcome
unfolding list_funcs run_command after_prefix
command overflow info line =
    if bytes_eq line (codes "PING")
    then some (answered (codes "PONG") ((log_debug, codes "ping") ∷ []))
    else if bytes_eq line (codes "INFO")
    then some (answered (codes "OK " ++ info_text info) ((log_debug, codes "info") ∷ []))
    else if bytes_eq line (codes "FUNCS")
    then some (record {
      reply = codes "OK" ++ list_funcs 2 (funcs overflow);
      logs = (log_debug, codes "funcs") ∷ [];
      invoked = none;
    })
    else elim (after_prefix (codes "RUN ") line) [
      | some rest ↦ run_command overflow rest
      | none ↦ some (answered (codes "ERR bad command") ((log_warn, codes "bad command") ∷ []))
    ]

unfoldable pub handle_line : (overflow : ℕ → ℕ → ℕ) → Option (List ℕ) → List ℕ → Option Outcome
unfolding stripped command
handle_line overflow info line = command overflow info (stripped (c_string line))
