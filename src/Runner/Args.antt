-- ===== src/Runner/Args.antt =====
-- runner.c: `main`, its arguments and its start.
pub mod LogTo
pub mod Status
use cs360v_cs380_projects.Prelude.{
  ℕ, suc, ◌+◌, ◌==◌, ltb, leb, if◌then◌else◌, List, [], ◌∷◌, ◌++◌, Bool, true, false, ◌&&◌, ◌||◌,
  Option, none, some, length, take, codes, bytes_eq,
}
use cs360v_cs380_projects.Prelude.Text.{decimal, split_at}
use cs360v_cs380_projects.Runner.Numbers.{atoi}
use cs360v_cs380_projects.Runner.LogSink.{LogSink, Net, no_sink}
use cs360v_cs380_projects.Runner.Protocol.{log_info, log_warn, log_error}
use cs360v_cs380_projects.Runner.Server.{Runner, Accepted, logrec, serve}

-- RUNNER_DEFAULT_PORT
abbrev pub runner_default_port : ℕ
runner_default_port = 8080

abbrev pub new_runner : Runner
new_runner = record { console = []; sink = no_sink; records = 0; served = []; invocations = [] }

-- `p > 0 && p <= 65535`, for a word of 32 bits that stands for an `int`.
abbrev pub is_port : ℕ → Bool
is_port p = ltb 0 p && leb p 65535

abbrev pub has_byte : ℕ → List ℕ → Bool
has_byte b [] = false
has_byte b (c ∷ cs) = (c == b) || has_byte b cs

-- The host and the port of the collector; the host stays NULL without a valid port.
unfoldable pub log_target : List ℕ → LogSink → LogSink
log_target hp sink =
    let (host, port) = split_at b':' hp in
    let word = atoi port in
    record sink { host = if is_port word then some (take 63 host) else none; port = word }

-- The port, as a word of 32 bits, from another argument.
unfoldable pub listen_port : List ℕ → ℕ → ℕ
listen_port [] port = atoi []
listen_port (c ∷ cs) port = if c == b'-' then port else atoi (c ∷ cs)

module _ (net : ℕ → Net) where
  -- The argument after `--log-to`.
  unfoldable pub log_to : List ℕ → Runner → Runner
  unfolding log_target
  log_to hp r =
      if has_byte b':' hp
      then record r { sink = log_target hp r.sink }
      else logrec net log_warn (codes "ignoring --log-to " ++ (hp ++ codes " (want HOST:PORT)")) r

  -- The loop over the arguments.
  unfoldable pub read_args : List (List ℕ) → ℕ → Runner → ℕ × Runner
  unfolding log_to listen_port
  read_args [] port r = (port, r)
  read_args (arg ∷ []) port r = (listen_port arg port, r)
  read_args (arg ∷ next ∷ args) port r = elim (bytes_eq arg (codes "--log-to")) [
    | true ↦ read_args args port (log_to next r)
    | false ↦ read_args (next ∷ args) (listen_port arg port) r
  ]

-- What `socket`, `bind` and `listen` return, with the text of the error.
pub data Listening : Type 0 where
  listening : Listening
  socket_fails : List ℕ → Listening
  bind_fails : List ℕ → Listening
  listen_fails : List ℕ → Listening

abbrev exits : ℕ → Bool → Option ℕ
exits status left = if left then some status else none

abbrev pub checked_port : ℕ → ℕ
checked_port port = if is_port port then port else runner_default_port

module _ (overflow : ℕ → ℕ → ℕ) (info : List (List ℕ) → Option (List ℕ)) (net : ℕ → Net) where
  -- From the port on: the runner, and the exit status if it has left.
  unfoldable pub start : Listening → List Accepted → ℕ → Runner → Option (Runner × Option ℕ)
  unfolding logrec
  start (socket_fails reason) accepts port r =
      some (logrec net log_error (codes "socket: " ++ reason) r, some 1)
  start (bind_fails reason) accepts port r =
      some
        (logrec net log_error (codes "bind " ++ (decimal port ++ (codes ": " ++ reason))) r, some 1)
  start (listen_fails reason) accepts port r =
      some (logrec net log_error (codes "listen: " ++ reason) r, some 1)
  start listening accepts port r =
      elim (serve overflow info net accepts
        (logrec net log_info (codes "function runner started on port " ++ decimal port) r)) [
          | none ↦ none
          | some (r', left) ↦ some (r', exits 0 left)
        ]

  -- `main`, on its arguments after the program's name.
  unfoldable pub main : List (List ℕ) → Listening → List Accepted → Option (Runner × Option ℕ)
  unfolding read_args start
  main args listens accepts =
      let (port, r) = read_args net args runner_default_port new_runner in
      start listens accepts (checked_port port) r
