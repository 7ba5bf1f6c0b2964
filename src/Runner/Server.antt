-- ===== src/Runner/Server.antt =====
-- runner.c: the loop of `main` that accepts connections, reads a command from each and answers it.
-- What `accept` and `read` deliver is given, as are the returns of the calls for each log record.
pub mod Receive
pub mod Turns
pub mod Counted
use cs360v_cs380_projects.Prelude.{
  ℕ, suc, ◌+◌, ◌-◌, ◌==◌, ltb, leb, if◌then◌else◌, List, [], ◌∷◌, ◌++◌, Bool, true, false, ◌||◌,
  Option, none, some, length, take, codes,
}
use cs360v_cs380_projects.Prelude.Text.{newline}
use cs360v_cs380_projects.Runner.LogSink.{LogSink, Net, log_sink_emit}
use cs360v_cs380_projects.Runner.Protocol.{
  line_max_len, record_line, log_error, Outcome, handle_line,
}

-- The runner: what it printed, its log sink, how many records it made, and for each connection that
-- it has closed its descriptor and the reply, if it sent one, the latest first; last the functions
-- that `runner_on_invoke` was told of, the latest first.
pub record Runner : Type 0 where
  pub console : List ℕ
  pub sink : LogSink
  pub records : ℕ
  pub served : List (ℕ × Option (List ℕ))
  pub invocations : List (List ℕ)

abbrev pub has_newline : List ℕ → Bool
has_newline [] = false
has_newline (c ∷ cs) = (c == newline) || has_newline cs

-- The bytes of one connection: the loop of `read` up to a newline, a full buffer, or the end of the
-- stream or an error, which deliver nothing. The list ends where the stream does.
unfoldable pub receive : (got : List ℕ) → List (List ℕ) → List ℕ
receive got [] = got
receive got ([] ∷ reads) = got
receive got ((c ∷ cs) ∷ reads) =
    let got' = got ++ take (line_max_len - 1 - length got) (c ∷ cs) in
    elim (has_newline got' || leb (line_max_len - 1) (length got')) [
      | true ↦ got'
      | false ↦ receive got' reads
    ]

-- Project 1 reads once.
unfoldable pub receive_once : List (List ℕ) → List ℕ
receive_once [] = []
receive_once (read ∷ reads) = take (line_max_len - 1) read

-- What `accept` returns: a connection with what its reads deliver, EINTR, or an error with its
-- text.
pub data Accepted : Type 0 where
  connection : ℕ → List (List ℕ) → Accepted
  interrupted : Accepted
  accept_fails : List ℕ → Accepted

module _ (net : ℕ → Net) where
  unfoldable pub logrec : ℕ → List ℕ → Runner → Runner
  logrec level message r =
      let line = record_line level message in
      record r {
        console = r.console ++ line;
        sink = log_sink_emit (net r.records) line r.sink;
        records = suc r.records;
      }

  unfoldable pub logrecs : List (ℕ × List ℕ) → Runner → Runner
  unfolding logrec
  logrecs [] r = r
  logrecs ((level, message) ∷ logs) r = logrecs logs (logrec level message r)

abbrev pub told : Option (List ℕ) → List (List ℕ) → List (List ℕ)
told none names = names
told (some name) names = name ∷ names

-- `info` is what `runner_platform_info` gives after the invocations so far, `overflow` what an
-- addition of `fn_sum` leaves where C does not define it.
module _ (overflow : ℕ → ℕ → ℕ) (info : List (List ℕ) → Option (List ℕ)) (net : ℕ → Net) where
  -- One connection.
  unfoldable pub answer : ℕ → List ℕ → Runner → Option Runner
  unfolding logrecs
  answer fd [] r = some (record r { served = (fd, none) ∷ r.served })
  answer fd (c ∷ cs) r = elim (handle_line overflow (info r.invocations) (c ∷ cs)) [
    | none ↦ none
    | some o ↦
        let r' = logrecs net o.logs r in
        some (record r' {
          served = (fd, some o.reply) ∷ r'.served;
          invocations = told o.invoked r'.invocations;
        })
  ]

  -- The loop of `main`: the runner, and whether it has left the loop.
  unfoldable pub serve : List Accepted → Runner → Option (Runner × Bool)
  unfolding answer receive
  serve [] r = some (r, false)
  serve (interrupted ∷ accepts) r = serve accepts r
  serve (accept_fails reason ∷ accepts) r =
      some (logrec net log_error (codes "accept: " ++ reason) r, true)
  serve (connection fd reads ∷ accepts) r = elim (answer fd (receive [] reads) r) [
    | none ↦ none
    | some r' ↦ serve accepts r'
  ]
