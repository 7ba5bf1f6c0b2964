-- ===== src/Runner/Args/Status.antt =====
-- runner.c: how `main` ends.
use cs360v_cs380_projects.Prelude.{
  ℕ, ◌≡◌, refl, ap, List, [], ◌∷◌, Bool, true, false, Option, some, codes, ◌++◌,
}
use cs360v_cs380_projects.Prelude.Text.{decimal}
use cs360v_cs380_projects.Runner.LogSink.{Net}
use cs360v_cs380_projects.Runner.Protocol.{log_info, log_error}
use cs360v_cs380_projects.Runner.Server.{
  Runner, Accepted, connection, interrupted, accept_fails, logrec,
}
use cs360v_cs380_projects.Runner.Server.Turns.{
  OneLine, Turns, waiting, retried, ended, served_one, serve-Turns,
}
use cs360v_cs380_projects.Runner.Args.{
  Listening, listening, socket_fails, bind_fails, listen_fails, exits, start, checked_port,
  read_args, main, new_runner, runner_default_port,
}

-- An error of `accept` other than EINTR.
abbrev pub has_failure : List Accepted → Bool
has_failure [] = false
has_failure (connection fd reads ∷ accepts) = has_failure accepts
has_failure (interrupted ∷ accepts) = has_failure accepts
has_failure (accept_fails reason ∷ accepts) = true

Turns-has_failure :
    {accepts : List Accepted} {before after : List (ℕ × Option (List ℕ))} {left : Bool}
    → Turns accepts before after left
    → left ≡ has_failure accepts
Turns-has_failure waiting = refl
Turns-has_failure (retried t) = Turns-has_failure t
Turns-has_failure ended = refl
Turns-has_failure (served_one turn t) = Turns-has_failure t

abbrev pub status_of : Listening → List Accepted → Option ℕ
status_of listening accepts = exits 0 (has_failure accepts)
status_of (socket_fails reason) accepts = some 1
status_of (bind_fails reason) accepts = some 1
status_of (listen_fails reason) accepts = some 1

module _ (overflow : ℕ → ℕ → ℕ) (info : List (List ℕ) → Option (List ℕ)) (net : ℕ → Net) where
  start-status_of :
      (listens : Listening) (accepts : List Accepted) (port : ℕ) (r : Runner)
      → OneLine info
      → (r' : Runner) × (start overflow info net listens accepts port r
          ≡ some (r', status_of listens accepts))
  unfolding start
  start-status_of (socket_fails reason) accepts port r one =
      (logrec net log_error (codes "socket: " ++ reason) r, refl)
  start-status_of (bind_fails reason) accepts port r one =
      (logrec net log_error (codes "bind " ++ (decimal port ++ (codes ": " ++ reason))) r, refl)
  start-status_of (listen_fails reason) accepts port r one =
      (logrec net log_error (codes "listen: " ++ reason) r, refl)
  start-status_of listening accepts port r one =
      let begun =
        logrec net log_info (codes "function runner started on port " ++ decimal port) r in
      let (end, e, turns) = serve-Turns overflow info net accepts begun one in
      (end.0, rw (e, start) (ap (λ left. some (end.0, exits 0 left)) (Turns-has_failure turns)))

  -- If the text of the platform has no newline, then, whatever the arguments and what the calls return, `main` exits with status 1 if it cannot
  -- listen, and with status 0 at the first error of `accept` other than EINTR; it serves on where
  -- there is none.
  pub main-status_of :
      (args : List (List ℕ)) (listens : Listening) (accepts : List Accepted)
      → OneLine info
      → (r : Runner) × (main overflow info net args listens accepts
          ≡ some (r, status_of listens accepts))
  unfolding main
  main-status_of args listens accepts one =
      let (port, r) = read_args net args runner_default_port new_runner in
      start-status_of listens accepts (checked_port port) r one
