-- ===== src/Runner/Server/Turns.antt =====
-- runner.c: the connections that the loop of `main` serves.
use cs360v_cs380_projects.Prelude.{
  ℕ, ◌≡◌, refl, subst, ap, List, [], ◌∷◌, ◌++◌, Bool, true, false, Option, none, some, codes,
}
use cs360v_cs380_projects.Runner.LogSink.{Net}
use cs360v_cs380_projects.Prelude.Text.{newline, Lacks}
use cs360v_cs380_projects.Runner.Protocol.{log_error, info_text}
use cs360v_cs380_projects.Runner.Protocol.Replies.{IsReply, handle_line-Replies}
use cs360v_cs380_projects.Runner.Server.{
  Runner, Accepted, connection, interrupted, accept_fails, receive, logrec, logrecs, answer, serve,
  told,
}

pub logrecs-served :
    (net : ℕ → Net) (logs : List (ℕ × List ℕ)) (r : Runner) → (logrecs net logs r).served ≡ r.served
unfolding logrecs logrec
logrecs-served net [] r = refl
logrecs-served net ((level, message) ∷ logs) r =
    logrecs-served net logs (logrec net level message r)

-- What a connection is served: no reply if nothing was read, and otherwise one, a single line that
-- fits the buffer.
pub data Turn : List ℕ → ℕ → ℕ × Option (List ℕ) → Type 0 where
  silent : {fd : ℕ} → Turn [] fd (fd, none)
  replied : {fd c : ℕ} {cs reply : List ℕ} → IsReply reply → Turn (c ∷ cs) fd (fd, some reply)

-- The connections of a run, each served before the next; `left` tells of an
-- error of `accept`, after which none is served.
pub data Turns
    : List Accepted → List (ℕ × Option (List ℕ)) → List (ℕ × Option (List ℕ)) → Bool → Type 0 where
  waiting : {served : List (ℕ × Option (List ℕ))} → Turns [] served served false
  retried :
      {accepts : List Accepted} {before after : List (ℕ × Option (List ℕ))} {left : Bool}
      → Turns accepts before after left
      → Turns (interrupted ∷ accepts) before after left
  ended :
      {reason : List ℕ} {accepts : List Accepted} {served : List (ℕ × Option (List ℕ))}
      → Turns (accept_fails reason ∷ accepts) served served true
  served_one :
      {fd : ℕ} {reads : List (List ℕ)} {accepts : List Accepted} {turn : ℕ × Option (List ℕ)}
      {before after : List (ℕ × Option (List ℕ))} {left : Bool}
      → Turn (receive [] reads) fd turn
      → Turns accepts (turn ∷ before) after left
      → Turns (connection fd reads ∷ accepts) before after left

-- The text that the platform gives has no newline.
abbrev pub OneLine : (List (List ℕ) → Option (List ℕ)) → Type 0
OneLine info = (names : List (List ℕ)) → Lacks newline (info_text (info names))

module _ (overflow : ℕ → ℕ → ℕ) (info : List (List ℕ) → Option (List ℕ)) (net : ℕ → Net) where
  answer-Turn :
      (fd : ℕ) (line : List ℕ) (r : Runner)
      → OneLine info
      → (r' : Runner) × (turn : ℕ × Option (List ℕ)) × (answer overflow info net fd line r
          ≡ some r')
        × (r'.served ≡ turn ∷ r.served)
        × Turn line fd turn
  unfolding answer
  answer-Turn fd [] r one =
      (record r { served = (fd, none) ∷ r.served }, (fd, none), refl, refl, silent)
  answer-Turn fd (c ∷ cs) r one =
      let (o, e, reply) =
        handle_line-Replies overflow (info r.invocations) (c ∷ cs) (one r.invocations) in
      let r' = logrecs net o.logs r in
      (
        record r' {
          served = (fd, some o.reply) ∷ r'.served;
          invocations = told o.invoked r'.invocations;
        },
        (fd, some o.reply),
        rw (e, answer) refl,
        ap (λ l. (fd, some o.reply) ∷ l) (logrecs-served net o.logs r),
        replied reply,
      )

  -- If the text that the platform gives has no newline, then the loop of `main` never gets stuck:
  -- whatever `accept` and `read` deliver, it serves the connections in their order, each with one
  -- reply if it sent anything and with none otherwise, and every reply is a single line of less
  -- than 512 bytes; it goes on after EINTR, and leaves at the first other error of `accept`.
  pub serve-Turns :
      (accepts : List Accepted) (r : Runner)
      → OneLine info
      → (end : Runner × Bool) × (serve overflow info net accepts r ≡ some end)
        × Turns accepts r.served end.0.served end.1
  unfolding serve
  serve-Turns [] r one = ((r, false), refl, waiting)
  serve-Turns (interrupted ∷ accepts) r one =
      let (end, e, turns) = serve-Turns accepts r one in (end, e, retried turns)
  serve-Turns (accept_fails reason ∷ accepts) r one =
      ((logrec net log_error (codes "accept: " ++ reason) r, true), refl, unfold logrec in ended)
  serve-Turns (connection fd reads ∷ accepts) r one =
      let (r', turn, e, same, t) = answer-Turn fd (receive [] reads) r one in
      let (end, e', turns) = serve-Turns accepts r' one in
      (
        end,
        rw (e, serve) e',
        served_one t (subst (λ b. Turns accepts b end.0.served end.1) same turns),
      )
