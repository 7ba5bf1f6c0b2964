-- ===== src/Runner/Server/Counted.antt =====
-- runner.c: a connection that asks for the number of words of a text, from its reads to its reply.
use cs360v_cs380_projects.Prelude.{
  ℕ, ◌<◌, ◌≡◌, ◌==◌, refl, ◌∙◌, ap, sym, subst, true, List, [], ◌∷◌, ◌++◌, false, Option, some, All,
  All-append, length, codes, append_assoc, arith,
}
use cs360v_cs380_projects.Prelude.Text.{newline, is_space, decimal, Lacks}
use cs360v_cs380_projects.Netlog.Lines.{concat}
use cs360v_cs380_projects.Runner.LogSink.{Net}
use cs360v_cs380_projects.Runner.Functions.Spaced.{spaced, IsBlank, HasGaps}
use cs360v_cs380_projects.Runner.Functions.Words.{IsWord}
use cs360v_cs380_projects.Runner.Protocol.{line_max_len, handle_line, Outcome}
use cs360v_cs380_projects.Runner.Protocol.Wordcount.{counted, handle_line-wordcount}
use cs360v_cs380_projects.Runner.Server.{
  Runner, connection, Accepted, receive, logrec, logrecs, answer, serve, told,
}
use cs360v_cs380_projects.Runner.Server.Receive.{AreReads, receive-concat}
use cs360v_cs380_projects.Runner.Server.Turns.{logrecs-served}

spaced-append :
    (words : List (List ℕ × List ℕ)) (tail more : List ℕ)
    → spaced words (tail ++ more) ≡ spaced words tail ++ more
spaced-append [] tail more = refl
spaced-append ((gap, word) ∷ words) tail more =
    ap (λ l. gap ++ (word ++ l)) (spaced-append words tail more)
    ∙ ap (λ l. gap ++ l) (sym (append_assoc word (spaced words tail) more))
    ∙ sym (append_assoc gap (word ++ spaced words tail) more)

logrecs-invocations :
    (net : ℕ → Net) (logs : List (ℕ × List ℕ)) (r : Runner)
    → (logrecs net logs r).invocations ≡ r.invocations
unfolding logrecs logrec
logrecs-invocations net [] r = refl
logrecs-invocations net ((level, message) ∷ logs) r =
    logrecs-invocations net logs (logrec net level message r)

abbrev request_text : List ℕ → List ℕ
request_text text = codes "RUN wordcount " ++ text

module _ (overflow : ℕ → ℕ → ℕ) (info : List (List ℕ) → Option (List ℕ)) (net : ℕ → Net) where
  answer-outcome :
      (fd : ℕ) (line : List ℕ) (r : Runner) (o : Outcome)
      → 0 < length line
      → handle_line overflow (info r.invocations) line ≡ some o
      → (r' : Runner) × (answer overflow info net fd line r ≡ some r')
        × (r'.served ≡ (fd, some o.reply) ∷ r.served)
        × (r'.invocations ≡ told o.invoked r.invocations)
  unfolding answer
  answer-outcome fd [] r o some_line e = absurd (omega (arith, some_line))
  answer-outcome fd (c ∷ cs) r o some_line e =
      let r' = logrecs net o.logs r in
      (
        record r' {
          served = (fd, some o.reply) ∷ r'.served;
          invocations = told o.invoked r'.invocations;
        },
        rw (e, answer) refl,
        ap (λ l. (fd, some o.reply) ∷ l) (logrecs-served net o.logs r),
        ap (told o.invoked) (logrecs-invocations net o.logs r),
      )

  -- A client that sends `RUN wordcount TEXT` and a newline, together shorter than 4096 bytes, in
  -- however many reads they arrive, gets one reply, `OK` and the number of words of the text; its
  -- connection is closed, one call of `wordcount` is told to `runner_on_invoke`, and the loop of
  -- `main` goes on with the next connection. It holds for words with white space between them, and
  -- any before the first and behind the last, without newline and NUL.
  pub serve-counted :
      (fd : ℕ) (reads : List (List ℕ)) (words : List (List ℕ × List ℕ)) (tail : List ℕ)
      (accepts : List Accepted) (r : Runner)
      → AreReads reads
      → HasGaps false words
      → All (λ w. IsWord w.1) words
      → IsBlank tail
      → Lacks 0 (spaced words tail)
      → Lacks newline (spaced words tail)
      → length (request_text (spaced words tail) ++ newline ∷ []) < line_max_len
      → concat reads ≡ request_text (spaced words tail) ++ newline ∷ []
      → (r' : Runner) × (serve overflow info net (connection fd reads ∷ accepts) r
          ≡ serve overflow info net accepts r')
        × (r'.served
            ≡ (fd, some (codes "OK " ++ (decimal (length words) ++ newline ∷ []))) ∷ r.served)
        × (r'.invocations ≡ codes "wordcount" ∷ r.invocations)
  unfolding serve
  serve-counted fd reads words tail accepts r a g w t z n short whole =
      let text = spaced words tail in
      let got : receive [] reads ≡ request_text text ++ newline ∷ [] =
        receive-concat reads (request_text text) a
          (All-append (λ c. (c == newline) ≡ false) (codes "RUN wordcount ") text (ground arith) n)
          short whole in
      let line : request_text text ++ newline ∷ []
          ≡ request_text (spaced words (tail ++ newline ∷ [])) =
        ap request_text (sym (spaced-append words tail (newline ∷ []))) in
      let no_nul : Lacks 0 (spaced words (tail ++ newline ∷ [])) =
        subst (Lacks 0) (sym (spaced-append words tail (newline ∷ [])))
          (All-append (λ c. (c == 0) ≡ false) text (newline ∷ []) z (refl, tt)) in
      let blank : IsBlank (tail ++ newline ∷ []) =
        All-append (λ c. is_space c ≡ true) tail (newline ∷ []) t (refl, tt) in
      let handled : handle_line overflow (info r.invocations) (receive [] reads)
          ≡ some (counted (length words)) =
        ap (handle_line overflow (info r.invocations)) (got ∙ line)
        ∙ handle_line-wordcount overflow (info r.invocations) words (tail ++ newline ∷ []) g w blank
            no_nul in
      let (r', run, served, told_one) =
        answer-outcome fd (receive [] reads) r (counted (length words))
          (omega (arith, ap length got)) handled in
      (r', rw (run, serve) refl, served, told_one)
