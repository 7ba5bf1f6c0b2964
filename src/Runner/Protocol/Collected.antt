-- ===== src/Runner/Protocol/Collected.antt =====
-- runner.c and netlog.c: the runner's log records at the collector of project_1/emulator.
use cs360v_cs380_projects.Prelude.{
  ℕ, ◌+◌, ◌%◌, ◌^◌, ◌<◌, ◌≡◌, refl, ◌∙◌, ap, ltb, ◌==◌, List, [], ◌∷◌, ◌++◌, true, false, All,
  All-take, length, arith, take, length-append, length-take,
}
use cs360v_cs380_projects.Prelude.Text.{newline, space, decimal, decimal_digits, Lacks}
use cs360v_cs380_projects.LogStore.{logstore_append}
use cs360v_cs380_projects.Netlog.{Netlog, feed}
use cs360v_cs380_projects.Netlog.Lines.{
  request, request-Lacks, feed-line, feed-append, process_line-request,
}
use cs360v_cs380_projects.Runner.Protocol.{record_line}

one_digit : (level : ℕ) → level < 10 → decimal level ≡ (48 + level) ∷ []
unfolding decimal decimal_digits
one_digit level h =
    let small : ltb level 10 ≡ true = ground (arith, h) in
    rw (small, decimal_digits) (ap (λ d. d ∷ []) (omega (arith, h)))

-- The message that is left of a long one.
abbrev pub cut : List ℕ → List ℕ
cut message = take 4092 message

record_line-request :
    (level : ℕ) (message : List ℕ)
    → level < 10
    → record_line level message ≡ request level (cut message) ++ newline ∷ []
unfolding record_line
record_line-request level message h = rw (one_digit level h) refl

-- The collector's log after some records.
abbrev pub collected : Netlog → List (ℕ × List ℕ) → Netlog
collected nl [] = nl
collected nl ((level, message) ∷ logs) =
    collected
      (record {
        store = logstore_append nl.store nl.seq level (cut message);
        seq = (nl.seq + 1) % 2 ^ 32;
      })
      logs

abbrev pub record_lines : List (ℕ × List ℕ) → List ℕ
record_lines [] = []
record_lines ((level, message) ∷ logs) = record_line level message ++ record_lines logs

-- A level of one digit, and a message of one line.
abbrev pub IsPlain : ℕ × List ℕ → Type 0
IsPlain log = (log.0 < 10) × Lacks newline log.1 × Lacks 0 log.1

feed-record_line :
    (nl : Netlog) (level : ℕ) (message : List ℕ)
    → IsPlain (level, message)
    → feed nl [] (record_line level message) ≡ (collected nl ((level, message) ∷ []), [])
feed-record_line nl level message h =
    let one_line : Lacks newline (cut message) =
      All-take (λ c. (c == newline) ≡ false) 4092 message h.1 in
    let no_nul : Lacks 0 (cut message) = All-take (λ c. (c == 0) ≡ false) 4092 message h.2 in
    ap (feed nl []) (record_line-request level message h.0)
    ∙ feed-line nl (request level (cut message))
        (request-Lacks newline level (cut message) refl refl one_line)
        (omega (
          arith,
          length-append (decimal level) (space ∷ cut message),
          ap length (one_digit level h.0),
          length-take 4092 message,
        ))
    ∙ ap (λ s. (s, [])) (process_line-request nl level (cut message) (omega (arith, h.0)) no_nul)

-- The lines that the runner writes for its log records, fed to the collector of the monitor, are
-- appended to its log in their order, each with its level and its message, of which 4092 bytes are
-- kept: for levels of one digit and messages without newline and NUL.
pub feed-record_lines :
    (logs : List (ℕ × List ℕ)) (nl : Netlog)
    → All IsPlain logs
    → feed nl [] (record_lines logs) ≡ (collected nl logs, [])
feed-record_lines [] nl h = unfold feed in refl
feed-record_lines ((level, message) ∷ logs) nl h =
    feed-append (record_line level message) (record_lines logs) nl []
    ∙ ap (λ (s : Netlog × List ℕ). feed s.0 s.1 (record_lines logs))
        (feed-record_line nl level message h.0)
    ∙ feed-record_lines logs (collected nl ((level, message) ∷ [])) h.1
