-- ===== src/Runner/Tests.antt =====
-- The function runner on concrete inputs.
use cs360v_cs380_projects.Prelude.{
  ℕ, ◌+◌, ◌-◌, ◌*◌, ◌^◌, ◌≤◌, ◌≡◌, refl, List, [], ◌∷◌, ◌++◌, Bool, true, false, All, none, some,
  inl, inr, codes, arith, length,
}
use cs360v_cs380_projects.Prelude.Text.{decimal, newline}
use cs360v_cs380_projects.LogStore.{logstore_open}
use cs360v_cs380_projects.Netlog.{Netlog, feed}
use cs360v_cs380_projects.Runner.Address.Dotted.{dotted, parse_ipv4-dotted}
use cs360v_cs380_projects.Runner.Numbers.{signed_decimal}
use cs360v_cs380_projects.Runner.LogSink.{LogSink, Net, no_sink, address, log_sink_emit}
use cs360v_cs380_projects.Runner.LogSink.Bounds.{IsValid}
use cs360v_cs380_projects.Runner.LogSink.Order.{in_transit}
use cs360v_cs380_projects.Runner.LogSink.Runs.{emit_all, Sent, emit_all-Sent, emit_all-lines}
use cs360v_cs380_projects.Runner.LogSink.Retry.{IsGood, IsDown, IsUp, emit_all-IsUp}
use cs360v_cs380_projects.Runner.LogSink.Short.{log_sink_emit-short}
use cs360v_cs380_projects.Runner.Functions.{ok, adds_in_range, fn_sum}
use cs360v_cs380_projects.Runner.Functions.Spaced.{spaced}
use cs360v_cs380_projects.Runner.Functions.Words.{IsWord}
use cs360v_cs380_projects.Runner.Functions.Sum.{printed, fn_sum-spaced}
use cs360v_cs380_projects.Runner.Protocol.{runner_platform_info}
use cs360v_cs380_projects.Runner.Protocol.Collected.{collected, record_lines, feed-record_lines}
use cs360v_cs380_projects.Runner.Server.{
  Runner, Accepted, connection, interrupted, accept_fails, receive, serve,
}
use cs360v_cs380_projects.Runner.Server.Receive.{receive-concat}
use cs360v_cs380_projects.Runner.Server.Counted.{serve-counted}
use cs360v_cs380_projects.Runner.Server.Turns.{Turns, serve-Turns}
use cs360v_cs380_projects.Runner.Args.{new_runner, read_args}
use cs360v_cs380_projects.Runner.Args.LogTo.{read_args-dotted}

-- A collector that takes all, one that is not there, and one that takes two bytes of a record.
abbrev good : Net
good = record {
  socket = some 5;
  connects = true;
  write_pend = λ bytes. record { sent = some (length bytes); would_block = false };
  write_line = λ bytes. record { sent = some (length bytes); would_block = false };
}

abbrev absent : Net
absent = record {
  socket = some 4;
  connects = false;
  write_pend = λ bytes. record { sent = none; would_block = false };
  write_line = λ bytes. record { sent = none; would_block = false };
}

abbrev partial : Net
partial = record {
  socket = some 4;
  connects = true;
  write_pend = λ bytes. record { sent = some 2; would_block = false };
  write_line = λ bytes. record { sent = some 2; would_block = true };
}

abbrev host : List ℕ
host = codes "10.0.0.1"

-- Not connected: one record is to be skipped, and one is held back.
abbrev waiting : LogSink
waiting = record no_sink {
  host = some host;
  port = 9000;
  skip = 1;
  backoff = 2;
  pend = codes "1 a\n";
}

-- Connected, with nothing held back.
abbrev connected : LogSink
connected = record no_sink { host = some host; port = 9000; fd = some 4 }

abbrev waiting-IsValid : IsValid waiting
waiting-IsValid = record { pend = omega arith; backoff = inr (inl refl); skip = omega arith }

abbrev run : List (Net × List ℕ)
run = (absent, codes "1 b\n") ∷ (good, codes "1 c\n") ∷ []

emit_all-Sent_example : Sent (in_transit waiting) run (in_transit (emit_all run waiting))
emit_all-Sent_example = emit_all-Sent run host waiting refl (inl refl, (inr (inr refl), tt))

emit_all-lines_example :
    in_transit (emit_all run waiting) ≡ codes "1 a\n" ++ (codes "1 b\n" ++ codes "1 c\n")
emit_all-lines_example =
    emit_all-lines run host waiting refl (inl refl, (inr (inr refl), tt)) (omega arith)

abbrev good-IsGood : IsGood good
good-IsGood = record {
  opened = 5;
  socket = refl;
  connects = refl;
  takes_pend = λ bytes. refl;
  takes_line = λ bytes. refl;
}

waiting-IsDown : IsDown (10 * 2 ^ 24 + 1) waiting
unfolding decimal
waiting-IsDown = record {
  target = parse_ipv4-dotted 10 0 0 1 (omega arith) (omega arith) (omega arith) (omega arith);
  down = refl;
}

words_plain :
    All
      (λ (w : List ℕ × List ℕ). IsWord w.1)
      (([], codes "map") ∷ (codes "  ", codes "reduce") ∷ [])
words_plain = (
  record { some_byte = omega arith; no_space = ground arith },
  (record { some_byte = omega arith; no_space = ground arith }, tt),
)

emit_all-IsUp_example :
    (2 ≤ 65)
    × ((records : List (Net × List ℕ))
        → All (λ r. IsGood r.0) records
        → length records ≡ 2
        → IsUp (emit_all records waiting))
emit_all-IsUp_example = emit_all-IsUp (10 * 2 ^ 24 + 1) waiting waiting-IsValid waiting-IsDown

log_sink_emit-short_example :
    in_transit (log_sink_emit partial (codes "1 b\n") connected) ≡ codes "1 1 b\n"
log_sink_emit-short_example =
    log_sink_emit-short partial (codes "1 b\n") host 4 2 connected refl refl refl refl (omega arith)
      (omega arith)

-- Overflow leaves the total.
abbrev keep : ℕ → ℕ → ℕ
keep total v = total

-- `7 -3` and a newline.
fn_sum-spaced_example :
    fn_sum keep (spaced (printed (([], 7) ∷ (codes " ", 2 ^ 64 - 3) ∷ [])) (codes "\n"))
    ≡ some (ok (signed_decimal 4))
unfolding adds_in_range
fn_sum-spaced_example =
    fn_sum-spaced keep (([], 7) ∷ (codes " ", 2 ^ 64 - 3) ∷ []) (codes "\n")
      (tt, (omega arith, (refl, tt), tt)) (omega arith, (omega arith, tt)) (refl, (refl, tt))
      (refl, tt)

abbrev split_reads : List (List ℕ)
split_reads = codes "RUN word" ∷ codes "count map  red" ∷ codes "uce \n" ∷ []

serve-counted_example :
    (r' : Runner) × (serve keep
        (λ names. runner_platform_info)
        (λ k. good)
        (connection 5 split_reads ∷ [])
        new_runner
      ≡ serve keep (λ names. runner_platform_info) (λ k. good) [] r')
    × (r'.served ≡ (5, some (codes "OK " ++ (decimal 2 ++ newline ∷ []))) ∷ [])
    × (r'.invocations ≡ codes "wordcount" ∷ [])
serve-counted_example =
    serve-counted keep (λ names. runner_platform_info) (λ k. good) 5 split_reads
      (([], codes "map") ∷ (codes "  ", codes "reduce") ∷ []) (codes " ") [] new_runner
      (omega arith, (omega arith, (omega arith, tt))) (tt, (omega arith, (refl, (refl, tt)), tt))
      words_plain (refl, tt) (ground arith) (ground arith) (omega arith) refl

abbrev idle : Netlog
idle = record { store = logstore_open; seq = 0 }

abbrev logs : List (ℕ × List ℕ)
logs = (1, codes "invoke sum") ∷ (3, codes "sum failed: not a number") ∷ []

feed-record_lines_example : feed idle [] (record_lines logs) ≡ (collected idle logs, [])
feed-record_lines_example = feed-record_lines logs idle (ground arith)

receive-concat_example : receive [] (codes "PI" ∷ codes "NG\n" ∷ []) ≡ codes "PING\n"
receive-concat_example =
    receive-concat (codes "PI" ∷ codes "NG\n" ∷ []) (codes "PING") (omega arith, (omega arith, tt))
      (ground arith) (omega arith) refl

abbrev accepts : List Accepted
accepts =
    connection 7 (codes "PI" ∷ codes "NG\n" ∷ [])
    ∷ interrupted
    ∷ connection 7 []
    ∷ accept_fails (codes "EMFILE")
    ∷ []

serve-Turns_example :
    (end : Runner × Bool) × (serve keep
        (λ names. runner_platform_info)
        (λ k. good)
        accepts
        new_runner
      ≡ some end)
    × Turns accepts [] end.0.served end.1
serve-Turns_example =
    serve-Turns keep (λ names. runner_platform_info) (λ k. good) accepts new_runner
      (λ names. ground arith)

read_args-dotted_example :
    (read_args
        (λ k. good)
        (decimal 80 ∷ codes "--log-to" ∷ (dotted 10 0 0 1 ++ b':' ∷ decimal 9000) ∷ [])
        8080
        new_runner
      ≡ (
        80,
        record new_runner { sink = record no_sink { host = some (dotted 10 0 0 1); port = 9000 } },
      ))
    × (address (some (dotted 10 0 0 1)) ≡ some (10 * 2 ^ 24 + 1))
read_args-dotted_example =
    read_args-dotted (λ k. good) 80 10 0 0 1 9000 8080 new_runner refl (omega arith) (omega arith)
      (omega arith) (omega arith) refl
