-- ===== src/Runner/Protocol/Replies.antt =====
-- runner.c: the replies of `handle_line`, and the log records.
use cs360v_cs380_projects.Prelude.{
  ℕ, ◌<◌, ◌≤◌, ◌≡◌, refl, subst, ap, List, [], ◌∷◌, ◌++◌, false, All, All-append, ◌==◌, length,
  arith, take, take_short, inl, inr, Bool-cases, Option-cases, length-append, length-take, Option,
  none, some, codes, bytes_eq,
}
use cs360v_cs380_projects.Prelude.Text.{newline, Lacks, space, c_string, split_at}
use cs360v_cs380_projects.Runner.Functions.{FnResult, ok, failed, text_of, snprintf, fn_wordcount}
use cs360v_cs380_projects.Runner.Functions.Ends.{FitsOut, wordcount-FitsOut, fn_sum-ends}
use cs360v_cs380_projects.Runner.Protocol.{
  Outcome, answered, reply_size, invoked_with, find_fn, funcs, run_fn, skip_blanks, run_command,
  stripped, after_prefix, info_text, command, handle_line, log_warn, log_debug,
}

-- One line, with no newline but the one at its end, that fits the buffer of 512 bytes with its NUL.
pub record IsReply (reply : List ℕ) : Type 0 where
  pub text : List ℕ
  pub line : reply ≡ text ++ newline ∷ []
  pub no_newline : Lacks newline text
  pub fits : length reply < reply_size

snprintf-IsReply :
    (text : List ℕ)
    → length text ≤ 510
    → Lacks newline text
    → IsReply (snprintf reply_size (text ++ newline ∷ []))
snprintf-IsReply text h one =
    let whole : snprintf reply_size (text ++ newline ∷ []) ≡ text ++ newline ∷ [] =
      take_short 511 (text ++ newline ∷ []) (omega (arith, h, length-append text (newline ∷ []))) in
    record {
      text = text;
      line = whole;
      no_newline = one;
      fits = omega (arith, h, ap length whole, length-append text (newline ∷ []));
    }

invoked_with-IsReply :
    (r : FnResult) (name : List ℕ) → FitsOut (text_of r) → IsReply (invoked_with name r).reply
unfolding invoked_with
invoked_with-IsReply (ok out) name h =
    snprintf-IsReply (codes "OK " ++ out) (omega (arith, h.0, length-append (codes "OK ") out))
      (All-append (λ c. (c == newline) ≡ false) (codes "OK ") out (ground arith) h.1)
invoked_with-IsReply (failed out) name h =
    snprintf-IsReply (codes "ERR " ++ out) (omega (arith, h.0, length-append (codes "ERR ") out))
      (All-append (λ c. (c == newline) ≡ false) (codes "ERR ") out (ground arith) h.1)

-- There is an outcome, with a reply.
abbrev pub Replies : Option Outcome → Type 0
Replies o = (outcome : Outcome) × (o ≡ some outcome) × IsReply outcome.reply

-- A function that returns a text that fits.
abbrev IsTotal : (List ℕ → Option FnResult) → Type 0
IsTotal fn = (payload : List ℕ) → (r : FnResult) × (fn payload ≡ some r) × FitsOut (text_of r)

wordcount-IsTotal : IsTotal (λ payload. some (fn_wordcount payload))
wordcount-IsTotal payload = (fn_wordcount payload, refl, wordcount-FitsOut payload)

abbrev FindsTotal : Option (List ℕ → Option FnResult) → Type 0
FindsTotal none = Unit
FindsTotal (some fn) = IsTotal fn

find_fn-FindsTotal :
    (name : List ℕ) (fs : List (List ℕ × (List ℕ → Option FnResult)))
    → All (λ f. IsTotal f.1) fs
    → FindsTotal (find_fn name fs)
unfolding find_fn
find_fn-FindsTotal name [] h = tt
find_fn-FindsTotal name ((known, fn) ∷ fs) h = elim (Bool-cases (bytes_eq name known)) [
  | inl here ↦ rw here h.0
  | inr later ↦ rw later (find_fn-FindsTotal name fs h.1)
]

funcs-IsTotal : (overflow : ℕ → ℕ → ℕ) → All (λ f. IsTotal f.1) (funcs overflow)
funcs-IsTotal overflow = (wordcount-IsTotal, (fn_sum-ends overflow, tt))

run_fn-Replies :
    (overflow : ℕ → ℕ → ℕ) (name payload : List ℕ) → Replies (run_fn overflow name payload)
unfolding run_fn
run_fn-Replies overflow name payload = elim (Option-cases (find_fn name (funcs overflow))) [
  | inl missing ↦ (
    answered (codes "ERR no such function") ((log_warn, codes "no such function: " ++ name) ∷ []),
    rw (missing, run_fn) refl,
    snprintf-IsReply (codes "ERR no such function") (omega arith) (ground arith),
  )
  | inr (fn, found) ↦
      let total : IsTotal fn =
        subst FindsTotal found
          (find_fn-FindsTotal name (funcs overflow) (funcs-IsTotal overflow)) in
      let (r, e, b) = total payload in
      (invoked_with name r, rw (found, e, run_fn) refl, invoked_with-IsReply r name b)
]

answered-Replies :
    (text : List ℕ) (logs : List (ℕ × List ℕ))
    → length text ≤ 510
    → Lacks newline text
    → Replies (some (answered text logs))
answered-Replies text logs h one = (answered text logs, refl, snprintf-IsReply text h one)

length-info_text : (info : Option (List ℕ)) → length (info_text info) ≤ 255
length-info_text none = omega arith
length-info_text (some text) = omega (arith, length-take 255 text)

command-Replies :
    (overflow : ℕ → ℕ → ℕ) (info : Option (List ℕ)) (line : List ℕ)
    → Lacks newline (info_text info)
    → Replies (command overflow info line)
unfolding command
command-Replies overflow info line one = elim (Bool-cases (bytes_eq line (codes "PING"))) [
  | inl ping ↦ rw ping (
      answered-Replies (codes "PONG") ((log_debug, codes "ping") ∷ []) (omega arith) (ground arith))
  | inr other ↦ elim (Bool-cases (bytes_eq line (codes "INFO"))) [
    | inl info_line ↦
        rw (other, info_line)
          (answered-Replies (codes "OK " ++ info_text info) ((log_debug, codes "info") ∷ [])
            (omega (arith, length-info_text info, length-append (codes "OK ") (info_text info)))
            (All-append (λ c. (c == newline) ≡ false) (codes "OK ") (info_text info) (ground arith)
              one))
    | inr other' ↦ elim (Bool-cases (bytes_eq line (codes "FUNCS"))) [
      | inl funcs_line ↦
          rw (other, other', funcs_line)
            (
              record {
                reply = codes "OK wordcount sum" ++ newline ∷ [];
                logs = (log_debug, codes "funcs") ∷ [];
                invoked = none;
              },
              refl,
              record {
                text = codes "OK wordcount sum";
                line = refl;
                no_newline = ground arith;
                fits = omega arith;
              },
            )
      | inr other'' ↦
          rw (other, other', other'')
            (elim (after_prefix (codes "RUN ") line)
              as (λ o. Replies (elim o [
                | some rest ↦ run_command overflow rest
                | none ↦
                    some (answered (codes "ERR bad command") ((log_warn, codes "bad command") ∷ []))
              ])) [
                | some rest ↦
                    (unfold run_command in
                      run_fn-Replies overflow (take 63 (split_at space (skip_blanks rest)).0)
                        (split_at space (skip_blanks rest)).1)
                | none ↦
                    answered-Replies (codes "ERR bad command")
                      ((log_warn, codes "bad command") ∷ []) (omega arith) (ground arith)
              ])
    ]
  ]
]

-- `handle_line` always answers: with one line, which fits the buffer of 512 bytes with its NUL,
-- whatever the line, if the text that the platform gives has no newline in what is kept of it.
pub handle_line-Replies :
    (overflow : ℕ → ℕ → ℕ) (info : Option (List ℕ)) (line : List ℕ)
    → Lacks newline (info_text info)
    → Replies (handle_line overflow info line)
unfolding handle_line
handle_line-Replies overflow info line one =
    command-Replies overflow info (stripped (c_string line)) one
