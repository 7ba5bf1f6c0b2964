-- ===== src/Runner/Server/Receive.antt =====
-- runner.c: the bytes that the loop of `main` reads from a connection.
use cs360v_cs380_projects.Prelude.{
  ℕ, ◌-◌, ◌<◌, ◌≡◌, refl, sym, ◌∙◌, ap, leb, ◌==◌, List, [], ◌∷◌, ◌++◌, true, false, ◌||◌, All,
  length, arith, take, take_short, inl, inr, Bool-cases, append-nil, append_assoc, length-append,
  length-take,
}
use cs360v_cs380_projects.Prelude.Text.{newline, Lacks}
use cs360v_cs380_projects.Netlog.Lines.{concat}
use cs360v_cs380_projects.Runner.Protocol.{line_max_len}
use cs360v_cs380_projects.Runner.Server.{has_newline, receive}

has_newline-append : (xs : List ℕ) → has_newline (xs ++ newline ∷ []) ≡ true
has_newline-append [] = refl
has_newline-append (x ∷ xs) = ground (arith, has_newline-append xs)

abbrev head : List ℕ → ℕ
head [] = 0
head (x ∷ xs) = x

abbrev tail : List ℕ → List ℕ
tail [] = []
tail (x ∷ xs) = xs

-- A prefix with the newline is the whole line.
prefix_whole :
    (xs ys cmd : List ℕ)
    → Lacks newline cmd
    → has_newline xs ≡ true
    → xs ++ ys ≡ cmd ++ newline ∷ []
    → xs ≡ cmd ++ newline ∷ []
prefix_whole [] ys cmd n h e = absurd (ground (arith, h))
prefix_whole (x ∷ []) ys [] n h e = ap (λ k. k ∷ []) (ap head e)
prefix_whole (x ∷ y ∷ xs) ys [] n h e = absurd (omega (arith, ap length e))
prefix_whole (x ∷ xs) ys (c ∷ cmd) n h e =
    let same : x ≡ c = ap head e in
    let text : (x == newline) ≡ false = ap (λ k. k == newline) same ∙ n.0 in
    let later : has_newline xs ≡ true = ground (arith, h, text) in
    ap (λ k. k ∷ xs) same ∙ ap (λ l. c ∷ l) (prefix_whole xs ys cmd n.1 later (ap tail e))

-- Without it, there is more to come.
prefix_short :
    (xs ys cmd : List ℕ)
    → has_newline xs ≡ false
    → xs ++ ys ≡ cmd ++ newline ∷ []
    → length xs < length (cmd ++ newline ∷ [])
prefix_short xs [] cmd h e =
    let whole : has_newline xs ≡ true =
      ap has_newline (sym (append-nil xs) ∙ e) ∙ has_newline-append cmd in
    absurd (ground (arith, h, whole))
prefix_short xs (y ∷ ys) cmd h e = omega (arith, ap length e, length-append xs (y ∷ ys))

-- The reads deliver at least a byte each.
abbrev pub AreReads : List (List ℕ) → Type 0
AreReads = All (λ read. 0 < length read)

receive-rest :
    (reads : List (List ℕ)) (got cmd : List ℕ)
    → AreReads reads
    → Lacks newline cmd
    → length (cmd ++ newline ∷ []) < line_max_len
    → has_newline got ≡ false
    → got ++ concat reads ≡ cmd ++ newline ∷ []
    → receive got reads ≡ cmd ++ newline ∷ []
unfolding receive
receive-rest [] got cmd r n short unread e = sym (append-nil got) ∙ e
receive-rest ([] ∷ reads) got cmd r n short unread e = absurd (omega (arith, r.0))
receive-rest ((c ∷ cs) ∷ reads) got cmd r n short unread e =
    let e' : (got ++ (c ∷ cs)) ++ concat reads ≡ cmd ++ newline ∷ [] =
      append_assoc got (c ∷ cs) (concat reads) ∙ e in
    let room : take (line_max_len - 1 - length got) (c ∷ cs) ≡ c ∷ cs =
      take_short (line_max_len - 1 - length got) (c ∷ cs) (
        omega (
          arith,
          ap length e',
          short,
          length-append (got ++ (c ∷ cs)) (concat reads),
          length-append got (c ∷ cs),
        )) in
    elim (Bool-cases (has_newline (got ++ (c ∷ cs)))) [
      | inl closed ↦
          rw (room, closed, receive)
            (ap (λ t. got ++ t) room
              ∙ prefix_whole (got ++ (c ∷ cs)) (concat reads) cmd n closed e')
      | inr still ↦
          let less : leb (line_max_len - 1) (length (got ++ (c ∷ cs))) ≡ false =
            ground (arith, prefix_short (got ++ (c ∷ cs)) (concat reads) cmd still e', short) in
          rw (room, still, less, receive)
            (ap (λ t. receive (got ++ t) reads) room
              ∙ receive-rest reads (got ++ (c ∷ cs)) cmd r.1 n short still e')
    ]

-- A command and its newline, together shorter than 4096 bytes, are received whole and with nothing
-- else, in however many reads they arrive.
pub receive-concat :
    (reads : List (List ℕ)) (cmd : List ℕ)
    → AreReads reads
    → Lacks newline cmd
    → length (cmd ++ newline ∷ []) < line_max_len
    → concat reads ≡ cmd ++ newline ∷ []
    → receive [] reads ≡ cmd ++ newline ∷ []
receive-concat reads cmd r n short e = receive-rest reads [] cmd r n short refl e

-- Whatever arrives, the line buffer of 4096 bytes has room for it and its NUL.
pub receive-bound :
    (reads : List (List ℕ)) (got : List ℕ)
    → length got < line_max_len
    → length (receive got reads) < line_max_len
unfolding receive
receive-bound [] got h = h
receive-bound ([] ∷ reads) got h = h
receive-bound ((c ∷ cs) ∷ reads) got h =
    let got' = got ++ take (line_max_len - 1 - length got) (c ∷ cs) in
    let fits : length got' < line_max_len = omega (
      arith,
      h,
      length-append got (take (line_max_len - 1 - length got) (c ∷ cs)),
      length-take (line_max_len - 1 - length got) (c ∷ cs),
    ) in
    elim (Bool-cases (has_newline got' || leb (line_max_len - 1) (length got'))) [
      | inl full ↦ rw (full, receive) fits
      | inr more ↦ rw (more, receive) (receive-bound reads got' fits)
    ]
