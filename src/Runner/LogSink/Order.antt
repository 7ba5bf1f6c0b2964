-- ===== src/Runner/LogSink/Order.antt =====
-- runner.c: what of the records reaches the collector, and in which order.
use cs360v_cs380_projects.Prelude.{
  ℕ, zero, suc, ◌+◌, ◌-◌, ◌<◌, ◌≡◌, refl, sym, subst, ◌∙◌, ap, ltb, ◌==◌, List, [], ◌∷◌, ◌++◌, true,
  false, Option, none, some, inl, inr, ◌⊎◌, Bool-cases, arith, length, take, drop, append_assoc,
  append-nil,
}
use cs360v_cs380_projects.Runner.LogSink.{
  LogSink, Net, Write, pend_size, taken, took, dial, connect_to, address, log_sink_connect,
  log_pend, back_off, log_sink_drop, held, write_record, flush, attempted, emit_to, log_sink_emit,
}

-- What the collector was sent and what is held back for it.
abbrev pub in_transit : LogSink → List ℕ
in_transit s = s.wire ++ s.pend

-- A write of a record takes all of it or nothing.
abbrev pub IsWhole : Write → ℕ → Type 0
IsWhole w n = (w.sent ≡ none) ⊎ (w.sent ≡ some 0) ⊎ (w.sent ≡ some n)

-- A record comes last, or it is dropped because the buffer has no room for it.
abbrev pub Follows : List ℕ → List ℕ → LogSink → Type 0
Follows before line s =
    (in_transit s ≡ before ++ line)
    ⊎ ((in_transit s ≡ before) × (pend_size < length s.pend + length line))

log_pend-Follows :
    (before line : List ℕ) (s : LogSink)
    → in_transit s ≡ before
    → Follows before line (log_pend line s)
unfolding log_pend
log_pend-Follows before line s e = elim (Bool-cases (ltb pend_size (length s.pend + length line))) [
  | inl full ↦ rw full (inr (e, ground arith))
  | inr room ↦ rw room (inl (sym (append_assoc s.wire s.pend line) ∙ ap (λ l. l ++ line) e))
]

held-Follows :
    (before : List ℕ) (fd : ℕ) (w : Write) (line : List ℕ) (s : LogSink)
    → in_transit s ≡ before
    → Follows before line (held fd w line s)
unfolding held log_sink_drop back_off
held-Follows before fd w line s e = elim (Bool-cases w.would_block) [
  | inl waits ↦ rw waits (log_pend-Follows before line s e)
  | inr broken ↦ rw broken (log_pend-Follows before line (log_sink_drop fd s) e)
]

take-drop : (n : ℕ) (xs : List ℕ) → take n xs ++ drop n xs ≡ xs
take-drop zero xs = refl
take-drop (suc n) [] = refl
take-drop (suc n) (x ∷ xs) = ap (λ l. x ∷ l) (take-drop n xs)

take_all : (xs : List ℕ) → take (length xs) xs ≡ xs
take_all [] = refl
take_all (x ∷ xs) = ap (λ l. x ∷ l) (take_all xs)

pub drop_all : (xs : List ℕ) → drop (length xs) xs ≡ []
drop_all [] = refl
drop_all (x ∷ xs) = drop_all xs

pub took-taken : (w : Write) (n : ℕ) → took w n ≡ true → taken w ≡ n
took-taken w n h = ground arith

short-taken : (w : Write) (n : ℕ) → IsWhole w n → took w n ≡ false → taken w ≡ 0
short-taken w n h p = ground (arith, h)

write_record-Follows :
    (before : List ℕ) (net : Net) (fd : ℕ) (line : List ℕ) (s : LogSink)
    → IsWhole (net.write_line line) (length line)
    → s.pend ≡ []
    → in_transit s ≡ before
    → Follows before line (write_record net fd line s)
unfolding write_record
write_record-Follows before net fd line s whole empty e =
    elim (Bool-cases (took (net.write_line line) (length line))) [
      | inl all ↦ rw all (
          inl (
            ap (λ p. (s.wire ++ take (taken (net.write_line line)) line) ++ p) empty
            ∙ append-nil (s.wire ++ take (taken (net.write_line line)) line)
            ∙ ap (λ k. s.wire ++ take k line) (took-taken (net.write_line line) (length line) all)
            ∙ ap (λ l. s.wire ++ l) (take_all line)
            ∙ ap (λ l. l ++ line)
                (sym (append-nil s.wire) ∙ ap (λ p. s.wire ++ p) (sym empty) ∙ e)))
      | inr part ↦ rw part (
          held-Follows before fd (net.write_line line) line
            (record s { wire = s.wire ++ take (taken (net.write_line line)) line })
            (ap (λ k. (s.wire ++ take k line) ++ s.pend)
                (short-taken (net.write_line line) (length line) whole part)
              ∙ ap (λ l. l ++ s.pend) (append-nil s.wire)
              ∙ e))
    ]

flush-Follows :
    (before : List ℕ) (net : Net) (fd : ℕ) (line : List ℕ) (s : LogSink)
    → IsWhole (net.write_line line) (length line)
    → in_transit s ≡ before
    → Follows before line (flush net fd line s)
unfolding flush
flush-Follows before net fd line s whole e =
    let w = net.write_pend s.pend in
    let s' = record s { wire = s.wire ++ take (taken w) s.pend; pend = drop (taken w) s.pend } in
    let e' : in_transit s' ≡ before =
      append_assoc s.wire (take (taken w) s.pend) (drop (taken w) s.pend)
      ∙ ap (λ l. s.wire ++ l) (take-drop (taken w) s.pend)
      ∙ e in
    elim (Bool-cases (length s.pend == 0)) [
      | inl empty ↦
          rw empty (write_record-Follows before net fd line s whole (no_bytes s.pend empty) e)
      | inr more ↦ elim (Bool-cases (took w (length s.pend))) [
        | inl all ↦
            rw (more, all)
              (write_record-Follows before net fd line s' whole
                (ap (λ k. drop k s.pend) (took-taken w (length s.pend) all) ∙ drop_all s.pend) e')
        | inr part ↦ elim (Bool-cases (ltb 0 (taken w))) [
          | inl some_taken ↦ rw (more, part, some_taken) (log_pend-Follows before line s' e')
          | inr none_taken ↦ rw (more, part, none_taken) (held-Follows before fd w line s' e')
        ]
      ]
    ]
  where
    no_bytes : (xs : List ℕ) → (length xs == 0) ≡ true → xs ≡ []
    no_bytes [] h = refl
    no_bytes (x ∷ xs) h = ground arith

dial-in_transit :
    (net : Net) (ip : ℕ) (fd : Option ℕ) (s : LogSink)
    → in_transit (dial net ip fd s).0 ≡ in_transit s
unfolding dial
dial-in_transit net ip none s = refl
dial-in_transit net ip (some fd) s = ground arith

connect_to-in_transit :
    (net : Net) (ip : Option ℕ) (s : LogSink) → in_transit (connect_to net ip s).0 ≡ in_transit s
unfolding connect_to
connect_to-in_transit net none s = refl
connect_to-in_transit net (some ip) s = dial-in_transit net ip net.socket s

attempted-Follows :
    (before : List ℕ) (net : Net) (line : List ℕ) (r : LogSink × Option ℕ)
    → IsWhole (net.write_line line) (length line)
    → in_transit r.0 ≡ before
    → Follows before line (attempted net line r)
unfolding attempted back_off
attempted-Follows before net line (s, none) whole e = log_pend-Follows before line (back_off s) e
attempted-Follows before net line (s, some fd) whole e =
    flush-Follows before net fd line (record s { fd = some fd; backoff = 1 }) whole e

emit_to-Follows :
    (net : Net) (line : List ℕ) (fd : Option ℕ) (s : LogSink)
    → IsWhole (net.write_line line) (length line)
    → Follows (in_transit s) line (emit_to net line fd s)
unfolding emit_to log_sink_connect
emit_to-Follows net line (some fd) s whole = flush-Follows (in_transit s) net fd line s whole refl
emit_to-Follows net line none s whole = elim (Bool-cases (ltb 0 s.skip)) [
  | inl waits ↦
      rw waits (log_pend-Follows (in_transit s) line (record s { skip = s.skip - 1 }) refl)
  | inr now ↦ rw now (
      attempted-Follows (in_transit s) net line (log_sink_connect net s) whole
        (connect_to-in_transit net (address s.host) s))
]

pub log_sink_emit-Follows :
    (net : Net) (line host : List ℕ) (s : LogSink)
    → s.host ≡ some host
    → IsWhole (net.write_line line) (length line)
    → Follows (in_transit s) line (log_sink_emit net line s)
unfolding log_sink_emit
log_sink_emit-Follows net line host s on whole =
    subst
      (λ h. Follows (in_transit s) line (elim h [ none ↦ s | some host ↦ emit_to net line s.fd s ]))
      (sym on) (emit_to-Follows net line s.fd s whole)
