-- ===== src/Sys/Avoid.antt =====
-- Calls that an action of Sys.antt never makes, or not before it fails.
use cs360v_cs380_projects.Prelude.{
  ℕ, ◌≡◌, refl, ◌∙◌, ap, List, [], ◌∷◌, subst, sym, Bool, true, false, Bool-cases, inl, inr,
  if◌then◌else◌, All,
}
use cs360v_cs380_projects.Sys.{
  Call, Event, Trace, Host, Outcome, done, failed, Action, pure, give_up, and_then, ◌>>=◌, ◌>>◌,
  with_host, ask, must, note, ignore, regardless, finally, lastly, write_file, open_write, write,
  close_file,
}

-- The trace in which an outcome ends.
abbrev pub trace_of : {A : Type 0} → Outcome A → Trace
trace_of (done x t) = t
trace_of (failed t) = t

module _ (p : Call → Bool) where
  -- No call of the trace is of the kind `p`.
  abbrev pub Lacks : Trace → Type 0
  Lacks t = All (λ (e : Event). p e.0 ≡ false) t

  -- The action makes no call of the kind `p`.
  pub record Avoids {A : Type 0} (m : Action A) : Type 0 where
    pub run : (h : Host) (t : Trace) → Lacks t → Lacks (trace_of (m h t))

  pub Avoids-pure : {A : Type 0} (x : A) → Avoids (pure x)
  Avoids-pure x = record { run = λ h t l. l }

  pub Avoids-give_up : {A : Type 0} → Avoids (give_up {A = A})
  Avoids-give_up = record { run = λ h t l. l }

  pub Avoids-with_host :
      {A : Type 0} {m : Host → Action A} → ((h : Host) → Avoids (m h)) → Avoids (with_host m)
  Avoids-with_host a = record { run = λ h t l. unfold with_host in (a h).run h t l }

  pub Avoids-must : (c : Call) → p c ≡ false → Avoids (must c)
  Avoids-must c n = record {
    run = λ h t l.
        unfold must in elim (Bool-cases (h.ok t c)) [ inl e ↦ rw e (n, l) | inr e ↦ rw e (n, l) ];
  }

  pub Avoids-note : (c : Call) → p c ≡ false → Avoids (note c)
  Avoids-note c n = record { run = λ h t l. unfold note in (n, l) }

  pub Avoids-ask : (c : Call) → p c ≡ false → Avoids (ask c)
  Avoids-ask c n = record { run = λ h t l. unfold ask in (n, l) }

  module _ {A B : Type 0} where
    both :
        (o : Outcome A) (k : A → Action B) (h : Host)
        → ((x : A) → Avoids (k x))
        → Lacks (trace_of o)
        → Lacks (trace_of (and_then o k h))
    both (done x t) k h b v = (b x).run h t v
    both (failed t) k h b v = v

    pub Avoids-bind :
        {m : Action A} {k : A → Action B} → Avoids m → ((x : A) → Avoids (k x)) → Avoids (m >>= k)
    Avoids-bind {m} {k} a b = record { run = λ h t l. both (m h t) k h b (a.run h t l) }

  pub Avoids-then :
      {B : Type 0} {m : Action (Unit {0})} {n : Action B} → Avoids m → Avoids n → Avoids (m >> n)
  Avoids-then a b = Avoids-bind a (λ _. b)

  pub Avoids-if :
      {A : Type 0} (b : Bool) {m n : Action A} → Avoids m → Avoids n → Avoids (if b then m else n)
  Avoids-if true a b = a
  Avoids-if false a b = b

  ignored_too : {A : Type 0} (o : Outcome A) → Lacks (trace_of o) → Lacks (trace_of (regardless o))
  ignored_too (done x t) v = v
  ignored_too (failed t) v = v

  pub Avoids-ignore : {A : Type 0} {m : Action A} → Avoids m → Avoids (ignore m)
  Avoids-ignore {m = m} a = record { run = λ h t l. ignored_too (m h t) (a.run h t l) }

  and_last :
      (c : Call) (h : Host) (o : Outcome (Unit {0}))
      → p c ≡ false
      → Lacks (trace_of o)
      → Lacks (trace_of (lastly o c h))
  unfolding note
  and_last c h (done x t) n v = (n, v)
  and_last c h (failed t) n v = (n, v)

  pub Avoids-finally :
      (c : Call) {m : Action (Unit {0})} → p c ≡ false → Avoids m → Avoids (finally m c)
  Avoids-finally c {m} n a = record { run = λ h t l. and_last c h (m h t) n (a.run h t l) }

  pub Avoids-write_file :
      (path value : List ℕ)
      → p (open_write path) ≡ false
      → p (write path value) ≡ false
      → p (close_file path) ≡ false
      → Avoids (write_file path value)
  unfolding write_file
  Avoids-write_file path value o w c =
      Avoids-bind (Avoids-must (open_write path) o)
        (λ _. Avoids-finally (close_file path) c (Avoids-must (write path value) w))

-- It never fails.
pub record Succeeds {A : Type 0} (m : Action A) : Type 0 where
  pub run : (h : Host) (t : Trace) → (x : A) × (t' : Trace) × (m h t ≡ done x t')

pub Succeeds-pure : {A : Type 0} (x : A) → Succeeds (pure x)
Succeeds-pure x = record { run = λ h t. (x, t, refl) }

pub Succeeds-note : (c : Call) → Succeeds (note c)
Succeeds-note c = record { run = λ h t. unfold note in (tt, (c, h.ok t c) ∷ t, refl) }

pub Succeeds-if :
    {A : Type 0} (b : Bool) {m n : Action A}
    → Succeeds m
    → Succeeds n
    → Succeeds (if b then m else n)
Succeeds-if true p q = p
Succeeds-if false p q = q

regardless_done :
    {A : Type 0} (o : Outcome A) → (x : Unit {0}) × (t' : Trace) × (regardless o ≡ done x t')
regardless_done (done x t) = (tt, t, refl)
regardless_done (failed t) = (tt, t, refl)

pub Succeeds-ignore : {A : Type 0} (m : Action A) → Succeeds (ignore m)
Succeeds-ignore m = record { run = λ h t. regardless_done (m h t) }

pub Succeeds-then :
    {B : Type 0} {m : Action (Unit {0})} {n : Action B}
    → Succeeds m
    → Succeeds n
    → Succeeds (m >> n)
Succeeds-then {m = m} {n = n} p q = record {
  run = λ h t.
      let (x, t1, e) = p.run h t in
      let (y, t2, f) = q.run h t1 in (y, t2, ap (λ o. and_then o (λ _. n) h) e ∙ f);
}

module _ (p : Call → Bool) where
  -- What an outcome says of a failure.
  abbrev LacksIfFailed : {A : Type 0} → Outcome A → Type 0
  LacksIfFailed (done x t) = Unit
  LacksIfFailed (failed t) = Lacks p t

  -- Where it fails, it has made no call of the kind `p`.
  pub record FailsBefore {A : Type 0} (m : Action A) : Type 0 where
    pub run : (h : Host) (t : Trace) → Lacks p t → LacksIfFailed (m h t)

  pub Succeeds-FailsBefore : {A : Type 0} {m : Action A} → Succeeds m → FailsBefore m
  Succeeds-FailsBefore {m = m} s = record {
    run = λ h t l. subst LacksIfFailed (sym (s.run h t).2) tt;
  }

  module _ {B : Type 0} (n : Action B) (h : Host) (fails : FailsBefore n) where
    pub failed_then :
        (o : Outcome (Unit {0})) → Lacks p (trace_of o) → LacksIfFailed (and_then o (λ _. n) h)
    failed_then (done x t) l = fails.run h t l
    failed_then (failed t) l = l

  pub FailsBefore-then :
      {B : Type 0} {m : Action (Unit {0})} {n : Action B}
      → Avoids p m
      → FailsBefore n
      → FailsBefore (m >> n)
  FailsBefore-then {m = m} {n = n} a f = record {
    run = λ h t l. failed_then n h f (m h t) (a.run h t l);
  }

  pub FailsBefore-with_host :
      {A : Type 0} {m : Host → Action A}
      → ((h : Host) → FailsBefore (m h))
      → FailsBefore (with_host m)
  FailsBefore-with_host f = record { run = λ h t l. unfold with_host in (f h).run h t l }

  pub FailsBefore-failed :
      {A : Type 0} {m : Action A} {h : Host} {t : Trace}
      → FailsBefore m
      → m h [] ≡ failed t
      → Lacks p t
  FailsBefore-failed {h = h} f e = subst LacksIfFailed e (f.run h [] tt)
