-- ===== src/Sys/Trace.antt =====
-- What an action of Sys.antt adds to a trace: calls that succeed in order, and calls that it never
-- makes.
use cs360v_cs380_projects.Prelude.{
  ℕ, ◌≡◌, refl, List, [], ◌∷◌, ◌++◌, append_assoc, subst, sym, Bool, true, false, Bool-cases, inl,
  inr, ◌⊎◌, if◌then◌else◌,
}
use cs360v_cs380_projects.Sys.{
  Call, Event, Trace, Host, Outcome, done, failed, Action, pure, give_up, and_then, ◌>>=◌, ◌>>◌,
  with_host, ask, must, note, ignore, regardless, finally, lastly, write_file, open_write, write,
  close_file,
}

-- The events of the first list stand in the second, in its order.
abbrev pub Within : Trace → Trace → Type 0
Within [] t = Unit
Within (e ∷ s) [] = ⊥
Within (e ∷ s) (f ∷ t) = ((e ≡ f) × Within s t) ⊎ Within (e ∷ s) t

later : (s : Trace) (e : Event) (t : Trace) → Within s t → Within s (e ∷ t)
later [] e t w = tt
later (f ∷ s) e t w = inr w

drop_one : (e : Event) (s t : Trace) → Within (e ∷ s) t → Within s t
drop_one e s [] w = absurd w
drop_one e s (f ∷ t) (inl (p, w)) = later s _ _ w
drop_one e s (f ∷ t) (inr w) = later s _ _ (drop_one e s t w)

drop_front : (es s t : Trace) → Within (es ++ s) t → Within s t
drop_front [] s t w = w
drop_front (e ∷ es) s t w = drop_front es s t (drop_one e (es ++ s) t w)

-- An outcome that adds `es`, or fails, to a trace in which `s` stood.
abbrev pub Added : {A : Type 0} → Trace → Trace → Outcome A → Type 0
Added es s (done x t) = Within (es ++ s) t
Added es s (failed t) = Within s t

-- What a complete `write_file` records.
abbrev pub written : (path value : List ℕ) → Trace
written path value = (write path value, true) ∷ (open_write path, true) ∷ []

module _ (h : Host) where
  -- Where the action does not fail it has made the calls `es`, latest first; it never loses a
  -- trace.
  pub record Makes {A : Type 0} (m : Action A) (es : Trace) : Type 0 where
    pub run : (s t : Trace) → Within s t → Added es s (m h t)

  pub Makes-pure : {A : Type 0} (x : A) → Makes (pure x) []
  Makes-pure x = record { run = λ s t w. w }

  pub Makes-with_host :
      {A : Type 0} (m : Host → Action A) {es : Trace} → Makes (m h) es → Makes (with_host m) es
  Makes-with_host m p = record { run = λ s t w. unfold with_host in p.run s t w }

  pub Makes-must : (c : Call) → Makes (must c) ((c, true) ∷ [])
  Makes-must c = record {
    run = λ s t w.
        unfold must in
        elim (Bool-cases (h.ok t c)) [
          | inl e ↦ rw e (inl (refl, w))
          | inr e ↦ rw e (later s _ _ w)
        ];
  }

  pub Makes-note : (c : Call) → Makes (note c) []
  Makes-note c = record { run = λ s t w. unfold note in later s _ _ w }

  pub Makes-ask : (c : Call) → Makes (ask c) []
  Makes-ask c = record { run = λ s t w. unfold ask in later s _ _ w }

  onto :
      {B : Type 0} (es fs s : Trace) (o : Outcome B) → Added fs (es ++ s) o → Added (fs ++ es) s o
  onto es fs s (done y t) v = subst (λ l. Within l t) (sym (append_assoc fs es s)) v
  onto es fs s (failed t) v = drop_front es s t v

  module _ {A B : Type 0} where
    Added-then :
        (es fs s : Trace) (o : Outcome A) (k : A → Action B)
        → ((x : A) → Makes (k x) fs)
        → Added es s o
        → Added (fs ++ es) s (and_then o k h)
    Added-then es fs s (done x t) k ks w = onto es fs s (k x h t) ((ks x).run (es ++ s) t w)
    Added-then es fs s (failed t) k ks w = w

    pub Makes-bind :
        (es fs : Trace) {m : Action A} {k : A → Action B}
        → Makes m es
        → ((x : A) → Makes (k x) fs)
        → Makes (m >>= k) (fs ++ es)
    Makes-bind es fs {m} {k} p q = record {
      run = λ s t w. Added-then es fs s (m h t) k q (p.run s t w);
    }

  pub Makes-then :
      {B : Type 0} {es fs : Trace} {m : Action (Unit {0})} {n : Action B}
      → Makes m es
      → Makes n fs
      → Makes (m >> n) (fs ++ es)
  Makes-then {es = es} {fs = fs} p q = Makes-bind es fs p (λ _. q)

  module _ {A : Type 0} where
    weaker : (es s : Trace) (o : Outcome A) → Added es s o → Added [] s o
    weaker es s (done x t) v = drop_front es s t v
    weaker es s (failed t) v = v

    pub Makes-weaken : (es : Trace) {m : Action A} → Makes m es → Makes m []
    Makes-weaken es {m} p = record { run = λ s t w. weaker es s (m h t) (p.run s t w) }

    ignored : (s : Trace) (o : Outcome A) → Added [] s o → Added [] s (regardless o)
    ignored s (done x t) v = v
    ignored s (failed t) v = v

    pub Makes-ignore : {m : Action A} → Makes m [] → Makes (ignore m) []
    Makes-ignore {m} p = record { run = λ s t w. ignored s (m h t) (p.run s t w) }

    pub Makes-give_up : (es : Trace) → Makes (give_up {A = A}) es
    Makes-give_up es = record { run = λ s t w. w }

    pub Makes-if :
        (b : Bool) (es : Trace) {m n : Action A}
        → Makes m es
        → Makes n es
        → Makes (if b then m else n) es
    Makes-if true es p q = p
    Makes-if false es p q = q

  -- An action that is asked for nothing still loses no trace.
  pub Grows-must : (c : Call) → Makes (must c) []
  Grows-must c = Makes-weaken ((c, true) ∷ []) (Makes-must c)

  pub Grows-then :
      {B : Type 0} {m : Action (Unit {0})} {n : Action B}
      → Makes m []
      → Makes n []
      → Makes (m >> n) []
  Grows-then p q = Makes-bind [] [] p (λ _. q)

  with_last :
      (es s : Trace) (c : Call) (o : Outcome (Unit {0})) → Added es s o → Added es s (lastly o c h)
  unfolding note
  with_last es s c (done x t) v = later (es ++ s) _ _ v
  with_last es s c (failed t) v = later s _ _ v

  pub Makes-finally :
      (es : Trace) (c : Call) {m : Action (Unit {0})} → Makes m es → Makes (finally m c) es
  Makes-finally es c {m} p = record { run = λ s t w. with_last es s c (m h t) (p.run s t w) }

  pub Makes-write_file : (path value : List ℕ) → Makes (write_file path value) (written path value)
  unfolding write_file
  Makes-write_file path value =
      Makes-bind ((open_write path, true) ∷ []) ((write path value, true) ∷ [])
        (Makes-must (open_write path))
        (λ _.
          Makes-finally ((write path value, true) ∷ []) (close_file path)
            (Makes-must (write path value)))
