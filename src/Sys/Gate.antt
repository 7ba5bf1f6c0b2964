-- ===== src/Sys/Gate.antt =====
-- A call of Sys.antt that is not made unless all before it succeeds.
use cs360v_cs380_projects.Prelude.{
  refl, [], ◌∷◌, append-nil, subst, Bool, true, false, Bool-cases, inl, inr, ◌⊎◌,
}
use cs360v_cs380_projects.Sys.{
  Call, Trace, Host, Outcome, done, failed, Action, and_then, ◌>>◌, must,
}
use cs360v_cs380_projects.Sys.Trace.{Within, Added, Makes}
use cs360v_cs380_projects.Sys.Avoid.{trace_of, Lacks, Avoids}

-- A call behind a gate: it is not made unless all before it succeeds.
module _ (p : Call → Bool) (h : Host) {A : Type 0} {k : Action A} (c : Call) (es : Trace) where
  after_call :
      Makes h k []
      → (t : Trace) → Within es t
      → (b : Bool) × Within ((c, b) ∷ es) (trace_of ((must c >> k) h t))
  unfolding must
  after_call next t w = elim (Bool-cases (h.ok t c)) [
    | inl e ↦ (
      true,
      rw e
          (grown (k h ((c, true) ∷ t)) (next.run ((c, true) ∷ es) ((c, true) ∷ t) (inl (refl, w)))),
    )
    | inr e ↦ (false, rw e (inl (refl, w)))
  ]
    where
      grown : (o : Outcome A) → Added [] ((c, true) ∷ es) o → Within ((c, true) ∷ es) (trace_of o)
      grown (done x t') v = v
      grown (failed t') v = v

  pub gate :
      {m : Action (Unit {0})}
      → Makes h m es
      → Avoids p m
      → Makes h k []
      → let t = trace_of ((m >> must c >> k) h []) in
        Lacks p t ⊎ ((b : Bool) × Within ((c, b) ∷ es) t)
  gate {m} makes avoids next = through (m h []) (makes.run [] [] tt) (avoids.run h [] tt)
    where
      through :
          (o : Outcome (Unit {0}))
          → Added es [] o
          → Lacks p (trace_of o)
          → let t = trace_of (and_then o (λ _. must c >> k) h) in
            Lacks p t ⊎ ((b : Bool) × Within ((c, b) ∷ es) t)
      through (done x t) v l = inr (after_call next t (subst (λ l. Within l t) (append-nil es) v))
      through (failed t) v l = inl l
