-- ===== src/Container/Reap.antt =====
-- The init's reaping loop of container.c.
use cs360v_cs380_projects.Prelude.{ℕ, ◌≡◌, ◌≢◌, refl, List, [], ◌∷◌, ◌++◌, All, arith}
use cs360v_cs380_projects.Sys.{Status}
use cs360v_cs380_projects.Container.Life.{reap, exit_of, no_status}

abbrev pub Orphan : ℕ → ℕ × Status → Type 0
Orphan command r = r.0 ≢ command

abbrev pub pids : List (ℕ × Status) → List ℕ
pids [] = []
pids (r ∷ rs) = r.0 ∷ pids rs

-- The init reaps every orphan that dies before the command, stops at the command and returns its
-- exit status, 128 and the signal if it was killed; without a report of the command it reaps all
-- and returns -1.
pub reap_lem :
    (command : ℕ) (orphans : List (ℕ × Status))
    → All (Orphan command) orphans
    → ((status : Status) (rest : List (ℕ × Status))
        → reap command (orphans ++ (command, status) ∷ rest)
          ≡ (exit_of status, pids orphans ++ command ∷ []))
      × (reap command orphans ≡ (no_status, pids orphans))
unfolding reap
reap_lem command [] h = (λ status rest. ground arith, refl)
reap_lem command ((pid, status) ∷ orphans) h = (
  λ s rest. ground (arith, (reap_lem command orphans h.1).0 s rest),
  ground (arith, (reap_lem command orphans h.1).1),
)
