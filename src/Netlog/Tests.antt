-- ===== src/Netlog/Tests.antt =====
-- The listener on concrete bytes.
use cs360v_cs380_projects.Prelude.{
  ℕ, none, zero, suc, ◌+◌, ◌≡◌, refl, List, [], ◌∷◌, ◌++◌, true, false, codes, some, arith,
}
use cs360v_cs380_projects.Prelude.Text.{newline, decimal}
use cs360v_cs380_projects.LogStore.{logstore_open, logstore_append}
use cs360v_cs380_projects.Netlog.{Netlog, Flags, Listener, round}
use cs360v_cs380_projects.Netlog.Lines.{feed_reads, feed_reads-request}
use cs360v_cs380_projects.Netlog.Rounds.{
  IsListener, fds, occurs, arrivals, round-IsListener, round-stale,
}

abbrev idle : Netlog
idle = record { store = logstore_open; seq = 5 }

-- `12 hi` in two reads.
feed_reads-request_example :
    feed_reads idle [] (codes "12 h" ∷ (codes "i" ++ newline ∷ []) ∷ [])
    ≡ (record { store = logstore_append logstore_open 5 12 (codes "hi"); seq = 6 }, [])
unfolding decimal
feed_reads-request_example =
    feed_reads-request idle 12 (codes "hi") (codes "12 h" ∷ (codes "i" ++ newline ∷ []) ∷ [])
      (omega arith) (ground arith) (ground arith) (omega arith) refl

abbrev quiet : Flags
quiet = record { pollin = false; hangup = false }

abbrev hung_up : Flags
hung_up = record { pollin = false; hangup = true }

-- `n` slots that are quiet.
abbrev quiet_slots : ℕ → List Flags
quiet_slots zero = []
quiet_slots (suc n) = quiet ∷ quiet_slots n

-- One producer; in the second slot, another hung up a round ago.
abbrev listener : Listener
listener = record {
  log = idle;
  conns = record { fd = 9; buf = codes "2 par" } ∷ [];
  revents = quiet ∷ hung_up ∷ quiet_slots 62;
  closed = 8 ∷ [];
}

listener-IsListener : IsListener listener
listener-IsListener = record { count = omega arith; slots = refl; room = (omega arith, tt) }

-- What the producers have to read.
abbrev hello : ℕ → List ℕ
hello fd = codes "1 hello" ++ newline ∷ []

round-IsListener_example :
    let l' = round (quiet ∷ []) (some 10) hello listener in
    IsListener l'
    × ((k : ℕ)
        → occurs k (fds l'.conns) + occurs k l'.closed
          ≡ occurs k (fds listener.conns)
            + occurs k listener.closed
            + occurs k (arrivals (some 10)))
round-IsListener_example =
    round-IsListener (quiet ∷ []) (some 10) hello listener refl listener-IsListener

round-stale_example :
    let without = round (quiet ∷ []) none hello listener in
    (before : List ℕ) × (without.closed ≡ before ++ 8 ∷ [])
    × (round (quiet ∷ []) (some 10) hello listener
        ≡ record without { closed = (before ++ 10 ∷ []) ++ 8 ∷ [] })
round-stale_example =
    round-stale (quiet ∷ []) (quiet_slots 62) 10 hung_up hello listener refl (omega arith) refl refl
      refl
