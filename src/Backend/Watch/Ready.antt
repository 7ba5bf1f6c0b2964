-- ===== src/Backend/Watch/Ready.antt =====
-- project_1/vhost/backend.c: the callback of a descriptor that is ready.
use cs360v_cs380_projects.Prelude.{
  ℕ, ◌≤◌, ◌≡◌, refl, ◌∙◌, ltb, ◌==◌, if◌then◌else◌, List, [], ◌∷◌, ◌&&◌, ◌||◌, none, some, length,
  inl, inr, Bool-cases, arith,
}
use cs360v_cs380_projects.Backend.Watch.{
  Watch, max_watches, is_watched, set_watch, remove_watch, watch_of,
}
use cs360v_cs380_projects.Backend.Watch.Table.{
  Misses, AreDistinct, IsTable, same-Misses, is_watched-Misses, set_watch-IsTable, watch_of-replace,
  watch_of-append, last_in_place-Misses, last_in_place-AreDistinct, watch_of-last_in_place,
  length-last_in_place,
}

watch_of-Misses : (k : ℕ) (ws : List Watch) → Misses k ws → watch_of k ws ≡ none
unfolding watch_of
watch_of-Misses k [] h = refl
watch_of-Misses k (w ∷ ws) h = ground (arith, h.0, watch_of-Misses k ws h.1)

-- A table stays one when a watch is set. If the descriptor was watched or one of the 32 entries is
-- free, it has the new callback; otherwise the new one is dropped without a sign. Other descriptors
-- keep theirs.
pub set_watch_lem :
    (new : Watch) (ws : List Watch)
    → IsTable ws
    → IsTable (set_watch new ws)
      × ((k : ℕ)
          → watch_of k (set_watch new ws) ≡ (
              if (new.fd == k) && (is_watched new.fd ws || ltb (length ws) 32)
              then some new
              else watch_of k ws))
set_watch_lem new ws t = (set_watch-IsTable new ws t, seen)
  where
    seen :
        (k : ℕ)
        → watch_of k (set_watch new ws) ≡ (
            if (new.fd == k) && (is_watched new.fd ws || ltb (length ws) 32)
            then some new
            else watch_of k ws)
    seen k =
        unfold set_watch in
        elim (Bool-cases (is_watched new.fd ws)) [
          | inl old ↦ rw old (ground (arith, watch_of-replace new ws k old))
          | inr fresh ↦ elim (Bool-cases (ltb (length ws) max_watches)) [
            | inl room ↦
                rw (fresh, room)
                  (ground (arith, watch_of-append ws new k (is_watched-Misses new.fd ws fresh)))
            | inr full ↦ rw (fresh, full) (ground arith)
          ]
        ]

remove_watch-Misses : (fd k : ℕ) (ws : List Watch) → Misses k ws → Misses k (remove_watch fd ws)
unfolding remove_watch
remove_watch-Misses fd k [] h = tt
remove_watch-Misses fd k (w ∷ ws) h = elim (Bool-cases (w.fd == fd)) [
  | inl here ↦ rw here (last_in_place-Misses k ws h.1)
  | inr later ↦ rw later (h.0, remove_watch-Misses fd k ws h.1)
]

remove_watch-AreDistinct :
    (fd : ℕ) (ws : List Watch) → AreDistinct ws → AreDistinct (remove_watch fd ws)
unfolding remove_watch
remove_watch-AreDistinct fd [] d = tt
remove_watch-AreDistinct fd (w ∷ ws) d = elim (Bool-cases (w.fd == fd)) [
  | inl here ↦ rw here (last_in_place-AreDistinct ws d.1)
  | inr later ↦ rw later (remove_watch-Misses fd w.fd ws d.0, remove_watch-AreDistinct fd ws d.1)
]

length-remove_watch : (fd : ℕ) (ws : List Watch) → length (remove_watch fd ws) ≤ length ws
unfolding remove_watch
length-remove_watch fd [] = omega arith
length-remove_watch fd (w ∷ ws) = ground (arith, length-remove_watch fd ws, length-last_in_place ws)

watch_of-remove_watch :
    (fd k : ℕ) (ws : List Watch)
    → AreDistinct ws
    → watch_of k (remove_watch fd ws) ≡ (if fd == k then none else watch_of k ws)
unfolding remove_watch watch_of
watch_of-remove_watch fd k [] d = ground arith
watch_of-remove_watch fd k (w ∷ ws) d = elim (Bool-cases (w.fd == fd)) [
  | inr later ↦ rw later (ground (arith, later, watch_of-remove_watch fd k ws d.1))
  | inl here ↦ rw here (
      watch_of-last_in_place ws k d.1 ∙ elim (Bool-cases (fd == k)) [
        | inl same ↦
            rw same
              (watch_of-Misses k ws (same-Misses fd k ws same (same-Misses w.fd fd ws here d.0)))
        | inr other ↦ rw other (ground (arith, here, other))
      ])
]

-- A table stays one when a watch is removed: the descriptor has no callback any more, though
-- another entry takes the place of its own, and every other descriptor keeps its callback.
pub remove_watch_lem :
    (fd : ℕ) (ws : List Watch)
    → IsTable ws
    → IsTable (remove_watch fd ws)
      × ((k : ℕ) → watch_of k (remove_watch fd ws) ≡ (if fd == k then none else watch_of k ws))
remove_watch_lem fd ws t = (
  record {
    distinct = remove_watch-AreDistinct fd ws t.distinct;
    fits = omega (arith, t.fits, length-remove_watch fd ws);
  },
  λ k. watch_of-remove_watch fd k ws t.distinct,
)
