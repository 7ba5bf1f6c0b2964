-- ===== src/Backend/Watch/Table.antt =====
-- project_1/vhost/backend.c: what the table of watched descriptors holds after `set_watch` and
-- `remove_watch`.
use cs360v_cs380_projects.Prelude.{
  ℕ, suc, ◌≤◌, ◌≡◌, refl, ap, ltb, ◌==◌, if◌then◌else◌, List, [], ◌∷◌, ◌++◌, true, false, some,
  length, length-append, All, All-append, inl, inr, Bool-cases, arith,
}
use cs360v_cs380_projects.Backend.Watch.{
  Watch, max_watches, is_watched, replace, set_watch, last, init, last_in_place, watch_of,
}

-- No entry of that descriptor.
abbrev pub Misses : ℕ → List Watch → Type 0
Misses fd = All (λ w. (w.fd == fd) ≡ false)

abbrev pub AreDistinct : List Watch → Type 0
AreDistinct [] = Unit
AreDistinct (w ∷ ws) = Misses w.fd ws × AreDistinct ws

-- Each descriptor has an entry at most, and the table has room for them.
pub record IsTable (ws : List Watch) : Type 0 where
  pub distinct : AreDistinct ws
  pub fits : length ws ≤ max_watches

pub is_watched-Misses : (fd : ℕ) (ws : List Watch) → is_watched fd ws ≡ false → Misses fd ws
is_watched-Misses fd [] h = tt
is_watched-Misses fd (w ∷ ws) h = (ground (arith, h), is_watched-Misses fd ws (ground (arith, h)))

same_fd : (a b c : ℕ) → (a == b) ≡ true → (c == a) ≡ false → (c == b) ≡ false
same_fd a b c e h = ground (arith, e, h)

pub other_way : (a b : ℕ) → (a == b) ≡ false → (b == a) ≡ false
other_way a b h = ground (arith, h)

pub same-Misses : (a b : ℕ) (ws : List Watch) → (a == b) ≡ true → Misses a ws → Misses b ws
same-Misses a b [] e h = tt
same-Misses a b (w ∷ ws) e h = (same_fd a b w.fd e h.0, same-Misses a b ws e h.1)

-- Replacing changes no descriptor.
replace-Misses :
    (fd : ℕ) (new : Watch) (ws : List Watch) → Misses fd ws → Misses fd (replace new ws)
unfolding replace
replace-Misses fd new [] h = tt
replace-Misses fd new (w ∷ ws) h = elim (Bool-cases (w.fd == new.fd)) [
  | inl here ↦ rw here (ground (arith, here, h.0), h.1)
  | inr later ↦ rw later (h.0, replace-Misses fd new ws h.1)
]

replace-AreDistinct :
    (new : Watch) (ws : List Watch) → AreDistinct ws → AreDistinct (replace new ws)
unfolding replace
replace-AreDistinct new [] h = tt
replace-AreDistinct new (w ∷ ws) h = elim (Bool-cases (w.fd == new.fd)) [
  | inl here ↦ rw here (same-Misses w.fd new.fd ws here h.0, h.1)
  | inr later ↦ rw later (replace-Misses w.fd new ws h.0, replace-AreDistinct new ws h.1)
]

length-replace : (new : Watch) (ws : List Watch) → length (replace new ws) ≡ length ws
unfolding replace
length-replace new [] = refl
length-replace new (w ∷ ws) = ground (arith, length-replace new ws)

append-AreDistinct :
    (ws : List Watch) (new : Watch)
    → AreDistinct ws
    → Misses new.fd ws
    → AreDistinct (ws ++ new ∷ [])
append-AreDistinct [] new d h = (tt, tt)
append-AreDistinct (w ∷ ws) new d h = (
  All-append (λ v. (v.fd == w.fd) ≡ false) ws (new ∷ []) d.0 (other_way w.fd new.fd h.0, tt),
  append-AreDistinct ws new d.1 h.1,
)

-- Setting a watch keeps a table.
pub set_watch-IsTable : (new : Watch) (ws : List Watch) → IsTable ws → IsTable (set_watch new ws)
unfolding set_watch
set_watch-IsTable new ws t = elim (Bool-cases (is_watched new.fd ws)) [
  | inl old ↦ rw old (record {
    distinct = replace-AreDistinct new ws t.distinct;
    fits = omega (arith, t.fits, length-replace new ws);
  })
  | inr fresh ↦ elim (Bool-cases (ltb (length ws) max_watches)) [
    | inl room ↦
        rw (fresh, room)
          (record {
            distinct = append-AreDistinct ws new t.distinct (is_watched-Misses new.fd ws fresh);
            fits = ground (arith, room, length-append ws (new ∷ []));
          })
    | inr full ↦ rw (fresh, full) t
  ]
]

pub watch_of-replace :
    (new : Watch) (ws : List Watch) (k : ℕ)
    → is_watched new.fd ws ≡ true
    → watch_of k (replace new ws) ≡ (if new.fd == k then some new else watch_of k ws)
unfolding replace watch_of
watch_of-replace new [] k h = absurd (ground (arith, h))
watch_of-replace new (w ∷ ws) k h = elim (Bool-cases (w.fd == new.fd)) [
  | inl here ↦ rw here (ground (arith, here))
  | inr later ↦
      rw later (ground (arith, later, watch_of-replace new ws k (ground (arith, later, h))))
]

pub watch_of-append :
    (ws : List Watch) (new : Watch) (k : ℕ)
    → Misses new.fd ws
    → watch_of k (ws ++ new ∷ []) ≡ (if new.fd == k then some new else watch_of k ws)
unfolding watch_of
watch_of-append [] new k h = ground arith
watch_of-append (w ∷ ws) new k h = ground (arith, h.0, watch_of-append ws new k h.1)

last-Misses :
    (fd : ℕ) (w : Watch) (ws : List Watch) → Misses fd (w ∷ ws) → ((last w ws).fd == fd) ≡ false
last-Misses fd w [] h = h.0
last-Misses fd w (v ∷ ws) h = last-Misses fd v ws h.1

init-Misses : (fd : ℕ) (w : Watch) (ws : List Watch) → Misses fd (w ∷ ws) → Misses fd (init w ws)
init-Misses fd w [] h = tt
init-Misses fd w (v ∷ ws) h = (h.0, init-Misses fd v ws h.1)

init-AreDistinct : (w : Watch) (ws : List Watch) → AreDistinct (w ∷ ws) → AreDistinct (init w ws)
init-AreDistinct w [] d = tt
init-AreDistinct w (v ∷ ws) d = (init-Misses w.fd v ws d.0, init-AreDistinct v ws d.1)

-- The last descriptor is not among those before it.
last-init : (w : Watch) (ws : List Watch) → AreDistinct (w ∷ ws) → Misses (last w ws).fd (init w ws)
last-init w [] d = tt
last-init w (v ∷ ws) d =
    (other_way (last v ws).fd w.fd (last-Misses w.fd v ws d.0), last-init v ws d.1)

pub length-last_in_place : (ws : List Watch) → length (last_in_place ws) ≡ length ws
length-last_in_place [] = refl
length-last_in_place (w ∷ ws) = ap suc (length-init w ws)
  where
    length-init : (w : Watch) (ws : List Watch) → length (init w ws) ≡ length ws
    length-init w [] = refl
    length-init w (v ∷ ws) = ap suc (length-init v ws)

pub last_in_place-Misses : (fd : ℕ) (ws : List Watch) → Misses fd ws → Misses fd (last_in_place ws)
last_in_place-Misses fd [] h = tt
last_in_place-Misses fd (w ∷ ws) h = (last-Misses fd w ws h, init-Misses fd w ws h)

pub last_in_place-AreDistinct : (ws : List Watch) → AreDistinct ws → AreDistinct (last_in_place ws)
last_in_place-AreDistinct [] d = tt
last_in_place-AreDistinct (w ∷ ws) d = (last-init w ws d, init-AreDistinct w ws d)

pub watch_of-last_in_place :
    (ws : List Watch) (k : ℕ) → AreDistinct ws → watch_of k (last_in_place ws) ≡ watch_of k ws
unfolding watch_of
watch_of-last_in_place [] k d = refl
watch_of-last_in_place (w ∷ []) k d = refl
watch_of-last_in_place (w ∷ v ∷ ws) k d =
    ground (arith, watch_of-last_in_place (v ∷ ws) k d.1, last-Misses w.fd v ws d.0)
