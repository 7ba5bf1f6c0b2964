-- ===== src/Backend/Watch.antt =====
-- project_1/vhost/backend.c: the table of watched descriptors, which the transport fills and `main`
-- polls.
pub mod Table
pub mod Ready
use cs360v_cs380_projects.Prelude.{
  ℕ, ltb, ◌==◌, if◌then◌else◌, List, [], ◌∷◌, ◌++◌, Bool, true, false, ◌||◌, Option, none, some,
  length,
}

-- An entry of `W`; the callback and its data are pointers.
pub record Watch : Type 0 where
  pub fd : ℕ
  pub cb : ℕ
  pub cb_data : ℕ

-- MAXW
abbrev pub max_watches : ℕ
max_watches = 32

abbrev pub is_watched : ℕ → List Watch → Bool
is_watched fd [] = false
is_watched fd (w ∷ ws) = (w.fd == fd) || is_watched fd ws

-- The first entry of the descriptor gets the new callback.
unfoldable pub replace : Watch → List Watch → List Watch
replace new [] = []
replace new (w ∷ ws) = let rest = replace new ws in if w.fd == new.fd then new ∷ ws else w ∷ rest

-- The first `nW` entries of `W` after the call.
unfoldable pub set_watch : Watch → List Watch → List Watch
unfolding replace
set_watch new ws =
    if is_watched new.fd ws
    then replace new ws
    else if ltb (length ws) max_watches
    then ws ++ new ∷ []
    else ws

abbrev pub last : Watch → List Watch → Watch
last w [] = w
last w (v ∷ ws) = last v ws

abbrev pub init : Watch → List Watch → List Watch
init w [] = []
init w (v ∷ ws) = w ∷ init v ws

-- `W[i] = W[--nW]`, where the entry of index `i` stood before `ws`.
abbrev pub last_in_place : List Watch → List Watch
last_in_place [] = []
last_in_place (w ∷ ws) = last w ws ∷ init w ws

unfoldable pub remove_watch : ℕ → List Watch → List Watch
remove_watch fd [] = []
remove_watch fd (w ∷ ws) =
    let rest = remove_watch fd ws in if w.fd == fd then last_in_place ws else w ∷ rest

-- The callback that `main` calls for a descriptor that is ready.
unfoldable pub watch_of : ℕ → List Watch → Option Watch
watch_of fd [] = none
watch_of fd (w ∷ ws) = let later = watch_of fd ws in if w.fd == fd then some w else later
