-- ===== src/Backend/Main/Table.antt =====
-- The loop of `main` in backend.c: the table of watches that it polls.
use cs360v_cs380_projects.Prelude.{
  ℕ, List, [], ◌∷◌, Bool, true, false, Option, none, some, if◌then◌else◌, ◌&&◌, ◌==◌, Bool-cases,
  inl, inr,
}
use cs360v_cs380_projects.Backend.{Backend, tx_kick}
use cs360v_cs380_projects.Backend.Watch.{Watch, watch_of}
use cs360v_cs380_projects.Backend.Watch.Table.{IsTable}
use cs360v_cs380_projects.Backend.Watch.Ready.{set_watch_lem, remove_watch_lem}
use cs360v_cs380_projects.Backend.Main.{
  Session, Event, sets, forgets, negotiates, starts, kicks, queues, maps, writes, Turn, on, off,
  kicking, then_on, Revents, Transport, kicked_session, kick, queue_set_started, perform,
  perform_all, call, call_ready, if_up, dispatched, round, serve, vq_tx,
}

abbrev pub session_of : Turn → Session
session_of (on s) = s
session_of (off s) = s
session_of (kicking s) = s

-- A turn after which the table is one.
abbrev pub Keeps : Turn → Type 0
Keeps turn = IsTable (session_of turn).watches

then_on-Keeps :
    (turn : Turn) (k : Session → Turn)
    → Keeps turn
    → ((s : Session) → IsTable s.watches → Keeps (k s))
    → Keeps (then_on turn k)
then_on-Keeps (on s) k h f = f s h
then_on-Keeps (off s) k h f = h
then_on-Keeps (kicking s) k h f = h

module _ (t : Transport) where
  kicked-Keeps : (s : Session) (o : Option Backend) → IsTable s.watches → Keeps (kicked_session s o)
  kicked-Keeps s none h = h
  kicked-Keeps s (some b) h = h

  kick-Keeps : (index : ℕ) (s : Session) → IsTable s.watches → Keeps (kick t index s)
  unfolding kick
  kick-Keeps index s h = elim (Bool-cases ((index == vq_tx) && s.handled)) [
    | inl e ↦
        rw e (kicked-Keeps s (tx_kick t.passes t.fuel s.features t.driver s.regions s.device) h)
    | inr e ↦ rw e h
  ]

  started-Keeps :
      (index : ℕ) (started : Bool) (s : Session)
      → IsTable s.watches
      → IsTable (queue_set_started index started s).watches
  unfolding queue_set_started
  started-Keeps index started s h = elim (Bool-cases (index == vq_tx)) [
    | inl e ↦ rw e h
    | inr e ↦ rw e h
  ]

  perform-Keeps : (e : Event) (s : Session) → IsTable s.watches → Keeps (perform t e s)
  unfolding perform
  perform-Keeps (sets w) s h = (set_watch_lem w s.watches h).0
  perform-Keeps (forgets fd) s h = (remove_watch_lem fd s.watches h).0
  perform-Keeps (negotiates f) s h = h
  perform-Keeps (starts index started) s h = started-Keeps index started s h
  perform-Keeps (kicks index) s h = kick-Keeps index s h
  perform-Keeps (queues vuq) s h = h
  perform-Keeps (maps regions) s h = h
  perform-Keeps (writes act) s h = h

  perform_all-Keeps :
      (es : List Event) (s : Session) → IsTable s.watches → Keeps (perform_all t es s)
  unfolding perform_all
  perform_all-Keeps [] s h = h
  perform_all-Keeps (e ∷ es) s h =
      then_on-Keeps (perform t e s) (perform_all t es) (perform-Keeps e s h) (perform_all-Keeps es)

  call-Keeps : (o : Option Watch) (s : Session) → IsTable s.watches → Keeps (call t o s)
  call-Keeps none s h = h
  call-Keeps (some w) s h = perform_all-Keeps (t.called w s) s h

  call_ready-Keeps :
      (readable : ℕ → Bool) (ps : List Watch) (s : Session)
      → IsTable s.watches
      → Keeps (call_ready t readable ps s)
  unfolding call_ready
  call_ready-Keeps readable [] s h = h
  call_ready-Keeps readable (p ∷ ps) s h =
      then_on-Keeps (call t (if readable p.fd then watch_of p.fd s.watches else none) s)
        (call_ready t readable ps)
        (call-Keeps (if readable p.fd then watch_of p.fd s.watches else none) s h)
        (call_ready-Keeps readable ps)

  if_up-Keeps : (up : Bool) (s : Session) → IsTable s.watches → Keeps (if_up up s)
  if_up-Keeps true s h = h
  if_up-Keeps false s h = h

  dispatched-Keeps : (ready : Bool) (s : Session) → IsTable s.watches → Keeps (dispatched t ready s)
  dispatched-Keeps false s h = h
  dispatched-Keeps true s h =
      then_on-Keeps (perform_all t (t.dispatch s).1 s) (if_up (t.dispatch s).0)
        (perform_all-Keeps (t.dispatch s).1 s h) (if_up-Keeps (t.dispatch s).0)

  round-Keeps : (r : Revents) (s : Session) → IsTable s.watches → Keeps (round t r s)
  unfolding round
  round-Keeps r s h =
      then_on-Keeps (dispatched t r.connection s) (call_ready t r.readable s.watches)
        (dispatched-Keeps r.connection s h) (call_ready-Keeps r.readable s.watches)

  -- Whatever the transport asks, whichever descriptors are ready in whatever order, and however
  -- the loop ends, each descriptor is watched once and the table holds 32 at most, so that the
  -- connection and the watches fit in the 33 entries that `main` polls, in every round.
  pub serve-IsTable :
      (polls : List (Option Revents)) (s : Session)
      → IsTable s.watches
      → IsTable (session_of (serve t polls s)).watches
  unfolding serve
  serve-IsTable [] s h = h
  serve-IsTable (none ∷ polls) s h = h
  serve-IsTable (some r ∷ polls) s h =
      then_on-Keeps (round t r s) (serve t polls) (round-Keeps r s h) (serve-IsTable polls)
