-- ===== src/Backend/Main.antt =====
-- project_1/vhost/backend.c: the feature and queue callbacks, and `main` with its loop. The
-- vhost-user transport is given: what it asks of the backend, as a list of events, in
-- `vu_dispatch`, in the callback of a watch and in `vu_deinit`.
pub mod Table
use cs360v_cs380_projects.Prelude.{
  ℕ, ◌^◌, ltb, ◌==◌, if◌then◌else◌, List, [], ◌∷◌, Bool, true, false, ◌&&◌, not, Option, none, some,
}
use cs360v_cs380_projects.Memory.{Memory}
use cs360v_cs380_projects.Backend.{VuDevRegion, VuVirtq, Backend, tx_kick}
use cs360v_cs380_projects.Backend.Watch.{Watch, set_watch, remove_watch, watch_of}

-- VQ_TX
abbrev pub vq_tx : ℕ
vq_tx = 1

-- The backend's variables, and the part of the transport's device that it works on: the TX queue
-- with its handler, which is `tx_kick` or NULL, and the mapped regions.
pub record Session : Type 0 where
  pub device : Backend
  pub regions : List VuDevRegion
  pub handled : Bool
  pub features : ℕ
  pub watches : List Watch

-- VIRTIO_F_VERSION_1 is bit 32.
abbrev pub get_features : ℕ
get_features = 2 ^ 32

abbrev pub set_features : ℕ → Session → Session
set_features f s = record s { features = f }

unfoldable pub queue_set_started : ℕ → Bool → Session → Session
queue_set_started index started s = if index == vq_tx then record s { handled = started } else s

-- What happens while the transport runs: it calls `set_watch`, `remove_watch`, `set_features` and
-- `queue_set_started`, or the handler of a queue that was kicked; it changes its own queue and
-- regions; the guest writes to its memory.
pub data Event : Type 0 where
  sets : Watch → Event
  forgets : ℕ → Event
  negotiates : ℕ → Event
  starts : ℕ → Bool → Event
  kicks : ℕ → Event
  queues : VuVirtq → Event
  maps : List VuDevRegion → Event
  writes : (Memory → Memory) → Event

-- Where the program is: it goes on, the connection is over, or a kick took more passes or
-- descriptors than were given.
pub data Turn : Type 0 where
  on : Session → Turn
  off : Session → Turn
  kicking : Session → Turn

abbrev pub then_on : Turn → (Session → Turn) → Turn
then_on (on s) k = k s
then_on (off s) k = off s
then_on (kicking s) k = kicking s

-- The descriptors of a round that `poll` reports, the connection's own first.
pub record Revents : Type 0 where
  pub connection : Bool
  pub readable : ℕ → Bool

-- The transport, and for its kicks what bounds them and what the driver does meanwhile.
pub record Transport : Type 0 where
  pub dispatch : Session → Bool × List Event
  pub called : Watch → Session → List Event
  pub deinit : Session → List Event
  pub passes : ℕ
  pub fuel : ℕ
  pub driver : ℕ → Memory → Memory

abbrev pub kicked_session : Session → Option Backend → Turn
kicked_session s none = kicking s
kicked_session s (some b) = on (record s { device = b })

-- The handler of a queue; only that of the TX queue is ever set.
unfoldable pub kick : Transport → ℕ → Session → Turn
kick t index s =
    if (index == vq_tx) && s.handled
    then kicked_session s (tx_kick t.passes t.fuel s.features t.driver s.regions s.device)
    else on s

unfoldable pub perform : Transport → Event → Session → Turn
unfolding kick queue_set_started
perform t (sets w) s = on (record s { watches = set_watch w s.watches })
perform t (forgets fd) s = on (record s { watches = remove_watch fd s.watches })
perform t (negotiates f) s = on (set_features f s)
perform t (starts index started) s = on (queue_set_started index started s)
perform t (kicks index) s = kick t index s
perform t (queues vuq) s = on (record s { device = record (s.device) { vuq = vuq } })
perform t (maps regions) s = on (record s { regions = regions })
perform t (writes act) s = on (record s { device = record (s.device) { mem = act s.device.mem } })

unfoldable pub perform_all : Transport → List Event → Session → Turn
unfolding perform
perform_all t [] s = on s
perform_all t (e ∷ es) s = then_on (perform t e s) (perform_all t es)

abbrev pub call : Transport → Option Watch → Session → Turn
call t none s = on s
call t (some w) s = perform_all t (t.called w s) s

-- The loop over `p`, from its second entry on: the descriptors that were watched when it was
-- filled. The callback is the one that is set when its turn comes.
unfoldable pub call_ready : Transport → (ℕ → Bool) → List Watch → Session → Turn
unfolding perform_all
call_ready t readable [] s = on s
call_ready t readable (p ∷ ps) s =
    let found = if readable p.fd then watch_of p.fd s.watches else none in
    then_on (call t found s) (call_ready t readable ps)

abbrev pub if_up : Bool → Session → Turn
if_up true s = on s
if_up false s = off s

abbrev pub dispatched : Transport → Bool → Session → Turn
dispatched t false s = on s
dispatched t true s = let (up, events) = t.dispatch s in then_on (perform_all t events s) (if_up up)

unfoldable pub round : Transport → Revents → Session → Turn
unfolding call_ready
round t r s = then_on (dispatched t r.connection s) (call_ready t r.readable s.watches)

-- The loop of `main` over what `poll` returns; `none` where it fails.
unfoldable pub serve : Transport → List (Option Revents) → Session → Turn
unfolding round
serve t [] s = on s
serve t (none ∷ polls) s = off s
serve t (some r ∷ polls) s = then_on (round t r s) (serve t polls)

-- The calls of `main` before its loop, and what the transport starts with.
pub record World : Type 0 where
  pub arguments : ℕ
  pub log_opens : Bool
  pub binds : Bool
  pub accepts : Bool
  pub inits : Bool
  pub start : Session

-- `main` runs on, or exits: with its status, and the session that its log sink was closed in, or
-- `none` where it was not closed.
pub data Result : Type 0 where
  running : Turn → Result
  exits : ℕ → Option Session → Result

-- The end of `main`; the events of `vu_deinit` come before the sink is closed.
abbrev pub close_down : Turn → Result
close_down (on s) = exits 0 (some s)
close_down (off s) = exits 0 (some s)
close_down (kicking s) = running (kicking s)

abbrev pub leave : Transport → Turn → Result
leave t (on s) = running (on s)
leave t (kicking s) = running (kicking s)
leave t (off s) = close_down (perform_all t (t.deinit s) s)

unfoldable pub main : World → Transport → List (Option Revents) → Result
unfolding serve
main w t polls =
    if ltb w.arguments 3
    then exits 2 none
    else if not (w.log_opens && w.binds && w.accepts && w.inits)
    then exits 1 none
    else leave t (serve t polls w.start)
