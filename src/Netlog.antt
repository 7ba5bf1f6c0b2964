-- ===== src/Netlog.antt =====
-- project_1/emulator/netlog.c: the network listener that appends `<level> <message>` lines to the
-- log store. A round of the listener is given what `accept`, `poll` and `read` deliver.
pub mod Lines
pub mod Rounds
mod Tests
use cs360v_cs380_projects.Prelude.{
  ℕ, suc, ◌+◌, ◌-◌, ◌%◌, ltb, ◌==◌, if◌then◌else◌, List, [], ◌∷◌, ◌++◌, Bool, true, false, ◌||◌,
  Option, none, some, length, drop, u32_mod,
}
use cs360v_cs380_projects.Prelude.Text.{newline, space, strtoul, split_at, c_string}
use cs360v_cs380_projects.LogStore.{LogStore, logstore_append}

-- `struct netlog`, less its socket, its thread and its stop flag.
pub record Netlog : Type 0 where
  pub store : LogStore
  pub seq : ℕ

abbrev pub line_max : ℕ
line_max = 4200

abbrev pub max_conn : ℕ
max_conn = 64

-- `struct conn`: the first `len` bytes of its buffer.
pub record Conn : Type 0 where
  pub fd : ℕ
  pub buf : List ℕ

-- The line up to its NUL: the level before the first space, the message after it.
unfoldable pub process_line : Netlog → List ℕ → Netlog
process_line nl line =
    let (level, msg) = split_at space (c_string line) in
    record {
      store = logstore_append nl.store nl.seq (strtoul level % u32_mod) msg;
      seq = (nl.seq + 1) % u32_mod;
    }

-- One round of the loop of `feed`.
unfoldable pub feed_byte : Netlog → List ℕ → ℕ → Netlog × List ℕ
feed_byte nl buf ch =
    if ch == newline
    then (process_line nl buf, [])
    else if ltb (length buf) (line_max - 1)
    then (nl, buf ++ ch ∷ [])
    else (process_line nl buf, ch ∷ [])

unfoldable pub feed : Netlog → List ℕ → List ℕ → Netlog × List ℕ
unfolding feed_byte
feed nl buf [] = (nl, buf)
feed nl buf (ch ∷ bytes) = let (nl', buf') = feed_byte nl buf ch in feed nl' buf' bytes

-- `revents` of a connection's slot: POLLIN, and any of POLLHUP, POLLERR and POLLNVAL.
pub record Flags : Type 0 where
  pub pollin : Bool
  pub hangup : Bool

-- The listener: its log, its connections, the slots `pfds[1]`, … of the last `poll`, and the
-- descriptors that it has closed, latest first.
pub record Listener : Type 0 where
  pub log : Netlog
  pub conns : List Conn
  pub revents : List Flags
  pub closed : List ℕ

-- `poll` fills the slots of the connections that there are.
unfoldable pub poll : List Flags → Listener → Listener
poll polled l = record l { revents = polled ++ drop (length l.conns) l.revents }

-- A new producer, if there is room for it.
unfoldable pub accept : Option ℕ → Listener → Listener
accept none l = l
accept (some fd) l =
    if ltb (length l.conns) max_conn
    then record l { conns = l.conns ++ (record { fd = fd; buf = [] }) ∷ [] }
    else record l { closed = fd ∷ l.closed }

-- One connection: the log, the buffer, and whether to drop it. `input` is what `read` delivers,
-- empty at the end of the stream and on an error.
unfoldable pub serve : Netlog → Conn → Flags → List ℕ → Netlog × List ℕ × Bool
serve nl c f input =
    if f.pollin
    then elim input [
      | [] ↦ (nl, c.buf, true)
      | ch ∷ bytes ↦ let (nl', buf) = feed nl c.buf (ch ∷ bytes) in (nl', buf, f.hangup)
    ]
    else (nl, c.buf, f.hangup)

-- The loop that services the connections and keeps the open ones: the log, those kept, those
-- closed.
unfoldable pub service :
    (ℕ → List ℕ) → Netlog → List Conn → List Flags → Netlog × List Conn × List ℕ
service reads nl [] fs = (nl, [], [])
service reads nl (c ∷ cs) [] = (nl, c ∷ cs, [])
service reads nl (c ∷ cs) (f ∷ fs) =
    let (nl', buf, drops) = serve nl c f (reads c.fd) in
    let (end, kept, closed) = service reads nl' cs fs in
    if drops
    then (end, kept, c.fd ∷ closed)
    else (end, record { fd = c.fd; buf = buf } ∷ kept, closed)

-- One round of `listener` that `poll` does not end: what it reports, the producer that `accept`
-- delivers, and what each descriptor has to read.
unfoldable pub round : List Flags → Option ℕ → (ℕ → List ℕ) → Listener → Listener
round polled newcomer reads l =
    let l' = accept newcomer (poll polled l) in
    let (log, kept, closed) = service reads l'.log l'.conns l'.revents in
    record l' { log = log; conns = kept; closed = closed ++ l'.closed }
