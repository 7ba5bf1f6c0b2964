-- ===== src/Runner/LogSink.antt =====
-- runner.c: the log sink, which sends each record to a collector and holds records back while there
-- is no connection. What `socket`, `connect` and `write` return is given for each record.
pub mod Bounds
pub mod Order
pub mod Host
pub mod Runs
pub mod Short
pub mod Retry
use cs360v_cs380_projects.Prelude.{
  ℕ, zero, suc, ◌+◌, ◌-◌, ◌*◌, ◌%◌, ltb, leb, ◌==◌, if◌then◌else◌, List, [], ◌∷◌, ◌++◌, Bool, true,
  false, Option, none, some, length, take, drop, u16_mod,
}
use cs360v_cs380_projects.Runner.Address.{parse_ipv4}

-- The `g_log_` variables. The host is `none` where it is NULL, and the descriptor where it is -1.
-- The first `g_log_pend_len` bytes of the buffer are `pend`. The last three fields record the
-- calls: the bytes that `write` took, the addresses and ports given to `connect` and the
-- descriptors given to `close`, the latest first.
pub record LogSink : Type 0 where
  pub host : Option (List ℕ)
  pub port : ℕ
  pub fd : Option ℕ
  pub skip : ℕ
  pub backoff : ℕ
  pub pend : List ℕ
  pub wire : List ℕ
  pub dialled : List (ℕ × ℕ)
  pub closed : List ℕ

abbrev pub no_sink : LogSink
no_sink = record {
  host = none;
  port = 0;
  fd = none;
  skip = 0;
  backoff = 1;
  pend = [];
  wire = [];
  dialled = [];
  closed = [];
}

-- LOG_BACKOFF_MAX
abbrev pub log_backoff_max : ℕ
log_backoff_max = 64

-- `sizeof g_log_pend`
abbrev pub pend_size : ℕ
pend_size = 2048

-- What `write` returns, `none` for -1, and what `log_would_block` says of `errno` after it.
pub record Write : Type 0 where
  pub sent : Option ℕ
  pub would_block : Bool

-- What the calls made for one record return: the descriptor of `socket`, whether `connect`
-- succeeded or is in progress, and the writes of the buffer and of the record, by what they are
-- given.
pub record Net : Type 0 where
  pub socket : Option ℕ
  pub connects : Bool
  pub write_pend : List ℕ → Write
  pub write_line : List ℕ → Write

-- `socket` and `connect`, to an address.
unfoldable pub dial : Net → ℕ → Option ℕ → LogSink → LogSink × Option ℕ
dial net ip none s = (s, none)
dial net ip (some fd) s =
    let dialled = (ip, s.port % u16_mod) ∷ s.dialled in
    if net.connects
    then (record s { dialled = dialled }, some fd)
    else (record s { dialled = dialled; closed = fd ∷ s.closed }, none)

abbrev pub address : Option (List ℕ) → Option ℕ
address none = none
address (some host) = parse_ipv4 host

unfoldable pub connect_to : Net → Option ℕ → LogSink → LogSink × Option ℕ
unfolding dial
connect_to net none s = (s, none)
connect_to net (some ip) s = dial net ip net.socket s

unfoldable pub log_sink_connect : Net → LogSink → LogSink × Option ℕ
unfolding connect_to
log_sink_connect net s = connect_to net (address s.host) s

unfoldable pub log_pend : List ℕ → LogSink → LogSink
log_pend line s =
    if ltb pend_size (length s.pend + length line) then s else record s { pend = s.pend ++ line }

-- `g_log_skip = g_log_backoff`, and the wider gap.
unfoldable pub back_off : LogSink → LogSink
back_off s = record s {
  skip = s.backoff;
  backoff = if ltb s.backoff log_backoff_max then s.backoff * 2 else s.backoff;
}

unfoldable pub log_sink_drop : ℕ → LogSink → LogSink
unfolding back_off
log_sink_drop fd s = back_off (record s { fd = none; closed = fd ∷ s.closed })

-- A write that did not take all: the connection is dropped unless it is still coming up.
unfoldable pub held : ℕ → Write → List ℕ → LogSink → LogSink
unfolding log_sink_drop log_pend
held fd w line s = log_pend line (if w.would_block then s else log_sink_drop fd s)

abbrev pub taken : Write → ℕ
taken w = elim w.sent [ none ↦ 0 | some n ↦ n ]

abbrev pub took : Write → ℕ → Bool
took w n = elim w.sent [ none ↦ false | some m ↦ m == n ]

-- The write of the record itself.
unfoldable pub write_record : Net → ℕ → List ℕ → LogSink → LogSink
unfolding held
write_record net fd line s =
    let w = net.write_line line in
    let s' = record s { wire = s.wire ++ take (taken w) line } in
    if took w (length line) then s' else held fd w line s'

-- Connected: what is held goes first.
unfoldable pub flush : Net → ℕ → List ℕ → LogSink → LogSink
unfolding write_record held log_pend
flush net fd line s =
    if length s.pend == 0
    then write_record net fd line s
    else (let w = net.write_pend s.pend in
        let s' = record s {
          wire = s.wire ++ take (taken w) s.pend;
          pend = drop (taken w) s.pend;
        } in
        if took w (length s.pend)
        then write_record net fd line s'
        else if ltb 0 (taken w)
        then log_pend line s'
        else held fd w line s')

-- After an attempt to connect.
unfoldable pub attempted : Net → List ℕ → LogSink × Option ℕ → LogSink
unfolding flush back_off log_pend
attempted net line (s, none) = log_pend line (back_off s)
attempted net line (s, some fd) = flush net fd line (record s { fd = some fd; backoff = 1 })

-- With a host: connected, or not.
unfoldable pub emit_to : Net → List ℕ → Option ℕ → LogSink → LogSink
unfolding flush attempted log_sink_connect log_pend
emit_to net line (some fd) s = flush net fd line s
emit_to net line none s =
    if ltb 0 s.skip
    then log_pend line (record s { skip = s.skip - 1 })
    else attempted net line (log_sink_connect net s)

unfoldable pub log_sink_emit : Net → List ℕ → LogSink → LogSink
unfolding emit_to
log_sink_emit net line s = elim s.host [ none ↦ s | some host ↦ emit_to net line s.fd s ]
