-- ===== src/Transports.antt =====
-- The three ways into the log: the device's register window (project_1/guest/vlog.c), the virtio
-- queue's sink (project_1/vhost/sink.c) and the network listener (project_1/emulator/netlog.c).
pub mod Lines
pub mod Agree
pub mod Init
mod Tests
use cs360v_cs380_projects.Prelude.{ℕ, ◌+◌, ◌<◌, ◌≤◌, ◌%◌, ◌^◌, List, [], ◌∷◌, ◌++◌, length}
use cs360v_cs380_projects.Prelude.Text.{newline, carriage_return, space, Lacks}
use cs360v_cs380_projects.LogStore.{Entry, entry}
use cs360v_cs380_projects.Sink.{Sink, vlog_sink_emit}
use cs360v_cs380_projects.Guest.{Guest, pure, ◌>>=◌, vlog}
use cs360v_cs380_projects.Guest.Programs.{Str}

-- A message with its level, and where a guest program holds its text.
pub record Message : Type 0 where
  pub level : ℕ
  pub held : Str

-- A level of one digit, and a text of 1 to 4096 bytes without line ends and NUL.
pub record IsMessage (m : Message) : Type 0 where
  pub digit : m.level < 10
  pub some_text : 0 < length m.held.text
  pub short : length m.held.text ≤ 4096
  pub no_newline : Lacks newline m.held.text
  pub no_return : Lacks carriage_return m.held.text
  pub no_nul : Lacks 0 m.held.text

-- The records of the messages, from sequence number `n` on.
abbrev pub numbered : ℕ → List Message → List Entry
numbered n [] = []
numbered n (m ∷ ms) = entry n m.level m.held.text ∷ numbered ((n + 1) % 2 ^ 32) ms

-- `<level> <message>` and a newline.
abbrev pub wire_line : Message → List ℕ
wire_line m = (48 + m.level) ∷ space ∷ (m.held.text ++ newline ∷ [])

abbrev pub wire : List Message → List ℕ
wire [] = []
wire (m ∷ ms) = wire_line m ++ wire ms

-- A guest program that logs the messages in turn.
unfoldable pub log_each : List Message → Guest (Unit {0})
log_each [] = pure tt
log_each (m ∷ ms) = vlog m.level m.held.addr m.held.text >>= λ _. log_each ms

-- A guest that writes a line for each to the virtio console.
unfoldable pub emit_each : Sink → List Message → Sink
emit_each sink [] = sink
emit_each sink (m ∷ ms) = emit_each (vlog_sink_emit sink (wire_line m)) ms
