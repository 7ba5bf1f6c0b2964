-- ===== src/Sink/Tests.antt =====
-- The sink on a record with a level and line ends.
use cs360v_cs380_projects.Prelude.{◌≡◌, refl, [], ◌∷◌, ◌++◌, codes}
use cs360v_cs380_projects.Prelude.Text.{newline}
use cs360v_cs380_projects.LogStore.{logstore_append, logstore_open}
use cs360v_cs380_projects.Sink.{vlog_sink_emit, vlog_sink_open}
use cs360v_cs380_projects.Sink.Emit.{vlog_sink_emit_lem}

warning :
    vlog_sink_emit vlog_sink_open (codes "2 hi" ++ newline ∷ [])
    ≡ record { store = logstore_append logstore_open 0 2 (codes "hi"); seq = 1 }
warning = (vlog_sink_emit_lem vlog_sink_open (newline ∷ []) (refl, tt)).0 (codes "2 h") b'i' refl
