-- ===== src/Transports/Init.antt =====
-- project_1/vhost/guest/init.c: the first process of the QEMU guest, which logs through the virtio
-- console.
use cs360v_cs380_projects.Prelude.{
  ℕ, ◌^◌, ◌<◌, ◌≡◌, ◌∙◌, ap, List, [], ◌∷◌, ◌++◌, codes, Bool, true, false, map, if◌then◌else◌,
  arith, All,
}
use cs360v_cs380_projects.LogStore.{LogStore, logstore_open, append_all}
use cs360v_cs380_projects.LogStore.Records.{read_log, reading_of, read_log-append_all}
use cs360v_cs380_projects.Sink.{Sink, vlog_sink_emit}
use cs360v_cs380_projects.Guest.Programs.{
  line, started_text, processing_text, cache_miss_text, request_failed_text,
}
use cs360v_cs380_projects.Guest.Programs.Log.{four_records, four_records-IsClean}
use cs360v_cs380_projects.Transports.{Message, IsMessage, emit_each}
use cs360v_cs380_projects.Transports.Agree.{emit_each-append_all}

-- The calls of the program.
pub data Act : Type 0 where
  mkdir : List ℕ → Act
  mount : List ℕ → Act
  open_write : List ℕ → Act
  write : List ℕ → Act
  fsync : Act
  sync : Act
  sleep : ℕ → Act
  power_off : Act

abbrev pub recs : List (List ℕ)
recs =
    line (codes "1 function runner started")
    ∷ line (codes "0 processing request 1")
    ∷ line (codes "2 cache miss")
    ∷ line (codes "3 request 1 failed")
    ∷ []

-- `main`: its calls and its status. `opened` is whether the console can be opened.
unfoldable pub init_main : Bool → List Act × ℕ
init_main opened =
    let begin = mkdir (codes "/dev") ∷ mount (codes "/dev") ∷ open_write (codes "/dev/hvc0") ∷ [] in
    if opened
    then (begin ++ (map write recs ++ (fsync ∷ sync ∷ sleep 1 ∷ power_off ∷ [])), 0)
    else (begin ++ power_off ∷ [], 1)

-- The backend's sink after the calls; each `write` is one chain of the queue.
abbrev pub sink_after : Sink → List Act → Sink
sink_after sink [] = sink
sink_after sink (write bytes ∷ acts) = sink_after (vlog_sink_emit sink bytes) acts
sink_after sink (mkdir _ ∷ acts) = sink_after sink acts
sink_after sink (mount _ ∷ acts) = sink_after sink acts
sink_after sink (open_write _ ∷ acts) = sink_after sink acts
sink_after sink (fsync ∷ acts) = sink_after sink acts
sink_after sink (sync ∷ acts) = sink_after sink acts
sink_after sink (sleep _ ∷ acts) = sink_after sink acts
sink_after sink (power_off ∷ acts) = sink_after sink acts

abbrev message : ℕ → List ℕ → Message
message level text = record { level = level; held = record { addr = 0; text = text } }

abbrev four_messages : List Message
four_messages =
    message 1 started_text
    ∷ message 0 processing_text
    ∷ message 2 cache_miss_text
    ∷ message 3 request_failed_text
    ∷ []

four_messages-IsMessage : All IsMessage four_messages
four_messages-IsMessage = ground arith

-- Where the console can be opened, the log that the backend keeps of a run of init.c on a fresh log
-- holds the same four records as that of test_log.c on the emulator, numbered from the sink's next
-- number on; where it cannot, nothing is written. Either way the last call powers the guest off.
pub init_main-read_log :
    (opened : Bool) (sink : Sink)
    → sink.seq < 2 ^ 32
    → sink.store ≡ logstore_open
    → read_log (sink_after sink (init_main opened).0).store.disk
      ≡ (if opened then map reading_of (four_records sink.seq) else [])
unfolding init_main emit_each read_log
init_main-read_log false sink small fresh = ap (λ (ls : LogStore). read_log ls.disk) fresh
init_main-read_log true sink small fresh =
    ap (λ (ls : LogStore). read_log ls.disk)
      (emit_each-append_all four_messages sink four_messages-IsMessage
        ∙ ap (λ ls. append_all ls (four_records sink.seq)) fresh)
    ∙ (read_log-append_all (four_records sink.seq) (four_records-IsClean sink.seq small)).0
