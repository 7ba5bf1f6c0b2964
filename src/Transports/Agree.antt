-- ===== src/Transports/Agree.antt =====
-- The three ways into the log of project_1: what a list of messages leaves in the log, whichever
-- way it takes.
use cs360v_cs380_projects.Prelude.{
  ℕ, ◌+◌, ◌<◌, ◌%◌, ◌^◌, ◌≡◌, refl, ◌∙◌, ap, sym, List, [], ◌∷◌, All, arith, map,
}
use cs360v_cs380_projects.LogStore.{LogStore, logstore_open, append_all, logstore_append}
use cs360v_cs380_projects.LogStore.Records.{IsClean, read_log, reading_of, read_log-append_all}
use cs360v_cs380_projects.Sink.{Sink, vlog_sink_open}
use cs360v_cs380_projects.Netlog.{Netlog, feed}
use cs360v_cs380_projects.Netlog.Lines.{feed-append, feed_reads, feed_reads-concat, concat}
use cs360v_cs380_projects.Device.Status.{IsDevice}
use cs360v_cs380_projects.Vmm.{Vmm}
use cs360v_cs380_projects.Guest.{returned}
use cs360v_cs380_projects.Guest.Programs.Logged.{
  IsHeld, after_log, after_log-IsDevice, after_log-IsHeld, vlog-after_log,
}
use cs360v_cs380_projects.Transports.Lines.{emit-wire_line, feed-wire_line}
use cs360v_cs380_projects.Transports.{
  Message, IsMessage, numbered, wire_line, wire, log_each, emit_each,
}

abbrev pub AreHeld : Vmm → List Message → Type 0
AreHeld v = All (λ m. IsHeld v m.held)

abbrev after_each : Vmm → List Message → Vmm
after_each v [] = v
after_each v (m ∷ ms) = after_each (after_log v m.level m.held) ms

held_after :
    (v : Vmm) (m : Message) (ms : List Message)
    → AreHeld v ms
    → AreHeld (after_log v m.level m.held) ms
held_after v m [] h = tt
held_after v m (n ∷ ms) h = (after_log-IsHeld v m.level m.held n.held h.0, held_after v m ms h.1)

log_each-after_each :
    (ms : List Message) (v : Vmm)
    → IsDevice v.machine.dev
    → AreHeld v ms
    → log_each ms v ≡ returned tt (after_each v ms)
unfolding log_each
log_each-after_each [] v d h = refl
log_each-after_each (m ∷ ms) v d h = rw (vlog-after_log v m.level m.held d h.0) (
    log_each-after_each ms (after_log v m.level m.held) (after_log-IsDevice v m.level m.held d)
      (held_after v m ms h.1))

-- The messages' records, whatever the log held before.
after_each-append_all :
    (ms : List Message) (v : Vmm)
    → All IsMessage ms
    → (after_each v ms).machine.store ≡ append_all v.machine.store (numbered v.machine.dev.seq ms)
unfolding append_all
after_each-append_all [] v h = refl
after_each-append_all (m ∷ ms) v h =
    let level : m.level % 2 ^ 32 ≡ m.level = omega (arith, h.0.digit) in
    after_each-append_all ms (after_log v m.level m.held) h.1
    ∙ ap
        (λ l.
          append_all (logstore_append v.machine.store v.machine.dev.seq l m.held.text)
            (numbered ((v.machine.dev.seq + 1) % 2 ^ 32) ms))
        level

pub emit_each-append_all :
    (ms : List Message) (sink : Sink)
    → All IsMessage ms
    → (emit_each sink ms).store ≡ append_all sink.store (numbered sink.seq ms)
unfolding emit_each append_all
emit_each-append_all [] sink h = refl
emit_each-append_all (m ∷ ms) sink h =
    ap (λ (s : Sink). (emit_each s ms).store) (emit-wire_line m h.0 sink)
    ∙ emit_each-append_all ms
        (record {
          store = logstore_append sink.store sink.seq m.level m.held.text;
          seq = (sink.seq + 1) % 2 ^ 32;
        })
        h.1

count_on : ℕ → List Message → ℕ
count_on n [] = n
count_on n (m ∷ ms) = count_on ((n + 1) % 2 ^ 32) ms

feed-wire :
    (ms : List Message) (nl : Netlog)
    → All IsMessage ms
    → feed nl [] (wire ms)
      ≡ (record { store = append_all nl.store (numbered nl.seq ms); seq = count_on nl.seq ms }, [])
unfolding append_all count_on
feed-wire [] nl h = unfold feed in refl
feed-wire (m ∷ ms) nl h =
    feed-append (wire_line m) (wire ms) nl []
    ∙ ap (λ (s : Netlog × List ℕ). feed s.0 s.1 (wire ms)) (feed-wire_line m h.0 nl)
    ∙ feed-wire ms
        (record {
          store = logstore_append nl.store nl.seq m.level m.held.text;
          seq = (nl.seq + 1) % 2 ^ 32;
        })
        h.1

numbered-IsClean :
    (ms : List Message) (n : ℕ) → n < 2 ^ 32 → All IsMessage ms → All IsClean (numbered n ms)
numbered-IsClean [] n small h = tt
numbered-IsClean (m ∷ ms) n small h =
    ((small, h.0.no_newline), numbered-IsClean ms ((n + 1) % 2 ^ 32) (omega arith) h.1)

-- `netlog_start`
abbrev pub listener_start : Netlog
listener_start = record { store = logstore_open; seq = 0 }

-- A list of messages leaves the same log, from a freshly opened store on, whichever way it takes:
-- as calls of `vlog` by a guest that holds the texts in RAM, as lines written to the virtio
-- console, or as one byte stream to the network listener, however its reads cut that stream. A
-- reader of the file finds the messages in order, with their levels and consecutive numbers. It
-- holds for levels below 10 and texts of 1 to 4096 bytes without line ends and NUL.
pub transports_agree :
    (ms : List Message) (v : Vmm) (reads : List (List ℕ))
    → All IsMessage ms
    → IsDevice v.machine.dev
    → AreHeld v ms
    → v.machine.dev.seq ≡ 0
    → v.machine.store ≡ logstore_open
    → concat reads ≡ wire ms
    → (v' : Vmm) × (log_each ms v ≡ returned tt v')
      × (v'.machine.store ≡ (emit_each vlog_sink_open ms).store)
      × (v'.machine.store ≡ (feed_reads listener_start [] reads).0.store)
      × (read_log v'.machine.store.disk ≡ map reading_of (numbered 0 ms))
transports_agree ms v reads are d held zero_seq fresh whole =
    let by_guest : (after_each v ms).machine.store ≡ append_all logstore_open (numbered 0 ms) =
      after_each-append_all ms v are ∙ (λ i. append_all (fresh i) (numbered (zero_seq i) ms)) in
    let by_sink : (emit_each vlog_sink_open ms).store ≡ append_all logstore_open (numbered 0 ms) =
      emit_each-append_all ms vlog_sink_open are in
    let by_net : (feed_reads listener_start [] reads).0.store
        ≡ append_all logstore_open (numbered 0 ms) =
      ap (λ (s : Netlog × List ℕ). s.0.store)
        (feed_reads-concat reads listener_start []
          ∙ ap (feed listener_start []) whole
          ∙ feed-wire ms listener_start are) in
    (
      after_each v ms,
      log_each-after_each ms v d held,
      by_guest ∙ sym by_sink,
      by_guest ∙ sym by_net,
      ap (λ (ls : LogStore). read_log ls.disk) by_guest
          ∙ (read_log-append_all (numbered 0 ms) (numbered-IsClean ms 0 (omega arith) are)).0,
    )
