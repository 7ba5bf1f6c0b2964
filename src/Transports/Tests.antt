-- ===== src/Transports/Tests.antt =====
-- Two messages on the three ways into the log.
use cs360v_cs380_projects.Prelude.{
  ℕ, ◌≡◌, refl, List, [], ◌∷◌, ◌++◌, codes, map, none, some, get_elem?, true, All, arith,
}
use cs360v_cs380_projects.Prelude.Text.{newline}
use cs360v_cs380_projects.Memory.{load_bytes}
use cs360v_cs380_projects.LogStore.{logstore_open}
use cs360v_cs380_projects.LogStore.Records.{read_log, reading_of}
use cs360v_cs380_projects.Sink.{vlog_sink_open}
use cs360v_cs380_projects.Netlog.Lines.{feed_reads}
use cs360v_cs380_projects.Device.Status.{IsDevice, ready}
use cs360v_cs380_projects.Vmm.{Vmm, zeroed}
use cs360v_cs380_projects.Guest.{returned}
use cs360v_cs380_projects.Guest.Programs.Log.{four_records}
use cs360v_cs380_projects.Transports.{Message, IsMessage, numbered, log_each, emit_each}
use cs360v_cs380_projects.Transports.Agree.{AreHeld, listener_start, transports_agree}
use cs360v_cs380_projects.Transports.Init.{sink_after, init_main, init_main-read_log}

abbrev two_messages : List Message
two_messages =
    record { level = 2; held = record { addr = 0x100000; text = codes "disk slow" } }
    ∷ record { level = 3; held = record { addr = 0x10000a; text = codes "disk gone" } }
    ∷ []

two_messages-IsMessage : All IsMessage two_messages
two_messages-IsMessage = ground arith

-- A machine with both texts at the start of RAM.
abbrev vmm : Vmm
vmm = record zeroed {
  machine = record {
    dev = record {
      status = ready;
      msg_addr_lo = 0;
      msg_addr_hi = 0;
      len = 0;
      level = 1;
      seq = 0;
      bytes = 0;
    };
    ram = λ q. elim (get_elem? (codes "disk slow" ++ 0 ∷ codes "disk gone" ++ 0 ∷ []) q) [
      | none ↦ 0
      | some c ↦ c
    ];
    store = logstore_open;
  };
}

vmm-IsDevice : IsDevice vmm.machine.dev
vmm-IsDevice = ground arith

two_messages-AreHeld : AreHeld vmm two_messages
unfolding load_bytes
two_messages-AreHeld = (
  record { in_range = refl; some_text = omega arith; short = omega arith; bytes = refl },
  (record { in_range = refl; some_text = omega arith; short = omega arith; bytes = refl }, tt),
)

-- The stream arrives in three reads that cut both lines.
abbrev reads : List (List ℕ)
reads =
    codes "2 disk"
    ∷ (codes " slow" ++ newline ∷ codes "3 di")
    ∷ (codes "sk gone" ++ newline ∷ [])
    ∷ []

transports_agree_example :
    (v' : Vmm) × (log_each two_messages vmm ≡ returned tt v')
    × (v'.machine.store ≡ (emit_each vlog_sink_open two_messages).store)
    × (v'.machine.store ≡ (feed_reads listener_start [] reads).0.store)
    × (read_log v'.machine.store.disk ≡ map reading_of (numbered 0 two_messages))
transports_agree_example =
    transports_agree two_messages vmm reads two_messages-IsMessage vmm-IsDevice two_messages-AreHeld
      refl refl refl

init_main-read_log_example :
    read_log (sink_after vlog_sink_open (init_main true).0).store.disk
    ≡ map reading_of (four_records 0)
init_main-read_log_example = init_main-read_log true vlog_sink_open (omega arith) refl
