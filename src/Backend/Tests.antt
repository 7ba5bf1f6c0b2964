-- ===== src/Backend/Tests.antt =====
-- A kick on a queue of two entries with one chain published.
use cs360v_cs380_projects.Backend.Watch.{Watch, set_watch, watch_of}
use cs360v_cs380_projects.Backend.Watch.Table.{IsTable}
use cs360v_cs380_projects.Backend.Watch.Ready.{set_watch_lem}
use cs360v_cs380_projects.Backend.Events.{IsPolite}
use cs360v_cs380_projects.Backend.Events.NoStall.{tx_kick-no_stall}
use cs360v_cs380_projects.Virtq.Reads.{read_desc-agree}
use cs360v_cs380_projects.Backend.Main.{
  Session, sets, forgets, negotiates, starts, kicks, Transport, Revents, serve,
}
use cs360v_cs380_projects.Backend.Main.Table.{session_of, serve-IsTable}
use cs360v_cs380_projects.Prelude.{
  Option, false, ◌≤◌, ◌⊎◌, ◌%◌, ◌^◌, ◌+◌, has_bit, ap, ◌∙◌, inr, ℕ, zero, suc, ◌≡◌, ◌==◌, ◌&&◌,
  true, if◌then◌else◌, inl, refl, List, [], ◌∷◌, none, some, arith,
}
use cs360v_cs380_projects.Memory.{Memory, load16, store16}
use cs360v_cs380_projects.Sink.{vlog_sink_open}
use cs360v_cs380_projects.Virtq.{VringDesc, flag_indirect, avail_idx, read_desc, used_idx}
use cs360v_cs380_projects.Virtq.Ends.{IsFlat}
use cs360v_cs380_projects.Virtq.Used.{OutsideUsed, store16_frame}
use cs360v_cs380_projects.Virtq.Handle.{IsServable}
use cs360v_cs380_projects.Backend.{Backend, VuDevRegion, interrupt, queue_of, tx_kick}
use cs360v_cs380_projects.Backend.Kick.{tx_kick_lem}

abbrev published : Memory
published = store16 (λ _. 0) 0x9002 1

abbrev backend : Backend
backend = record {
  vuq = record {
    desc = 0x8000;
    avail = 0x9000;
    used = 0xA000;
    num = 2;
    last_avail_idx = 0;
    call_fd = some 7;
  };
  mem = published;
  sink = vlog_sink_open;
  interrupts = 0;
}

table-IsFlat : IsFlat published 0x8000 2
unfolding read_desc
table-IsFlat zero b = refl
table-IsFlat (suc zero) b = refl
table-IsFlat (suc (suc j)) b = absurd (omega arith)

backend-IsServable : IsServable (queue_of backend)
backend-IsServable = record {
  entries = omega arith;
  apart = inl (omega arith);
  flat = table-IsFlat;
  position = omega arith;
}

abbrev regions : List VuDevRegion
regions = record { gpa = 0x1000; size = 0x1000; mmap_addr = 0x5000; mmap_offset = 0 } ∷ []

tx_kick_lem_example :
    (b' : Backend) × (tx_kick 1 3 0 (λ _ mem. mem) regions backend ≡ some b')
    × (b'.vuq.last_avail_idx ≡ 1)
    × (used_idx b'.mem (queue_of backend).vq ≡ 1)
    × ((p : ℕ) → OutsideUsed (queue_of backend).vq p → b'.mem p ≡ published p)
    × (b'.interrupts ≡ 1)
tx_kick_lem_example =
    tx_kick_lem 0 3 0 (λ _ mem. mem) regions backend refl refl backend-IsServable (omega arith)
      (omega arith) (omega arith)

-- A driver that publishes one more chain in the pass after the first.
abbrev busy_driver : ℕ → Memory → Memory
busy_driver zero mem = mem
busy_driver (suc k) mem = store16 mem 0x9002 2

idle-IsPolite : IsPolite (queue_of backend).vq (λ mem. mem)
idle-IsPolite = record {
  device_part = λ mem p l u. refl;
  flat = λ mem flat. flat;
  word = λ mem small. small;
}

busy-IsPolite : (k : ℕ) → IsPolite (queue_of backend).vq (busy_driver k)
busy-IsPolite zero = idle-IsPolite
busy-IsPolite (suc k) = record {
  device_part = λ mem p l u. store16_frame mem 0x9002 2 p (inr (omega arith));
  flat = λ mem flat j b.
      ap (λ d. has_bit (VringDesc.flags d) flag_indirect)
        (read_desc-agree (store16 mem 0x9002 2) mem 0x8000 2 j
          (λ p l u. store16_frame mem 0x9002 2 p (inl (omega arith))) b)
      ∙ flat j b;
  word = λ mem small. omega arith;
}

tx_kick-no_stall_example :
    (b' : Backend) × (chains : ℕ) × (tx_kick 2 3 (2 ^ 29) busy_driver regions backend ≡ some b')
    × (1 ≤ chains)
    × (b'.vuq.last_avail_idx ≡ (0 + chains) % 2 ^ 16)
    × (used_idx b'.mem (queue_of backend).vq ≡ (0 + chains) % 2 ^ 16)
    × (load16 b'.mem 0xA014 ≡ b'.vuq.last_avail_idx)
    × (b'.interrupts ≡ 0 + interrupt (some 7) chains)
    × ((avail_idx b'.mem (queue_of backend).vq ≡ b'.vuq.last_avail_idx) ⊎ (chains ≡ 0))
tx_kick-no_stall_example =
    tx_kick-no_stall 1 3 (2 ^ 29) busy_driver regions backend refl refl
      (record { entries = omega arith; table = inl (omega arith); avail = inl (omega arith) })
      (record { flat = table-IsFlat; ready = omega arith; used = omega arith })
      (record { polite = busy-IsPolite; pause = λ mem. refl }) (omega arith) (omega arith)

abbrev watches : List Watch
watches = record { fd = 4; cb = 100; cb_data = 1 } ∷ record { fd = 6; cb = 100; cb_data = 2 } ∷ []

abbrev watches-IsTable : IsTable watches
watches-IsTable = record { distinct = ((refl, tt), (tt, tt)); fits = omega arith }

set_watch_lem_example :
    IsTable (set_watch (record { fd = 6; cb = 200; cb_data = 3 }) watches)
    × ((k : ℕ)
        → watch_of k (set_watch (record { fd = 6; cb = 200; cb_data = 3 }) watches) ≡ (
            if (6 == k) && true
            then some (record { fd = 6; cb = 200; cb_data = 3 })
            else watch_of k watches))
set_watch_lem_example =
    set_watch_lem (record { fd = 6; cb = 200; cb_data = 3 }) watches watches-IsTable

-- The transport negotiates EVENT_IDX, starts the TX queue and watches one more descriptor; each
-- callback kicks the queue and takes its own descriptor out of the table.
abbrev transport : Transport
transport = record {
  dispatch = λ s. (
    true,
    negotiates (2 ^ 29) ∷ starts 1 true ∷ sets (record { fd = 8; cb = 100; cb_data = 3 }) ∷ [],
  );
  called = λ w s. kicks 1 ∷ forgets w.fd ∷ [];
  deinit = λ s. [];
  passes = 2;
  fuel = 3;
  driver = busy_driver;
}

abbrev session : Session
session = record {
  device = backend;
  regions = regions;
  handled = false;
  features = 0;
  watches = watches;
}

abbrev polls : List (Option Revents)
polls =
    some (record { connection = true; readable = λ fd. fd == 4 })
    ∷ some (record { connection = false; readable = λ fd. true })
    ∷ none
    ∷ []

serve-IsTable_example : IsTable (session_of (serve transport polls session)).watches
serve-IsTable_example = serve-IsTable transport polls session watches-IsTable
