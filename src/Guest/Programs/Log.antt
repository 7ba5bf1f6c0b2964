-- ===== src/Guest/Programs/Log.antt =====
-- project_1/guest/test_log.c: what the program leaves in the log and on the console.
use cs360v_cs380_projects.Prelude.{
  ℕ, ◌+◌, ◌%◌, ◌^◌, ◌<◌, ◌≡◌, refl, ◌∙◌, ap, List, [], ◌∷◌, ◌++◌, codes, arith, map, All,
  append_assoc,
}
use cs360v_cs380_projects.LogStore.{LogStore, Entry, entry, logstore_open, append_all}
use cs360v_cs380_projects.LogStore.Records.{IsClean, read_log, reading_of, read_log-append_all}
use cs360v_cs380_projects.Device.Status.{IsDevice}
use cs360v_cs380_projects.Vmm.{Vmm}
use cs360v_cs380_projects.Guest.{returned}
use cs360v_cs380_projects.Guest.Hex.{printed, read_hex, puthex_-read_hex}
use cs360v_cs380_projects.Guest.Programs.{
  Str, Addresses, line, started_text, processing_text, cache_miss_text, request_failed_text,
  test_log, log_found, logged_all,
}
use cs360v_cs380_projects.Guest.Programs.Lines.{puts_-text, vlog_id-magic, vlog_seq-seq}
use cs360v_cs380_projects.Guest.Programs.Logged.{
  IsHeld, after_log, after_log-IsDevice, after_log-IsHeld, printed-IsHeld, vlog-after_log,
}

abbrev text_before : List ℕ
text_before = codes "guest: logged "

abbrev text_after : List ℕ
text_after = line (codes " records") ++ line (codes "guest: done")

-- The end of the program: the number of records on the console.
logged_all-printed :
    (v : Vmm)
    → v.machine.dev.seq < 2 ^ 32
    → (digits : List ℕ) × (logged_all v
        ≡ returned 0 (printed v (text_before ++ (b'0' ∷ b'x' ∷ digits) ++ text_after)))
      × (read_hex 0 digits ≡ v.machine.dev.seq)
unfolding logged_all
logged_all-printed v word =
    let v1 = printed v text_before in
    let (digits, hex, value) = puthex_-read_hex v.machine.dev.seq v1 word in
    let v2 = printed v1 (b'0' ∷ b'x' ∷ digits) in
    (
      digits,
      rw
          (
            puts_-text text_before v refl,
            vlog_seq-seq v1,
            hex,
            puts_-text (line (codes " records")) v2 refl,
            puts_-text (line (codes "guest: done")) (printed v2 (line (codes " records"))) refl,
          )
          (simp append_assoc),
      value,
    )

module _ (a : Addresses) where
  abbrev started : Str
  started = record { addr = a.started; text = started_text }

  abbrev processing : Str
  processing = record { addr = a.processing; text = processing_text }

  abbrev cache_miss : Str
  cache_miss = record { addr = a.cache_miss; text = cache_miss_text }

  abbrev request_failed : Str
  request_failed = record { addr = a.request_failed; text = request_failed_text }

  -- The four strings are where the linker put them.
  pub record IsLoaded (v : Vmm) : Type 0 where
    pub started : IsHeld v started
    pub processing : IsHeld v processing
    pub cache_miss : IsHeld v cache_miss
    pub request_failed : IsHeld v request_failed

  abbrev after_one : Vmm → Vmm
  after_one v = after_log v 1 started

  abbrev after_two : Vmm → Vmm
  after_two v = after_log (after_one v) 0 processing

  abbrev after_three : Vmm → Vmm
  after_three v = after_log (after_two v) 2 cache_miss

  abbrev after_four : Vmm → Vmm
  after_four v = after_log (after_three v) 3 request_failed

  two-IsDevice : (v : Vmm) → IsDevice v.machine.dev → IsDevice (after_two v).machine.dev
  two-IsDevice v d =
      after_log-IsDevice (after_one v) 0 processing (after_log-IsDevice v 1 started d)

  three-IsDevice : (v : Vmm) → IsDevice v.machine.dev → IsDevice (after_three v).machine.dev
  three-IsDevice v d = after_log-IsDevice (after_two v) 2 cache_miss (two-IsDevice v d)

  four-IsDevice : (v : Vmm) → IsDevice v.machine.dev → IsDevice (after_four v).machine.dev
  four-IsDevice v d = after_log-IsDevice (after_three v) 3 request_failed (three-IsDevice v d)

  log_found-after_four :
      (v : Vmm) → IsDevice v.machine.dev → IsLoaded v → log_found a v ≡ logged_all (after_four v)
  unfolding log_found
  log_found-after_four v d h = rw (
    vlog-after_log v 1 started d h.started,
    vlog-after_log (after_one v) 0 processing (after_log-IsDevice v 1 started d)
        (after_log-IsHeld v 1 started processing h.processing),
    vlog-after_log (after_two v) 2 cache_miss (two-IsDevice v d) (
        after_log-IsHeld (after_one v) 0 processing cache_miss
          (after_log-IsHeld v 1 started cache_miss h.cache_miss)),
    vlog-after_log (after_three v) 3 request_failed (three-IsDevice v d) (
        after_log-IsHeld (after_two v) 2 cache_miss request_failed (
          after_log-IsHeld (after_one v) 0 processing request_failed
            (after_log-IsHeld v 1 started request_failed h.request_failed))),
  )

abbrev pub next : ℕ → ℕ
next n = (n + 1) % 2 ^ 32

-- The four records, from sequence number `n` on.
abbrev pub four_records : ℕ → List Entry
four_records n =
    entry n 1 started_text
    ∷ entry (next n) 0 processing_text
    ∷ entry (next (next n)) 2 cache_miss_text
    ∷ entry (next (next (next n))) 3 request_failed_text
    ∷ []

pub four_records-IsClean : (n : ℕ) → n < 2 ^ 32 → All IsClean (four_records n)
four_records-IsClean n h = ground (arith, h)

-- The console of a run that finds the device, with the digits of the record count.
abbrev pub console_text : List ℕ → List ℕ
console_text digits =
    line (codes "guest: logging test") ++ (text_before ++ (b'0' ∷ b'x' ∷ digits) ++ text_after)

-- On a machine with the device, whatever error that shows, and with a freshly opened log,
-- test_log.c returns 0. A reader of the log file then finds its four records, in order, with their
-- levels and consecutive sequence numbers; the number on the console reads back as the device's
-- sequence number, four higher in 32 bits than before.
pub test_log-read_log :
    (a : Addresses) (v : Vmm)
    → IsDevice v.machine.dev
    → IsLoaded a v
    → v.machine.store ≡ logstore_open
    → let n = v.machine.dev.seq in
      (v' : Vmm) × (digits : List ℕ) × (test_log a v ≡ returned 0 v')
      × (read_log v'.machine.store.disk ≡ map reading_of (four_records n))
      × (v'.console ≡ v.console ++ console_text digits)
      × (read_hex 0 digits ≡ next (next (next (next n))))
unfolding test_log append_all
test_log-read_log a v d h fresh =
    let v1 = printed v (line (codes "guest: logging test")) in
    let held : IsLoaded a v1 = record {
      started = printed-IsHeld v _ (started a) h.started;
      processing = printed-IsHeld v _ (processing a) h.processing;
      cache_miss = printed-IsHeld v _ (cache_miss a) h.cache_miss;
      request_failed = printed-IsHeld v _ (request_failed a) h.request_failed;
    } in
    let (digits, run, value) = logged_all-printed (after_four a v1) (four-IsDevice a v1 d).seq in
    let stored : (after_four a v1).machine.store
        ≡ append_all logstore_open (four_records v.machine.dev.seq) =
      ap (λ ls. append_all ls (four_records v.machine.dev.seq)) fresh in
    (
      printed (after_four a v1) (text_before ++ (b'0' ∷ b'x' ∷ digits) ++ text_after),
      digits,
      rw
          (
            puts_-text (line (codes "guest: logging test")) v refl,
            vlog_id-magic v1,
            log_found-after_four a v1 d held,
          )
          run,
      ap (λ (ls : LogStore). read_log ls.disk) stored
          ∙ (read_log-append_all (four_records v.machine.dev.seq)
              (four_records-IsClean v.machine.dev.seq d.seq)).0,
      append_assoc v.console _ _,
      value,
    )
