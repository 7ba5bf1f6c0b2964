-- ===== src/Guest/Programs/Logged.antt =====
-- project_1/guest/vlog.c: a call of `vlog` on a string that lies in guest RAM.
use cs360v_cs380_projects.Prelude.{
  ℕ, ◌-◌, ◌%◌, ◌^◌, ◌<◌, ◌≤◌, ◌≡◌, ◌∙◌, ap, List, true, false, arith, length, ltb, ◌==◌,
}
use cs360v_cs380_projects.Memory.{ram_base, load_bytes}
use cs360v_cs380_projects.Memory.Translate.{in_ram}
use cs360v_cs380_projects.Device.{Machine, vlog_max_msg, msg_addr}
use cs360v_cs380_projects.Device.Status.{IsDevice}
use cs360v_cs380_projects.Device.Commands.{logged, message, log_outcome}
use cs360v_cs380_projects.Vmm.{Vmm}
use cs360v_cs380_projects.Guest.{returned, result_of, vlog}
use cs360v_cs380_projects.Guest.Driver.{
  requested, requested_addr, result_of-ready, vlog_write-log_outcome,
}
use cs360v_cs380_projects.Guest.Hex.{printed}
use cs360v_cs380_projects.Guest.Programs.{Str}

-- The string's bytes lie at its address, within RAM; it is not empty, and no longer than a record.
pub record IsHeld (v : Vmm) (s : Str) : Type 0 where
  pub in_range : in_ram s.addr (length s.text) ≡ true
  pub some_text : 0 < length s.text
  pub short : length s.text ≤ vlog_max_msg
  pub bytes : load_bytes v.machine.ram (s.addr - ram_base) (length s.text) ≡ s.text

-- The machine once the string is logged.
abbrev pub after_log : Vmm → ℕ → Str → Vmm
after_log v level s = record v {
  machine = logged (requested v level s.addr (length s.text)) s.text;
}

pub after_log-IsDevice :
    (v : Vmm) (level : ℕ) (s : Str)
    → IsDevice v.machine.dev
    → IsDevice (after_log v level s).machine.dev
after_log-IsDevice v level s d = ground arith

log_outcome-logged :
    (v : Vmm) (level : ℕ) (s : Str)
    → IsHeld v s
    → let m = requested v level s.addr (length s.text) in log_outcome m ≡ logged m s.text
log_outcome-logged v level s h =
    let m : Machine = requested v level s.addr (length s.text) in
    let addr : msg_addr m.dev ≡ s.addr =
      requested_addr v level s.addr (length s.text) (ground (arith, h.in_range)) in
    let len : length s.text % 2 ^ 32 ≡ length s.text = omega (arith, h.short) in
    let text : message m ≡ s.text =
      ap (λ p. load_bytes v.machine.ram (p - ram_base) (length s.text % 2 ^ 32)) addr
      ∙ ap (λ n. load_bytes v.machine.ram (s.addr - ram_base) n) len
      ∙ h.bytes in
    let fits : ltb vlog_max_msg m.dev.len ≡ false = ground (arith, h.short) in
    let full : (m.dev.len == 0) ≡ false = ground (arith, h.some_text, h.short) in
    let inside : in_ram (msg_addr m.dev) m.dev.len ≡ true = rw (addr, len) h.in_range in
    rw (fits, full, inside) (ap (λ bytes. logged m bytes) text)

-- A call of `vlog` on such a string returns 0 and logs the string.
pub vlog-after_log :
    (v : Vmm) (level : ℕ) (s : Str)
    → IsDevice v.machine.dev
    → IsHeld v s
    → vlog level s.addr s.text v ≡ returned 0 (after_log v level s)
unfolding vlog
vlog-after_log v level s d h =
    vlog_write-log_outcome v level s.addr (length s.text) d
    ∙ ap (λ (m : Machine). returned (result_of m.dev.status) (record v { machine = m }))
        (log_outcome-logged v level s h)
    ∙ ap (λ c. returned c (after_log v level s)) result_of-ready

-- Logging one string leaves the others where they are.
pub after_log-IsHeld :
    (v : Vmm) (level : ℕ) (s t : Str) → IsHeld v t → IsHeld (after_log v level s) t
after_log-IsHeld v level s t h = record {
  in_range = h.in_range;
  some_text = h.some_text;
  short = h.short;
  bytes = h.bytes;
}

pub printed-IsHeld : (v : Vmm) (text : List ℕ) (t : Str) → IsHeld v t → IsHeld (printed v text) t
printed-IsHeld v text t h = record {
  in_range = h.in_range;
  some_text = h.some_text;
  short = h.short;
  bytes = h.bytes;
}
