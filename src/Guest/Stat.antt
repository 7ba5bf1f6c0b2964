-- ===== src/Guest/Stat.antt =====
-- `vlog_stat` of the guest's library against the device, and the case in which the emulator dies.
use cs360v_cs380_projects.Prelude.{
  ℕ, ◌+◌, ◌-◌, ◌/◌, ◌^◌, ◌%◌, ◌<◌, ◌≤◌, ◌≡◌, ◌≢◌, refl, sym, subst, ◌∙◌, ap, inl, inr, Option, none,
  some, arith, ltb, leb, if◌then◌else◌, Bool, true, false, Bool-cases, bit_and, ◌⊎◌, ◌↔◌, not, ◌&&◌,
}
use cs360v_cs380_projects.Prelude.Bits.{bit_and_mask}
use cs360v_cs380_projects.Memory.{Memory, ram_base, dev_base, load32, store32}
use cs360v_cs380_projects.Memory.Translate.{in_ram, load32-store32, store32_frame}
use cs360v_cs380_projects.Device.{
  Device, Machine, fail, msg_addr, vlog_device_mmio_write, command, stats_size, set_error,
  stat_command, clear_error,
}
use cs360v_cs380_projects.Device.Status.{IsDevice, ready, msg_addr-sum, clear_error-ready}
use cs360v_cs380_projects.Device.Commands.{stats_written, stat_command_lem}
use cs360v_cs380_projects.Device.Err
use cs360v_cs380_projects.Device.Reg
use cs360v_cs380_projects.Device.Cmd
use cs360v_cs380_projects.Vmm.{Vmm, bus_store}
use cs360v_cs380_projects.Guest.{Run, returned, crashed, mmio_w32, result_of, vlog_stat}
use cs360v_cs380_projects.Guest.Driver.{
  with_device, store_lo, store_hi, store_len, read_status, result_of-ready, result_of-set_error,
}

abbrev pub stat_operands : Device → ℕ → ℕ → Device
stat_operands d out len = record d {
  status = ready;
  msg_addr_lo = bit_and out 0xffffffff % 2 ^ 32;
  msg_addr_hi = out / 2 ^ 32 % 2 ^ 32;
  len = len % 2 ^ 32;
}

abbrev pub asked : Vmm → ℕ → ℕ → Machine
asked v out len = record (v.machine) { dev = stat_operands v.machine.dev out len }

asked-IsDevice : (v : Vmm) (out len : ℕ) → IsDevice v.machine.dev → IsDevice (asked v out len).dev
asked-IsDevice v out len d = ground arith

asked_addr : (v : Vmm) (out len : ℕ) → out < 2 ^ 64 → msg_addr (asked v out len).dev ≡ out
asked_addr v out len h =
    msg_addr-sum (asked v out len).dev (omega arith) (omega arith)
    ∙ omega (arith, bit_and_mask 32 out)

-- What the call makes of the device's answer.
abbrev answer : Vmm → Option Machine → Run ℕ
answer v none = crashed
answer v (some m) = returned (result_of m.dev.status) (record v { machine = m })

store_stat :
    (v : Vmm) (o : Option Machine) → stat_command v.machine ≡ o → (elim o as (λ _. Type 0) [
      | none ↦ mmio_w32 (dev_base + Reg.cmd) Cmd.stat v ≡ crashed
      | some m ↦ mmio_w32 (dev_base + Reg.cmd) Cmd.stat v ≡ returned tt (record v { machine = m })
    ])
unfolding mmio_w32 bus_store vlog_device_mmio_write command
store_stat v none e = rw (e, vlog_device_mmio_write)
store_stat v (some m) e = rw (e, vlog_device_mmio_write)

module _ (v : Vmm) (out len : ℕ) (d : IsDevice v.machine.dev) where
  abbrev d1 : Device
  d1 = record (v.machine.dev) { status = ready; msg_addr_lo = bit_and out 0xffffffff % 2 ^ 32 }

  abbrev d2 : Device
  d2 = record d1 { msg_addr_hi = out / 2 ^ 32 % 2 ^ 32 }

  vlog_stat-answer :
      (o : Option Machine) → stat_command (asked v out len) ≡ o → vlog_stat out len v ≡ answer v o
  unfolding vlog_stat
  vlog_stat-answer none e = rw (
    store_lo (bit_and out 0xffffffff) v d.status,
    store_hi (out / 2 ^ 32) (with_device v d1) (inl refl),
    store_len len (with_device v d2) (inl refl),
    store_stat (with_device v (stat_operands v.machine.dev out len)) none e,
  )
  vlog_stat-answer (some m) e = rw (
    store_lo (bit_and out 0xffffffff) v d.status,
    store_hi (out / 2 ^ 32) (with_device v d1) (inl refl),
    store_len len (with_device v d2) (inl refl),
    store_stat (with_device v (stat_operands v.machine.dev out len)) (some m) e,
    read_status (record v { machine = m }),
  )

-- Room for the block and its 8 bytes in RAM, but an offered buffer that runs out of RAM.
abbrev pub overruns : ℕ → ℕ → Bool
overruns out len = leb stats_size len && in_ram out stats_size && not (in_ram out len)

abbrev pub stat_code : ℕ → ℕ → ℕ
stat_code out len =
    if ltb len stats_size then Err.bad_len else if in_ram out stats_size then 0 else Err.bad_addr

abbrev outcome : Vmm → ℕ → ℕ → Machine
outcome v out len =
    if ltb len stats_size
    then fail (asked v out len) Err.bad_len
    else if in_ram out stats_size
    then stats_written (asked v out len)
    else fail (asked v out len) Err.bad_addr

stat_command-outcome :
    (v : Vmm) (out len : ℕ)
    → out < 2 ^ 64
    → len < 2 ^ 32
    → IsDevice v.machine.dev
    → stat_command (asked v out len) ≡ (if overruns out len then none else some (outcome v out len))
stat_command-outcome v out len wide word d =
    stat_command_lem (asked v out len) (asked-IsDevice v out len d)
    ∙ ground (arith, asked_addr v out len wide)

returned≢crashed : (n : ℕ) (v : Vmm) → returned n v ≡ crashed → ⊥
returned≢crashed n v e = cc

-- STAT of the library takes the emulator down exactly when the guest offers a buffer of 8 bytes or
-- more whose first 8 bytes lie in guest RAM and whose end does not.
pub vlog_stat-crashed :
    (v : Vmm) (out len : ℕ)
    → out < 2 ^ 64
    → len < 2 ^ 32
    → IsDevice v.machine.dev
    → (vlog_stat out len v ≡ crashed) ↔ (overruns out len ≡ true)
vlog_stat-crashed v out len wide word d =
    let o : Option Machine = if overruns out len then none else some (outcome v out len) in
    let e : vlog_stat out len v ≡ answer v o =
      vlog_stat-answer v out len d o (stat_command-outcome v out len wide word d) in
    (λ c. only_if (sym e ∙ c), λ h. e ∙ rw h)
  where
    only_if :
        answer v (if overruns out len then none else some (outcome v out len)) ≡ crashed
        → overruns out len ≡ true
    only_if c = elim (Bool-cases (overruns out len)) [
      | inl h ↦ h
      | inr h ↦ absurd (returned≢crashed _ _ (rw h at c))
    ]

-- The two words of the block, in memory.
abbrev block : Memory → ℕ → ℕ → ℕ → Memory
block mem p a b = store32 (store32 mem p a) (p + 4) b

block_read :
    (mem : Memory) (p a b : ℕ)
    → a < 2 ^ 32
    → b < 2 ^ 32
    → (load32 (block mem p a b) p ≡ a) × (load32 (block mem p a b) (p + 4) ≡ b)
block_read mem p a b ha hb = (first, load32-store32 (store32 mem p a) (p + 4) b hb)
  where
    kept : (k : ℕ) → k < 4 → block mem p a b (p + k) ≡ store32 mem p a (p + k)
    kept k h = store32_frame (store32 mem p a) (p + 4) b (p + k) (inl (omega arith))

    first : load32 (block mem p a b) p ≡ a
    first = ground (arith, load32-store32 mem p a ha)

block_frame : (mem : Memory) (p a b q : ℕ) → (q < p) ⊎ (p + 8 ≤ q) → block mem p a b q ≡ mem q
block_frame mem p a b q h = ground arith

module _ (v : Vmm) (out len : ℕ) (wide : out < 2 ^ 64) where
  outcome-written :
      stat_code out len ≡ 0
      → (outcome v out len).ram
        ≡ block v.machine.ram (out - ram_base) v.machine.dev.seq v.machine.dev.bytes
  outcome-written h = elim (Bool-cases (ltb len stats_size)) [
    | inl small ↦ absurd (code_ne small)
    | inr big ↦ elim (Bool-cases (in_ram out stats_size)) [
      | inl inside ↦ rw (big, inside, asked_addr v out len wide)
      | inr outside ↦ absurd (code_ne' big outside)
    ]
  ]
    where
      code_ne : ltb len stats_size ≡ true → ⊥
      code_ne small = ground arith

      code_ne' : ltb len stats_size ≡ false → in_ram out stats_size ≡ false → ⊥
      code_ne' big outside = ground arith

  outcome-kept : stat_code out len ≢ 0 → (outcome v out len).ram ≡ v.machine.ram
  outcome-kept h = elim (Bool-cases (ltb len stats_size)) [
    | inl small ↦ rw small
    | inr big ↦ elim (Bool-cases (in_ram out stats_size)) [
      | inl inside ↦ absurd (h (rw (big, inside)))
      | inr outside ↦ rw (big, outside)
    ]
  ]

  outcome_frame :
      (q : ℕ)
      → (stat_code out len ≢ 0) ⊎ (q < out - ram_base) ⊎ (out - ram_base + 8 ≤ q)
      → (outcome v out len).ram q ≡ v.machine.ram q
  outcome_frame q (inl refused) = ap (λ (m : Memory). m q) (outcome-kept refused)
  outcome_frame q (inr apart) = elim (dec_code (stat_code out len)) [
    | inl zero' ↦
        ap (λ (m : Memory). m q) (outcome-written zero')
        ∙ block_frame v.machine.ram (out - ram_base) v.machine.dev.seq v.machine.dev.bytes q apart
    | inr other ↦ ap (λ (m : Memory). m q) (outcome-kept other)
  ]
    where
      dec_code : (n : ℕ) → (n ≡ 0) ⊎ (n ≢ 0)
      dec_code n = ground arith

-- STAT of the library, for any buffer address and length that fit their words, unless the buffer
-- has room for the block and begins with 8 bytes of guest RAM but does not end in it: the call
-- returns 3 for a buffer below 8 bytes, 2 for a block that is not wholly in guest RAM, and 0 with
-- the number of records and of message bytes in the buffer's first 8 bytes. No other byte of RAM
-- changes, nor do the log and the sequence number.
pub vlog_stat_lem :
    (v : Vmm) (out len : ℕ)
    → out < 2 ^ 64
    → len < 2 ^ 32
    → IsDevice v.machine.dev
    → overruns out len ≡ false
    → (v' : Vmm) × (vlog_stat out len v ≡ returned (stat_code out len) v')
      × (stat_code out len ≡ 0
          → (load32 v'.machine.ram (out - ram_base) ≡ v.machine.dev.seq)
            × (load32 v'.machine.ram (out - ram_base + 4) ≡ v.machine.dev.bytes))
      × ((q : ℕ)
          → (stat_code out len ≢ 0) ⊎ (q < out - ram_base) ⊎ (out - ram_base + 8 ≤ q)
          → v'.machine.ram q ≡ v.machine.ram q)
      × (v'.machine.store ≡ v.machine.store)
      × (v'.machine.dev.seq ≡ v.machine.dev.seq)
vlog_stat_lem v out len wide word d fits = (
  record v { machine = outcome v out len },
  vlog_stat-answer v out len d (some (outcome v out len))
        (stat_command-outcome v out len wide word d ∙ rw fits)
      ∙ ap (λ c. returned c (record v { machine = outcome v out len })) code,
  λ h.
      subst
        (λ (m : Memory).
          (load32 m (out - ram_base) ≡ v.machine.dev.seq)
          × (load32 m (out - ram_base + 4) ≡ v.machine.dev.bytes))
        (sym (outcome-written v out len wide h))
        (block_read v.machine.ram (out - ram_base) v.machine.dev.seq v.machine.dev.bytes d.seq
          d.bytes),
  λ q h. outcome_frame v out len wide q h,
  ground arith,
  unfold set_error clear_error in ground arith,
)
  where
    code : result_of (outcome v out len).dev.status ≡ stat_code out len
    code = ground (
      arith,
      result_of-ready,
      clear_error-ready (asked v out len).dev (inl refl),
      result_of-set_error (asked v out len).dev Err.bad_len refl (inr (inr refl)),
      result_of-set_error (asked v out len).dev Err.bad_addr refl (inr (inl refl)),
    )
