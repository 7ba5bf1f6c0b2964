-- ===== src/Oracle/Registers.antt =====
-- project_1/tests/ag_guest.c: the scenario that reads the device's registers back.
use cs360v_cs380_projects.Prelude.{
  ℕ, ◌+◌, ◌%◌, ◌^◌, ◌<◌, ◌≡◌, refl, ◌∙◌, ap, inl, List, [], ◌∷◌, ◌++◌, codes, arith, append_assoc,
  append-nil,
}
use cs360v_cs380_projects.Memory.{Memory, dev_base}
use cs360v_cs380_projects.Device.{Device, vlog_magic, vlog_device_mmio_read, vlog_device_mmio_write}
use cs360v_cs380_projects.Device.Status.{IsDevice, ready}
use cs360v_cs380_projects.Device.Reg
use cs360v_cs380_projects.Vmm.{Vmm, bus_store, bus_value}
use cs360v_cs380_projects.Guest.{returned, mmio_w32, mmio_r32}
use cs360v_cs380_projects.Guest.Driver.{with_device, store_lo, store_hi, store_len, store_level}
use cs360v_cs380_projects.Guest.Hex.{printed}
use cs360v_cs380_projects.Guest.Programs.Lines.{vlog_id-magic, vlog_seq-seq, vlog_status-status}
use cs360v_cs380_projects.Oracle.{Bootinfo}
use cs360v_cs380_projects.Oracle.Scenarios
use cs360v_cs380_projects.Oracle.Steps.{Does, transcript, obs_text, obs-obs_text}
use cs360v_cs380_projects.Oracle.Records.{fresh}

read_lo : (v : Vmm) → mmio_r32 (dev_base + Reg.msg_lo) v ≡ returned v.machine.dev.msg_addr_lo v
unfolding mmio_r32 bus_value vlog_device_mmio_read
read_lo v = refl

read_hi : (v : Vmm) → mmio_r32 (dev_base + Reg.msg_hi) v ≡ returned v.machine.dev.msg_addr_hi v
unfolding mmio_r32 bus_value vlog_device_mmio_read
read_hi v = refl

read_len : (v : Vmm) → mmio_r32 (dev_base + Reg.len) v ≡ returned v.machine.dev.len v
unfolding mmio_r32 bus_value vlog_device_mmio_read
read_len v = refl

read_level : (v : Vmm) → mmio_r32 (dev_base + Reg.level) v ≡ returned v.machine.dev.level v
unfolding mmio_r32 bus_value vlog_device_mmio_read
read_level v = refl

write_id : (v : Vmm) → mmio_w32 (dev_base + Reg.id) 0xdeadbeef v ≡ returned tt v
unfolding mmio_w32 bus_store vlog_device_mmio_write
write_id v = refl

write_seq : (v : Vmm) → mmio_w32 (dev_base + Reg.seq) 0x55555555 v ≡ returned tt v
unfolding mmio_w32 bus_store vlog_device_mmio_write
write_seq v = refl

write_status : (v : Vmm) → mmio_w32 (dev_base + Reg.status) 0xdeadbeef v ≡ returned tt v
unfolding mmio_w32 bus_store vlog_device_mmio_write
write_status v = refl

-- The observations, for the operands and the sequence number of the device.
abbrev pub registers : (lo hi len level seq : ℕ) → List (List ℕ × ℕ)
registers lo hi len level seq =
    (codes "msg_lo", lo)
    ∷ (codes "msg_hi", hi)
    ∷ (codes "len", len)
    ∷ (codes "level", level)
    ∷ (codes "id_after_ro", vlog_magic)
    ∷ (codes "seq_after_ro", seq)
    ∷ (codes "status_ro_unchanged", 1)
    ∷ []

module _ (bi : Bootinfo) where
  abbrev operands : Device → Device
  operands d = record d {
    status = ready;
    msg_addr_lo = bi.arg0 % 2 ^ 32;
    msg_addr_hi = bi.arg1 % 2 ^ 32;
    len = bi.count % 2 ^ 32;
    level = bi.level % 2 ^ 32;
  }

  regs-registers :
      (v : Vmm)
      → IsDevice v.machine.dev
      → Scenarios.regs bi v
        ≡ returned 0 (
            printed (with_device v (operands v.machine.dev)) (
              transcript (
                registers
                  (bi.arg0 % 2 ^ 32)
                  (bi.arg1 % 2 ^ 32)
                  (bi.count % 2 ^ 32)
                  (bi.level % 2 ^ 32)
                  v.machine.dev.seq)))
  unfolding Scenarios.regs
  regs-registers v d =
      let d1 : Device = record (v.machine.dev) { status = ready; msg_addr_lo = bi.arg0 % 2 ^ 32 } in
      let d2 : Device = record d1 { msg_addr_hi = bi.arg1 % 2 ^ 32 } in
      let d3 : Device = record d2 { len = bi.count % 2 ^ 32 } in
      let w0 : Vmm = with_device v (operands v.machine.dev) in
      let w1 : Vmm = printed w0 (obs_text (codes "msg_lo") (bi.arg0 % 2 ^ 32)) in
      let w2 : Vmm = printed w1 (obs_text (codes "msg_hi") (bi.arg1 % 2 ^ 32)) in
      let w3 : Vmm = printed w2 (obs_text (codes "len") (bi.count % 2 ^ 32)) in
      let w4 : Vmm = printed w3 (obs_text (codes "level") (bi.level % 2 ^ 32)) in
      let w5 : Vmm = printed w4 (obs_text (codes "id_after_ro") vlog_magic) in
      let w6 : Vmm = printed w5 (obs_text (codes "seq_after_ro") v.machine.dev.seq) in
      rw
        (
          store_lo bi.arg0 v d.status,
          store_hi bi.arg1 (with_device v d1) (inl refl),
          store_len bi.count (with_device v d2) (inl refl),
          store_level bi.level (with_device v d3) (inl refl),
          read_lo w0,
          obs-obs_text (codes "msg_lo") (bi.arg0 % 2 ^ 32) w0 refl,
          read_hi w1,
          obs-obs_text (codes "msg_hi") (bi.arg1 % 2 ^ 32) w1 refl,
          read_len w2,
          obs-obs_text (codes "len") (bi.count % 2 ^ 32) w2 refl,
          read_level w3,
          obs-obs_text (codes "level") (bi.level % 2 ^ 32) w3 refl,
          write_id w4,
          write_seq w4,
          vlog_id-magic w4,
          obs-obs_text (codes "id_after_ro") vlog_magic w4 refl,
          vlog_seq-seq w5,
          obs-obs_text (codes "seq_after_ro") v.machine.dev.seq w5 refl,
          vlog_status-status w6,
          write_status w6,
          vlog_status-status w6,
          obs-obs_text (codes "status_ro_unchanged") 1 w6 refl,
        )
        (simp append_assoc)

-- From a fresh device on, for operands of 32 bits: they read back as written, the identity and the
-- sequence number are not written to, and neither is STATUS.
pub regs-Does :
    (ram : Memory) (before : List ℕ) (bi : Bootinfo)
    → bi.arg0 < 2 ^ 32
    → bi.arg1 < 2 ^ 32
    → bi.count < 2 ^ 32
    → bi.level < 2 ^ 32
    → Does ram before (Scenarios.regs bi) 0 fresh (record {
      seq = 0;
      code = 0;
      obs = registers bi.arg0 bi.arg1 bi.count bi.level 0;
      log = [];
    })
regs-Does ram before bi lo hi len level v l =
    let same_lo : bi.arg0 % 2 ^ 32 ≡ bi.arg0 = omega (arith, lo) in
    let same_hi : bi.arg1 % 2 ^ 32 ≡ bi.arg1 = omega (arith, hi) in
    let same_len : bi.count % 2 ^ 32 ≡ bi.count = omega (arith, len) in
    let same_level : bi.level % 2 ^ 32 ≡ bi.level = omega (arith, level) in
    let shown_as : transcript (
          registers (bi.arg0 % 2 ^ 32) (bi.arg1 % 2 ^ 32) (bi.count % 2 ^ 32) (bi.level % 2 ^ 32)
            v.machine.dev.seq)
        ≡ transcript (registers bi.arg0 bi.arg1 bi.count bi.level 0) =
      λ i. transcript (registers (same_lo i) (same_hi i) (same_len i) (same_level i) (l.seq i)) in
    (
      printed (with_device v (operands bi v.machine.dev))
          (transcript (registers bi.arg0 bi.arg1 bi.count bi.level 0)),
      regs-registers bi v l.device
          ∙ ap (λ text. returned 0 (printed (with_device v (operands bi v.machine.dev)) text))
              shown_as,
      record {
        device = ground (arith, l.device.seq, l.device.bytes);
        seq = l.seq;
        status = refl;
        code = omega arith;
        memory = l.memory;
        console =
            ap (λ text. text ++ transcript (registers bi.arg0 bi.arg1 bi.count bi.level 0))
              (l.console ∙ append-nil before);
        store = l.store;
      },
    )
