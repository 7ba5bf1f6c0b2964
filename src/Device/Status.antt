-- ===== src/Device/Status.antt =====
-- The STATUS register of device.c: which words it can hold, and what the two helpers make of them.
use cs360v_cs380_projects.Prelude.{
  ℕ, ◌+◌, ◌*◌, ◌^◌, ◌<◌, ◌≡◌, ◌⊎◌, inl, inr, refl, arith, bit_or, ◌%◌, ◌/◌, u64_mod,
}
use cs360v_cs380_projects.Prelude.Bits.{bit_or_disjoint}
use cs360v_cs380_projects.Device.{Device, msg_addr, set_error, clear_error, vlog_device_init}

-- READY alone.
abbrev pub ready : ℕ
ready = 0x001

-- READY and ERROR with an error code in bits 8 to 15.
abbrev pub failed : ℕ → ℕ
failed code = 0x005 + 0x100 * code

abbrev pub IsStatus : ℕ → Type 0
IsStatus s = (s ≡ ready) ⊎ (s ≡ failed 1) ⊎ (s ≡ failed 2) ⊎ (s ≡ failed 3)

abbrev pub IsCode : ℕ → Type 0
IsCode c = (c ≡ 1) ⊎ (c ≡ 2) ⊎ (c ≡ 3)

-- All registers are 32-bit words, and STATUS is one of the four.
pub record IsDevice (d : Device) : Type 0 where
  pub status : IsStatus d.status
  pub lo : d.msg_addr_lo < 2 ^ 32
  pub hi : d.msg_addr_hi < 2 ^ 32
  pub len : d.len < 2 ^ 32
  pub level : d.level < 2 ^ 32
  pub seq : d.seq < 2 ^ 32
  pub bytes : d.bytes < 2 ^ 32

pub clear_error-ready : (d : Device) → IsStatus d.status → (clear_error d).status ≡ ready
unfolding clear_error
clear_error-ready d (inl e) = rw e
clear_error-ready d (inr (inl e)) = rw e
clear_error-ready d (inr (inr (inl e))) = rw e
clear_error-ready d (inr (inr (inr e))) = rw e

-- The code that STATUS shows, as the guest library extracts it.
abbrev pub code_of : ℕ → ℕ
code_of s = s / 2 ^ 8 % 2 ^ 8

set_error_case :
    (d : Device) (c : ℕ)
    → IsCode c
    → (s : ℕ) → d.status ≡ s
    → IsStatus s
    → (set_error d c).status ≡ failed (bit_or (code_of s) c)
unfolding set_error
set_error_case d c (inl k) s h (inl e) = rw (h, e, k)
set_error_case d c (inl k) s h (inr (inl e)) = rw (h, e, k)
set_error_case d c (inl k) s h (inr (inr (inl e))) = rw (h, e, k)
set_error_case d c (inl k) s h (inr (inr (inr e))) = rw (h, e, k)
set_error_case d c (inr (inl k)) s h (inl e) = rw (h, e, k)
set_error_case d c (inr (inl k)) s h (inr (inl e)) = rw (h, e, k)
set_error_case d c (inr (inl k)) s h (inr (inr (inl e))) = rw (h, e, k)
set_error_case d c (inr (inl k)) s h (inr (inr (inr e))) = rw (h, e, k)
set_error_case d c (inr (inr k)) s h (inl e) = rw (h, e, k)
set_error_case d c (inr (inr k)) s h (inr (inl e)) = rw (h, e, k)
set_error_case d c (inr (inr k)) s h (inr (inr (inl e))) = rw (h, e, k)
set_error_case d c (inr (inr k)) s h (inr (inr (inr e))) = rw (h, e, k)

-- `set_error` ORs the new code into the one that STATUS already shows.
pub set_error-or :
    (d : Device) (c : ℕ)
    → IsCode c
    → IsStatus d.status
    → (set_error d c).status ≡ failed (bit_or (code_of d.status) c)
set_error-or d c k h = set_error_case d c k d.status refl h

or_IsCode-IsCode : (s c : ℕ) → IsStatus s → IsCode c → IsCode (bit_or (code_of s) c)
or_IsCode-IsCode s c (inl e) (inl k) = rw (e, k) (inl refl)
or_IsCode-IsCode s c (inl e) (inr (inl k)) = rw (e, k) (inr (inl refl))
or_IsCode-IsCode s c (inl e) (inr (inr k)) = rw (e, k) (inr (inr refl))
or_IsCode-IsCode s c (inr (inl e)) (inl k) = rw (e, k) (inl refl)
or_IsCode-IsCode s c (inr (inl e)) (inr (inl k)) = rw (e, k) (inr (inr refl))
or_IsCode-IsCode s c (inr (inl e)) (inr (inr k)) = rw (e, k) (inr (inr refl))
or_IsCode-IsCode s c (inr (inr (inl e))) (inl k) = rw (e, k) (inr (inr refl))
or_IsCode-IsCode s c (inr (inr (inl e))) (inr (inl k)) = rw (e, k) (inr (inl refl))
or_IsCode-IsCode s c (inr (inr (inl e))) (inr (inr k)) = rw (e, k) (inr (inr refl))
or_IsCode-IsCode s c (inr (inr (inr e))) (inl k) = rw (e, k) (inr (inr refl))
or_IsCode-IsCode s c (inr (inr (inr e))) (inr (inl k)) = rw (e, k) (inr (inr refl))
or_IsCode-IsCode s c (inr (inr (inr e))) (inr (inr k)) = rw (e, k) (inr (inr refl))

failed-IsStatus : (c : ℕ) → IsCode c → IsStatus (failed c)
failed-IsStatus c (inl e) = rw e (inr (inl refl))
failed-IsStatus c (inr (inl e)) = rw e (inr (inr (inl refl)))
failed-IsStatus c (inr (inr e)) = rw e (inr (inr (inr refl)))

pub set_error-IsDevice : {d : Device} (c : ℕ) → IsCode c → IsDevice d → IsDevice (set_error d c)
set_error-IsDevice {d} c k v =
    let shown : IsStatus (set_error d c).status =
      rw (set_error-or d c k v.status)
        (failed-IsStatus _ (or_IsCode-IsCode d.status c v.status k)) in
    unfold set_error in
    record {
      status = unfold set_error in shown;
      lo = v.lo;
      hi = v.hi;
      len = v.len;
      level = v.level;
      seq = v.seq;
      bytes = v.bytes;
    }

pub clear_error-IsDevice : {d : Device} → IsDevice d → IsDevice (clear_error d)
clear_error-IsDevice {d} v =
    let shown : IsStatus (clear_error d).status = inl (clear_error-ready d v.status) in
    unfold clear_error in
    record {
      status = unfold clear_error in shown;
      lo = v.lo;
      hi = v.hi;
      len = v.len;
      level = v.level;
      seq = v.seq;
      bytes = v.bytes;
    }

pub vlog_device_init-IsDevice : IsDevice vlog_device_init
unfolding vlog_device_init
vlog_device_init-IsDevice = ground arith

-- The two halves of the address make up the 64-bit address.
pub msg_addr-sum :
    (d : Device)
    → d.msg_addr_lo < 2 ^ 32
    → d.msg_addr_hi < 2 ^ 32
    → msg_addr d ≡ d.msg_addr_lo + d.msg_addr_hi * 2 ^ 32
unfolding msg_addr
msg_addr-sum d lo hi =
    let e : d.msg_addr_hi * 2 ^ 32 % u64_mod ≡ d.msg_addr_hi * 2 ^ 32 = omega arith in
    rw e (bit_or_disjoint 32 d.msg_addr_lo d.msg_addr_hi lo)
