-- ===== src/Oracle/Steps.antt =====
-- project_1/tests/ag_guest.c: its steps, by what can be observed of them.
use cs360v_cs380_projects.Prelude.{
  ℕ, zero, suc, ◌/◌, ◌^◌, ◌<◌, ◌≡◌, refl, ◌∙◌, ap, sym, List, [], ◌∷◌, ◌++◌, true, arith,
  append_assoc, append-nil, if◌then◌else◌, ◌==◌, bit_and, has_bit,
}
use cs360v_cs380_projects.Memory.{Memory}
use cs360v_cs380_projects.LogStore.{Entry, logstore_open, append_all}
use cs360v_cs380_projects.Device.{status_error}
use cs360v_cs380_projects.Device.Status.{IsDevice}
use cs360v_cs380_projects.Vmm.{Vmm}
use cs360v_cs380_projects.Guest.{Guest, and_then, pure, returned, ◌>>=◌, vlog_seq}
use cs360v_cs380_projects.Guest.Hex.{printed, hex_text, putc_-printed, puthex_-hex_text}
use cs360v_cs380_projects.Guest.Written.{shown}
use cs360v_cs380_projects.Guest.Programs.Lines.{
  are_bytes, puts_-text, vlog_seq-seq, vlog_status-status,
}
use cs360v_cs380_projects.Oracle.Observe.{obs, dev_err, dev_errcode}

-- `key=0x%08x` and a newline.
abbrev pub obs_text : List ℕ → ℕ → List ℕ
obs_text key val = key ++ b'=' ∷ (b'0' ∷ b'x' ∷ hex_text 8 val) ++ b'\n' ∷ []

abbrev pub transcript : List (List ℕ × ℕ) → List ℕ
transcript [] = []
transcript ((key, val) ∷ rest) = obs_text key val ++ transcript rest

transcript-append :
    (xs : List (List ℕ × ℕ)) (key : List ℕ) (val : ℕ)
    → transcript (xs ++ (key, val) ∷ []) ≡ transcript xs ++ obs_text key val
transcript-append [] key val = append-nil (obs_text key val)
transcript-append ((k, x) ∷ xs) key val =
    ap (λ l. obs_text k x ++ l) (transcript-append xs key val)
    ∙ sym (append_assoc (obs_text k x) (transcript xs) (obs_text key val))

-- What a test sees of a machine: the device's sequence number and error code (0 for none), the
-- observations and the records so far.
pub record Seen : Type 0 where
  pub seq : ℕ
  pub code : ℕ
  pub obs : List (List ℕ × ℕ)
  pub log : List Entry

abbrev error_bit : ℕ → ℕ
error_bit st = if has_bit st status_error then 1 else 0

shown-err : (c : ℕ) → c < 4 → error_bit (shown c) ≡ (if c == 0 then 0 else 1)
shown-err zero h = refl
shown-err (suc zero) h = refl
shown-err (suc (suc zero)) h = refl
shown-err (suc (suc (suc zero))) h = refl
shown-err (suc (suc (suc (suc c)))) h = absurd (omega arith)

shown-errcode : (c : ℕ) → c < 4 → bit_and (shown c / 2 ^ 8) 0xff ≡ c
shown-errcode zero h = refl
shown-errcode (suc zero) h = refl
shown-errcode (suc (suc zero)) h = refl
shown-errcode (suc (suc (suc zero))) h = refl
shown-errcode (suc (suc (suc (suc c)))) h = absurd (omega arith)

-- The machine `v` looks so, where RAM holds `ram` and the console began with `before`.
pub record Looks (ram : Memory) (before : List ℕ) (s : Seen) (v : Vmm) : Type 0 where
  pub device : IsDevice v.machine.dev
  pub seq : v.machine.dev.seq ≡ s.seq
  pub status : v.machine.dev.status ≡ shown s.code
  pub code : s.code < 4
  pub memory : v.machine.ram ≡ ram
  pub console : v.console ≡ before ++ transcript s.obs
  pub store : v.machine.store ≡ append_all logstore_open s.log

-- `obs` puts its line on the console.
pub obs-obs_text :
    (key : List ℕ) (val : ℕ) (v : Vmm)
    → are_bytes key ≡ true
    → obs key val v ≡ returned tt (printed v (obs_text key val))
unfolding obs
obs-obs_text key val v bytes =
    let v1 = printed v key in
    let v2 = printed v1 (b'=' ∷ []) in
    let v3 = printed v2 (b'0' ∷ b'x' ∷ hex_text 8 val) in
    rw
      (
        puts_-text key v bytes,
        putc_-printed b'=' v1,
        puthex_-hex_text val v2,
        putc_-printed b'\n' v3,
      )
      (simp append_assoc)

module _ (ram : Memory) (before : List ℕ) where
  -- From a machine that looks like `s`, the guest's code returns `a`, and the machine looks like
  -- `s'`.
  abbrev pub Does : {A : Type 0} → Guest A → A → Seen → Seen → Type 0
  Does m a s s' =
      (v : Vmm) → Looks ram before s v → (v' : Vmm) × (m v ≡ returned a v') × Looks ram before s' v'

  pub pure-Does : {A : Type 0} (a : A) (s : Seen) → Does (pure a) a s s
  pure-Does a s v l = (v, refl, l)

  pub bind-Does :
      {A B : Type 0} {m : Guest A} (k : A → Guest B) {a : A} {b : B} {s t u : Seen}
      → Does m a s t
      → Does (k a) b t u
      → Does (m >>= k) b s u
  bind-Does k first rest v l =
      let (v', run, l') = first v l in
      let (v'', run', l'') = rest v' l' in (v'', ap (λ r. and_then r k) run ∙ run', l'')

  pub obs-Does :
      (key : List ℕ) (val : ℕ) (s : Seen)
      → are_bytes key ≡ true
      → Does (obs key val) tt s (record s { obs = s.obs ++ (key, val) ∷ [] })
  obs-Does key val s bytes v l = (
    printed v (obs_text key val),
    obs-obs_text key val v bytes,
    record {
      device = l.device;
      seq = l.seq;
      status = l.status;
      code = l.code;
      memory = l.memory;
      store = l.store;
      console = rw (l.console, transcript-append s.obs key val) (simp append_assoc);
    },
  )

  pub vlog_seq-Does : (s : Seen) → Does vlog_seq s.seq s s
  vlog_seq-Does s v l = (v, vlog_seq-seq v ∙ ap (λ n. returned n v) l.seq, l)

  pub dev_err-Does : (s : Seen) → Does dev_err (if s.code == 0 then 0 else 1) s s
  unfolding dev_err
  dev_err-Does s v l = (
    v,
    rw (vlog_status-status v) (
        ap (λ st. returned (error_bit st) v) l.status
        ∙ ap (λ n. returned n v) (shown-err s.code l.code)),
    l,
  )

  pub dev_errcode-Does : (s : Seen) → Does dev_errcode s.code s s
  unfolding dev_errcode
  dev_errcode-Does s v l = (
    v,
    rw (vlog_status-status v) (
        ap (λ (st : ℕ). returned (bit_and (st / 2 ^ 8) 0xff) v) l.status
        ∙ ap (λ n. returned n v) (shown-errcode s.code l.code)),
    l,
  )
