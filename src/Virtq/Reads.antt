-- ===== src/Virtq/Reads.antt =====
-- Which memory the walk over a descriptor chain depends on.
use cs360v_cs380_projects.Prelude.{
  ℕ, zero, suc, ◌+◌, ◌-◌, ◌*◌, ◌/◌, ◌^◌, ◌<◌, ◌≤◌, ◌≡◌, inl, inr, refl, ◌∙◌, ap, sym, ltb,
  Bool-cases, Option, none, some, List, ◌∷◌, ◌++◌, arith, ◌&&◌, has_bit, min, length,
}
use cs360v_cs380_projects.Memory.{Memory, load_bytes, load16, load32, load64}
use cs360v_cs380_projects.Virtq.{
  MemRegion, VringDesc, virtq_gpa_to_hva, read_desc, gather, Cursor, Hop, stop, go, hop, visit,
  walk, desc_size, flag_indirect, flag_write, flag_next, max_record,
}
use cs360v_cs380_projects.Virtq.Translate.{In, Found, virtq_gpa_to_hva_lem}
use cs360v_cs380_projects.Virtq.Walk.{after, walk-after}

module _ (mem mem' : Memory) where
  -- The two memories agree on `[lo, hi)`.
  abbrev pub AgreeOn : ℕ → ℕ → Type 0
  AgreeOn lo hi = (q : ℕ) → lo ≤ q → q < hi → mem q ≡ mem' q

  pub load16-agree : (p : ℕ) → AgreeOn p (p + 2) → load16 mem p ≡ load16 mem' p
  load16-agree p h =
      λ i. h p (omega arith) (omega arith) i + 2 ^ 8 * h (p + 1) (omega arith) (omega arith) i

  load32-agree : (p : ℕ) → AgreeOn p (p + 4) → load32 mem p ≡ load32 mem' p
  load32-agree p h = λ i.
      load16-agree p (λ q a b. h q a (omega arith)) i
      + 2 ^ 16 * load16-agree (p + 2) (λ q a b. h q (omega arith) (omega arith)) i

  load64-agree : (p : ℕ) → AgreeOn p (p + 8) → load64 mem p ≡ load64 mem' p
  load64-agree p h = λ i.
      load32-agree p (λ q a b. h q a (omega arith)) i
      + 2 ^ 32 * load32-agree (p + 4) (λ q a b. h q (omega arith) (omega arith)) i

  load_bytes-agree : (n p : ℕ) → AgreeOn p (p + n) → load_bytes mem p n ≡ load_bytes mem' p n
  unfolding load_bytes
  load_bytes-agree zero p h = refl
  load_bytes-agree (suc n) p h = λ i.
      h p (omega arith) (omega arith) i
      ∷ load_bytes-agree n (p + 1) (λ q a b. h q (omega arith) (omega arith)) i

  pub read_desc-agree :
      (table n i : ℕ)
      → AgreeOn table (table + desc_size * n)
      → i < n
      → read_desc mem table i ≡ read_desc mem' table i
  unfolding read_desc
  read_desc-agree table n i h b = λ j. record {
    addr = load64-agree (table + desc_size * i) (λ q l u. h q (omega arith) (omega arith)) j;
    len = load32-agree (table + desc_size * i + 8) (λ q l u. h q (omega arith) (omega arith)) j;
    flags = load16-agree (table + desc_size * i + 12) (λ q l u. h q (omega arith) (omega arith)) j;
    next = load16-agree (table + desc_size * i + 14) (λ q l u. h q (omega arith) (omega arith)) j;
  }

  module _ (regions : List MemRegion) where
    -- They agree on all that the guest shares.
    abbrev pub AgreeShared : Type 0
    AgreeShared = (r : MemRegion) → In r regions → AgreeOn r.hva (r.hva + r.size)

    translated-agree :
        (gpa len p : ℕ)
        → AgreeShared
        → virtq_gpa_to_hva regions gpa len ≡ some p
        → AgreeOn p (p + len)
    translated-agree gpa len p h e =
        let f : Found regions gpa len p = ((virtq_gpa_to_hva_lem regions gpa len).0 p e).1 in
        λ q a b.
          h f.region f.member q (omega (arith, f.value))
            (omega (arith, f.value, f.holds.from, f.holds.upto))

    copy-agree :
        (d : VringDesc) (rec : List ℕ) (o : Option ℕ)
        → AgreeShared
        → virtq_gpa_to_hva regions d.addr d.len ≡ o
        → (elim o as (λ _. List ℕ) [
          | none ↦ rec
          | some p ↦ rec ++ load_bytes mem p (min d.len (max_record - length rec))
        ])
          ≡ (elim o as (λ _. List ℕ) [
            | none ↦ rec
            | some p ↦ rec ++ load_bytes mem' p (min d.len (max_record - length rec))
          ])
    copy-agree d rec none h e = refl
    copy-agree d rec (some p) h e =
        ap (λ bytes. rec ++ bytes)
          (load_bytes-agree _ p (λ q a b. translated-agree d.addr d.len p h e q a (omega arith)))

    gather-agree :
        (d : VringDesc) (rec : List ℕ)
        → AgreeShared
        → gather regions mem d rec ≡ gather regions mem' d rec
    unfolding gather
    gather-agree d rec h = elim (Bool-cases (has_bit d.flags flag_write)) [
      | inl w ↦ rw w
      | inr w ↦ rw w (copy-agree d rec (virtq_gpa_to_hva regions d.addr d.len) h refl)
    ]

    -- The descriptor table of the cursor that a round goes on with.
    OnTable : Hop → Type 0
    OnTable (stop rec) = Unit
    OnTable (go c) = AgreeOn c.table (c.table + desc_size * c.t_size)

    jump-OnTable :
        (c : Cursor) (d : VringDesc) (o : Option ℕ)
        → AgreeShared
        → virtq_gpa_to_hva regions d.addr d.len ≡ o
        → OnTable (elim o as (λ _. Hop) [
          | none ↦ stop c.rec
          | some t ↦ go (record c { table = t; t_size = d.len / desc_size; i = 0 })
        ])
    unfolding OnTable
    jump-OnTable c d none h e = tt
    jump-OnTable c d (some t) h e = λ q a b. translated-agree d.addr d.len t h e q a (omega arith)

    visit-OnTable :
        (c : Cursor) (d : VringDesc)
        → AgreeShared
        → AgreeOn c.table (c.table + desc_size * c.t_size)
        → OnTable (visit regions mem c d)
    unfolding visit
    visit-OnTable c d h t = elim (Bool-cases (has_bit d.flags flag_indirect)) [
      | inl e ↦ rw e (jump-OnTable c d (virtq_gpa_to_hva regions d.addr d.len) h refl)
      | inr e ↦ rw e (elim (Bool-cases (has_bit d.flags flag_next)) [
        | inl k ↦ rw k (unfold OnTable in t)
        | inr k ↦ rw k (unfold OnTable in tt)
      ])
    ]

    visit-agree :
        (c : Cursor) (d : VringDesc) → AgreeShared → visit regions mem c d ≡ visit regions mem' c d
    unfolding visit
    visit-agree c d h = rw (gather-agree d c.rec h)

    hop-agree :
        (num : ℕ) (c : Cursor)
        → AgreeShared
        → AgreeOn c.table (c.table + desc_size * c.t_size)
        → (hop regions mem num c ≡ hop regions mem' num c) × OnTable (hop regions mem num c)
    unfolding hop
    hop-agree num c h t = elim (Bool-cases (ltb c.x num && ltb c.i c.t_size)) [
      | inr out ↦ rw out (refl, unfold OnTable in tt)
      | inl more ↦ rw more (
        visit-agree c (read_desc mem c.table c.i) h
            ∙ ap (visit regions mem' c) (read_desc-agree c.table c.t_size c.i t (ground arith)),
        visit-OnTable c (read_desc mem c.table c.i) h t,
      )
    ]

    after-agree :
        (num fuel : ℕ) (o : Hop)
        → ((c : Cursor)
            → AgreeOn c.table (c.table + desc_size * c.t_size)
            → walk fuel regions mem num c ≡ walk fuel regions mem' num c)
        → OnTable o
        → after regions mem num fuel o ≡ after regions mem' num fuel o
    unfolding OnTable
    after-agree num fuel (stop rec) ih t = refl
    after-agree num fuel (go c) ih t = ih c t

    -- The record that a chain makes, and whether the walk ends, depend on nothing but the
    -- descriptor table and the memory of the guest's regions: two memories that agree there give
    -- the same, whatever the descriptors say. So no guest makes the device read anything else.
    pub walk-agree :
        (num fuel : ℕ) (c : Cursor)
        → AgreeShared
        → AgreeOn c.table (c.table + desc_size * c.t_size)
        → walk fuel regions mem num c ≡ walk fuel regions mem' num c
    unfolding walk
    walk-agree num zero c h t = refl
    walk-agree num (suc fuel) c h t =
        let (same, next) = hop-agree num c h t in
        walk-after fuel regions mem num c
        ∙ after-agree num fuel (hop regions mem num c) (λ c' t'. walk-agree num fuel c' h t') next
        ∙ ap (after regions mem' num fuel) same
        ∙ sym (walk-after fuel regions mem' num c)
