-- ===== src/Virtq/Ends.antt =====
-- Whether the walk over a descriptor chain ends.
use cs360v_cs380_projects.Prelude.{
  ℕ, zero, suc, ◌+◌, ◌-◌, ◌/◌, ◌<◌, ◌≡◌, ◌⊎◌, inl, inr, refl, ◌∙◌, ap, ltb, Bool-cases, Option,
  none, some, List, arith, ◌&&◌, Bool, true, false, has_bit,
}
use cs360v_cs380_projects.Memory.{Memory}
use cs360v_cs380_projects.Virtq.{
  MemRegion, VringDesc, virtq_gpa_to_hva, read_desc, Cursor, Hop, stop, go, hop, walk, desc_size,
  flag_indirect, flag_next,
}
use cs360v_cs380_projects.Virtq.Walk.{after, walk-after}

abbrev pub is_indirect : Memory → ℕ → ℕ → Bool
is_indirect mem table i = has_bit (read_desc mem table i).flags flag_indirect

-- No entry of the table is an indirect descriptor.
abbrev pub IsFlat : Memory → ℕ → ℕ → Type 0
IsFlat mem table n = (j : ℕ) → j < n → is_indirect mem table j ≡ false

-- The tables that the entries of this one point at are flat: indirect tables do not nest.
abbrev pub DoesNotNest : List MemRegion → Memory → ℕ → ℕ → Type 0
DoesNotNest regions mem table n =
    (j t : ℕ)
    → j < n
    → is_indirect mem table j ≡ true
    → let d = read_desc mem table j in
      virtq_gpa_to_hva regions d.addr d.len ≡ some t → IsFlat mem t (d.len / desc_size)

abbrev pub Ends : Option (List ℕ) → Type 0
Ends o = (rec : List ℕ) × (o ≡ some rec)

module _ (regions : List MemRegion) (mem : Memory) (num : ℕ) where
  -- What a round leaves if it goes on within a flat table.
  FlatNext : Cursor → Hop → Type 0
  FlatNext c (stop rec) = Unit
  FlatNext c (go c') =
      (c'.table ≡ c.table) × (c'.t_size ≡ c.t_size) × (c'.x ≡ c.x + 1) × (c.x < num)

  hop-FlatNext : (c : Cursor) → IsFlat mem c.table c.t_size → FlatNext c (hop regions mem num c)
  unfolding hop FlatNext
  hop-FlatNext c flat = ground (arith, flat c.i)

  Ends-after_flat :
      (fuel : ℕ) (c : Cursor) (o : Hop)
      → ((c' : Cursor)
          → IsFlat mem c'.table c'.t_size
          → num - c'.x < fuel
          → Ends (walk fuel regions mem num c'))
      → IsFlat mem c.table c.t_size
      → num - c.x < suc fuel
      → FlatNext c o
      → Ends (after regions mem num fuel o)
  unfolding FlatNext
  Ends-after_flat fuel c (stop rec) ih flat m n = (rec, refl)
  Ends-after_flat fuel c (go c') ih flat m n =
      ih c' (λ j b. rw n.0 (flat j (omega arith))) (omega arith)

  pub flat-Ends :
      (fuel : ℕ) (c : Cursor)
      → IsFlat mem c.table c.t_size
      → num - c.x < fuel
      → Ends (walk fuel regions mem num c)
  flat-Ends zero c flat m = absurd (omega arith)
  flat-Ends (suc fuel) c flat m =
      rw (walk-after fuel regions mem num c) (
        Ends-after_flat fuel c (hop regions mem num c) (flat-Ends fuel) flat m
          (hop-FlatNext c flat))

  -- What a round leaves in a table that does not nest: a hop, or a jump into a flat table.
  NestNext : Cursor → Hop → Type 0
  NestNext c (stop rec) = Unit
  NestNext c (go c') =
      ((c'.table ≡ c.table) × (c'.t_size ≡ c.t_size) × (c'.x ≡ c.x + 1) × (c.x < num))
      ⊎ (IsFlat mem c'.table c'.t_size × (c'.x ≡ c.x))

  jump-NestNext :
      (c : Cursor) (d : VringDesc) (o : Option ℕ)
      → ((t : ℕ) → o ≡ some t → IsFlat mem t (d.len / desc_size))
      → NestNext c (elim o as (λ _. Hop) [
        | none ↦ stop c.rec
        | some t ↦ go (record c { table = t; t_size = d.len / desc_size; i = 0 })
      ])
  unfolding NestNext
  jump-NestNext c d none h = tt
  jump-NestNext c d (some t) h = inr (h t refl, refl)

  hop-NestNext :
      (c : Cursor) → DoesNotNest regions mem c.table c.t_size → NestNext c (hop regions mem num c)
  unfolding hop
  hop-NestNext c nest =
      let d : VringDesc = read_desc mem c.table c.i in
      elim (Bool-cases (ltb c.x num && ltb c.i c.t_size)) [
        | inr out ↦ rw out (unfold NestNext in tt)
        | inl more ↦ rw more (elim (Bool-cases (has_bit d.flags flag_indirect)) [
          | inl e ↦ rw e (
              jump-NestNext c d (virtq_gpa_to_hva regions d.addr d.len)
                (λ t f. nest c.i t (ground arith) e f))
          | inr e ↦ rw e (elim (Bool-cases (has_bit d.flags flag_next)) [
            | inl k ↦ rw k (unfold NestNext in inl (refl, refl, refl, ground arith))
            | inr k ↦ rw k (unfold NestNext in tt)
          ])
        ])
      ]

  Ends-after_nest :
      (fuel : ℕ) (c : Cursor) (o : Hop)
      → ((c' : Cursor)
          → DoesNotNest regions mem c'.table c'.t_size
          → suc (num - c'.x) < fuel
          → Ends (walk fuel regions mem num c'))
      → DoesNotNest regions mem c.table c.t_size
      → suc (num - c.x) < suc fuel
      → NestNext c o
      → Ends (after regions mem num fuel o)
  unfolding NestNext
  Ends-after_nest fuel c (stop rec) ih nest m n = (rec, refl)
  Ends-after_nest fuel c (go c') ih nest m (inl n) = ih c' (rw (n.0, n.1) nest) (omega arith)
  Ends-after_nest fuel c (go c') ih nest m (inr n) = flat-Ends fuel c' n.0 (omega arith)

  -- Where indirect tables do not nest, the walk ends within two rounds more than the queue has
  -- entries, whatever cycles the chain has.
  pub walk-Ends :
      (fuel : ℕ) (c : Cursor)
      → DoesNotNest regions mem c.table c.t_size
      → suc (num - c.x) < fuel
      → Ends (walk fuel regions mem num c)
  walk-Ends zero c nest m = absurd (omega arith)
  walk-Ends (suc fuel) c nest m =
      rw (walk-after fuel regions mem num c) (
        Ends-after_nest fuel c (hop regions mem num c) (walk-Ends fuel) nest m
          (hop-NestNext c nest))

-- A jump whose table begins with the descriptor of that very jump comes back to where it was.
self_jump :
    (regions : List MemRegion) (mem : Memory) (num t x : ℕ) (rec : List ℕ)
    → let d = read_desc mem t 0 in
      let c : Cursor = record { table = t; t_size = d.len / desc_size; i = 0; x = x; rec = rec } in
      has_bit d.flags flag_indirect ≡ true
      → virtq_gpa_to_hva regions d.addr d.len ≡ some t
      → 0 < d.len / desc_size
      → x < num
      → hop regions mem num c ≡ go c
unfolding hop
self_jump regions mem num t x rec ind self room more = ground arith

-- An indirect descriptor whose table begins with a copy of itself: the walk jumps back to that
-- table for ever, since a jump does not count as a hop. No amount of fuel ends it.
pub walk-hangs :
    (regions : List MemRegion) (mem : Memory) (num t : ℕ) (fuel x : ℕ) (rec : List ℕ)
    → let d = read_desc mem t 0 in
      has_bit d.flags flag_indirect ≡ true
      → virtq_gpa_to_hva regions d.addr d.len ≡ some t
      → 0 < d.len / desc_size
      → x < num
      → walk fuel regions mem num
          (record { table = t; t_size = d.len / desc_size; i = 0; x = x; rec = rec })
        ≡ none
unfolding walk
walk-hangs regions mem num t zero x rec ind self room more = refl
walk-hangs regions mem num t (suc fuel) x rec ind self room more =
    walk-after fuel regions mem num _
    ∙ ap (after regions mem num fuel) (self_jump regions mem num t x rec ind self room more)
    ∙ walk-hangs regions mem num t fuel x rec ind self room more
