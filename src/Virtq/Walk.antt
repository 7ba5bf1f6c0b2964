-- ===== src/Virtq/Walk.antt =====
-- The walk over one descriptor chain: what it reads, how long its record is, whether it ends.
use cs360v_cs380_projects.Prelude.{
  ℕ, zero, suc, ◌+◌, ◌-◌, ◌≤◌, ◌≡◌, inl, inr, refl, ◌∙◌, sym, Bool-cases, Option, none, some, List,
  ◌++◌, arith, has_bit, min, length, length-append,
}
use cs360v_cs380_projects.Memory.{Memory, load_bytes}
use cs360v_cs380_projects.Virtq.{
  MemRegion, VringDesc, virtq_gpa_to_hva, read_desc, gather, Cursor, Hop, stop, go, hop, walk,
  flag_write, max_record,
}

pub length-load_bytes : (mem : Memory) (p n : ℕ) → length (load_bytes mem p n) ≡ n
unfolding load_bytes
length-load_bytes mem p zero = refl
length-load_bytes mem p (suc n) = omega (arith, length-load_bytes mem (p + 1) n)

length-gather :
    (regions : List MemRegion) (mem : Memory) (d : VringDesc) (rec : List ℕ)
    → length rec ≤ max_record
    → length (gather regions mem d rec) ≤ max_record
unfolding gather
length-gather regions mem d rec h = elim (Bool-cases (has_bit d.flags flag_write)) [
  | inl w ↦ rw w h
  | inr r ↦ rw r (copied (virtq_gpa_to_hva regions d.addr d.len))
]
  where
    copied :
        (o : Option ℕ)
        → length (elim o as (λ _. List ℕ) [
          | none ↦ rec
          | some p ↦ rec ++ load_bytes mem p (min d.len (max_record - length rec))
        ])
          ≤ max_record
    copied none = h
    copied (some p) = omega (
      arith,
      length-append rec (load_bytes mem p (min d.len (max_record - length rec))),
      length-load_bytes mem p (min d.len (max_record - length rec)),
    )

-- The walk after its first round.
abbrev pub after : List MemRegion → Memory → ℕ → ℕ → Hop → Option (List ℕ)
after regions mem num fuel (stop rec) = some rec
after regions mem num fuel (go c) = walk fuel regions mem num c

pub walk-after :
    (fuel : ℕ) (regions : List MemRegion) (mem : Memory) (num : ℕ) (c : Cursor)
    → walk (suc fuel) regions mem num c ≡ after regions mem num fuel (hop regions mem num c)
unfolding walk
walk-after fuel regions mem num c = ground arith

-- A property of the record of a round's outcome.
abbrev OnRec : (List ℕ → Type 0) → Hop → Type 0
OnRec P (stop rec) = P rec
OnRec P (go c) = P c.rec

abbrev Fits : List ℕ → Type 0
Fits rec = length rec ≤ max_record

module _ (regions : List MemRegion) (mem : Memory) (num : ℕ) where
  hop-Fits : (c : Cursor) → Fits c.rec → OnRec Fits (hop regions mem num c)
  unfolding hop
  hop-Fits c h =
      let d : VringDesc = read_desc mem c.table c.i in
      ground (arith, length-gather regions mem d c.rec h)

  Fits-after :
      (fuel : ℕ) (o : Hop) {out : List ℕ}
      → ((c : Cursor) → Fits c.rec → walk fuel regions mem num c ≡ some out → Fits out)
      → OnRec Fits o
      → after regions mem num fuel o ≡ some out
      → Fits out
  Fits-after fuel (stop rec) ih h e = ground arith
  Fits-after fuel (go c) ih h e = ih c h e

  -- The rounds of a walk, one cursor after the other, whether it ever ends or not.
  pub data Reaches (c : Cursor) : Cursor → Type 0 where
    here : Reaches c c
    onward : {c' c'' : Cursor} → Reaches c c' → hop regions mem num c' ≡ go c'' → Reaches c c''

  Fits-go : {o : Hop} {c : Cursor} → OnRec Fits o → o ≡ go c → Fits c.rec
  Fits-go {o = go c'} h e = ground arith
  Fits-go {o = stop rec} h e = cc

  Reaches-Fits : {c c' : Cursor} → Fits c.rec → Reaches c c' → Fits c'.rec
  Reaches-Fits h here = h
  Reaches-Fits h (onward {c' = c'} r e) = Fits-go (hop-Fits c' (Reaches-Fits h r)) e

  walk-Fits :
      (fuel : ℕ) (c : Cursor) {out : List ℕ}
      → Fits c.rec
      → walk fuel regions mem num c ≡ some out
      → Fits out
  unfolding walk
  walk-Fits zero c h e = cc
  walk-Fits (suc fuel) c h e =
      Fits-after fuel (hop regions mem num c) (λ c' k r. walk-Fits fuel c' k r) (hop-Fits c h)
        (sym (walk-after fuel regions mem num c) ∙ e)

  -- Whatever the guest puts in its descriptors, the record never outgrows the buffer of 4096 bytes:
  -- not at any round of the walk, those of a walk that never ends included, and not at its end.
  pub length-walk :
      (c : Cursor)
      → length c.rec ≤ max_record
      → ((c' : Cursor) → Reaches c c' → length c'.rec ≤ max_record)
        × ((fuel : ℕ) (out : List ℕ)
            → walk fuel regions mem num c ≡ some out
            → length out ≤ max_record)
  length-walk c h = (λ c' r. Reaches-Fits h r, λ fuel out e. walk-Fits fuel c h e)
