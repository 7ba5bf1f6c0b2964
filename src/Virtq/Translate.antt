-- ===== src/Virtq/Translate.antt =====
-- What `virtq_gpa_to_hva` promises, over unbounded numbers.
use cs360v_cs380_projects.Prelude.{
  ℕ, ◌+◌, ◌-◌, ◌<◌, ◌≤◌, ◌≡◌, ◌≢◌, inl, inr, ltb, leb, Bool-cases, none, some, List, [], ◌∷◌, arith,
  ◌&&◌,
}
use cs360v_cs380_projects.Virtq.{MemRegion, find_region, virtq_gpa_to_hva}

-- A region of the list.
pub data In (r : MemRegion) : List MemRegion → Type 0 where
  here : {rs : List MemRegion} → In r (r ∷ rs)
  there : {s : MemRegion} {rs : List MemRegion} → In r rs → In r (s ∷ rs)

-- `[gpa, gpa + len)` lies in the region.
pub record Holds (r : MemRegion) (gpa len : ℕ) : Type 0 where
  pub from : r.gpa ≤ gpa
  pub upto : gpa + len ≤ r.gpa + r.size

-- The region that a translation went through.
pub record Found (regions : List MemRegion) (gpa len p : ℕ) : Type 0 where
  pub region : MemRegion
  pub member : In region regions
  pub holds : Holds region gpa len
  pub value : p ≡ region.hva + (gpa - region.gpa)

find_region-Found :
    (rs : List MemRegion) (gpa len : ℕ) {p : ℕ}
    → find_region rs gpa len ≡ some p
    → Found rs gpa len p
unfolding find_region
find_region-Found [] gpa len e = cc
find_region-Found (r ∷ rs) gpa len {p} e =
    elim (Bool-cases
      (leb r.gpa gpa && ltb (gpa - r.gpa) r.size && leb len (r.size - (gpa - r.gpa)))) [
        | inl h ↦ record { region = r; member = here; holds = ground arith; value = ground arith }
        | inr h ↦
            let f : Found rs gpa len p = find_region-Found rs gpa len (ground arith) in
            record { region = f.region; member = there f.member; holds = f.holds; value = f.value }
      ]

find_region_complete :
    {r : MemRegion} {rs : List MemRegion} (gpa len : ℕ)
    → In r rs
    → 0 < len
    → Holds r gpa len
    → find_region rs gpa len ≢ none
unfolding find_region
find_region_complete {r} gpa len here pos h = ground arith
find_region_complete {rs = s ∷ rs} gpa len (there m) pos h =
    ground (arith, find_region_complete gpa len m pos h)

-- A translation that succeeds is through one region of the map that holds the whole range, and
-- gives the host address of the range's start in it; so no range straddles two regions or runs
-- off the end of one, and none that overflows is accepted. Conversely, a range of at least one
-- byte that one region holds is never refused. The empty range always is.
pub virtq_gpa_to_hva_lem :
    (regions : List MemRegion) (gpa len : ℕ)
    → ((p : ℕ) → virtq_gpa_to_hva regions gpa len ≡ some p → (0 < len) × Found regions gpa len p)
      × ((r : MemRegion)
          → In r regions
          → 0 < len
          → Holds r gpa len
          → virtq_gpa_to_hva regions gpa len ≢ none)
      × (len ≡ 0 → virtq_gpa_to_hva regions gpa len ≡ none)
unfolding virtq_gpa_to_hva
virtq_gpa_to_hva_lem regions gpa len = (
  λ p e. (ground arith, find_region-Found regions gpa len (ground arith)),
  λ r m pos h. ground (arith, find_region_complete gpa len m pos h),
  λ e. ground arith,
)
