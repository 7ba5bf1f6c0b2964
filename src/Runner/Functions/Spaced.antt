-- ===== src/Runner/Functions/Spaced.antt =====
-- Texts whose words stand between white space.
use cs360v_cs380_projects.Prelude.{ℕ, ◌<◌, ◌≡◌, List, [], ◌∷◌, ◌++◌, Bool, true, false, All, length}
use cs360v_cs380_projects.Prelude.Text.{is_space}

-- Each word with the gap before it; `tail` follows the last one.
abbrev pub spaced : List (List ℕ × List ℕ) → List ℕ → List ℕ
spaced [] tail = tail
spaced ((gap, word) ∷ words) tail = gap ++ (word ++ spaced words tail)

abbrev pub IsBlank : List ℕ → Type 0
IsBlank = All (λ c. is_space c ≡ true)

-- The gaps are white space, and empty only where no word comes before.
abbrev pub HasGaps : (after_word : Bool) → List (List ℕ × List ℕ) → Type 0
HasGaps after [] = Unit
HasGaps false ((gap, word) ∷ words) = IsBlank gap × HasGaps true words
HasGaps true ((gap, word) ∷ words) = (0 < length gap) × IsBlank gap × HasGaps true words
