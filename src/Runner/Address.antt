-- ===== src/Runner/Address.antt =====
-- runner.c: `parse_ipv4`, which reads a dotted address. A C string is its bytes without the NUL.
pub mod Dotted
use cs360v_cs380_projects.Prelude.{
  ℕ, zero, suc, ◌+◌, ◌-◌, ◌*◌, ◌%◌, ◌^◌, ltb, ◌==◌, if◌then◌else◌, List, [], ◌∷◌, ◌++◌, Bool, true,
  false, Option, none, some,
}
use cs360v_cs380_projects.Prelude.Text.{is_digit}

infixl 5 ◌>>=◌
abbrev ◌>>=◌ : {A B : Type 0} → Option A → (A → Option B) → Option B
none >>= f = none
some a >>= f = f a

-- The digits of an octet, which stays below 256.
unfoldable pub octet_digits : ℕ → List ℕ → Option (ℕ × List ℕ)
octet_digits octet [] = some (octet, [])
octet_digits octet (c ∷ cs) = elim (is_digit c) [
  | false ↦ some (octet, c ∷ cs)
  | true ↦
      let octet' = octet * 10 + (c - 48) in
      elim (ltb 255 octet') [ true ↦ none | false ↦ octet_digits octet' cs ]
]

unfoldable pub octet : List ℕ → Option (ℕ × List ℕ)
unfolding octet_digits
octet [] = none
octet (c ∷ cs) = if is_digit c then octet_digits 0 (c ∷ cs) else none

-- The dot before every octet but the first.
unfoldable pub separator : Bool → List ℕ → Option (List ℕ)
separator false s = some s
separator true [] = none
separator true (c ∷ cs) = if c == b'.' then some cs else none

-- The loop: `rest` octets are left. The shift leaves the low eight bits free.
unfoldable pub octets : (rest : ℕ) (dot : Bool) → ℕ → List ℕ → Option (ℕ × List ℕ)
unfolding separator octet
octets zero dot v s = some (v, s)
octets (suc rest) dot v s = do
  s' ← separator dot s
  (o, s'') ← octet s'
  octets rest true ((v * 2 ^ 8) % 2 ^ 32 + o) s''

unfoldable pub whole : ℕ × List ℕ → Option ℕ
whole (v, []) = some v
whole (v, c ∷ cs) = none

unfoldable pub parse_ipv4 : List ℕ → Option ℕ
unfolding octets whole
parse_ipv4 s = do r ← octets 4 false 0 s; whole r
