-- ===== src/Runner/Address/Dotted.antt =====
-- runner.c, `parse_ipv4`: dotted addresses, printed and read back.
use cs360v_cs380_projects.Prelude.{
  ℕ, suc, ◌+◌, ◌-◌, ◌*◌, ◌%◌, ◌^◌, ◌<◌, ◌≤◌, ◌≡◌, refl, sym, subst, ◌∙◌, ap, ltb, if◌then◌else◌,
  List, [], ◌∷◌, ◌++◌, true, false, ◌&&◌, none, some, inl, inr, Bool-cases, arith,
}
use cs360v_cs380_projects.Prelude.Text.{
  is_digit, decimal, IsDigits, decimal-IsDigits, read_digits, read_digits-decimal_append,
  decimal-cons,
}
use cs360v_cs380_projects.Runner.Address.{octet_digits, octet, separator, octets, whole, parse_ipv4}

read_digits-le : (s : List ℕ) (n : ℕ) → n ≤ (read_digits n s).0
unfolding read_digits
read_digits-le [] n = omega arith
read_digits-le (c ∷ cs) n = elim (Bool-cases (is_digit c)) [
  | inl d ↦ rw (d, read_digits) (omega (arith, read_digits-le cs (n * 10 + (c - 48))))
  | inr o ↦ rw (o, read_digits) (omega arith)
]

-- What one run of digits gives: its value, if that is below 256.
octet_digits-read_digits :
    (s : List ℕ) (n : ℕ)
    → n < 256
    → octet_digits n s ≡ (if ltb (read_digits n s).0 256 then some (read_digits n s) else none)
unfolding octet_digits read_digits
octet_digits-read_digits [] n h = ground arith
octet_digits-read_digits (c ∷ cs) n h = elim (Bool-cases (is_digit c)) [
  | inl d ↦ elim (Bool-cases (ltb 255 (n * 10 + (c - 48)))) [
    | inl big ↦
        rw (d, big, octet_digits, read_digits)
          (ground (arith, read_digits-le cs (n * 10 + (c - 48))))
    | inr small ↦
        rw (d, small, octet_digits, read_digits)
          (octet_digits-read_digits cs (n * 10 + (c - 48)) (ground arith))
  ]
  | inr o ↦ rw (o, octet_digits, read_digits) (ground arith)
]

octet-decimal :
    (n : ℕ) (rest : List ℕ)
    → n < 2 ^ 64
    → read_digits n rest ≡ (n, rest)
    → octet (decimal n ++ rest) ≡ (if ltb n 256 then some (n, rest) else none)
octet-decimal n rest h stops =
    let (c, cs, e) = decimal-cons n in
    let digits : IsDigits (c ∷ cs) = subst IsDigits e (decimal-IsDigits n) in
    let value : read_digits 0 (c ∷ cs ++ rest) ≡ (n, rest) =
      ap (λ l. read_digits 0 (l ++ rest)) (sym e) ∙ read_digits-decimal_append n rest h ∙ stops in
    ap (λ l. octet (l ++ rest)) e
    ∙ unfold octet in
      rw digits.0 (octet_digits-read_digits (c ∷ cs ++ rest) 0 (omega arith))
      ∙ ap (λ (r : ℕ × List ℕ). if ltb r.0 256 then some r else none) value

octets-decimal :
    (k v n : ℕ) (rest : List ℕ)
    → n < 2 ^ 64
    → read_digits n rest ≡ (n, rest)
    → octets (suc k) true v (b'.' ∷ decimal n ++ rest)
      ≡ (if ltb n 256 then octets k true ((v * 2 ^ 8) % 2 ^ 32 + n) rest else none)
unfolding octets separator
octets-decimal k v n rest h stops = rw (octet-decimal n rest h stops) (ground arith)

octets-first :
    (n : ℕ) (rest : List ℕ)
    → n < 2 ^ 64
    → read_digits n rest ≡ (n, rest)
    → octets 4 false 0 (decimal n ++ rest) ≡ (if ltb n 256 then octets 3 true n rest else none)
unfolding octets separator
octets-first n rest h stops = rw (octet-decimal n rest h stops) (ground arith)

-- An octet after its dot, and what follows; the address as it is written.
abbrev pub dot_octet : ℕ → List ℕ → List ℕ
dot_octet n rest = b'.' ∷ (decimal n ++ rest)

abbrev pub dotted : (a b c d : ℕ) → List ℕ
dotted a b c d = decimal a ++ dot_octet b (dot_octet c (dot_octet d []))

octets-dotted :
    (a b c d : ℕ)
    → a < 2 ^ 64
    → b < 2 ^ 64
    → c < 2 ^ 64
    → d < 2 ^ 64
    → octets 4 false 0 (dotted a b c d) ≡ (
        if ltb a 256 && ltb b 256 && ltb c 256 && ltb d 256
        then some (a * 2 ^ 24 + b * 2 ^ 16 + c * 2 ^ 8 + d, [])
        else none)
octets-dotted a b c d ha hb hc hd =
    rw
      (
        octets-first a (dot_octet b (dot_octet c (dot_octet d []))) ha dot,
        octets-decimal 2 a b (dot_octet c (dot_octet d [])) hb dot,
        octets-decimal 1 ((a * 2 ^ 8) % 2 ^ 32 + b) c (dot_octet d []) hc dot,
        octets-decimal 0 ((((a * 2 ^ 8) % 2 ^ 32 + b) * 2 ^ 8) % 2 ^ 32 + c) d [] hd end,
      )
      (unfold octets in ground arith)
  where
    dot : {n : ℕ} {s : List ℕ} → read_digits n (b'.' ∷ s) ≡ (n, b'.' ∷ s)
    dot = unfold read_digits in refl

    end : {n : ℕ} → read_digits n [] ≡ (n, [])
    end = unfold read_digits in refl

-- Four numbers of at most 64 bits, printed in decimal with dots between them, are read as the
-- address with these octets, the first one highest, if all are below 256, and refused otherwise.
pub parse_ipv4-dotted :
    (a b c d : ℕ)
    → a < 2 ^ 64
    → b < 2 ^ 64
    → c < 2 ^ 64
    → d < 2 ^ 64
    → parse_ipv4 (dotted a b c d) ≡ (
        if ltb a 256 && ltb b 256 && ltb c 256 && ltb d 256
        then some (a * 2 ^ 24 + b * 2 ^ 16 + c * 2 ^ 8 + d)
        else none)
unfolding parse_ipv4
parse_ipv4-dotted a b c d ha hb hc hd =
    rw (octets-dotted a b c d ha hb hc hd) (unfold whole in ground arith)
