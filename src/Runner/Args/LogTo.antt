-- ===== src/Runner/Args/LogTo.antt =====
-- runner.c: the arguments that `main` reads.
use cs360v_cs380_projects.Prelude.{
  ℕ, ◌+◌, ◌*◌, ◌^◌, ◌<◌, ◌≤◌, ◌≡◌, refl, sym, subst, ◌∙◌, ap, ◌==◌, List, [], ◌∷◌, ◌++◌, true,
  false, All-append, length, arith, take, take_short, some, length-append, codes, bytes_eq,
}
use cs360v_cs380_projects.Prelude.Text.{
  is_digit, decimal, length-decimal_small, decimal-cons, IsDigits, decimal-IsDigits, digits-Lacks,
  Lacks, split_at, split_at-append,
}
use cs360v_cs380_projects.Runner.Numbers.{atoi}
use cs360v_cs380_projects.Runner.Numbers.Printed.{atoi-decimal}
use cs360v_cs380_projects.Runner.Address.Dotted.{dotted, dot_octet, parse_ipv4-dotted}
use cs360v_cs380_projects.Runner.LogSink.{LogSink, Net, address}
use cs360v_cs380_projects.Runner.Server.{Runner}
use cs360v_cs380_projects.Runner.Args.{
  has_byte, is_port, log_target, log_to, listen_port, read_args,
}

has_byte-append : (b : ℕ) (xs ys : List ℕ) → has_byte b (xs ++ b ∷ ys) ≡ true
has_byte-append b [] ys = ground arith
has_byte-append b (x ∷ xs) ys = ground (arith, has_byte-append b xs ys)

decimal-Lacks : (b n : ℕ) → is_digit b ≡ false → Lacks b (decimal n)
decimal-Lacks b n h = digits-Lacks b (decimal n) h (decimal-IsDigits n)

dot_octet-Lacks : (n : ℕ) (rest : List ℕ) → Lacks b':' rest → Lacks b':' (dot_octet n rest)
dot_octet-Lacks n rest h =
    (refl, All-append (λ x. (x == b':') ≡ false) (decimal n) rest (decimal-Lacks b':' n refl) h)

dotted-Lacks : (a b c d : ℕ) → Lacks b':' (dotted a b c d)
dotted-Lacks a b c d =
    All-append (λ x. (x == b':') ≡ false) (decimal a) (dot_octet b (dot_octet c (dot_octet d [])))
      (decimal-Lacks b':' a refl)
      (dot_octet-Lacks b (dot_octet c (dot_octet d []))
        (dot_octet-Lacks c (dot_octet d []) (dot_octet-Lacks d [] tt)))

octet_length : (n : ℕ) → n < 256 → length (decimal n) ≤ 3
octet_length n h = length-decimal_small 2 n (omega (arith, h))

length-dotted : (a b c d : ℕ) → a < 256 → b < 256 → c < 256 → d < 256 → length (dotted a b c d) ≤ 63
length-dotted a b c d ha hb hc hd = omega (
  arith,
  octet_length a ha,
  octet_length b hb,
  octet_length c hc,
  octet_length d hd,
  length-append (decimal a) (dot_octet b (dot_octet c (dot_octet d []))),
  length-append (decimal b) (dot_octet c (dot_octet d [])),
  length-append (decimal c) (dot_octet d []),
  length-append (decimal d) [],
)

log_target-dotted :
    (a b c d q : ℕ) (sink : LogSink)
    → a < 256
    → b < 256
    → c < 256
    → d < 256
    → is_port q ≡ true
    → log_target (dotted a b c d ++ b':' ∷ decimal q) sink
      ≡ record sink { host = some (dotted a b c d); port = q }
log_target-dotted a b c d q sink ha hb hc hd p =
    let parts : split_at b':' (dotted a b c d ++ b':' ∷ decimal q) ≡ (dotted a b c d, decimal q) =
      split_at-append b':' (dotted a b c d) (decimal q) (dotted-Lacks a b c d) in
    let value : atoi (decimal q) ≡ q = atoi-decimal q (ground (arith, p)) in
    let short : take 63 (dotted a b c d) ≡ dotted a b c d =
      take_short 63 (dotted a b c d) (length-dotted a b c d ha hb hc hd) in
    unfold log_target in rw (parts, value, p, short) refl

listen_port-decimal : (p port : ℕ) → p < 2 ^ 31 → listen_port (decimal p) port ≡ p
listen_port-decimal p port h =
    let (c, cs, e) = decimal-cons p in
    let digits : IsDigits (c ∷ cs) = subst IsDigits e (decimal-IsDigits p) in
    let other : (c == b'-') ≡ false = ground (arith, digits.0) in
    let plain : listen_port (c ∷ cs) port ≡ atoi (c ∷ cs) = unfold listen_port in rw other refl in
    ap (λ l. listen_port l port) e ∙ plain ∙ ap atoi (sym e) ∙ atoi-decimal p h

no_option : (p : ℕ) → bytes_eq (decimal p) (codes "--log-to") ≡ false
no_option p =
    let (c, cs, e) = decimal-cons p in
    let digits : IsDigits (c ∷ cs) = subst IsDigits e (decimal-IsDigits p) in
    let other : (c == b'-') ≡ false = ground (arith, digits.0) in
    ap (λ l. bytes_eq l (codes "--log-to")) e ∙ rw other refl

-- The arguments `PORT --log-to A.B.C.D:LOGPORT`, with ports from 1 to 65535 and octets below 256,
-- give the runner that port, and its log sink that host and that port, which is an address to
-- connect to; nothing is logged.
pub read_args-dotted :
    (net : ℕ → Net) (p a b c d q port : ℕ) (r : Runner)
    → is_port p ≡ true
    → a < 256
    → b < 256
    → c < 256
    → d < 256
    → is_port q ≡ true
    → (read_args net
          (decimal p ∷ codes "--log-to" ∷ (dotted a b c d ++ b':' ∷ decimal q) ∷ [])
          port
          r
        ≡ (p, record r { sink = record (r.sink) { host = some (dotted a b c d); port = q } }))
      × (address (some (dotted a b c d)) ≡ some (a * 2 ^ 24 + b * 2 ^ 16 + c * 2 ^ 8 + d))
unfolding read_args log_to
read_args-dotted net p a b c d q port r hp ha hb hc hd hq = (
  rw (no_option p, read_args)
      (rw
        (
          listen_port-decimal p port (ground (arith, hp)),
          has_byte-append b':' (dotted a b c d) (decimal q),
          log_target-dotted a b c d q r.sink ha hb hc hd hq,
        )
        refl),
  parse_ipv4-dotted a b c d (omega (arith, ha)) (omega (arith, hb)) (omega (arith, hc))
        (omega (arith, hd))
      ∙ ground (arith, ha, hb, hc, hd),
)
