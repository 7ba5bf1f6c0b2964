-- ===== src/Container/Args/Printed.antt =====
-- project_2/runtime/main.c: a container written as arguments, and read back.
use cs360v_cs380_projects.Prelude.{
  ℕ, ◌*◌, ◌^◌, ◌<◌, ◌≡◌, refl, sym, subst, ◌∙◌, ap, ◌==◌, List, [], ◌∷◌, ◌++◌, Bool, true, false,
  codes, Option, none, some, bytes_eq, arith, append-nil,
}
use cs360v_cs380_projects.Prelude.Text.{decimal, decimal-cons, IsDigits, decimal-IsDigits}
use cs360v_cs380_projects.Sys.{Text}
use cs360v_cs380_projects.Runner.Numbers.{strtoll, signed_decimal}
use cs360v_cs380_projects.Runner.Numbers.Printed.{StopsDigits, strtoll-signed_decimal}
use cs360v_cs380_projects.Container.{Container, limit}
use cs360v_cs380_projects.Container.Args.{unit, parse_bytes, defaults, set_option, runs, read_args}

strtoll-decimal :
    (n : ℕ) (rest : List ℕ)
    → n < 2 ^ 63
    → StopsDigits rest
    → strtoll (decimal n ++ rest) ≡ some (n, rest)
strtoll-decimal n rest h stops =
    let shown : signed_decimal n ≡ decimal n = unfold signed_decimal in ground (arith, h) in
    ap (λ l. strtoll (l ++ rest)) (sym shown)
    ∙ strtoll-signed_decimal n rest (omega (arith, h)) stops

not_max : (n : ℕ) (rest : List ℕ) → bytes_eq (decimal n ++ rest) (codes "max") ≡ false
not_max n rest =
    let (c, cs, e) = decimal-cons n in
    let digits : IsDigits (c ∷ cs) = subst IsDigits e (decimal-IsDigits n) in
    let other : (c == b'm') ≡ false = ground (arith, digits.0) in
    ap (λ l. bytes_eq (l ++ rest) (codes "max")) e ∙ rw other refl

-- A size in decimal with any text behind it that does not begin with a digit is the number times
-- the factor of its suffix, if that is below 2^63.
parse_bytes-unit :
    (n : ℕ) (rest : List ℕ)
    → n * unit rest < 2 ^ 63
    → n < 2 ^ 63
    → StopsDigits rest
    → parse_bytes (decimal n ++ rest) ≡ some (n * unit rest)
unfolding parse_bytes
parse_bytes-unit n rest h small stops =
    rw (not_max n rest, strtoll-decimal n rest small stops) (ground (arith, h))

-- The container's parameters as options, and its command behind `--`.
abbrev pub net_option : Bool → List Text → List Text
net_option false args = args
net_option true args = codes "--net" ∷ args

abbrev pub written : Container → List Text
written c =
    codes "--name"
    ∷ c.name
    ∷ codes "--hostname"
    ∷ c.hostname
    ∷ codes "--rootfs"
    ∷ c.rootfs
    ∷ codes "--pids-max"
    ∷ limit c.pids_max
    ∷ codes "--mem-max"
    ∷ limit c.mem_max
    ∷ codes "--cgroup-base"
    ∷ c.cgroup_base
    ∷ net_option c.net_enabled (codes "--net-ip" ∷ c.net_ip ∷ codes "--" ∷ c.argv)

-- No limit, or one below 2^63.
abbrev pub IsLimit : Option ℕ → Type 0
IsLimit none = Unit
IsLimit (some n) = n < 2 ^ 63

-- A container with a command, and what no option sets as it is by default.
abbrev pub settable : Container → Text → List Text → Container
settable c command args = record c {
  argv = command ∷ args;
  net_ifname = defaults.net_ifname;
  net_prefix = defaults.net_prefix;
  net_gw = defaults.net_gw;
}

same_limits :
    (c : Container) (pids mem : Option ℕ)
    → pids ≡ c.pids_max
    → mem ≡ c.mem_max
    → runs (record c { pids_max = pids; mem_max = mem }) ≡ runs c
same_limits c pids mem p m =
    ap (λ q. runs (record c { pids_max = q; mem_max = mem })) p
    ∙ ap (λ q. runs (record c { mem_max = q })) m

written_reads :
    (c : Container) (command : Text) (args : List Text) (net : Bool)
    → parse_bytes (limit c.pids_max) ≡ c.pids_max
    → parse_bytes (limit c.mem_max) ≡ c.mem_max
    → let c' = record (settable c command args) { net_enabled = net } in
      read_args (written c') defaults ≡ runs c'
unfolding read_args set_option
written_reads c command args false p m =
    same_limits (record (settable c command args) { net_enabled = false })
      (parse_bytes (limit c.pids_max)) (parse_bytes (limit c.mem_max)) p m
written_reads c command args true p m =
    same_limits (record (settable c command args) { net_enabled = true })
      (parse_bytes (limit c.pids_max)) (parse_bytes (limit c.mem_max)) p m

limit-IsLimit : (m : Option ℕ) → IsLimit m → parse_bytes (limit m) ≡ m
limit-IsLimit none h = unfold parse_bytes in refl
limit-IsLimit (some n) h =
    ap parse_bytes (sym (append-nil (decimal n)))
    ∙ parse_bytes-unit n [] (omega (arith, h)) h tt
    ∙ ap some (omega arith)

-- A container's parameters, in any text, given as options with its command behind `--`, are read
-- back: each option sets its parameter and no other, if the limits are below 2^63, or none at all.
pub read_args-written :
    (c : Container) (command : Text) (args : List Text)
    → IsLimit c.pids_max
    → IsLimit c.mem_max
    → read_args (written (settable c command args)) defaults ≡ runs (settable c command args)
read_args-written c command args p m =
    written_reads c command args c.net_enabled (limit-IsLimit c.pids_max p)
      (limit-IsLimit c.mem_max m)
