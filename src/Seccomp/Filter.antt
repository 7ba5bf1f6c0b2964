-- ===== src/Seccomp/Filter.antt =====
-- What the seccomp filter of container.c lets through.
use cs360v_cs380_projects.Prelude.{
  ℕ, ◌*◌, ◌≡◌, ◌∙◌, refl, ◌==◌, ◌||◌, Bool, false, Bool-cases, inl, inr, if◌then◌else◌, List, [],
  ◌∷◌, ◌++◌, some, bit_or, length, length-append, arith,
}
use cs360v_cs380_projects.Seccomp.{
  Syscall, SeccompData, SockFilter, Field, ret, Bpf, denied, deny_each, filter, ret_kill_process,
  ret_errno, ret_allow, eperm, filter_size,
}

-- The call is one of the list.
abbrev pub is_one_of : (Syscall → ℕ) → List Syscall → ℕ → Bool
is_one_of number [] n = false
is_one_of number (s ∷ ss) n = (n == number s) || is_one_of number ss n

module _ (bpf : Bpf) (number : Syscall → ℕ) (d : SeccompData) where
  abbrev after_denied : List SockFilter
  after_denied = ret ret_allow ∷ []

  deny_each-run :
      (ss : List Syscall) (acc : ℕ)
      → bpf.run (deny_each number ss ++ after_denied) d acc
        ≡ some (if is_one_of number ss acc then bit_or ret_errno eperm else ret_allow)
  unfolding deny_each
  deny_each-run [] acc = bpf.run-ret ret_allow [] d acc
  deny_each-run (s ∷ ss) acc = elim (Bool-cases (acc == number s)) [
    | inl e ↦
        bpf.run-jeq (number s) 0 1 _ d acc
        ∙ rw e (bpf.run-ret (bit_or ret_errno eperm) (deny_each number ss ++ after_denied) d acc)
    | inr n ↦ bpf.run-jeq (number s) 0 1 _ d acc ∙ rw n (deny_each-run ss acc)
  ]

  -- On any machine that runs the three instructions as documented, the filter kills a process that
  -- calls under a foreign architecture, answers a denied call with EPERM, and allows every other,
  -- whatever the numbers of the denied calls are.
  pub filter-run :
      (expected acc : ℕ)
      → bpf.run (filter number expected) d acc
        ≡ some (
            if d.arch == expected
            then (if is_one_of number denied d.nr then bit_or ret_errno eperm else ret_allow)
            else ret_kill_process)
  unfolding filter
  filter-run expected acc =
      bpf.run-ld_abs Field.arch _ d acc
      ∙ bpf.run-jeq expected 1 0 _ d d.arch
      ∙ elim (Bool-cases (d.arch == expected)) [
        | inl e ↦ rw e (bpf.run-ld_abs Field.nr _ d d.arch ∙ deny_each-run denied d.nr)
        | inr n ↦ rw n (bpf.run-ret ret_kill_process _ d d.arch)
      ]

length-deny_each :
    (number : Syscall → ℕ) (ss : List Syscall) → length (deny_each number ss) ≡ 2 * length ss
unfolding deny_each
length-deny_each number [] = refl
length-deny_each number (s ∷ ss) = omega (arith, length-deny_each number ss)

-- The program fills its array exactly: no instruction is written past its end, none is left unset.
pub length-filter :
    (number : Syscall → ℕ) (expected : ℕ) → length (filter number expected) ≡ filter_size
unfolding filter
length-filter number expected = omega (
  arith,
  length-append (deny_each number denied) (ret ret_allow ∷ []),
  length-deny_each number denied,
)
