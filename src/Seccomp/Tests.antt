-- ===== src/Seccomp/Tests.antt =====
-- The filter on a concrete machine and the numbers of x86-64.
use cs360v_cs380_projects.Prelude.{
  ℕ, zero, suc, ◌≡◌, refl, ◌==◌, if◌then◌else◌, List, [], ◌∷◌, drop, Option, none, some,
}
use cs360v_cs380_projects.Seccomp.{
  Syscall, ptrace, mount, umount2, pivot_root, chroot, setns, unshare, reboot, swapon, swapoff,
  kexec_load, init_module, finit_module, delete_module, SeccompData, SockFilter, ld_abs, jeq, ret,
  Bpf, field, filter,
}
use cs360v_cs380_projects.Seccomp.Filter.{filter-run}

abbrev x86_64 : ℕ
x86_64 = 0xC000003E

abbrev number : Syscall → ℕ
number ptrace = 101
number mount = 165
number umount2 = 166
number pivot_root = 155
number chroot = 161
number setns = 308
number unshare = 272
number reboot = 169
number swapon = 167
number swapoff = 168
number kexec_load = 246
number init_module = 175
number finit_module = 313
number delete_module = 176

-- The rest of a program after `n` more instructions are skipped.
interpret : ℕ → List SockFilter → SeccompData → ℕ → Option ℕ
interpret n [] d acc = none
interpret zero (ld_abs f ∷ rest) d acc = interpret 0 rest d (field d f)
interpret zero (jeq k jt jf ∷ rest) d acc = interpret (if acc == k then jt else jf) rest d acc
interpret zero (ret k ∷ rest) d acc = some k
interpret (suc n) (i ∷ rest) d acc = interpret n rest d acc

interpret-drop :
    (n : ℕ) (p : List SockFilter) (d : SeccompData) (acc : ℕ)
    → interpret n p d acc ≡ interpret 0 (drop n p) d acc
unfolding interpret
interpret-drop zero p d acc = refl
interpret-drop (suc n) [] d acc = refl
interpret-drop (suc n) (i ∷ rest) d acc = interpret-drop n rest d acc

abbrev machine : Bpf
machine = record {
  run = interpret 0;
  run-ld_abs = λ f rest d acc. unfold interpret in refl;
  run-jeq = λ k jt jf rest d acc.
      unfold interpret in interpret-drop (if acc == k then jt else jf) rest d acc;
  run-ret = λ k rest d acc. unfold interpret in refl;
}

-- `mount`
filter-run_example :
    machine.run (filter number x86_64) (record { nr = 165; arch = x86_64 }) 0 ≡ some 0x00050001
filter-run_example = filter-run machine number (record { nr = 165; arch = x86_64 }) x86_64 0
