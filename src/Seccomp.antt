-- ===== src/Seccomp.antt =====
-- project_2/runtime/container.c, `container_seccomp`: the filter program that it builds. The
-- kernel's BPF machine is a parameter, with the documented meaning of the three instructions in
-- use.
pub mod Filter
mod Tests
use cs360v_cs380_projects.Prelude.{
  ℕ, ◌+◌, ◌*◌, ◌≡◌, ◌==◌, if◌then◌else◌, List, [], ◌∷◌, ◌++◌, drop, length, Option, some, bit_or,
}

-- The fields of `struct seccomp_data` that the filter loads.
pub data Field : Type 0 where
  nr : Field
  arch : Field

-- `struct seccomp_data`, less what the filter does not read.
pub record SeccompData : Type 0 where
  pub nr : ℕ
  pub arch : ℕ

abbrev pub field : SeccompData → Field → ℕ
field d nr = d.nr
field d arch = d.arch

-- `struct sock_filter`, by the opcodes in use: an absolute load, a jump if equal with the counts to
-- skip if so and if not, and a return.
pub data SockFilter : Type 0 where
  ld_abs : Field → SockFilter
  jeq : (k jt jf : ℕ) → SockFilter
  ret : ℕ → SockFilter

-- The machine from an instruction on, with its accumulator.
pub record Bpf : Type 0 where
  pub run : List SockFilter → SeccompData → ℕ → Option ℕ
  pub run-ld_abs :
      (f : Field) (rest : List SockFilter) (d : SeccompData) (acc : ℕ)
      → run (ld_abs f ∷ rest) d acc ≡ run rest d (field d f)
  pub run-jeq :
      (k jt jf : ℕ) (rest : List SockFilter) (d : SeccompData) (acc : ℕ)
      → run (jeq k jt jf ∷ rest) d acc ≡ run (drop (if acc == k then jt else jf) rest) d acc
  pub run-ret :
      (k : ℕ) (rest : List SockFilter) (d : SeccompData) (acc : ℕ)
      → run (ret k ∷ rest) d acc ≡ some k

abbrev pub ret_kill_process : ℕ
ret_kill_process = 0x80000000

abbrev pub ret_errno : ℕ
ret_errno = 0x00050000

abbrev pub ret_allow : ℕ
ret_allow = 0x7fff0000

abbrev pub eperm : ℕ
eperm = 1

-- The system calls that the filter denies. Their numbers depend on the architecture.
pub data Syscall : Type 0 where
  ptrace : Syscall
  mount : Syscall
  umount2 : Syscall
  pivot_root : Syscall
  chroot : Syscall
  setns : Syscall
  unshare : Syscall
  reboot : Syscall
  swapon : Syscall
  swapoff : Syscall
  kexec_load : Syscall
  init_module : Syscall
  finit_module : Syscall
  delete_module : Syscall

abbrev pub denied : List Syscall
denied =
    ptrace ∷ mount ∷ umount2 ∷ pivot_root ∷ chroot ∷ setns ∷ unshare ∷ reboot ∷ swapon ∷ swapoff
    ∷ kexec_load ∷ init_module ∷ finit_module ∷ delete_module ∷ []

-- The loop over `denied`.
unfoldable pub deny_each : (Syscall → ℕ) → List Syscall → List SockFilter
deny_each number [] = []
deny_each number (s ∷ ss) = jeq (number s) 0 1 ∷ ret (bit_or ret_errno eperm) ∷ deny_each number ss

-- `filter[]`, for the architecture `expected`.
unfoldable pub filter : (Syscall → ℕ) → ℕ → List SockFilter
filter number expected =
    ld_abs arch
    ∷ jeq expected 1 0
    ∷ ret ret_kill_process
    ∷ ld_abs nr
    ∷ (deny_each number denied ++ ret ret_allow ∷ [])

-- The number of elements of the array.
abbrev pub filter_size : ℕ
filter_size = 4 + 2 * length denied + 1
