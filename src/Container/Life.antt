-- ===== src/Container/Life.antt =====
-- project_2/runtime/container.c: the container's init and its whole lifecycle.
use cs360v_cs380_projects.Prelude.{ℕ, ◌+◌, ◌==◌, List, [], ◌∷◌, if◌then◌else◌, u32_mod, ◌-◌, bit_or}
use cs360v_cs380_projects.Sys.{
  with_host, Action, Status, exited, signaled, pure, give_up, ◌>>=◌, ◌>>◌, ask, must, note, when,
  ignore, pipe, malloc_stack, free_stack, clone, close_sync, read_sync, write_sync, wait_for,
  fork_exec,
}
use cs360v_cs380_projects.Container.{
  Container, container_write_idmaps, container_cgroup_init, container_cgroup_enter,
  container_cleanup, container_net_host_setup, container_net_host_teardown,
}
use cs360v_cs380_projects.Container.Setup.{container_setup}

-- CLONE_NEWUSER | CLONE_NEWPID | CLONE_NEWNS | CLONE_NEWUTS | CLONE_NEWNET
unfoldable pub container_namespaces : ℕ
container_namespaces =
    bit_or (bit_or (bit_or (bit_or 0x10000000 0x20000000) 0x00020000) 0x04000000) 0x40000000

abbrev pub sigchld : ℕ
sigchld = 17

-- `WEXITSTATUS`, or 128 + `WTERMSIG`.
abbrev pub exit_of : Status → ℕ
exit_of (exited code) = code
exit_of (signaled sig) = 128 + sig

-- -1
abbrev pub no_status : ℕ
no_status = u32_mod - 1

-- The loop of `waitpid(-1, …)`: what it reports in turn, until it fails.
unfoldable pub reap : ℕ → List (ℕ × Status) → ℕ × List ℕ
reap command [] = (no_status, [])
reap command ((pid, status) ∷ rest) =
    let later = reap command rest in
    if pid == command then (exit_of status, pid ∷ []) else (later.0, pid ∷ later.1)

-- Up to the launch of the command.
unfoldable pub before_launch : Container → Action (Unit {0})
before_launch c = note (close_sync 1) >> must read_sync >> note (close_sync 0) >> container_setup c

-- `execvp` in the forked child exits with 127 if it fails.
unfoldable pub container_init : Container → Action ℕ
container_init c =
    before_launch c >> must (fork_exec c.argv) >> with_host (λ h. pure (reap h.command h.reaped).0)

-- A clone that fails gives its stack back; one that succeeds makes the process `h.child`.
unfoldable pub clone_child : Action (Unit {0})
clone_child = ask (clone (bit_or container_namespaces sigchld)) >>= λ cloned.
    if cloned then pure tt else note free_stack >> give_up

-- Until the child is released.
unfoldable pub prepare : Container → Action (Unit {0})
prepare c = with_host λ h.
    container_cgroup_init c
    >> must pipe
    >> must malloc_stack
    >> clone_child
    >> container_write_idmaps h.child
    >> container_cgroup_enter c h.child
    >> when c.net_enabled (container_net_host_setup c h.child)
    >> note (close_sync 0)

-- From then on.
unfoldable pub supervise : Container → Action ℕ
supervise c =
    must write_sync
    >> note (close_sync 1)
    >> with_host λ h.
      must (wait_for h.child)
      >> when c.net_enabled (container_net_host_teardown h.child)
      >> ignore (container_cleanup c)
      >> note free_stack
      >> pure (exit_of h.child_status)

unfoldable pub container_run : Container → Action ℕ
container_run c = prepare c >> supervise c
