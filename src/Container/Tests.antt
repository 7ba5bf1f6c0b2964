-- ===== src/Container/Tests.antt =====
-- A container on a host that answers every call, and on one that does not.
use cs360v_cs380_projects.Prelude.{
  ◌≡◌, ◌⊎◌, refl, [], ◌∷◌, Bool, true, false, codes, none, some, arith,
}
use cs360v_cs380_projects.Container.Args.{runs, defaults, read_args}
use cs360v_cs380_projects.Container.Args.Printed.{settable, written, read_args-written}
use cs360v_cs380_projects.Sys.{
  with_host, write_file, must, note, ask, Host, exited, signaled, write_sync, wait_for, fork_exec,
}
use cs360v_cs380_projects.Sys.Trace.{Within}
use cs360v_cs380_projects.Sys.Avoid.{Lacks, trace_of}
use cs360v_cs380_projects.Container.{
  container_cgroup_init, must_unless, container_write_idmaps, container_cgroup_enter, Container,
}
use cs360v_cs380_projects.Container.Setup.{netmask}
use cs360v_cs380_projects.Container.Life.{
  prepare, clone_child, supervise, container_run, container_init, reap, container_namespaces,
}
use cs360v_cs380_projects.Container.Release.{prepared, container_run_released}
use cs360v_cs380_projects.Container.Before.{is_release, is_removal}
use cs360v_cs380_projects.Container.Leak.{container_run_leak}
use cs360v_cs380_projects.Container.Isolation.{is_launch, isolated, container_init-isolated}
use cs360v_cs380_projects.Container.Reap.{reap_lem}

abbrev willing : Host
willing = record {
  ok = λ t c. true;
  errno = λ t c. 0;
  uid = 1000;
  gid = 1000;
  child = 42;
  child_status = exited 3;
  command = 2;
  reaped = (7, exited 0) ∷ (2, signaled 9) ∷ [];
  number = λ _. 101;
  audit_arch = 0xC000003E;
  last_cap = 40;
}

abbrev shell : Container
shell = record {
  argv = codes "/bin/sh" ∷ [];
  name = codes "box";
  hostname = codes "box";
  rootfs = codes "/srv/box";
  pids_max = some 64;
  mem_max = none;
  cgroup_base = codes "/sys/fs/cgroup";
  net_enabled = false;
  net_ifname = codes "ceth0";
  net_ip = codes "10.44.0.2";
  net_prefix = 24;
  net_gw = codes "10.44.0.1";
}

container_run_released_example :
    let t = trace_of (container_run shell willing []) in
    Lacks is_release t ⊎ ((b : Bool) × Within ((write_sync, b) ∷ prepared willing shell) t)
container_run_released_example = container_run_released willing shell

container_init-isolated_example :
    let t = trace_of (container_init shell willing []) in
    Lacks is_launch t
    ⊎ ((b : Bool) × Within ((fork_exec (codes "/bin/sh" ∷ []), b) ∷ isolated willing shell) t)
container_init-isolated_example = container_init-isolated willing shell

-- A host on which the wait for the container's init fails.
abbrev lost : Host
lost = record willing { ok = λ t c. elim c [ wait_for child ↦ false | _ ↦ true ] }

container_run_leak_example : Lacks is_removal (trace_of (container_run shell lost []))
unfolding container_run prepare with_host container_cgroup_init write_file must note must_unless ask
    clone_child container_write_idmaps container_cgroup_enter supervise
container_run_leak_example =
    container_run_leak shell lost (trace_of (container_run shell lost [])) refl

killed : reap 2 ((7, exited 0) ∷ (2, signaled 9) ∷ []) ≡ (137, 7 ∷ 2 ∷ [])
killed = (reap_lem 2 ((7, exited 0) ∷ []) (ground arith)).0 (signaled 9) []

class_c : netmask 24 ≡ 0xFFFFFF00
unfolding netmask
class_c = refl

namespaces : container_namespaces ≡ 0x74020000
unfolding container_namespaces
namespaces = refl

abbrev from_args : Container
from_args =
    settable (record defaults { name = codes "web"; pids_max = none; mem_max = some 4096 })
      (codes "/bin/sh") (codes "-c" ∷ [])

read_args-written_example : read_args (written from_args) defaults ≡ runs from_args
read_args-written_example =
    read_args-written (record defaults { name = codes "web"; pids_max = none; mem_max = some 4096 })
      (codes "/bin/sh") (codes "-c" ∷ []) tt (omega arith)
