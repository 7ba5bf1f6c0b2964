-- ===== src/Container/Isolation.antt =====
-- What has happened in container.c before the command is launched.
use cs360v_cs380_projects.Prelude.{
  ℕ, zero, suc, not, ◌+◌, ◌⊎◌, refl, [], ◌∷◌, ◌++◌, Bool, true, false, codes,
}
use cs360v_cs380_projects.Seccomp.{filter}
use cs360v_cs380_projects.Sys.{
  Text, Call, Trace, Host, pure, read_sync, sethostname, close_socket, mount_private, bind,
  remount_read_only, mount_fs, chdir, pivot_root, detach_old_root, clear_capabilities, no_new_privs,
  install_filter, fork_exec,
}
use cs360v_cs380_projects.Sys.Trace.{
  Within, Makes, Makes-with_host, Grows-must, Grows-then, Makes-pure, Makes-must, Makes-note,
  Makes-ask, Makes-bind, Makes-then, Makes-if, Makes-finally,
}
use cs360v_cs380_projects.Sys.Avoid.{
  Avoids-with_host, trace_of, Lacks, Avoids, Avoids-pure, Avoids-must, Avoids-note, Avoids-ask,
  Avoids-bind, Avoids-then, Avoids-if, Avoids-finally,
}
use cs360v_cs380_projects.Sys.Gate.{gate}
use cs360v_cs380_projects.Container.{Container, slash}
use cs360v_cs380_projects.Container.Setup.{
  container_setup, container_network, container_net_config, touch_file, isolate_files, drop_from,
  drop_capabilities, container_seccomp,
}
use cs360v_cs380_projects.Container.Life.{container_init, before_launch, reap}

abbrev pub is_launch : Call → Bool
is_launch (fork_exec argv) = true
is_launch _ = false

module _ (h : Host) (c : Container) where
  abbrev dev : Text → Text
  dev name = slash c.rootfs (codes "dev/" ++ name)

  -- The file system, latest first: propagation off, the root read-only, `tmp`, `dev` and `proc`
  -- mounted, and the old root detached.
  abbrev pub files_isolated : Trace
  files_isolated =
      (chdir (codes "/"), true)
      ∷ (detach_old_root, true)
      ∷ (pivot_root, true)
      ∷ (chdir c.rootfs, true)
      ∷ (mount_fs (codes "proc") (slash c.rootfs (codes "proc")), true)
      ∷ (bind (codes "/dev/zero") (slash c.rootfs (codes "dev/zero")), true)
      ∷ (bind (codes "/dev/null") (slash c.rootfs (codes "dev/null")), true)
      ∷ (mount_fs (codes "tmpfs") (slash c.rootfs (codes "dev")), true)
      ∷ (mount_fs (codes "tmpfs") (slash c.rootfs (codes "tmp")), true)
      ∷ (remount_read_only c.rootfs, true)
      ∷ (bind c.rootfs c.rootfs, true)
      ∷ (mount_private, true)
      ∷ []

  touch-Makes : (path : Text) → Makes h (touch_file path) []
  unfolding touch_file
  touch-Makes path =
      Makes-bind h [] [] (Makes-ask h _)
        (λ opened. Makes-if h opened [] (Makes-note h _) (Makes-pure h tt))

  files-Makes : Makes h (isolate_files c.rootfs) files_isolated
  unfolding isolate_files
  files-Makes = Makes-then h (Makes-must h _) (
      Makes-then h (Makes-must h _) (
        Makes-then h (Makes-must h _) (
          Makes-then h (Makes-must h _) (
            Makes-then h (Makes-must h _) (
              Makes-then h (touch-Makes _) (
                Makes-then h (Makes-must h _) (
                  Makes-then h (touch-Makes _) (
                    Makes-then h (Makes-must h _) (
                      Makes-then h (Makes-must h _) (
                        Makes-then h (Makes-must h _) (
                          Makes-then h (Makes-must h _)
                            (Makes-then h (Makes-must h _) (Makes-must h _)))))))))))))

  -- Then no capability is left, and the filter is in place, behind `no_new_privs`.
  abbrev pub privileges_dropped : Trace
  privileges_dropped =
      (install_filter (filter h.number h.audit_arch), true)
      ∷ (no_new_privs, true)
      ∷ (clear_capabilities, true)
      ∷ []

  drop_from-Makes : (n cap : ℕ) → Makes h (drop_from cap n) []
  unfolding drop_from
  drop_from-Makes zero cap = Makes-pure h tt
  drop_from-Makes (suc n) cap = Grows-then h (Makes-note h _) (drop_from-Makes n (cap + 1))

  network-Makes : Makes h container_network []
  unfolding container_network
  network-Makes = Makes-bind h [] [] (Makes-ask h _) (λ opened.
      Makes-if h (not opened) [] (Makes-pure h tt) (
        Makes-bind h [] [] (Makes-ask h _) (λ got.
          Makes-if h (not got) [] (Makes-note h _)
            (Grows-then h (Makes-note h _) (Makes-note h _)))))

  net_config-Makes : Makes h (container_net_config c) []
  unfolding container_net_config
  net_config-Makes = Grows-then h (Grows-must h _) (
      Makes-finally h [] close_socket (
        Grows-then h (Grows-must h _) (
          Grows-then h (Grows-must h _) (
            Grows-then h (Grows-must h _) (
              Grows-then h (Grows-must h _) (
                Grows-then h (Grows-must h _) (Grows-then h (Grows-must h _) (Grows-must h _))))))))

  abbrev pub isolated : Trace
  isolated =
      privileges_dropped
      ++ (files_isolated ++ (sethostname c.hostname, true) ∷ (read_sync, true) ∷ [])

  setup-Makes :
      Makes h
        (container_setup c)
        (privileges_dropped ++ (files_isolated ++ (sethostname c.hostname, true) ∷ []))
  unfolding container_setup drop_capabilities container_seccomp
  setup-Makes = Makes-then h (Makes-must h _) (
      Makes-then h network-Makes (
        Makes-then h (Makes-if h c.net_enabled [] net_config-Makes (Makes-pure h tt)) (
          Makes-then h files-Makes (
            Makes-then h (Makes-with_host h _ (Makes-then h (drop_from-Makes _ 0) (Makes-must h _)))
              (Makes-with_host h _ (Makes-then h (Makes-must h _) (Makes-must h _)))))))

  launch-Makes : Makes h (before_launch c) isolated
  unfolding before_launch
  launch-Makes =
      Makes-then h (Makes-note h _)
        (Makes-then h (Makes-must h _) (Makes-then h (Makes-note h _) setup-Makes))

  touch-Avoids : (path : Text) → Avoids is_launch (touch_file path)
  unfolding touch_file
  touch-Avoids path = search (Avoids-ask, Avoids-bind, Avoids-if, Avoids-note, Avoids-pure)

  files-Avoids : Avoids is_launch (isolate_files c.rootfs)
  unfolding isolate_files
  files-Avoids = search (Avoids-then, Avoids-must, touch-Avoids) depth 40 fits 4000

  drop_from-Avoids : (n cap : ℕ) → Avoids is_launch (drop_from cap n)
  unfolding drop_from
  drop_from-Avoids zero cap = Avoids-pure is_launch tt
  drop_from-Avoids (suc n) cap =
      Avoids-then is_launch (Avoids-note is_launch _ refl) (drop_from-Avoids n (cap + 1))

  network-Avoids : Avoids is_launch container_network
  unfolding container_network
  network-Avoids =
      search (Avoids-ask, Avoids-bind, Avoids-if, Avoids-note, Avoids-pure, Avoids-then) depth 20
        fits 4000

  net_config-Avoids : Avoids is_launch (container_net_config c)
  unfolding container_net_config
  net_config-Avoids = search (Avoids-must, Avoids-then, Avoids-finally) depth 40 fits 4000

  setup-Avoids : Avoids is_launch (container_setup c)
  unfolding container_setup drop_capabilities container_seccomp
  setup-Avoids =
      search
        (
          Avoids-must, Avoids-then, Avoids-with_host, Avoids-if, Avoids-pure, network-Avoids,
          net_config-Avoids, files-Avoids, drop_from-Avoids,
        )
        depth 20 fits 4000

  launch-Avoids : Avoids is_launch (before_launch c)
  unfolding before_launch
  launch-Avoids = search (Avoids-must, Avoids-note, Avoids-then, setup-Avoids) depth 20 fits 4000

  -- Whatever the host does, the container's init never launches the command before it was released
  -- and all of this has succeeded, in this order: the host name; the file system, from private
  -- propagation over the read-only root to the detached old root; the cleared capabilities; and
  -- `no_new_privs` before the system call filter, last of all.
  pub container_init-isolated :
      let t = trace_of (container_init c h []) in
      Lacks is_launch t ⊎ ((b : Bool) × Within ((fork_exec c.argv, b) ∷ isolated) t)
  unfolding container_init
  container_init-isolated =
      gate is_launch h (fork_exec c.argv) isolated launch-Makes launch-Avoids (
        Makes-with_host h (λ k. pure (reap k.command k.reaped).0)
          (Makes-pure h (reap h.command h.reaped).0))
