-- ===== src/Container/Release.antt =====
-- When container.c releases the container's init.
use cs360v_cs380_projects.Prelude.{ℕ, ◌⊎◌, [], ◌∷◌, ◌++◌, Bool, true, ◌==◌, codes}
use cs360v_cs380_projects.Prelude.Text.{decimal}
use cs360v_cs380_projects.Sys.{
  Call, Trace, Host, Action, with_host, ◌>>◌, must, note, when, ignore, pure, mkdir, rmdir, pipe,
  malloc_stack, free_stack, close_sync, write_sync, wait_for,
}
use cs360v_cs380_projects.Sys.Trace.{
  Within, Makes, Makes-with_host, Grows-must, Grows-then, Makes-pure, Makes-must, Makes-note,
  Makes-ask, Makes-bind, Makes-then, Makes-ignore, Makes-give_up, Makes-if, Makes-write_file,
  written,
}
use cs360v_cs380_projects.Sys.Avoid.{trace_of, Lacks}
use cs360v_cs380_projects.Sys.Gate.{gate}
use cs360v_cs380_projects.Container.{
  Container, container_write_idmaps, container_cgroup_init, container_cgroup_enter,
  container_cleanup, cg_path, proc_file, id_map, limit, slash, must_unless,
  container_net_host_setup, container_net_host_teardown, eexist, enoent,
}
use cs360v_cs380_projects.Container.Before.{is_release, is_release-is_late, prepare-Avoids}
use cs360v_cs380_projects.Container.Life.{prepare, supervise, container_run, clone_child, exit_of}

module _ (h : Host) (c : Container) where
  -- What the parent has done for the child, latest first: its maps and its place in the cgroup.
  abbrev pub mapped : Trace
  mapped =
      written (slash (cg_path c) (codes "cgroup.procs")) (decimal h.child)
      ++ written (proc_file h.child (codes "gid_map")) (id_map h.gid)
      ++ written (proc_file h.child (codes "setgroups")) (codes "deny")
      ++ written (proc_file h.child (codes "uid_map")) (id_map h.uid)

  -- The limits of the cgroup, latest first.
  abbrev pub limited : Trace
  limited =
      written (slash (cg_path c) (codes "memory.swap.max")) (codes "0")
      ++ written (slash (cg_path c) (codes "memory.max")) (limit c.mem_max)
      ++ written (slash (cg_path c) (codes "pids.max")) (limit c.pids_max)

  must_unless-Makes : (reason : ℕ) (call : Call) → Makes h (must_unless reason call) []
  must_unless-Makes reason call = record {
    run = λ s t w.
        unfold must_unless in
        (Makes-bind h [] [] (Makes-ask h call) (λ made.
            Makes-if h made [] (Makes-pure h tt) (
              Makes-if h (h.errno t call == reason) [] (Makes-pure h tt) (Makes-give_up h [])))).run
          s t w;
  }

  cgroup_init-Makes : Makes h (container_cgroup_init c) (
      limited
      ++ written (slash c.cgroup_base (codes "cgroup.subtree_control")) (codes "+pids +memory"))
  unfolding container_cgroup_init
  cgroup_init-Makes = Makes-then h (Makes-write_file h _ _) (
      Makes-then h (must_unless-Makes eexist (mkdir (cg_path c))) (
        Makes-then h (Makes-write_file h _ _)
          (Makes-then h (Makes-write_file h _ _) (Makes-write_file h _ _))))

  clone_child-Makes : Makes h clone_child []
  unfolding clone_child
  clone_child-Makes = Makes-bind h [] [] (Makes-ask h _) (λ made.
      Makes-if h made [] (Makes-pure h tt)
        (Makes-then h (Makes-note h free_stack) (Makes-give_up h [])))

  idmaps-Makes : Makes h (container_write_idmaps h.child) (
      written (proc_file h.child (codes "gid_map")) (id_map h.gid)
      ++ written (proc_file h.child (codes "setgroups")) (codes "deny")
      ++ written (proc_file h.child (codes "uid_map")) (id_map h.uid))
  unfolding container_write_idmaps
  idmaps-Makes = Makes-with_host h _ (
      Makes-then h (Makes-write_file h _ _)
        (Makes-then h (Makes-write_file h _ _) (Makes-write_file h _ _)))

  host_setup-Makes : Makes h (container_net_host_setup c h.child) []
  unfolding container_net_host_setup
  host_setup-Makes = Grows-then h (Makes-note h _) (
      Grows-then h (Makes-note h _) (
        Grows-then h (Grows-must h _) (
          Grows-then h (Grows-must h _) (
            Grows-then h (Makes-note h _) (
              Grows-then h (Makes-note h _) (
                Makes-bind h [] [] (Makes-ask h _) (λ moved.
                  Makes-if h moved [] (Makes-pure h tt)
                    (Grows-then h (Makes-note h _) (Makes-give_up h [])))))))))

  abbrev pub prepared : Trace
  prepared =
      mapped
      ++ (malloc_stack, true)
        ∷ (pipe, true)
        ∷ (limited
            ++ written (slash c.cgroup_base (codes "cgroup.subtree_control"))
                (codes "+pids +memory"))

  prepare-Makes : Makes h (prepare c) prepared
  unfolding prepare container_cgroup_enter
  prepare-Makes = Makes-with_host h _ (
      Makes-then h cgroup_init-Makes (
        Makes-then h (Makes-must h pipe) (
          Makes-then h (Makes-must h malloc_stack) (
            Makes-then h clone_child-Makes (
              Makes-then h idmaps-Makes (
                Makes-then h (Makes-write_file h _ _) (
                  Makes-then h (Makes-if h c.net_enabled [] host_setup-Makes (Makes-pure h tt))
                    (Makes-note h _))))))))

  cleanup-Makes : Makes h (container_cleanup c) []
  unfolding container_cleanup
  cleanup-Makes = must_unless-Makes enoent (rmdir (cg_path c))

  -- What follows the release of the child.
  abbrev after_release : Action ℕ
  after_release =
      note (close_sync 1)
      >> with_host λ h.
        must (wait_for h.child)
        >> when c.net_enabled (container_net_host_teardown h.child)
        >> ignore (container_cleanup c)
        >> note free_stack
        >> pure (exit_of h.child_status)

  after_release-Makes : Makes h after_release []
  unfolding container_net_host_teardown
  after_release-Makes = Grows-then h (Makes-note h _) (
      Makes-with_host h _ (
        Grows-then h (Grows-must h _) (
          Grows-then h (Makes-if h c.net_enabled [] (Makes-note h _) (Makes-pure h tt)) (
            Grows-then h (Makes-ignore h cleanup-Makes)
              (Grows-then h (Makes-note h _) (Makes-pure h (exit_of h.child_status)))))))

  -- Whatever the host does, the parent never releases the child before all of this has succeeded,
  -- in this order: the controllers, the three limits of the cgroup, the pipe, the stack, the id
  -- maps with `setgroups` denied before the group map, and the child's entry into the cgroup.
  pub container_run_released :
      let t = trace_of (container_run c h []) in
      Lacks is_release t ⊎ ((b : Bool) × Within ((write_sync, b) ∷ prepared) t)
  unfolding container_run supervise
  container_run_released =
      gate is_release h write_sync prepared prepare-Makes
        (prepare-Avoids is_release is_release-is_late c) after_release-Makes
