-- ===== src/Container/Leak.antt =====
-- What a failed run of container.c leaves behind.
use cs360v_cs380_projects.Prelude.{◌≡◌, refl, []}
use cs360v_cs380_projects.Sys.{Host, Trace, failed, write_sync, close_sync, wait_for, free_stack}
use cs360v_cs380_projects.Sys.Avoid.{
  Lacks, Avoids-must, Avoids-note, Succeeds-pure, Succeeds-note, Succeeds-if, Succeeds-ignore,
  Succeeds-then, FailsBefore, Succeeds-FailsBefore, FailsBefore-then, FailsBefore-with_host,
  FailsBefore-failed,
}
use cs360v_cs380_projects.Container.{Container, container_net_host_teardown, container_cleanup}
use cs360v_cs380_projects.Container.Before.{is_removal, is_removal-is_late, prepare-Avoids}
use cs360v_cs380_projects.Container.Life.{supervise, container_run, exit_of}

module _ (c : Container) where
  supervise-FailsBefore : FailsBefore is_removal (supervise c)
  unfolding supervise container_net_host_teardown
  supervise-FailsBefore = FailsBefore-then is_removal (Avoids-must is_removal write_sync refl) (
      FailsBefore-then is_removal (Avoids-note is_removal (close_sync 1) refl) (
        FailsBefore-with_host is_removal (λ h.
          FailsBefore-then is_removal (Avoids-must is_removal (wait_for h.child) refl) (
            Succeeds-FailsBefore is_removal (
              Succeeds-then (Succeeds-if c.net_enabled (Succeeds-note _) (Succeeds-pure tt)) (
                Succeeds-then (Succeeds-ignore (container_cleanup c)) (
                  Succeeds-then (Succeeds-note free_stack)
                    (Succeeds-pure (exit_of h.child_status)))))))))

  run-FailsBefore : FailsBefore is_removal (container_run c)
  unfolding container_run
  run-FailsBefore =
      FailsBefore-then is_removal (prepare-Avoids is_removal is_removal-is_late c)
        supervise-FailsBefore

  -- A run that returns -1, wherever it fails, has not removed the cgroup that it made.
  pub container_run_leak :
      (h : Host) (t : Trace) → container_run c h [] ≡ failed t → Lacks is_removal t
  container_run_leak h t e = FailsBefore-failed is_removal run-FailsBefore e
