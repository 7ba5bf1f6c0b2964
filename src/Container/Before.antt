-- ===== src/Container/Before.antt =====
-- What container.c does not do before it releases the container's init.
use cs360v_cs380_projects.Prelude.{◌||◌, arith, ℕ, ◌≡◌, Bool, true, false, ◌==◌}
use cs360v_cs380_projects.Sys.{Call, rmdir, write_sync}
use cs360v_cs380_projects.Sys.Avoid.{
  Avoids-with_host, Avoids, Avoids-pure, Avoids-give_up, Avoids-must, Avoids-note, Avoids-ask,
  Avoids-bind, Avoids-then, Avoids-if, Avoids-write_file,
}
use cs360v_cs380_projects.Container.{
  Container, container_write_idmaps, container_cgroup_init, container_cgroup_enter, must_unless,
  container_net_host_setup,
}
use cs360v_cs380_projects.Container.Life.{prepare, clone_child}

-- The release of the child.
abbrev pub is_release : Call → Bool
is_release write_sync = true
is_release _ = false

-- The removal of its cgroup.
abbrev pub is_removal : Call → Bool
is_removal (rmdir path) = true
is_removal _ = false

abbrev pub is_late : Call → Bool
is_late call = is_release call || is_removal call

pub is_release-is_late : (call : Call) → is_late call ≡ false → is_release call ≡ false
is_release-is_late call e = first (is_release call) (is_removal call) e
  where
    first : (a b : Bool) → a || b ≡ false → a ≡ false
    first a b e = ground arith

pub is_removal-is_late : (call : Call) → is_late call ≡ false → is_removal call ≡ false
is_removal-is_late call e = second (is_release call) (is_removal call) e
  where
    second : (a b : Bool) → a || b ≡ false → b ≡ false
    second a b e = ground arith

pub must_unless-Avoids :
    (p : Call → Bool) (reason : ℕ) (call : Call)
    → p call ≡ false
    → Avoids p (must_unless reason call)
must_unless-Avoids p reason call n = record {
  run = λ k t l.
      unfold must_unless in
      (Avoids-bind p (Avoids-ask p call n) (λ made.
          Avoids-if p made (Avoids-pure p tt)
            (Avoids-if p (k.errno t call == reason) (Avoids-pure p tt) (Avoids-give_up p)))).run
        k t l;
}

-- Any kind of calls that takes in none but these.
module _ (p : Call → Bool) (other : (call : Call) → is_late call ≡ false → p call ≡ false)
    (c : Container) where
  cgroup_init-Avoids : Avoids p (container_cgroup_init c)
  unfolding container_cgroup_init
  cgroup_init-Avoids =
      search (other, Avoids-then, Avoids-write_file, must_unless-Avoids) depth 20 fits 4000

  idmaps-Avoids : (child : ℕ) → Avoids p (container_write_idmaps child)
  unfolding container_write_idmaps
  idmaps-Avoids child = Avoids-with_host p (λ k. search (other, Avoids-then, Avoids-write_file))

  host_setup-Avoids : (child : ℕ) → Avoids p (container_net_host_setup c child)
  unfolding container_net_host_setup
  host_setup-Avoids child =
      search
        (
          other, Avoids-then, Avoids-must, Avoids-note, Avoids-bind, Avoids-ask, Avoids-if,
          Avoids-pure, Avoids-give_up,
        )
        depth 20 fits 4000

  clone_child-Avoids : Avoids p clone_child
  unfolding clone_child
  clone_child-Avoids =
      search
        (
          other, Avoids-then, Avoids-note, Avoids-bind, Avoids-if, Avoids-pure, Avoids-give_up,
          Avoids-ask,
        )
        depth 20 fits 4000

  pub prepare-Avoids : Avoids p (prepare c)
  unfolding prepare container_cgroup_enter
  prepare-Avoids = Avoids-with_host p (λ k.
      search
        (
          other, Avoids-then, Avoids-must, Avoids-note, Avoids-write_file, Avoids-if, Avoids-pure,
          cgroup_init-Avoids, idmaps-Avoids, host_setup-Avoids, clone_child-Avoids,
        )
        depth 20 fits 4000)
