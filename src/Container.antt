-- ===== src/Container.antt =====
-- project_2/runtime/container.h and container.c: the parts that the parent runs around a container:
-- id maps, cgroup, network of the host (net.c), teardown. Paths are shorter than PATH_MAX.
pub mod Setup
pub mod Life
pub mod Reap
pub mod Before
pub mod Release
pub mod Leak
pub mod Isolation
pub mod Args
mod Tests
use cs360v_cs380_projects.Prelude.{
  ℕ, List, [], ◌∷◌, ◌++◌, Bool, true, false, if◌then◌else◌, ◌==◌, not, codes, Option, none, some,
}
use cs360v_cs380_projects.Prelude.Text.{decimal}
use cs360v_cs380_projects.Sys.{
  Text, Call, Host, with_host, Action, pure, give_up, ◌>>=◌, ◌>>◌, ask, must, note, when, ignore,
  write_file, mkdir, rmdir, ip,
}

-- `struct container`, less its runtime state: `cg_path` and `net_host_if` are functions of it
-- below. A negative limit is `none`.
pub record Container : Type 0 where
  pub argv : List Text
  pub name : Text
  pub hostname : Text
  pub rootfs : Text
  pub pids_max : Option ℕ
  pub mem_max : Option ℕ
  pub cgroup_base : Text
  pub net_enabled : Bool
  pub net_ifname : Text
  pub net_ip : Text
  pub net_prefix : ℕ
  pub net_gw : Text

abbrev pub slash : Text → Text → Text
slash dir name = dir ++ b'/' ∷ name

abbrev pub proc_file : ℕ → Text → Text
proc_file child name = slash (slash (codes "/proc") (decimal child)) name

-- `0 <id> 1`
abbrev pub id_map : ℕ → Text
id_map id = codes "0 " ++ (decimal id ++ codes " 1")

unfoldable pub container_write_idmaps : ℕ → Action (Unit {0})
container_write_idmaps child = with_host λ h.
    write_file (proc_file child (codes "uid_map")) (id_map h.uid)
    >> write_file (proc_file child (codes "setgroups")) (codes "deny")
    >> write_file (proc_file child (codes "gid_map")) (id_map h.gid)

abbrev pub cg_path : Container → Text
cg_path c = slash c.cgroup_base c.name

abbrev pub limit : Option ℕ → Text
limit none = codes "max"
limit (some n) = decimal n

abbrev pub eexist : ℕ
eexist = 17

abbrev pub enoent : ℕ
enoent = 2

-- A call that may fail for one reason.
unfoldable pub must_unless : ℕ → Call → Action (Unit {0})
must_unless reason c h t =
    (ask c >>= λ made. if made then pure tt else if h.errno t c == reason then pure tt else give_up)
      h t

unfoldable pub container_cgroup_init : Container → Action (Unit {0})
container_cgroup_init c =
    write_file (slash c.cgroup_base (codes "cgroup.subtree_control")) (codes "+pids +memory")
    >> must_unless eexist (mkdir (cg_path c))
    >> write_file (slash (cg_path c) (codes "pids.max")) (limit c.pids_max)
    >> write_file (slash (cg_path c) (codes "memory.max")) (limit c.mem_max)
    >> write_file (slash (cg_path c) (codes "memory.swap.max")) (codes "0")

unfoldable pub container_cgroup_enter : Container → ℕ → Action (Unit {0})
container_cgroup_enter c child =
    write_file (slash (cg_path c) (codes "cgroup.procs")) (decimal child)

unfoldable pub container_cleanup : Container → Action (Unit {0})
container_cleanup c = must_unless enoent (rmdir (cg_path c))

abbrev pub bridge : Text
bridge = codes "cvbr0"

abbrev pub bridge_gw : Text
bridge_gw = codes "10.44.0.1"

-- `vh<pid>` and `vc<pid>`
abbrev pub net_host_if : ℕ → Text
net_host_if child = codes "vh" ++ decimal child

abbrev pub net_peer_if : ℕ → Text
net_peer_if child = codes "vc" ++ decimal child

abbrev pub add_pair : ℕ → List Text
add_pair child =
    codes "link"
    ∷ codes "add"
    ∷ net_host_if child
    ∷ codes "type"
    ∷ codes "veth"
    ∷ codes "peer"
    ∷ codes "name"
    ∷ net_peer_if child
    ∷ []

abbrev pub move_peer : Container → ℕ → List Text
move_peer c child =
    codes "link"
    ∷ codes "set"
    ∷ net_peer_if child
    ∷ codes "netns"
    ∷ decimal child
    ∷ codes "name"
    ∷ c.net_ifname
    ∷ []

abbrev pub delete_pair : ℕ → List Text
delete_pair child = codes "link" ∷ codes "del" ∷ net_host_if child ∷ []

-- net.c: `IP(...)` runs `ip` and succeeds at exit status 0.
unfoldable pub container_net_host_setup : Container → ℕ → Action (Unit {0})
container_net_host_setup c child =
    note (ip (codes "link" ∷ codes "add" ∷ bridge ∷ codes "type" ∷ codes "bridge" ∷ []))
    >> note (
        ip (
          codes "addr"
          ∷ codes "add"
          ∷ (bridge_gw ++ b'/' ∷ decimal c.net_prefix)
          ∷ codes "dev"
          ∷ bridge
          ∷ []))
    >> must (ip (codes "link" ∷ codes "set" ∷ bridge ∷ codes "up" ∷ []))
    >> must (ip (add_pair child))
    >> note (ip (codes "link" ∷ codes "set" ∷ net_host_if child ∷ codes "master" ∷ bridge ∷ []))
    >> note (ip (codes "link" ∷ codes "set" ∷ net_host_if child ∷ codes "up" ∷ []))
    >> (ask (ip (move_peer c child)) >>= λ moved.
        if moved then pure tt else note (ip (delete_pair child)) >> give_up)

-- It is called after a setup that named the interface.
unfoldable pub container_net_host_teardown : ℕ → Action (Unit {0})
container_net_host_teardown child = note (ip (delete_pair child))
