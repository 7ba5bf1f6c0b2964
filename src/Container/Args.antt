-- ===== src/Container/Args.antt =====
-- project_2/runtime/main.c: the arguments of the container runtime.
pub mod Printed
use cs360v_cs380_projects.Prelude.{
  ℕ, ◌*◌, ◌%◌, ◌^◌, ltb, ◌==◌, if◌then◌else◌, List, [], ◌∷◌, Bool, true, false, ◌||◌, codes, Option,
  none, some, bytes_eq, u64_mod,
}
use cs360v_cs380_projects.Sys.{Text, Action, pure}
use cs360v_cs380_projects.Runner.Numbers.{strtoll}
use cs360v_cs380_projects.Container.{Container}
use cs360v_cs380_projects.Container.Life.{container_run}

-- The factor of a size's suffix, the first byte after its number.
abbrev pub unit : List ℕ → ℕ
unit [] = 1
unit (c ∷ cs) =
    if (c == b'k') || (c == b'K')
    then 1024
    else if (c == b'm') || (c == b'M')
    then 1024 * 1024
    else if (c == b'g') || (c == b'G')
    then 1024 * 1024 * 1024
    else 1

-- `strtol`, which gives 0 where there is no number, and what follows.
abbrev pub number : Text → Option (ℕ × Text) → ℕ × Text
number s none = (0, s)
number s (some r) = r

-- A `long` of 64 bits as a limit: a negative one is none.
abbrev pub as_limit : ℕ → Option ℕ
as_limit word = if ltb word (2 ^ 63) then some word else none

unfoldable pub parse_bytes : Text → Option ℕ
parse_bytes s =
    if bytes_eq s (codes "max")
    then none
    else (let (v, end) = number s (strtoll s) in as_limit ((v * unit end) % u64_mod))

abbrev pub defaults : Container
defaults = record {
  argv = [];
  name = codes "cs360v";
  hostname = codes "container";
  rootfs = codes "rootfs";
  pids_max = some 64;
  mem_max = some (64 * 1024 * 1024);
  cgroup_base = codes "/sys/fs/cgroup";
  net_enabled = false;
  net_ifname = codes "ceth0";
  net_ip = codes "10.44.0.2";
  net_prefix = 24;
  net_gw = codes "10.44.0.1";
}

-- An option with its value; `none` where it is none of these.
unfoldable pub set_option : Text → Text → Container → Option Container
unfolding parse_bytes
set_option arg value c =
    if bytes_eq arg (codes "--name")
    then some (record c { name = value })
    else if bytes_eq arg (codes "--hostname")
    then some (record c { hostname = value })
    else if bytes_eq arg (codes "--rootfs")
    then some (record c { rootfs = value })
    else if bytes_eq arg (codes "--pids-max")
    then some (record c { pids_max = parse_bytes value })
    else if bytes_eq arg (codes "--mem-max")
    then some (record c { mem_max = parse_bytes value })
    else if bytes_eq arg (codes "--cgroup-base")
    then some (record c { cgroup_base = value })
    else if bytes_eq arg (codes "--net-ip")
    then some (record c { net_ip = value })
    else none

-- What the loop ends with: a container to run, or an exit status.
pub data Parsed : Type 0 where
  runs : Container → Parsed
  exits : ℕ → Parsed

abbrev pub starts_with : ℕ → Text → Bool
starts_with b [] = false
starts_with b (c ∷ cs) = c == b

unfoldable pub read_args : List Text → Container → Parsed
unfolding set_option
read_args [] c = exits 2
read_args (arg ∷ []) c =
    if starts_with b'-' arg then exits 2 else runs (record c { argv = arg ∷ [] })
read_args (arg ∷ value ∷ args) c = elim (bytes_eq arg (codes "--")) [
  | true ↦ runs (record c { argv = value ∷ args })
  | false ↦ elim (set_option arg value c) [
    | some c' ↦ read_args args c'
    | none ↦ elim (bytes_eq arg (codes "--net")) [
      | true ↦ read_args (value ∷ args) (record c { net_enabled = true })
      | false ↦
          if starts_with b'-' arg then exits 2 else runs (record c { argv = arg ∷ value ∷ args })
    ]
  ]
]

-- `main`, on its arguments after the program's name.
unfoldable pub main : List Text → Action ℕ
unfolding read_args
main args = elim (read_args args defaults) [ exits status ↦ pure status | runs c ↦ container_run c ]
