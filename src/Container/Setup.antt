-- ===== src/Container/Setup.antt =====
-- project_2/runtime/container.c: what the container's init does to isolate itself.
use cs360v_cs380_projects.Prelude.{
  ℕ, zero, suc, ◌+◌, ◌-◌, ◌*◌, ◌^◌, ◌%◌, if◌then◌else◌, ◌==◌, not, codes, u32_mod,
}
use cs360v_cs380_projects.Seccomp.{filter}
use cs360v_cs380_projects.Sys.{
  Text, with_host, Action, pure, ◌>>=◌, ◌>>◌, ask, must, note, when, finally, sethostname, socket,
  close_socket, inet_pton, get_flags, set_up, set_addr, set_netmask, add_route, mount_private, bind,
  remount_read_only, mount_fs, touch, close_file, chdir, pivot_root, detach_old_root, drop_bounding,
  clear_capabilities, no_new_privs, install_filter,
}
use cs360v_cs380_projects.Container.{Container, slash}

abbrev pub lo : Text
lo = codes "lo"

-- Loopback, as far as it goes: 0 on every path.
unfoldable pub container_network : Action (Unit {0})
container_network = ask socket >>= λ opened.
    if not opened
    then pure tt
    else (ask (get_flags lo) >>= λ got.
        if not got then note close_socket else (note (set_up lo) >> note close_socket))

-- `net_prefix ? ~0u << (32 - net_prefix) : 0`, before `htonl`, for a prefix of at most 32.
unfoldable pub netmask : ℕ → ℕ
netmask prefix = if prefix == 0 then 0 else (u32_mod - 1) * 2 ^ (32 - prefix) % u32_mod

unfoldable pub container_net_config : Container → Action (Unit {0})
unfolding netmask
container_net_config c =
    must socket
    >> finally
        (must (inet_pton c.net_ip)
          >> must (set_addr c.net_ifname c.net_ip)
          >> must (set_netmask c.net_ifname (netmask c.net_prefix))
          >> must (get_flags c.net_ifname)
          >> must (set_up c.net_ifname)
          >> must (inet_pton c.net_gw)
          >> must (add_route c.net_gw))
        close_socket

-- `open` to create the mount point, and `close` if it opened.
unfoldable pub touch_file : Text → Action (Unit {0})
touch_file path = ask (touch path) >>= λ opened. when opened (note (close_file path))

unfoldable pub isolate_files : Text → Action (Unit {0})
isolate_files rootfs =
    must mount_private
    >> must (bind rootfs rootfs)
    >> must (remount_read_only rootfs)
    >> must (mount_fs (codes "tmpfs") (slash rootfs (codes "tmp")))
    >> must (mount_fs (codes "tmpfs") (slash rootfs (codes "dev")))
    >> touch_file (slash rootfs (codes "dev/null"))
    >> must (bind (codes "/dev/null") (slash rootfs (codes "dev/null")))
    >> touch_file (slash rootfs (codes "dev/zero"))
    >> must (bind (codes "/dev/zero") (slash rootfs (codes "dev/zero")))
    >> must (mount_fs (codes "proc") (slash rootfs (codes "proc")))
    >> must (chdir rootfs)
    >> must pivot_root
    >> must detach_old_root
    >> must (chdir (codes "/"))

-- The loop over the capabilities `cap`, `cap + 1`, …, `n` of them.
unfoldable pub drop_from : ℕ → ℕ → Action (Unit {0})
drop_from cap zero = pure tt
drop_from cap (suc n) = note (drop_bounding cap) >> drop_from (cap + 1) n

unfoldable pub container_seccomp : Action (Unit {0})
container_seccomp =
    with_host λ h. must no_new_privs >> must (install_filter (filter h.number h.audit_arch))

-- The loop runs from 0 to CAP_LAST_CAP.
unfoldable pub drop_capabilities : Action (Unit {0})
drop_capabilities = with_host λ h. drop_from 0 (h.last_cap + 1) >> must clear_capabilities

unfoldable pub container_setup : Container → Action (Unit {0})
container_setup c =
    must (sethostname c.hostname)
    >> container_network
    >> when c.net_enabled (container_net_config c)
    >> isolate_files c.rootfs
    >> drop_capabilities
    >> container_seccomp
