-- ===== src/Oracle/Known.antt =====
-- project_1/tests: the scenario `nop`, on a seed that picks a command which is known.
use cs360v_cs380_projects.Prelude.{[], ◌∷◌, codes}
use cs360v_cs380_projects.Memory.{Memory}
use cs360v_cs380_projects.Device.Err
use cs360v_cs380_projects.Device.Reg
use cs360v_cs380_projects.Device.Cmd
use cs360v_cs380_projects.Vmm.{Vmm}
use cs360v_cs380_projects.Oracle.{Case}
use cs360v_cs380_projects.Oracle.Scenarios
use cs360v_cs380_projects.Oracle.Passes.{Passes}

-- The case, with what the test guest observes.
abbrev pub as_observed : Case → Case
as_observed c = record c {
  obs =
      (codes "err_after_badcmd", 1)
      ∷ (codes "errcode_after_badcmd", Err.bad_len)
      ∷ (codes "err_after_nop", 0)
      ∷ (codes "seq", 0)
      ∷ [];
}
