-- ===== src/Oracle/Program.antt =====
-- project_1/tests/ag_guest.c: `main` of the test guest.
use cs360v_cs380_projects.Prelude.{ℕ, ◌-◌, ◌==◌, if◌then◌else◌}
use cs360v_cs380_projects.Memory.{ram_base}
use cs360v_cs380_projects.Guest.{Guest, returned, pure}
use cs360v_cs380_projects.Oracle.{Bootinfo, bootinfo_magic, bootinfo_at}
use cs360v_cs380_projects.Oracle.Scenario
use cs360v_cs380_projects.Oracle.Scenarios

unfoldable pub run_scenario : Scenarios.Locals → Bootinfo → Guest ℕ
run_scenario at bi =
    if bi.scenario == Scenario.log_one
    then Scenarios.log_one bi
    else if bi.scenario == Scenario.log_many
    then Scenarios.log_many bi
    else if bi.scenario == Scenario.malformed
    then Scenarios.malformed bi
    else if bi.scenario == Scenario.boundary
    then Scenarios.boundary bi
    else if bi.scenario == Scenario.empty
    then Scenarios.empty bi
    else if bi.scenario == Scenario.max_len
    then Scenarios.max_len bi
    else if bi.scenario == Scenario.regs
    then Scenarios.regs bi
    else if bi.scenario == Scenario.nop
    then Scenarios.nop bi
    else if bi.scenario == Scenario.recover
    then Scenarios.recover bi
    else if bi.scenario == Scenario.interleave
    then Scenarios.interleave bi
    else if bi.scenario == Scenario.flush
    then Scenarios.flush bi
    else if bi.scenario == Scenario.stat
    then Scenarios.stat at bi
    else pure 1

-- `main`, on the address of its parameters.
unfoldable pub ag_guest : Scenarios.Locals → ℕ → Guest ℕ
ag_guest at p v =
    let bi = bootinfo_at v.machine.ram (p - ram_base) in
    if bi.magic == bootinfo_magic then run_scenario at bi v else returned 1 v
