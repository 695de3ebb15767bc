-- ===== src/Policy/Examples.antt =====
-- The theorems of the policy at concrete states.
use lcnc_suite.Base.{◌≡◌, refl, ◌≢◌, true, false, none, some}
use lcnc_suite.Policy.Commands.{Command}
use lcnc_suite.Policy.State.{
  MachineState, requirements, Gate, check_command, command_gate, Interp, StatusPayload,
  policy_state_from_payload,
}
use lcnc_suite.Policy.Gates.{IsFirstUnmet, check_command-IsFirstUnmet}

-- An armed client, a machine that is on, and a program that runs.
abbrev cutting : StatusPayload
cutting = record {
  estop = some false;
  enabled = some true;
  homed = some true;
  paused = some false;
  interp_state = some Interp.waiting;
  emc_enable_in = some true;
  eoffset_enabled = some false;
}

abbrev broken_chain : StatusPayload
broken_chain = record cutting { emc_enable_in = some false; interp_state = some Interp.idle }

abbrev ready_state : MachineState
ready_state = policy_state_from_payload (record cutting { interp_state = some Interp.idle }) true

-- Not homed, and the interpreter waits: two requirements of a jog are unmet.
abbrev unhomed : MachineState
unhomed = policy_state_from_payload (record cutting { homed = none }) true

waiting-ne-idle : Interp.waiting ≢ Interp.idle
waiting-ne-idle e = cc

check_command-IsFirstUnmet_example :
    (g : Gate) × (command_gate Command.jog_cont ≡ some g)
    × IsFirstUnmet (requirements g) unhomed "Machine not idle"
unfolding check_command policy_state_from_payload
check_command-IsFirstUnmet_example =
    check_command-IsFirstUnmet Command.jog_cont unhomed "Machine not idle" refl
