-- ===== src/Policy/Running.antt =====
-- What the policy allows in a machine state that comes from a status snapshot.
use lcnc_suite.Base.{
  ◌≡◌, refl, ◌≢◌, ◌⊎◌, inl, inr, Bool, true, false, not, Option, none, some, arith,
}
use lcnc_suite.Policy.Commands.{Command}
use lcnc_suite.Policy.State.{
  MachineState, Gate, check_command, evaluate_permissions, Interp, StatusPayload, interp_or_idle,
  is_interp_idle, policy_state_from_payload,
}

-- The commands that may pass while the interpreter is not idle and the program is not paused:
-- stops, the overrides, the power of the machine, what has no gate, and the pause itself.
unfoldable pub spares_program : Command → Bool
spares_program Command.arm = true
spares_program Command.estop = true
spares_program Command.estop_reset = true
spares_program Command.shutdown = true
spares_program Command.abort = true
spares_program Command.machine_on = true
spares_program Command.machine_off = true
spares_program Command.jog_stop = true
spares_program Command.jog_stop_multi = true
spares_program Command.cycle_pause = true
spares_program Command.set_feed_override = true
spares_program Command.set_spindle_override = true
spares_program Command.set_rapid_override = true
spares_program Command.set_max_velocity = true
spares_program Command.set_block_delete = true
spares_program Command.set_optional_stop = true
spares_program Command.get_tool_table = true
spares_program Command.get_probe_results = true
spares_program Command.get_comp_grid = true
spares_program Command.get_probe_vars = true
spares_program Command.get_wcs_table = true
spares_program Command.list_probe_macros = true
spares_program (Command.unknown _) = true
spares_program _ = false

idle_denies :
    (c : Command) (s : MachineState)
    → s.is_idle ≡ false
    → s.is_paused ≡ false
    → check_command c s ≡ none
    → spares_program c ≡ true
unfolding check_command spares_program
idle_denies Command.arm s i p h = refl
idle_denies _ s i p h = ground arith

not_idle-busy : (i : Interp) → i ≢ Interp.idle → is_interp_idle i ≡ false
not_idle-busy Interp.idle h = absurd (h refl)
not_idle-busy _ h = refl

-- While the interpreter is active and the program is not paused, the policy passes only commands
-- that spare the program.
pub check_command_running :
    (c : Command) (p : StatusPayload) (is_armed : Bool)
    → interp_or_idle p.interp_state ≢ Interp.idle
    → (policy_state_from_payload p is_armed).is_paused ≡ false
    → check_command c (policy_state_from_payload p is_armed) ≡ none
    → spares_program c ≡ true
check_command_running c p is_armed busy unpaused h =
    idle_denies c (policy_state_from_payload p is_armed)
      (unfold policy_state_from_payload in not_idle-busy (interp_or_idle p.interp_state) busy)
      unpaused h

-- LinuxCNC reports one of its four states, or nothing.
abbrev pub IsKnown : Option Interp → Type 0
IsKnown o = o ≢ some Interp.other

-- For an armed client on a machine that is on, an active program can be paused or resumed, and
-- never both: also where only the interpreter state says that it is paused.
pub pause_or_resume :
    (p : StatusPayload)
    → interp_or_idle p.interp_state ≢ Interp.idle
    → IsKnown p.interp_state
    → p.estop ≡ some false
    → p.enabled ≡ some true
    → p.emc_enable_in ≢ some false
    → let s = policy_state_from_payload p true in
      evaluate_permissions s Gate.pause ≡ not (evaluate_permissions s Gate.resume)
unfolding policy_state_from_payload evaluate_permissions
pause_or_resume p busy known estop on chain = ground arith

-- The safety chain overrides the reported state: with `emc_enable_in` false every snapshot counts
-- as an emergency stop of a machine that is off, so only the gates `armed` and `always` can open.
pub open_chain_denies :
    (p : StatusPayload) (is_armed : Bool) (g : Gate)
    → p.emc_enable_in ≡ some false
    → evaluate_permissions (policy_state_from_payload p is_armed) g ≡ true
    → (g ≡ Gate.armed) ⊎ (g ≡ Gate.always)
unfolding policy_state_from_payload evaluate_permissions
open_chain_denies p is_armed Gate.armed chain ok = inl refl
open_chain_denies p is_armed Gate.always chain ok = inr refl
open_chain_denies p is_armed _ chain ok = ground arith
