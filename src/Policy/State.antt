-- ===== src/Policy/State.antt =====
-- The machine state of the policy, its gates, and the check of one command.
use lcnc_suite.Base.{
  String, Bool, true, false, not, ◌&&◌, ◌||◌, Option, none, some, List, [], ◌∷◌, ◌++◌,
  if◌then◌else◌, truthy,
}
use lcnc_suite.Policy.Commands.{Command}

pub record MachineState : Type 0 where
  pub armed : Bool
  pub is_estop : Bool
  pub is_enabled : Bool
  pub is_homed : Bool
  pub is_idle : Bool
  pub is_running : Bool
  pub is_paused : Bool
  pub eoffset_enabled : Bool

pub data Requirement : Type 0 where
  r_armed r_not_estop r_enabled r_idle r_homed r_no_eoffset : Requirement
  r_running r_not_paused r_paused r_ready_or_paused : Requirement

-- The predicate of a requirement.
unfoldable pub holds : Requirement → MachineState → Bool
holds r_armed s = s.armed
holds r_not_estop s = not s.is_estop
holds r_enabled s = s.is_enabled
holds r_idle s = s.is_idle
holds r_homed s = s.is_homed
holds r_no_eoffset s = not s.eoffset_enabled
holds r_running s = s.is_running
holds r_not_paused s = not s.is_paused
holds r_paused s = s.is_paused
holds r_ready_or_paused s = (s.is_idle && s.is_homed) || s.is_paused

-- The deny message of a requirement.
unfoldable pub message : Requirement → String
message r_armed = "Not armed"
message r_not_estop = "E-stop active"
message r_enabled = "Machine not on"
message r_idle = "Machine not idle"
message r_homed = "Machine not homed"
message r_no_eoffset = "Surface compensation active — clear the eoffset first"
message r_running = "No program running to pause"
message r_not_paused = "Program already paused"
message r_paused = "No program paused to resume"
message r_ready_or_paused = "Must be homed and idle, or paused, to step"

pub data Gate : Type 0 where
  idle jog override ready pause resume step abort probe zero_offset safety setup armed : Gate
  always : Gate

abbrev pub base : List Requirement
base = r_armed ∷ r_not_estop ∷ r_enabled ∷ []

-- `GATE_REQUIREMENTS`; `zero_offset` is its key "zero".
unfoldable pub requirements : Gate → List Requirement
requirements idle = base ++ r_idle ∷ []
requirements jog = base ++ r_idle ∷ r_homed ∷ []
requirements override = base
requirements ready = base ++ r_idle ∷ r_homed ∷ []
requirements pause = base ++ r_running ∷ r_not_paused ∷ []
requirements resume = base ++ r_paused ∷ []
requirements step = base ++ r_ready_or_paused ∷ []
requirements abort = base
requirements probe = base ++ r_idle ∷ r_homed ∷ r_no_eoffset ∷ []
requirements zero_offset = base ++ r_idle ∷ r_no_eoffset ∷ []
requirements safety = r_armed ∷ r_not_estop ∷ []
requirements setup = r_armed ∷ r_not_estop ∷ r_idle ∷ []
requirements armed = r_armed ∷ []
requirements always = []

-- `all(ok(s) for ok, _ in reqs)`
unfoldable pub all_hold : List Requirement → MachineState → Bool
unfolding holds
all_hold [] s = true
all_hold (r ∷ rs) s = holds r s && all_hold rs s

-- The dict that `evaluate_permissions` builds, as the function of its key.
unfoldable pub evaluate_permissions : MachineState → Gate → Bool
unfolding all_hold requirements
evaluate_permissions s g = all_hold (requirements g) s

-- `COMMAND_GATES.get(cmd)`
unfoldable pub command_gate : Command → Option Gate
command_gate Command.arm = some always
command_gate Command.estop = some always
command_gate Command.estop_reset = some always
command_gate Command.shutdown = some always
command_gate Command.abort = some abort
command_gate Command.machine_on = some safety
command_gate Command.machine_off = some safety
command_gate Command.set_mode = some idle
command_gate Command.jog_cont = some jog
command_gate Command.jog_incr = some jog
command_gate Command.jog_cont_multi = some jog
command_gate Command.jog_incr_multi = some jog
command_gate Command.jog_stop = some always
command_gate Command.jog_stop_multi = some always
command_gate Command.home = some zero_offset
command_gate Command.home_all = some zero_offset
command_gate Command.unhome = some zero_offset
command_gate Command.unhome_all = some zero_offset
command_gate Command.cycle_start = some ready
command_gate Command.auto_run = some ready
command_gate Command.auto_step = some step
command_gate Command.cycle_pause = some pause
command_gate Command.cycle_resume = some resume
command_gate Command.mdi = some ready
command_gate Command.spindle_forward = some ready
command_gate Command.spindle_reverse = some ready
command_gate Command.spindle_stop = some ready
command_gate Command.spindle_increase = some ready
command_gate Command.spindle_decrease = some ready
command_gate Command.flood_on = some ready
command_gate Command.flood_off = some ready
command_gate Command.mist_on = some ready
command_gate Command.mist_off = some ready
command_gate Command.set_feed_override = some override
command_gate Command.set_spindle_override = some override
command_gate Command.set_rapid_override = some override
command_gate Command.set_max_velocity = some override
command_gate Command.set_block_delete = some override
command_gate Command.set_optional_stop = some override
command_gate Command.tool_change = some probe
command_gate Command.set_wcs = some probe
command_gate Command.clear_wcs = some probe
command_gate Command.set_probe_vars = some ready
command_gate Command.save_tool = some setup
command_gate Command.add_tool = some setup
command_gate Command.delete_tool = some setup
command_gate Command.renumber_tool = some setup
command_gate Command.load_file = some setup
command_gate Command.unload_file = some setup
command_gate Command.get_tool_table = none
command_gate Command.get_probe_results = none
command_gate Command.get_comp_grid = none
command_gate Command.get_probe_vars = none
command_gate Command.get_wcs_table = none
command_gate Command.list_probe_macros = none
command_gate (Command.unknown _) = none

-- The loop of `check_command`: the message of the first requirement that fails.
unfoldable pub first_unmet : List Requirement → MachineState → Option String
unfolding holds message
first_unmet [] s = none
first_unmet (r ∷ rs) s =
    let rest = first_unmet rs s in if not (holds r s) then some (message r) else rest

unfoldable pub check_command : Command → MachineState → Option String
unfolding command_gate first_unmet requirements
check_command c s = elim (command_gate c) [ none ↦ none | some g ↦ first_unmet (requirements g) s ]

-- LinuxCNC's interpreter states; `other` is a code that the gateway does not name.
pub data Interp : Type 0 where
  idle reading paused waiting other : Interp

abbrev pub is_interp_idle : Interp → Bool
is_interp_idle Interp.idle = true
is_interp_idle _ = false

abbrev pub is_interp_paused : Interp → Bool
is_interp_paused Interp.paused = true
is_interp_paused _ = false

-- `interp in (INTERP_READING, INTERP_WAITING)`
abbrev pub is_interp_busy : Interp → Bool
is_interp_busy Interp.reading = true
is_interp_busy Interp.waiting = true
is_interp_busy _ = false

-- The fields of `StatusPayload` that the policy reads; `none` is Python's `None`.
pub record StatusPayload : Type 0 where
  pub estop : Option Bool
  pub enabled : Option Bool
  pub homed : Option Bool
  pub paused : Option Bool
  pub interp_state : Option Interp
  pub emc_enable_in : Option Bool
  pub eoffset_enabled : Option Bool

abbrev pub interp_or_idle : Option Interp → Interp
interp_or_idle none = Interp.idle
interp_or_idle (some i) = i

-- `emc is False`
abbrev pub is_false : Option Bool → Bool
is_false (some false) = true
is_false _ = false

unfoldable pub policy_state_from_payload : StatusPayload → Bool → MachineState
policy_state_from_payload p is_armed =
    let i = interp_or_idle p.interp_state in
    let held = truthy p.paused || is_interp_paused i in
    record {
      armed = is_armed;
      is_estop = truthy p.estop || is_false p.emc_enable_in;
      is_enabled = truthy p.enabled && not (is_false p.emc_enable_in);
      is_homed = truthy p.homed;
      is_idle = is_interp_idle i;
      is_running = not held && is_interp_busy i;
      is_paused = held;
      eoffset_enabled = truthy p.eoffset_enabled;
    }
