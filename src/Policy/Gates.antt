-- ===== src/Policy/Gates.antt =====
-- The decision and the deny message of the policy come from one table.
use lcnc_suite.Base.{
  ◌≡◌, refl, ◌≢◌, ◌↔◌, true, false, Option, none, some, List, [], ◌∷◌, ◌++◌, String, arith, All,
  inl, inr, Bool-cases,
}
use lcnc_suite.Policy.Commands.{Command}
use lcnc_suite.Policy.State.{
  MachineState, Requirement, holds, message, Gate, requirements, all_hold, evaluate_permissions,
  command_gate, first_unmet, check_command,
}

first_unmet-eq-none :
    (rs : List Requirement) (s : MachineState) → (first_unmet rs s ≡ none) ↔ (all_hold rs s ≡ true)
unfolding first_unmet all_hold
first_unmet-eq-none [] s = (λ _. refl, λ _. refl)
first_unmet-eq-none (r ∷ rs) s =
    let (there, back) = first_unmet-eq-none rs s in (ground (arith, there), ground (arith, back))

-- A command that has a gate is allowed exactly if `evaluate_permissions` opens that gate.
pub check_command-eq-none :
    (c : Command) (s : MachineState) (g : Gate)
    → command_gate c ≡ some g
    → (check_command c s ≡ none) ↔ (evaluate_permissions s g ≡ true)
unfolding check_command evaluate_permissions
check_command-eq-none c s g h = rw (h, check_command) (first_unmet-eq-none (requirements g) s)

-- `m` is the message of the first requirement of `rs` that fails in `s`.
abbrev pub IsFirstUnmet : List Requirement → MachineState → String → Type 0
IsFirstUnmet rs s m =
    (met : List Requirement) × (r : Requirement) × (after : List Requirement) × (rs
      ≡ met ++ r ∷ after)
    × All (λ q. holds q s ≡ true) met
    × (holds r s ≡ false)
    × (m ≡ message r)

first_unmet-IsFirstUnmet :
    (rs : List Requirement) (s : MachineState) (m : String)
    → first_unmet rs s ≡ some m
    → IsFirstUnmet rs s m
unfolding first_unmet
first_unmet-IsFirstUnmet [] s m h = cc
first_unmet-IsFirstUnmet (r ∷ rs) s m h = elim (Bool-cases (holds r s)) [
  | inl good ↦
      let (met, q, after, split, all, unmet, said) =
        first_unmet-IsFirstUnmet rs s m (ground arith) in
      (r ∷ met, q, after, ground arith, (good, all), unmet, said)
  | inr bad ↦ ([], r, rs, refl, tt, bad, ground arith)
]

-- A refusal reports the first requirement of the command's gate that is unmet: all before it hold,
-- it does not, and the text is its own.
pub check_command-IsFirstUnmet :
    (c : Command) (s : MachineState) (m : String)
    → check_command c s ≡ some m
    → (g : Gate) × (command_gate c ≡ some g) × IsFirstUnmet (requirements g) s m
unfolding check_command
check_command-IsFirstUnmet c s m h = gated (command_gate c) refl
  where
    gated :
        (o : Option Gate)
        → command_gate c ≡ o
        → (g : Gate) × (command_gate c ≡ some g) × IsFirstUnmet (requirements g) s m
    gated none e = cc
    gated (some g) e =
        (g, e, first_unmet-IsFirstUnmet (requirements g) s m (rw (e, check_command) at h))

-- Of the gated commands only those of the gate `always` pass for a client that is not armed, or
-- under an emergency stop.
pub check_command_armed :
    (c : Command) (s : MachineState) (g : Gate)
    → command_gate c ≡ some g
    → g ≢ Gate.always
    → g ≢ Gate.armed
    → check_command c s ≡ none
    → (s.armed ≡ true) × (s.is_estop ≡ false)
unfolding check_command
check_command_armed c s g h always armed ok =
    armed_first g always armed (rw (h, check_command) at ok)
  where
    armed_first :
        (g : Gate)
        → g ≢ Gate.always
        → g ≢ Gate.armed
        → first_unmet (requirements g) s ≡ none
        → (s.armed ≡ true) × (s.is_estop ≡ false)
    armed_first Gate.always a b e = absurd (a refl)
    armed_first Gate.armed a b e = absurd (b refl)
    armed_first _ a b e = ground arith

-- No command of the table has the gate `armed`.
pub command_gate-ne-armed : (c : Command) → command_gate c ≢ some Gate.armed
unfolding command_gate
command_gate-ne-armed Command.arm = λ e. cc
command_gate-ne-armed _ = λ e. cc
