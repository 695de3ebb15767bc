-- ===== src/Gateway/Handlers/Stop.antt =====
-- The handlers that stop the machine.
use mathlib.Core.Path.{subst}
use lcnc_suite.Base.{
  ◌≡◌, refl, sym, ap, String, ◌∙◌, Bool, true, false, not, Option, none, some, List, [], ◌∷◌,
  if◌then◌else◌, arith,
}
use lcnc_suite.Base.Int.{ℤ, pos}
use lcnc_suite.Value.{null, Message, get, finite_int, Res, ok, raise}
use lcnc_suite.Policy.{
  Command, check_command, command_gate, requirements, first_unmet, StatusPayload,
}
use lcnc_suite.Gateway.Machine.{TaskState, Call, HalMessage}
use lcnc_suite.Gateway.World.{
  World, Reply, done, refused, Outcome, fails, incomplete, returns, Act, failed, pure, throw,
  or_else, ◌>>=◌, ◌>>◌, finally_do, actions,
}
use lcnc_suite.Gateway.Guards.{cmd_blocking, cmd_outcome, auto_running}
use lcnc_suite.Gateway.Frame.{after}
use lcnc_suite.Gateway.Jog.{
  Jog, same_jog, discard, joint_flag, mark_jog_stopped, stop_axis, read_index, jog_stop,
}
use lcnc_suite.Gateway.Power.{hal_send, hold_estop}
use lcnc_suite.Gateway.Power
use lcnc_suite.Gateway.Dispatch.{read_only, run_handler, policy_denies, guarded, handle_command}

unfoldable pub is_marked : Jog → List Jog → Bool
is_marked j [] = false
is_marked j (k ∷ js) = let rest = is_marked j js in if same_jog j k then true else rest

is_marked-discard : (j : Jog) (js : List Jog) → is_marked j (discard j js) ≡ false
unfolding is_marked discard
is_marked-discard j [] = refl
is_marked-discard j (k ∷ js) = let ih = is_marked-discard j js in ground arith

finally_do-after :
    {A : Type 0} (m : Act A) (f : World → World) (w : World)
    → after (finally_do m f) w ≡ f (after m w)
unfolding actions
finally_do-after m f w = refl

cmd_outcome-calls : (os : List Outcome) (w : World) → (cmd_outcome os w).1.calls ≡ w.calls
unfolding cmd_outcome
cmd_outcome-calls [] w = refl
cmd_outcome-calls (returns ∷ os) w = refl
cmd_outcome-calls (incomplete ∷ os) w = refl
cmd_outcome-calls (fails ∷ os) w = refl

cmd_blocking-calls : (c : Call) (w : World) → (after (cmd_blocking c) w).calls ≡ c ∷ w.calls
unfolding cmd_blocking
cmd_blocking-calls c w = cmd_outcome-calls w.outcomes (record w { calls = c ∷ w.calls })

-- The call was sent, and the mark is taken away.
abbrev pub Stopped : Bool → ℤ → World → World → Type 0
Stopped jf axis w w' =
    (w'.calls ≡ Call.jog_stop jf axis ∷ w.calls) × (is_marked (jf, axis) w'.active_jog_axes ≡ false)

stop_axis-Stopped :
    (jf : Bool) (axis : ℤ) (w : World) → Stopped jf axis w (after (stop_axis jf axis) w)
unfolding stop_axis mark_jog_stopped
stop_axis-Stopped jf axis w =
    rw (finally_do-after (cmd_blocking (Call.jog_stop jf axis)) (mark_jog_stopped jf axis) w)
      (cmd_blocking-calls (Call.jog_stop jf axis) w, is_marked-discard (jf, axis) _)

-- Nothing follows the stop that could undo it.
stop_axis_ends :
    (jf : Bool) (axis : ℤ) (w : World)
    → Stopped jf axis w (after (stop_axis jf axis >> pure done) w)
unfolding actions
stop_axis_ends jf axis w = both (stop_axis jf axis w) (stop_axis-Stopped jf axis w)
  where
    both :
        (r : Res (Unit {0}) × World)
        → Stopped jf axis w r.1
        → Stopped jf axis w
            ((elim r.0 as (λ _. Act Reply) [ ok a ↦ pure done | raise e ↦ throw e ]) r.1).1
    both (ok a, w') h = h
    both (raise e, w') h = h

jog_stop-Stopped :
    (msg : Message) (axis : ℤ) (w : World)
    → auto_running w.stat ≡ false
    → finite_int w.env.builtins (get msg "axis" null) none (some (pos 0)) none ≡ ok axis
    → Stopped (joint_flag msg) axis w (after (jog_stop msg) w)
unfolding jog_stop read_index actions
jog_stop-Stopped msg axis w idle valid =
    let jf = joint_flag msg in
    let stop : ℤ → Act Reply = λ a. stop_axis jf a >> pure done in
    subst
      (λ b.
        Stopped jf axis w
          (after (if b then pure done else (read_index (get msg "axis" null) >>= stop)) w))
      (sym idle)
      (subst
        (λ r.
          Stopped jf axis w
            (after (elim r as (λ _. Act Reply) [ ok a ↦ stop a | raise e ↦ throw e ]) w))
        (sym valid) (stop_axis_ends jf axis w))

or_else-after : (m : Act Reply) (w : World) → after (or_else m failed) w ≡ after m w
unfolding actions
or_else-after m w = both (m w)
  where
    both :
        (r : Res Reply × World)
        → ((elim r.0 as (λ _. Act Reply) [ ok a ↦ pure a | raise e ↦ pure (failed e) ]) r.1).1 ≡ r.1
    both (ok a, w') = refl
    both (raise e, w') = refl

-- Past the checks.
handled :
    (c : Command) (msg : Message) (armed : Bool) (w : World)
    → w.lcnc_connected ≡ true
    → policy_denies c armed w.shared_status ≡ none
    → read_only c ≡ none
    → handle_command c msg armed w ≡ or_else (run_handler c msg armed) failed w
unfolding handle_command guarded actions
handled c msg armed w up pass known =
    let run = or_else (run_handler c msg armed) failed in
    let checked : Option String → Act Reply =
      λ d. elim d [ some reason ↦ pure (refused reason) | none ↦ run ] in
    subst
      (λ o.
        (elim o as (λ _. Act Reply) [ some m ↦ or_else m failed | none ↦ guarded c msg armed ]) w
        ≡ run w)
      (sym known)
      (subst
        (λ b.
          (if not b
              then pure (refused "LinuxCNC not connected")
              else checked (policy_denies c armed w.shared_status))
            w
          ≡ run w)
        (sym up) (subst (λ d. checked d w ≡ run w) (sym pass) refl))

policy_passes-jog_stop :
    (armed : Bool) (o : Option StatusPayload) → policy_denies Command.jog_stop armed o ≡ none
unfolding policy_denies check_command command_gate requirements first_unmet
policy_passes-jog_stop armed none = refl
policy_passes-jog_stop armed (some p) = refl

policy_passes-estop :
    (armed : Bool) (o : Option StatusPayload) → policy_denies Command.estop armed o ≡ none
unfolding policy_denies check_command command_gate requirements first_unmet
policy_passes-estop armed none = refl
policy_passes-estop armed (some p) = refl

-- On a connected machine a `jog_stop` of a valid axis always goes out, from every client and in every
-- status, unless a program runs; and whatever comes of the call, the jog no longer counts as active.
pub jog_stop_lem :
    (msg : Message) (armed : Bool) (axis : ℤ) (w : World)
    → w.lcnc_connected ≡ true
    → auto_running w.stat ≡ false
    → finite_int w.env.builtins (get msg "axis" null) none (some (pos 0)) none ≡ ok axis
    → Stopped (joint_flag msg) axis w (after (handle_command Command.jog_stop msg armed) w)
unfolding run_handler read_only
jog_stop_lem msg armed axis w up idle valid =
    subst (λ w'. Stopped (joint_flag msg) axis w w')
      (sym (
        ap (λ r. r.1)
          (handled Command.jog_stop msg armed w up (policy_passes-jog_stop armed w.shared_status)
            refl)
        ∙ or_else-after (jog_stop msg) w))
      (jog_stop-Stopped msg axis w idle valid)

abbrev pub raises : List Outcome → Bool
raises (fails ∷ os) = true
raises _ = false

-- The stop was sent; and if the call does not raise, the hold is set and the watchdog is told.
abbrev pub Estopped : World → World → Type 0
Estopped w w' =
    (w'.calls ≡ Call.state TaskState.estop ∷ w.calls)
    × (raises w.outcomes ≡ false
        → (w'.estop_hold ≡ true) × (w'.hal ≡ HalMessage.connected false ∷ w.hal))

estop-Estopped : (w : World) → Estopped w (after Power.estop w)
unfolding Power.estop hold_estop hal_send cmd_blocking cmd_outcome actions
estop-Estopped w = ground arith

-- On a connected machine an emergency stop goes out from every client, armed or not, and in every
-- status; and unless the call raises, the gateway holds it and tells the watchdog to let go.
pub estop_lem :
    (msg : Message) (armed : Bool) (w : World)
    → w.lcnc_connected ≡ true
    → Estopped w (after (handle_command Command.estop msg armed) w)
unfolding run_handler read_only
estop_lem msg armed w up =
    subst (Estopped w)
      (sym (
        ap (λ r. r.1)
          (handled Command.estop msg armed w up (policy_passes-estop armed w.shared_status) refl)
        ∙ or_else-after Power.estop w))
      (estop-Estopped w)
