-- ===== src/Gateway/Safety/Sent.antt =====
-- The calls that an action sends, less those of a kind; and the actions that send none but those.
use lcnc_suite.Base.{
  ◌≡◌, refl, ◌∙◌, Bool, true, Option, none, some, List, [], ◌∷◌, if◌then◌else◌, arith,
}
use lcnc_suite.Base.Int.{ℤ}
use mathlib.Core.Option.{some-injective}
use lcnc_suite.Value.{Value, Message}
use lcnc_suite.Policy.{Command}
use lcnc_suite.Gateway.Machine.{Stat, HalMessage, TaskState, Call}
use lcnc_suite.Gateway.World.{World, Reply, Act, Outcome, returns, incomplete, fails, actions}
use lcnc_suite.Gateway.Guards.{poll_at, poll, cmd_outcome, cmd_blocking}
use lcnc_suite.Gateway.Frame.{Keeps, shapes, pure-Keeps, gets-Keeps, finally_do-Keeps, >>=-Keeps}
use lcnc_suite.Gateway.Jog
use lcnc_suite.Gateway.Power
use lcnc_suite.Gateway.Tools
use lcnc_suite.Gateway.Wcs
use lcnc_suite.Gateway.Dispatch.{current_tool, get_tool_table, read_only}

-- The calls that are not of a kind, in their order.
unfoldable pub other_calls : (Call → Bool) → List Call → List Call
other_calls kind [] = []
other_calls kind (c ∷ cs) = let rest = other_calls kind cs in if kind c then rest else c ∷ rest

unfoldable pub sent_but : (Call → Bool) → World → List Call
unfolding other_calls
sent_but kind w = other_calls kind w.calls

module _ (kind : Call → Bool) where
  abbrev sent : World → List Call
  sent = sent_but kind

  -- A call that is a stop is not seen, whatever comes of it.
  pub cmd_outcome-sent : (os : List Outcome) (w : World) → sent (cmd_outcome os w).1 ≡ sent w
  unfolding cmd_outcome sent_but
  cmd_outcome-sent [] w = refl
  cmd_outcome-sent (returns ∷ os) w = refl
  cmd_outcome-sent (incomplete ∷ os) w = refl
  cmd_outcome-sent (fails ∷ os) w = refl

  sent-stop :
      (c : Call) (w : World) → kind c ≡ true → sent (record w { calls = c ∷ w.calls }) ≡ sent w
  unfolding sent_but
  sent-stop c w h = ground arith

  pub cmd_blocking-sent : (c : Call) → kind c ≡ true → Keeps sent (cmd_blocking c)
  unfolding cmd_blocking
  cmd_blocking-sent c h = record {
    kept = λ w. cmd_outcome-sent w.outcomes (record w { calls = c ∷ w.calls }) ∙ sent-stop c w h;
  }

  pub hal_send-sent : (m : HalMessage) → Keeps sent (Power.hal_send m)
  unfolding Power.hal_send sent_but actions
  hal_send-sent m = record { kept = λ w. refl }

  pub hold_estop-sent : (b : Bool) → Keeps sent (Power.hold_estop b)
  unfolding Power.hold_estop sent_but actions
  hold_estop-sent b = record { kept = λ w. refl }

  pub estop-sent : kind (Call.state TaskState.estop) ≡ true → Keeps sent Power.estop
  unfolding Power.estop
  estop-sent h =
      >>=-Keeps (cmd_blocking (Call.state TaskState.estop)) _
        (cmd_blocking-sent (Call.state TaskState.estop) h)
        (λ _. search (shapes, hal_send-sent, hold_estop-sent) depth 8)

  pub shutdown-sent : Keeps sent Power.shutdown
  unfolding Power.shutdown sent_but actions
  shutdown-sent = record { kept = λ w. refl }

  pub table-sent : Keeps sent Wcs.table
  unfolding Wcs.table
  table-sent = gets-Keeps _

  pub read_index-sent : (v : Value) → Keeps sent (Jog.read_index v)
  unfolding Jog.read_index
  read_index-sent v = search shapes

  pub read_float-sent : (v : Value) → Keeps sent (Jog.read_float v)
  unfolding Jog.read_float
  read_float-sent v = search shapes

  poll_at-sent : (o : Option Stat) (rs : List (Option Stat)) → Keeps sent (poll_at o rs)
  unfolding poll_at sent_but
  poll_at-sent none rs = record { kept = λ w. refl }
  poll_at-sent (some s) [] = record { kept = λ w. refl }
  poll_at-sent (some s) (none ∷ rs) = record { kept = λ w. refl }
  poll_at-sent (some s) (some t ∷ rs) = record { kept = λ w. refl }

  pub poll-sent : Keeps sent poll
  unfolding poll
  poll-sent = record { kept = λ w. (poll_at-sent w.stat w.readings).kept w }

  parse_tool_table-sent : Keeps sent Tools.parse_tool_table
  unfolding Tools.parse_tool_table
  parse_tool_table-sent = search shapes

  current_tool-sent : Keeps sent current_tool
  unfolding current_tool
  current_tool-sent = search (shapes, poll-sent)

  get_tool_table-sent : Keeps sent get_tool_table
  unfolding get_tool_table
  get_tool_table-sent = search (shapes, parse_tool_table-sent, current_tool-sent) depth 12

  -- The read-only commands send nothing.
  pub read_only-sent : (c : Command) (m : Act Reply) → read_only c ≡ some m → Keeps sent m
  unfolding read_only
  read_only-sent Command.get_tool_table m e = rw (← some-injective _ _ e) get_tool_table-sent
  read_only-sent Command.get_probe_results m e = rw (← some-injective _ _ e) (pure-Keeps _)
  read_only-sent Command.get_comp_grid m e = rw (← some-injective _ _ e) (pure-Keeps _)
  read_only-sent _ m e = cc

module _ (kind : Call → Bool)
    (stops : (jf : Bool) (axis : ℤ) → kind (Call.jog_stop jf axis) ≡ true) where
  abbrev seen : World → List Call
  seen = sent_but kind

  stop_axis-sent : (jf : Bool) (axis : ℤ) → Keeps seen (Jog.stop_axis jf axis)
  unfolding Jog.stop_axis
  stop_axis-sent jf axis =
      finally_do-Keeps (cmd_blocking (Call.jog_stop jf axis)) (Jog.mark_jog_stopped jf axis)
        (cmd_blocking-sent kind (Call.jog_stop jf axis) (stops jf axis))
        (λ w. unfold sent_but Jog.mark_jog_stopped in refl)

  pub jog_stop-sent : (msg : Message) → Keeps seen (Jog.jog_stop msg)
  unfolding Jog.jog_stop
  jog_stop-sent msg = search (shapes, read_index-sent kind, stop_axis-sent) depth 12

  stop_entry-sent : (jf : Bool) (a : Value) → Keeps seen (Jog.stop_entry jf a)
  unfolding Jog.stop_entry
  stop_entry-sent jf a = search (shapes, read_index-sent kind, stop_axis-sent)

  pub jog_stop_multi-sent : (msg : Message) → Keeps seen (Jog.jog_stop_multi msg)
  unfolding Jog.jog_stop_multi
  jog_stop_multi-sent msg = search (shapes, stop_entry-sent) depth 12
