-- ===== src/Gateway/RunFromLine/Plan.antt =====
-- The calls of a run from line in lcnc-gateway/gateway.py, against the plan of its steps.
use lcnc_suite.Base.{
  ◌≡◌, refl, ◌∙◌, ℕ, ltb, Bool, true, false, ◌&&◌, Option, none, some, List, [], ◌∷◌, ◌++◌, ◌+◌,
  if◌then◌else◌, if-cases,
}
use lcnc_suite.Base.Int.{ℤ, pos, eqb_ℤ, ltb_ℤ}
use lcnc_suite.Value.{Value, truth, Res}
use lcnc_suite.Gateway.Machine.{Mode, MdiLine, Entry, whole, Call}
use lcnc_suite.Gateway.World.{World, Act, Reply, Phase, Sequence, gets, actions}
use lcnc_suite.Gateway.World
use lcnc_suite.Gateway.Guards.{poll, cmd_blocking, set_mode, blocked_by, reject_if_auto_running}
use lcnc_suite.Gateway.Program.{is_text, turn_spindle, start_spindle}
use lcnc_suite.Gateway.Frame.{pure-Keeps, gets-Keeps, >>=-Keeps}
use lcnc_suite.Gateway.Safety.Sent.{sent_but, poll-sent}
use lcnc_suite.Gateway.Handlers.Files.{set_mode-sent}
use lcnc_suite.Gateway.RunFromLine.{
  Readings, Arithmetic, Run, Step, Task, pure, bind_step, ◌>>=◌, act, require,
}
use lcnc_suite.Gateway.RunFromLine.Wait.{
  Seen, ends, goes_on, follow, round, wait_rounds, wait_from, dispatch, wait_interp_idle, mdi_step,
}
use lcnc_suite.Gateway.RunFromLine.Sequence.{
  must_do, measure, go_to_safe_z, position, has_target, position_first, start_program, body,
}
use lcnc_suite.Gateway.RunFromLine.Sends.{
  is_mode, moves, Sends, >>=-Sends, pure-Sends, arm_flag-Sends, if-Sends, Sends-cong, act-Sends,
  report-Sends, call-Sends, silent-Sends, require-Sends, require_ok-Sends, bind_assoc, act_bind,
  act_if-Sends, act_if-Sends,
}

poll-Sends : Sends [] (act poll)
poll-Sends = act-Sends poll (poll-sent is_mode)

mode-Sends : (m : Mode) → Sends [] (act (set_mode m))
mode-Sends m = act-Sends (set_mode m) (set_mode-sent is_mode (λ _. refl) m)

-- The wait sends nothing.
abbrev Silent : {A : Type 0} → List Call → Step A × Run → Type 0
Silent old r = moves r.1 ≡ old

follow-Silent :
    (old : List Call) (s : Run) (v : Seen) (again : Bool → Run → Step Bool × Run)
    → moves s ≡ old
    → ((b : Bool) (u : Run) → moves u ≡ old → Silent old (again b u))
    → Silent old (follow s v again)
unfolding follow
follow-Silent old s (ends b) again e h = e
follow-Silent old s (goes_on b) again e h = h b s e

round-Silent :
    (old : List Call) (t0 now : ℕ) (later : List ℕ) (started : Bool) (s : Run)
    (r : Res (Unit {0}) × World) (again : Bool → Run → Step Bool × Run)
    → sent_but is_mode r.1 ≡ old
    → ((b : Bool) (u : Run) → moves u ≡ old → Silent old (again b u))
    → Silent old (round t0 now later started s r again)
unfolding round
round-Silent old t0 now later started s (r, w) again e h =
    follow-Silent old (record s { world = w; moments = later }) _ again e h

wait_rounds-Silent :
    (old : List Call) (t0 deadline : ℕ) (ts : List ℕ) (started : Bool) (s : Run)
    → moves s ≡ old
    → Silent old (wait_rounds t0 deadline ts started s)
unfolding wait_rounds
wait_rounds-Silent old t0 deadline [] started s e = e
wait_rounds-Silent old t0 deadline (now ∷ later) started s e =
    if-cases (Silent old) (ltb now deadline) _ _
      (λ _.
        round-Silent old t0 now later started s (poll s.world) _
          ((poll-sent is_mode).kept s.world ∙ e)
          (λ b u k. wait_rounds-Silent old t0 deadline later b u k))
      (λ _. e)

wait_from-Silent : (timeout : ℕ) (s : Run) (ts : List ℕ) → Silent (moves s) (wait_from timeout s ts)
unfolding wait_from
wait_from-Silent timeout s [] = refl
wait_from-Silent timeout s (t0 ∷ later) =
    wait_rounds-Silent (moves s) t0 (t0 + timeout) later false s refl

wait-Sends : (timeout : ℕ) → Sends [] (wait_interp_idle timeout)
unfolding wait_interp_idle
wait-Sends timeout = silent-Sends _ (λ s. wait_from-Silent timeout s s.moments)

dispatch-Sends :
    {A : Type 0} (text : MdiLine) (timeout : ℕ) (k : Bool → Task A) (o : Option Reply)
    → Sends (Call.mdi text ∷ []) (k false)
    → ((b : Bool) → Sends [] (k b))
    → Sends (Call.mdi text ∷ []) (dispatch text timeout o >>= k)
unfolding dispatch pure bind_step ◌>>=◌
dispatch-Sends text timeout k (some r) h _ = Sends-cong _ (k false) _ (λ s. refl) h
dispatch-Sends text timeout k none _ h =
    >>=-Sends (Call.mdi text ∷ []) [] _ k
      (>>=-Sends [] (Call.mdi text ∷ []) (act (set_mode Mode.mdi)) _ (mode-Sends Mode.mdi) (λ _.
        >>=-Sends (Call.mdi text ∷ []) [] (act (cmd_blocking (Call.mdi text))) _
          (call-Sends (Call.mdi text) refl) (λ _. wait-Sends timeout)))
      h

reject-Sends : Sends [] (act reject_if_auto_running)
unfolding reject_if_auto_running
reject-Sends =
    act-Sends reject_if_auto_running
      (>>=-Keeps poll _ (poll-sent is_mode) (λ _. gets-Keeps (λ w. blocked_by w.stat)))

pub mdi_step-Sends :
    {A : Type 0} (text : MdiLine) (timeout : ℕ) (k : Bool → Task A)
    → Sends (Call.mdi text ∷ []) (k false)
    → ((b : Bool) → Sends [] (k b))
    → Sends (Call.mdi text ∷ []) (mdi_step text timeout >>= k)
unfolding mdi_step
mdi_step-Sends text timeout k h j =
    Sends-cong _ _ _ (bind_assoc (act reject_if_auto_running) (dispatch text timeout) k) (
      >>=-Sends [] (Call.mdi text ∷ []) _ _ reject-Sends (λ o. dispatch-Sends text timeout k o h j))

must_do-Sends :
    (text : MdiLine) (timeout : ℕ) (p : Phase) → Sends (Call.mdi text ∷ []) (must_do text timeout p)
unfolding must_do
must_do-Sends text timeout p =
    mdi_step-Sends text timeout (require p) (require-Sends p _) (require_ok-Sends p)

-- The calls of each part of the plan.
abbrev pub measure_plan : ℤ → List Call
measure_plan n = Call.mdi (MdiLine.measure_tool n) ∷ Call.mdi (MdiLine.set_skip_flag n) ∷ []

abbrev pub turn_plan : Value → ℤ → List Call
turn_plan dir speed =
    if is_text "forward" dir
    then Call.spindle_forward (whole speed) ∷ []
    else (if is_text "reverse" dir then Call.spindle_reverse (whole speed) ∷ [] else [])

abbrev pub entry_plan : Option Entry → List Call
entry_plan none = []
entry_plan (some e) = if has_target (some e) then Call.mdi (MdiLine.enter_at e) ∷ [] else []

-- The whole plan: the tool is measured and its flag set, Z goes to the safe height, X and Y to the
-- entry, the spindle turns, and then the program starts.
unfoldable pub plan : Sequence → List Call
plan q =
    let start = Call.auto_run q.start_line ∷ [] in
    let turn =
      if truth q.spindle_dir && ltb_ℤ (pos 0) q.spindle_speed
      then turn_plan q.spindle_dir q.spindle_speed
      else [] in
    let lift = if q.safe_z then Call.mdi MdiLine.move_to_safe_z ∷ [] else [] in
    let tool = if eqb_ℤ q.pre_tool (pos 0) then [] else measure_plan q.pre_tool in
    tool ++ (lift ++ (entry_plan q.entry ++ (turn ++ start)))

pub measure-Sends : (r : Readings) (n : ℤ) → Sends (measure_plan n) (measure r n)
unfolding measure
measure-Sends r n = >>=-Sends [] (measure_plan n) _ _ (report-Sends _) (λ _.
    >>=-Sends (Call.mdi (MdiLine.measure_tool n) ∷ []) _ _ _ (must_do-Sends _ _ _) (λ _.
      >>=-Sends [] _ _ _ poll-Sends (λ _. >>=-Sends [] _ _ _ (act-Sends _ (gets-Keeps _)) (λ b.
        >>=-Sends [] _ _ _ (require_ok-Sends _ b) (λ _.
          >>=-Sends [] _ _ _ (require_ok-Sends _ _)
            (λ _. >>=-Sends _ [] _ _ (must_do-Sends _ _ _) (λ _. arm_flag-Sends true)))))))

pub safe_z-Sends : (r : Readings) → Sends (Call.mdi MdiLine.move_to_safe_z ∷ []) (go_to_safe_z r)
unfolding go_to_safe_z
safe_z-Sends r = >>=-Sends [] _ _ _ (report-Sends _) (λ _.
    >>=-Sends _ [] _ _ (must_do-Sends _ _ _)
      (λ _. >>=-Sends [] _ _ _ poll-Sends (λ _. require_ok-Sends _ _)))

turn-Sends : (dir : Value) (speed : ℤ) → Sends (turn_plan dir speed) (act (turn_spindle dir speed))
unfolding turn_spindle
turn-Sends dir speed = act_if-Sends _ _ (is_text "forward" dir) _ _ (call-Sends _ refl) (
    act_if-Sends _ [] (is_text "reverse" dir) _ _ (call-Sends _ refl)
      (act-Sends (World.pure tt) (pure-Keeps tt)))

pub spindle-Sends :
    (dir : Value) (speed : ℤ)
    → Sends
        (if truth dir && ltb_ℤ (pos 0) speed then turn_plan dir speed else [])
        (act (start_spindle dir speed))
unfolding start_spindle
spindle-Sends dir speed =
    act_if-Sends _ [] (truth dir && ltb_ℤ (pos 0) speed) _ _
      (Sends-cong _ _ _ (act_bind (set_mode Mode.manual) (λ _. turn_spindle dir speed))
        (>>=-Sends [] _ _ _ (mode-Sends Mode.manual) (λ _. turn-Sends dir speed)))
      (act-Sends (World.pure tt) (pure-Keeps tt))

start-Sends : (n : ℤ) → Sends (Call.auto_run n ∷ []) (start_program n)
unfolding start_program
start-Sends n = >>=-Sends [] _ _ _ (report-Sends _) (λ _.
    >>=-Sends [] _ _ _ (mode-Sends Mode.auto) (λ _.
      >>=-Sends _ [] _ _ (call-Sends (Call.auto_run n) refl)
        (λ _. >>=-Sends [] [] _ _ (arm_flag-Sends false) (λ _. report-Sends _))))

module _ (py : Arithmetic) where
  position-Sends :
      (r : Readings) (e : Entry) → Sends (Call.mdi (MdiLine.enter_at e) ∷ []) (position py r e)
  unfolding position
  position-Sends r e = >>=-Sends [] _ _ _ (report-Sends _) (λ _.
      >>=-Sends _ [] _ _ (must_do-Sends _ _ _)
        (λ _. >>=-Sends [] _ _ _ poll-Sends (λ _. require_ok-Sends _ _)))

  pub position_first-Sends :
      (r : Readings) (e : Option Entry) → Sends (entry_plan e) (position_first py r e)
  unfolding position_first
  position_first-Sends r none = pure-Sends tt
  position_first-Sends r (some e) =
      if-Sends _ [] (has_target (some e)) _ _ (position-Sends r e) (pure-Sends tt)

  pub body-Sends : (r : Readings) (q : Sequence) → Sends (plan q) (body py r q)
  unfolding body plan
  body-Sends r q =
      >>=-Sends _ _ _ _
        (if-Sends [] (measure_plan q.pre_tool) (eqb_ℤ q.pre_tool (pos 0)) _ _ (pure-Sends tt)
          (measure-Sends r q.pre_tool))
        (λ _. >>=-Sends _ _ _ _ (if-Sends _ [] q.safe_z _ _ (safe_z-Sends r) (pure-Sends tt)) (λ _.
          >>=-Sends _ _ _ _ (position_first-Sends r q.entry) (λ _.
            >>=-Sends _ _ _ _ (spindle-Sends q.spindle_dir q.spindle_speed)
              (λ _. start-Sends q.start_line))))
