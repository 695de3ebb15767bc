-- ===== src/Gateway/RunFromLine/Order.antt =====
-- The calls of a whole run from line in lcnc-gateway/gateway.py, its clean-up included.
use lcnc_suite.Base.{◌≡◌, refl, sym, ap, ◌∙◌, ℕ, Bool, false, List, [], ◌∷◌, ◌++◌, if-cases}
use lcnc_suite.Base.Int.{pos}
use lcnc_suite.Gateway.Machine.{MdiLine, Call}
use lcnc_suite.Gateway.World.{Sequence, failed, actions}
use lcnc_suite.Gateway.Program.{rfl_report}
use lcnc_suite.Gateway.Safety.Sent.{sent_but}
use lcnc_suite.Gateway.RunFromLine.{
  Readings, Arithmetic, Run, Step, done, returned, raised, waiting, stop, bind_step, ◌>>=◌,
  of_result, act, report,
}
use lcnc_suite.Gateway.RunFromLine.Wait.{mdi_step}
use lcnc_suite.Gateway.RunFromLine.Sequence.{body, unlock, cleared, clean_up, finish, rfl_sequence}
use lcnc_suite.Gateway.RunFromLine.Sends.{
  moves, pushed, pushed-append, IsPrefix, After, stopped-Sends, append_nil,
}
use lcnc_suite.Gateway.RunFromLine.Plan.{plan, mdi_step-Sends, body-Sends}

-- From a run that has sent `old`, a first part of the plan was sent, however it ended.
abbrev pub Part : {A : Type 0} → List Call → List Call → Step A × Run → Type 0
Part plan old r = (p : List Call) × (moves r.1 ≡ pushed p old) × IsPrefix p plan

pub Part-After : {A : Type 0} (q old : List Call) (r : Step A × Run) → After q old r → Part q old r
Part-After q old (done a, s) (p, e, h) = (p, e, ([], append_nil p ∙ h))
Part-After q old (returned, s) h = h
Part-After q old (raised x, s) h = h
Part-After q old (waiting, s) h = h

Part-stop :
    {A : Type 0} (q old : List Call) (r : Step A × Run)
    → After q old (bind_step r (λ _. stop {A = A}))
    → Part q old r
unfolding bind_step stop
Part-stop q old (done a, s) h = h
Part-stop q old (returned, s) h = h
Part-stop q old (raised x, s) h = h
Part-stop q old (waiting, s) h = h

-- A step of MDI sends its line, or nothing.
mdi_step-Part :
    (text : MdiLine) (timeout : ℕ) (s : Run)
    → Part (Call.mdi text ∷ []) (moves s) (mdi_step text timeout s)
unfolding ◌>>=◌
mdi_step-Part text timeout s =
    Part-stop (Call.mdi text ∷ []) (moves s) (mdi_step text timeout s)
      ((mdi_step-Sends text timeout (λ _. stop) (stopped-Sends _) (λ _. stopped-Sends [])).sends s)

abbrev pub clear_flag : Call
clear_flag = Call.mdi (MdiLine.set_skip_flag (pos 0))

cleared-moves : (r : Step Bool × Run) → moves (cleared r).1 ≡ moves r.1
unfolding cleared unlock sent_but
cleared-moves (done b, s) = refl
cleared-moves (returned, s) = refl
cleared-moves (raised e, s) = refl
cleared-moves (waiting, s) = refl

clean_up-Part : (s : Run) → Part (clear_flag ∷ []) (moves s) (clean_up s)
unfolding clean_up unlock sent_but pushed
clean_up-Part s =
    if-cases (Part (clear_flag ∷ []) (moves s)) s.flag_armed _ _
      (λ _.
        let m = mdi_step-Part (MdiLine.set_skip_flag (pos 0)) 10000 s in
        (m.0, cleared-moves (mdi_step (MdiLine.set_skip_flag (pos 0)) 10000 s) ∙ m.1, m.2))
      (λ _. ([], refl, (clear_flag ∷ [], refl)))

-- A first part of the plan, and then the clearing of the flag or nothing.
abbrev pub Ordered : List Call → List Call → Step (Unit {0}) × Run → Type 0
Ordered q old r =
    (p : List Call) × (c : List Call) × (moves r.1 ≡ pushed (p ++ c) old)
    × IsPrefix p q
    × IsPrefix c (clear_flag ∷ [])

clean_up-Ordered :
    (q old p : List Call) (s : Run)
    → moves s ≡ pushed p old
    → IsPrefix p q
    → Ordered q old (clean_up s)
clean_up-Ordered q old p s e h =
    let m = clean_up-Part s in
    (p, m.0, m.1 ∙ ap (pushed m.0) e ∙ sym (pushed-append p m.0 old), h, m.2)

pub finish-Ordered :
    (q old : List Call) (r : Step (Unit {0}) × Run) → Part q old r → Ordered q old (finish r)
unfolding finish report act of_result rfl_report sent_but actions
finish-Ordered q old (done a, s) (p, e, h) = clean_up-Ordered q old p s e h
finish-Ordered q old (returned, s) (p, e, h) = clean_up-Ordered q old p s e h
finish-Ordered q old (raised x, s) (p, e, h) = clean_up-Ordered q old p (report failed s).1 e h
finish-Ordered q old (waiting, s) (p, e, h) =
    (p, [], e ∙ ap (λ l. pushed l old) (sym (append_nil p)), h, (clear_flag ∷ [], refl))

-- However it goes, a first part of the plan was sent, and then the clearing of the flag or nothing.
pub plan-Ordered :
    (py : Arithmetic) (r : Readings) (q : Sequence) (s : Run)
    → Ordered (plan q) (moves s) (rfl_sequence py r q s)
unfolding rfl_sequence
plan-Ordered py r q s =
    let u = record s { flag_armed = false } in
    finish-Ordered (plan q) (moves s) (body py r q u)
      (Part-After (plan q) (moves s) (body py r q u) ((body-Sends py r q).sends u))
