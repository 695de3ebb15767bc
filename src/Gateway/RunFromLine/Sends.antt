-- ===== src/Gateway/RunFromLine/Sends.antt =====
-- What a part of a run from line sends to LinuxCNC, less the changes of mode: all of a list of calls if
-- it ends with a value, and a first part of the list however it ends.
use mathlib.Core.Path.{subst}
use lcnc_suite.Base.{◌≡◌, refl, sym, ap, ◌∙◌, Bool, true, false, List, [], ◌∷◌, ◌++◌, if◌then◌else◌}
use lcnc_suite.Value.{Res, ok, raise}
use lcnc_suite.Gateway.Machine.{Call}
use lcnc_suite.Gateway.World.{World, Act, Phase, actions}
use lcnc_suite.Gateway.World
use lcnc_suite.Gateway.Frame.{Keeps}
use lcnc_suite.Gateway.Guards.{cmd_blocking}
use lcnc_suite.Gateway.Program.{rfl_report}
use lcnc_suite.Gateway.Safety.Sent.{other_calls, sent_but, cmd_outcome-sent}
use lcnc_suite.Gateway.RunFromLine.{
  Run, Step, done, returned, raised, waiting, Task, pure, stop, bind_step, ◌>>=◌, of_result, act,
  report, require, arm_flag,
}

abbrev pub is_mode : Call → Bool
is_mode (Call.mode m) = true
is_mode _ = false

-- The calls of the world, the newest first.
abbrev pub moves : Run → List Call
moves s = sent_but is_mode s.world

-- The calls `new`, the oldest first, put before those of `old`.
unfoldable pub pushed : List Call → List Call → List Call
pushed [] old = old
pushed (c ∷ new) old = pushed new (c ∷ old)

pub pushed-append : (a b old : List Call) → pushed (a ++ b) old ≡ pushed b (pushed a old)
unfolding pushed
pushed-append [] b old = refl
pushed-append (c ∷ a) b old = pushed-append a b (c ∷ old)

pub append_nil : (a : List Call) → a ++ [] ≡ a
append_nil [] = refl
append_nil (c ∷ a) = ap (λ b. c ∷ b) (append_nil a)

pub append_assoc : (a b c : List Call) → (a ++ b) ++ c ≡ a ++ (b ++ c)
append_assoc [] b c = refl
append_assoc (x ∷ a) b c = ap (λ d. x ∷ d) (append_assoc a b c)

-- A first part of a plan.
abbrev pub IsPrefix : List Call → List Call → Type 0
IsPrefix p plan = (rest : List Call) × (p ++ rest ≡ plan)

-- What was sent, by how it ended.
abbrev pub Sent : {A : Type 0} → List Call → List Call → Step A → Type 0
Sent plan p (done a) = p ≡ plan
Sent plan p _ = IsPrefix p plan

-- From a run that has sent `old`, this one has sent a part of the plan more.
abbrev pub After : {A : Type 0} → List Call → List Call → Step A × Run → Type 0
After plan old r = (p : List Call) × (moves r.1 ≡ pushed p old) × Sent plan p r.0

pub record Sends {A : Type 0} (plan : List Call) (m : Task A) : Type 0 where
  pub sends : (s : Run) → After plan (moves s) (m s)

Sent-append :
    {A : Type 0} (p q q' : List Call) (r : Step A) → Sent q q' r → Sent (p ++ q) (p ++ q') r
Sent-append p q q' (done a) h = ap (λ l. p ++ l) h
Sent-append p q q' returned (rest, h) = (rest, append_assoc p q' rest ∙ ap (λ l. p ++ l) h)
Sent-append p q q' (raised x) (rest, h) = (rest, append_assoc p q' rest ∙ ap (λ l. p ++ l) h)
Sent-append p q q' waiting (rest, h) = (rest, append_assoc p q' rest ∙ ap (λ l. p ++ l) h)

-- A first part of a plan is one of a longer plan.
pub IsPrefix-append : (p plan q : List Call) → IsPrefix p plan → IsPrefix p (plan ++ q)
IsPrefix-append p plan q (rest, h) = (rest ++ q, sym (append_assoc p rest q) ∙ ap (λ l. l ++ q) h)

module _ {A B : Type 0} where
  bind_step-After :
      (p q old : List Call) (r : Step A × Run) (f : A → Task B)
      → After p old r
      → ((a : A) → Sends q (f a))
      → After (p ++ q) old (bind_step r f)
  unfolding bind_step
  bind_step-After p q old (done a, s) f (p', e, h) k = further ((k a).sends s)
    where
      further : After q (moves s) (f a s) → After (p ++ q) old (f a s)
      further (q', e', h') = (
        p ++ q',
        e' ∙ ap (pushed q') (e ∙ ap (λ l. pushed l old) h) ∙ sym (pushed-append p q' old),
        Sent-append p q q' (f a s).0 h',
      )
  bind_step-After p q old (returned, s) f (p', e, h) k = (p', e, IsPrefix-append p' p q h)
  bind_step-After p q old (raised x, s) f (p', e, h) k = (p', e, IsPrefix-append p' p q h)
  bind_step-After p q old (waiting, s) f (p', e, h) k = (p', e, IsPrefix-append p' p q h)

  pub >>=-Sends :
      (p q : List Call) (m : Task A) (f : A → Task B)
      → Sends p m
      → ((a : A) → Sends q (f a))
      → Sends (p ++ q) (m >>= f)
  unfolding ◌>>=◌
  >>=-Sends p q m f h k = record {
    sends = λ s. bind_step-After p q (moves s) (m s) f (h.sends s) k;
  }

pub pure-Sends : {A : Type 0} (a : A) → Sends [] (pure a)
unfolding pure pushed
pure-Sends a = record { sends = λ s. ([], refl, refl) }

pub arm_flag-Sends : (b : Bool) → Sends [] (arm_flag b)
unfolding arm_flag pushed
arm_flag-Sends b = record { sends = λ s. ([], refl, refl) }

pub if-Sends :
    {A : Type 0} (p q : List Call) (b : Bool) (m n : Task A)
    → Sends p m
    → Sends q n
    → Sends (if b then p else q) (if b then m else n)
if-Sends p q true m n h k = h
if-Sends p q false m n h k = k

pub act_if-Sends :
    {A : Type 0} (p q : List Call) (b : Bool) (m n : Act A)
    → Sends p (act m)
    → Sends q (act n)
    → Sends (if b then p else q) (act (if b then m else n))
act_if-Sends p q true m n h k = h
act_if-Sends p q false m n h k = k

pub Sends-cong :
    {A : Type 0} (p : List Call) (m n : Task A) → ((s : Run) → m s ≡ n s) → Sends p m → Sends p n
Sends-cong p m n e h = record { sends = λ s. subst (After p (moves s)) (e s) (h.sends s) }

silent-After : {A : Type 0} (old : List Call) (r : Step A × Run) → moves r.1 ≡ old → After [] old r
unfolding pushed
silent-After old (done a, s) e = ([], e, refl)
silent-After old (returned, s) e = ([], e, ([], refl))
silent-After old (raised x, s) e = ([], e, ([], refl))
silent-After old (waiting, s) e = ([], e, ([], refl))

-- A part that sends nothing.
pub silent-Sends : {A : Type 0} (m : Task A) → ((s : Run) → moves (m s).1 ≡ moves s) → Sends [] m
silent-Sends m h = record { sends = λ s. silent-After (moves s) (m s) (h s) }

-- A part of a command that sends no call but changes of mode.
pub act-Sends : {A : Type 0} (m : Act A) → Keeps (sent_but is_mode) m → Sends [] (act m)
unfolding act of_result pushed
act-Sends {A} m h = record { sends = λ s. by_result s (m s.world) (h.kept s.world) }
  where
    by_result :
        (s : Run) (r : Res A × World)
        → sent_but is_mode r.1 ≡ moves s
        → After [] (moves s) (of_result s r)
    by_result s (ok a, w) e = ([], e, refl)
    by_result s (raise x, w) e = ([], e, ([], refl))

pub report-Sends : (p : Phase) → Sends [] (report p)
unfolding report rfl_report act of_result pushed sent_but actions
report-Sends p = record { sends = λ s. ([], refl, refl) }

sent-call :
    (c : Call) (w : World)
    → is_mode c ≡ false
    → sent_but is_mode (record w { calls = c ∷ w.calls }) ≡ c ∷ sent_but is_mode w
unfolding sent_but other_calls
sent-call c w h = rw h refl

-- A call that is not a change of mode.
pub call-Sends : (c : Call) → is_mode c ≡ false → Sends (c ∷ []) (act (cmd_blocking c))
unfolding act of_result pushed cmd_blocking
call-Sends c h = record {
  sends = λ s.
      by_result s (cmd_blocking c s.world)
        (cmd_outcome-sent is_mode s.world.outcomes _ ∙ sent-call c s.world h);
}
  where
    by_result :
        (s : Run) (r : Res (Unit {0}) × World)
        → sent_but is_mode r.1 ≡ c ∷ moves s
        → After (c ∷ []) (moves s) (of_result s r)
    by_result s (ok a, w) e = (c ∷ [], e, refl)
    by_result s (raise x, w) e = (c ∷ [], e, ([], refl))

-- An early return sends nothing, whatever was planned.
pub stopped-Sends : {A : Type 0} (plan : List Call) → Sends plan (stop {A = A})
unfolding stop pushed
stopped-Sends plan = record { sends = λ s. ([], refl, (plan, refl)) }

pub require-Sends : (p : Phase) (plan : List Call) → Sends plan (require p false)
unfolding require
require-Sends p plan = >>=-Sends [] plan _ _ (report-Sends p) (λ _. stopped-Sends plan)

pub require_ok-Sends : (p : Phase) (b : Bool) → Sends [] (require p b)
unfolding require
require_ok-Sends p true = pure-Sends tt
require_ok-Sends p false = require-Sends p []

-- Three parts in a row are grouped in either way.
pub bind_assoc :
    {A B C : Type 0} (m : Task A) (f : A → Task B) (g : B → Task C) (s : Run)
    → (m >>= λ a. f a >>= g) s ≡ ((m >>= f) >>= g) s
unfolding ◌>>=◌
bind_assoc m f g s = by_step (m s) f g
  where
    by_step :
        {A B C : Type 0} (r : Step A × Run) (f : A → Task B) (g : B → Task C)
        → bind_step r (λ a. f a >>= g) ≡ bind_step (bind_step r f) g
    by_step (done a, s) f g = refl
    by_step (returned, s) f g = refl
    by_step (raised x, s) f g = refl
    by_step (waiting, s) f g = refl

-- A sequence inside a part of a command is one of parts.
pub act_bind :
    {A B : Type 0} (m : Act A) (f : A → Act B) (s : Run)
    → (act m >>= λ a. act (f a)) s ≡ act (World.◌>>=◌ m f) s
unfolding ◌>>=◌ act of_result bind_step actions
act_bind m f s = by_result (m s.world) f s
  where
    by_result :
        {A B : Type 0} (r : Res A × World.World) (f : A → Act B) (s : Run)
        → bind_step (of_result s r) (λ a. act (f a))
          ≡ of_result s (
              World.attempt
                (λ _. r)
                (λ q. elim q as (λ _. Act B) [ ok a ↦ f a | raise e ↦ World.throw e ])
                s.world)
    by_result (ok a, w) f s = refl
    by_result (raise e, w) f s = refl
