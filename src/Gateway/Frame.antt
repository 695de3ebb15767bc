-- ===== src/Gateway/Frame.antt =====
-- What an action leaves alone: a view of the world that is the same after it, whether it returns or
-- raises. The rules follow the shape of an action.
use lcnc_suite.Base.{◌≡◌, refl, ◌∙◌, Bool, true, false, List, [], ◌∷◌, if◌then◌else◌}
use lcnc_suite.Value.{Value, Exn, Res, ok, raise}
use lcnc_suite.Gateway.World.{
  World, Act, pure, throw, gets, lift, modify, attempt, ◌>>=◌, finally_do, or_else, actions,
}
use lcnc_suite.Gateway.Guards.{require_armed}
use lcnc_suite.Gateway.Jog.{for_each}

-- The world after an action.
abbrev pub after : {A : Type 0} → Act A → World → World
after m w = (m w).1

-- `Keeps view m` is a family, so that `search` finds its way by the shape of `m`.
pub record Keeps {B A : Type 0} (view : World → B) (m : Act A) : Type 0 where
  pub kept : (w : World) → view (after m w) ≡ view w

module _ {B : Type 0} {view : World → B} where
  module _ {A : Type 0} where
    pub pure-Keeps : (a : A) → Keeps view (pure a)
    unfolding pure
    pure-Keeps a = record { kept = λ w. refl }

    pub throw-Keeps : (e : Exn) → Keeps view (throw {A = A} e)
    unfolding throw
    throw-Keeps e = record { kept = λ w. refl }

    pub gets-Keeps : (f : World → A) → Keeps view (gets f)
    unfolding gets
    gets-Keeps f = record { kept = λ w. refl }

    pub lift-Keeps : (r : Res A) → Keeps view (lift r)
    unfolding lift
    lift-Keeps r = record { kept = λ w. refl }

    pub if-Keeps :
        (b : Bool) (m n : Act A) → Keeps view m → Keeps view n → Keeps view (if b then m else n)
    if-Keeps true m n h k = h
    if-Keeps false m n h k = k

  pub attempt-Keeps :
      {A C : Type 0} (m : Act A) (f : Res A → Act C)
      → Keeps view m
      → ((r : Res A) → Keeps view (f r))
      → Keeps view (attempt m f)
  unfolding attempt
  attempt-Keeps m f h k = record { kept = λ w. (k (m w).0).kept (m w).1 ∙ h.kept w }

  pub >>=-Keeps :
      {A C : Type 0} (m : Act A) (f : A → Act C)
      → Keeps view m
      → ((a : A) → Keeps view (f a))
      → Keeps view (m >>= f)
  unfolding ◌>>=◌
  >>=-Keeps {A} {C} m f h k = attempt-Keeps m _ h both
    where
      both : (r : Res A) → Keeps view (elim r [ ok a ↦ f a | raise e ↦ throw {A = C} e ])
      both (ok a) = k a
      both (raise e) = throw-Keeps e

  pub or_else-Keeps :
      {A : Type 0} (m : Act A) (f : Exn → A) → Keeps view m → Keeps view (or_else m f)
  unfolding or_else
  or_else-Keeps {A} m f h = attempt-Keeps m _ h both
    where
      both : (r : Res A) → Keeps view (elim r [ ok a ↦ pure a | raise e ↦ pure (f e) ])
      both (ok a) = pure-Keeps a
      both (raise e) = pure-Keeps (f e)

  -- The last step of `finally_do` may change the world: the view must not see it.
  pub finally_do-Keeps :
      {A : Type 0} (m : Act A) (f : World → World)
      → Keeps view m
      → ((w : World) → view (f w) ≡ view w)
      → Keeps view (finally_do m f)
  unfolding finally_do
  finally_do-Keeps m f h k =
      attempt-Keeps m _ h (λ r. >>=-Keeps (modify f) _ (record { kept = k }) (λ _. lift-Keeps r))

  pub for_each-Keeps :
      (body : Value → Act (Unit {0}))
      → ((v : Value) → Keeps view (body v))
      → (vs : List Value) → Keeps view (for_each body vs)
  unfolding for_each
  for_each-Keeps body h [] = pure-Keeps tt
  for_each-Keeps body h (v ∷ vs) =
      >>=-Keeps (body v) (λ _. for_each body vs) (h v) (λ _. for_each-Keeps body h vs)

pub require_armed-Keeps :
    {B : Type 0} {view : World → B} (armed : Bool) → Keeps view (require_armed armed)
unfolding require_armed
require_armed-Keeps true = pure-Keeps tt
require_armed-Keeps false = throw-Keeps _

-- A client that is not armed goes no further than `require_armed`.
pub refused-Keeps :
    {A B : Type 0} {view : World → B} (k : Unit {0} → Act A)
    → Keeps view (require_armed false >>= k)
unfolding require_armed actions
refused-Keeps k = record { kept = λ w. refl }

pub ruleset shapes = (
  pure-Keeps, throw-Keeps, gets-Keeps, lift-Keeps, if-Keeps, attempt-Keeps, >>=-Keeps,
  or_else-Keeps, for_each-Keeps, require_armed-Keeps,
)
