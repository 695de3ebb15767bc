-- ===== src/Gateway/Handlers/Gives.antt =====
-- Actions that keep the numbers of the tool table apart, and what their results satisfy.
use mathlib.Core.Path.{subst}
use lcnc_suite.Base.{
  ◌≡◌, refl, ◌∙◌, Bool, true, false, Option, none, some, List, String, if◌then◌else◌, arith, sym,
  ap,
}
use mathlib.Core.Option.{some-injective}
use lcnc_suite.Value.{Value, Message, find, Res, ok, raise, or_raise, os_error}
use lcnc_suite.Gateway.Machine.{Tool, Call}
use lcnc_suite.Gateway.World.{
  World, Environment, Reply, Act, pure, throw, gets, modify, ◌>>=◌, actions,
}
use lcnc_suite.Gateway.Guards.{cmd_blocking, cmd_outcome, poll, poll_at}
use lcnc_suite.Gateway.Frame.{after, Keeps, shapes, require_armed-Keeps, pure-Keeps, gets-Keeps}
use lcnc_suite.Gateway.Jog.{read_index, read_float}
use lcnc_suite.Gateway.Tools.{
  parse_tool_table, write_tool_table, sort_tools, reread_all, reload_tool_table, read_length,
  text_of, if_given, with_table, number_of,
}
use lcnc_suite.Gateway.Library.{Library, change_library}
use lcnc_suite.Gateway.Handlers.Plain.{IsPlain, IsReader, IsFine, written-IsFine}

-- The file, and what reads it
abbrev pub file : World → Option (List Tool) × Environment
file w = (w.tool_file, w.env)

-- The rows of the file have different numbers and plain remarks.
abbrev pub IsSound : World → Type 0
IsSound w = (ts : List Tool) → w.tool_file ≡ some ts → IsFine w.env ts

abbrev pub IsSoundIn : Environment → World → Type 0
IsSoundIn env w = (w.env ≡ env) × ((ts : List Tool) → w.tool_file ≡ some ts → IsFine env ts)

-- An action that keeps the file sound, and what its result satisfies on a sound file.
pub record Gives (env : Environment) {A : Type 0} (Q : A → Type 0) (m : Act A) : Type 0 where
  pub gave :
      (w : World) → IsSoundIn env w → IsSoundIn env (after m w) × ((a : A) → (m w).0 ≡ ok a → Q a)

abbrev pub Any : {A : Type 0} → A → Type 0
Any a = Unit

pub ok-injective : {A : Type 0} {a b : A} → ok a ≡ ok b → a ≡ b
ok-injective {A} {a} {b} e = ap (λ r. elim r [ ok x ↦ x | raise _ ↦ a ]) e

pub Keeps-Gives : {env : Environment} {A : Type 0} (m : Act A) → Keeps file m → Gives env Any m
Keeps-Gives m h = record {
  gave = λ w sound. (
    (ap (λ f. f.1) (h.kept w) ∙ sound.0, λ ts e. sound.1 ts (sym (ap (λ f. f.0) (h.kept w)) ∙ e)),
    λ a e. tt,
  );
}

pub pure-Gives :
    {env : Environment} {A : Type 0} (Q : A → Type 0) (a : A) → Q a → Gives env Q (pure a)
unfolding pure
pure-Gives Q a h = record { gave = λ w sound. (sound, λ b e. subst Q (ok-injective e) h) }

pub >>=-Gives :
    {env : Environment} {A B : Type 0} (Q : A → Type 0) (R : B → Type 0) (m : Act A) (k : A → Act B)
    → Gives env Q m
    → ((a : A) → Q a → Gives env R (k a))
    → Gives env R (m >>= k)
unfolding actions
>>=-Gives {env} {A} {B} Q R m k h g = record { gave = λ w sound. both (m w) (h.gave w sound) }
  where
    both :
        (r : Res A × World)
        → IsSoundIn env r.1 × ((a : A) → r.0 ≡ ok a → Q a)
        → let s = (elim r.0 as (λ _. Act B) [ ok a ↦ k a | raise e ↦ throw e ]) r.1 in
          IsSoundIn env s.1 × ((b : B) → s.0 ≡ ok b → R b)
    both (ok a, w') (sound, q) = (g a (q a refl)).gave w' sound
    both (raise e, w') (sound, q) = (sound, λ b e. cc)

pub if-Gives :
    {env : Environment} {A : Type 0} (Q : A → Type 0) (b : Bool) (m n : Act A)
    → Gives env Q m
    → Gives env Q n
    → Gives env Q (if b then m else n)
if-Gives Q true m n h k = h
if-Gives Q false m n h k = k

pub or_raise-eq-ok :
    (o : Option (List Tool)) (ts : List Tool) → or_raise o os_error ≡ ok ts → o ≡ some ts
or_raise-eq-ok none ts e = cc
or_raise-eq-ok (some us) ts e = ap some (ok-injective e)

pub parse_tool_table-Gives : {env : Environment} → Gives env (IsFine env) parse_tool_table
unfolding parse_tool_table actions
parse_tool_table-Gives = record {
  gave = λ w sound. (sound, λ ts e. sound.1 ts (or_raise-eq-ok w.tool_file ts e));
}

pub write_tool_table-Gives :
    (env : Environment)
    → IsReader env
    → (ts : List Tool) → IsFine env ts
    → Gives env Any (write_tool_table ts)
unfolding write_tool_table actions
write_tool_table-Gives env reader ts h = record {
  gave = λ w sound. (
    (
      sound.0,
      λ us e. subst (IsFine env) (some-injective _ _ e) (
          subst (λ v. IsFine env (reread_all v (sort_tools ts))) (sym sound.0)
            (written-IsFine env reader ts h)),
    ),
    λ a e. tt,
  );
}

pub cmd_blocking-file : (c : Call) → Keeps file (cmd_blocking c)
unfolding cmd_blocking cmd_outcome
cmd_blocking-file c = record { kept = λ w. ground arith }

pub poll-file : Keeps file poll
unfolding poll poll_at
poll-file = record { kept = λ w. ground arith }

pub change_library-file : (f : Library → Library) → Keeps file (change_library f)
unfolding change_library actions
change_library-file f = record { kept = λ w. refl }

pub bump-file : Keeps file reload_tool_table
unfolding reload_tool_table actions cmd_blocking cmd_outcome
bump-file = record { kept = λ w. ground arith }

module _ {env : Environment} {A B : Type 0} {R : B → Type 0} where
  pub kept-Gives :
      (m : Act A) (k : A → Act B)
      → Keeps file m
      → ((a : A) → Gives env R (k a))
      → Gives env R (m >>= k)
  kept-Gives m k h g = >>=-Gives Any R m k (Keeps-Gives m h) (λ a _. g a)

  -- By what was found.
  pub found-Gives :
      (o : Option A) (f : A → Act B) (m : Act B)
      → ((a : A) → o ≡ some a → Gives env R (f a))
      → (o ≡ none → Gives env R m)
      → Gives env R (elim o [ some a ↦ f a | none ↦ m ])
  found-Gives none f m h k = k refl
  found-Gives (some a) f m h k = h a refl

pub read_index-file : (v : Value) → Keeps file (read_index v)
unfolding read_index
read_index-file v = search shapes

pub read_float-file : (v : Value) → Keeps file (read_float v)
unfolding read_float
read_float-file v = search shapes

pub read_length-file : (v : Value) → Keeps file (read_length v)
unfolding read_length
read_length-file v = search shapes

pub text_of-file : (v : Value) → Keeps file (text_of v)
unfolding text_of
text_of-file v = search shapes

pub number_of-file : (msg : Message) (k : String) → Keeps file (number_of msg k)
unfolding number_of
number_of-file msg k = search (shapes, read_index-file) depth 8

pub if_given-file :
    {A : Type 0} (msg : Message) (k : String) (old : A) (read : Value → Act A)
    → ((v : Value) → Keeps file (read v))
    → Keeps file (if_given msg k old read)
if_given-file {A} msg k old read h = way (find msg k)
  where
    way :
        (o : Option Value)
        → Keeps file (elim o as (λ _. Act A) [ none ↦ pure old | some v ↦ read v ])
    way none = pure-Keeps old
    way (some v) = h v

pub with_table-Gives :
    {env : Environment} (m : Act Reply) → Gives env Any m → Gives env Any (with_table m)
with_table-Gives m h =
    kept-Gives (gets (λ w. w.env.has_tool_table)) _ (gets-Keeps _)
      (λ b. if-Gives Any b m _ h (Keeps-Gives _ (pure-Keeps _)))

-- A remark that is read from a plain value is plain.
pub text_of-Gives :
    (env : Environment) (v : Value)
    → IsPlain env (env.text_of v)
    → Gives env (IsPlain env) (text_of v)
unfolding text_of actions
text_of-Gives env v h = record {
  gave = λ w sound.
      (sound, λ s e. subst (IsPlain env) (sym (ap (λ u. u.text_of v) sound.0) ∙ ok-injective e) h);
}

-- The end of each edit.
pub stored-Gives :
    (env : Environment)
    → IsReader env
    → (ts : List Tool) (k : Act Reply) → IsFine env ts
    → Keeps file k
    → Gives env Any (write_tool_table ts >>= λ _. k)
stored-Gives env reader ts k h g =
    >>=-Gives Any Any (write_tool_table ts) _ (write_tool_table-Gives env reader ts h)
      (λ _ _. Keeps-Gives k g)

pub dirty-file : Keeps file (modify (λ w. record w { tool_meta_dirty = true }))
unfolding modify
dirty-file = record { kept = λ w. refl }

pub ruleset tail = (shapes, bump-file, change_library-file, dirty-file)
