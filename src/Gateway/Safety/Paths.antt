-- ===== src/Gateway/Safety/Paths.antt =====
-- The ways through `handle_command`: a read-only command, a refusal, or a handler under `try`.
use lcnc_suite.Base.{◌≡◌, refl, Bool, true, false, Option, none, some, String, not, if◌then◌else◌}
use lcnc_suite.Value.{Message, Exn, Res, ok, raise}
use lcnc_suite.Policy.{Command}
use lcnc_suite.Gateway.World.{World, Reply, failed, refused, Act, pure, or_else, actions}
use lcnc_suite.Gateway.Frame.{after, Keeps, or_else-Keeps}
use lcnc_suite.Gateway.Dispatch.{read_only, run_handler, policy_denies, guarded, handle_command}

module _ {B : Type 0} (view : World → B) where
  or_else-at :
      {A : Type 0} (m : Act A) (f : Exn → A) (w : World)
      → view (after m w) ≡ view w
      → view (after (or_else m f) w) ≡ view w
  unfolding actions
  or_else-at {A} m f w h = both (m w) h
    where
      both :
          (r : Res A × World)
          → view r.1 ≡ view w
          → view ((elim r.0 as (λ _. Act A) [ ok a ↦ pure a | raise e ↦ pure (f e) ]) r.1).1
            ≡ view w
      both (ok a, w') e = e
      both (raise x, w') e = e

  -- Past the checks, only what the handler does can change a view.
  pub guarded-at :
      (c : Command) (msg : Message) (armed : Bool) (w : World)
      → (policy_denies c armed w.shared_status ≡ none
          → view (after (run_handler c msg armed) w) ≡ view w)
      → view (after (guarded c msg armed) w) ≡ view w
  unfolding guarded actions
  guarded-at c msg armed w h = way w.lcnc_connected (policy_denies c armed w.shared_status) refl
    where
      way :
          (up : Bool) (d : Option String)
          → policy_denies c armed w.shared_status ≡ d
          → view (
              after
                (if not up then pure (refused "LinuxCNC not connected") else (elim d [
                  | some reason ↦ pure (refused reason)
                  | none ↦ or_else (run_handler c msg armed) failed
                ]))
                w)
            ≡ view w
      way false d e = refl
      way true (some reason) e = refl
      way true none e = or_else-at (run_handler c msg armed) failed w (h e)

  pub handle_command-at :
      (c : Command) (msg : Message) (armed : Bool) (w : World)
      → ((m : Act Reply) → read_only c ≡ some m → Keeps view m)
      → (policy_denies c armed w.shared_status ≡ none
          → view (after (run_handler c msg armed) w) ≡ view w)
      → view (after (handle_command c msg armed) w) ≡ view w
  unfolding handle_command
  handle_command-at c msg armed w reads h = way (read_only c) refl
    where
      way :
          (o : Option (Act Reply))
          → read_only c ≡ o
          → view (after (elim o [ some m ↦ or_else m failed | none ↦ guarded c msg armed ]) w)
            ≡ view w
      way none e = guarded-at c msg armed w h
      way (some m) e = (or_else-Keeps m failed (reads m e)).kept w
