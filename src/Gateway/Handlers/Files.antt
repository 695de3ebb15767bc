-- ===== src/Gateway/Handlers/Files.antt =====
-- What `load_file` can open.
use text.Mathlib.Text.{◌==◌ as str_eq}
use lcnc_suite.Base.{
  ◌≡◌, refl, Bool, true, false, not, ◌&&◌, Option, none, some, String, if◌then◌else◌, if-cases,
  arith,
}
use lcnc_suite.Value.{Value, str, Message, get}
use lcnc_suite.Files.{validate_extension, validate_path_within}
use lcnc_suite.Gateway.Machine.{Mode, Call}
use lcnc_suite.Gateway.World.{World, Environment, Reply, done_path, Act, pure, gets, ◌>>◌, actions}
use lcnc_suite.Gateway.Guards.{
  poll, has_mode, cmd_blocking, set_mode, blocked_by, reject_if_auto_running, unless_running,
  require_armed,
}
use lcnc_suite.Gateway.Frame.{Keeps, shapes, after, pure-Keeps, gets-Keeps, if-Keeps, >>=-Keeps}
use lcnc_suite.Gateway.Safety.Sent.{sent_but, cmd_blocking-sent, poll-sent}
use lcnc_suite.Gateway.Program.{load_path, load_named, load_file}

-- A mode change, or the opening of a file that is there, in the directory of programs, and of a
-- known kind.
unfoldable pub is_checked : Environment → Call → Bool
unfolding validate_path_within validate_extension
is_checked env (Call.mode m) = true
is_checked env (Call.program_open path) =
    env.is_file path
    && (validate_path_within env.realpath path env.nc_files_dir
        && validate_extension env.extension path)
is_checked env _ = false

module _ (kind : Call → Bool) (modes : (m : Mode) → kind (Call.mode m) ≡ true) where
  pub set_mode-sent : (m : Mode) → Keeps (sent_but kind) (set_mode m)
  unfolding set_mode
  set_mode-sent m = >>=-Keeps poll _ (poll-sent kind) (λ _.
      >>=-Keeps (gets (λ w. has_mode m w.stat)) _ (gets-Keeps _) (λ same.
        if-Keeps same _ _ (pure-Keeps tt) (cmd_blocking-sent kind (Call.mode m) (modes m))))

  unless_running-sent :
      (m : Act Reply) → Keeps (sent_but kind) m → Keeps (sent_but kind) (unless_running m)
  unfolding unless_running reject_if_auto_running
  unless_running-sent m h =
      >>=-Keeps (poll >> gets (λ w. blocked_by w.stat)) _ (search (shapes, poll-sent kind) depth 6)
        both
    where
      both :
          (b : Option Reply)
          → Keeps (sent_but kind) (elim b as (λ _. Act Reply) [ some r ↦ pure r | none ↦ m ])
      both none = h
      both (some r) = pure-Keeps r

  open-sent :
      (path : String)
      → kind (Call.program_open path) ≡ true
      → Keeps (sent_but kind) (
          unless_running
            (set_mode Mode.auto >> cmd_blocking (Call.program_open path) >> pure (done_path path)))
  open-sent path h = unless_running-sent _ (
      search (shapes, set_mode-sent Mode.auto, cmd_blocking-sent kind (Call.program_open path) h)
        depth 10)

abbrev Unseen : World → World → Type 0
Unseen w w' = sent_but (is_checked w.env) w' ≡ sent_but (is_checked w.env) w

checked_modes : (env : Environment) (m : Mode) → is_checked env (Call.mode m) ≡ true
unfolding is_checked
checked_modes env m = refl

if-Unseen :
    (w : World) (b : Bool) (m n : Act Reply)
    → (b ≡ true → Unseen w (after m w))
    → (b ≡ false → Unseen w (after n w))
    → Unseen w (after (if b then m else n) w)
if-Unseen w b m n = if-cases (λ (m : Act Reply). Unseen w (after m w)) b m n

abbrev within : String → World → Bool
within path w = validate_path_within w.env.realpath path w.env.nc_files_dir

abbrev valid : String → World → Bool
valid path w = validate_extension w.env.extension path

all_checked :
    (path : String) (w : World)
    → not (w.env.is_file path) ≡ false
    → not (within path w) ≡ false
    → not (valid path w) ≡ false
    → is_checked w.env (Call.program_open path) ≡ true
unfolding is_checked
all_checked path w a b c = ground arith

load_path-sent : (path : String) (w : World) → Unseen w (after (load_path path) w)
unfolding load_path actions
load_path-sent path w =
    if-Unseen w (not (w.env.is_file path)) _ _ (λ _. refl)
      (λ there.
        if-Unseen w (not (within path w)) _ _ (λ _. refl)
          (λ inside.
            if-Unseen w (not (valid path w)) _ _ (λ _. refl)
              (λ known.
                (open-sent (is_checked w.env) (checked_modes w.env) path
                    (all_checked path w there inside known)).kept
                  w)))

load_named-sent : (v : Value) (w : World) → Unseen w (after (load_named v) w)
unfolding load_named actions
load_named-sent (str s) w =
    if-Unseen w (str_eq s "") _ _ (λ _. refl) (λ _. load_path-sent (w.env.abspath s) w)
load_named-sent _ w = refl

-- `load_file` opens nothing but a file that is there, whose resolved path lies in the directory of
-- the programs, and whose extension is allowed; the only other calls it sends change the mode.
pub load_file_checked :
    (msg : Message) (armed : Bool) (w : World)
    → sent_but (is_checked w.env) (after (load_file msg armed) w) ≡ sent_but (is_checked w.env) w
unfolding load_file require_armed actions
load_file_checked msg true w = load_named-sent (get msg "path" (str "")) w
load_file_checked msg false w = refl
