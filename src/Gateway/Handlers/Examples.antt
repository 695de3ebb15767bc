-- ===== src/Gateway/Handlers/Examples.antt =====
-- The theorems of single handlers in a concrete world.
use lcnc_suite.Base.{◌≡◌, refl, ◌*◌, ◌^◌, All, true, some, List, [], ◌∷◌, String, arith}
use lcnc_suite.Base.Int.{pos}
use lcnc_suite.Value.{
  str, Message, end, field, of_ℕ, unit, ok, get, find, finite_float, to_float, check_float,
}
use lcnc_suite.Gateway.Machine.{Call}
use lcnc_suite.Gateway.World.{done_scale, actions}
use lcnc_suite.Gateway.Frame.{after}
use lcnc_suite.Gateway.Guards.{cmd_blocking, cmd_outcome, require_armed}
use lcnc_suite.Gateway.Power.{
  set_feed_override, set_spindle_override, set_rapid_override, read_scale,
}
use lcnc_suite.Gateway.Vars.{chunks}
use mathlib.Core.Path.{subst}
use mathlib.Core.Option.{some-injective}
use lcnc_suite.Gateway.Tools.{save_tool, add_tool, delete_tool, renumber_tool}
use lcnc_suite.Value.{Float}
use lcnc_suite.Gateway.Handlers.Rows.{occurs}
use lcnc_suite.Gateway.Handlers.Plain.{IsFine}
use lcnc_suite.Gateway.Handlers.Gives.{IsSound}
use lcnc_suite.Gateway.Handlers.Tables.{edits-IsSound}
use lcnc_suite.Gateway.Handlers.Overrides.{SentScale, overrides_bounded}
use lcnc_suite.Gateway.Handlers.Chunks.{Fits, spread, chunks_lem}
use lcnc_suite.Gateway.Safety.Sent.{sent_but}
use lcnc_suite.Gateway.Samples.{idle_world, assignments, shop, to_seven}
use lcnc_suite.Gateway.Program.{load_file}
use lcnc_suite.Gateway.Machine.{VarLine, entry, junk}
use lcnc_suite.Gateway.Vars.{Vars, find_var, has_key, write_var_file_updates}
use lcnc_suite.Gateway.Handlers.VarJoin.{Agrees}
use lcnc_suite.Gateway.Handlers.VarFile.{write_var_file_updates_lem}
use lcnc_suite.Gateway.Handlers.Files.{is_checked, load_file_checked}

overrides_bounded_example :
    ((set_feed_override end true idle_world).0 ≡ ok (done_scale (of_ℕ 1))
      → SentScale Call.feedrate
          (pos 0)
          (pos (2 * unit))
          idle_world
          (set_feed_override end true idle_world))
    × ((set_spindle_override end true idle_world).0 ≡ ok (done_scale (of_ℕ 1))
        → SentScale Call.spindleoverride
            (pos (2 ^ 1073))
            (pos (2 * unit))
            idle_world
            (set_spindle_override end true idle_world))
    × ((set_rapid_override end true idle_world).0 ≡ ok (done_scale (of_ℕ 1))
        → SentScale Call.rapidrate
            (pos 0)
            (pos unit)
            idle_world
            (set_rapid_override end true idle_world))
overrides_bounded_example = overrides_bounded end true idle_world (done_scale (of_ℕ 1))

-- The default scale of 1.0 is sent, so that the theorem above speaks of a success.
feed_sent : (set_feed_override end true idle_world).0 ≡ ok (done_scale (of_ℕ 1))
unfolding set_feed_override read_scale finite_float to_float check_float require_armed cmd_blocking
    cmd_outcome get find actions
feed_sent = refl

chunks_lem_example :
    All Fits (chunks assignments) × (spread (chunks assignments) ≡ spread assignments)
chunks_lem_example = chunks_lem assignments (refl, (refl, tt)) (omega arith, (omega arith, tt))

shop-IsSound : IsSound shop
unfolding occurs
shop-IsSound ts e =
    subst (IsFine shop.env) (some-injective _ _ e) ((λ n. ground arith), (refl, (refl, tt)))

edits-IsSound_example :
    IsSound (after (save_tool to_seven true) shop)
    × IsSound (after (add_tool to_seven true) shop)
    × IsSound (after (delete_tool to_seven true) shop)
    × IsSound (after (renumber_tool to_seven true) shop)
edits-IsSound_example =
    edits-IsSound to_seven true shop
      (record { one_line = λ s. refl; empty = refl; same = λ s. refl }) (λ v e. refl) shop-IsSound

abbrev load_message : Message
load_message = field "path" (str "/home/cnc/nc/part.ngc") end

load_file_checked_example :
    sent_but (is_checked idle_world.env) (after (load_file load_message true) idle_world)
    ≡ sent_but (is_checked idle_world.env) idle_world
load_file_checked_example = load_file_checked load_message true idle_world

-- One key has a line, the other has none.
abbrev updates : Vars
updates = ("3014", of_ℕ 5) ∷ ("3015", of_ℕ 7) ∷ []

abbrev lines : List VarLine
lines = entry "3014" (of_ℕ 1) ∷ junk "5161" ∷ entry "5220" (of_ℕ 1) ∷ []

write_var_file_updates_lem_example :
    All (Agrees updates) (write_var_file_updates idle_world.env updates lines)
    × ((k : String) (v : Float)
        → find_var k updates ≡ some v
        → has_key k (write_var_file_updates idle_world.env updates lines) ≡ true)
unfolding find_var
write_var_file_updates_lem_example =
    write_var_file_updates_lem idle_world.env updates lines (refl, (refl, tt)) (refl, (refl, tt))
      (tt, (tt, (tt, tt)))
