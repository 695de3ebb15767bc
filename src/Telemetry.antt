-- ===== src/Telemetry.antt =====
-- The batches of events that browsers post: parse_telemetry_batch of lcnc-gateway/gateway_util.py.
-- Python's methods of bytes, `json` and `str` are parameters.
use text.Mathlib.Text.{◌==◌ as str_eq}
use lcnc_suite.Base.{
  String, ℕ, ◌+◌, leb, Bool, true, false, ◌||◌, Option, none, some, List, [], ◌∷◌, ◌++◌, length,
  if◌then◌else◌,
}
use lcnc_suite.Value.{Value, str, obj, Fields, field, end, find, truth}
mod Batch
mod Examples

-- TELEMETRY_EVENTS_MAX
abbrev pub events_max : ℕ
events_max = 500

-- `(kind, fields)`
pub record Event : Type 0 where
  pub kind : String
  pub fields : Fields

-- `evt.get(k) or d`
unfoldable pub or_else : Option Value → Value → Value
unfolding truth
or_else none d = d
or_else (some v) d = if truth v then v else d

-- The fields less "kind" and "tag"
unfoldable pub other_fields : Fields → Fields
other_fields end = end
other_fields (field k v rest) =
    let others = other_fields rest in
    if str_eq k "kind" || str_eq k "tag" then others else field k v others

-- `rstrip` is what `line.strip()` leaves, `loads` is `none` where it raises, and `text_of` is `str`.
module _ {Bytes Line : Type 0} (splitlines : Bytes → List Line) (strip : Line → Line)
    (is_empty : Line → Bool) (loads : Line → Option Value) (text_of : Value → String) where
  unfoldable pub event_of : Fields → Event
  unfolding find or_else other_fields
  event_of d = record {
    kind = text_of (or_else (find d "kind") (or_else (find d "tag") (str "event")));
    fields = other_fields d;
  }

  -- What one line adds to the events and to the rejected lines.
  unfoldable pub add_line : Option Value → List Event × ℕ → List Event × ℕ
  unfolding event_of
  add_line (some (obj d)) (events, rejected) = (events ++ event_of d ∷ [], rejected)
  add_line _ (events, rejected) = (events, rejected + 1)

  unfoldable pub parse_lines : ℕ → List Line → List Event × ℕ → List Event × ℕ
  unfolding add_line
  parse_lines max_events [] acc = acc
  parse_lines max_events (l ∷ ls) (events, rejected) = parse_lines max_events ls (
      if is_empty (strip l)
      then (events, rejected)
      else (if leb max_events (length events)
          then (events, rejected + 1)
          else add_line (loads (strip l)) (events, rejected)))

  unfoldable pub parse_telemetry_batch : Bytes → ℕ → List Event × ℕ
  unfolding parse_lines
  parse_telemetry_batch raw max_events = parse_lines max_events (splitlines raw) ([], 0)
