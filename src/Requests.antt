-- ===== src/Requests.antt =====
-- The requests of the gateway to the process that reads HAL: reader_request and reader_recv_loop of
-- lcnc-gateway/hal_bridge.py, and _handle_request of lcnc-gateway/hal_reader.py.
use lcnc_suite.Base.{
  ℕ, ◌+◌, ◌==◌, Bool, true, false, ◌||◌, ◌&&◌, String, Option, none, some, List, [], ◌∷◌, ◌++◌, map,
  if◌then◌else◌, is_some,
}
mod Calls
mod Flow
mod Asked
mod Own
mod Examples

-- `pins` of `set_extra_pins`: a value that counts as missing, one that is no dict, or a dict, with
-- `none` for a pin that is no text or an empty one
pub data Pins : Type 0 where
  no_pins no_dict : Pins
  dict : List (String × Option String) → Pins

-- A request; `none` is a missing key, or a pin that is no text. The value is what `str` makes of it.
pub data Request : Type 0 where
  set_p : (pin value : Option String) → Request
  halshow_dump : Request
  set_extra_pins : Pins → Request
  unknown : Request

pub data Fault : Type 0 where
  raised not_a_dict unknown_req : Fault

-- What hal does, which stands in LinuxCNC: `none` is an exception.
pub record HalLibrary (Hal Dump : Type 0) : Type 0 where
  pub write_pin : Hal → String → String → Option Hal
  pub dump : Hal → Option Dump

pub data Answer (Dump : Type 0) : Type 0 where
  ok : Option Dump → Answer Dump
  error : Fault → Answer Dump

-- The process: HAL, and the pins that it reads beside its own
pub record Process (Hal : Type 0) : Type 0 where
  pub hal : Hal
  pub extra_pins : List (String × String)

unfoldable pub texts : List (String × Option String) → List (String × String)
texts [] = []
texts ((field, none) ∷ pins) = texts pins
texts ((field, some pin) ∷ pins) = (field, pin) ∷ texts pins

-- Why a call ends
pub data Outcome (Dump : Type 0) : Type 0 where
  answered : Answer Dump → Outcome Dump
  timed_out disconnected not_sent : Outcome Dump

-- A call of `reader_request` with its id and its end, if it has one
pub record Call (Dump : Type 0) : Type 0 where
  pub id : ℕ
  pub request : Request
  pub outcome : Option (Outcome Dump)

-- `requests` and `replies` are what is on the way, the oldest first. `handled` has the requests that the
-- process has handled, each with the state that it met, and `calls` all calls, the newest first; the code
-- keeps neither. A write and its drain are one step.
pub record World (Hal Dump : Type 0) : Type 0 where
  pub connected : Bool
  pub next_id : ℕ
  pub pending : List ℕ
  pub requests : List (ℕ × Request)
  pub replies : List (ℕ × Answer Dump)
  pub process : Process Hal
  pub handled : List (ℕ × Process Hal)
  pub calls : List (Call Dump)

-- What becomes of a write: it is done, or it raises, after the request has gone out or before.
pub data Write : Type 0 where
  written raised_after raised_before : Write

-- `connects` is also when the process accepts, and drops what is left of the connection before.
pub data Event : Type 0 where
  asks : Request → Write → Event
  handles receives : Event
  times_out : ℕ → Event
  breaks connects : Event

unfoldable pub is_pending : ℕ → List ℕ → Bool
is_pending id [] = false
is_pending id (i ∷ ids) = i == id || is_pending id ids

-- `_reader_pending.pop(id, None)`
unfoldable pub pop : ℕ → List ℕ → List ℕ
pop id [] = []
pop id (i ∷ ids) = if i == id then ids else i ∷ pop id ids

module _ {Dump : Type 0} where
  abbrev pub finish : Outcome Dump → Option (Outcome Dump) → Option (Outcome Dump)
  finish o none = some o
  finish o (some p) = some p

  -- The future of a call gets its result, unless it is done.
  unfoldable pub complete : ℕ → Outcome Dump → List (Call Dump) → List (Call Dump)
  complete id o [] = []
  complete id o (c ∷ cs) =
      if c.id == id then record c { outcome = finish o c.outcome } ∷ cs else c ∷ complete id o cs

  -- All pending futures fail.
  unfoldable pub fail_pending : List ℕ → List (Call Dump) → List (Call Dump)
  unfolding is_pending
  fail_pending ids [] = []
  fail_pending ids (c ∷ cs) =
      (if is_pending c.id ids then record c { outcome = finish disconnected c.outcome } else c)
      ∷ fail_pending ids cs

module _ {Hal Dump : Type 0} (lib : HalLibrary Hal Dump) where
  -- The answer, and the process after it
  unfoldable pub handle_request : Request → Process Hal → Answer Dump × Process Hal
  unfolding texts
  handle_request (set_p (some pin) (some value)) p = elim (lib.write_pin p.hal pin value) [
    | none ↦ (error raised, p)
    | some hal ↦ (ok none, record p { hal = hal })
  ]
  handle_request (set_p _ _) p = (error raised, p)
  handle_request halshow_dump p = elim (lib.dump p.hal) [
    | none ↦ (error raised, p)
    | some d ↦ (ok (some d), p)
  ]
  handle_request (set_extra_pins no_pins) p = (ok none, record p { extra_pins = [] })
  handle_request (set_extra_pins no_dict) p = (error not_a_dict, p)
  handle_request (set_extra_pins (dict pins)) p = (ok none, record p { extra_pins = texts pins })
  handle_request unknown p = (error unknown_req, p)

  -- `reader_request` up to its wait for the reply
  unfoldable pub reader_request : Request → Write → World Hal Dump → World Hal Dump
  reader_request r written w =
      let id = w.next_id + 1 in
      record w {
        next_id = id;
        pending = id ∷ w.pending;
        requests = w.requests ++ (id, r) ∷ [];
        calls = record { id = id; request = r; outcome = none } ∷ w.calls;
      }
  reader_request r raised_after w =
      let id = w.next_id + 1 in
      record w {
        next_id = id;
        requests = w.requests ++ (id, r) ∷ [];
        calls = record { id = id; request = r; outcome = some not_sent } ∷ w.calls;
      }
  reader_request r raised_before w =
      let id = w.next_id + 1 in
      record w {
        next_id = id;
        calls = record { id = id; request = r; outcome = some not_sent } ∷ w.calls;
      }

  -- The process takes a line, also one that is left of a lost connection.
  unfoldable pub handle : World Hal Dump → List (ℕ × Request) → World Hal Dump
  unfolding handle_request
  handle w [] = w
  handle w ((id, r) ∷ rest) =
      let (answer, p) = handle_request r w.process in
      record w {
        requests = rest;
        replies = w.replies ++ (id, answer) ∷ [];
        process = p;
        handled = (id, w.process) ∷ w.handled;
      }

  -- `reader_recv_loop` takes a line.
  unfoldable pub receive : World Hal Dump → List (ℕ × Answer Dump) → World Hal Dump
  unfolding is_pending pop complete
  receive w [] = w
  receive w ((id, answer) ∷ rest) =
      if is_pending id w.pending
      then record w {
        replies = rest;
        pending = pop id w.pending;
        calls = complete id (answered answer) w.calls;
      }
      else record w { replies = rest }

  -- The wait of `reader_request` is over, for a call that waits.
  unfoldable pub time_out : ℕ → World Hal Dump → World Hal Dump
  unfolding is_pending pop complete
  time_out id w =
      if is_pending id w.pending
      then record w { pending = pop id w.pending; calls = complete id timed_out w.calls }
      else w

  unfoldable pub step : Event → World Hal Dump → World Hal Dump
  unfolding reader_request handle receive time_out fail_pending
  step (asks r wr) w = if w.connected then reader_request r wr w else w
  step handles w = handle w w.requests
  step receives w = receive w w.replies
  step (times_out id) w = time_out id w
  step breaks w = record w {
    connected = false;
    pending = [];
    replies = [];
    calls = fail_pending w.pending w.calls;
  }
  step connects w =
      if w.connected then w else record w { connected = true; requests = []; replies = [] }

  unfoldable pub steps : List Event → World Hal Dump → World Hal Dump
  unfolding step
  steps [] w = w
  steps (e ∷ es) w = steps es (step e w)

unfoldable pub at_start : {Hal Dump : Type 0} → Process Hal → World Hal Dump
at_start p = record {
  connected = false;
  next_id = 0;
  pending = [];
  requests = [];
  replies = [];
  process = p;
  handled = [];
  calls = [];
}
