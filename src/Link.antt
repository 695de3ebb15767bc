-- ===== src/Link.antt =====
-- The gateway and the watchdog process together: what Heartbeat sends goes through watchdog_send of
-- lcnc-gateway/hal_bridge.py to the rounds of Watchdog.
use lcnc_suite.Base.{
  ℕ, zero, suc, ◌+◌, ltb, Bool, true, false, Option, none, some, List, [], ◌∷◌, ◌++◌, if◌then◌else◌,
  length,
}
use lcnc_suite.Heartbeat.{Message, Heart}
use lcnc_suite.Heartbeat as Heartbeat
use lcnc_suite.Watchdog.Events
use lcnc_suite.Watchdog.Loop.{Settings, Watchdog, accept}
use lcnc_suite.Watchdog.Events.{
  Fields, Line, malformed, message, Tick, new_client, received, closed, round,
}
mod Off
mod Pending
mod Stopped
mod Examples

abbrev pub take {ℓ} : {A : Type ℓ} → ℕ → List A → List A
take zero xs = []
take (suc n) [] = []
take (suc n) (x ∷ xs) = x ∷ take n xs

abbrev pub drop {ℓ} : {A : Type ℓ} → ℕ → List A → List A
drop zero xs = xs
drop (suc n) [] = []
drop (suc n) (x ∷ xs) = drop n xs

-- The line of a message of the heartbeat
abbrev pub line_of : Message → Line
line_of m = message (record {
  heartbeat = m.heartbeat;
  connected = m.connected;
  tool_changed = none;
  compensation_enable = none;
  compensation_method = none;
  trip_reset = false;
})

-- A message of the commands, which have neither of the heartbeat's fields
abbrev pub other_line : Fields → Line
other_line m = message (record m { heartbeat = none; connected = none })

-- `wire` are the lines that were sent and not read, the oldest first. `torn` is whether the last send
-- has left a part of a line, and `read` the count of lines that the watchdog has taken.
pub record Link : Type 0 where
  pub heart : Heart
  pub wire : List Line
  pub torn : Bool
  pub read : ℕ
  pub dog : Watchdog

-- What becomes of a `sendall`: all is sent, the time is over after a part of it or before, or it fails.
pub data Outcome : Type 0 where
  sent partly_sent timed_out failed : Outcome

-- The end of the connection, and the next one: the watchdog sees both in one round.
unfoldable pub reconnect : Settings → Tick → Link → Link
reconnect cfg k l = record l {
  wire = [];
  torn = false;
  dog = round cfg k.now k.later k.hb_ok (closed ∷ new_client ∷ []) l.dog;
}

-- `watchdog_send`. What follows a part of a line is read as one line with it.
unfoldable pub watchdog_send : Settings → Tick → Outcome → Line → Link → Link
unfolding reconnect
watchdog_send cfg k sent m l = record l {
  wire = l.wire ++ (if l.torn then malformed else m) ∷ [];
  torn = false;
}
watchdog_send cfg k partly_sent m l = record l { torn = true }
watchdog_send cfg k timed_out m l = l
watchdog_send cfg k failed m l = reconnect cfg k l

-- The message of a turn of the gateway, if there is one
abbrev pub new_message : List Message → List Message → Option Message
new_message before [] = none
new_message before (m ∷ ms) = if ltb (length before) (suc (length ms)) then some m else none

unfoldable pub send_new : Settings → Tick → Outcome → Option Message → Link → Link
unfolding watchdog_send
send_new cfg k o none l = l
send_new cfg k o (some m) l = watchdog_send cfg k o (line_of m) l

unfoldable pub gateway : Settings → Tick → Outcome → Heartbeat.Event → Link → Link
unfolding send_new
gateway cfg k o e l =
    let heart = Heartbeat.step e l.heart in
    send_new cfg k o (new_message l.heart.sent heart.sent) (record l { heart = heart })

-- A round of the watchdog that reads `count` lines; the events of the tick are not used.
unfoldable pub watch : Settings → Tick → ℕ → Link → Link
watch cfg k count l = record l {
  wire = drop count l.wire;
  read = l.read + length (take count l.wire);
  dog = round cfg k.now k.later k.hb_ok (received (take count l.wire) ∷ []) l.dog;
}

-- `k` is the round in which the watchdog sees that a connection has failed.
pub data Move : Type 0 where
  turns : (k : Tick) → Outcome → Heartbeat.Event → Move
  tells : (k : Tick) → Outcome → Fields → Move
  watches : (k : Tick) (count : ℕ) → Move

unfoldable pub step : Settings → Move → Link → Link
unfolding gateway watchdog_send watch
step cfg (turns k o e) l = gateway cfg k o e l
step cfg (tells k o m) l = watchdog_send cfg k o (other_line m) l
step cfg (watches k count) l = watch cfg k count l

unfoldable pub steps : Settings → List Move → Link → Link
unfolding step
steps cfg [] l = l
steps cfg (m ∷ ms) l = steps cfg ms (step cfg m l)

-- Both have started, and the watchdog has accepted the gateway.
unfoldable pub at_start : ℕ → Link
unfolding accept
at_start time = record {
  heart = Heartbeat.at_start;
  wire = [];
  torn = false;
  read = 0;
  dog = accept time (Events.at_start time);
}
