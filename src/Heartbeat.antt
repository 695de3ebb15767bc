-- ===== src/Heartbeat.antt =====
-- What the gateway tells the watchdog process: the heartbeat loop, the grace period after the last
-- client, and the messages of an emergency stop, its reset and a lost connection in
-- lcnc-gateway/gateway.py. Coroutines take turns between their waits.
use lcnc_suite.Base.{
  ℕ, suc, ◌+◌, ◌-◌, ltb, ◌==◌, Bool, true, false, not, ◌&&◌, Option, none, some, List, [], ◌∷◌,
  if◌then◌else◌, is_some,
}
pub mod Hold
mod Grace
mod Examples

-- The two fields of a message, `none` if it does not have one.
pub record Message : Type 0 where
  pub heartbeat : Option Bool
  pub connected : Option Bool

-- `grace` are the ticks that `_disconnect_grace` has done, `none` if it does not run; `sent` are the
-- messages, the newest first.
pub record Heart : Type 0 where
  pub clients : ℕ
  pub last_hb : Bool
  pub estop_hold : Bool
  pub grace : Option ℕ
  pub sent : List Message

unfoldable pub at_start : Heart
at_start = record { clients = 0; last_hb = false; estop_hold = false; grace = none; sent = [] }

-- `int(_DISCONNECT_GRACE_SEC * POLL_HZ)`
abbrev pub grace_ticks : ℕ
grace_ticks = 90

abbrev pub message : Bool → Bool → Message
message h c = record { heartbeat = some h; connected = some c }

unfoldable pub send : Message → Heart → Heart
send m s = record s { sent = m ∷ s.sent }

-- The heartbeat turns over.
unfoldable pub toggle : Bool → Heart → Heart
unfolding send
toggle connected s = send (message (not s.last_hb) connected) (record s { last_hb = not s.last_hb })

-- One pass of `_heartbeat_loop`
unfoldable pub beat : Heart → Heart
unfolding toggle
beat s = if ltb 0 s.clients then toggle (not s.estop_hold) s else s

unfoldable pub drop : Heart → Heart
unfolding send
drop s = if ltb 0 s.clients then s else send (message false false) s

-- One pass of the loop of `_disconnect_grace`, after `i` passes, or its end
unfoldable pub grace_pass : ℕ → Heart → Heart
unfolding toggle drop
grace_pass i s =
    if ltb i grace_ticks
    then (if ltb 0 s.clients
        then record s { grace = none }
        else toggle true (record s { grace = some (i + 1) }))
    else drop (record s { grace = none })

-- A turn of the task, if it runs
unfoldable pub grace_turn : Option ℕ → Heart → Heart
unfolding grace_pass
grace_turn none s = s
grace_turn (some i) s = grace_pass i s

unfoldable pub grace_tick : Heart → Heart
unfolding grace_turn
grace_tick s = grace_turn s.grace s

-- A connection: the grace task is cancelled.
unfoldable pub join : Heart → Heart
join s = record s { clients = s.clients + 1; grace = none }

-- `_start_disconnect_grace`
unfoldable pub start_grace : Heart → Heart
start_grace s = record s { grace = if is_some s.grace then s.grace else some 0 }

-- The end of a connection
unfoldable pub leave : Heart → Heart
unfolding send start_grace
leave s =
    let left = record s { clients = s.clients - 1 } in
    if ltb 0 (s.clients - 1)
    then send (message false true) left
    else start_grace (record left { estop_hold = false })

pub data Event : Type 0 where
  beats grace_ticks_on joins leaves stops resets : Event

-- An event; a client that leaves, stops or resets must be there.
unfoldable pub step : Event → Heart → Heart
unfolding beat grace_tick join leave send
step beats s = beat s
step grace_ticks_on s = grace_tick s
step joins s = join s
step leaves s = if ltb 0 s.clients then leave s else s
step stops s =
    if ltb 0 s.clients
    then send (record { heartbeat = none; connected = some false }) (record s { estop_hold = true })
    else s
step resets s =
    if ltb 0 s.clients
    then send (record { heartbeat = none; connected = some true }) (record s { estop_hold = false })
    else s

unfoldable pub steps : List Event → Heart → Heart
unfolding step
steps [] s = s
steps (e ∷ es) s = steps es (step e s)
