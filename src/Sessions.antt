-- ===== src/Sessions.antt =====
-- Who is armed: the client states of `ws_endpoint` in lcnc-gateway/gateway.py, and the holds by which a
-- session that reconnects resumes its arming. Times are milliseconds of one clock. A session is a text
-- or missing.
use text.Mathlib.Text.{◌==◌ as str_eq}
use lcnc_suite.Base.{
  String, ℕ, ◌+◌, ltb, leb, ◌==◌, Bool, true, false, not, ◌&&◌, Option, none, some, List, [], ◌∷◌,
  if◌then◌else◌,
}
pub mod Arming
mod Examples

pub record Client : Type 0 where
  pub armed : Bool
  pub session : Option String
  pub last_hb : ℕ

-- `ready` is `CMD is not None and not _shutting_down`; `jog_stops` are the clients for whom
-- `_jog_stop_for_client` was called, the newest first.
pub record Sessions : Type 0 where
  pub next_id : ℕ
  pub clients : List (ℕ × Client)
  pub holds : List (String × ℕ)
  pub unacked_trip : Bool
  pub ready : Bool
  pub jog_stops : List ℕ

-- _ARMED_RESUME_GRACE_SEC, _RESUME_MAX_HB_AGE, and the stall time of a heartbeat.
abbrev pub grace : ℕ
grace = 10000

abbrev pub resume_max_hb_age : ℕ
resume_max_hb_age = 2000

abbrev pub stall_time : ℕ
stall_time = 3000

unfoldable pub find_client : ℕ → List (ℕ × Client) → Option Client
find_client n [] = none
find_client n ((m, c) ∷ cs) = let rest = find_client n cs in if m == n then some c else rest

-- The same clients with one of them changed.
unfoldable pub change : ℕ → (Client → Client) → List (ℕ × Client) → List (ℕ × Client)
change n f [] = []
change n f ((m, c) ∷ cs) = let rest = change n f cs in (m, if m == n then f c else c) ∷ rest

unfoldable pub remove : ℕ → List (ℕ × Client) → List (ℕ × Client)
remove n [] = []
remove n ((m, c) ∷ cs) = let rest = remove n cs in if m == n then rest else (m, c) ∷ rest

unfoldable pub find_hold : String → List (String × ℕ) → Option ℕ
find_hold s [] = none
find_hold s ((k, e) ∷ hs) = let rest = find_hold s hs in if str_eq k s then some e else rest

unfoldable pub drop_hold : String → List (String × ℕ) → List (String × ℕ)
drop_hold s [] = []
drop_hold s ((k, e) ∷ hs) = let rest = drop_hold s hs in if str_eq k s then rest else (k, e) ∷ rest

-- `_prune_armed_resume_holds`
unfoldable pub prune : ℕ → List (String × ℕ) → List (String × ℕ)
prune now [] = []
prune now ((k, e) ∷ hs) = let rest = prune now hs in if ltb e now then rest else (k, e) ∷ rest

-- `not session_id`
abbrev pub is_missing : Option String → Bool
is_missing none = true
is_missing (some s) = str_eq s ""

abbrev pub text_of : Option String → String
text_of none = ""
text_of (some s) = s

-- `_register_armed_resume_hold`
unfoldable pub register_hold : ℕ → Option String → List (String × ℕ) → List (String × ℕ)
unfolding prune drop_hold
register_hold now sid hs =
    if is_missing sid
    then hs
    else (text_of sid, now + grace) ∷ drop_hold (text_of sid) (prune now hs)

pub data HoldState : Type 0 where
  granted expired no_match : HoldState

abbrev pub state_of : ℕ → Option ℕ → HoldState
state_of now none = no_match
state_of now (some e) = if ltb e now then expired else granted

-- `_peek_armed_resume_hold`
unfoldable pub peek : ℕ → Option String → List (String × ℕ) → HoldState
unfolding find_hold
peek now sid hs = if is_missing sid then no_match else state_of now (find_hold (text_of sid) hs)

-- `_consume_armed_resume_hold`
unfoldable pub consume : Option String → List (String × ℕ) → List (String × ℕ)
unfolding drop_hold
consume sid hs = if is_missing sid then hs else drop_hold (text_of sid) hs

abbrev pub armed_in : Option Client → Bool
armed_in none = false
armed_in (some c) = c.armed

abbrev pub session_in : Option Client → Option String
session_in none = none
session_in (some c) = c.session

abbrev pub last_hb_in : Option Client → ℕ
last_hb_in none = 0
last_hb_in (some c) = c.last_hb

unfoldable pub armed_at : ℕ → Sessions → Bool
unfolding find_client
armed_at n s = armed_in (find_client n s.clients)

-- The arming of one client, with its heartbeat reset.
unfoldable pub set_armed : ℕ → ℕ → Bool → Sessions → Sessions
unfolding change
set_armed now n b s = record s {
  clients = change n (λ c. record c { armed = b; last_hb = now }) s.clients;
}

unfoldable pub keep_session : ℕ → Option String → Sessions → Sessions
unfolding change
keep_session n sid s =
    if is_missing sid
    then s
    else record s { clients = change n (λ c. record c { session = sid }) s.clients }

-- The resume that `hello` asks for.
unfoldable pub resume : ℕ → ℕ → Option String → Sessions → Sessions
unfolding peek consume set_armed
resume now n sid s = elim (peek now sid s.holds) [
  | no_match ↦ s
  | expired ↦ record s { holds = consume sid s.holds }
  | granted ↦
      if s.unacked_trip then s else set_armed now n true (record s { holds = consume sid s.holds })
]

unfoldable pub hello : ℕ → ℕ → Option String → Bool → Sessions → Sessions
unfolding keep_session resume
hello now n sid want_resume s =
    if want_resume then resume now n sid (keep_session n sid s) else keep_session n sid s

unfoldable pub stop_jogs : ℕ → Sessions → Sessions
stop_jogs n s = record s { jog_stops = n ∷ s.jog_stops }

-- What follows an explicit disarm.
unfoldable pub after_disarm : ℕ → ℕ → Option String → Sessions → Sessions
unfolding register_hold stop_jogs
after_disarm now n sid s =
    let t = if s.ready then stop_jogs n s else s in
    record t { holds = register_hold now sid t.holds }

unfoldable pub arm : ℕ → ℕ → Bool → Sessions → Sessions
unfolding armed_at set_armed after_disarm
arm now n want_armed s =
    let session = session_in (find_client n s.clients) in
    if want_armed && s.unacked_trip
    then s
    else (if armed_at n s && not want_armed
        then after_disarm now n session (set_armed now n want_armed s)
        else set_armed now n want_armed s)

-- `safety_trip_ack`
unfoldable pub acknowledge : Sessions → Sessions
acknowledge s = record s { unacked_trip = false }

unfoldable pub beat : ℕ → ℕ → Sessions → Sessions
unfolding change
beat now n s = record s { clients = change n (λ c. record c { last_hb = now }) s.clients }

-- The check of the status loop for a client whose heartbeat stalls.
unfoldable pub check_stall : ℕ → ℕ → Sessions → Sessions
unfolding armed_at change consume stop_jogs
check_stall now n s =
    let c = find_client n s.clients in
    if armed_at n s && ltb (last_hb_in c + stall_time) now
    then (let t = stop_jogs n s in
        record t {
          clients = change n (λ d. record d { armed = false }) t.clients;
          holds = consume (session_in c) t.holds;
        })
    else s

-- The `finally` of a connection.
unfoldable pub leave : ℕ → ℕ → Sessions → Sessions
unfolding armed_at remove register_hold stop_jogs
leave now n s =
    let c = find_client n s.clients in
    let t = record s { clients = remove n s.clients } in
    if armed_at n s && s.ready
    then (let u = stop_jogs n t in
        if leb now (last_hb_in c + resume_max_hb_age)
        then record u { holds = register_hold now (session_in c) u.holds }
        else u)
    else t

unfoldable pub join : ℕ → Sessions → Sessions
join now s =
    let c : Client = record { armed = false; session = none; last_hb = now } in
    record s { next_id = s.next_id + 1; clients = (s.next_id, c) ∷ remove s.next_id s.clients }

-- What a connection or the status loop handles, by the client.
pub data Event : Type 0 where
  joins : Event
  greets : ℕ → Option String → Bool → Event
  arms : ℕ → Bool → Event
  acknowledges : Event
  beats : ℕ → Event
  is_checked : ℕ → Event
  leaves : ℕ → Event
  trips : Event

-- `trips` is the banner of `evaluate_trip_latch`.
unfoldable pub step : ℕ → Event → Sessions → Sessions
unfolding join hello arm acknowledge beat check_stall leave
step now joins s = join now s
step now (greets n sid want_resume) s = hello now n sid want_resume s
step now (arms n want_armed) s = arm now n want_armed s
step now acknowledges s = acknowledge s
step now (beats n) s = beat now n s
step now (is_checked n) s = check_stall now n s
step now (leaves n) s = leave now n s
step now trips s = record s { unacked_trip = true }
