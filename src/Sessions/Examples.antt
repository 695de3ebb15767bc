-- ===== src/Sessions/Examples.antt =====
-- The theorem on arming at a session that resumes.
use lcnc_suite.Base.{◌≡◌, ◌⊎◌, refl, true, false, some, none, [], ◌∷◌}
use lcnc_suite.Sessions.{
  Sessions, Event, greets, step, armed_at, hello, keep_session, resume, peek, find_hold, set_armed,
  find_client, change,
}
use lcnc_suite.Sessions.Arming.{Reason, step_arms}

-- Client 4 is new; the session "tab" left a hold that lasts until 9000.
abbrev waiting : Sessions
waiting = record {
  next_id = 5;
  clients = (4, record { armed = false; session = none; last_hb = 900 }) ∷ [];
  holds = ("tab", 9000) ∷ [];
  unacked_trip = false;
  ready = true;
  jog_stops = [];
}

abbrev back : Event
back = greets 4 (some "tab") true

step_arms_example :
    (armed_at 4 waiting ≡ true) ⊎ ((waiting.unacked_trip ≡ false) × Reason 1000 4 back waiting)
unfolding step hello keep_session resume peek find_hold set_armed armed_at find_client change
step_arms_example = step_arms 1000 4 back waiting refl
