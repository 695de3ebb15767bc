-- ===== src/Sessions/Arming.antt =====
-- How a client can come to be armed.
use mathlib.Core.Path.{subst}
use lcnc_suite.Base.{
  ◌≡◌, refl, ◌∙◌, sym, ap, ◌⊎◌, inl, inr, ℕ, ◌==◌, String, Bool, true, false, ◌&&◌, Option, List,
  [], ◌∷◌, if◌then◌else◌, if-cases, arith,
}
use lcnc_suite.Sessions.{
  Client, Sessions, find_client, change, remove, HoldState, granted, expired, no_match, peek,
  consume, armed_in, session_in, armed_at, set_armed, keep_session, resume, hello, stop_jogs,
  after_disarm, arm, acknowledge, beat, check_stall, leave, join, Event, joins, greets, arms,
  acknowledges, beats, is_checked, leaves, trips, step, is_missing,
}

-- A change that cannot arm arms nobody.
change-armed :
    (m n : ℕ) (f : Client → Client) (cs : List (ℕ × Client))
    → ((c : Client) → (f c).armed ≡ true → c.armed ≡ true)
    → armed_in (find_client m (change n f cs)) ≡ true
    → armed_in (find_client m cs) ≡ true
unfolding find_client change
change-armed m n f [] keeps h = h
change-armed m n f ((k, c) ∷ cs) keeps h =
    let ih = change-armed m n f cs keeps in let here = keeps c in ground (arith, ih, here)

-- A change of one client arms no other.
change-other :
    (m n : ℕ) (f : Client → Client) (cs : List (ℕ × Client))
    → armed_in (find_client m (change n f cs)) ≡ true
    → (m ≡ n) ⊎ (armed_in (find_client m cs) ≡ true)
unfolding find_client change
change-other m n f [] h = inr h
change-other m n f ((k, c) ∷ cs) h = let ih = change-other m n f cs in ground (arith, ih)

remove-gone : (n : ℕ) (cs : List (ℕ × Client)) → armed_in (find_client n (remove n cs)) ≡ false
unfolding find_client remove
remove-gone n [] = refl
remove-gone n ((k, c) ∷ cs) = let ih = remove-gone n cs in ground (arith, ih)

at_same :
    (m n : ℕ) (cs : List (ℕ × Client)) → m ≡ n → armed_in (find_client m (remove n cs)) ≡ false
at_same m n cs e =
    subst (λ i. armed_in (find_client i (remove n cs)) ≡ false) (sym e) (remove-gone n cs)

remove-armed :
    (m n : ℕ) (cs : List (ℕ × Client))
    → armed_in (find_client m (remove n cs)) ≡ true
    → armed_in (find_client m cs) ≡ true
unfolding find_client remove
remove-armed m n [] h = h
remove-armed m n ((k, c) ∷ cs) h =
    let ih = remove-armed m n cs in let gone = at_same m n cs in ground (arith, ih, gone)

-- The two ways to be armed: an `arm` of that client, or a `hello` of that client that asks to resume a
-- session whose hold has not expired.
abbrev pub Reason : ℕ → ℕ → Event → Sessions → Type 0
Reason now m e s =
    (e ≡ arms m true)
    ⊎ ((sid : Option String) × (e ≡ greets m sid true) × (peek now sid s.holds ≡ granted))

abbrev Armed : ℕ → Sessions → Type 0
Armed m s = armed_at m s ≡ true

keep_session-Armed :
    (m n : ℕ) (sid : Option String) (s : Sessions) → Armed m (keep_session n sid s) → Armed m s
unfolding armed_at keep_session
keep_session-Armed m n sid s =
    if-cases (λ (t : Sessions). Armed m t → Armed m s) (is_missing sid) s _ (λ _ h. h)
      (λ _ h. change-armed m n (λ c. record c { session = sid }) s.clients (λ c g. g) h)

abbrev Resumed : ℕ → ℕ → ℕ → Option String → Sessions → Type 0
Resumed now m n sid s =
    Armed m s ⊎ ((s.unacked_trip ≡ false) × (m ≡ n) × (peek now sid s.holds ≡ granted))

resume-Armed :
    (now m n : ℕ) (sid : Option String) (s : Sessions)
    → Armed m (resume now n sid s)
    → Resumed now m n sid s
unfolding armed_at resume set_armed
resume-Armed now m n sid s = way (peek now sid s.holds) refl
  where
    other :
        s.unacked_trip ≡ false
        → peek now sid s.holds ≡ granted
        → (m ≡ n) ⊎ (Armed m s)
        → Resumed now m n sid s
    other u e (inl same) = inr (u, same, e)
    other u e (inr h) = inl h

    way :
        (p : HoldState)
        → peek now sid s.holds ≡ p
        → Armed m (elim p [
          | no_match ↦ s
          | expired ↦ record s { holds = consume sid s.holds }
          | granted ↦
              if s.unacked_trip
              then s
              else set_armed now n true (record s { holds = consume sid s.holds })
        ])
        → Resumed now m n sid s
    way no_match e h = inl h
    way expired e h = inl h
    way granted e h =
        if-cases (λ (t : Sessions). Armed m t → Resumed now m n sid s) s.unacked_trip s _
          (λ _ g. inl g) (λ u g. other u e (change-other m n _ s.clients g)) h

-- Armed before, or by an event that may arm, and then no trip is unacknowledged.
abbrev Allowed : ℕ → ℕ → Event → Sessions → Type 0
Allowed now m e s = Armed m s ⊎ ((s.unacked_trip ≡ false) × Reason now m e s)

keep_session-same :
    (n : ℕ) (sid : Option String) (s : Sessions)
    → ((keep_session n sid s).unacked_trip ≡ s.unacked_trip)
      × ((keep_session n sid s).holds ≡ s.holds)
unfolding keep_session
keep_session-same n sid s =
    if-cases (λ (t : Sessions). (t.unacked_trip ≡ s.unacked_trip) × (t.holds ≡ s.holds))
      (is_missing sid) s _ (λ _. (refl, refl)) (λ _. (refl, refl))

hello-Armed :
    (now m n : ℕ) (sid : Option String) (b : Bool) (s : Sessions)
    → Armed m (hello now n sid b s)
    → Allowed now m (greets n sid b) s
unfolding hello
hello-Armed now m n sid false s h = inl (keep_session-Armed m n sid s h)
hello-Armed now m n sid true s h = known (resume-Armed now m n sid (keep_session n sid s) h)
  where
    known : Resumed now m n sid (keep_session n sid s) → Allowed now m (greets n sid true) s
    known (inl g) = inl (keep_session-Armed m n sid s g)
    known (inr (u, same, e)) =
        let (trip, holds) = keep_session-same n sid s in
        inr (
          sym trip ∙ u,
          inr (
            sid,
            ap (λ i. greets i sid true) (sym same),
            subst (λ hs. peek now sid hs ≡ granted) holds e,
          ),
        )

after_disarm-clients :
    (now n : ℕ) (sid : Option String) (s : Sessions)
    → (after_disarm now n sid s).clients ≡ s.clients
unfolding after_disarm stop_jogs
after_disarm-clients now n sid s = ground arith

disarmed : (now m n : ℕ) (s : Sessions) → Armed m (set_armed now n false s) → Armed m s
unfolding armed_at set_armed
disarmed now m n s h = change-armed m n _ s.clients (λ c g. cc) h

arm-Armed :
    (now m n : ℕ) (b : Bool) (s : Sessions) → Armed m (arm now n b s) → Allowed now m (arms n b) s
unfolding arm
arm-Armed now m n true s h =
    if-cases (λ (t : Sessions). Armed m t → Allowed now m (arms n true) s) s.unacked_trip s _
      (λ _ g. inl g)
      (λ u.
        if-cases (λ (t : Sessions). Armed m t → Allowed now m (arms n true) s)
          (armed_at n s && false) _ _ (λ e. absurd (never (armed_at n s) e))
          (λ _ g. made u (unfold armed_at set_armed in change-other m n _ s.clients g)))
      h
  where
    never : (b : Bool) → (b && false) ≡ true → ⊥
    never true e = cc
    never false e = cc

    made : s.unacked_trip ≡ false → (m ≡ n) ⊎ (Armed m s) → Allowed now m (arms n true) s
    made u (inl same) = inr (u, inl (ap (λ i. arms i true) (sym same)))
    made u (inr g) = inl g
arm-Armed now m n false s h =
    if-cases (λ (t : Sessions). Armed m t → Allowed now m (arms n false) s) (armed_at n s && true) _
      _
      (λ _ g. inl (
        disarmed now m n s (
          subst (λ cs. armed_in (find_client m cs) ≡ true)
            (after_disarm-clients now n (session_in (find_client n s.clients))
              (set_armed now n false s))
            (unfold armed_at in g))))
      (λ _ g. inl (disarmed now m n s g)) h

check_stall-Armed : (now m n : ℕ) (s : Sessions) → Armed m (check_stall now n s) → Armed m s
unfolding check_stall armed_at stop_jogs
check_stall-Armed now m n s =
    if-cases (λ (t : Sessions). Armed m t → Armed m s) _ _ s
      (λ _ h. change-armed m n (λ d. record d { armed = false }) s.clients (λ c g. cc) h) (λ _ h. h)

beat-Armed : (now m n : ℕ) (s : Sessions) → Armed m (beat now n s) → Armed m s
unfolding beat armed_at
beat-Armed now m n s h = change-armed m n (λ c. record c { last_hb = now }) s.clients (λ c g. g) h

leave-clients : (now n : ℕ) (s : Sessions) → (leave now n s).clients ≡ remove n s.clients
unfolding leave stop_jogs
leave-clients now n s = ground arith

leave-Armed : (now m n : ℕ) (s : Sessions) → Armed m (leave now n s) → Armed m s
unfolding armed_at
leave-Armed now m n s h =
    remove-armed m n s.clients
      (subst (λ cs. armed_in (find_client m cs) ≡ true) (leave-clients now n s) h)

join-Armed : (now m : ℕ) (s : Sessions) → Armed m (join now s) → Armed m s
unfolding join armed_at find_client
join-Armed now m s =
    if-cases (λ (o : Option Client). armed_in o ≡ true → Armed m s) (s.next_id == m) _ _ (λ _ h. cc)
      (λ _ h. remove-armed m s.next_id s.clients h)

-- A client that is armed after an event was armed before it, or no trip is unacknowledged and the event
-- is an `arm` of that client, or a `hello` of that client that asks to resume a session whose hold is
-- there and has not expired.
pub step_arms :
    (now m : ℕ) (e : Event) (s : Sessions)
    → armed_at m (step now e s) ≡ true
    → (armed_at m s ≡ true) ⊎ ((s.unacked_trip ≡ false) × Reason now m e s)
unfolding step
step_arms now m joins s h = inl (join-Armed now m s h)
step_arms now m (greets n sid b) s h = hello-Armed now m n sid b s h
step_arms now m (arms n b) s h = arm-Armed now m n b s h
step_arms now m acknowledges s h = inl (unfold acknowledge armed_at in h)
step_arms now m (beats n) s h = inl (beat-Armed now m n s h)
step_arms now m (is_checked n) s h = inl (check_stall-Armed now m n s h)
step_arms now m (leaves n) s h = inl (leave-Armed now m n s h)
step_arms now m trips s h = inl (unfold armed_at in h)
