-- ===== src/Requests/Own.antt =====
-- Whose answer a request of lcnc-gateway/hal_bridge.py gets.
use mathlib.Core.Path.{subst}
use lcnc_suite.Base.{
  ◌≡◌, refl, sym, ◌∙◌, ℕ, suc, false, some, List, [], ◌∷◌, arith, if-cases, All, inl,
}
use mathlib.Core.Option.{some-injective}
use lcnc_suite.Requests
use lcnc_suite.Requests.{
  Request, Write, written, raised_after, raised_before, Process, HalLibrary, Answer, Outcome,
  answered, timed_out, disconnected, not_sent, Call, World, is_pending, pop, finish, complete,
  fail_pending, handle_request,
}
use lcnc_suite.Requests.Calls.{
  pop-nil, request_of, complete-Falls, request_of-complete, complete-All, Waits, complete-Waits,
  fail_pending-Falls, request_of-fail_pending, fail_pending-Waits, fail_pending-All,
}
use lcnc_suite.Requests.Flow.{
  Drops, Drops-le, Climbs, Climbs-map, Climbs-end, Answered, OwnAt, Own, more-Own, finish-OwnAt,
  Replies, Replies-map, Replies-add,
}
use lcnc_suite.Requests.Asked.{Inv, ask-Inv}

module _ {Hal Dump : Type 0} (lib : HalLibrary Hal Dump) where
  handle-Inv :
      (rs : List (ℕ × Request)) (w : World Hal Dump)
      → w.requests ≡ rs
      → Inv lib w
      → Inv lib (Requests.handle lib w rs)
  unfolding Requests.handle
  handle-Inv [] w e i = i
  handle-Inv ((id, r) ∷ rs) w e i =
      let climbs : Climbs w.calls i.last ((id, r) ∷ rs) w.next_id =
        subst (λ q. Climbs w.calls i.last q w.next_id) e i.climbs in
      record {
        last = id;
        falls = i.falls;
        climbs = climbs.2;
        drops = (omega arith, Drops-le _ _ w.handled i.drops (omega (arith, climbs.0)));
        replies =
            Replies-add lib (id, w.process) w.handled w.calls w.replies id _ r climbs.1
              (w.process, inl refl, refl) i.replies;
        own = more-Own lib (id, w.process) w.handled w.calls i.own;
        waits = i.waits;
        offline = i.offline;
      }

  -- A call ends that is pending.
  end-Inv :
      (id : ℕ) (o : Outcome Dump) (rest : List (ℕ × Answer Dump)) (w : World Hal Dump)
      → Inv lib w
      → ((r : Request) → request_of id w.calls ≡ some r → OwnAt lib w.handled id r (some o))
      → Replies lib w.handled w.calls rest
      → Inv lib
          (record w { replies = rest; pending = pop id w.pending; calls = complete id o w.calls })
  end-Inv id o rest w i own replies = record {
    last = i.last;
    falls = complete-Falls id o _ w.calls i.falls;
    climbs =
        Climbs-map _ _ i.last _ w.requests (λ j r e. request_of-complete id o j w.calls ∙ e)
          i.climbs;
    drops = i.drops;
    replies = Replies-map lib _ _ _ rest (λ j r e. request_of-complete id o j w.calls ∙ e) replies;
    own =
        complete-All id o (Own lib w.handled) w.calls
          (λ c e same k.
            finish-OwnAt lib w.handled c.id c.request o c.outcome
              (subst (λ j. OwnAt lib w.handled j c.request (some o)) (sym same) (own c.request e))
              k)
          i.own;
    waits = complete-Waits id _ o w.pending w.calls i.falls i.waits;
    offline = λ off. pop-nil id w.pending (i.offline off);
  }

  -- A reply that nobody waits for
  skip-Inv :
      (rest : List (ℕ × Answer Dump)) (w : World Hal Dump)
      → Inv lib w
      → Replies lib w.handled w.calls rest
      → Inv lib (record w { replies = rest })
  skip-Inv rest w i replies = record {
    last = i.last;
    falls = i.falls;
    climbs = i.climbs;
    drops = i.drops;
    replies = replies;
    own = i.own;
    waits = i.waits;
    offline = i.offline;
  }

  receive-Inv :
      (rs : List (ℕ × Answer Dump)) (w : World Hal Dump)
      → w.replies ≡ rs
      → Inv lib w
      → Inv lib (Requests.receive lib w rs)
  unfolding Requests.receive
  receive-Inv [] w e i = i
  receive-Inv ((id, a) ∷ rs) w e i =
      let ((r, here, own), rest) = subst (Replies lib w.handled w.calls) e i.replies in
      if-cases (Inv lib) (is_pending id w.pending) _ _
        (λ _.
          end-Inv id (answered a) rs w i
            (λ s f.
              subst (λ t. Answered lib w.handled id t a) (some-injective _ _ (sym here ∙ f)) own)
            rest)
        (λ _. skip-Inv rs w i rest)

  time_out-Inv : (id : ℕ) (w : World Hal Dump) → Inv lib w → Inv lib (Requests.time_out lib id w)
  unfolding Requests.time_out
  time_out-Inv id w i =
      if-cases (Inv lib) (is_pending id w.pending) _ _
        (λ _. end-Inv id timed_out w.replies w i (λ r e. tt) i.replies) (λ _. i)

  break-Inv : (w : World Hal Dump) → Inv lib w → Inv lib (Requests.step lib Requests.breaks w)
  unfolding Requests.step
  break-Inv w i = record {
    last = i.last;
    falls = fail_pending-Falls w.pending (suc w.next_id) w.calls i.falls;
    climbs =
        Climbs-map w.calls (fail_pending w.pending w.calls) i.last w.next_id w.requests
          (λ j r e. request_of-fail_pending w.pending j w.calls ∙ e) i.climbs;
    drops = i.drops;
    replies = tt;
    own =
        fail_pending-All (Own lib w.handled) w.pending w.calls
          (λ c k. finish-OwnAt lib w.handled c.id c.request disconnected c.outcome tt k) i.own;
    waits = fail_pending-Waits w.pending w.calls i.waits;
    offline = λ _. refl;
  }

  connect-Inv : (w : World Hal Dump) → Inv lib w → Inv lib (Requests.step lib Requests.connects w)
  unfolding Requests.step
  connect-Inv w i =
      if-cases (Inv lib) w.connected _ _ (λ _. i)
        (λ _. record {
          last = i.last;
          falls = i.falls;
          climbs = Climbs-end w.calls i.last w.next_id w.requests i.climbs;
          drops = i.drops;
          replies = tt;
          own = i.own;
          waits = i.waits;
          offline = λ off. absurd (ground (arith, off));
        })

  step-Inv : (e : Requests.Event) (w : World Hal Dump) → Inv lib w → Inv lib (Requests.step lib e w)
  unfolding Requests.step
  step-Inv (Requests.asks r wr) w i =
      if-cases (Inv lib) w.connected _ _ (λ on. ask-Inv lib r wr w on i) (λ _. i)
  step-Inv Requests.handles w i = handle-Inv w.requests w refl i
  step-Inv Requests.receives w i = receive-Inv w.replies w refl i
  step-Inv (Requests.times_out id) w i = time_out-Inv id w i
  step-Inv Requests.breaks w i = break-Inv w i
  step-Inv Requests.connects w i = connect-Inv w i

  steps-Inv :
      (es : List Requests.Event) (w : World Hal Dump)
      → Inv lib w
      → Inv lib (Requests.steps lib es w)
  unfolding Requests.steps
  steps-Inv [] w i = i
  steps-Inv (e ∷ es) w i = steps-Inv es (Requests.step lib e w) (step-Inv e w i)

  start-Inv : (p : Process Hal) → Inv lib (Requests.at_start p)
  unfolding Requests.at_start
  start-Inv p = record {
    last = 0;
    falls = tt;
    climbs = omega arith;
    drops = tt;
    replies = tt;
    own = tt;
    waits = tt;
    offline = λ _. refl;
  }

  -- What the callers see
  pub record IsMatched (w : World Hal Dump) : Type 0 where
    pub own : All (Own lib w.handled) w.calls
    pub once : (n : ℕ) × Drops n w.handled
    pub waits : All (Waits w.pending) w.calls
    pub offline : w.connected ≡ false → All (Waits []) w.calls

  -- After any requests, replies, timeouts and losses of the connection from the start of the gateway: a
  -- call that was answered got what the process made of its own request when it handled it; the process
  -- has handled no request twice, and all in the order of their ids; a call without an end is pending,
  -- and while there is no connection every call has an end.
  pub steps-IsMatched :
      (es : List Requests.Event) (p : Process Hal)
      → IsMatched (Requests.steps lib es (Requests.at_start p))
  steps-IsMatched es p =
      let i = steps-Inv es (Requests.at_start p) (start-Inv p) in
      record {
        own = i.own;
        once = (suc i.last, i.drops);
        waits = i.waits;
        offline = λ off.
            subst (λ ids. All (Waits ids) (Requests.steps lib es (Requests.at_start p)).calls)
              (i.offline off) i.waits;
      }
