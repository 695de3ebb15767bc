-- ===== src/Requests/Asked.antt =====
-- A new request of reader_request in lcnc-gateway/hal_bridge.py, and what it keeps.
use lcnc_suite.Base.{◌≡◌, ℕ, suc, ◌+◌, true, false, Option, none, some, List, [], ◌∷◌, arith, All}
use lcnc_suite.Requests
use lcnc_suite.Requests.{
  Request, Write, written, raised_after, raised_before, Process, HalLibrary, Answer, Outcome,
  answered, timed_out, disconnected, not_sent, Call, World, is_pending, pop, finish, complete,
  fail_pending, handle_request,
}
use lcnc_suite.Requests.Calls.{
  is_pending-first, Falls, Falls-le, request_of, request_of-new, Waits, push-Waits,
}
use lcnc_suite.Requests.Flow.{
  Drops, Climbs, Climbs-map, Climbs-le, Climbs-append, Own, Replies, Replies-map,
}

module _ {Hal Dump : Type 0} (lib : HalLibrary Hal Dump) where
  pub record Inv (w : World Hal Dump) : Type 0 where
    pub last : ℕ
    pub falls : Falls (suc w.next_id) w.calls
    pub climbs : Climbs w.calls last w.requests w.next_id
    pub drops : Drops (suc last) w.handled
    pub replies : Replies lib w.handled w.calls w.replies
    pub own : All (Own lib w.handled) w.calls
    pub waits : All (Waits w.pending) w.calls
    pub offline : w.connected ≡ false → w.pending ≡ []

  -- The newest call
  abbrev called : World Hal Dump → Request → Option (Outcome Dump) → List (Call Dump)
  called w r q = record { id = w.next_id + 1; request = r; outcome = q } ∷ w.calls

  called-first :
      (w : World Hal Dump) (r : Request) (q : Option (Outcome Dump))
      → request_of (w.next_id + 1) (called w r q) ≡ some r
  called-first w r q = ground arith

  called-old :
      (w : World Hal Dump) (r : Request) (q : Option (Outcome Dump)) (i : Inv w) (id : ℕ)
      (s : Request)
      → request_of id w.calls ≡ some s
      → request_of id (called w r q) ≡ some s
  called-old w r q i id s e =
      request_of-new (suc w.next_id) id s (record { id = w.next_id + 1; request = r; outcome = q })
        w.calls i.falls (omega arith) e

  pub ask-Inv :
      (r : Request) (wr : Write) (w : World Hal Dump)
      → w.connected ≡ true
      → Inv w
      → Inv (Requests.reader_request lib r wr w)
  unfolding Requests.reader_request
  ask-Inv r written w on i = record {
    last = i.last;
    falls = (omega arith, Falls-le (suc w.next_id) (w.next_id + 1) w.calls i.falls (omega arith));
    climbs =
        Climbs-append (called w r none) i.last w.next_id (w.next_id + 1) r w.requests
          (Climbs-map w.calls (called w r none) i.last w.next_id w.requests (called-old w r none i)
            i.climbs)
          (omega arith) (called-first w r none);
    drops = i.drops;
    replies =
        Replies-map lib w.handled w.calls (called w r none) w.replies (called-old w r none i)
          i.replies;
    own = (tt, i.own);
    waits = (
      is_pending-first (w.next_id + 1) w.pending,
      push-Waits (w.next_id + 1) w.pending w.calls i.waits,
    );
    offline = λ off. absurd (ground (arith, off, on));
  }
  ask-Inv r raised_after w on i = record {
    last = i.last;
    falls = (omega arith, Falls-le (suc w.next_id) (w.next_id + 1) w.calls i.falls (omega arith));
    climbs =
        Climbs-append (called w r (some not_sent)) i.last w.next_id (w.next_id + 1) r w.requests
          (Climbs-map w.calls (called w r (some not_sent)) i.last w.next_id w.requests
            (called-old w r (some not_sent) i) i.climbs)
          (omega arith) (called-first w r (some not_sent));
    drops = i.drops;
    replies =
        Replies-map lib w.handled w.calls (called w r (some not_sent)) w.replies
          (called-old w r (some not_sent) i) i.replies;
    own = (tt, i.own);
    waits = (tt, i.waits);
    offline = i.offline;
  }
  ask-Inv r raised_before w on i = record {
    last = i.last;
    falls = (omega arith, Falls-le (suc w.next_id) (w.next_id + 1) w.calls i.falls (omega arith));
    climbs =
        Climbs-le (called w r (some not_sent)) i.last w.next_id (w.next_id + 1) w.requests
          (Climbs-map w.calls (called w r (some not_sent)) i.last w.next_id w.requests
            (called-old w r (some not_sent) i) i.climbs)
          (omega arith);
    drops = i.drops;
    replies =
        Replies-map lib w.handled w.calls (called w r (some not_sent)) w.replies
          (called-old w r (some not_sent) i) i.replies;
    own = (tt, i.own);
    waits = (tt, i.waits);
    offline = i.offline;
  }
