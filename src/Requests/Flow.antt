-- ===== src/Requests/Flow.antt =====
-- What is on the way between lcnc-gateway/hal_bridge.py and lcnc-gateway/hal_reader.py.
use lcnc_suite.Base.{◌≡◌, ℕ, ◌≤◌, ◌<◌, Option, none, some, List, [], ◌∷◌, ◌++◌, arith, All, inr}
use lcnc_suite.Requests.{
  Request, Process, HalLibrary, Answer, Outcome, answered, timed_out, disconnected, not_sent, Call,
  finish, handle_request,
}
use lcnc_suite.Requests.Calls.{Has, request_of}

module _ {Hal : Type 0} where
  -- The ids of what the process has handled fall, from below `n` on.
  abbrev pub Drops : ℕ → List (ℕ × Process Hal) → Type 0
  Drops n [] = Unit
  Drops n ((id, p) ∷ hs) = (id < n) × Drops id hs

  pub Drops-le : (n m : ℕ) (hs : List (ℕ × Process Hal)) → Drops n hs → n ≤ m → Drops m hs
  Drops-le n m [] h le = tt
  Drops-le n m ((id, p) ∷ hs) h le = (omega (arith, h.0), h.1)

module _ {Dump : Type 0} where
  -- The requests on the way are those of calls, with ids that rise from `last` to `top`.
  abbrev pub Climbs : List (Call Dump) → ℕ → List (ℕ × Request) → ℕ → Type 0
  Climbs cs last [] top = last ≤ top
  Climbs cs last ((id, r) ∷ rest) top =
      (last < id) × (request_of id cs ≡ some r) × Climbs cs id rest top

  pub Climbs-map :
      (cs cs' : List (Call Dump)) (last top : ℕ) (rs : List (ℕ × Request))
      → ((id : ℕ) (r : Request) → request_of id cs ≡ some r → request_of id cs' ≡ some r)
      → Climbs cs last rs top
      → Climbs cs' last rs top
  Climbs-map cs cs' last top [] f h = h
  Climbs-map cs cs' last top ((id, r) ∷ rs) f h =
      (h.0, f id r h.1, Climbs-map cs cs' id top rs f h.2)

  pub Climbs-le :
      (cs : List (Call Dump)) (last top top' : ℕ) (rs : List (ℕ × Request))
      → Climbs cs last rs top
      → top ≤ top'
      → Climbs cs last rs top'
  Climbs-le cs last top top' [] h le = omega arith
  Climbs-le cs last top top' ((id, r) ∷ rs) h le = (h.0, h.1, Climbs-le cs id top top' rs h.2 le)

  pub Climbs-end :
      (cs : List (Call Dump)) (last top : ℕ) (rs : List (ℕ × Request))
      → Climbs cs last rs top
      → last ≤ top
  Climbs-end cs last top [] h = h
  Climbs-end cs last top ((id, r) ∷ rs) h = omega (arith, h.0, Climbs-end cs id top rs h.2)

  pub Climbs-append :
      (cs : List (Call Dump)) (last top id : ℕ) (r : Request) (rs : List (ℕ × Request))
      → Climbs cs last rs top
      → top < id
      → request_of id cs ≡ some r
      → Climbs cs last (rs ++ (id, r) ∷ []) id
  Climbs-append cs last top id r [] h lt e = (omega arith, e, omega arith)
  Climbs-append cs last top id r ((i, q) ∷ rs) h lt e =
      (h.0, h.1, Climbs-append cs i top id r rs h.2 lt e)

module _ {Hal Dump : Type 0} (lib : HalLibrary Hal Dump) where
  -- What the process made of the request in a state that it met when it handled this id
  abbrev pub Answered : List (ℕ × Process Hal) → ℕ → Request → Answer Dump → Type 0
  Answered handled id r a =
      (p : Process Hal) × Has (id, p) handled × ((handle_request lib r p).0 ≡ a)

  abbrev pub OwnAt : List (ℕ × Process Hal) → ℕ → Request → Option (Outcome Dump) → Type 0
  OwnAt handled id r none = Unit
  OwnAt handled id r (some (answered a)) = Answered handled id r a
  OwnAt handled id r (some timed_out) = Unit
  OwnAt handled id r (some disconnected) = Unit
  OwnAt handled id r (some not_sent) = Unit

  abbrev pub Own : List (ℕ × Process Hal) → Call Dump → Type 0
  Own handled c = OwnAt handled c.id c.request c.outcome

  more-OwnAt :
      (h : ℕ × Process Hal) (handled : List (ℕ × Process Hal)) (id : ℕ) (r : Request)
      (q : Option (Outcome Dump))
      → OwnAt handled id r q
      → OwnAt (h ∷ handled) id r q
  more-OwnAt h handled id r none o = tt
  more-OwnAt h handled id r (some (answered a)) (p, here, e) = (p, inr here, e)
  more-OwnAt h handled id r (some timed_out) o = tt
  more-OwnAt h handled id r (some disconnected) o = tt
  more-OwnAt h handled id r (some not_sent) o = tt

  pub more-Own :
      (h : ℕ × Process Hal) (handled : List (ℕ × Process Hal)) (cs : List (Call Dump))
      → All (Own handled) cs
      → All (Own (h ∷ handled)) cs
  more-Own h handled [] o = tt
  more-Own h handled (c ∷ cs) o =
      (more-OwnAt h handled c.id c.request c.outcome o.0, more-Own h handled cs o.1)

  pub finish-OwnAt :
      (handled : List (ℕ × Process Hal)) (id : ℕ) (r : Request) (o : Outcome Dump)
      (q : Option (Outcome Dump))
      → OwnAt handled id r (some o)
      → OwnAt handled id r q
      → OwnAt handled id r (finish o q)
  finish-OwnAt handled id r o none h k = h
  finish-OwnAt handled id r o (some p) h k = k

  -- The replies on the way are answers to the calls with their ids.
  abbrev pub Replies : List (ℕ × Process Hal) → List (Call Dump) → List (ℕ × Answer Dump) → Type 0
  Replies handled cs [] = Unit
  Replies handled cs ((id, a) ∷ rest) =
      ((r : Request) × (request_of id cs ≡ some r) × Answered handled id r a)
      × Replies handled cs rest

  pub Replies-map :
      (handled : List (ℕ × Process Hal)) (cs cs' : List (Call Dump)) (rs : List (ℕ × Answer Dump))
      → ((id : ℕ) (r : Request) → request_of id cs ≡ some r → request_of id cs' ≡ some r)
      → Replies handled cs rs
      → Replies handled cs' rs
  Replies-map handled cs cs' [] f h = tt
  Replies-map handled cs cs' ((id, a) ∷ rs) f ((r, e, k), h) =
      ((r, f id r e, k), Replies-map handled cs cs' rs f h)

  pub Replies-add :
      (h : ℕ × Process Hal) (handled : List (ℕ × Process Hal)) (cs : List (Call Dump))
      (rs : List (ℕ × Answer Dump)) (id : ℕ) (a : Answer Dump) (r : Request)
      → request_of id cs ≡ some r
      → Answered (h ∷ handled) id r a
      → Replies handled cs rs
      → Replies (h ∷ handled) cs (rs ++ (id, a) ∷ [])
  Replies-add h handled cs [] id a r e k q = ((r, e, k), tt)
  Replies-add h handled cs ((i, b) ∷ rs) id a r e k ((s, f, (p, here, g)), q) =
      ((s, f, (p, inr here, g)), Replies-add h handled cs rs id a r e k q)
