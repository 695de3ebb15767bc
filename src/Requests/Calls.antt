-- ===== src/Requests/Calls.antt =====
-- The calls of reader_request in lcnc-gateway/hal_bridge.py by their ids.
use lcnc_suite.Base.{
  ◌≡◌, ◌≢◌, refl, ℕ, ◌≤◌, ◌<◌, ◌==◌, true, false, Option, none, some, List, [], ◌∷◌, arith,
  if◌then◌else◌, if-cases, Bool-cases, All, ◌⊎◌, inl, inr,
}
use lcnc_suite.Requests.{
  Request, Outcome, Call, is_pending, pop, finish, complete, disconnected, fail_pending,
}

abbrev pub Has : {A : Type 0} → A → List A → Type 0
Has x [] = ⊥
Has x (y ∷ ys) = (x ≡ y) ⊎ Has x ys

pub pop-other :
    (id i : ℕ) (ids : List ℕ) → is_pending i ids ≡ true → i ≢ id → is_pending i (pop id ids) ≡ true
unfolding is_pending pop
pop-other id i [] h ne = h
pop-other id i (j ∷ ids) h ne = ground (arith, pop-other id i ids, h, ne)

pub pop-nil : (id : ℕ) (ids : List ℕ) → ids ≡ [] → pop id ids ≡ []
unfolding pop
pop-nil id [] h = refl
pop-nil id (i ∷ ids) h = cc

pub is_pending-first : (id : ℕ) (ids : List ℕ) → is_pending id (id ∷ ids) ≡ true
unfolding is_pending
is_pending-first id ids = ground arith

module _ {Dump : Type 0} where
  -- The ids fall, from below `n` on.
  abbrev pub Falls : ℕ → List (Call Dump) → Type 0
  Falls n [] = Unit
  Falls n (c ∷ cs) = (c.id < n) × Falls c.id cs

  abbrev pub request_of : ℕ → List (Call Dump) → Option Request
  request_of id [] = none
  request_of id (c ∷ cs) = if c.id == id then some c.request else request_of id cs

  pub Falls-le : (n m : ℕ) (cs : List (Call Dump)) → Falls n cs → n ≤ m → Falls m cs
  Falls-le n m [] h le = tt
  Falls-le n m (c ∷ cs) h le = (omega (arith, h.0), h.1)

  pub request_of-lt :
      (n id : ℕ) (r : Request) (cs : List (Call Dump))
      → Falls n cs
      → request_of id cs ≡ some r
      → id < n
  request_of-lt n id r [] h e = cc
  request_of-lt n id r (c ∷ cs) h e = elim (Bool-cases (c.id == id)) [
    | inl same ↦ ground (arith, same, h.0)
    | inr other ↦ omega (arith, h.0, request_of-lt c.id id r cs h.1 (rw other at e))
  ]

  -- A new call has none of the old ids.
  pub request_of-new :
      (n id : ℕ) (r : Request) (c : Call Dump) (cs : List (Call Dump))
      → Falls n cs
      → n ≤ c.id
      → request_of id cs ≡ some r
      → request_of id (c ∷ cs) ≡ some r
  request_of-new n id r c cs h le e =
      let lt = request_of-lt n id r cs h e in
      let other : (c.id == id) ≡ false = ground (arith, lt) in rw other e

  module _ (id : ℕ) (o : Outcome Dump) where
    pub complete-Falls : (n : ℕ) (cs : List (Call Dump)) → Falls n cs → Falls n (complete id o cs)
    unfolding complete
    complete-Falls n [] h = tt
    complete-Falls n (c ∷ cs) h =
        if-cases (Falls n) (c.id == id) _ _ (λ _. h) (λ _. (h.0, complete-Falls c.id cs h.1))

    pub request_of-complete :
        (i : ℕ) (cs : List (Call Dump)) → request_of i (complete id o cs) ≡ request_of i cs
    unfolding complete
    request_of-complete i [] = refl
    request_of-complete i (c ∷ cs) = ground (arith, request_of-complete i cs)

    -- What holds of every call, and of the one that ends when it has ended
    pub complete-All :
        (P : Call Dump → Type 0) (cs : List (Call Dump))
        → ((c : Call Dump)
            → request_of id cs ≡ some c.request
            → c.id ≡ id
            → P c
            → P (record c { outcome = finish o c.outcome }))
        → All P cs
        → All P (complete id o cs)
    unfolding complete
    complete-All P [] h a = tt
    complete-All P (c ∷ cs) h a = elim (Bool-cases (c.id == id)) [
      | inl same ↦ rw same (h c (rw same refl) (ground (arith, same)) a.0, a.1)
      | inr other ↦ rw other (a.0, complete-All P cs (λ d e. h d (rw other e)) a.1)
    ]

  -- A call without an end is pending.
  abbrev pub WaitsAt : List ℕ → ℕ → Option (Outcome Dump) → Type 0
  WaitsAt ids i none = is_pending i ids ≡ true
  WaitsAt ids i (some o) = Unit

  abbrev pub Waits : List ℕ → Call Dump → Type 0
  Waits ids c = WaitsAt ids c.id c.outcome

  finish-WaitsAt :
      (ids : List ℕ) (i : ℕ) (o : Outcome Dump) (q : Option (Outcome Dump))
      → WaitsAt ids i (finish o q)
  finish-WaitsAt ids i o none = tt
  finish-WaitsAt ids i o (some p) = tt

  pop-WaitsAt :
      (id : ℕ) (ids : List ℕ) (i : ℕ) (q : Option (Outcome Dump))
      → i ≢ id
      → WaitsAt ids i q
      → WaitsAt (pop id ids) i q
  pop-WaitsAt id ids i none ne h = pop-other id i ids h ne
  pop-WaitsAt id ids i (some p) ne h = tt

  pop-Waits :
      (id n : ℕ) (ids : List ℕ) (cs : List (Call Dump))
      → Falls n cs
      → n ≤ id
      → All (Waits ids) cs
      → All (Waits (pop id ids)) cs
  pop-Waits id n ids [] f le h = tt
  pop-Waits id n ids (c ∷ cs) f le h = (
    pop-WaitsAt id ids c.id c.outcome (ground (arith, f.0)) h.0,
    pop-Waits id c.id ids cs f.1 (omega (arith, f.0)) h.1,
  )

  pub complete-Waits :
      (id n : ℕ) (o : Outcome Dump) (ids : List ℕ) (cs : List (Call Dump))
      → Falls n cs
      → All (Waits ids) cs
      → All (Waits (pop id ids)) (complete id o cs)
  unfolding complete
  complete-Waits id n o ids [] f h = tt
  complete-Waits id n o ids (c ∷ cs) f h = elim (Bool-cases (c.id == id)) [
    | inl same ↦ rw same (
      finish-WaitsAt (pop id ids) c.id o c.outcome,
      pop-Waits id c.id ids cs f.1 (ground (arith, same)) h.1,
    )
    | inr other ↦ rw other (
      pop-WaitsAt id ids c.id c.outcome (ground (arith, other)) h.0,
      complete-Waits id c.id o ids cs f.1 h.1,
    )
  ]

  more-Waits :
      (id : ℕ) (ids : List ℕ) (i : ℕ) (q : Option (Outcome Dump))
      → WaitsAt ids i q
      → WaitsAt (id ∷ ids) i q
  unfolding is_pending
  more-Waits id ids i none h = ground (arith, h)
  more-Waits id ids i (some p) h = tt

  pub push-Waits :
      (id : ℕ) (ids : List ℕ) (cs : List (Call Dump))
      → All (Waits ids) cs
      → All (Waits (id ∷ ids)) cs
  push-Waits id ids [] h = tt
  push-Waits id ids (c ∷ cs) h = (more-Waits id ids c.id c.outcome h.0, push-Waits id ids cs h.1)

  -- After a failure of all that is pending
  pub fail_pending-Falls :
      (ids : List ℕ) (n : ℕ) (cs : List (Call Dump)) → Falls n cs → Falls n (fail_pending ids cs)
  unfolding fail_pending
  fail_pending-Falls ids n [] f = tt
  fail_pending-Falls ids n (c ∷ cs) f = elim (Bool-cases (is_pending c.id ids)) [
    | inl e ↦ rw e (f.0, fail_pending-Falls ids c.id cs f.1)
    | inr e ↦ rw e (f.0, fail_pending-Falls ids c.id cs f.1)
  ]

  pub request_of-fail_pending :
      (ids : List ℕ) (i : ℕ) (cs : List (Call Dump))
      → request_of i (fail_pending ids cs) ≡ request_of i cs
  unfolding fail_pending
  request_of-fail_pending ids i [] = refl
  request_of-fail_pending ids i (c ∷ cs) = ground (arith, request_of-fail_pending ids i cs)

  failed-WaitsAt :
      (ids : List ℕ) (i : ℕ) (q : Option (Outcome Dump))
      → is_pending i ids ≡ false
      → WaitsAt ids i q
      → WaitsAt [] i q
  failed-WaitsAt ids i none e h = cc
  failed-WaitsAt ids i (some p) e h = tt

  pub fail_pending-Waits :
      (ids : List ℕ) (cs : List (Call Dump))
      → All (Waits ids) cs
      → All (Waits []) (fail_pending ids cs)
  unfolding fail_pending
  fail_pending-Waits ids [] h = tt
  fail_pending-Waits ids (c ∷ cs) h = elim (Bool-cases (is_pending c.id ids)) [
    | inl e ↦ rw e (finish-WaitsAt [] c.id disconnected c.outcome, fail_pending-Waits ids cs h.1)
    | inr e ↦ rw e (failed-WaitsAt ids c.id c.outcome e h.0, fail_pending-Waits ids cs h.1)
  ]

  pub fail_pending-All :
      (P : Call Dump → Type 0) (ids : List ℕ) (cs : List (Call Dump))
      → ((c : Call Dump) → P c → P (record c { outcome = finish disconnected c.outcome }))
      → All P cs
      → All P (fail_pending ids cs)
  unfolding fail_pending
  fail_pending-All P ids [] h a = tt
  fail_pending-All P ids (c ∷ cs) h a = (
    if-cases P (is_pending c.id ids) _ _ (λ _. h c a.0) (λ _. a.0),
    fail_pending-All P ids cs h a.1,
  )
