-- ===== src/Trip/Edges.antt =====
-- What a sequence of readings of the trip latch raises, told by the sequence alone.
use lcnc_suite.Base.{
  ◌≡◌, refl, ℕ, ◌+◌, Bool, true, false, not, ◌&&◌, Option, none, some, List, [], ◌∷◌, truthy, arith,
  if◌then◌else◌,
}
use lcnc_suite.Trip.{
  Latch, evaluate_trip_latch, on_latched, start, one_if, count_trips, count_audits,
}

-- The readings that are known: `None` is a failed read.
unfoldable pub known : List (Option Bool) → List Bool
known [] = []
known (none ∷ rs) = known rs
known (some b ∷ rs) = b ∷ known rs

-- The changes from clear to set, after a level.
unfoldable pub rises : Bool → List Bool → ℕ
rises level [] = 0
rises level (b ∷ bs) = one_if (not level && b) + rises b bs

unfoldable pub opens_set : List Bool → ℕ
opens_set [] = 0
opens_set (b ∷ bs) = one_if b

-- A latch that was never seen clear counts as set.
abbrev level_of : Latch → Bool
level_of l = not (l.baseline_seen && not (truthy l.last_latched))

count_trips-at :
    (rs : List (Option Bool)) (l : Latch) → count_trips rs l ≡ rises (level_of l) (known rs)
unfolding count_trips evaluate_trip_latch on_latched known rises
count_trips-at [] l = refl
count_trips-at (none ∷ rs) l = let ih = count_trips-at rs l in ground arith
count_trips-at (some false ∷ rs) l =
    let ih = count_trips-at rs (evaluate_trip_latch (some false) l).latch in ground arith
count_trips-at (some true ∷ rs) l =
    let ih = count_trips-at rs (evaluate_trip_latch (some true) l).latch in ground arith

abbrev is_new : Latch → Bool
is_new l = not l.baseline_seen && not (truthy l.last_latched)

count_audits-at :
    (rs : List (Option Bool)) (l : Latch)
    → count_audits rs l ≡ (if is_new l then opens_set (known rs) else 0)
unfolding count_audits evaluate_trip_latch on_latched known opens_set
count_audits-at [] l = ground arith
count_audits-at (none ∷ rs) l = let ih = count_audits-at rs l in ground arith
count_audits-at (some false ∷ rs) l =
    let ih = count_audits-at rs (evaluate_trip_latch (some false) l).latch in ground arith
count_audits-at (some true ∷ rs) l =
    let ih = count_audits-at rs (evaluate_trip_latch (some true) l).latch in ground arith

-- One banner for each change of the known readings from clear to set.
count_trips_edges : (rs : List (Option Bool)) → count_trips rs start ≡ rises true (known rs)
count_trips_edges rs = count_trips-at rs start

-- One audit signal if the first known reading is set.
count_audits_first : (rs : List (Option Bool)) → count_audits rs start ≡ opens_set (known rs)
count_audits_first rs = count_audits-at rs start

-- From the start of the gateway, a sequence of readings raises one banner for each change of the
-- known readings from clear to set, and none for a latch that is already set at the first one; and it
-- raises one audit signal if its first known reading is set, and none otherwise.
pub evaluate_trip_latch_lem :
    (rs : List (Option Bool))
    → (count_trips rs start ≡ rises true (known rs))
      × (count_audits rs start ≡ opens_set (known rs))
evaluate_trip_latch_lem rs = (count_trips_edges rs, count_audits_first rs)
