-- ===== src/Trip.antt =====
-- `evaluate_trip_latch` of lcnc-gateway/gateway_util.py: the operator's trip banner from the level
-- of the latch in HAL.
use lcnc_suite.Base.{
  ℕ, suc, ◌+◌, Bool, true, false, not, ◌&&◌, Option, none, some, List, [], ◌∷◌, if◌then◌else◌,
  truthy,
}
pub mod Edges
mod Examples

-- What is carried from one reading to the next.
pub record Latch : Type 0 where
  pub last_latched : Option Bool
  pub baseline_seen : Bool

-- The dict that is returned.
pub record Verdict : Type 0 where
  pub tripped : Bool
  pub faulted_on_connect : Bool
  pub latch : Latch

-- The branch of a latch that is set.
unfoldable pub on_latched : Latch → Verdict
on_latched l =
    let seen : Latch = record l { last_latched = some true } in
    if not l.baseline_seen && not (truthy l.last_latched)
    then record { tripped = false; faulted_on_connect = true; latch = seen }
    else (if l.baseline_seen && not (truthy l.last_latched)
        then record { tripped = true; faulted_on_connect = false; latch = seen }
        else record { tripped = false; faulted_on_connect = false; latch = seen })

unfoldable pub evaluate_trip_latch : Option Bool → Latch → Verdict
unfolding on_latched
evaluate_trip_latch none l = record { tripped = false; faulted_on_connect = false; latch = l }
evaluate_trip_latch (some false) l = record {
  tripped = false;
  faulted_on_connect = false;
  latch = record { last_latched = some false; baseline_seen = true };
}
evaluate_trip_latch (some true) l = on_latched l

-- The module variables at start.
abbrev pub start : Latch
start = record { last_latched = none; baseline_seen = false }

abbrev pub one_if : Bool → ℕ
one_if true = 1
one_if false = 0

-- The banners and the audit signals that a sequence of readings raises.
unfoldable pub count_trips : List (Option Bool) → Latch → ℕ
unfolding evaluate_trip_latch
count_trips [] l = 0
count_trips (r ∷ rs) l =
    let v = evaluate_trip_latch r l in one_if v.tripped + count_trips rs v.latch

unfoldable pub count_audits : List (Option Bool) → Latch → ℕ
unfolding evaluate_trip_latch
count_audits [] l = 0
count_audits (r ∷ rs) l =
    let v = evaluate_trip_latch r l in one_if v.faulted_on_connect + count_audits rs v.latch
