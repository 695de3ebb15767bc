-- ===== src/Fanout.antt =====
-- The status that each client gets: the differences of lcnc-gateway/ws_fanout.py, the choice between
-- them and full frames in the status loop of lcnc-gateway/gateway.py, and the client of
-- lcnc-webui/src/lcncWs.ts that puts them together.
use text.Mathlib.Text.{◌==◌ as str_eq}
use lcnc_suite.Base.{
  String, ℕ, ◌+◌, leb, Bool, true, false, not, Option, none, some, List, [], ◌∷◌, if◌then◌else◌,
}
mod View
mod Examples

-- A flat dict with values of `V`, in the order of insertion.
abbrev pub Status : Type 0 → Type 0
Status V = List (String × V)

module _ {V : Type 0} where
  unfoldable pub find_field : Status V → String → Option V
  find_field [] k = none
  find_field ((j, v) ∷ rest) k =
      let later = find_field rest k in if str_eq j k then some v else later

  unfoldable pub put_field : String → V → Status V → Status V
  put_field k v [] = (k, v) ∷ []
  put_field k v ((j, w) ∷ rest) =
      let later = put_field k v rest in if str_eq j k then (j, v) ∷ rest else (j, w) ∷ later

  -- `{...base, ...changes}` of the client; the keys of `changes` are distinct.
  unfoldable pub merge : Status V → Status V → Status V
  unfolding put_field
  merge base [] = base
  merge base ((k, v) ∷ changes) = put_field k v (merge base changes)

pub data Frame (V : Type 0) : Type 0 where
  status : Status V → Frame V
  status_delta : Status V → Frame V

-- `_last_status_data` and `_cycles_since_full` of a client's status loop.
pub record Loop (V : Type 0) : Type 0 where
  pub last : Option (Status V)
  pub cycles : ℕ

-- `equal` is `==` of two values.
module _ {V : Type 0} (equal : V → V → Bool) where
  abbrev is_kept : Option V → V → Bool
  is_kept none v = false
  is_kept (some w) v = equal w v

  unfoldable pub diff_status_data : Status V → Status V → Status V
  unfolding find_field
  diff_status_data last [] = []
  diff_status_data last ((k, v) ∷ current) =
      let rest = diff_status_data last current in
      if is_kept (find_field last k) v then rest else (k, v) ∷ rest

  -- The frame of one tick, for the full-frame interval `_DELTA_FULL_INTERVAL`.
  unfoldable pub next_frame : ℕ → Status V → Loop V → Frame V × Loop V
  unfolding diff_status_data
  next_frame interval current s = after s.last
    where
      full : Frame V × Loop V
      full = (status current, record { last = some current; cycles = 0 })

      after : Option (Status V) → Frame V × Loop V
      after none = full
      after (some last) = if leb interval s.cycles then full else (
        status_delta (diff_status_data last current),
        record { last = some current; cycles = s.cycles + 1 },
      )

-- What the client knows after a frame.
unfoldable pub receive : {V : Type 0} → Frame V → Status V → Status V
unfolding merge
receive (status d) view = d
receive (status_delta d) view = merge view d

unfoldable pub start : {V : Type 0} → Loop V
start = record { last = none; cycles = 0 }

-- The loop and the client's view after a sequence of ticks; a tick that is skipped, since the tab is
-- hidden or a send is pending, is `none`.
unfoldable pub ticks :
    {V : Type 0}
    → (V → V → Bool)
    → ℕ
    → List (Option (Status V))
    → Loop V × Status V
    → Loop V × Status V
unfolding next_frame receive
ticks equal interval [] c = c
ticks equal interval (none ∷ ts) c = ticks equal interval ts c
ticks equal interval (some d ∷ ts) (s, view) =
    let f = next_frame equal interval d s in ticks equal interval ts (f.1, receive f.0 view)
