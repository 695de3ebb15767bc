-- ===== src/Timer/Clock.antt =====
-- What is said of polls, of their times and of the times that are reported.
use lcnc_suite.Base.{
  ◌≡◌, ℕ, ◌+◌, ◌≤◌, Bool, true, false, not, ◌&&◌, Option, none, some, List, [], ◌∷◌, if◌then◌else◌,
}
use lcnc_suite.Timer.{Timer, Millis, Poll, is_active, is_paused, update_program_timer}

-- The marks of a run, at the time `last` of a poll: it began, and then paused, no later than that; and
-- a program that was active has begun.
unfoldable pub IsTimed : ℕ → Bool → Option ℕ → Option ℕ → Type 0
IsTimed last active none none = active ≡ false
IsTimed last active none (some q) = false ≡ true
IsTimed last active (some t) none = t ≤ last
IsTimed last active (some t) (some q) = (t ≤ q) × (q ≤ last)

abbrev pub Timed : ℕ → Bool → Timer → Type 0
Timed last active s = IsTimed last active s.start_mono s.pause_start_mono

-- A reported time falls by no more than `slack` milliseconds, and there is one where there was one.
unfoldable pub IsBelow : ℕ → Option ℕ → Option ℕ → Type 0
IsBelow slack none b = Unit
IsBelow slack (some a) none = false ≡ true
IsBelow slack (some a) (some b) = a ≤ b + slack

-- The poll finds a program that the one before did not.
abbrev pub begins : Poll → Timer → Bool
begins p s = is_active p.interp_state && not s.active_last

-- The poll finds a program at work that the one before found paused.
abbrev pub resumes : Poll → Timer → Bool
resumes p s = is_active p.interp_state && (not (is_paused p) && s.paused_last)

abbrev pub slip : Poll → Timer → ℕ
slip p s = if resumes p s then 1 else 0

-- What the float arithmetic of `int((b - a) * 1000)` keeps of the exact one: no time has passed at the
-- start, rounding and cutting never change the order, and the parts of a time exceed it by no more than
-- the one millisecond that a part may be rounded up to, for times up to a horizon, beyond which a float
-- of milliseconds is no longer exact to a fraction of one.
pub record IsClock (ms : Millis) (horizon : ℕ) : Type 0 where
  pub starts : (t : ℕ) → ms t t ≡ 0
  pub rises : (t a b : ℕ) → t ≤ a → a ≤ b → ms t a ≤ ms t b
  pub parts : (t q now : ℕ) → t ≤ q → q ≤ now → now ≤ horizon → ms t q + ms q now ≤ ms t now + 1

-- A sequence of polls, whose times never fall, from the time of the last poll before it.
unfoldable pub after_polls : Millis → List Poll → Timer → Timer
unfolding update_program_timer
after_polls ms [] s = s
after_polls ms (p ∷ ps) s = after_polls ms ps (update_program_timer ms p s).1

unfoldable pub InOrder : (horizon last : ℕ) → List Poll → Type 0
InOrder horizon last [] = Unit
InOrder horizon last (p ∷ ps) = (last ≤ p.now) × (p.now ≤ horizon) × InOrder horizon p.now ps

-- The time of the last poll.
unfoldable pub last_of : ℕ → List Poll → ℕ
last_of last [] = last
last_of last (p ∷ ps) = last_of p.now ps
