-- ===== src/Timer/Elapsed.antt =====
-- The time that the program timer of lcnc-gateway/status_runtime.py reports, poll after poll.
use mathlib.Core.Path.{subst}
use lcnc_suite.Base.{
  ◌≡◌, refl, sym, ap, ℕ, ◌≤◌, Bool, true, false, not, ◌&&◌, Option, none, some, List, [], ◌∷◌,
  arith, if-cases, if◌then◌else◌, is_some, Bool-cases, inl, inr,
}
use lcnc_suite.Timer.{
  Timer, at_start, Millis, Poll, is_active, is_paused, commit, advance, elapsed, elapsed_at,
  update_program_timer,
}
use lcnc_suite.Timer.Clock.{
  IsTimed, Timed, IsBelow, begins, resumes, slip, IsClock, after_polls, InOrder, last_of,
}

module _ (ms : Millis) (horizon : ℕ) (clock : IsClock ms horizon) where
  -- The marks are kept, and no less is reported.
  abbrev Advances : ℕ → ℕ → Bool → Option ℕ → Timer → Type 0
  Advances slack now active before s =
      Timed now active s × IsBelow slack before (elapsed_at ms now s)

  kept-IsTimed :
      (last now : ℕ) (was active : Bool) (t q : Option ℕ)
      → last ≤ now
      → (was ≡ false → active ≡ false)
      → IsTimed last was t q
      → IsTimed now active t q
  unfolding IsTimed
  kept-IsTimed last now was active none none le still h = still h
  kept-IsTimed last now was active none (some q) le still h = h
  kept-IsTimed last now was active (some t) none le still h = omega arith
  kept-IsTimed last now was active (some t) (some q) le still (h, k) = (h, omega arith)

  kept-IsBelow :
      (slack last now pauses : ℕ) (was : Bool) (t q : Option ℕ)
      → last ≤ now
      → IsTimed last was t q
      → IsBelow slack (elapsed ms last pauses t q) (elapsed ms now pauses t q)
  unfolding IsTimed IsBelow elapsed
  kept-IsBelow slack last now pauses was none q le h = tt
  kept-IsBelow slack last now pauses was (some t) none le h =
      omega (arith, clock.rises t last now h le)
  kept-IsBelow slack last now pauses was (some t) (some q) le h = omega arith

  pausing-IsTimed :
      (last now : ℕ) (active : Bool) (t q : Option ℕ)
      → last ≤ now
      → IsTimed last true t q
      → IsTimed now active t (some now)
  unfolding IsTimed
  pausing-IsTimed last now active none none le h = absurd (ground (arith, h))
  pausing-IsTimed last now active none (some q) le h = absurd (ground (arith, h))
  pausing-IsTimed last now active (some t) none le h = (omega arith, omega arith)
  pausing-IsTimed last now active (some t) (some q) le (h, k) = (omega arith, omega arith)

  pausing-IsBelow :
      (slack last now pauses : ℕ) (t q : Option ℕ)
      → last ≤ now
      → IsTimed last true t q
      → IsBelow slack (elapsed ms last pauses t q) (elapsed ms now pauses t (some now))
  unfolding IsTimed IsBelow elapsed
  pausing-IsBelow slack last now pauses none q le h = tt
  pausing-IsBelow slack last now pauses (some t) none le h =
      omega (arith, clock.rises t last now h le)
  pausing-IsBelow slack last now pauses (some t) (some q) le (h, k) =
      omega (arith, clock.rises t q now h (omega arith))

  abbrev marked : Timer → Option ℕ → Option ℕ → Timer
  marked s t q = record s { start_mono = t; pause_start_mono = q }

  commit-Advances :
      (last now : ℕ) (s : Timer) (t q : Option ℕ)
      → last ≤ now
      → now ≤ horizon
      → IsTimed last true t q
      → Advances 1 now true (elapsed_at ms last (marked s t q)) (commit ms now q (marked s t q))
  unfolding IsTimed IsBelow elapsed commit
  commit-Advances last now s none none le near h = absurd (ground (arith, h))
  commit-Advances last now s none (some q) le near h = absurd (ground (arith, h))
  commit-Advances last now s (some t) none le near h =
      (omega arith, omega (arith, clock.rises t last now h le))
  commit-Advances last now s (some t) (some q) le near (h, k) =
      (omega arith, omega (arith, clock.parts t q now h (omega arith) near))

  -- What a poll makes of the timer, for a poll that does not find a new program.
  advance-Advances :
      (last : ℕ) (p : Poll) (s : Timer)
      → last ≤ p.now
      → p.now ≤ horizon
      → begins p s ≡ false
      → Timed last s.active_last s
      → Advances (slip p s) p.now (is_active p.interp_state) (elapsed_at ms last s) (advance ms p s)
  unfolding advance
  advance-Advances last p s le near same h =
      if-cases Fine (active && not s.active_last) _ _ (λ e. absurd (ground (arith, e, same)))
        (λ _.
          if-cases Fine (active && (is_paused p && not s.paused_last)) _ _
            (λ e. pausing (was_active _ e))
            (λ _.
              if-cases Fine (active && (not (is_paused p) && s.paused_last)) _ _
                (λ e. committing (was_active _ e) (first _ e) e)
                (λ _.
                  if-cases Fine
                    (not active
                      && (s.active_last
                          && (not (is_some s.pause_start_mono) && is_some s.start_mono)))
                    _ _ (λ e. pausing (second _ e)) (λ _. unchanged))))
    where
      active : Bool
      active = is_active p.interp_state

      Fine : Timer → Type 0
      Fine t = Advances (slip p s) p.now (is_active p.interp_state) (elapsed_at ms last s) t

      was_active : (b : Bool) → (is_active p.interp_state && b) ≡ true → s.active_last ≡ true
      was_active b e = ground (arith, same)

      first : (b : Bool) → (is_active p.interp_state && b) ≡ true → is_active p.interp_state ≡ true
      first b e = ground arith

      second :
          (b : Bool)
          → (not (is_active p.interp_state) && (s.active_last && b)) ≡ true
          → s.active_last ≡ true
      second b e = ground arith

      at_work : s.active_last ≡ true → IsTimed last true s.start_mono s.pause_start_mono
      at_work a = subst (λ b. IsTimed last b s.start_mono s.pause_start_mono) a h

      pausing :
          s.active_last ≡ true
          → Advances
              (slip p s)
              p.now
              (is_active p.interp_state)
              (elapsed_at ms last s)
              (record s { pause_start_mono = some p.now })
      pausing a = (
        pausing-IsTimed last p.now (is_active p.interp_state) s.start_mono s.pause_start_mono le
            (at_work a),
        pausing-IsBelow (slip p s) last p.now s.paused_accum_ms s.start_mono s.pause_start_mono le
            (at_work a),
      )

      committing :
          s.active_last ≡ true
          → is_active p.interp_state ≡ true
          → resumes p s ≡ true
          → Advances
              (slip p s)
              p.now
              (is_active p.interp_state)
              (elapsed_at ms last s)
              (commit ms p.now s.pause_start_mono s)
      committing a e back =
          subst
            (λ n.
              Advances n p.now (is_active p.interp_state) (elapsed_at ms last s)
                (commit ms p.now s.pause_start_mono s))
            (sym (ap (λ b. if b then 1 else 0) back))
            (subst
              (λ b.
                Advances 1 p.now b (elapsed_at ms last s) (commit ms p.now s.pause_start_mono s))
              (sym e)
              (commit-Advances last p.now s s.start_mono s.pause_start_mono le near (at_work a)))

      unchanged : Advances (slip p s) p.now (is_active p.interp_state) (elapsed_at ms last s) s
      unchanged = (
        kept-IsTimed last p.now s.active_last (is_active p.interp_state) s.start_mono
            s.pause_start_mono le (λ w. ground (arith, same, w)) h,
        kept-IsBelow (slip p s) last p.now s.paused_accum_ms s.active_last s.start_mono
            s.pause_start_mono le h,
      )

  begun-Timed :
      (p : Poll) (s : Timer)
      → begins p s ≡ true
      → Timed p.now (is_active p.interp_state) (advance ms p s)
  unfolding advance IsTimed
  begun-Timed p s e = rw e (omega arith)

  update-Timed :
      (last : ℕ) (p : Poll) (s : Timer)
      → last ≤ p.now
      → p.now ≤ horizon
      → Timed last s.active_last s
      → Timed p.now (update_program_timer ms p s).1.active_last (update_program_timer ms p s).1
  unfolding update_program_timer
  update-Timed last p s le near h = elim (Bool-cases (begins p s)) [
    | inl e ↦ begun-Timed p s e
    | inr e ↦ (advance-Advances last p s le near e h).0
  ]

  polls-Timed :
      (last : ℕ) (ps : List Poll) (s : Timer)
      → InOrder horizon last ps
      → Timed last s.active_last s
      → Timed (last_of last ps) (after_polls ms ps s).active_last (after_polls ms ps s)
  unfolding after_polls InOrder last_of
  polls-Timed last [] s o h = h
  polls-Timed last (p ∷ ps) s (le, near, o) h =
      polls-Timed p.now ps (update_program_timer ms p s).1 o (update-Timed last p s le near h)

  begun-elapsed :
      (p : Poll) (s : Timer) → begins p s ≡ true → (update_program_timer ms p s).0 ≡ some 0
  unfolding update_program_timer advance elapsed
  begun-elapsed p s e = rw e (ap some (omega (arith, clock.starts p.now)))

  -- Where int((b - a) * 1000) keeps what its rounding keeps, for times up to a horizon: after any polls of a
  -- new gateway whose times do not fall and are not past it, a later such poll that finds a program where the one before found none reports 0; any other
  -- poll reports a time if the poll before it reported one, and then no less, or no less but for one
  -- millisecond where it finds a program at work that was paused.
  pub update_program_timer_lem :
      (ps : List Poll) (p : Poll)
      → InOrder horizon 0 ps
      → last_of 0 ps ≤ p.now
      → p.now ≤ horizon
      → let s = after_polls ms ps at_start in
        (begins p s ≡ true → (update_program_timer ms p s).0 ≡ some 0)
        × (begins p s ≡ false
            → IsBelow (slip p s) (elapsed_at ms (last_of 0 ps) s) (update_program_timer ms p s).0)
  unfolding update_program_timer at_start IsTimed
  update_program_timer_lem ps p o le near =
      let s = after_polls ms ps at_start in
      (
        begun-elapsed p s,
        (λ e. (advance-Advances (last_of 0 ps) p s le near e (polls-Timed 0 ps at_start o refl)).1),
      )
