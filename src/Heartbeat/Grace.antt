-- ===== src/Heartbeat/Grace.antt =====
-- The end of the grace period after the last client of lcnc-gateway/gateway.py.
use mathlib.Core.Path.{subst}
use lcnc_suite.Base.{
  ◌≡◌, refl, sym, ap, ℕ, ◌+◌, ◌≤◌, ltb, true, false, none, some, List, [], ◌∷◌, arith, Bool-cases,
  All, inl, inr,
}
use lcnc_suite.Heartbeat.{
  Message, Heart, grace_ticks, message, send, toggle, beat, drop, grace_pass, grace_turn,
  grace_tick, leave, start_grace, Event, beats, grace_ticks_on, joins, leaves, stops, resets, step,
  steps,
}

-- Nobody connects: a beat, or a turn of the grace task.
abbrev pub IsAlone : Event → Type 0
IsAlone beats = Unit
IsAlone grace_ticks_on = Unit
IsAlone _ = false ≡ true

-- How often the grace task has its turn.
unfoldable pub turns : List Event → ℕ
turns [] = 0
turns (grace_ticks_on ∷ es) = turns es + 1
turns (_ ∷ es) = turns es

-- The grace period is over, and the last message lets the connection and the heartbeat go.
abbrev pub IsOut : Heart → Type 0
IsOut s =
    (s.clients ≡ 0) × (s.grace ≡ none) × ((ms : List Message) × (s.sent ≡ message false false ∷ ms))

step-IsOut : (e : Event) (s : Heart) → IsAlone e → IsOut s → IsOut (step e s)
unfolding step beat grace_tick grace_turn
step-IsOut beats s a (c, g, m) = rw c (refl, g, m)
step-IsOut grace_ticks_on s a (c, g, m) =
    let e = ap (λ o. grace_turn o s) g in subst IsOut (sym e) (c, g, m)
step-IsOut joins s a out = absurd (ground (arith, a))
step-IsOut leaves s a out = absurd (ground (arith, a))
step-IsOut stops s a out = absurd (ground (arith, a))
step-IsOut resets s a out = absurd (ground (arith, a))

steps-IsOut : (es : List Event) (s : Heart) → All IsAlone es → IsOut s → IsOut (steps es s)
unfolding steps
steps-IsOut [] s hs out = out
steps-IsOut (e ∷ es) s (a, hs) out = steps-IsOut es (step e s) hs (step-IsOut e s a out)

-- A turn of the task after `i` turns, with no client.
pass_on :
    (i : ℕ) (s : Heart)
    → s.clients ≡ 0
    → ltb i grace_ticks ≡ true
    → ((grace_pass i s).clients ≡ 0) × ((grace_pass i s).grace ≡ some (i + 1))
unfolding grace_pass toggle send
pass_on i s c b = rw (c, b) (refl, refl)

grace_pass-IsOut :
    (i : ℕ) (s : Heart) → s.clients ≡ 0 → ltb i grace_ticks ≡ false → IsOut (grace_pass i s)
unfolding grace_pass drop send
grace_pass-IsOut i s c b = rw (c, b) (refl, refl, (s.sent, refl))

tick_at : (i : ℕ) (s : Heart) → s.grace ≡ some i → grace_tick s ≡ grace_pass i s
unfolding grace_tick grace_turn
tick_at i s g = ap (λ o. grace_turn o s) g

beat_alone : (s : Heart) → s.clients ≡ 0 → beat s ≡ s
unfolding beat
beat_alone s c = rw c refl

grace_ends :
    (es : List Event) (i : ℕ) (s : Heart)
    → All IsAlone es
    → s.clients ≡ 0
    → s.grace ≡ some i
    → grace_ticks + 1 ≤ turns es + i
    → i ≤ grace_ticks
    → IsOut (steps es s)
unfolding steps turns step
grace_ends [] i s hs c g enough le = absurd (omega (arith, le, enough))
grace_ends (beats ∷ es) i s (a, hs) c g enough le =
    subst (λ t. IsOut (steps es t)) (sym (beat_alone s c)) (grace_ends es i s hs c g enough le)
grace_ends (grace_ticks_on ∷ es) i s (a, hs) c g enough le =
    subst (λ t. IsOut (steps es t)) (sym (tick_at i s g))
      (elim (Bool-cases (ltb i grace_ticks)) as (λ _. IsOut (steps es (grace_pass i s))) [
        | inl b ↦
            let next = pass_on i s c b in
            grace_ends es (i + 1) (grace_pass i s) hs next.0 next.1 (omega (arith, enough))
              (ground (arith, b))
        | inr b ↦ steps-IsOut es (grace_pass i s) hs (grace_pass-IsOut i s c b)
      ])
grace_ends (joins ∷ es) i s (a, hs) c g enough le = absurd (ground (arith, a))
grace_ends (leaves ∷ es) i s (a, hs) c g enough le = absurd (ground (arith, a))
grace_ends (stops ∷ es) i s (a, hs) c g enough le = absurd (ground (arith, a))
grace_ends (resets ∷ es) i s (a, hs) c g enough le = absurd (ground (arith, a))

last_leaves :
    (s : Heart)
    → s.clients ≡ 1
    → s.grace ≡ none
    → ((step leaves s).clients ≡ 0) × ((step leaves s).grace ≡ some 0)
unfolding step leave start_grace send
last_leaves s c g = ground arith

-- After the last client has left, and while nobody connects, the grace period is over once its task
-- has had one turn more than its ticks: the last message lets go of the connection and the heartbeat,
-- and none follows.
pub leaves-IsOut :
    (es : List Event) (s : Heart)
    → s.clients ≡ 1
    → s.grace ≡ none
    → All IsAlone es
    → grace_ticks + 1 ≤ turns es
    → IsOut (steps (leaves ∷ es) s)
unfolding steps
leaves-IsOut es s c g hs enough =
    let left = last_leaves s c g in
    grace_ends es 0 (step leaves s) hs left.0 left.1 (omega (arith, enough)) (omega arith)
