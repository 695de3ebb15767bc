-- ===== src/Gateway/Handlers/Overrides.antt =====
-- What the three scale overrides send.
use mathlib.Core.Path.{subst}
use lcnc_suite.Base.{◌≡◌, refl, sym, ◌*◌, ◌^◌, Bool, true, false, none, ◌∷◌, arith}
use lcnc_suite.Base.Int.{ℤ, pos, ◌≤ℤ◌}
use lcnc_suite.Value.{
  Value, float, Message, get, Float, finite, of_ℕ, unit, finite_float, Builtins, Res, ok, raise,
}
use lcnc_suite.Value.Bounds.{clamp, clamp_ℤ, clamp-finite, clamp_ℤ_bounds, finite_float-eq-ok}
use lcnc_suite.Gateway.Machine.{Call}
use lcnc_suite.Gateway.World.{World, Reply, done_scale, pure, throw, ◌>>◌, Act, actions}
use lcnc_suite.Gateway.Guards.{require_armed, cmd_blocking, cmd_outcome}
use lcnc_suite.Gateway.Power.{
  read_scale, override, set_feed_override, set_spindle_override, set_rapid_override,
}

-- The reply names the value that was sent, a finite one within the range.
abbrev pub SentScale : (Float → Call) → ℤ → ℤ → World → Res Reply × World → Type 0
SentScale call a b w r =
    (z : ℤ) × (r.0 ≡ ok (done_scale (finite z)))
    × (r.1.calls ≡ call (finite z) ∷ w.calls)
    × (a ≤ℤ z)
    × (z ≤ℤ b)

sent :
    (c : Call) (r reply : Reply) (w : World)
    → ((cmd_blocking c >> pure r) w).0 ≡ ok reply
    → (((cmd_blocking c >> pure r) w).0 ≡ ok r)
      × (((cmd_blocking c >> pure r) w).1.calls ≡ c ∷ w.calls)
unfolding cmd_blocking cmd_outcome actions
sent c r reply w h = ground arith

module _ (call : Float → Call) (a b : ℤ) (le : a ≤ℤ b) (w : World) where
  abbrev send : Float → Act Reply
  send f = let s = clamp (finite a) (finite b) f in cmd_blocking (call s) >> pure (done_scale s)

  send-SentScale :
      (z : ℤ) (reply : Reply)
      → (send (finite z) w).0 ≡ ok reply
      → SentScale call a b w (send (finite z) w)
  send-SentScale z reply h =
      let is = clamp-finite a b z in
      let c = clamp_ℤ a b z in
      let (said, went) =
        sent (call (finite c)) (done_scale (finite c)) reply w
          (subst (λ f. ((cmd_blocking (call f) >> pure (done_scale f)) w).0 ≡ ok reply) is h) in
      let (lo, hi) = clamp_ℤ_bounds a b z le in
      subst (λ f. SentScale call a b w ((cmd_blocking (call f) >> pure (done_scale f)) w)) (sym is)
        (c, said, went, lo, hi)

  read-SentScale :
      (v : Value) (py : Builtins) (r : Res Float) (reply : Reply)
      → finite_float py v (of_ℕ 1) none none ≡ r
      → ((elim r as (λ _. Act Reply) [ ok f ↦ send f | raise e ↦ throw e ]) w).0 ≡ ok reply
      → SentScale call a b w ((elim r as (λ _. Act Reply) [ ok f ↦ send f | raise e ↦ throw e ]) w)
  unfolding throw
  read-SentScale v py (raise e) reply is h = cc
  read-SentScale v py (ok f) reply is h =
      let (z, _, gave, _, _) = (finite_float-eq-ok py v (of_ℕ 1) none none f).0 is in
      subst (λ f. SentScale call a b w (send f w)) (sym gave)
        (send-SentScale z reply (subst (λ f. (send f w).0 ≡ ok reply) gave h))

  override-SentScale :
      (msg : Message) (armed : Bool) (reply : Reply)
      → (override (clamp (finite a) (finite b)) call msg armed w).0 ≡ ok reply
      → SentScale call a b w (override (clamp (finite a) (finite b)) call msg armed w)
  unfolding read_scale require_armed actions
  override-SentScale msg false reply h = cc
  override-SentScale msg true reply h =
      read-SentScale (get msg "scale" (float (of_ℕ 1))) w.env.builtins
        (finite_float w.env.builtins (get msg "scale" (float (of_ℕ 1))) (of_ℕ 1) none none) reply
        refl h

-- A scale override that replies with success has sent exactly one call, with a finite value between
-- the bounds of its kind - 0 and 2 for the feed, 0.5 and 2 for the spindle, 0 and 1 for the rapids -
-- and its reply names the value that was sent.
pub overrides_bounded :
    (msg : Message) (armed : Bool) (w : World) (reply : Reply)
    → ((set_feed_override msg armed w).0 ≡ ok reply
        → SentScale Call.feedrate (pos 0) (pos (2 * unit)) w (set_feed_override msg armed w))
      × ((set_spindle_override msg armed w).0 ≡ ok reply
          → SentScale Call.spindleoverride
              (pos (2 ^ 1073))
              (pos (2 * unit))
              w
              (set_spindle_override msg armed w))
      × ((set_rapid_override msg armed w).0 ≡ ok reply
          → SentScale Call.rapidrate (pos 0) (pos unit) w (set_rapid_override msg armed w))
unfolding set_feed_override set_spindle_override set_rapid_override
overrides_bounded msg armed w reply = (
  override-SentScale Call.feedrate (pos 0) (pos (2 * unit)) (omega arith) w msg armed reply,
  override-SentScale Call.spindleoverride (pos (2 ^ 1073)) (pos (2 * unit)) (omega arith) w msg
      armed reply,
  override-SentScale Call.rapidrate (pos 0) (pos unit) (omega arith) w msg armed reply,
)
