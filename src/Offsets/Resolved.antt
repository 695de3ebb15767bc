-- ===== src/Offsets/Resolved.antt =====
-- What resolve_var_file_path of lcnc-gateway/status_runtime.py leaves alone.
use lcnc_suite.Base.{
  ◌≡◌, refl, ap, ℕ, ◌==◌, Bool, true, false, Option, none, some, arith, Bool-cases, ◌⊎◌, inl, inr,
}
use mathlib.Core.Option.{none-ne-some}
use lcnc_suite.Offsets
use lcnc_suite.Offsets.{
  Line, File, World, Stat, read_var_file, nth, or_zero, mtime_of, has_changed,
  resolve_var_file_path, seed_file, seed_wcs_cache, refresh, set_active,
}

Ini-cases :
    (x : Offsets.Ini)
    → (x ≡ Offsets.broken) ⊎ ((x ≡ Offsets.without) ⊎ ((path : ℕ) × (x ≡ Offsets.names path)))
Ini-cases Offsets.broken = inl refl
Ini-cases Offsets.without = inr (inl refl)
Ini-cases (Offsets.names path) = inr (inr (path, refl))

abbrev pub with_path : {F : Type 0} → World F → Option ℕ → Option ℕ → World F
with_path w key path = record w { path_key = key; path_val = path }

module _ {F : Type 0} (zero_float : F) where
  abbrev is_hit : ℕ → World F → Bool
  is_hit ini w = elim w.path_key [ none ↦ false | some key ↦ ini == key ]

  -- Only the path that is kept changes.
  pub resolve_lem :
      (ini : Option ℕ) (w : World F)
      → (key : Option ℕ) × (path : Option ℕ) × ((resolve_var_file_path zero_float ini w).1
          ≡ with_path w key path)
  unfolding resolve_var_file_path
  resolve_lem none w = (w.path_key, w.path_val, refl)
  resolve_lem (some ini) w = elim (Bool-cases (is_hit ini w)) [
    | inl hit ↦ (w.path_key, w.path_val, rw hit refl)
    | inr miss ↦ elim (Ini-cases (w.inis ini)) [
      | inl e ↦ (w.path_key, w.path_val, rw (miss, e) refl)
      | inr (inl e) ↦ (some ini, none, rw (miss, e) refl)
      | inr (inr (path, e)) ↦ (some ini, some path, rw (miss, e) refl)
    ]
  ]

  pub resolve-again :
      (ini : Option ℕ) (w : World F) (path : ℕ)
      → (resolve_var_file_path zero_float ini w).0 ≡ some path
      → resolve_var_file_path zero_float ini (resolve_var_file_path zero_float ini w).1
        ≡ (some path, (resolve_var_file_path zero_float ini w).1)
  unfolding resolve_var_file_path
  resolve-again none w path e = absurd (none-ne-some path e)
  resolve-again (some ini) w path e = elim (Bool-cases (is_hit ini w)) [
    | inl hit ↦ rw hit (rw hit (ap (λ q. (q, w)) (rw hit at e)))
    | inr miss ↦ elim (Ini-cases (w.inis ini)) [
      | inl f ↦ absurd (none-ne-some path (rw (miss, f) at e))
      | inr (inl f) ↦ absurd (none-ne-some path (rw (miss, f) at e))
      | inr (inr (p, f)) ↦
          let key : (ini == ini) ≡ true = ground arith in
          rw (miss, f)
            (rw key (
              ap (λ q. (q, record w { path_key = some ini; path_val = some p }))
                (rw (miss, f) at e)))
    ]
  ]
