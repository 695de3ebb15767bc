-- ===== src/Compensation/Examples.antt =====
-- The theorems of the compensation at concrete ticks.
use lcnc_suite.Base.{◌≡◌, refl, true, false, none, some, [], ◌∷◌, ◌++◌}
use lcnc_suite.Base.Int.{pos}
use lcnc_suite.Value.{of_ℕ}
use lcnc_suite.Compensation.{
  running, idle, Tick, Compensation, Arithmetic, at_start, is_drained, step, ticks, run,
}
use lcnc_suite.Compensation.Offset.{offset_needs_enable}
use lcnc_suite.Compensation.Disable.{IsOff, disabling_ends}

-- Every result is 1.0, and a pin takes 7.
abbrev py : Arithmetic
py = record { sub = λ a b. a; div = λ a b. a; mul = λ a b. a; to_s32 = λ a. some (pos 7) }

abbrev working : Tick
working = record {
  enable_in = true;
  machine_on = true;
  method = 2;
  reload_req = 0;
  resolution = of_ℕ 1;
  map_time = some 5;
  map_loads = true;
  compensation = some (of_ℕ 1);
  fade_height = of_ℕ 0;
  z_pos = of_ℕ 0;
  eoffset = of_ℕ 1;
}

abbrev disabled : Tick
disabled = record working { enable_in = false }

abbrev drained : Tick
drained = record disabled { eoffset = of_ℕ 0 }

abbrev at_work : Compensation
at_work = (ticks py (working ∷ working ∷ working ∷ working ∷ []) at_start).1

-- The map is deleted while its method changes, and compensation is disabled.
abbrev lost : Compensation
lost =
    (ticks py (record working { method = 1 } ∷ record disabled { method = 1; map_time = none } ∷ [])
      at_work).1

offset_needs_enable_example :
    ((ticks py (working ∷ disabled ∷ []) at_start).1.enable_out ≡ false
      → (ticks py (working ∷ disabled ∷ []) at_start).1.counts ≡ pos 0)
    × ((run py (working ∷ disabled ∷ [])).counts ≡ pos 0)
    × ((run py (working ∷ disabled ∷ [])).enable_out ≡ false)
    × ((run py (working ∷ disabled ∷ [])).clear ≡ false)
offset_needs_enable_example = offset_needs_enable py (working ∷ disabled ∷ [])

disabling_ends_example : IsOff false (ticks py (disabled ∷ (disabled ∷ []) ++ drained ∷ []) at_work)
unfolding is_drained ticks step
disabling_ends_example =
    disabling_ends py disabled (disabled ∷ []) drained at_work refl refl ((refl, refl), tt) refl

runs : (at_work.state ≡ running) × (at_work.counts ≡ pos 7)
unfolding ticks
runs = (refl, refl)

-- The component is idle, yet the offset stays enabled with its counts.
frozen_offset : (lost.state ≡ idle) × (lost.enable_out ≡ true) × (lost.counts ≡ pos 7)
unfolding ticks
frozen_offset = (refl, refl, refl)
