-- ===== src/Value/Dicts.antt =====
-- Changing a dict: what a key reads after it is set, or after it or another one is deleted.
use text.Mathlib.Text.{◌==◌ as str_eq}
use text.Mathlib.TextEquality.{eq_iff}
use text.Mathlib.TextPositions.{eq_refl}
use lcnc_suite.Base.{
  ◌≡◌, refl, sym, String, true, false, none, some, if◌then◌else◌, arith, ◌∙◌, ap, Bool-cases, inl,
  inr,
}
use lcnc_suite.Value.Json.{Value, Fields, field, end, find}

-- `d[k] = v`
unfoldable pub assoc : String → Value → Fields → Fields
assoc k v end = field k v end
assoc k v (field j w rest) =
    let later = assoc k v rest in if str_eq j k then field j v rest else field j w later

-- `del d[k]`, and nothing for a missing key.
unfoldable pub drop : String → Fields → Fields
drop k end = end
drop k (field j w rest) = let later = drop k rest in if str_eq j k then later else field j w later

pub text-eq : (a b : String) → str_eq a b ≡ true → a ≡ b
text-eq a b h = (eq_iff a b).0 h

pub find-assoc : (k : String) (v : Value) (d : Fields) → find (assoc k v d) k ≡ some v
unfolding find assoc
find-assoc k v end = rw (eq_refl k) refl
find-assoc k v (field j w rest) = let ih = find-assoc k v rest in ground (arith, ih)

other-keys : (k l j : String) → str_eq k l ≡ false → str_eq j k ≡ true → str_eq j l ≡ false
other-keys k l j h e = sym (ap (λ t. str_eq t l) (sym (text-eq j k e))) ∙ h

pub find-assoc_other :
    (k l : String) (v : Value) (d : Fields) → str_eq k l ≡ false → find (assoc k v d) l ≡ find d l
unfolding find assoc
find-assoc_other k l v end h = ground (arith, h)
find-assoc_other k l v (field j w rest) h =
    let ih = find-assoc_other k l v rest h in
    let differ = other-keys k l j h in
    elim (Bool-cases (str_eq j k)) [
      | inl e ↦ let f = differ e in ground (arith, ih)
      | inr e ↦ ground (arith, ih)
    ]

pub find-drop : (k : String) (d : Fields) → find (drop k d) k ≡ none
unfolding find drop
find-drop k end = refl
find-drop k (field j w rest) = let ih = find-drop k rest in ground (arith, ih)

pub find-drop_other :
    (k l : String) (d : Fields) → str_eq k l ≡ false → find (drop k d) l ≡ find d l
unfolding find drop
find-drop_other k l end h = refl
find-drop_other k l (field j w rest) h =
    let ih = find-drop_other k l rest h in
    let differ = other-keys k l j h in
    elim (Bool-cases (str_eq j k)) [
      | inl e ↦ let f = differ e in ground (arith, ih)
      | inr e ↦ ground (arith, ih)
    ]
