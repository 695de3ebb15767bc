-- ===== src/Value/Json.antt =====
-- What `json.loads` gives, and `dict.get` of a message.
use text.Mathlib.Text.{◌==◌ as str_eq}
use lcnc_suite.Base.{String, zero, Bool, true, false, not, Option, none, some, if◌then◌else◌}
use lcnc_suite.Base.Int.{ℤ, pos}
use lcnc_suite.Value.Floats.{Float, finite}

mutual
  -- A dict, in the order of insertion.
  pub data Fields : Type 0 where
    field : String → Value → Fields → Fields
    end : Fields

  pub data Value : Type 0 where
    null : Value
    bool : Bool → Value
    int : ℤ → Value
    float : Float → Value
    str : String → Value
    obj : Fields → Value
    arr : Items → Value

  -- A list.
  pub data Items : Type 0 where
    cons : Value → Items → Items
    nil : Items

abbrev pub Message : Type 0
Message = Fields

-- `msg.get(k)`, with `none` for a missing key.
unfoldable pub find : Message → String → Option Value
find end k = none
find (field j v rest) k = let later = find rest k in if str_eq j k then some v else later

abbrev pub or_value : Option Value → Value → Value
or_value none d = d
or_value (some v) d = v

-- `msg.get(k, d)`
unfoldable pub get : Message → String → Value → Value
get m k d = or_value (find m k) d

abbrev pub is_null : Value → Bool
is_null null = true
is_null _ = false

abbrev pub is_empty_text : String → Bool
is_empty_text s = str_eq s ""

abbrev pub is_zero_float : Float → Bool
is_zero_float (finite (pos zero)) = true
is_zero_float _ = false

-- `bool(v)`
unfoldable pub truth : Value → Bool
truth null = false
truth (bool b) = b
truth (int (pos zero)) = false
truth (int _) = true
truth (float f) = not (is_zero_float f)
truth (str s) = not (is_empty_text s)
truth (arr Items.nil) = false
truth (arr _) = true
truth (obj Fields.end) = false
truth (obj _) = true
