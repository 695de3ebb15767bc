-- ===== src/Gateway/Library.antt =====
-- The tool metadata that the tool-table commands of `_handle_command_impl` keep beside the table.
use text.Mathlib.Text.{◌==◌ as str_eq}
use lcnc_suite.Base.{String, Option, none, some, List, [], ◌∷◌, if◌then◌else◌}
use lcnc_suite.Base.Int.{ℤ, eqb_ℤ}
use lcnc_suite.Value.{Value, Message, Fields, end, field, find}
use lcnc_suite.Gateway.World.{Act, modify}

-- The sidecar metadata, by tool number.
abbrev pub Library : Type 0
Library = List (ℤ × Fields)

unfoldable pub find_meta : ℤ → Library → Option Fields
find_meta n [] = none
find_meta n ((k, m) ∷ lib) = let rest = find_meta n lib in if eqb_ℤ k n then some m else rest

unfoldable pub drop_meta : ℤ → Library → Library
drop_meta n [] = []
drop_meta n ((k, m) ∷ lib) = let rest = drop_meta n lib in if eqb_ℤ k n then rest else (k, m) ∷ rest

unfoldable pub put_meta : ℤ → Fields → Library → Library
unfolding drop_meta
put_meta n m lib = (n, m) ∷ drop_meta n lib

abbrev pub tool_meta_fields : List String
tool_meta_fields =
    "type" ∷ "description" ∷ "flutes" ∷ "oal" ∷ "flute_length" ∷ "shoulder_length"
    ∷ "shoulder_diameter" ∷ "corner_radius" ∷ "body_length" ∷ "shaft_diameter" ∷ "taper_angle"
    ∷ "point_angle" ∷ "tip_diameter" ∷ "material" ∷ "holder" ∷ "holder_segments"
    ∷ "assembly_gauge_length" ∷ "profile" ∷ []

-- `d[k] = v`
unfoldable pub put_field : String → Value → Fields → Fields
put_field k v end = field k v end
put_field k v (field j u fs) =
    let rest = put_field k v fs in if str_eq j k then field j v fs else field j u rest

-- `for field in _TOOL_META_FIELDS: if field in msg: meta[field] = msg[field]`
unfoldable pub copy_meta : List String → Message → Fields → Fields
unfolding find put_field
copy_meta [] msg meta = meta
copy_meta (k ∷ ks) msg meta =
    copy_meta ks msg (elim (find msg k) [ none ↦ meta | some v ↦ put_field k v meta ])

abbrev pub or_empty : Option Fields → Fields
or_empty none = end
or_empty (some m) = m

abbrev pub meta_from : Message → Fields → Fields
meta_from = copy_meta tool_meta_fields

unfoldable pub change_library : (Library → Library) → Act (Unit {0})
change_library f = modify (λ w. record w { library = f w.library })
