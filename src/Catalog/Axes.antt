-- ===== src/Catalog/Axes.antt =====
-- app/services/catalog.py: the axes of a template, and `_validate_axis_values`. A dict is a list of
-- entries in their order.
use skladbase.Prelude.{
  ℕ, String, Bool, true, ◌&&◌, Option, none, some, List, [], ◌∷◌, str_eq, is_text, is_member,
  if◌then◌else◌, map,
}
use skladbase.Models.{bad_request}
use skladbase.Access.{Checked, admitted, refused, and_then}

-- An entry of `variant_axes`: its key, whether its type is "enum", and its options if it has any.
pub record Axis : Type 0 where
  pub key : String
  pub is_enum : Bool
  pub options : Option (List String)

-- A template's code and texts for people are left out; `variant_axes` may be missing.
pub record ProductTemplate : Type 0 where
  pub id : ℕ
  pub shop_id : Option ℕ
  pub name : String
  pub variant_axes : Option (List Axis)

abbrev pub Dict : Type 0 → Type 0
Dict A = List (String × A)

module _ {A : Type 0} where
  -- `d.get(key)`
  unfoldable pub get : String → Dict A → Option A
  get key [] = none
  get key (e ∷ es) = let rest = get key es in if str_eq e.0 key then some e.1 else rest

  -- `d[key] = value`
  unfoldable pub put : String → A → Dict A → Dict A
  put key value [] = (key, value) ∷ []
  put key value (e ∷ es) =
      let rest = put key value es in if str_eq e.0 key then (e.0, value) ∷ es else e ∷ rest

-- `template.field_schema.get("variant_axes") or []`
abbrev pub axes_of : Option ProductTemplate → List Axis
axes_of none = []
axes_of (some t) = elim t.variant_axes [ none ↦ [] | some axes ↦ axes ]

abbrev pub put_options : Axis → Option (List String) → Dict (List String) → Dict (List String)
put_options axis none d = d
put_options axis (some options) d = if axis.is_enum then put axis.key options d else d

unfoldable pub enum_options : List Axis → Dict (List String) → Dict (List String)
unfolding put
enum_options [] d = d
enum_options (axis ∷ axes) d = enum_options axes (put_options axis axis.options d)

-- whether all keys are in another collection of keys
unfoldable pub all_in : List String → List String → Bool
unfolding is_member
all_in [] keys = true
all_in (k ∷ ks) keys = is_member k keys && all_in ks keys

abbrev pub first_of : {A : Type 0} → String × A → String
first_of e = e.0

abbrev pub allows : List String → Option String → Bool
allows allowed none = true
allows allowed (some value) = is_member value allowed

unfoldable pub values_allowed : Dict (List String) → Dict String → Bool
unfolding get is_member
values_allowed [] values = true
values_allowed (e ∷ es) values = allows e.1 (get e.0 values) && values_allowed es values

abbrev pub require : Bool → Checked (Unit {0})
require b = if b then admitted tt else refused bad_request

unfoldable pub validate_axis_values : Option ProductTemplate → Dict String → Checked (Unit {0})
unfolding all_in enum_options values_allowed
validate_axis_values template values =
    let axes = axes_of template in
    let keys = map Axis.key axes in
    and_then (require (all_in (map first_of values) keys)) λ _.
      and_then (require (all_in keys (map first_of values)))
        λ _. require (values_allowed (enum_options axes []) values)

unfoldable pub includes : Dict String → Dict String → Bool
unfolding get
includes [] d = true
includes (e ∷ es) d = is_text (get e.0 d) e.1 && includes es d

-- `a == b` on dicts
unfoldable pub same_dict : Dict String → Dict String → Bool
unfolding includes
same_dict a b = includes a b && includes b a
