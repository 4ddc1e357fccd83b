-- ===== src/Views/Json.antt =====
-- `jsonable` of src/workflow_engine/claims.py against a description by the leaves of a value and its
-- shape. A value of the model has no tuple and no key that is not a text; the function passes both on.
use platform_forge.Models.{Value}
use platform_forge.Claims.Jsonable.{jsonable_fields, jsonable, jsonable_items}
use platform_forge.Models.Values.{
  field, bool, Items, array, end, nat, dict, datetime, uuid, neg, null, text, Fields, item, nil,
}
use mathlib.Core.List.{map-append}
use platform_forge.Prelude.{ℕ, String, List, [], ◌∷◌, map, ◌++◌, ap, ◌≡◌, refl}

-- The values that are no array and no dictionary, from left to right.
abbrev mutual
  pub leaves : Value → List Value
  leaves (array xs) = leaves_of_items xs
  leaves (dict fs) = leaves_of_fields fs
  leaves null = null ∷ []
  leaves (bool b) = bool b ∷ []
  leaves (nat n) = nat n ∷ []
  leaves (neg n) = neg n ∷ []
  leaves (text s) = text s ∷ []
  leaves (uuid n) = uuid n ∷ []
  leaves (datetime n) = datetime n ∷ []

  pub leaves_of_items : Items → List Value
  leaves_of_items nil = []
  leaves_of_items (item x xs) = leaves x ++ leaves_of_items xs

  pub leaves_of_fields : Fields → List Value
  leaves_of_fields end = []
  leaves_of_fields (field k x fs) = leaves x ++ leaves_of_fields fs

-- The value with each leaf blotted out: its arrays, its dictionaries and their keys.
abbrev mutual
  pub shape : Value → Value
  shape (array xs) = array (shape_of_items xs)
  shape (dict fs) = dict (shape_of_fields fs)
  shape null = null
  shape (bool b) = null
  shape (nat n) = null
  shape (neg n) = null
  shape (text s) = null
  shape (uuid n) = null
  shape (datetime n) = null

  pub shape_of_items : Items → Items
  shape_of_items nil = nil
  shape_of_items (item x xs) = item (shape x) (shape_of_items xs)

  pub shape_of_fields : Fields → Fields
  shape_of_fields end = end
  shape_of_fields (field k x fs) = field k (shape x) (shape_of_fields fs)

module _ (str_uuid isoformat : ℕ → String) where
  -- How a leaf is written.
  abbrev pub written : Value → Value
  written v = elim v [
    | uuid n ↦ text (str_uuid n)
    | datetime n ↦ text (isoformat n)
    | other ↦ other
  ]

  mutual
    unfolding jsonable

    each_leaf : (v : Value) → leaves (jsonable str_uuid isoformat v) ≡ map written (leaves v)
    each_leaf null = refl
    each_leaf (bool b) = refl
    each_leaf (nat n) = refl
    each_leaf (neg n) = refl
    each_leaf (text s) = refl
    each_leaf (uuid n) = refl
    each_leaf (datetime n) = refl
    each_leaf (array xs) = each_item xs
    each_leaf (dict fs) = each_field fs

    each_item :
        (xs : Items)
        → leaves_of_items (jsonable_items str_uuid isoformat xs) ≡ map written (leaves_of_items xs)
    each_item nil = refl
    each_item (item x xs) =
        rw (map-append written (leaves x) (leaves_of_items xs), each_leaf x, each_item xs) refl

    each_field :
        (fs : Fields)
        → leaves_of_fields (jsonable_fields str_uuid isoformat fs)
          ≡ map written (leaves_of_fields fs)
    each_field end = refl
    each_field (field k x fs) =
        rw (map-append written (leaves x) (leaves_of_fields fs), each_leaf x, each_field fs) refl

  mutual
    unfolding jsonable

    same_shape : (v : Value) → shape (jsonable str_uuid isoformat v) ≡ shape v
    same_shape null = refl
    same_shape (bool b) = refl
    same_shape (nat n) = refl
    same_shape (neg n) = refl
    same_shape (text s) = refl
    same_shape (uuid n) = refl
    same_shape (datetime n) = refl
    same_shape (array xs) = ap array (same_items xs)
    same_shape (dict fs) = ap dict (same_fields fs)

    same_items :
        (xs : Items) → shape_of_items (jsonable_items str_uuid isoformat xs) ≡ shape_of_items xs
    same_items nil = refl
    same_items (item x xs) = cc (same_shape x, same_items xs)

    same_fields :
        (fs : Fields) → shape_of_fields (jsonable_fields str_uuid isoformat fs) ≡ shape_of_fields fs
    same_fields end = refl
    same_fields (field k x fs) = cc (same_shape x, same_fields fs)

  -- On a value of lists, dictionaries with text keys and leaves, `jsonable` gives a value of the same
  -- shape, keys included, whose leaves are those of the given one in the same order, each uuid and each
  -- datetime written as its text and every other leaf as it was.
  pub jsonable-leaves :
      (v : Value)
      → (leaves (jsonable str_uuid isoformat v) ≡ map written (leaves v))
        × (shape (jsonable str_uuid isoformat v) ≡ shape v)
  jsonable-leaves v = (each_leaf v, same_shape v)
