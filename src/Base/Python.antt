-- ===== src/Base/Python.antt =====
-- Python's `==` and truth of JSON values, `isinstance` tests, and tests that raise. Floats are
-- compared by a parameter. `none` is an exception.
use purepy.Base.Int.{ℤ, pos, eq_ℤ}
use purepy.Base.Json.{
  Json, Items, Fields, null, boolean, integer, real, text, arr, obj, nil, cons, end, field, get,
  keys, same_set, or_null,
}
use purepy.Base.Texts.{Text, text_eq}
use purepy.Base.Tests.{◌==◌, none-some}
use mathlib.Core.Path.{◌≡◌, refl}
use mathlib.Core.Bool.{Bool, true, false, ◌&&◌, not}
use mathlib.Core.Option.{Option, none, some}
use mathlib.Core.List.{List, [], ◌∷◌}
use Prim.Native.Nat.{ℕ, suc}

-- `==` of two floats, and of a float and an integer, and whether a float is not zero.
pub record FloatTests (F : Type 0) : Type 0 where
  pub same : F → F → Bool
  pub same_int : F → ℤ → Bool

abbrev pub require : Bool → Option (Unit {0})
require true = some tt
require false = none

pub require-true : (b : Bool) (u : Unit {0}) → require b ≡ some u → b ≡ true
require-true true u h = refl
require-true false u h = elim (none-some u h) [ ]

abbrev pub count_items : {F : Type 0} → Items F → ℕ
count_items nil = 0
count_items (cons v items) = suc (count_items items)

abbrev pub count_fields : {F : Type 0} → Fields F → ℕ
count_fields end = 0
count_fields (field k v fields) = suc (count_fields fields)

abbrev pub bool_int : Bool → ℤ
bool_int true = pos 1
bool_int false = pos 0

abbrev pub is_text : {F : Type 0} → Json F → Bool
is_text (text s) = true
is_text _ = false

abbrev pub is_bool : {F : Type 0} → Json F → Bool
is_bool (boolean b) = true
is_bool _ = false

abbrev pub is_integer : {F : Type 0} → Json F → Bool
is_integer (integer z) = true
is_integer _ = false

abbrev pub is_list : {F : Type 0} → Json F → Bool
is_list (arr items) = true
is_list _ = false

abbrev pub is_null : {F : Type 0} → Json F → Bool
is_null null = true
is_null _ = false

abbrev pub texts : {F : Type 0} → List Text → Items F
texts [] = nil
texts (s ∷ ss) = cons (text s) (texts ss)

-- `set(d) == {...}` of a value that has to be a dictionary.
abbrev pub has_keys : {F : Type 0} → Json F → List Text → Bool
has_keys (obj fields) names = same_set (keys fields) names
has_keys _ names = false

-- `d[key]`; `none` is a KeyError, or a TypeError of another value.
unfoldable pub item : {F : Type 0} → Json F → Text → Option (Json F)
item (obj fields) key = get fields key
item _ key = none

-- `d.get(key)`; `none` is an AttributeError.
unfoldable pub get_value : {F : Type 0} → Json F → Text → Option (Json F)
get_value (obj fields) key = some (or_null (get fields key))
get_value _ key = none

module _ {F : Type 0} (tests : FloatTests F) where
  abbrev pub int_eq : ℤ → Json F → Bool
  int_eq z (boolean b) = eq_ℤ z (bool_int b)
  int_eq z (integer y) = eq_ℤ z y
  int_eq z (real x) = tests.same_int x z
  int_eq z _ = false

  abbrev pub real_eq : F → Json F → Bool
  real_eq x (boolean b) = tests.same_int x (bool_int b)
  real_eq x (integer y) = tests.same_int x y
  real_eq x (real y) = tests.same x y
  real_eq x _ = false

  -- Dictionaries are equal if they have as many keys, and each value of one equals the other's.
  unfoldable mutual
    pub json_eq : Json F → Json F → Bool
    json_eq null b = is_null b
    json_eq (boolean a) b = int_eq (bool_int a) b
    json_eq (integer z) b = int_eq z b
    json_eq (real x) b = real_eq x b
    json_eq (text s) b = elim b [ text t ↦ text_eq s t | _ ↦ false ]
    json_eq (arr xs) b = elim b [ arr ys ↦ items_eq xs ys | _ ↦ false ]
    json_eq (obj fs) b = elim b [
      | obj gs ↦ (count_fields fs == count_fields gs) && fields_in fs gs
      | _ ↦ false
    ]

    pub items_eq : Items F → Items F → Bool
    items_eq nil nil = true
    items_eq nil (cons y ys) = false
    items_eq (cons x xs) nil = false
    items_eq (cons x xs) (cons y ys) = json_eq x y && items_eq xs ys

    pub fields_in : Fields F → Fields F → Bool
    fields_in end gs = true
    fields_in (field k v fs) gs =
        let rest = fields_in fs gs in
        elim (get gs k) [ none ↦ false | some w ↦ json_eq v w && rest ]

  -- `bool(value)`
  abbrev pub truthy : Json F → Bool
  truthy null = false
  truthy (boolean b) = b
  truthy (integer z) = not (eq_ℤ z (pos 0))
  truthy (real x) = not (tests.same_int x (pos 0))
  truthy (text []) = false
  truthy (text (c ∷ s)) = true
  truthy (arr nil) = false
  truthy (arr (cons v items)) = true
  truthy (obj end) = false
  truthy (obj (field k v fields)) = true
