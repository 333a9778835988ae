-- ===== src/Base/Json.antt =====
-- What `json.loads` returns, over the floats `F`, and the dictionary operations that the tools use.
use mathlib.Core.Bool.{Bool, true, false, ◌&&◌, ◌||◌}
use mathlib.Core.Option.{Option, none, some}
use mathlib.Core.List.{List, [], ◌∷◌}
use purepy.Base.Tests.{if◌then◌else◌}
use purepy.Base.Texts.{Text, text_eq}
use purepy.Base.Int.{ℤ}

mutual
  pub data Json (F : Type 0) : Type 0 where
    null : Json F
    boolean : Bool → Json F
    integer : ℤ → Json F
    real : F → Json F
    text : Text → Json F
    arr : Items F → Json F
    obj : Fields F → Json F

  pub data Items (F : Type 0) : Type 0 where
    nil : Items F
    cons : Json F → Items F → Items F

  pub data Fields (F : Type 0) : Type 0 where
    end : Fields F
    field : Text → Json F → Fields F → Fields F

-- `d.get(key)`, where a missing key is told apart from None.
unfoldable pub get : {F : Type 0} → Fields F → Text → Option (Json F)
get end key = none
get (field k v fields) key = if text_eq k key then some v else get fields key

abbrev pub or_null : {F : Type 0} → Option (Json F) → Json F
or_null none = null
or_null (some v) = v

abbrev pub keys : {F : Type 0} → Fields F → List Text
keys end = []
keys (field k v fields) = k ∷ keys fields

unfoldable pub contains : List Text → Text → Bool
contains [] key = false
contains (k ∷ ks) key = text_eq k key || contains ks key

-- `set(xs) <= set(ys)`
unfoldable pub all_in : List Text → List Text → Bool
unfolding contains
all_in [] ys = true
all_in (x ∷ xs) ys = contains ys x && all_in xs ys

-- `set(xs) == set(ys)`
abbrev pub same_set : List Text → List Text → Bool
same_set xs ys = all_in xs ys && all_in ys xs
