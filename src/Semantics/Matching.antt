-- ===== src/Semantics/Matching.antt =====
-- `matches_type`: the exact runtime type of an encoded value, against the text of a type. `none` is
-- an exception, such as a KeyError.
pub mod Types
pub mod Exact
use purepy.Base.{
  ℕ, zero, suc, ◌-◌, Bool, true, false, ◌&&◌, Option, none, some, [], ◌∷◌, if◌then◌else◌, ◌>>=◌,
  Text, codes, text_eq, length, take, drop,
}
use purepy.Base.Json.{Json, Items, Fields, text, arr, obj, nil, cons, end, field, get}
use purepy.Semantics.Values.{all_of}

abbrev pub ends_with : Text → Text → Bool
ends_with suffix s = text_eq (drop (length s - length suffix) s) suffix

abbrev pub starts_with : Text → Text → Bool
starts_with front s = text_eq (take (length front) s) front

abbrev pub any_of : Option Bool → Option Bool → Option Bool
any_of none rest = none
any_of (some true) rest = some true
any_of (some false) rest = rest

module _ {F : Type 0} where
  -- `observed["type"] == name`
  unfoldable pub kind_is : Json F → Text → Option Bool
  kind_is (obj fields) name =
      get fields (codes "type") >>= λ kind. some (elim kind [ text s ↦ text_eq s name | _ ↦ false ])
  kind_is _ name = none

  unfoldable pub characters : Text → Items F
  characters [] = nil
  characters (c ∷ s) = cons (text (c ∷ [])) (characters s)

  unfoldable pub key_items : Fields F → Items F
  key_items end = nil
  key_items (field k v fields) = cons (text k) (key_items fields)

  -- What `for item in observed["value"]` goes through.
  unfoldable pub iterate : Json F → Option (Items F)
  iterate (arr items) = some items
  iterate (text s) = some (characters s)
  iterate (obj fields) = some (key_items fields)
  iterate _ = none

  unfoldable pub content_items : Json F → Option (Items F)
  content_items (obj fields) = get fields (codes "value") >>= iterate
  content_items _ = none

  unfoldable pub all_items : (Json F → Option Bool) → Items F → Option Bool
  all_items test nil = some true
  all_items test (cons item items) = all_of (test item) (all_items test items)

  -- The recursion on the text of the type, with fuel for its length.
  unfoldable pub match_fuel : ℕ → Json F → Text → Option Bool
  match_fuel zero observed expected = none
  match_fuel (suc fuel) observed expected =
      let optional = match_fuel fuel observed (take (length expected - 7) expected) in
      let element = drop 6 (take (length expected - 6) expected) in
      let items = content_items observed >>= all_items (λ item. match_fuel fuel item element) in
      if ends_with (codes " | None") expected
      then any_of (kind_is observed (codes "None")) optional
      else if starts_with (codes "tuple[") expected && ends_with (codes ", ...]") expected
      then all_of (kind_is observed (codes "tuple")) items
      else kind_is observed expected

  unfoldable pub matches_type : Json F → Text → Option Bool
  matches_type observed expected = match_fuel (suc (length expected)) observed expected
