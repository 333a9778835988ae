-- ===== src/Gates/Known.antt =====
-- `known_value` of tools/differential_functions.py: bounded tagged data of the known kinds.
pub mod Portable
use purepy.Base.{
  ℕ, suc, Bool, true, false, ◌&&◌, Option, none, some, List, [], ◌∷◌, leb, if◌then◌else◌, Text,
  codes, text_eq,
}
use purepy.Base.Json.{
  Json, Items, Fields, text, arr, obj, nil, cons, end, field, get, contains, keys, same_set,
}
use purepy.Base.Python.{count_items}
use purepy.Semantics.Values.{Floats, valid_value}

abbrev pub sure : Option Bool → Bool
sure none = false
sure (some b) = b

abbrev pub primitives : List Text
primitives =
    codes "None" ∷ codes "bool" ∷ codes "int" ∷ codes "float" ∷ codes "str" ∷ codes "bytes" ∷ []

module _ {F : Type 0} (floats : Floats F) where
  unfoldable mutual
    pub known_value : Json F → ℕ → Bool
    known_value (obj fields) depth =
        let content = known_content fields depth in
        leb depth 8
        && same_set (keys fields) (codes "type" ∷ codes "value" ∷ [])
        && (elim (get fields (codes "type")) [
          | some (text kind) ↦
              if text_eq kind (codes "tuple")
              then content
              else contains primitives kind && sure (valid_value floats (obj fields))
          | _ ↦ false
        ])
    known_value _ depth = false

    -- The list under "value".
    pub known_content : Fields F → ℕ → Bool
    known_content end depth = false
    known_content (field k v fields) depth =
        let here = known_sequence v depth in
        let there = known_content fields depth in if text_eq k (codes "value") then here else there

    pub known_sequence : Json F → ℕ → Bool
    known_sequence (arr items) depth = leb (count_items items) 4096 && known_items items (suc depth)
    known_sequence _ depth = false

    pub known_items : Items F → ℕ → Bool
    known_items nil depth = true
    known_items (cons v items) depth = known_value v depth && known_items items depth
