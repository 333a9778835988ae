-- ===== src/Semantics/Arguments.antt =====
-- tools/function_runtime.py: bounded values and the arguments of invocations. `none` is a CorpusError.
pub mod Bounded
use purepy.Base.{
  ℕ, suc, ◌+◌, ◌*◌, ◌^◌, Bool, true, false, ◌&&◌, ◌||◌, not, Option, none, some, [], ◌∷◌, List, leb,
  ltb, if◌then◌else◌, ◌>>=◌, Text, codes, text_eq, length,
}
use purepy.Base.Int.{ℤ, pos_part, neg_part}
use purepy.Base.Json.{
  Json, Items, Fields, text, arr, obj, nil, cons, end, field, get, contains, keys, same_set,
}
use purepy.Base.Python.{count_items, require}
use purepy.Semantics.Values.{
  Floats, Value, Values, none_value, bool_value, int_value, float_value, str_value, bytes_value,
  tuple_value, other_value, empty, more, count_values, decode_value,
}

abbrev pub max_depth : ℕ
max_depth = 4

abbrev pub max_elements : ℕ
max_elements = 16

abbrev pub max_text : ℕ
max_text = 128

-- PRIMITIVES
abbrev pub primitive_kinds : List Text
primitive_kinds =
    codes "None" ∷ codes "bool" ∷ codes "int" ∷ codes "float" ∷ codes "str" ∷ codes "bytes" ∷ []

-- At most 256 bits.
abbrev pub small_int : ℤ → Bool
small_int z = ltb (pos_part z + neg_part z) (2 ^ 256)

-- `_bounded_value`: does it raise nothing?
unfoldable mutual
  pub bounded_value : {F : Type 0} → Value F → ℕ → Bool
  bounded_value none_value depth = leb depth max_depth
  bounded_value (bool_value b) depth = leb depth max_depth
  bounded_value (float_value x) depth = leb depth max_depth
  bounded_value (int_value z) depth = leb depth max_depth && small_int z
  bounded_value (str_value s) depth = leb depth max_depth && leb (length s) max_text
  bounded_value (bytes_value b) depth = leb depth max_depth && leb (length b) max_text
  bounded_value (tuple_value vs) depth =
      leb depth max_depth && leb (count_values vs) max_elements && bounded_values vs (suc depth)
  bounded_value (other_value kind) depth = false

  pub bounded_values : {F : Type 0} → Values F → ℕ → Bool
  bounded_values empty depth = true
  bounded_values (more v vs) depth = bounded_value v depth && bounded_values vs depth

module _ {F : Type 0} where
  abbrev pub text_up_to : ℕ → Option (Json F) → Bool
  text_up_to n (some (text s)) = leb (length s) n
  text_up_to n _ = false

  -- The encoded size, of the kinds that have one.
  abbrev pub sized : Text → Fields F → Bool
  sized kind fields =
      if text_eq kind (codes "int")
      then text_up_to 80 (get fields (codes "value"))
      else if text_eq kind (codes "bytes")
      then text_up_to (2 * max_text) (get fields (codes "value"))
      else if text_eq kind (codes "float") || text_eq kind (codes "str")
      then text_up_to max_text (get fields (codes "value"))
      else true

  abbrev pub if_bounded : ℕ → Value F → Option (Value F)
  if_bounded depth v = if bounded_value v depth then some v else none

module _ {F : Type 0} (floats : Floats F) where
  unfoldable mutual
    pub decode_argument : Json F → ℕ → Option (Value F)
    decode_argument (obj fields) depth =
        let items = decode_content fields depth in
        if leb depth max_depth && same_set (keys fields) (codes "type" ∷ codes "value" ∷ [])
        then (elim (get fields (codes "type")) [
          | some (text kind) ↦
              if text_eq kind (codes "tuple")
              then (items >>= λ vs. if_bounded depth (tuple_value vs))
              else if contains primitive_kinds kind && sized kind fields
              then (decode_value floats (obj fields) >>= if_bounded depth)
              else none
          | _ ↦ none
        ])
        else none
    decode_argument _ depth = none

    -- The list under "value".
    pub decode_content : Fields F → ℕ → Option (Values F)
    decode_content end depth = none
    decode_content (field k v fields) depth =
        let here = decode_list v depth in
        let there = decode_content fields depth in if text_eq k (codes "value") then here else there

    pub decode_list : Json F → ℕ → Option (Values F)
    decode_list (arr items) depth =
        let values = decode_elements items (suc depth) in
        if leb (count_items items) max_elements then values else none
    decode_list _ depth = none

    pub decode_elements : Items F → ℕ → Option (Values F)
    decode_elements nil depth = some empty
    decode_elements (cons v items) depth = decode_argument v depth >>= λ first.
        decode_elements items depth >>= λ rest. some (more first rest)
