-- ===== src/Gates/Modules.antt =====
-- tools/differential_modules.py: observed values of fixed projects, and their declared types.
pub mod Types
pub mod Compare
pub mod Coroutine
pub mod Run
use purepy.Base.{
  ℕ, zero, suc, ◌+◌, ◌-◌, Bool, true, false, ◌&&◌, ◌||◌, not, Option, none, some, List, [], ◌∷◌,
  ◌++◌, leb, ltb, ◌==◌, if◌then◌else◌, ◌>>=◌, Text, codes, text_eq, length, take, drop, map,
}
use purepy.Base.Json.{
  Json, Items, Fields, text, arr, obj, nil, cons, end, field, get, contains, keys, same_set,
}
use purepy.Base.Python.{count_items}
use purepy.Semantics.Values.{Floats}
use purepy.Semantics.Matching.{ends_with}
use purepy.Gates.Known.{known_value}
use purepy.Gates.Expressions.Run.{all_distinct}

abbrev pub pair_fields : List (Text × Text)
pair_fields = (codes "x", codes "int") ∷ (codes "label", codes "str") ∷ []

-- `RECORD_FIELDS`
abbrev pub record_fields : Text → Option (List (Text × Text))
record_fields name =
    if contains
      (codes "models.Pair" ∷ codes "left.Pair" ∷ codes "right.Pair" ∷ codes "pkg.models.Pair" ∷ [])
      name
    then some pair_fields
    else if text_eq name (codes "main.Batch")
    then some ((codes "entries", codes "tuple[models.Pair | None, ...]") ∷ [])
    else if text_eq name (codes "main.Box")
    then some ((codes "token", codes "fixture.Token") ∷ [])
    else none

abbrev pub external_types : List Text
external_types = codes "fixture.Token" ∷ codes "fixture.Read" ∷ codes "fixture.Connection" ∷ []

abbrev pub is_record : Text → Bool
is_record name = elim (record_fields name) [ some fields ↦ true | none ↦ false ]

-- An annotation without its last " | None", and without "tuple[" and ", ...]".
abbrev pub without_none : Text → Text
without_none s = take (length s - 7) s

abbrev pub element_of : Text → Text
element_of s = drop 6 (take (length s - 6) s)

-- An annotation without any " | None" at its end, and whether there was one.
unfoldable pub strip_none : ℕ → Text → Bool × Text
strip_none zero s = (false, s)
strip_none (suc fuel) s =
    let rest = strip_none fuel (without_none s) in
    if ends_with (codes " | None") s then (true, rest.1) else (false, s)

module _ {F : Type 0} where
  unfoldable pub entry_names : Items F → List Text
  entry_names nil = []
  entry_names (cons (arr (cons (text s) (cons v nil))) items) = s ∷ entry_names items
  entry_names (cons v items) = entry_names items

  -- A text under a key, or the empty text.
  abbrev pub text_at : Fields F → Text → Text
  text_at fields key = elim (get fields key) [ some (text s) ↦ s | _ ↦ [] ]

  abbrev pub is_kind : Fields F → Text → Bool
  is_kind fields kind = elim (get fields (codes "type")) [
    | some (text s) ↦ text_eq s kind
    | _ ↦ false
  ]

  abbrev pub valid_external : Fields F → Bool
  valid_external fields =
      same_set (keys fields) (codes "type" ∷ codes "name" ∷ codes "value" ∷ [])
      && contains external_types (text_at fields (codes "name"))
      && (elim (get fields (codes "value")) [ some (text s) ↦ leb (length s) 128 | _ ↦ false ])

module _ {F : Type 0} (floats : Floats F) where
  unfoldable mutual
    pub valid_observation : Json F → ℕ → Bool
    valid_observation (obj fields) depth =
        let entries = valid_content fields (codes "fields") depth in
        let items = valid_content fields (codes "value") depth in
        leb depth 8
        && (if is_kind fields (codes "record")
            then same_set (keys fields) (codes "type" ∷ codes "name" ∷ codes "fields" ∷ [])
              && is_record (text_at fields (codes "name"))
              && entries
            else if is_kind fields (codes "external")
            then valid_external fields
            else if is_kind fields (codes "tuple")
            then same_set (keys fields) (codes "type" ∷ codes "value" ∷ []) && items
            else known_value floats (obj fields) 0)
    valid_observation _ depth = false

    -- The list under "fields" or under "value".
    pub valid_content : Fields F → Text → ℕ → Bool
    valid_content end key depth = false
    valid_content (field k v fields) key depth =
        let entries = valid_entries v depth in
        let items = valid_elements v depth in
        let there = valid_content fields key depth in
        if not (text_eq k key)
        then there
        else if text_eq key (codes "fields")
        then entries
        else items

    pub valid_entries : Json F → ℕ → Bool
    valid_entries (arr items) depth =
        leb (count_items items) 16
        && all_entries items (suc depth)
        && all_distinct (entry_names items)
    valid_entries _ depth = false

    pub valid_elements : Json F → ℕ → Bool
    valid_elements (arr items) depth = leb (count_items items) 64 && all_elements items (suc depth)
    valid_elements _ depth = false

    pub all_entries : Items F → ℕ → Bool
    all_entries nil depth = true
    all_entries (cons (arr (cons (text s) (cons v nil))) items) depth =
        valid_observation v depth && all_entries items depth
    all_entries _ depth = false

    pub all_elements : Items F → ℕ → Bool
    all_elements nil depth = true
    all_elements (cons v items) depth = valid_observation v depth && all_elements items depth
