-- ===== src/Gates/Modules/Types.antt =====
-- `exact_type` and `reported_type`.
pub mod Fuel
use purepy.Base.{
  ℕ, zero, suc, Bool, true, false, ◌&&◌, not, Option, none, some, List, [], ◌∷◌, if◌then◌else◌,
  Text, codes, text_eq, length,
}
use purepy.Base.Json.{Json, Items, Fields, text, arr, obj, nil, cons, end, field, get, contains}
use purepy.Semantics.Values.{Floats}
use purepy.Semantics.Matching.{matches_type, ends_with, starts_with}
use purepy.Gates.Modules.{
  record_fields, is_record, external_types, without_none, element_of, strip_none, entry_names,
  text_at, is_kind, valid_observation,
}

-- `and` and `or` of tests that may raise.
abbrev pub and_also : Option Bool → Option Bool → Option Bool
and_also none b = none
and_also (some false) b = some false
and_also (some true) b = b

abbrev pub or_else : Bool → Option Bool → Option Bool
or_else true b = some true
or_else false b = b

abbrev pub same_names : List Text → List (Text × Text) → Bool
same_names [] [] = true
same_names (name ∷ names) (f ∷ fields) = text_eq name f.0 && same_names names fields
same_names _ _ = false

abbrev pub fields_or_none : Text → List (Text × Text)
fields_or_none name = elim (record_fields name) [ some fields ↦ fields | none ↦ [] ]

abbrev pub is_tuple_type : Text → Bool
is_tuple_type s = starts_with (codes "tuple[") s && ends_with (codes ", ...]") s

abbrev pub external_kind : Text → Text
external_kind name =
    if text_eq name (codes "fixture.Read")
    then codes "capability"
    else if text_eq name (codes "fixture.Connection")
    then codes "host_ref"
    else codes "value"

module _ {F : Type 0} where
  abbrev pub names_of : Option (Json F) → List Text
  names_of (some (arr items)) = entry_names items
  names_of _ = []

module _ {F : Type 0} (floats : Floats F) where
  unfoldable mutual
    -- The value is observed as valid; then the annotation without " | None" decides.
    pub exact_type : Json F → Text → Option Bool
    exact_type (obj fields) annotation =
        let stripped = strip_none (length annotation) annotation in
        let core = stripped.1 in
        let elements = exact_content fields core in
        if not (valid_observation floats (obj fields) 0)
        then some false
        else or_else (stripped.0 && is_kind fields (codes "None")) (
            if is_tuple_type core
            then and_also (some (is_kind fields (codes "tuple"))) elements
            else if is_record core
            then and_also
                (some (
                  is_kind fields (codes "record")
                  && text_eq (text_at fields (codes "name")) core
                  && same_names (names_of (get fields (codes "fields"))) (fields_or_none core)))
                elements
            else if contains external_types core
            then some
                (is_kind fields (codes "external") && text_eq (text_at fields (codes "name")) core)
            else matches_type (obj fields) core)
    exact_type _ annotation = some false

    -- What a tuple or a record holds.
    pub exact_content : Fields F → Text → Option Bool
    exact_content end core = some true
    exact_content (field k v fields) core =
        let elements = exact_list v core in
        let there = exact_content fields core in
        if text_eq k (if is_tuple_type core then codes "value" else codes "fields")
        then elements
        else there

    pub exact_list : Json F → Text → Option Bool
    exact_list (arr items) core =
        let elements = exact_elements items (element_of core) in
        let entries = exact_entries items (fields_or_none core) in
        if is_tuple_type core then elements else entries
    exact_list _ core = some true

    pub exact_elements : Items F → Text → Option Bool
    exact_elements nil annotation = some true
    exact_elements (cons v items) annotation =
        and_also (exact_type v annotation) (exact_elements items annotation)

    -- `zip` of the entries and the declared fields
    pub exact_entries : Items F → List (Text × Text) → Option Bool
    exact_entries (cons (arr (cons (text s) (cons v nil))) items) (f ∷ fields) =
        and_also (exact_type v f.1) (exact_entries items fields)
    exact_entries _ _ = some true

module _ {F : Type 0} where
  abbrev pub element_report : Text → Json F → Json F
  element_report kind element =
      obj (field (codes "kind") (text kind) (field (codes "element") element end))

  abbrev pub named_report : Text → Text → Json F
  named_report kind name =
      obj (field (codes "kind") (text kind) (field (codes "name") (text name) end))

  unfoldable pub report_fuel : ℕ → Text → Json F
  report_fuel zero annotation = obj (field (codes "kind") (text annotation) end)
  report_fuel (suc fuel) annotation =
      let inner = report_fuel fuel (without_none annotation) in
      let element = report_fuel fuel (element_of annotation) in
      if ends_with (codes " | None") annotation
      then element_report (codes "optional") inner
      else if starts_with (codes "tuple[") annotation
      then element_report (codes "tuple") element
      else if is_record annotation
      then named_report (codes "record") annotation
      else if contains external_types annotation
      then named_report (external_kind annotation) annotation
      else obj (field (codes "kind") (text annotation) end)

  -- Each call is shorter than the one before.
  unfoldable pub reported_type : Text → Json F
  reported_type annotation = report_fuel (length annotation) annotation
