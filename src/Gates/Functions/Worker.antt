-- ===== src/Gates/Functions/Worker.antt =====
-- tools/differential_functions.py, `worker_entry`, and tools/function_runtime.py, `worker_case`: what
-- the gate sends, the worker reads.
pub mod Request
pub mod Reflexive
pub mod Agreed
use purepy.Base.{
  suc, Option-cases, inl, inr, true, false, ◌&&◌, some, List, [], ◌∷◌, leb, Text, codes, text_eq,
  length, map, All, ◌≡◌, refl, ap, ◌∙◌, both_true,
}
use purepy.Base.Json.{Json, Items, text, arr, obj, nil, cons, end, field, get, contains, all_in}
use purepy.Base.Python.{count_items, item}
use purepy.Semantics.Values.{Floats, Values, empty, more, count_values}
use purepy.Semantics.Arguments.{bounded_value, bounded_values}
use purepy.Semantics.Sources.{RuntimeCase, max_parameters, is_canonical}
use purepy.Semantics.Sources.Validated.{
  Python, parameters_allowed, same_parameters, metadata_allowed, has_exact_type, arguments_allowed,
  invocations_allowed, max_invocations, validated_tree, validate_case,
}
use purepy.Semantics.Sources.Parts.{validated_tree-parts}
use purepy.Semantics.Sources.Worker.{
  as_text, as_list, read_pair, read_pairs, read_invocation, read_invocations, read_fields,
  worker_case,
}
use purepy.Semantics.Sources.Worker.Sent.{AreSendable}
use purepy.Semantics.Sources.Worker.ReadBack.{encode_values-AreRead}
use purepy.Gates.Functions.{
  Invocation, FunctionCase, pair_entries, argument_entry, argument_entries, worker_entry,
}

-- The case without its oracles.
unfoldable pub without_oracles : {F : Type 0} → FunctionCase F → RuntimeCase F
without_oracles case = record {
  name = case.name;
  family = case.family;
  source = case.source;
  parameters = case.parameters;
  returns = case.returns;
  invocations = map (λ i. i.arguments) case.invocations;
}

read_pairs-pair_entries :
    (F : Type 0) (parameters : List (Text × Text))
    → read_pairs (pair_entries {F = F} parameters) ≡ some parameters
unfolding read_pairs read_pair pair_entries
read_pairs-pair_entries F [] = refl
read_pairs-pair_entries F ((name, annotation) ∷ parameters) =
    rw (read_pairs-pair_entries F parameters) refl

count-pair_entries :
    (F : Type 0) (parameters : List (Text × Text))
    → count_items (pair_entries {F = F} parameters) ≡ length parameters
unfolding pair_entries
count-pair_entries F [] = refl
count-pair_entries F (p ∷ parameters) = ap suc (count-pair_entries F parameters)

module _ {F : Type 0} (floats : Floats F) where
  arguments_allowed-bounded_values :
      (vs : Values F) (parameters : List (Text × Text))
      → arguments_allowed floats vs parameters ≡ true
      → (bounded_values vs 0 ≡ true) × (count_values vs ≡ length parameters)
  unfolding arguments_allowed bounded_values
  arguments_allowed-bounded_values empty [] h = (refl, refl)
  arguments_allowed-bounded_values empty (p ∷ parameters) h = absurd cc
  arguments_allowed-bounded_values (more v vs) [] h = absurd cc
  arguments_allowed-bounded_values (more v vs) ((name, annotation) ∷ parameters) h =
      let (here, rest) =
        both_true (bounded_value v 0 && has_exact_type floats v annotation)
          (arguments_allowed floats vs parameters) h in
      let (small, _) = both_true (bounded_value v 0) (has_exact_type floats v annotation) here in
      let (others, count) = arguments_allowed-bounded_values vs parameters rest in
      (rw small others, ap suc count)

  read_invocation-argument_entry :
      (i : Invocation F) (parameters : List (Text × Text))
      → leb (length parameters) max_parameters ≡ true
      → AreSendable floats i.arguments
      → arguments_allowed floats i.arguments parameters ≡ true
      → (j : Json F) × (argument_entry floats i ≡ some j)
        × (read_invocation floats j ≡ some i.arguments)
  unfolding argument_entry read_invocation as_list item get text_eq all_in contains
  read_invocation-argument_entry i parameters few sendable allowed =
      let (bounded, count) = arguments_allowed-bounded_values i.arguments parameters allowed in
      let (items, made, read, same) = encode_values-AreRead floats i.arguments 0 sendable bounded in
      let short : leb (count_items items) max_parameters ≡ true =
        ap (λ n. leb n max_parameters) (same ∙ count) ∙ few in
      (obj (field (codes "arguments") (arr items) end), rw made refl, rw (short, read) refl)

  read_invocations-argument_entries :
      (is : List (Invocation F)) (parameters : List (Text × Text))
      → leb (length parameters) max_parameters ≡ true
      → All (λ i. AreSendable floats i.arguments) is
      → invocations_allowed floats (map (λ i. i.arguments) is) parameters ≡ true
      → (items : Items F) × (argument_entries floats is ≡ some items)
        × (read_invocations floats items ≡ some (map (λ i. i.arguments) is))
        × (count_items items ≡ length (map (λ i. i.arguments) is))
  unfolding argument_entries read_invocations invocations_allowed
  read_invocations-argument_entries [] parameters few sendable allowed = (nil, refl, refl, refl)
  read_invocations-argument_entries (i ∷ is) parameters few (this, others) allowed =
      let (here, rest) =
        both_true (arguments_allowed floats i.arguments parameters)
          (invocations_allowed floats (map (λ k. k.arguments) is) parameters) allowed in
      let (j, one, read) = read_invocation-argument_entry i parameters few this here in
      let (items, made, found, count) =
        read_invocations-argument_entries is parameters few others rest in
      (cons j items, rw (one, made) refl, rw (read, found) refl, ap suc count)

  -- The bounds that an accepted case keeps.
  abbrev KeepsBounds : RuntimeCase F → Type 0
  KeepsBounds case =
      (leb (length case.parameters) max_parameters ≡ true)
      × (leb 1 (length case.invocations) ≡ true)
      × (leb (length case.invocations) max_invocations ≡ true)
      × (invocations_allowed floats case.invocations case.parameters ≡ true)

  entry_of : FunctionCase F → Items F → Json F
  entry_of case invocations = obj (
      field (codes "name") (text case.name) (
        field (codes "family") (text case.family) (
          field (codes "source") (text case.source) (
            field (codes "parameters") (arr (pair_entries case.parameters)) (
              field (codes "returns") (text case.returns)
                (field (codes "invocations") (arr invocations) end))))))

  read_fields-entry_of :
      (case : FunctionCase F) (items : Items F)
      → KeepsBounds (without_oracles case)
      → read_invocations floats items ≡ some (map (λ i. i.arguments) case.invocations)
      → count_items items ≡ length (map (λ i. i.arguments) case.invocations)
      → read_fields floats (entry_of case items) ≡ some (without_oracles case)
  unfolding entry_of without_oracles read_fields as_list as_text item get text_eq
  read_fields-entry_of case items (few, some_runs, few_runs, allowed) read count =
      rw
        (
          count-pair_entries F case.parameters,
          few,
          read_pairs-pair_entries F case.parameters,
          count,
          few_runs,
          count,
          some_runs,
          read,
        )
        refl

  sent_invocations :
      (case : FunctionCase F)
      → All (λ i. AreSendable floats i.arguments) case.invocations
      → KeepsBounds (without_oracles case)
      → (items : Items F) × (argument_entries floats case.invocations ≡ some items)
        × (read_invocations floats items ≡ some (map (λ i. i.arguments) case.invocations))
        × (count_items items ≡ length (map (λ i. i.arguments) case.invocations))
  unfolding without_oracles
  sent_invocations case sendable (few, _, _, allowed) =
      read_invocations-argument_entries case.invocations case.parameters few sendable allowed

  module _ (python : Python F) where
    validate_case-KeepsBounds :
        (case : RuntimeCase F) → validate_case floats python case ≡ true → KeepsBounds case
    unfolding validate_case metadata_allowed
    validate_case-KeepsBounds case h = elim (Option-cases (validated_tree floats python case)) [
      | inl refused ↦ absurd (let e : false ≡ true = rw (validate_case, refused) at h in cc)
      | inr (tree, accepted) ↦
          let (_, _, probe, _, _, _, meta, runs, _, _) =
            validated_tree-parts floats python case tree accepted in
          let (p, _) = both_true _ (text_eq case.returns probe.1) meta in
          let (p, _) =
            both_true
              (leb (length case.parameters) max_parameters
                && parameters_allowed python case.parameters
                && is_canonical python.parse_expression case.returns)
              (same_parameters case.parameters probe.0) p in
          let (p, _) =
            both_true
              (leb (length case.parameters) max_parameters
                && parameters_allowed python case.parameters)
              (is_canonical python.parse_expression case.returns) p in
          let (few, _) =
            both_true (leb (length case.parameters) max_parameters)
              (parameters_allowed python case.parameters) p in
          let (counted, allowed) =
            both_true
              (leb 1 (length case.invocations) && leb (length case.invocations) max_invocations)
              (invocations_allowed floats case.invocations case.parameters) runs in
          let (some_runs, few_runs) =
            both_true (leb 1 (length case.invocations))
              (leb (length case.invocations) max_invocations) counted in
          (few, some_runs, few_runs, allowed)
    ]

    -- If `validate_case` accepts a case, oracles apart, whose floats are numbers of short texts and
    -- whose bytes are below 256, then the gate has an entry to send for it; and the worker reads that
    -- entry as the same case without its oracles, and accepts it.
    pub worker_case-worker_entry :
        (case : FunctionCase F)
        → All (λ i. AreSendable floats i.arguments) case.invocations
        → validate_case floats python (without_oracles case) ≡ true
        → (j : Json F) × (worker_entry floats case ≡ some j)
          × (worker_case floats python j ≡ some (without_oracles case))
    unfolding worker_entry worker_case entry_of text_eq all_in contains
    worker_case-worker_entry case sendable valid =
        let bounds = validate_case-KeepsBounds (without_oracles case) valid in
        let (items, made, read, count) = sent_invocations case sendable bounds in
        (
          entry_of case items,
          rw made refl,
          rw (read_fields-entry_of case items bounds read count, valid) refl,
        )
