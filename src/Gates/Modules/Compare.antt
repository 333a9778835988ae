-- ===== src/Gates/Modules/Compare.antt =====
-- `compare_case` of the modules.
pub mod Agreement
use purepy.Base.{
  ℕ, zero, suc, ◌+◌, ◌-◌, Bool, true, false, ◌&&◌, ◌||◌, not, Option, none, some, List, [], ◌∷◌,
  ◌++◌, leb, ltb, ◌==◌, if◌then◌else◌, ◌>>=◌, Text, codes, text_eq, length, map,
}
use purepy.Base.Int.{pos, eq_ℤ}
use purepy.Base.Json.{
  Json, Items, Fields, null, boolean, integer, text, arr, obj, nil, cons, end, field, get, contains,
  keys, same_set, all_in, or_null,
}
use purepy.Base.Python.{FloatTests, json_eq, count_items, is_null}
use purepy.Semantics.Values.{Floats}
use purepy.Gates.Expressions.Compare.{same_bool, no_exception, same_exception}
use purepy.Gates.Functions.Compare.{note, is_nil, diagnostic_codes, is_index}
use purepy.Gates.Modules.{valid_observation}
use purepy.Gates.Modules.Types.{exact_type, reported_type}

-- A call, with its expected value as `input_data` gives it, and the events of the host.
pub record Call (F : Type 0) : Type 0 where
  pub expected : Json F
  pub exception : Option Text
  pub events : Items F

-- A case, with its fingerprint.
pub record ModuleCase (F : Type 0) : Type 0 where
  pub name : Text
  pub fingerprint : Text
  pub kind : Text
  pub classification : Text
  pub returns : Text
  pub expected_codes : List Text
  pub calls : List (Call F)

pub data Trouble : Type 0 where
  malformed_outcome wrong_events malformed_exception wrong_exception malformed_value : Trouble
  missing_exception wrong_type wrong_value : Trouble

pub data Problem : Type 0 where
  malformed_report contradiction internal_failure wrong_verdict wrong_codes wrong_signature :
      Problem
  malformed_result : Problem
  invocation : (index : ℕ) (trouble : Trouble) → Problem

-- The events and the value or the exception of an outcome of the right index.
pub data Outcome (F : Type 0) : Type 0 where
  value_outcome exception_outcome : (events outcome : Json F) → Outcome F
  bad_outcome : Outcome F

pub record Verdict (F : Type 0) : Type 0 where
  pub ok : Bool
  pub codes_found : List Text
  pub functions : Items F

abbrev pub exceptions : List Text
exceptions =
    codes "ZeroDivisionError"
    ∷ codes "OverflowError"
    ∷ codes "ValueError"
    ∷ codes "TypeError"
    ∷ codes "IndexError"
    ∷ codes "AttributeError"
    ∷ []

module _ {F : Type 0} where
  abbrev pub is_scalar : Json F → Bool
  is_scalar (text s) = true
  is_scalar (integer z) = true
  is_scalar _ = false

  unfoldable pub all_scalars : Items F → Bool
  all_scalars nil = true
  all_scalars (cons v items) = is_scalar v && all_scalars items

  unfoldable pub all_events : Items F → Bool
  all_events nil = true
  all_events (cons (arr event) items) =
      not (count_items event == 0)
      && leb (count_items event) 4
      && all_scalars event
      && all_events items
  all_events _ = false

  abbrev pub is_given_text : Option (Json F) → Bool
  is_given_text (some (text (c ∷ s))) = true
  is_given_text _ = false

  abbrev pub is_two : Option (Json F) → Bool
  is_two (some (integer z)) = eq_ℤ z (pos 2)
  is_two _ = false

  unfoldable pub read_verdict : Fields F → Option (Verdict F)
  read_verdict static = elim (get static (codes "ok")) [
    | some (boolean ok) ↦ elim (get static (codes "diagnostics")) [
      | some (arr diagnostics) ↦ elim (get static (codes "functions")) [
        | some (arr functions) ↦
            let found = diagnostic_codes diagnostics in
            if is_two (get static (codes "schema"))
              && is_given_text (get static (codes "verifier_version"))
            then found
              >>= (λ cs. some (record { ok = ok; codes_found = cs; functions = functions }))
            else none
        | _ ↦ none
      ]
      | _ ↦ none
    ]
    | _ ↦ none
  ]

  unfoldable pub read_outcome : ℕ → Json F → Outcome F
  read_outcome index (obj fields) =
      if not (is_index index (get fields (codes "index")))
      then bad_outcome
      else if same_set (keys fields) (codes "index" ∷ codes "value" ∷ codes "events" ∷ [])
      then value_outcome (or_null (get fields (codes "events")))
          (or_null (get fields (codes "value")))
      else if same_set (keys fields) (codes "index" ∷ codes "exception" ∷ codes "events" ∷ [])
      then exception_outcome (or_null (get fields (codes "events")))
          (or_null (get fields (codes "exception")))
      else bad_outcome
  read_outcome index _ = bad_outcome

  abbrev pub named_probe : Json F → Bool
  named_probe (obj fields) = elim (get fields (codes "name")) [
    | some (text s) ↦ text_eq s (codes "main.probe")
    | _ ↦ false
  ]
  named_probe _ = false

  unfoldable pub probes : Items F → Items F
  probes nil = nil
  probes (cons v items) = let rest = probes items in if named_probe v then cons v rest else rest

  abbrev pub has_text : Fields F → Text → Text → Bool
  has_text fields key wanted = elim (get fields key) [
    | some (text s) ↦ text_eq s wanted
    | _ ↦ false
  ]

module _ {F : Type 0} (floats : Floats F) (tests : FloatTests F) where
  abbrev pub good_probe : ModuleCase F → Items F → Bool
  good_probe case (cons (obj probe) nil) =
      json_eq tests (or_null (get probe (codes "returns"))) (reported_type case.returns)
      && has_text probe (codes "kind") case.kind
      && has_text probe (codes "classification") case.classification
  good_probe case _ = false

  -- What is wrong with the verdict, the codes and the entry point.
  unfoldable pub compare_static : ModuleCase F → Verdict F → List Problem
  compare_static case verdict =
      note (not (same_bool verdict.ok (is_nil verdict.codes_found))) contradiction
      ++ (note (contains verdict.codes_found (codes "PP099")) internal_failure
          ++ (note (not (same_bool verdict.ok (is_nil case.expected_codes))) wrong_verdict
              ++ (note (not (same_set verdict.codes_found case.expected_codes)) wrong_codes
                  ++ note (verdict.ok && not (good_probe case (probes verdict.functions)))
                      wrong_signature)))

  abbrev pub good_events : Items F → Json F → Bool
  good_events expected (arr events) =
      leb (count_items events) 64 && all_events events && json_eq tests (arr events) (arr expected)
  good_events expected _ = false

  abbrev pub wrong_types : Bool → Text → Json F → Option Bool
  wrong_types false returns value = some false
  wrong_types true returns value = exact_type floats value returns >>= λ exact. some (not exact)

  unfoldable pub compare_value : Bool → Text → Call F → Json F → Option (List Trouble)
  compare_value ok returns call value =
      let checked = wrong_types ok returns value in
      if not (valid_observation floats value 0)
      then some (malformed_value ∷ [])
      else (checked >>= λ wrong. some (
          note (not (no_exception call.exception)) missing_exception
          ++ (note wrong wrong_type ++ note (not (json_eq tests value call.expected)) wrong_value)))

  abbrev pub compare_exception : Call F → Json F → List Trouble
  compare_exception call (text name) =
      if not (contains exceptions name)
      then malformed_exception ∷ []
      else note (not (same_exception call.exception name)) wrong_exception
  compare_exception call _ = malformed_exception ∷ []

  unfoldable pub compare_outcome : Bool → Text → Call F → Outcome F → Option (List Trouble)
  compare_outcome ok returns call bad_outcome = some (malformed_outcome ∷ [])
  compare_outcome ok returns call (exception_outcome events e) =
      some (note (not (good_events call.events events)) wrong_events ++ compare_exception call e)
  compare_outcome ok returns call (value_outcome events value) =
      compare_value ok returns call value >>= λ troubles.
      some (note (not (good_events call.events events)) wrong_events ++ troubles)

  unfoldable pub compare_outcomes :
      Bool → Text → ℕ → List (Call F) → Items F → Option (List Problem)
  compare_outcomes ok returns index (call ∷ calls) (cons outcome outcomes) =
      compare_outcome ok returns call (read_outcome index outcome) >>= λ troubles.
      compare_outcomes ok returns (suc index) calls outcomes >>= λ rest.
      some (map (invocation index) troubles ++ rest)
  compare_outcomes ok returns index _ _ = some []

  abbrev pub as_many : List (Call F) → Items F → Bool
  as_many [] nil = true
  as_many (call ∷ calls) (cons outcome outcomes) = as_many calls outcomes
  as_many _ _ = false

  unfoldable pub compare_listed :
      ModuleCase F → Bool → Fields F → Option (Json F) → Option (List Problem)
  compare_listed case ok runtime (some (arr outcomes)) =
      let compared = compare_outcomes ok case.returns 0 case.calls outcomes in
      if same_set (keys runtime) (codes "name" ∷ codes "fingerprint" ∷ codes "outcomes" ∷ [])
        && has_text runtime (codes "name") case.name
        && has_text runtime (codes "fingerprint") case.fingerprint
        && as_many case.calls outcomes
      then compared
      else some (malformed_result ∷ [])
  compare_listed case ok runtime _ = some (malformed_result ∷ [])

  unfoldable pub compare_read : ModuleCase F → Option (Verdict F) → Fields F → Option (List Problem)
  compare_read case none runtime = some (malformed_report ∷ [])
  compare_read case (some verdict) runtime =
      compare_listed case verdict.ok runtime (get runtime (codes "outcomes")) >>= λ problems.
      some (compare_static case verdict ++ problems)

  unfoldable pub compare_case : ModuleCase F → Fields F → Fields F → Option (List Problem)
  compare_case case static runtime = compare_read case (read_verdict static) runtime
