-- ===== src/Gates/Functions/Compare/Agreement.antt =====
-- What no problem means for a case that is to be accepted.
use purepy.Base.{
  cons-nil, append_empty, ℕ, suc, Bool, true, false, ◌&&◌, not, Option, none, some, List, [], ◌∷◌,
  Text, codes, map, ◌≡◌, ◌≢◌, refl, sym, ap, ◌∙◌, arith, Bool-cases, inl, inr, bind-some,
  some-injective,
}
use purepy.Base.Json.{Json, Items, Fields, arr, obj, nil, cons, get, same_set, keys, contains}
use purepy.Base.Python.{FloatTests, json_eq}
use purepy.Semantics.Values.{Floats, Value, encode_value}
use purepy.Semantics.Matching.{matches_type}
use purepy.Gates.Known.{known_value}
use purepy.Gates.Expressions.Compare.{same_bool, no_exception}
use purepy.Gates.Functions.{Invocation, FunctionCase}
use purepy.Gates.Functions.Compare.{
  invocation, malformed_outcome, malformed_value, malformed_exception, wrong_exception,
  unexpected_exception, wrong_type, wrong_value, malformed_verdict, malformed_result, contradiction,
  wrong_verdict, internal_failure, note, is_nil, Outcome, value_outcome, exception_outcome,
  bad_outcome, read_verdict, read_outcome, wrong_values, wrong_types, compare_value,
  known_exception, is_exception, or_missing, compare_outcome, compare_outcomes, as_many,
  compare_listed, compare_result, compare_codes, compare_read, compare_case,
}

pub map-nil {ℓ κ} : {A : Type ℓ} {B : Type κ} (f : A → B) (xs : List A) → map f xs ≡ [] → xs ≡ []
map-nil f [] h = refl
map-nil f (x ∷ xs) h = elim (cons-nil (f x) (map f xs) h) [ ]

pub note_off {ℓ} : {A : Type ℓ} (b : Bool) (x : A) → note b x ≡ [] → b ≡ false
note_off false x h = refl
note_off true x h = elim (cons-nil x [] h) [ ]

pub distinct : false ≢ true
distinct e = cc

pub same_bool_eq : (a b : Bool) → same_bool a b ≡ true → a ≡ b
same_bool_eq true b h = sym h
same_bool_eq false b h = ground (arith, h)

pub not_off : (b : Bool) → not b ≡ false → b ≡ true
not_off true h = refl
not_off false h = sym h

pub is_nil_eq : (found : List Text) → is_nil found ≡ true → found ≡ []
is_nil_eq [] h = refl
is_nil_eq (x ∷ xs) h = elim (distinct h) [ ]

module _ {F : Type 0} (floats : Floats F) (tests : FloatTests F) where
  -- Equal to the encoding of the expected value, if it is to be checked.
  abbrev pub EqualsExpected : Bool → Value F → Json F → Type 0
  EqualsExpected true expected value =
      (wanted : Json F) × (encode_value floats expected ≡ some wanted)
      × (json_eq tests value wanted ≡ true)
  EqualsExpected false expected value = Unit

  -- The outcome is the expected exception; or no exception is expected, and it is a known value of
  -- exactly the declared type, and the expected one.
  abbrev pub Fits : Text → Invocation F → Outcome F → Type 0
  Fits returns i bad_outcome = ⊥
  Fits returns i (exception_outcome e) = is_exception floats tests i.exception e ≡ true
  Fits returns i (value_outcome value) =
      (known_value floats value 0 ≡ true)
      × (no_exception i.exception ≡ true)
      × (matches_type value returns ≡ some true)
      × EqualsExpected i.check_value i.expected_value value

  abbrev pub AllFit : Text → ℕ → List (Invocation F) → Items F → Type 0
  AllFit returns index [] nil = Unit
  AllFit returns index (i ∷ invocations) (cons outcome outcomes) =
      Fits returns i (read_outcome index outcome) × AllFit returns (suc index) invocations outcomes
  AllFit returns index _ _ = ⊥

  wrong_values-nil :
      (checked : Bool) (expected : Value F) (value : Json F)
      → wrong_values floats tests checked expected value ≡ some []
      → EqualsExpected checked expected value
  unfolding wrong_values
  wrong_values-nil false expected value h = tt
  wrong_values-nil true expected value h =
      let (wanted, encoded, rest) = bind-some (encode_value floats expected) _ [] h in
      (wanted, encoded, not_off _ (note_off _ wrong_value (some-injective _ _ rest)))

  value-Fits :
      (returns : Text) (i : Invocation F) (value : Json F)
      → compare_value floats tests true returns i value ≡ some []
      → (matches_type value returns ≡ some true)
        × EqualsExpected i.check_value i.expected_value value
  unfolding compare_value wrong_types
  value-Fits returns i value h =
      let (types, asked, rest) = bind-some (wrong_types floats tests true returns value) _ [] h in
      let (values, checked, sum) =
        bind-some (wrong_values floats tests i.check_value i.expected_value value) _ [] rest in
      let (no_types, no_values) = append_empty types values (some-injective _ _ sum) in
      let (typed, matched, noted) = bind-some (matches_type value returns) _ types asked in
      let is = not_off typed (note_off _ wrong_type (some-injective _ _ noted ∙ no_types)) in
      (
        matched ∙ ap some is,
        wrong_values-nil i.check_value i.expected_value value (checked ∙ ap some no_values),
      )

  outcome-Fits :
      (returns : Text) (i : Invocation F) (outcome : Outcome F)
      → compare_outcome floats tests true returns i outcome ≡ some []
      → Fits returns i outcome
  unfolding compare_outcome
  outcome-Fits returns i bad_outcome h = cons-nil malformed_outcome [] (some-injective _ _ h)
  outcome-Fits returns i (exception_outcome e) h =
      elim (Bool-cases (known_exception floats tests e)) [
        | inr unknown ↦
            elim (cons-nil malformed_exception [] (some-injective _ _ (rw unknown at h))) [ ]
        | inl known ↦ elim (Bool-cases (no_exception i.exception)) [
          | inl quiet ↦
              elim (cons-nil unexpected_exception []
                (some-injective _ _ (rw (known, quiet) at h))) [ ]
          | inr loud ↦
              not_off _ (note_off _ wrong_exception (some-injective _ _ (rw (known, loud) at h)))
        ]
      ]
  outcome-Fits returns i (value_outcome value) h = elim (Bool-cases (known_value floats value 0)) [
    | inr unknown ↦ elim (cons-nil malformed_value [] (some-injective _ _ (rw unknown at h))) [ ]
    | inl known ↦ elim (Bool-cases (no_exception i.exception)) [
      | inr loud ↦
          elim (cons-nil wrong_exception [] (some-injective _ _ (rw (known, loud) at h))) [ ]
      | inl quiet ↦
          let (typed, equal) = value-Fits returns i value (rw (known, quiet) at h) in
          (known, quiet, typed, equal)
    ]
  ]

  outcomes-AllFit :
      (returns : Text) (index : ℕ) (invocations : List (Invocation F)) (outcomes : Items F)
      → as_many floats tests invocations outcomes ≡ true
      → compare_outcomes floats tests true returns index invocations outcomes ≡ some []
      → AllFit returns index invocations outcomes
  unfolding compare_outcomes
  outcomes-AllFit returns index [] nil many h = tt
  outcomes-AllFit returns index (i ∷ invocations) (cons outcome outcomes) many h =
      let (troubles, compared, more) =
        bind-some (compare_outcome floats tests true returns i (read_outcome index outcome)) _ []
          h in
      let (rest, looped, sum) =
        bind-some (compare_outcomes floats tests true returns (suc index) invocations outcomes) _ []
          more in
      let (none_here, none_left) = append_empty _ rest (some-injective _ _ sum) in
      (
        outcome-Fits returns i (read_outcome index outcome)
            (compared ∙ ap some (map-nil (invocation index) troubles none_here)),
        outcomes-AllFit returns (suc index) invocations outcomes many (looped ∙ ap some none_left),
      )
  outcomes-AllFit returns index _ _ many h = elim (distinct many) [ ]

  -- The result lists an outcome for every invocation, and each fits.
  abbrev pub Fulfils : FunctionCase F → Fields F → Type 0
  Fulfils case fields =
      (outcomes : Items F) × (get fields (codes "outcomes") ≡ some (arr outcomes))
      × AllFit case.returns 0 case.invocations outcomes

  abbrev pub ResultFulfils : FunctionCase F → Json F → Type 0
  ResultFulfils case (obj fields) = Fulfils case fields
  ResultFulfils case _ = ⊥

  listed-Fulfils :
      (case : FunctionCase F) (fields : Fields F) (found : Option (Json F))
      → get fields (codes "outcomes") ≡ found
      → compare_listed floats tests case true fields found ≡ some []
      → Fulfils case fields
  unfolding compare_listed
  listed-Fulfils case fields (some (arr outcomes)) e h =
      elim (Bool-cases (
        same_set (keys fields) (codes "name" ∷ codes "outcomes" ∷ [])
        && is_exception floats tests (some case.name)
            (or_missing floats tests (get fields (codes "name")))
        && as_many floats tests case.invocations outcomes)) [
          | inr off ↦ elim (cons-nil malformed_result [] (some-injective _ _ (rw off at h))) [ ]
          | inl on ↦ (
            outcomes,
            e,
            outcomes-AllFit case.returns 0 case.invocations outcomes (ground (arith, on))
                (rw on at h),
          )
        ]
  listed-Fulfils case fields _ e h = elim (cons-nil malformed_result [] (some-injective _ _ h)) [ ]

  result-Fulfils :
      (case : FunctionCase F) (runtime : Json F)
      → compare_result floats tests case true runtime ≡ some []
      → ResultFulfils case runtime
  unfolding compare_result
  result-Fulfils case (obj fields) h =
      listed-Fulfils case fields (get fields (codes "outcomes")) refl h
  result-Fulfils case _ h = elim (cons-nil malformed_result [] (some-injective _ _ h)) [ ]

  codes-nil :
      (case : FunctionCase F) (ok : Bool) (found : List Text)
      → case.expected_codes ≡ []
      → compare_codes floats tests case ok found ≡ []
      → (ok ≡ true) × (found ≡ [])
  unfolding compare_codes
  codes-nil case ok found accepts h =
      let (consistent, rest) =
        append_empty (note (not (same_bool ok (is_nil found))) contradiction) _ h in
      let (_, more) =
        append_empty (note (contains found (codes "PP099")) internal_failure) _ rest in
      let (wrong, _) =
        append_empty (note (not (same_bool ok (is_nil case.expected_codes))) wrong_verdict) _
          more in
      let is = same_bool_eq ok _ (not_off _ (note_off _ wrong_verdict wrong)) ∙ ap is_nil accepts in
      (
        is,
        is_nil_eq found
            (sym (same_bool_eq ok _ (not_off _ (note_off _ contradiction consistent))) ∙ is),
      )

  read-Fulfils :
      (case : FunctionCase F) (read : Option (Bool × List Text)) (runtime : Json F)
      → case.expected_codes ≡ []
      → compare_read floats tests case read runtime ≡ some []
      → (read ≡ some (true, [])) × ResultFulfils case runtime
  unfolding compare_read
  read-Fulfils case none runtime accepts h =
      elim (cons-nil malformed_verdict [] (some-injective _ _ h)) [ ]
  read-Fulfils case (some (ok, found)) runtime accepts h =
      let (problems, compared, sum) =
        bind-some (compare_result floats tests case ok runtime) _ [] h in
      let (sound, none_left) =
        append_empty (compare_codes floats tests case ok found) problems (some-injective _ _ sum) in
      let (is, clean) = codes-nil case ok found accepts sound in
      (
        (λ k. some (is k, clean k)),
        result-Fulfils case runtime (
            ap (λ b. compare_result floats tests case b runtime) (sym is)
            ∙ compared
            ∙ ap some none_left),
      )

  -- If a case that is to be accepted is compared without a problem, then the verifier accepts it
  -- without a diagnostic, and the runtime has one outcome for every invocation, in order: the
  -- expected exception, or, where none is expected, a known value of exactly the declared type, which
  -- equals the encoding of the expected value if it is to be checked.
  pub compare_case-Fulfils :
      (case : FunctionCase F) (static : Fields F) (runtime : Json F)
      → case.expected_codes ≡ []
      → compare_case floats tests case static runtime ≡ some []
      → (read_verdict static ≡ some (true, [])) × ResultFulfils case runtime
  unfolding compare_case
  compare_case-Fulfils case static runtime accepts h =
      read-Fulfils case (read_verdict static) runtime accepts h
