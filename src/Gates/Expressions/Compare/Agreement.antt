-- ===== src/Gates/Expressions/Compare/Agreement.antt =====
-- What no failure means.
use purepy.Base.{
  Bool, true, false, not, Option, none, some, List, [], ◌∷◌, ◌++◌, if◌then◌else◌, Text, codes,
  text_eq, eq_of_text_eq, ◌≡◌, ◌≢◌, refl, sym, ap, ◌∙◌, subst, arith, bind-some, some-injective,
  append-nil,
}
use purepy.Base.Json.{Json, Items, Fields, nil, cons, text}
use purepy.Base.Python.{FloatTests, json_eq}
use purepy.Semantics.Values.{Floats, Value, encode_value, valid_value}
use purepy.Semantics.Matching.{matches_type}
use purepy.Gates.Expressions.{Case}
use purepy.Gates.Expressions.Compare.{
  Failure, Outcome, value_outcome, exception_outcome, bad_outcome, Verdict, note, same_bool,
  no_items, read_outcome, read_verdict, any_code, only_type, no_exception, compare_value,
  compare_outcome, compare_accepted, compare_verdict, compare_valid, compare_read, compare_case,
  is_accepted, wrong_type, wrong_value, compare_wanted, wrong_types, contradiction,
  internal_failure, wrong_verdict, unexpected_exception, malformed_verdict, malformed_value,
}

-- The type that the value is compared with.
abbrev pub value_type : {F : Type 0} → Case F → Text → Text
value_type case expected_type =
    if text_eq case.mode (codes "range")
    then codes "tuple[" ++ (expected_type ++ codes ", ...]")
    else expected_type

cons-nil : (f : Failure) (rest : List Failure) → f ∷ rest ≢ []
cons-nil f rest e = cc

distinct : false ≢ true
distinct e = cc

note-nil :
    (b : Bool) (f : Failure) (rest : List Failure)
    → note (not b) f ++ rest ≡ []
    → (b ≡ true) × (rest ≡ [])
note-nil true f rest h = (refl, h)
note-nil false f rest h = elim (cons-nil f rest h) [ ]

note_off :
    (b : Bool) (f : Failure) (rest : List Failure)
    → note b f ++ rest ≡ []
    → (b ≡ false) × (rest ≡ [])
note_off false f rest h = (refl, h)
note_off true f rest h = elim (cons-nil f rest h) [ ]

same_bool_eq : (a b : Bool) → same_bool a b ≡ true → a ≡ b
same_bool_eq true b h = sym h
same_bool_eq false b h = ground (arith, h)

no_items_nil : {F : Type 0} (items : Items F) → no_items items ≡ true → items ≡ nil
no_items_nil nil h = refl
no_items_nil (cons v items) h = elim (distinct h) [ ]

only_type_eq :
    {F : Type 0} (items : Items F) (t : Text) → only_type items t ≡ true → items ≡ cons (text t) nil
unfolding only_type
only_type_eq (cons (text s) nil) t h = ap (λ s. cons (text s) nil) (eq_of_text_eq s t h)
only_type_eq _ t h = elim (distinct h) [ ]

same_value : {F : Type 0} (a b : Json F) → value_outcome a ≡ value_outcome b → a ≡ b
same_value a b e = cc

other_outcome :
    {F : Type 0} (name : Text) (value : Json F) → exception_outcome name ≢ value_outcome value
other_outcome name value e = cc

module _ {F : Type 0} (floats : Floats F) (tests : FloatTests F) where
  -- The verifier accepts without a diagnostic and infers the type alone; CPython's value is valid, of
  -- the type, and equal to the encoding of the expected value.
  pub record Agrees (case : Case F) (expected_type : Text) (static : Fields F) (runtime : Json F)
      : Type 0 where
    pub verdict : Verdict F
    pub read : read_verdict static ≡ some verdict
    pub ok : verdict.ok ≡ true
    pub clean : verdict.diagnostics ≡ nil
    pub types : verdict.inferred_types ≡ cons (text expected_type) nil
    pub value : Json F
    pub returned : read_outcome runtime ≡ value_outcome value
    pub valid : valid_value floats value ≡ some true
    pub typed : matches_type value (value_type case expected_type) ≡ some true
    pub wanted : Json F
    pub encoded : encode_value floats case.expected_value ≡ some wanted
    pub equal : json_eq tests value wanted ≡ true

  wanted-nil :
      (typed : Bool) (value : Json F) (expected : Value F)
      → compare_wanted floats tests true typed value expected ≡ some []
      → (typed ≡ true)
        × ((wanted : Json F) × (encode_value floats expected ≡ some wanted)
            × (json_eq tests value wanted ≡ true))
  unfolding compare_wanted
  wanted-nil typed value expected h =
      let (wanted, encoded, rest) = bind-some (encode_value floats expected) _ [] h in
      let (is, more) = note-nil typed wrong_type _ (some-injective _ _ rest) in
      let (equal, _) = note-nil (json_eq tests value wanted) wrong_value [] (append-nil _ ∙ more) in
      (is, (wanted, encoded, equal))

  outcome-nil :
      (case : Case F) (t : Text) (outcome : Outcome F)
      → no_exception case.exception ≡ true
      → case.check_value ≡ true
      → compare_outcome floats tests case t outcome ≡ some []
      → (value : Json F) × (outcome ≡ value_outcome value)
        × (matches_type value (value_type case t) ≡ some true)
        × ((wanted : Json F) × (encode_value floats case.expected_value ≡ some wanted)
            × (json_eq tests value wanted ≡ true))
  unfolding compare_outcome compare_value
  outcome-nil case t (bad_outcome failure) quiet checked h =
      elim (cons-nil failure [] (some-injective _ _ h)) [ ]
  outcome-nil case t (exception_outcome name) quiet checked h =
      elim (cons-nil unexpected_exception [] (some-injective _ _ (rw quiet at h))) [ ]
  outcome-nil case t (value_outcome value) quiet checked h =
      let (typed, matched, rest) =
        bind-some (matches_type value (value_type case t)) _ [] (rw quiet at h) in
      let (is, equal) = wanted-nil typed value case.expected_value (
        subst (λ c. compare_wanted floats tests c typed value case.expected_value ≡ some []) checked
          rest) in
      (value, refl, matched ∙ ap some is, equal)

  accepted-nil :
      (case : Case F) (t : Text) (verdict : Verdict F) (outcome : Outcome F)
      → compare_accepted floats tests case verdict outcome (some t) ≡ some []
      → (verdict.inferred_types ≡ cons (text t) nil)
        × (compare_outcome floats tests case t outcome ≡ some [])
  unfolding compare_accepted
  accepted-nil case t verdict outcome h =
      let (failures, compared, sum) =
        bind-some (compare_outcome floats tests case t outcome) _ [] h in
      let (only, none_left) =
        note-nil (only_type verdict.inferred_types t) wrong_types failures
          (some-injective _ _ sum) in
      (only_type_eq verdict.inferred_types t only, compared ∙ ap some none_left)

  verdict-nil :
      (case : Case F) (t : Text) (verdict : Verdict F) (outcome : Outcome F)
      → case.expected_type ≡ some t
      → compare_verdict floats tests case verdict outcome ≡ some []
      → (verdict.ok ≡ true)
        × (verdict.diagnostics ≡ nil)
        × (verdict.inferred_types ≡ cons (text t) nil)
        × (compare_outcome floats tests case t outcome ≡ some [])
  unfolding compare_verdict
  verdict-nil case t verdict outcome typed h =
      let (internal, searched, rest) =
        bind-some (any_code (codes "PP099") verdict.diagnostics) _ [] h in
      let (failures, compared, sum) =
        bind-some (compare_accepted floats tests case verdict outcome case.expected_type) _ []
          rest in
      let (consistent, sum₁) =
        note-nil (same_bool verdict.ok (no_items verdict.diagnostics)) contradiction _
          (some-injective _ _ sum) in
      let (_, sum₂) = note_off internal internal_failure _ sum₁ in
      let (accepts, none_left) =
        note-nil (same_bool verdict.ok (is_accepted case.expected_type)) wrong_verdict failures
          sum₂ in
      let accepted = same_bool_eq verdict.ok _ (accepts) ∙ ap is_accepted typed in
      let as_typed : compare_accepted floats tests case verdict outcome (some t) ≡ some [] =
        ap (compare_accepted floats tests case verdict outcome) (sym typed)
        ∙ compared
        ∙ ap some none_left in
      let (types, outcome_clean) = accepted-nil case t verdict outcome as_typed in
      (
        accepted,
        no_items_nil verdict.diagnostics (sym (same_bool_eq verdict.ok _ consistent) ∙ accepted),
        types,
        outcome_clean,
      )

  valid-nil :
      (case : Case F) (t : Text) (static : Fields F) (runtime : Json F) (read : Option (Verdict F))
      (value : Json F) (valid : Bool)
      → read_verdict static ≡ read
      → read_outcome runtime ≡ value_outcome value
      → valid_value floats value ≡ some valid
      → case.expected_type ≡ some t
      → no_exception case.exception ≡ true
      → case.check_value ≡ true
      → compare_valid floats tests case read value valid ≡ some []
      → Agrees case t static runtime
  unfolding compare_valid
  valid-nil case t static runtime read value false e o v typed quiet checked h =
      elim (cons-nil malformed_value [] (some-injective _ _ h)) [ ]
  valid-nil case t static runtime none value true e o v typed quiet checked h =
      elim (cons-nil malformed_verdict [] (some-injective _ _ h)) [ ]
  valid-nil case t static runtime (some verdict) value true e o v typed quiet checked h =
      let (ok, clean, types, compared) = verdict-nil case t verdict (value_outcome value) typed h in
      let (found, is, matched, equal) =
        outcome-nil case t (value_outcome value) quiet checked compared in
      let same = same_value found value (sym is) in
      record {
        verdict = verdict;
        read = e;
        ok = ok;
        clean = clean;
        types = types;
        value = value;
        returned = o;
        valid = v;
        typed = ap (λ j. matches_type j (value_type case t)) (sym same) ∙ matched;
        wanted = equal.0;
        encoded = equal.1;
        equal = ap (λ j. json_eq tests j equal.0) (sym same) ∙ equal.2;
      }

  read-nil :
      (case : Case F) (t : Text) (static : Fields F) (runtime : Json F) (read : Option (Verdict F))
      (outcome : Outcome F)
      → read_verdict static ≡ read
      → read_outcome runtime ≡ outcome
      → case.expected_type ≡ some t
      → no_exception case.exception ≡ true
      → case.check_value ≡ true
      → compare_read floats tests case read outcome ≡ some []
      → Agrees case t static runtime
  unfolding compare_read
  read-nil case t static runtime read (bad_outcome failure) e o typed quiet checked h =
      elim (cons-nil failure [] (some-injective _ _ h)) [ ]
  read-nil case t static runtime none (exception_outcome name) e o typed quiet checked h =
      elim (cons-nil malformed_verdict [] (some-injective _ _ h)) [ ]
  read-nil case t static runtime (some verdict) (exception_outcome name) e o typed quiet checked h =
      let clean = verdict-nil case t verdict (exception_outcome name) typed h in
      let (value, is, _, _) = outcome-nil case t (exception_outcome name) quiet checked clean.3 in
      elim (other_outcome name value is) [ ]
  read-nil case t static runtime read (value_outcome value) e o typed quiet checked h =
      let (valid, decided, rest) = bind-some (valid_value floats value) _ [] h in
      valid-nil case t static runtime read value valid e o decided typed quiet checked rest

  -- If an expression that is to be accepted with a type and a checked value, and that is to raise
  -- nothing, is compared without a failure, then the verifier accepts it without a diagnostic and infers
  -- just the type; and CPython's value is valid, of exactly the type (a tuple of it for a range), and
  -- equal to the encoding of the expected value.
  pub compare_case-Agrees :
      (case : Case F) (t : Text) (static : Fields F) (runtime : Json F)
      → case.expected_type ≡ some t
      → no_exception case.exception ≡ true
      → case.check_value ≡ true
      → compare_case floats tests case static runtime ≡ some []
      → Agrees case t static runtime
  unfolding compare_case
  compare_case-Agrees case t static runtime typed quiet checked h =
      read-nil case t static runtime (read_verdict static) (read_outcome runtime) refl refl typed
        quiet checked h
