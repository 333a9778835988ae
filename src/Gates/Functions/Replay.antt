-- ===== src/Gates/Functions/Replay.antt =====
-- A case that is written by `case_entry` is the case that `decode_case` reads.
use purepy.Base.{
  Bool, true, false, Option, none, some, List, [], ◌∷◌, Text, codes, text_eq, All, ◌≡◌, refl, sym,
  ap,
}
use purepy.Base.Json.{
  Json, Items, null, boolean, text, arr, obj, nil, cons, end, field, get, contains, all_in,
}
use purepy.Base.Python.{item, texts}
use purepy.Semantics.Values.{Floats, Value, Values, none_value, encode_values}
use purepy.Semantics.Values.RoundTrip.{
  IsPortable, ArePortable, encode_value-Survives, encode_values-AllSurvive,
}
use purepy.Gates.Known.Portable.{
  IsShallow, AreShallow, known_value-encode_value, known_items-encode_values,
}
use purepy.Gates.Functions.{
  Invocation, FunctionCase, pair_entries, exception_entry, expected_entry, invocation_entry,
  invocation_entries, case_entry,
}
use purepy.Gates.Functions.Decode.{
  as_exception, decode_texts, decode_pairs, decode_expected, decode_arguments, decode_invocation,
  decode_invocations, decode_fields, decode_case, validate_oracles,
}

decode_texts-texts : (F : Type 0) (ss : List Text) → decode_texts {F = F} (texts ss) ≡ some ss
unfolding decode_texts
decode_texts-texts F [] = refl
decode_texts-texts F (s ∷ ss) = rw (decode_texts-texts F ss) refl

decode_pairs-pair_entries :
    (F : Type 0) (ps : List (Text × Text)) → decode_pairs {F = F} (pair_entries ps) ≡ some ps
unfolding decode_pairs pair_entries
decode_pairs-pair_entries F [] = refl
decode_pairs-pair_entries F ((a, b) ∷ ps) = rw (decode_pairs-pair_entries F ps) refl

as_exception-exception_entry :
    (F : Type 0) (e : Option Text) → as_exception {F = F} (exception_entry e) ≡ some e
as_exception-exception_entry F none = refl
as_exception-exception_entry F (some name) = refl

module _ {F : Type 0} (floats : Floats F) where
  -- An expected value is portable and not nested too deeply, and None where it is not checked.
  abbrev pub IsExpected : Bool → Value F → Type 0
  IsExpected true value = IsPortable floats value × IsShallow value 0
  IsExpected false value = value ≡ none_value

  abbrev pub IsReplayable : Invocation F → Type 0
  IsReplayable i =
      ArePortable floats i.arguments
      × AreShallow i.arguments 0
      × IsExpected i.check_value i.expected_value

  decode_expected-expected_entry :
      (checked : Bool) (value : Value F)
      → IsExpected checked value
      → (j : Json F) × (expected_entry floats checked value ≡ some j)
        × (decode_expected floats checked j ≡ some value)
  unfolding expected_entry decode_expected
  decode_expected-expected_entry true value h =
      let (j, made, _, decoded) = encode_value-Survives floats value h.0 in
      let known = known_value-encode_value floats value j 0 h.0 h.1 made in
      (j, made, rw known decoded)
  decode_expected-expected_entry false value h = (null, refl, ap some (sym h))

  decode_arguments-encoded :
      (vs : Values F)
      → ArePortable floats vs
      → AreShallow vs 0
      → (items : Items F) × (encode_values floats vs ≡ some items)
        × (decode_arguments floats items ≡ some vs)
  unfolding decode_arguments
  decode_arguments-encoded vs h low =
      let (items, made, _, decoded) = encode_values-AllSurvive floats vs h in
      let known = known_items-encode_values floats vs items 0 h low made in
      (items, made, rw known decoded)

  decode_invocation-invocation_entry :
      (i : Invocation F)
      → IsReplayable i
      → (j : Json F) × (invocation_entry floats i ≡ some j) × (decode_invocation floats j ≡ some i)
  unfolding invocation_entry decode_invocation item get text_eq all_in contains
  decode_invocation-invocation_entry i h =
      let (arguments, encoded, decoded) = decode_arguments-encoded i.arguments h.0 h.1 in
      let (expected, made, read) =
        decode_expected-expected_entry i.check_value i.expected_value h.2 in
      (
        obj (
            field (codes "arguments") (arr arguments) (
              field (codes "check_value") (boolean i.check_value) (
                field (codes "expected_value") expected
                  (field (codes "exception") (exception_entry i.exception) end)))),
        rw (encoded, made) refl,
        rw (as_exception-exception_entry F i.exception, decoded, read) refl,
      )

  decode_invocations-invocation_entries :
      (is : List (Invocation F))
      → All IsReplayable is
      → (items : Items F) × (invocation_entries floats is ≡ some items)
        × (decode_invocations floats items ≡ some is)
  unfolding invocation_entries decode_invocations
  decode_invocations-invocation_entries [] h = (nil, refl, refl)
  decode_invocations-invocation_entries (i ∷ is) h =
      let (j, one, read) = decode_invocation-invocation_entry i h.0 in
      let (items, others, found) = decode_invocations-invocation_entries is h.1 in
      (cons j items, rw (one, others) refl, rw (read, found) refl)

  decode_fields-case_entry :
      (case : FunctionCase F)
      → All IsReplayable case.invocations
      → (j : Json F) × (case_entry floats case ≡ some j) × (decode_fields floats j ≡ some case)
  unfolding case_entry decode_fields item get text_eq all_in contains
  decode_fields-case_entry case h =
      let (invocations, made, read) = decode_invocations-invocation_entries case.invocations h in
      (
        obj (
            field (codes "name") (text case.name) (
              field (codes "family") (text case.family) (
                field (codes "source") (text case.source) (
                  field (codes "parameters") (arr (pair_entries case.parameters)) (
                    field (codes "returns") (text case.returns) (
                      field (codes "invocations") (arr invocations) (
                        field (codes "expected_codes") (arr (texts case.expected_codes)) end))))))),
        rw made refl,
        rw
            (
              read,
              decode_pairs-pair_entries F case.parameters,
              decode_texts-texts F case.expected_codes,
            )
            refl,
      )

  -- A case whose oracles are valid, whose arguments and checked values are portable and nested no
  -- deeper than 8, and whose unchecked values are None, has an entry; and its entry is replayed as
  -- the same case.
  pub decode_case-case_entry :
      (accepts_source : FunctionCase F → Bool) (case : FunctionCase F)
      → All IsReplayable case.invocations
      → validate_oracles floats accepts_source case ≡ true
      → (j : Json F) × (case_entry floats case ≡ some j)
        × (decode_case floats accepts_source j ≡ some case)
  unfolding decode_case
  decode_case-case_entry accepts_source case h valid =
      let (j, made, read) = decode_fields-case_entry case h in (j, made, rw (read, valid) refl)
