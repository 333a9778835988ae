-- ===== src/Semantics/Matching/Exact.antt =====
-- `matches_type` of an encoded value is the runtime type of the value.
use purepy.Base.{
  ℕ, zero, suc, ◌<◌, ◌≤◌, ◌≢◌, Bool, true, false, ◌&&◌, ◌||◌, Option, none, some, ◌>>=◌, Text,
  codes, text_eq, length, length-append, ltb, ◌≡◌, refl, sym, ap, ◌∙◌, subst, arith, Option-cases,
  inl, inr,
}
use purepy.Base.Json.{Json, Items, arr, cons, text, get}
use purepy.Semantics.Values.{
  Floats, Value, Values, none_value, bool_value, int_value, float_value, str_value, bytes_value,
  tuple_value, other_value, empty, more, tagged, encode_value, encode_values, int_text, all_of,
  count_values, max_sequence,
}
use purepy.Semantics.Values.RoundTrip.{IsPortable, ArePortable}
use purepy.Semantics.Matching.{
  any_of, kind_is, iterate, content_items, all_items, match_fuel, matches_type,
}
use purepy.Semantics.Matching.Types.{
  ExactType, primitive, optional, tuple_of, primitive_name, type_text, match-primitive,
  match-optional, match-tuple,
}

-- `type(value).__name__`, with None for None's.
abbrev pub value_kind : {F : Type 0} → Value F → Text
value_kind none_value = codes "None"
value_kind (bool_value b) = codes "bool"
value_kind (int_value z) = codes "int"
value_kind (float_value x) = codes "float"
value_kind (str_value s) = codes "str"
value_kind (bytes_value b) = codes "bytes"
value_kind (tuple_value vs) = codes "tuple"
value_kind (other_value kind) = kind

abbrev pub all_values : {F : Type 0} → (Value F → Bool) → Values F → Bool
all_values test empty = true
all_values test (more v vs) = test v && all_values test vs

abbrev pub tuple_items : {F : Type 0} → (Value F → Bool) → Value F → Bool
tuple_items test (tuple_value vs) = all_values test vs
tuple_items test _ = false

-- Is the value of exactly this type?
abbrev pub has_type : {F : Type 0} → ExactType → Value F → Bool
has_type (primitive p) v = text_eq (value_kind v) (primitive_name p)
has_type (optional t) v = text_eq (value_kind v) (codes "None") || has_type t v
has_type (tuple_of t) v = tuple_items (has_type t) v

some_inj {ℓ} : {A : Type ℓ} (x y : A) → some x ≡ some y → x ≡ y
some_inj x y e = cc

no_encoding {ℓ} : {A : Type ℓ} (x : A) → none ≢ some x
no_encoding x e = cc

not_ltb : (a b : ℕ) → a ≤ b → ltb b a ≡ false
not_ltb a b h = ground arith

any_of-or : (a b : Bool) → any_of (some a) (some b) ≡ some (a || b)
any_of-or true b = refl
any_of-or false b = refl

all_of-and : (a b : Bool) → all_of (some a) (some b) ≡ some (a && b)
all_of-and true b = refl
all_of-and false b = refl

module _ {F : Type 0} (floats : Floats F) where
  kind_is-tagged :
      (kind name : Text) (content : Json F)
      → kind_is (tagged kind content) name ≡ some (text_eq kind name)
  unfolding kind_is get text_eq
  kind_is-tagged kind name content = refl

  content_items-tagged :
      (kind : Text) (content : Json F) → content_items (tagged kind content) ≡ iterate content
  unfolding content_items get text_eq
  content_items-tagged kind content = refl

  iterate-arr : (items : Items F) → iterate (arr items) ≡ some items
  unfolding iterate
  iterate-arr items = refl

  pub tuple-tagged :
      (vs : Values F) (j : Json F)
      → count_values vs ≤ max_sequence
      → encode_value floats (tuple_value vs) ≡ some j
      → (items : Items F) × (encode_values floats vs ≡ some items)
        × (j ≡ tagged (codes "tuple") (arr items))
  unfolding encode_value
  tuple-tagged vs j h e = elim (Option-cases (encode_values floats vs)) [
    | inl refused ↦ elim (no_encoding _ (rw (not_ltb _ _ h, refused) at e)) [ ]
    | inr (items, made) ↦ (items, made, sym (some_inj _ _ (rw (not_ltb _ _ h, made) at e)))
  ]

  -- An encoding is tagged with the kind of its value.
  pub encode-tagged :
      (v : Value F) (j : Json F)
      → IsPortable floats v
      → encode_value floats v ≡ some j
      → (content : Json F) × (j ≡ tagged (value_kind v) content)
  unfolding encode_value IsPortable
  encode-tagged none_value j h e = (_, sym (some_inj _ _ e))
  encode-tagged (bool_value b) j h e = (_, sym (some_inj _ _ e))
  encode-tagged (int_value z) j h e = elim (Option-cases (int_text z)) [
    | inl long ↦ elim (no_encoding _ (rw long at e)) [ ]
    | inr (s, short) ↦ (text s, sym (some_inj _ _ (rw short at e)))
  ]
  encode-tagged (float_value x) j h e = (_, sym (some_inj _ _ e))
  encode-tagged (str_value s) j h e = (_, sym (some_inj _ _ e))
  encode-tagged (bytes_value b) j h e = (_, sym (some_inj _ _ e))
  encode-tagged (tuple_value vs) j h e =
      let (items, _, tag) = tuple-tagged vs j h.0 e in (arr items, tag)
  encode-tagged (other_value kind) j h e = elim h [ ]

  encoded-kind :
      (v : Value F) (j : Json F) (name : Text)
      → IsPortable floats v
      → encode_value floats v ≡ some j
      → kind_is j name ≡ some (text_eq (value_kind v) name)
  encoded-kind v j name h e =
      let (content, tag) = encode-tagged v j h e in
      ap (λ j. kind_is j name) tag ∙ kind_is-tagged (value_kind v) name content

  -- Does the test read the encoding of a portable value as `has` reads the value?
  abbrev Reads : (Json F → Option Bool) → (Value F → Bool) → Type 0
  Reads test has =
      (v : Value F) (j : Json F)
      → IsPortable floats v
      → encode_value floats v ≡ some j
      → test j ≡ some (has v)

  pub more-encoded :
      (v : Value F) (vs : Values F) (items : Items F)
      → encode_values floats (more v vs) ≡ some items
      → (first : Json F) × (rest : Items F) × (encode_value floats v ≡ some first)
        × (encode_values floats vs ≡ some rest)
        × (items ≡ cons first rest)
  unfolding encode_values
  more-encoded v vs items e = elim (Option-cases (encode_value floats v)) [
    | inl refused ↦ elim (no_encoding _ (rw refused at e)) [ ]
    | inr (first, one) ↦ elim (Option-cases (encode_values floats vs)) [
      | inl refused ↦ elim (no_encoding _ (rw (one, refused) at e)) [ ]
      | inr (rest, others) ↦ (first, rest, one, others, sym (some_inj _ _ (rw (one, others) at e)))
    ]
  ]

  all_items-Reads :
      (test : Json F → Option Bool) (has : Value F → Bool)
      → Reads test has
      → (vs : Values F) (items : Items F) → ArePortable floats vs
      → encode_values floats vs ≡ some items
      → all_items test items ≡ some (all_values has vs)
  unfolding all_items encode_values IsPortable
  all_items-Reads test has reads empty items h e =
      subst (λ i. all_items test i ≡ some true) (some_inj _ _ e) refl
  all_items-Reads test has reads (more v vs) items h e =
      let (first, rest, one, others, whole) = more-encoded v vs items e in
      let ih = all_items-Reads test has reads vs rest h.1 others in
      let item = reads v first h.0 one in
      ap (all_items test) whole ∙ rw (item, ih) (all_of-and (has v) (all_values has vs))

  tuple_items-Reads :
      (test : Json F → Option Bool) (has : Value F → Bool)
      → Reads test has
      → Reads
          (λ j. all_of (kind_is j (codes "tuple")) (content_items j >>= all_items test))
          (tuple_items has)
  unfolding text_eq IsPortable
  tuple_items-Reads test has reads (tuple_value vs) j h e =
      let (items, made, tag) = tuple-tagged vs j h.0 e in
      let known = encoded-kind (tuple_value vs) j (codes "tuple") h e in
      let content =
        ap content_items tag
        ∙ content_items-tagged (codes "tuple") (arr items)
        ∙ iterate-arr items in
      let read = all_items-Reads test has reads vs items h.1 made in rw (known, content, read) refl
  tuple_items-Reads test has reads none_value j h e =
      rw (encoded-kind none_value j (codes "tuple") h e) refl
  tuple_items-Reads test has reads (bool_value b) j h e =
      rw (encoded-kind (bool_value b) j (codes "tuple") h e) refl
  tuple_items-Reads test has reads (int_value z) j h e =
      rw (encoded-kind (int_value z) j (codes "tuple") h e) refl
  tuple_items-Reads test has reads (float_value x) j h e =
      rw (encoded-kind (float_value x) j (codes "tuple") h e) refl
  tuple_items-Reads test has reads (str_value s) j h e =
      rw (encoded-kind (str_value s) j (codes "tuple") h e) refl
  tuple_items-Reads test has reads (bytes_value b) j h e =
      rw (encoded-kind (bytes_value b) j (codes "tuple") h e) refl
  tuple_items-Reads test has reads (other_value kind) j h e = elim h [ ]

  any_of-kind :
      (v : Value F) (j : Json F) (rest : Bool)
      → IsPortable floats v
      → encode_value floats v ≡ some j
      → any_of (kind_is j (codes "None")) (some rest)
        ≡ some (text_eq (value_kind v) (codes "None") || rest)
  any_of-kind v j rest h e =
      rw (encoded-kind v j (codes "None") h e)
        (any_of-or (text_eq (value_kind v) (codes "None")) rest)

  match_fuel-Reads :
      (t : ExactType) (fuel : ℕ)
      → length (type_text t) < fuel
      → Reads (λ j. match_fuel fuel j (type_text t)) (has_type t)
  unfolding type_text
  match_fuel-Reads t zero b v j h e = elim b [ ]
  match_fuel-Reads (primitive p) (suc fuel) b v j h e =
      match-primitive fuel j p ∙ encoded-kind v j (primitive_name p) h e
  match_fuel-Reads (optional t) (suc fuel) b v j h e =
      let size = length-append (type_text t) (codes " | None") in
      let inner = match_fuel-Reads t fuel (omega (arith, size)) v j h e in
      match-optional fuel j (type_text t)
      ∙ ap (any_of (kind_is j (codes "None"))) inner
      ∙ any_of-kind v j (has_type t v) h e
  match_fuel-Reads (tuple_of t) (suc fuel) b v j h e =
      let size = length-append (type_text t) (codes ", ...]") in
      match-tuple fuel j (type_text t)
      ∙ tuple_items-Reads _ (has_type t) (match_fuel-Reads t fuel (omega (arith, size))) v j h e

  pub matches_type-encode_value :
      (v : Value F) (t : ExactType) (j : Json F)
      → IsPortable floats v
      → encode_value floats v ≡ some j
      → matches_type j (type_text t) ≡ some (has_type t v)
  unfolding matches_type
  matches_type-encode_value v t j h e =
      match_fuel-Reads t (suc (length (type_text t))) (omega arith) v j h e
