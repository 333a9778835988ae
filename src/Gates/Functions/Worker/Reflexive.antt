-- ===== src/Gates/Functions/Worker/Reflexive.antt =====
-- An encoded value equals itself.
use purepy.Base.{
  Bool, true, ◌&&◌, some, Text, codes, text_eq, text_eq_refl, ◌≡◌, refl, subst, bind-some,
  some-injective, ltb, Bool-cases, inl, inr, none-some, arith,
}
use purepy.Base.Int.{ℤ, eq_ℤ}
use purepy.Base.Json.{Json, Items, null, boolean, text, arr, obj, end, field, get}
use purepy.Base.Python.{FloatTests, json_eq, items_eq, bool_int}
use purepy.Semantics.Values.{
  Floats, Value, Values, none_value, bool_value, int_value, float_value, str_value, bytes_value,
  tuple_value, other_value, empty, more, count_values, max_sequence, tagged, int_text, bytes_hex,
  encode_value, encode_values,
}

and_true : (a b : Bool) → a ≡ true → b ≡ true → (a && b) ≡ true
and_true a b h k = ground (arith, h, k)

eq_ℤ_refl : (z : ℤ) → eq_ℤ z z ≡ true
eq_ℤ_refl z = ground arith

module _ {F : Type 0} (floats : Floats F) (tests : FloatTests F) where
  abbrev IsReflexive : Json F → Type 0
  IsReflexive j = json_eq tests j j ≡ true

  tagged-IsReflexive :
      (kind : Text) (content : Json F) → IsReflexive content → IsReflexive (tagged kind content)
  unfolding json_eq get text_eq
  tagged-IsReflexive kind content h = rw (text_eq_refl kind, h) refl

  text-IsReflexive : (s : Text) → IsReflexive (text s)
  unfolding json_eq
  text-IsReflexive s = text_eq_refl s

  kind-IsReflexive : (kind : Text) → IsReflexive (obj (field (codes "type") (text kind) end))
  unfolding json_eq get text_eq
  kind-IsReflexive kind = rw (text_eq_refl kind) refl

  null-IsReflexive : IsReflexive null
  unfolding json_eq
  null-IsReflexive = refl

  boolean-IsReflexive : (b : Bool) → IsReflexive (boolean b)
  unfolding json_eq
  boolean-IsReflexive b = eq_ℤ_refl (bool_int b)

  mutual
    unfolding encode_value encode_values json_eq

    encoded : (v : Value F) (j : Json F) → encode_value floats v ≡ some j → IsReflexive j
    encoded none_value j h =
        subst IsReflexive (some-injective _ _ h) (tagged-IsReflexive _ _ null-IsReflexive)
    encoded (bool_value b) j h =
        subst IsReflexive (some-injective _ _ h) (tagged-IsReflexive _ _ (boolean-IsReflexive b))
    encoded (int_value z) j h =
        let (s, _, e) = bind-some (int_text z) _ j h in
        subst IsReflexive (some-injective _ _ e) (tagged-IsReflexive _ _ (text-IsReflexive s))
    encoded (float_value x) j h =
        subst IsReflexive (some-injective _ _ h) (tagged-IsReflexive _ _ (text-IsReflexive _))
    encoded (str_value s) j h =
        subst IsReflexive (some-injective _ _ h) (tagged-IsReflexive _ _ (text-IsReflexive s))
    encoded (bytes_value b) j h =
        subst IsReflexive (some-injective _ _ h)
          (tagged-IsReflexive _ _ (text-IsReflexive (bytes_hex b)))
    encoded (tuple_value vs) j h = elim (Bool-cases (ltb max_sequence (count_values vs))) [
      | inl long ↦ elim (none-some j (rw long at h)) [ ]
      | inr short ↦
          let (items, made, e) =
            bind-some (encode_values floats vs) (λ found. some (tagged (codes "tuple") (arr found)))
              j (rw short at h) in
          subst IsReflexive (some-injective _ _ e)
            (tagged-IsReflexive _ _ (all_encoded vs items made))
    ]
    encoded (other_value kind) j h =
        subst IsReflexive (some-injective _ _ h) (kind-IsReflexive kind)

    all_encoded :
        (vs : Values F) (items : Items F)
        → encode_values floats vs ≡ some items
        → items_eq tests items items ≡ true
    all_encoded empty items h = subst (λ i. items_eq tests i i ≡ true) (some-injective _ _ h) refl
    all_encoded (more v vs) items h =
        let (first, one, h1) = bind-some (encode_value floats v) _ items h in
        let (rest, others, e) = bind-some (encode_values floats vs) _ items h1 in
        subst (λ i. items_eq tests i i ≡ true) (some-injective _ _ e)
          (and_true _ _ (encoded v first one) (all_encoded vs rest others))

  pub encode_value-json_eq :
      (v : Value F) (j : Json F) → encode_value floats v ≡ some j → json_eq tests j j ≡ true
  encode_value-json_eq v j h = encoded v j h
