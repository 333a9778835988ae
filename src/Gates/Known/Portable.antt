-- ===== src/Gates/Known/Portable.antt =====
-- Encodings of portable values are known, if their tuples are not nested too deeply.
use purepy.Base.{
  ℕ, suc, ◌≤◌, Bool, true, false, ◌&&◌, some, leb, Text, codes, text_eq, ◌≡◌, refl, sym, ap, ◌∙◌,
  subst, arith, some-injective,
}
use purepy.Base.Json.{Json, Items, arr, nil, cons, get, contains, all_in}
use purepy.Base.Python.{count_items}
use purepy.Semantics.Values.{
  Floats, Value, Values, none_value, bool_value, int_value, float_value, str_value, bytes_value,
  tuple_value, other_value, empty, more, count_values, tagged, encode_value, encode_values,
  valid_value,
}
use purepy.Semantics.Values.RoundTrip.{IsPortable, ArePortable, encode_value-Survives}
use purepy.Semantics.Matching.Exact.{value_kind, encode-tagged, tuple-tagged, more-encoded}
use purepy.Gates.Known.{primitives, known_value, known_items}

-- Tuples are nested no deeper than 8 less the depth.
unfoldable mutual
  pub IsShallow : {F : Type 0} → Value F → ℕ → Type 0
  IsShallow (tuple_value vs) depth = (depth ≤ 8) × AreShallow vs (suc depth)
  IsShallow _ depth = depth ≤ 8

  pub AreShallow : {F : Type 0} → Values F → ℕ → Type 0
  AreShallow empty depth = Unit
  AreShallow (more v vs) depth = IsShallow v depth × AreShallow vs depth

leb_of_le : (a b : ℕ) → a ≤ b → leb a b ≡ true
leb_of_le a b h = ground arith

and_true : (a b : Bool) → a ≡ true → b ≡ true → (a && b) ≡ true
and_true a b h k = ground (arith, h, k)

module _ {F : Type 0} (floats : Floats F) where
  known-tagged :
      (kind : Text) (content : Json F) (depth : ℕ)
      → depth ≤ 8
      → text_eq kind (codes "tuple") ≡ false
      → contains primitives kind ≡ true
      → valid_value floats (tagged kind content) ≡ some true
      → known_value floats (tagged kind content) depth ≡ true
  unfolding known_value get text_eq all_in contains
  known-tagged kind content depth low other listed valid =
      rw (leb_of_le depth 8 low, other, listed, valid) refl

  known-tuple :
      (items : Items F) (depth : ℕ)
      → depth ≤ 8
      → count_items items ≤ 4096
      → known_items floats items (suc depth) ≡ true
      → known_value floats (tagged (codes "tuple") (arr items)) depth ≡ true
  unfolding known_value get text_eq all_in contains
  known-tuple items depth low few known =
      rw (leb_of_le depth 8 low, leb_of_le (count_items items) 4096 few, known) refl

  -- A value of one of the kinds that are no tuples.
  known-plain :
      (v : Value F) (j : Json F) (depth : ℕ)
      → IsPortable floats v
      → depth ≤ 8
      → text_eq (value_kind v) (codes "tuple") ≡ false
      → contains primitives (value_kind v) ≡ true
      → encode_value floats v ≡ some j
      → known_value floats j depth ≡ true
  known-plain v j depth h low other listed e =
      let (content, tag) = encode-tagged floats v j h e in
      let (same, made, valid, _) = encode_value-Survives floats v h in
      let is = some-injective _ _ (sym made ∙ e) ∙ tag in
      subst (λ j. known_value floats j depth ≡ true) (sym tag)
        (known-tagged (value_kind v) content depth low other listed
          (ap (valid_value floats) (sym is) ∙ valid))

  count-encoded :
      (vs : Values F) (items : Items F)
      → encode_values floats vs ≡ some items
      → count_items items ≡ count_values vs
  unfolding encode_values
  count-encoded empty items e = ap count_items (sym (some-injective _ _ e))
  count-encoded (more v vs) items e =
      let (first, rest, one, others, whole) = more-encoded floats v vs items e in
      ap count_items whole ∙ ap suc (count-encoded vs rest others)

  empty-encoded : (items : Items F) → encode_values floats empty ≡ some items → nil ≡ items
  unfolding encode_values
  empty-encoded items e = some-injective _ _ e

  known_nil : (depth : ℕ) → known_items floats nil depth ≡ true
  unfolding known_items
  known_nil depth = refl

  known_cons :
      (v : Json F) (items : Items F) (depth : ℕ)
      → known_value floats v depth ≡ true
      → known_items floats items depth ≡ true
      → known_items floats (cons v items) depth ≡ true
  unfolding known_items
  known_cons v items depth h k = and_true _ _ h k

  mutual
    unfolding IsPortable IsShallow contains text_eq

    known :
        (v : Value F) (j : Json F) (depth : ℕ)
        → IsPortable floats v
        → IsShallow v depth
        → encode_value floats v ≡ some j
        → known_value floats j depth ≡ true
    known none_value j depth h low e = known-plain none_value j depth h low refl refl e
    known (bool_value b) j depth h low e = known-plain (bool_value b) j depth h low refl refl e
    known (int_value z) j depth h low e = known-plain (int_value z) j depth h low refl refl e
    known (float_value x) j depth h low e = known-plain (float_value x) j depth h low refl refl e
    known (str_value s) j depth h low e = known-plain (str_value s) j depth h low refl refl e
    known (bytes_value b) j depth h low e = known-plain (bytes_value b) j depth h low refl refl e
    known (tuple_value vs) j depth h low e =
        let (items, made, tag) = tuple-tagged floats vs j h.0 e in
        let few = count-encoded vs items made in
        subst (λ j. known_value floats j depth ≡ true) (sym tag)
          (known-tuple items depth low.0 (let b = h.0 in omega (arith, few, b))
            (all_known vs items (suc depth) h.1 low.1 made))
    known (other_value kind) j depth h low e = elim h [ ]

    all_known :
        (vs : Values F) (items : Items F) (depth : ℕ)
        → ArePortable floats vs
        → AreShallow vs depth
        → encode_values floats vs ≡ some items
        → known_items floats items depth ≡ true
    all_known empty items depth h low e =
        subst (λ i. known_items floats i depth ≡ true) (empty-encoded items e) (known_nil depth)
    all_known (more v vs) items depth h low e =
        let (first, rest, one, others, whole) = more-encoded floats v vs items e in
        subst (λ i. known_items floats i depth ≡ true) (sym whole)
          (known_cons first rest depth (known v first depth h.0 low.0 one)
            (all_known vs rest depth h.1 low.1 others))

  pub known_value-encode_value :
      (v : Value F) (j : Json F) (depth : ℕ)
      → IsPortable floats v
      → IsShallow v depth
      → encode_value floats v ≡ some j
      → known_value floats j depth ≡ true
  known_value-encode_value v j depth h low e = known v j depth h low e

  pub known_items-encode_values :
      (vs : Values F) (items : Items F) (depth : ℕ)
      → ArePortable floats vs
      → AreShallow vs depth
      → encode_values floats vs ≡ some items
      → known_items floats items depth ≡ true
  known_items-encode_values vs items depth h low e = all_known vs items depth h low e
