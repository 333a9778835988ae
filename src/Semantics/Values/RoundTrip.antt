-- ===== src/Semantics/Values/RoundTrip.antt =====
-- A value that `encode_value` can write survives the way through JSON.
use purepy.Base.{
  ℕ, ◌≤◌, ◌<◌, Bool, true, false, some, Text, Bytes, codes, All, ◌≡◌, refl, ap, arith, ◌∙◌, ltb,
  leb, ◌>>=◌, text_eq,
}
use purepy.Base.Int.{ℤ}
use purepy.Base.Decimal.{str}
use purepy.Base.Json.{Json, Items, nil, cons, text, arr, null, boolean, get}
use purepy.Semantics.Values.{
  Floats, Value, none_value, bool_value, int_value, float_value, str_value, bytes_value,
  tuple_value, other_value, Values, empty, more, count_values, max_sequence, max_digits,
  digit_count, int_text, tagged, encode_value, encode_values, valid_value, valid_items,
  valid_sequence, decode_value, decode_items, decode_sequence, decode_kind, valid_kind,
  valid_content, decode_content, bytes_hex,
}
use purepy.Semantics.Values.Digits.{
  is_integer_text-str, int_of_text-str, is_hex_text-bytes_hex, hex_bytes-bytes_hex,
}

leb_of_le : (a b : ℕ) → a ≤ b → leb a b ≡ true
leb_of_le a b h = ground arith

not_ltb : (a b : ℕ) → a ≤ b → ltb b a ≡ false
not_ltb a b h = ground arith

module _ {F : Type 0} (floats : Floats F) where
  -- The values that the encoding covers: those of the language without NaN, within its two bounds.
  unfoldable mutual
    pub IsPortable : Value F → Type 0
    IsPortable none_value = Unit
    IsPortable (bool_value b) = Unit
    IsPortable (int_value z) = digit_count (str z) ≤ max_digits
    IsPortable (float_value x) = floats.is_nan x ≡ false
    IsPortable (str_value s) = Unit
    IsPortable (bytes_value b) = All (λ x. x < 256) b
    IsPortable (tuple_value vs) = (count_values vs ≤ max_sequence) × ArePortable vs
    IsPortable (other_value kind) = ⊥

    pub ArePortable : Values F → Type 0
    ArePortable empty = Unit
    ArePortable (more v vs) = IsPortable v × ArePortable vs

  decode-tagged :
      (kind : Text) (content : Json F)
      → valid_value floats (tagged kind content) ≡ some true
      → decode_value floats (tagged kind content)
        ≡ decode_kind floats kind content (decode_sequence floats content)
  unfolding decode_value decode_content get text_eq
  decode-tagged kind content h = rw (h, decode_value) refl

  -- The value has an encoding, which is a valid one and decodes to the value.
  abbrev pub Survives : Value F → Type 0
  Survives v =
      (j : Json F) × (encode_value floats v ≡ some j)
      × (valid_value floats j ≡ some true)
      × (decode_value floats j ≡ some v)

  abbrev pub AllSurvive : Values F → Type 0
  AllSurvive vs =
      (items : Items F) × (encode_values floats vs ≡ some items)
      × (valid_items floats items ≡ some true)
      × (decode_items floats items ≡ some vs)

  none-Survives : Survives none_value
  unfolding encode_value valid_value valid_kind decode_value decode_kind get text_eq
  none-Survives = (tagged (codes "None") null, refl, refl, refl)

  bool-Survives : (b : Bool) → Survives (bool_value b)
  unfolding encode_value valid_value valid_kind decode_value decode_kind get text_eq
  bool-Survives b = (tagged (codes "bool") (boolean b), refl, refl, refl)

  str-Survives : (s : Text) → Survives (str_value s)
  unfolding encode_value valid_value valid_kind decode_value decode_kind get text_eq
  str-Survives s = (tagged (codes "str") (text s), refl, refl, refl)

  int-Survives : (z : ℤ) → IsPortable (int_value z) → Survives (int_value z)
  unfolding IsPortable encode_value valid_value valid_kind decode_kind get text_eq int_text
  int-Survives z h =
      let j = tagged (codes "int") (text (str z)) in
      let valid = ap some (is_integer_text-str z) in
      (
        j,
        rw (leb_of_le _ _ h) refl,
        valid,
        decode-tagged (codes "int") (text (str z)) valid
            ∙ ap (λ o. o >>= λ z. some (int_value z)) (int_of_text-str z h),
      )

  float-Survives : (x : F) → IsPortable (float_value x) → Survives (float_value x)
  unfolding IsPortable encode_value valid_value valid_kind decode_kind get text_eq
  float-Survives x h =
      let back = floats.fromhex-hex x h in
      let valid : valid_value floats (tagged (codes "float") (text (floats.hex x))) ≡ some true =
        rw (back, valid_value) refl in
      (
        tagged (codes "float") (text (floats.hex x)),
        rw h refl,
        valid,
        decode-tagged (codes "float") _ valid ∙ rw (back, decode_kind) refl,
      )

  bytes-Survives : (b : Bytes) → IsPortable (bytes_value b) → Survives (bytes_value b)
  unfolding IsPortable encode_value valid_value valid_kind decode_kind get text_eq
  bytes-Survives b h =
      let valid = ap some (is_hex_text-bytes_hex b h) in
      (
        tagged (codes "bytes") (text (bytes_hex b)),
        refl,
        valid,
        decode-tagged (codes "bytes") _ valid
            ∙ ap (λ b. some (bytes_value b)) (hex_bytes-bytes_hex b h),
      )

  tuple-Survives :
      (vs : Values F) → count_values vs ≤ max_sequence → AllSurvive vs → Survives (tuple_value vs)
  unfolding encode_value valid_value valid_content valid_sequence valid_kind decode_kind
      decode_sequence get text_eq
  tuple-Survives vs h (items, encoded, valid, decoded) =
      let whole : valid_value floats (tagged (codes "tuple") (arr items)) ≡ some true = valid in
      (
        tagged (codes "tuple") (arr items),
        rw (not_ltb _ _ h, encoded) refl,
        whole,
        decode-tagged (codes "tuple") (arr items) whole
            ∙ ap (λ o. o >>= λ vs. some (tuple_value vs)) decoded,
      )

  more-Survive : (v : Value F) (vs : Values F) → Survives v → AllSurvive vs → AllSurvive (more v vs)
  unfolding encode_values valid_items decode_items
  more-Survive v vs (j, e, h, d) (items, es, hs, ds) =
      (cons j items, rw (e, es) refl, rw (h, hs) refl, rw (d, ds) refl)

  mutual
    unfolding IsPortable encode_values valid_items decode_items

    survives : (v : Value F) → IsPortable v → Survives v
    survives none_value h = none-Survives
    survives (bool_value b) h = bool-Survives b
    survives (int_value z) h = int-Survives z h
    survives (float_value x) h = float-Survives x h
    survives (str_value s) h = str-Survives s
    survives (bytes_value b) h = bytes-Survives b h
    survives (tuple_value vs) (bound, h) = tuple-Survives vs bound (all_survive vs h)
    survives (other_value kind) h = elim h [ ]

    all_survive : (vs : Values F) → ArePortable vs → AllSurvive vs
    all_survive empty h = (nil, refl, refl, refl)
    all_survive (more v vs) h = more-Survive v vs (survives v h.0) (all_survive vs h.1)

  -- Every value without NaN, with integers of at most 4300 digits and tuples of at most 4096 items,
  -- has an encoding, which `valid_value` accepts and `decode_value` turns back into the value.
  pub encode_value-Survives : (v : Value F) → IsPortable v → Survives v
  encode_value-Survives v h = survives v h

  pub encode_values-AllSurvive : (vs : Values F) → ArePortable vs → AllSurvive vs
  encode_values-AllSurvive vs h = all_survive vs h
