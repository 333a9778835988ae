-- ===== src/Semantics/Sources/Worker/ReadBack.antt =====
-- An argument within the bounds is read back from its encoding.
use purepy.Base.{
  ℕ, suc, ◌≤◌, ◌<◌, Bool, true, false, ◌&&◌, some, Text, Bytes, codes, All, text_eq, length, leb,
  ◌≡◌, refl, sym, subst, some-injective, ◌∙◌, arith, both_true,
}
use purepy.Base.Int.{ℤ}
use purepy.Base.Decimal.{str}
use purepy.Base.Json.{
  Json, Items, text, arr, nil, cons, end, field, get, contains, all_in, null, boolean,
}
use purepy.Base.Python.{count_items}
use purepy.Semantics.Values.{
  Floats, Value, none_value, bool_value, int_value, float_value, str_value, bytes_value,
  tuple_value, other_value, Values, empty, more, count_values, digit_count, max_digits,
  max_sequence, tagged, encode_value, encode_values, decode_value, bytes_hex, int_text,
}
use purepy.Semantics.Values.RoundTrip.{IsPortable, encode_value-Survives}
use purepy.Semantics.Arguments.{
  max_depth, max_elements, max_text, bounded_value, bounded_values, small_int, decode_argument,
  decode_content, decode_list, decode_elements, primitive_kinds, sized,
}
use purepy.Semantics.Sources.Worker.Sent.{
  length-str, length-bytes_hex, digit_count-length, leb_of_le, not_ltb, le_of_leb, IsSendable,
  AreSendable, bounded_value-depth, tuple-bounds, no_other_value,
}

module _ {F : Type 0} (floats : Floats F) where
  -- The value has an encoding that is read back at the depth.
  abbrev pub IsRead : ℕ → Value F → Type 0
  IsRead depth v =
      (j : Json F) × (encode_value floats v ≡ some j) × (decode_argument floats j depth ≡ some v)

  abbrev pub AreRead : ℕ → Values F → Type 0
  AreRead depth vs =
      (items : Items F) × (encode_values floats vs ≡ some items)
      × (decode_elements floats items depth ≡ some vs)
      × (count_items items ≡ count_values vs)

  -- From the decoding without bounds: `decode_value` reads the value, and the text is short.
  read_scalar :
      (kind : Text) (content : Json F) (depth : ℕ) (v : Value F)
      → leb depth max_depth ≡ true
      → bounded_value v depth ≡ true
      → text_eq kind (codes "tuple") ≡ false
      → (contains primitive_kinds kind
          && sized kind (field (codes "type") (text kind) (field (codes "value") content end)))
        ≡ true
      → decode_value floats (tagged kind content) ≡ some v
      → decode_argument floats (tagged kind content) depth ≡ some v
  unfolding decode_argument get text_eq all_in contains
  read_scalar kind content depth v low small plain fits decoded =
      rw (low, plain, fits, decoded, small) refl

  -- A scalar that survives without bounds.
  scalar-IsRead :
      (v : Value F) (kind : Text) (content : Json F) (depth : ℕ)
      → IsPortable floats v
      → bounded_value v depth ≡ true
      → encode_value floats v ≡ some (tagged kind content)
      → text_eq kind (codes "tuple") ≡ false
      → (contains primitive_kinds kind
          && sized kind (field (codes "type") (text kind) (field (codes "value") content end)))
        ≡ true
      → IsRead depth v
  scalar-IsRead v kind content depth portable small encoded plain fits =
      let (j, same, _, decoded) = encode_value-Survives floats v portable in
      let is : j ≡ tagged kind content = some-injective _ _ (sym same ∙ encoded) in
      (
        tagged kind content,
        encoded,
        read_scalar kind content depth v (bounded_value-depth v depth small) small plain fits
            (subst (λ i. decode_value floats i ≡ some v) is decoded),
      )

  int-IsRead :
      (z : ℤ) (depth : ℕ)
      → bounded_value {F = F} (int_value z) depth ≡ true
      → IsRead depth (int_value z)
  unfolding IsPortable bounded_value encode_value int_text text_eq get contains
  int-IsRead z depth h =
      let short = length-str z (both_true (leb depth max_depth) (small_int z) h).1 in
      let fits : digit_count (str z) ≤ max_digits =
        (let p = digit_count-length (str z) in omega (arith, short)) in
      scalar-IsRead (int_value z) (codes "int") (text (str z)) depth fits h
        (rw (leb_of_le _ _ fits) refl) refl (leb_of_le _ _ (omega (arith, short)))

  str-IsRead :
      (s : Text) (depth : ℕ)
      → bounded_value {F = F} (str_value s) depth ≡ true
      → IsRead depth (str_value s)
  unfolding IsPortable bounded_value encode_value text_eq get contains
  str-IsRead s depth h =
      scalar-IsRead (str_value s) (codes "str") (text s) depth tt h refl refl
        (both_true (leb depth max_depth) (leb (length s) max_text) h).1

  bytes-IsRead :
      (b : Bytes) (depth : ℕ)
      → All (λ x. x < 256) b
      → bounded_value {F = F} (bytes_value b) depth ≡ true
      → IsRead depth (bytes_value b)
  unfolding IsPortable bounded_value encode_value text_eq get contains
  bytes-IsRead b depth bytes h =
      let (_, small) = both_true (leb depth max_depth) (leb (length b) max_text) h in
      let size = length-bytes_hex b in
      scalar-IsRead (bytes_value b) (codes "bytes") (text (bytes_hex b)) depth bytes h refl refl
        (leb_of_le _ _ (let p = le_of_leb _ _ small in omega (arith, size, p)))

  float-IsRead :
      (x : F) (depth : ℕ)
      → floats.is_nan x ≡ false
      → length (floats.hex x) ≤ max_text
      → bounded_value (float_value x) depth ≡ true
      → IsRead depth (float_value x)
  unfolding IsPortable bounded_value encode_value text_eq get contains
  float-IsRead x depth number short h =
      scalar-IsRead (float_value x) (codes "float") (text (floats.hex x)) depth number h
        (rw number refl) refl (leb_of_le _ _ short)

  none-IsRead :
      (depth : ℕ) → bounded_value {F = F} none_value depth ≡ true → IsRead depth none_value
  unfolding IsPortable encode_value text_eq get contains
  none-IsRead depth h = scalar-IsRead none_value (codes "None") null depth tt h refl refl refl

  bool-IsRead :
      (b : Bool) (depth : ℕ)
      → bounded_value {F = F} (bool_value b) depth ≡ true
      → IsRead depth (bool_value b)
  unfolding IsPortable encode_value text_eq get contains
  bool-IsRead b depth h =
      scalar-IsRead (bool_value b) (codes "bool") (boolean b) depth tt h refl refl refl

  tuple-IsRead :
      (vs : Values F) (depth : ℕ)
      → bounded_value (tuple_value vs) depth ≡ true
      → AreRead (suc depth) vs
      → IsRead depth (tuple_value vs)
  unfolding encode_value decode_argument decode_content decode_list get text_eq all_in contains
  tuple-IsRead vs depth h (items, made, read, count) =
      let (low, few, _) = tuple-bounds vs depth h in
      let read_all : decode_list floats (arr items) depth ≡ some vs = rw (count, few, read) refl in
      let short : count_values vs ≤ max_sequence =
        (let p = le_of_leb (count_values vs) max_elements few in omega (arith, p)) in
      (
        tagged (codes "tuple") (arr items),
        rw (not_ltb _ _ short, made) refl,
        rw (low, read_all, h) refl,
      )

  mutual
    unfolding IsSendable AreSendable bounded_values encode_values decode_elements

    is_read :
        (v : Value F) (depth : ℕ)
        → IsSendable floats v
        → bounded_value v depth ≡ true
        → IsRead depth v
    is_read none_value depth sendable h = none-IsRead depth h
    is_read (bool_value b) depth sendable h = bool-IsRead b depth h
    is_read (int_value z) depth sendable h = int-IsRead z depth h
    is_read (float_value x) depth (number, short) h = float-IsRead x depth number short h
    is_read (str_value s) depth sendable h = str-IsRead s depth h
    is_read (bytes_value b) depth sendable h = bytes-IsRead b depth sendable h
    is_read (tuple_value vs) depth sendable h =
        let (_, _, inner) = tuple-bounds vs depth h in
        tuple-IsRead vs depth h (are_read vs (suc depth) sendable inner)
    is_read (other_value kind) depth sendable h = elim (no_other_value F kind depth h) [ ]

    are_read :
        (vs : Values F) (depth : ℕ)
        → AreSendable floats vs
        → bounded_values vs depth ≡ true
        → AreRead depth vs
    are_read empty depth sendable h = (nil, refl, refl, refl)
    are_read (more v vs) depth (first, others) h =
        let (small, rest) = both_true (bounded_value v depth) (bounded_values vs depth) h in
        let (j, one, read) = is_read v depth first small in
        let (items, made, found, count) = are_read vs depth others rest in
        (cons j items, rw (one, made) refl, rw (read, found) refl, rw count refl)

  -- The arguments within the bounds of `_bounded_value` have an encoding that is read back.
  pub encode_values-AreRead :
      (vs : Values F) (depth : ℕ)
      → AreSendable floats vs
      → bounded_values vs depth ≡ true
      → AreRead depth vs
  encode_values-AreRead vs depth sendable h = are_read vs depth sendable h
