-- ===== src/Semantics/Values.antt =====
-- `encode_value`, `valid_value` and `decode_value`. Floats are a parameter, with the two conversions
-- that the tools use of them. `none` is an exception.
pub mod Digits
pub mod RoundTrip
use purepy.Base.{
  ℕ, zero, suc, ◌+◌, ◌-◌, ◌*◌, ◌/◌, ◌%◌, Bool, true, false, ◌&&◌, ◌||◌, not, Option, none, some,
  List, [], ◌∷◌, ◌++◌, leb, ltb, ◌==◌, if◌then◌else◌, ◌>>=◌, Text, Bytes, codes, text_eq, length,
  ◌≡◌,
}
use purepy.Base.Int.{ℤ, pos, negsuc}
use purepy.Base.Decimal.{str, value}
use purepy.Base.Json.{
  Json, Items, Fields, null, boolean, text, arr, obj, nil, cons, end, field, get, or_null, keys,
  same_set,
}

-- What the tools use of Python's floats. A failed conversion is a ValueError, or an OverflowError.
pub data FromHex (F : Type 0) : Type 0 where
  converted : F → FromHex F
  value_error overflow_error : FromHex F

pub record Floats (F : Type 0) : Type 0 where
  pub is_nan : F → Bool
  pub hex : F → Text
  pub fromhex : Text → FromHex F
  -- documented: `float.fromhex(x.hex())` is x
  pub fromhex-hex : (x : F) → is_nan x ≡ false → fromhex (hex x) ≡ converted x

mutual
  pub data Value (F : Type 0) : Type 0 where
    none_value : Value F
    bool_value : Bool → Value F
    int_value : ℤ → Value F
    float_value : F → Value F
    str_value : Text → Value F
    bytes_value : Bytes → Value F
    tuple_value : Values F → Value F
    other_value : (kind : Text) → Value F

  pub data Values (F : Type 0) : Type 0 where
    empty : Values F
    more : Value F → Values F → Values F

abbrev pub count_values : {F : Type 0} → Values F → ℕ
count_values empty = 0
count_values (more v vs) = suc (count_values vs)

abbrev pub max_sequence : ℕ
max_sequence = 4096

-- CPython converts between integers and texts of at most 4300 digits.
abbrev pub max_digits : ℕ
max_digits = 4300

abbrev pub digit_count : Text → ℕ
digit_count [] = 0
digit_count (c ∷ s) = if c == 45 then length s else suc (length s)

-- `str(value)` of an integer; `none` is a ValueError.
unfoldable pub int_text : ℤ → Option Text
int_text z = if leb (digit_count (str z)) max_digits then some (str z) else none

abbrev pub hex_digit : ℕ → ℕ
hex_digit n = if ltb n 10 then 48 + n else 87 + n

-- `value.hex()` of bytes
unfoldable pub bytes_hex : Bytes → Text
bytes_hex [] = []
bytes_hex (b ∷ bytes) = hex_digit (b / 16) ∷ hex_digit (b % 16) ∷ bytes_hex bytes

abbrev pub tagged : {F : Type 0} → Text → Json F → Json F
tagged kind content = obj (field (codes "type") (text kind) (field (codes "value") content end))

-- `re.fullmatch(r"-?[0-9]+", s)`
unfoldable pub all_digits : Text → Bool
all_digits [] = true
all_digits (c ∷ s) = leb 48 c && leb c 57 && all_digits s

unfoldable pub is_integer_text : Text → Bool
unfolding all_digits
is_integer_text [] = false
is_integer_text (c ∷ s) =
    if c == 45 then not (length s == 0) && all_digits s else all_digits (c ∷ s)

-- `re.fullmatch(r"(?:[0-9a-f]{2})*", s)`
unfoldable pub is_hex_digit : ℕ → Bool
is_hex_digit c = leb 48 c && leb c 57 || leb 97 c && leb c 102

unfoldable pub is_hex_text : Text → Bool
unfolding is_hex_digit
is_hex_text [] = true
is_hex_text (c ∷ []) = false
is_hex_text (c ∷ d ∷ s) = is_hex_digit c && is_hex_digit d && is_hex_text s

abbrev pub hex_value : ℕ → ℕ
hex_value c = if leb c 57 then c - 48 else c - 87

-- `bytes.fromhex(s)` of a text that `is_hex_text` accepts.
unfoldable pub hex_bytes : Text → Bytes
hex_bytes [] = []
hex_bytes (c ∷ []) = []
hex_bytes (c ∷ d ∷ s) = (hex_value c * 16 + hex_value d) ∷ hex_bytes s

abbrev pub negated : ℕ → ℤ
negated zero = pos 0
negated (suc n) = negsuc n

-- `int(s)` of a text that `is_integer_text` accepts; `none` is a ValueError.
unfoldable pub int_of_text : Text → Option ℤ
int_of_text [] = none
int_of_text (c ∷ s) =
    if leb (digit_count (c ∷ s)) max_digits
    then some (if c == 45 then negated (value 0 s) else pos (value 0 (c ∷ s)))
    else none

abbrev pub all_of : Option Bool → Option Bool → Option Bool
all_of none rest = none
all_of (some false) rest = some false
all_of (some true) rest = rest

module _ {F : Type 0} (floats : Floats F) where
  unfoldable mutual
    pub encode_value : Value F → Option (Json F)
    encode_value none_value = some (tagged (codes "None") null)
    encode_value (bool_value b) = some (tagged (codes "bool") (boolean b))
    encode_value (int_value z) = int_text z >>= λ s. some (tagged (codes "int") (text s))
    encode_value (float_value x) =
        some (tagged (codes "float") (text (if floats.is_nan x then codes "nan" else floats.hex x)))
    encode_value (str_value s) = some (tagged (codes "str") (text s))
    encode_value (bytes_value b) = some (tagged (codes "bytes") (text (bytes_hex b)))
    encode_value (tuple_value vs) =
        let items = encode_values vs in
        if ltb max_sequence (count_values vs)
        then none
        else items >>= λ found. some (tagged (codes "tuple") (arr found))
    encode_value (other_value kind) = some (obj (field (codes "type") (text kind) end))

    pub encode_values : Values F → Option (Items F)
    encode_values empty = some nil
    encode_values (more v vs) =
        encode_value v >>= λ first. encode_values vs >>= λ rest. some (cons first rest)

  -- The branches of `valid_value` on the kind; `none` is the OverflowError of `float.fromhex`.
  unfoldable pub valid_kind : Text → Fields F → Option Bool → Option Bool
  valid_kind kind fields sequence =
      let content = or_null (get fields (codes "value")) in
      if text_eq kind (codes "None")
      then some (elim (get fields (codes "value")) [ some null ↦ true | _ ↦ false ])
      else if text_eq kind (codes "bool")
      then some (elim content [ boolean b ↦ true | _ ↦ false ])
      else if text_eq kind (codes "int")
      then some (elim content [ text s ↦ is_integer_text s | _ ↦ false ])
      else if text_eq kind (codes "float")
      then (elim content [
        | text s ↦ elim (floats.fromhex s) [
          | converted x ↦ some true
          | value_error ↦ some false
          | overflow_error ↦ none
        ]
        | _ ↦ some false
      ])
      else if text_eq kind (codes "str")
      then some (elim content [ text s ↦ true | _ ↦ false ])
      else if text_eq kind (codes "bytes")
      then some (elim content [ text s ↦ is_hex_text s | _ ↦ false ])
      else if text_eq kind (codes "tuple")
      then sequence
      else some (same_set (keys fields) (codes "type" ∷ []) && not (length kind == 0))

  unfoldable mutual
    pub valid_value : Json F → Option Bool
    valid_value (obj fields) = elim (or_null (get fields (codes "type"))) [
      | text kind ↦ valid_kind kind fields (valid_content fields)
      | _ ↦ some false
    ]
    valid_value _ = some false

    -- The items of a tuple: what stands under "value" is a list of valid values.
    pub valid_content : Fields F → Option Bool
    valid_content end = some false
    valid_content (field k v fields) =
        let here = valid_sequence v in
        let there = valid_content fields in if text_eq k (codes "value") then here else there

    pub valid_sequence : Json F → Option Bool
    valid_sequence (arr items) = valid_items items
    valid_sequence _ = some false

    pub valid_items : Items F → Option Bool
    valid_items nil = some true
    valid_items (cons v items) = all_of (valid_value v) (valid_items items)

  -- The branches of `decode_value` on the kind; `none` is a ValueError.
  unfoldable pub decode_kind : Text → Json F → Option (Values F) → Option (Value F)
  decode_kind kind content sequence =
      if text_eq kind (codes "None")
      then some none_value
      else if text_eq kind (codes "bool")
      then (elim content [ boolean b ↦ some (bool_value b) | _ ↦ none ])
      else if text_eq kind (codes "str")
      then (elim content [ text s ↦ some (str_value s) | _ ↦ none ])
      else if text_eq kind (codes "int")
      then (elim content [ text s ↦ int_of_text s >>= λ z. some (int_value z) | _ ↦ none ])
      else if text_eq kind (codes "float")
      then (elim content [
        | text s ↦ elim (floats.fromhex s) [ converted x ↦ some (float_value x) | _ ↦ none ]
        | _ ↦ none
      ])
      else if text_eq kind (codes "bytes")
      then (elim content [ text s ↦ some (bytes_value (hex_bytes s)) | _ ↦ none ])
      else if text_eq kind (codes "tuple")
      then (sequence >>= λ vs. some (tuple_value vs))
      else none

  unfoldable mutual
    pub decode_value : Json F → Option (Value F)
    decode_value (obj fields) = elim (valid_value (obj fields)) [
      | some true ↦ elim (or_null (get fields (codes "type"))) [
        | text kind ↦
            decode_kind kind (or_null (get fields (codes "value"))) (decode_content fields)
        | _ ↦ none
      ]
      | _ ↦ none
    ]
    decode_value _ = none

    pub decode_content : Fields F → Option (Values F)
    decode_content end = none
    decode_content (field k v fields) =
        let here = decode_sequence v in
        let there = decode_content fields in if text_eq k (codes "value") then here else there

    pub decode_sequence : Json F → Option (Values F)
    decode_sequence (arr items) = decode_items items
    decode_sequence _ = none

    pub decode_items : Items F → Option (Values F)
    decode_items nil = some empty
    decode_items (cons v items) =
        decode_value v >>= λ first. decode_items items >>= λ rest. some (more first rest)
