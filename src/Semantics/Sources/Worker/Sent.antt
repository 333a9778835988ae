-- ===== src/Semantics/Sources/Worker/Sent.antt =====
-- The arguments that can be sent, and the sizes of their encodings.
use purepy.Base.{
  ℕ, suc, ◌+◌, ◌*◌, ◌^◌, ◌≤◌, ◌<◌, true, false, ◌&&◌, [], ◌∷◌, Text, Bytes, All, length, leb, ltb,
  ltb→lt, ◌≡◌, ◌≢◌, refl, arith, both_true,
}
use purepy.Base.Int.{ℤ, pos, negsuc}
use purepy.Base.Decimal.{str, tens, length-digits}
use purepy.Semantics.Values.{
  Floats, Value, none_value, bool_value, int_value, float_value, str_value, bytes_value,
  tuple_value, other_value, Values, empty, more, count_values, digit_count, bytes_hex,
}
use purepy.Semantics.Values.RoundTrip.{IsPortable, ArePortable}
use purepy.Semantics.Arguments.{
  max_depth, max_elements, max_text, bounded_value, bounded_values, small_int,
}

pub length-str : (z : ℤ) → small_int z ≡ true → length (str z) ≤ 79
unfolding str
length-str (pos n) h =
    let below : n < tens 77 =
      (let p = ltb→lt (n + 0) (2 ^ 256) h in
        let q = ltb→lt (2 ^ 256) (tens 77) refl in omega arith) in
    let (_, short) = length-digits 77 (suc n) n (omega arith) below in omega (arith, short)
length-str (negsuc n) h =
    let below : suc n < tens 77 =
      (let p = ltb→lt (0 + suc n) (2 ^ 256) h in
        let q = ltb→lt (2 ^ 256) (tens 77) refl in omega arith) in
    let (_, short) = length-digits 77 (suc (suc n)) (suc n) (omega arith) below in
    omega (arith, short)

pub length-bytes_hex : (b : Bytes) → length (bytes_hex b) ≡ 2 * length b
unfolding bytes_hex
length-bytes_hex [] = refl
length-bytes_hex (x ∷ b) = let ih = length-bytes_hex b in omega arith

pub digit_count-length : (s : Text) → digit_count s ≤ length s
digit_count-length [] = omega arith
digit_count-length (c ∷ s) = ground arith

pub leb_of_le : (a b : ℕ) → a ≤ b → leb a b ≡ true
leb_of_le a b h = ground arith

pub not_ltb : (a b : ℕ) → a ≤ b → ltb b a ≡ false
not_ltb a b h = ground arith

pub le_of_leb : (a b : ℕ) → leb a b ≡ true → a ≤ b
le_of_leb a b h = ground arith

pub no_other_value :
    (F : Type 0) (kind : Text) (depth : ℕ) → bounded_value {F = F} (other_value kind) depth ≢ true
unfolding bounded_value
no_other_value F kind depth h = cc

module _ {F : Type 0} where
  pub bounded_value-depth :
      (v : Value F) (depth : ℕ) → bounded_value v depth ≡ true → leb depth max_depth ≡ true
  unfolding bounded_value
  bounded_value-depth none_value depth h = h
  bounded_value-depth (bool_value b) depth h = h
  bounded_value-depth (float_value x) depth h = h
  bounded_value-depth (int_value z) depth h = (both_true _ _ h).0
  bounded_value-depth (str_value s) depth h = (both_true _ _ h).0
  bounded_value-depth (bytes_value b) depth h = (both_true _ _ h).0
  bounded_value-depth (tuple_value vs) depth h =
      (both_true _ (leb (count_values vs) max_elements) (both_true _ _ h).0).0
  bounded_value-depth (other_value kind) depth h = absurd cc

  pub tuple-bounds :
      (vs : Values F) (depth : ℕ)
      → bounded_value (tuple_value vs) depth ≡ true
      → (leb depth max_depth ≡ true)
        × (leb (count_values vs) max_elements ≡ true)
        × (bounded_values vs (suc depth) ≡ true)
  unfolding bounded_value
  tuple-bounds vs depth h =
      let (few, inner) =
        both_true (leb depth max_depth && leb (count_values vs) max_elements)
          (bounded_values vs (suc depth)) h in
      let (low, few) = both_true (leb depth max_depth) (leb (count_values vs) max_elements) few in
      (low, few, inner)

module _ {F : Type 0} (floats : Floats F) where
  -- What no bound of `_bounded_value` says: a float is no NaN and its text is short, and bytes are
  -- bytes.
  unfoldable mutual
    pub IsSendable : Value F → Type 0
    IsSendable (float_value x) = (floats.is_nan x ≡ false) × (length (floats.hex x) ≤ max_text)
    IsSendable (bytes_value b) = All (λ x. x < 256) b
    IsSendable (tuple_value vs) = AreSendable vs
    IsSendable _ = Unit

    pub AreSendable : Values F → Type 0
    AreSendable empty = Unit
    AreSendable (more v vs) = IsSendable v × AreSendable vs

  mutual
    unfolding IsSendable AreSendable IsPortable ArePortable bounded_value bounded_values

    portable :
        (v : Value F) (depth : ℕ)
        → IsSendable v
        → bounded_value v depth ≡ true
        → IsPortable floats v
    portable none_value depth sendable h = tt
    portable (bool_value b) depth sendable h = tt
    portable (int_value z) depth sendable h =
        let short = length-str z (both_true (leb depth max_depth) (small_int z) h).1 in
        let p = digit_count-length (str z) in omega (arith, short, p)
    portable (float_value x) depth (number, short) h = number
    portable (str_value s) depth sendable h = tt
    portable (bytes_value b) depth sendable h = sendable
    portable (tuple_value vs) depth sendable h =
        let (_, few, inner) = tuple-bounds vs depth h in
        let p = le_of_leb (count_values vs) max_elements few in
        (omega (arith, p), all_portable vs (suc depth) sendable inner)
    portable (other_value kind) depth sendable h = elim (no_other_value F kind depth h) [ ]

    all_portable :
        (vs : Values F) (depth : ℕ)
        → AreSendable vs
        → bounded_values vs depth ≡ true
        → ArePortable floats vs
    all_portable empty depth sendable h = tt
    all_portable (more v vs) depth (first, others) h =
        let (small, rest) = both_true (bounded_value v depth) (bounded_values vs depth) h in
        (portable v depth first small, all_portable vs depth others rest)

  pub IsPortable-bounded :
      (v : Value F) (depth : ℕ) → IsSendable v → bounded_value v depth ≡ true → IsPortable floats v
  IsPortable-bounded v depth sendable h = portable v depth sendable h
