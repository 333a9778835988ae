-- ===== src/Semantics/Values/Digits.antt =====
-- The texts of integers and bytes inside encoded values.
use purepy.Base.{
  ℕ, suc, ◌+◌, ◌/◌, ◌%◌, ◌≤◌, ◌<◌, true, some, [], ◌∷◌, leb, ltb, Text, Bytes, length, All, ◌≡◌,
  refl, ap, arith, ◌∙◌, Bool-cases, length-append, inl, inr,
}
use purepy.Base.Int.{ℤ, pos, negsuc}
use purepy.Base.Decimal.{str, digits, digits-IsDigit, value-digits, IsDigit, value}
use purepy.Semantics.Values.{
  digit_count, max_digits, bytes_hex, all_digits, is_integer_text, is_hex_digit, hex_digit,
  hex_value, is_hex_text, hex_bytes, negated, int_of_text,
}

all_digits-digits : (s : Text) → All IsDigit s → all_digits s ≡ true
unfolding all_digits
all_digits-digits [] h = refl
all_digits-digits (c ∷ s) h = ground (arith, h.0.0, h.0.1, all_digits-digits s h.1)

is_integer_text-digits : (s : Text) → All IsDigit s → 0 < length s → is_integer_text s ≡ true
unfolding is_integer_text
is_integer_text-digits [] h l = elim l [ ]
is_integer_text-digits (c ∷ s) h l = ground (arith, h.0.0, h.0.1, all_digits-digits (c ∷ s) h)

int_of_text-digits :
    (s : Text)
    → All IsDigit s
    → 0 < length s
    → digit_count s ≤ max_digits
    → int_of_text s ≡ some (pos (value 0 s))
unfolding int_of_text
int_of_text-digits [] h l b = elim l [ ]
int_of_text-digits (c ∷ s) h l b = ground (arith, h.0.0, h.0.1)

digits_nonempty : (fuel n : ℕ) → 0 < length (digits (suc fuel) n)
unfolding digits
digits_nonempty fuel n = elim (Bool-cases (ltb n 10)) [
  | inl small ↦ rw small (omega arith)
  | inr large ↦
      rw large
        (let sum = length-append (digits fuel (n / 10)) ((48 + n % 10) ∷ []) in omega (arith, sum))
]

leb_of_le : (a b : ℕ) → a ≤ b → leb a b ≡ true
leb_of_le a b h = ground arith

pub is_integer_text-str : (z : ℤ) → is_integer_text (str z) ≡ true
unfolding str is_integer_text
is_integer_text-str (pos n) =
    is_integer_text-digits _ (digits-IsDigit (suc n) n) (digits_nonempty n n)
is_integer_text-str (negsuc n) = ground (
  arith,
  digits_nonempty (suc n) (suc n),
  all_digits-digits _ (digits-IsDigit (suc (suc n)) (suc n)),
)

pub int_of_text-str : (z : ℤ) → digit_count (str z) ≤ max_digits → int_of_text (str z) ≡ some z
unfolding str int_of_text
int_of_text-str (pos n) b =
    int_of_text-digits _ (digits-IsDigit (suc n) n) (digits_nonempty n n) b
    ∙ ap (λ k. some (pos k)) (value-digits (suc n) n (omega arith))
int_of_text-str (negsuc n) b =
    rw (leb_of_le _ _ b)
      (ap (λ k. some (negated k)) (value-digits (suc (suc n)) (suc n) (omega arith)))

pub is_hex_text-bytes_hex : (b : Bytes) → All (λ x. x < 256) b → is_hex_text (bytes_hex b) ≡ true
unfolding is_hex_text bytes_hex is_hex_digit
is_hex_text-bytes_hex [] h = refl
is_hex_text-bytes_hex (x ∷ b) h = ground (arith, h.0, is_hex_text-bytes_hex b h.1)

hex_value-digit : (n : ℕ) → n < 16 → hex_value (hex_digit n) ≡ n
hex_value-digit n h = ground arith

pub hex_bytes-bytes_hex : (b : Bytes) → All (λ x. x < 256) b → hex_bytes (bytes_hex b) ≡ b
unfolding hex_bytes bytes_hex
hex_bytes-bytes_hex [] h = refl
hex_bytes-bytes_hex (x ∷ b) h =
    let high = hex_value-digit (x / 16) (let p = h.0 in omega arith) in
    let low = hex_value-digit (x % 16) (omega arith) in
    let ih = hex_bytes-bytes_hex b h.1 in rw (high, low, ih) (ap (λ y. y ∷ b) (omega arith))
