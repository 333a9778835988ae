-- ===== src/Base/Decimal.antt =====
-- `str` of an integer, in decimal digits, and the UTF-8 bytes of a text without surrogates.
use Prim.Native.Nat.{ℕ, zero, suc, ◌+◌, ◌-◌, ◌*◌, ◌/◌, ◌%◌, ◌≤◌, ◌<◌}
use mathlib.Core.Path.{◌≡◌, refl, ◌∙◌}
use mathlib.Core.Logic.{inl, inr}
use mathlib.Core.List.{[], ◌∷◌, ◌++◌}
use native.Mathlib.Omega.{arith}
use purepy.Base.Tests.{ltb, ltb→lt, if◌then◌else◌, Bool-cases}
use purepy.Base.Lists.{All, All-append, length, length-append}
use purepy.Base.Texts.{Text, Bytes}
use purepy.Base.Int.{ℤ, pos, negsuc}

-- The digits of `n`, last digit last; a number has no more digits than `fuel` if it is below it.
unfoldable pub digits : ℕ → ℕ → Text
digits zero n = []
digits (suc fuel) n =
    let front = digits fuel (n / 10) in
    if ltb n 10 then (48 + n) ∷ [] else front ++ (48 + n % 10) ∷ []

unfoldable pub str : ℤ → Text
unfolding digits
str (pos n) = digits (suc n) n
str (negsuc n) = 45 ∷ digits (suc (suc n)) (suc n)

abbrev pub IsDigit : ℕ → Type 0
IsDigit c = (48 ≤ c) × (c ≤ 57)

-- The number that digits spell behind `acc`.
abbrev pub value : ℕ → Text → ℕ
value acc [] = acc
value acc (c ∷ s) = value (acc * 10 + (c - 48)) s

value-append : (acc : ℕ) (s t : Text) → value acc (s ++ t) ≡ value (value acc s) t
value-append acc [] t = refl
value-append acc (c ∷ s) t = value-append (acc * 10 + (c - 48)) s t

pub digits-IsDigit : (fuel n : ℕ) → All IsDigit (digits fuel n)
unfolding digits
digits-IsDigit zero n = tt
digits-IsDigit (suc fuel) n = elim (Bool-cases (ltb n 10)) [
  | inl small ↦ rw small ((omega arith, let p = ltb→lt _ _ small in omega arith), tt)
  | inr large ↦ rw large (
      All-append IsDigit (digits fuel (n / 10)) _ (digits-IsDigit fuel (n / 10))
        ((omega arith, omega arith), tt))
]

pub value-digits : (fuel n : ℕ) → n < fuel → value 0 (digits fuel n) ≡ n
unfolding digits
value-digits zero n h = elim h [ ]
value-digits (suc fuel) n h = elim (Bool-cases (ltb n 10)) [
  | inl small ↦ rw small (omega arith)
  | inr large ↦ rw large (
      value-append 0 (digits fuel (n / 10)) _
      ∙ (let ih = value-digits fuel (n / 10) (ground arith) in omega arith))
]

-- 10, 100, 1000, ...
abbrev pub tens : ℕ → ℕ
tens zero = 10
tens (suc k) = 10 * tens k

-- A number has at least one digit, and below `tens k` at most k + 1.
pub length-digits :
    (k fuel n : ℕ)
    → n < fuel
    → n < tens k
    → (0 < length (digits fuel n)) × (length (digits fuel n) ≤ suc k)
unfolding digits
length-digits k zero n h b = elim h [ ]
length-digits zero (suc fuel) n h b = ground arith
length-digits (suc k) (suc fuel) n h b = elim (Bool-cases (ltb n 10)) [
  | inl small ↦ rw small (omega arith, omega arith)
  | inr large ↦
      let ih = length-digits k fuel (n / 10) (ground arith) (omega arith) in
      let sum = length-append (digits fuel (n / 10)) ((48 + n % 10) ∷ []) in
      rw large (omega (arith, sum), omega (arith, sum, ih.1))
]

-- The UTF-8 bytes of a code point.
unfoldable pub encode_character : ℕ → Bytes
encode_character c =
    if ltb c 128
    then c ∷ []
    else if ltb c 2048
    then (192 + c / 64) ∷ (128 + c % 64) ∷ []
    else if ltb c 65536
    then (224 + c / 4096) ∷ (128 + c / 64 % 64) ∷ (128 + c % 64) ∷ []
    else (240 + c / 262144) ∷ (128 + c / 4096 % 64) ∷ (128 + c / 64 % 64) ∷ (128 + c % 64) ∷ []

unfoldable pub encode_utf8 : Text → Bytes
unfolding encode_character
encode_utf8 [] = []
encode_utf8 (c ∷ s) = encode_character c ++ encode_utf8 s

abbrev pub IsAscii : ℕ → Type 0
IsAscii c = c < 128

-- ASCII text is its own encoding.
pub encode_utf8-ascii : (s : Text) → All IsAscii s → encode_utf8 s ≡ s
unfolding encode_utf8
encode_utf8-ascii [] h = refl
encode_utf8-ascii (c ∷ s) h = ground (arith, h.0, encode_utf8-ascii s h.1)
