-- ===== src/Service/Http/Decimals.antt =====
-- `decimal`: one to nine digits, and their value.
use purepy.Base.{
  ℕ, suc, ◌+◌, ◌-◌, ◌*◌, ◌<◌, ◌≤◌, [], ◌∷◌, ◌≡◌, ◌↔◌, refl, ap, sym, ◌∙◌, arith, Text, length, All,
  Bool-cases, inl, inr, ltb, ◌||◌, ◌==◌,
}
use purepy.Base.Int.{pos}
use purepy.Base.Decimal.{IsDigit, value, str, digits-IsDigit, value-digits, length-digits, tens}
use purepy.Service.Http.{decimal_loop, decimal, minus_one}

decimal_loop-value : (acc : ℕ) (s : Text) → All IsDigit s → decimal_loop acc s ≡ pos (value acc s)
unfolding decimal_loop
decimal_loop-value acc [] h = refl
decimal_loop-value acc (c ∷ s) ((low, high), h) =
    let same : acc * 10 + c - 48 ≡ acc * 10 + (c - 48) = omega arith in
    ground (arith, ap (λ n. decimal_loop n s) same, decimal_loop-value (acc * 10 + (c - 48)) s h)

decimal_loop-digits :
    (acc n : ℕ) (s : Text) → decimal_loop acc s ≡ pos n → All IsDigit s × (n ≡ value acc s)
unfolding decimal_loop
decimal_loop-digits acc n [] h = ground arith
decimal_loop-digits acc n (c ∷ s) h = elim (Bool-cases (ltb c 48 || ltb 57 c)) [
  | inl bad ↦ absurd (let h' : minus_one ≡ pos n = rw bad at h in cc)
  | inr good ↦
      let h' : decimal_loop (acc * 10 + c - 48) s ≡ pos n = rw good at h in
      let low : 48 ≤ c = ground arith in
      let high : c ≤ 57 = ground arith in
      let same : acc * 10 + c - 48 ≡ acc * 10 + (c - 48) = omega arith in
      let ih = decimal_loop-digits (acc * 10 + c - 48) n s h' in
      (((low, high), ih.0), ih.1 ∙ ap (λ m. value m s) same)
]

-- `decimal` gives a number exactly for one to nine digits, and then the number that they spell.
pub decimal_iff :
    (s : Text) (n : ℕ)
    → (decimal s ≡ pos n) ↔ ((0 < length s) × (length s ≤ 9) × All IsDigit s × (n ≡ value 0 s))
unfolding decimal
decimal_iff s n = (
  λ h. elim (Bool-cases (length s == 0 || ltb 9 (length s))) [
    | inl bad ↦ absurd (let h' : minus_one ≡ pos n = rw bad at h in cc)
    | inr good ↦
        let h' : decimal_loop 0 s ≡ pos n = rw good at h in
        let (all_digits, exact) = decimal_loop-digits 0 n s h' in
        (ground arith, ground arith, all_digits, exact)
  ],
  λ (some_digit, few, all_digits, exact). ground (arith, decimal_loop-value 0 s all_digits),
)

-- Every number below 10 ^ 9 that is written by `str` is read back by `decimal`.
pub decimal-str : (n : ℕ) → n < tens 8 → decimal (str (pos n)) ≡ pos n
unfolding str
decimal-str n h =
    let size = length-digits 8 (suc n) n (omega arith) h in
    (decimal_iff _ n).1
      (size.0, size.1, digits-IsDigit (suc n) n, sym (value-digits (suc n) n (omega arith)))
