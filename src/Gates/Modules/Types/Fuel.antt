-- ===== src/Gates/Modules/Types/Fuel.antt =====
-- The fuel of `strip_none` and `report_fuel` is enough: more of it changes nothing.
use purepy.Base.{
  ℕ, zero, suc, ◌-◌, ◌≤◌, false, [], ◌∷◌, Text, codes, text_eq, length, take, length-take,
  length-drop, ◌≡◌, refl, arith, Bool-cases, inl, inr,
}
use purepy.Base.Json.{contains}
use purepy.Semantics.Matching.{ends_with}
use purepy.Gates.Modules.{without_none, element_of, strip_none}
use purepy.Gates.Modules.Types.{report_fuel}

shorter_rest : (s : Text) (n : ℕ) → length s ≤ suc n → length (without_none s) ≤ n
shorter_rest s n h = let e = length-take (length s - 7) s in omega (arith, e)

shorter_element : (s : Text) (n : ℕ) → length s ≤ suc n → length (element_of s) ≤ n
shorter_element s n h =
    let e = length-drop 6 (take (length s - 6) s) in
    let f = length-take (length s - 6) s in omega (arith, e, f)

-- An annotation is stripped until it does not end with " | None".
pub strip_none-end :
    (fuel : ℕ) (s : Text)
    → length s ≤ fuel
    → ends_with (codes " | None") ((strip_none fuel s).1) ≡ false
unfolding strip_none text_eq
strip_none-end zero [] h = refl
strip_none-end zero (c ∷ s) h = absurd (omega arith)
strip_none-end (suc fuel) s h = elim (Bool-cases (ends_with (codes " | None") s)) [
  | inl more ↦ rw more (strip_none-end fuel (without_none s) (shorter_rest s fuel h))
  | inr done ↦ rw done done
]

-- With any fuel that is not less than the length of the annotation, the reported type is the same.
pub report_fuel-reported_type :
    {F : Type 0} (fuel m : ℕ) (s : Text)
    → length s ≤ fuel
    → length s ≤ m
    → report_fuel {F = F} fuel s ≡ report_fuel m s
unfolding report_fuel text_eq contains
report_fuel-reported_type zero zero s h k = refl
report_fuel-reported_type zero (suc m) [] h k = refl
report_fuel-reported_type zero (suc m) (c ∷ s) h k = absurd (omega arith)
report_fuel-reported_type (suc fuel) zero [] h k = refl
report_fuel-reported_type (suc fuel) zero (c ∷ s) h k = absurd (omega arith)
report_fuel-reported_type {F = F} (suc fuel) (suc m) s h k =
    rw
      (
        report_fuel-reported_type {F = F} fuel m (without_none s) (shorter_rest s fuel h)
            (shorter_rest s m k),
        report_fuel-reported_type {F = F} fuel m (element_of s) (shorter_element s fuel h)
            (shorter_element s m k),
      )
      refl
