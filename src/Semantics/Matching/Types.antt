-- ===== src/Semantics/Matching/Types.antt =====
-- The types that the texts write, and the runtime types of values.
use purepy.Base.{
  ℕ, suc, ◌-◌, true, false, [], ◌∷◌, ◌++◌, ◌>>=◌, Text, codes, text_eq, text_eq_refl, eq_of_text_eq,
  length, length-append, take, drop, take-length_append, drop-length_append, take-append-drop, ◌≡◌,
  ◌≢◌, refl, sym, ap, ◌∙◌, arith, Bool-cases, inl, inr,
}
use purepy.Semantics.Matching.{ends_with, any_of, kind_is, content_items, all_items, match_fuel}
use purepy.Semantics.Values.{all_of}
use purepy.Base.Json.{Json}

pub data Primitive : Type 0 where
  none_type bool_type int_type float_type str_type bytes_type : Primitive

pub data ExactType : Type 0 where
  primitive : Primitive → ExactType
  optional : ExactType → ExactType
  tuple_of : ExactType → ExactType

abbrev pub primitive_name : Primitive → Text
primitive_name none_type = codes "None"
primitive_name bool_type = codes "bool"
primitive_name int_type = codes "int"
primitive_name float_type = codes "float"
primitive_name str_type = codes "str"
primitive_name bytes_type = codes "bytes"

unfoldable pub type_text : ExactType → Text
type_text (primitive p) = primitive_name p
type_text (optional t) = type_text t ++ codes " | None"
type_text (tuple_of t) = codes "tuple[" ++ (type_text t ++ codes ", ...]")

-- The last code point of a text.
last : Text → ℕ
last [] = 0
last (c ∷ []) = c
last (c ∷ d ∷ s) = last (d ∷ s)

last-append : (s : Text) (c : ℕ) (t : Text) → last (s ++ c ∷ t) ≡ last (c ∷ t)
unfolding last
last-append [] c t = refl
last-append (x ∷ []) c t = refl
last-append (x ∷ y ∷ s) c t = last-append (y ∷ s) c t

pub ends_with-append : (s suffix : Text) → ends_with suffix (s ++ suffix) ≡ true
ends_with-append s suffix =
    let cut : length (s ++ suffix) - length suffix ≡ length s =
      (let e = length-append s suffix in omega (arith, e)) in
    ap (λ n. text_eq (drop n (s ++ suffix)) suffix) cut
    ∙ ap (λ t. text_eq t suffix) (drop-length_append s suffix)
    ∙ text_eq_refl suffix

-- A text with another last code point has another end.
ends_with-last :
    (s : Text) (c : ℕ) (suffix : Text)
    → last s ≢ last (c ∷ suffix)
    → ends_with (c ∷ suffix) s ≡ false
ends_with-last s c suffix other = elim (Bool-cases (ends_with (c ∷ suffix) s)) [
  | inr no_end ↦ no_end
  | inl is_end ↦
      let n = length s - length (c ∷ suffix) in
      let e = eq_of_text_eq (drop n s) (c ∷ suffix) is_end in
      let whole : s ≡ take n s ++ c ∷ suffix =
        sym (take-append-drop n s) ∙ ap (λ t. take n s ++ t) e in
      elim (other (ap last whole ∙ last-append (take n s) c suffix)) [ ]
]

-- What `[:-k]` leaves.
take-front : (s t : Text) → take (length (s ++ t) - length t) (s ++ t) ≡ s
take-front s t =
    let cut : length (s ++ t) - length t ≡ length s =
      (let e = length-append s t in omega (arith, e)) in
    ap (λ n. take n (s ++ t)) cut ∙ take-length_append s t

tuple_last : (s : Text) → last (codes "tuple[" ++ (s ++ codes ", ...]")) ≡ 93
unfolding last
tuple_last s = last-append (codes "tuple[" ++ s) 44 (codes " ...]")

not_option : (s : Text) → last (codes "tuple[" ++ (s ++ codes ", ...]")) ≢ last (codes " | None")
unfolding last
not_option s e = let p : 93 ≡ 101 = sym (tuple_last s) ∙ e in omega (arith, p)

pub tuple_ends_with :
    (s : Text) → ends_with (codes " | None") (codes "tuple[" ++ (s ++ codes ", ...]")) ≡ false
tuple_ends_with s =
    ends_with-last (codes "tuple[" ++ (s ++ codes ", ...]")) 32 (codes "| None") (not_option s)

module _ {F : Type 0} where
  pub match-primitive :
      (fuel : ℕ) (j : Json F) (p : Primitive)
      → match_fuel (suc fuel) j (primitive_name p) ≡ kind_is j (primitive_name p)
  unfolding match_fuel text_eq
  match-primitive fuel j none_type = refl
  match-primitive fuel j bool_type = refl
  match-primitive fuel j int_type = refl
  match-primitive fuel j float_type = refl
  match-primitive fuel j str_type = refl
  match-primitive fuel j bytes_type = refl

  pub match-optional :
      (fuel : ℕ) (j : Json F) (s : Text)
      → match_fuel (suc fuel) j (s ++ codes " | None")
        ≡ any_of (kind_is j (codes "None")) (match_fuel fuel j s)
  unfolding match_fuel
  match-optional fuel j s =
      rw (ends_with-append s (codes " | None"), take-front s (codes " | None")) refl

  pub match-tuple :
      (fuel : ℕ) (j : Json F) (s : Text)
      → match_fuel (suc fuel) j (codes "tuple[" ++ (s ++ codes ", ...]"))
        ≡ all_of
            (kind_is j (codes "tuple"))
            (content_items j >>= all_items (λ item. match_fuel fuel item s))
  unfolding match_fuel
  match-tuple fuel j s =
      let no_option = tuple_ends_with s in
      rw
        (
          no_option,
          text_eq_refl (codes "tuple["),
          ends_with-append (codes "tuple[" ++ s) (codes ", ...]"),
          take-front (codes "tuple[" ++ s) (codes ", ...]"),
        )
        refl
