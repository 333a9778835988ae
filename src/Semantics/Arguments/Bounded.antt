-- ===== src/Semantics/Arguments/Bounded.antt =====
-- A decoded argument is bounded.
use purepy.Base.{
  ℕ, Bool, true, false, ◌&&◌, Option, none, some, [], ◌∷◌, leb, if◌then◌else◌, ◌>>=◌, codes,
  text_eq, ◌≡◌, sym, ap, ◌∙◌, Bool-cases, inl, inr, bind-some, some-injective, none-some,
}
use purepy.Base.Json.{Json, Fields, text, obj, get, contains, keys, same_set}
use purepy.Semantics.Values.{Floats, Value, Values, tuple_value, decode_value}
use purepy.Semantics.Arguments.{
  max_depth, primitive_kinds, bounded_value, sized, if_bounded, decode_argument, decode_content,
}

if_bounded-bounded_value :
    {F : Type 0} (depth : ℕ) (v w : Value F)
    → if_bounded depth v ≡ some w
    → bounded_value w depth ≡ true
if_bounded-bounded_value depth v w h = elim (Bool-cases (bounded_value v depth)) [
  | inl small ↦ ap (λ x. bounded_value x depth) (sym (some-injective _ _ (rw small at h))) ∙ small
  | inr large ↦ elim (none-some w (rw large at h)) [ ]
]

taken {ℓ} :
    {A : Type ℓ} (b : Bool) (o : Option A) (x : A) → (if b then o else none) ≡ some x → o ≡ some x
taken true o x h = h
taken false o x h = elim (none-some x h) [ ]

module _ {F : Type 0} (floats : Floats F) where
  by_kind :
      (kind : Option (Json F)) (fields : Fields F) (items : Option (Values F)) (depth : ℕ)
      (w : Value F)
      → (elim kind [
        | some (text kind) ↦
            if text_eq kind (codes "tuple")
            then (items >>= λ vs. if_bounded depth (tuple_value vs))
            else if contains primitive_kinds kind && sized kind fields
            then (decode_value floats (obj fields) >>= if_bounded depth)
            else none
        | _ ↦ none
      ])
        ≡ some w
      → bounded_value w depth ≡ true
  by_kind (some (text kind)) fields items depth w h =
      elim (Bool-cases (text_eq kind (codes "tuple"))) [
        | inl sequence ↦
            let (vs, _, rest) =
              bind-some items (λ vs. if_bounded depth (tuple_value vs)) w (rw sequence at h) in
            if_bounded-bounded_value depth (tuple_value vs) w rest
        | inr plain ↦
            let (v, _, rest) = bind-some (decode_value floats (obj fields)) (if_bounded depth) w (
              taken (contains primitive_kinds kind && sized kind fields)
                (decode_value floats (obj fields) >>= if_bounded depth) w (rw plain at h)) in
            if_bounded-bounded_value depth v w rest
      ]
  by_kind _ fields items depth w h = elim (none-some w h) [ ]

  -- What `_decode_argument` returns is within the bounds of `_bounded_value`, whatever the JSON is.
  pub decode_argument-bounded_value :
      (j : Json F) (depth : ℕ) (v : Value F)
      → decode_argument floats j depth ≡ some v
      → bounded_value v depth ≡ true
  unfolding decode_argument
  decode_argument-bounded_value (obj fields) depth v h =
      by_kind (get fields (codes "type")) fields (decode_content floats fields depth) depth v (
        taken (leb depth max_depth && same_set (keys fields) (codes "type" ∷ codes "value" ∷ [])) _
          v h)
  decode_argument-bounded_value _ depth v h = elim (none-some v h) [ ]
