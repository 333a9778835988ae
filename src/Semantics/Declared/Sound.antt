-- ===== src/Semantics/Declared/Sound.antt =====
-- The texts that `type_node` returns.
use purepy.Base.{
  ℕ, suc, ◌+◌, ◌≤◌, ◌≢◌, Bool, true, false, ◌&&◌, none, some, List, [], ◌∷◌, ◌++◌, leb, All, Text,
  codes, text_eq, eq_of_text_eq, ◌≡◌, refl, sym, ap, ◌∙◌, subst, arith, Bool-cases, Option-cases,
  inl, inr,
}
use purepy.Base.Json.{contains}
use purepy.Semantics.Matching.{ends_with}
use purepy.Semantics.Matching.Types.{
  Primitive, none_type, bool_type, int_type, float_type, str_type, bytes_type, primitive_name,
  ExactType, primitive, optional, tuple_of, type_text, ends_with-append,
}
use purepy.Semantics.Declared.{
  Node, name_node, constant, bin_op, subscript, tuple_node, no_nodes, node_then, none_constant,
  ellipsis, named_primitives, optional_text, tuple_text, type_node, max_depth,
}

abbrev pub height : ExactType → ℕ
height (primitive p) = 0
height (optional t) = suc (height t)
height (tuple_of t) = suc (height t)

-- Neither None nor optional.
abbrev pub IsRequired : ExactType → Type 0
IsRequired (primitive none_type) = ⊥
IsRequired (primitive _) = Unit
IsRequired (optional t) = ⊥
IsRequired (tuple_of t) = Unit

-- Only a required type is made optional.
abbrev pub IsDeclared : ExactType → Type 0
IsDeclared (primitive p) = Unit
IsDeclared (optional t) = IsRequired t × IsDeclared t
IsDeclared (tuple_of t) = IsDeclared t

-- The text is a declared type's, at the depth.
abbrev pub Declares : Text → ℕ → Type 0
Declares s depth =
    (t : ExactType) × (type_text t ≡ s) × IsDeclared t × (height t + depth ≤ max_depth)

abbrev Named : Text → Type 0
Named name = (p : Primitive) × (primitive_name p ≡ name)

bool_distinct : false ≢ true
bool_distinct e = cc

contains-All :
    (P : Text → Type 0) (ks : List Text) (name : Text) → All P ks → contains ks name ≡ true → P name
unfolding contains
contains-All P [] name h e = elim (bool_distinct e) [ ]
contains-All P (k ∷ ks) name h e = elim (Bool-cases (text_eq k name)) [
  | inl is ↦ subst P (eq_of_text_eq k name is) h.0
  | inr other ↦ contains-All P ks name h.1 (rw other at e)
]

contains-Named : (name : Text) → contains named_primitives name ≡ true → Named name
contains-Named name h =
    contains-All Named named_primitives name
      (
        (bool_type, refl),
        ((int_type, refl), ((float_type, refl), ((str_type, refl), ((bytes_type, refl), tt)))),
      )
      h

refused {ℓ} : {A : Type ℓ} (x : A) → none ≢ some x
refused x e = cc

required :
    (t : ExactType)
    → text_eq (type_text t) (codes "None") ≡ false
    → ends_with (codes " | None") (type_text t) ≡ false
    → IsRequired t
unfolding type_text text_eq
required (primitive none_type) h k = elim (bool_distinct (sym h)) [ ]
required (primitive bool_type) h k = tt
required (primitive int_type) h k = tt
required (primitive float_type) h k = tt
required (primitive str_type) h k = tt
required (primitive bytes_type) h k = tt
required (optional t) h k =
    elim (bool_distinct (sym k ∙ ends_with-append (type_text t) (codes " | None"))) [ ]
required (tuple_of t) h k = tt

some_inj : (s t : Text) → some s ≡ some t → s ≡ t
some_inj s t e = cc

le_of_leb : (a b : ℕ) → leb a b ≡ true → a ≤ b
le_of_leb a b h = ground arith

and_parts : (a b : Bool) → (a && b) ≡ true → (a ≡ true) × (b ≡ true)
and_parts true b h = (refl, h)
and_parts false b h = elim (bool_distinct h) [ ]

optional_text-required :
    (element s : Text)
    → optional_text element ≡ some s
    → (text_eq element (codes "None") ≡ false)
      × (ends_with (codes " | None") element ≡ false)
      × (element ++ codes " | None" ≡ s)
unfolding optional_text
optional_text-required element s e = elim (Bool-cases (text_eq element (codes "None"))) [
  | inl is_none ↦ elim (refused s (rw is_none at e)) [ ]
  | inr other ↦ elim (Bool-cases (ends_with (codes " | None") element)) [
    | inl nested ↦ elim (refused s (rw (other, nested) at e)) [ ]
    | inr plain ↦ (other, plain, some_inj _ _ (rw (other, plain) at e))
  ]
]

primitive-Declares :
    (p : Primitive) (s : Text) (depth : ℕ)
    → primitive_name p ≡ s
    → depth ≤ max_depth
    → Declares s depth
unfolding type_text
primitive-Declares p s depth e low = (primitive p, e, tt, omega (arith, low))

optional-Declares :
    (depth : ℕ) (element s : Text)
    → Declares element (suc depth)
    → optional_text element ≡ some s
    → Declares s depth
unfolding type_text
optional-Declares depth element s (t, shown, declared, low) e =
    let (not_none, not_optional, whole) = optional_text-required element s e in
    (
      optional t,
      ap (λ r. r ++ codes " | None") shown ∙ whole,
      (
        required t (ap (λ r. text_eq r (codes "None")) shown ∙ not_none)
            (ap (ends_with (codes " | None")) shown ∙ not_optional),
        declared,
      ),
      omega (arith, low),
    )

tuple-Declares :
    (depth : ℕ) (element : Text)
    → Declares element (suc depth)
    → Declares (tuple_text element) depth
unfolding type_text
tuple-Declares depth element (t, shown, declared, low) =
    (tuple_of t, ap tuple_text shown, declared, omega (arith, low))

-- A text that `_type_node` returns at a depth is that of a type in which None and optional types are
-- not made optional, and which is nested no deeper than 4 less the depth.
pub type_node-Declares :
    (node : Node) (depth : ℕ) (s : Text) → type_node node depth ≡ some s → Declares s depth
unfolding type_node
type_node-Declares (name_node name) depth s e =
    elim (Bool-cases (leb depth max_depth && contains named_primitives name)) [
      | inl ok ↦
          let (low, known) = and_parts _ _ ok in
          let (p, named) = contains-Named name known in
          primitive-Declares p s depth (named ∙ some_inj _ _ (rw ok at e))
            (le_of_leb depth max_depth low)
      | inr bad ↦ elim (refused s (rw bad at e)) [ ]
    ]
type_node-Declares (constant none_constant) depth s e = elim (Bool-cases (leb depth max_depth)) [
  | inl low ↦
      primitive-Declares none_type s depth (some_inj _ _ (rw low at e))
        (le_of_leb depth max_depth low)
  | inr deep ↦ elim (refused s (rw deep at e)) [ ]
]
type_node-Declares (bin_op true left (constant none_constant)) depth s e =
    elim (Bool-cases (leb depth max_depth)) [
      | inr deep ↦ elim (refused s (rw deep at e)) [ ]
      | inl low ↦ elim (Option-cases (type_node left (suc depth))) [
        | inl failed ↦ elim (refused s (rw (low, failed) at e)) [ ]
        | inr (element, found) ↦
            optional-Declares depth element s (type_node-Declares left (suc depth) element found)
              (rw (low, found) at e)
      ]
    ]
type_node-Declares
      (subscript
        (name_node object)
        (tuple_node (node_then item (node_then (constant ellipsis) no_nodes))))
      depth s e =
    elim (Bool-cases (leb depth max_depth && text_eq object (codes "tuple"))) [
      | inr bad ↦ elim (refused s (rw bad at e)) [ ]
      | inl ok ↦ elim (Option-cases (type_node item (suc depth))) [
        | inl failed ↦ elim (refused s (rw (ok, failed) at e)) [ ]
        | inr (element, found) ↦
            subst (λ r. Declares r depth) (some_inj _ _ (rw (ok, found) at e))
              (tuple-Declares depth element (type_node-Declares item (suc depth) element found))
      ]
    ]
type_node-Declares _ depth s e = elim (refused s e) [ ]
