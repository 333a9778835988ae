-- ===== src/Semantics/Sources/Typed.antt =====
-- The metadata and the arguments of a case that `_validated_tree` accepts.
use purepy.Base.{
  ℕ, zero, suc, Bool, true, false, ◌&&◌, not, Option, none, some, List, [], ◌∷◌, leb, Text, codes,
  text_eq, eq_of_text_eq, length, All, get_elem?, ◌≡◌, refl, sym, ap, ◌∙◌, subst, Bool-cases, inl,
  inr, bind-some, some-injective, none-some, both_true,
}
use purepy.Base.Json.{Json, contains}
use purepy.Base.Python.{require}
use purepy.Semantics.Values.{Floats, Value, Values, empty, more, encode_value}
use purepy.Semantics.Matching.{matches_type}
use purepy.Semantics.Matching.Types.{ExactType, type_text}
use purepy.Semantics.Matching.Exact.{has_type, matches_type-encode_value}
use purepy.Semantics.Declared.{Node}
use purepy.Semantics.Declared.Sound.{IsDeclared, Declares, type_node-Declares}
use purepy.Semantics.Arguments.{bounded_value}
use purepy.Semantics.Sources.{
  Function, Tree, RuntimeCase, Signature, signature, is_plain, is_name, max_parameters, annotated,
  read_parameters, is_canonical,
}
use purepy.Semantics.Sources.Bodies.{Declared, only_functions, declare_functions, signature_of}
use purepy.Semantics.Sources.Bodies.Lookup.{declare_functions-cons, declared_nothing}
use purepy.Semantics.Sources.Parts.{validated_tree-parts}
use purepy.Semantics.Sources.Validated.{
  Python, metadata_allowed, parameters_allowed, same_parameters, max_invocations, has_exact_type,
  arguments_allowed, invocations_allowed, validated_tree,
}
use purepy.Semantics.Sources.Worker.Sent.{IsSendable, AreSendable, IsPortable-bounded}

same_parameters-eq : (xs ys : List (Text × Text)) → same_parameters xs ys ≡ true → xs ≡ ys
unfolding same_parameters
same_parameters-eq [] [] h = refl
same_parameters-eq [] (y ∷ ys) h = absurd cc
same_parameters-eq (x ∷ xs) [] h = absurd cc
same_parameters-eq ((name, annotation) ∷ xs) ((other, expected) ∷ ys) h =
    let (here, rest) =
      both_true (text_eq name other && text_eq annotation expected) (same_parameters xs ys) h in
    let (named, typed) = both_true (text_eq name other) (text_eq annotation expected) here in
    let ih = same_parameters-eq xs ys rest in
    let e = eq_of_text_eq name other named in let k = eq_of_text_eq annotation expected typed in cc

module _ {F : Type 0} where
  -- A function of the list has the name and the signature.
  abbrev pub Has : List (Function F) → Text → Signature → Type 0
  Has functions name s =
      (i : ℕ) × (f : Function F) × (get_elem? functions i ≡ some f)
      × (f.name ≡ name)
      × (signature f ≡ some s)

  signature_of-Has :
      (fs : List (Function F)) (seen : List Text) (declared : Declared F) (name : Text)
      (s : Signature)
      → declare_functions fs seen ≡ some declared
      → signature_of declared name ≡ some s
      → Has fs name s
  unfolding signature_of
  signature_of-Has [] seen declared name s h k =
      let nothing = declared_nothing seen declared h in
      elim (none-some s (subst (λ d. signature_of d name ≡ some s) nothing k)) [ ]
  signature_of-Has (f ∷ fs) seen declared name s h k =
      let (t, others, signed, _, rest, e) = declare_functions-cons f fs seen declared h in
      let found = subst (λ d. signature_of d name ≡ some s) e k in
      elim (Bool-cases (text_eq f.name name)) [
        | inl is ↦
            let same : t ≡ s = some-injective _ _ (rw is at found) in
            (zero, f, refl, eq_of_text_eq f.name name is, signed ∙ ap some same)
        | inr other ↦
            let (i, g, there, named, typed) =
              signature_of-Has fs (f.name ∷ seen) others name s rest (rw other at found) in
            (suc i, g, there, named, typed)
      ]

abbrev AllDeclared : List (Text × Text) → Type 0
AllDeclared parameters = All (λ p. Declares p.1 0) parameters

annotated-Declares :
    (annotation : Option Node) (s : Text) → annotated annotation ≡ some s → Declares s 0
unfolding annotated
annotated-Declares none s h = elim (none-some s h) [ ]
annotated-Declares (some node) s h = type_node-Declares node 0 s h

read_parameters-AllDeclared :
    (arguments : List (Text × Option Node)) (seen : List Text) (parameters : List (Text × Text))
    → read_parameters arguments seen ≡ some parameters
    → AllDeclared parameters
unfolding read_parameters
read_parameters-AllDeclared [] seen parameters h = subst AllDeclared (some-injective _ _ h) tt
read_parameters-AllDeclared ((name, annotation) ∷ arguments) seen parameters h =
    let (_, _, h1) = bind-some (require (is_name name && not (contains seen name))) _ _ h in
    let (this, typed, h2) = bind-some (annotated annotation) _ _ h1 in
    let (others, rest, h3) = bind-some (read_parameters arguments (name ∷ seen)) _ _ h2 in
    subst AllDeclared (some-injective _ _ h3) (
      annotated-Declares annotation this typed,
      read_parameters-AllDeclared arguments (name ∷ seen) others rest,
    )

signature-AllDeclared :
    {F : Type 0} (f : Function F) (parameters : List (Text × Text)) (returns : Text)
    → signature f ≡ some (parameters, returns)
    → AllDeclared parameters
unfolding signature
signature-AllDeclared f parameters returns h =
    let (_, _, h1) = bind-some (require (is_plain f)) _ _ h in
    let (read, known, h2) = bind-some (read_parameters f.arguments []) _ _ h1 in
    let (_, _, h3) = bind-some (annotated f.returns) _ _ h2 in
    subst AllDeclared (let e = some-injective _ _ h3 in ap (λ s. s.0) e)
      (read_parameters-AllDeclared f.arguments [] read known)

-- The value is of exactly the type that the text spells.
abbrev pub HasExactType : {F : Type 0} → Value F → Text → Type 0
HasExactType v annotation =
    (t : ExactType) × (type_text t ≡ annotation) × IsDeclared t × (has_type t v ≡ true)

-- As many values as parameters, each of its parameter's type.
abbrev pub HaveTypes : {F : Type 0} → Values F → List (Text × Text) → Type 0
HaveTypes empty [] = Unit
HaveTypes empty (p ∷ parameters) = ⊥
HaveTypes (more v vs) [] = ⊥
HaveTypes (more v vs) ((name, annotation) ∷ parameters) =
    HasExactType v annotation × HaveTypes vs parameters

passed : (o : Option Bool) → (elim o [ some true ↦ true | _ ↦ false ]) ≡ true → o ≡ some true
passed none h = absurd cc
passed (some true) h = refl
passed (some false) h = absurd cc

module _ {F : Type 0} (floats : Floats F) where
  by_encoding :
      (o : Option (Json F)) (annotation : Text)
      → (elim o [
        | none ↦ false
        | some j ↦ elim (matches_type j annotation) [ some true ↦ true | _ ↦ false ]
      ])
        ≡ true
      → (j : Json F) × (o ≡ some j) × (matches_type j annotation ≡ some true)
  by_encoding none annotation h = absurd cc
  by_encoding (some j) annotation h = (j, refl, passed (matches_type j annotation) h)

  has_exact_type-HasExactType :
      (v : Value F) (annotation : Text)
      → IsSendable floats v
      → bounded_value v 0 ≡ true
      → Declares annotation 0
      → has_exact_type floats v annotation ≡ true
      → HasExactType v annotation
  unfolding has_exact_type
  has_exact_type-HasExactType v annotation sendable small (t, spelled, declared, _) h =
      let (j, encoded, matched) = by_encoding (encode_value floats v) annotation h in
      let decided =
        matches_type-encode_value floats v t j (IsPortable-bounded floats v 0 sendable small)
          encoded in
      (
        t,
        spelled,
        declared,
        some-injective _ _ (sym decided ∙ ap (matches_type j) spelled ∙ matched),
      )

  arguments_allowed-HaveTypes :
      (vs : Values F) (parameters : List (Text × Text))
      → AreSendable floats vs
      → AllDeclared parameters
      → arguments_allowed floats vs parameters ≡ true
      → HaveTypes vs parameters
  unfolding arguments_allowed AreSendable
  arguments_allowed-HaveTypes empty [] sendable declared h = tt
  arguments_allowed-HaveTypes empty (p ∷ parameters) sendable declared h = absurd cc
  arguments_allowed-HaveTypes (more v vs) [] sendable declared h = absurd cc
  arguments_allowed-HaveTypes (more v vs) ((name, annotation) ∷ parameters) (this, others)
        (first, rest) h =
      let (here, behind) =
        both_true (bounded_value v 0 && has_exact_type floats v annotation)
          (arguments_allowed floats vs parameters) h in
      let (small, exact) =
        both_true (bounded_value v 0) (has_exact_type floats v annotation) here in
      (
        has_exact_type-HasExactType v annotation this small first exact,
        arguments_allowed-HaveTypes vs parameters others rest behind,
      )

  invocations_allowed-HaveTypes :
      (invocations : List (Values F)) (parameters : List (Text × Text))
      → All (AreSendable floats) invocations
      → AllDeclared parameters
      → invocations_allowed floats invocations parameters ≡ true
      → All (λ vs. HaveTypes vs parameters) invocations
  unfolding invocations_allowed
  invocations_allowed-HaveTypes [] parameters sendable declared h = tt
  invocations_allowed-HaveTypes (vs ∷ invocations) parameters (this, others) declared h =
      let (here, behind) =
        both_true (arguments_allowed floats vs parameters)
          (invocations_allowed floats invocations parameters) h in
      (
        arguments_allowed-HaveTypes vs parameters this declared here,
        invocations_allowed-HaveTypes invocations parameters others declared behind,
      )

module _ {F : Type 0} (floats : Floats F) (python : Python F) where
  -- If `_validated_tree` accepts a case whose floats are numbers of short texts and whose bytes are
  -- below 256, then one of the functions of its source is called `probe` and has just the parameters
  -- and the result type of the case's metadata; and every invocation has as many arguments as there
  -- are parameters, each a value of exactly the type that its parameter's annotation spells.
  pub validated_tree-HaveTypes :
      (case : RuntimeCase F) (tree : Tree F)
      → All (AreSendable floats) case.invocations
      → validated_tree floats python case ≡ some tree
      → (functions : List (Function F)) × (only_functions tree.body ≡ some functions)
        × Has functions (codes "probe") (case.parameters, case.returns)
        × All (λ vs. HaveTypes vs case.parameters) case.invocations
  unfolding metadata_allowed
  validated_tree-HaveTypes case tree sendable h =
      let (functions, declared, (parameters, returns), body, known, found, meta, runs, _, _) =
        validated_tree-parts floats python case tree h in
      let (metadata, result) =
        both_true
          (leb (length case.parameters) max_parameters
            && parameters_allowed python case.parameters
            && is_canonical python.parse_expression case.returns
            && same_parameters case.parameters parameters)
          (text_eq case.returns returns) meta in
      let (_, same) =
        both_true
          (leb (length case.parameters) max_parameters
            && parameters_allowed python case.parameters
            && is_canonical python.parse_expression case.returns)
          (same_parameters case.parameters parameters) metadata in
      let e = sym (same_parameters-eq case.parameters parameters same) in
      let k = sym (eq_of_text_eq case.returns returns result) in
      let (i, f, there, named, typed) =
        signature_of-Has functions [] declared (codes "probe") (parameters, returns) known found in
      let signed : signature f ≡ some (case.parameters, case.returns) =
        typed ∙ ap (λ ps. some (ps, returns)) e ∙ ap (λ r. some (case.parameters, r)) k in
      let (_, invocations) =
        both_true (leb 1 (length case.invocations) && leb (length case.invocations) max_invocations)
          (invocations_allowed floats case.invocations case.parameters) runs in
      (
        functions,
        body,
        (i, f, there, named, signed),
        invocations_allowed-HaveTypes floats case.invocations case.parameters sendable
            (signature-AllDeclared f case.parameters case.returns signed) invocations,
      )
