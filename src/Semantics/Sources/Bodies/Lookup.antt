-- ===== src/Semantics/Sources/Bodies/Lookup.antt =====
-- What the tables of a module's functions hold, and its call graph.
use purepy.Base.{
  Bool, true, false, ◌&&◌, ◌||◌, not, Option, none, some, List, [], ◌∷◌, Text, text_eq,
  text_eq_refl, eq_of_text_eq, map, All, ◌≡◌, refl, sym, ap, ◌∙◌, subst, arith, Bool-cases, inl,
  inr, bind-some, some-injective, both_true,
}
use purepy.Base.Json.{contains}
use purepy.Base.Python.{require, require-true}
use purepy.Base.Sorting.{sort_texts, contains-sort_texts}
use purepy.Semantics.Calls.{callees}
use purepy.Semantics.Sources.{Walked, Function, Signature, signature, is_name, is_reserved}
use purepy.Semantics.Sources.Bodies.{
  Declared, declare_functions, function_names, nodes_of, add_name, add_target, call_target,
  called_functions, graph_entry, call_graph,
}

pub All-imply {ℓ κ μ} :
    {A : Type ℓ} (P : A → Type κ) (Q : A → Type μ) (xs : List A)
    → ((x : A) → P x → Q x)
    → All P xs
    → All Q xs
All-imply P Q [] imply h = tt
All-imply P Q (x ∷ xs) imply (p, h) = (imply x p, All-imply P Q xs imply h)

pub All-both {ℓ κ μ} :
    {A : Type ℓ} (P : A → Type κ) (Q : A → Type μ) (xs : List A)
    → All P xs
    → All Q xs
    → All (λ x. P x × Q x) xs
All-both P Q [] h k = tt
All-both P Q (x ∷ xs) (p, h) (q, k) = ((p, q), All-both P Q xs h k)

pub All-map {ℓ κ μ} :
    {A : Type ℓ} {B : Type κ} (P : B → Type μ) (f : A → B) (xs : List A)
    → All (λ x. P (f x)) xs
    → All P (map f xs)
All-map P f [] h = tt
All-map P f (x ∷ xs) (p, h) = (p, All-map P f xs h)

not_or : (a b : Bool) → not (a || b) ≡ true → a ≡ false
not_or a b h = ground arith

or_false : (a b : Bool) → (a || b) ≡ false → (a ≡ false) × (b ≡ false)
or_false a b h = ground arith

contains-add_name :
    (n : Text) (names : List Text) (g : Text)
    → contains (n ∷ names) g ≡ true
    → contains (add_name n names) g ≡ true
unfolding contains
contains-add_name n names g h = elim (Bool-cases (contains names n)) [
  | inl old ↦ elim (Bool-cases (text_eq n g)) [
    | inl is ↦ rw old (subst (λ m. contains names m ≡ true) (eq_of_text_eq n g is) old)
    | inr other ↦ rw old (rw other at h)
  ]
  | inr new ↦ rw new h
]

-- If the name is a function of the module, then it is one of the targets.
abbrev pub IsCalled : List Text → List Text → Option Text → Type 0
IsCalled names targets none = Unit
IsCalled names targets (some g) = contains names g ≡ true → contains targets g ≡ true

IsCalled-add_target :
    (names targets : List Text) (new old : Option Text)
    → IsCalled names targets old
    → IsCalled names (add_target names new targets) old
unfolding add_target contains
IsCalled-add_target names targets none old h = h
IsCalled-add_target names targets (some n) none h = tt
IsCalled-add_target names targets (some n) (some g) h = elim (Bool-cases (contains names n)) [
  | inl known ↦ rw known (λ k.
      contains-add_name n targets g
        (elim (Bool-cases (text_eq n g)) [ inl is ↦ rw is refl | inr other ↦ rw other (h k) ]))
  | inr unknown ↦ rw unknown h
]

add_target_lem :
    (names : List Text) (target : Option Text) (targets : List Text)
    → IsCalled names (add_target names target targets) target
unfolding add_target contains
add_target_lem names none targets = tt
add_target_lem names (some n) targets =
    λ known. rw known (contains-add_name n targets n (rw (text_eq_refl n) refl))

module _ {F : Type 0} where
  -- The first function of a table that `declare_functions` returns.
  pub declare_functions-cons :
      (f : Function F) (fs : List (Function F)) (seen : List Text) (declared : Declared F)
      → declare_functions (f ∷ fs) seen ≡ some declared
      → (s : Signature) × (others : Declared F) × (signature f ≡ some s)
        × (contains seen f.name ≡ false)
        × (declare_functions fs (f.name ∷ seen) ≡ some others)
        × (declared ≡ (f, s) ∷ others)
  unfolding declare_functions
  declare_functions-cons f fs seen declared h =
      let (u, allowed, h1) =
        bind-some (require (is_name f.name && not (contains seen f.name || is_reserved f.name))) _ _
          h in
      let (s, signed, h2) = bind-some (signature f) _ _ h1 in
      let (others, rest, h3) = bind-some (declare_functions fs (f.name ∷ seen)) _ _ h2 in
      let fresh = both_true _ _ (require-true _ u allowed) in
      (s, others, signed, not_or _ _ fresh.1, rest, sym (some-injective _ _ h3))

  pub declared_nothing :
      (seen : List Text) (declared : Declared F)
      → declare_functions [] seen ≡ some declared
      → declared ≡ []
  unfolding declare_functions
  declared_nothing seen declared h = sym (some-injective _ _ h)

  pub declare_functions-functions :
      (fs : List (Function F)) (seen : List Text) (declared : Declared F)
      → declare_functions fs seen ≡ some declared
      → map (λ entry. entry.0) declared ≡ fs
  declare_functions-functions [] seen declared h =
      ap (map (λ entry. entry.0)) (declared_nothing seen declared h)
  declare_functions-functions (f ∷ fs) seen declared h =
      let (s, others, _, _, rest, e) = declare_functions-cons f fs seen declared h in
      ap (map (λ entry. entry.0)) e
      ∙ ap (λ l. f ∷ l) (declare_functions-functions fs (f.name ∷ seen) others rest)

  abbrev pub IsFound : List Text → Declared F → Function F × Signature → Type 0
  IsFound seen declared (f, s) =
      (contains seen f.name ≡ false) × (nodes_of declared f.name ≡ f.nodes)

  IsFound-cons :
      (g : Function F) (t : Signature) (seen : List Text) (declared : Declared F)
      (entry : Function F × Signature)
      → IsFound (g.name ∷ seen) declared entry
      → IsFound seen ((g, t) ∷ declared) entry
  unfolding contains nodes_of
  IsFound-cons g t seen declared (f, s) (fresh, found) =
      let (other, unseen) = or_false (text_eq g.name f.name) (contains seen f.name) fresh in
      (unseen, rw (other, found) refl)

  found_first :
      (f : Function F) (s : Signature) (declared : Declared F)
      → nodes_of ((f, s) ∷ declared) f.name ≡ f.nodes
  unfolding nodes_of
  found_first f s declared = rw (text_eq_refl f.name) refl

  -- Each function is the one that its name leads to.
  pub declare_functions-nodes_of :
      (fs : List (Function F)) (seen : List Text) (declared : Declared F)
      → declare_functions fs seen ≡ some declared
      → All (IsFound seen declared) declared
  declare_functions-nodes_of [] seen declared h =
      subst (λ d. All (IsFound seen d) d) (sym (declared_nothing seen declared h)) tt
  declare_functions-nodes_of (f ∷ fs) seen declared h =
      let (s, others, _, fresh, rest, e) = declare_functions-cons f fs seen declared h in
      subst (λ d. All (IsFound seen d) d) (sym e)
        (
          (fresh, found_first f s others),
          All-imply _ _ others (IsFound-cons f s seen others)
              (declare_functions-nodes_of fs (f.name ∷ seen) others rest),
        )

  callees-map :
      (declared : Declared F) (names : List Text) (name : Text)
      → contains names name ≡ true
      → callees (map (graph_entry declared) names) name ≡ some (graph_entry declared name).1
  unfolding callees contains graph_entry
  callees-map declared [] name h = absurd cc
  callees-map declared (n ∷ names) name h = elim (Bool-cases (text_eq n name)) [
    | inl is ↦ rw is (ap (λ m. some (graph_entry declared m).1) (eq_of_text_eq n name is))
    | inr other ↦ rw other (callees-map declared names name (rw other at h))
  ]

  pub callees-call_graph :
      (declared : Declared F) (name : Text)
      → contains (function_names declared) name ≡ true
      → callees (call_graph declared) name
        ≡ some (sort_texts (called_functions (function_names declared) (nodes_of declared name)))
  unfolding call_graph graph_entry
  callees-call_graph declared name h =
      callees-map declared (sort_texts (function_names declared)) name
        (contains-sort_texts name (function_names declared) ∙ h)

  pub called_functions_lem :
      (names : List Text) (nodes : List (Walked F))
      → All (λ node. IsCalled names (called_functions names nodes) (call_target node)) nodes
  unfolding called_functions
  called_functions_lem names [] = tt
  called_functions_lem names (node ∷ nodes) =
      let rest = called_functions names nodes in
      (
        add_target_lem names (call_target node) rest,
        All-imply _ _ nodes
            (λ other. IsCalled-add_target names rest (call_target node) (call_target other))
            (called_functions_lem names nodes),
      )

  -- Every function is one of the names.
  pub function_names-All :
      (declared : Declared F)
      → All (λ entry. contains (function_names declared) entry.0.name ≡ true) declared
  unfolding contains
  function_names-All [] = tt
  function_names-All ((f, s) ∷ declared) = (
    rw (text_eq_refl f.name) refl,
    All-imply _ _ declared
        (λ entry h. elim (Bool-cases (text_eq f.name entry.0.name)) [
          | inl is ↦ rw is refl
          | inr other ↦ rw other h
        ])
        (function_names-All declared),
  )

  pub function_names-map :
      (declared : Declared F)
      → function_names declared ≡ map (λ f. f.name) (map (λ entry. entry.0) declared)
  function_names-map [] = refl
  function_names-map ((f, s) ∷ declared) = ap (λ l. f.name ∷ l) (function_names-map declared)
