-- ===== src/Semantics/Sources/Acyclic.antt =====
-- The calls of a source that `_validated_tree` accepts.
use purepy.Base.{
  ℕ, ◌+◌, ◌<◌, true, ◌&&◌, none, some, List, [], ◌∷◌, ◌++◌, leb, Text, map, length, All, ◌≡◌, ◌⊎◌,
  refl, ap, ◌∙◌, subst, Bool-cases, inl, inr, both_true,
}
use purepy.Base.Json.{contains}
use purepy.Base.Sorting.{sort_texts, contains-sort_texts}
use purepy.Semantics.Values.{Floats}
use purepy.Semantics.Calls.{callees, Walk, raised, out_of_fuel, finished, visit_functions}
use purepy.Semantics.Calls.Ranks.{rank}
use purepy.Semantics.Calls.Acyclic.{Lowers, visit_functions_lem}
use purepy.Semantics.Sources.{
  Walked, name_use, assign, ann_assign, for_loop, tuple_literal, literal, ellipsis_literal, call,
  this_function, other_function, other_allowed, disallowed, Function, Tree, RuntimeCase, Signature,
  builtins, max_parameters,
}
use purepy.Semantics.Sources.Bodies.{
  Declared, only_functions, declare_functions, function_names, use_allowed, all_nodes, body_allowed,
  bodies_allowed, call_target, called_functions, call_graph, parameter_names, stored_names,
  node_allowed, locals_allowed, keywords_allowed,
}
use purepy.Semantics.Sources.Bodies.Lookup.{
  All-imply, All-both, All-map, function_names-All, function_names-map, IsFound, IsCalled,
  declare_functions-functions, declare_functions-nodes_of, callees-call_graph, called_functions_lem,
}
use purepy.Semantics.Sources.Parts.{validated_tree-parts}
use purepy.Semantics.Sources.Validated.{Python, walk_finished, validated_tree}

walk_finished-finished :
    (w : Walk) → walk_finished w ≡ true → (visited : List Text) × (w ≡ finished visited)
walk_finished-finished (finished visited) h = (visited, refl)
walk_finished-finished raised h = absurd cc
walk_finished-finished out_of_fuel h = absurd cc

module _ {F : Type 0} where
  -- A call's target is a builtin, or a function of lower rank than the caller.
  abbrev pub CallsBelow : List Text → (Text → ℕ) → Text → Walked F → Type 0
  CallsBelow names rank_of caller (call none arguments keywords) = ⊥
  CallsBelow names rank_of caller (call (some name) arguments keywords) =
      (contains builtins name ≡ true)
      ⊎ ((contains names name ≡ true) × (rank_of name < rank_of caller))
  CallsBelow names rank_of caller _ = Unit

  call-CallsBelow :
      (names targets locals : List Text) (rank_of : Text → ℕ) (caller : Text) (node : Walked F)
      → ((t : Text) → contains targets t ≡ true → rank_of t < rank_of caller)
      → use_allowed names locals node ≡ true
      → IsCalled names targets (call_target node)
      → CallsBelow names rank_of caller node
  unfolding use_allowed call_target
  call-CallsBelow names targets locals rank_of caller (call none arguments keywords) lower h k =
      absurd cc
  call-CallsBelow names targets locals rank_of caller (call (some n) arguments keywords) lower h k =
      elim (Bool-cases (contains names n)) [
        | inl known ↦ inr (known, lower n (k known))
        | inr unknown ↦
            inl
              (both_true (contains builtins n) _
                (both_true (contains builtins n && leb (arguments + length keywords) max_parameters)
                  (keywords_allowed keywords) (rw unknown at h)).0).0
      ]
  call-CallsBelow names targets locals rank_of caller (name_use is_store id) lower h k = tt
  call-CallsBelow names targets locals rank_of caller (assign named) lower h k = tt
  call-CallsBelow names targets locals rank_of caller (ann_assign named annotation) lower h k = tt
  call-CallsBelow names targets locals rank_of caller (for_loop named) lower h k = tt
  call-CallsBelow names targets locals rank_of caller (tuple_literal elements) lower h k = tt
  call-CallsBelow names targets locals rank_of caller (literal v) lower h k = tt
  call-CallsBelow names targets locals rank_of caller ellipsis_literal lower h k = tt
  call-CallsBelow names targets locals rank_of caller this_function lower h k = tt
  call-CallsBelow names targets locals rank_of caller other_function lower h k = tt
  call-CallsBelow names targets locals rank_of caller other_allowed lower h k = tt
  call-CallsBelow names targets locals rank_of caller disallowed lower h k = tt

  calls-CallsBelow :
      (names targets locals : List Text) (rank_of : Text → ℕ) (caller : Text)
      (nodes : List (Walked F))
      → ((t : Text) → contains targets t ≡ true → rank_of t < rank_of caller)
      → all_nodes (use_allowed names locals) nodes ≡ true
      → All (λ node. IsCalled names targets (call_target node)) nodes
      → All (CallsBelow names rank_of caller) nodes
  unfolding all_nodes
  calls-CallsBelow names targets locals rank_of caller [] lower h k = tt
  calls-CallsBelow names targets locals rank_of caller (node ∷ nodes) lower h (this, others) =
      let (used, rest) = both_true _ _ h in
      (
        call-CallsBelow names targets locals rank_of caller node lower used this,
        calls-CallsBelow names targets locals rank_of caller nodes lower rest others,
      )

  bodies_allowed-All :
      (names : List Text) (declared : Declared F)
      → bodies_allowed names declared ≡ true
      → All (λ entry. body_allowed names entry ≡ true) declared
  unfolding bodies_allowed
  bodies_allowed-All names [] h = tt
  bodies_allowed-All names (this ∷ declared) h =
      let (first, rest) = both_true _ _ h in (first, bodies_allowed-All names declared rest)

  -- The conclusion for one function, from what the tables and the search say of it.
  body-CallsBelow :
      (declared : Declared F) (rank_of : Text → ℕ) (entry : Function F × Signature)
      → Lowers (call_graph declared) rank_of
      → IsFound [] declared entry × (contains (function_names declared) entry.0.name ≡ true)
      → body_allowed (function_names declared) entry ≡ true
      → All (CallsBelow (function_names declared) rank_of entry.0.name) entry.0.nodes
  unfolding body_allowed
  body-CallsBelow declared rank_of (f, (parameters, returns)) lowers ((_, found), known) h =
      let names = function_names declared in
      let targets = called_functions names f.nodes in
      let listed : callees (call_graph declared) f.name ≡ some (sort_texts targets) =
        callees-call_graph declared f.name known
        ∙ ap (λ nodes. some (sort_texts (called_functions names nodes))) found in
      let locals = parameter_names parameters ++ stored_names f.nodes in
      let (_, used) =
        both_true (all_nodes node_allowed f.nodes && locals_allowed names locals)
          (all_nodes (use_allowed names locals) f.nodes) h in
      calls-CallsBelow names targets locals rank_of f.name f.nodes
        (λ t called.
          lowers f.name t (sort_texts targets) listed (contains-sort_texts t targets ∙ called))
        used (called_functions_lem names f.nodes)

  visited-Lowers :
      (declared : Declared F)
      → walk_finished (visit_functions (call_graph declared)) ≡ true
      → (rank_of : Text → ℕ) × Lowers (call_graph declared) rank_of
  visited-Lowers declared h = elim (visit_functions_lem (call_graph declared)) [
    | inl raises ↦ absurd (let e : walk_finished raised ≡ true = rw raises at h in cc)
    | inr (visited, _, lowers) ↦ (rank visited, lowers)
  ]

  -- No function of the list reaches itself through calls, which have no other targets than these
  -- functions and the builtins.
  abbrev pub IsAcyclic : List (Function F) → Type 0
  IsAcyclic functions =
      (rank_of : Text → ℕ) × All
        (λ f. All (CallsBelow (map (λ g. g.name) functions) rank_of f.name) f.nodes) functions

  declared-IsAcyclic :
      (functions : List (Function F)) (declared : Declared F)
      → declare_functions functions [] ≡ some declared
      → bodies_allowed (function_names declared) declared ≡ true
      → walk_finished (visit_functions (call_graph declared)) ≡ true
      → IsAcyclic functions
  declared-IsAcyclic functions declared h bodies walked =
      let (rank_of, lowers) = visited-Lowers declared walked in
      let named = declare_functions-functions functions [] declared h in
      let below =
        All-imply _ _ declared (λ entry p. body-CallsBelow declared rank_of entry lowers p.0 p.1)
          (All-both _ _ declared
            (All-both _ _ declared (declare_functions-nodes_of functions [] declared h)
              (function_names-All declared))
            (bodies_allowed-All _ declared bodies)) in
      let on_functions =
        All-map (λ f. All (CallsBelow (function_names declared) rank_of f.name) f.nodes)
          (λ entry. entry.0) declared below in
      let names = function_names-map declared ∙ ap (map (λ f. f.name)) named in
      (
        rank_of,
        subst
            (λ fs.
              All (λ f. All (CallsBelow (map (λ g. g.name) functions) rank_of f.name) f.nodes) fs)
            named
            (subst
              (λ ns.
                All (λ f. All (CallsBelow ns rank_of f.name) f.nodes)
                  (map (λ entry. entry.0) declared))
              names on_functions),
      )

module _ {F : Type 0} (floats : Floats F) (python : Python F) where
  -- If `_validated_tree` accepts a case, then the module has functions only, and there are ranks such
  -- that each call in each of them has a builtin as its target, or a function of the module of lower
  -- rank: no function of the source can reach itself.
  pub validated_tree-IsAcyclic :
      (case : RuntimeCase F) (tree : Tree F)
      → validated_tree floats python case ≡ some tree
      → (functions : List (Function F)) × (only_functions tree.body ≡ some functions)
        × IsAcyclic functions
  validated_tree-IsAcyclic case tree h =
      let (functions, declared, _, body, known, _, _, _, bodies, walked) =
        validated_tree-parts floats python case tree h in
      (functions, body, declared-IsAcyclic functions declared known bodies walked)
