-- ===== src/Semantics/Sources/Parts.antt =====
-- What a case that `_validated_tree` accepts has passed.
use purepy.Base.{
  true, ◌&&◌, some, List, [], leb, codes, length, ◌≡◌, subst, bind-some, some-injective, both_true,
}
use purepy.Base.Python.{require, require-true}
use purepy.Semantics.Values.{Floats}
use purepy.Semantics.Calls.{visit_functions}
use purepy.Semantics.Sources.{Function, Tree, RuntimeCase, Signature, max_nodes, max_functions}
use purepy.Semantics.Sources.Bodies.{
  Declared, only_functions, module_functions, declare_functions, function_names, signature_of,
  bodies_allowed, call_graph,
}
use purepy.Semantics.Sources.Validated.{
  Python, header_allowed, metadata_allowed, invoked, walk_finished, validated_tree,
}

module _ {F : Type 0} (floats : Floats F) (python : Python F) where
  -- What the tables of the accepted source hold, and the tests that it passed.
  pub validated_tree-parts :
      (case : RuntimeCase F) (tree : Tree F)
      → validated_tree floats python case ≡ some tree
      → (functions : List (Function F)) × (declared : Declared F) × (probe : Signature)
        × (only_functions tree.body ≡ some functions)
        × (declare_functions functions [] ≡ some declared)
        × (signature_of declared (codes "probe") ≡ some probe)
        × (metadata_allowed python case probe ≡ true)
        × (invoked floats case ≡ true)
        × (bodies_allowed (function_names declared) declared ≡ true)
        × (walk_finished (visit_functions (call_graph declared)) ≡ true)
  unfolding validated_tree module_functions
  validated_tree-parts case tree h =
      let (_, _, h1) = bind-some (require (header_allowed case)) _ _ h in
      let (parsed, _, h2) = bind-some (python.parse case.source) _ _ h1 in
      let (functions, read, h3) = bind-some (module_functions parsed) _ _ h2 in
      let (declared, known, h4) = bind-some (declare_functions functions []) _ _ h3 in
      let (probe, found, h5) = bind-some (signature_of declared (codes "probe")) _ _ h4 in
      let (u, passed, h6) =
        bind-some (require (metadata_allowed python case probe && invoked floats case)) _ _ h5 in
      let (v, bodies, h7) =
        bind-some (require (bodies_allowed (function_names declared) declared)) _ _ h6 in
      let (w, walked, e) =
        bind-some
          (require
            (walk_finished (visit_functions (call_graph declared)) && python.compiles parsed))
          _ _ h7 in
      let (_, _, body) =
        bind-some
          (require (
            leb parsed.size max_nodes
            && leb 1 (length parsed.body)
            && leb (length parsed.body) max_functions))
          _ _ read in
      let (meta, runs) =
        both_true (metadata_allowed python case probe) (invoked floats case)
          (require-true _ u passed) in
      let (ends, _) =
        both_true (walk_finished (visit_functions (call_graph declared))) (python.compiles parsed)
          (require-true _ w walked) in
      (
        functions,
        declared,
        probe,
        subst (λ t. only_functions t.body ≡ some functions) (some-injective _ _ e) body,
        known,
        found,
        meta,
        runs,
        require-true _ v bodies,
        ends,
      )
