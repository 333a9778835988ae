-- ===== src/Semantics/Calls/Total.antt =====
-- The search ends: its depth is at most the number of functions.
use purepy.Base.{
  ℕ, zero, suc, ◌+◌, ◌<◌, ◌≤◌, Bool, true, false, ◌||◌, List, [], ◌∷◌, if◌then◌else◌, Text, text_eq,
  eq_of_text_eq, text_eq_refl, length, ◌≡◌, ap, ◌∙◌, arith, Bool-cases, Option-cases, inl, inr,
}
use purepy.Base.Json.{contains}
use purepy.Semantics.Calls.{
  Graph, callees, names, Walk, raised, out_of_fuel, finished, and_then, visit_each, visit_callees,
  visit,
}
use purepy.Semantics.Calls.Ranks.{callees-names}

remove_name : Text → List Text → List Text
remove_name x [] = []
remove_name x (y ∷ ys) = if text_eq y x then ys else y ∷ remove_name x ys

length-remove_name :
    (x : Text) (ys : List Text) → contains ys x ≡ true → suc (length (remove_name x ys)) ≡ length ys
unfolding remove_name contains
length-remove_name x [] h = ground (arith, h)
length-remove_name x (y ∷ ys) h = ground (arith, h, length-remove_name x ys)

contains-remove_name :
    (x n : Text) (ys : List Text)
    → text_eq x n ≡ false
    → contains ys n ≡ true
    → contains (remove_name x ys) n ≡ true
unfolding remove_name contains
contains-remove_name x n [] other h = ground (arith, h)
contains-remove_name x n (y ∷ ys) other h = elim (Bool-cases (text_eq y x)) [
  | inl same ↦
      let e = ap (λ z. text_eq z n) (eq_of_text_eq y x same) ∙ other in ground (arith, same, e, h)
  | inr differ ↦ ground (arith, differ, h, contains-remove_name x n ys other)
]

or_first : (a b : Bool) → (a || b) ≡ false → a ≡ false
or_first a b h = ground (arith, h)

or_second : (a b : Bool) → (a || b) ≡ false → b ≡ false
or_second a b h = ground (arith, h)

text_eq_swap : (x y : Text) → text_eq x y ≡ false → text_eq y x ≡ false
text_eq_swap x y h = elim (Bool-cases (text_eq y x)) [
  | inr differ ↦ differ
  | inl same ↦
      let e = eq_of_text_eq y x same in
      let both : text_eq x y ≡ true = ap (text_eq x) e ∙ text_eq_refl x in ground (arith, h, both)
]

over : (a b : ℕ) → a ≤ b → b < 0 + a → ⊥
over a b h k = omega (arith, h, k)

-- Distinct names of the list.
abbrev IsPart : List Text → List Text → Type 0
IsPart [] ys = Unit
IsPart (x ∷ xs) ys = (contains xs x ≡ false) × (contains ys x ≡ true) × IsPart xs ys

IsPart-remove_name :
    (x : Text) (xs ys : List Text)
    → contains xs x ≡ false
    → IsPart xs ys
    → IsPart xs (remove_name x ys)
unfolding contains
IsPart-remove_name x [] ys h p = tt
IsPart-remove_name x (y ∷ xs) ys h p = (
  p.0,
  contains-remove_name x y ys (text_eq_swap y x (or_first _ _ h)) p.1,
  IsPart-remove_name x xs ys (or_second _ _ h) p.2,
)

length-IsPart : (xs ys : List Text) → IsPart xs ys → length xs ≤ length ys
length-IsPart [] ys p = omega arith
length-IsPart (x ∷ xs) ys p =
    let ih = length-IsPart xs (remove_name x ys) (IsPart-remove_name x xs ys p.0 p.2) in
    let size = length-remove_name x ys p.1 in omega (arith, ih, size)

-- The search ends without running out of fuel.
abbrev pub Ends : Walk → Type 0
Ends raised = Unit
Ends out_of_fuel = ⊥
Ends (finished visited) = Unit

and_then-Ends :
    (w : Walk) (next : List Text → Walk)
    → Ends w
    → ((seen : List Text) → Ends (next seen))
    → Ends (and_then w next)
unfolding and_then
and_then-Ends raised next h k = tt
and_then-Ends out_of_fuel next h k = h
and_then-Ends (finished seen) next h k = k seen

pub visit_each-Ends :
    (visit_one : Text → List Text → Walk)
    → ((n : Text) (visited : List Text) → Ends (visit_one n visited))
    → (targets visited : List Text) → Ends (visit_each visit_one targets visited)
unfolding visit_each
visit_each-Ends visit_one step [] visited = tt
visit_each-Ends visit_one step (t ∷ targets) visited =
    and_then-Ends (visit_one t visited) _ (step t visited) (visit_each-Ends visit_one step targets)

pub visit-Ends :
    (graph : Graph) (fuel : ℕ) (active : List Text) (name : Text) (visited : List Text)
    → IsPart active (names graph)
    → length (names graph) < fuel + length active
    → Ends (visit fuel graph active name visited)
unfolding visit visit_callees
visit-Ends graph zero active name visited p b =
    let q = length-IsPart active (names graph) p in over (length active) (length (names graph)) q b
visit-Ends graph (suc fuel) active name visited p b = elim (Bool-cases (contains active name)) [
  | inl again ↦ rw again tt
  | inr new ↦ elim (Bool-cases (contains visited name)) [
    | inl old ↦ rw (new, old) tt
    | inr unseen ↦ elim (Option-cases (callees graph name)) [
      | inl missing ↦ rw (new, unseen, missing) tt
      | inr (targets, found) ↦
          let deeper : (n : Text) (seen : List Text)
              → Ends (visit fuel graph (name ∷ active) n seen) =
            λ n seen.
              visit-Ends graph fuel (name ∷ active) n seen
                (new, callees-names graph name targets found, p) (omega (arith, b)) in
          rw (new, unseen, found)
            (and_then-Ends _ _ (visit_each-Ends _ deeper targets visited) (λ seen. tt))
    ]
  ]
]
