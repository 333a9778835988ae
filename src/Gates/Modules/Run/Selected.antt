-- ===== src/Gates/Modules/Run/Selected.antt =====
-- The cases that the gate over modules selects.
use purepy.Base.{
  Bool, true, ◌&&◌, some, List, [], ◌∷◌, leb, ◌>>=◌, text_eq, eq_of_text_eq, length, map, ◌≡◌, refl,
  sym, ap, ◌∙◌, bind-some, some-injective, both_true,
}
use purepy.Base.Json.{get, contains, all_in}
use purepy.Base.Python.{FloatTests, json_eq, require, require-true, item}
use purepy.Gates.Expressions.Run.{all_distinct}
use purepy.Gates.Modules.Compare.{ModuleCase}
use purepy.Gates.Modules.Run.{
  case_names, worker_entry, known_case, count_names, select_case, select_each, select_cases,
  all_same,
}

module _ {F : Type 0} where
  -- The catalog has the case, unchanged and under its fingerprint.
  abbrev pub IsFixed :
      (ModuleCase F → ModuleCase F → Bool) → List (ModuleCase F) → ModuleCase F → Type 0
  IsFixed same catalog case =
      (other : ModuleCase F) × (known_case catalog case.name ≡ some other)
      × (case.fingerprint ≡ other.fingerprint)
      × (same case other ≡ true)

  abbrev pub AllFixed :
      (ModuleCase F → ModuleCase F → Bool) → List (ModuleCase F) → List (ModuleCase F) → Type 0
  AllFixed same catalog [] = Unit
  AllFixed same catalog (case ∷ cases) = IsFixed same catalog case × AllFixed same catalog cases

module _ {F : Type 0} (tests : FloatTests F) where
  fingerprint_eq :
      (case other : ModuleCase F)
      → json_eq tests (worker_entry case) (worker_entry other) ≡ true
      → case.fingerprint ≡ other.fingerprint
  unfolding worker_entry json_eq get text_eq
  fingerprint_eq case other h =
      let (_, rest) =
        both_true (text_eq case.name other.name)
          (text_eq case.fingerprint other.fingerprint && true) h in
      let (same, _) = both_true (text_eq case.fingerprint other.fingerprint) true rest in
      eq_of_text_eq case.fingerprint other.fingerprint same

  -- The rest of `select_case`, for an entry of a case.
  select_case-worker_entry :
      (catalog : List (ModuleCase F)) (case : ModuleCase F)
      → select_case tests catalog (worker_entry case) ≡ (
          known_case catalog case.name >>= λ other.
          require (json_eq tests (worker_entry case) (worker_entry other)) >>= λ _. some other)
  unfolding select_case worker_entry item get text_eq all_in contains
  select_case-worker_entry catalog case = refl

  select_case-known :
      (catalog : List (ModuleCase F)) (case other : ModuleCase F)
      → select_case tests catalog (worker_entry case) ≡ some other
      → (known_case catalog case.name ≡ some other) × (case.fingerprint ≡ other.fingerprint)
  select_case-known catalog case other h =
      let (k, found, rest) =
        bind-some (known_case catalog case.name) _ other
          (sym (select_case-worker_entry catalog case) ∙ h) in
      let (u, same, e) =
        bind-some (require (json_eq tests (worker_entry case) (worker_entry k))) _ other rest in
      let is : k ≡ other = some-injective _ _ e in
      (
        found ∙ ap some is,
        fingerprint_eq case k (require-true _ u same) ∙ ap (λ c. c.fingerprint) is,
      )

  select_each-AllFixed :
      (same : ModuleCase F → ModuleCase F → Bool) (catalog cases selected : List (ModuleCase F))
      → select_each tests catalog (map worker_entry cases) ≡ some selected
      → all_same same cases selected ≡ true
      → AllFixed same catalog cases
  unfolding select_each all_same
  select_each-AllFixed same catalog [] selected h e = tt
  select_each-AllFixed same catalog (case ∷ cases) [] h e = absurd cc
  select_each-AllFixed same catalog (case ∷ cases) (other ∷ others) h e =
      let (k, found, h1) =
        bind-some (select_case tests catalog (worker_entry case)) _ (other ∷ others) h in
      let (ks, behind, whole) =
        bind-some (select_each tests catalog (map worker_entry cases)) _ (other ∷ others) h1 in
      let split : k ∷ ks ≡ other ∷ others = some-injective _ _ whole in
      let is : k ≡ other = cc in
      let are : ks ≡ others = cc in
      let (first, rest) = both_true (same case other) (all_same same cases others) e in
      let (known, print) = select_case-known catalog case other (found ∙ ap some is) in
      (
        (other, known, print, first),
        select_each-AllFixed same catalog cases others (behind ∙ ap some are) rest,
      )

  pub select_cases-AllFixed :
      (same : ModuleCase F → ModuleCase F → Bool) (catalog cases selected : List (ModuleCase F))
      → select_cases tests catalog (map worker_entry cases) ≡ some selected
      → all_same same cases selected ≡ true
      → AllFixed same catalog cases
  unfolding select_cases
  select_cases-AllFixed same catalog cases selected h e =
      let entries = map (worker_entry {F = F}) cases in
      let (_, _, h1) =
        bind-some
          (require
            (leb 1 (length entries) && leb (length entries) (count_names (case_names catalog))))
          _ selected h in
      let (found, each, h2) = bind-some (select_each tests catalog entries) _ selected h1 in
      let (_, _, is) = bind-some (require (all_distinct (case_names found))) _ selected h2 in
      select_each-AllFixed same catalog cases selected (each ∙ ap some (some-injective _ _ is)) e
