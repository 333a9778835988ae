-- ===== src/Base/Sorting.antt =====
-- `sorted` of texts, as an insertion sort.
use mathlib.Core.Bool.{Bool, true, false, ◌||◌}
use mathlib.Core.List.{List, [], ◌∷◌}
use mathlib.Core.Path.{◌≡◌, refl, ap, ◌∙◌}
use mathlib.Core.Logic.{inl, inr}
use purepy.Base.Tests.{if◌then◌else◌, Bool-cases}
use purepy.Base.Texts.{Text, text_eq, text_lt}
use purepy.Base.Json.{contains}
use purepy.Base.Lists.{All}

unfoldable pub insert_text : Text → List Text → List Text
insert_text s [] = s ∷ []
insert_text s (t ∷ ts) =
    let rest = insert_text s ts in if text_lt t s then t ∷ rest else s ∷ (t ∷ ts)

unfoldable pub sort_texts : List Text → List Text
sort_texts [] = []
sort_texts (s ∷ ts) = insert_text s (sort_texts ts)

All-insert_text :
    (P : Text → Type 0) (s : Text) (ts : List Text) → All P (insert_text s ts) → All P (s ∷ ts)
unfolding insert_text
All-insert_text P s [] h = h
All-insert_text P s (t ∷ ts) h = elim (Bool-cases (text_lt t s)) [
  | inr after ↦ rw after at h
  | inl before ↦
      let kept : P t × All P (insert_text s ts) = rw before at h in
      let (this, others) = All-insert_text P s ts kept.1 in (this, (kept.0, others))
]

pub All-sort_texts : (P : Text → Type 0) (ts : List Text) → All P (sort_texts ts) → All P ts
unfolding sort_texts
All-sort_texts P [] h = h
All-sort_texts P (t ∷ ts) h =
    let (this, others) = All-insert_text P t (sort_texts ts) h in (this, All-sort_texts P ts others)

or_swap : (a b c : Bool) → (a || (b || c)) ≡ (b || (a || c))
or_swap true true c = refl
or_swap true false c = refl
or_swap false b c = refl

contains-insert_text :
    (s x : Text) (ts : List Text) → contains (insert_text s ts) x ≡ contains (s ∷ ts) x
unfolding insert_text contains
contains-insert_text s x [] = refl
contains-insert_text s x (t ∷ ts) = elim (Bool-cases (text_lt t s)) [
  | inr after ↦ rw after refl
  | inl before ↦ rw before (
      ap (λ b. text_eq t x || b) (contains-insert_text s x ts)
      ∙ or_swap (text_eq t x) (text_eq s x) (contains ts x))
]

pub contains-sort_texts : (x : Text) (ts : List Text) → contains (sort_texts ts) x ≡ contains ts x
unfolding sort_texts contains
contains-sort_texts x [] = refl
contains-sort_texts x (t ∷ ts) =
    contains-insert_text t x (sort_texts ts) ∙ ap (λ b. text_eq t x || b) (contains-sort_texts x ts)
