-- ===== src/LoadTest/Ledger/Acks.antt =====
-- The acknowledged identifiers: all up to a floor, and those ahead of it.
use purepy.Base.{
  ℕ, zero, suc, ◌+◌, ◌≤◌, ◌<◌, Bool, true, false, ◌&&◌, ◌||◌, not, none, some, List, [], ◌∷◌, leb,
  ◌==◌, length, All, ◌≡◌, refl, ap, arith, ◌∙◌, sym, Bool-cases, inl, inr, ◌⊎◌, subst,
}
use purepy.LoadTest.Collections.{mem, remove}
use purepy.LoadTest.Ledger.{Events, advance, take_ack, note_ack, max_pending_events}

mem-remove : (n k : ℕ) (xs : List ℕ) → mem n (remove k xs) ≡ (not (n == k) && mem n xs)
unfolding mem remove
mem-remove n k [] = ground arith
mem-remove n k (x ∷ xs) = ground (arith, mem-remove n k xs)

unfoldable pub IsUnique : List ℕ → Type 0
IsUnique [] = Unit
IsUnique (x ∷ xs) = (mem x xs ≡ false) × IsUnique xs

pub nil-IsUnique : IsUnique []
unfolding IsUnique
nil-IsUnique = tt

remove-IsUnique : (k : ℕ) (xs : List ℕ) → IsUnique xs → IsUnique (remove k xs)
unfolding remove IsUnique
remove-IsUnique k [] h = tt
remove-IsUnique k (x ∷ xs) h = elim (Bool-cases (x == k)) [
  | inl same ↦ rw same (remove-IsUnique k xs h.1)
  | inr other ↦
      rw (other, IsUnique) (ground (arith, mem-remove x k xs, h.0), remove-IsUnique k xs h.1)
]

length-remove_absent : (k : ℕ) (xs : List ℕ) → mem k xs ≡ false → length (remove k xs) ≡ length xs
unfolding remove mem
length-remove_absent k [] h = refl
length-remove_absent k (x ∷ xs) h = ground (arith, h, length-remove_absent k xs)

length-remove :
    (k : ℕ) (xs : List ℕ) → IsUnique xs → mem k xs ≡ true → suc (length (remove k xs)) ≡ length xs
unfolding remove mem IsUnique
length-remove k [] h m = ground arith
length-remove k (x ∷ xs) h m =
    ground (arith, h.0, m, length-remove k xs h.1, length-remove_absent k xs)

remove-above :
    (floor : ℕ) (xs : List ℕ)
    → All (λ n. floor < n) xs
    → All (λ n. floor + 1 < n) (remove (floor + 1) xs)
unfolding remove
remove-above floor [] h = tt
remove-above floor (x ∷ xs) h = elim (Bool-cases (x == floor + 1)) [
  | inl same ↦ rw same (remove-above floor xs h.1)
  | inr other ↦ rw other (ground (arith, h.0), remove-above floor xs h.1)
]

-- Is the identifier acknowledged?
abbrev pub acked : ℕ → List ℕ → ℕ → Bool
acked floor ahead n = leb n floor || mem n ahead

-- The identifiers ahead are distinct and above the floor.
pub record IsAhead (floor : ℕ) (ahead : List ℕ) : Type 0 where
  pub above : All (λ n. floor < n) ahead
  pub unique : IsUnique ahead

pub record Advanced (floor : ℕ) (ahead : List ℕ) (to : ℕ × List ℕ) : Type 0 where
  pub fine : IsAhead to.0 to.1
  pub next : mem (to.0 + 1) to.1 ≡ false
  pub count : to.0 + length to.1 ≡ floor + length ahead
  pub same : (n : ℕ) → acked to.0 to.1 n ≡ acked floor ahead n

acked_next :
    (floor : ℕ) (ahead : List ℕ) (n : ℕ)
    → mem (floor + 1) ahead ≡ true
    → acked (floor + 1) (remove (floor + 1) ahead) n ≡ acked floor ahead n
acked_next floor ahead n h = elim (Bool-cases (n == floor + 1)) [
  | inl e ↦
      let e' : n ≡ floor + 1 = ground (arith, e) in ground (arith, h, ap (λ k. mem k ahead) e')
  | inr o ↦ ground (arith, o, mem-remove n (floor + 1) ahead)
]

pub mem_nil : (n : ℕ) → mem n [] ≡ false
unfolding mem
mem_nil n = refl

advance_step :
    (fuel floor : ℕ) (ahead : List ℕ)
    → mem (floor + 1) ahead ≡ true
    → advance (suc fuel) floor ahead ≡ advance fuel (floor + 1) (remove (floor + 1) ahead)
unfolding advance
advance_step fuel floor ahead h = ground (arith, h)

advance_stop :
    (fuel floor : ℕ) (ahead : List ℕ)
    → mem (floor + 1) ahead ≡ false
    → advance (suc fuel) floor ahead ≡ (floor, ahead)
unfolding advance
advance_stop fuel floor ahead h = ground (arith, h)

advance-Advanced :
    (fuel floor : ℕ) (ahead : List ℕ)
    → length ahead ≤ fuel
    → IsAhead floor ahead
    → Advanced floor ahead (advance fuel floor ahead)
unfolding advance
advance-Advanced zero floor [] b h = record {
  fine = h;
  next = mem_nil (floor + 1);
  count = refl;
  same = λ n. refl;
}
advance-Advanced zero floor (x ∷ ahead) b h = elim b [ ]
advance-Advanced (suc fuel) floor ahead b h = elim (Bool-cases (mem (floor + 1) ahead)) [
  | inr out ↦
      let e : advance (suc fuel) floor ahead ≡ (floor, ahead) = advance_stop fuel floor ahead out in
      subst (Advanced floor ahead) (sym e)
        (record { fine = h; next = out; count = refl; same = λ n. refl })
  | inl in_ ↦
      let size : suc (length (remove (floor + 1) ahead)) ≡ length ahead =
        length-remove (floor + 1) ahead h.unique in_ in
      let more =
        advance-Advanced fuel (floor + 1) (remove (floor + 1) ahead) (omega arith) (record {
          above = remove-above floor ahead h.above;
          unique = remove-IsUnique (floor + 1) ahead h.unique;
        }) in
      let e : advance (suc fuel) floor ahead ≡ advance fuel (floor + 1) (remove (floor + 1) ahead) =
        advance_step fuel floor ahead in_ in
      subst (Advanced floor ahead) (sym e) (record {
        fine = more.fine;
        next = more.next;
        count = more.count ∙ omega arith;
        same = λ n. more.same n ∙ acked_next floor ahead n in_;
      })
]

acked_adding :
    (floor : ℕ) (ahead : List ℕ) (n k : ℕ)
    → acked floor (n ∷ ahead) k ≡ (k == n || acked floor ahead k)
unfolding mem
acked_adding floor ahead n k = ground arith

module _ {T : Type 0} {G : Type 0} where
  abbrev pub is_acked : Events T G → ℕ → Bool
  is_acked s n = acked s.ack_floor s.acks_ahead n

  -- The acknowledged identifiers are the ones up to the floor and distinct ones above it, but for the
  -- one next to the floor; and they are as many as were acknowledged.
  pub record IsAcks (s : Events T G) : Type 0 where
    pub ahead : IsAhead s.ack_floor s.acks_ahead
    pub next : mem (s.ack_floor + 1) s.acks_ahead ≡ false
    pub count : s.ack_floor + length s.acks_ahead ≡ s.ack_count

  -- `note_ack` on each branch.
  pub record Noted (s : Events T G) (n : ℕ) (t : Events T G) : Type 0 where
    pub new : is_acked s n ≡ false
    pub fine : IsAcks t
    pub one_more : t.ack_count ≡ s.ack_count + 1
    pub exactly : (k : ℕ) → is_acked t k ≡ (k == n || is_acked s k)

  adding :
      (s : Events T G) (n : ℕ)
      → IsAcks s
      → is_acked s n ≡ false
      → IsAhead s.ack_floor (n ∷ s.acks_ahead)
  unfolding IsUnique
  adding s n h new = record {
    above = (ground (arith, new), h.ahead.above);
    unique = (ground (arith, new), h.ahead.unique);
  }

  pub note_ack-IsAcks :
      (s : Events T G) (n : ℕ)
      → IsAcks s
      → (note_ack s n ≡ none) × ((is_acked s n ≡ true) ⊎ max_pending_events ≤ length s.acks_ahead)
        ⊎ (note_ack s n ≡ some (take_ack s n)) × Noted s n (take_ack s n)
  unfolding note_ack
  note_ack-IsAcks s n h = elim (Bool-cases (is_acked s n)) [
    | inl old ↦ inl (rw old refl, inl old)
    | inr new ↦ elim (Bool-cases (leb max_pending_events (length s.acks_ahead))) [
      | inl full ↦ inl (rw (new, full) refl, inr (ground (arith, full)))
      | inr room ↦
          let done =
            advance-Advanced (length (n ∷ s.acks_ahead)) s.ack_floor (n ∷ s.acks_ahead)
              (omega arith) (adding s n h new) in
          inr (
            rw (new, room) refl,
            record {
              new = new;
              fine = record {
                ahead = done.fine;
                next = done.next;
                count = done.count ∙ (let c = h.count in omega arith);
              };
              one_more = refl;
              exactly = λ k. done.same k ∙ acked_adding s.ack_floor s.acks_ahead n k;
            },
          )
    ]
  ]
