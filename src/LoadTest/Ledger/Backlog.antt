-- ===== src/LoadTest/Ledger/Backlog.antt =====
-- The entries of the backlog: what opening, storing and reconciling one keeps.
use purepy.Base.{
  ℕ, ◌≤◌, Bool, true, false, Option, none, some, List, [], ◌∷◌, ◌++◌, leb, ◌==◌, length,
  length-append, ◌≡◌, refl, ap, arith, ◌∙◌, Bool-cases, Option-cases, inl, inr,
}
use Prim.Native.Nat.{max}
use purepy.LoadTest.Distribution.{Seconds, Random}
use purepy.LoadTest.Distribution.Reservoir.{IsFilled, add-IsFilled}
use purepy.LoadTest.Collections.{find, store, delete}
use purepy.LoadTest.Ledger.{
  Events, Entry, Result, max_pending_events, open_entry, empty_entry, arrived_early, measure,
  settle_entry, reconcile, reconcile_entry, reconcile_written, set_changed, cleared_arrivals,
  put_entry,
}
use purepy.LoadTest.Ledger.Acks.{IsAcks}

length-store {ℓ} :
    {A : Type ℓ} (d : List (ℕ × A)) (k : ℕ) (x y : A)
    → find d k ≡ some y
    → length (store d k x) ≡ length d
unfolding find store
length-store [] k x y h = ground (arith, h)
length-store ((j, v) ∷ d) k x y h = ground (arith, h, length-store d k x y)

length-delete {ℓ} : {A : Type ℓ} (d : List (ℕ × A)) (k : ℕ) → length (delete d k) ≤ length d
unfolding delete
length-delete [] k = omega arith
length-delete ((j, v) ∷ d) k = ground (arith, length-delete d k)

find-append {ℓ} :
    {A : Type ℓ} (d : List (ℕ × A)) (k : ℕ) (x : A)
    → find d k ≡ none
    → find (d ++ (k, x) ∷ []) k ≡ some x
unfolding find
find-append [] k x h = ground arith
find-append ((j, v) ∷ d) k x h = ground (arith, h, find-append d k x)

find-store {ℓ} : {A : Type ℓ} (d : List (ℕ × A)) (k : ℕ) (x : A) → find (store d k x) k ≡ some x
unfolding find store
find-store [] k x = ground arith
find-store ((j, v) ∷ d) k x = ground (arith, find-store d k x)

le_max : (a b : ℕ) → b ≤ max a b
le_max a b = ground arith

max_le : (a b c : ℕ) → a ≤ c → b ≤ c → max a b ≤ c
max_le a b c h k = ground arith

module _ {T : Type 0} {G : Type 0} (seconds : Seconds T) (random : Random G) where
  -- Every stream counts what it has delivered by the last identifier; the backlog and the
  -- acknowledgments ahead are bounded; the reservoirs are filled.
  pub record IsSound (s : Events T G) : Type 0 where
    pub acks : IsAcks s
    pub ids : s.last_ids ≡ s.counts
    pub small : length s.pending ≤ s.pending_peak
    pub bounded : s.pending_peak ≤ max_pending_events
    pub delivery : IsFilled seconds random s.delivery
    pub after_ack : IsFilled seconds random s.after_ack
    pub cadence : IsFilled seconds random s.cadence
    pub heartbeats : IsFilled seconds random s.heartbeat_cadence

  measure-pending :
      (w : T × T) (xs : List (ℕ × Option T)) (s : Events T G)
      → (measure seconds random w xs s).pending ≡ s.pending
  unfolding measure
  measure-pending w [] s = refl
  measure-pending w ((k, none) ∷ xs) s = measure-pending w xs s
  measure-pending w ((k, some t) ∷ xs) s = measure-pending w xs _

  measure-IsSound :
      (w : T × T) (xs : List (ℕ × Option T)) (s : Events T G)
      → IsSound s
      → IsSound (measure seconds random w xs s)
  unfolding measure
  measure-IsSound w [] s h = h
  measure-IsSound w ((k, none) ∷ xs) s h = measure-IsSound w xs s h
  measure-IsSound w ((k, some t) ∷ xs) s h = measure-IsSound w xs _ (record {
    acks = record { ahead = h.acks.ahead; next = h.acks.next; count = h.acks.count };
    ids = h.ids;
    small = h.small;
    bounded = h.bounded;
    delivery = add-IsFilled seconds random s.delivery _ h.delivery;
    after_ack = add-IsFilled seconds random s.after_ack _ h.after_ack;
    cadence = h.cadence;
    heartbeats = h.heartbeats;
  })

  -- Another backlog that is not longer, and the flag.
  pub with_pending :
      (s : Events T G) (d : List (ℕ × Entry T)) (changed : Bool)
      → length d ≤ s.pending_peak
      → IsSound s
      → IsSound (record s { pending = d; changed = changed })
  with_pending s d changed b h = record {
    acks = record { ahead = h.acks.ahead; next = h.acks.next; count = h.acks.count };
    ids = h.ids;
    small = b;
    bounded = h.bounded;
    delivery = h.delivery;
    after_ack = h.after_ack;
    cadence = h.cadence;
    heartbeats = h.heartbeats;
  }

  settle_entry-IsSound :
      (s : Events T G) (n : ℕ) (entry : Entry T) (w : T × T)
      → find s.pending n ≡ some entry
      → IsSound s
      → IsSound (settle_entry seconds random s n entry w).1
  unfolding settle_entry
  settle_entry-IsSound s n entry w found h =
      let m = measure seconds random w entry.arrivals s in
      let hm = measure-IsSound w entry.arrivals s h in
      let emptied : Entry T = record entry {
        arrivals = cleared_arrivals seconds random entry.arrivals;
      } in
      let there = ap (λ d. find d n) (measure-pending w entry.arrivals s) ∙ found in
      elim (Bool-cases (arrived_early seconds random w.0 entry.arrivals)) [
        | inl early ↦ rw early h
        | inr timely ↦
            elim (Bool-cases
              (length (cleared_arrivals seconds random entry.arrivals) == s.streams)) [
                | inl complete ↦
                    rw (timely, complete)
                      (with_pending m (delete m.pending n) m.changed
                        (let p = length-delete m.pending n in
                          let q = hm.small in omega (arith, p, q))
                        hm)
                | inr partial ↦
                    rw (timely, partial)
                      (with_pending m (store m.pending n emptied) m.changed
                        (let p = length-store m.pending n emptied entry there in
                          let q = hm.small in omega (arith, p, q))
                        hm)
              ]
      ]

  reconcile_written-IsSound :
      (s : Events T G) (n : ℕ) (entry : Entry T) (o : Option (T × T))
      → find s.pending n ≡ some entry
      → IsSound s
      → IsSound (reconcile_written seconds random s n entry o).1
  unfolding reconcile_written
  reconcile_written-IsSound s n entry none found h = h
  reconcile_written-IsSound s n entry (some w) found h = settle_entry-IsSound s n entry w found h

  reconcile_entry-IsSound :
      (s : Events T G) (n : ℕ) (o : Option (Entry T))
      → find s.pending n ≡ o
      → IsSound s
      → IsSound (reconcile_entry seconds random s n o).1
  unfolding reconcile_entry
  reconcile_entry-IsSound s n none found h = h
  reconcile_entry-IsSound s n (some entry) found h =
      reconcile_written-IsSound s n entry entry.written found h

  set_changed-IsSound : (r : Result T G) → IsSound r.1 → IsSound (set_changed seconds random r).1
  unfolding set_changed
  set_changed-IsSound (false, s) h = h
  set_changed-IsSound (true, s) h = with_pending s s.pending true h.small h

  -- The entry is in the backlog, in a sound state.
  abbrev pub Opened : Events T G → ℕ → Option (Entry T × Events T G) → Type 0
  Opened s n none = Unit
  Opened s n (some (entry, t)) = IsSound t × (find t.pending n ≡ some entry)

  abbrev enlarged : Events T G → ℕ → Events T G
  enlarged s n =
      let pending = s.pending ++ (n, empty_entry) ∷ [] in
      record s { pending = pending; pending_peak = max s.pending_peak (length pending) }

  enlarged-IsSound :
      (s : Events T G) (n : ℕ)
      → leb max_pending_events (length s.pending) ≡ false
      → IsSound s
      → IsSound (enlarged s n)
  enlarged-IsSound s n room h =
      let size = length-append s.pending ((n, empty_entry) ∷ []) in
      record {
        acks = record { ahead = h.acks.ahead; next = h.acks.next; count = h.acks.count };
        ids = h.ids;
        small = le_max s.pending_peak (length (s.pending ++ (n, empty_entry) ∷ []));
        bounded =
            max_le s.pending_peak (length (s.pending ++ (n, empty_entry) ∷ [])) max_pending_events
              h.bounded (ground (arith, room, size));
        delivery = h.delivery;
        after_ack = h.after_ack;
        cadence = h.cadence;
        heartbeats = h.heartbeats;
      }

  pub open_entry-Opened : (s : Events T G) (n : ℕ) → IsSound s → Opened s n (open_entry s n)
  unfolding open_entry
  open_entry-Opened s n h = elim (Option-cases (find s.pending n)) [
    | inr (entry, found) ↦ rw (found, Opened) (h, found)
    | inl missing ↦ elim (Bool-cases (leb max_pending_events (length s.pending))) [
      | inl full ↦ rw (missing, full, Opened) tt
      | inr room ↦
          rw (missing, room, Opened)
            (enlarged-IsSound s n room h, find-append s.pending n empty_entry missing)
    ]
  ]

  pub put_entry-IsSound :
      (s : Events T G) (n : ℕ) (put : Entry T → Entry T) (o : Option (Entry T × Events T G))
      → IsSound s
      → Opened s n o
      → IsSound (put_entry seconds random s n put o).1
  unfolding put_entry reconcile
  put_entry-IsSound s n put none h k = h
  put_entry-IsSound s n put (some (entry, t)) h k =
      let stored = record t { pending = store t.pending n (put entry) } in
      let size = length-store t.pending n (put entry) entry k.1 in
      let ks =
        with_pending t stored.pending t.changed (let q = k.0.small in omega (arith, size, q)) k.0 in
      set_changed-IsSound _ (reconcile_entry-IsSound stored n (find stored.pending n) refl ks)
