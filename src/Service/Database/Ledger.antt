-- ===== src/Service/Database/Ledger.antt =====
-- The event table is a ledger of the updates: numbered from 1 without a gap, and the balance of a
-- user is the one that the user's last event records.
use purepy.Base.{
  ℕ, suc, ◌+◌, ◌-◌, ◌≡◌, ◌≢◌, ◌⊎◌, ◌∙◌, refl, ap, sym, arith, inl, inr, true, false, Option, none,
  some, List, [], ◌∷◌, ◌++◌, ltb, if◌then◌else◌, length, length-append, append-nil, take, drop,
  drop-nil, Option-cases, Bool-cases,
}
use purepy.Base.Int.{ℤ, pos, eq_ℤ, ◌+ℤ◌, eq_of_parts}
use purepy.Service.Types.{User, UpdatePlan, Event}
use purepy.Service.Database.{
  Fault, no_fault, at_first_statement, at_insert, Database, find_user, add_balance, after_cursor,
  inserted, update_rows, execute_update, page_after, load_event_page, opened,
}

abbrev pub IsNumbered : ℕ → List Event → Type 0
IsNumbered k [] = Unit
IsNumbered k (e ∷ events) = (e.event_id ≡ suc k) × IsNumbered (suc k) events

-- The balance in the user's last event, or 0.
unfoldable pub latest : ℤ → ℤ → List Event → ℤ
latest id balance [] = balance
latest id balance (e ∷ events) = latest id (if eq_ℤ e.user_id id then e.balance else balance) events

pub record IsLedger (db : Database) : Type 0 where
  pub numbered : IsNumbered 0 db.events
  pub counted : length db.events ≡ db.sequence
  pub balances :
      (id : ℤ) (u : User) → find_user id db.users ≡ some u → u.balance ≡ latest id (pos 0) db.events

IsNumbered-snoc :
    (k : ℕ) (events : List Event) (e : Event)
    → IsNumbered k events
    → e.event_id ≡ suc (k + length events)
    → IsNumbered k (events ++ e ∷ [])
IsNumbered-snoc k [] e h same = (omega arith, tt)
IsNumbered-snoc k (x ∷ events) e h same = (h.0, IsNumbered-snoc (suc k) events e h.1 (omega arith))

latest-snoc :
    (id balance : ℤ) (events : List Event) (e : Event)
    → latest id balance (events ++ e ∷ [])
      ≡ (if eq_ℤ e.user_id id then e.balance else latest id balance events)
unfolding latest
latest-snoc id balance [] e = refl
latest-snoc id balance (x ∷ events) e =
    latest-snoc id (if eq_ℤ x.user_id id then x.balance else balance) events e

abbrev raised_by : ℤ → Option User → Option User
raised_by amount none = none
raised_by amount (some u) = some (record u { balance = u.balance +ℤ amount })

find_user-add_balance :
    (amount id other : ℤ) (users : List User)
    → find_user other (add_balance amount id users)
      ≡ (if eq_ℤ id other then raised_by amount (find_user other users) else find_user other users)
unfolding find_user add_balance
find_user-add_balance amount id other [] = ground arith
find_user-add_balance amount id other (u ∷ users) =
    ground (arith, find_user-add_balance amount id other users)

eq_ℤ_self : (a : ℤ) → eq_ℤ a a ≡ true
eq_ℤ_self a = ground arith

add_balance_self :
    (plan : UpdatePlan) (u : User) (users : List User)
    → find_user plan.user_id users ≡ some u
    → find_user plan.user_id (add_balance plan.amount plan.user_id users)
      ≡ some (record u { balance = u.balance +ℤ plan.amount })
add_balance_self plan u users found =
    find_user-add_balance plan.amount plan.user_id plan.user_id users
    ∙ rw (eq_ℤ_self plan.user_id, found)

inserted-balances :
    (db : Database) (plan : UpdatePlan) (u : User) (id : ℤ) (v : User)
    → find_user plan.user_id db.users ≡ some u
    → IsLedger db
    → find_user id (add_balance plan.amount plan.user_id db.users) ≡ some v
    → v.balance ≡ latest id (pos 0) (inserted db plan (u.balance +ℤ plan.amount)).events
inserted-balances db plan u id v found h e = elim (Bool-cases (eq_ℤ plan.user_id id)) [
  | inl same ↦
      let same_id : plan.user_id ≡ id = eq_of_parts plan.user_id id (ground arith) in
      let e' = find_user-add_balance plan.amount plan.user_id id db.users in
      rw (latest-snoc, same)
        (let u_there : find_user id db.users ≡ some u =
            ap (λ i. find_user i db.users) (sym same_id) ∙ found in
          ground arith)
  | inr other ↦
      let e' = find_user-add_balance plan.amount plan.user_id id db.users in
      let there : find_user id db.users ≡ some v = ground arith in
      rw (latest-snoc, other) (h.balances id v there)
]

-- One row for the user, and one event with the new balance.
inserted-IsLedger :
    (db : Database) (plan : UpdatePlan) (u : User)
    → find_user plan.user_id db.users ≡ some u
    → IsLedger db
    → IsLedger (inserted db plan (u.balance +ℤ plan.amount))
inserted-IsLedger db plan u found h = record {
  numbered = IsNumbered-snoc 0 db.events _ h.numbered (omega (arith, h.counted));
  counted = length-append db.events _ ∙ omega (arith, h.counted);
  balances = λ id v e. inserted-balances db plan u id v found h e;
}

-- What an update returns and leaves, branch by branch.
execute_update-refused :
    (db : Database) (plan : UpdatePlan) (fault : Fault)
    → (find_user plan.user_id db.users ≡ none) ⊎ (fault ≢ no_fault)
    → ((execute_update db plan fault).0.applied ≡ false) × ((execute_update db plan fault).1 ≡ db)
unfolding execute_update update_rows
execute_update-refused db plan at_first_statement h = (refl, refl)
execute_update-refused db plan no_fault (inl missing) = (ground arith, ground arith)
execute_update-refused db plan no_fault (inr other) = absurd (other refl)
execute_update-refused db plan at_insert h = (ground arith, ground arith)

execute_update-applied :
    (db : Database) (plan : UpdatePlan) (u : User)
    → find_user plan.user_id db.users ≡ some u
    → execute_update db plan no_fault ≡ (
      record { applied = true; balance = u.balance +ℤ plan.amount; error = [] },
      inserted db plan (u.balance +ℤ plan.amount),
    )
unfolding execute_update update_rows
execute_update-applied db plan u found = ground arith

Fault-cases : (fault : Fault) → (fault ≡ no_fault) ⊎ (fault ≢ no_fault)
Fault-cases no_fault = inl refl
Fault-cases at_first_statement = inr (λ e. cc)
Fault-cases at_insert = inr (λ e. cc)

-- An update is atomic. Either it is applied: then the user was there, the result is the user's old
-- balance with the amount added, the user has that balance now, every other user is as before, and
-- one event with the next number and that balance stands behind the old events. Or it is not
-- applied, and the database is as before.
pub execute_update_atomic :
    (db : Database) (plan : UpdatePlan) (fault : Fault)
    → let (result, after) = execute_update db plan fault in
      ((result.applied ≡ false) × (after ≡ db))
      ⊎ ((result.applied ≡ true)
          × ((u : User) × (find_user plan.user_id db.users ≡ some u)
              × (result.balance ≡ u.balance +ℤ plan.amount)
              × (after.events
                  ≡ db.events
                    ++ record {
                      event_id = suc db.sequence;
                      user_id = plan.user_id;
                      balance = result.balance;
                    }
                      ∷ [])
              × (find_user plan.user_id after.users ≡ some (record u { balance = result.balance }))
              × ((other : ℤ)
                  → eq_ℤ plan.user_id other ≡ false
                  → find_user other after.users ≡ find_user other db.users)))
execute_update_atomic db plan fault = elim (Option-cases (find_user plan.user_id db.users)) [
  | inl missing ↦ inl (execute_update-refused db plan fault (inl missing))
  | inr (u, found) ↦ elim (Fault-cases fault) [
    | inr failed ↦ inl (execute_update-refused db plan fault (inr failed))
    | inl clean ↦
        let done = execute_update-applied db plan u found in
        rw (clean, done)
          (inr (
            refl,
            (
              u,
              found,
              refl,
              refl,
              add_balance_self plan u db.users found,
              λ other differs.
                  find_user-add_balance plan.amount plan.user_id other db.users ∙ rw differs,
            ),
          ))
  ]
]

-- Every update keeps the ledger, whether it is applied, finds no user, or fails at either statement.
pub execute_update-IsLedger :
    (db : Database) (plan : UpdatePlan) (fault : Fault)
    → IsLedger db
    → IsLedger (execute_update db plan fault).1
execute_update-IsLedger db plan fault h = elim (Option-cases (find_user plan.user_id db.users)) [
  | inl missing ↦ rw (execute_update-refused db plan fault (inl missing)).1 h
  | inr (u, found) ↦ elim (Fault-cases fault) [
    | inr failed ↦ rw (execute_update-refused db plan fault (inr failed)).1 h
    | inl clean ↦
        rw (clean, execute_update-applied db plan u found) (inserted-IsLedger db plan u found h)
  ]
]

after_cursor-drop :
    (cursor k : ℕ) (events : List Event)
    → IsNumbered k events
    → after_cursor cursor events ≡ drop (cursor - k) events
unfolding after_cursor
after_cursor-drop cursor k [] h = sym (drop-nil (cursor - k))
after_cursor-drop cursor k (e ∷ events) (number, h) = elim (Bool-cases (ltb cursor e.event_id)) [
  | inl newer ↦
      let none_skipped : cursor - k ≡ 0 = ground arith in
      let none_skipped' : cursor - suc k ≡ 0 = omega arith in
      rw (newer, none_skipped)
        (ap (λ l. e ∷ l)
          (after_cursor-drop cursor (suc k) events h ∙ ap (λ n. drop n events) none_skipped'))
  | inr older ↦
      let skipped : cursor - k ≡ suc (cursor - suc k) = ground arith in
      rw (older, skipped) (after_cursor-drop cursor (suc k) events h)
]

-- A page of a ledger holds the next 32 events behind the cursor.
pub load_event_page-drop :
    (db : Database) (cursor : ℕ)
    → IsLedger db
    → load_event_page db cursor no_fault
      ≡ some (record { events = take 32 (drop cursor db.events) })
unfolding load_event_page page_after
load_event_page-drop db cursor h =
    ap (λ l. some (record { events = take 32 l }))
      (after_cursor-drop cursor 0 db.events h.numbered
        ∙ ap (λ n. drop n db.events) (let e : cursor - 0 ≡ cursor = omega arith in e))

pub opened-IsLedger : IsLedger opened
unfolding find_user latest
opened-IsLedger = record { numbered = tt; counted = refl; balances = λ id u e. ground arith }

-- A fault loses the page.
pub load_event_page-cases :
    (db : Database) (cursor : ℕ) (fault : Fault)
    → IsLedger db
    → (load_event_page db cursor fault ≡ none)
      ⊎ (load_event_page db cursor fault
          ≡ some (record { events = take 32 (drop cursor db.events) }))
unfolding load_event_page page_after
load_event_page-cases db cursor no_fault h = inr (load_event_page-drop db cursor h)
load_event_page-cases db cursor at_first_statement h = inl refl
load_event_page-cases db cursor at_insert h = inr (load_event_page-drop db cursor h)

-- A later ledger goes on from an earlier one.
abbrev pub Extends : Database → Database → Type 0
Extends db after = (more : List Event) × (after.events ≡ db.events ++ more)

pub execute_update-Extends :
    (db : Database) (plan : UpdatePlan) (fault : Fault)
    → Extends db (execute_update db plan fault).1
execute_update-Extends db plan fault = elim (execute_update_atomic db plan fault) [
  | inl (_, same) ↦ ([], ap (λ d. d.events) same ∙ sym (append-nil db.events))
  | inr (_, (u, _, _, appended, _, _)) ↦ (_, appended)
]
