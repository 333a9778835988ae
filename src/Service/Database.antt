-- ===== src/Service/Database.antt =====
-- host/database.py over the two tables that its SQL names. Rows stand in the order of their keys;
-- a balance is an integer without SQLite's 64-bit bound. A `Fault` says where a statement raises
-- `sqlite3.Error`, and `none` is that exception.
pub mod Ledger
use purepy.Base.{
  ℕ, zero, suc, ◌+◌, ◌-◌, Bool, true, false, Option, none, some, List, [], ◌∷◌, ◌++◌, ltb,
  if◌then◌else◌, Text, codes, take,
}
use Prim.Native.Nat.{max}
use purepy.Base.Int.{ℤ, pos, eq_ℤ, ◌+ℤ◌}
use purepy.Service.Types.{User, UserResult, UpdatePlan, UpdateResult, Event, EventPage}

pub data Fault : Type 0 where
  no_fault at_first_statement at_insert : Fault

-- `sequence` is the largest event_id that the table ever held (AUTOINCREMENT).
pub record Database : Type 0 where
  pub users : List User
  pub events : List Event
  pub sequence : ℕ
  pub active_reads : ℕ
  pub max_active_reads : ℕ

-- The tables after `__init__` on a fresh path.
abbrev pub opened : Database
opened = record {
  users =
      record { user_id = pos 1; name = codes "Ada"; balance = pos 0 }
      ∷ record { user_id = pos 2; name = codes "Grace"; balance = pos 0 }
      ∷ [];
  events = [];
  sequence = 0;
  active_reads = 0;
  max_active_reads = 0;
}

abbrev pub no_one : User
no_one = record { user_id = pos 0; name = []; balance = pos 0 }

-- SELECT … FROM users WHERE user_id = ?
unfoldable pub find_user : ℤ → List User → Option User
find_user id [] = none
find_user id (u ∷ users) = if eq_ℤ u.user_id id then some u else find_user id users

-- UPDATE users SET balance = balance + ? WHERE user_id = ?, where the key is unique.
unfoldable pub add_balance : ℤ → ℤ → List User → List User
add_balance amount id [] = []
add_balance amount id (u ∷ users) =
    if eq_ℤ u.user_id id
    then record u { balance = u.balance +ℤ amount } ∷ users
    else u ∷ add_balance amount id users

-- SELECT … FROM events WHERE event_id > ? ORDER BY event_id, on rows in the order of the key.
unfoldable pub after_cursor : ℕ → List Event → List Event
after_cursor cursor [] = []
after_cursor cursor (e ∷ events) =
    if ltb cursor e.event_id then e ∷ after_cursor cursor events else after_cursor cursor events

abbrev pub found_user : Option User → UserResult
found_user none = record { found = false; user = no_one; error = [] }
found_user (some u) = record { found = true; user = u; error = [] }

unfoldable pub load_row : Database → ℤ → Fault → Option UserResult
load_row db id no_fault = some (found_user (find_user id db.users))
load_row db id at_first_statement = none
load_row db id at_insert = some (found_user (find_user id db.users))

abbrev pub inserted : Database → UpdatePlan → ℤ → Database
inserted db plan balance = record db {
  users = add_balance plan.amount plan.user_id db.users;
  events =
      db.events
      ++ record { event_id = suc db.sequence; user_id = plan.user_id; balance = balance } ∷ [];
  sequence = suc db.sequence;
}

-- `_update`, one transaction: an exception in it rolls both statements back.
unfoldable pub update_rows : Database → UpdatePlan → Fault → Option UpdateResult × Database
update_rows db plan at_first_statement = (none, db)
update_rows db plan no_fault = elim (find_user plan.user_id db.users) [
  | none ↦ (some (record { applied = false; balance = pos 0; error = [] }), db)
  | some u ↦
      let balance = u.balance +ℤ plan.amount in
      (some (record { applied = true; balance = balance; error = [] }), inserted db plan balance)
]
update_rows db plan at_insert = elim (find_user plan.user_id db.users) [
  | none ↦ (some (record { applied = false; balance = pos 0; error = [] }), db)
  | some _ ↦ (none, db)
]

unfoldable pub page_after : Database → ℕ → Fault → Option EventPage
page_after db cursor no_fault = some (record { events = take 32 (after_cursor cursor db.events) })
page_after db cursor at_first_statement = none
page_after db cursor at_insert = some (record { events = take 32 (after_cursor cursor db.events) })

-- The count of running reads, before and in the `finally` of `load_user`.
unfoldable pub begin_read : Database → Database
begin_read db = record db {
  active_reads = db.active_reads + 1;
  max_active_reads = max db.max_active_reads (db.active_reads + 1);
}

unfoldable pub finish_read : Database → Database
finish_read db = record db { active_reads = db.active_reads - 1 }

abbrev pub unavailable_user : UserResult
unavailable_user = record { found = false; user = no_one; error = codes "database unavailable" }

abbrev pub or_else {ℓ} : {A : Type ℓ} → Option A → A → A
or_else none d = d
or_else (some a) d = a

unfoldable pub load_user : Database → ℤ → Fault → UserResult × Database
load_user db id fault =
    let reading = begin_read db in
    (or_else (load_row reading id fault) unavailable_user, finish_read reading)

unfoldable pub execute_update : Database → UpdatePlan → Fault → UpdateResult × Database
execute_update db plan fault =
    let (result, after) = update_rows db plan fault in
    (
      or_else result
          (record { applied = false; balance = pos 0; error = codes "database unavailable" }),
      after,
    )

unfoldable pub load_event_page : Database → ℕ → Fault → Option EventPage
load_event_page db cursor fault = page_after db cursor fault
