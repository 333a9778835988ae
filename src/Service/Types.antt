-- ===== src/Service/Types.antt =====
-- src/app/types.py and src/app/domain.py.
use purepy.Base.{ℕ, Bool, List, Text, Bytes, ◌&&◌}
use purepy.Base.Int.{ℤ, pos, ltb_ℤ, leb_ℤ}

pub record Request : Type 0 where
  pub valid : Bool
  pub method : Bytes
  pub path : Bytes

pub record Route : Type 0 where
  pub code : ℕ
  pub user_id : ℤ
  pub amount : ℤ

pub record User : Type 0 where
  pub user_id : ℤ
  pub name : Text
  pub balance : ℤ

pub record UserResult : Type 0 where
  pub found : Bool
  pub user : User
  pub error : Text

pub record UpdatePlan : Type 0 where
  pub user_id : ℤ
  pub amount : ℤ

pub record UpdateResult : Type 0 where
  pub applied : Bool
  pub balance : ℤ
  pub error : Text

-- Events are numbered by the database, from 1.
pub record Event : Type 0 where
  pub event_id : ℕ
  pub user_id : ℤ
  pub balance : ℤ

pub record EventPage : Type 0 where
  pub events : List Event

unfoldable pub valid_update : UpdatePlan → Bool
valid_update plan =
    ltb_ℤ (pos 0) plan.user_id && ltb_ℤ (pos 0) plan.amount && leb_ℤ plan.amount (pos 1000)
