-- ===== src/Db.antt =====
-- internal/db/db.go: the tables of `createTables`, the errors of the `Database` methods, and what the
-- methods return. The statements are modelled by what SQLite does for them: AUTOINCREMENT numbers rows
-- from 1, UNIQUE is checked before FOREIGN KEY, and OR IGNORE skips a row that breaks a UNIQUE
-- constraint. A table is the list of its rows, oldest first. Faults of the driver are left out.
pub mod Users
pub mod Groups
pub mod Friends
pub mod Messages
pub mod Invariant
pub mod Samples
mod Tests
use im_system.Common.{ℕ, ◌+◌, Bool, Option, none, some, List, [], ◌++◌, Text}
use im_system.Text.{bytes}
use im_system.Model.{DbUser, DbGroup, DbMessage}

-- The columns `id` and `joined_at` are never read.
pub record Member : Type 0 where
  pub group_id : ℕ
  pub user_id : ℕ

pub record Friend : Type 0 where
  pub user_id : ℕ
  pub friend_id : ℕ
  pub status : Text

-- `foreign_keys` is whether the connection enforces foreign keys: the PRAGMA of `InitDatabase` sets
-- it on one connection of the pool only.
pub record Database : Type 0 where
  pub users : List DbUser
  pub next_user : ℕ
  pub groups : List DbGroup
  pub next_group : ℕ
  pub members : List Member
  pub messages : List DbMessage
  pub next_message : ℕ
  pub friends : List Friend
  pub foreign_keys : Bool

pub data DbError : Type 0 where
  user_not_found invalid_password username_length password_length hash_failed username_exists :
      DbError
  group_name_empty group_name_long group_exists group_not_found not_a_member : DbError
  create_group_failed join_failed save_failed cannot_add_self friend_not_found : DbError

pub data Result {ℓ} (A : Type ℓ) : Type ℓ where
  ok : A → Result A
  err : DbError → Result A

infixl 5 ◌>>=◌
abbrev pub ◌>>=◌ {ℓ κ} : {A : Type ℓ} {B : Type κ} → Result A → (A → Result B) → Result B
ok a >>= f = f a
err e >>= f = err e

-- `err == sql.ErrNoRows`
abbrev pub or_fail {ℓ} : {A : Type ℓ} → Option A → DbError → Result A
or_fail none e = err e
or_fail (some a) e = ok a

-- `err.Error()`
unfoldable pub error_text : DbError → Text
error_text user_not_found = bytes "user not found"
error_text invalid_password = bytes "invalid password"
error_text username_length = bytes "username must be 3-20 characters"
error_text password_length = bytes "password must be at least 6 characters"
error_text hash_failed = bytes "failed to hash password: bcrypt: password length exceeds 72 bytes"
error_text username_exists = bytes "username already exists"
error_text group_name_empty = bytes "group name cannot be empty"
error_text group_name_long = bytes "group name too long (max 32 characters)"
error_text group_exists = bytes "group name already exists"
error_text group_not_found = bytes "group not found"
error_text not_a_member = bytes "user is not a member of this group"
error_text create_group_failed = bytes "failed to create group: FOREIGN KEY constraint failed"
error_text join_failed = bytes "failed to join group: FOREIGN KEY constraint failed"
error_text save_failed = bytes "failed to save message: constraint failed"
error_text cannot_add_self = bytes "cannot add yourself as friend"
error_text friend_not_found = bytes "friend not found"

-- The tables as `createTables` leaves them in a new file.
unfoldable pub empty_database : Bool → Database
empty_database foreign_keys = record {
  users = [];
  next_user = 1;
  groups = [];
  next_group = 1;
  members = [];
  messages = [];
  next_message = 1;
  friends = [];
  foreign_keys = foreign_keys;
}
