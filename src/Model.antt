-- ===== src/Model.antt =====
-- internal/model/model.go: the rows that the database keeps and the views of them that it returns.
-- `Session` of that file is in Session.antt. A `time.Time` is a number; a `*int` is an `Option ℕ`.
use im_system.Common.{ℕ, Option, Text}

-- With the password hash, never returned to a client.
pub record DbUser : Type 0 where
  pub id : ℕ
  pub username : Text
  pub password : Text
  pub avatar : Text
  pub gender : Text
  pub signature : Text
  pub created_at : ℕ

pub record UserPublic : Type 0 where
  pub id : ℕ
  pub username : Text
  pub avatar : Text
  pub gender : Text
  pub signature : Text
  pub created_at : ℕ

pub record DbGroup : Type 0 where
  pub id : ℕ
  pub name : Text
  pub creator_id : ℕ
  pub description : Text
  pub created_at : ℕ

pub record DbMessage : Type 0 where
  pub id : ℕ
  pub from_id : ℕ
  pub to_id : Option ℕ
  pub group_id : Option ℕ
  pub content : Text
  pub kind : Text
  pub created_at : ℕ

pub record DbMessageExt : Type 0 where
  pub id : ℕ
  pub from : Text
  pub avatar : Text
  pub signature : Text
  pub to : Text
  pub group : Text
  pub content : Text
  pub kind : Text
  pub created_at : ℕ
