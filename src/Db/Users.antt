-- ===== src/Db/Users.antt =====
-- internal/db/db.go: accounts. bcrypt is a parameter: what it hashes with which salt is its own
-- business, and the code relies on a hash being accepted with the password that it was made from.
pub mod Accounts
pub mod Rows
pub mod Updates
use im_system.Common.{
  ℕ, suc, ◌+◌, ◌≡◌, Bool, true, false, ◌||◌, not, Option, none, some, List, [], ◌∷◌, ◌++◌, map, ltb,
  ◌==◌, if◌then◌else◌, Text, text_eq, length, find,
}
use im_system.Text.{bytes}
use im_system.Model.{DbUser, UserPublic}
use im_system.Db.{
  Database, DbError, Result, ok, err, ◌>>=◌, or_fail, user_not_found, invalid_password,
  username_length, password_length, hash_failed, username_exists,
}

pub record Bcrypt : Type 0 where
  pub generate : ℕ → Text → Option Text
  pub compare : Text → Text → Bool
  pub compare_generate :
      (salt : ℕ) (password hash : Text)
      → generate salt password ≡ some hash
      → compare hash password ≡ true

-- SELECT ... FROM users WHERE username = ?
unfoldable pub select_user : Database → Text → Option DbUser
unfolding find
select_user db username = find (λ (u : DbUser). text_eq u.username username) db.users

-- SELECT id FROM users WHERE id = ?
unfoldable pub select_user_id : Database → ℕ → Option DbUser
unfolding find
select_user_id db id = find (λ (u : DbUser). u.id == id) db.users

abbrev pub public_view : DbUser → UserPublic
public_view u = record {
  id = u.id;
  username = u.username;
  avatar = u.avatar;
  gender = u.gender;
  signature = u.signature;
  created_at = u.created_at;
}

unfoldable pub get_user_by_username : Database → Text → Result UserPublic
unfolding select_user
get_user_by_username db username = do
  u ← or_fail (select_user db username) user_not_found
  ok (public_view u)

abbrev pub user_row : ℕ → ℕ → Text → Text → Text → Text → Text → DbUser
user_row id now username hash avatar gender signature = record {
  id = id;
  username = username;
  password = hash;
  avatar = avatar;
  gender = gender;
  signature = signature;
  created_at = now;
}

-- A new row of the table `users`, with the id that AUTOINCREMENT gives.
unfoldable pub insert_user : Database → ℕ → Text → Text → Text → Text → Text → Database
insert_user db now username hash avatar gender signature = record db {
  users = db.users ++ user_row db.next_user now username hash avatar gender signature ∷ [];
  next_user = suc db.next_user;
}

-- UPDATE users SET ... WHERE username = ?
unfoldable pub update_users : (DbUser → DbUser) → Text → List DbUser → List DbUser
update_users change username [] = []
update_users change username (u ∷ us) =
    (if text_eq u.username username then change u else u) ∷ update_users change username us

unfoldable pub update_user_avatar : Database → Text → Text → Database
unfolding update_users
update_user_avatar db username avatar = record db {
  users = update_users (λ u. record u { avatar = avatar }) username db.users;
}

unfoldable pub update_user_profile : Database → Text → Text → Text → Database
unfolding update_users
update_user_profile db username gender signature = record db {
  users = update_users (λ u. record u { gender = gender; signature = signature }) username db.users;
}

pub record DefaultUser : Type 0 where
  pub username : Text
  pub password : Text
  pub avatar : Text
  pub gender : Text
  pub signature : Text

-- U+200D, which joins two emoji into one.
abbrev zero_width_joiner : Text
zero_width_joiner = 0xE2 ∷ 0x80 ∷ 0x8D ∷ []

unfoldable pub default_users : List DefaultUser
default_users =
    record {
      username = bytes "alice";
      password = bytes "123456";
      avatar = bytes "👨" ++ zero_width_joiner ++ bytes "💼";
      gender = bytes "female";
      signature = bytes "保持微笑，世界温柔。";
    }
    ∷ record {
      username = bytes "bob";
      password = bytes "123456";
      avatar = bytes "👩" ++ zero_width_joiner ++ bytes "💼";
      gender = bytes "male";
      signature = bytes "代码即诗。";
    }
    ∷ record {
      username = bytes "charlie";
      password = bytes "123456";
      avatar = bytes "👨" ++ zero_width_joiner ++ bytes "💻";
      gender = bytes "male";
      signature = bytes "永远在终端里历险。";
    }
    ∷ []

module _ (b : Bcrypt) where
  unfoldable pub authenticate_user : Database → Text → Text → Result DbUser
  unfolding select_user
  authenticate_user db username password = do
    u ← or_fail (select_user db username) user_not_found
    if b.compare u.password password then ok u else err invalid_password

  -- The INSERT of `RegisterUser`: its UNIQUE constraint is the name check.
  unfoldable pub insert_new_user : Database → ℕ → Text → Text → Text → Database × Option DbError
  unfolding select_user insert_user
  insert_new_user db now username hash avatar = elim (select_user db username) [
    | some _ ↦ (db, some username_exists)
    | none ↦ (insert_user db now username hash avatar [] [], none)
  ]

  -- The salt is the random part of `GenerateFromPassword`.
  unfoldable pub register_user : Database → ℕ → ℕ → Text → Text → Text → Database × Option DbError
  unfolding insert_new_user
  register_user db salt now username password avatar =
      if ltb (length username) 3 || ltb 20 (length username)
      then (db, some username_length)
      else if ltb (length password) 6
      then (db, some password_length)
      else elim (b.generate salt password) [
        | none ↦ (db, some hash_failed)
        | some hash ↦ insert_new_user db now username hash avatar
      ]

  -- One round of the loop of `createDefaultUsers`: INSERT OR IGNORE.
  unfoldable pub create_default_user :
      Database → ℕ → ℕ → Text → Text → Text → Text → Text → Database × Option DbError
  unfolding select_user insert_user
  create_default_user db salt now username password avatar gender signature =
      elim (b.generate salt password) [
        | none ↦ (db, some hash_failed)
        | some hash ↦ elim (select_user db username) [
          | some _ ↦ (db, none)
          | none ↦ (insert_user db now username hash avatar gender signature, none)
        ]
      ]

  unfoldable pub create_default_users_in :
      Database → ℕ → ℕ → List DefaultUser → Database × Option DbError
  unfolding create_default_user
  create_default_users_in db salt now [] = (db, none)
  create_default_users_in db salt now (d ∷ ds) =
      let (db', e) =
        create_default_user db salt now d.username d.password d.avatar d.gender d.signature in
      elim e [ some e ↦ (db', some e) | none ↦ create_default_users_in db' salt now ds ]

  unfoldable pub create_default_users : Database → ℕ → ℕ → Database × Option DbError
  unfolding create_default_users_in
  create_default_users db salt now = create_default_users_in db salt now default_users
