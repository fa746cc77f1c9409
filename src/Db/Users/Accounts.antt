-- ===== src/Db/Users/Accounts.antt =====
-- internal/db/db.go: registration and login.
use im_system.Common.{
  ℕ, ◌≤◌, ◌≡◌, ◌↔◌, false, none, some, [], ◌∷◌, arith, if◌then◌else◌, Text, text_eq, text_eq_iff,
  text_eq_refl, length, find-append,
}
use im_system.Model.{DbUser}
use im_system.Db.{Database, DbError, ok}
use im_system.Db.Users.{
  Bcrypt, user_row, select_user, insert_user, register_user, authenticate_user,
}

pub select-insert_user :
    (db : Database) (now : ℕ) (username hash avatar gender signature name : Text)
    → select_user db username ≡ none
    → select_user (insert_user db now username hash avatar gender signature) name ≡ (
        if text_eq username name
        then some (user_row db.next_user now username hash avatar gender signature)
        else select_user db name)
unfolding select_user insert_user
select-insert_user db now username hash avatar gender signature name free = ground (
  arith,
  find-append (λ (u : DbUser). text_eq u.username name) db.users
      (user_row db.next_user now username hash avatar gender signature ∷ []),
  text_eq_iff username name,
)

module _ (b : Bcrypt) where
  -- What a registration needs.
  pub record CanRegister (db : Database) (salt : ℕ) (username password : Text) : Type 0 where
    pub long_enough : 3 ≤ length username
    pub short_enough : length username ≤ 20
    pub password_long : 6 ≤ length password
    pub hashed : (hash : Text) × (b.generate salt password ≡ some hash)
    pub free : select_user db username ≡ none

  -- A registration succeeds exactly when the lengths are right, bcrypt takes the password and nobody
  -- has the name.
  pub register_iff :
      (db : Database) (salt now : ℕ) (username password avatar : Text)
      → ((register_user b db salt now username password avatar).1 ≡ none)
        ↔ CanRegister db salt username password
  unfolding register_user
  register_iff db salt now username password avatar =
      (λ h. ground arith, λ c. ground (arith, c.hashed.1))

  -- A registration that fails changes nothing.
  pub register_error_keeps :
      (db : Database) (salt now : ℕ) (username password avatar : Text) (e : DbError)
      → (register_user b db salt now username password avatar).1 ≡ some e
      → (register_user b db salt now username password avatar).0 ≡ db
  unfolding register_user
  register_error_keeps db salt now username password avatar e h = ground arith

  register_adds :
      (db : Database) (salt now : ℕ) (username password avatar hash : Text)
      → CanRegister db salt username password
      → b.generate salt password ≡ some hash
      → (register_user b db salt now username password avatar).0
        ≡ insert_user db now username hash avatar [] []
  unfolding register_user
  register_adds db salt now username password avatar hash c h =
      ground (arith, c.long_enough, c.short_enough, c.password_long, c.free)

  -- After a registration that succeeds, the new name logs in with its password, with the avatar given
  -- and no gender or signature; and a login under any other name gives what it gave before.
  pub register_then_authenticate :
      (db : Database) (salt now : ℕ) (username password avatar name word : Text)
      → (register_user b db salt now username password avatar).1 ≡ none
      → text_eq username name ≡ false
      → ((hash : Text) × (authenticate_user b
              (register_user b db salt now username password avatar).0
              username
              password
            ≡ ok (user_row db.next_user now username hash avatar [] [])))
        × (authenticate_user b (register_user b db salt now username password avatar).0 name word
            ≡ authenticate_user b db name word)
  unfolding authenticate_user
  register_then_authenticate db salt now username password avatar name word h other =
      let c : CanRegister db salt username password =
        (register_iff db salt now username password avatar).0 h in
      let (hash, made) = c.hashed in
      let added = register_adds db salt now username password avatar hash c made in
      (
        (
          hash,
          rw
              (
                added,
                select-insert_user db now username hash avatar [] [] username c.free,
                text_eq_refl,
              )
              (rw (b.compare_generate salt password hash made)),
        ),
        rw (added, select-insert_user db now username hash avatar [] [] name c.free, other),
      )
