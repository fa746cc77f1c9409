-- ===== src/Db/Users/Rows.antt =====
-- internal/db/db.go: the constraints of the table `users` under each statement.
use im_system.Common.{
  ℕ, suc, ◌<◌, ◌≡◌, refl, Bool, none, some, List, [], ◌∷◌, arith, ◌==◌, Text, text_eq, text_eq_iff,
  text_eq_refl, find, find-same, Apart, Apart-append, Option-cases, inl, inr, All, All-append,
}
use im_system.Model.{DbUser}
use im_system.Db.{Database, empty_database}
use im_system.Db.Users.{
  Bcrypt, user_row, DefaultUser, default_users, select_user, select_user_id, insert_user,
  insert_new_user, register_user, create_default_user, create_default_users_in,
  create_default_users,
}

abbrev pub same_id : DbUser → DbUser → Bool
same_id u v = v.id == u.id

abbrev pub same_name : DbUser → DbUser → Bool
same_name u v = text_eq v.username u.username

-- The constraints of the table, and ids below the next one.
pub record UsersOk (db : Database) : Type 0 where
  pub fresh : All (λ (u : DbUser). u.id < db.next_user) db.users
  pub ids : Apart same_id db.users
  pub names : Apart same_name db.users

fresh_find :
    (n : ℕ) (us : List DbUser) (r : DbUser)
    → r.id ≡ n
    → All (λ (u : DbUser). u.id < n) us
    → find (λ u. same_id u r) us ≡ none
unfolding find
fresh_find n [] r e h = refl
fresh_find n (u ∷ us) r e h = ground (arith, fresh_find n us r e h.1)

fresh_mono :
    (n : ℕ) (us : List DbUser)
    → All (λ (u : DbUser). u.id < n) us
    → All (λ (u : DbUser). u.id < suc n) us
fresh_mono n [] h = tt
fresh_mono n (u ∷ us) h = (omega arith, fresh_mono n us h.1)

name_find :
    (us : List DbUser) (r : DbUser)
    → find (λ (u : DbUser). text_eq u.username r.username) us ≡ none
    → find (λ u. same_name u r) us ≡ none
unfolding find
name_find [] r h = refl
name_find (u ∷ us) r h =
    ground
      (arith, name_find us r, text_eq_iff u.username r.username, text_eq_iff r.username u.username)

pub insert_user-UsersOk :
    (db : Database) (now : ℕ) (username hash avatar gender signature : Text)
    → UsersOk db
    → select_user db username ≡ none
    → UsersOk (insert_user db now username hash avatar gender signature)
unfolding insert_user select_user
insert_user-UsersOk db now username hash avatar gender signature v free =
    let row = user_row db.next_user now username hash avatar gender signature in
    record {
      fresh =
          All-append (λ (u : DbUser). u.id < suc db.next_user) db.users (row ∷ [])
            (fresh_mono db.next_user db.users v.fresh) (omega arith, tt);
      ids =
          Apart-append same_id db.users row v.ids
            (fresh_find db.next_user db.users row refl v.fresh);
      names = Apart-append same_name db.users row v.names (name_find db.users row free);
    }

module _ (b : Bcrypt) where
  pub register-UsersOk :
      (db : Database) (salt now : ℕ) (username password avatar : Text)
      → UsersOk db
      → UsersOk (register_user b db salt now username password avatar).0
  unfolding register_user
  register-UsersOk db salt now username password avatar v =
      elim (Option-cases (b.generate salt password)) [
        | inl fails ↦ rw (fails, register_user) (ground (arith, v.fresh, v.ids, v.names))
        | inr (hash, made) ↦ elim (Option-cases (select_user db username)) [
          | inr (u, taken) ↦
              rw (made, register_user, taken, insert_new_user)
                (ground (arith, v.fresh, v.ids, v.names))
          | inl free ↦
              let added = insert_user-UsersOk db now username hash avatar [] [] v free in
              rw (made, register_user, free, insert_new_user)
                (ground (arith, v.fresh, v.ids, v.names, added.fresh, added.ids, added.names))
        ]
      ]

  pub create_default_user-UsersOk :
      (db : Database) (salt now : ℕ) (username password avatar gender signature : Text)
      → UsersOk db
      → UsersOk (create_default_user b db salt now username password avatar gender signature).0
  unfolding create_default_user
  create_default_user-UsersOk db salt now username password avatar gender signature v =
      elim (Option-cases (b.generate salt password)) [
        | inl fails ↦ rw (fails, create_default_user) v
        | inr (hash, made) ↦ elim (Option-cases (select_user db username)) [
          | inr (u, taken) ↦ rw (made, create_default_user, taken) v
          | inl free ↦
              rw (made, create_default_user, free)
                (insert_user-UsersOk db now username hash avatar gender signature v free)
        ]
      ]

  create_default_users_in-UsersOk :
      (db : Database) (salt now : ℕ) (ds : List DefaultUser)
      → UsersOk db
      → UsersOk (create_default_users_in b db salt now ds).0
  unfolding create_default_users_in
  create_default_users_in-UsersOk db salt now [] v = v
  create_default_users_in-UsersOk db salt now (d ∷ ds) v =
      let r =
        create_default_user b db salt now d.username d.password d.avatar d.gender d.signature in
      let kept =
        create_default_user-UsersOk db salt now d.username d.password d.avatar d.gender d.signature
          v in
      elim (Option-cases r.1) [
        | inr (e, failed) ↦ rw (failed, create_default_users_in) kept
        | inl went_on ↦
            rw (went_on, create_default_users_in)
              (create_default_users_in-UsersOk r.0 salt now ds kept)
      ]

  pub create_default_users-UsersOk :
      (db : Database) (salt now : ℕ) → UsersOk db → UsersOk (create_default_users b db salt now).0
  unfolding create_default_users
  create_default_users-UsersOk db salt now v =
      create_default_users_in-UsersOk db salt now default_users v

pub empty-UsersOk : (foreign_keys : Bool) → UsersOk (empty_database foreign_keys)
unfolding empty_database Apart
empty-UsersOk foreign_keys = record { fresh = tt; ids = tt; names = tt }

-- The id of a row that a name finds finds the same row.
pub select_user_id-select_user :
    (db : Database) (name : Text) (u : DbUser)
    → UsersOk db
    → select_user db name ≡ some u
    → select_user_id db u.id ≡ some u
unfolding select_user select_user_id
select_user_id-select_user db name u v h =
    find-same same_id (λ x y. ground arith) (λ x. ground arith)
      (λ (w : DbUser). text_eq w.username name) db.users u v.ids h

-- And the name of a row that an id finds finds the same row.
pub select_user-select_user_id :
    (db : Database) (id : ℕ) (u : DbUser)
    → UsersOk db
    → select_user_id db id ≡ some u
    → select_user db u.username ≡ some u
unfolding select_user select_user_id
select_user-select_user_id db id u v h =
    find-same same_name
      (λ x y. ground (arith, text_eq_iff x.username y.username, text_eq_iff y.username x.username))
      (λ x. text_eq_refl x.username) (λ (w : DbUser). w.id == id) db.users u v.names h
