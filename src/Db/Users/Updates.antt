-- ===== src/Db/Users/Updates.antt =====
-- internal/db/db.go: UPDATE of avatars and profiles, and the constraints of the table `users`.
use im_system.Common.{
  ℕ, ◌<◌, ◌≡◌, refl, none, some, List, [], ◌∷◌, arith, ◌==◌, if◌then◌else◌, Text, text_eq,
  text_eq_iff, find, Apart, All,
}
use im_system.Model.{DbUser}
use im_system.Db.{Database}
use im_system.Db.Users.{select_user, update_users, update_user_avatar, update_user_profile}
use im_system.Db.Users.Rows.{UsersOk, same_id, same_name}

-- An UPDATE that sets neither id nor username.
abbrev KeepsKeys : (DbUser → DbUser) → Type 0
KeepsKeys change = (u : DbUser) → ((change u).id ≡ u.id) × ((change u).username ≡ u.username)

module _ (change : DbUser → DbUser) (keeps : KeepsKeys change) (username : Text) where
  update-fresh :
      (n : ℕ) (us : List DbUser)
      → All (λ (u : DbUser). u.id < n) us
      → All (λ (u : DbUser). u.id < n) (update_users change username us)
  unfolding update_users
  update-fresh n [] h = tt
  update-fresh n (u ∷ us) h = (ground (arith, keeps u), update-fresh n us h.1)

  find_id-update :
      (r : ℕ) (us : List DbUser)
      → find (λ (v : DbUser). v.id == r) us ≡ none
      → find (λ (v : DbUser). v.id == r) (update_users change username us) ≡ none
  unfolding update_users find
  find_id-update r [] h = h
  find_id-update r (u ∷ us) h = ground (arith, keeps u, find_id-update r us)

  find_name-update :
      (r : Text) (us : List DbUser)
      → find (λ (v : DbUser). text_eq v.username r) us ≡ none
      → find (λ (v : DbUser). text_eq v.username r) (update_users change username us) ≡ none
  unfolding update_users find
  find_name-update r [] h = h
  find_name-update r (u ∷ us) h = ground (arith, keeps u, find_name-update r us)

  update-ids :
      (us : List DbUser) → Apart same_id us → Apart same_id (update_users change username us)
  unfolding update_users Apart
  update-ids [] h = h
  update-ids (u ∷ us) h = ground (arith, keeps u, find_id-update u.id us h.0, update-ids us h.1)

  update-names :
      (us : List DbUser) → Apart same_name us → Apart same_name (update_users change username us)
  unfolding update_users Apart
  update-names [] h = h
  update-names (u ∷ us) h =
      ground (arith, keeps u, find_name-update u.username us h.0, update-names us h.1)

  update-UsersOk :
      (db : Database)
      → UsersOk db
      → UsersOk (record db { users = update_users change username db.users })
  update-UsersOk db v = record {
    fresh = update-fresh db.next_user db.users v.fresh;
    ids = update-ids db.users v.ids;
    names = update-names db.users v.names;
  }

  -- The row of the name is changed, and no other.
  select_user-update :
      (us : List DbUser) (name : Text)
      → find (λ (v : DbUser). text_eq v.username name) (update_users change username us) ≡ (
          if text_eq username name
          then elim (find (λ (v : DbUser). text_eq v.username name) us) [
            | none ↦ none
            | some u ↦ some (change u)
          ]
          else find (λ (v : DbUser). text_eq v.username name) us)
  unfolding update_users find
  select_user-update [] name = ground arith
  select_user-update (u ∷ us) name = ground (
    arith,
    keeps u,
    select_user-update us name,
    text_eq_iff username name,
    text_eq_iff u.username name,
    text_eq_iff u.username username,
  )

pub update_user_avatar-UsersOk :
    (db : Database) (username avatar : Text)
    → UsersOk db
    → UsersOk (update_user_avatar db username avatar)
unfolding update_user_avatar
update_user_avatar-UsersOk db username avatar v =
    update-UsersOk (λ u. record u { avatar = avatar }) (λ u. (refl, refl)) username db v

pub update_user_profile-UsersOk :
    (db : Database) (username gender signature : Text)
    → UsersOk db
    → UsersOk (update_user_profile db username gender signature)
unfolding update_user_profile
update_user_profile-UsersOk db username gender signature v =
    update-UsersOk (λ u. record u { gender = gender; signature = signature }) (λ u. (refl, refl))
      username db v

pub select_user-update_avatar :
    (db : Database) (username avatar name : Text)
    → select_user (update_user_avatar db username avatar) name ≡ (
        if text_eq username name
        then elim (select_user db name) [
          | none ↦ none
          | some u ↦ some (record u { avatar = avatar })
        ]
        else select_user db name)
unfolding update_user_avatar select_user
select_user-update_avatar db username avatar name =
    select_user-update (λ u. record u { avatar = avatar }) (λ u. (refl, refl)) username db.users
      name

-- A profile update changes the gender and the signature of the account of that name and no account
-- else.
pub select_user-update_profile :
    (db : Database) (username gender signature name : Text)
    → select_user (update_user_profile db username gender signature) name ≡ (
        if text_eq username name
        then elim (select_user db name) [
          | none ↦ none
          | some u ↦ some (record u { gender = gender; signature = signature })
        ]
        else select_user db name)
unfolding update_user_profile select_user
select_user-update_profile db username gender signature name =
    select_user-update (λ u. record u { gender = gender; signature = signature })
      (λ u. (refl, refl)) username db.users name
