-- ===== src/Db/Friends.antt =====
-- internal/db/db.go: friendships, kept as one row for each direction. Both directions are written and
-- removed in one transaction, which an error rolls back.
pub mod Symmetric
use im_system.Common.{
  ℕ, suc, ◌+◌, Bool, true, false, ◌&&◌, ◌||◌, not, Option, none, some, List, [], ◌∷◌, ◌++◌, ltb,
  ◌==◌, if◌then◌else◌, Text, text_eq, find, any, select, is_some, length,
}
use im_system.Text.{bytes}
use im_system.Model.{DbUser, UserPublic}
use im_system.Db.{
  Database, Friend, DbError, Result, ok, err, ◌>>=◌, user_not_found, cannot_add_self,
  friend_not_found,
}
use im_system.Db.Users.{select_user_id, public_view}

unfoldable pub accepted : Text
unfolding bytes
accepted = bytes "accepted"

abbrev pub is_row : ℕ → ℕ → Friend → Bool
is_row user_id friend_id f = f.user_id == user_id && f.friend_id == friend_id

-- INSERT OR IGNORE INTO friends (user_id, friend_id, status) VALUES (?, ?, 'accepted')
unfoldable pub insert_friend : List Friend → ℕ → ℕ → List Friend
unfolding any
insert_friend rows user_id friend_id =
    if any (is_row user_id friend_id) rows
    then rows
    else rows ++ record { user_id = user_id; friend_id = friend_id; status = accepted } ∷ []

-- DELETE FROM friends WHERE user_id = ? AND friend_id = ?
unfoldable pub delete_friend : List Friend → ℕ → ℕ → List Friend
unfolding select
delete_friend rows user_id friend_id = select (λ f. not (is_row user_id friend_id f)) rows

-- The ids of both users exist, so no foreign key is broken.
unfoldable pub add_friend : Database → ℕ → ℕ → Database × Option DbError
unfolding insert_friend select_user_id
add_friend db user_id friend_id =
    if user_id == friend_id
    then (db, some cannot_add_self)
    else if not (is_some (select_user_id db user_id))
    then (db, some user_not_found)
    else if not (is_some (select_user_id db friend_id))
    then (db, some friend_not_found)
    else (
      record db {
        friends = insert_friend (insert_friend db.friends user_id friend_id) friend_id user_id;
      },
      none,
    )

-- `RowsAffected() == 0` of a deletion
abbrev pub affects_none : List Friend → ℕ → ℕ → Bool
affects_none rows user_id friend_id = not (any (is_row user_id friend_id) rows)

-- `Begin`, the statements on the open transaction, and `Commit`; the deferred `Rollback` puts back what
-- was there where a statement returned an error.
unfoldable pub in_transaction :
    Database → (Database → Database × Option DbError) → Database × Option DbError
in_transaction db statements =
    let (working, failed) = statements db in
    elim failed [ none ↦ (working, none) | some e ↦ (db, some e) ]

-- The loop over the two directions: each deletion is made before the next one is tried.
unfoldable pub delete_pairs : Database → List (ℕ × ℕ) → Database × Option DbError
unfolding delete_friend any
delete_pairs working [] = (working, none)
delete_pairs working ((user_id, friend_id) ∷ pairs) =
    let deleted = record working { friends = delete_friend working.friends user_id friend_id } in
    let rest = delete_pairs deleted pairs in
    if affects_none working.friends user_id friend_id
    then (deleted, some friend_not_found)
    else rest

unfoldable pub remove_friend : Database → ℕ → ℕ → Database × Option DbError
unfolding in_transaction delete_pairs
remove_friend db user_id friend_id =
    in_transaction db
      (λ working. delete_pairs working ((user_id, friend_id) ∷ (friend_id, user_id) ∷ []))

unfoldable pub is_friend : Database → ℕ → ℕ → Bool
unfolding any
is_friend db user_id friend_id =
    any (λ (f : Friend). is_row user_id friend_id f && text_eq f.status accepted) db.friends

-- ORDER BY u.username, in the order of SQLite's BINARY collation.
before : Text → Text → Bool
before [] t = true
before (a ∷ s) [] = false
before (a ∷ s) (b ∷ t) = ltb a b || (a == b && before s t)

insert_by_name : UserPublic → List UserPublic → List UserPublic
unfolding before
insert_by_name u [] = u ∷ []
insert_by_name u (v ∷ vs) =
    if before u.username v.username then u ∷ v ∷ vs else v ∷ insert_by_name u vs

-- The join of `friends` with `users`, in name order.
friend_rows : Database → ℕ → List Friend → List UserPublic
unfolding insert_by_name select_user_id
friend_rows db user_id [] = []
friend_rows db user_id (f ∷ fs) =
    let rest = friend_rows db user_id fs in
    if f.user_id == user_id && text_eq f.status accepted
    then elim (select_user_id db f.friend_id) [
      | none ↦ rest
      | some u ↦ insert_by_name (public_view u) rest
    ]
    else rest

unfoldable pub get_friends : Database → ℕ → List UserPublic
unfolding friend_rows
get_friends db user_id = friend_rows db user_id db.friends
