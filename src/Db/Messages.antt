-- ===== src/Db/Messages.antt =====
-- internal/db/db.go: messages and the four queries over them. `ORDER BY m.created_at DESC` leaves open
-- how rows of one second stand to one another, so the sorting is a parameter with the two laws that SQL
-- gives it. A limit is not negative here: the handlers pass a positive one.
pub mod Like
pub mod Pages
pub mod Search
use im_system.Common.{
  ℕ, suc, ◌+◌, ◌≤◌, ◌≡◌, Bool, true, false, ◌&&◌, ◌||◌, not, Option, none, some, List, [], ◌∷◌,
  ◌++◌, ltb, leb, ◌==◌, if◌then◌else◌, Text, text_eq, find, any, select, is_some, length, take,
}
use im_system.Text.{bytes}
use im_system.Model.{DbUser, DbGroup, DbMessage, DbMessageExt}
use im_system.Db.{Database, DbError, Result, ok, err, save_failed}
use im_system.Db.Users.{select_user_id}
use im_system.Db.Groups.{select_group_id}
use Like.{like}

unfoldable pub public_kind : Text
unfolding bytes
public_kind = bytes "public"

unfoldable pub private_kind : Text
unfolding bytes
private_kind = bytes "private"

unfoldable pub group_kind : Text
unfolding bytes
group_kind = bytes "group"

-- CHECK(type IN ('public', 'private', 'group'))
abbrev pub kind_holds : Text → Bool
kind_holds kind = text_eq kind public_kind || text_eq kind private_kind || text_eq kind group_kind

-- The foreign keys of a message; a NULL refers to nothing.
unfoldable pub keys_hold : Database → ℕ → Option ℕ → Option ℕ → Bool
unfolding select_user_id select_group_id
keys_hold db from_id to_id group_id =
    not db.foreign_keys
    || (is_some (select_user_id db from_id)
        && elim to_id [ none ↦ true | some i ↦ is_some (select_user_id db i) ]
        && elim group_id [ none ↦ true | some i ↦ is_some (select_group_id db i) ])

abbrev pub message_row : ℕ → ℕ → ℕ → Option ℕ → Option ℕ → Text → Text → DbMessage
message_row id now from_id to_id group_id content kind = record {
  id = id;
  from_id = from_id;
  to_id = to_id;
  group_id = group_id;
  content = content;
  kind = kind;
  created_at = now;
}

unfoldable pub save_message :
    Database → ℕ → ℕ → Option ℕ → Option ℕ → Text → Text → Database × Result DbMessage
unfolding keys_hold
save_message db now from_id to_id group_id content kind =
    if kind_holds kind && keys_hold db from_id to_id group_id
    then (
      record db {
        messages =
            db.messages ++ message_row db.next_message now from_id to_id group_id content kind ∷ [];
        next_message = suc db.next_message;
      },
      ok (message_row db.next_message now from_id to_id group_id content kind),
    )
    else (db, err save_failed)

-- A row of a query: the message with the names that its joins find.
abbrev pub ext_row : DbMessage → DbUser → Text → Text → DbMessageExt
ext_row m u to group = record {
  id = m.id;
  from = u.username;
  avatar = u.avatar;
  signature = u.signature;
  to = to;
  group = group;
  content = m.content;
  kind = m.kind;
  created_at = m.created_at;
}

-- `if beforeID > 0 { query += " AND m.id < ?" }`
abbrev pub is_before : ℕ → DbMessage → Bool
is_before before m = before == 0 || ltb m.id before

abbrev with_sender : Option DbUser → (DbUser → Option DbMessageExt) → Option DbMessageExt
with_sender none f = none
with_sender (some u) f = f u

-- The row that a message gives to each query, if any.
unfoldable pub public_row : Database → ℕ → DbMessage → Option DbMessageExt
unfolding select_user_id
public_row db before m =
    if text_eq m.kind public_kind && is_before before m
    then with_sender (select_user_id db m.from_id) (λ u. some (ext_row m u [] []))
    else none

abbrev referred {ℓ} : {A : Type ℓ} → Option ℕ → (ℕ → Option A) → Option A
referred none f = none
referred (some i) f = f i

unfoldable pub group_row : Database → Text → ℕ → DbMessage → Option DbMessageExt
unfolding select_user_id select_group_id
group_row db group_name before m =
    if text_eq m.kind group_kind && is_before before m
    then with_sender (select_user_id db m.from_id) (λ u.
      elim (referred m.group_id (select_group_id db)) [
        | none ↦ none
        | some g ↦ if text_eq g.name group_name then some (ext_row m u [] g.name) else none
      ])
    else none

unfoldable pub private_row : Database → Text → Text → ℕ → DbMessage → Option DbMessageExt
unfolding select_user_id
private_row db username peer before m =
    if text_eq m.kind private_kind && is_before before m
    then with_sender (select_user_id db m.from_id) (λ u.
      elim (referred m.to_id (select_user_id db)) [
        | none ↦ none
        | some u2 ↦
            if (text_eq u.username username && text_eq u2.username peer)
              || (text_eq u.username peer && text_eq u2.username username)
            then some (ext_row m u u2.username [])
            else none
      ])
    else none

-- COALESCE(u2.username, ''), COALESCE(g.name, '')
abbrev user_name : Option DbUser → Text
user_name none = []
user_name (some u) = u.username

abbrev group_name_of : Option DbGroup → Text
group_name_of none = []
group_name_of (some g) = g.name

unfoldable pub search_row : Database → Text → DbMessage → Option DbMessageExt
unfolding select_user_id select_group_id like
search_row db query m =
    if like (b'%' ∷ query ++ b'%' ∷ []) m.content
    then with_sender (select_user_id db m.from_id) (λ u. some (
        ext_row m u (user_name (referred m.to_id (select_user_id db)))
          (group_name_of (referred m.group_id (select_group_id db)))))
    else none

unfoldable pub rows : (DbMessage → Option DbMessageExt) → List DbMessage → List DbMessageExt
rows row [] = []
rows row (m ∷ ms) = let rest = rows row ms in elim (row m) [ none ↦ rest | some r ↦ r ∷ rest ]

-- Later rows do not come before earlier ones in time.
abbrev pub Descending : List DbMessageExt → Type 0
Descending [] = Unit {0}
Descending (r ∷ []) = Unit {0}
Descending (r ∷ s ∷ rs) = (s.created_at ≤ r.created_at) × Descending (s ∷ rs)

-- ORDER BY m.created_at DESC: the same rows, each as often, in falling order of time.
pub record OrderBy : Type 0 where
  pub sort : List DbMessageExt → List DbMessageExt
  pub sort_keeps :
      (p : DbMessageExt → Bool) (rs : List DbMessageExt)
      → length (select p (sort rs)) ≡ length (select p rs)
  pub sort_descending : (rs : List DbMessageExt) → Descending (sort rs)

module _ (o : OrderBy) where
  unfoldable pub get_public_messages : Database → ℕ → ℕ → List DbMessageExt
  unfolding rows public_row
  get_public_messages db limit before =
      take limit (o.sort (rows (public_row db before) db.messages))

  unfoldable pub get_group_messages : Database → Text → ℕ → ℕ → List DbMessageExt
  unfolding rows group_row
  get_group_messages db group_name limit before =
      take limit (o.sort (rows (group_row db group_name before) db.messages))

  unfoldable pub get_private_messages : Database → Text → Text → ℕ → ℕ → List DbMessageExt
  unfolding rows private_row
  get_private_messages db username peer limit before =
      take limit (o.sort (rows (private_row db username peer before) db.messages))

  unfoldable pub search_messages : Database → Text → ℕ → List DbMessageExt
  unfolding rows search_row
  search_messages db query limit =
      let limit' = if leb limit 0 || ltb 200 limit then 50 else limit in
      take limit' (o.sort (rows (search_row db query) db.messages))
