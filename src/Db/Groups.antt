-- ===== src/Db/Groups.antt =====
-- internal/db/db.go: groups and their members.
pub mod Changes
pub mod Membership
pub mod Rows
pub mod Listing
use im_system.Common.{
  ℕ, suc, ◌+◌, Bool, true, false, ◌&&◌, ◌||◌, not, Option, none, some, List, [], ◌∷◌, ◌++◌, ltb,
  ◌==◌, if◌then◌else◌, Text, text_eq, find, any, select, is_some, length,
}
use im_system.Text.Trim.{trim_space}
use im_system.Model.{DbUser, UserPublic, DbGroup}
use im_system.Db.{
  Database, Member, DbError, Result, ok, err, ◌>>=◌, or_fail, group_name_empty, group_name_long,
  group_exists, group_not_found, not_a_member, create_group_failed, join_failed,
}
use im_system.Db.Users.{select_user_id, public_view}

-- SELECT ... FROM groups WHERE name = ?
unfoldable pub select_group : Database → Text → Option DbGroup
unfolding find
select_group db name = find (λ (g : DbGroup). text_eq g.name name) db.groups

unfoldable pub get_group_by_name : Database → Text → Result DbGroup
unfolding select_group
get_group_by_name db name = or_fail (select_group db name) group_not_found

abbrev pub is_member_row : ℕ → ℕ → Member → Bool
is_member_row group_id user_id m = m.group_id == group_id && m.user_id == user_id

-- What FOREIGN KEY (user_id) REFERENCES users(id) asks, where the connection enforces it.
abbrev pub user_key_holds : Database → ℕ → Bool
user_key_holds db user_id = not db.foreign_keys || is_some (select_user_id db user_id)

-- INSERT OR IGNORE INTO group_members (group_id, user_id) VALUES (?, ?)
unfoldable pub insert_member : List Member → ℕ → ℕ → List Member
unfolding any
insert_member rows group_id user_id =
    if any (is_member_row group_id user_id) rows
    then rows
    else rows ++ record { group_id = group_id; user_id = user_id } ∷ []

abbrev pub group_row : ℕ → ℕ → Text → ℕ → Text → DbGroup
group_row id now name creator_id description = record {
  id = id;
  name = name;
  creator_id = creator_id;
  description = description;
  created_at = now;
}

-- The two INSERTs of `CreateGroup`. The group is new, so the second breaks no UNIQUE constraint, and
-- the first has found the creator, so it breaks no foreign key.
unfoldable pub insert_group : Database → ℕ → Text → ℕ → Text → Database
insert_group db now name creator_id description = record db {
  groups = db.groups ++ group_row db.next_group now name creator_id description ∷ [];
  next_group = suc db.next_group;
  members = db.members ++ record { group_id = db.next_group; user_id = creator_id } ∷ [];
}

unfoldable pub create_group : Database → ℕ → Text → ℕ → Text → Database × Result DbGroup
unfolding insert_group select_group select_user_id
create_group db now name creator_id description =
    if length (trim_space name) == 0
    then (db, err group_name_empty)
    else if ltb 32 (length name)
    then (db, err group_name_long)
    else if is_some (select_group db name)
    then (db, err group_exists)
    else if not (user_key_holds db creator_id)
    then (db, err create_group_failed)
    else (
      insert_group db now name creator_id description,
      ok (group_row db.next_group now name creator_id description),
    )

unfoldable pub join_group : Database → Text → ℕ → Database × Option DbError
unfolding select_group insert_member select_user_id
join_group db group_name user_id = elim (select_group db group_name) [
  | none ↦ (db, some group_not_found)
  | some g ↦
      if user_key_holds db user_id
      then (record db { members = insert_member db.members g.id user_id }, none)
      else (db, some join_failed)
]

-- DELETE FROM group_members WHERE group_id = ? AND user_id = ?
unfoldable pub delete_member : List Member → ℕ → ℕ → List Member
unfolding select
delete_member rows group_id user_id = select (λ m. not (is_member_row group_id user_id m)) rows

unfoldable pub leave_group : Database → Text → ℕ → Database × Option DbError
unfolding select_group delete_member any
leave_group db group_name user_id = elim (select_group db group_name) [
  | none ↦ (db, some group_not_found)
  | some g ↦
      if any (is_member_row g.id user_id) db.members
      then (record db { members = delete_member db.members g.id user_id }, none)
      else (db, some not_a_member)
]

-- SELECT id FROM groups: a primary key finds one row.
unfoldable pub select_group_id : Database → ℕ → Option DbGroup
unfolding find
select_group_id db id = find (λ (g : DbGroup). g.id == id) db.groups

-- The join of `group_members`, `groups` and `users`, as pairs of a group and a user, in row order.
unfoldable pub joined : Database → List Member → List (DbGroup × DbUser)
unfolding select_group_id select_user_id
joined db [] = []
joined db (m ∷ ms) =
    let rest = joined db ms in
    elim (select_group_id db m.group_id) [
      | none ↦ rest
      | some g ↦ elim (select_user_id db m.user_id) [ none ↦ rest | some u ↦ (g, u) ∷ rest ]
    ]

members_in : Text → List (DbGroup × DbUser) → List UserPublic
members_in group_name [] = []
members_in group_name ((g, u) ∷ rows) =
    let rest = members_in group_name rows in
    if text_eq g.name group_name then public_view u ∷ rest else rest

unfoldable pub get_group_members : Database → Text → List UserPublic
unfolding joined members_in
get_group_members db group_name = members_in group_name (joined db db.members)

groups_of : Text → List (DbGroup × DbUser) → List Text
groups_of username [] = []
groups_of username ((g, u) ∷ rows) =
    let rest = groups_of username rows in
    if text_eq u.username username then g.name ∷ rest else rest

unfoldable pub get_user_groups : Database → Text → List Text
unfolding joined groups_of
get_user_groups db username = groups_of username (joined db db.members)
