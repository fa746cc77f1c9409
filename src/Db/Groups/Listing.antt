-- ===== src/Db/Groups/Listing.antt =====
-- internal/db/db.go: the lists of `GetGroupMembers` and `GetUserGroups` against the membership.
use im_system.Common.{
  ℕ, ◌≡◌, ap, ◌∙◌, Bool, false, ◌&&◌, Option, none, some, List, [], ◌∷◌, arith, ◌==◌, ==_iff, Text,
  text_eq, text_eq_iff, text_eq_refl, find-same, find-passes, any, is_some, Bool-cases,
  Option-cases, inl, inr,
}
use im_system.Model.{DbUser, DbGroup, UserPublic}
use im_system.Db.{Database, Member}
use im_system.Db.Users.{select_user, select_user_id}
use im_system.Db.Users.Rows.{UsersOk, select_user_id-select_user, select_user-select_user_id}
use im_system.Db.Groups.{
  select_group, select_group_id, is_member_row, joined, members_in, groups_of, get_group_members,
  get_user_groups,
}
use im_system.Db.Groups.Membership.{GroupsOk, is_member, same_group_id, same_group_name}

select_group_id-select_group :
    (db : Database) (name : Text) (g : DbGroup)
    → GroupsOk db
    → select_group db name ≡ some g
    → select_group_id db g.id ≡ some g
unfolding select_group select_group_id
select_group_id-select_group db name g v h =
    find-same same_group_id (λ x y. ground arith) (λ x. ground arith)
      (λ (w : DbGroup). text_eq w.name name) db.groups g v.ids h

select_group-select_group_id :
    (db : Database) (id : ℕ) (g : DbGroup)
    → GroupsOk db
    → select_group_id db id ≡ some g
    → select_group db g.name ≡ some g
unfolding select_group select_group_id
select_group-select_group_id db id g v h =
    find-same same_group_name
      (λ x y. ground (arith, text_eq_iff x.name y.name, text_eq_iff y.name x.name))
      (λ x. text_eq_refl x.name) (λ (w : DbGroup). w.id == id) db.groups g v.names h

select_group_passes :
    (db : Database) (name : Text) (g : DbGroup) → select_group db name ≡ some g → g.name ≡ name
unfolding select_group
select_group_passes db name g h =
    (text_eq_iff g.name name).0 (find-passes (λ (w : DbGroup). text_eq w.name name) db.groups g h)

select_group_id_passes :
    (db : Database) (id : ℕ) (g : DbGroup) → select_group_id db id ≡ some g → g.id ≡ id
unfolding select_group_id
select_group_id_passes db id g h =
    ground (arith, find-passes (λ (w : DbGroup). w.id == id) db.groups g h)

select_user_id_passes :
    (db : Database) (id : ℕ) (u : DbUser) → select_user_id db id ≡ some u → u.id ≡ id
unfolding select_user_id
select_user_id_passes db id u h =
    ground (arith, find-passes (λ (w : DbUser). w.id == id) db.users u h)

select_user_passes :
    (db : Database) (name : Text) (u : DbUser) → select_user db name ≡ some u → u.username ≡ name
unfolding select_user
select_user_passes db name u h =
    (text_eq_iff u.username name).0
      (find-passes (λ (w : DbUser). text_eq w.username name) db.users u h)

-- A group id belongs to the group of a name, asked either way.
abbrev id_has_name : Option DbGroup → Text → Bool
id_has_name none name = false
id_has_name (some g) name = text_eq g.name name

abbrev name_has_id : Option DbGroup → ℕ → Bool
name_has_id none id = false
name_has_id (some g) id = g.id == id

group_either_way :
    (db : Database) (id : ℕ) (name : Text)
    → GroupsOk db
    → id_has_name (select_group_id db id) name ≡ name_has_id (select_group db name) id
group_either_way db id name v = elim (Option-cases (select_group_id db id)) [
  | inl absent ↦ elim (Option-cases (select_group db name)) [
    | inl missing ↦ rw (absent, missing)
    | inr (g, found) ↦
        rw (absent, found) (ground (arith, select_group_id-select_group db name g v found, absent))
  ]
  | inr (h, present) ↦ elim (Option-cases (select_group db name)) [
    | inl missing ↦
        rw (present, missing)
          (ground (
            arith,
            text_eq_iff h.name name,
            select_group-select_group_id db id h v present,
            missing,
          ))
    | inr (g, found) ↦
        rw (present, found)
          (ground (
            arith,
            text_eq_iff h.name name,
            select_group-select_group_id db id h v present,
            select_group_id-select_group db name g v found,
            select_group_passes db name g found,
            select_group_id_passes db id h present,
            present,
            found,
          ))
  ]
]

abbrev user_has_id : Option DbUser → ℕ → Bool
user_has_id none id = false
user_has_id (some u) id = u.id == id

abbrev user_has_name : Option DbUser → Text → Bool
user_has_name none name = false
user_has_name (some u) name = text_eq u.username name

user_id_found :
    (db : Database) (id w : ℕ)
    → user_has_id (select_user_id db id) w ≡ (id == w && is_some (select_user_id db w))
user_id_found db id w = elim (Option-cases (select_user_id db id)) [
  | inl absent ↦ rw absent (elim (Bool-cases (id == w)) [
    | inr other ↦ rw other
    | inl same ↦
        ground (arith, ap (λ (i : ℕ). is_some (select_user_id db i)) ((==_iff id w).0 same), absent)
  ])
  | inr (u, present) ↦ rw present (elim (Bool-cases (id == w)) [
    | inr other ↦ ground (arith, select_user_id_passes db id u present)
    | inl same ↦ ground (
      arith,
      select_user_id_passes db id u present,
      ap (λ (i : ℕ). is_some (select_user_id db i)) ((==_iff id w).0 same),
      present,
    )
  ])
]

user_either_way :
    (db : Database) (id : ℕ) (name : Text)
    → UsersOk db
    → user_has_name (select_user_id db id) name ≡ user_has_id (select_user db name) id
user_either_way db id name v = elim (Option-cases (select_user_id db id)) [
  | inl absent ↦ elim (Option-cases (select_user db name)) [
    | inl missing ↦ rw (absent, missing)
    | inr (g, found) ↦
        rw (absent, found) (ground (arith, select_user_id-select_user db name g v found, absent))
  ]
  | inr (h, present) ↦ elim (Option-cases (select_user db name)) [
    | inl missing ↦
        rw (present, missing)
          (ground (
            arith,
            text_eq_iff h.username name,
            select_user-select_user_id db id h v present,
            missing,
          ))
    | inr (g, found) ↦
        rw (present, found)
          (ground (
            arith,
            text_eq_iff h.username name,
            select_user-select_user_id db id h v present,
            select_user_id-select_user db name g v found,
            select_user_passes db name g found,
            select_user_id_passes db id h present,
            present,
            found,
          ))
  ]
]

-- The members of a group, read off the rows of one found group.
abbrev in_group : Option DbGroup → List Member → ℕ → Bool
in_group none ms w = false
in_group (some g) ms w = any (is_member_row g.id w) ms

members_in-joined :
    (db : Database) (name : Text) (w : ℕ) (ms : List Member)
    → GroupsOk db
    → any (λ (u : UserPublic). u.id == w) (members_in name (joined db ms))
      ≡ (in_group (select_group db name) ms w && is_some (select_user_id db w))
unfolding members_in joined any
members_in-joined db name w [] v = ground arith
members_in-joined db name w (m ∷ ms) v = ground (
  arith,
  members_in-joined db name w ms v,
  group_either_way db m.group_id name v,
  user_id_found db m.user_id w,
)

-- `GetGroupMembers` lists exactly the users of the table that are members of the group.
pub get_group_members_exact :
    (db : Database) (name : Text) (w : ℕ)
    → GroupsOk db
    → any (λ (u : UserPublic). u.id == w) (get_group_members db name)
      ≡ (is_member db name w && is_some (select_user_id db w))
unfolding get_group_members is_member
get_group_members_exact db name w v = members_in-joined db name w db.members v ∙ ground arith

groups_of-joined :
    (db : Database) (username name : Text) (ms : List Member)
    → GroupsOk db
    → UsersOk db
    → any (λ (g : Text). text_eq g name) (groups_of username (joined db ms))
      ≡ elim (select_user db username) [
        | none ↦ false
        | some u ↦ in_group (select_group db name) ms u.id
      ]
unfolding groups_of joined any
groups_of-joined db username name [] v w = ground arith
groups_of-joined db username name (m ∷ ms) v w = ground (
  arith,
  groups_of-joined db username name ms v w,
  group_either_way db m.group_id name v,
  user_either_way db m.user_id username w,
)

-- `GetUserGroups` lists exactly the groups that the user is a member of.
pub get_user_groups_exact :
    (db : Database) (username name : Text)
    → GroupsOk db
    → UsersOk db
    → any (λ (g : Text). text_eq g name) (get_user_groups db username)
      ≡ elim (select_user db username) [ none ↦ false | some u ↦ is_member db name u.id ]
unfolding get_user_groups is_member
get_user_groups_exact db username name v w =
    groups_of-joined db username name db.members v w ∙ ground arith
