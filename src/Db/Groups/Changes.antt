-- ===== src/Db/Groups/Changes.antt =====
-- internal/db/db.go: what the statements of the group methods do to the rows of members.
use im_system.Common.{
  ℕ, ◌<◌, ◌≡◌, refl, true, false, ◌&&◌, ◌||◌, not, none, some, List, [], ◌∷◌, arith, ◌==◌, Text,
  any, any-append, select, All, Option-cases, inl, inr,
}
use im_system.Model.{DbGroup}
use im_system.Db.{Database, Member, DbError, ok, err}
use im_system.Db.Groups.{
  select_group, is_member_row, insert_member, insert_group, group_row, create_group, join_group,
  delete_member, leave_group,
}

any_same_row :
    (ms : List Member) (g u h w : ℕ)
    → any (is_member_row g u) ms ≡ true
    → (any (is_member_row h w) ms || (g == h && u == w)) ≡ any (is_member_row h w) ms
unfolding any
any_same_row [] g u h w e = cc
any_same_row (m ∷ ms) g u h w e = ground (arith, any_same_row ms g u h w)

pub any-insert_member :
    (rows : List Member) (g u h w : ℕ)
    → any (is_member_row h w) (insert_member rows g u)
      ≡ (any (is_member_row h w) rows || (g == h && u == w))
unfolding insert_member any
any-insert_member rows g u h w = ground (
  arith,
  any-append (is_member_row h w) rows (record { group_id = g; user_id = u } ∷ []),
  any_same_row rows g u h w,
)

pub any-delete_member :
    (rows : List Member) (g u h w : ℕ)
    → any (is_member_row h w) (delete_member rows g u)
      ≡ (any (is_member_row h w) rows && not (g == h && u == w))
unfolding delete_member any select
any-delete_member [] g u h w = refl
any-delete_member (m ∷ ms) g u h w = ground (arith, any-delete_member ms g u h w)

pub any_fresh :
    (n u : ℕ) (ms : List Member)
    → All (λ (m : Member). m.group_id < n) ms
    → any (is_member_row n u) ms ≡ false
unfolding any
any_fresh n u [] h = refl
any_fresh n u (m ∷ ms) h = ground (arith, any_fresh n u ms h.1)

-- A group call that fails changes nothing.
pub join_error_keeps :
    (db : Database) (name : Text) (u : ℕ) (e : DbError)
    → (join_group db name u).1 ≡ some e
    → (join_group db name u).0 ≡ db
unfolding join_group
join_error_keeps db name u e h = ground arith

pub leave_error_keeps :
    (db : Database) (name : Text) (u : ℕ) (e : DbError)
    → (leave_group db name u).1 ≡ some e
    → (leave_group db name u).0 ≡ db
unfolding leave_group
leave_error_keeps db name u e h = ground arith

pub create_error_keeps :
    (db : Database) (now : ℕ) (name : Text) (u : ℕ) (about : Text) (e : DbError)
    → (create_group db now name u about).1 ≡ err e
    → (create_group db now name u about).0 ≡ db
unfolding create_group
create_error_keeps db now name u about e h = ground arith

pub join_adds :
    (db : Database) (name : Text) (u : ℕ)
    → (join_group db name u).1 ≡ none
    → (g : DbGroup) × (select_group db name ≡ some g)
      × ((join_group db name u).0 ≡ record db { members = insert_member db.members g.id u })
unfolding join_group
join_adds db name u h = elim (Option-cases (select_group db name)) [
  | inl absent ↦ ground arith
  | inr (g, present) ↦ (g, present, ground arith)
]

pub leave_removes :
    (db : Database) (name : Text) (u : ℕ)
    → (leave_group db name u).1 ≡ none
    → (g : DbGroup) × (select_group db name ≡ some g)
      × ((leave_group db name u).0 ≡ record db { members = delete_member db.members g.id u })
unfolding leave_group
leave_removes db name u h = elim (Option-cases (select_group db name)) [
  | inl absent ↦ ground arith
  | inr (g, present) ↦ (g, present, ground arith)
]

pub create_inserts :
    (db : Database) (now : ℕ) (name : Text) (u : ℕ) (about : Text) (g : DbGroup)
    → (create_group db now name u about).1 ≡ ok g
    → ((create_group db now name u about).0 ≡ insert_group db now name u about)
      × (select_group db name ≡ none)
      × (g ≡ group_row db.next_group now name u about)
unfolding create_group
create_inserts db now name u about g h = (ground arith, ground arith, ground arith)
