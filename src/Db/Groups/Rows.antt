-- ===== src/Db/Groups/Rows.antt =====
-- internal/db/db.go: the constraints of `groups` and `group_members` under each statement.
use im_system.Common.{
  ℕ, suc, ◌<◌, ◌≡◌, refl, sym, Bool, none, List, [], ◌∷◌, arith, Text, text_eq, text_eq_iff, find,
  Apart, Apart-append, any, select, All, All-append, Bool-cases, Option-cases, inl, inr, subst, ◌⊎◌,
}
use im_system.Model.{DbGroup}
use im_system.Db.{Database, Member, DbError, Result, ok, err, empty_database}
use im_system.Db.Groups.{
  select_group, is_member_row, insert_member, insert_group, group_row, create_group, join_group,
  delete_member, leave_group,
}
use im_system.Db.Groups.Membership.{GroupsOk, same_group_id, same_group_name, found_below}
use im_system.Db.Groups.Changes.{
  join_adds, join_error_keeps, leave_removes, leave_error_keeps, create_inserts, create_error_keeps,
}

group_fresh_find :
    (n : ℕ) (gs : List DbGroup) (r : DbGroup)
    → r.id ≡ n
    → All (λ (g : DbGroup). g.id < n) gs
    → find (λ g. same_group_id g r) gs ≡ none
unfolding find
group_fresh_find n [] r e h = refl
group_fresh_find n (g ∷ gs) r e h = ground (arith, group_fresh_find n gs r e h.1)

group_fresh_mono :
    (n : ℕ) (gs : List DbGroup)
    → All (λ (g : DbGroup). g.id < n) gs
    → All (λ (g : DbGroup). g.id < suc n) gs
group_fresh_mono n [] h = tt
group_fresh_mono n (g ∷ gs) h = (omega arith, group_fresh_mono n gs h.1)

rows_mono :
    (n : ℕ) (ms : List Member)
    → All (λ (m : Member). m.group_id < n) ms
    → All (λ (m : Member). m.group_id < suc n) ms
rows_mono n [] h = tt
rows_mono n (m ∷ ms) h = (omega arith, rows_mono n ms h.1)

group_name_find :
    (gs : List DbGroup) (r : DbGroup)
    → find (λ (g : DbGroup). text_eq g.name r.name) gs ≡ none
    → find (λ g. same_group_name g r) gs ≡ none
unfolding find
group_name_find [] r h = refl
group_name_find (g ∷ gs) r h =
    ground (arith, group_name_find gs r, text_eq_iff g.name r.name, text_eq_iff r.name g.name)

insert_group-GroupsOk :
    (db : Database) (now : ℕ) (name : Text) (u : ℕ) (about : Text)
    → GroupsOk db
    → select_group db name ≡ none
    → GroupsOk (insert_group db now name u about)
unfolding insert_group select_group
insert_group-GroupsOk db now name u about v free =
    let row = group_row db.next_group now name u about in
    record {
      fresh =
          All-append (λ (g : DbGroup). g.id < suc db.next_group) db.groups (row ∷ [])
            (group_fresh_mono db.next_group db.groups v.fresh) (omega arith, tt);
      ids =
          Apart-append same_group_id db.groups row v.ids
            (group_fresh_find db.next_group db.groups row refl v.fresh);
      names =
          Apart-append same_group_name db.groups row v.names (group_name_find db.groups row free);
      rows =
          All-append (λ (m : Member). m.group_id < suc db.next_group) db.members
            (record { group_id = db.next_group; user_id = u } ∷ [])
            (rows_mono db.next_group db.members v.rows) (omega arith, tt);
    }

insert_member_below :
    (n : ℕ) (ms : List Member) (g u : ℕ)
    → g < n
    → All (λ (m : Member). m.group_id < n) ms
    → All (λ (m : Member). m.group_id < n) (insert_member ms g u)
unfolding insert_member
insert_member_below n ms g u lt h = elim (Bool-cases (any (is_member_row g u) ms)) [
  | inl old ↦ rw (old, insert_member) h
  | inr new ↦
      rw (new, insert_member)
        (All-append (λ (m : Member). m.group_id < n) ms (record { group_id = g; user_id = u } ∷ [])
          h (lt, tt))
]

delete_member_below :
    (n : ℕ) (ms : List Member) (g u : ℕ)
    → All (λ (m : Member). m.group_id < n) ms
    → All (λ (m : Member). m.group_id < n) (delete_member ms g u)
unfolding delete_member select
delete_member_below n [] g u h = tt
delete_member_below n (m ∷ ms) g u h = ground (arith, delete_member_below n ms g u h.1)

pub Result-cases {ℓ} :
    {A : Type ℓ} (r : Result A) → ((a : A) × (r ≡ ok a)) ⊎ ((e : DbError) × (r ≡ err e))
Result-cases (ok a) = inl (a, refl)
Result-cases (err e) = inr (e, refl)

pub create_group-GroupsOk :
    (db : Database) (now : ℕ) (name : Text) (u : ℕ) (about : Text)
    → GroupsOk db
    → GroupsOk (create_group db now name u about).0
create_group-GroupsOk db now name u about v =
    elim (Result-cases (create_group db now name u about).1) [
      | inr (e, failed) ↦ subst GroupsOk (sym (create_error_keeps db now name u about e failed)) v
      | inl (g, done) ↦
          let (e, free, row) = create_inserts db now name u about g done in
          subst GroupsOk (sym e) (insert_group-GroupsOk db now name u about v free)
    ]

pub join_group-GroupsOk :
    (db : Database) (name : Text) (u : ℕ) → GroupsOk db → GroupsOk (join_group db name u).0
join_group-GroupsOk db name u v = elim (Option-cases (join_group db name u).1) [
  | inr (e, failed) ↦ subst GroupsOk (sym (join_error_keeps db name u e failed)) v
  | inl done ↦
      let (g, found, e) = join_adds db name u done in
      subst GroupsOk (sym e) (record {
        fresh = v.fresh;
        ids = v.ids;
        names = v.names;
        rows =
            insert_member_below db.next_group db.members g.id u
              (found_below db v name u name g found) v.rows;
      })
]

pub leave_group-GroupsOk :
    (db : Database) (name : Text) (u : ℕ) → GroupsOk db → GroupsOk (leave_group db name u).0
leave_group-GroupsOk db name u v = elim (Option-cases (leave_group db name u).1) [
  | inr (e, failed) ↦ subst GroupsOk (sym (leave_error_keeps db name u e failed)) v
  | inl done ↦
      let (g, found, e) = leave_removes db name u done in
      subst GroupsOk (sym e) (record {
        fresh = v.fresh;
        ids = v.ids;
        names = v.names;
        rows = delete_member_below db.next_group db.members g.id u v.rows;
      })
]

pub empty-GroupsOk : (foreign_keys : Bool) → GroupsOk (empty_database foreign_keys)
unfolding empty_database Apart
empty-GroupsOk foreign_keys = record { fresh = tt; ids = tt; names = tt; rows = tt }
