-- ===== src/Db/Groups/Membership.antt =====
-- internal/db/db.go: the group methods, and who is a member of which group.
use im_system.Common.{
  ℕ, ◌<◌, ◌≡◌, ◌↔◌, Bool, true, false, ◌&&◌, ◌||◌, not, none, some, List, [], ◌∷◌, arith, ◌==◌,
  if◌then◌else◌, Text, text_eq, text_eq_iff, find, find-append, find-same, find-passes, Apart, any,
  any-append, All, Bool-cases, Option-cases, inl, inr,
}
use im_system.Model.{DbGroup}
use im_system.Db.{Database, Member, ok}
use im_system.Db.Groups.{
  select_group, is_member_row, insert_group, group_row, create_group, join_group, leave_group,
}
use im_system.Db.Groups.Changes.{
  any-insert_member, any-delete_member, any_fresh, join_adds, leave_removes, create_inserts,
}

abbrev pub same_group_id : DbGroup → DbGroup → Bool
same_group_id g h = h.id == g.id

abbrev pub same_group_name : DbGroup → DbGroup → Bool
same_group_name g h = text_eq h.name g.name

-- The constraints of `groups`, and ids below the next one in both tables.
pub record GroupsOk (db : Database) : Type 0 where
  pub fresh : All (λ (g : DbGroup). g.id < db.next_group) db.groups
  pub ids : Apart same_group_id db.groups
  pub names : Apart same_group_name db.groups
  pub rows : All (λ (m : Member). m.group_id < db.next_group) db.members

-- Whether a user belongs to the group of that name.
unfoldable pub is_member : Database → Text → ℕ → Bool
unfolding any select_group
is_member db group_name user_id = elim (select_group db group_name) [
  | none ↦ false
  | some g ↦ any (is_member_row g.id user_id) db.members
]

-- Groups found by two names have one id only where the names are one.
pub group_id_eq :
    (db : Database) (v : GroupsOk db) (a b : Text) (g h : DbGroup)
    → select_group db a ≡ some g
    → select_group db b ≡ some h
    → (g.id == h.id) ≡ text_eq a b
unfolding select_group
group_id_eq db v a b g h p q =
    let byid = find-same same_group_id (λ x y. ground arith) (λ x. ground arith) in
    let g_found = byid (λ (x : DbGroup). text_eq x.name a) db.groups g v.ids p in
    let h_found = byid (λ (x : DbGroup). text_eq x.name b) db.groups h v.ids q in
    let g_named = find-passes (λ (x : DbGroup). text_eq x.name a) db.groups g p in
    let h_named = find-passes (λ (x : DbGroup). text_eq x.name b) db.groups h q in
    elim (Bool-cases (text_eq a b)) [
      | inl same ↦ ground (arith, text_eq_iff a b, p, q)
      | inr other ↦ elim (Bool-cases (g.id == h.id)) [
        | inr apart ↦ rw (apart, other)
        | inl one ↦ ground (
          arith,
          text_eq_iff a b,
          text_eq_iff g.name a,
          text_eq_iff h.name b,
          g_found,
          h_found,
          g_named,
          h_named,
        )
      ]
    ]

module _ (db : Database) (v : GroupsOk db) (name : Text) (u : ℕ) where
  -- After a successful `JoinGroup` the user is a member of the group, and every other membership is
  -- what it was.
  pub is_member-join_group :
      (join_group db name u).1 ≡ none
      → (other : Text) (w : ℕ)
      → is_member (join_group db name u).0 other w
        ≡ (is_member db other w || (text_eq name other && u == w))
  unfolding is_member select_group
  is_member-join_group done other w =
      let (g, found, e) = join_adds db name u done in
      rw e (elim (Option-cases (select_group db other)) [
        | inl absent ↦ ground (arith, text_eq_iff name other, found, absent)
        | inr (h, present) ↦ ground (
          arith,
          present,
          any-insert_member db.members g.id u h.id w,
          group_id_eq db v name other g h found present,
        )
      ])

  -- After a successful `LeaveGroup` the user is not a member of the group, and every other membership
  -- is what it was.
  pub is_member-leave_group :
      (leave_group db name u).1 ≡ none
      → (other : Text) (w : ℕ)
      → is_member (leave_group db name u).0 other w
        ≡ (is_member db other w && not (text_eq name other && u == w))
  unfolding is_member select_group
  is_member-leave_group done other w =
      let (g, found, e) = leave_removes db name u done in
      rw e (elim (Option-cases (select_group db other)) [
        | inl absent ↦ ground (arith, absent)
        | inr (h, present) ↦ ground (
          arith,
          present,
          any-delete_member db.members g.id u h.id w,
          group_id_eq db v name other g h found present,
        )
      ])

  -- `LeaveGroup` succeeds exactly when the user is a member of a group of that name.
  pub leave_group_iff : ((leave_group db name u).1 ≡ none) ↔ (is_member db name u ≡ true)
  unfolding leave_group is_member
  leave_group_iff = (λ h. ground arith, λ h. ground arith)

  select-insert_group :
      (now : ℕ) (about other : Text)
      → select_group db name ≡ none
      → select_group (insert_group db now name u about) other ≡ (
          if text_eq name other
          then some (group_row db.next_group now name u about)
          else select_group db other)
  unfolding insert_group select_group
  select-insert_group now about other free = ground (
    arith,
    find-append (λ (g : DbGroup). text_eq g.name other) db.groups
        (group_row db.next_group now name u about ∷ []),
    text_eq_iff name other,
  )

  pub found_below :
      (other : Text) (g : DbGroup) → select_group db other ≡ some g → g.id < db.next_group
  unfolding select_group find
  found_below other g found = below db.groups v.fresh found
    where
      below :
          (gs : List DbGroup)
          → All (λ (x : DbGroup). x.id < db.next_group) gs
          → find (λ (x : DbGroup). text_eq x.name other) gs ≡ some g
          → g.id < db.next_group
      below [] h e = cc
      below (x ∷ gs) h e = ground (arith, below gs h.1)

  any_row-insert_group :
      (now : ℕ) (about : Text) (h w : ℕ)
      → any (is_member_row h w) (insert_group db now name u about).members
        ≡ (any (is_member_row h w) db.members || (db.next_group == h && u == w))
  unfolding insert_group any
  any_row-insert_group now about h w = ground (
    arith,
    any-append (is_member_row h w) db.members
        (record { group_id = db.next_group; user_id = u } ∷ []),
  )

  is_member-insert_group :
      (now : ℕ) (about : Text)
      → select_group db name ≡ none
      → (other : Text) (w : ℕ)
      → is_member (insert_group db now name u about) other w
        ≡ (if text_eq name other then u == w else is_member db other w)
  unfolding is_member
  is_member-insert_group now about free other w =
      rw (select-insert_group now about other free, is_member)
        (elim (Bool-cases (text_eq name other)) [
          | inl same ↦
              rw (same, any_row-insert_group now about db.next_group w)
                (ground (arith, any_fresh db.next_group w db.members v.rows))
          | inr different ↦ rw different (elim (Option-cases (select_group db other)) [
            | inl absent ↦ rw (absent, is_member)
            | inr (h, present) ↦
                rw (present, is_member, any_row-insert_group now about h.id w)
                  (ground (arith, found_below other h present))
          ])
        ])

  -- A group that was created has its creator for its one member, and no other group gains or loses
  -- one.
  pub is_member-create_group :
      (now : ℕ) (about : Text) (g : DbGroup)
      → (create_group db now name u about).1 ≡ ok g
      → (other : Text) (w : ℕ)
      → is_member (create_group db now name u about).0 other w
        ≡ (if text_eq name other then u == w else is_member db other w)
  is_member-create_group now about g done other w =
      let (e, free, row) = create_inserts db now name u about g done in
      rw e (is_member-insert_group now about free other w)
