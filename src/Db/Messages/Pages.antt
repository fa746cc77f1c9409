-- ===== src/Db/Messages/Pages.antt =====
-- internal/db/db.go: the pages of the three history queries.
use Prim.Native.Nat.{min}
use mathlib.Core.Path.{fun_ext}
use im_system.Common.{
  ℕ, ◌≡◌, refl, ap, Bool, true, false, ◌&&◌, ◌||◌, not, Option, some, List, [], ◌∷◌, arith, ltb,
  ◌==◌, Text, text_eq, any, any-eq-count, any-take, select_all, length, length-take, take,
  Option-cases, inl, inr,
}
use im_system.Model.{DbMessage, DbMessageExt}
use im_system.Db.{Database}
use im_system.Db.Messages.{
  public_kind, private_kind, group_kind, public_row, group_row, private_row, rows, OrderBy,
  get_public_messages, get_group_messages, get_private_messages,
}

any-rows :
    (p : DbMessageExt → Bool) (row : DbMessage → Option DbMessageExt)
    → ((m : DbMessage) (r : DbMessageExt) → row m ≡ some r → p r ≡ false)
    → (ms : List DbMessage) → any p (rows row ms) ≡ false
unfolding rows any
any-rows p row h [] = refl
any-rows p row h (m ∷ ms) = elim (Option-cases (row m)) [
  | inl absent ↦ rw (absent, rows) (any-rows p row h ms)
  | inr (r, present) ↦ rw (present, rows) (ground (arith, h m r present, any-rows p row h ms))
]

-- What a row of each query is.
abbrev pub older : ℕ → DbMessageExt → Bool
older before r = before == 0 || ltb r.id before

abbrev pub is_public : ℕ → DbMessageExt → Bool
is_public before r = text_eq r.kind public_kind && older before r

abbrev pub is_of_group : Text → ℕ → DbMessageExt → Bool
is_of_group name before r = text_eq r.kind group_kind && text_eq r.group name && older before r

abbrev pub is_between : Text → Text → ℕ → DbMessageExt → Bool
is_between username peer before r =
    text_eq r.kind private_kind
    && ((text_eq r.from username && text_eq r.to peer)
        || (text_eq r.from peer && text_eq r.to username))
    && older before r

public_row_is :
    (db : Database) (before : ℕ) (m : DbMessage) (r : DbMessageExt)
    → public_row db before m ≡ some r
    → not (is_public before r) ≡ false
unfolding public_row
public_row_is db before m r e = ground arith

group_row_is :
    (db : Database) (name : Text) (before : ℕ) (m : DbMessage) (r : DbMessageExt)
    → group_row db name before m ≡ some r
    → not (is_of_group name before r) ≡ false
unfolding group_row
group_row_is db name before m r e = ground arith

private_row_is :
    (db : Database) (username peer : Text) (before : ℕ) (m : DbMessage) (r : DbMessageExt)
    → private_row db username peer before m ≡ some r
    → not (is_between username peer before r) ≡ false
unfolding private_row
private_row_is db username peer before m r e = ground arith

module _ (o : OrderBy) where
  -- A page holds nothing that the rows do not hold.
  any-page :
      (p : DbMessageExt → Bool) (n : ℕ) (rs : List DbMessageExt)
      → any p rs ≡ false
      → any p (take n (o.sort rs)) ≡ false
  any-page p n rs h = ground (
    arith,
    any-take p n (o.sort rs),
    any-eq-count p (o.sort rs),
    any-eq-count p rs,
    o.sort_keeps p rs,
  )

  length-page : (n : ℕ) (rs : List DbMessageExt) → length (take n (o.sort rs)) ≡ min n (length rs)
  length-page n rs = omega (
    arith,
    select_all (o.sort rs),
    select_all rs,
    o.sort_keeps (λ _. true) rs,
    length-take n (o.sort rs),
  )

  -- A page of public history has as many rows as there are, up to the limit, and each is a public
  -- message with an id below the one asked for.
  pub public_page :
      (db : Database) (limit before : ℕ)
      → (length (get_public_messages o db limit before)
          ≡ min limit (length (rows (public_row db before) db.messages)))
        × (any (λ r. not (is_public before r)) (get_public_messages o db limit before) ≡ false)
  unfolding get_public_messages
  public_page db limit before = (
    length-page limit (rows (public_row db before) db.messages),
    any-page _ limit (rows (public_row db before) db.messages)
        (any-rows _ (public_row db before) (public_row_is db before) db.messages),
  )

  -- A page of a group's history has as many rows as there are, up to the limit, and each is a group
  -- message of the group of that name with an id below the one asked for.
  pub group_page :
      (db : Database) (name : Text) (limit before : ℕ)
      → (length (get_group_messages o db name limit before)
          ≡ min limit (length (rows (group_row db name before) db.messages)))
        × (any (λ r. not (is_of_group name before r)) (get_group_messages o db name limit before)
            ≡ false)
  unfolding get_group_messages
  group_page db name limit before = (
    length-page limit (rows (group_row db name before) db.messages),
    any-page _ limit (rows (group_row db name before) db.messages)
        (any-rows _ (group_row db name before) (group_row_is db name before) db.messages),
  )

  -- A page of a private conversation has as many rows as there are, up to the limit, and each is a
  -- private message from one of the two users to the other, with an id below the one asked for.
  pub private_page :
      (db : Database) (username peer : Text) (limit before : ℕ)
      → (length (get_private_messages o db username peer limit before)
          ≡ min limit (length (rows (private_row db username peer before) db.messages)))
        × (any
              (λ r. not (is_between username peer before r))
              (get_private_messages o db username peer limit before)
            ≡ false)
  unfolding get_private_messages
  private_page db username peer limit before = (
    length-page limit (rows (private_row db username peer before) db.messages),
    any-page _ limit (rows (private_row db username peer before) db.messages) (
        any-rows _ (private_row db username peer before) (private_row_is db username peer before)
          db.messages),
  )

  private_row_symm :
      (db : Database) (username peer : Text) (before : ℕ) (m : DbMessage)
      → private_row db username peer before m ≡ private_row db peer username before m
  unfolding private_row
  private_row_symm db username peer before m = ground arith

  -- Both sides of a private conversation read the same history.
  pub private_history_symm :
      (db : Database) (username peer : Text) (limit before : ℕ)
      → get_private_messages o db username peer limit before
        ≡ get_private_messages o db peer username limit before
  unfolding get_private_messages
  private_history_symm db username peer limit before =
      ap (λ (row : DbMessage → Option DbMessageExt). take limit (o.sort (rows row db.messages)))
        (fun_ext (private_row_symm db username peer before))
