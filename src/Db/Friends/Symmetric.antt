-- ===== src/Db/Friends/Symmetric.antt =====
-- internal/db/db.go: who is a friend of whom, before and after `AddFriend` and `RemoveFriend`.
use im_system.Common.{
  ℕ, ◌≡◌, ◌≢◌, ◌↔◌, ◌⊎◌, if◌then◌else◌, refl, sym, Bool, true, false, ◌&&◌, ◌||◌, not, none, some,
  List, [], ◌∷◌, arith, ◌==◌, text_eq, text_eq_refl, any, any-append, select, All, All-append,
  Bool-cases, inl, inr, Option-cases, subst,
}
use im_system.Db.{Database, Friend, DbError, friend_not_found, empty_database}
use im_system.Db.Friends.{
  accepted, is_row, insert_friend, delete_friend, add_friend, remove_friend, is_friend,
  in_transaction, delete_pairs,
}

abbrev IsAccepted : Friend → Type 0
IsAccepted f = text_eq f.status accepted ≡ true

-- Whether the rows hold the direction from `x` to `y`.
has : List Friend → ℕ → ℕ → Bool
has rows x y = any (λ (f : Friend). is_row x y f && text_eq f.status accepted) rows

any_row-eq-has :
    (rows : List Friend) (x y : ℕ) → All IsAccepted rows → any (is_row x y) rows ≡ has rows x y
unfolding has any
any_row-eq-has [] x y h = refl
any_row-eq-has (f ∷ fs) x y h = ground (arith, any_row-eq-has fs x y h.1)

has-insert :
    (rows : List Friend) (a b x y : ℕ)
    → All IsAccepted rows
    → has (insert_friend rows a b) x y ≡ (has rows x y || (a == x && b == y))
unfolding insert_friend has any
has-insert rows a b x y h = ground (
  arith,
  any_row-eq-has rows a b h,
  any-append (λ (f : Friend). is_row x y f && text_eq f.status accepted) rows
      (record { user_id = a; friend_id = b; status = accepted } ∷ []),
  text_eq_refl accepted,
)

IsAccepted-insert :
    (rows : List Friend) (a b : ℕ) → All IsAccepted rows → All IsAccepted (insert_friend rows a b)
unfolding insert_friend
IsAccepted-insert rows a b h = elim (Bool-cases (any (is_row a b) rows)) [
  | inl old ↦ rw (old, insert_friend) h
  | inr new ↦ rw (new, insert_friend) (All-append IsAccepted rows _ h (text_eq_refl accepted, tt))
]

has-delete :
    (rows : List Friend) (a b x y : ℕ)
    → has (delete_friend rows a b) x y ≡ (has rows x y && not (a == x && b == y))
unfolding delete_friend has any select
has-delete [] a b x y = refl
has-delete (f ∷ fs) a b x y = ground (arith, has-delete fs a b x y)

IsAccepted-delete :
    (rows : List Friend) (a b : ℕ) → All IsAccepted rows → All IsAccepted (delete_friend rows a b)
unfolding delete_friend select
IsAccepted-delete [] a b h = tt
IsAccepted-delete (f ∷ fs) a b h = ground (arith, IsAccepted-delete fs a b h.1)

-- Every row is accepted, friendship goes both ways, and nobody is their own friend.
pub record FriendsOk (db : Database) : Type 0 where
  pub accepted_rows : All IsAccepted db.friends
  pub symmetric : (x y : ℕ) → is_friend db x y ≡ is_friend db y x
  pub irreflexive : (x : ℕ) → is_friend db x x ≡ false

add_friend_adds :
    (db : Database) (a b : ℕ)
    → (add_friend db a b).1 ≡ none
    → ((add_friend db a b).0.friends ≡ insert_friend (insert_friend db.friends a b) b a) × (a ≢ b)
unfolding add_friend
add_friend_adds db a b h = (ground arith, ground arith)

-- An addition that fails changes nothing.
pub add_friend_error_keeps :
    (db : Database) (a b : ℕ) (e : DbError)
    → (add_friend db a b).1 ≡ some e
    → (add_friend db a b).0 ≡ db
unfolding add_friend
add_friend_error_keeps db a b e h = ground arith

-- The transaction commits where both deletions found a row, and else leaves the database alone.
pub remove_friend_lem :
    (db : Database) (a b : ℕ)
    → remove_friend db a b ≡ (
        if any (is_row a b) db.friends && any (is_row b a) (delete_friend db.friends a b)
        then (record db { friends = delete_friend (delete_friend db.friends a b) b a }, none)
        else (db, some friend_not_found))
unfolding remove_friend in_transaction delete_pairs
remove_friend_lem db a b = ground arith

any_row-delete :
    (rows : List Friend) (a b x y : ℕ)
    → any (is_row x y) (delete_friend rows a b) ≡ (any (is_row x y) rows && not (a == x && b == y))
unfolding delete_friend any select
any_row-delete [] a b x y = refl
any_row-delete (f ∷ fs) a b x y = ground (arith, any_row-delete fs a b x y)

-- In any table, a removal succeeds exactly where both directions have a row and the users are two; and
-- where it does not succeed, the database is what it was, the row of the first direction included.
pub remove_friend_whole :
    (db : Database) (a b : ℕ)
    → (((remove_friend db a b).1 ≡ none)
        ↔ ((any (is_row a b) db.friends ≡ true) × (any (is_row b a) db.friends ≡ true) × (a ≢ b)))
      × (((remove_friend db a b).1 ≡ none) ⊎ ((remove_friend db a b).0 ≡ db))
remove_friend_whole db a b =
    let second = any_row-delete db.friends a b b a in
    (
      (
        λ h. ground (arith, remove_friend_lem db a b, second),
        λ h. ground (arith, remove_friend_lem db a b, second),
      ),
      ground (arith, remove_friend_lem db a b),
    )

remove_friend_removes :
    (db : Database) (a b : ℕ)
    → (remove_friend db a b).1 ≡ none
    → (remove_friend db a b).0.friends ≡ delete_friend (delete_friend db.friends a b) b a
remove_friend_removes db a b h = ground (arith, remove_friend_lem db a b)

remove_friend_error_keeps :
    (db : Database) (a b : ℕ) (e : DbError)
    → (remove_friend db a b).1 ≡ some e
    → (remove_friend db a b).0 ≡ db
remove_friend_error_keeps db a b e h = ground (arith, remove_friend_lem db a b)

module _ (db : Database) (v : FriendsOk db) (a b : ℕ) where
  -- After a successful `AddFriend` the two are friends, in both directions, and nobody else's
  -- friendship has changed.
  pub is_friend-add_friend :
      (add_friend db a b).1 ≡ none
      → (x y : ℕ)
      → is_friend (add_friend db a b).0 x y
        ≡ (is_friend db x y || (a == x && b == y) || (b == x && a == y))
  unfolding is_friend has
  is_friend-add_friend h x y =
      let rows = insert_friend db.friends a b in
      rw ((add_friend_adds db a b h).0) (
        ground (
          arith,
          has-insert db.friends a b x y v.accepted_rows,
          has-insert rows b a x y (IsAccepted-insert db.friends a b v.accepted_rows),
        ))

  -- `RemoveFriend` succeeds exactly for friends.
  pub remove_friend_iff : ((remove_friend db a b).1 ≡ none) ↔ (is_friend db a b ≡ true)
  unfolding remove_friend is_friend has
  remove_friend_iff =
      let once =
        any_row-eq-has (delete_friend db.friends a b) b a
          (IsAccepted-delete db.friends a b v.accepted_rows) in
      let same = any_row-eq-has db.friends a b v.accepted_rows in
      let gone = has-delete db.friends a b b a in
      let both = v.symmetric a b in
      let none_self = v.irreflexive a in
      (λ h. ground (arith, same), λ h. ground (arith, same, once, gone, both, none_self))

  -- After a successful `RemoveFriend` the two are not friends, in either direction, and nobody else's
  -- friendship has changed.
  pub is_friend-remove_friend :
      (remove_friend db a b).1 ≡ none
      → (x y : ℕ)
      → is_friend (remove_friend db a b).0 x y
        ≡ (is_friend db x y && not (a == x && b == y) && not (b == x && a == y))
  unfolding is_friend has
  is_friend-remove_friend h x y = rw (remove_friend_removes db a b h) (
      ground
        (arith, has-delete db.friends a b x y, has-delete (delete_friend db.friends a b) b a x y))

  pub add_friend-FriendsOk : FriendsOk (add_friend db a b).0
  add_friend-FriendsOk = elim (Option-cases (add_friend db a b).1) [
    | inr (e, failed) ↦ subst FriendsOk (sym (add_friend_error_keeps db a b e failed)) v
    | inl done ↦
        let (rows, apart) = add_friend_adds db a b done in
        record {
          accepted_rows = rw rows (
              IsAccepted-insert (insert_friend db.friends a b) b a
                (IsAccepted-insert db.friends a b v.accepted_rows));
          symmetric = λ x y.
              rw (is_friend-add_friend done x y, is_friend-add_friend done y x)
                (ground (arith, v.symmetric x y));
          irreflexive = λ x. rw (is_friend-add_friend done x x) (ground (arith, v.irreflexive x));
        }
  ]

  pub remove_friend-FriendsOk : FriendsOk (remove_friend db a b).0
  remove_friend-FriendsOk = elim (Option-cases (remove_friend db a b).1) [
    | inr (e, failed) ↦ subst FriendsOk (sym (remove_friend_error_keeps db a b e failed)) v
    | inl done ↦ record {
      accepted_rows = rw (remove_friend_removes db a b done) (
          IsAccepted-delete (delete_friend db.friends a b) b a
            (IsAccepted-delete db.friends a b v.accepted_rows));
      symmetric = λ x y.
          rw (is_friend-remove_friend done x y, is_friend-remove_friend done y x)
            (ground (arith, v.symmetric x y));
      irreflexive = λ x. rw (is_friend-remove_friend done x x) (ground (arith, v.irreflexive x));
    }
  ]

pub empty-FriendsOk : (foreign_keys : Bool) → FriendsOk (empty_database foreign_keys)
unfolding empty_database is_friend any
empty-FriendsOk foreign_keys = record {
  accepted_rows = tt;
  symmetric = λ x y. refl;
  irreflexive = λ x. refl;
}
