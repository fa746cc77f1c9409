-- ===== src/Db/Tests.antt =====
-- The theorems on the database at the small one of Samples.
use im_system.Text.Trim.{trim_space}
use im_system.Common.{
  ℕ, ◌≢◌, ◌⊎◌, ◌≡◌, ◌↔◌, refl, true, false, ◌&&◌, none, some, [], ◌∷◌, arith, ◌==◌, Text, text_eq,
  any,
}
use im_system.Model.{UserPublic, DbMessageExt}
use im_system.Db.{Database, ok, friend_not_found}
use im_system.Db.Users.{register_user, authenticate_user, user_row, select_user_id}
use im_system.Db.Users.Accounts.{CanRegister, register_iff, register_then_authenticate}
use im_system.Db.Groups.{create_group, join_group, leave_group, get_group_members}
use im_system.Db.Groups.Membership.{
  is_member, is_member-join_group, is_member-leave_group, is_member-create_group,
}
use im_system.Db.Groups.Listing.{get_group_members_exact}
use im_system.Db.Friends.{
  add_friend, remove_friend, is_friend, accepted, is_row, in_transaction, delete_pairs,
}
use im_system.Db.Friends.Symmetric.{
  is_friend-add_friend, is_friend-remove_friend, remove_friend_whole,
}
use im_system.Db.Messages.{
  public_kind, private_kind, save_message, rows, public_row, search_row, get_public_messages,
  search_messages,
}
use im_system.Db.Messages.Like.{like}
use im_system.Db.Messages.Search.{saved_is_found, saved_is_in_history}
use im_system.Db.Invariant.{writes, database_stays_ok}
use im_system.Db.Invariant.Tables.{DbOk}
use im_system.Db.Samples.{
  salted, plain_bcrypt, by_time, ann, bob, eve, club, secret, hello, history, start,
}

database_stays_ok_example : DbOk start
unfolding start writes
database_stays_ok_example = database_stays_ok plain_bcrypt true history

register_iff_example :
    ((register_user plain_bcrypt start 9 6 eve secret []).1 ≡ none)
    ↔ CanRegister plain_bcrypt start 9 eve secret
register_iff_example = register_iff plain_bcrypt start 9 6 eve secret []

register_then_authenticate_example :
    ((hash : Text) × (authenticate_user plain_bcrypt
          (register_user plain_bcrypt start 9 6 eve secret []).0
          eve
          secret
        ≡ ok (user_row 3 6 eve hash [] [] [])))
    × (authenticate_user plain_bcrypt
          (register_user plain_bcrypt start 9 6 eve secret []).0
          bob
          secret
        ≡ authenticate_user plain_bcrypt start bob secret)
unfolding start register_user text_eq salted history save_message add_friend create_group trim_space
register_then_authenticate_example =
    register_then_authenticate plain_bcrypt start 9 6 eve secret [] bob secret refl refl

is_member-join_group_example : is_member (join_group start club 2).0 club 2 ≡ true
unfolding start is_member join_group text_eq history save_message add_friend create_group trim_space
    register_user salted
is_member-join_group_example =
    is_member-join_group start database_stays_ok_example.groups_ok club 2 refl club 2

is_member-leave_group_example : is_member (leave_group start club 1).0 club 1 ≡ false
unfolding start is_member leave_group text_eq history save_message add_friend create_group
    trim_space register_user salted
is_member-leave_group_example =
    is_member-leave_group start database_stays_ok_example.groups_ok club 1 refl club 1

is_member-create_group_example : is_member (create_group start 6 hello 2 []).0 hello 2 ≡ true
unfolding start create_group text_eq trim_space history save_message add_friend register_user salted
is_member-create_group_example =
    is_member-create_group start database_stays_ok_example.groups_ok hello 2 6 [] _ refl hello 2

get_group_members_exact_example :
    any (λ (u : UserPublic). u.id == 1) (get_group_members start club) ≡ true
unfolding start is_member select_user_id text_eq history save_message add_friend create_group
    trim_space register_user salted
get_group_members_exact_example =
    get_group_members_exact start club 1 database_stays_ok_example.groups_ok

is_friend-add_friend_example : is_friend (add_friend start 2 1).0 1 2 ≡ true
unfolding start add_friend is_friend history save_message text_eq create_group trim_space
    register_user salted accepted
is_friend-add_friend_example =
    is_friend-add_friend start database_stays_ok_example.friends_ok 2 1 refl 1 2

is_friend-remove_friend_example : is_friend (remove_friend start 2 1).0 1 2 ≡ false
unfolding start remove_friend in_transaction delete_pairs is_friend history save_message text_eq
    add_friend create_group trim_space register_user salted accepted
is_friend-remove_friend_example =
    is_friend-remove_friend start database_stays_ok_example.friends_ok 2 1 refl 1 2

-- A table that holds one direction only: the second deletion finds nothing.
abbrev one_way : Database
unfolding start accepted
one_way = record start { friends = record { user_id = 2; friend_id = 1; status = accepted } ∷ [] }

first_deleted :
    delete_pairs one_way ((2, 1) ∷ (1, 2) ∷ [])
    ≡ (record one_way { friends = [] }, some friend_not_found)
unfolding one_way delete_pairs start
first_deleted = refl

remove_friend_whole_example :
    (((remove_friend one_way 2 1).1 ≡ none) ↔ (
      (any (is_row 2 1) one_way.friends ≡ true)
      × (any (is_row 1 2) one_way.friends ≡ true)
      × (◌≢◌ {A = ℕ} 2 1)))
    × (((remove_friend one_way 2 1).1 ≡ none) ⊎ ((remove_friend one_way 2 1).0 ≡ one_way))
remove_friend_whole_example = remove_friend_whole one_way 2 1

saved_is_found_example :
    any
      (λ (r : DbMessageExt). r.id == 4 && text_eq r.content secret)
      (search_messages by_time
        (save_message start 6 1 (some 2) none secret private_kind).0
        (b'e' ∷ b'C' ∷ [])
        50)
    ≡ true
unfolding start save_message private_kind text_eq public_kind history add_friend create_group
    trim_space register_user salted like rows search_row
saved_is_found_example =
    saved_is_found by_time start 6 1 (some 2) none secret private_kind (b'e' ∷ b'C' ∷ []) 50 _ _
      refl refl refl (omega arith) (omega arith)

saved_is_in_history_example :
    any
      (λ (r : DbMessageExt). r.id == 4 && text_eq r.from ann && text_eq r.content secret)
      (get_public_messages by_time (save_message start 6 1 none none secret public_kind).0 50 0)
    ≡ true
unfolding start save_message public_kind text_eq history add_friend create_group trim_space
    register_user salted rows public_row
saved_is_in_history_example =
    saved_is_in_history by_time start 6 1 none none secret 50 _ _ refl refl (omega arith)
