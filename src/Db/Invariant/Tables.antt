-- ===== src/Db/Invariant/Tables.antt =====
-- internal/db/db.go: all tables in order, and the tables that a method leaves alone.
use im_system.Common.{ℕ, ◌<◌, ◌≡◌, true, arith, Text, All}
use im_system.Model.{DbMessage}
use im_system.Db.{Database}
use im_system.Db.Users.{update_user_avatar, update_user_profile}
use im_system.Db.Users.Rows.{UsersOk}
use im_system.Db.Groups.{create_group, join_group, leave_group}
use im_system.Db.Groups.Membership.{GroupsOk}
use im_system.Db.Friends.{add_friend, remove_friend, is_friend}
use im_system.Db.Friends.Symmetric.{FriendsOk}
use im_system.Db.Messages.{kind_holds}

abbrev pub MessageOk : ℕ → DbMessage → Type 0
MessageOk next m = (m.id < next) × (kind_holds m.kind ≡ true)

pub record DbOk (db : Database) : Type 0 where
  pub users_ok : UsersOk db
  pub groups_ok : GroupsOk db
  pub friends_ok : FriendsOk db
  pub messages_ok : All (MessageOk db.next_message) db.messages

-- Each part of the invariant reads its own tables.
pub UsersOk-eq :
    {a c : Database} → a.users ≡ c.users → a.next_user ≡ c.next_user → UsersOk a → UsersOk c
UsersOk-eq {a} {c} p q v = record {
  fresh = rw (← p, ← q) v.fresh;
  ids = rw (← p) v.ids;
  names = rw (← p) v.names;
}

pub GroupsOk-eq :
    {a c : Database}
    → a.groups ≡ c.groups
    → a.next_group ≡ c.next_group
    → a.members ≡ c.members
    → GroupsOk a
    → GroupsOk c
GroupsOk-eq {a} {c} p q r v = record {
  fresh = rw (← p, ← q) v.fresh;
  ids = rw (← p) v.ids;
  names = rw (← p) v.names;
  rows = rw (← q, ← r) v.rows;
}

pub FriendsOk-eq : {a c : Database} → a.friends ≡ c.friends → FriendsOk a → FriendsOk c
unfolding is_friend
FriendsOk-eq {a} {c} p v = record {
  accepted_rows = rw (← p) v.accepted_rows;
  symmetric = λ x y. rw (← p) (v.symmetric x y);
  irreflexive = λ x. rw (← p) (v.irreflexive x);
}

pub MessagesOk-eq :
    (a c : Database)
    → a.messages ≡ c.messages
    → a.next_message ≡ c.next_message
    → All (MessageOk a.next_message) a.messages
    → All (MessageOk c.next_message) c.messages
MessagesOk-eq a c p q v = rw (← p, ← q) v

-- The tables that a call leaves alone.
pub record SameUsers (a c : Database) : Type 0 where
  pub users : a.users ≡ c.users
  pub next_user : a.next_user ≡ c.next_user

pub record SameGroups (a c : Database) : Type 0 where
  pub groups : a.groups ≡ c.groups
  pub next_group : a.next_group ≡ c.next_group
  pub members : a.members ≡ c.members

pub record SameMessages (a c : Database) : Type 0 where
  pub messages : a.messages ≡ c.messages
  pub next_message : a.next_message ≡ c.next_message

-- A call that writes to `users` only.
pub record OnlyUsers (a c : Database) : Type 0 where
  pub same_groups : SameGroups a c
  pub same_friends : a.friends ≡ c.friends
  pub same_messages : SameMessages a c

pub only_users : {a c : Database} → OnlyUsers a c → DbOk a → UsersOk c → DbOk c
only_users {a} {c} f v u = record {
  users_ok = u;
  groups_ok =
      GroupsOk-eq f.same_groups.groups f.same_groups.next_group f.same_groups.members v.groups_ok;
  friends_ok = FriendsOk-eq f.same_friends v.friends_ok;
  messages_ok =
      MessagesOk-eq a c f.same_messages.messages f.same_messages.next_message v.messages_ok;
}

pub record OnlyGroups (a c : Database) : Type 0 where
  pub same_users : SameUsers a c
  pub same_friends : a.friends ≡ c.friends
  pub same_messages : SameMessages a c

pub only_groups : {a c : Database} → OnlyGroups a c → DbOk a → GroupsOk c → DbOk c
only_groups {a} {c} f v g = record {
  users_ok = UsersOk-eq f.same_users.users f.same_users.next_user v.users_ok;
  groups_ok = g;
  friends_ok = FriendsOk-eq f.same_friends v.friends_ok;
  messages_ok =
      MessagesOk-eq a c f.same_messages.messages f.same_messages.next_message v.messages_ok;
}

pub record OnlyFriends (a c : Database) : Type 0 where
  pub same_users : SameUsers a c
  pub same_groups : SameGroups a c
  pub same_messages : SameMessages a c

pub only_friends : {a c : Database} → OnlyFriends a c → DbOk a → FriendsOk c → DbOk c
only_friends {a} {c} f v k = record {
  users_ok = UsersOk-eq f.same_users.users f.same_users.next_user v.users_ok;
  groups_ok =
      GroupsOk-eq f.same_groups.groups f.same_groups.next_group f.same_groups.members v.groups_ok;
  friends_ok = k;
  messages_ok =
      MessagesOk-eq a c f.same_messages.messages f.same_messages.next_message v.messages_ok;
}

pub create_frame :
    (db : Database) (now : ℕ) (name : Text) (u : ℕ) (about : Text)
    → OnlyGroups db (create_group db now name u about).0
unfolding create_group
create_frame db now name u about = ground arith

pub join_frame : (db : Database) (name : Text) (u : ℕ) → OnlyGroups db (join_group db name u).0
unfolding join_group
join_frame db name u = ground arith

pub leave_frame : (db : Database) (name : Text) (u : ℕ) → OnlyGroups db (leave_group db name u).0
unfolding leave_group
leave_frame db name u = ground arith

pub add_friend_frame : (db : Database) (a c : ℕ) → OnlyFriends db (add_friend db a c).0
unfolding add_friend
add_friend_frame db a c = ground arith

pub remove_friend_frame : (db : Database) (a c : ℕ) → OnlyFriends db (remove_friend db a c).0
unfolding remove_friend
remove_friend_frame db a c = ground arith

pub avatar_frame :
    (db : Database) (name avatar : Text) → OnlyUsers db (update_user_avatar db name avatar)
unfolding update_user_avatar
avatar_frame db name avatar = ground arith

pub profile_frame :
    (db : Database) (name gender about : Text)
    → OnlyUsers db (update_user_profile db name gender about)
unfolding update_user_profile
profile_frame db name gender about = ground arith
