-- ===== src/Db/Invariant.antt =====
-- internal/db/db.go: the whole database under any sequence of calls that write.
pub mod Tables
use im_system.Common.{
  ℕ, suc, ◌<◌, ◌≡◌, refl, sym, Bool, true, Option, List, [], ◌∷◌, arith, Text, All, All-append,
  Option-cases, inl, inr, subst,
}
use im_system.Model.{DbMessage}
use im_system.Db.{Database, ok, empty_database}
use im_system.Db.Users.{
  Bcrypt, register_user, create_default_users, create_default_users_in, create_default_user,
  DefaultUser, default_users, update_user_avatar, update_user_profile,
}
use im_system.Db.Users.Rows.{UsersOk, register-UsersOk, create_default_user-UsersOk, empty-UsersOk}
use im_system.Db.Users.Updates.{update_user_avatar-UsersOk, update_user_profile-UsersOk}
use im_system.Db.Groups.{create_group, join_group, leave_group}
use im_system.Db.Groups.Membership.{GroupsOk}
use im_system.Db.Groups.Rows.{
  create_group-GroupsOk, join_group-GroupsOk, leave_group-GroupsOk, empty-GroupsOk, Result-cases,
}
use im_system.Db.Friends.{add_friend, remove_friend, is_friend}
use im_system.Db.Friends.Symmetric.{
  FriendsOk, add_friend-FriendsOk, remove_friend-FriendsOk, empty-FriendsOk,
}
use im_system.Db.Messages.{save_message, kind_holds}
use im_system.Db.Messages.Search.{save_appends, save_error_keeps}
use Tables.{
  MessageOk, DbOk, UsersOk-eq, GroupsOk-eq, FriendsOk-eq, MessagesOk-eq, SameUsers, SameGroups,
  SameMessages, OnlyUsers, OnlyGroups, OnlyFriends, only_users, only_groups, only_friends,
  create_frame, join_frame, leave_frame, add_friend_frame, remove_friend_frame, avatar_frame,
  profile_frame,
}

-- The calls that write.
pub data Write : Type 0 where
  registers : ℕ → ℕ → Text → Text → Text → Write
  creates_default_users : ℕ → ℕ → Write
  sets_avatar : Text → Text → Write
  sets_profile : Text → Text → Text → Write
  creates_group : ℕ → Text → ℕ → Text → Write
  joins_group leaves_group : Text → ℕ → Write
  saves_message : ℕ → ℕ → Option ℕ → Option ℕ → Text → Text → Write
  adds_friend removes_friend : ℕ → ℕ → Write

module _ (b : Bcrypt) where
  unfoldable pub write : Database → Write → Database
  write db (registers salt now username password avatar) =
      (register_user b db salt now username password avatar).0
  write db (creates_default_users salt now) = (create_default_users b db salt now).0
  write db (sets_avatar username avatar) = update_user_avatar db username avatar
  write db (sets_profile username gender signature) =
      update_user_profile db username gender signature
  write db (creates_group now name creator about) = (create_group db now name creator about).0
  write db (joins_group name user) = (join_group db name user).0
  write db (leaves_group name user) = (leave_group db name user).0
  write db (saves_message now from to group content kind) =
      (save_message db now from to group content kind).0
  write db (adds_friend a c) = (add_friend db a c).0
  write db (removes_friend a c) = (remove_friend db a c).0

  unfoldable pub writes : Database → List Write → Database
  unfolding write
  writes db [] = db
  writes db (w ∷ ws) = writes (write db w) ws

register_frame :
    (b : Bcrypt) (db : Database) (salt now : ℕ) (name password avatar : Text)
    → OnlyUsers db (register_user b db salt now name password avatar).0
unfolding register_user
register_frame b db salt now name password avatar = ground arith

default_frame :
    (b : Bcrypt) (db : Database) (salt now : ℕ) (name password avatar gender about : Text)
    → OnlyUsers db (create_default_user b db salt now name password avatar gender about).0
unfolding create_default_user
default_frame b db salt now name password avatar gender about = ground arith

module _ (b : Bcrypt) where
  default_users-DbOk :
      (db : Database) (salt now : ℕ) (ds : List DefaultUser)
      → DbOk db
      → DbOk (create_default_users_in b db salt now ds).0
  unfolding create_default_users_in
  default_users-DbOk db salt now [] v = v
  default_users-DbOk db salt now (d ∷ ds) v =
      let r =
        create_default_user b db salt now d.username d.password d.avatar d.gender d.signature in
      let kept : DbOk r.0 =
        only_users (default_frame b db salt now d.username d.password d.avatar d.gender d.signature)
          v
          (create_default_user-UsersOk b db salt now d.username d.password d.avatar d.gender
            d.signature v.users_ok) in
      elim (Option-cases r.1) [
        | inr (e, failed) ↦ rw (failed, create_default_users_in) kept
        | inl went_on ↦
            rw (went_on, create_default_users_in) (default_users-DbOk r.0 salt now ds kept)
      ]

messages_mono : (n : ℕ) (ms : List DbMessage) → All (MessageOk n) ms → All (MessageOk (suc n)) ms
messages_mono n [] h = tt
messages_mono n (m ∷ ms) h = ((omega arith, h.0.1), messages_mono n ms h.1)

save_kind :
    (db : Database) (now from : ℕ) (to group : Option ℕ) (content kind : Text) (m : DbMessage)
    → (save_message db now from to group content kind).1 ≡ ok m
    → kind_holds kind ≡ true
unfolding save_message
save_kind db now from to group content kind m h = ground arith

pub save-DbOk :
    (db : Database) (now from : ℕ) (to group : Option ℕ) (content kind : Text)
    → DbOk db
    → DbOk (save_message db now from to group content kind).0
save-DbOk db now from to group content kind v =
    elim (Result-cases (save_message db now from to group content kind).1) [
      | inr (e, failed) ↦
          subst DbOk (sym (save_error_keeps db now from to group content kind e failed)) v
      | inl (m, saved) ↦
          let (e, row) = save_appends db now from to group content kind m saved in
          let row_ok : MessageOk (suc db.next_message) m = (
            ground (arith, row),
            ground (arith, row, save_kind db now from to group content kind m saved),
          ) in
          subst DbOk (sym e) (record {
            users_ok = UsersOk-eq {a = db} refl refl v.users_ok;
            groups_ok = GroupsOk-eq {a = db} refl refl refl v.groups_ok;
            friends_ok = FriendsOk-eq {a = db} refl v.friends_ok;
            messages_ok =
                All-append (MessageOk (suc db.next_message)) db.messages (m ∷ [])
                  (messages_mono db.next_message db.messages v.messages_ok) (row_ok, tt);
          })
    ]

pub set_avatar-DbOk :
    (db : Database) (username avatar : Text)
    → DbOk db
    → DbOk (update_user_avatar db username avatar)
set_avatar-DbOk db username avatar v =
    only_users (avatar_frame db username avatar) v
      (update_user_avatar-UsersOk db username avatar v.users_ok)

pub set_profile-DbOk :
    (db : Database) (username gender signature : Text)
    → DbOk db
    → DbOk (update_user_profile db username gender signature)
set_profile-DbOk db username gender signature v =
    only_users (profile_frame db username gender signature) v
      (update_user_profile-UsersOk db username gender signature v.users_ok)

pub create_group-DbOk :
    (db : Database) (now : ℕ) (name : Text) (creator : ℕ) (about : Text)
    → DbOk db
    → DbOk (create_group db now name creator about).0
create_group-DbOk db now name creator about v =
    only_groups (create_frame db now name creator about) v
      (create_group-GroupsOk db now name creator about v.groups_ok)

pub join_group-DbOk :
    (db : Database) (name : Text) (user : ℕ) → DbOk db → DbOk (join_group db name user).0
join_group-DbOk db name user v =
    only_groups (join_frame db name user) v (join_group-GroupsOk db name user v.groups_ok)

pub leave_group-DbOk :
    (db : Database) (name : Text) (user : ℕ) → DbOk db → DbOk (leave_group db name user).0
leave_group-DbOk db name user v =
    only_groups (leave_frame db name user) v (leave_group-GroupsOk db name user v.groups_ok)

pub add_friend-DbOk : (db : Database) (a c : ℕ) → DbOk db → DbOk (add_friend db a c).0
add_friend-DbOk db a c v =
    only_friends (add_friend_frame db a c) v (add_friend-FriendsOk db v.friends_ok a c)

pub remove_friend-DbOk : (db : Database) (a c : ℕ) → DbOk db → DbOk (remove_friend db a c).0
remove_friend-DbOk db a c v =
    only_friends (remove_friend_frame db a c) v (remove_friend-FriendsOk db v.friends_ok a c)

module _ (b : Bcrypt) where
  pub register-DbOk :
      (db : Database) (salt now : ℕ) (username password avatar : Text)
      → DbOk db
      → DbOk (register_user b db salt now username password avatar).0
  register-DbOk db salt now username password avatar v =
      only_users (register_frame b db salt now username password avatar) v
        (register-UsersOk b db salt now username password avatar v.users_ok)

  write-DbOk : (db : Database) (w : Write) → DbOk db → DbOk (write b db w)
  unfolding write
  write-DbOk db (registers salt now username password avatar) v =
      register-DbOk db salt now username password avatar v
  write-DbOk db (creates_default_users salt now) v =
      unfold create_default_users in default_users-DbOk b db salt now default_users v
  write-DbOk db (sets_avatar username avatar) v = set_avatar-DbOk db username avatar v
  write-DbOk db (sets_profile username gender signature) v =
      set_profile-DbOk db username gender signature v
  write-DbOk db (creates_group now name creator about) v =
      create_group-DbOk db now name creator about v
  write-DbOk db (joins_group name user) v = join_group-DbOk db name user v
  write-DbOk db (leaves_group name user) v = leave_group-DbOk db name user v
  write-DbOk db (saves_message now from to group content kind) v =
      save-DbOk db now from to group content kind v
  write-DbOk db (adds_friend a c) v = add_friend-DbOk db a c v
  write-DbOk db (removes_friend a c) v = remove_friend-DbOk db a c v

  writes-DbOk : (db : Database) (ws : List Write) → DbOk db → DbOk (writes b db ws)
  unfolding writes
  writes-DbOk db [] v = v
  writes-DbOk db (w ∷ ws) v = writes-DbOk (write b db w) ws (write-DbOk db w v)

  empty-DbOk : (foreign_keys : Bool) → DbOk (empty_database foreign_keys)
  unfolding empty_database
  empty-DbOk foreign_keys = record {
    users_ok = empty-UsersOk foreign_keys;
    groups_ok = empty-GroupsOk foreign_keys;
    friends_ok = empty-FriendsOk foreign_keys;
    messages_ok = tt;
  }

  -- From a fresh file, whatever is written in whatever order: no two users share a name or an id, no
  -- two groups do, friendship is symmetric and never with oneself, every membership names a group id
  -- that has been given out, and every message has an id that has been given out and one of the three
  -- kinds.
  pub database_stays_ok :
      (foreign_keys : Bool) (ws : List Write) → DbOk (writes b (empty_database foreign_keys) ws)
  database_stays_ok foreign_keys ws =
      writes-DbOk (empty_database foreign_keys) ws (empty-DbOk foreign_keys)
