-- ===== src/Server/Web/RequestTests.antt =====
-- Requests of two users who have a session each: a member leaves a group, friends are made, and a page
-- of private history is read.
use im_system.Db.Groups.Membership.{is_member}
use im_system.Db.Groups.{create_group}
use im_system.Db.Friends.{add_friend}
use im_system.Common.{
  ◌≤◌, ◌≡◌, ◌⊎◌, refl, true, false, arith, some, [], ◌∷◌, Text, lookup, text_eq, insert, any,
  length,
}
use im_system.Text.{bytes}
use im_system.Text.Trim.{trim_space}
use im_system.Session.{create, get_username, new_memory_session_store}
use im_system.Model.{UserPublic, DbGroup}
use im_system.Db.{ok}
use im_system.Db.Users.{register_user, get_user_by_username}
use im_system.Db.Groups.{get_group_by_name}
use im_system.Db.Messages.{save_message, get_private_messages}
use im_system.Db.Invariant.{writes, database_stays_ok}
use im_system.Db.Invariant.Tables.{DbOk}
use im_system.Db.Samples.{plain_bcrypt, by_time, ann, bob, club, start, history, salted}
use im_system.Server.{Server}
use im_system.Server.Samples.{idle, at_ten}
use im_system.Server.Web.{friendship}
use im_system.Server.Web.Request.{auth_query_middleware, query_token_first}
use im_system.Server.Web.Groups.{GroupBody, handle_group}
use im_system.Server.Web.Groups.Removal.{group_member_removed}
use im_system.Server.Web.Friends.{FriendBody, handle_friend, handle_check_friend}
use im_system.Server.Web.Friends.Seen.{friend_request_seen}
use im_system.Server.Web.History.{HistoryQuery, handle_history}
use im_system.Server.Web.History.Pages.{foreign, history_page_own}

start-DbOk : DbOk start
unfolding start writes
start-DbOk = database_stays_ok plain_bcrypt true history

abbrev tok : Text
tok = b't' ∷ []

abbrev with_session : Server
unfolding idle create
with_session = record idle { sessions = (create new_memory_session_store (some tok) 0 ann 100).0 }

abbrev leaves : GroupBody
leaves = record { token = tok; action = bytes "leave"; group_name = club; member_name = [] }

group_member_removed_example :
    (username : Text) × (u : UserPublic) × ((get_username with_session.sessions 10 tok).1
      ≡ some username)
    × (get_user_by_username with_session.db username ≡ ok u)
    × ((u.id ≡ 1)
        ⊎ ((g : DbGroup) × (get_group_by_name with_session.db club ≡ ok g) × (g.creator_id ≡ u.id)))
unfolding with_session idle is_member history save_message text_eq add_friend create_group
    trim_space register_user salted handle_group lookup insert
group_member_removed_example =
    group_member_removed at_ten with_session leaves club 1 start-DbOk.groups_ok refl refl

abbrev befriends : FriendBody
befriends = record { token = tok; action = bytes "remove"; friend = bob }

friend_request_seen_example :
    ((handle_check_friend
        (bytes "GET")
        bob
        (handle_friend at_ten with_session (some befriends)).0
        ann).1
      ≡ friendship false)
    × ((handle_check_friend
          (bytes "GET")
          ann
          (handle_friend at_ten with_session (some befriends)).0
          bob).1
        ≡ friendship false)
unfolding with_session idle text_eq bytes get_username lookup insert trim_space handle_friend
    history save_message create_group register_user salted
friend_request_seen_example =
    friend_request_seen at_ten with_session befriends ann start-DbOk.friends_ok refl refl refl

abbrev private_page : HistoryQuery
private_page = record {
  kind = bytes "private";
  group = [];
  peer = bob;
  limit = bytes "900";
  before = [];
}

history_page_own_example :
    (username : Text) × ((get_username with_session.sessions 10
        (query_token_first (bytes "Bearer t") [])).1
      ≡ some username)
    × (length (get_private_messages by_time start ann bob 200 0) ≤ 200)
    × (any (foreign (bytes "private") username) (get_private_messages by_time start ann bob 200 0)
        ≡ false)
unfolding with_session idle auth_query_middleware text_eq lookup insert handle_history
history_page_own_example =
    history_page_own by_time at_ten with_session (bytes "Bearer t") [] (bytes "GET") private_page
      (get_private_messages by_time start ann bob 200 0) (omega arith) refl
