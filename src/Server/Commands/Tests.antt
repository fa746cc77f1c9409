-- ===== src/Server/Commands/Tests.antt =====
-- A server on which two connections arrive and one of them logs in.
use im_system.Db.Groups.{create_group, get_group_members}
use im_system.Db.Friends.{add_friend}
use im_system.Common.{
  ◌≢◌, ◌↔◌, ◌⊎◌, false, any, ◌≡◌, refl, false, none, some, [], ◌∷◌, get_elem?, Text, text_eq,
  lookup, insert, without, retain,
}
use im_system.Text.{bytes}
use im_system.Text.Trim.{trim_space}
use im_system.Sanitize.{sanitize_input_with_limit}
use im_system.Model.{UserPublic}
use im_system.Db.{user_not_found}
use im_system.Db.Users.{get_user_by_username, register_user}
use im_system.Db.Messages.{save_message, private_kind}
use im_system.Server.Samples.{idle, idle-Live, at_ten}
use im_system.Db.Samples.{plain_bcrypt, ann, bob, eve, club, hello, history, salted}
use im_system.Server.{Server, receive, accept}
use im_system.Server.Objects.{applied}
use im_system.Server.Live.{Live}
use im_system.Server.Presence.{add_ws_client}
use im_system.Server.Presence.Consistent.{fanout_tcp_exact}
use im_system.Server.Broadcast.{
  fanout_tcp, send_private, ws_private, receiver_missing, sys_online, broadcast_to_group,
}
use im_system.Server.Broadcast.Group.{Untouched, group_message_private}
use im_system.Server.Broadcast.Private.{send_private_exact}
use im_system.Server.Broadcast.Refused.{is_account, send_private_refused}
use im_system.Server.Commands.{connect, read_line}
use im_system.Server.Commands.Reachable.{Reaches, stays, goes_on, connects, says, Reaches-Live}

abbrev first_addr : Text
first_addr = b'1' ∷ []

abbrev second_addr : Text
second_addr = b'2' ∷ []

abbrev one_there : Server
unfolding connect idle
one_there = (connect at_ten idle first_addr).0

abbrev two_there : Server
unfolding connect one_there
two_there = (connect at_ten one_there second_addr).0

two_there-reached : Reaches plain_bcrypt idle two_there
unfolding lookup idle connect text_eq sys_online insert without retain
two_there-reached =
    goes_on (goes_on stays (connects at_ten first_addr refl)) (connects at_ten second_addr refl)

abbrev logged_in : Server
unfolding read_line two_there
logged_in = read_line plain_bcrypt at_ten two_there 0 (bytes "login|ann|secret")

logged_in-reached : Reaches plain_bcrypt idle logged_in
unfolding two_there text_eq sys_online insert without retain read_line logged_in
logged_in-reached =
    goes_on two_there-reached
      (says at_ten 0 _ (bytes "login|ann|secret") (record { is_there = refl; is_open = refl }))

two_there-Live : Live two_there
two_there-Live = Reaches-Live plain_bcrypt idle two_there idle-Live two_there-reached

fanout_tcp_exact_example :
    (get_elem? (fanout_tcp two_there hello).users 1
      ≡ applied (receive hello) (get_elem? two_there.users 1))
    × (fanout_tcp two_there hello ≡ record two_there { users = (fanout_tcp two_there hello).users })
fanout_tcp_exact_example = fanout_tcp_exact two_there hello 1 two_there-Live.online_ok

abbrev with_bob : Server
unfolding add_ws_client two_there
with_bob =
    (add_ws_client two_there
      (record { name = bob; avatar = []; remote_ip = []; queue = []; cancelled = false })).0

abbrev ann_view : UserPublic
ann_view = record {
  id = 1;
  username = ann;
  avatar = [];
  gender = [];
  signature = [];
  created_at = 1;
}

abbrev bob_view : UserPublic
bob_view = record {
  id = 2;
  username = bob;
  avatar = [];
  gender = [];
  signature = [];
  created_at = 2;
}

send_private_exact_example :
    ((send_private at_ten with_bob ann bob hello []).1 ≡ none)
    × (get_elem? (send_private at_ten with_bob ann bob hello []).0.users 0
        ≡ get_elem? with_bob.users 0)
    × (get_elem? (send_private at_ten with_bob ann bob hello []).0.clients 0
        ≡ applied
            (accept (ws_private ann bob [] (sanitize_input_with_limit hello 500) []))
            (get_elem? with_bob.clients 0))
    × ((send_private at_ten with_bob ann bob hello []).0.db
        ≡ (save_message with_bob.db 10 1
            (some 2)
            none
            (sanitize_input_with_limit hello 500)
            private_kind).0)
unfolding get_user_by_username with_bob text_eq sys_online insert without retain history
    save_message add_friend create_group trim_space register_user salted lookup
send_private_exact_example =
    send_private_exact at_ten with_bob ann bob hello [] ann_view bob_view 0 0 refl refl

-- Nobody has the name eve.
send_private_refused_example :
    (((send_private at_ten two_there ann eve hello []).1 ≢ none)
      ↔ ((is_account two_there.db ann ≡ false) ⊎ (is_account two_there.db eve ≡ false)))
    × (((send_private at_ten two_there ann eve hello []).1 ≡ none)
        ⊎ ((send_private at_ten two_there ann eve hello []).0 ≡ two_there))
send_private_refused_example = send_private_refused at_ten two_there ann eve hello []

is_refused :
    (send_private at_ten two_there ann eve hello []).1 ≡ some (receiver_missing user_not_found)
unfolding send_private get_user_by_username two_there text_eq sys_online insert without retain
    history save_message add_friend create_group trim_space register_user salted
is_refused = refl

group_message_private_example :
    Untouched 0 0 with_bob (broadcast_to_group at_ten with_bob club ann hello []).0
unfolding any get_group_members with_bob text_eq sys_online insert without retain
    get_user_by_username history save_message add_friend create_group trim_space register_user
    salted lookup
group_message_private_example =
    group_message_private at_ten with_bob club ann hello [] 0 0 refl refl
