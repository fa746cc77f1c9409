-- ===== src/Server/Socket/Tests.antt =====
-- An account with a session opens a socket.
use im_system.Text.Trim.{trim_space}
use im_system.Db.Groups.{create_group}
use im_system.Db.Friends.{add_friend}
use im_system.Db.Messages.{save_message}
use im_system.Db.Users.{get_user_by_username, register_user}
use im_system.Common.{
  ◌≡◌, refl, none, some, [], ◌∷◌, Text, get_elem?, lookup, text_eq, insert, ◌==◌, false,
}
use im_system.Db.{ok}
use im_system.Server.Objects.{applied}
use im_system.Session.{get_username, create, new_memory_session_store}
use im_system.Model.{UserPublic}
use im_system.Db.Samples.{bob, history, salted}
use im_system.Server.{Server}
use im_system.Server.Samples.{idle, at_ten}
use im_system.Server.Socket.{new_client, ws_connect, ws_disconnect}
use im_system.Server.Socket.Reconnect.{
  cancelled_client, ws_connect_registers, former_end_cancels_new,
}

abbrev tok : Text
tok = b't' ∷ []

abbrev with_session : Server
unfolding idle create
with_session = record idle { sessions = (create new_memory_session_store (some tok) 0 bob 100).0 }

-- Bob is connected, and connects again.
abbrev once : Server
unfolding with_session
once = (ws_connect at_ten with_session (some tok) []).0

ws_connect_registers_example :
    let twice = (ws_connect at_ten once (some tok) []).0 in
    ((get_username once.sessions 10 tok).1 ≡ some bob)
    × (lookup bob twice.ws_conns ≡ some 1)
    × ((info : UserPublic) × (get_user_by_username once.db bob ≡ ok info)
        × (get_elem? twice.clients 0 ≡ applied cancelled_client (get_elem? once.clients 0)))
    × (get_elem? once.clients 1 ≡ none)
unfolding ws_connect text_eq lookup with_session insert get_user_by_username history save_message
    add_friend create_group trim_space register_user salted once
ws_connect_registers_example = ws_connect_registers at_ten once tok [] bob bob 1 0 refl

former_end_cancels_new_example :
    let twice = (ws_connect at_ten once (some tok) []).0 in
    let ended = ws_disconnect twice bob in
    ((0 == 1) ≡ false)
    × ((old : UserPublic) × (get_elem? twice.clients 0
          ≡ some (cancelled_client (new_client bob old []))))
    × (lookup bob twice.ws_conns ≡ some 1)
    × (lookup bob ended.ws_conns ≡ none)
    × ((info : UserPublic) × (get_elem? twice.clients 1 ≡ some (new_client bob info []))
        × (get_elem? ended.clients 1 ≡ some (cancelled_client (new_client bob info []))))
unfolding ws_connect text_eq lookup with_session insert get_user_by_username history save_message
    add_friend create_group trim_space register_user salted once
former_end_cancels_new_example =
    former_end_cancels_new at_ten at_ten with_session tok tok [] [] bob 0 1 refl refl
