-- ===== src/Server/Socket.antt =====
-- internal/server/wss.go: a WebSocket connection from its authentication to its end. What the socket
-- reads is an argument, decoded from JSON, or `none` where the decoding fails. The answer `auth_ok` goes
-- to the socket directly and past the queue, so it is left out.
pub mod Steps
pub mod Reconnect
mod Tests
use im_system.Common.{
  ℕ, Bool, true, false, not, Option, none, some, List, [], ◌∷◌, ◌++◌, if◌then◌else◌, Text, text_eq,
  get_elem?,
}
use im_system.Text.{bytes}
use im_system.Text.Trim.{trim_space}
use im_system.Sanitize.{sanitize_input_with_limit}
use im_system.RateLimiter.{RateLimiter, allow}
use im_system.Session.{get_username}
use im_system.Model.{UserPublic}
use im_system.Db.{ok, err}
use im_system.Db.Users.{get_user_by_username}
use im_system.Server.{WsOutgoing, WsClient, Server, Env, write_ws}
use im_system.Server.Presence.{add_ws_client, remove_ws_client}
use im_system.Server.Broadcast.{send_private, broadcast_to_group, broadcast_from_web}
use im_system.Server.Commands.Groups.{send_error_text}

pub record WsIncoming : Type 0 where
  pub kind : Text
  pub mode : Text
  pub to : Text
  pub message : Text

abbrev pub ws_note : Text → Text → WsOutgoing
ws_note kind content = record {
  kind = kind;
  mode = [];
  from = [];
  to = [];
  group = [];
  avatar = [];
  content = content;
  time = [];
}

abbrev pub ws_sent : Text → Text → Text → WsOutgoing
ws_sent to content time = record {
  kind = bytes "sent";
  mode = bytes "private";
  from = [];
  to = to;
  group = [];
  avatar = [];
  content = content;
  time = time;
}

abbrev pub new_client : Text → UserPublic → Text → WsClient
new_client username info ip = record {
  name = username;
  avatar = info.avatar;
  remote_ip = ip;
  queue = [];
  cancelled = false;
}

-- `handleWebSocket` up to its read loop: the name and the pointer of the client, if there is one. The
-- former client of the name is removed before its account is looked up.
unfoldable pub ws_connect : Env → Server → Option Text → Text → Server × Option (Text × ℕ)
unfolding get_username remove_ws_client add_ws_client
ws_connect env s none ip = (s, none)
ws_connect env s (some token) ip =
    if text_eq token []
    then (s, none)
    else (let (store, owner) = get_username s.sessions env.now token in
        let looked = record s { sessions = store } in
        elim owner [
          | none ↦ (looked, none)
          | some username ↦
              let cleared = remove_ws_client looked username in
              elim (get_user_by_username cleared.db username) [
                | err e ↦ (cleared, none)
                | ok info ↦
                    let (s', c) = add_ws_client cleared (new_client username info ip) in
                    (s', some (username, c))
              ]
        ])

-- The `defer` of `handleWebSocket`: it removes whoever has the name that the connection began with.
unfoldable pub ws_disconnect : Server → Text → Server
unfolding remove_ws_client
ws_disconnect s username = remove_ws_client s username

unfoldable pub ws_private_message : Env → Server → ℕ → WsClient → Text → Text → Server
unfolding write_ws trim_space send_private
ws_private_message env s c client target content =
    let to = trim_space target in
    if text_eq to []
    then write_ws s c (ws_note (bytes "error") (bytes "missing recipient"))
    else (let (s', e) = send_private env s client.name to content client.avatar in
        elim e [
          | some e ↦ write_ws s' c (ws_note (bytes "error") (send_error_text e))
          | none ↦ write_ws s' c (ws_sent to content env.label)
        ])

unfoldable pub ws_group_message : Env → Server → ℕ → WsClient → Text → Text → Server
unfolding write_ws trim_space broadcast_to_group
ws_group_message env s c client target content =
    let group_name = trim_space target in
    if text_eq group_name []
    then write_ws s c (ws_note (bytes "error") (bytes "missing group name"))
    else (let (s', e) = broadcast_to_group env s group_name client.name content client.avatar in
        elim e [ some e ↦ write_ws s' c (ws_note (bytes "error") (send_error_text e)) | none ↦ s' ])

unfoldable pub handle_ws_message : Env → Server → ℕ → WsClient → WsIncoming → Server
unfolding allow write_ws trim_space ws_private_message ws_group_message broadcast_from_web
handle_ws_message env s c client incoming =
    let (limiter, pass) = allow s.send_limiter env.now client.remote_ip in
    let s' = record s { send_limiter = limiter } in
    if not pass
    then write_ws s' c (ws_note (bytes "error") (bytes "消息发送过于频繁，请稍后再试"))
    else if text_eq (trim_space incoming.message) []
    then s'
    else (let content = sanitize_input_with_limit (trim_space incoming.message) s'.max_msg_length in
        if text_eq incoming.mode (bytes "private")
        then ws_private_message env s' c client incoming.to content
        else if text_eq incoming.mode (bytes "group")
        then ws_group_message env s' c client incoming.to content
        else broadcast_from_web env s' client.name content client.avatar)

-- One round of the read loop.
unfoldable pub ws_read : Env → Server → ℕ → Option WsIncoming → Server
unfolding write_ws handle_ws_message
ws_read env s c none = write_ws s c (ws_note (bytes "error") (bytes "invalid message format"))
ws_read env s c (some incoming) = elim (get_elem? s.clients c) [
  | none ↦ s
  | some client ↦
      if text_eq incoming.kind (bytes "send")
      then handle_ws_message env s c client incoming
      else if text_eq incoming.kind (bytes "ping")
      then write_ws s c (ws_note (bytes "pong") [])
      else write_ws s c (ws_note (bytes "error") (bytes "unknown message type"))
]
