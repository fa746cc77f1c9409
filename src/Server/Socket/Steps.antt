-- ===== src/Server/Socket/Steps.antt =====
-- internal/server/wss.go: the steps of a WebSocket connection and the invariant of a running server.
use im_system.Common.{
  true, ℕ, refl, false, not, Option, none, some, [], Text, text_eq, get_elem?, lookup, Bool-cases,
  Option-cases, inl, inr,
}
use im_system.Text.{bytes}
use im_system.Text.Trim.{trim_space}
use im_system.Sanitize.{sanitize_input_with_limit}
use im_system.RateLimiter.{allow}
use im_system.Session.{get_username}
use im_system.Db.Users.{get_user_by_username}
use im_system.Db.Groups.Rows.{Result-cases}
use im_system.Server.{WsClient, Server, Env}
use im_system.Server.Live.{Live, Live-same, write_ws-Live}
use im_system.Server.Live.Kept.{broadcast_public-Live}
use im_system.Server.Live.Deliveries.{send_private-Live, broadcast_to_group-Live}
use im_system.Server.Presence.Sockets.{modify-SocketsOk, without-SocketsOk, add-SocketsOk}
use im_system.Server.Presence.{add_ws_client, remove_ws_client}
use im_system.Server.Broadcast.{send_private, broadcast_to_group, broadcast_from_web}
use im_system.Server.Commands.Replies.{if-Live, option-Live}
use im_system.Server.Socket.{
  WsIncoming, new_client, ws_connect, ws_disconnect, ws_private_message, ws_group_message,
  handle_ws_message, ws_read,
}

remove_ws_client-Live : (s : Server) (name : Text) → Live s → Live (remove_ws_client s name)
unfolding remove_ws_client
remove_ws_client-Live s name v = option-Live (lookup name s.ws_conns) v (λ c.
    Live-same
      (record {
        same_users = refl;
        same_map = refl;
        same_panicked = refl;
        same_db = refl;
        same_sockets = λ k.
            modify-SocketsOk _ _ c (λ w. record w { cancelled = true }) (λ w. refl)
              (without-SocketsOk s.ws_conns s.clients name k);
      })
      v)

pub ws_disconnect-Live : (s : Server) (name : Text) → Live s → Live (ws_disconnect s name)
unfolding ws_disconnect
ws_disconnect-Live s name v = remove_ws_client-Live s name v

add_ws_client-Live : (s : Server) (client : WsClient) → Live s → Live (add_ws_client s client).0
unfolding add_ws_client
add_ws_client-Live s client v =
    Live-same
      (record {
        same_users = refl;
        same_map = refl;
        same_panicked = refl;
        same_db = refl;
        same_sockets = add-SocketsOk s.ws_conns s.clients client;
      })
      v

ws_private_message-Live :
    (env : Env) (s : Server) (c : ℕ) (client : WsClient) (target content : Text)
    → Live s
    → Live (ws_private_message env s c client target content)
unfolding ws_private_message
ws_private_message-Live env s c client target content v =
    let sent = send_private-Live env s client.name (trim_space target) content client.avatar v in
    if-Live (text_eq (trim_space target) []) (search write_ws-Live) (
      option-Live (send_private env s client.name (trim_space target) content client.avatar).1
        (search write_ws-Live) (λ e. search write_ws-Live))

ws_group_message-Live :
    (env : Env) (s : Server) (c : ℕ) (client : WsClient) (target content : Text)
    → Live s
    → Live (ws_group_message env s c client target content)
unfolding ws_group_message
ws_group_message-Live env s c client target content v =
    let sent =
      broadcast_to_group-Live env s (trim_space target) client.name content client.avatar v in
    if-Live (text_eq (trim_space target) []) (search write_ws-Live) (
      option-Live (broadcast_to_group env s (trim_space target) client.name content client.avatar).1
        sent (λ e. search write_ws-Live))

handle_ws_message-Live :
    (env : Env) (s : Server) (c : ℕ) (client : WsClient) (incoming : WsIncoming)
    → Live s
    → Live (handle_ws_message env s c client incoming)
unfolding handle_ws_message broadcast_from_web
handle_ws_message-Live env s c client incoming v =
    let r = allow s.send_limiter env.now client.remote_ip in
    let s' : Server = record s { send_limiter = r.0 } in
    let v' : Live s' =
      Live-same
        (record {
          same_users = refl;
          same_map = refl;
          same_panicked = refl;
          same_db = refl;
          same_sockets = λ k. k;
        })
        v in
    let content = sanitize_input_with_limit (trim_space incoming.message) s.max_msg_length in
    if-Live (not r.1) (search write_ws-Live) (
      if-Live (text_eq (trim_space incoming.message) []) v' (
        if-Live (text_eq incoming.mode (bytes "private"))
          (ws_private_message-Live env s' c client incoming.to content v')
          (if-Live (text_eq incoming.mode (bytes "group"))
            (ws_group_message-Live env s' c client incoming.to content v')
            (broadcast_public-Live env s' client.name content client.avatar false v'))))

pub ws_read-Live :
    (env : Env) (s : Server) (c : ℕ) (incoming : Option WsIncoming)
    → Live s
    → Live (ws_read env s c incoming)
unfolding ws_read
ws_read-Live env s c none v = search write_ws-Live
ws_read-Live env s c (some incoming) v = option-Live (get_elem? s.clients c) v (λ client.
    if-Live (text_eq incoming.kind (bytes "send"))
      (handle_ws_message-Live env s c client incoming v)
      (if-Live (text_eq incoming.kind (bytes "ping")) (search write_ws-Live)
        (search write_ws-Live)))

pub ws_connect-Live :
    (env : Env) (s : Server) (token : Option Text) (ip : Text)
    → Live s
    → Live (ws_connect env s token ip).0
unfolding ws_connect
ws_connect-Live env s none ip v = v
ws_connect-Live env s (some token) ip v =
    let looked : Server = record s { sessions = (get_username s.sessions env.now token).0 } in
    let looked_ok : Live looked =
      Live-same
        (record {
          same_users = refl;
          same_map = refl;
          same_panicked = refl;
          same_db = refl;
          same_sockets = λ k. k;
        })
        v in
    elim (Bool-cases (text_eq token [])) [
      | inl empty ↦ rw (empty, ws_connect) v
      | inr given ↦ elim (Option-cases (get_username s.sessions env.now token).1) [
        | inl unknown ↦ rw (given, unknown, ws_connect) looked_ok
        | inr (owner, known) ↦
            elim (Result-cases (get_user_by_username (remove_ws_client looked owner).db owner)) [
              | inr (e, bad) ↦
                  rw (given, known, bad, ws_connect) (remove_ws_client-Live looked owner looked_ok)
              | inl (info, found) ↦
                  rw (given, known, found, ws_connect)
                    (add_ws_client-Live (remove_ws_client looked owner) (new_client owner info ip)
                      (remove_ws_client-Live looked owner looked_ok))
            ]
      ]
    ]
