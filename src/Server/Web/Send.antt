-- ===== src/Server/Web/Send.antt =====
-- internal/server/web.go: `handleSend`.
use im_system.Common.{
  ◌&&◌, ◌||◌, not, Option, none, some, [], if◌then◌else◌, Text, text_eq, lookup, get_elem?,
}
use im_system.Text.{bytes}
use im_system.RateLimiter.{allow}
use im_system.Session.{get_username}
use im_system.Server.{Server, Env}
use im_system.Server.Broadcast.{send_private, broadcast_to_group, broadcast_from_web, SendError}
use im_system.Server.Commands.Groups.{send_error_text}
use im_system.Server.Web.{
  Reply, too_many_requests, bad_request, unauthorized, no_content, is_blank, bad_body,
}

pub record SendBody : Type 0 where
  pub token : Text
  pub to : Text
  pub message : Text
  pub mode : Text

-- The avatar of the WebSocket client of that name, if there is one.
unfoldable pub avatar_of : Server → Text → Text
avatar_of s name = elim (lookup name s.ws_conns) [
  | none ↦ []
  | some c ↦ elim (get_elem? s.clients c) [ none ↦ [] | some w ↦ w.avatar ]
]

abbrev pub sent_or_error : Server × Option SendError → Server × Reply
sent_or_error (s, e) = elim e [
  | some e ↦ (s, bad_request (send_error_text e))
  | none ↦ (s, no_content)
]

-- The part of `handleSend` behind the checks.
unfoldable pub send_as : Env → Server → Text → SendBody → Server × Reply
unfolding avatar_of send_private broadcast_to_group broadcast_from_web
send_as env s name body =
    let avatar = avatar_of s name in
    if text_eq body.mode (bytes "private")
    then sent_or_error (send_private env s name body.to body.message avatar)
    else if text_eq body.mode (bytes "group")
    then sent_or_error (broadcast_to_group env s body.to name body.message avatar)
    else (broadcast_from_web env s name body.message avatar, no_content)

unfoldable pub handle_send : Env → Server → Text → Option SendBody → Server × Reply
unfolding allow get_username send_as
handle_send env s ip body =
    let (limiter, pass) = allow s.send_limiter env.now ip in
    let s' = record s { send_limiter = limiter } in
    if not pass then (s', too_many_requests (bytes "消息发送过于频繁，请稍后再试")) else elim body [
      | none ↦ (s', bad_body)
      | some body ↦
          if is_blank body.token || is_blank body.message
          then (s', bad_request (bytes "token 和 message 不能为空"))
          else (let (store, owner) = get_username s'.sessions env.now body.token in
              let s'' = record s' { sessions = store } in
              elim owner [
                | none ↦ (s'', unauthorized (bytes "认证失败"))
                | some name ↦
                    if text_eq body.mode (bytes "private") && is_blank body.to
                    then (s'', bad_request (bytes "私聊必须指定 to"))
                    else if text_eq body.mode (bytes "group") && is_blank body.to
                    then (s'', bad_request (bytes "群聊必须指定 to (群名)"))
                    else send_as env s'' name body
              ])
    ]
