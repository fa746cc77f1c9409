-- ===== src/Server/Web/Steps/Routes.antt =====
-- internal/server/web.go: every route keeps the invariant of a running server.
use im_system.Common.{Text, text_eq}
use im_system.Text.{bytes}
use im_system.Db.Users.{Bcrypt}
use im_system.Db.Messages.{OrderBy}
use im_system.Server.{Server, Env}
use im_system.Server.Live.{Live}
use im_system.Server.Web.{Reply}
use im_system.Server.Web.Request.{require_method, cors_middleware}
use im_system.Server.Web.Groups.{handle_groups}
use im_system.Server.Web.Friends.{handle_friends, handle_check_friend}
use im_system.Server.Web.History.{handle_history}
use im_system.Server.Web.Routes.{
  Route, login, logout, online, send, rename, register, avatar, group, groups, profile, history,
  friend, friends, check_friend, search, Request, client_ip, request_token, profile_query, route,
  serve,
}
use im_system.Server.Web.Steps.{
  LiveReply, reply, if-LiveReply, handle_login-Live, handle_register-Live, handle_logout-Live,
  handle_rename-Live, handle_send-Live,
}
use im_system.Server.Web.Steps.Requests.{handle_group-LiveReply, handle_friend-LiveReply}
use im_system.Server.Web.Steps.Profiles.{handle_profile-LiveReply, handle_avatar-LiveReply}
use im_system.Server.Web.Steps.Queries.{
  handle_groups-LiveReply, handle_friends-LiveReply, handle_check_friend-LiveReply,
  handle_history-LiveReply, handle_search-LiveReply, auth_query_middleware-LiveReply,
}

require_method-LiveReply :
    (method requested : Text) (s : Server) (answer : Server × Reply)
    → Live s
    → LiveReply answer
    → LiveReply (require_method method requested s answer)
unfolding require_method
require_method-LiveReply method requested s answer v w =
    if-LiveReply (text_eq requested method) w (reply v)

module _ (b : Bcrypt) (o : OrderBy) (env : Env) (s : Server) (r : Request) (v : Live s) where
  posted :
      {answer : Server × Reply}
      → LiveReply answer
      → LiveReply (require_method (bytes "POST") r.method s answer)
  posted {answer} w = require_method-LiveReply (bytes "POST") r.method s answer v w

  got :
      {answer : Server × Reply}
      → LiveReply answer
      → LiveReply (require_method (bytes "GET") r.method s answer)
  got {answer} w = require_method-LiveReply (bytes "GET") r.method s answer v w

  route-LiveReply : (path : Route) → LiveReply (route b o env s r path)
  unfolding route
  route-LiveReply (login body drawn) =
      posted (record { live = handle_login-Live b env s (client_ip r) body drawn v })
  route-LiveReply (logout body) =
      posted (record { live = handle_logout-Live s body (request_token r) v })
  route-LiveReply online = got (reply v)
  route-LiveReply (send body) =
      posted (record { live = handle_send-Live env s (client_ip r) body v })
  route-LiveReply (rename body) = posted (record { live = handle_rename-Live env s body v })
  route-LiveReply (register body) =
      posted (record { live = handle_register-Live b env s (client_ip r) body v })
  route-LiveReply (avatar body) = posted (handle_avatar-LiveReply env s body v)
  route-LiveReply (group body) = posted (handle_group-LiveReply env s body v)
  route-LiveReply groups =
      auth_query_middleware-LiveReply env s r.authorization r.query_token (handle_groups r.method)
        (handle_groups-LiveReply r.method) v
  route-LiveReply (profile user body) =
      handle_profile-LiveReply env s r.method (profile_query r user) body v
  route-LiveReply (history q) =
      auth_query_middleware-LiveReply env s r.authorization r.query_token
        (handle_history o r.method q) (handle_history-LiveReply o r.method q) v
  route-LiveReply (friend body) = posted (handle_friend-LiveReply env s body v)
  route-LiveReply friends =
      auth_query_middleware-LiveReply env s r.authorization r.query_token (handle_friends r.method)
        (handle_friends-LiveReply r.method) v
  route-LiveReply (check_friend name) =
      auth_query_middleware-LiveReply env s r.authorization r.query_token
        (handle_check_friend r.method name) (handle_check_friend-LiveReply r.method name) v
  route-LiveReply (search q limit) = got (handle_search-LiveReply o s q limit v)

  pub serve-Live : (path : Route) → Live (serve b o env s r path).0
  unfolding serve cors_middleware
  serve-Live path =
      let whole : LiveReply (serve b o env s r path) =
        if-LiveReply (text_eq r.method (bytes "OPTIONS")) (reply v) (route-LiveReply path) in
      whole.live
