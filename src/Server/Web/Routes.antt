-- ===== src/Server/Web/Routes.antt =====
-- internal/server/web.go: the paths under /api/ that `StartWeb` puts into its mux, with the middleware
-- of each. The WebSocket of /api/ws is in Socket; the static files, the metrics and the stickers keep
-- no state of the server.
use im_system.Common.{Option, [], Text}
use im_system.Text.{bytes}
use im_system.Db.Users.{Bcrypt}
use im_system.Db.Messages.{OrderBy}
use im_system.Server.{Server, Env}
use im_system.Server.Presence.{get_online_users}
use im_system.Server.Web.{
  Reply, online_users, handle_login, handle_register, handle_logout, handle_rename,
}
use im_system.Server.Web.Send.{SendBody, handle_send}
use im_system.Server.Web.Request.{
  get_token_from_request, get_client_ip, require_method, auth_query_middleware, cors_middleware,
}
use im_system.Server.Web.Groups.{GroupBody, handle_group, handle_groups}
use im_system.Server.Web.Friends.{FriendBody, handle_friend, handle_friends, handle_check_friend}
use im_system.Server.Web.Profile.{ProfileQuery, ProfileBody, handle_profile, handle_avatar}
use im_system.Server.Web.History.{HistoryQuery, handle_history, handle_search}

-- A path with what its handler reads of the request: the body, decoded or not, or values of the query.
-- `login` carries the token that is drawn.
pub data Route : Type 0 where
  login : Option (Text × Text) → Option Text → Route
  logout : Option Text → Route
  online : Route
  send : Option SendBody → Route
  rename : Option (Text × Text) → Route
  register : Option (Text × Text × Text) → Route
  avatar : Option (Text × Text) → Route
  group : Option GroupBody → Route
  groups : Route
  profile : Text → Option ProfileBody → Route
  history : HistoryQuery → Route
  friend : Option FriendBody → Route
  friends : Route
  check_friend : Text → Route
  search : Text → Text → Route

-- The rest of a request: its method, headers, peer and the query value `token`.
pub record Request : Type 0 where
  pub method : Text
  pub authorization : Text
  pub forwarded_for : Text
  pub real_ip : Text
  pub remote_addr : Text
  pub query_token : Text

abbrev pub client_ip : Request → Text
client_ip r = get_client_ip r.forwarded_for r.real_ip r.remote_addr

abbrev pub request_token : Request → Text
request_token r = get_token_from_request r.authorization r.query_token

-- What `handleProfile` reads: no middleware has put a user into the context.
abbrev pub profile_query : Request → Text → ProfileQuery
profile_query r user = record { context_user = []; token = request_token r; user = user }

abbrev pub handle_online : Server → Server × Reply
handle_online s = (s, online_users (get_online_users s))

module _ (b : Bcrypt) (o : OrderBy) where
  unfoldable pub route : Env → Server → Request → Route → Server × Reply
  unfolding handle_login handle_logout handle_send handle_rename handle_register handle_avatar
      handle_group handle_groups handle_profile handle_history handle_friend handle_friends
      handle_check_friend handle_search get_online_users require_method auth_query_middleware
      get_client_ip get_token_from_request
  route env s r (login body drawn) =
      require_method (bytes "POST") r.method s (handle_login b env s (client_ip r) body drawn)
  route env s r (logout body) =
      require_method (bytes "POST") r.method s (handle_logout s body (request_token r))
  route env s r online = require_method (bytes "GET") r.method s (handle_online s)
  route env s r (send body) =
      require_method (bytes "POST") r.method s (handle_send env s (client_ip r) body)
  route env s r (rename body) = require_method (bytes "POST") r.method s (handle_rename env s body)
  route env s r (register body) =
      require_method (bytes "POST") r.method s (handle_register b env s (client_ip r) body)
  route env s r (avatar body) = require_method (bytes "POST") r.method s (handle_avatar env s body)
  route env s r (group body) = require_method (bytes "POST") r.method s (handle_group env s body)
  route env s r groups =
      auth_query_middleware env s r.authorization r.query_token (handle_groups r.method)
  route env s r (profile user body) = handle_profile env s r.method (profile_query r user) body
  route env s r (history q) =
      auth_query_middleware env s r.authorization r.query_token (handle_history o r.method q)
  route env s r (friend body) = require_method (bytes "POST") r.method s (handle_friend env s body)
  route env s r friends =
      auth_query_middleware env s r.authorization r.query_token (handle_friends r.method)
  route env s r (check_friend name) =
      auth_query_middleware env s r.authorization r.query_token (handle_check_friend r.method name)
  route env s r (search q limit) =
      require_method (bytes "GET") r.method s (handle_search o s q limit)

  -- The handler that `StartWeb` serves.
  unfoldable pub serve : Env → Server → Request → Route → Server × Reply
  unfolding route cors_middleware
  serve env s r path = cors_middleware r.method s (route env s r path)
