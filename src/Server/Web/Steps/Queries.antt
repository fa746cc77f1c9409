-- ===== src/Server/Web/Steps/Queries.antt =====
-- internal/server/web.go: the handlers behind `authQueryMiddleware`, and the invariant of a running
-- server.
use im_system.Common.{[], Text, text_eq}
use im_system.Text.{bytes}
use im_system.Text.Trim.{trim_space}
use im_system.Session.{get_username}
use im_system.Db.Users.{get_user_by_username}
use im_system.Db.Messages.{OrderBy}
use im_system.Server.{Server, Env}
use im_system.Server.Live.{Live}
use im_system.Server.Web.{Reply, is_blank}
use im_system.Server.Web.Request.{auth_query_middleware, query_token_first}
use im_system.Server.Web.Groups.{handle_groups}
use im_system.Server.Web.Friends.{handle_friends, handle_check_friend}
use im_system.Server.Web.History.{HistoryQuery, handle_history, handle_search}
use im_system.Server.Web.Steps.{LiveReply, reply, if-LiveReply, option-LiveReply}
use im_system.Server.Web.Steps.Requests.{result-LiveReply, looked_up}

-- The middleware answers, or hands on a server whose sessions alone have changed.
pub auth_query_middleware-LiveReply :
    (env : Env) (s : Server) (auth query_token : Text) (next : Server → Text → Server × Reply)
    → ((t : Server) (username : Text) → Live t → LiveReply (next t username))
    → Live s
    → LiveReply (auth_query_middleware env s auth query_token next)
unfolding auth_query_middleware
auth_query_middleware-LiveReply env s auth query_token next w v =
    let token = query_token_first auth query_token in
    let v' = looked_up env s token v in
    if-LiveReply (text_eq token []) (reply v) (
      option-LiveReply (get_username s.sessions env.now token).1 (reply v')
        (λ username. w _ username v'))

pub handle_groups-LiveReply :
    (method : Text) (s : Server) (username : Text)
    → Live s
    → LiveReply (handle_groups method s username)
unfolding handle_groups
handle_groups-LiveReply method s username v =
    if-LiveReply (text_eq method (bytes "GET")) (reply v) (reply v)

pub handle_friends-LiveReply :
    (method : Text) (s : Server) (username : Text)
    → Live s
    → LiveReply (handle_friends method s username)
unfolding handle_friends
handle_friends-LiveReply method s username v =
    if-LiveReply (text_eq method (bytes "GET"))
      (result-LiveReply (get_user_by_username s.db username) (λ e. reply v) (λ u. reply v))
      (reply v)

pub handle_check_friend-LiveReply :
    (method friend : Text) (s : Server) (username : Text)
    → Live s
    → LiveReply (handle_check_friend method friend s username)
unfolding handle_check_friend
handle_check_friend-LiveReply method friend s username v =
    if-LiveReply (text_eq method (bytes "GET"))
      (if-LiveReply (is_blank friend) (reply v) (
        result-LiveReply (get_user_by_username s.db username) (λ e. reply v)
          (λ u. result-LiveReply (get_user_by_username s.db friend) (λ e. reply v) (λ f. reply v))))
      (reply v)

pub handle_history-LiveReply :
    (o : OrderBy) (method : Text) (q : HistoryQuery) (s : Server) (username : Text)
    → Live s
    → LiveReply (handle_history o method q s username)
unfolding handle_history
handle_history-LiveReply o method q s username v =
    if-LiveReply (text_eq method (bytes "GET"))
      (if-LiveReply (text_eq q.kind (bytes "group"))
        (if-LiveReply (is_blank q.group) (reply v) (reply v))
        (if-LiveReply (text_eq q.kind (bytes "private"))
          (if-LiveReply (is_blank q.peer) (reply v) (reply v)) (reply v)))
      (reply v)

pub handle_search-LiveReply :
    (o : OrderBy) (s : Server) (q raw_limit : Text)
    → Live s
    → LiveReply (handle_search o s q raw_limit)
unfolding handle_search
handle_search-LiveReply o s q raw_limit v =
    if-LiveReply (text_eq (trim_space q) []) (reply v) (reply v)
