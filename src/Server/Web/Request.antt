-- ===== src/Server/Web/Request.antt =====
-- internal/server/web.go: what the handlers take from a request, and the middleware around them. A
-- header or a query value that is absent is the empty text.
use im_system.Common.{
  ◌&&◌, none, some, [], ◌∷◌, ◌++◌, ltb, if◌then◌else◌, Text, text_eq, length, take, drop,
}
use im_system.Text.{bytes, to_lower}
use im_system.Text.Trim.{trim_space}
use im_system.Text.Split.{split}
use im_system.Text.HostPort.{split_host_port}
use im_system.Session.{get_username}
use im_system.Server.{Server, Env}
use im_system.Server.Web.{Reply, bad_request, unauthorized, method_not_allowed, no_content}

-- The token behind `Bearer ` in the header Authorization, or the empty text. No letter beyond ASCII
-- folds to one of `Bearer `, so `EqualFold` is a comparison in lower case.
unfoldable pub bearer : Text → Text
unfolding to_lower bytes trim_space
bearer auth =
    if ltb 7 (length auth) && text_eq (to_lower (take 7 auth)) (bytes "bearer ")
    then trim_space (drop 7 auth)
    else []

-- The header comes first.
unfoldable pub get_token_from_request : Text → Text → Text
unfolding bearer trim_space
get_token_from_request auth query_token =
    if text_eq (bearer auth) [] then trim_space query_token else bearer auth

-- The query comes first.
unfoldable pub query_token_first : Text → Text → Text
unfolding bearer trim_space
query_token_first auth query_token =
    if text_eq (trim_space query_token) [] then bearer auth else trim_space query_token

unfoldable pub auth_query_middleware :
    Env → Server → Text → Text → (Server → Text → Server × Reply) → Server × Reply
unfolding query_token_first get_username
auth_query_middleware env s auth query_token next =
    let token = query_token_first auth query_token in
    if text_eq token []
    then (s, bad_request (bytes "缺少登录 token"))
    else (let (store, owner) = get_username s.sessions env.now token in
        let s' = record s { sessions = store } in
        elim owner [ none ↦ (s', unauthorized (bytes "认证失败")) | some username ↦ next s' username ])

-- The second text is the method of the request.
unfoldable pub require_method : Text → Text → Server → Server × Reply → Server × Reply
require_method method requested s answer =
    if text_eq requested method then answer else (s, method_not_allowed (bytes "只支持 " ++ method))

-- The first address of X-Forwarded-For, else X-Real-IP, else the peer's address without its port.
unfoldable pub get_client_ip : Text → Text → Text → Text
unfolding split split_host_port trim_space
get_client_ip forwarded real_ip remote_addr =
    if text_eq forwarded []
    then (if text_eq real_ip []
        then elim (split_host_port remote_addr) [ none ↦ [] | some (host, port) ↦ host ]
        else trim_space real_ip)
    else elim (split b',' forwarded) [ [] ↦ [] | part ∷ parts ↦ trim_space part ]

-- A request for options is answered before any handler sees it.
unfoldable pub cors_middleware : Text → Server → Server × Reply → Server × Reply
cors_middleware requested s answer =
    if text_eq requested (bytes "OPTIONS") then (s, no_content) else answer
