-- ===== src/Server/Web/Profile.antt =====
-- internal/server/web.go: `handleProfile` and `handleAvatar`.
use im_system.Common.{◌||◌, Option, none, some, [], if◌then◌else◌, Text, text_eq}
use im_system.Text.{bytes}
use im_system.Text.Trim.{trim_space}
use im_system.Session.{get_username}
use im_system.Db.{ok, err}
use im_system.Db.Users.{get_user_by_username, update_user_profile}
use im_system.Server.{Server, Env}
use im_system.Server.Avatar.{update_avatar, avatar_error_text, saved, failed}
use im_system.Server.Web.{
  Reply, bad_request, unauthorized, internal_server_error, method_not_allowed, no_content,
  profile_of, avatar_set, is_blank, bad_body,
}

-- What a GET request carries: the user that a middleware has found, the token of
-- `getTokenFromRequest` and the query value `user`.
pub record ProfileQuery : Type 0 where
  pub context_user : Text
  pub token : Text
  pub user : Text

pub record ProfileBody : Type 0 where
  pub token : Text
  pub gender : Text
  pub signature : Text

-- `case http.MethodGet` when the user is known.
unfoldable pub show_profile : Server → Text → Text → Server × Reply
unfolding trim_space get_user_by_username
show_profile s username user =
    let target = if text_eq (trim_space user) [] then username else trim_space user in
    if text_eq target []
    then (s, bad_request (bytes "缺少登录 token"))
    else elim (get_user_by_username s.db target) [
      | err e ↦ (s, internal_server_error (bytes "用户信息读取失败"))
      | ok info ↦ (s, profile_of info (text_eq info.username username))
    ]

unfoldable pub get_profile : Env → Server → ProfileQuery → Server × Reply
unfolding get_username show_profile
get_profile env s q =
    if text_eq q.context_user []
    then (if text_eq q.token []
        then (s, bad_request (bytes "缺少登录 token"))
        else (let (store, owner) = get_username s.sessions env.now q.token in
            let s' = record s { sessions = store } in
            elim owner [
              | none ↦ (s', unauthorized (bytes "认证失败"))
              | some username ↦ show_profile s' username q.user
            ]))
    else show_profile s q.context_user q.user

-- `case http.MethodPost`; the token of the request stands in for one that the body lacks.
unfoldable pub post_profile : Env → Server → Option ProfileBody → Text → Server × Reply
unfolding get_username update_user_profile
post_profile env s none from_request = (s, bad_body)
post_profile env s (some body) from_request =
    let token = if text_eq body.token [] then from_request else body.token in
    if is_blank token
    then (s, bad_request (bytes "token 不能为空"))
    else (let (store, owner) = get_username s.sessions env.now token in
        let s' = record s { sessions = store } in
        elim owner [
          | none ↦ (s', unauthorized (bytes "认证失败"))
          | some username ↦ (
            record s' { db = update_user_profile s'.db username body.gender body.signature },
            no_content,
          )
        ])

-- `handleProfile` on both methods.
unfoldable pub handle_profile :
    Env → Server → Text → ProfileQuery → Option ProfileBody → Server × Reply
unfolding get_profile post_profile
handle_profile env s method q body =
    if text_eq method (bytes "GET")
    then get_profile env s q
    else if text_eq method (bytes "POST")
    then post_profile env s body q.token
    else (s, method_not_allowed (bytes "只支持 GET 或 POST"))

unfoldable pub handle_avatar : Env → Server → Option (Text × Text) → Server × Reply
unfolding get_username update_avatar avatar_error_text
handle_avatar env s none = (s, bad_body)
handle_avatar env s (some (token, avatar)) =
    if is_blank token || is_blank avatar
    then (s, bad_request (bytes "token 和 avatar 不能为空"))
    else (let (store, owner) = get_username s.sessions env.now token in
        let s' = record s { sessions = store } in
        elim owner [
          | none ↦ (s', unauthorized (bytes "认证失败"))
          | some username ↦
              let (s'', result) = update_avatar s' username avatar in
              elim result [
                | failed e ↦ (s'', bad_request (avatar_error_text e))
                | saved url ↦ (s'', avatar_set url)
              ]
        ])
