-- ===== src/Server/Web.antt =====
-- internal/server/web.go: the handlers of login, logout, renaming and registration. The body of a request
-- is an argument, decoded from JSON, or `none` where the decoding fails; so is the client's address.
pub mod Sessions
pub mod Send
pub mod Cases
pub mod Request
pub mod History
pub mod Groups
pub mod Friends
pub mod Profile
pub mod Routes
pub mod Steps
mod Tests
mod RequestTests
use im_system.Common.{
  ℕ, Bool, true, false, ◌||◌, not, Option, none, some, List, [], ◌∷◌, ltb, if◌then◌else◌, Text,
  text_eq, length,
}
use im_system.Text.{bytes}
use im_system.Text.Trim.{trim_space}
use im_system.RateLimiter.{RateLimiter, allow}
use im_system.Session.{create, get_username, update_username, delete}
use im_system.Username.{is_valid_username}
use im_system.Model.{DbUser, UserPublic, DbMessageExt}
use im_system.Db.{ok, err, error_text}
use im_system.Db.Users.{Bcrypt, authenticate_user, register_user}
use im_system.Server.{Server, Env}
use im_system.Server.Presence.{
  rename_ws_client, is_name_taken, OnlineRow, RenameError, name_taken, no_such_name,
}

-- The status of an answer, with its text or its JSON object.
pub data Reply : Type 0 where
  too_many_requests bad_request unauthorized internal_server_error : Text → Reply
  forbidden not_found method_not_allowed : Text → Reply
  no_content created success : Reply
  logged_in : Text → Text → Text → Text → Reply
  profile_of : UserPublic → Bool → Reply
  avatar_set : Text → Reply
  messages_found : List DbMessageExt → Reply
  group_names : List Text → Reply
  friend_list : List (Text × Text) → Reply
  friendship : Bool → Reply
  online_users : List OnlineRow → Reply

-- `strings.TrimSpace(text) == ""`
abbrev pub is_blank : Text → Bool
is_blank text = text_eq (trim_space text) []

abbrev pub bad_body : Reply
bad_body = bad_request (bytes "请求体解析失败")

module _ (b : Bcrypt) where
  -- `handleLogin` after the limiter; the token is what `CreateSession` draws, if it can.
  unfoldable pub login : Env → Server → Text → Text → Option Text → Server × Reply
  unfolding trim_space is_valid_username authenticate_user create
  login env s username password drawn =
      if is_blank username || is_blank password
      then (s, bad_request (bytes "用户名和密码不能为空"))
      else if not (is_valid_username username)
      then (s, bad_request (bytes "用户名只能包含字母、数字、中文和下划线(2-20位)"))
      else elim (authenticate_user b s.db username password) [
        | err e ↦ (s, unauthorized (bytes "认证失败"))
        | ok u ↦
            let (store, token) = create s.sessions drawn env.now username s.session_ttl in
            let s' = record s { sessions = store } in
            elim token [
              | none ↦ (s', internal_server_error (bytes "生成会话失败"))
              | some t ↦ (s', logged_in t u.avatar u.gender u.signature)
            ]
      ]

  unfoldable pub handle_login :
      Env → Server → Text → Option (Text × Text) → Option Text → Server × Reply
  unfolding allow login
  handle_login env s ip body drawn =
      let (limiter, pass) = allow s.login_limiter env.now ip in
      let s' = record s { login_limiter = limiter } in
      if not pass then (s', too_many_requests (bytes "请求过于频繁，请稍后再试")) else elim body [
        | none ↦ (s', bad_body)
        | some (username, password) ↦ login env s' username password drawn
      ]

  unfoldable pub handle_register :
      Env → Server → Text → Option (Text × Text × Text) → Server × Reply
  unfolding allow trim_space is_valid_username register_user error_text
  handle_register env s ip body =
      let (limiter, pass) = allow s.register_limiter env.now ip in
      let s' = record s { register_limiter = limiter } in
      if not pass then (s', too_many_requests (bytes "请求过于频繁，请稍后再试")) else elim body [
        | none ↦ (s', bad_body)
        | some (username, password, avatar) ↦
            if is_blank username || is_blank password
            then (s', bad_request (bytes "用户名和密码不能为空"))
            else if not (is_valid_username username)
            then (s', bad_request (bytes "用户名只能包含字母、数字、中文和下划线(2-20位)"))
            else if ltb (length (trim_space password)) 6
            then (s', bad_request (bytes "密码至少6位"))
            else (let (db, e) = register_user b s'.db env.salt env.now username password avatar in
                let s'' = record s' { db = db } in
                elim e [ some e ↦ (s'', bad_request (error_text e)) | none ↦ (s'', created) ])
      ]

-- `getTokenFromRequest` is an argument: the token of the header or of the query.
unfoldable pub handle_logout : Server → Option Text → Text → Server × Reply
unfolding delete
handle_logout s none from_request = (s, bad_body)
handle_logout s (some in_body) from_request =
    let token = if text_eq in_body [] then from_request else in_body in
    if text_eq token []
    then (s, bad_request (bytes "token 不能为空"))
    else (record s { sessions = delete s.sessions token }, no_content)

-- `err.Error()` of `RenameWSClient`
unfoldable pub rename_error_text : RenameError → Text
unfolding bytes
rename_error_text name_taken = bytes "用户名已被占用"
rename_error_text no_such_name = bytes "旧用户名不存在"

unfoldable pub handle_rename : Env → Server → Option (Text × Text) → Server × Reply
unfolding trim_space get_username is_name_taken rename_ws_client update_username rename_error_text
handle_rename env s none = (s, bad_body)
handle_rename env s (some (token, new)) =
    if is_blank token || is_blank new
    then (s, bad_request (bytes "token/new 不能为空"))
    else (let (store, owner) = get_username s.sessions env.now token in
        let s' = record s { sessions = store } in
        elim owner [
          | none ↦ (s', unauthorized (bytes "认证失败"))
          | some username ↦
              if is_name_taken s' new
              then (s', bad_request (bytes "用户名已被占用"))
              else (let (s'', e) = rename_ws_client s' username new in
                  elim e [
                    | some e ↦ (s'', bad_request (rename_error_text e))
                    | none ↦ (
                      record s'' { sessions = update_username s''.sessions token new },
                      no_content,
                    )
                  ])
        ])
