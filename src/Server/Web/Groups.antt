-- ===== src/Server/Web/Groups.antt =====
-- internal/server/web.go: `handleGroup` and `handleGroups`.
pub mod Removal
use im_system.Common.{ℕ, ◌||◌, not, Option, none, some, ◌==◌, [], if◌then◌else◌, Text, text_eq}
use im_system.Text.{bytes}
use im_system.Session.{get_username}
use im_system.Db.{Database, DbError, ok, err, error_text}
use im_system.Db.Users.{get_user_by_username}
use im_system.Db.Groups.{create_group, join_group, leave_group, get_group_by_name, get_user_groups}
use im_system.Server.{Server, Env}
use im_system.Server.Web.{
  Reply, bad_request, unauthorized, internal_server_error, forbidden, not_found, method_not_allowed,
  no_content, group_names, is_blank, bad_body,
}

pub record GroupBody : Type 0 where
  pub token : Text
  pub action : Text
  pub group_name : Text
  pub member_name : Text

-- The answer to a change of the database, after the change.
unfoldable pub answered : Server → Reply → Database × Option DbError → Server × Reply
unfolding error_text
answered s good (db, e) =
    let s' = record s { db = db } in
    elim e [ some e ↦ (s', bad_request (error_text e)) | none ↦ (s', good) ]

-- `case "create"`
unfoldable pub web_create_group : Env → Server → Text → ℕ → Server × Reply
unfolding create_group error_text
web_create_group env s group_name user_id =
    let (db, created) = create_group s.db env.now group_name user_id [] in
    let s' = record s { db = db } in
    elim created [ err e ↦ (s', bad_request (error_text e)) | ok g ↦ (s', no_content) ]

-- `case "invite"`
unfoldable pub web_invite : Server → Text → Text → Server × Reply
unfolding get_user_by_username join_group answered
web_invite s group_name member_name =
    if is_blank member_name
    then (s, bad_request (bytes "memberName 不能为空"))
    else elim (get_user_by_username s.db member_name) [
      | err e ↦ (s, not_found (bytes "目标用户不存在"))
      | ok target ↦ answered s no_content (join_group s.db group_name target.id)
    ]

-- `case "kick"`
unfoldable pub web_kick : Server → ℕ → Text → Text → Server × Reply
unfolding get_user_by_username get_group_by_name leave_group answered error_text
web_kick s user_id group_name member_name =
    if is_blank member_name
    then (s, bad_request (bytes "memberName 不能为空"))
    else elim (get_group_by_name s.db group_name) [
      | err e ↦ (s, bad_request (error_text e))
      | ok group ↦
          if not (group.creator_id == user_id)
          then (s, forbidden (bytes "只有群主可以踢人"))
          else elim (get_user_by_username s.db member_name) [
            | err e ↦ (s, not_found (bytes "目标用户不存在"))
            | ok target ↦ answered s no_content (leave_group s.db group_name target.id)
          ]
    ]

-- `switch data.Action`
unfoldable pub group_action : Env → Server → ℕ → GroupBody → Server × Reply
unfolding web_create_group web_invite web_kick join_group leave_group answered
group_action env s user_id body =
    if text_eq body.action (bytes "create")
    then web_create_group env s body.group_name user_id
    else if text_eq body.action (bytes "join")
    then answered s no_content (join_group s.db body.group_name user_id)
    else if text_eq body.action (bytes "leave")
    then answered s no_content (leave_group s.db body.group_name user_id)
    else if text_eq body.action (bytes "invite")
    then web_invite s body.group_name body.member_name
    else if text_eq body.action (bytes "kick")
    then web_kick s user_id body.group_name body.member_name
    else (s, bad_request (bytes "未知 action"))

unfoldable pub handle_group : Env → Server → Option GroupBody → Server × Reply
unfolding get_username get_user_by_username group_action
handle_group env s none = (s, bad_body)
handle_group env s (some body) =
    if is_blank body.token || is_blank body.action || is_blank body.group_name
    then (s, bad_request (bytes "token、action 和 groupName 不能为空"))
    else (let (store, owner) = get_username s.sessions env.now body.token in
        let s' = record s { sessions = store } in
        elim owner [
          | none ↦ (s', unauthorized (bytes "认证失败"))
          | some username ↦ elim (get_user_by_username s'.db username) [
            | err e ↦ (s', internal_server_error (bytes "用户信息读取失败"))
            | ok user ↦ group_action env s' user.id body
          ]
        ])

-- The handler behind `authQueryMiddleware`.
unfoldable pub handle_groups : Text → Server → Text → Server × Reply
unfolding get_user_groups
handle_groups method s username =
    if text_eq method (bytes "GET")
    then (s, group_names (get_user_groups s.db username))
    else (s, method_not_allowed (bytes "只支持 GET"))
