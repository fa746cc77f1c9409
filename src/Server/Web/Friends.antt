-- ===== src/Server/Web/Friends.antt =====
-- internal/server/web.go: `handleFriend`, `handleFriends` and `handleCheckFriend`.
pub mod Seen
use im_system.Common.{Option, none, some, map, if◌then◌else◌, Text, text_eq}
use im_system.Text.{bytes}
use im_system.Session.{get_username}
use im_system.Model.{UserPublic}
use im_system.Db.{ok, err}
use im_system.Db.Users.{get_user_by_username}
use im_system.Db.Friends.{add_friend, remove_friend, is_friend, get_friends}
use im_system.Server.{Server, Env}
use im_system.Server.Web.{
  Reply, bad_request, unauthorized, not_found, method_not_allowed, success, friend_list, friendship,
  is_blank,
}
use im_system.Server.Web.Groups.{answered}

pub record FriendBody : Type 0 where
  pub token : Text
  pub action : Text
  pub friend : Text

-- The part behind the token.
unfoldable pub friend_action : Server → Text → FriendBody → Server × Reply
unfolding get_user_by_username add_friend remove_friend answered
friend_action s username body = elim (get_user_by_username s.db username) [
  | err e ↦ (s, unauthorized (bytes "用户不存在"))
  | ok user ↦
      if is_blank body.friend
      then (s, bad_request (bytes "friend 不能为空"))
      else elim (get_user_by_username s.db body.friend) [
        | err e ↦ (s, not_found (bytes "好友用户不存在"))
        | ok friend ↦
            if text_eq body.action (bytes "add")
            then answered s success (add_friend s.db user.id friend.id)
            else if text_eq body.action (bytes "remove")
            then answered s success (remove_friend s.db user.id friend.id)
            else (s, bad_request (bytes "未知 action"))
      ]
]

unfoldable pub handle_friend : Env → Server → Option FriendBody → Server × Reply
unfolding get_username friend_action
handle_friend env s none = (s, bad_request (bytes "无效的请求格式"))
handle_friend env s (some body) =
    if is_blank body.token
    then (s, bad_request (bytes "缺少登录 token"))
    else (let (store, owner) = get_username s.sessions env.now body.token in
        let s' = record s { sessions = store } in
        elim owner [
          | none ↦ (s', unauthorized (bytes "认证失败"))
          | some username ↦ friend_action s' username body
        ])

-- The handlers behind `authQueryMiddleware`.
unfoldable pub handle_friends : Text → Server → Text → Server × Reply
unfolding get_user_by_username get_friends
handle_friends method s username =
    if text_eq method (bytes "GET")
    then elim (get_user_by_username s.db username) [
      | err e ↦ (s, unauthorized (bytes "用户不存在"))
      | ok user ↦ (
        s,
        friend_list (map (λ (f : UserPublic). (f.username, f.avatar)) (get_friends s.db user.id)),
      )
    ]
    else (s, method_not_allowed (bytes "只支持 GET"))

unfoldable pub handle_check_friend : Text → Text → Server → Text → Server × Reply
unfolding get_user_by_username is_friend
handle_check_friend method friend_name s username =
    if text_eq method (bytes "GET")
    then (if is_blank friend_name
        then (s, bad_request (bytes "缺少必要参数"))
        else elim (get_user_by_username s.db username) [
          | err e ↦ (s, unauthorized (bytes "用户不存在"))
          | ok user ↦ elim (get_user_by_username s.db friend_name) [
            | err e ↦ (s, not_found (bytes "好友用户不存在"))
            | ok friend ↦ (s, friendship (is_friend s.db user.id friend.id))
          ]
        ])
    else (s, method_not_allowed (bytes "只支持 GET"))
