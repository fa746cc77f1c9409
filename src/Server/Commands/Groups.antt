-- ===== src/Server/Commands/Groups.antt =====
-- internal/server/user.go: the commands of `group|`, with `CreateGroup`, `JoinGroup` and `LeaveGroup` of
-- internal/server/server.go, and the texts of the errors of sending.
use im_system.Common.{ℕ, none, some, List, [], ◌∷◌, ◌++◌, if◌then◌else◌, Text, text_eq}
use im_system.Text.{bytes}
use im_system.Text.Trim.{trim_space}
use im_system.Db.{ok, err, error_text}
use im_system.Db.Users.{get_user_by_username}
use im_system.Db.Groups.{create_group, join_group, leave_group}
use im_system.Server.{User, Server, Env, send_msg}
use im_system.Server.Broadcast.{
  broadcast_to_group, SendError, sender_missing, receiver_missing, group_id_failed, group_missing,
}

-- `err.Error()` of the sending calls.
unfoldable pub send_error_text : SendError → Text
unfolding error_text
send_error_text (sender_missing e) = bytes "发送者不存在: " ++ error_text e
send_error_text (receiver_missing e) = bytes "接收者不存在: " ++ error_text e
send_error_text (group_id_failed e) = bytes "获取群组ID失败: " ++ error_text e
send_error_text group_missing = bytes "群组不存在或没有成员"

-- `CreateGroup`, `JoinGroup` and `LeaveGroup` of server.go on a name: the account is looked up first.
unfoldable pub group_create : Env → Server → ℕ → User → Text → Server
unfolding send_msg
group_create env s p u name = elim (get_user_by_username s.db u.name) [
  | err e ↦ send_msg s p (bytes "用户不存在: " ++ (error_text e ++ bytes "\n"))
  | ok account ↦
      let (db, r) = create_group s.db env.now name account.id [] in
      let s' = record s { db = db } in
      elim r [
        | err e ↦ send_msg s' p (error_text e ++ bytes "\n")
        | ok _ ↦ send_msg s' p (bytes "群组 " ++ (name ++ bytes " 创建成功\n"))
      ]
]

unfoldable pub group_join : Server → ℕ → User → Text → Server
unfolding send_msg
group_join s p u name = elim (get_user_by_username s.db u.name) [
  | err e ↦ send_msg s p (bytes "用户不存在: " ++ (error_text e ++ bytes "\n"))
  | ok account ↦
      let (db, r) = join_group s.db name account.id in
      let s' = record s { db = db } in
      elim r [
        | some e ↦ send_msg s' p (error_text e ++ bytes "\n")
        | none ↦ send_msg s' p (bytes "已加入群组 " ++ (name ++ bytes "\n"))
      ]
]

unfoldable pub group_leave : Server → ℕ → User → Text → Server
unfolding send_msg
group_leave s p u name = elim (get_user_by_username s.db u.name) [
  | err e ↦ send_msg s p (bytes "用户不存在: " ++ (error_text e ++ bytes "\n"))
  | ok account ↦
      let (db, r) = leave_group s.db name account.id in
      let s' = record s { db = db } in
      elim r [
        | some e ↦ send_msg s' p (error_text e ++ bytes "\n")
        | none ↦ send_msg s' p (bytes "已离开群组 " ++ (name ++ bytes "\n"))
      ]
]

unfoldable pub group_send : Env → Server → ℕ → User → Text → Text → Server
unfolding send_msg broadcast_to_group
group_send env s p u name content =
    let (s', e) = broadcast_to_group env s name u.name content u.avatar in
    elim e [ some e ↦ send_msg s' p (send_error_text e ++ bytes "\n") | none ↦ s' ]

-- The parts of `group|cmd|...`, by their number; each command wants its own.
unfoldable pub group_command : Env → Server → ℕ → User → List Text → Server
unfolding group_create group_join group_leave group_send send_msg trim_space
group_command env s p u (_ ∷ cmd ∷ rest) =
    let cmd' = trim_space cmd in
    if text_eq cmd' (bytes "create")
    then elim rest [
      | name ∷ [] ↦ group_create env s p u (trim_space name)
      | _ ↦ send_msg s p (bytes "创建群格式:group|create|群名\n")
    ]
    else if text_eq cmd' (bytes "join")
    then elim rest [
      | name ∷ [] ↦ group_join s p u (trim_space name)
      | _ ↦ send_msg s p (bytes "加入群格式:group|join|群名\n")
    ]
    else if text_eq cmd' (bytes "leave")
    then elim rest [
      | name ∷ [] ↦ group_leave s p u (trim_space name)
      | _ ↦ send_msg s p (bytes "离开群格式:group|leave|群名\n")
    ]
    else if text_eq cmd' (bytes "send")
    then elim rest [
      | name ∷ content ∷ [] ↦ group_send env s p u (trim_space name) (trim_space content)
      | _ ↦ send_msg s p (bytes "群聊发送格式:group|send|群名|消息\n")
    ]
    else send_msg s p (bytes "未知群聊命令\n")
group_command env s p u _ =
    send_msg s p
      (bytes "群聊命令格式错误,示例:group|create|群名 或 group|join|群名 或 group|leave|群名 或 group|send|群名|消息\n")
