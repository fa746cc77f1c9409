-- ===== src/Server/Commands.antt =====
-- internal/server/user.go: `DoMessage`, the commands of a TCP connection, with `Online` and `Offline`
-- and the calls of server.go that they make. `p` is the `*User`; what the code reads of it again after
-- a call is read again here.
pub mod Groups
pub mod Lifecycle
pub mod Replies
pub mod Reachable
mod Tests
use im_system.Common.{
  ℕ, ◌+◌, Bool, true, false, ◌&&◌, ◌||◌, not, Option, none, some, List, [], ◌∷◌, ◌++◌, ◌==◌,
  if◌then◌else◌, Text, text_eq, Assoc, lookup, length, get_elem?, is_some,
}
use im_system.Text.{bytes, has_prefix, to_lower}
use im_system.Text.Trim.{trim_space}
use im_system.Text.Split.{split, split_n}
use im_system.RateLimiter.{RateLimiter, allow}
use im_system.Model.{DbUser, UserPublic, DbGroup}
use im_system.Db.{Database, DbError, Result, ok, err, error_text}
use im_system.Db.Users.{Bcrypt, authenticate_user, register_user, get_user_by_username}
use im_system.Db.Groups.{create_group, join_group, leave_group}
use im_system.Username.{is_valid_username}
use im_system.Server.{User, Server, Env, modify, send_msg}
use im_system.Server.Presence.{new_user, put_online, take_offline, close_user, rename_user}
use im_system.Server.Broadcast.{
  broadcast, sys_online, sys_offline, send_private, broadcast_to_group, pointers, SendError,
  sender_missing, receiver_missing, group_id_failed, group_missing,
}
use Groups.{send_error_text, group_command}

-- A deferred use of `*u`; a pointer that the server handed out is never dangling.
unfoldable pub with_user : Server → ℕ → (User → Server) → Server
with_user s p f = elim (get_elem? s.users p) [ none ↦ s | some u ↦ f u ]

-- `Online`
unfoldable pub online : Env → Server → ℕ → Server
unfolding with_user put_online broadcast
online env s p =
    with_user s p
      λ u. (let s' = put_online s p u.name in with_user s' p (λ v. broadcast env s' v sys_online))

-- `Offline`
unfoldable pub offline : Env → Server → ℕ → Server
unfolding with_user take_offline broadcast close_user
offline env s p =
    let s' = take_offline s p in close_user (with_user s' p (λ u. broadcast env s' u sys_offline)) p

-- `Handler` on a new connection: `NewUser` and `Online`.
unfoldable pub connect : Env → Server → Text → Server × ℕ
unfolding new_user online
connect env s addr = let (s', p) = new_user s addr in (online env s' p, p)

-- `len(parts) == 3`, and the last two parts, trimmed.
unfoldable pub two_arguments : List Text → Option (Text × Text)
unfolding trim_space
two_arguments (a ∷ b ∷ c ∷ []) = some (trim_space b, trim_space c)
two_arguments _ = none

-- `u.Name = name`
unfoldable pub set_name : Server → ℕ → Text → Server
unfolding modify
set_name s p name = record s { users = modify p (λ u. record u { name = name }) s.users }

-- `u.Avatar = avatar; u.IsAuthenticated = true`
unfoldable pub set_authenticated : Server → ℕ → Text → Server
unfolding modify
set_authenticated s p avatar = record s {
  users = modify p (λ u. record u { avatar = avatar; is_authenticated = true }) s.users;
}

-- The end of a login whose password was right.
unfoldable pub enter : Env → Server → ℕ → Text → Server
unfolding set_authenticated online send_msg
enter env s p avatar = send_msg (online env (set_authenticated s p avatar) p) p (bytes "登录成功\n")

-- The name part of a login: the connection takes the account's name, unless somebody has it.
unfoldable pub take_name : Env → Server → ℕ → User → Text → Text → Server
unfolding rename_user set_name enter send_msg
take_name env s p u username avatar =
    if text_eq u.name username
    then enter env s p avatar
    else (let (s', done) = rename_user s u.name username in
        if done
        then enter env (set_name s' p username) p avatar
        else send_msg s' p (bytes "登录失败：用户名已被占用\n"))

module _ (b : Bcrypt) where
  unfoldable pub log_in : Env → Server → ℕ → User → Text → Text → Server
  unfolding is_valid_username take_name send_msg
  log_in env s p u username password =
      if not (is_valid_username username)
      then send_msg s p (bytes "用户名只能包含字母、数字、中文和下划线\n")
      else elim (authenticate_user b s.db username password) [
        | err e ↦ send_msg s p (bytes "用户名或密码错误\n")
        | ok account ↦ take_name env s p u username account.avatar
      ]

  unfoldable pub register : Env → Server → ℕ → Text → Text → Server
  unfolding is_valid_username send_msg
  register env s p username password =
      if not (is_valid_username username)
      then send_msg s p (bytes "用户名只能包含字母、数字、中文和下划线\n")
      else (let (db, e) = register_user b s.db env.salt env.now username password (bytes "👤") in
          let s' = record s { db = db } in
          elim e [
            | some e ↦ send_msg s' p (bytes "注册失败: " ++ (error_text e ++ bytes "\n"))
            | none ↦ send_msg s' p (bytes "注册成功，请使用 login|username|password 登录\n")
          ])

  -- What a connection may do before it has logged in.
  unfoldable pub guest_message : Env → Server → ℕ → User → Text → Server
  unfolding log_in register two_arguments send_msg
  guest_message env s p u msg =
      if has_prefix msg (bytes "login|")
      then (let (limiter, pass) = allow s.tcp_login_limiter env.now u.addr in
          let s' = record s { tcp_login_limiter = limiter } in
          if not pass
          then send_msg s' p (bytes "登录过于频繁,请稍后再试\n")
          else elim (two_arguments (split b'|' msg)) [
            | none ↦ send_msg s' p (bytes "登录格式错误,示例:login|username|password\n")
            | some (username, password) ↦ log_in env s' p u username password
          ])
      else if has_prefix msg (bytes "register|")
      then (let (limiter, pass) = allow s.tcp_register_limiter env.now u.addr in
          let s' = record s { tcp_register_limiter = limiter } in
          if not pass
          then send_msg s' p (bytes "注册过于频繁,请稍后再试\n")
          else elim (two_arguments (split b'|' msg)) [
            | none ↦ send_msg s' p (bytes "注册格式错误,示例:register|username|password\n")
            | some (username, password) ↦ register env s' p username password
          ])
      else send_msg s p (bytes "请先登录或注册,格式:login|username|password 或 register|username|password\n")

-- `who`: a line for each online user of another name.
unfoldable pub who_lines : Server → ℕ → Text → List ℕ → Server
unfolding send_msg with_user
who_lines s p name [] = s
who_lines s p name (q ∷ qs) =
    who_lines
      (with_user s q λ v.
        (if text_eq v.name name
          then s
          else send_msg s p
              (bytes "[" ++ (v.addr ++ (bytes "]" ++ (v.name ++ (bytes ":" ++ bytes "在线...\n")))))))
      p name qs

-- `rename|newname`: the name of the connection, not of an account.
unfoldable pub rename_command : Server → ℕ → User → Text → Server
unfolding rename_user set_name send_msg
rename_command s p u new_name =
    let (s', done) = rename_user s u.name new_name in
    if done
    then send_msg (set_name s' p new_name) p (bytes "您已成功更新用户名:" ++ (new_name ++ bytes "\n"))
    else send_msg s' p (bytes "当前用户名已被使用\n")

unfoldable pub private_command : Env → Server → ℕ → User → Text → Text → Server
unfolding send_private send_msg
private_command env s p u target content =
    let (s', e) = send_private env s u.name target content u.avatar in
    elim e [
      | some e ↦ send_msg s' p (send_error_text e ++ bytes "\n")
      | none ↦ send_msg s' p (bytes "[已发送] " ++ (content ++ bytes "\n"))
    ]

-- `strings.TrimSpace(part) == ""` is refused, else the trimmed part is used.
unfoldable pub non_blank : Text → Option Text
unfolding trim_space
non_blank part = let t = trim_space part in if text_eq t [] then none else some t

unfoldable pub rename_arguments : List Text → Option Text
unfolding non_blank
rename_arguments (_ ∷ name ∷ []) = non_blank name
rename_arguments _ = none

unfoldable pub private_arguments : List Text → Option (Text × Text)
unfolding non_blank
private_arguments (_ ∷ target ∷ content ∷ []) = elim (non_blank target) [
  | none ↦ none
  | some t ↦ elim (non_blank content) [ none ↦ none | some c ↦ some (t, c) ]
]
private_arguments _ = none

-- What a connection may do when it has logged in.
unfoldable pub member_message : Env → Server → ℕ → User → Text → Server
unfolding trim_space to_lower has_prefix who_lines rename_command private_command group_command
    broadcast send_msg
member_message env s p u raw =
    let msg = trim_space raw in
    let lower = to_lower msg in
    if text_eq lower (bytes "who")
    then who_lines s p u.name (pointers s.online_map)
    else if has_prefix lower (bytes "rename|")
    then elim (rename_arguments (split_n b'|' 1 msg)) [
      | none ↦ send_msg s p (bytes "rename 命令格式错误,示例:rename|newname\n")
      | some name ↦ rename_command s p u name
    ]
    else if has_prefix lower (bytes "to|")
    then elim (private_arguments (split_n b'|' 2 msg)) [
      | none ↦ send_msg s p (bytes "私聊命令格式错误,示例:to|username|hello\n")
      | some (target, content) ↦ private_command env s p u target content
    ]
    else if has_prefix lower (bytes "group|")
    then group_command env s p u (split_n b'|' 3 msg)
    else broadcast env s u msg

-- The select of `Handler` when the idle timer fires.
unfoldable pub kick : Env → Server → ℕ → Server
unfolding offline send_msg
kick env s p = offline env (send_msg s p (bytes "你已被踢出")) p

module _ (b : Bcrypt) where
  -- `DoMessage`
  unfoldable pub do_message : Env → Server → ℕ → Text → Server
  unfolding with_user guest_message member_message
  do_message env s p msg = with_user s p λ u.
      (if u.is_authenticated then member_message env s p u msg else guest_message b env s p u msg)

  -- A line that the scanner of `Handler` reads: blank lines are skipped.
  unfoldable pub read_line : Env → Server → ℕ → Text → Server
  unfolding do_message trim_space
  read_line env s p line =
      let msg = trim_space line in if text_eq msg [] then s else do_message env s p msg
