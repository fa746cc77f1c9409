-- ===== src/Server/Commands/Replies.antt =====
-- internal/server/user.go: the commands of a connection and the invariant of a running server.
use im_system.Common.{
  ℕ, refl, sym, Bool, true, false, not, Option, none, some, List, [], ◌∷◌, if◌then◌else◌, get_elem?,
  Text, text_eq, inl, inr, subst,
}
use im_system.Text.{bytes}
use im_system.Db.{DbError, Result, ok, err}
use im_system.Db.Users.{Bcrypt, authenticate_user, register_user, get_user_by_username}
use im_system.RateLimiter.{allow}
use im_system.Model.{DbUser, UserPublic}
use im_system.Db.Groups.{create_group, join_group, leave_group}
use im_system.Text.{has_prefix, to_lower}
use im_system.Text.Trim.{trim_space}
use im_system.Text.Split.{split, split_n}
use im_system.Username.{is_valid_username}
use im_system.Db.Invariant.{create_group-DbOk, join_group-DbOk, leave_group-DbOk, register-DbOk}
use im_system.Server.{User, Server, Env}
use im_system.Server.Live.{Live, send_msg-Live, saved-Live, Live-same}
use im_system.Server.Live.Kept.{broadcast-Live}
use im_system.Server.Live.Deliveries.{send_private-Live, broadcast_to_group-Live}
use im_system.Server.Broadcast.{pointers, send_private, broadcast_to_group}
use im_system.Server.Presence.{rename_user}
use im_system.Server.Commands.{
  with_user, log_in, register, guest_message, who_lines, rename_command, private_command,
  member_message, do_message, read_line, set_name, rename_arguments, private_arguments,
  two_arguments,
}
use im_system.Server.Commands.Groups.{
  group_create, group_join, group_leave, group_send, group_command,
}
use im_system.Server.Commands.Lifecycle.{Open, with_user-there, take_name-Live, rename_user-cases}
use im_system.Server.Presence.Renames.{renamed-Live}

pub if-Live : (c : Bool) {s t : Server} → Live s → Live t → Live (if c then s else t)
if-Live true v w = v
if-Live false v w = w

pub option-Live {ℓ} :
    {A : Type ℓ} (o : Option A) {s : Server} {f : A → Server}
    → Live s
    → ((a : A) → Live (f a))
    → Live (elim o [ none ↦ s | some a ↦ f a ])
option-Live none v w = v
option-Live (some a) v w = w a

result-Live {ℓ} :
    {A : Type ℓ} (o : Result A) {f : DbError → Server} {g : A → Server}
    → ((e : DbError) → Live (f e))
    → ((a : A) → Live (g a))
    → Live (elim o [ err e ↦ f e | ok a ↦ g a ])
result-Live (err e) v w = v e
result-Live (ok a) v w = w a

who_lines-Live :
    (p : ℕ) (name : Text) (qs : List ℕ) (s : Server) → Live s → Live (who_lines s p name qs)
unfolding who_lines with_user
who_lines-Live p name [] s v = v
who_lines-Live p name (q ∷ qs) s v = who_lines-Live p name qs _ (
    option-Live (get_elem? s.users q) v
      (λ w. if-Live (text_eq w.name name) v (search send_msg-Live)))

private_command-Live :
    (env : Env) (s : Server) (p : ℕ) (u : User) (target content : Text)
    → Live s
    → Live (private_command env s p u target content)
unfolding private_command
private_command-Live env s p u target content v =
    let sent = send_private-Live env s u.name target content u.avatar v in
    option-Live (send_private env s u.name target content u.avatar).1 (search send_msg-Live)
      (λ e. search send_msg-Live)

rename_command-Live :
    (s : Server) (p : ℕ) (u : User) (new : Text)
    → Live s
    → Open s p u
    → Live (rename_command s p u new)
unfolding rename_command
rename_command-Live s p u new v o = elim (rename_user-cases s p u new v o) [
  | inl failed ↦ rw failed (search send_msg-Live)
  | inr (free, stored, done) ↦
      let moved : Live (set_name (rename_user s u.name new).0 p new) =
        subst Live (sym stored) (renamed-Live s p u new v o.is_there o.is_open free) in
      rw done (search send_msg-Live)
]

group_create-Live :
    (env : Env) (s : Server) (p : ℕ) (u : User) (name : Text)
    → Live s
    → Live (group_create env s p u name)
unfolding group_create
group_create-Live env s p u name v =
    result-Live (get_user_by_username s.db u.name) (λ e. search send_msg-Live)
      (λ (account : UserPublic).
        (let saved = saved-Live s _ (create_group-DbOk s.db env.now name account.id [] v.db_ok) v in
          result-Live (create_group s.db env.now name account.id []).1 (λ e. search send_msg-Live)
            (λ g. search send_msg-Live)))

group_join-Live :
    (s : Server) (p : ℕ) (u : User) (name : Text) → Live s → Live (group_join s p u name)
unfolding group_join
group_join-Live s p u name v =
    result-Live (get_user_by_username s.db u.name) (λ e. search send_msg-Live)
      (λ (account : UserPublic).
        (let saved = saved-Live s _ (join_group-DbOk s.db name account.id v.db_ok) v in
          option-Live (join_group s.db name account.id).1 (search send_msg-Live)
            (λ e. search send_msg-Live)))

group_leave-Live :
    (s : Server) (p : ℕ) (u : User) (name : Text) → Live s → Live (group_leave s p u name)
unfolding group_leave
group_leave-Live s p u name v =
    result-Live (get_user_by_username s.db u.name) (λ e. search send_msg-Live)
      (λ (account : UserPublic).
        (let saved = saved-Live s _ (leave_group-DbOk s.db name account.id v.db_ok) v in
          option-Live (leave_group s.db name account.id).1 (search send_msg-Live)
            (λ e. search send_msg-Live)))

group_send-Live :
    (env : Env) (s : Server) (p : ℕ) (u : User) (name content : Text)
    → Live s
    → Live (group_send env s p u name content)
unfolding group_send
group_send-Live env s p u name content v =
    let sent = broadcast_to_group-Live env s name u.name content u.avatar v in
    option-Live (broadcast_to_group env s name u.name content u.avatar).1 sent
      (λ e. search send_msg-Live)

group_command-Live :
    (env : Env) (s : Server) (p : ℕ) (u : User) (parts : List Text)
    → Live s
    → Live (group_command env s p u parts)
unfolding group_command
group_command-Live env s p u [] v = search send_msg-Live
group_command-Live env s p u (a ∷ []) v = search send_msg-Live
group_command-Live env s p u (a ∷ cmd ∷ []) v =
    let word = trim_space cmd in
    if-Live (text_eq word (bytes "create")) (search send_msg-Live) (
      if-Live (text_eq word (bytes "join")) (search send_msg-Live) (
        if-Live (text_eq word (bytes "leave")) (search send_msg-Live)
          (if-Live (text_eq word (bytes "send")) (search send_msg-Live) (search send_msg-Live))))
group_command-Live env s p u (a ∷ cmd ∷ name ∷ []) v =
    let word = trim_space cmd in
    if-Live (text_eq word (bytes "create")) (group_create-Live env s p u (trim_space name) v) (
      if-Live (text_eq word (bytes "join")) (group_join-Live s p u (trim_space name) v) (
        if-Live (text_eq word (bytes "leave")) (group_leave-Live s p u (trim_space name) v)
          (if-Live (text_eq word (bytes "send")) (search send_msg-Live) (search send_msg-Live))))
group_command-Live env s p u (a ∷ cmd ∷ name ∷ content ∷ []) v =
    let word = trim_space cmd in
    if-Live (text_eq word (bytes "create")) (search send_msg-Live) (
      if-Live (text_eq word (bytes "join")) (search send_msg-Live) (
        if-Live (text_eq word (bytes "leave")) (search send_msg-Live) (
          if-Live (text_eq word (bytes "send"))
            (group_send-Live env s p u (trim_space name) (trim_space content) v)
            (search send_msg-Live))))
group_command-Live env s p u (a ∷ cmd ∷ name ∷ content ∷ more ∷ rest) v =
    let word = trim_space cmd in
    if-Live (text_eq word (bytes "create")) (search send_msg-Live) (
      if-Live (text_eq word (bytes "join")) (search send_msg-Live) (
        if-Live (text_eq word (bytes "leave")) (search send_msg-Live)
          (if-Live (text_eq word (bytes "send")) (search send_msg-Live) (search send_msg-Live))))

member_message-Live :
    (env : Env) (s : Server) (p : ℕ) (u : User) (raw : Text)
    → Live s
    → Open s p u
    → Live (member_message env s p u raw)
unfolding member_message
member_message-Live env s p u raw v o =
    let msg = trim_space raw in
    let lower = to_lower msg in
    if-Live (text_eq lower (bytes "who")) (who_lines-Live p u.name (pointers s.online_map) s v) (
      if-Live (has_prefix lower (bytes "rename|"))
        (option-Live (rename_arguments (split_n b'|' 1 msg)) (search send_msg-Live)
          (λ name. rename_command-Live s p u name v o))
        (if-Live (has_prefix lower (bytes "to|"))
          (option-Live (private_arguments (split_n b'|' 2 msg)) (search send_msg-Live)
            (λ (a : Text × Text). private_command-Live env s p u a.0 a.1 v))
          (if-Live (has_prefix lower (bytes "group|"))
            (group_command-Live env s p u (split_n b'|' 3 msg) v) (broadcast-Live env s u msg v))))

module _ (b : Bcrypt) where
  log_in-Live :
      (env : Env) (s : Server) (p : ℕ) (u : User) (username password : Text)
      → Live s
      → Open s p u
      → Live (log_in b env s p u username password)
  unfolding log_in
  log_in-Live env s p u username password v o =
      if-Live (not (is_valid_username username)) (search send_msg-Live) (
        result-Live (authenticate_user b s.db username password) (λ e. search send_msg-Live)
          (λ (account : DbUser). take_name-Live env s p u username account.avatar v o))

  register-Live :
      (env : Env) (s : Server) (p : ℕ) (username password : Text)
      → Live s
      → Live (register b env s p username password)
  unfolding register
  register-Live env s p username password v =
      let saved =
        saved-Live s _ (register-DbOk b s.db env.salt env.now username password (bytes "👤") v.db_ok)
          v in
      if-Live (not (is_valid_username username)) (search send_msg-Live) (
        option-Live (register_user b s.db env.salt env.now username password (bytes "👤")).1
          (search send_msg-Live) (λ e. search send_msg-Live))

  guest_message-Live :
      (env : Env) (s : Server) (p : ℕ) (u : User) (msg : Text)
      → Live s
      → Open s p u
      → Live (guest_message b env s p u msg)
  unfolding guest_message
  guest_message-Live env s p u msg v o =
      let login = allow s.tcp_login_limiter env.now u.addr in
      let registration = allow s.tcp_register_limiter env.now u.addr in
      let v_login : Live (record s { tcp_login_limiter = login.0 }) =
        Live-same
          (record {
            same_users = refl;
            same_map = refl;
            same_panicked = refl;
            same_db = refl;
            same_sockets = λ k. k;
          })
          v in
      let v_registration : Live (record s { tcp_register_limiter = registration.0 }) =
        Live-same
          (record {
            same_users = refl;
            same_map = refl;
            same_panicked = refl;
            same_db = refl;
            same_sockets = λ k. k;
          })
          v in
      let o_login : Open (record s { tcp_login_limiter = login.0 }) p u = record {
        is_there = o.is_there;
        is_open = o.is_open;
      } in
      if-Live (has_prefix msg (bytes "login|"))
        (if-Live (not login.1) (search send_msg-Live) (
          option-Live (two_arguments (split b'|' msg)) (search send_msg-Live) (λ (a : Text × Text).
            log_in-Live env (record s { tcp_login_limiter = login.0 }) p u a.0 a.1 v_login
              o_login)))
        (if-Live (has_prefix msg (bytes "register|"))
          (if-Live (not registration.1) (search send_msg-Live) (
            option-Live (two_arguments (split b'|' msg)) (search send_msg-Live)
              (λ (a : Text × Text).
                register-Live env (record s { tcp_register_limiter = registration.0 }) p a.0 a.1
                  v_registration)))
          (search send_msg-Live))

  do_message-Live :
      (env : Env) (s : Server) (p : ℕ) (u : User) (msg : Text)
      → Live s
      → Open s p u
      → Live (do_message b env s p msg)
  unfolding do_message
  do_message-Live env s p u msg v o = subst Live (sym (with_user-there s p u _ o.is_there)) (
      if-Live u.is_authenticated (member_message-Live env s p u msg v o)
        (guest_message-Live env s p u msg v o))

  pub read_line-Live :
      (env : Env) (s : Server) (p : ℕ) (u : User) (line : Text)
      → Live s
      → Open s p u
      → Live (read_line b env s p line)
  unfolding read_line
  read_line-Live env s p u line v o =
      if-Live (text_eq (trim_space line) []) v (do_message-Live env s p u (trim_space line) v o)
