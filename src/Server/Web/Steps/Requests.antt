-- ===== src/Server/Web/Steps/Requests.antt =====
-- internal/server/web.go: the handlers of groups and friends, and the invariant of a running server.
use im_system.Common.{refl, ◌||◌, not, Option, none, some, [], ◌==◌, Text, text_eq}
use im_system.Text.{bytes}
use im_system.Session.{get_username}
use im_system.Model.{UserPublic, DbGroup}
use im_system.Db.{Database, DbError, Result, ok, err}
use im_system.Db.Users.{get_user_by_username}
use im_system.Db.Groups.{create_group, get_group_by_name}
use im_system.Db.Invariant.{
  create_group-DbOk, join_group-DbOk, leave_group-DbOk, add_friend-DbOk, remove_friend-DbOk,
}
use im_system.Db.Invariant.Tables.{DbOk}
use im_system.Server.{Server, Env}
use im_system.Server.Live.{Live, Live-same, saved-Live}
use im_system.Server.Web.{Reply, is_blank}
use im_system.Server.Web.Groups.{
  GroupBody, answered, web_create_group, web_invite, web_kick, group_action, handle_group,
}
use im_system.Server.Web.Friends.{FriendBody, friend_action, handle_friend}
use im_system.Server.Web.Steps.{LiveReply, reply, if-LiveReply, option-LiveReply}

pub result-LiveReply {ℓ} :
    {A : Type ℓ} (o : Result A) {q : DbError → Server × Reply} {f : A → Server × Reply}
    → ((e : DbError) → LiveReply (q e))
    → ((a : A) → LiveReply (f a))
    → LiveReply (elim o [ err e ↦ q e | ok a ↦ f a ])
result-LiveReply (err e) v w = v e
result-LiveReply (ok a) v w = w a

-- The sessions are not part of the invariant.
pub looked_up :
    (env : Env) (s : Server) (token : Text)
    → Live s
    → Live (record s { sessions = (get_username s.sessions env.now token).0 })
looked_up env s token v =
    Live-same
      (record {
        same_users = refl;
        same_map = refl;
        same_panicked = refl;
        same_db = refl;
        same_sockets = λ k. k;
      })
      v

answered-LiveReply :
    (s : Server) (good : Reply) (r : Database × Option DbError)
    → DbOk r.0
    → Live s
    → LiveReply (answered s good r)
unfolding answered
answered-LiveReply s good (db, none) h v = reply (saved-Live s db h v)
answered-LiveReply s good (db, some e) h v = reply (saved-Live s db h v)

web_create_group-LiveReply :
    (env : Env) (s : Server) (body : GroupBody) (user : UserPublic)
    → Live s
    → LiveReply (web_create_group env s body.group_name user.id)
unfolding web_create_group
web_create_group-LiveReply env s body user v =
    let r = create_group s.db env.now body.group_name user.id [] in
    let saved =
      saved-Live s r.0 (create_group-DbOk s.db env.now body.group_name user.id [] v.db_ok) v in
    result-LiveReply r.1 (λ e. reply saved) (λ g. reply saved)

web_invite-LiveReply :
    (s : Server) (body : GroupBody)
    → Live s
    → LiveReply (web_invite s body.group_name body.member_name)
unfolding web_invite
web_invite-LiveReply s body v = if-LiveReply (is_blank body.member_name) (reply v) (
    result-LiveReply (get_user_by_username s.db body.member_name) (λ e. reply v)
      (λ (u : UserPublic).
        answered-LiveReply s _ _ (join_group-DbOk s.db body.group_name u.id v.db_ok) v))

web_kick-LiveReply :
    (s : Server) (user : UserPublic) (body : GroupBody)
    → Live s
    → LiveReply (web_kick s user.id body.group_name body.member_name)
unfolding web_kick
web_kick-LiveReply s user body v = if-LiveReply (is_blank body.member_name) (reply v) (
    result-LiveReply (get_group_by_name s.db body.group_name) (λ e. reply v)
      (λ (g : DbGroup). if-LiveReply (not (g.creator_id == user.id)) (reply v) (
        result-LiveReply (get_user_by_username s.db body.member_name) (λ e. reply v)
          (λ (u : UserPublic).
            answered-LiveReply s _ _ (leave_group-DbOk s.db body.group_name u.id v.db_ok) v))))

group_action-LiveReply :
    (env : Env) (s : Server) (user : UserPublic) (body : GroupBody)
    → Live s
    → LiveReply (group_action env s user.id body)
unfolding group_action
group_action-LiveReply env s user body v =
    if-LiveReply (text_eq body.action (bytes "create"))
      (web_create_group-LiveReply env s body user v)
      (if-LiveReply (text_eq body.action (bytes "join"))
        (answered-LiveReply s _ _ (join_group-DbOk s.db body.group_name user.id v.db_ok) v)
        (if-LiveReply (text_eq body.action (bytes "leave"))
          (answered-LiveReply s _ _ (leave_group-DbOk s.db body.group_name user.id v.db_ok) v)
          (if-LiveReply (text_eq body.action (bytes "invite")) (web_invite-LiveReply s body v) (
            if-LiveReply (text_eq body.action (bytes "kick")) (web_kick-LiveReply s user body v)
              (reply v)))))

pub handle_group-LiveReply :
    (env : Env) (s : Server) (body : Option GroupBody)
    → Live s
    → LiveReply (handle_group env s body)
unfolding handle_group
handle_group-LiveReply env s none v = reply v
handle_group-LiveReply env s (some body) v =
    let v' = looked_up env s body.token v in
    if-LiveReply (is_blank body.token || is_blank body.action || is_blank body.group_name) (reply v)
      (option-LiveReply (get_username s.sessions env.now body.token).1 (reply v') (λ username.
        result-LiveReply (get_user_by_username s.db username) (λ e. reply v')
          (λ (u : UserPublic). group_action-LiveReply env _ u body v')))

friend_action-LiveReply :
    (s : Server) (username : Text) (body : FriendBody)
    → Live s
    → LiveReply (friend_action s username body)
unfolding friend_action
friend_action-LiveReply s username body v =
    result-LiveReply (get_user_by_username s.db username) (λ e. reply v)
      (λ (u : UserPublic). if-LiveReply (is_blank body.friend) (reply v) (
        result-LiveReply (get_user_by_username s.db body.friend) (λ e. reply v)
          (λ (f : UserPublic).
            if-LiveReply (text_eq body.action (bytes "add"))
              (answered-LiveReply s _ _ (add_friend-DbOk s.db u.id f.id v.db_ok) v)
              (if-LiveReply (text_eq body.action (bytes "remove"))
                (answered-LiveReply s _ _ (remove_friend-DbOk s.db u.id f.id v.db_ok) v)
                (reply v)))))

pub handle_friend-LiveReply :
    (env : Env) (s : Server) (body : Option FriendBody)
    → Live s
    → LiveReply (handle_friend env s body)
unfolding handle_friend
handle_friend-LiveReply env s none v = reply v
handle_friend-LiveReply env s (some body) v =
    let v' = looked_up env s body.token v in
    if-LiveReply (is_blank body.token) (reply v) (
      option-LiveReply (get_username s.sessions env.now body.token).1 (reply v')
        (λ username. friend_action-LiveReply _ username body v'))
