-- ===== src/Server/Web/Steps/Profiles.antt =====
-- internal/server/web.go: the handlers of profiles and avatars, and the invariant of a running server.
use im_system.Common.{refl, ◌||◌, Option, none, some, [], if◌then◌else◌, Text, text_eq, Assoc}
use im_system.Text.{bytes}
use im_system.Text.Trim.{trim_space}
use im_system.Session.{get_username}
use im_system.Db.Users.{get_user_by_username}
use im_system.Db.Invariant.{set_profile-DbOk, set_avatar-DbOk}
use im_system.Server.{Server, Env}
use im_system.Server.Avatar.{
  update_avatar, store_path, save_avatar_file, AvatarError, Saved, saved, failed,
}
use im_system.Server.Live.{Live, Live-same, saved-Live}
use im_system.Server.Web.{Reply, is_blank}
use im_system.Server.Web.Profile.{
  ProfileQuery, ProfileBody, show_profile, get_profile, post_profile, handle_profile, handle_avatar,
}
use im_system.Server.Web.Steps.{LiveReply, reply, if-LiveReply, option-LiveReply}
use im_system.Server.Web.Steps.Requests.{result-LiveReply, looked_up}

show_profile-LiveReply :
    (s : Server) (username user : Text) → Live s → LiveReply (show_profile s username user)
unfolding show_profile
show_profile-LiveReply s username user v =
    let target = if text_eq (trim_space user) [] then username else trim_space user in
    if-LiveReply (text_eq target []) (reply v)
      (result-LiveReply (get_user_by_username s.db target) (λ e. reply v) (λ u. reply v))

get_profile-LiveReply :
    (env : Env) (s : Server) (q : ProfileQuery) → Live s → LiveReply (get_profile env s q)
unfolding get_profile
get_profile-LiveReply env s q v =
    let v' = looked_up env s q.token v in
    if-LiveReply (text_eq q.context_user [])
      (if-LiveReply (text_eq q.token []) (reply v) (
        option-LiveReply (get_username s.sessions env.now q.token).1 (reply v')
          (λ username. show_profile-LiveReply _ username q.user v')))
      (show_profile-LiveReply s q.context_user q.user v)

post_profile-LiveReply :
    (env : Env) (s : Server) (body : Option ProfileBody) (from_request : Text)
    → Live s
    → LiveReply (post_profile env s body from_request)
unfolding post_profile
post_profile-LiveReply env s none from_request v = reply v
post_profile-LiveReply env s (some body) from_request v =
    let token = if text_eq body.token [] then from_request else body.token in
    let v' = looked_up env s token v in
    if-LiveReply (is_blank token) (reply v) (
      option-LiveReply (get_username s.sessions env.now token).1 (reply v') (λ username.
        reply
          (saved-Live _ _ (set_profile-DbOk s.db username body.gender body.signature v.db_ok) v')))

pub handle_profile-LiveReply :
    (env : Env) (s : Server) (method : Text) (q : ProfileQuery) (body : Option ProfileBody)
    → Live s
    → LiveReply (handle_profile env s method q body)
unfolding handle_profile
handle_profile-LiveReply env s method q body v =
    if-LiveReply (text_eq method (bytes "GET")) (get_profile-LiveReply env s q v) (
      if-LiveReply (text_eq method (bytes "POST")) (post_profile-LiveReply env s body q.token v)
        (reply v))

store_path-Live :
    (s : Server) (username : Text) (r : Assoc Text × Saved)
    → Live s
    → Live (store_path s username r).0
unfolding store_path
store_path-Live s username (files, failed e) v =
    Live-same
      (record {
        same_users = refl;
        same_map = refl;
        same_panicked = refl;
        same_db = refl;
        same_sockets = λ k. k;
      })
      v
store_path-Live s username (files, saved path) v =
    saved-Live (record s { avatar_files = files }) _ (set_avatar-DbOk s.db username path v.db_ok)
      (Live-same
        (record {
          same_users = refl;
          same_map = refl;
          same_panicked = refl;
          same_db = refl;
          same_sockets = λ k. k;
        })
        v)

update_avatar-Live :
    (s : Server) (username avatar : Text) → Live s → Live (update_avatar s username avatar).0
unfolding update_avatar
update_avatar-Live s username avatar v =
    store_path-Live s username (save_avatar_file s.avatar_files username avatar) v

saved-LiveReply :
    (s : Server) (r : Saved) (q : AvatarError → Reply) (f : Text → Reply)
    → Live s
    → LiveReply (elim r [ failed e ↦ (s, q e) | saved path ↦ (s, f path) ])
saved-LiveReply s (failed e) q f v = reply v
saved-LiveReply s (saved path) q f v = reply v

pub handle_avatar-LiveReply :
    (env : Env) (s : Server) (body : Option (Text × Text))
    → Live s
    → LiveReply (handle_avatar env s body)
unfolding handle_avatar
handle_avatar-LiveReply env s none v = reply v
handle_avatar-LiveReply env s (some (token, avatar)) v =
    let v' = looked_up env s token v in
    if-LiveReply (is_blank token || is_blank avatar) (reply v) (
      option-LiveReply (get_username s.sessions env.now token).1 (reply v') (λ username.
        (let s' : Server = record s { sessions = (get_username s.sessions env.now token).0 } in
          let (s'', result) = update_avatar s' username avatar in
          saved-LiveReply s'' result _ _ (update_avatar-Live s' username avatar v'))))
