-- ===== src/Server/Web/Steps.antt =====
-- internal/server/web.go: the handlers and the invariant of a running server.
pub mod Requests
pub mod Profiles
pub mod Queries
pub mod Routes
use im_system.Common.{
  refl, Bool, true, false, ◌&&◌, ◌||◌, not, Option, none, some, [], if◌then◌else◌, Text, text_eq,
  lookup, Bool-cases, Option-cases, inl, inr, ltb, length, is_some,
}
use im_system.Text.{bytes}
use im_system.RateLimiter.{allow}
use im_system.Session.{create, get_username, update_username, delete}
use im_system.Username.{is_valid_username}
use im_system.Text.Trim.{trim_space}
use im_system.Db.Groups.Rows.{Result-cases}
use im_system.Db.Invariant.{register-DbOk}
use im_system.Server.Presence.Sockets.{rename-SocketsOk}
use im_system.Server.Presence.{rename_ws_client, is_name_taken}
use im_system.Db.Users.{Bcrypt, authenticate_user, register_user}
use im_system.Server.{Server, Env}
use im_system.Server.Live.{Live, Live-same, saved-Live}
use im_system.Server.Live.Kept.{broadcast_public-Live}
use im_system.Server.Live.Deliveries.{send_private-Live, broadcast_to_group-Live}
use im_system.Server.Broadcast.{send_private, broadcast_to_group, broadcast_from_web, SendError}
use im_system.Server.Web.{
  Reply, is_blank, login, handle_login, handle_register, handle_logout, handle_rename,
}
use im_system.Server.Web.Send.{SendBody, avatar_of, sent_or_error, send_as, handle_send}

-- A handler's answer is given at a live server.
pub record LiveReply (r : Server × Reply) : Type 0 where
  pub live : Live r.0

pub reply : {s : Server} {a : Reply} → Live s → LiveReply (s, a)
reply v = record { live = v }

pub if-LiveReply :
    (c : Bool) {q r : Server × Reply} → LiveReply q → LiveReply r → LiveReply (if c then q else r)
if-LiveReply true v w = v
if-LiveReply false v w = w

pub option-LiveReply {ℓ} :
    {A : Type ℓ} (o : Option A) {q : Server × Reply} {f : A → Server × Reply}
    → LiveReply q
    → ((a : A) → LiveReply (f a))
    → LiveReply (elim o [ none ↦ q | some a ↦ f a ])
option-LiveReply none v w = v
option-LiveReply (some a) v w = w a

sent-LiveReply : (r : Server × Option SendError) → Live r.0 → LiveReply (sent_or_error r)
sent-LiveReply (s, none) v = reply v
sent-LiveReply (s, some e) v = reply v

send_as-LiveReply :
    (env : Env) (s : Server) (name : Text) (body : SendBody)
    → Live s
    → LiveReply (send_as env s name body)
unfolding send_as broadcast_from_web
send_as-LiveReply env s name body v =
    if-LiveReply (text_eq body.mode (bytes "private"))
      (sent-LiveReply (send_private env s name body.to body.message (avatar_of s name))
        (send_private-Live env s name body.to body.message (avatar_of s name) v))
      (if-LiveReply (text_eq body.mode (bytes "group"))
        (sent-LiveReply (broadcast_to_group env s body.to name body.message (avatar_of s name))
          (broadcast_to_group-Live env s body.to name body.message (avatar_of s name) v))
        (reply (broadcast_public-Live env s name body.message (avatar_of s name) false v)))

handle_send-LiveReply :
    (env : Env) (s : Server) (ip : Text) (body : Option SendBody)
    → Live s
    → LiveReply (handle_send env s ip body)
unfolding handle_send
handle_send-LiveReply env s ip body v =
    let r = allow s.send_limiter env.now ip in
    let s' : Server = record s { send_limiter = r.0 } in
    let v' : Live s' =
      Live-same
        (record {
          same_users = refl;
          same_map = refl;
          same_panicked = refl;
          same_db = refl;
          same_sockets = λ k. k;
        })
        v in
    if-LiveReply (not r.1) (reply v') (
      option-LiveReply body (reply v') (λ (body : SendBody).
        (let found = get_username s.sessions env.now body.token in
          let s'' : Server = record s' { sessions = found.0 } in
          let v'' : Live s'' =
            Live-same
              (record {
                same_users = refl;
                same_map = refl;
                same_panicked = refl;
                same_db = refl;
                same_sockets = λ k. k;
              })
              v' in
          if-LiveReply (is_blank body.token || is_blank body.message) (reply v') (
            option-LiveReply found.1 (reply v'') (λ name.
              if-LiveReply (text_eq body.mode (bytes "private") && is_blank body.to) (reply v'') (
                if-LiveReply (text_eq body.mode (bytes "group") && is_blank body.to) (reply v'')
                  (send_as-LiveReply env s'' name body v'')))))))

pub handle_send-Live :
    (env : Env) (s : Server) (ip : Text) (body : Option SendBody)
    → Live s
    → Live (handle_send env s ip body).0
handle_send-Live env s ip body v = (handle_send-LiveReply env s ip body v).live

-- The other handlers leave the users alone.
module _ (b : Bcrypt) where
  login-LiveReply :
      (env : Env) (s : Server) (username password : Text) (drawn : Option Text)
      → Live s
      → LiveReply (login b env s username password drawn)
  unfolding login
  login-LiveReply env s username password drawn v =
      if-LiveReply (is_blank username || is_blank password) (reply v) (
        if-LiveReply (not (is_valid_username username)) (reply v)
          (elim (Result-cases (authenticate_user b s.db username password)) [
            | inr (e, wrong) ↦ rw wrong (reply v)
            | inl (u, right) ↦
                let opened : Live (record s {
                  sessions = (create s.sessions drawn env.now username s.session_ttl).0;
                }) =
                  Live-same
                    (record {
                      same_users = refl;
                      same_map = refl;
                      same_panicked = refl;
                      same_db = refl;
                      same_sockets = λ k. k;
                    })
                    v in
                rw right (
                  option-LiveReply (create s.sessions drawn env.now username s.session_ttl).1
                    (reply opened) (λ t. reply opened))
          ]))

  pub handle_login-Live :
      (env : Env) (s : Server) (ip : Text) (body : Option (Text × Text)) (drawn : Option Text)
      → Live s
      → Live (handle_login b env s ip body drawn).0
  unfolding handle_login
  handle_login-Live env s ip body drawn v =
      let r = allow s.login_limiter env.now ip in
      let s' : Server = record s { login_limiter = r.0 } in
      let v' : Live s' =
        Live-same
          (record {
            same_users = refl;
            same_map = refl;
            same_panicked = refl;
            same_db = refl;
            same_sockets = λ k. k;
          })
          v in
      let whole : LiveReply (handle_login b env s ip body drawn) =
        if-LiveReply (not r.1) (reply v') (
          option-LiveReply body (reply v')
            (λ (p : Text × Text). login-LiveReply env s' p.0 p.1 drawn v')) in
      whole.live

  pub handle_register-Live :
      (env : Env) (s : Server) (ip : Text) (body : Option (Text × Text × Text))
      → Live s
      → Live (handle_register b env s ip body).0
  unfolding handle_register
  handle_register-Live env s ip body v =
      let r = allow s.register_limiter env.now ip in
      let s' : Server = record s { register_limiter = r.0 } in
      let v' : Live s' =
        Live-same
          (record {
            same_users = refl;
            same_map = refl;
            same_panicked = refl;
            same_db = refl;
            same_sockets = λ k. k;
          })
          v in
      let whole : LiveReply (handle_register b env s ip body) = if-LiveReply (not r.1) (reply v') (
        option-LiveReply body (reply v') (λ (p : Text × Text × Text).
          (let done = register_user b s.db env.salt env.now p.0 p.1 p.2 in
            let v'' =
              saved-Live s' done.0 (register-DbOk b s.db env.salt env.now p.0 p.1 p.2 v.db_ok) v' in
            if-LiveReply (is_blank p.0 || is_blank p.1) (reply v') (
              if-LiveReply (not (is_valid_username p.0)) (reply v') (
                if-LiveReply (ltb (length (trim_space p.1)) 6) (reply v')
                  (option-LiveReply done.1 (reply v'') (λ e. reply v''))))))) in
      whole.live

pub handle_logout-Live :
    (s : Server) (body : Option Text) (from_request : Text)
    → Live s
    → Live (handle_logout s body from_request).0
unfolding handle_logout
handle_logout-Live s none from_request v = v
handle_logout-Live s (some in_body) from_request v =
    let token = if text_eq in_body [] then from_request else in_body in
    let gone : Live (record s { sessions = delete s.sessions token }) =
      Live-same
        (record {
          same_users = refl;
          same_map = refl;
          same_panicked = refl;
          same_db = refl;
          same_sockets = λ k. k;
        })
        v in
    let whole : LiveReply (handle_logout s (some in_body) from_request) =
      if-LiveReply (text_eq token []) (reply v) (reply gone) in
    whole.live

rename_ws_client-Live : (s : Server) (old new : Text) → Live s → Live (rename_ws_client s old new).0
unfolding rename_ws_client
rename_ws_client-Live s old new v = elim (Bool-cases (is_some (lookup new s.ws_conns))) [
  | inl taken ↦ rw (taken, rename_ws_client) v
  | inr free ↦ elim (Option-cases (lookup old s.ws_conns)) [
    | inl absent ↦ rw (free, absent, rename_ws_client) v
    | inr (c, present) ↦
        rw (free, present, rename_ws_client)
          (Live-same
            (record {
              same_users = refl;
              same_map = refl;
              same_panicked = refl;
              same_db = refl;
              same_sockets = rename-SocketsOk s.ws_conns s.clients old new c present;
            })
            v)
  ]
]

pub handle_rename-Live :
    (env : Env) (s : Server) (body : Option (Text × Text))
    → Live s
    → Live (handle_rename env s body).0
unfolding handle_rename
handle_rename-Live env s none v = v
handle_rename-Live env s (some (token, new)) v =
    let found = get_username s.sessions env.now token in
    let s' : Server = record s { sessions = found.0 } in
    let v' : Live s' =
      Live-same
        (record {
          same_users = refl;
          same_map = refl;
          same_panicked = refl;
          same_db = refl;
          same_sockets = λ k. k;
        })
        v in
    let whole : LiveReply (handle_rename env s (some (token, new))) =
      if-LiveReply (is_blank token || is_blank new) (reply v) (
        option-LiveReply found.1 (reply v') (λ username.
          (let moved = rename_ws_client-Live s' username new v' in
            let stored : Live (record (rename_ws_client s' username new).0 {
              sessions = update_username (rename_ws_client s' username new).0.sessions token new;
            }) =
              Live-same
                (record {
                  same_users = refl;
                  same_map = refl;
                  same_panicked = refl;
                  same_db = refl;
                  same_sockets = λ k. k;
                })
                moved in
            if-LiveReply (is_name_taken s' new) (reply v') (
              option-LiveReply (rename_ws_client s' username new).1 (reply stored)
                (λ e. reply moved))))) in
    whole.live
