-- ===== src/Server/Commands/Lifecycle.antt =====
-- internal/server/user.go: `Online`, the login and `Offline`, and the invariant of a running server.
use im_system.Common.{
  ℕ, ◌≡◌, refl, sym, ap, ◌∙◌, true, false, none, some, arith, ◌==◌, ==_iff, ==_refl, get_elem?,
  Text, text_eq, Bool-cases, Option-cases, inl, inr, ◌⊎◌, subst, lookup,
}
use im_system.Text.{bytes}
use im_system.Server.{User, Server, Env, receive, send_msg}
use im_system.Text.Trim.{trim_right_newlines}
use im_system.Server.Objects.{get_elem?-modify}
use im_system.Server.Live.{Live, modify-Live, send_msg-Live}
use im_system.Server.Live.Kept.{broadcast-Live, broadcast-Kept}
use im_system.Server.Broadcast.{broadcast, sys_online, sys_offline}
use im_system.Server.Presence.{
  fresh_user, new_user, put_online, take_offline, close_user, rename_user,
}
use im_system.Server.Presence.Consistent.{open_name}
use im_system.Server.Presence.Moves.{
  LiveBut, Live-but, put_online-Live, take_offline-Named, new_user-LiveBut, new_user_there,
  close_user-Live,
}
use im_system.Server.Presence.Renames.{renamed, renamed-Live}
use im_system.Server.Commands.{
  online, offline, connect, with_user, set_name, set_authenticated, enter, take_name, kick,
}

-- The pointer is that of a user whose channel is open.
pub record Open (s : Server) (p : ℕ) (u : User) : Type 0 where
  pub is_there : get_elem? s.users p ≡ some u
  pub is_open : u.closed ≡ false

pub Open-name :
    (s : Server) (p : ℕ) (u : User) → Open s p u → open_name (get_elem? s.users p) ≡ some u.name
Open-name s p u o = rw (o.is_there, o.is_open) refl

pub with_user-there :
    (s : Server) (p : ℕ) (u : User) (f : User → Server)
    → get_elem? s.users p ≡ some u
    → with_user s p f ≡ f u
unfolding with_user
with_user-there s p u f h = rw (h, with_user) refl

online-there :
    (env : Env) (s : Server) (p : ℕ) (u : User)
    → get_elem? s.users p ≡ some u
    → online env s p ≡ broadcast env (put_online s p u.name) u sys_online
unfolding online put_online
online-there env s p u h =
    with_user-there s p u _ h ∙ with_user-there (put_online s p u.name) p u _ h

offline-there :
    (env : Env) (s : Server) (p : ℕ) (u : User)
    → get_elem? s.users p ≡ some u
    → offline env s p ≡ close_user (broadcast env (take_offline s p) u sys_offline) p
unfolding offline take_offline
offline-there env s p u h =
    ap (λ (t : Server). close_user t p) (with_user-there (take_offline s p) p u _ h)

online-Live :
    (env : Env) (s : Server) (p : ℕ) (u : User)
    → LiveBut s p
    → Open s p u
    → ((q : ℕ) → lookup u.name s.online_map ≡ some q → (q == p) ≡ true)
    → Live (online env s p)
online-Live env s p u v o free = subst Live (sym (online-there env s p u o.is_there)) (
    broadcast-Live env (put_online s p u.name) u sys_online
      (put_online-Live s p u.name v (Open-name s p u o) free))

-- An open user holds its own name.
own_name :
    (s : Server) (p q : ℕ) (u : User)
    → Live s
    → Open s p u
    → lookup u.name s.online_map ≡ some q
    → (q == p) ≡ true
own_name s p q u v o h =
    let e : some q ≡ some p = sym h ∙ v.online_ok.listed u.name p (Open-name s p u o) in
    ground (arith, e, ==_iff q p)

enter-Live :
    (env : Env) (s : Server) (p : ℕ) (u : User) (avatar : Text)
    → Live s
    → Open s p u
    → Live (enter env s p avatar)
unfolding enter set_authenticated
enter-Live env s p u avatar v o =
    let u' : User = record u { avatar = avatar; is_authenticated = true } in
    let s' : Server = set_authenticated s p avatar in
    let o' : Open s' p u' = record {
      is_there =
          rw
            (get_elem?-modify p p (λ w. record w { avatar = avatar; is_authenticated = true })
              s.users)
            (ground (arith, o.is_there, ==_refl p));
      is_open = o.is_open;
    } in
    let v' : Live s' = modify-Live s p _ (λ w. refl) v in
    send_msg-Live (online env s' p) p (bytes "登录成功\n")
      (online-Live env s' p u' (Live-but s' p v') o' (λ q h. own_name s' p q u' v' o' h))

-- `RenameUser` either leaves everything as it is or the name was free and is now the user's.
pub rename_user-cases :
    (s : Server) (p : ℕ) (u : User) (new : Text)
    → Live s
    → Open s p u
    → (rename_user s u.name new ≡ (s, false))
      ⊎ ((lookup new s.online_map ≡ none)
          × (set_name (rename_user s u.name new).0 p new ≡ renamed s p u.name new)
          × ((rename_user s u.name new).1 ≡ true))
unfolding rename_user set_name
rename_user-cases s p u new v o =
    let at = v.online_ok.listed u.name p (Open-name s p u o) in
    elim (Option-cases (lookup new s.online_map)) [
      | inl free ↦ inr (free, rw (free, at) refl, rw (free, at) refl)
      | inr (q, taken) ↦ inl (rw taken refl)
    ]

renamed-Open :
    (s : Server) (p : ℕ) (u : User) (new : Text)
    → Open s p u
    → Open (renamed s p u.name new) p (record u { name = new })
renamed-Open s p u new o = record {
  is_there =
      rw (get_elem?-modify p p (λ w. record w { name = new }) s.users)
        (ground (arith, o.is_there, ==_refl p));
  is_open = o.is_open;
}

pub take_name-Live :
    (env : Env) (s : Server) (p : ℕ) (u : User) (username avatar : Text)
    → Live s
    → Open s p u
    → Live (take_name env s p u username avatar)
unfolding take_name
take_name-Live env s p u username avatar v o = elim (Bool-cases (text_eq u.name username)) [
  | inl same ↦ rw same (enter-Live env s p u avatar v o)
  | inr other ↦ elim (rename_user-cases s p u username v o) [
    | inl failed ↦ rw (other, failed) (send_msg-Live s p (bytes "登录失败：用户名已被占用\n") v)
    | inr (free, stored, done) ↦
        rw (other, done)
          (subst (λ (t : Server). Live (enter env t p avatar)) (sym stored)
            (enter-Live env (renamed s p u.name username) p (record u { name = username }) avatar
              (renamed-Live s p u username v o.is_there o.is_open free)
              (renamed-Open s p u username o)))
  ]
]

pub offline-Live :
    (env : Env) (s : Server) (p : ℕ) (u : User) → Live s → Open s p u → Live (offline env s p)
offline-Live env s p u v o =
    let but = Live-but s p v in
    subst Live (sym (offline-there env s p u o.is_there)) (
      close_user-Live s (broadcast env (take_offline s p) u sys_offline) p but
        (broadcast-Kept env (take_offline s p) u sys_offline (take_offline-Named s p but)))

-- A connection from an address that nobody has for a name.
pub connect-Live :
    (env : Env) (s : Server) (addr : Text)
    → Live s
    → lookup addr s.online_map ≡ none
    → Live (connect env s addr).0
unfolding connect
connect-Live env s addr v free =
    online-Live env (new_user s addr).0 (new_user s addr).1 (fresh_user addr)
      (new_user-LiveBut s addr v) (record { is_there = new_user_there s addr; is_open = refl })
      (λ q h. ground (arith, h, free))

pub kick-Live :
    (env : Env) (s : Server) (p : ℕ) (u : User) → Live s → Open s p u → Live (kick env s p)
unfolding kick send_msg receive
kick-Live env s p u v o =
    offline-Live env (send_msg s p (bytes "你已被踢出")) p
      (receive (trim_right_newlines (bytes "你已被踢出")) u) (send_msg-Live s p (bytes "你已被踢出") v)
      (record {
        is_there =
            rw (get_elem?-modify p p (receive (trim_right_newlines (bytes "你已被踢出"))) s.users)
              (ground (arith, o.is_there, ==_refl p));
        is_open = ground (arith, o.is_open);
      })
