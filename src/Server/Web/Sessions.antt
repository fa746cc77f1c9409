-- ===== src/Server/Web/Sessions.antt =====
-- internal/server/web.go: the session that a login opens, and the one that a rename changes.
use im_system.Common.{
  ℕ, ◌+◌, ◌≤◌, ◌≡◌, refl, sym, ap, ◌∙◌, true, false, ◌||◌, not, Option, none, some, arith, leb,
  if◌then◌else◌, Text, text_eq, text_eq_refl, Bool-cases, Option-cases, inl, inr, lookup,
}
use im_system.RateLimiter.{allow}
use im_system.Username.{is_valid_username}
use im_system.Session.{MemorySessionStore, create, get_username, update_username}
use im_system.Session.Lookup.{
  holder, holder-create, holder-update_username, holder-get_username, get_username-eq-holder,
}
use im_system.Model.{DbUser}
use im_system.Db.{ok}
use im_system.Db.Users.{Bcrypt, authenticate_user}
use im_system.Db.Groups.Rows.{Result-cases}
use im_system.Server.{Server, Env}
use im_system.Server.Web.{
  Reply, logged_in, is_blank, no_content, login, handle_login, handle_rename,
}
use im_system.Server.Presence.{is_name_taken, rename_ws_client}

module _ (b : Bcrypt) where
  login_opens :
      (env : Env) (s : Server) (username password : Text) (drawn : Option Text)
      (token avatar gender signature : Text)
      → (login b env s username password drawn).1 ≡ logged_in token avatar gender signature
      → ((account : DbUser) × (authenticate_user b s.db username password ≡ ok account))
        × ((login b env s username password drawn).0.sessions
            ≡ (create s.sessions (some token) env.now username s.session_ttl).0)
  unfolding login create
  login_opens env s username password drawn token avatar gender signature h =
      elim (Bool-cases (is_blank username || is_blank password)) [
        | inl blank ↦ ground (arith, blank, h)
        | inr filled ↦ elim (Bool-cases (not (is_valid_username username))) [
          | inl bad ↦ ground (arith, filled, bad, h)
          | inr valid ↦ elim (Result-cases (authenticate_user b s.db username password)) [
            | inr (e, wrong) ↦ ground (arith, filled, valid, wrong, h)
            | inl (account, right) ↦ ((account, right), ground (arith, filled, valid, right, h))
          ]
        ]
      ]

  handle_login_passed :
      (env : Env) (s : Server) (ip username password : Text) (drawn : Option Text)
      → (allow s.login_limiter env.now ip).1 ≡ true
      → handle_login b env s ip (some (username, password)) drawn
        ≡ login b env
            (record s { login_limiter = (allow s.login_limiter env.now ip).0 })
            username
            password
            drawn
  unfolding handle_login
  handle_login_passed env s ip username password drawn h = rw (h, handle_login) refl

  -- A login that succeeds was made with the password of the account, and its token stands for the
  -- account's name until the session's time is over, and for nobody afterwards.
  pub login_token :
      (env : Env) (s : Server) (ip username password : Text) (drawn : Option Text)
      (token avatar gender signature : Text) (later : ℕ)
      → (handle_login b env s ip (some (username, password)) drawn).1
        ≡ logged_in token avatar gender signature
      → ((account : DbUser) × (authenticate_user b s.db username password ≡ ok account))
        × ((get_username
              (handle_login b env s ip (some (username, password)) drawn).0.sessions
              later
              token).1
            ≡ (if leb later (env.now + s.session_ttl) then some username else none))
  unfolding handle_login
  login_token env s ip username password drawn token avatar gender signature later h =
      elim (Bool-cases (allow s.login_limiter env.now ip).1) [
        | inr full ↦ ground (arith, full, h)
        | inl pass ↦
            let s' : Server = record s { login_limiter = (allow s.login_limiter env.now ip).0 } in
            let same = handle_login_passed env s ip username password drawn pass in
            let (known, stored) =
              login_opens env s' username password drawn token avatar gender signature
                (ap (λ (r : Server × Reply). r.1) (sym same) ∙ h) in
            (
              known,
              ap (λ (r : Server × Reply). (get_username r.0.sessions later token).1) same
                  ∙ ap (λ (m : MemorySessionStore). (get_username m later token).1) stored
                  ∙ get_username-eq-holder
                      (create s.sessions (some token) env.now username s.session_ttl).0 later token
                  ∙ holder-create s.sessions token env.now username s.session_ttl later token
                  ∙ rw (text_eq_refl token) refl,
            )
      ]

rename_done :
    (env : Env) (s : Server) (token new : Text)
    → (handle_rename env s (some (token, new))).1 ≡ no_content
    → (username : Text) × ((get_username s.sessions env.now token).1 ≡ some username)
      × ((handle_rename env s (some (token, new))).0.sessions
          ≡ update_username (get_username s.sessions env.now token).0 token new)
      × ((handle_rename env s (some (token, new))).0.db ≡ s.db)
      × (is_name_taken s new ≡ false)
unfolding handle_rename rename_ws_client is_name_taken
rename_done env s token new h = elim (Bool-cases (is_blank token || is_blank new)) [
  | inl blank ↦ ground (arith, blank, h)
  | inr filled ↦ elim (Option-cases (get_username s.sessions env.now token).1) [
    | inl unknown ↦ ground (arith, filled, unknown, h)
    | inr (username, known) ↦ elim (Option-cases (lookup new s.online_map)) [
      | inr (p, taken) ↦ ground (arith, filled, known, taken, h)
      | inl free ↦ elim (Option-cases (lookup new s.ws_conns)) [
        | inr (c, taken) ↦ ground (arith, filled, known, free, taken, h)
        | inl unused ↦ elim (Option-cases (lookup username s.ws_conns)) [
          | inl absent ↦ ground (arith, filled, known, free, unused, absent, h)
          | inr (c, present) ↦ (
            username,
            known,
            ground (arith, filled, known, free, unused, present),
            ground (arith, filled, known, free, unused, present),
            ground (arith, free, unused),
          )
        ]
      ]
    ]
  ]
]

-- A rename that succeeds took a name that nobody online has, and gives it to the session's token until
-- the deadline that the session had, which the request does not extend; the database and the other
-- tokens stay as they are.
pub rename_session :
    (env : Env) (s : Server) (token new other : Text) (later : ℕ)
    → (handle_rename env s (some (token, new))).1 ≡ no_content
    → env.now ≤ later
    → (is_name_taken s new ≡ false)
      × ((handle_rename env s (some (token, new))).0.db ≡ s.db)
      × (holder (handle_rename env s (some (token, new))).0.sessions later other ≡ (
          if text_eq token other
          then elim (holder s.sessions later other) [ none ↦ none | some _ ↦ some new ]
          else holder s.sessions later other))
rename_session env s token new other later h after =
    let (username, known, stored, same_db, free) = rename_done env s token new h in
    (
      free,
      same_db,
      ap (λ (m : MemorySessionStore). holder m later other) stored
          ∙ holder-update_username (get_username s.sessions env.now token).0 token new later other
          ∙ rw (holder-get_username s.sessions env.now token later other after) refl,
    )
