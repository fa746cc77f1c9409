-- ===== src/Server/Socket/Reconnect.antt =====
-- internal/server/wss.go: the clients under a name when a user connects again and the first handler
-- ends.
use im_system.Common.{
  Bool, List, ==_iff, ℕ, ◌≡◌, refl, sym, ap, ◌∙◌, subst, true, false, Option, none, some, [], arith,
  ◌==◌, ==_refl, if◌then◌else◌, length, Text, text_eq, text_eq_iff, text_eq_refl, get_elem?, lookup,
  lookup-insert, lookup-without, Bool-cases, Option-cases, inl, inr,
}
use im_system.Session.{get_username}
use im_system.Model.{UserPublic}
use im_system.Db.{Database, DbError, ok, err}
use im_system.Db.Users.{get_user_by_username}
use im_system.Db.Groups.Rows.{Result-cases}
use im_system.Server.{WsClient, Server, Env}
use im_system.Server.Objects.{applied, get_elem?-modify, get_elem?-append_new, get_elem?-length}
use im_system.Server.Presence.{add_ws_client, remove_ws_client}
use im_system.Server.Socket.{new_client, ws_connect, ws_disconnect}

lookup-remove_ws_client :
    (s : Server) (name other : Text)
    → lookup other (remove_ws_client s name).ws_conns
      ≡ (if text_eq name other then none else lookup other s.ws_conns)
unfolding remove_ws_client
lookup-remove_ws_client s name other = elim (Option-cases (lookup name s.ws_conns)) [
  | inl absent ↦ rw (absent, remove_ws_client) (ground (arith, absent, text_eq_iff name other))
  | inr (c, present) ↦ rw (present, remove_ws_client) (lookup-without name other s.ws_conns)
]

cancelled_by_remove :
    (s : Server) (name : Text) (c : ℕ)
    → lookup name s.ws_conns ≡ some c
    → get_elem? (remove_ws_client s name).clients c
      ≡ applied (λ w. record w { cancelled = true }) (get_elem? s.clients c)
unfolding remove_ws_client
cancelled_by_remove s name c h =
    rw (h, remove_ws_client)
      (get_elem?-modify c c (λ w. record w { cancelled = true }) s.clients ∙ rw (==_refl c) refl)

-- The server when the token was looked up and the former client of the name is removed.
abbrev cleared : Env → Server → Text → Text → Server
cleared env s token username =
    remove_ws_client (record s { sessions = (get_username s.sessions env.now token).0 }) username

db-cleared :
    (env : Env) (s : Server) (token username : Text) → (cleared env s token username).db ≡ s.db
unfolding remove_ws_client
db-cleared env s token username = ground arith

ws_connect_found :
    (env : Env) (s : Server) (token ip username : Text) (info : UserPublic)
    → text_eq token [] ≡ false
    → (get_username s.sessions env.now token).1 ≡ some username
    → get_user_by_username (cleared env s token username).db username ≡ ok info
    → ws_connect env s (some token) ip ≡ (
      (add_ws_client (cleared env s token username) (new_client username info ip)).0,
      some (username, length (cleared env s token username).clients),
    )
unfolding ws_connect add_ws_client
ws_connect_found env s token ip username info given known found =
    rw (given, known, found, ws_connect) refl

ws_connect_refused :
    (env : Env) (s : Server) (token ip username : Text) (e : DbError)
    → text_eq token [] ≡ false
    → (get_username s.sessions env.now token).1 ≡ some username
    → get_user_by_username (cleared env s token username).db username ≡ err e
    → (ws_connect env s (some token) ip).1 ≡ none
unfolding ws_connect
ws_connect_refused env s token ip username e given known found =
    rw (given, known, found, ws_connect) refl

-- What a connection that was accepted did.
ws_connect_done :
    (env : Env) (s : Server) (token ip username : Text) (c : ℕ)
    → (ws_connect env s (some token) ip).1 ≡ some (username, c)
    → (info : UserPublic) × ((ws_connect env s (some token) ip).0
        ≡ (add_ws_client (cleared env s token username) (new_client username info ip)).0)
      × (c ≡ length (cleared env s token username).clients)
      × ((get_username s.sessions env.now token).1 ≡ some username)
      × (get_user_by_username s.db username ≡ ok info)
unfolding ws_connect
ws_connect_done env s token ip username c h = elim (Bool-cases (text_eq token [])) [
  | inl empty ↦ ground (arith, empty, h)
  | inr given ↦ elim (Option-cases (get_username s.sessions env.now token).1) [
    | inl unknown ↦ ground (arith, given, unknown, h)
    | inr (owner, known) ↦
        elim (Result-cases (get_user_by_username (cleared env s token owner).db owner)) [
          | inr (e, bad) ↦
              let refused = ws_connect_refused env s token ip owner e given known bad in
              ground (arith, sym refused ∙ h)
          | inl (info, found) ↦
              let done = ws_connect_found env s token ip owner info given known found in
              let same : some (owner, length (cleared env s token owner).clients)
                  ≡ some (username, c) =
                sym (ap (λ (r : Server × Option (Text × ℕ)). r.1) done) ∙ h in
              let owner_is : owner ≡ username = ground (arith, same) in
              let c_is : length (cleared env s token owner).clients ≡ c = ground (arith, same) in
              (
                info,
                subst
                    (λ (name : Text).
                      (ws_connect env s (some token) ip).0
                      ≡ (add_ws_client (cleared env s token name) (new_client name info ip)).0)
                    owner_is (ap (λ (r : Server × Option (Text × ℕ)). r.0) done),
                sym c_is ∙ ap (λ (name : Text). length (cleared env s token name).clients) owner_is,
                known ∙ ap some owner_is,
                subst (λ (name : Text). get_user_by_username s.db name ≡ ok info) owner_is
                    (ap (λ (db : Database). get_user_by_username db owner)
                        (sym (db-cleared env s token owner))
                      ∙ found),
              )
        ]
  ]
]

lookup-add_ws_client :
    (s : Server) (client : WsClient) (other : Text)
    → lookup other (add_ws_client s client).0.ws_conns
      ≡ (if text_eq client.name other then some (length s.clients) else lookup other s.ws_conns)
unfolding add_ws_client
lookup-add_ws_client s client other = lookup-insert client.name other (length s.clients) s.ws_conns

get-add_ws_client :
    (s : Server) (client : WsClient) (q : ℕ)
    → get_elem? (add_ws_client s client).0.clients q
      ≡ (if length s.clients == q then some client else get_elem? s.clients q)
unfolding add_ws_client
get-add_ws_client s client q = get_elem?-append_new s.clients client q

lookup-cleared :
    (env : Env) (s : Server) (token username other : Text)
    → lookup other (cleared env s token username).ws_conns
      ≡ (if text_eq username other then none else lookup other s.ws_conns)
lookup-cleared env s token username other =
    lookup-remove_ws_client (record s { sessions = (get_username s.sessions env.now token).0 })
      username other

abbrev pub cancelled_client : WsClient → WsClient
cancelled_client w = record w { cancelled = true }

-- Whether the name points to the client.
abbrev pub under : Text → Server → ℕ → Bool
under name s q = elim (lookup name s.ws_conns) [ none ↦ false | some p ↦ p == q ]

get-remove_ws_client :
    (s : Server) (name : Text) (q : ℕ)
    → get_elem? (remove_ws_client s name).clients q ≡ (
        if under name s q
        then applied cancelled_client (get_elem? s.clients q)
        else get_elem? s.clients q)
unfolding remove_ws_client
get-remove_ws_client s name q = elim (Option-cases (lookup name s.ws_conns)) [
  | inl absent ↦ rw (absent, remove_ws_client, under) refl
  | inr (c, present) ↦
      rw (present, remove_ws_client, under) (get_elem?-modify c q cancelled_client s.clients)
]

absent_before :
    (s : Server) (name : Text) (q : ℕ)
    → get_elem? (remove_ws_client s name).clients q ≡ none
    → get_elem? s.clients q ≡ none
absent_before s name q h = ground (arith, get-remove_ws_client s name q)

-- A socket that was accepted stands under the name that its token stands for, with a new client that
-- has the avatar of that account and that nothing has cancelled; the former client of the name is
-- cancelled, all other clients are what they were, and the other names point where they did.
pub ws_connect_registers :
    (env : Env) (s : Server) (token ip username other : Text) (c q : ℕ)
    → (ws_connect env s (some token) ip).1 ≡ some (username, c)
    → let t = (ws_connect env s (some token) ip).0 in
      ((get_username s.sessions env.now token).1 ≡ some username)
      × (lookup other t.ws_conns
          ≡ (if text_eq username other then some c else lookup other s.ws_conns))
      × ((info : UserPublic) × (get_user_by_username s.db username ≡ ok info)
          × (get_elem? t.clients q ≡ (
              if c == q
              then some (new_client username info ip)
              else if under username s q
              then applied cancelled_client (get_elem? s.clients q)
              else get_elem? s.clients q)))
      × (get_elem? s.clients c ≡ none)
ws_connect_registers env s token ip username other c q h =
    let (info, done, at, known, account) = ws_connect_done env s token ip username c h in
    let looked : Server = record s { sessions = (get_username s.sessions env.now token).0 } in
    let before = cleared env s token username in
    (
      known,
      ap (λ (t : Server). lookup other t.ws_conns) done
          ∙ lookup-add_ws_client before (new_client username info ip) other
          ∙ ground (arith, lookup-cleared env s token username other, at),
      (
        info,
        account,
        ap (λ (t : Server). get_elem? t.clients q) done
            ∙ get-add_ws_client before (new_client username info ip) q
            ∙ rw (← at, get-remove_ws_client looked username q) refl,
      ),
      absent_before looked username c
          (ap (get_elem? before.clients) at ∙ get_elem?-length before.clients),
    )

objects_apart :
    (cs : List WsClient) (p q : ℕ) (w : WsClient)
    → get_elem? cs p ≡ some w
    → get_elem? cs q ≡ none
    → (p == q) ≡ false
objects_apart cs p q w here gone = elim (Bool-cases (p == q)) [
  | inr apart ↦ apart
  | inl same ↦
      let both : some w ≡ none = sym here ∙ ap (get_elem? cs) ((==_iff p q).0 same) ∙ gone in cc
]

under-present :
    (name : Text) (s : Server) (p q : ℕ)
    → lookup name s.ws_conns ≡ some p
    → under name s q ≡ (p == q)
under-present name s p q h = rw (h, under) refl

-- A user connects, and connects again while the former socket is still there. The second connection
-- cancels the former client and stands under the name with a client of its own that nothing has
-- cancelled. Then the handler of the former socket ends: its deferred removal, by the name it began
-- with, takes the new client's entry out of the map and cancels the new client.
pub former_end_cancels_new :
    (env later : Env) (s : Server) (token token' ip ip' username : Text) (former c : ℕ)
    → (ws_connect env s (some token) ip).1 ≡ some (username, former)
    → (ws_connect later (ws_connect env s (some token) ip).0 (some token') ip').1
      ≡ some (username, c)
    → let first = (ws_connect env s (some token) ip).0 in
      let second = (ws_connect later first (some token') ip').0 in
      let ended = ws_disconnect second username in
      ((former == c) ≡ false)
      × ((old : UserPublic) × (get_elem? second.clients former
            ≡ some (cancelled_client (new_client username old ip))))
      × (lookup username second.ws_conns ≡ some c)
      × (lookup username ended.ws_conns ≡ none)
      × ((info : UserPublic) × (get_elem? second.clients c ≡ some (new_client username info ip'))
          × (get_elem? ended.clients c ≡ some (cancelled_client (new_client username info ip'))))
unfolding ws_disconnect
former_end_cancels_new env later s token token' ip ip' username former c h k =
    let first = (ws_connect env s (some token) ip).0 in
    let second = (ws_connect later first (some token') ip').0 in
    let (_, under_first, (old, _, at_first), _) =
      ws_connect_registers env s token ip username username former former h in
    let (_, under_second, (info, _, at_former), fresh) =
      ws_connect_registers later first token' ip' username username c former k in
    let (_, _, (info', _, at_second), _) =
      ws_connect_registers later first token' ip' username username c c k in
    let there : lookup username first.ws_conns ≡ some former =
      under_first ∙ rw (text_eq_refl username) refl in
    let here : lookup username second.ws_conns ≡ some c =
      under_second ∙ rw (text_eq_refl username) refl in
    let client : get_elem? first.clients former ≡ some (new_client username old ip) =
      at_first ∙ rw (==_refl former) refl in
    let apart : (former == c) ≡ false =
      objects_apart first.clients former c (new_client username old ip) client fresh in
    let other : (c == former) ≡ false = ground (arith, apart) in
    let new : get_elem? second.clients c ≡ some (new_client username info' ip') =
      at_second ∙ rw (==_refl c) refl in
    (
      apart,
      (
        old,
        at_former
            ∙ rw (other, under-present username first former former there, ==_refl former, client)
                refl,
      ),
      here,
      lookup-remove_ws_client second username username ∙ rw (text_eq_refl username) refl,
      (info', new, cancelled_by_remove second username c here ∙ ap (applied cancelled_client) new),
    )
