-- ===== src/Server/Live/Kept.antt =====
-- internal/server/server.go: what a broadcast leaves as it is of what the invariant reads.
use im_system.Common.{
  ℕ, ◌≡◌, refl, sym, ap, ◌∙◌, subst, Bool, true, false, ◌||◌, none, some, List, [], ◌++◌, get_elem?,
  Text, text_eq, Distinct, lookup, Bool-cases, inl, inr,
}
use im_system.Server.{User, WsOutgoing, BusMessage, Server, Env}
use im_system.Server.Presence.Consistent.{
  OnlineOk-same, open_name, open_name-receive, AllOpen-pointers, NoDoubles-pointers,
}
use im_system.Server.Presence.Sockets.{SocketsOk, SocketsOk-same}
use im_system.Server.Broadcast.Fanout.{mem, get-fanout_each, fanout_each_rest}
use im_system.Server.Broadcast.{
  fanout_tcp, pointers, write_all, publish, broadcast_public, broadcast, save_public, bus_message,
  ws_system, ws_public, sys_online, sys_offline,
}
use im_system.Text.{bytes}
use im_system.Sanitize.{sanitize_input_with_limit}
use im_system.Db.{Database}
use im_system.Db.Invariant.{save-DbOk}
use im_system.Db.Invariant.Tables.{DbOk}
use im_system.Db.Messages.{public_kind}
use im_system.Db.Users.{get_user_by_username}
use im_system.Db.Groups.Rows.{Result-cases}
use im_system.Server.Live.{Live, SameParts, write_each-parts, publish-parts}

-- Half of the consistency is enough for a broadcast: every key points to an open user of that name.
pub record Named (s : Server) : Type 0 where
  pub keys_distinct : Distinct s.online_map
  pub keys_open :
      (k : Text) (p : ℕ) → lookup k s.online_map ≡ some p → open_name (get_elem? s.users p) ≡ some k

-- What a broadcast leaves as it is.
pub record Kept (s t : Server) : Type 0 where
  pub kept_map : s.online_map ≡ t.online_map
  pub kept_open : (p : ℕ) → open_name (get_elem? s.users p) ≡ open_name (get_elem? t.users p)
  pub kept_panicked : s.panicked ≡ t.panicked
  pub kept_db : DbOk s.db → DbOk t.db
  pub kept_sockets : SocketsOk s.ws_conns s.clients → SocketsOk t.ws_conns t.clients

pub Kept-trans : {s t u : Server} → Kept s t → Kept t u → Kept s u
Kept-trans a b = record {
  kept_map = a.kept_map ∙ b.kept_map;
  kept_open = λ p. a.kept_open p ∙ b.kept_open p;
  kept_panicked = a.kept_panicked ∙ b.kept_panicked;
  kept_db = λ ok. b.kept_db (a.kept_db ok);
  kept_sockets = λ k. b.kept_sockets (a.kept_sockets k);
}

Kept-same : {s t : Server} → SameParts s t → Kept s t
Kept-same e = record {
  kept_map = e.same_map;
  kept_open = λ p. ap (λ (us : List User). open_name (get_elem? us p)) e.same_users;
  kept_panicked = e.same_panicked;
  kept_db = subst DbOk e.same_db;
  kept_sockets = e.same_sockets;
}

pub Live-Kept : {s t : Server} → Kept s t → Live s → Live t
Live-Kept {s} {t} e v = record {
  online_ok = OnlineOk-same s t e.kept_map e.kept_open v.online_ok;
  calm = sym e.kept_panicked ∙ v.calm;
  db_ok = e.kept_db v.db_ok;
  sockets_ok = e.kept_sockets v.sockets_ok;
}

pub Live-Named : (s : Server) → Live s → Named s
Live-Named s v = record { keys_distinct = v.online_ok.distinct; keys_open = v.online_ok.named }

pub fanout_tcp-Kept : (s : Server) (msg : Text) → Named s → Kept s (fanout_tcp s msg)
unfolding fanout_tcp
fanout_tcp-Kept s msg v =
    let ps = pointers s.online_map in
    let all_open = AllOpen-pointers s s.online_map v.keys_distinct v.keys_open in
    let once =
      NoDoubles-pointers (λ p. open_name (get_elem? s.users p)) s.online_map v.keys_distinct
        v.keys_open in
    let rest = fanout_each_rest msg s ps all_open in
    record {
      kept_map = sym (ap (λ (t : Server). t.online_map) rest);
      kept_open = λ q. sym (
          ap open_name (get-fanout_each msg s ps q all_open once) ∙ elim (Bool-cases (mem q ps)) [
            | inl there ↦ rw there (open_name-receive msg (get_elem? s.users q))
            | inr absent ↦ rw absent refl
          ]);
      kept_panicked = sym (ap (λ (t : Server). t.panicked) rest);
      kept_db = subst DbOk (sym (ap (λ (t : Server). t.db) rest));
      kept_sockets =
          SocketsOk-same (sym (ap (λ (t : Server). t.ws_conns) rest))
            (sym (ap (λ (t : Server). t.clients) rest));
    }

pub write_all-Kept : (s : Server) (msg : WsOutgoing) → Kept s (write_all s msg)
unfolding write_all
write_all-Kept s msg = Kept-same (write_each-parts msg s (pointers s.ws_conns))

announced-Kept :
    (s : Server) (msg : WsOutgoing) (note : BusMessage) → Kept s (publish (write_all s msg) note)
announced-Kept s msg note =
    Kept-trans (write_all-Kept s msg) (Kept-same (publish-parts (write_all s msg) note))

save_public-DbOk :
    (db : Database) (now : ℕ) (name msg : Text) → DbOk db → DbOk (save_public db now name msg)
unfolding save_public
save_public-DbOk db now name msg ok = elim (Result-cases (get_user_by_username db name)) [
  | inr (e, unknown) ↦ rw (unknown, save_public) ok
  | inl (u, known) ↦ rw (known, save_public) (save-DbOk db now u.id none none msg public_kind ok)
]

saved_public-Kept :
    (s : Server) (now : ℕ) (name msg : Text)
    → Kept s (record s { db = save_public s.db now name msg })
saved_public-Kept s now name msg = record {
  kept_map = refl;
  kept_open = λ p. refl;
  kept_panicked = refl;
  kept_db = save_public-DbOk s.db now name msg;
  kept_sockets = λ k. k;
}

broadcast_public-Kept :
    (env : Env) (s : Server) (name raw avatar : Text) (is_system : Bool)
    → Named s
    → Kept s (broadcast_public env s name raw avatar is_system)
unfolding broadcast_public
broadcast_public-Kept env s name raw avatar is_system v =
    let msg = sanitize_input_with_limit raw s.max_msg_length in
    let saved : Server = record s { db = save_public s.db env.now name msg } in
    let fanned = fanout_tcp saved (name ++ (bytes ": " ++ msg)) in
    let fanned_kept : Kept s fanned = Kept-trans (saved_public-Kept s env.now name msg) (
      fanout_tcp-Kept saved (name ++ (bytes ": " ++ msg))
        (record { keys_distinct = v.keys_distinct; keys_open = v.keys_open })) in
    let notice = name ++ (bytes " " ++ msg) in
    elim is_system as (λ k. Kept s (broadcast_public env s name raw avatar k)) [
      | true ↦ Kept-trans fanned_kept (
          announced-Kept fanned (ws_system notice) (bus_message (bytes "system") name [] notice []))
      | false ↦ Kept-trans fanned_kept (
          announced-Kept fanned (ws_public name avatar msg env.label)
            (bus_message (bytes "public") name avatar msg env.label))
    ]

pub broadcast-Kept :
    (env : Env) (s : Server) (u : User) (msg : Text) → Named s → Kept s (broadcast env s u msg)
unfolding broadcast
broadcast-Kept env s u msg v =
    broadcast_public-Kept env s u.name msg u.avatar
      (text_eq msg sys_online || text_eq msg sys_offline) v

pub broadcast_public-Live :
    (env : Env) (s : Server) (name raw avatar : Text) (is_system : Bool)
    → Live s
    → Live (broadcast_public env s name raw avatar is_system)
broadcast_public-Live env s name raw avatar is_system v =
    Live-Kept (broadcast_public-Kept env s name raw avatar is_system (Live-Named s v)) v

pub broadcast-Live :
    (env : Env) (s : Server) (u : User) (msg : Text) → Live s → Live (broadcast env s u msg)
broadcast-Live env s u msg v = Live-Kept (broadcast-Kept env s u msg (Live-Named s v)) v
