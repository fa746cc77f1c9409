-- ===== src/Server/Live.antt =====
-- internal/server/server.go: the invariant of a running server.
pub mod Kept
pub mod Deliveries
use im_system.Common.{
  ℕ, ◌≡◌, refl, sym, ap, ◌∙◌, subst, Bool, true, false, ◌||◌, Option, none, some, List, [], ◌∷◌,
  ◌++◌, arith, get_elem?, Text, text_eq, Distinct, lookup, Bool-cases, Option-cases, inl, inr,
}
use im_system.Model.{UserPublic}
use im_system.Server.{User, WsOutgoing, BusMessage, Server, Env, modify, send_msg, write_ws}
use im_system.Server.Objects.{applied, get_elem?-modify}
use im_system.Server.Presence.Consistent.{
  OnlineOk, OnlineOk-same, open_name, open_name-receive, AllOpen-pointers, NoDoubles-pointers,
}
use im_system.Server.Presence.Sockets.{SocketsOk, SocketsOk-same, write_ws-SocketsOk}
use im_system.Server.Broadcast.Fanout.{mem, get-fanout_each, fanout_each_rest}
use im_system.Server.Broadcast.{
  fanout_tcp, pointers, write_each, write_all, publish, broadcast_public, broadcast, save_public,
  deliver_to_group_members_tcp, deliver_to_group_members_ws, deliver_private_tcp,
  deliver_private_ws, broadcast_to_group, send_private, is_nil, bus_message, ws_system, ws_public,
  ws_private, ws_group, private_line, group_line, sys_online, sys_offline,
}
use im_system.Text.{bytes}
use im_system.Sanitize.{sanitize_input_with_limit}
use im_system.Db.{Database}
use im_system.Db.Invariant.{save-DbOk}
use im_system.Db.Invariant.Tables.{DbOk}
use im_system.Db.Messages.{public_kind}
use im_system.Db.Users.{get_user_by_username}
use im_system.Db.Groups.{get_group_members, get_group_by_name}
use im_system.Db.Groups.Rows.{Result-cases}

pub record Live (s : Server) : Type 0 where
  pub online_ok : OnlineOk s
  pub calm : s.panicked ≡ false
  pub db_ok : DbOk s.db
  pub sockets_ok : SocketsOk s.ws_conns s.clients

-- The parts of the server that the invariant reads.
pub record SameParts (s t : Server) : Type 0 where
  pub same_users : s.users ≡ t.users
  pub same_map : s.online_map ≡ t.online_map
  pub same_panicked : s.panicked ≡ t.panicked
  pub same_db : s.db ≡ t.db
  pub same_sockets : SocketsOk s.ws_conns s.clients → SocketsOk t.ws_conns t.clients

pub Live-same : {s t : Server} → SameParts s t → Live s → Live t
Live-same {s} {t} e v = record {
  online_ok =
      OnlineOk-same s t e.same_map
        (λ p. ap (λ (us : List User). open_name (get_elem? us p)) e.same_users) v.online_ok;
  calm = sym e.same_panicked ∙ v.calm;
  db_ok = subst DbOk e.same_db v.db_ok;
  sockets_ok = e.same_sockets v.sockets_ok;
}

-- A change of one user that keeps the name and the state of its channel.
pub modify-Live :
    (s : Server) (p : ℕ) (f : User → User)
    → ((u : User) → open_name (some (f u)) ≡ open_name (some u))
    → Live s
    → Live (record s { users = modify p f s.users })
modify-Live s p f h v =
    let kept : (o : Option User) → open_name (applied f o) ≡ open_name o = elim [
      | none ↦ refl
      | some u ↦ h u
    ] in
    record {
      online_ok =
          OnlineOk-same s (record s { users = modify p f s.users }) refl
            (λ q. rw (get_elem?-modify p q f s.users) (ground (arith, kept (get_elem? s.users q))))
            v.online_ok;
      calm = v.calm;
      db_ok = v.db_ok;
      sockets_ok = v.sockets_ok;
    }

pub send_msg-Live : (s : Server) (p : ℕ) (msg : Text) → Live s → Live (send_msg s p msg)
unfolding send_msg
send_msg-Live s p msg v = modify-Live s p _ (λ u. open_name-receive _ (some u)) v

pub write_each-parts :
    (msg : WsOutgoing) (s : Server) (cs : List ℕ) → SameParts s (write_each msg s cs)
unfolding write_each
write_each-parts msg s [] = record {
  same_users = refl;
  same_map = refl;
  same_panicked = refl;
  same_db = refl;
  same_sockets = λ k. k;
}
write_each-parts msg s (c ∷ cs) =
    let rest = write_each-parts msg (write_ws s c msg) cs in
    record {
      same_users = rest.same_users;
      same_map = rest.same_map;
      same_panicked = rest.same_panicked;
      same_db = rest.same_db;
      same_sockets = λ k. rest.same_sockets (write_ws-SocketsOk s.ws_conns s.clients c msg k);
    }

pub write_ws-Live : (s : Server) (c : ℕ) (msg : WsOutgoing) → Live s → Live (write_ws s c msg)
unfolding write_ws
write_ws-Live s c msg v =
    Live-same
      (record {
        same_users = refl;
        same_map = refl;
        same_panicked = refl;
        same_db = refl;
        same_sockets = write_ws-SocketsOk s.ws_conns s.clients c msg;
      })
      v

pub publish-parts : (s : Server) (msg : BusMessage) → SameParts s (publish s msg)
unfolding publish
publish-parts s msg = record {
  same_users = ground arith;
  same_map = ground arith;
  same_panicked = ground arith;
  same_db = ground arith;
  same_sockets = SocketsOk-same (ground arith) (ground arith);
}

-- A call of the database that keeps its tables in order.
pub saved-Live : (s : Server) (db : Database) → DbOk db → Live s → Live (record s { db = db })
saved-Live s db ok v = record {
  online_ok = OnlineOk-same s (record s { db = db }) refl (λ p. refl) v.online_ok;
  calm = v.calm;
  db_ok = ok;
  sockets_ok = v.sockets_ok;
}
