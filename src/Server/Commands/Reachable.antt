-- ===== src/Server/Commands/Reachable.antt =====
-- internal/server: the runs of `Handler`, `handleWebSocket`, the HTTP handlers and the bus receiver,
-- one event after another.
use im_system.Common.{Option, ℕ, ◌≡◌, refl, none, Text, lookup}
use im_system.Db.Users.{Bcrypt}
use im_system.Server.{User, BusMessage, Server, Env}
use im_system.Server.Live.{Live, Live-same}
use im_system.Server.Construct.{cleanup_sessions}
use im_system.Server.Bus.{receive_from_bus}
use im_system.Db.Messages.{OrderBy}
use im_system.Server.Web.Routes.{Request, Route, serve}
use im_system.Server.Web.Steps.Routes.{serve-Live}
use im_system.Server.Socket.{WsIncoming, ws_connect, ws_disconnect, ws_read}
use im_system.Server.Socket.Steps.{ws_connect-Live, ws_disconnect-Live, ws_read-Live}
use im_system.Server.Bus.Delivery.{receive_from_bus-Live}
use im_system.Server.Commands.{connect, read_line, offline, kick}
use im_system.Server.Commands.Lifecycle.{Open, connect-Live, offline-Live, kick-Live}
use im_system.Server.Commands.Replies.{read_line-Live}

-- One event: a connection from an address that no user has for a name, a line of an open connection,
-- its end or its idle timeout, the same of a WebSocket client, a request over HTTP, any
-- message of the bus, or a tick of the session cleanup.
pub data Event (b : Bcrypt) (s : Server) : Server → Type 0 where
  connects :
      (env : Env) (addr : Text) → lookup addr s.online_map ≡ none → Event b s (connect env s addr).0
  says :
      (env : Env) (p : ℕ) (u : User) (line : Text)
      → Open s p u
      → Event b s (read_line b env s p line)
  leaves : (env : Env) (p : ℕ) (u : User) → Open s p u → Event b s (offline env s p)
  ws_connects :
      (env : Env) (token : Option Text) (ip : Text) → Event b s (ws_connect env s token ip).0
  ws_reads :
      (env : Env) (c : ℕ) (incoming : Option WsIncoming) → Event b s (ws_read env s c incoming)
  ws_disconnects : (username : Text) → Event b s (ws_disconnect s username)
  requests :
      (o : OrderBy) (env : Env) (r : Request) (path : Route) → Event b s (serve b o env s r path).0
  hears : (msg : BusMessage) → Event b s (receive_from_bus s msg)
  tidies_up : (env : Env) → Event b s (cleanup_sessions env s)
  times_out : (env : Env) (p : ℕ) (u : User) → Open s p u → Event b s (kick env s p)

pub data Reaches (b : Bcrypt) (s : Server) : Server → Type 0 where
  stays : Reaches b s s
  goes_on : {t u : Server} → Reaches b s t → Event b t u → Reaches b s u

cleanup_sessions-Live : (env : Env) (s : Server) → Live s → Live (cleanup_sessions env s)
unfolding cleanup_sessions
cleanup_sessions-Live env s v =
    Live-same
      (record {
        same_users = refl;
        same_map = refl;
        same_panicked = refl;
        same_db = refl;
        same_sockets = λ k. k;
      })
      v

Event-Live : (b : Bcrypt) (s t : Server) → Event b s t → Live s → Live t
Event-Live b s t (connects env addr free) v = connect-Live env s addr v free
Event-Live b s t (says env p u line o) v = read_line-Live b env s p u line v o
Event-Live b s t (leaves env p u o) v = offline-Live env s p u v o
Event-Live b s t (ws_connects env token ip) v = ws_connect-Live env s token ip v
Event-Live b s t (ws_reads env c incoming) v = ws_read-Live env s c incoming v
Event-Live b s t (ws_disconnects username) v = ws_disconnect-Live s username v
Event-Live b s t (requests o env r path) v = serve-Live b o env s r v path
Event-Live b s t (hears msg) v = receive_from_bus-Live s msg v
Event-Live b s t (tidies_up env) v = cleanup_sessions-Live env s v
Event-Live b s t (times_out env p u o) v = kick-Live env s p u v o

pub Reaches-Live : (b : Bcrypt) (s t : Server) → Live s → Reaches b s t → Live t
Reaches-Live b s t v stays = v
Reaches-Live b s t v (goes_on run e) = Event-Live b _ t e (Reaches-Live b s _ v run)
