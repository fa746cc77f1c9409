-- ===== src/Server.antt =====
-- internal/server: the state that a `Server` keeps (server.go), with its TCP users (user.go) and its
-- WebSocket clients (wss.go), and the steps that put a message into one queue.
-- A `*User` is its index in `users`, a `*WSClient` its index in `clients`: objects are made and never
-- freed, and the two maps hold pointers to them. A handler runs as one step; the locks are left out.
pub mod Objects
pub mod Live
pub mod Presence
pub mod Broadcast
pub mod Bus
pub mod Commands
pub mod Socket
pub mod Samples
pub mod Avatar
pub mod Listen
pub mod Construct
pub mod Web
use im_system.Common.{
  ℕ, zero, suc, Bool, true, false, not, Option, none, some, List, [], ◌∷◌, ◌++◌, ltb, if◌then◌else◌,
  Text, Assoc, length, get_elem?,
}
use im_system.Text.Trim.{trim_right_newlines}
use im_system.RateLimiter.{RateLimiter}
use im_system.Session.{MemorySessionStore}
use im_system.Db.{Database}

pub record User : Type 0 where
  pub name : Text
  pub addr : Text
  pub queue : List Text
  pub closed : Bool
  pub is_authenticated : Bool
  pub avatar : Text

-- The JSON object that `writeWS` sends; a field that is left out is empty.
pub record WsOutgoing : Type 0 where
  pub kind : Text
  pub mode : Text
  pub from : Text
  pub to : Text
  pub group : Text
  pub avatar : Text
  pub content : Text
  pub time : Text

pub record WsClient : Type 0 where
  pub name : Text
  pub avatar : Text
  pub remote_ip : Text
  pub queue : List WsOutgoing
  pub cancelled : Bool

pub record BusMessage : Type 0 where
  pub origin_id : Text
  pub kind : Text
  pub from : Text
  pub to : Text
  pub avatar : Text
  pub content : Text
  pub time : Text

-- `published` is what was handed to the bus, in order; `has_bus` is `s.bus != nil`. `panicked` is set
-- by a send on a closed channel that nothing recovers from.
pub record Server : Type 0 where
  pub users : List User
  pub online_map : Assoc ℕ
  pub clients : List WsClient
  pub ws_conns : Assoc ℕ
  pub sessions : MemorySessionStore
  pub db : Database
  pub avatar_files : Assoc Text
  pub login_limiter : RateLimiter
  pub register_limiter : RateLimiter
  pub send_limiter : RateLimiter
  pub tcp_login_limiter : RateLimiter
  pub tcp_register_limiter : RateLimiter
  pub session_ttl : ℕ
  pub max_msg_length : ℕ
  pub history_limit : ℕ
  pub history_max : ℕ
  pub server_id : Text
  pub has_bus : Bool
  pub published : List BusMessage
  pub panicked : Bool

-- What a call takes from its surroundings: `time.Now()`, its label of hours and minutes, and random
-- bits.
pub record Env : Type 0 where
  pub now : ℕ
  pub label : Text
  pub salt : ℕ

-- Changes the object behind a pointer.
unfoldable pub modify {ℓ} : {A : Type ℓ} → ℕ → (A → A) → List A → List A
modify p f [] = []
modify zero f (x ∷ xs) = f x ∷ xs
modify (suc p) f (x ∷ xs) = x ∷ modify p f xs

abbrev pub channel_size : ℕ
channel_size = 100

-- A send with a `default` branch: a full channel drops the message.
abbrev pub push {ℓ} : {A : Type ℓ} → A → List A → List A
push msg queue = if ltb (length queue) channel_size then queue ++ msg ∷ [] else queue

-- The user's end of `SendMsg`; the panic of a closed channel is recovered there.
unfoldable pub receive : Text → User → User
receive msg u = if u.closed then u else record u { queue = push msg u.queue }

unfoldable pub send_msg : Server → ℕ → Text → Server
unfolding modify receive trim_right_newlines
send_msg s p msg = record s { users = modify p (receive (trim_right_newlines msg)) s.users }

abbrev is_closed : Option User → Bool
is_closed none = false
is_closed (some u) = u.closed

-- One round of `fanoutTCP`: `cli.C <- msg` with nothing to recover a panic.
unfoldable pub fanout_one : Server → ℕ → Text → Server
unfolding modify receive
fanout_one s p msg =
    if is_closed (get_elem? s.users p)
    then record s { panicked = true }
    else record s { users = modify p (receive msg) s.users }

-- The client's end of `writeWS`. Nobody reads the queue of a client that is cancelled, so what is sent
-- to it then is dropped.
unfoldable pub accept : WsOutgoing → WsClient → WsClient
accept msg c = if c.cancelled then c else record c { queue = push msg c.queue }

unfoldable pub write_ws : Server → ℕ → WsOutgoing → Server
unfolding modify accept
write_ws s c msg = record s { clients = modify c (accept msg) s.clients }
