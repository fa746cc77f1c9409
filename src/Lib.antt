-- ===== src/Lib.antt =====
-- IM-system: a chat server in Go for TCP and WebSocket clients, with accounts, groups, friends and a
-- message history in SQLite.
--
-- The parts, and the files that model them:
--   Text, with Text/Trim and Text/Split: the functions of Go's `strings` package that the server
--     calls, on texts as lists of bytes.
--   Sanitize: `sanitizeInputWithLimit` of internal/server/server.go, through which every message goes.
--   Username: `isValidUsername` of internal/server/user.go.
--   RateLimiter: internal/server/ratelimit.go; `allow` is `Allow`.
--   Session: `MemorySessionStore` of internal/server/bus.go, one function per method; Session/Store is
--     the interface `SessionStore` with its laws, and Session/Redis the other store that fills it, of
--     internal/server/redis_session.go.
--   Model: the structs of internal/model/model.go.
--   Db: internal/db/db.go. A `Database` is its tables, and each method is a function from the database
--     to the database and the result. Users, Groups, Friends and Messages are its sections; Invariant
--     takes them together.
--   Server: the state of internal/server/server.go. Presence is who is online, Broadcast the ways of a
--     message to its receivers, Commands the TCP side (`Handler` of server.go and user.go), Socket the
--     WebSocket side (wss.go), Web the handlers of web.go behind the routes of Web/Routes, Avatar the files
--     of avatar.go, Listen the choice of a port, and Bus the messages that other servers publish.
--     Construct is what `New` makes of a configuration. Live is the invariant of a running server, and
--     Commands/Reachable the runs of all sides.
--   Config: internal/config/config.go and the flags of main.go.
--   Bridge: cmd/web/main.go, the sessions that browsers have at the chat server.
--   Client: cmd/client/main.go, the lines that the terminal client sends.
--
-- A TCP connection is made, and `connect` puts it online under its address. A line that it sends is
-- read by `read_line`, which asks the limiter and the accounts before a login, and afterwards changes
-- the database, sends a message or renames the connection. A message is sanitised, saved and put into
-- the queues of its receivers; a public one is published on the bus too. A WebSocket client is registered
-- by `ws_connect` under the name of its session's token, and `ws_read` takes what it sends.
--
-- A pointer to a user or a client is an index into a list of objects that only grows, so that two names
-- for one object stay one object. A map is an association list, whose order is that in which `range`
-- goes over it. A send on a closed channel that nothing recovers from sets the field `panicked`. Each
-- handler is one step: the locks are held across a step in the code or the step's parts are taken to
-- follow one another, and races inside a handler are not modelled. Times are natural numbers, given to
-- each call; so are the random bytes of a token and the salt of a hash.
--
-- The only loop that is not a structural recursion is that of `sanitizeInputWithLimit`: it runs on
-- fuel, and Sanitize/Tags has the bound that makes the fuel enough.
--
-- bcrypt is a parameter with the law that a hash matches its password. ORDER BY is a parameter with
-- the laws of a sorted permutation. `net.Listen`, `json.Unmarshal`, `time.ParseDuration`, the files of
-- the configuration and the environment are parameters without laws. The commands that the session store
-- sends to Redis are a parameter with the laws that Redis documents. So is JSON for the messages of
-- the bus, of which Server/Bus/Redis has what enters and leaves the channel. Not modelled: the opening
-- of the connections to Redis; TLS and the serving of HTTP; the metrics, the stickers and the static
-- files, which keep no state; the prompts of the terminal client; `Shutdown`; and the failures of the
-- database driver and of the file system.
pub mod Common
pub mod Text
pub mod Sanitize
pub mod RateLimiter
pub mod Session
pub mod Model
pub mod Db
pub mod Server
pub mod Username
pub mod Config
pub mod Bridge
pub mod Client
