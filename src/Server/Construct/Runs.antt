-- ===== src/Server/Construct/Runs.antt =====
-- internal/server: every run of a server that `New` has made.
use im_system.Common.{Bool, List, refl, Text, lookup, Distinct}
use im_system.Db.{Database, empty_database}
use im_system.Db.Invariant.{Write, writes, database_stays_ok}
use im_system.Db.Invariant.Tables.{DbOk}
use im_system.Db.Users.{Bcrypt}
use im_system.Config.{Config}
use im_system.Server.{Server}
use im_system.Server.Live.{Live}
use im_system.Server.Construct.{new_server}
use im_system.Server.Commands.Reachable.{Reaches, Reaches-Live}

pub new_server-Live :
    (cfg : Config) (database : Database) (id : Text)
    → DbOk database
    → Live (new_server cfg database id)
unfolding new_server lookup Distinct
new_server-Live cfg database id ok = record {
  online_ok = record { distinct = tt; named = λ k p h. cc; listed = λ k p h. cc };
  calm = refl;
  db_ok = ok;
  sockets_ok = record { keys = tt; points = λ k c e. cc };
}

-- From a server that `New` has made, over a database with any history of writes since its file was
-- fresh, every run of events, in any order, ends in a live server: the names in OnlineMap are distinct,
-- each points to an open user of that name, each open user stands under its name, the names in WSConns
-- are distinct and each points to a client of that name, no send on a closed channel has panicked, and
-- the tables of the database keep their constraints: no two users share a name or an id, no two groups
-- do, friendship is symmetric and never with oneself, every membership names a group id that has been
-- given out, and every message has an id that has been given out and one of the three kinds. The events
-- are a TCP connection from an address that is not in use as a name, a line, the end and the idle
-- timeout of an open one, the connection, a message and the end of a WebSocket client, any request over
-- HTTP to a path under /api/ that the router names, a message of the bus, and a tick of the session
-- cleanup.
pub server_stays-Live :
    (b : Bcrypt) (cfg : Config) (foreign_keys : Bool) (earlier : List Write) (id : Text)
    (t : Server)
    → Reaches b (new_server cfg (writes b (empty_database foreign_keys) earlier) id) t
    → Live t
server_stays-Live b cfg foreign_keys earlier id t run =
    Reaches-Live b (new_server cfg (writes b (empty_database foreign_keys) earlier) id) t
      (new_server-Live cfg _ id (database_stays_ok b foreign_keys earlier)) run
