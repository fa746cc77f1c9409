-- ===== src/Server/Samples.antt =====
-- A server that nobody has connected to, over the database of Db/Samples.
use im_system.Common.{refl, true, false, [], lookup, Distinct}
use im_system.RateLimiter.{RateLimiter, new_rate_limiter}
use im_system.Session.{new_memory_session_store}
use im_system.Db.Samples.{start, history, plain_bcrypt}
use im_system.Db.Invariant.{writes, database_stays_ok}
use im_system.Server.{Server, Env}
use im_system.Server.Live.{Live}

unfoldable pub limiter : RateLimiter
unfolding new_rate_limiter
limiter = new_rate_limiter 5 60

-- A server that nobody has connected to.
unfoldable pub idle : Server
unfolding new_memory_session_store limiter start
idle = record {
  users = [];
  online_map = [];
  clients = [];
  ws_conns = [];
  sessions = new_memory_session_store;
  db = start;
  avatar_files = [];
  login_limiter = limiter;
  register_limiter = limiter;
  send_limiter = limiter;
  tcp_login_limiter = limiter;
  tcp_register_limiter = limiter;
  session_ttl = 86400;
  max_msg_length = 500;
  history_limit = 50;
  history_max = 200;
  server_id = [];
  has_bus = true;
  published = [];
  panicked = false;
}

pub idle-Live : Live idle
unfolding Distinct idle lookup start writes
idle-Live = record {
  online_ok = record { distinct = tt; named = λ k p h. cc; listed = λ k p h. cc };
  calm = refl;
  db_ok = database_stays_ok plain_bcrypt true history;
  sockets_ok = record { keys = tt; points = λ k c e. cc };
}

abbrev pub at_ten : Env
at_ten = record { now = 10; label = []; salt = 3 }
