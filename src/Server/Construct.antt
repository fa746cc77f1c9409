-- ===== src/Server/Construct.antt =====
-- internal/server/server.go: what `New` makes of a configuration, and `cleanupSessions`. The database
-- is the one that `InitDatabase` has opened, the id the hex digits of the random bytes. The session
-- store is the one in memory, for every `session_backend` but `redis`. A setting is taken for a natural
-- number: none of those below is negative in a configuration that is meant to work.
pub mod Runs
mod Tests
use im_system.Common.{ℕ, false, List, [], ◌/◌, Text, ℤ, to_nat}
use im_system.RateLimiter.{RateLimiter, new_rate_limiter}
use im_system.Session.{new_memory_session_store, cleanup}
use im_system.Db.{Database}
use im_system.Config.{Config, AppConfig}
use im_system.Server.{Server, Env}

-- `newRateLimiter(cfg.App.RateLimit, cfg.App.RateWindow.ToDuration())`
unfoldable pub config_limiter : AppConfig → RateLimiter
unfolding new_rate_limiter
config_limiter app = new_rate_limiter (to_nat app.rate_limit) (to_nat app.rate_window)

unfoldable pub new_server : Config → Database → Text → Server
unfolding config_limiter new_memory_session_store
new_server cfg database id = record {
  users = [];
  online_map = [];
  clients = [];
  ws_conns = [];
  sessions = new_memory_session_store;
  db = database;
  avatar_files = [];
  login_limiter = config_limiter cfg.app;
  register_limiter = config_limiter cfg.app;
  send_limiter = config_limiter cfg.app;
  tcp_login_limiter = config_limiter cfg.app;
  tcp_register_limiter = config_limiter cfg.app;
  session_ttl = to_nat cfg.app.session_ttl;
  max_msg_length = to_nat cfg.app.max_msg_length;
  history_limit = to_nat cfg.app.history_limit;
  history_max = to_nat cfg.app.history_max;
  server_id = id;
  has_bus = false;
  published = [];
  panicked = false;
}

-- One tick of `cleanupSessions`.
unfoldable pub cleanup_sessions : Env → Server → Server
unfolding cleanup
cleanup_sessions env s = record s { sessions = cleanup s.sessions env.now }
