-- ===== src/Config.antt =====
-- internal/config/config.go: the settings, their defaults, and what overrides them. A `time.Duration`
-- is its number of nanoseconds. `json.Unmarshal`, `time.ParseDuration`, the files and the environment
-- are parameters.
pub mod Startup
pub mod Precedence
mod Tests
use im_system.Common.{
  ℕ, ◌*◌, ◌^◌, ◌==◌, Bool, true, false, ◌||◌, Option, none, some, List, [], ◌∷◌, ◌++◌,
  if◌then◌else◌, Text, text_eq, ℤ, pos, is_some,
}
use im_system.Text.{bytes, to_lower}
use im_system.Text.Atoi.{atoi}

pub record ServerConfig : Type 0 where
  pub ip : Text
  pub port : ℤ
  pub tls : Bool
  pub idle_timeout : ℤ

pub record WebConfig : Type 0 where
  pub addr : Text
  pub upload_dir : Text

pub record DbConfig : Type 0 where
  pub path : Text

pub record AppConfig : Type 0 where
  pub session_ttl : ℤ
  pub session_cleanup : ℤ
  pub rate_limit : ℤ
  pub rate_window : ℤ
  pub max_msg_length : ℤ
  pub history_limit : ℤ
  pub history_max : ℤ
  pub session_backend : Text
  pub redis_addr : Text
  pub redis_password : Text
  pub redis_db : ℤ

pub record Config : Type 0 where
  pub server : ServerConfig
  pub web : WebConfig
  pub db : DbConfig
  pub app : AppConfig

abbrev pub minutes : ℕ → ℤ
minutes n = pos (n * (60 * 10 ^ 9))

unfoldable pub default_config : Config
unfolding bytes
default_config = record {
  server = record {
    ip = bytes "127.0.0.1";
    port = pos 8888;
    tls = false;
    idle_timeout = minutes 10;
  };
  web = record { addr = bytes ":8080"; upload_dir = bytes "uploads" };
  db = record { path = bytes "im.db" };
  app = record {
    session_ttl = minutes (24 * 60);
    session_cleanup = minutes 30;
    rate_limit = pos 10;
    rate_window = minutes 1;
    max_msg_length = pos 500;
    history_limit = pos 300;
    history_max = pos 500;
    session_backend = bytes "memory";
    redis_addr = bytes "localhost:6379";
    redis_password = [];
    redis_db = pos 0;
  };
}

-- What surrounds the program: `os.LookupEnv`, `os.ReadFile`, `time.ParseDuration`, and
-- `json.Unmarshal` into a configuration, `none` where it fails.
pub record Surroundings : Type 0 where
  pub lookup_env : Text → Option Text
  pub read_file : Text → Option Text
  pub parse_duration : Text → Option ℤ
  pub unmarshal : Text → Config → Option Config

-- The entries of the map `overrides`.
pub data Setting : Type 0 where
  server_ip server_port server_tls idle_timeout web_addr upload_dir db_path : Setting
  session_ttl session_cleanup rate_limit rate_window max_msg_length history_limit : Setting
  history_max session_backend redis_addr redis_password redis_db : Setting

unfoldable pub env_name : Setting → Text
unfolding bytes
env_name server_ip = bytes "IM_SERVER_IP"
env_name server_port = bytes "IM_SERVER_PORT"
env_name server_tls = bytes "IM_SERVER_TLS"
env_name idle_timeout = bytes "IM_SERVER_IDLE_TIMEOUT"
env_name web_addr = bytes "IM_WEB_ADDR"
env_name upload_dir = bytes "IM_UPLOAD_DIR"
env_name db_path = bytes "IM_DB_PATH"
env_name session_ttl = bytes "IM_SESSION_TTL"
env_name session_cleanup = bytes "IM_SESSION_CLEANUP"
env_name rate_limit = bytes "IM_RATE_LIMIT"
env_name rate_window = bytes "IM_RATE_WINDOW"
env_name max_msg_length = bytes "IM_MAX_MSG_LENGTH"
env_name history_limit = bytes "IM_HISTORY_LIMIT"
env_name history_max = bytes "IM_HISTORY_MAX"
env_name session_backend = bytes "IM_SESSION_BACKEND"
env_name redis_addr = bytes "IM_REDIS_ADDR"
env_name redis_password = bytes "IM_REDIS_PASSWORD"
env_name redis_db = bytes "IM_REDIS_DB"

abbrev is_true_word : Text → Bool
is_true_word word =
    text_eq word (bytes "1")
    || text_eq word (bytes "true")
    || text_eq word (bytes "yes")
    || text_eq word (bytes "on")

module _ (x : Surroundings) where
  unfoldable pub get_env : Text → Text
  get_env key = elim (x.lookup_env key) [ none ↦ [] | some v ↦ v ]

  -- A text that is no number counts as 0.
  unfoldable pub get_env_int : Text → ℤ
  unfolding atoi
  get_env_int key = elim (x.lookup_env key) [
    | none ↦ pos 0
    | some v ↦ elim (atoi v) [ none ↦ pos 0 | some n ↦ n ]
  ]

  unfoldable pub get_env_bool : Text → Bool
  unfolding to_lower
  get_env_bool key = elim (x.lookup_env key) [ none ↦ false | some v ↦ is_true_word (to_lower v) ]

  unfoldable pub parse_env_duration : Text → ℤ
  parse_env_duration key = elim (x.lookup_env key) [
    | none ↦ pos 0
    | some v ↦ elim (x.parse_duration v) [ none ↦ pos 0 | some d ↦ d ]
  ]

  -- The function of one entry.
  unfoldable pub override : Setting → Config → Config
  unfolding get_env get_env_int get_env_bool parse_env_duration env_name
  override server_ip cfg = record cfg {
    server = record cfg.server { ip = get_env (env_name server_ip) };
  }
  override server_port cfg = record cfg {
    server = record cfg.server { port = get_env_int (env_name server_port) };
  }
  override server_tls cfg = record cfg {
    server = record cfg.server { tls = get_env_bool (env_name server_tls) };
  }
  override idle_timeout cfg = record cfg {
    server = record cfg.server { idle_timeout = parse_env_duration (env_name idle_timeout) };
  }
  override web_addr cfg = record cfg { web = record cfg.web { addr = get_env (env_name web_addr) } }
  override upload_dir cfg = record cfg {
    web = record cfg.web { upload_dir = get_env (env_name upload_dir) };
  }
  override db_path cfg = record cfg { db = record cfg.db { path = get_env (env_name db_path) } }
  override session_ttl cfg = record cfg {
    app = record cfg.app { session_ttl = parse_env_duration (env_name session_ttl) };
  }
  override session_cleanup cfg = record cfg {
    app = record cfg.app { session_cleanup = parse_env_duration (env_name session_cleanup) };
  }
  override rate_limit cfg = record cfg {
    app = record cfg.app { rate_limit = get_env_int (env_name rate_limit) };
  }
  override rate_window cfg = record cfg {
    app = record cfg.app { rate_window = parse_env_duration (env_name rate_window) };
  }
  override max_msg_length cfg = record cfg {
    app = record cfg.app { max_msg_length = get_env_int (env_name max_msg_length) };
  }
  override history_limit cfg = record cfg {
    app = record cfg.app { history_limit = get_env_int (env_name history_limit) };
  }
  override history_max cfg = record cfg {
    app = record cfg.app { history_max = get_env_int (env_name history_max) };
  }
  override session_backend cfg = record cfg {
    app = record cfg.app { session_backend = get_env (env_name session_backend) };
  }
  override redis_addr cfg = record cfg {
    app = record cfg.app { redis_addr = get_env (env_name redis_addr) };
  }
  override redis_password cfg = record cfg {
    app = record cfg.app { redis_password = get_env (env_name redis_password) };
  }
  override redis_db cfg = record cfg {
    app = record cfg.app { redis_db = get_env_int (env_name redis_db) };
  }

  -- `range` goes over the map in an order of its own.
  unfoldable pub apply_env_overrides : List Setting → Config → Config
  unfolding override
  apply_env_overrides [] cfg = cfg
  apply_env_overrides (t ∷ order) cfg =
      apply_env_overrides order
        (if is_some (x.lookup_env (env_name t)) then override t cfg else cfg)

  -- The defaults with what the file says, if it is there; `none` where it cannot be parsed.
  unfoldable pub read_config : Text → Option Config
  unfolding default_config bytes
  read_config env = elim (x.read_file (bytes "config/" ++ env ++ bytes ".json")) [
    | none ↦ some default_config
    | some file ↦ x.unmarshal file default_config
  ]

  -- `Load`; `none` is its error.
  unfoldable pub load : List Setting → Text → Option Config
  unfolding read_config apply_env_overrides
  load order env = elim (read_config env) [
    | none ↦ none
    | some cfg ↦ some (apply_env_overrides order cfg)
  ]
