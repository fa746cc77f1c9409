-- ===== src/Config/Startup.antt =====
-- main.go: the flags, and the configuration that they override.
use im_system.Common.{Bool, Option, none, some, List, Text, ℤ}
use im_system.Text.{bytes}
use im_system.Config.{Config, Surroundings, Setting, load}

-- The flags that were passed.
pub record Flags : Type 0 where
  pub env : Option Text
  pub ip : Option Text
  pub port : Option ℤ
  pub web : Option Text
  pub db : Option Text
  pub tls : Option Bool

-- A flag that was passed, or what was there.
abbrev pub or_kept {ℓ} : {A : Type ℓ} → Option A → A → A
or_kept none kept = kept
or_kept (some a) kept = a

-- `flag.Visit` calls its function on the flags that were passed.
unfoldable pub apply_flags : Flags → Config → Config
apply_flags flags cfg = record cfg {
  server = record cfg.server {
    ip = or_kept flags.ip cfg.server.ip;
    port = or_kept flags.port cfg.server.port;
    tls = or_kept flags.tls cfg.server.tls;
  };
  web = record cfg.web { addr = or_kept flags.web cfg.web.addr };
  db = record cfg.db { path = or_kept flags.db cfg.db.path };
}

-- The configuration that `main` starts the server with.
unfoldable pub configure : Surroundings → List Setting → Flags → Option Config
unfolding load apply_flags bytes
configure x order flags = elim (load x order (or_kept flags.env (bytes "dev"))) [
  | none ↦ none
  | some cfg ↦ some (apply_flags flags cfg)
]
