-- ===== src/Config/Precedence.antt =====
-- internal/config/config.go and main.go: which of the sources of a setting counts.
use im_system.Common.{
  ℕ, ◌≡◌, refl, sym, ap, ◌∙◌, subst, Bool, true, false, ◌&&◌, Option, none, some, List, [], ◌∷◌,
  ◌==◌, arith, if◌then◌else◌, Text, ℤ, is_some, any, Bool-cases, Option-cases, inl, inr,
}
use im_system.Text.{bytes}
use im_system.Config.{
  Config, Surroundings, Setting, server_ip, server_port, server_tls, idle_timeout, web_addr,
  upload_dir, db_path, session_ttl, session_cleanup, rate_limit, rate_window, max_msg_length,
  history_limit, history_max, session_backend, redis_addr, redis_password, redis_db, env_name,
  get_env, get_env_int, get_env_bool, parse_env_duration, override, apply_env_overrides,
  read_config, load,
}
use im_system.Config.Startup.{Flags, or_kept, apply_flags, configure}

-- A number for each setting.
abbrev pub index : Setting → ℕ
index server_ip = 0
index server_port = 1
index server_tls = 2
index idle_timeout = 3
index web_addr = 4
index upload_dir = 5
index db_path = 6
index session_ttl = 7
index session_cleanup = 8
index rate_limit = 9
index rate_window = 10
index max_msg_length = 11
index history_limit = 12
index history_max = 13
index session_backend = 14
index redis_addr = 15
index redis_password = 16
index redis_db = 17

-- A setting's value, whatever its type.
pub data Value : Type 0 where
  text : Text → Value
  number : ℤ → Value
  flag : Bool → Value

-- The field that a setting stands for.
abbrev pub value : Setting → Config → Value
value server_ip cfg = text cfg.server.ip
value server_port cfg = number cfg.server.port
value server_tls cfg = flag cfg.server.tls
value idle_timeout cfg = number cfg.server.idle_timeout
value web_addr cfg = text cfg.web.addr
value upload_dir cfg = text cfg.web.upload_dir
value db_path cfg = text cfg.db.path
value session_ttl cfg = number cfg.app.session_ttl
value session_cleanup cfg = number cfg.app.session_cleanup
value rate_limit cfg = number cfg.app.rate_limit
value rate_window cfg = number cfg.app.rate_window
value max_msg_length cfg = number cfg.app.max_msg_length
value history_limit cfg = number cfg.app.history_limit
value history_max cfg = number cfg.app.history_max
value session_backend cfg = text cfg.app.session_backend
value redis_addr cfg = text cfg.app.redis_addr
value redis_password cfg = text cfg.app.redis_password
value redis_db cfg = number cfg.app.redis_db

-- What its variable says.
unfoldable pub env_value : Surroundings → Setting → Value
env_value x server_ip = text (get_env x (env_name server_ip))
env_value x server_port = number (get_env_int x (env_name server_port))
env_value x server_tls = flag (get_env_bool x (env_name server_tls))
env_value x idle_timeout = number (parse_env_duration x (env_name idle_timeout))
env_value x web_addr = text (get_env x (env_name web_addr))
env_value x upload_dir = text (get_env x (env_name upload_dir))
env_value x db_path = text (get_env x (env_name db_path))
env_value x session_ttl = number (parse_env_duration x (env_name session_ttl))
env_value x session_cleanup = number (parse_env_duration x (env_name session_cleanup))
env_value x rate_limit = number (get_env_int x (env_name rate_limit))
env_value x rate_window = number (parse_env_duration x (env_name rate_window))
env_value x max_msg_length = number (get_env_int x (env_name max_msg_length))
env_value x history_limit = number (get_env_int x (env_name history_limit))
env_value x history_max = number (get_env_int x (env_name history_max))
env_value x session_backend = text (get_env x (env_name session_backend))
env_value x redis_addr = text (get_env x (env_name redis_addr))
env_value x redis_password = text (get_env x (env_name redis_password))
env_value x redis_db = number (get_env_int x (env_name redis_db))

-- What its flag says, if it has one that was passed.
unfoldable pub flag_value : Flags → Setting → Option Value
flag_value flags server_ip = elim flags.ip [ none ↦ none | some v ↦ some (text v) ]
flag_value flags server_port = elim flags.port [ none ↦ none | some v ↦ some (number v) ]
flag_value flags server_tls = elim flags.tls [ none ↦ none | some v ↦ some (flag v) ]
flag_value flags web_addr = elim flags.web [ none ↦ none | some v ↦ some (text v) ]
flag_value flags db_path = elim flags.db [ none ↦ none | some v ↦ some (text v) ]
flag_value flags other = none

value-override :
    (x : Surroundings) (s t : Setting) (cfg : Config)
    → value s (override x t cfg) ≡ (if index t == index s then env_value x s else value s cfg)
unfolding override env_value
value-override x server_ip t cfg = ground arith
value-override x s t cfg = ground arith

value-apply_flags :
    (flags : Flags) (s : Setting) (cfg : Config)
    → value s (apply_flags flags cfg) ≡ or_kept (flag_value flags s) (value s cfg)
unfolding apply_flags flag_value
value-apply_flags flags s cfg = ground arith

index-eq : (s t : Setting) → (index t == index s) ≡ true → t ≡ s
index-eq server_ip t h = ground arith
index-eq s t h = ground arith

-- Whether the map has the entry.
abbrev pub has_entry : List Setting → Setting → Bool
has_entry order s = any (λ t. index t == index s) order

module _ (x : Surroundings) (s : Setting) where
  -- Where the variable is there, what it says.
  abbrev overridden : Bool → Value → Value
  overridden entry kept =
      if entry && is_some (x.lookup_env (env_name s)) then env_value x s else kept

  value-override_if_set :
      (t : Setting) (cfg : Config)
      → value s (if is_some (x.lookup_env (env_name t)) then override x t cfg else cfg)
        ≡ overridden (index t == index s) (value s cfg)
  value-override_if_set t cfg = elim (Bool-cases (is_some (x.lookup_env (env_name t)))) [
    | inr unset ↦ elim (Bool-cases (index t == index s)) [
      | inl same ↦
          let unset_too =
            subst (λ k. is_some (x.lookup_env (env_name k)) ≡ false) (index-eq s t same) unset in
          rw (unset, same, unset_too) refl
      | inr other ↦ rw (unset, other) refl
    ]
    | inl set ↦ elim (Bool-cases (index t == index s)) [
      | inl same ↦
          let set_too =
            subst (λ k. is_some (x.lookup_env (env_name k)) ≡ true) (index-eq s t same) set in
          rw (set, set_too) (value-override x s t cfg ∙ rw same refl)
      | inr other ↦ rw (set, other) (value-override x s t cfg ∙ rw other refl)
    ]
  ]

  value-apply_env_overrides :
      (order : List Setting) (cfg : Config)
      → value s (apply_env_overrides x order cfg) ≡ overridden (has_entry order s) (value s cfg)
  unfolding apply_env_overrides any
  value-apply_env_overrides [] cfg = refl
  value-apply_env_overrides (t ∷ order) cfg =
      value-apply_env_overrides order _
      ∙ ap (overridden (has_entry order s)) (value-override_if_set t cfg)
      ∙ ground arith

-- In the configuration that the program starts with, a setting has the value of its flag, if that was
-- passed; else what its environment variable says, if that is set; else what the file of the chosen
-- environment makes of the default. This is so for every setting of the map of overrides and in
-- whatever order that map is gone over.
pub configure_precedence :
    (x : Surroundings) (order : List Setting) (flags : Flags) (cfg : Config) (s : Setting)
    → has_entry order s ≡ true
    → configure x order flags ≡ some cfg
    → (base : Config) × (read_config x (or_kept flags.env (bytes "dev")) ≡ some base)
      × (value s cfg
          ≡ or_kept
              (flag_value flags s)
              (if is_some (x.lookup_env (env_name s)) then env_value x s else value s base))
unfolding configure load
configure_precedence x order flags cfg s entry h =
    elim (Option-cases (read_config x (or_kept flags.env (bytes "dev")))) [
      | inl broken ↦ ground (arith, broken, h)
      | inr (base, read) ↦
          let same : apply_flags flags (apply_env_overrides x order base) ≡ cfg =
            ground (arith, read, h) in
          (
            base,
            read,
            ap (value s) (sym same)
                ∙ value-apply_flags flags s (apply_env_overrides x order base)
                ∙ ap (or_kept (flag_value flags s))
                    (value-apply_env_overrides x s order base ∙ rw entry refl),
          )
    ]
