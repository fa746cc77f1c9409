-- ===== src/Config/Tests.antt =====
-- A rate limit that is no number in the environment, with a file that changes nothing.
use im_system.Common.{◌≡◌, refl, none, some, List, [], ◌∷◌, text_eq, if◌then◌else◌, is_some, any}
use im_system.Text.{bytes}
use im_system.Config.{
  Config, default_config, Surroundings, Setting, server_ip, rate_limit, read_config, env_name,
  apply_env_overrides,
}
use im_system.Config.Startup.{Flags, or_kept, configure, apply_flags}
use im_system.Config.Precedence.{value, flag_value, env_value, configure_precedence}

abbrev surroundings : Surroundings
surroundings = record {
  lookup_env = λ key. if text_eq key (bytes "IM_RATE_LIMIT") then some (bytes "many") else none;
  read_file = λ name. some [];
  parse_duration = λ text. none;
  unmarshal = λ file cfg. some cfg;
}

abbrev no_flags : Flags
no_flags = record { env = none; ip = none; port = none; web = none; db = none; tls = none }

abbrev two_entries : List Setting
two_entries = server_ip ∷ rate_limit ∷ []

configure_precedence_example :
    (base : Config) × (read_config surroundings (bytes "dev") ≡ some base)
    × (value rate_limit
          (apply_flags no_flags (apply_env_overrides surroundings two_entries default_config))
        ≡ or_kept (flag_value no_flags rate_limit) (
            if is_some (surroundings.lookup_env (env_name rate_limit))
            then env_value surroundings rate_limit
            else value rate_limit base))
unfolding any configure
configure_precedence_example =
    configure_precedence surroundings two_entries no_flags
      (apply_flags no_flags (apply_env_overrides surroundings two_entries default_config))
      rate_limit refl refl
