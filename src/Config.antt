-- ===== src/Config.antt =====
-- util/config.go: the settings, and how they are read. viper is a parameter: whether it finds the
-- file, and what it decodes of the file and the environment.
use template_golang_web.Base.{ℕ, String, Bool, Option, none, if◌then◌else◌}

-- Durations are in seconds.
pub record Config : Type 0 where
  pub environment : String
  pub db_driver : String
  pub db_source : String
  pub db_max_open_conns : ℕ
  pub db_max_idle_conns : ℕ
  pub db_conn_max_lifetime : ℕ
  pub http_server_address : String
  pub redis_address : String
  pub cors_allow_origins : String
  pub token_duration : ℕ
  pub shutdown_timeout : ℕ
  pub api_timeout : ℕ
  pub operation_log_cleanup_cron : String
  pub operation_log_retention_months : ℕ

-- ReadInConfig of a path, and Unmarshal of what was read.
pub record Viper : Type 0 where
  pub read_in_config : String → Bool
  pub unmarshal : Option Config

-- `none` is an error.
unfoldable pub load_config : Viper → String → Option Config
load_config viper path = if viper.read_in_config path then viper.unmarshal else none
