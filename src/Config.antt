-- ===== src/Config.antt =====
-- internal/config/config.go: the configuration and its validation. Durations are numbers of
-- nanoseconds, and the sampling rate, a floating-point number, is of a parameter `F`.
pub mod Accepted
pub mod Load
pub mod Loaded
mod Tests
use errantdns_io.Base.{[], ℕ, Bool, true, false, Option, none, some, ◌||◌, ◌&&◌, not, if◌then◌else◌}
use errantdns_io.Base.Int.{ℤ, pos, ltb_ℤ, leb_ℤ}
use errantdns_io.Base.Text.{Bytes, codes, eqb, to_upper}

-- the fields that an error may name
pub data ConfigField : Type 0 where
  dns_port_field host_field port_field user_field db_name_field connection_name_field : ConfigField
  max_open_conns_field max_idle_conns_field max_entries_field cleanup_interval_field : ConfigField
  default_ttl_field level_field directory_field query_sample_rate_field buffer_size_field :
      ConfigField
  address_field client_name_field database_field pool_size_field min_idle_conns_field : ConfigField
  tie_breaker_field max_concurrent_queries_field : ConfigField

-- `none` is a nil error
abbrev pub ConfigCheck : Type 0
ConfigCheck = Option ConfigField

-- `if test { return an error }`, and the code behind it
infix 1 unless◌fails◌then◌
abbrev pub unless◌fails◌then◌ : Bool → ConfigField → ConfigCheck → ConfigCheck
unless test fails field then rest = if test then some field else rest

-- `if err := check; err != nil { return err }`, and the code behind it
abbrev pub first_failure : ConfigCheck → ConfigCheck → ConfigCheck
first_failure (some field) rest = some field
first_failure none rest = rest

-- type DatabaseConfig
pub record DatabaseConfig : Type 0 where
  pub host : Bytes
  pub port : ℤ
  pub user : Bytes
  pub password : Bytes
  pub db_name : Bytes
  pub ssl_mode : Bytes
  pub connection_name : Bytes
  pub max_open_conns : ℤ
  pub max_idle_conns : ℤ
  pub conn_max_lifetime : ℤ
  pub conn_max_idle_time : ℤ

-- type CacheConfig
pub record CacheConfig : Type 0 where
  pub enabled : Bool
  pub max_entries : ℤ
  pub cleanup_interval : ℤ
  pub default_ttl : ℤ

-- type LoggingConfig
pub record LoggingConfig (F : Type 0) : Type 0 where
  pub level : Bytes
  pub directory : Bytes
  pub app_log_file : Bytes
  pub query_log_file : Bytes
  pub error_log_file : Bytes
  pub enable_console : Bool
  pub query_sample_rate : F
  pub buffer_size : ℤ

-- type RedisConfig
pub record RedisConfig : Type 0 where
  pub enabled : Bool
  pub address : Bytes
  pub password : Bytes
  pub database : ℤ
  pub client_name : Bytes
  pub pool_size : ℤ
  pub min_idle_conns : ℤ
  pub conn_max_idle_time : ℤ
  pub dial_timeout : ℤ

-- type Config; Priority is its tie breaker
pub record Config (F : Type 0) : Type 0 where
  pub dns_port : Bytes
  pub database : DatabaseConfig
  pub cache : CacheConfig
  pub redis : RedisConfig
  pub tie_breaker : Bytes
  pub max_concurrent_queries : ℤ
  pub shutdown_timeout : ℤ
  pub logging : LoggingConfig F
  pub log_level : Bytes

-- `x <= 0` and `x < 0`
abbrev pub not_positive : ℤ → Bool
not_positive x = leb_ℤ x (pos 0)

abbrev pub negative : ℤ → Bool
negative x = ltb_ℤ x (pos 0)

-- DatabaseConfig.Validate
unfoldable pub validate_database : DatabaseConfig → ConfigCheck
validate_database db =
    unless eqb db.host []
    fails host_field
    then unless not_positive db.port || ltb_ℤ (pos 65535) db.port
    fails port_field
    then unless eqb db.user []
    fails user_field
    then unless eqb db.db_name []
    fails db_name_field
    then unless eqb db.connection_name []
    fails connection_name_field
    then unless not_positive db.max_open_conns
    fails max_open_conns_field
    then unless negative db.max_idle_conns
    fails max_idle_conns_field
    then none

-- CacheConfig.Validate
unfoldable pub validate_cache : CacheConfig → ConfigCheck
validate_cache c =
    if c.enabled
    then (unless not_positive c.max_entries
          fails max_entries_field
          then unless negative c.cleanup_interval
          fails cleanup_interval_field
          then unless negative c.default_ttl
          fails default_ttl_field
          then none)
        else none

-- RedisConfig.Validate
unfoldable pub validate_redis : RedisConfig → ConfigCheck
validate_redis r =
    if not r.enabled
    then none else (
        unless eqb r.address []
        fails address_field
        then unless eqb r.client_name []
        fails client_name_field
        then unless negative r.database
        fails database_field
        then unless not_positive r.pool_size
        fails pool_size_field
        then unless negative r.min_idle_conns
        fails min_idle_conns_field
        then unless ltb_ℤ r.pool_size r.min_idle_conns
        fails min_idle_conns_field
        then none)

-- PriorityConfig.Validate
unfoldable pub validate_priority : Bytes → ConfigCheck
validate_priority tie_breaker =
    unless not (eqb tie_breaker (codes "round_robin")) && not (eqb tie_breaker (codes "random"))
    fails tie_breaker_field
    then none

-- the keys of validLevels
unfoldable pub is_level : Bytes → Bool
is_level s =
    eqb s (codes "DEBUG") || eqb s (codes "INFO") || eqb s (codes "WARN") || eqb s (codes "ERROR")

module _ {F : Type 0} (below_zero above_one : F → Bool) where
  -- LoggingConfig.Validate
  unfoldable pub validate_logging : LoggingConfig F → ConfigCheck
  validate_logging l =
      unless not (is_level (to_upper l.level))
      fails level_field
      then unless eqb l.directory []
      fails directory_field
      then unless below_zero l.query_sample_rate || above_one l.query_sample_rate
      fails query_sample_rate_field
      then unless not_positive l.buffer_size
      fails buffer_size_field
      then none

  -- Config.Validate
  unfoldable pub validate_config : Config F → ConfigCheck
  validate_config c =
      unless eqb c.dns_port []
      fails dns_port_field
      then first_failure (validate_database c.database) (
          first_failure (validate_cache c.cache) (
            first_failure (validate_redis c.redis) (
              first_failure (validate_priority c.tie_breaker) (
                unless not_positive c.max_concurrent_queries
                fails max_concurrent_queries_field
                then validate_logging c.logging))))
