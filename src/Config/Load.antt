-- ===== src/Config/Load.antt =====
-- internal/config/config.go: Load. The environment is a function from names to values that is empty
-- where a variable is not set. time.ParseDuration and strconv.ParseFloat, with the comparisons of
-- floating-point numbers, are parameters.
use errantdns_io.Base.{[], ◌*◌, Bool, true, false, Option, none, some, ◌||◌, ◌&&◌, if◌then◌else◌}
use errantdns_io.Base.Int.{ℤ, pos, ltb_ℤ, leb_ℤ}
use errantdns_io.Base.Text.{Bytes, codes, eqb, to_upper}
use errantdns_io.Base.Text.Number.{atoi}
use errantdns_io.Config.{DatabaseConfig, CacheConfig, LoggingConfig, RedisConfig, Config}

-- what the code uses of other packages
pub record ConfigPackages (F : Type 0) : Type 0 where
  -- time.ParseDuration, in nanoseconds
  pub parse_duration : Bytes → Option ℤ
  -- strconv.ParseFloat with 64 bits
  pub parse_float : Bytes → Option F
  -- `x >= 0`, `x <= 1`, `x < 0` and `x > 1`
  pub from_zero : F → Bool
  pub up_to_one : F → Bool
  pub below_zero : F → Bool
  pub above_one : F → Bool
  -- 0.01
  pub one_percent : F

-- strconv.ParseBool
unfoldable pub parse_bool : Bytes → Option Bool
parse_bool s =
    if eqb s (codes "1")
      || eqb s (codes "t")
      || eqb s (codes "T")
      || eqb s (codes "TRUE")
      || eqb s (codes "true")
      || eqb s (codes "True")
    then some true
    else if eqb s (codes "0")
        || eqb s (codes "f")
        || eqb s (codes "F")
        || eqb s (codes "FALSE")
        || eqb s (codes "false")
        || eqb s (codes "False")
    then some false
    else none

-- `val > 0` and `val >= 0`
abbrev pub is_positive : ℤ → Bool
is_positive n = ltb_ℤ (pos 0) n

abbrev pub is_natural : ℤ → Bool
is_natural n = leb_ℤ (pos 0) n

-- `if val, err := parse(env); err == nil && test(val) { field = val }`
unfoldable pub accept : {A : Type 0} → (A → Bool) → Option A → A → A
accept test none old = old
accept test (some new) old = if test new then new else old

-- `if env := os.Getenv(name); env != ""`, and the code behind it
unfoldable pub if_set : {A : Type 0} → Bytes → (Bytes → A) → A → A
if_set env change old = if eqb env [] then old else change env

abbrev any : {A : Type 0} → A → Bool
any a = true

module _ {F : Type 0} (packages : ConfigPackages F) (getenv : Bytes → Bytes) where
  -- a field of type string
  unfoldable pub load_text : Bytes → Bytes → Bytes
  load_text name old = if_set (getenv name) (λ env. env) old

  -- a field of type int, with the test that a value has to pass
  unfoldable pub load_int : (ℤ → Bool) → Bytes → ℤ → ℤ
  load_int test name old = if_set (getenv name) (λ env. accept test (atoi env) old) old

  -- a field of type time.Duration
  unfoldable pub load_duration : Bytes → ℤ → ℤ
  load_duration name old =
      if_set (getenv name) (λ env. accept any (packages.parse_duration env) old) old

  -- a field of type bool
  unfoldable pub load_bool : Bytes → Bool → Bool
  load_bool name old = if_set (getenv name) (λ env. accept any (parse_bool env) old) old

  -- the sampling rate
  unfoldable pub load_rate : Bytes → F → F
  load_rate name old =
      if_set (getenv name)
        (λ env.
          accept (λ rate. packages.from_zero rate && packages.up_to_one rate)
            (packages.parse_float env) old)
        old

  -- the tie breaker
  unfoldable pub load_tie_breaker : Bytes → Bytes → Bytes
  load_tie_breaker name old =
      if_set (getenv name)
        (λ env. if eqb env (codes "round_robin") || eqb env (codes "random") then env else old) old

  -- loadLoggingConfig
  unfoldable pub load_logging_config : LoggingConfig F → LoggingConfig F
  load_logging_config l = record {
    level = if_set (getenv (codes "LOG_LEVEL")) to_upper l.level;
    directory = load_text (codes "LOG_DIRECTORY") l.directory;
    app_log_file = load_text (codes "LOG_APP_FILE") l.app_log_file;
    query_log_file = load_text (codes "LOG_QUERY_FILE") l.query_log_file;
    error_log_file = load_text (codes "LOG_ERROR_FILE") l.error_log_file;
    enable_console = load_bool (codes "LOG_ENABLE_CONSOLE") l.enable_console;
    query_sample_rate = load_rate (codes "LOG_QUERY_SAMPLE_RATE") l.query_sample_rate;
    buffer_size = load_int is_positive (codes "LOG_BUFFER_SIZE") l.buffer_size;
  }

  -- loadDNSConfig
  unfoldable pub load_dns_config : Config F → Config F
  load_dns_config c = record c { dns_port = load_text (codes "DNS_PORT") c.dns_port }

  -- loadDatabaseConfig, in which DATABASE_URL changes nothing
  unfoldable pub load_database_config : DatabaseConfig → DatabaseConfig
  load_database_config db = record {
    host = load_text (codes "DB_HOST") db.host;
    port = load_int is_positive (codes "DB_PORT") db.port;
    user = load_text (codes "DB_USER") db.user;
    password = load_text (codes "DB_PASSWORD") db.password;
    db_name = load_text (codes "DB_NAME") db.db_name;
    ssl_mode = load_text (codes "DB_SSL_MODE") db.ssl_mode;
    connection_name = load_text (codes "DB_CONNECTION_NAME") db.connection_name;
    max_open_conns = load_int is_positive (codes "DB_MAX_OPEN_CONNS") db.max_open_conns;
    max_idle_conns = load_int is_natural (codes "DB_MAX_IDLE_CONNS") db.max_idle_conns;
    conn_max_lifetime = load_duration (codes "DB_CONN_MAX_LIFETIME") db.conn_max_lifetime;
    conn_max_idle_time = load_duration (codes "DB_CONN_MAX_IDLE_TIME") db.conn_max_idle_time;
  }

  -- loadCacheConfig
  unfoldable pub load_cache_config : CacheConfig → CacheConfig
  load_cache_config c = record {
    enabled = load_bool (codes "CACHE_ENABLED") c.enabled;
    max_entries = load_int is_positive (codes "CACHE_MAX_ENTRIES") c.max_entries;
    cleanup_interval = load_duration (codes "CACHE_CLEANUP_INTERVAL") c.cleanup_interval;
    default_ttl = load_duration (codes "CACHE_DEFAULT_TTL") c.default_ttl;
  }

  -- loadRedisConfig
  unfoldable pub load_redis_config : RedisConfig → RedisConfig
  load_redis_config r = record {
    enabled = load_bool (codes "REDIS_ENABLED") r.enabled;
    address = load_text (codes "REDIS_ADDRESS") r.address;
    password = load_text (codes "REDIS_PASSWORD") r.password;
    database = load_int is_natural (codes "REDIS_DATABASE") r.database;
    client_name = load_text (codes "REDIS_CLIENT_NAME") r.client_name;
    pool_size = load_int is_positive (codes "REDIS_POOL_SIZE") r.pool_size;
    min_idle_conns = load_int is_natural (codes "REDIS_MIN_IDLE_CONNS") r.min_idle_conns;
    conn_max_idle_time = load_duration (codes "REDIS_CONN_MAX_IDLE_TIME") r.conn_max_idle_time;
    dial_timeout = load_duration (codes "REDIS_DIAL_TIMEOUT") r.dial_timeout;
  }

  -- loadPriorityConfig
  unfoldable pub load_priority_config : Config F → Config F
  load_priority_config c = record c {
    tie_breaker = load_tie_breaker (codes "PRIORITY_TIE_BREAKER") c.tie_breaker;
  }

  -- loadServerConfig
  unfoldable pub load_server_config : Config F → Config F
  load_server_config c = record c {
    max_concurrent_queries =
        load_int is_positive (codes "MAX_CONCURRENT_QUERIES") c.max_concurrent_queries;
    shutdown_timeout = load_duration (codes "SHUTDOWN_TIMEOUT") c.shutdown_timeout;
    log_level = load_text (codes "LOG_LEVEL") c.log_level;
  }

  -- the Config that Load starts from
  abbrev pub defaults : Config F
  defaults = record {
    dns_port = codes "5353";
    max_concurrent_queries = pos 1000;
    shutdown_timeout = pos (30 * 1000000000);
    log_level = codes "info";
    database = record {
      host = codes "localhost";
      port = pos 5432;
      user = codes "dnsuser";
      password = codes "dnspass";
      db_name = codes "dnsdb";
      ssl_mode = codes "disable";
      connection_name = codes "dns_primary";
      max_open_conns = pos 25;
      max_idle_conns = pos 5;
      conn_max_lifetime = pos (300 * 1000000000);
      conn_max_idle_time = pos (120 * 1000000000);
    };
    cache = record {
      enabled = true;
      max_entries = pos 10000;
      cleanup_interval = pos (60 * 1000000000);
      default_ttl = pos (300 * 1000000000);
    };
    redis = record {
      enabled = false;
      address = codes "localhost:6379";
      password = [];
      database = pos 0;
      client_name = codes "errantdns";
      pool_size = pos 10;
      min_idle_conns = pos 3;
      conn_max_idle_time = pos (240 * 1000000000);
      dial_timeout = pos (2 * 1000000000);
    };
    tie_breaker = codes "round_robin";
    logging = record {
      level = codes "INFO";
      directory = codes "logs";
      app_log_file = codes "app.log";
      query_log_file = codes "queries.log";
      error_log_file = codes "errors.log";
      enable_console = true;
      query_sample_rate = packages.one_percent;
      buffer_size = pos 1000;
    };
  }

  -- the four calls on parts of the Config
  abbrev pub load_parts : Config F → Config F
  load_parts c = record c {
    database = load_database_config c.database;
    cache = load_cache_config c.cache;
    redis = load_redis_config c.redis;
    logging = load_logging_config c.logging;
  }

  -- Load
  unfoldable pub load : Config F
  load = load_server_config (load_priority_config (load_parts (load_dns_config defaults)))
