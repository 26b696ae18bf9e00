-- ===== src/Config/Loaded.antt =====
-- internal/config/config.go: what is left to check of a configuration that Load returns.
use errantdns_io.Base.{
  [], ◌≡◌, refl, Bool, true, false, Option, none, some, ◌||◌, ◌&&◌, not, if◌then◌else◌, arith,
}
use errantdns_io.Base.Int.{ℤ, pos, negsuc, ltb_ℤ}
use errantdns_io.Base.Text.{Bytes, codes, eqb, to_upper}
use errantdns_io.Config.{
  DatabaseConfig, CacheConfig, RedisConfig, Config, ConfigCheck, unless◌fails◌then◌, first_failure,
  not_positive, negative, is_level, validate_database, validate_cache, validate_redis,
  validate_priority, validate_logging, validate_config, port_field, cleanup_interval_field,
  default_ttl_field, min_idle_conns_field, level_field,
}
use errantdns_io.Config.Load.{
  ConfigPackages, is_positive, is_natural, accept, if_set, load_text, load_int, load_rate,
  load_tie_breaker, load_database_config, load_cache_config, load_redis_config, load_logging_config,
  load_priority_config, load_server_config, load_dns_config, load, defaults,
}

-- What the floating-point comparisons satisfy.
pub record IsFloat {F : Type 0} (packages : ConfigPackages F) : Type 0 where
  pub below_from : (x : F) → packages.from_zero x ≡ true → packages.below_zero x ≡ false
  pub above_up_to : (x : F) → packages.up_to_one x ≡ true → packages.above_one x ≡ false
  pub one_percent_from : packages.from_zero packages.one_percent ≡ true
  pub one_percent_up_to : packages.up_to_one packages.one_percent ≡ true

accept_keeps :
    {A : Type 0} (P : A → Type 0) (test : A → Bool) (new : Option A) (old : A)
    → ((a : A) → test a ≡ true → P a)
    → P old
    → P (accept test new old)
unfolding accept
accept_keeps P test none old passed kept = kept
accept_keeps P test (some new) old passed kept = by_test (test new) refl
  where
    by_test : (b : Bool) → test new ≡ b → P (if b then new else old)
    by_test true h = passed new h
    by_test false h = kept

if_set_keeps :
    {A : Type 0} (P : A → Type 0) (env : Bytes) (change : Bytes → A) (old : A)
    → (eqb env [] ≡ false → P (change env))
    → P old
    → P (if_set env change old)
unfolding if_set
if_set_keeps P env change old changed kept = by_test (eqb env []) refl
  where
    by_test : (b : Bool) → eqb env [] ≡ b → P (if b then old else change env)
    by_test true h = kept
    by_test false h = changed h

above_zero : (n : ℤ) → is_positive n ≡ true → not_positive n ≡ false
above_zero (pos n) h = ground arith
above_zero (negsuc n) h = cc

not_below_zero : (n : ℤ) → is_natural n ≡ true → negative n ≡ false
not_below_zero (pos n) h = ground arith
not_below_zero (negsuc n) h = cc

-- what Validate still finds wrong
unfoldable pub check_port : DatabaseConfig → ConfigCheck
check_port db = unless ltb_ℤ (pos 65535) db.port fails port_field then none

pub check_durations : CacheConfig → ConfigCheck
check_durations c =
    if c.enabled
    then (unless negative c.cleanup_interval
        fails cleanup_interval_field
        then unless negative c.default_ttl
        fails default_ttl_field
        then none)
    else none

pub check_pool : RedisConfig → ConfigCheck
check_pool r =
    if not r.enabled
    then none
    else (unless ltb_ℤ r.pool_size r.min_idle_conns fails min_idle_conns_field then none)

module _ {F : Type 0} (packages : ConfigPackages F) (getenv : Bytes → Bytes) where
  load_text-set :
      (name old : Bytes) → eqb old [] ≡ false → eqb (load_text packages getenv name old) [] ≡ false
  unfolding load_text
  load_text-set name old h =
      if_set_keeps (λ s. eqb s [] ≡ false) (getenv name) (λ env. env) old (λ e. e) h

  load_int-positive :
      (name : Bytes) (old : ℤ)
      → not_positive old ≡ false
      → not_positive (load_int packages getenv is_positive name old) ≡ false
  unfolding load_int
  load_int-positive name old h =
      if_set_keeps (λ n. not_positive n ≡ false) (getenv name) _ old
        (λ _. accept_keeps (λ n. not_positive n ≡ false) is_positive _ old above_zero h) h

  load_int-natural :
      (name : Bytes) (old : ℤ)
      → negative old ≡ false
      → negative (load_int packages getenv is_natural name old) ≡ false
  unfolding load_int
  load_int-natural name old h =
      if_set_keeps (λ n. negative n ≡ false) (getenv name) _ old
        (λ _. accept_keeps (λ n. negative n ≡ false) is_natural _ old not_below_zero h) h

  validate_database-load :
      validate_database (load_database_config packages getenv (defaults packages getenv).database)
      ≡ check_port (load_database_config packages getenv (defaults packages getenv).database)
  unfolding validate_database load_database_config check_port eqb
  validate_database-load =
      rw
        (
          load_text-set (codes "DB_HOST") (codes "localhost") refl,
          load_int-positive (codes "DB_PORT") (pos 5432) refl,
          load_text-set (codes "DB_USER") (codes "dnsuser") refl,
          load_text-set (codes "DB_NAME") (codes "dnsdb") refl,
          load_text-set (codes "DB_CONNECTION_NAME") (codes "dns_primary") refl,
          load_int-positive (codes "DB_MAX_OPEN_CONNS") (pos 25) refl,
          load_int-natural (codes "DB_MAX_IDLE_CONNS") (pos 5) refl,
        )
        refl

  validate_cache-load :
      validate_cache (load_cache_config packages getenv (defaults packages getenv).cache)
      ≡ check_durations (load_cache_config packages getenv (defaults packages getenv).cache)
  unfolding validate_cache load_cache_config check_durations
  validate_cache-load = rw (load_int-positive (codes "CACHE_MAX_ENTRIES") (pos 10000) refl) refl

  validate_redis-load :
      validate_redis (load_redis_config packages getenv (defaults packages getenv).redis)
      ≡ check_pool (load_redis_config packages getenv (defaults packages getenv).redis)
  unfolding validate_redis load_redis_config check_pool eqb
  validate_redis-load =
      rw
        (
          load_text-set (codes "REDIS_ADDRESS") (codes "localhost:6379") refl,
          load_text-set (codes "REDIS_CLIENT_NAME") (codes "errantdns") refl,
          load_int-natural (codes "REDIS_DATABASE") (pos 0) refl,
          load_int-positive (codes "REDIS_POOL_SIZE") (pos 10) refl,
          load_int-natural (codes "REDIS_MIN_IDLE_CONNS") (pos 3) refl,
        )
        refl

  validate_priority-load :
      validate_priority
        (load_tie_breaker packages getenv (codes "PRIORITY_TIE_BREAKER") (codes "round_robin"))
      ≡ none
  unfolding load_tie_breaker validate_priority eqb
  validate_priority-load =
      if_set_keeps (λ s. validate_priority s ≡ none) (getenv (codes "PRIORITY_TIE_BREAKER")) _
        (codes "round_robin") (λ _. ground arith) refl

  load_rate-bounds :
      (name : Bytes) (old : F)
      → IsFloat packages
      → packages.below_zero old || packages.above_one old ≡ false
      → packages.below_zero (load_rate packages getenv name old)
          || packages.above_one (load_rate packages getenv name old)
        ≡ false
  unfolding load_rate
  load_rate-bounds name old floats h =
      if_set_keeps Fine (getenv name) _ old (λ _. accept_keeps Fine _ _ old in_range h) h
    where
      Fine : F → Type 0
      Fine x = packages.below_zero x || packages.above_one x ≡ false

      in_range : (x : F) → packages.from_zero x && packages.up_to_one x ≡ true → Fine x
      in_range x e = ground (arith, floats.below_from x, floats.above_up_to x)

  validate_logging-load :
      IsFloat packages
      → validate_logging packages.below_zero packages.above_one
          (load_logging_config packages getenv (defaults packages getenv).logging)
        ≡ (unless not (
              is_level (
                to_upper
                  (load_logging_config packages getenv (defaults packages getenv).logging).level))
            fails level_field
            then none)
  unfolding validate_logging load_logging_config eqb
  validate_logging-load floats =
      rw
        (
          load_text-set (codes "LOG_DIRECTORY") (codes "logs") refl,
          load_rate-bounds (codes "LOG_QUERY_SAMPLE_RATE") packages.one_percent floats
              one_percent_lem,
          load_int-positive (codes "LOG_BUFFER_SIZE") (pos 1000) refl,
        )
        refl
    where
      one_percent_lem :
          packages.below_zero packages.one_percent || packages.above_one packages.one_percent
          ≡ false
      one_percent_lem =
          rw
            (
              floats.below_from packages.one_percent floats.one_percent_from,
              floats.above_up_to packages.one_percent floats.one_percent_up_to,
            )
            refl

  -- what is left of Validate
  abbrev pub loaded_check : Config F → ConfigCheck
  loaded_check c = first_failure (check_port c.database) (
      first_failure (check_durations c.cache) (
        first_failure (check_pool c.redis)
          (unless not (is_level (to_upper c.logging.level)) fails level_field then none)))

  -- Validate of what Load returns, in any environment, comes down to five checks: the port is at most
  -- 65535, the two durations of an enabled cache are not negative, the idle connections of an enabled
  -- Redis fit in its pool, and the logging level is known. No value of a variable makes any other check
  -- fail.
  pub validate_config-load :
      IsFloat packages
      → validate_config packages.below_zero packages.above_one (load packages getenv)
        ≡ loaded_check (load packages getenv)
  unfolding validate_config load load_server_config load_priority_config load_dns_config eqb
  validate_config-load floats =
      rw
        (
          load_text-set (codes "DNS_PORT") (codes "5353") refl,
          validate_database-load,
          validate_cache-load,
          validate_redis-load,
          validate_priority-load,
          load_int-positive (codes "MAX_CONCURRENT_QUERIES") (pos 1000) refl,
          validate_logging-load floats,
        )
        refl
