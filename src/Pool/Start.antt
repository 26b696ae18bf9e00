-- ===== src/Pool/Start.antt =====
-- cmd/dns-server/main.go and internal/storage/postgres.go: the connection that the server starts with.
use errantdns_io.Base.{ℕ, ◌≡◌, refl, Bool, Option, none, some, [], arith}
use errantdns_io.Base.Table
use errantdns_io.Base.Text.{Bytes, bytes_dec}
use errantdns_io.Config.{DatabaseConfig, Config, validate_database, validate_config}
use errantdns_io.Pool.{
  ConnectionConfig, Pool, PoolError, validate_connection, add_checked, add_missing, add_opened,
  add_connection, new_pool, get_connection, open_failed, ping_failed,
}
use errantdns_io.Storage.Interface.{Result, ok, err}

-- the storage.Config that main builds, as the ConnectionConfig that NewPostgresStorage makes of it
unfoldable pub connection_of : DatabaseConfig → ConnectionConfig
connection_of db = record {
  host = db.host;
  port = db.port;
  user = db.user;
  password = db.password;
  db_name = db.db_name;
  ssl_mode = db.ssl_mode;
  max_open_conns = db.max_open_conns;
  max_idle_conns = db.max_idle_conns;
  conn_max_lifetime = db.conn_max_lifetime;
  conn_max_idle_time = db.conn_max_idle_time;
}

-- type PostgresStorage, whose pool is the state
pub record PostgresStorage : Type 0 where
  pub connection_name : Bytes
  pub tie_breaker : Bytes

module _ {E : Type 0} where
  -- what NewPostgresStorage does with the result of AddConnection
  storage_of :
      Bytes → Bytes → Pool × Result (PoolError E) Unit → Pool × Result (PoolError E) PostgresStorage
  storage_of name tie_breaker (p, err e) = (p, err e)
  storage_of name tie_breaker (p, ok _) =
      (p, ok (record { connection_name = name; tie_breaker = tie_breaker }))

  -- NewPostgresStorage
  pub new_postgres_storage :
      (open_answer ping_answer close_answer : Option E)
      → Bytes
      → ConnectionConfig
      → (tie_breaker : Bytes) → Pool
      → Pool × Result (PoolError E) PostgresStorage
  new_postgres_storage open_answer ping_answer close_answer name config tie_breaker p =
      storage_of name tie_breaker
        (add_connection open_answer ping_answer close_answer name config p)

  -- the result of a start whose only failures are those of Open and of Ping
  abbrev pub started :
      (open_answer ping_answer : Option E) → PostgresStorage → Result (PoolError E) PostgresStorage
  started (some e) ping_answer storage = err (open_failed e)
  started none (some e) storage = err (ping_failed e)
  started none none storage = ok storage

validate_connection_of :
    (db : DatabaseConfig)
    → validate_database db ≡ none
    → validate_connection (connection_of db) ≡ none
unfolding validate_database validate_connection connection_of
validate_connection_of db h = ground arith

database_checked :
    {F : Type 0} (below_zero above_one : F → Bool) (c : Config F)
    → validate_config below_zero above_one c ≡ none
    → validate_database c.database ≡ none
unfolding validate_config
database_checked below_zero above_one c valid = ground arith

own_name :
    {E : Type 0} (name : Bytes)
    → get_connection {E = E} name
        (record new_pool { connections = Table.put bytes_dec name 0 []; made = 1 })
      ≡ ok 0
unfolding get_connection
own_name name = rw (Table.get-put_self {V = ℕ} bytes_dec name 0 [], get_connection) refl

start_checked :
    {E : Type 0} (name tie_breaker : Bytes) (open_answer ping_answer close_answer : Option E)
    → let storage : PostgresStorage = record {
      connection_name = name;
      tie_breaker = tie_breaker;
    } in
      let (p, result) =
        storage_of name tie_breaker
          (add_checked none open_answer ping_answer close_answer name new_pool) in
      (result ≡ started open_answer ping_answer storage)
      × (result ≡ ok storage → get_connection {E = E} name p ≡ ok 0)
unfolding add_checked add_missing add_opened storage_of Table.get
start_checked name tie_breaker (some e) ping_answer close_answer = (refl, λ h. cc)
start_checked name tie_breaker none (some e) close_answer = (refl, λ h. cc)
start_checked name tie_breaker none none close_answer = (refl, λ h. own_name name)

module _ {E F : Type 0} (below_zero above_one : F → Bool) where
  -- If Validate accepts the configuration, the start of the database on a new pool fails only if Open
  -- or Ping does; and if it does not fail, the pool has the connection of the configured name.
  pub new_postgres_storage_lem :
      (c : Config F) (open_answer ping_answer close_answer : Option E)
      → validate_config below_zero above_one c ≡ none
      → let storage : PostgresStorage = record {
        connection_name = c.database.connection_name;
        tie_breaker = c.tie_breaker;
      } in
        let (p, result) =
          new_postgres_storage open_answer ping_answer close_answer c.database.connection_name
            (connection_of c.database)
            c.tie_breaker
            new_pool in
        (result ≡ started open_answer ping_answer storage)
        × (result ≡ ok storage → get_connection {E = E} c.database.connection_name p ≡ ok 0)
  unfolding new_postgres_storage add_connection
  new_postgres_storage_lem c open_answer ping_answer close_answer valid =
      rw (validate_connection_of c.database (database_checked below_zero above_one c valid)) (
        start_checked c.database.connection_name c.tie_breaker open_answer ping_answer close_answer)
