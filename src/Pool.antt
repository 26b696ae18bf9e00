-- ===== src/Pool.antt =====
-- internal/pgsqlpool/pool.go: the pool of named connections. A connection is the number of its making.
-- The methods hold the mutex, so that they are single steps. What database/sql and the database answer
-- is an argument: `none` is no error.
pub mod Safety
pub mod Transaction
pub mod Start
mod Tests
use errantdns_io.Base.{
  ℕ, ◌+◌, ◌≡◌, Bool, true, false, ◌||◌, Option, none, some, List, [], ◌∷◌, ◌++◌, if◌then◌else◌,
}
use errantdns_io.Base.Int.{ℤ, pos, ltb_ℤ}
use errantdns_io.Base.Table
use errantdns_io.Base.Table.{Table, keys}
use errantdns_io.Base.Text.{Bytes, eqb, bytes_dec}
use errantdns_io.Base.Values.{values}
use errantdns_io.Config.{
  ConfigField, ConfigCheck, unless◌fails◌then◌, not_positive, negative, host_field, port_field,
  user_field, db_name_field, max_open_conns_field, max_idle_conns_field,
}
use errantdns_io.Storage.Interface.{Result, ok, err}

-- type ConnectionConfig
pub record ConnectionConfig : Type 0 where
  pub host : Bytes
  pub port : ℤ
  pub user : Bytes
  pub password : Bytes
  pub db_name : Bytes
  pub ssl_mode : Bytes
  pub max_open_conns : ℤ
  pub max_idle_conns : ℤ
  pub conn_max_lifetime : ℤ
  pub conn_max_idle_time : ℤ

-- ConnectionConfig.Validate
pub validate_connection : ConnectionConfig → ConfigCheck
validate_connection c =
    unless eqb c.host []
    fails host_field
    then unless not_positive c.port || ltb_ℤ (pos 65535) c.port
    fails port_field
    then unless eqb c.user []
    fails user_field
    then unless eqb c.db_name []
    fails db_name_field
    then unless not_positive c.max_open_conns
    fails max_open_conns_field
    then unless negative c.max_idle_conns
    fails max_idle_conns_field
    then none

-- the errors of the methods, with what they wrap
pub data PoolError (E : Type 0) : Type 0 where
  invalid_config : ConfigField → PoolError E
  already_exists not_found : PoolError E
  open_failed ping_failed close_failed read_failed exec_failed : E → PoolError E
  query_failed begin_failed function_failed commit_failed : E → PoolError E
  rollback_failed : (reason rollback : E) → PoolError E

-- The map of the pool, how many connections were made, and those whose Close was called, which closes a
-- connection also where it returns an error. The last field is no variable of the pool: the connections
-- that a RemoveConnection closed with an error, behind which they are still in the map.
pub record Pool : Type 0 where
  pub connections : Table Bytes ℕ
  pub made : ℕ
  pub closed : List ℕ
  pub remove_failed : List ℕ

-- NewPool
abbrev pub new_pool : Pool
new_pool = record { connections = []; made = 0; closed = []; remove_failed = [] }

-- GetConnection
pub get_connection : {E : Type 0} → Bytes → Pool → Result (PoolError E) ℕ
get_connection name p = elim (Table.get bytes_dec name p.connections) [
  | none ↦ err not_found
  | some db ↦ ok db
]

-- ConnectionExists
unfoldable pub connection_exists : Bytes → Pool → Bool
connection_exists name p = elim (Table.get bytes_dec name p.connections) [
  | none ↦ false
  | some db ↦ true
]

-- ListConnections
abbrev pub list_connections : Pool → List Bytes
list_connections p = keys p.connections

-- a call of Close on a connection
abbrev pub call_close : ℕ → Pool → Pool
call_close db p = record p { closed = db ∷ p.closed }

module _ {E : Type 0} where
  -- what AddConnection does with an open connection and the answers of Ping and of Close
  pub add_opened :
      (ping_answer close_answer : Option E) → Bytes → Pool → Pool × Result (PoolError E) Unit
  add_opened (some e) close_answer name p =
      (call_close p.made (record p { made = p.made + 1 }), err (ping_failed e))
  add_opened none close_answer name p = (
    record p { connections = Table.put bytes_dec name p.made p.connections; made = p.made + 1 },
    ok tt,
  )

  -- the part of AddConnection behind the search for the name
  pub add_missing :
      Option ℕ
      → (open_answer ping_answer close_answer : Option E) → Bytes
      → Pool
      → Pool × Result (PoolError E) Unit
  add_missing (some db) open_answer ping_answer close_answer name p = (p, err already_exists)
  add_missing none (some e) ping_answer close_answer name p = (p, err (open_failed e))
  add_missing none none ping_answer close_answer name p = add_opened ping_answer close_answer name p

  -- the part of AddConnection behind Validate
  pub add_checked :
      ConfigCheck
      → (open_answer ping_answer close_answer : Option E) → Bytes
      → Pool
      → Pool × Result (PoolError E) Unit
  add_checked (some field) open_answer ping_answer close_answer name p =
      (p, err (invalid_config field))
  add_checked none open_answer ping_answer close_answer name p =
      add_missing (Table.get bytes_dec name p.connections) open_answer ping_answer close_answer name
        p

  -- AddConnection
  pub add_connection :
      (open_answer ping_answer close_answer : Option E)
      → Bytes
      → ConnectionConfig
      → Pool
      → Pool × Result (PoolError E) Unit
  add_connection open_answer ping_answer close_answer name config p =
      add_checked (validate_connection config) open_answer ping_answer close_answer name p

  -- the part of RemoveConnection behind the search for the name
  pub remove_found :
      Option ℕ → (close_answer : Option E) → Bytes → Pool → Pool × Result (PoolError E) Unit
  remove_found none close_answer name p = (p, err not_found)
  remove_found (some db) (some e) name p =
      (record (call_close db p) { remove_failed = db ∷ p.remove_failed }, err (close_failed e))
  remove_found (some db) none name p =
      (call_close db (record p { connections = Table.delete bytes_dec name p.connections }), ok tt)

  -- RemoveConnection
  pub remove_connection :
      (close_answer : Option E) → Bytes → Pool → Pool × Result (PoolError E) Unit
  remove_connection close_answer name p =
      remove_found (Table.get bytes_dec name p.connections) close_answer name p

  -- the loop of Close over the map: the error is the last one
  pub close_each :
      (close_answer : ℕ → Option E)
      → Table Bytes ℕ
      → (last_error : Option E) → Pool
      → Pool × Option E
  close_each close_answer [] last_error p = (p, last_error)
  close_each close_answer ((name, db) ∷ connections) last_error p =
      close_each close_answer connections
        (elim (close_answer db) [ none ↦ last_error | some e ↦ some e ]) (call_close db p)

  -- Close
  pub close_pool : (close_answer : ℕ → Option E) → Pool → Pool × Option E
  close_pool close_answer p =
      let (closed, last_error) = close_each close_answer p.connections none p in
      (record closed { connections = [] }, last_error)

  -- HealthCheck
  unfoldable pub health_check : (ping_answer : ℕ → Option E) → Bytes → Pool → Option (PoolError E)
  health_check ping_answer name p = elim (Table.get bytes_dec name p.connections) [
    | none ↦ some not_found
    | some db ↦ elim (ping_answer db) [ none ↦ none | some e ↦ some (ping_failed e) ]
  ]

  -- the loop of HealthCheckAll over the names
  unfoldable pub check_each :
      (ping_answer : ℕ → Option E)
      → List Bytes
      → Pool
      → Table Bytes (PoolError E)
      → Table Bytes (PoolError E)
  check_each ping_answer [] p errors = errors
  check_each ping_answer (name ∷ names) p errors =
      check_each ping_answer names p (elim (health_check ping_answer name p) [
        | none ↦ errors
        | some e ↦ Table.put bytes_dec name e errors
      ])

  -- HealthCheckAll, with no other call between its steps
  unfoldable pub health_check_all : (ping_answer : ℕ → Option E) → Pool → Table Bytes (PoolError E)
  health_check_all ping_answer p = check_each ping_answer (list_connections p) p []
