-- ===== src/Pool/Tests.antt =====
-- Tests of internal/pgsqlpool and of the start of the storage.
use errantdns_io.Base.{
  ℕ, ◌+◌, ◌≡◌, ◌<◌, refl, false, Option, some, none, List, [], ◌∷◌, count, ℕ_discrete,
}
use errantdns_io.Base.Table
use errantdns_io.Base.Text.{Bytes, codes, bytes_dec, eqb, to_upper, upper_byte}
use errantdns_io.Base.Values.{times}
use errantdns_io.Config.{
  validate_config, validate_database, validate_cache, validate_redis, validate_priority,
  validate_logging, is_level,
}
use errantdns_io.Pool.{
  new_pool, get_connection, validate_connection, add_connection, add_checked, add_missing,
  add_opened,
}
use errantdns_io.Pool.Safety.{
  PoolCall, add_call, remove_call, pool_run, pool_step, get_connection-kept,
}
use errantdns_io.Pool.Start.{
  PostgresStorage, connection_of, new_postgres_storage, started, new_postgres_storage_lem,
}
use errantdns_io.Samples.{local}
use errantdns_io.Storage.Interface.{ok}

abbrev add_local : (name : Bytes) → PoolCall Bytes
add_local name = add_call none none none name (connection_of local.database)

abbrev two_calls : List (PoolCall Bytes)
two_calls = add_local (codes "a") ∷ add_local (codes "b") ∷ []

-- two connections, of one of which the Close returned an error
abbrev calls : List (PoolCall Bytes)
calls =
    add_local (codes "a")
    ∷ add_local (codes "b")
    ∷ remove_call none (codes "a")
    ∷ remove_call (some (codes "down")) (codes "b")
    ∷ []

get_connection-kept_example :
    ((db : ℕ)
      → get_connection {E = Bytes} (codes "b") (pool_run calls new_pool) ≡ ok db
      → count ℕ_discrete db (pool_run calls new_pool).closed
        ≡ count ℕ_discrete db (pool_run calls new_pool).remove_failed)
    × ((db : ℕ)
        → db < (pool_run calls new_pool).made
        → 0
          < times db (pool_run calls new_pool).connections
            + count ℕ_discrete db (pool_run calls new_pool).closed)
get_connection-kept_example = get_connection-kept calls (codes "b")

abbrev no_fault : Option Bytes
no_fault = none

-- the second connection is still handed out, and was closed
second_kept :
    (get_connection {E = Bytes} (codes "b") (pool_run calls new_pool) ≡ ok 1)
    × ((pool_run calls new_pool).closed ≡ (1 ∷ 0 ∷ []))
unfolding get_connection Table.get pool_run pool_step errantdns_io.Pool.remove_connection
    errantdns_io.Pool.remove_found add_connection add_checked validate_connection eqb connection_of
    add_missing add_opened Table.put bytes_dec Table.delete
second_kept = (refl, refl)

new_postgres_storage_lem_example :
    let storage : PostgresStorage = record {
      connection_name = local.database.connection_name;
      tie_breaker = local.tie_breaker;
    } in
    let (p, result) =
      new_postgres_storage {E = Bytes} none none none local.database.connection_name
        (connection_of local.database)
        local.tie_breaker
        new_pool in
    (result ≡ started none none storage)
    × (result ≡ ok storage → get_connection {E = Bytes} local.database.connection_name p ≡ ok 0)
unfolding validate_config validate_database validate_cache validate_redis validate_priority
    validate_logging is_level eqb to_upper upper_byte
new_postgres_storage_lem_example =
    new_postgres_storage_lem (λ rate. false) (λ rate. false) local none none none refl
