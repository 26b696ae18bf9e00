-- ===== src/Pool/Safety.antt =====
-- internal/pgsqlpool/pool.go: no connection is lost, and when a closed one is handed out.
use errantdns_io.Base.{
  ℕ, ◌+◌, ◌≤◌, ◌<◌, ◌≡◌, refl, Option, none, some, List, [], ◌∷◌, count, arith, ℕ_discrete,
}
use errantdns_io.Base.Table
use errantdns_io.Base.Table.{Table}
use errantdns_io.Base.Text.{Bytes, bytes_dec}
use errantdns_io.Base.Values.{times, times-put_absent, times-delete, get-times}
use errantdns_io.Config.{ConfigCheck}
use errantdns_io.Pool.{
  ConnectionConfig, Pool, PoolError, not_found, new_pool, call_close, get_connection,
  validate_connection, add_opened, add_missing, add_checked, add_connection, remove_found,
  remove_connection, close_each, close_pool,
}
use errantdns_io.Storage.Interface.{Result, ok, err}

abbrev closed_times : ℕ → Pool → ℕ
closed_times n p = count ℕ_discrete n p.closed

abbrev failed_times : ℕ → Pool → ℕ
failed_times n p = count ℕ_discrete n p.remove_failed

-- A connection stands under one name at most. What is made is in the map or its Close was called; what
-- is not made yet is neither; and what is in the map was closed only by a RemoveConnection that failed.
pub record IsKept (p : Pool) : Type 0 where
  pub once : (n : ℕ) → times n p.connections ≤ 1
  pub fresh : (n : ℕ) → p.made ≤ n → times n p.connections + closed_times n p + failed_times n p ≡ 0
  pub kept : (n : ℕ) → n < p.made → 0 < times n p.connections + closed_times n p
  pub in_use : (n : ℕ) → 0 < times n p.connections → closed_times n p ≡ failed_times n p

new_pool-IsKept : IsKept new_pool
unfolding times count
new_pool-IsKept = record {
  once = λ n. omega arith;
  fresh = λ n h. refl;
  kept = λ n h. omega arith;
  in_use = λ n h. refl;
}

module _ {E : Type 0} where
  add_opened-IsKept :
      (ping_answer close_answer : Option E) (name : Bytes) (p : Pool)
      → Table.get bytes_dec name p.connections ≡ none
      → IsKept p
      → IsKept (add_opened ping_answer close_answer name p).0
  unfolding add_opened count
  add_opened-IsKept none close_answer name p h safe =
      let more = λ (n : ℕ). times-put_absent bytes_dec n name p.made p.connections h in
      record {
        once = λ n. ground (arith, more n, safe.once n, safe.fresh n);
        fresh = λ n e. ground (arith, more n, safe.fresh n);
        kept = λ n e. ground (arith, more n, safe.kept n);
        in_use = λ n e. ground (arith, more n, safe.in_use n, safe.fresh n);
      }
  add_opened-IsKept (some e) close_answer name p h safe = record {
    once = safe.once;
    fresh = λ n e. ground (arith, safe.fresh n);
    kept = λ n e. ground (arith, safe.kept n);
    in_use = λ n e. ground (arith, safe.in_use n, safe.fresh n);
  }

  add_missing-IsKept :
      (found : Option ℕ) (open_answer ping_answer close_answer : Option E) (name : Bytes) (p : Pool)
      → Table.get bytes_dec name p.connections ≡ found
      → IsKept p
      → IsKept (add_missing found open_answer ping_answer close_answer name p).0
  unfolding add_missing
  add_missing-IsKept (some db) open_answer ping_answer close_answer name p h safe = safe
  add_missing-IsKept none (some e) ping_answer close_answer name p h safe = safe
  add_missing-IsKept none none ping_answer close_answer name p h safe =
      add_opened-IsKept ping_answer close_answer name p h safe

  add_checked-IsKept :
      (check : ConfigCheck) (open_answer ping_answer close_answer : Option E) (name : Bytes)
      (p : Pool)
      → IsKept p
      → IsKept (add_checked check open_answer ping_answer close_answer name p).0
  unfolding add_checked
  add_checked-IsKept (some field) open_answer ping_answer close_answer name p safe = safe
  add_checked-IsKept none open_answer ping_answer close_answer name p safe =
      add_missing-IsKept _ open_answer ping_answer close_answer name p refl safe

  remove_found-IsKept :
      (found : Option ℕ) (close_answer : Option E) (name : Bytes) (p : Pool)
      → Table.get bytes_dec name p.connections ≡ found
      → IsKept p
      → IsKept (remove_found found close_answer name p).0
  unfolding remove_found count
  remove_found-IsKept none close_answer name p h safe = safe
  remove_found-IsKept (some db) (some e) name p h safe =
      let named = get-times bytes_dec name db p.connections h in
      record {
        once = safe.once;
        fresh = λ n e. ground (arith, safe.fresh n, named);
        kept = λ n e. ground (arith, safe.kept n);
        in_use = λ n e. ground (arith, safe.in_use n);
      }
  remove_found-IsKept (some db) none name p h safe =
      let fewer = λ (n : ℕ). times-delete bytes_dec n name db p.connections h in
      record {
        once = λ n. ground (arith, fewer n, safe.once n);
        fresh = λ n e. ground (arith, fewer n, safe.fresh n);
        kept = λ n e. ground (arith, fewer n, safe.kept n);
        in_use = λ n e. ground (arith, fewer n, safe.in_use n, safe.once n);
      }

  -- what the loop of Close adds for the connections of the table
  Closes : (ℕ → Option E) → Table Bytes ℕ → ℕ → Type 0
  Closes close_answer t n =
      (last_error : Option E) (p : Pool)
      → (closed_times n (close_each close_answer t last_error p).0 ≡ closed_times n p + times n t)
        × ((close_each close_answer t last_error p).0.made ≡ p.made)
        × ((close_each close_answer t last_error p).0.remove_failed ≡ p.remove_failed)

  close_each_first :
      (close_answer : ℕ → Option E) (name : Bytes) (db : ℕ) (t : Table Bytes ℕ) (n : ℕ)
      (answer : Option E)
      → close_answer db ≡ answer
      → Closes close_answer t n
      → Closes close_answer ((name, db) ∷ t) n
  unfolding Closes close_each count times
  close_each_first close_answer name db t n none h rest last_error p =
      ground (arith, h, rest last_error (call_close db p))
  close_each_first close_answer name db t n (some e) h rest last_error p =
      ground (arith, h, rest (some e) (call_close db p))

  close_each-Closes :
      (close_answer : ℕ → Option E) (t : Table Bytes ℕ) (n : ℕ) → Closes close_answer t n
  unfolding Closes close_each times
  close_each-Closes close_answer [] n last_error p = (omega arith, refl, refl)
  close_each-Closes close_answer ((name, db) ∷ t) n last_error p =
      close_each_first close_answer name db t n (close_answer db) refl
        (close_each-Closes close_answer t n) last_error p

  close_pool-IsKept :
      (close_answer : ℕ → Option E) (p : Pool) → IsKept p → IsKept (close_pool close_answer p).0
  unfolding close_pool Closes times
  close_pool-IsKept close_answer p safe =
      let added = λ (n : ℕ). close_each-Closes close_answer p.connections n none p in
      record {
        once = λ n. omega arith;
        fresh = λ n e. ground (arith, added n, safe.fresh n);
        kept = λ n e. ground (arith, added n, safe.kept n);
        in_use = λ n e. absurd (omega (arith, e));
      }

-- a call of a method, with the answers that it gets
pub data PoolCall (E : Type 0) : Type 0 where
  add_call :
      (open_answer ping_answer close_answer : Option E) (name : Bytes) (config : ConnectionConfig)
      → PoolCall E
  remove_call : (close_answer : Option E) (name : Bytes) → PoolCall E
  close_call : (close_answer : ℕ → Option E) → PoolCall E

module _ {E : Type 0} where
  -- what a call leaves, whatever it returns
  unfoldable pub pool_step : PoolCall E → Pool → Pool
  pool_step (add_call open_answer ping_answer close_answer name config) p =
      (add_connection open_answer ping_answer close_answer name config p).0
  pool_step (remove_call close_answer name) p = (remove_connection close_answer name p).0
  pool_step (close_call close_answer) p = (close_pool close_answer p).0

  unfoldable pub pool_run : List (PoolCall E) → Pool → Pool
  pool_run [] p = p
  pool_run (c ∷ calls) p = pool_run calls (pool_step c p)

  pool_step-IsKept : (c : PoolCall E) (p : Pool) → IsKept p → IsKept (pool_step c p)
  unfolding pool_step add_connection remove_connection
  pool_step-IsKept (add_call open_answer ping_answer close_answer name config) p safe =
      add_checked-IsKept (validate_connection config) open_answer ping_answer close_answer name p
        safe
  pool_step-IsKept (remove_call close_answer name) p safe =
      remove_found-IsKept _ close_answer name p refl safe
  pool_step-IsKept (close_call close_answer) p safe = close_pool-IsKept close_answer p safe

  pool_run-IsKept : (calls : List (PoolCall E)) (p : Pool) → IsKept p → IsKept (pool_run calls p)
  unfolding pool_run
  pool_run-IsKept [] p safe = safe
  pool_run-IsKept (c ∷ calls) p safe =
      pool_run-IsKept calls (pool_step c p) (pool_step-IsKept c p safe)

  found_open :
      (name : Bytes) (p : Pool) (db : ℕ)
      → IsKept p
      → get_connection {E = E} name p ≡ ok db
      → closed_times db p ≡ failed_times db p
  unfolding get_connection
  found_open name p db safe h = by_found (Table.get bytes_dec name p.connections) refl h
    where
      by_found :
          (found : Option ℕ)
          → Table.get bytes_dec name p.connections ≡ found
          → (elim found as (λ _. Result (PoolError E) ℕ) [ none ↦ err not_found | some d ↦ ok d ])
            ≡ ok db
          → closed_times db p ≡ failed_times db p
      by_found none e h' = cc
      by_found (some d) e h' =
          ground (arith, get-times bytes_dec name d p.connections e, safe.in_use d)

  -- After any calls of AddConnection, RemoveConnection and Close, whatever the database answers to
  -- each: a connection that GetConnection hands out was closed as often as RemoveConnection failed to
  -- close it without an error, so that it is open unless that happened; and every connection that was
  -- made is still in the map or its Close was called.
  pub get_connection-kept :
      (calls : List (PoolCall E)) (name : Bytes)
      → let p = pool_run calls new_pool in
        ((db : ℕ)
          → get_connection {E = E} name p ≡ ok db
          → count ℕ_discrete db p.closed ≡ count ℕ_discrete db p.remove_failed)
        × ((db : ℕ) → db < p.made → 0 < times db p.connections + count ℕ_discrete db p.closed)
  get_connection-kept calls name =
      let safe = pool_run-IsKept calls new_pool new_pool-IsKept in
      (λ db h. found_open name _ db safe h, safe.kept)
