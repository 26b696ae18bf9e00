-- ===== src/Pool/Transaction.antt =====
-- internal/pgsqlpool/pool.go: the statements and the transactions on a named connection.
use errantdns_io.Base.{ℕ, ◌≡◌, refl, ◌↔◌, Option, none, some, List, [], ◌∷◌}
use errantdns_io.Base.Text.{Bytes}
use errantdns_io.Pool.{
  Pool, PoolError, get_connection, query_failed, read_failed, exec_failed, begin_failed,
  function_failed, commit_failed, rollback_failed,
}
use errantdns_io.Storage.Interface.{Result, ok, err}

-- QueryRow; `none` is the empty Row that it returns without a connection
unfoldable pub query_row : {A : Type 0} → (answer : ℕ → A) → Bytes → Pool → Option A
query_row answer name p = elim (get_connection {E = Unit} name p) [
  | err e ↦ none
  | ok db ↦ some (answer db)
]

-- a call that Transaction makes
pub data TxCall : Type 0 where
  begin_call function_call commit_call rollback_call : TxCall

module _ {E : Type 0} where
  -- Query and Exec, which pass on what the connection answers
  unfoldable pub query :
      {A : Type 0} → (answer : ℕ → Result E A) → Bytes → Pool → Result (PoolError E) A
  query answer name p = elim (get_connection {E = E} name p) [
    | err e ↦ err e
    | ok db ↦ elim (answer db) [ err e ↦ err (query_failed e) | ok a ↦ ok a ]
  ]

  -- ExecSchemaFile
  unfoldable pub exec_schema_file :
      (read_answer : Result E Bytes)
      → (exec_answer : ℕ → Bytes → Option E) → Bytes
      → Pool
      → Result (PoolError E) Unit
  exec_schema_file read_answer exec_answer name p = elim (get_connection {E = E} name p) [
    | err e ↦ err e
    | ok db ↦ elim read_answer [
      | err e ↦ err (read_failed e)
      | ok text ↦ elim (exec_answer db text) [ none ↦ ok tt | some e ↦ err (exec_failed e) ]
    ]
  ]

  -- the part of Transaction behind the call of the function
  end_transaction :
      (function_answer commit_answer rollback_answer : Option E)
      → List TxCall × Result (PoolError E) Unit
  end_transaction (some e) commit_answer (some r) = (rollback_call ∷ [], err (rollback_failed e r))
  end_transaction (some e) commit_answer none = (rollback_call ∷ [], err (function_failed e))
  end_transaction none (some e) rollback_answer = (commit_call ∷ [], err (commit_failed e))
  end_transaction none none rollback_answer = (commit_call ∷ [], ok tt)

  -- the part of Transaction behind GetConnection
  run_transaction :
      Result (PoolError E) ℕ
      → (begin_answer function_answer commit_answer rollback_answer : Option E)
      → List TxCall × Result (PoolError E) Unit
  run_transaction (err e) begin_answer function_answer commit_answer rollback_answer = ([], err e)
  run_transaction (ok db) (some e) function_answer commit_answer rollback_answer =
      (begin_call ∷ [], err (begin_failed e))
  run_transaction (ok db) none function_answer commit_answer rollback_answer =
      let (calls, result) = end_transaction function_answer commit_answer rollback_answer in
      (begin_call ∷ function_call ∷ calls, result)

  -- Transaction, with the calls that it makes
  transaction :
      (begin_answer function_answer commit_answer rollback_answer : Option E)
      → Bytes
      → Pool
      → List TxCall × Result (PoolError E) Unit
  transaction begin_answer function_answer commit_answer rollback_answer name p =
      run_transaction (get_connection name p) begin_answer function_answer commit_answer
        rollback_answer

  -- Transaction on a connection that begins one calls the function, and then either Commit and not
  -- Rollback or Rollback and not Commit: Commit exactly if the function returned no error. It returns
  -- no error exactly if neither the function nor Commit did.
  transaction_lem :
      (function_answer commit_answer rollback_answer : Option E) (name : Bytes) (p : Pool) (db : ℕ)
      → get_connection {E = E} name p ≡ ok db
      → let (calls, result) =
          transaction none function_answer commit_answer rollback_answer name p in
        ((calls ≡ begin_call ∷ function_call ∷ commit_call ∷ []) ↔ (function_answer ≡ none))
        × ((calls ≡ begin_call ∷ function_call ∷ rollback_call ∷ [])
            ↔ ((e : E) × (function_answer ≡ some e)))
        × ((result ≡ ok tt) ↔ ((function_answer ≡ none) × (commit_answer ≡ none)))
  unfolding transaction run_transaction end_transaction
  transaction_lem f c r name p db h = rw h (by_answers f c r)
    where
      by_answers :
          (f c r : Option E)
          → let (calls, result) = run_transaction (ok db) none f c r in
            ((calls ≡ begin_call ∷ function_call ∷ commit_call ∷ []) ↔ (f ≡ none))
            × ((calls ≡ begin_call ∷ function_call ∷ rollback_call ∷ []) ↔ ((e : E) × (f ≡ some e)))
            × ((result ≡ ok tt) ↔ ((f ≡ none) × (c ≡ none)))
      by_answers none none r =
          ((λ _. refl, λ _. refl), (λ e. cc, λ (e, h'). cc), (λ _. (refl, refl), λ _. refl))
      by_answers none (some e) r =
          ((λ _. refl, λ _. refl), (λ e'. cc, λ (e', h'). cc), (λ e'. cc, λ (a, b). cc))
      by_answers (some e) c none =
          ((λ e'. cc, λ e'. cc), (λ _. (e, refl), λ _. refl), (λ e'. cc, λ (a, b). cc))
      by_answers (some e) c (some x) =
          ((λ e'. cc, λ e'. cc), (λ _. (e, refl), λ _. refl), (λ e'. cc, λ (a, b). cc))
