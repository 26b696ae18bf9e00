-- ===== src/Storage/Postgres/Ids.antt =====
-- internal/storage/postgres.go: the ids of the table.
use errantdns_io.Base.{
  ℕ, ◌+◌, ◌≤◌, ◌≡◌, refl, Bool, not, Option, none, some, List, [], ◌∷◌, ◌++◌, arith, if◌then◌else◌,
}
use errantdns_io.Base.Int.{ℤ, pos, negsuc, eqb_ℤ}
use errantdns_io.Base.Text.{Bytes}
use errantdns_io.Models.Caa.{Packages}
use errantdns_io.Models.Errors.{Check}
use errantdns_io.Models.Record.{DnsRecord, normalize}
use errantdns_io.Models.Validate.{validate}
use errantdns_io.Storage.Interface.{Method, Result, ok, err, and_then}
use errantdns_io.Storage.Postgres.{
  Db, PgError, filter, update_rows, call_database, insert_record, change_record, delete_rows,
  after_validate, if_valid, create_record, update_record, delete_record, delete_records,
}
use errantdns_io.Storage.Postgres.Columns.{Row, to_row}
use errantdns_io.Storage.Select.{Chance}

-- how many rows have the id
unfoldable pub count_id : ℤ → List Row → ℕ
count_id id [] = 0
count_id id (row ∷ rows) = (if eqb_ℤ row.id id then 1 else 0) + count_id id rows

-- Each id stands in one row at most, and in none from the next id on.
pub record Ids (next_id : ℕ) (rows : List Row) : Type 0 where
  pub unique : (id : ℤ) → count_id id rows ≤ 1
  pub fresh : (n : ℕ) → next_id ≤ n → count_id (pos n) rows ≡ 0

-- The invariant of the table.
abbrev pub HasIds : {E : Type 0} → Db E → Type 0
HasIds db = Ids db.next_id db.rows

count_id-filter :
    (test : Row → Bool) (id : ℤ) (rows : List Row)
    → count_id id (filter test rows) ≤ count_id id rows
unfolding count_id filter
count_id-filter test id [] = omega arith
count_id-filter test id (row ∷ rows) = ground (arith, count_id-filter test id rows)

count_id-append :
    (id : ℤ) (rows : List Row) (row : Row)
    → count_id id (rows ++ row ∷ []) ≡ count_id id rows + (if eqb_ℤ row.id id then 1 else 0)
unfolding count_id
count_id-append id [] row = omega arith
count_id-append id (x ∷ rows) row = omega (arith, count_id-append id rows row)

count_id-update_rows :
    (changed : ℤ) (r : DnsRecord) (now : ℕ) (id : ℤ) (rows : List Row)
    → count_id id (update_rows changed r now rows) ≡ count_id id rows
unfolding count_id update_rows to_row
count_id-update_rows changed r now id [] = refl
count_id-update_rows changed r now id (row ∷ rows) =
    ground (arith, count_id-update_rows changed r now id rows)

Ids-filter : (test : Row → Bool) (n : ℕ) (rows : List Row) → Ids n rows → Ids n (filter test rows)
Ids-filter test n rows h = record {
  unique = λ id. omega (arith, count_id-filter test id rows, h.unique id);
  fresh = λ m le. omega (arith, count_id-filter test (pos m) rows, h.fresh m le);
}

Ids-update_rows :
    (id : ℤ) (r : DnsRecord) (now n : ℕ) (rows : List Row)
    → Ids n rows
    → Ids n (update_rows id r now rows)
Ids-update_rows id r now n rows h = record {
  unique = λ i. omega (arith, count_id-update_rows id r now i rows, h.unique i);
  fresh = λ m le. omega (arith, count_id-update_rows id r now (pos m) rows, h.fresh m le);
}

Ids-insert :
    (n : ℕ) (rows : List Row) (row : Row)
    → row.id ≡ pos n
    → Ids n rows
    → Ids (n + 1) (rows ++ row ∷ [])
Ids-insert n rows row e h = record {
  unique = λ id. one id;
  fresh = λ m le. rw (count_id-append (pos m) rows row, e) (ground (arith, h.fresh m));
}
  where
    one : (id : ℤ) → count_id id (rows ++ row ∷ []) ≤ 1
    one (pos m) =
        rw (count_id-append (pos m) rows row, e) (ground (arith, h.unique (pos m), h.fresh m))
    one (negsuc m) =
        rw (count_id-append (negsuc m) rows row, e) (ground (arith, h.unique (negsuc m)))

and_then_keeps :
    {S E A B : Type 0} (P : S → Type 0) (x : S × Result E A) (k : A → S → S × Result E B)
    → P x.0
    → ((a : A) (s : S) → P s → P (k a s).0)
    → P (and_then x k).0
and_then_keeps P (s, ok a) k p next = next a s p
and_then_keeps P (s, err e) k p next = p

elim_keeps :
    {A B : Type 0} (P : B → Type 0) (l : List A) (x y : B)
    → P x
    → P y
    → P (elim l [ [] ↦ x | _ ∷ _ ↦ y ])
elim_keeps P [] x y p q = p
elim_keeps P (a ∷ l) x y p q = q

module _ {E : Type 0} where
  call_keeps : (db : Db E) → HasIds db → HasIds (call_database db).0
  unfolding call_database
  call_keeps db h = same db.faults refl
    where
      same : (faults : List (Option E)) → db.faults ≡ faults → HasIds (call_database db).0
      same [] e = rw (e, call_database) h
      same (none ∷ faults) e = rw (e, call_database) h
      same (some x ∷ faults) e = rw (e, call_database) h

  insert_keeps : (r : DnsRecord) (db : Db E) → HasIds db → HasIds (insert_record r db).0
  unfolding insert_record to_row
  insert_keeps r db h =
      and_then_keeps HasIds (call_database db) _ (call_keeps db h)
        (λ a s p. Ids-insert s.next_id s.rows _ refl p)

  change_keeps : (r : DnsRecord) (db : Db E) → HasIds db → HasIds (change_record r db).0
  unfolding change_record
  change_keeps r db h = and_then_keeps HasIds (call_database db) _ (call_keeps db h) (λ a s p.
      elim_keeps (λ (z : Db E × Result (PgError E) DnsRecord). HasIds z.0)
        (filter (λ row. eqb_ℤ row.id r.id) s.rows) _ _ p
        (Ids-update_rows r.id r s.now s.next_id s.rows p))

  delete_keeps :
      (test : Row → Bool) (missing : PgError E) (db : Db E)
      → HasIds db
      → HasIds (delete_rows test missing db).0
  unfolding delete_rows
  delete_keeps test missing db h =
      and_then_keeps HasIds (call_database db) _ (call_keeps db h) (λ a s p.
        and_then_keeps HasIds
          (call_database (record s { rows = filter (λ row. not (test row)) s.rows })) _
          (call_keeps _ (Ids-filter (λ row. not (test row)) s.next_id s.rows p))
          (λ b t q.
            elim_keeps (λ (z : Db E × Result (PgError E) Unit). HasIds z.0) (filter test s.rows) _ _
              q q))

-- a call that may change the table, with the record or the id that it takes
pub data Write : Type 0 where
  create_call update_call : DnsRecord → Write
  delete_call : ℤ → Write
  delete_all_call : (name record_type : Bytes) → Write

module _ {E : Type 0} (packages : Packages) (chance : Chance) (unix : ℕ) (tie_breaker : Bytes) where
  -- what a call leaves, whatever it returns
  write_step : Write → Db E → Db E
  write_step (create_call r) db = (create_record packages chance unix tie_breaker r db).0
  write_step (update_call r) db = (update_record packages chance unix tie_breaker r db).0
  write_step (delete_call id) db = (delete_record id db).0
  write_step (delete_all_call name record_type) db = (delete_records name record_type db).0

  pub write_run : List Write → Db E → Db E
  write_run [] db = db
  write_run (w ∷ ws) db = write_run ws (write_step w db)

  valid_keeps :
      (write : DnsRecord → Method (Db E) (PgError E) DnsRecord) (checked : DnsRecord × Check)
      (db : Db E)
      → ((r : DnsRecord) → HasIds (write r db).0)
      → HasIds db
      → HasIds (after_validate write checked db).0
  unfolding after_validate
  valid_keeps write (checked, none) db keeps h = keeps (normalize checked)
  valid_keeps write (checked, some e) db keeps h = h

  write_step-HasIds : (w : Write) (db : Db E) → HasIds db → HasIds (write_step w db)
  unfolding write_step create_record update_record delete_record delete_records if_valid
  write_step-HasIds (create_call r) db h =
      valid_keeps insert_record (validate packages r) db (λ r'. insert_keeps r' db h) h
  write_step-HasIds (update_call r) db h =
      valid_keeps change_record (validate packages r) db (λ r'. change_keeps r' db h) h
  write_step-HasIds (delete_call id) db h = delete_keeps _ _ db h
  write_step-HasIds (delete_all_call name record_type) db h = delete_keeps _ _ db h

  -- Over any sequence of CreateRecord, UpdateRecord, DeleteRecord and DeleteRecords, also if calls of
  -- the database fail, no two rows of the table get the same id, and the next id is unused.
  pub write_run-HasIds : (ws : List Write) (db : Db E) → HasIds db → HasIds (write_run ws db)
  unfolding write_run
  write_run-HasIds [] db h = h
  write_run-HasIds (w ∷ ws) db h = write_run-HasIds ws (write_step w db) (write_step-HasIds w db h)
