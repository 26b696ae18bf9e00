-- ===== src/Storage/Postgres.antt =====
-- internal/storage/postgres.go: PostgresStorage over one table. The SQL statements of the file are
-- written as functions on the rows of the table. Calls of the database may fail: the state holds what
-- the next calls fail with, and a call that the database refuses (a constraint of
-- schemas/postgresql.sql among them) is one that fails.
pub mod Columns
pub mod RoundTrip
pub mod Select
pub mod Order
pub mod Queries
pub mod Writes
pub mod Ids
mod Tests
use errantdns_io.Base.{
  ℕ, ◌+◌, Bool, true, false, ◌&&◌, not, Option, none, some, List, [], ◌∷◌, ◌++◌, map, length, ◌==◌,
  if◌then◌else◌,
}
use errantdns_io.Base.Int.{ℤ, pos, leb_ℤ, ltb_ℤ, eqb_ℤ}
use errantdns_io.Base.Text.{Bytes, eqb, to_lower}
use errantdns_io.Models.Caa.{Packages}
use errantdns_io.Models.Errors.{ValidationError, Check}
use errantdns_io.Models.Record.{DnsRecord, LookupQuery, normalize, normalize_domain_name}
use errantdns_io.Models.Validate.{validate}
use errantdns_io.Storage.Interface.{Method, Storage, Result, ok, err, and_then}
use errantdns_io.Storage.Postgres.Columns.{Row, to_row, scan_row}
use errantdns_io.Storage.Select.{Chance, select_from_array}

-- the errors of the methods
pub data PgError (E : Type 0) : Type 0 where
  invalid_record : ValidationError → PgError E
  database_failed : E → PgError E
  record_not_found no_records_found : PgError E

-- The table with its next id, the time of the database, and what its next calls fail with; there is
-- no failure behind the end of the list.
pub record Db (E : Type 0) : Type 0 where
  pub rows : List Row
  pub next_id : ℕ
  pub now : ℕ
  pub faults : List (Option E)

-- WHERE LOWER(name) = LOWER($1) AND record_type = $2
pub row_matches : LookupQuery → Row → Bool
row_matches query row =
    eqb (to_lower row.name) (to_lower query.name) && eqb row.record_type query.query_type

pub filter : (Row → Bool) → List Row → List Row
filter test [] = []
filter test (row ∷ rows) = let rest = filter test rows in if test row then row ∷ rest else rest

-- ORDER BY a column ASC; rows that are equal in it stay in the order of the table
pub insert_by : (Row → ℤ) → Row → List Row → List Row
insert_by column row [] = row ∷ []
insert_by column row (other ∷ rows) =
    let rest = insert_by column row rows in
    if leb_ℤ (column row) (column other) then row ∷ other ∷ rows else other ∷ rest

pub order_by : (Row → ℤ) → List Row → List Row
order_by column [] = []
order_by column (row ∷ rows) = insert_by column row (order_by column rows)

-- SELECT MIN(priority); `none` is NULL
pub min_priority : List Row → Option ℤ
min_priority [] = none
min_priority (row ∷ rows) = elim (min_priority rows) [
  | none ↦ some row.priority
  | some least ↦ some (if leb_ℤ row.priority least then row.priority else least)
]

-- AND priority = $3
pub has_priority : ℤ → Row → Bool
has_priority priority row = eqb_ℤ row.priority priority

-- minPriority.Int32
abbrev pub or_zero : Option ℤ → ℤ
or_zero none = pos 0
or_zero (some n) = n

-- UPDATE ... WHERE id = $14: the rows with the id are replaced
pub update_rows : ℤ → DnsRecord → (now : ℕ) → List Row → List Row
update_rows id r now [] = []
update_rows id r now (row ∷ rows) =
    let rest = update_rows id r now rows in
    if eqb_ℤ row.id id then to_row row.id row.created_at now r ∷ rest else row ∷ rest

-- WHERE LOWER(name) = LOWER($1), with AND record_type = $2 unless the type is empty
pub deletes : (name record_type : Bytes) → Row → Bool
deletes name record_type row =
    eqb (to_lower row.name) (to_lower (normalize_domain_name name))
    && (if eqb record_type [] then true else eqb row.record_type record_type)

module _ {E : Type 0} where
  -- a call of the database
  pub call_database : Method (Db E) (PgError E) Unit
  call_database db = elim db.faults [
    | [] ↦ (db, ok tt)
    | none ∷ faults ↦ (record db { faults = faults }, ok tt)
    | some e ∷ faults ↦ (record db { faults = faults }, err (database_failed e))
  ]

  -- Query with the loop over its rows: the call, and a Scan or an iteration that may fail
  pub query_rows : (List Row → List Row) → Method (Db E) (PgError E) (List DnsRecord)
  query_rows select db = and_then (call_database db) λ _ queried.
      and_then (call_database queried)
        λ _ scanned. (scanned, ok (map scan_row (select scanned.rows)))

  -- LookupRecords
  pub lookup_records : LookupQuery → Method (Db E) (PgError E) (List DnsRecord)
  lookup_records query =
      query_rows (λ rows. order_by (λ row. row.priority) (filter (row_matches query) rows))

  -- the second query of LookupRecordGroup
  pub priority_group : LookupQuery → ℤ → Method (Db E) (PgError E) (List DnsRecord)
  priority_group query priority = query_rows (λ rows.
      order_by (λ row. row.id) (filter (has_priority priority) (filter (row_matches query) rows)))

  -- what LookupRecordGroup does with the result of the first Scan: after an error `minPriority` is
  -- not valid, and the code takes that for a query without records
  pub after_min :
      LookupQuery → Db E × Result (PgError E) Unit → Db E × Result (PgError E) (List DnsRecord)
  after_min query (db, err e) = (db, ok [])
  after_min query (db, ok _) =
      priority_group query (or_zero (min_priority (filter (row_matches query) db.rows))) db

  -- LookupRecordGroup
  pub lookup_record_group : LookupQuery → Method (Db E) (PgError E) (List DnsRecord)
  lookup_record_group query db = after_min query (call_database db)

  -- the part of CreateRecord behind Validate and Normalize
  pub insert_record : DnsRecord → Method (Db E) (PgError E) DnsRecord
  insert_record r db = and_then (call_database db) λ _ called. (
    record called {
      rows = called.rows ++ to_row (pos called.next_id) called.now called.now r ∷ [];
      next_id = called.next_id + 1;
    },
    ok (record r { id = pos called.next_id; created_at = called.now; updated_at = called.now }),
  )

  -- the part of UpdateRecord behind Validate and Normalize
  pub change_record : DnsRecord → Method (Db E) (PgError E) DnsRecord
  change_record r db = and_then (call_database db) λ _ called.
      elim (filter (λ row. eqb_ℤ row.id r.id) called.rows) [
        | [] ↦ (called, err record_not_found)
        | _ ∷ _ ↦ (
          record called { rows = update_rows r.id r called.now called.rows },
          ok (record r { updated_at = called.now }),
        )
      ]

  -- Exec of a DELETE with RowsAffected: the rows that the test takes are deleted
  pub delete_rows : (Row → Bool) → PgError E → Method (Db E) (PgError E) Unit
  delete_rows test missing db = and_then (call_database db) λ _ called.
      let deleted = record called { rows = filter (λ row. not (test row)) called.rows } in
      and_then (call_database deleted) λ _ counted. elim (filter test called.rows) [
        | [] ↦ (counted, err missing)
        | _ ∷ _ ↦ (counted, ok tt)
      ]

  -- DeleteRecord
  unfoldable pub delete_record : ℤ → Method (Db E) (PgError E) Unit
  delete_record id = delete_rows (λ row. eqb_ℤ row.id id) record_not_found

  -- DeleteRecords
  unfoldable pub delete_records : Bytes → Bytes → Method (Db E) (PgError E) Unit
  delete_records name record_type = delete_rows (deletes name record_type) no_records_found

  -- Health
  unfoldable pub health : Method (Db E) (PgError E) Unit
  health = call_database

  -- the part of a write behind Validate
  pub after_validate :
      (DnsRecord → Method (Db E) (PgError E) DnsRecord)
      → DnsRecord × Check
      → Method (Db E) (PgError E) DnsRecord
  after_validate write (checked, some e) db = (db, err (invalid_record e))
  after_validate write (checked, none) db = write (normalize checked) db

module _ {E : Type 0} (packages : Packages) (chance : Chance) (unix : ℕ) (tie_breaker : Bytes) where
  -- LookupRecord; the period of the round robin in this file is 30 seconds
  unfoldable pub lookup_record : LookupQuery → Method (Db E) (PgError E) (Option DnsRecord)
  lookup_record query db =
      and_then (lookup_record_group query db)
        λ records s. (s, ok (select_from_array chance 30 unix tie_breaker records query))

  -- a write with Validate and Normalize in front of it
  pub if_valid :
      (DnsRecord → Method (Db E) (PgError E) DnsRecord)
      → DnsRecord
      → Method (Db E) (PgError E) DnsRecord
  if_valid write r = after_validate write (validate packages r)

  -- CreateRecord
  unfoldable pub create_record : DnsRecord → Method (Db E) (PgError E) DnsRecord
  create_record = if_valid insert_record

  -- UpdateRecord
  unfoldable pub update_record : DnsRecord → Method (Db E) (PgError E) DnsRecord
  update_record = if_valid change_record

  -- PostgresStorage as a Storage; it has no methods that tell the source of a record
  abbrev pub postgres : Storage (Db E) (PgError E)
  postgres = record {
    lookup_record = lookup_record;
    lookup_records = lookup_records;
    lookup_record_group = lookup_record_group;
    create_record = create_record;
    update_record = update_record;
    delete_record = delete_record;
    delete_records = delete_records;
    health = health;
    lookup_record_with_source = none;
    lookup_record_group_with_source = none;
  }
