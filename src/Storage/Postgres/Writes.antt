-- ===== src/Storage/Postgres/Writes.antt =====
-- internal/storage/postgres.go: what the writes leave for the lookups.
use mathlib.Core.List.{Memᴰ}
use mathlib.Core.List.Memᴰ
use errantdns_io.Base.{
  ℕ, ◌+◌, ◌⊎◌, ◌≡◌, refl, Bool, true, false, not, none, List, [], ◌∷◌, ◌++◌, map, arith, Bool-cases,
  inl, inr, ◌∙◌, ap, subst,
}
use errantdns_io.Base.Int.{ℤ, pos}
use errantdns_io.Base.Text.{Bytes, eqb, eqb_refl, to_lower}
use errantdns_io.Models.Caa.{Packages}
use errantdns_io.Models.Record.{DnsRecord, LookupQuery, normalize, normalize_domain_name}
use errantdns_io.Models.Validate.{validate}
use errantdns_io.Storage.Interface.{ok}
use errantdns_io.Storage.Postgres.{
  Db, PgError, filter, order_by, row_matches, call_database, query_rows, lookup_records, if_valid,
  after_validate, create_record, insert_record, deletes, delete_rows, delete_records,
  no_records_found,
}
use errantdns_io.Storage.Postgres.Columns.{Row, to_row, scan_row}
use errantdns_io.Storage.Postgres.RoundTrip.{Fits, stored_weight, scan_row-to_row}
use errantdns_io.Storage.Postgres.Select.{Has, Has-filter, Has-order_by, filter-true, filter-false}
use errantdns_io.Storage.Select.{Chance}

-- the query under which a record is found
abbrev pub own_query : DnsRecord → LookupQuery
own_query r = record { name = r.name; query_type = r.record_type }

-- what LookupRecords returns while the database does not fail
found_rows : LookupQuery → List Row → List Row
found_rows query rows = order_by (λ row. row.priority) (filter (row_matches query) rows)

lookup_records_lem :
    {E : Type 0} (query : LookupQuery) (db : Db E)
    → db.faults ≡ []
    → lookup_records query db ≡ (db, ok (map scan_row (found_rows query db.rows)))
unfolding lookup_records query_rows call_database found_rows
lookup_records_lem query db h = ground (arith, h)

found_own :
    (rows : List Row) (row : Row) (query : LookupQuery)
    → row_matches query row ≡ true
    → Has (found_rows query (rows ++ row ∷ [])) row
unfolding found_rows
found_own rows row query h = (Has-order_by (λ row. row.priority) _ row).1 (
    (Has-filter (row_matches query) (rows ++ row ∷ []) row).1
      (Memᴰ.append_right rows (Memᴰ.head refl), h))

own_matches :
    (id : ℤ) (created updated : ℕ) (r : DnsRecord)
    → row_matches (own_query r) (to_row id created updated r) ≡ true
unfolding row_matches to_row
own_matches id created updated r = rw (eqb_refl (to_lower r.name), eqb_refl r.record_type) refl

insert_lem :
    {E : Type 0} (r : DnsRecord) (db : Db E)
    → db.faults ≡ []
    → insert_record r db ≡ (
      record db {
        rows = db.rows ++ to_row (pos db.next_id) db.now db.now r ∷ [];
        next_id = db.next_id + 1;
      },
      ok (record r { id = pos db.next_id; created_at = db.now; updated_at = db.now }),
    )
unfolding insert_record call_database
insert_lem r db h = ground (arith, h)

module _ {E : Type 0} (packages : Packages) (chance : Chance) (unix : ℕ) (tie_breaker : Bytes) where
  -- While the database does not fail, a record that Validate accepts, and whose numbers but the weight
  -- fit their types in its normal form, is created: CreateRecord returns the normal form with the id and
  -- the times of the database, and LookupRecords for that name and type then finds a record that has
  -- every field of the one returned, but for what has no column (the tag, the suffix, the labels and
  -- the wildcards, which are empty) and for the weight, of which the lowest 16 bits are left, extended
  -- by their sign.
  pub lookup_records-create_record :
      (r checked : DnsRecord) (db : Db E)
      → validate packages r ≡ (checked, none)
      → Fits (normalize checked)
      → db.faults ≡ []
      → (db' : Db E) × (found : List DnsRecord) × (create_record packages chance unix tie_breaker r
            db
          ≡ (
            db',
            ok (record (normalize checked) {
              id = pos db.next_id;
              created_at = db.now;
              updated_at = db.now;
            }),
          ))
        × (lookup_records (own_query (normalize checked)) db' ≡ (db', ok found))
        × Memᴰ
            (record (normalize checked) {
              id = pos db.next_id;
              created_at = db.now;
              updated_at = db.now;
              etld = [];
              apex_domain = [];
              subdomain_labels = [];
              is_wildcard = false;
              wildcard_mask = 0;
              tag = [];
              weight = stored_weight (normalize checked).weight;
            })
            found
  unfolding create_record if_valid after_validate
  lookup_records-create_record r checked db valid fits h =
      let row = to_row (pos db.next_id) db.now db.now (normalize checked) in
      let db' : Db E = record db { rows = db.rows ++ row ∷ []; next_id = db.next_id + 1 } in
      (
        db',
        _,
        ap (λ z. after_validate insert_record z db) valid ∙ insert_lem (normalize checked) db h,
        lookup_records_lem (own_query (normalize checked)) db' h,
        subst (λ z. Memᴰ z (map scan_row (found_rows (own_query (normalize checked)) db'.rows)))
            (scan_row-to_row (pos db.next_id) db.now db.now (normalize checked) fits)
            (Memᴰ.map scan_row (
              found_own db.rows row (own_query (normalize checked))
                (own_matches (pos db.next_id) db.now db.now (normalize checked)))),
      )

matched_deleted :
    (name record_type : Bytes) (query : LookupQuery) (row : Row)
    → to_lower query.name ≡ to_lower (normalize_domain_name name)
    → (record_type ≡ []) ⊎ (record_type ≡ query.query_type)
    → row_matches query row ≡ true
    → deletes name record_type row ≡ true
unfolding row_matches deletes eqb
matched_deleted name record_type query row same (inl any) h = rw (any, ← same) (ground arith)
matched_deleted name record_type query row same (inr kind) h = rw (kind, ← same) (ground arith)

filter_deleted :
    (p d : Row → Bool) (rows : List Row)
    → ((row : Row) → p row ≡ true → d row ≡ true)
    → filter p (filter (λ row. not (d row)) rows) ≡ []
unfolding filter
filter_deleted p d [] h = refl
filter_deleted p d (x ∷ rows) h = elim (Bool-cases (d x)) [
  | inl gone ↦
      ap (filter p) (filter-false (λ row. not (d row)) x rows (rw gone refl))
      ∙ filter_deleted p d rows h
  | inr kept ↦
      ap (filter p) (filter-true (λ row. not (d row)) x rows (rw kept refl))
      ∙ filter-false p x _ (differs (Bool-cases (p x)) kept)
      ∙ filter_deleted p d rows h
]
  where
    differs : (p x ≡ true) ⊎ (p x ≡ false) → d x ≡ false → p x ≡ false
    differs (inl yes') kept = absurd (ground (arith, h x yes', kept))
    differs (inr no') kept = no'

delete_rows_done :
    {E : Type 0} (test : Row → Bool) (missing : PgError E) (db db' : Db E)
    → db.faults ≡ []
    → delete_rows test missing db ≡ (db', ok tt)
    → (db'.rows ≡ filter (λ row. not (test row)) db.rows) × (db'.faults ≡ [])
unfolding delete_rows call_database
delete_rows_done test missing db db' h done = ground (arith, h)

-- While the database does not fail, a DeleteRecords that returns no error leaves no record for
-- LookupRecords of the name, of the type that it names or of any type if it names none.
pub lookup_records-delete_records :
    {E : Type 0} (name record_type : Bytes) (query : LookupQuery) (db db' : Db E)
    → db.faults ≡ []
    → to_lower query.name ≡ to_lower (normalize_domain_name name)
    → (record_type ≡ []) ⊎ (record_type ≡ query.query_type)
    → delete_records name record_type db ≡ (db', ok tt)
    → lookup_records query db' ≡ (db', ok [])
unfolding delete_records found_rows order_by
lookup_records-delete_records name record_type query db db' h same kind done =
    let (rows, calm) = delete_rows_done (deletes name record_type) no_records_found db db' h done in
    lookup_records_lem query db' calm
    ∙ ap (λ z. (db', ok (map scan_row (order_by (λ row. row.priority) z))))
        (ap (filter (row_matches query)) rows
          ∙ filter_deleted (row_matches query) (deletes name record_type) db.rows
              (λ row. matched_deleted name record_type query row same kind))
