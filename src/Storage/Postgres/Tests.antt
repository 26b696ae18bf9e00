-- ===== src/Storage/Postgres/Tests.antt =====
-- Tests of internal/storage/postgres.go.
use mathlib.Core.List.{Memᴰ}
use errantdns_io.Base.{
  ℕ, ◌+◌, ◌-◌, ◌^◌, ◌≤◌, ◌≡◌, refl, true, false, Option, some, none, List, [], ◌∷◌, map, arith, ltb,
  ◌↔◌, if◌then◌else◌, inl,
}
use errantdns_io.Base.Int.{pos}
use errantdns_io.Base.Text.{Bytes, codes, eqb}
use errantdns_io.Models.Record.{DnsRecord, normalize}
use errantdns_io.Models.Validate.{validate}
use errantdns_io.Samples.{a_record, a_query, packages, steady}
use errantdns_io.Storage.Interface.{ok}
use errantdns_io.Storage.Postgres.{
  Db, PgError, row_matches, lookup_record_group, lookup_records, create_record, delete_records,
}
use errantdns_io.Storage.Postgres.Columns.{Row, to_row, scan_row}
use errantdns_io.Storage.Postgres.Ids.{
  HasIds, count_id, create_call, delete_call, write_run, write_run-HasIds,
}
use errantdns_io.Storage.Postgres.Queries.{group_rows, is_lowest, lookup_record_group-lowest}
use errantdns_io.Storage.Postgres.RoundTrip.{Fits, stored_weight, scan_row-to_row}
use errantdns_io.Storage.Postgres.Select.{Has, is_ordered}
use errantdns_io.Storage.Postgres.Writes.{
  own_query, lookup_records-create_record, lookup_records-delete_records,
}

abbrev a_row : ℕ → Row
a_row id = to_row (pos id) 5 5 a_record

abbrev empty_db : Db Bytes
empty_db = record { rows = []; next_id = 1; now = 5; faults = [] }

abbrev full_db : Db Bytes
full_db = record { rows = a_row 1 ∷ a_row 2 ∷ []; next_id = 3; now = 5; faults = [] }

-- its second call fails
abbrev shaky_db : Db Bytes
shaky_db = record empty_db { faults = none ∷ some (codes "down") ∷ [] }

-- a record whose weight does not fit 15 bits
abbrev heavy : DnsRecord
heavy = record a_record { weight = 40000 }

heavy-Fits : Fits heavy
heavy-Fits = record {
  serial = omega arith;
  refresh = omega arith;
  retry = omega arith;
  expire = omega arith;
  minttl = omega arith;
  port = omega arith;
}

checked-Fits : Fits (normalize (validate packages a_record).0)
unfolding validate eqb errantdns_io.Models.Record.is_supported errantdns_io.Models.Record.type_of
    errantdns_io.Models.Validate.validate_type errantdns_io.Models.Targets.validate_a_record
    errantdns_io.Models.Net.parse_ip errantdns_io.Models.Net.to4 normalize
checked-Fits = record {
  serial = omega arith;
  refresh = omega arith;
  retry = omega arith;
  expire = omega arith;
  minttl = omega arith;
  port = omega arith;
}

shaky-HasIds : HasIds shaky_db
unfolding count_id
shaky-HasIds = record { unique = λ id. omega arith; fresh = λ n h. refl }

scan_row-to_row_example : scan_row (to_row (pos 7) 5 5 heavy) ≡ record heavy {
  id = (pos 7);
  created_at = 5;
  updated_at = 5;
  etld = [];
  apex_domain = [];
  subdomain_labels = [];
  is_wildcard = false;
  wildcard_mask = 0;
  tag = [];
  weight = stored_weight heavy.weight;
}
scan_row-to_row_example = scan_row-to_row (pos 7) 5 5 heavy heavy-Fits

lookup_record_group-lowest_example :
    (lookup_record_group a_query full_db
      ≡ (full_db, ok (map scan_row (group_rows a_query full_db.rows))))
    × (is_ordered (λ row. row.id) (group_rows a_query full_db.rows) ≡ true)
    × (Has (group_rows a_query full_db.rows) (a_row 2) ↔ (
        Has full_db.rows (a_row 2)
        × (row_matches a_query (a_row 2) ≡ true)
        × (is_lowest a_query full_db.rows (a_row 2) ≡ true)))
lookup_record_group-lowest_example = lookup_record_group-lowest a_query full_db (a_row 2) refl

lookup_records-create_record_example :
    (db' : Db Bytes) × (found : List DnsRecord) × (create_record packages steady 5
        (codes "random")
        a_record
        full_db
      ≡ (
        db',
        ok (record (normalize (validate packages a_record).0) {
          id = pos full_db.next_id;
          created_at = full_db.now;
          updated_at = full_db.now;
        }),
      ))
    × (lookup_records (own_query (normalize (validate packages a_record).0)) db' ≡ (db', ok found))
    × Memᴰ
        (record (normalize (validate packages a_record).0) {
          id = pos full_db.next_id;
          created_at = full_db.now;
          updated_at = full_db.now;
          etld = [];
          apex_domain = [];
          subdomain_labels = [];
          is_wildcard = false;
          wildcard_mask = 0;
          tag = [];
          weight = stored_weight (normalize (validate packages a_record).0).weight;
        })
        found
unfolding validate eqb errantdns_io.Models.Record.is_supported errantdns_io.Models.Record.type_of
    errantdns_io.Models.Validate.validate_type errantdns_io.Models.Targets.validate_a_record
    errantdns_io.Models.Net.parse_ip errantdns_io.Models.Net.to4
lookup_records-create_record_example =
    lookup_records-create_record packages steady 5 (codes "random") a_record
      (validate packages a_record).0 full_db refl checked-Fits refl

lookup_records-delete_records_example :
    lookup_records a_query (record full_db { rows = [] }) ≡ ((record full_db { rows = [] }), ok [])
unfolding errantdns_io.Models.Record.normalize_domain_name errantdns_io.Base.Text.to_lower
    errantdns_io.Base.Text.trim_suffix eqb errantdns_io.Base.Text.lower_byte delete_records
    errantdns_io.Storage.Postgres.delete_rows errantdns_io.Storage.Postgres.call_database
    errantdns_io.Storage.Postgres.filter errantdns_io.Storage.Postgres.deletes to_row
lookup_records-delete_records_example =
    lookup_records-delete_records (codes "A.io.") [] a_query full_db (record full_db { rows = [] })
      refl refl (inl refl) refl

write_run-HasIds_example : HasIds (
    write_run packages steady 5
      (codes "random")
      (create_call a_record ∷ create_call a_record ∷ delete_call (pos 1) ∷ create_call heavy ∷ [])
      shaky_db)
write_run-HasIds_example =
    write_run-HasIds packages steady 5 (codes "random")
      (create_call a_record ∷ create_call a_record ∷ delete_call (pos 1) ∷ create_call heavy ∷ [])
      shaky_db shaky-HasIds
