-- ===== src/Storage/Postgres/Queries.antt =====
-- internal/storage/postgres.go: what the lookups return.
use mathlib.Core.List.{Memᴰ}
use errantdns_io.Base.{
  ◌≡◌, refl, Bool, true, ◌&&◌, ◌||◌, not, Option, some, List, [], ◌∷◌, map, ◌↔◌, arith, Bool-cases,
  inl, inr, subst, sym, ◌∙◌, ap,
}
use errantdns_io.Base.Int.{ℤ, leb_ℤ, eqb_ℤ}
use errantdns_io.Models.Record.{LookupQuery}
use errantdns_io.Storage.Interface.{ok}
use errantdns_io.Storage.Postgres.{
  Db, filter, order_by, min_priority, has_priority, or_zero, row_matches, call_database, query_rows,
  priority_group, after_min, lookup_record_group,
}
use errantdns_io.Storage.Postgres.Columns.{Row, scan_row}
use errantdns_io.Storage.Postgres.Order.{
  min_priority-least, min_priority-attained, min_priority-some, order_by_ordered,
}
use errantdns_io.Storage.Postgres.Select.{Has, Has-filter, Has-order_by, is_ordered}

-- the rows that LookupRecordGroup returns
pub group_rows : LookupQuery → List Row → List Row
group_rows query rows =
    order_by (λ row. row.id)
      (filter (has_priority (or_zero (min_priority (filter (row_matches query) rows))))
        (filter (row_matches query) rows))

-- no row of the query has a lower priority number
pub is_lowest : LookupQuery → List Row → Row → Bool
is_lowest query [] row = true
is_lowest query (other ∷ rows) row =
    (not (row_matches query other) || leb_ℤ row.priority other.priority) && is_lowest query rows row

eqb_eq : (a b : ℤ) → eqb_ℤ a b ≡ true → a ≡ b
eqb_eq a b h = ground arith

eqb_same : (a : ℤ) → eqb_ℤ a a ≡ true
eqb_same a = ground arith

leb_antisym : (a b : ℤ) → leb_ℤ a b ≡ true → leb_ℤ b a ≡ true → a ≡ b
leb_antisym a b h k = ground arith

lowest_split :
    (query : LookupQuery) (other : Row) (rows : List Row) (row : Row)
    → is_lowest query (other ∷ rows) row ≡ true
    → (is_lowest query rows row ≡ true)
      × (row_matches query other ≡ true → leb_ℤ row.priority other.priority ≡ true)
unfolding is_lowest
lowest_split query other rows row h = (ground arith, λ m. ground arith)

of_lowest :
    (query : LookupQuery) (rows : List Row) (row other : Row)
    → is_lowest query rows row ≡ true
    → Has rows other
    → row_matches query other ≡ true
    → leb_ℤ row.priority other.priority ≡ true
of_lowest query [] row other h m matches = elim m [ ]
of_lowest query (x ∷ rows) row other h (Memᴰ.head e) matches =
    let (_, here) = lowest_split query x rows row h in
    subst (λ z. leb_ℤ row.priority z.priority ≡ true) (sym e)
      (here (subst (λ z. row_matches query z ≡ true) e matches))
of_lowest query (x ∷ rows) row other h (Memᴰ.tail m) matches =
    let (below, _) = lowest_split query x rows row h in
    of_lowest query rows row other below m matches

lowest_of :
    (query : LookupQuery) (rows : List Row) (row : Row)
    → ((other : Row)
        → Has rows other
        → row_matches query other ≡ true
        → leb_ℤ row.priority other.priority ≡ true)
    → is_lowest query rows row ≡ true
unfolding is_lowest
lowest_of query [] row least = refl
lowest_of query (x ∷ rows) row least =
    let rest = lowest_of query rows row (λ other m h. least other (Memᴰ.tail m) h) in
    elim (Bool-cases (row_matches query x)) [
      | inl matches ↦ rw (matches, least x (Memᴰ.head refl) matches, rest) refl
      | inr differs ↦ rw (differs, rest) refl
    ]

-- The group of a query is made of exactly the rows of the table that match the query and than which no
-- matching row has a lower priority number.
Has-group_rows :
    (query : LookupQuery) (rows : List Row) (row : Row)
    → Has (group_rows query rows) row
      ↔ (Has rows row × (row_matches query row ≡ true) × (is_lowest query rows row ≡ true))
unfolding group_rows has_priority
Has-group_rows query rows row = (to, from)
  where
    matching : List Row
    matching = filter (row_matches query) rows

    least_of : Has matching row → (least : ℤ) × (min_priority matching ≡ some least)
    least_of m = min_priority-some matching row m

    to :
        Has (group_rows query rows) row
        → Has rows row × (row_matches query row ≡ true) × (is_lowest query rows row ≡ true)
    to m =
        let kept = (Has-order_by (λ row. row.id) _ row).0 m in
        let (in_matching, same) = (Has-filter _ matching row).0 kept in
        let (in_rows, matches) = (Has-filter (row_matches query) rows row).0 in_matching in
        let (least, found) = least_of in_matching in
        (
          in_rows,
          matches,
          lowest_of query rows row (λ other has match_other.
              subst (λ z. leb_ℤ z other.priority ≡ true)
                (sym (eqb_eq row.priority _ same ∙ ap or_zero found))
                (min_priority-least matching least other found
                  ((Has-filter (row_matches query) rows other).1 (has, match_other)))),
        )

    from :
        Has rows row × (row_matches query row ≡ true) × (is_lowest query rows row ≡ true)
        → Has (group_rows query rows) row
    from (in_rows, matches, lowest) =
        let in_matching = (Has-filter (row_matches query) rows row).1 (in_rows, matches) in
        let (least, found) = least_of in_matching in
        let (x, has_x, attained) = min_priority-attained matching least found in
        let (x_in_rows, x_matches) = (Has-filter (row_matches query) rows x).0 has_x in
        let same =
          leb_antisym row.priority least
            (subst (λ z. leb_ℤ row.priority z ≡ true) attained
              (of_lowest query rows row x lowest x_in_rows x_matches))
            (min_priority-least matching least row found in_matching) in
        (Has-order_by (λ row. row.id) _ row).1 (
          (Has-filter _ matching row).1 (
            in_matching,
            subst (λ z. eqb_ℤ row.priority z ≡ true) (same ∙ sym (ap or_zero found))
                (eqb_same row.priority),
          ))

-- While the database does not fail, LookupRecordGroup returns, in the order of their ids, exactly the
-- rows of the table that match the query and than which no matching row has a lower priority number.
pub lookup_record_group-lowest :
    {E : Type 0} (query : LookupQuery) (db : Db E) (row : Row)
    → db.faults ≡ []
    → (lookup_record_group query db ≡ (db, ok (map scan_row (group_rows query db.rows))))
      × (is_ordered (λ row. row.id) (group_rows query db.rows) ≡ true)
      × (Has (group_rows query db.rows) row ↔ (
          Has db.rows row × (row_matches query row ≡ true) × (is_lowest query db.rows row ≡ true)))
unfolding lookup_record_group after_min priority_group query_rows call_database group_rows
lookup_record_group-lowest query db row h =
    (ground (arith, h), order_by_ordered (λ row. row.id) _, Has-group_rows query db.rows row)

-- If the first query of LookupRecordGroup fails, it returns no records and no error, whatever the
-- table holds.
pub lookup_record_group-swallows :
    {E : Type 0} (query : LookupQuery) (db : Db E) (e : E) (faults : List (Option E))
    → db.faults ≡ some e ∷ faults
    → lookup_record_group query db ≡ (record db { faults = faults }, ok [])
unfolding lookup_record_group after_min call_database
lookup_record_group-swallows query db e faults h = rw (h, call_database) refl
