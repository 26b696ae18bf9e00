-- ===== src/Storage/Postgres/Select.antt =====
-- internal/storage/postgres.go: which rows the SELECT statements return.
use mathlib.Core.List.{Memᴰ}
use mathlib.Core.List.Memᴰ
use errantdns_io.Base.{
  ◌≡◌, Bool, true, false, ◌&&◌, List, [], ◌∷◌, ◌↔◌, inl, inr, arith, Bool-cases, subst, sym,
}
use errantdns_io.Base.Int.{ℤ, leb_ℤ}
use errantdns_io.Storage.Postgres.{filter, insert_by, order_by}
use errantdns_io.Storage.Postgres.Columns.{Row}

-- the row is one of the rows
abbrev pub Has : List Row → Row → Type 0
Has rows row = Memᴰ row rows

pub filter-true :
    (test : Row → Bool) (x : Row) (rows : List Row)
    → test x ≡ true
    → filter test (x ∷ rows) ≡ x ∷ filter test rows
unfolding filter
filter-true test x rows h = ground arith

pub filter-false :
    (test : Row → Bool) (x : Row) (rows : List Row)
    → test x ≡ false
    → filter test (x ∷ rows) ≡ filter test rows
unfolding filter
filter-false test x rows h = ground arith

-- The rows that a WHERE selects are the rows of the table that pass its test.
pub Has-filter :
    (test : Row → Bool) (rows : List Row) (row : Row)
    → Has (filter test rows) row ↔ (Has rows row × (test row ≡ true))
unfolding filter
Has-filter test rows row = (to rows, λ (m, h). from rows m h)
  where
    to : (rows : List Row) → Has (filter test rows) row → Has rows row × (test row ≡ true)
    to [] m = absurd (Memᴰ.not-nil m)
    to (x ∷ rows) m = elim (Bool-cases (test x)) [
      | inl passes ↦
          elim (Memᴰ.cases_cons (subst (λ z. Has z row) (filter-true test x rows passes) m)) [
            | inl e ↦ (Memᴰ.head e, subst (λ z. test z ≡ true) (sym e) passes)
            | inr m' ↦ let (n, h) = to rows m' in (Memᴰ.tail n, h)
          ]
      | inr fails ↦
          let (n, h) = to rows (subst (λ z. Has z row) (filter-false test x rows fails) m) in
          (Memᴰ.tail n, h)
    ]

    from : (rows : List Row) → Has rows row → test row ≡ true → Has (filter test rows) row
    from [] m h = elim m [ ]
    from (x ∷ rows) (Memᴰ.head e) h =
        subst (λ z. Has z row) (sym (filter-true test x rows (subst (λ z. test z ≡ true) e h)))
          (Memᴰ.head e)
    from (x ∷ rows) (Memᴰ.tail m) h = elim (Bool-cases (test x)) [
      | inl passes ↦
          subst (λ z. Has z row) (sym (filter-true test x rows passes)) (Memᴰ.tail (from rows m h))
      | inr fails ↦ subst (λ z. Has z row) (sym (filter-false test x rows fails)) (from rows m h)
    ]

module _ (column : Row → ℤ) where
  pub insert_first :
      (row other : Row) (rows : List Row)
      → leb_ℤ (column row) (column other) ≡ true
      → insert_by column row (other ∷ rows) ≡ row ∷ other ∷ rows
  unfolding insert_by
  insert_first row other rows h = ground arith

  pub insert_later :
      (row other : Row) (rows : List Row)
      → leb_ℤ (column row) (column other) ≡ false
      → insert_by column row (other ∷ rows) ≡ other ∷ insert_by column row rows
  unfolding insert_by
  insert_later row other rows h = ground arith

  Has-insert_by :
      (x : Row) (rows : List Row) (row : Row)
      → Has (insert_by column x rows) row ↔ Has (x ∷ rows) row
  unfolding insert_by
  Has-insert_by x [] row = (λ m. m, λ m. m)
  Has-insert_by x (y ∷ rows) row = elim (Bool-cases (leb_ℤ (column x) (column y))) [
    | inl first ↦
        subst (λ z. Has z row ↔ Has (x ∷ y ∷ rows) row) (sym (insert_first x y rows first))
          (λ m. m, λ m. m)
    | inr later ↦
        let (to, from) = Has-insert_by x rows row in
        subst (λ z. Has z row ↔ Has (x ∷ y ∷ rows) row) (sym (insert_later x y rows later))
          (
            λ m. elim (Memᴰ.cases_cons m) [
              | inl e ↦ Memᴰ.tail (Memᴰ.head e)
              | inr m' ↦ elim (Memᴰ.cases_cons (to m')) [
                | inl e ↦ Memᴰ.head e
                | inr n ↦ Memᴰ.tail (Memᴰ.tail n)
              ]
            ],
            λ m. elim (Memᴰ.cases_cons m) [
              | inl e ↦ Memᴰ.tail (from (Memᴰ.head e))
              | inr m' ↦ elim (Memᴰ.cases_cons m') [
                | inl e ↦ Memᴰ.head e
                | inr n ↦ Memᴰ.tail (from (Memᴰ.tail n))
              ]
            ],
          )
  ]

  -- ORDER BY keeps the rows.
  pub Has-order_by : (rows : List Row) (row : Row) → Has (order_by column rows) row ↔ Has rows row
  unfolding order_by
  Has-order_by [] row = (λ m. m, λ m. m)
  Has-order_by (x ∷ rows) row =
      let (to, from) = Has-order_by rows row in
      let (out, into) = Has-insert_by x (order_by column rows) row in
      (
        λ m. elim (Memᴰ.cases_cons (out m)) [ inl e ↦ Memᴰ.head e | inr n ↦ Memᴰ.tail (to n) ],
        λ m. elim (Memᴰ.cases_cons m) [
          | inl e ↦ into (Memᴰ.head e)
          | inr n ↦ into (Memᴰ.tail (from n))
        ],
      )

  -- each row comes before the next one in the column
  unfoldable pub is_ordered : List Row → Bool
  is_ordered [] = true
  is_ordered (x ∷ []) = true
  is_ordered (x ∷ y ∷ rows) = leb_ℤ (column x) (column y) && is_ordered (y ∷ rows)
