-- ===== src/Storage/Postgres/Order.antt =====
-- internal/storage/postgres.go: ORDER BY and MIN(priority).
use mathlib.Core.List.{Memᴰ}
use mathlib.Core.List.Memᴰ
use mathlib.Core.Option.{some-injective}
use errantdns_io.Base.{
  ◌≡◌, refl, true, false, none, some, List, [], ◌∷◌, arith, Bool-cases, Option-cases, inl, inr,
  if◌then◌else◌, subst, sym, ◌∙◌,
}
use errantdns_io.Base.Int.{ℤ, pos, negsuc, leb_ℤ}
use errantdns_io.Storage.Postgres.{insert_by, order_by, min_priority}
use errantdns_io.Storage.Postgres.Columns.{Row}
use errantdns_io.Storage.Postgres.Select.{Has, is_ordered, insert_first, insert_later}

leb_total : (a b : ℤ) → leb_ℤ a b ≡ false → leb_ℤ b a ≡ true
leb_total (pos a) (pos b) h = ground arith
leb_total (pos a) (negsuc b) h = refl
leb_total (negsuc a) (pos b) h = cc
leb_total (negsuc a) (negsuc b) h = ground arith

leb_refl : (a : ℤ) → leb_ℤ a a ≡ true
leb_refl (pos a) = ground arith
leb_refl (negsuc a) = ground arith

leb_trans : (a b c : ℤ) → leb_ℤ a b ≡ true → leb_ℤ b c ≡ true → leb_ℤ a c ≡ true
leb_trans (pos a) (pos b) (pos c) h k = ground arith
leb_trans (negsuc a) (pos b) (pos c) h k = refl
leb_trans (negsuc a) (negsuc b) (pos c) h k = refl
leb_trans (negsuc a) (negsuc b) (negsuc c) h k = ground arith
leb_trans (pos a) (negsuc b) c h k = cc
leb_trans a (pos b) (negsuc c) h k = cc

module _ (column : Row → ℤ) where
  ordered_cons :
      (x y : Row) (rows : List Row)
      → leb_ℤ (column x) (column y) ≡ true
      → is_ordered column (y ∷ rows) ≡ true
      → is_ordered column (x ∷ y ∷ rows) ≡ true
  unfolding is_ordered
  ordered_cons x y rows h k = rw (h, k) refl

  ordered_tail :
      (x : Row) (rows : List Row)
      → is_ordered column (x ∷ rows) ≡ true
      → is_ordered column rows ≡ true
  unfolding is_ordered
  ordered_tail x [] h = refl
  ordered_tail x (y ∷ rows) h = ground arith

  ordered_head :
      (x y : Row) (rows : List Row)
      → is_ordered column (x ∷ y ∷ rows) ≡ true
      → leb_ℤ (column x) (column y) ≡ true
  unfolding is_ordered
  ordered_head x y rows h = ground arith

  insert_ordered :
      (x : Row) (rows : List Row)
      → is_ordered column rows ≡ true
      → is_ordered column (insert_by column x rows) ≡ true
  unfolding is_ordered insert_by
  insert_ordered x [] h = refl
  insert_ordered x (y ∷ rows) h = elim (Bool-cases (leb_ℤ (column x) (column y))) [
    | inl first ↦
        subst (λ z. is_ordered column z ≡ true) (sym (insert_first column x y rows first))
          (ordered_cons x y rows first h)
    | inr later ↦
        subst (λ z. is_ordered column z ≡ true) (sym (insert_later column x y rows later))
          (behind y rows h (leb_total (column x) (column y) later)
            (insert_ordered x rows (ordered_tail y rows h)))
  ]
    where
      behind :
          (y : Row) (rows : List Row)
          → is_ordered column (y ∷ rows) ≡ true
          → leb_ℤ (column y) (column x) ≡ true
          → is_ordered column (insert_by column x rows) ≡ true
          → is_ordered column (y ∷ insert_by column x rows) ≡ true
      behind y [] h low below = ordered_cons y x [] low refl
      behind y (z ∷ rows) h low below = elim (Bool-cases (leb_ℤ (column x) (column z))) [
        | inl first ↦
            subst (λ w. is_ordered column (y ∷ w) ≡ true) (sym (insert_first column x z rows first))
              (ordered_cons y x (z ∷ rows) low (
                subst (λ w. is_ordered column w ≡ true) (insert_first column x z rows first) below))
        | inr later ↦
            subst (λ w. is_ordered column (y ∷ w) ≡ true) (sym (insert_later column x z rows later))
              (ordered_cons y z _ (ordered_head y z rows h) (
                subst (λ w. is_ordered column w ≡ true) (insert_later column x z rows later) below))
      ]

  -- What ORDER BY returns is ordered.
  pub order_by_ordered : (rows : List Row) → is_ordered column (order_by column rows) ≡ true
  unfolding order_by is_ordered
  order_by_ordered [] = refl
  order_by_ordered (x ∷ rows) = insert_ordered x (order_by column rows) (order_by_ordered rows)

min_none :
    (x : Row) (rows : List Row)
    → min_priority rows ≡ none
    → min_priority (x ∷ rows) ≡ some x.priority
unfolding min_priority
min_none x rows empty = rw (empty, min_priority) refl

min_some :
    (x : Row) (rows : List Row) (m : ℤ)
    → min_priority rows ≡ some m
    → min_priority (x ∷ rows) ≡ some (if leb_ℤ x.priority m then x.priority else m)
unfolding min_priority
min_some x rows m found = rw (found, min_priority) refl

-- MIN(priority) of some rows is not NULL.
pub min_priority-some :
    (rows : List Row) (row : Row) → Has rows row → (least : ℤ) × (min_priority rows ≡ some least)
min_priority-some [] row m = elim m [ ]
min_priority-some (x ∷ rows) row m = elim (Option-cases (min_priority rows)) [
  | inl empty ↦ (x.priority, min_none x rows empty)
  | inr (least, found) ↦ (_, min_some x rows least found)
]

smaller_left : (a b : ℤ) → leb_ℤ (if leb_ℤ a b then a else b) a ≡ true
smaller_left a b = elim (Bool-cases (leb_ℤ a b)) [
  | inl le ↦ rw le (leb_refl a)
  | inr gt ↦ rw gt (leb_total a b gt)
]

smaller_right : (a b : ℤ) → leb_ℤ (if leb_ℤ a b then a else b) b ≡ true
smaller_right a b = elim (Bool-cases (leb_ℤ a b)) [
  | inl le ↦ rw le le
  | inr gt ↦ rw gt (leb_refl b)
]

-- No row has a priority below MIN(priority).
pub min_priority-least :
    (rows : List Row) (least : ℤ) (row : Row)
    → min_priority rows ≡ some least
    → Has rows row
    → leb_ℤ least row.priority ≡ true
min_priority-least [] least row e m = elim m [ ]
min_priority-least (x ∷ rows) least row e m = elim (Option-cases (min_priority rows)) [
  | inl empty ↦
      subst (λ z. leb_ℤ z row.priority ≡ true)
        (some-injective _ _ (sym (min_none x rows empty) ∙ e))
        (elim (Memᴰ.cases_cons m) [
          | inl same ↦ rw same (leb_refl x.priority)
          | inr rest ↦ absurd (not_none (min_priority-some rows row rest) empty)
        ])
  | inr (low, found) ↦
      subst (λ z. leb_ℤ z row.priority ≡ true)
        (some-injective _ _ (sym (min_some x rows low found) ∙ e))
        (elim (Memᴰ.cases_cons m) [
          | inl same ↦ rw same (smaller_left x.priority low)
          | inr rest ↦
              leb_trans _ low row.priority (smaller_right x.priority low)
                (min_priority-least rows low row found rest)
        ])
]
  where
    not_none : (l : ℤ) × (min_priority rows ≡ some l) → min_priority rows ≡ none → ⊥
    not_none (l, q) h = cc

-- Some row has the priority MIN(priority).
pub min_priority-attained :
    (rows : List Row) (least : ℤ)
    → min_priority rows ≡ some least
    → (x : Row) × Has rows x × (x.priority ≡ least)
unfolding min_priority
min_priority-attained [] least e = cc
min_priority-attained (x ∷ rows) least e = elim (Option-cases (min_priority rows)) [
  | inl empty ↦ (x, Memᴰ.head refl, some-injective _ _ (sym (min_none x rows empty) ∙ e))
  | inr (low, found) ↦
      let chosen = some-injective _ _ (sym (min_some x rows low found) ∙ e) in
      let (y, has, same) = min_priority-attained rows low found in
      elim (Bool-cases (leb_ℤ x.priority low)) [
        | inl le ↦
            (x, Memᴰ.head refl, subst (λ b. (if b then x.priority else low) ≡ least) le chosen)
        | inr gt ↦ (
          y,
          Memᴰ.tail has,
          same ∙ subst (λ b. (if b then x.priority else low) ≡ least) gt chosen,
        )
      ]
]
