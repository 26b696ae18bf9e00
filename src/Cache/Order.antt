-- ===== src/Cache/Order.antt =====
-- internal/cache/memory.go: the access order beside the keys of the table, under the removals and
-- insertions that the methods make.
use errantdns_io.Base.{
  ◌+◌, ◌≤◌, ◌<◌, ◌≡◌, List, [], ◌∷◌, arith, ap, length, count, remove_first, count-remove_first,
  length-remove_first, length-remove_first_alike, length-append, count-append,
}
use errantdns_io.Base.Table
use errantdns_io.Base.Table.{
  Table, keys, length-keys, keys-delete, keys-put_present, keys-put_absent,
}

-- The order lists the keys of the table, each once.
pub record Coherent {K E : Type 0} (dec : Discrete K) (t : Table K E) (order : List K)
    : Type 0 where
  pub sizes : length order ≡ length t
  pub once : (k : K) → count dec k (keys t) ≤ 1
  pub same : (k : K) → count dec k order ≡ count dec k (keys t)

module _ {K E : Type 0} (dec : Discrete K) (k : K) (t : Table K E) where
  pub length-put_present :
      (v : E) → 0 < count dec k (keys t) → length (Table.put dec k v t) ≡ length t
  length-put_present v h = omega (
    arith,
    length-keys t,
    length-keys (Table.put dec k v t),
    ap length (keys-put_present dec k v t h),
  )

  pub length-put_absent :
      (v : E) → count dec k (keys t) ≡ 0 → length (Table.put dec k v t) ≡ length t + 1
  length-put_absent v h = omega (
    arith,
    length-keys t,
    length-keys (Table.put dec k v t),
    ap length (keys-put_absent dec k v t h),
    length-append (keys t) (k ∷ []),
  )

  pub length-delete_present :
      0 < count dec k (keys t) → length (Table.delete dec k t) + 1 ≡ length t
  length-delete_present h = omega (
    arith,
    length-keys t,
    length-keys (Table.delete dec k t),
    ap length (keys-delete dec k t),
    length-remove_first dec k (keys t) h,
  )

  module _ (order : List K) (c : Coherent dec t order) where
    pub Coherent-delete : Coherent dec (Table.delete dec k t) (remove_first dec k order)
    Coherent-delete = record {
      sizes = omega (
        arith,
        c.sizes,
        length-keys t,
        length-keys (Table.delete dec k t),
        ap length (keys-delete dec k t),
        length-remove_first_alike dec k order (keys t) (c.same k),
      );
      once = λ j. rw keys-delete (ground (arith, c.once j, count-remove_first dec k j (keys t)));
      same = λ j. rw keys-delete (
          ground (
            arith,
            c.same j,
            count-remove_first dec k j (keys t),
            count-remove_first dec k j order,
          ));
    }

    pub Coherent-front : 0 < count dec k (keys t) → Coherent dec t (k ∷ remove_first dec k order)
    unfolding count
    Coherent-front h = record {
      sizes = omega (arith, c.sizes, c.same k, length-remove_first dec k order);
      once = c.once;
      same = λ j. ground (arith, c.same j, c.same k, count-remove_first dec k j order);
    }

    pub Coherent-put_present :
        (v : E) → 0 < count dec k (keys t) → Coherent dec (Table.put dec k v t) order
    Coherent-put_present v h = record {
      sizes = omega (arith, c.sizes, length-put_present v h);
      once = λ j. rw (keys-put_present dec k v t h) (c.once j);
      same = λ j. rw (keys-put_present dec k v t h) (c.same j);
    }

    pub Coherent-put_absent :
        (v : E) → count dec k (keys t) ≡ 0 → Coherent dec (Table.put dec k v t) (k ∷ order)
    unfolding count
    Coherent-put_absent v h = record {
      sizes = omega (arith, c.sizes, length-put_absent v h);
      once = λ j. rw (keys-put_absent dec k v t h, count-append) (ground (arith, c.once j));
      same = λ j. rw (keys-put_absent dec k v t h, count-append) (ground (arith, c.same j));
    }
