-- ===== src/Cache/Invariant.antt =====
-- The invariant of MemoryCache, for every method of internal/cache/memory.go.
use errantdns_io.Base.{
  ℕ, suc, ◌≤◌, ◌<◌, ◌≡◌, refl, some, List, [], ◌∷◌, arith, length, count, Option-cases, leb,
  Bool-cases, inl, inr, count-remove_first,
}
use errantdns_io.Base.Table
use errantdns_io.Base.Table.{keys, get_present, length-delete-le, keys-delete}
use errantdns_io.Cache.{
  MemoryCache, Entry, evicted, delete_unlocked, move_to_front_unlocked, touch, get, add, set_rounds,
  set, delete_keys, expired_keys, cleanup_expired, clear, new_memory_cache, is_expired, miss, fresh,
}
use errantdns_io.Cache.Steps.{
  get_missing, get_expired, get_live, evict_lru_unlocked_lem, make_room_lem, with_room,
  set_rounds_present, set_rounds_absent,
}
use errantdns_io.Cache.Order.{
  Coherent, Coherent-delete, Coherent-front, Coherent-put_present, Coherent-put_absent,
  length-put_present, length-put_absent,
}

-- The access order lists the keys of the table, each once, and the table is no larger than the
-- configured maximum, which is positive.
pub record IsValid {K V : Type 0} (dec : Discrete K) (c : MemoryCache K V) : Type 0 where
  pub positive : 0 < c.max_entries
  pub bounded : length c.table ≤ c.max_entries
  pub coherent : Coherent dec c.table c.access_order

-- A new cache of a positive size meets the invariant.
pub new_memory_cache-IsValid :
    {K V : Type 0} (dec : Discrete K) (n : ℕ)
    → 0 < n
    → IsValid dec (new_memory_cache {K = K} {V = V} n)
unfolding new_memory_cache count
new_memory_cache-IsValid dec n h = record {
  positive = h;
  bounded = omega arith;
  coherent = record { sizes = refl; once = λ k. omega arith; same = λ k. refl };
}

module _ {K V : Type 0} (dec : Discrete K) where
  pub clear-IsValid : (c : MemoryCache K V) → IsValid dec c → IsValid dec (clear c)
  unfolding clear count
  clear-IsValid c v = record {
    positive = v.positive;
    bounded = omega arith;
    coherent = record { sizes = refl; once = λ k. omega arith; same = λ k. refl };
  }

  miss-IsValid : (c : MemoryCache K V) → IsValid dec c → IsValid dec (miss c)
  miss-IsValid c v = record { positive = v.positive; bounded = v.bounded; coherent = v.coherent }

  pub delete_unlocked-IsValid :
      (k : K) (c : MemoryCache K V) → IsValid dec c → IsValid dec (delete_unlocked dec k c)
  unfolding delete_unlocked
  delete_unlocked-IsValid k c v = record {
    positive = v.positive;
    bounded = omega (arith, v.bounded, length-delete-le dec k c.table);
    coherent = Coherent-delete dec k c.table c.access_order v.coherent;
  }

  touch-IsValid :
      (k : K) (access : ℕ) (e : Entry V) (c : MemoryCache K V)
      → 0 < count dec k (keys c.table)
      → IsValid dec c
      → IsValid dec (touch dec k access e c)
  unfolding touch move_to_front_unlocked
  touch-IsValid k access e c h v =
      let e' = record e { last_access = access } in
      record {
        positive = v.positive;
        bounded = omega (arith, v.bounded, length-put_present dec k c.table e' h);
        coherent =
            Coherent-put_present dec k c.table _
              (Coherent-front dec k c.table c.access_order v.coherent h) e' h;
      }

  -- A call of Get keeps the invariant, on every branch.
  pub get-IsValid :
      (now access : ℕ) (k : K) (c : MemoryCache K V)
      → IsValid dec c
      → IsValid dec (get dec now access k c).0
  get-IsValid now access k c v = elim (Option-cases (Table.get dec k c.table)) [
    | inl absent ↦ rw (get_missing dec now access k c absent) (miss-IsValid c v)
    | inr (e, found) ↦ elim (Bool-cases (is_expired now e)) [
      | inl old ↦
          rw (get_expired dec now access k c e found old)
            (miss-IsValid _ (delete_unlocked-IsValid k c v))
      | inr live ↦
          rw (get_live dec now access k c e found live)
            (touch-IsValid k access e c (get_present dec k c.table found) v)
    ]
  ]

  evicted-IsValid : (c : MemoryCache K V) → IsValid dec c → IsValid dec (evicted c)
  evicted-IsValid c v = record { positive = v.positive; bounded = v.bounded; coherent = v.coherent }

  -- After the loop of Set the cache is valid and has room for one more entry.
  with_room-IsValid :
      (c : MemoryCache K V)
      → IsValid dec c
      → IsValid dec (with_room dec c)
        × (length (with_room dec c).table < (with_room dec c).max_entries)
        × ((with_room dec c).max_entries ≡ c.max_entries)
  unfolding with_room
  with_room-IsValid c v = elim (Bool-cases (leb c.max_entries (length c.table))) [
    | inr room ↦ rw (room, with_room) (v, ground arith, refl)
    | inl full ↦
        let v1 = v.positive in
        let v2 = v.bounded in
        let (k, last, step, smaller, kept) =
          evict_lru_unlocked_lem dec c v.coherent (ground arith) in
        rw (full, with_room)
          (rw step (evicted-IsValid _ (delete_unlocked-IsValid k c v)), ground arith, kept)
  ]

  add-IsValid :
      (now ttl : ℕ) (k : K) (r : V) (c : MemoryCache K V)
      → count dec k (keys c.table) ≡ 0
      → length c.table < c.max_entries
      → IsValid dec c
      → IsValid dec (add dec now ttl k r c)
  unfolding add
  add-IsValid now ttl k r c absent room v =
      let e = fresh dec now ttl r in
      record {
        positive = v.positive;
        bounded = omega (arith, length-put_absent dec k c.table e absent);
        coherent = Coherent-put_absent dec k c.table c.access_order v.coherent e absent;
      }

  replace-IsValid :
      (k : K) (e : Entry V) (c : MemoryCache K V)
      → 0 < count dec k (keys c.table)
      → IsValid dec c
      → IsValid dec (move_to_front_unlocked dec k (record c { table = Table.put dec k e c.table }))
  unfolding move_to_front_unlocked
  replace-IsValid k e c h v = record {
    positive = v.positive;
    bounded = omega (arith, v.bounded, length-put_present dec k c.table e h);
    coherent =
        Coherent-put_present dec k c.table _
          (Coherent-front dec k c.table c.access_order v.coherent h) e h;
  }

  count-delete-le :
      (k j : K) (c : MemoryCache K V)
      → count dec j (keys (delete_unlocked dec k c).table) ≤ count dec j (keys c.table)
  unfolding delete_unlocked
  count-delete-le k j c = rw keys-delete (ground (arith, count-remove_first dec k j (keys c.table)))

  -- The loop of Set brings no key back.
  pub with_room_absent :
      (k : K) (c : MemoryCache K V)
      → IsValid dec c
      → count dec k (keys c.table) ≡ 0
      → count dec k (keys (with_room dec c).table) ≡ 0
  unfolding with_room
  with_room_absent k c v h = elim (Bool-cases (leb c.max_entries (length c.table))) [
    | inr room ↦ rw (room, with_room) h
    | inl full ↦
        let v1 = v.positive in
        let (lru, last, step, smaller, kept) =
          evict_lru_unlocked_lem dec c v.coherent (ground arith) in
        rw (full, with_room) (rw step (omega (arith, count-delete-le lru k c)))
  ]

  -- From a valid cache, Set ends if its loop may make more rounds than there are entries, and the
  -- cache that it leaves is valid.
  pub set_rounds-IsValid :
      (rounds now ttl : ℕ) (k : K) (r : V) (c : MemoryCache K V)
      → IsValid dec c
      → length c.table < rounds
      → (c' : MemoryCache K V) × (set_rounds dec rounds now ttl k r c ≡ some c')
        × IsValid dec c'
        × (set dec now ttl k r c ≡ some c')
  unfolding set
  set_rounds-IsValid rounds now ttl k r c v enough = elim (Option-cases (Table.get dec k c.table)) [
    | inl absent ↦
        let room = λ (n : ℕ) (h : length c.table < n).
          make_room_lem dec n c v.coherent v.positive v.bounded h in
        let (valid, below, kept) = with_room-IsValid c v in
        (
          add dec now ttl k r (with_room dec c),
          set_rounds_absent dec rounds now ttl k r c absent (room rounds enough),
          add-IsValid now ttl k r _
              (with_room_absent k c v (Table.get_missing dec k c.table absent)) below valid,
          set_rounds_absent dec _ now ttl k r c absent (room (suc (length c.table)) (omega arith)),
        )
    | inr (e, found) ↦ (
      _,
      set_rounds_present dec rounds now ttl k r c e found,
      replace-IsValid k (fresh dec now ttl r) c (get_present dec k c.table found) v,
      set_rounds_present dec _ now ttl k r c e found,
    )
  ]

  delete_keys-IsValid :
      (ks : List K) (c : MemoryCache K V) → IsValid dec c → IsValid dec (delete_keys dec ks c)
  unfolding delete_keys
  delete_keys-IsValid [] c v = v
  delete_keys-IsValid (k ∷ ks) c v = delete_keys-IsValid ks _ (delete_unlocked-IsValid k c v)

  pub cleanup_expired-IsValid :
      (now : ℕ) (c : MemoryCache K V) → IsValid dec c → IsValid dec (cleanup_expired dec now c)
  unfolding cleanup_expired
  cleanup_expired-IsValid now c v =
      let w = delete_keys-IsValid (expired_keys dec now c.table) c v in
      record { positive = w.positive; bounded = w.bounded; coherent = w.coherent }
