-- ===== src/Cache/Steps.antt =====
-- internal/cache/memory.go: what Get, evictLRUUnlocked and the loop of Set compute, branch by branch.
use errantdns_io.Base.{
  ℕ, zero, suc, ◌+◌, ◌≤◌, ◌<◌, ◌≡◌, true, false, some, none, List, [], ◌∷◌, arith, length, count,
  last?, last?-some, count-last?, leb, if◌then◌else◌, Bool-cases, inl, inr,
}
use errantdns_io.Base.Table
use errantdns_io.Base.Table.{keys}
use errantdns_io.Cache.{
  MemoryCache, Entry, is_expired, miss, evicted, delete_unlocked, evict_lru_unlocked, make_room,
  touch, get, move_to_front_unlocked, set_rounds, add, fresh,
}
use errantdns_io.Cache.Order.{Coherent, length-delete_present}

last-some : {K : Type 0} (xs : List K) → 0 < length xs → (a : K) × (last? xs ≡ some a)
last-some [] h = elim h [ ]
last-some (x ∷ xs) h = last?-some x xs

module _ {K V : Type 0} (dec : Discrete K) where
  module _ (now access : ℕ) (k : K) (c : MemoryCache K V) where
    pub get_missing : Table.get dec k c.table ≡ none → get dec now access k c ≡ (miss c, none)
    unfolding get
    get_missing absent = rw (absent, get)

    pub get_expired :
        (e : Entry V)
        → Table.get dec k c.table ≡ some e
        → is_expired now e ≡ true
        → get dec now access k c ≡ (miss (delete_unlocked dec k c), none)
    unfolding get
    get_expired e found old = rw (found, get) (rw old)

    pub get_live :
        (e : Entry V)
        → Table.get dec k c.table ≡ some e
        → is_expired now e ≡ false
        → get dec now access k c ≡ (touch dec k access e c, some e.records)
    unfolding get
    get_live e found live = rw (found, get) (rw live)

  -- If the table has an entry, the last key of the order is evicted.
  pub evict_lru_unlocked_lem :
      (c : MemoryCache K V)
      → Coherent dec c.table c.access_order
      → 0 < length c.table
      → (k : K) × (last? c.access_order ≡ some k)
        × (evict_lru_unlocked dec c ≡ evicted (delete_unlocked dec k c))
        × (length (evict_lru_unlocked dec c).table + 1 ≡ length c.table)
        × ((evict_lru_unlocked dec c).max_entries ≡ c.max_entries)
  unfolding evict_lru_unlocked delete_unlocked
  evict_lru_unlocked_lem c v h =
      let (k, last) = last-some c.access_order (omega (arith, v.sizes)) in
      let present : 0 < count dec k (keys c.table) =
        omega (arith, v.same k, count-last? dec k c.access_order last) in
      (
        k,
        last,
        rw (last, evict_lru_unlocked),
        rw (last, evict_lru_unlocked) (length-delete_present dec k c.table present),
        rw (last, evict_lru_unlocked),
      )

  -- the cache with its least recently used entry evicted, if it is full
  unfoldable pub with_room : MemoryCache K V → MemoryCache K V
  with_room c = if leb c.max_entries (length c.table) then evict_lru_unlocked dec c else c

  -- The loop of Set leaves the cache alone if it has room, and else makes one round.
  pub make_room_lem :
      (rounds : ℕ) (c : MemoryCache K V)
      → Coherent dec c.table c.access_order
      → 0 < c.max_entries
      → length c.table ≤ c.max_entries
      → length c.table < rounds
      → make_room dec rounds c ≡ some (with_room c)
  unfolding make_room with_room
  make_room_lem zero c v p b h = absurd (omega arith)
  make_room_lem (suc zero) c v p b h = ground arith
  make_room_lem (suc (suc n)) c v p b h = elim (Bool-cases (leb c.max_entries (length c.table))) [
    | inr room ↦ rw (room, make_room, with_room)
    | inl full ↦
        let (k, last, step, smaller, kept) = evict_lru_unlocked_lem c v (ground arith) in
        ground arith
  ]

  pub set_rounds_present :
      (rounds now ttl : ℕ) (k : K) (r : V) (c : MemoryCache K V) (e : Entry V)
      → Table.get dec k c.table ≡ some e
      → set_rounds dec rounds now ttl k r c
        ≡ some (
            move_to_front_unlocked dec k
              (record c { table = Table.put dec k (fresh dec now ttl r) c.table }))
  unfolding set_rounds
  set_rounds_present rounds now ttl k r c e found = rw (found, set_rounds)

  pub set_rounds_absent :
      (rounds now ttl : ℕ) (k : K) (r : V) (c : MemoryCache K V)
      → Table.get dec k c.table ≡ none
      → make_room dec rounds c ≡ some (with_room c)
      → set_rounds dec rounds now ttl k r c ≡ some (add dec now ttl k r (with_room c))
  unfolding set_rounds
  set_rounds_absent rounds now ttl k r c absent room = rw (absent, set_rounds) (rw room)
