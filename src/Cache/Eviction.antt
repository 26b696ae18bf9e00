-- ===== src/Cache/Eviction.antt =====
-- internal/cache/memory.go: Set of a key that is not in the table, with and without an eviction.
use errantdns_io.Base.{
  ℕ, zero, suc, ◌+◌, ◌≤◌, ◌<◌, ◌≡◌, refl, some, none, [], arith, length, count, ltb, if◌then◌else◌,
  last?, ite, ◌∙◌, ap,
}
use errantdns_io.Base.Table
use errantdns_io.Base.Table.{keys}
use errantdns_io.Cache.{
  MemoryCache, evicted, delete_unlocked, evict_lru_unlocked, make_room, set, set_rounds, add,
  new_memory_cache,
}
use errantdns_io.Cache.Invariant.{IsValid, with_room_absent}
use errantdns_io.Cache.Order.{length-put_absent}
use errantdns_io.Cache.Reads.{view, view-add}
use errantdns_io.Cache.Steps.{with_room, set_rounds_absent, make_room_lem, evict_lru_unlocked_lem}

module _ {K V : Type 0} (dec : Discrete K) where
  with_room_room : (c : MemoryCache K V) → length c.table < c.max_entries → with_room dec c ≡ c
  unfolding with_room
  with_room_room c room = ground arith

  with_room_full :
      (c : MemoryCache K V)
      → c.max_entries ≤ length c.table
      → with_room dec c ≡ evict_lru_unlocked dec c
  unfolding with_room
  with_room_full c full = ground arith

  pub set_absent :
      (now ttl : ℕ) (k : K) (r : V) (c : MemoryCache K V)
      → IsValid dec c
      → Table.get dec k c.table ≡ none
      → set dec now ttl k r c ≡ some (add dec now ttl k r (with_room dec c))
  unfolding set
  set_absent now ttl k r c v absent =
      set_rounds_absent dec _ now ttl k r c absent
        (make_room_lem dec _ c v.coherent v.positive v.bounded (omega arith))

  length-add :
      (now ttl : ℕ) (k : K) (r : V) (c : MemoryCache K V)
      → count dec k (keys c.table) ≡ 0
      → length (add dec now ttl k r c).table ≡ length c.table + 1
  unfolding add
  length-add now ttl k r c absent = length-put_absent dec k c.table _ absent

  module _ (now ttl : ℕ) (k : K) (r : V) (c : MemoryCache K V) where
    -- A Set of a new key into a valid cache with room adds one entry, readable up to its expiry, and
    -- leaves what can be read under every other key as it was.
    view-set_room :
        (t : ℕ) (j : K)
        → IsValid dec c
        → Table.get dec k c.table ≡ none
        → length c.table < c.max_entries
        → (c' : MemoryCache K V) × (set dec now ttl k r c ≡ some c')
          × (length c'.table ≡ length c.table + 1)
          × (view dec t j c'
              ≡ ite (dec k j) (if ltb (now + ttl) t then none else some r) (view dec t j c))
    view-set_room t j v absent room = (
      add dec now ttl k r c,
      set_absent now ttl k r c v absent
          ∙ ap (λ d. some (add dec now ttl k r d)) (with_room_room c room),
      length-add now ttl k r c (Table.get_missing dec k c.table absent),
      view-add dec now ttl k r c t j,
    )

    view-evicted :
        (lru : K) (t : ℕ) (j : K)
        → IsValid dec c
        → view dec t j (evicted (delete_unlocked dec lru c)) ≡ ite (dec lru j) none (view dec t j c)
    unfolding view delete_unlocked
    view-evicted lru t j v =
        rw (Table.get-delete dec lru j c.table (v.coherent.once lru)) (ground arith)

    -- A Set of a new key into a valid cache that is full evicts exactly the last key of the access
    -- order, the least recently used one: the size stays as it was, the new key is readable up to its
    -- expiry, the evicted key is gone, and every other key reads as before.
    pub view-set_full :
        (t : ℕ) (j : K)
        → IsValid dec c
        → Table.get dec k c.table ≡ none
        → length c.table ≡ c.max_entries
        → (c' : MemoryCache K V) × (lru : K) × (set dec now ttl k r c ≡ some c')
          × (last? c.access_order ≡ some lru)
          × (length c'.table ≡ length c.table)
          × (view dec t j c'
              ≡ ite
                  (dec k j)
                  (if ltb (now + ttl) t then none else some r)
                  (ite (dec lru j) none (view dec t j c)))
    view-set_full t j v absent full =
        let p = v.positive in
        let (lru, last, step, smaller, kept) =
          evict_lru_unlocked_lem dec c v.coherent (omega arith) in
        let room = with_room_full c (omega arith) in
        (
          add dec now ttl k r (with_room dec c),
          lru,
          set_absent now ttl k r c v absent,
          last,
          omega (
            arith,
            length-add now ttl k r (with_room dec c)
                (with_room_absent dec k c v (Table.get_missing dec k c.table absent)),
            ap (λ (d : MemoryCache K V). length d.table) room,
          ),
          view-add dec now ttl k r (with_room dec c) t j
              ∙ rw (room, step) (rw (view-evicted lru t j v)),
        )

  -- At a size of 0 the loop of Set never ends for a new key, whatever number of rounds it makes.
  make_room_diverges :
      (rounds : ℕ) (c : MemoryCache K V)
      → c.max_entries ≡ 0
      → c.access_order ≡ []
      → make_room dec rounds c ≡ none
  unfolding make_room evict_lru_unlocked last?
  make_room_diverges zero c z e = refl
  make_room_diverges (suc rounds) c z e = ground (arith, make_room_diverges rounds c)

  -- Of a cache of size 0 (which the configuration's validation refuses) the first Set never returns,
  -- however many rounds its loop may make.
  set_diverges :
      (rounds now ttl : ℕ) (k : K) (r : V)
      → set_rounds dec rounds now ttl k r (new_memory_cache 0) ≡ none
  unfolding set_rounds new_memory_cache Table.get
  set_diverges rounds now ttl k r = rw (make_room_diverges rounds (new_memory_cache 0) refl refl)
