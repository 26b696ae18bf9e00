-- ===== src/Cache.antt =====
-- internal/cache/memory.go: the LRU cache with expiry. A method is a function of the cache that
-- the mutex protects; each reading of the clock is an argument. Keys are the strings of the
-- source, behind a decision of equality; `V` is the slice of records that an entry holds.
mod Order
pub mod Steps
pub mod Invariant
pub mod Run
pub mod Reads
pub mod Eviction
pub mod Own
pub mod Cleanup
mod Tests
use errantdns_io.Base.{
  ℕ, zero, suc, ◌+◌, Bool, Option, none, some, List, [], ◌∷◌, ltb, leb, if◌then◌else◌, length,
  last?, remove_first, inc64,
}
use mathlib.Core.Option
use errantdns_io.Base.Table
use errantdns_io.Base.Table.{Table}

-- type Stats; `hit_rate` is a float derived from `hits` and `misses`
pub record Stats : Type 0 where
  pub hits : ℕ
  pub misses : ℕ
  pub entries : ℕ
  pub evictions : ℕ
  pub last_cleanup : ℕ

pub record Entry (V : Type 0) : Type 0 where
  pub records : V
  pub expires_at : ℕ
  pub last_access : ℕ

-- `time.Now().After(e.expiresAt)`
pub is_expired : {V : Type 0} → ℕ → Entry V → Bool
is_expired now e = ltb e.expires_at now

pub record MemoryCache (K V : Type 0) : Type 0 where
  pub table : Table K (Entry V)
  pub access_order : List K
  pub max_entries : ℕ
  pub stats : Stats

-- NewMemoryCache
unfoldable pub new_memory_cache : {K V : Type 0} → ℕ → MemoryCache K V
new_memory_cache max_entries = record {
  table = [];
  access_order = [];
  max_entries = max_entries;
  stats = record { hits = 0; misses = 0; entries = 0; evictions = 0; last_cleanup = 0 };
}

-- c.stats.Misses++ and its siblings
abbrev pub miss : {K V : Type 0} → MemoryCache K V → MemoryCache K V
miss c = record c { stats = record (c.stats) { misses = inc64 c.stats.misses } }

abbrev pub hit : {K V : Type 0} → MemoryCache K V → MemoryCache K V
hit c = record c { stats = record (c.stats) { hits = inc64 c.stats.hits } }

abbrev pub evicted : {K V : Type 0} → MemoryCache K V → MemoryCache K V
evicted c = record c { stats = record (c.stats) { evictions = inc64 c.stats.evictions } }

module _ {K V : Type 0} (dec : Discrete K) where
  -- deleteUnlocked
  pub delete_unlocked : K → MemoryCache K V → MemoryCache K V
  delete_unlocked key c = record c {
    table = Table.delete dec key c.table;
    access_order = remove_first dec key c.access_order;
  }

  -- moveToFrontUnlocked
  pub move_to_front_unlocked : K → MemoryCache K V → MemoryCache K V
  move_to_front_unlocked key c = record c {
    access_order = key ∷ remove_first dec key c.access_order;
  }

  -- evictLRUUnlocked
  pub evict_lru_unlocked : MemoryCache K V → MemoryCache K V
  evict_lru_unlocked c = elim (last? c.access_order) [
    | none ↦ c
    | some lru_key ↦ evicted (delete_unlocked lru_key c)
  ]

  -- `for len(c.data) >= c.maxEntries { c.evictLRUUnlocked() }`; `none` means that the rounds given
  -- did not end the loop.
  unfoldable pub make_room : ℕ → MemoryCache K V → Option (MemoryCache K V)
  make_room zero c = none
  make_room (suc rounds) c =
      let rest = make_room rounds (evict_lru_unlocked c) in
      if leb c.max_entries (length c.table) then rest else some c

  -- Get at a hit that has not expired; `access` is the second reading of the clock
  unfoldable pub touch : K → ℕ → Entry V → MemoryCache K V → MemoryCache K V
  touch key access e c = hit (
      move_to_front_unlocked key
        (record c { table = Table.put dec key (record e { last_access = access }) c.table }))

  -- Get
  unfoldable pub get : (now access : ℕ) → K → MemoryCache K V → MemoryCache K V × Option V
  get now access key c = elim (Table.get dec key c.table) [
    | none ↦ (miss c, none)
    | some e ↦
        if is_expired now e
        then (miss (delete_unlocked key c), none)
        else (touch key access e c, some e.records)
  ]

  -- the `&cacheEntry{…}` of Set
  abbrev pub fresh : ℕ → ℕ → V → Entry V
  fresh now ttl records = record { records = records; expires_at = now + ttl; last_access = now }

  -- the end of Set for a key that is not there
  unfoldable pub add : (now ttl : ℕ) → K → V → MemoryCache K V → MemoryCache K V
  add now ttl key records c = record c {
    table = Table.put dec key (fresh now ttl records) c.table;
    access_order = key ∷ c.access_order;
  }

  -- Set, with the rounds that its loop may take
  unfoldable pub set_rounds : ℕ → (now ttl : ℕ) → K → V → MemoryCache K V → Option (MemoryCache K V)
  set_rounds rounds now ttl key records c = elim (Table.get dec key c.table) [
    | some _ ↦ some (
        move_to_front_unlocked key
          (record c { table = Table.put dec key (fresh now ttl records) c.table }))
    | none ↦ Option.map (add now ttl key records) (make_room rounds c)
  ]

  -- Set: a round removes an entry, so one more round than there are entries is enough.
  unfoldable pub set : (now ttl : ℕ) → K → V → MemoryCache K V → Option (MemoryCache K V)
  set now ttl key records c = set_rounds (suc (length c.table)) now ttl key records c

  -- Delete
  unfoldable pub delete : K → MemoryCache K V → MemoryCache K V
  delete key c = delete_unlocked key c

  -- the first loop of cleanupExpired, in the order of the table
  pub expired_keys : ℕ → Table K (Entry V) → List K
  expired_keys now [] = []
  expired_keys now ((key, e) ∷ t) =
      let rest = expired_keys now t in if is_expired now e then key ∷ rest else rest

  -- the second loop of cleanupExpired
  pub delete_keys : List K → MemoryCache K V → MemoryCache K V
  delete_keys [] c = c
  delete_keys (key ∷ ks) c = delete_keys ks (delete_unlocked key c)

  -- cleanupExpired
  pub cleanup_expired : ℕ → MemoryCache K V → MemoryCache K V
  cleanup_expired now c =
      let cleaned = delete_keys (expired_keys now c.table) c in
      record cleaned { stats = record (cleaned.stats) { last_cleanup = now } }

module _ {K V : Type 0} where
  -- Clear
  pub clear : MemoryCache K V → MemoryCache K V
  clear c = record c { table = []; access_order = []; stats = record (c.stats) { entries = 0 } }

  -- Size
  unfoldable pub size : MemoryCache K V → ℕ
  size c = length c.table

  -- Stats
  unfoldable pub stats_of : MemoryCache K V → Stats
  stats_of c = record (c.stats) { entries = length c.table }
