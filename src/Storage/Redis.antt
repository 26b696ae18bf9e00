-- ===== src/Storage/Redis.antt =====
-- internal/storage/redis_cache.go: RedisCacheStorage, three tiers: the cache of memory.go, a Redis
-- server, and the wrapped storage. The readings of the clocks are arguments. `none` stands for a call
-- that does not return, or that panics.
pub mod Manage
pub mod Status
pub mod Reads
pub mod Tiers
pub mod Aging
pub mod ReadYourWrites
pub mod Invalidation
mod Tests
use mathlib.Core.Option
use errantdns_io.Base.{
  ℕ, ◌*◌, ◌/◌, Bool, true, false, Option, none, some, List, [], ◌∷◌, ◌++◌, length, if◌then◌else◌,
}
use errantdns_io.Base.Int.{ℤ}
use errantdns_io.Base.Text.{Bytes, codes, eqb, bytes_dec}
use errantdns_io.Cache
use errantdns_io.Cache.{MemoryCache}
use errantdns_io.Models.Record.{
  DnsRecord, LookupQuery, RecordType, type_name, new_lookup_query, cache_key, all_types,
}
use errantdns_io.Redis.Client.{
  RedisServer, Json, set_json_on, get_json_from, expire_on, delete_on, ping_client, scan_from,
}
use errantdns_io.Storage.Cached.{seconds}
use errantdns_io.Storage.Interface.{
  Storage, Result, ok, err, CacheSource, source_memory, source_redis, source_database, LookupResult,
}

-- `[]*models.DNSRecord`; what is read from JSON may have the pointer nil, which is `none`
abbrev pub Pointers : Type 0
Pointers = List (Option DnsRecord)

-- the records of a storage, of which none is nil
abbrev pub pointers : List DnsRecord → Pointers
pointers [] = []
pointers (r ∷ rs) = some r ∷ pointers rs

abbrev pub PointerCache : Type 0
PointerCache = MemoryCache Bytes Pointers

-- the two caches and the wrapped storage
pub record TieredState (S R : Type 0) : Type 0 where
  pub cache : PointerCache
  pub redis : R
  pub inner : S

-- The readings of the clock in a lookup, in nanoseconds: those of Get and Set of the memory cache, and
-- those of the server at its commands.
pub record TierTimes : Type 0 where
  pub get_time : ℕ
  pub access_time : ℕ
  pub redis_get_time : ℕ
  pub set_time : ℕ
  pub redis_set_time : ℕ
  pub expire_time : ℕ

-- records with the tier that they come from
abbrev pub Sourced : Type 0
Sourced = Pointers × CacheSource

-- type LookupGroupResult, of this storage
pub record TierGroupResult : Type 0 where
  pub tier_records : Pointers
  pub tier_source : CacheSource

-- `time.Duration(records[0].TTL/10) * time.Second`
abbrev pub memory_ttl : DnsRecord → ℕ
memory_ttl r = seconds (r.ttl / 10)

-- `int((time.Duration(records[0].TTL/2) * time.Second).Seconds())`
abbrev pub redis_ttl : DnsRecord → ℕ
redis_ttl r = r.ttl / 2

-- selectFromArray, which ignores the tie breaker
unfoldable pub select_first : Pointers → Option DnsRecord
select_first [] = none
select_first (r ∷ rs) = r

module _ {S R E : Type 0} (storage : Storage S E) (server : RedisServer R) (json : Json Pointers)
    (key_prefix : Bytes) where
  -- getCacheKey
  abbrev pub get_cache_key : LookupQuery → Bytes
  get_cache_key query = key_prefix ++ cache_key query

  -- the part of a lookup behind the call of the wrapped storage: both tiers are filled
  pub from_storage :
      TierTimes
      → Bytes
      → PointerCache
      → R
      → S × Result E (List DnsRecord)
      → Option (TieredState S R × Result E (Option Sourced))
  from_storage t key cache redis (s, err e) =
      some (record { cache = cache; redis = redis; inner = s }, err e)
  from_storage t key cache redis (s, ok []) =
      some (record { cache = cache; redis = redis; inner = s }, ok none)
  from_storage t key cache redis (s, ok (r ∷ rs)) =
      let (stored, _) = set_json_on server json t.redis_set_time key (pointers (r ∷ rs)) redis in
      let (expiring, _) = expire_on server t.expire_time key (redis_ttl r) stored in
      Option.map
        (λ filled. (
          record { cache = filled; redis = expiring; inner = s },
          ok (some (pointers (r ∷ rs), source_database)),
        ))
        (Cache.set bytes_dec t.set_time (memory_ttl r) key (pointers (r ∷ rs)) cache)

  -- the part of a lookup behind GetJSONFrom: a hit fills the memory cache; records[0].TTL panics if
  -- the first pointer is nil
  pub from_redis :
      TierTimes
      → LookupQuery
      → PointerCache
      → S
      → R × Option Pointers
      → Option (TieredState S R × Result E (Option Sourced))
  from_redis t query cache s (redis, some (none ∷ rs)) = none
  from_redis t query cache s (redis, some (some r ∷ rs)) =
      Option.map
        (λ filled. (
          record { cache = filled; redis = redis; inner = s },
          ok (some (some r ∷ rs, source_redis)),
        ))
        (Cache.set bytes_dec t.set_time (memory_ttl r) (get_cache_key query) (some r ∷ rs) cache)
  from_redis t query cache s (redis, some []) =
      from_storage t (get_cache_key query) cache redis (storage.lookup_record_group query s)
  from_redis t query cache s (redis, none) =
      from_storage t (get_cache_key query) cache redis (storage.lookup_record_group query s)

  -- the part of a lookup behind Get of the memory cache
  pub from_memory :
      TierTimes
      → LookupQuery
      → R
      → S
      → PointerCache × Option Pointers
      → Option (TieredState S R × Result E (Option Sourced))
  from_memory t query redis s (cache, some (r ∷ rs)) =
      some (record { cache = cache; redis = redis; inner = s }, ok (some (r ∷ rs, source_memory)))
  from_memory t query redis s (cache, some []) =
      from_redis t query cache s
        (get_json_from server json t.redis_get_time (get_cache_key query) redis)
  from_memory t query redis s (cache, none) =
      from_redis t query cache s
        (get_json_from server json t.redis_get_time (get_cache_key query) redis)

  -- the body that the four lookups share
  pub lookup_tiers :
      TierTimes
      → LookupQuery
      → TieredState S R
      → Option (TieredState S R × Result E (Option Sourced))
  lookup_tiers t query c =
      from_memory t query c.redis c.inner
        (Cache.get bytes_dec t.get_time t.access_time (get_cache_key query) c.cache)

  -- a lookup whose result is a function of the records and their tier
  abbrev pub map_result : {A B : Type 0} → (A → B) → Result E A → Result E B
  map_result f (ok a) = ok (f a)
  map_result f (err e) = err e

  abbrev pub returning :
      {A : Type 0}
      → (Option Sourced → A)
      → Option (TieredState S R × Result E (Option Sourced))
      → Option (TieredState S R × Result E A)
  returning f found = Option.map (λ (c, r). (c, map_result f r)) found

  -- LookupRecordWithSource
  unfoldable pub lookup_record_with_source :
      TierTimes
      → LookupQuery
      → TieredState S R
      → Option (TieredState S R × Result E (Option LookupResult))
  lookup_record_with_source t query c =
      returning
        (Option.map (λ (rs, source). record { result_record = select_first rs; source = source }))
        (lookup_tiers t query c)

  -- LookupRecordGroupWithSource
  unfoldable pub lookup_record_group_with_source :
      TierTimes
      → LookupQuery
      → TieredState S R
      → Option (TieredState S R × Result E (Option TierGroupResult))
  lookup_record_group_with_source t query c =
      returning (Option.map (λ (rs, source). record { tier_records = rs; tier_source = source }))
        (lookup_tiers t query c)

  -- LookupRecord
  unfoldable pub lookup_record :
      TierTimes
      → LookupQuery
      → TieredState S R
      → Option (TieredState S R × Result E (Option DnsRecord))
  lookup_record t query c =
      returning (λ found. elim found [ none ↦ none | some (rs, source) ↦ select_first rs ])
        (lookup_tiers t query c)

  -- LookupRecordGroup
  unfoldable pub lookup_record_group :
      TierTimes → LookupQuery → TieredState S R → Option (TieredState S R × Result E Pointers)
  lookup_record_group t query c =
      returning (λ found. elim found [ none ↦ [] | some (rs, source) ↦ rs ])
        (lookup_tiers t query c)

  -- a method that is passed on to the wrapped storage
  abbrev pub pass_on :
      {A : Type 0} → TieredState S R → S × Result E A → TieredState S R × Result E A
  pass_on c (s, r) = (record c { inner = s }, r)

  -- LookupRecords
  unfoldable pub lookup_records :
      LookupQuery → TieredState S R → TieredState S R × Result E (List DnsRecord)
  lookup_records query c = pass_on c (storage.lookup_records query c.inner)
