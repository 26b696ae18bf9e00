-- ===== src/Storage/Redis/Tiers.antt =====
-- internal/storage/redis_cache.go: which tier answers a lookup, and what the lookup leaves in the tiers.
use errantdns_io.Base.{
  ℕ, ◌+◌, ◌*◌, ◌≤◌, ◌≡◌, refl, ◌∙◌, ap, Option, none, some, List, ◌∷◌, ltb, if◌then◌else◌, ite,
  if_pos,
}
use errantdns_io.Base.Text.{Bytes, bytes_dec}
use errantdns_io.Cache
use errantdns_io.Cache.Invariant.{IsValid, get-IsValid}
use errantdns_io.Cache.Own.{view-set_own}
use errantdns_io.Cache.Reads.{view, get-view}
use errantdns_io.Models.Record.{DnsRecord, LookupQuery}
use errantdns_io.Redis.Client.{
  RedisServer, IsRedis, Json, IsJson, get_json_from, set_json_on, expire_on,
}
use errantdns_io.Storage.Interface.{Storage, ok, source_memory, source_redis, source_database}
use errantdns_io.Storage.Redis.{
  Pointers, pointers, TieredState, TierTimes, get_cache_key, lookup_tiers, from_memory, from_redis,
  from_storage, memory_ttl, redis_ttl,
}
use errantdns_io.Storage.Redis.Reads.{
  reads, get_json_from-reads, reads-get_json_from, reads-set_json_on, reads-expire_on,
}

module _ {S R E : Type 0} (storage : Storage S E) (server : RedisServer R) (json : Json Pointers)
    (key_prefix : Bytes) (works : IsRedis server) (encodes : IsJson json) where
  abbrev key : LookupQuery → Bytes
  key query = get_cache_key storage server json key_prefix query

  -- what the memory cache holds for a query
  abbrev pub in_memory : ℕ → LookupQuery → TieredState S R → Option Pointers
  in_memory t query c = view bytes_dec t (key query) c.cache

  -- what the Redis server holds for a query
  abbrev pub in_redis : ℕ → LookupQuery → TieredState S R → Option Pointers
  in_redis t query c = reads server json works encodes t (key query) c.redis

  -- Where the memory cache holds records that are not empty for the query, the lookup returns them as
  -- of the memory tier, and neither the server nor the wrapped storage is called.
  pub lookup_tiers_memory :
      (t : TierTimes) (query : LookupQuery) (c : TieredState S R) (r : Option DnsRecord)
      (rs : Pointers)
      → in_memory t.get_time query c ≡ some (r ∷ rs)
      → lookup_tiers storage server json key_prefix t query c
        ≡ some (
          record c { cache = (Cache.get bytes_dec t.get_time t.access_time (key query) c.cache).0 },
          ok (some (r ∷ rs, source_memory)),
        )
  unfolding lookup_tiers from_memory
  lookup_tiers_memory t query c r rs found =
      let read = Cache.get bytes_dec t.get_time t.access_time (key query) c.cache in
      ap (λ z. from_memory storage server json key_prefix t query c.redis c.inner (read.0, z))
        (get-view bytes_dec t.get_time t.access_time (key query) c.cache ∙ found)

  to_redis :
      (t : TierTimes) (query : LookupQuery) (c : TieredState S R)
      → in_memory t.get_time query c ≡ none
      → lookup_tiers storage server json key_prefix t query c
        ≡ from_redis storage server json key_prefix t query
            (Cache.get bytes_dec t.get_time t.access_time (key query) c.cache).0
            c.inner
            (get_json_from server json t.redis_get_time (key query) c.redis)
  unfolding lookup_tiers from_memory
  to_redis t query c missing =
      let read = Cache.get bytes_dec t.get_time t.access_time (key query) c.cache in
      ap (λ z. from_memory storage server json key_prefix t query c.redis c.inner (read.0, z))
        (get-view bytes_dec t.get_time t.access_time (key query) c.cache ∙ missing)

  -- Where a valid memory cache holds nothing for the query and the server holds records that are not
  -- empty, the lookup returns them as of the Redis tier without a call of the wrapped storage. The
  -- memory cache then holds them for a tenth of the TTL of the first one, and the server holds what it
  -- held.
  pub lookup_tiers_redis :
      (t : TierTimes) (query : LookupQuery) (c : TieredState S R) (r : DnsRecord) (rs : Pointers)
      (later : ℕ)
      → IsValid bytes_dec c.cache
      → in_memory t.get_time query c ≡ none
      → in_redis t.redis_get_time query c ≡ some (some r ∷ rs)
      → t.redis_get_time ≤ later
      → (c' : TieredState S R) × (lookup_tiers storage server json key_prefix t query c
          ≡ some (c', ok (some (some r ∷ rs, source_redis))))
        × (c'.inner ≡ c.inner)
        × IsValid bytes_dec c'.cache
        × (in_memory later query c'
            ≡ (if ltb (t.set_time + memory_ttl r) later then none else some (some r ∷ rs)))
        × (in_redis later query c' ≡ in_redis later query c)
  unfolding from_redis
  lookup_tiers_redis t query c r rs later v missing found h =
      let read = Cache.get bytes_dec t.get_time t.access_time (key query) c.cache in
      let reply = get_json_from server json t.redis_get_time (key query) c.redis in
      let (filled, done, valid, shown) =
        view-set_own bytes_dec t.set_time (memory_ttl r) (key query) (some r ∷ rs) read.0 later
          (get-IsValid bytes_dec t.get_time t.access_time (key query) c.cache v) in
      (
        record { cache = filled; redis = reply.0; inner = c.inner },
        to_redis t query c missing
            ∙ ap
                (λ z. from_redis storage server json key_prefix t query read.0 c.inner (reply.0, z))
                (get_json_from-reads server json works encodes t.redis_get_time (key query) c.redis
                  ∙ found)
            ∙ rw done refl,
        refl,
        valid,
        shown,
        reads-get_json_from server json works encodes t.redis_get_time (key query) c.redis later
            (key query) h,
      )

  to_storage :
      (t : TierTimes) (query : LookupQuery) (c : TieredState S R)
      → in_memory t.get_time query c ≡ none
      → in_redis t.redis_get_time query c ≡ none
      → lookup_tiers storage server json key_prefix t query c
        ≡ from_storage storage server json key_prefix t
            (key query)
            (Cache.get bytes_dec t.get_time t.access_time (key query) c.cache).0
            (get_json_from server json t.redis_get_time (key query) c.redis).0
            (storage.lookup_record_group query c.inner)
  unfolding from_redis
  to_storage t query c missing absent =
      let read = Cache.get bytes_dec t.get_time t.access_time (key query) c.cache in
      let reply = get_json_from server json t.redis_get_time (key query) c.redis in
      to_redis t query c missing
      ∙ ap (λ z. from_redis storage server json key_prefix t query read.0 c.inner (reply.0, z))
          (get_json_from-reads server json works encodes t.redis_get_time (key query) c.redis
            ∙ absent)

  if_own : {A : Type 0} (k : Bytes) (x y : A) → ite (bytes_dec k k) x y ≡ x
  if_own k x y = if_pos (bytes_dec k k) refl x y

  stored_reads :
      (t : TierTimes) (k : Bytes) (r : DnsRecord) (rs : List DnsRecord) (redis : R) (later : ℕ)
      → encodes.IsExact (pointers (r ∷ rs))
      → t.redis_set_time ≤ t.expire_time
      → t.expire_time ≤ later
      → reads server json works encodes later k
          (expire_on server t.expire_time k
            (redis_ttl r)
            (set_json_on server json t.redis_set_time k (pointers (r ∷ rs)) redis).0).0
        ≡ (if ltb later (t.expire_time + redis_ttl r * 1000000000)
            then some (pointers (r ∷ rs))
            else none)
  stored_reads t k r rs redis later exact h1 h2 =
      reads-expire_on server json works encodes t.expire_time k (redis_ttl r) _ later k h2
      ∙ if_own k _ _
      ∙ ap (λ z. if ltb later (t.expire_time + redis_ttl r * 1000000000) then z else none)
          (reads-set_json_on server json works encodes t.redis_set_time k (pointers (r ∷ rs)) redis
              t.expire_time k exact h1
            ∙ if_own k _ _)

  -- Where neither a valid memory cache nor the server holds anything for the query, the wrapped storage
  -- returns records that JSON represents exactly, and the server executes Set before Expire, the lookup
  -- returns them as of the database.
  -- From the fill on, the memory cache holds them for a tenth and the server for half of the TTL of the
  -- first one.
  pub lookup_tiers_storage :
      (t : TierTimes) (query : LookupQuery) (c : TieredState S R) (s : S) (r : DnsRecord)
      (rs : List DnsRecord) (later : ℕ)
      → IsValid bytes_dec c.cache
      → in_memory t.get_time query c ≡ none
      → in_redis t.redis_get_time query c ≡ none
      → storage.lookup_record_group query c.inner ≡ (s, ok (r ∷ rs))
      → encodes.IsExact (pointers (r ∷ rs))
      → t.redis_set_time ≤ t.expire_time
      → t.expire_time ≤ later
      → (c' : TieredState S R) × (lookup_tiers storage server json key_prefix t query c
          ≡ some (c', ok (some (pointers (r ∷ rs), source_database))))
        × (c'.inner ≡ s)
        × IsValid bytes_dec c'.cache
        × (in_memory later query c'
            ≡ (if ltb (t.set_time + memory_ttl r) later then none else some (pointers (r ∷ rs))))
        × (in_redis later query c' ≡ (
            if ltb later (t.expire_time + redis_ttl r * 1000000000)
            then some (pointers (r ∷ rs))
            else none))
  unfolding from_storage
  lookup_tiers_storage t query c s r rs later v missing absent answer exact h1 h2 =
      let read = Cache.get bytes_dec t.get_time t.access_time (key query) c.cache in
      let reply = get_json_from server json t.redis_get_time (key query) c.redis in
      let (filled, done, valid, shown) =
        view-set_own bytes_dec t.set_time (memory_ttl r) (key query) (pointers (r ∷ rs)) read.0
          later (get-IsValid bytes_dec t.get_time t.access_time (key query) c.cache v) in
      (
        _,
        to_storage t query c missing absent
            ∙ ap (from_storage storage server json key_prefix t (key query) read.0 reply.0) answer
            ∙ rw done refl,
        refl,
        valid,
        shown,
        stored_reads t (key query) r rs reply.0 later exact h1 h2,
      )
