-- ===== src/Storage/Redis/Aging.antt =====
-- internal/storage/redis_cache.go: one group of records on its way through the tiers.
use mathlib.Core.Option.{some-injective}
use errantdns_io.Base.{
  ℕ, ◌+◌, ◌*◌, ◌≤◌, ◌<◌, ◌≡◌, ◌∙◌, ap, sym, subst, Option, none, some, List, ◌∷◌, arith,
}
use errantdns_io.Base.Text.{Bytes, bytes_dec}
use errantdns_io.Cache
use errantdns_io.Cache.Invariant.{IsValid, get-IsValid}
use errantdns_io.Cache.Reads.{view-get}
use errantdns_io.Models.Record.{DnsRecord, LookupQuery}
use errantdns_io.Redis.Client.{RedisServer, IsRedis, Json, IsJson}
use errantdns_io.Storage.Interface.{
  Storage, Result, ok, source_memory, source_redis, source_database,
}
use errantdns_io.Storage.Redis.{
  Pointers, pointers, TieredState, TierTimes, Sourced, get_cache_key, lookup_tiers, memory_ttl,
  redis_ttl,
}
use errantdns_io.Storage.Redis.Tiers.{
  in_memory, in_redis, lookup_tiers_memory, lookup_tiers_redis, lookup_tiers_storage,
}

module _ {S R E : Type 0} (storage : Storage S E) (server : RedisServer R) (json : Json Pointers)
    (key_prefix : Bytes) (works : IsRedis server) (encodes : IsJson json) where
  state_of :
      {c d : TieredState S R} {r : Result E (Option Sourced)}
      (o : Option (TieredState S R × Result E (Option Sourced)))
      → o ≡ some (c, r)
      → o ≡ some (d, r)
      → d ≡ c
  state_of {c} {d} {r} o e h = ap (λ z. z.0) (some-injective (d, r) (c, r) (sym h ∙ e))

  -- A group that no tier held, and that JSON represents exactly, comes from the database at the first
  -- lookup, of which the server executes Set before Expire; behind that and within a tenth of the TTL
  -- of its first record it comes from memory; after that and within half of the TTL it comes from
  -- Redis. The wrapped storage is called by the first lookup only.
  pub lookup_tiers_aging :
      (t u w : TierTimes) (query : LookupQuery) (c : TieredState S R) (s : S) (r : DnsRecord)
      (rs : List DnsRecord)
      → IsValid bytes_dec c.cache
      → in_memory storage server json key_prefix works encodes t.get_time query c ≡ none
      → in_redis storage server json key_prefix works encodes t.redis_get_time query c ≡ none
      → storage.lookup_record_group query c.inner ≡ (s, ok (r ∷ rs))
      → encodes.IsExact (pointers (r ∷ rs))
      → t.redis_set_time ≤ t.expire_time
      → t.expire_time ≤ u.get_time
      → u.get_time ≤ t.set_time + memory_ttl r
      → u.get_time ≤ w.get_time
      → t.set_time + memory_ttl r < w.get_time
      → u.get_time ≤ w.redis_get_time
      → w.redis_get_time < t.expire_time + redis_ttl r * 1000000000
      → (c1 c2 c3 : TieredState S R) × (lookup_tiers storage server json key_prefix t query c
          ≡ some (c1, ok (some (pointers (r ∷ rs), source_database))))
        × (lookup_tiers storage server json key_prefix u query c1
            ≡ some (c2, ok (some (pointers (r ∷ rs), source_memory))))
        × (lookup_tiers storage server json key_prefix w query c2
            ≡ some (c3, ok (some (pointers (r ∷ rs), source_redis))))
        × (c3.inner ≡ s)
  lookup_tiers_aging t u w query c s r rs v missing absent answer exact h1 h2 soon order old h3
        live =
      let at = λ (later : ℕ) (q : t.expire_time ≤ later).
        lookup_tiers_storage storage server json key_prefix works encodes t query c s r rs later v
          missing absent answer exact h1 q in
      let (c1, first, inner1, valid1, memory1, _) = at u.get_time h2 in
      let (d, first_d, _, _, memory_d, _) = at w.get_time (omega arith) in
      let (e, first_e, _, _, _, redis_e) = at w.redis_get_time (omega arith) in
      let shown : in_memory storage server json key_prefix works encodes u.get_time query c1
          ≡ some (pointers (r ∷ rs)) =
        ground (arith, memory1) in
      let second =
        lookup_tiers_memory storage server json key_prefix works encodes u query c1 (some r)
          (pointers rs) shown in
      let key = get_cache_key storage server json key_prefix query in
      let gone : in_memory storage server json key_prefix works encodes w.get_time query d ≡ none =
        ground (arith, memory_d) in
      let kept : in_redis storage server json key_prefix works encodes w.redis_get_time query e
          ≡ some (pointers (r ∷ rs)) =
        ground (arith, redis_e) in
      let (c3, third, inner3, _, _, _) =
        lookup_tiers_redis storage server json key_prefix works encodes w query
          (record c1 { cache = (Cache.get bytes_dec u.get_time u.access_time key c1.cache).0 }) r
          (pointers rs) w.redis_get_time
          (get-IsValid bytes_dec u.get_time u.access_time key c1.cache valid1)
          (view-get bytes_dec u.get_time u.access_time key c1.cache w.get_time key valid1 order
            ∙ subst
                (λ z.
                  in_memory storage server json key_prefix works encodes w.get_time query z ≡ none)
                (state_of _ first first_d) gone)
          (subst
            (λ z.
              in_redis storage server json key_prefix works encodes w.redis_get_time query z
              ≡ some (pointers (r ∷ rs)))
            (state_of _ first first_e) kept)
          (omega arith) in
      (_, _, _, first, second, third, inner3 ∙ inner1)
