-- ===== src/Storage/Redis/ReadYourWrites.antt =====
-- internal/storage/redis_cache.go: a lookup behind a write.
use errantdns_io.Cache
use errantdns_io.Base.{ℕ, arith, ◌≤◌, ◌≡◌, refl, ◌∙◌, ap, some, List, ◌∷◌, ite, if_pos}
use errantdns_io.Base.Text.{Bytes, bytes_dec}
use errantdns_io.Cache.Invariant.{IsValid, delete_unlocked-IsValid}
use errantdns_io.Models.Record.{DnsRecord, new_lookup_query}
use errantdns_io.Redis.Client.{RedisServer, IsRedis, Json, IsJson}
use errantdns_io.Storage.Interface.{Storage, ok, source_database}
use errantdns_io.Storage.Redis.{
  Pointers, pointers, TieredState, TierTimes, get_cache_key, lookup_tiers,
}
use errantdns_io.Storage.Redis.Invalidation.{create_record-both}
use errantdns_io.Storage.Redis.Manage.{create_record, invalidate_record}
use errantdns_io.Storage.Redis.Tiers.{lookup_tiers_storage}

module _ {S R E : Type 0} (storage : Storage S E) (server : RedisServer R) (json : Json Pointers)
    (key_prefix : Bytes) (works : IsRedis server) (encodes : IsJson json) where
  if_own : {A : Type 0} (k : Bytes) (x y : A) → ite (bytes_dec k k) x y ≡ x
  if_own k x y = if_pos (bytes_dec k k) refl x y

  created_state :
      (t : ℕ) (r created : DnsRecord) (c : TieredState S R) (s : S)
      → IsValid bytes_dec c.cache
      → storage.create_record r c.inner ≡ (s, ok created)
      → IsValid bytes_dec (create_record storage server json key_prefix t r c).0.cache
        × ((create_record storage server json key_prefix t r c).0.inner ≡ s)
  unfolding create_record invalidate_record Cache.delete
  created_state t r created c s v answer =
      rw answer (delete_unlocked-IsValid bytes_dec _ c.cache v, refl)

  -- Whatever a valid memory cache and the server held: after a CreateRecord that the wrapped storage
  -- accepts, a later lookup, of which the server executes Set before Expire, of the name and type of
  -- the record that it created returns, as of the database, the records that the wrapped storage has
  -- then, if there are any and JSON represents them exactly.
  pub lookup_tiers-create_record :
      (w : ℕ) (t : TierTimes) (r created x : DnsRecord) (xs : List DnsRecord) (c : TieredState S R)
      (s s' : S)
      → IsValid bytes_dec c.cache
      → storage.create_record r c.inner ≡ (s, ok created)
      → storage.lookup_record_group (new_lookup_query created.name created.record_type) s
        ≡ (s', ok (x ∷ xs))
      → encodes.IsExact (pointers (x ∷ xs))
      → w ≤ t.get_time
      → w ≤ t.redis_get_time
      → t.redis_set_time ≤ t.expire_time
      → let query = new_lookup_query created.name created.record_type in
        (c' : TieredState S R) × (lookup_tiers storage server json key_prefix t query
            (create_record storage server json key_prefix w r c).0
          ≡ some (c', ok (some (pointers (x ∷ xs), source_database))))
        × (c'.inner ≡ s')
  lookup_tiers-create_record w t r created x xs c s s' v answer answer' exact h1 h2 order =
      let query = new_lookup_query created.name created.record_type in
      let key = get_cache_key storage server json key_prefix query in
      let c1 = (create_record storage server json key_prefix w r c).0 in
      let (valid, inner) = created_state w r created c s v answer in
      let (_, memory, _) =
        create_record-both storage server json key_prefix works encodes w r created c s t.get_time
          key v h1 answer in
      let (_, _, redis) =
        create_record-both storage server json key_prefix works encodes w r created c s
          t.redis_get_time key v h2 answer in
      let (c', done, same, _, _, _) =
        lookup_tiers_storage storage server json key_prefix works encodes t query c1 s' x xs
          t.expire_time valid (memory ∙ if_own key _ _) (redis ∙ if_own key _ _)
          (ap (storage.lookup_record_group query) inner ∙ answer') exact order (omega arith) in
      (c', done, same)
