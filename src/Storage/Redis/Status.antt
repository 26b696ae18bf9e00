-- ===== src/Storage/Redis/Status.antt =====
-- internal/storage/redis_cache.go: Health, the statistics and the clearing of the caches.
use mathlib.Core.Option
use errantdns_io.Base.{ℕ, Bool, Option, none, some, List, [], ◌∷◌, ◌++◌, length, if◌then◌else◌}
use errantdns_io.Base.Text.{Bytes, codes}
use errantdns_io.Cache
use errantdns_io.Redis.Client.{RedisServer, Json, delete_on, ping_client, scan_from}
use errantdns_io.Storage.Interface.{Storage, Result, ok, err}
use errantdns_io.Storage.Redis.{Pointers, TieredState}

-- the errors of Health
pub data TierHealthError (E : Type 0) : Type 0 where
  tier_storage_failed : E → TierHealthError E
  tier_redis_failed : TierHealthError E

-- type CacheStats, with RedisStats; a key count of `none` is -1
pub record TierStats : Type 0 where
  pub l1_stats : Cache.Stats
  pub connected : Bool
  pub key_count : Option ℕ
  pub total_layers : ℕ

module _ {S R E : Type 0} (storage : Storage S E) (server : RedisServer R) (json : Json Pointers)
    (key_prefix : Bytes) where
  -- the part of Health behind the check of the wrapped storage
  unfoldable pub check_redis :
      TieredState S R → S × Result E Unit → TieredState S R × Result (TierHealthError E) Unit
  check_redis c (s, err e) = (record c { inner = s }, err (tier_storage_failed e))
  check_redis c (s, ok _) =
      let (redis, alive) = ping_client server c.redis in
      (record c { inner = s; redis = redis }, if alive then ok tt else err tier_redis_failed)

  -- Health
  unfoldable pub health : TieredState S R → TieredState S R × Result (TierHealthError E) Unit
  health c = check_redis c (storage.health c.inner)

  -- getRedisKeyCount; `rounds` bounds the loop of ScanFrom
  unfoldable pub get_redis_key_count : (rounds : ℕ) → R → Option (R × Option ℕ)
  get_redis_key_count rounds redis =
      Option.map (λ (s, keys). (s, Option.map length keys))
        (scan_from server rounds (key_prefix ++ codes "*") redis)

  -- what clearRedisCache does with the keys
  unfoldable pub delete_scanned : ℕ → R × Option (List Bytes) → R
  delete_scanned t (redis, none) = redis
  delete_scanned t (redis, some []) = redis
  delete_scanned t (redis, some (key ∷ keys)) = (delete_on server t (key ∷ keys) redis).0

  -- clearRedisCache
  unfoldable pub clear_redis_cache : (rounds : ℕ) → ℕ → R → Option R
  clear_redis_cache rounds t redis =
      Option.map (delete_scanned t) (scan_from server rounds (key_prefix ++ codes "*") redis)

  -- ClearCache
  unfoldable pub clear_cache : (rounds : ℕ) → ℕ → TieredState S R → Option (TieredState S R)
  clear_cache rounds t c =
      Option.map (λ redis. record c { cache = Cache.clear c.cache; redis = redis })
        (clear_redis_cache rounds t c.redis)

  -- GetCacheStats
  unfoldable pub get_cache_stats :
      (rounds : ℕ) → TieredState S R → Option (TieredState S R × TierStats)
  get_cache_stats rounds c =
      let (pinged, alive) = ping_client server c.redis in
      Option.map
        (λ (redis, keys). (
          record c { redis = redis },
          record {
            l1_stats = Cache.stats_of c.cache;
            connected = alive;
            key_count = keys;
            total_layers = 2;
          },
        ))
        (get_redis_key_count rounds pinged)
