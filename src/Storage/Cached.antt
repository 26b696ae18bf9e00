-- ===== src/Storage/Cached.antt =====
-- internal/storage/cached.go: CachedStorage, over the cache of internal/cache/memory.go. The readings
-- of the clock are arguments. `none` stands for a call of Set that does not return.
pub mod Keys
pub mod Invalidation
pub mod Lookup
pub mod Freshness
pub mod Health
use mathlib.Core.Option
use errantdns_io.Base.{
  ℕ, ◌*◌, ◌^◌, Bool, true, false, Option, none, some, List, [], ◌∷◌, if◌then◌else◌,
}
use errantdns_io.Base.Int.{ℤ, pos}
use errantdns_io.Base.Text.{Bytes, codes, eqb, bytes_dec}
use errantdns_io.Cache
use errantdns_io.Cache.{MemoryCache}
use errantdns_io.Models.Record.{
  DnsRecord, LookupQuery, RecordType, type_name, new_lookup_query, cache_key,
}
use errantdns_io.Storage.Interface.{Storage, Result, ok, err}
use errantdns_io.Storage.Select.{Chance, select_from_array}

abbrev pub RecordCache : Type 0
RecordCache = MemoryCache Bytes (List DnsRecord)

-- the cache and the wrapped storage
pub record CachedState (S : Type 0) : Type 0 where
  pub cache : RecordCache
  pub inner : S

-- The readings of the clock in a lookup: those of Get and Set in nanoseconds, and the one of the
-- selection in seconds.
pub record Times : Type 0 where
  pub get_time : ℕ
  pub access_time : ℕ
  pub set_time : ℕ
  pub select_time : ℕ

-- `time.Duration(ttl) * time.Second`
abbrev pub seconds : ℕ → ℕ
seconds ttl = ttl * 1000000000

-- invalidateNameType
unfoldable pub invalidate_name_type : Bytes → Bytes → RecordCache → RecordCache
invalidate_name_type name record_type cache =
    Cache.delete bytes_dec (cache_key (new_lookup_query name record_type)) cache

-- invalidateRecord
unfoldable pub invalidate_record : DnsRecord → RecordCache → RecordCache
invalidate_record r cache =
    Cache.delete bytes_dec (cache_key (new_lookup_query r.name r.record_type)) cache

abbrev pub common_types : List RecordType
common_types =
    RecordType.a ∷ RecordType.aaaa ∷ RecordType.cname ∷ RecordType.txt ∷ RecordType.mx
    ∷ RecordType.ns ∷ []

-- the loop of invalidateDomain
unfoldable pub invalidate_types : List RecordType → Bytes → RecordCache → RecordCache
invalidate_types [] name cache = cache
invalidate_types (t ∷ ts) name cache =
    invalidate_types ts name (invalidate_name_type name (type_name t) cache)

-- invalidateDomain
unfoldable pub invalidate_domain : Bytes → RecordCache → RecordCache
invalidate_domain name cache = invalidate_types common_types name cache

-- the period of roundRobinIndex in this file
abbrev period : ℕ
period = 5

-- the record that Health stores under its test key
abbrev pub test_record : DnsRecord
test_record = record {
  id = pos 0;
  name = codes "health.test";
  record_type = codes "A";
  target = codes "127.0.0.1";
  ttl = 1;
  priority = pos 0;
  created_at = 0;
  updated_at = 0;
  etld = [];
  apex_domain = [];
  subdomain_labels = [];
  is_wildcard = false;
  wildcard_mask = 0;
  serial = 0;
  mbox = [];
  refresh = 0;
  retry = 0;
  expire = 0;
  minttl = 0;
  weight = 0;
  port = 0;
  tag = [];
}

abbrev pub test_key : Bytes
test_key = codes "__health_check__"

-- the errors of Health
pub data HealthError (E : Type 0) : Type 0 where
  storage_failed : E → HealthError E
  cache_failed : HealthError E

module _ {S E : Type 0} (chance : Chance) (storage : Storage S E) (tie_breaker : Bytes) where
  abbrev pub select : Times → List DnsRecord → LookupQuery → Option DnsRecord
  select t records query = select_from_array chance period t.select_time tie_breaker records query

  -- the part of LookupRecord behind a miss, from the result of LookupRecordGroup
  pub fill :
      Times
      → LookupQuery
      → RecordCache
      → S × Result E (List DnsRecord)
      → Option (CachedState S × Result E (Option DnsRecord))
  fill t query cache (s, err e) = some (record { cache = cache; inner = s }, err e)
  fill t query cache (s, ok []) = some (record { cache = cache; inner = s }, ok none)
  fill t query cache (s, ok (r ∷ rs)) =
      Option.map (λ filled. (record { cache = filled; inner = s }, ok (select t (r ∷ rs) query)))
        (Cache.set bytes_dec t.set_time (seconds r.ttl) (cache_key query) (r ∷ rs) cache)

  -- the part of LookupRecord behind the call of Get
  pub serve :
      Times
      → LookupQuery
      → S
      → RecordCache × Option (List DnsRecord)
      → Option (CachedState S × Result E (Option DnsRecord))
  serve t query s (cache, some (r ∷ rs)) =
      some (record { cache = cache; inner = s }, ok (select t (r ∷ rs) query))
  serve t query s (cache, some []) = fill t query cache (storage.lookup_record_group query s)
  serve t query s (cache, none) = fill t query cache (storage.lookup_record_group query s)

  -- LookupRecord
  unfoldable pub lookup_record :
      Times → LookupQuery → CachedState S → Option (CachedState S × Result E (Option DnsRecord))
  lookup_record t query c =
      serve t query c.inner (Cache.get bytes_dec t.get_time t.access_time (cache_key query) c.cache)

  -- a method that is passed on to the wrapped storage
  abbrev pub pass_on : {A : Type 0} → CachedState S → S × Result E A → CachedState S × Result E A
  pass_on c (s, r) = (record c { inner = s }, r)

  -- LookupRecords
  unfoldable pub lookup_records :
      LookupQuery → CachedState S → CachedState S × Result E (List DnsRecord)
  lookup_records query c = pass_on c (storage.lookup_records query c.inner)

  -- LookupRecordGroup
  unfoldable pub lookup_record_group :
      LookupQuery → CachedState S → CachedState S × Result E (List DnsRecord)
  lookup_record_group query c = pass_on c (storage.lookup_record_group query c.inner)

  -- what a management method does behind the call of the wrapped storage's
  abbrev pub then_cache :
      {A : Type 0}
      → (A → RecordCache → RecordCache)
      → CachedState S
      → S × Result E A
      → CachedState S × Result E A
  then_cache change c (s, err e) = (record c { inner = s }, err e)
  then_cache change c (s, ok a) = (record { cache = change a c.cache; inner = s }, ok a)

  -- CreateRecord
  unfoldable pub create_record : DnsRecord → CachedState S → CachedState S × Result E DnsRecord
  create_record r c = then_cache invalidate_record c (storage.create_record r c.inner)

  -- UpdateRecord
  unfoldable pub update_record : DnsRecord → CachedState S → CachedState S × Result E DnsRecord
  update_record r c = then_cache invalidate_record c (storage.update_record r c.inner)

  -- DeleteRecord
  unfoldable pub delete_record : ℤ → CachedState S → CachedState S × Result E Unit
  delete_record id c = pass_on c (storage.delete_record id c.inner)

  -- DeleteRecords
  unfoldable pub delete_records : Bytes → Bytes → CachedState S → CachedState S × Result E Unit
  delete_records name record_type c =
      then_cache
        (λ _ cache.
          if eqb record_type []
          then invalidate_domain name cache
          else invalidate_name_type name record_type cache)
        c (storage.delete_records name record_type c.inner)

  -- the calls of the cache in Health
  pub probe_cache : Times → RecordCache → Option (RecordCache × Bool)
  probe_cache t cache =
      Option.map
        (λ filled.
          let (read, found) = Cache.get bytes_dec t.get_time t.access_time test_key filled in
          elim found [
            | some (r ∷ rs) ↦ (Cache.delete bytes_dec test_key read, true)
            | _ ↦ (read, false)
          ])
        (Cache.set bytes_dec t.set_time 1000000000 test_key (test_record ∷ []) cache)

  -- the part of Health behind the check of the wrapped storage
  pub check_cache :
      Times → RecordCache → S × Result E Unit → Option (CachedState S × Result (HealthError E) Unit)
  check_cache t cache (s, err e) =
      some (record { cache = cache; inner = s }, err (storage_failed e))
  check_cache t cache (s, ok _) =
      Option.map
        (λ (probed, responsive).
          (record { cache = probed; inner = s }, if responsive then ok tt else err cache_failed))
        (probe_cache t cache)

  -- Health
  pub health : Times → CachedState S → Option (CachedState S × Result (HealthError E) Unit)
  health t c = check_cache t c.cache (storage.health c.inner)

  -- ClearCache
  unfoldable pub clear_cache : CachedState S → CachedState S
  clear_cache c = record c { cache = Cache.clear c.cache }

  -- GetCacheStats
  unfoldable pub get_cache_stats : CachedState S → Cache.Stats
  get_cache_stats c = Cache.stats_of c.cache
