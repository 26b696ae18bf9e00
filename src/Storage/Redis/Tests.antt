-- ===== src/Storage/Redis/Tests.antt =====
-- Tests of internal/storage/redis_cache.go, on a server and an encoding made for them.
use errantdns_io.Base.{
  ℕ, ◌+◌, ◌*◌, ◌≡◌, ◌&&◌, ◌∙◌, ap, refl, true, Option, some, none, List, [], ◌∷◌, ◌++◌, arith, ltb,
  if◌then◌else◌, ite,
}
use errantdns_io.Base.Text.{Bytes, codes, bytes_dec, eqb}
use errantdns_io.Base.Table
use errantdns_io.Cache
use errantdns_io.Cache.{new_memory_cache}
use errantdns_io.Cache.Invariant.{IsValid, new_memory_cache-IsValid}
use errantdns_io.Cache.Reads.{view}
use errantdns_io.Models.Record.{
  DnsRecord, RecordType, cache_key, new_lookup_query, is_supported, type_name,
}
use errantdns_io.Redis.Client.{RedisServer, IsRedis, Json, IsJson, get_json_from, parse_reply}
use errantdns_io.Samples.{a_record, a_query, listed}
use errantdns_io.Storage.Cached.Keys.{key_of, same_name}
use errantdns_io.Storage.Interface.{ok, source_memory, source_redis, source_database}
use errantdns_io.Storage.Redis.{
  Pointers, TieredState, TierTimes, lookup_tiers, from_memory, from_redis,
}
use errantdns_io.Storage.Redis.Manage.{create_record, delete_records}
use errantdns_io.Storage.Redis.ReadYourWrites.{lookup_tiers-create_record}
use errantdns_io.Storage.Redis.Aging.{lookup_tiers_aging}
use errantdns_io.Storage.Redis.Invalidation.{both, none_if, delete_records-both}

-- what each key holds, and until when
abbrev Timed : Type 0
Timed = Option (Bytes × Option ℕ)

abbrev Held : Type 0
Held = Bytes → Timed

-- what of it is alive at a time
abbrev alive : ℕ → Timed → Option Bytes
alive t none = none
alive t (some (v, none)) = some v
alive t (some (v, some until)) = if ltb t until then some v else none

-- what Expire makes of it
abbrev expiring : ℕ → Option Bytes → Timed
expiring until none = none
expiring until (some v) = some (v, some until)

abbrev drop_keys : List Bytes → Held → Held
drop_keys [] s j = s j
drop_keys (k ∷ ks) s j = ite (bytes_dec k j) none (drop_keys ks s j)

-- a server in memory
abbrev server : RedisServer Held
server = record {
  get = λ t k s. (s, alive t (s k));
  set = λ t k v s. ((λ j. ite (bytes_dec k j) (some (v, none)) (s j)), true);
  expire = λ t k seconds s. (
    (λ j. ite (bytes_dec k j) (expiring (t + seconds * 1000000000) (alive t (s j))) (s j)),
    true,
  );
  del = λ t ks s. (drop_keys ks s, true);
  ping = λ s. (s, true);
  scan = λ cursor pattern s. (s, some ([], 0));
}

alive-ite :
    {P : Type 0} (t : ℕ) (d : Dec P) (x y : Timed)
    → alive t (ite d x y) ≡ ite d (alive t x) (alive t y)
alive-ite t (yes p) x y = refl
alive-ite t (no n) x y = refl

alive-expiring :
    (u until : ℕ) (x : Option Bytes)
    → alive u (expiring until x) ≡ (if ltb u until then x else none)
alive-expiring u until none = ground arith
alive-expiring u until (some v) = refl

abbrev works : IsRedis server
works = record {
  holds = λ t k s. alive t (s k);
  get_holds = λ t k s. refl;
  holds_get = λ t k s u j later. refl;
  holds_set = λ t k v s u j later. alive-ite u (bytes_dec k j) (some (v, none)) (s j);
  holds_expire = λ t k seconds s u j later.
      alive-ite u (bytes_dec k j) _ (s j)
      ∙ ap (λ z. ite (bytes_dec k j) z (alive u (s j)))
          (alive-expiring u (t + seconds * 1000000000) (alive t (s j)));
  holds_del = λ t k s u j later. alive-ite u (bytes_dec k j) none (s j);
}

-- an encoding of one record by its TTL
abbrev with_ttl : ℕ → Pointers
with_ttl n = some (record a_record { ttl = n }) ∷ []

abbrev ttl_text : Pointers → Bytes
ttl_text [] = []
ttl_text (none ∷ rs) = []
ttl_text (some r ∷ rs) = r.ttl ∷ []

abbrev of_ttl : Bytes → Option Pointers
of_ttl [] = none
of_ttl (n ∷ s) = some (with_ttl n)

abbrev json : Json Pointers
json = record { marshal = λ rs. some (ttl_text rs); unmarshal = of_ttl }

abbrev encodes : IsJson json
encodes = record {
  IsExact = λ rs. (n : ℕ) × (rs ≡ with_ttl n);
  text = ttl_text;
  marshal_text = λ rs exact. refl;
  unmarshal_text = λ rs (n, e). rw e refl;
}

abbrev empty_tiers : TieredState (List DnsRecord) Held
empty_tiers = record { cache = new_memory_cache 2; redis = λ j. none; inner = a_record ∷ [] }

-- the server holds the record
abbrev warm_tiers : TieredState (List DnsRecord) Held
warm_tiers = record {
  cache = new_memory_cache 2;
  redis = λ j. some (60 ∷ [], none);
  inner = a_record ∷ [];
}

empty-IsValid : IsValid bytes_dec empty_tiers.cache
empty-IsValid = new_memory_cache-IsValid bytes_dec 2 (omega arith)

-- the clocks at one time
abbrev tick : ℕ → TierTimes
tick t = record {
  get_time = t;
  access_time = t;
  redis_get_time = t;
  set_time = t;
  redis_set_time = t;
  expire_time = t;
}

lookup_tiers_aging_example :
    (c1 c2 c3 : TieredState (List DnsRecord) Held) × (lookup_tiers listed server json
        (codes "dns:")
        (tick 10)
        a_query
        empty_tiers
      ≡ some (c1, ok (some (some a_record ∷ [], source_database))))
    × (lookup_tiers listed server json (codes "dns:") (tick 5000000000) a_query c1
        ≡ some (c2, ok (some (some a_record ∷ [], source_memory))))
    × (lookup_tiers listed server json (codes "dns:") (tick 20000000000) a_query c2
        ≡ some (c3, ok (some (some a_record ∷ [], source_redis))))
    × (c3.inner ≡ (a_record ∷ []))
unfolding new_memory_cache Cache.get Cache.touch Table.get view bytes_dec eqb cache_key
lookup_tiers_aging_example =
    lookup_tiers_aging listed server json (codes "dns:") works encodes (tick 10) (tick 5000000000)
      (tick 20000000000) a_query empty_tiers (a_record ∷ []) a_record [] empty-IsValid refl refl
      refl (60, refl) (omega arith) (omega arith) (omega arith) (omega arith) (omega arith)
      (omega arith) (omega arith)

-- the server holds a list whose first element is null
abbrev null_tiers : TieredState (List DnsRecord) Held
null_tiers = record warm_tiers { redis = λ j. some ([], none) }

abbrev nulls : Json Pointers
nulls = record { marshal = λ rs. none; unmarshal = λ text. some (none ∷ []) }

-- the lookup panics
null_panics : lookup_tiers listed server nulls (codes "dns:") (tick 10) a_query null_tiers ≡ none
unfolding lookup_tiers from_memory from_redis get_json_from parse_reply new_memory_cache Cache.get
    Cache.touch Table.get bytes_dec eqb cache_key
null_panics = refl

delete_records-both_example :
    both listed server json
      (codes "dns:")
      works
      encodes
      20
      ((codes "dns:") ++ key_of (codes "A.io.") RecordType.soa)
      (delete_records listed server json (codes "dns:") 10 (codes "a.io") [] warm_tiers).0
    ≡ none_if listed server json
        (codes "dns:")
        works
        encodes
        (same_name (codes "a.io") (codes "A.io.") && is_supported (type_name RecordType.soa))
        (both listed server json
          (codes "dns:")
          works
          encodes
          20
          ((codes "dns:") ++ key_of (codes "A.io.") RecordType.soa)
          warm_tiers)
delete_records-both_example =
    delete_records-both listed server json (codes "dns:") works encodes 10 (codes "a.io") warm_tiers
      [] 20 (codes "A.io.") RecordType.soa empty-IsValid (omega arith) refl

-- both caches hold nothing that the storage holds, and the server holds an old group
abbrev stale_tiers : TieredState (List DnsRecord) Held
stale_tiers = record warm_tiers { inner = [] }

lookup_tiers-create_record_example :
    (c' : TieredState (List DnsRecord) Held) × (lookup_tiers listed server json
        (codes "dns:")
        (tick 20)
        (new_lookup_query a_record.name a_record.record_type)
        (create_record listed server json (codes "dns:") 10 a_record stale_tiers).0
      ≡ some (c', ok (some (some a_record ∷ [], source_database))))
    × (c'.inner ≡ (a_record ∷ []))
unfolding new_lookup_query eqb errantdns_io.Models.Record.normalize_domain_name
    errantdns_io.Base.Text.to_lower errantdns_io.Base.Text.trim_suffix
    errantdns_io.Base.Text.lower_byte errantdns_io.Base.Text.to_upper
    errantdns_io.Base.Text.upper_byte
lookup_tiers-create_record_example =
    lookup_tiers-create_record listed server json (codes "dns:") works encodes 10 (tick 20) a_record
      a_record a_record [] stale_tiers (a_record ∷ []) (a_record ∷ []) empty-IsValid refl refl
      (60, refl) (omega arith) (omega arith) (omega arith)
