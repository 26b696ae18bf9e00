-- ===== src/Storage/Redis/Manage.antt =====
-- internal/storage/redis_cache.go: the management methods and the invalidation.
use errantdns_io.Base.{ℕ, List, [], ◌∷◌, if◌then◌else◌}
use errantdns_io.Base.Int.{ℤ}
use errantdns_io.Base.Text.{Bytes, eqb, bytes_dec}
use errantdns_io.Cache
use errantdns_io.Models.Record.{DnsRecord, RecordType, type_name, new_lookup_query, all_types}
use errantdns_io.Redis.Client.{RedisServer, Json, delete_on}
use errantdns_io.Storage.Interface.{Storage, Result, ok, err}
use errantdns_io.Storage.Redis.{Pointers, TieredState, get_cache_key, pass_on}

module _ {S R E : Type 0} (storage : Storage S E) (server : RedisServer R) (json : Json Pointers)
    (key_prefix : Bytes) where
  -- invalidateNameType
  unfoldable pub invalidate_name_type : ℕ → Bytes → Bytes → TieredState S R → TieredState S R
  invalidate_name_type t name record_type c =
      let key = get_cache_key storage server json key_prefix (new_lookup_query name record_type) in
      record c {
        cache = Cache.delete bytes_dec key c.cache;
        redis = (delete_on server t (key ∷ []) c.redis).0;
      }

  -- invalidateRecord
  unfoldable pub invalidate_record : ℕ → DnsRecord → TieredState S R → TieredState S R
  invalidate_record t r c =
      let key =
        get_cache_key storage server json key_prefix (new_lookup_query r.name r.record_type) in
      record c {
        cache = Cache.delete bytes_dec key c.cache;
        redis = (delete_on server t (key ∷ []) c.redis).0;
      }

  -- the loop of invalidateDomain
  unfoldable pub invalidate_types : ℕ → List RecordType → Bytes → TieredState S R → TieredState S R
  invalidate_types t [] name c = c
  invalidate_types t (ty ∷ types) name c =
      invalidate_types t types name (invalidate_name_type t name (type_name ty) c)

  -- invalidateDomain
  unfoldable pub invalidate_domain : ℕ → Bytes → TieredState S R → TieredState S R
  invalidate_domain t name c = invalidate_types t all_types name c

  -- what a management method does behind the call of the wrapped storage's
  abbrev pub then_invalidate :
      {A : Type 0}
      → (A → TieredState S R → TieredState S R)
      → TieredState S R
      → S × Result E A
      → TieredState S R × Result E A
  then_invalidate change c (s, err e) = (record c { inner = s }, err e)
  then_invalidate change c (s, ok a) = (change a (record c { inner = s }), ok a)

  -- CreateRecord
  unfoldable pub create_record :
      ℕ → DnsRecord → TieredState S R → TieredState S R × Result E DnsRecord
  create_record t r c = then_invalidate (invalidate_record t) c (storage.create_record r c.inner)

  -- UpdateRecord
  unfoldable pub update_record :
      ℕ → DnsRecord → TieredState S R → TieredState S R × Result E DnsRecord
  update_record t r c = then_invalidate (invalidate_record t) c (storage.update_record r c.inner)

  -- DeleteRecord
  unfoldable pub delete_record : ℤ → TieredState S R → TieredState S R × Result E Unit
  delete_record id c = pass_on storage server json key_prefix c (storage.delete_record id c.inner)

  -- DeleteRecords
  unfoldable pub delete_records :
      ℕ → Bytes → Bytes → TieredState S R → TieredState S R × Result E Unit
  delete_records t name record_type c =
      then_invalidate
        (λ _ changed.
          if eqb record_type []
          then invalidate_domain t name changed
          else invalidate_name_type t name record_type changed)
        c (storage.delete_records name record_type c.inner)
