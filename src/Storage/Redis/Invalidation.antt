-- ===== src/Storage/Redis/Invalidation.antt =====
-- internal/storage/redis_cache.go: what the management methods make unreadable in both caches.
use errantdns_io.Base.{
  ℕ, Bool, ◌≤◌, ◌≡◌, refl, ◌∙◌, ◌&&◌, Option, none, List, [], ◌∷◌, ◌++◌, arith, if◌then◌else◌, ite,
}
use errantdns_io.Base.Text.{Bytes, bytes_dec, eqb}
use errantdns_io.Cache
use errantdns_io.Cache.Invariant.{IsValid, delete_unlocked-IsValid}
use errantdns_io.Cache.Reads.{view, view-delete}
use errantdns_io.Models.Record.{
  DnsRecord, RecordType, type_name, type_of, new_lookup_query, is_supported, all_types,
}
use errantdns_io.Redis.Client.{RedisServer, IsRedis, Json, IsJson}
use errantdns_io.Storage.Cached.Keys.{key_of, same_type, same_name, ite_same_prefix, has_type}
use errantdns_io.Storage.Interface.{Storage, ok}
use errantdns_io.Storage.Redis.{Pointers, TieredState, get_cache_key}
use errantdns_io.Storage.Redis.Manage.{
  create_record, delete_records, invalidate_record, invalidate_name_type, invalidate_types,
  invalidate_domain,
}
use errantdns_io.Storage.Redis.Reads.{reads, reads-delete_on}

module _ {S R E : Type 0} (storage : Storage S E) (server : RedisServer R) (json : Json Pointers)
    (key_prefix : Bytes) (works : IsRedis server) (encodes : IsJson json) where
  -- what the two caches hold for a key
  abbrev pub both : ℕ → Bytes → TieredState S R → Option Pointers × Option Pointers
  both t k c = (view bytes_dec t k c.cache, reads server json works encodes t k c.redis)

  -- nothing in both caches if the test holds, and what they hold otherwise
  abbrev pub none_if : Bool → Option Pointers × Option Pointers → Option Pointers × Option Pointers
  none_if b (x, y) = (if b then none else x, if b then none else y)

  invalidate_types-both :
      (ts : List RecordType) (t : ℕ) (name : Bytes) (c : TieredState S R) (later : ℕ)
      (other : Bytes) (u : RecordType)
      → IsValid bytes_dec c.cache
      → t ≤ later
      → both later
          (key_prefix ++ key_of other u)
          (invalidate_types storage server json key_prefix t ts name c)
        ≡ none_if
            (same_name name other && has_type ts u)
            (both later (key_prefix ++ key_of other u) c)
  unfolding invalidate_types invalidate_name_type has_type Cache.delete
  invalidate_types-both [] t name c later other u v h = ground arith
  invalidate_types-both (ty ∷ ts) t name c later other u v h =
      invalidate_types-both ts t name _ later other u
        (delete_unlocked-IsValid bytes_dec (key_prefix ++ key_of name ty) c.cache v) h
      ∙ rw
          (
            view-delete bytes_dec (key_prefix ++ key_of name ty) c.cache later
                  (key_prefix ++ key_of other u) v
                ∙ ite_same_prefix key_prefix name other ty u none
                    (view bytes_dec later (key_prefix ++ key_of other u) c.cache),
            reads-delete_on server json works encodes t (key_prefix ++ key_of name ty) c.redis later
                  (key_prefix ++ key_of other u) h
                ∙ ite_same_prefix key_prefix name other ty u none
                    (reads server json works encodes later (key_prefix ++ key_of other u) c.redis),
          )
          (ground arith)

  all_types_lem : (u : RecordType) → has_type all_types u ≡ is_supported (type_name u)
  unfolding has_type same_type eqb type_name is_supported type_of
  all_types_lem RecordType.a = refl
  all_types_lem RecordType.aaaa = refl
  all_types_lem RecordType.cname = refl
  all_types_lem RecordType.txt = refl
  all_types_lem RecordType.mx = refl
  all_types_lem RecordType.ns = refl
  all_types_lem RecordType.soa = refl
  all_types_lem RecordType.ptr = refl
  all_types_lem RecordType.srv = refl
  all_types_lem RecordType.caa = refl
  all_types_lem RecordType.unsupported = refl

  -- With a valid memory cache, a DeleteRecords of all types that the wrapped storage accepts makes
  -- exactly the keys of the name (up to its normal form) and of the supported types unreadable, in
  -- memory and in Redis alike.
  pub delete_records-both :
      (t : ℕ) (name : Bytes) (c : TieredState S R) (s : S) (later : ℕ) (other : Bytes)
      (u : RecordType)
      → IsValid bytes_dec c.cache
      → t ≤ later
      → storage.delete_records name [] c.inner ≡ (s, ok tt)
      → both later
          (key_prefix ++ key_of other u)
          (delete_records storage server json key_prefix t name [] c).0
        ≡ none_if
            (same_name name other && is_supported (type_name u))
            (both later (key_prefix ++ key_of other u) c)
  unfolding delete_records invalidate_domain eqb invalidate_types
  delete_records-both t name c s later other u v h answer =
      rw (answer, ← all_types_lem u)
        (invalidate_types-both all_types t name (record c { inner = s }) later other u v h)

  -- With a valid memory cache, a CreateRecord that the wrapped storage accepts makes exactly the key of
  -- the record's name and type unreadable, in memory and in Redis alike.
  pub create_record-both :
      (t : ℕ) (r created : DnsRecord) (c : TieredState S R) (s : S) (later : ℕ) (j : Bytes)
      → IsValid bytes_dec c.cache
      → t ≤ later
      → storage.create_record r c.inner ≡ (s, ok created)
      → let key =
          get_cache_key storage server json key_prefix
            (new_lookup_query created.name created.record_type) in
        let done = create_record storage server json key_prefix t r c in
        (done.1 ≡ ok created)
        × (view bytes_dec later j done.0.cache
            ≡ ite (bytes_dec key j) none (view bytes_dec later j c.cache))
        × (reads server json works encodes later j done.0.redis
            ≡ ite (bytes_dec key j) none (reads server json works encodes later j c.redis))
  unfolding create_record invalidate_record
  create_record-both t r created c s later j v h answer = rw answer (
    refl,
    view-delete bytes_dec _ c.cache later j v,
    reads-delete_on server json works encodes t _ c.redis later j h,
  )
