-- ===== src/Storage/Cached/Invalidation.antt =====
-- internal/storage/cached.go: what the management methods make unreadable in the cache.
use errantdns_io.Base.{
  ℕ, ◌≡◌, refl, ◌∙◌, Bool, true, false, ◌&&◌, none, List, [], ◌∷◌, arith, if◌then◌else◌, ite,
}
use errantdns_io.Base.Text.{Bytes, eqb, bytes_dec}
use errantdns_io.Cache
use errantdns_io.Cache.Invariant.{IsValid, delete_unlocked-IsValid}
use errantdns_io.Cache.Reads.{view, view-delete}
use errantdns_io.Models.Record.{DnsRecord, RecordType, type_name, new_lookup_query, cache_key}
use errantdns_io.Storage.Cached.{
  CachedState, RecordCache, create_record, update_record, delete_records, invalidate_record,
  invalidate_name_type, invalidate_types, invalidate_domain, common_types,
}
use errantdns_io.Storage.Interface.{Storage, ok}
use errantdns_io.Storage.Select.{Chance}
use errantdns_io.Storage.Cached.Keys.{key_of, same_type, same_name, ite_same, has_type}

invalidate_types-view :
    (ts : List RecordType) (name : Bytes) (cache : RecordCache) (t : ℕ) (other : Bytes)
    (u : RecordType)
    → IsValid bytes_dec cache
    → view bytes_dec t (key_of other u) (invalidate_types ts name cache) ≡ (
        if same_name name other && has_type ts u
        then none
        else view bytes_dec t (key_of other u) cache)
unfolding invalidate_types invalidate_name_type has_type Cache.delete
invalidate_types-view [] name cache t other u v = ground arith
invalidate_types-view (ty ∷ ts) name cache t other u v =
    invalidate_types-view ts name _ t other u
      (delete_unlocked-IsValid bytes_dec (key_of name ty) cache v)
    ∙ rw
        (view-delete bytes_dec (key_of name ty) cache t (key_of other u) v
          ∙ ite_same name other ty u none (view bytes_dec t (key_of other u) cache))
        (ground arith)

-- the types that invalidateDomain names
pub is_common : RecordType → Bool
is_common RecordType.soa = false
is_common RecordType.ptr = false
is_common RecordType.srv = false
is_common RecordType.caa = false
is_common RecordType.unsupported = false
is_common t = true

is_common_lem : (u : RecordType) → has_type common_types u ≡ is_common u
unfolding is_common has_type same_type eqb type_name
is_common_lem RecordType.a = refl
is_common_lem RecordType.aaaa = refl
is_common_lem RecordType.cname = refl
is_common_lem RecordType.txt = refl
is_common_lem RecordType.mx = refl
is_common_lem RecordType.ns = refl
is_common_lem RecordType.soa = refl
is_common_lem RecordType.ptr = refl
is_common_lem RecordType.srv = refl
is_common_lem RecordType.caa = refl
is_common_lem RecordType.unsupported = refl

module _ {S E : Type 0} (chance : Chance) (storage : Storage S E) (tie_breaker : Bytes) where
  -- With a valid cache, a CreateRecord that the wrapped storage accepts makes exactly the cache key of
  -- the record's name and type unreadable: every other key reads as before.
  create_record-view :
      (r created : DnsRecord) (c : CachedState S) (s : S) (t : ℕ) (j : Bytes)
      → IsValid bytes_dec c.cache
      → storage.create_record r c.inner ≡ (s, ok created)
      → (create_record chance storage tie_breaker r c).1 ≡ ok created
        × (view bytes_dec t j (create_record chance storage tie_breaker r c).0.cache
            ≡ ite
                (bytes_dec (cache_key (new_lookup_query created.name created.record_type)) j)
                none
                (view bytes_dec t j c.cache))
  unfolding create_record invalidate_record
  create_record-view r created c s t j v answer =
      rw answer (refl, view-delete bytes_dec _ c.cache t j v)

  -- With a valid cache, an UpdateRecord that the wrapped storage accepts makes exactly the cache key
  -- of the record's new name and type unreadable: every other key reads as before, that of the old
  -- name too.
  update_record-view :
      (r updated : DnsRecord) (c : CachedState S) (s : S) (t : ℕ) (j : Bytes)
      → IsValid bytes_dec c.cache
      → storage.update_record r c.inner ≡ (s, ok updated)
      → (update_record chance storage tie_breaker r c).1 ≡ ok updated
        × (view bytes_dec t j (update_record chance storage tie_breaker r c).0.cache
            ≡ ite
                (bytes_dec (cache_key (new_lookup_query updated.name updated.record_type)) j)
                none
                (view bytes_dec t j c.cache))
  unfolding update_record invalidate_record
  update_record-view r updated c s t j v answer =
      rw answer (refl, view-delete bytes_dec _ c.cache t j v)

  -- With a valid cache, a DeleteRecords of all types that the wrapped storage accepts makes exactly
  -- the keys of the name (up to its normal form) and of the six common types unreadable. What is
  -- cached for any other name or type, SOA, PTR, SRV and CAA of the same name included, reads as
  -- before.
  pub delete_records-view :
      (name : Bytes) (c : CachedState S) (s : S) (t : ℕ) (other : Bytes) (u : RecordType)
      → IsValid bytes_dec c.cache
      → storage.delete_records name [] c.inner ≡ (s, ok tt)
      → view bytes_dec t
          (key_of other u)
          (delete_records chance storage tie_breaker name [] c).0.cache
        ≡ (if same_name name other && is_common u
            then none
            else view bytes_dec t (key_of other u) c.cache)
  unfolding delete_records invalidate_domain eqb invalidate_types
  delete_records-view name c s t other u v answer =
      rw (answer, ← is_common_lem u) (invalidate_types-view common_types name c.cache t other u v)
