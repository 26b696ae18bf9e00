-- ===== src/Storage/Cached/Lookup.antt =====
-- internal/storage/cached.go: LookupRecord as a read-through cache.
use errantdns_io.Base.{
  ℕ, ◌+◌, ◌≤◌, ◌≡◌, refl, ◌∙◌, ap, Option, none, some, List, [], ◌∷◌, arith, if◌then◌else◌, ltb,
}
use errantdns_io.Base.Int.{ℤ}
use errantdns_io.Base.Text.{Bytes, bytes_dec}
use errantdns_io.Cache
use errantdns_io.Cache.Invariant.{IsValid, get-IsValid}
use errantdns_io.Cache.Own.{view-set_own}
use errantdns_io.Cache.Reads.{view, get-view, view-get}
use errantdns_io.Models.Record.{DnsRecord, LookupQuery, cache_key}
use errantdns_io.Storage.Cached.{
  CachedState, RecordCache, Times, seconds, lookup_record, delete_record, serve, fill, select,
}
use errantdns_io.Storage.Interface.{Storage, Result, ok, err}
use errantdns_io.Storage.Select.{Chance}

abbrev pub view_of : ℕ → LookupQuery → RecordCache → Option (List DnsRecord)
view_of t query c = view bytes_dec t (cache_key query) c

module _ {S E : Type 0} (chance : Chance) (storage : Storage S E) (tie_breaker : Bytes) where
  -- Where a valid cache holds records that are not empty for the query, LookupRecord returns the
  -- selection from them without a call of the wrapped storage, and the cache stays valid and reads
  -- the same from then on.
  lookup_record_hit :
      (t : Times) (query : LookupQuery) (c : CachedState S) (r : DnsRecord) (rs : List DnsRecord)
      (later : ℕ) (other : Bytes)
      → IsValid bytes_dec c.cache
      → view_of t.get_time query c.cache ≡ some (r ∷ rs)
      → t.get_time ≤ later
      → (cache : RecordCache) × (lookup_record chance storage tie_breaker t query c
          ≡ some (
            record { cache = cache; inner = c.inner },
            ok (select chance storage tie_breaker t (r ∷ rs) query),
          ))
        × IsValid bytes_dec cache
        × (view bytes_dec later other cache ≡ view bytes_dec later other c.cache)
  unfolding lookup_record serve
  lookup_record_hit t query c r rs later other v found h =
      let read = Cache.get bytes_dec t.get_time t.access_time (cache_key query) c.cache in
      (
        read.0,
        ap (λ z. serve chance storage tie_breaker t query c.inner (read.0, z))
            (get-view bytes_dec t.get_time t.access_time (cache_key query) c.cache ∙ found),
        get-IsValid bytes_dec t.get_time t.access_time (cache_key query) c.cache v,
        view-get bytes_dec t.get_time t.access_time (cache_key query) c.cache later other v h,
      )

  pub to_fill :
      (t : Times) (query : LookupQuery) (c : CachedState S)
      → view_of t.get_time query c.cache ≡ none
      → lookup_record chance storage tie_breaker t query c
        ≡ fill chance storage tie_breaker t query
            (Cache.get bytes_dec t.get_time t.access_time (cache_key query) c.cache).0
            (storage.lookup_record_group query c.inner)
  unfolding lookup_record serve
  to_fill t query c missing =
      let read = Cache.get bytes_dec t.get_time t.access_time (cache_key query) c.cache in
      ap (λ z. serve chance storage tie_breaker t query c.inner (read.0, z))
        (get-view bytes_dec t.get_time t.access_time (cache_key query) c.cache ∙ missing)

  fill_ok :
      (t : Times) (query : LookupQuery) (cache : RecordCache) (s : S) (r : DnsRecord)
      (rs : List DnsRecord) (later : ℕ)
      → IsValid bytes_dec cache
      → (filled : RecordCache) × (fill chance storage tie_breaker t query cache (s, ok (r ∷ rs))
          ≡ some (
            record { cache = filled; inner = s },
            ok (select chance storage tie_breaker t (r ∷ rs) query),
          ))
        × IsValid bytes_dec filled
        × (view_of later query filled
            ≡ (if ltb (t.set_time + seconds r.ttl) later then none else some (r ∷ rs)))
  unfolding fill
  fill_ok t query cache s r rs later v =
      let (filled, done, valid, reads) =
        view-set_own bytes_dec t.set_time (seconds r.ttl) (cache_key query) (r ∷ rs) cache later
          v in
      (filled, rw done refl, valid, reads)

  -- Where a valid cache holds nothing for the query and the wrapped storage returns records,
  -- LookupRecord returns the selection from them, and the cache holds all of them for the TTL of the
  -- first one, and not longer.
  pub lookup_record_miss :
      (t : Times) (query : LookupQuery) (c : CachedState S) (s : S) (r : DnsRecord)
      (rs : List DnsRecord) (later : ℕ)
      → IsValid bytes_dec c.cache
      → view_of t.get_time query c.cache ≡ none
      → storage.lookup_record_group query c.inner ≡ (s, ok (r ∷ rs))
      → (cache : RecordCache) × (lookup_record chance storage tie_breaker t query c
          ≡ some (
            record { cache = cache; inner = s },
            ok (select chance storage tie_breaker t (r ∷ rs) query),
          ))
        × IsValid bytes_dec cache
        × (view_of later query cache
            ≡ (if ltb (t.set_time + seconds r.ttl) later then none else some (r ∷ rs)))
  lookup_record_miss t query c s r rs later v missing answer =
      let (filled, done, valid, reads) =
        fill_ok t query _ s r rs later
          (get-IsValid bytes_dec t.get_time t.access_time (cache_key query) c.cache v) in
      (
        filled,
        to_fill t query c missing ∙ ap (fill chance storage tie_breaker t query _) answer ∙ done,
        valid,
        reads,
      )

  fill_total :
      (t : Times) (query : LookupQuery) (cache : RecordCache)
      (answer : S × Result E (List DnsRecord))
      → IsValid bytes_dec cache
      → (c' : CachedState S) × (result : Result E (Option DnsRecord)) × (fill chance storage
            tie_breaker t query cache answer
          ≡ some (c', result))
        × IsValid bytes_dec c'.cache
  unfolding fill
  fill_total t query cache (s, err e) v = (_, _, refl, v)
  fill_total t query cache (s, ok []) v = (_, _, refl, v)
  fill_total t query cache (s, ok (r ∷ rs)) v =
      let (filled, done, valid, _) = fill_ok t query cache s r rs 0 v in (_, _, done, valid)

  serve_total :
      (t : Times) (query : LookupQuery) (s : S) (read : RecordCache × Option (List DnsRecord))
      → IsValid bytes_dec read.0
      → (c' : CachedState S) × (result : Result E (Option DnsRecord)) × (serve chance storage
            tie_breaker t query s read
          ≡ some (c', result))
        × IsValid bytes_dec c'.cache
  unfolding serve
  serve_total t query s (cache, none) v = fill_total t query cache _ v
  serve_total t query s (cache, some []) v = fill_total t query cache _ v
  serve_total t query s (cache, some (r ∷ rs)) v = (_, _, refl, v)

  -- On a valid cache LookupRecord always returns, whatever the wrapped storage answers, and leaves a
  -- valid cache.
  lookup_record_total :
      (t : Times) (query : LookupQuery) (c : CachedState S)
      → IsValid bytes_dec c.cache
      → (c' : CachedState S) × (result : Result E (Option DnsRecord)) × (lookup_record chance
            storage tie_breaker t query c
          ≡ some (c', result))
        × IsValid bytes_dec c'.cache
  unfolding lookup_record
  lookup_record_total t query c v =
      serve_total t query c.inner _
        (get-IsValid bytes_dec t.get_time t.access_time (cache_key query) c.cache v)

  -- After a LookupRecord that filled a valid cache, a second one that reads the clock within the TTL of
  -- the first record returns the selection from the same records, without another call of the
  -- wrapped storage.
  pub lookup_record_again :
      (t u : Times) (query : LookupQuery) (c : CachedState S) (s : S) (r : DnsRecord)
      (rs : List DnsRecord)
      → IsValid bytes_dec c.cache
      → view_of t.get_time query c.cache ≡ none
      → storage.lookup_record_group query c.inner ≡ (s, ok (r ∷ rs))
      → u.get_time ≤ t.set_time + seconds r.ttl
      → (c1 c2 : CachedState S) × (lookup_record chance storage tie_breaker t query c
          ≡ some (c1, ok (select chance storage tie_breaker t (r ∷ rs) query)))
        × (lookup_record chance storage tie_breaker u query c1
            ≡ some (c2, ok (select chance storage tie_breaker u (r ∷ rs) query)))
        × (c2.inner ≡ s)
  lookup_record_again t u query c s r rs v missing answer soon =
      let (cache1, first, valid, reads) =
        lookup_record_miss t query c s r rs u.get_time v missing answer in
      let within : view_of u.get_time query cache1 ≡ some (r ∷ rs) = ground (arith, reads) in
      let (cache2, second, _, _) =
        lookup_record_hit u query (record { cache = cache1; inner = s }) r rs u.get_time [] valid
          within (omega arith) in
      (_, _, first, second, refl)

  -- DeleteRecord changes nothing in the cache: what a valid cache held for a query is still served by
  -- LookupRecord up to the expiry, also if the record is deleted.
  pub lookup_record-delete_record :
      (id : ℤ) (t : Times) (query : LookupQuery) (c : CachedState S) (r : DnsRecord)
      (rs : List DnsRecord)
      → IsValid bytes_dec c.cache
      → view_of t.get_time query c.cache ≡ some (r ∷ rs)
      → (c' : CachedState S) × (lookup_record chance storage tie_breaker t query
            (delete_record chance storage tie_breaker id c).0
          ≡ some (c', ok (select chance storage tie_breaker t (r ∷ rs) query)))
  unfolding delete_record
  lookup_record-delete_record id t query c r rs v found =
      let (cache, done, _, _) =
        lookup_record_hit t query (delete_record chance storage tie_breaker id c).0 r rs t.get_time
          [] v found (omega arith) in
      (_, done)
