-- ===== src/Storage/Tests.antt =====
-- Tests of internal/storage.
use errantdns_io.Base.{
  ℕ, ◌%◌, ◌<◌, ◌≡◌, ◌&&◌, refl, some, none, List, [], ◌∷◌, arith, if◌then◌else◌, get_elem?,
}
use errantdns_io.Base.Int.{pos}
use errantdns_io.Base.Table
use errantdns_io.Base.Text.{codes, bytes_dec, eqb}
use errantdns_io.Cache
use errantdns_io.Cache.{new_memory_cache}
use errantdns_io.Cache.Invariant.{IsValid, new_memory_cache-IsValid}
use errantdns_io.Cache.Own.{set-IsValid}
use errantdns_io.Cache.Reads.{view}
use errantdns_io.Models.Record.{DnsRecord, RecordType, cache_key}
use errantdns_io.Samples.{a_record, a_query, steady, listed}
use errantdns_io.Storage.Cached.{
  CachedState, RecordCache, Times, seconds, select, lookup_record, delete_record, delete_records,
}
use errantdns_io.Storage.Cached.Freshness.{lookups, lookup_record_fresh}
use errantdns_io.Storage.Cached.Invalidation.{is_common, delete_records-view}
use errantdns_io.Storage.Cached.Keys.{key_of, same_name}
use errantdns_io.Storage.Cached.Lookup.{lookup_record_again, lookup_record-delete_record}
use errantdns_io.Storage.Interface.{ok}
use errantdns_io.Storage.Select.{IsDocumented, select_from_array, select_from_array-some}

steady-IsDocumented : IsDocumented steady
steady-IsDocumented = record { intn_lt = λ seed n h. mod_lt seed n h }
  where
    mod_lt : (seed n : ℕ) → 0 < n → seed % n < n
    mod_lt seed n h = grind arith

-- the clock at one time
abbrev at : ℕ → Times
at t = record { get_time = t; access_time = t; set_time = t; select_time = t }

abbrev empty_state : CachedState (List DnsRecord)
empty_state = record { cache = new_memory_cache 2; inner = a_record ∷ [] }

empty-IsValid : IsValid bytes_dec empty_state.cache
empty-IsValid = new_memory_cache-IsValid bytes_dec 2 (omega arith)

abbrev full_cache : RecordCache
full_cache =
    elim (Cache.set bytes_dec 10 (seconds 60) (cache_key a_query) (a_record ∷ [])
      (new_memory_cache 2)) [ none ↦ new_memory_cache 2 | some c ↦ c ]

-- what is cached after a lookup of the record
abbrev full_state : CachedState (List DnsRecord)
full_state = record { cache = full_cache; inner = a_record ∷ [] }

full-IsValid : IsValid bytes_dec full_state.cache
unfolding new_memory_cache Cache.set Cache.set_rounds Cache.make_room Table.get Cache.add
full-IsValid =
    set-IsValid bytes_dec 10 (seconds 60) (cache_key a_query) (a_record ∷ []) (new_memory_cache 2)
      full_cache empty-IsValid refl

lookup_record_again_example :
    (c1 c2 : CachedState (List DnsRecord)) × (lookup_record steady listed
        (codes "round_robin")
        (at 10)
        a_query
        empty_state
      ≡ some (c1, ok (select steady listed (codes "round_robin") (at 10) (a_record ∷ []) a_query)))
    × (lookup_record steady listed (codes "round_robin") (at 20) a_query c1
        ≡ some
            (c2, ok (select steady listed (codes "round_robin") (at 20) (a_record ∷ []) a_query)))
    × (c2.inner ≡ (a_record ∷ []))
unfolding new_memory_cache Cache.set Cache.set_rounds Cache.make_room Table.get Table.put Cache.add
    view bytes_dec eqb cache_key
lookup_record_again_example =
    lookup_record_again steady listed (codes "round_robin") (at 10) (at 20) a_query empty_state
      (a_record ∷ []) a_record [] empty-IsValid refl refl (omega arith)

lookup_record-delete_record_example :
    (c' : CachedState (List DnsRecord)) × (lookup_record steady listed
        (codes "round_robin")
        (at 20)
        a_query
        (delete_record steady listed (codes "round_robin") (pos 1) full_state).0
      ≡ some (c', ok (select steady listed (codes "round_robin") (at 20) (a_record ∷ []) a_query)))
unfolding new_memory_cache Cache.set Cache.set_rounds Cache.make_room Table.get Table.put Cache.add
    view bytes_dec eqb cache_key
lookup_record-delete_record_example =
    lookup_record-delete_record steady listed (codes "round_robin") (pos 1) (at 20) a_query
      full_state a_record [] full-IsValid refl

delete_records-view_example :
    view bytes_dec 20
      (key_of (codes "A.io.") RecordType.soa)
      (delete_records steady listed (codes "round_robin") (codes "a.io") [] full_state).0.cache
    ≡ (if same_name (codes "a.io") (codes "A.io.") && is_common RecordType.soa
        then none
        else view bytes_dec 20 (key_of (codes "A.io.") RecordType.soa) full_state.cache)
delete_records-view_example =
    delete_records-view steady listed (codes "round_robin") (codes "a.io") full_state [] 20
      (codes "A.io.") RecordType.soa full-IsValid refl

select_from_array-some_example :
    (i : ℕ) × (r : DnsRecord) × (get_elem? (a_record ∷ a_record ∷ []) i ≡ some r)
    × (select_from_array steady 5 1234 (codes "random") (a_record ∷ a_record ∷ []) a_query ≡ some r)
select_from_array-some_example =
    select_from_array-some steady 5 1234 (codes "random") (a_record ∷ a_record ∷ []) a_query
      steady-IsDocumented (omega arith)

abbrev moved : DnsRecord
moved = record a_record { target = codes "10.0.0.2" }

lookup_record_fresh_example :
    (c1 c2 c3 : CachedState (List DnsRecord)) × (lookup_record steady listed
        (codes "round_robin")
        (at 10)
        a_query
        empty_state
      ≡ some (c1, ok (select steady listed (codes "round_robin") (at 10) (a_record ∷ []) a_query)))
    × (lookups steady listed (codes "round_robin") (at 20 ∷ at 30 ∷ []) a_query c1 ≡ some c2)
    × (lookup_record steady listed
          (codes "round_robin")
          (at 70000000000)
          a_query
          (record c2 { inner = moved ∷ [] })
        ≡ some (
          c3,
          ok (select steady listed (codes "round_robin") (at 70000000000) (moved ∷ []) a_query),
        ))
    × (c3.inner ≡ (moved ∷ []))
unfolding new_memory_cache Table.get view bytes_dec eqb cache_key
lookup_record_fresh_example =
    lookup_record_fresh steady listed (codes "round_robin") (at 10) (at 70000000000)
      (at 20 ∷ at 30 ∷ []) a_query empty_state (a_record ∷ []) (moved ∷ []) (moved ∷ []) a_record []
      (ok (moved ∷ [])) empty-IsValid refl refl
      (omega arith, omega arith, (omega arith, omega arith, tt)) (omega arith) refl
