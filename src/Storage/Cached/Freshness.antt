-- ===== src/Storage/Cached/Freshness.antt =====
-- internal/storage/cached.go: how long a lookup can be stale.
use errantdns_io.Base.{
  ℕ, ◌+◌, ◌≤◌, ◌<◌, ◌≡◌, refl, ◌∙◌, ap, sym, subst, Option, none, some, List, [], ◌∷◌, arith,
  if◌then◌else◌, ltb,
}
use mathlib.Core.Option.{some-injective}
use errantdns_io.Base.Text.{Bytes, bytes_dec}
use errantdns_io.Cache
use errantdns_io.Cache.Invariant.{IsValid, get-IsValid}
use errantdns_io.Cache.Reads.{get-view, view-get}
use errantdns_io.Models.Record.{DnsRecord, LookupQuery, cache_key}
use errantdns_io.Storage.Cached.{
  CachedState, RecordCache, Times, seconds, lookup_record, serve, fill, select,
}
use errantdns_io.Storage.Cached.Lookup.{view_of, to_fill, lookup_record_miss}
use errantdns_io.Storage.Interface.{Storage, Result, ok, err}
use errantdns_io.Storage.Select.{Chance}

-- The clock readings of a series of lookups: they do not go back, and do not pass the bound.
abbrev pub Within : (bound from : ℕ) → List Times → Type 0
Within bound from [] = Unit
Within bound from (u ∷ us) = (from ≤ u.get_time) × (u.get_time ≤ bound) × Within bound u.get_time us

module _ {S E : Type 0} (chance : Chance) (storage : Storage S E) (tie_breaker : Bytes) where
  -- the calls behind a lookup, if that returns
  abbrev behind :
      {R : Type 0}
      → (CachedState S → Option (CachedState S))
      → Option (CachedState S × R)
      → Option (CachedState S)
  behind rest none = none
  behind rest (some (c, result)) = rest c

  -- a series of calls of LookupRecord for one query
  pub lookups : List Times → LookupQuery → CachedState S → Option (CachedState S)
  lookups [] query c = some c
  lookups (u ∷ us) query c =
      behind (lookups us query) (lookup_record chance storage tie_breaker u query c)

  hit_state : Times → LookupQuery → CachedState S → CachedState S
  hit_state u query c = record c {
    cache = (Cache.get bytes_dec u.get_time u.access_time (cache_key query) c.cache).0;
  }

  hit_lem :
      (u : Times) (query : LookupQuery) (c : CachedState S) (r : DnsRecord) (rs : List DnsRecord)
      → view_of u.get_time query c.cache ≡ some (r ∷ rs)
      → lookup_record chance storage tie_breaker u query c
        ≡ some (hit_state u query c, ok (select chance storage tie_breaker u (r ∷ rs) query))
  unfolding lookup_record serve hit_state
  hit_lem u query c r rs found =
      let read = Cache.get bytes_dec u.get_time u.access_time (cache_key query) c.cache in
      ap (λ z. serve chance storage tie_breaker u query c.inner (read.0, z))
        (get-view bytes_dec u.get_time u.access_time (cache_key query) c.cache ∙ found)

  -- what a cache holds for a query from a time on: the records until the bound, and nothing behind it
  Holds : (bound from : ℕ) → LookupQuery → List DnsRecord → RecordCache → Type 0
  Holds bound from query rs cache =
      (later : ℕ)
      → from ≤ later
      → view_of later query cache ≡ (if ltb bound later then none else some rs)

  lookups_hit :
      (us : List Times) (bound from : ℕ) (query : LookupQuery) (c : CachedState S) (r : DnsRecord)
      (rs : List DnsRecord) (w : ℕ)
      → IsValid bytes_dec c.cache
      → Holds bound from query (r ∷ rs) c.cache
      → Within bound from us
      → from ≤ bound
      → bound < w
      → (c' : CachedState S) × (lookups us query c ≡ some c')
        × IsValid bytes_dec c'.cache
        × (view_of w query c'.cache ≡ none)
        × (c'.inner ≡ c.inner)
  unfolding lookups Holds hit_state
  lookups_hit [] bound from query c r rs w v holds within low high =
      (c, refl, v, ground (arith, holds w), refl)
  lookups_hit (u ∷ us) bound from query c r rs w v holds (after, before, within) low high =
      let found : view_of u.get_time query c.cache ≡ some (r ∷ rs) =
        ground (arith, holds u.get_time) in
      let (c', done, valid, gone, same) =
        lookups_hit us bound u.get_time query (hit_state u query c) r rs w
          (get-IsValid bytes_dec u.get_time u.access_time (cache_key query) c.cache v)
          (λ later h.
            view-get bytes_dec u.get_time u.access_time (cache_key query) c.cache later
              (cache_key query) v h
            ∙ holds later (omega arith))
          within before high in
      (c', ap (behind (lookups us query)) (hit_lem u query c r rs found) ∙ done, valid, gone, same)

  same_cache :
      {s : S} {x y : RecordCache} {result : Result E (Option DnsRecord)}
      (o : Option (CachedState S × Result E (Option DnsRecord)))
      → o ≡ some (record { cache = x; inner = s }, result)
      → o ≡ some (record { cache = y; inner = s }, result)
      → y ≡ x
  same_cache {s} {x} {y} {result} o e h =
      ap (λ z. z.0.cache)
        (some-injective (record { cache = y; inner = s }, result)
          (record { cache = x; inner = s }, result) (sym h ∙ e))

  filled :
      (t : Times) (query : LookupQuery) (c : CachedState S) (s : S) (r : DnsRecord)
      (rs : List DnsRecord)
      → IsValid bytes_dec c.cache
      → view_of t.get_time query c.cache ≡ none
      → storage.lookup_record_group query c.inner ≡ (s, ok (r ∷ rs))
      → (cache : RecordCache) × (lookup_record chance storage tie_breaker t query c
          ≡ some (
            record { cache = cache; inner = s },
            ok (select chance storage tie_breaker t (r ∷ rs) query),
          ))
        × IsValid bytes_dec cache
        × Holds (t.set_time + seconds r.ttl) t.set_time query (r ∷ rs) cache
  unfolding Holds
  filled t query c s r rs v missing answer =
      let at = λ (later : ℕ).
        lookup_record_miss chance storage tie_breaker t query c s r rs later v missing answer in
      let (cache, first, valid, _) = at 0 in
      (
        cache,
        first,
        valid,
        λ later h.
            let (other, again, _, shown) = at later in
            subst
              (λ z.
                view_of later query z
                ≡ (if ltb (t.set_time + seconds r.ttl) later then none else some (r ∷ rs)))
              (same_cache _ first again) shown,
      )

  -- the result of a lookup that the wrapped storage answers
  abbrev pub answered :
      Times → LookupQuery → Result E (List DnsRecord) → Result E (Option DnsRecord)
  answered t query (err e) = err e
  answered t query (ok []) = ok none
  answered t query (ok (r ∷ rs)) = ok (select chance storage tie_breaker t (r ∷ rs) query)

  passed_on :
      (t : Times) (query : LookupQuery) (c : CachedState S) (s : S)
      (answer : Result E (List DnsRecord))
      → IsValid bytes_dec c.cache
      → view_of t.get_time query c.cache ≡ none
      → storage.lookup_record_group query c.inner ≡ (s, answer)
      → (c' : CachedState S) × (lookup_record chance storage tie_breaker t query c
          ≡ some (c', answered t query answer))
        × (c'.inner ≡ s)
  unfolding fill
  passed_on t query c s (err e) v missing answer = (
    _,
    to_fill chance storage tie_breaker t query c missing
        ∙ ap (fill chance storage tie_breaker t query _) answer,
    refl,
  )
  passed_on t query c s (ok []) v missing answer = (
    _,
    to_fill chance storage tie_breaker t query c missing
        ∙ ap (fill chance storage tie_breaker t query _) answer,
    refl,
  )
  passed_on t query c s (ok (r ∷ rs)) v missing answer =
      let (cache, done, _, _) =
        lookup_record_miss chance storage tie_breaker t query c s r rs 0 v missing answer in
      (_, done, refl)

  -- However the wrapped storage changes behind a LookupRecord that filled the cache, and however often
  -- the query is looked up until the TTL of the first record has passed: a LookupRecord behind it
  -- passes on what the wrapped storage then answers, an error as the error, no records as nothing, and
  -- records as the selection from them.
  pub lookup_record_fresh :
      (t w : Times) (us : List Times) (query : LookupQuery) (c : CachedState S) (s s2 s3 : S)
      (r : DnsRecord) (rs : List DnsRecord) (later : Result E (List DnsRecord))
      → IsValid bytes_dec c.cache
      → view_of t.get_time query c.cache ≡ none
      → storage.lookup_record_group query c.inner ≡ (s, ok (r ∷ rs))
      → Within (t.set_time + seconds r.ttl) t.set_time us
      → t.set_time + seconds r.ttl < w.get_time
      → storage.lookup_record_group query s2 ≡ (s3, later)
      → (c1 c2 c3 : CachedState S) × (lookup_record chance storage tie_breaker t query c
          ≡ some (c1, ok (select chance storage tie_breaker t (r ∷ rs) query)))
        × (lookups us query c1 ≡ some c2)
        × (lookup_record chance storage tie_breaker w query (record c2 { inner = s2 })
            ≡ some (c3, answered w query later))
        × (c3.inner ≡ s3)
  lookup_record_fresh t w us query c s s2 s3 r rs later v missing answer within old answer' =
      let (cache, first, valid, holds) = filled t query c s r rs v missing answer in
      let (c2, middle, valid2, gone, _) =
        lookups_hit us (t.set_time + seconds r.ttl) t.set_time query
          (record { cache = cache; inner = s }) r rs w.get_time valid holds within (omega arith)
          old in
      let (c3, last, same) =
        passed_on w query (record c2 { inner = s2 }) s3 later valid2 gone answer' in
      (_, c2, c3, first, middle, last, same)
