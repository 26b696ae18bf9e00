-- ===== src/Cache/Tests.antt =====
-- Tests of internal/cache/memory.go.
use errantdns_io.Base.{
  ℕ, ◌+◌, ◌≡◌, refl, some, none, [], ◌∷◌, arith, length, ltb, if◌then◌else◌, ite, last?, ℕ_discrete,
}
use mathlib.Core.Option
use errantdns_io.Base.Table
use errantdns_io.Cache.{
  MemoryCache, Entry, set, set_rounds, make_room, add, cleanup_expired, new_memory_cache,
}
use errantdns_io.Cache.Cleanup.{view-cleanup_expired}
use errantdns_io.Cache.Eviction.{view-set_full}
use errantdns_io.Cache.Invariant.{IsValid, new_memory_cache-IsValid}
use errantdns_io.Cache.Own.{set-IsValid}
use errantdns_io.Cache.Reads.{view}
use errantdns_io.Cache.Run.{run, run-IsValid, get_call, set_call, delete_call, cleanup_call}

abbrev empty_cache : MemoryCache ℕ ℕ
empty_cache = new_memory_cache 1

empty-IsValid : IsValid ℕ_discrete empty_cache
empty-IsValid = new_memory_cache-IsValid ℕ_discrete 1 (omega arith)

-- the cache after a Set of 5 to the key 7, at the time 10 and for 60
abbrev full_cache : MemoryCache ℕ ℕ
full_cache = elim (set ℕ_discrete 10 60 7 5 empty_cache) [ none ↦ empty_cache | some c ↦ c ]

full-IsValid : IsValid ℕ_discrete full_cache
unfolding new_memory_cache set set_rounds make_room Table.get add
full-IsValid = set-IsValid ℕ_discrete 10 60 7 5 empty_cache full_cache empty-IsValid refl

run-IsValid_example :
    (c : MemoryCache ℕ ℕ) × (run ℕ_discrete
        (set_call 10 60 7 5
          ∷ set_call 11 60 8 6
          ∷ get_call 12 12 7
          ∷ delete_call 8
          ∷ cleanup_call 99
          ∷ [])
        (new_memory_cache 1)
      ≡ some c)
    × IsValid ℕ_discrete c
run-IsValid_example =
    run-IsValid ℕ_discrete 1
      (set_call 10 60 7 5
        ∷ set_call 11 60 8 6
        ∷ get_call 12 12 7
        ∷ delete_call 8
        ∷ cleanup_call 99
        ∷ [])
      (omega arith)

view-set_full_example :
    (c' : MemoryCache ℕ ℕ) × (lru : ℕ) × (set ℕ_discrete 20 60 8 6 full_cache ≡ some c')
    × (last? full_cache.access_order ≡ some lru)
    × (length c'.table ≡ length full_cache.table)
    × (view ℕ_discrete 30 7 c'
        ≡ ite
            (ℕ_discrete 8 7)
            (if ltb (20 + 60) 30 then none else some 6)
            (ite (ℕ_discrete lru 7) none (view ℕ_discrete 30 7 full_cache)))
unfolding new_memory_cache set set_rounds make_room Table.get Table.put add ℕ_discrete
view-set_full_example = view-set_full ℕ_discrete 20 60 8 6 full_cache 30 7 full-IsValid refl refl

view-cleanup_expired_example :
    (view ℕ_discrete 90 7 (cleanup_expired ℕ_discrete 80 full_cache)
      ≡ view ℕ_discrete 90 7 full_cache)
    × (Option.map
          (λ (e : Entry ℕ). e.records)
          (Table.get ℕ_discrete 7 (cleanup_expired ℕ_discrete 80 full_cache).table)
        ≡ view ℕ_discrete 80 7 full_cache)
view-cleanup_expired_example =
    view-cleanup_expired ℕ_discrete 80 full_cache 90 7 full-IsValid (omega arith)
