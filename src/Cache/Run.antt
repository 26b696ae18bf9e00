-- ===== src/Cache/Run.antt =====
-- Runs of the methods of internal/cache/memory.go, in any order and at any times.
use errantdns_io.Base.{ℕ, suc, ◌<◌, ◌≡◌, refl, Option, some, none, List, [], ◌∷◌, arith, length}
use errantdns_io.Cache.{MemoryCache, new_memory_cache, get, set, delete, clear, cleanup_expired}
use errantdns_io.Cache.Invariant.{
  IsValid, new_memory_cache-IsValid, get-IsValid, set_rounds-IsValid, delete_unlocked-IsValid,
  clear-IsValid, cleanup_expired-IsValid,
}

-- A call that changes the cache, with the clock readings and arguments that it takes.
pub data Call (K V : Type 0) : Type 0 where
  get_call : (now access : ℕ) → K → Call K V
  set_call : (now ttl : ℕ) → K → V → Call K V
  delete_call : K → Call K V
  clear_call : Call K V
  cleanup_call : ℕ → Call K V

module _ {K V : Type 0} (dec : Discrete K) where
  -- what one call leaves; `none` if it does not return
  pub step : Call K V → MemoryCache K V → Option (MemoryCache K V)
  step (get_call now access k) c = some (get dec now access k c).0
  step (set_call now ttl k r) c = set dec now ttl k r c
  step (delete_call k) c = some (delete dec k c)
  step clear_call c = some (clear c)
  step (cleanup_call now) c = some (cleanup_expired dec now c)

  pub run : List (Call K V) → MemoryCache K V → Option (MemoryCache K V)
  run [] c = some c
  run (call ∷ calls) c = elim (step call c) [ none ↦ none | some c' ↦ run calls c' ]

  step-IsValid :
      (call : Call K V) (c : MemoryCache K V)
      → IsValid dec c
      → (c' : MemoryCache K V) × (step call c ≡ some c') × IsValid dec c'
  unfolding step delete
  step-IsValid (get_call now access k) c v = (_, refl, get-IsValid dec now access k c v)
  step-IsValid (set_call now ttl k r) c v =
      let (c', _, valid, done) =
        set_rounds-IsValid dec (suc (length c.table)) now ttl k r c v (omega arith) in
      (c', done, valid)
  step-IsValid (delete_call k) c v = (_, refl, delete_unlocked-IsValid dec k c v)
  step-IsValid clear_call c v = (_, refl, clear-IsValid dec c v)
  step-IsValid (cleanup_call now) c v = (_, refl, cleanup_expired-IsValid dec now c v)

  run-IsValid_from :
      (calls : List (Call K V)) (c : MemoryCache K V)
      → IsValid dec c
      → (c' : MemoryCache K V) × (run calls c ≡ some c') × IsValid dec c'
  unfolding run
  run-IsValid_from [] c v = (c, refl, v)
  run-IsValid_from (call ∷ calls) c v =
      let (c1, done, v1) = step-IsValid call c v in
      let (c2, rest, v2) = run-IsValid_from calls c1 v1 in (c2, rw (done, run) rest, v2)

  -- Every sequence of Get, Set, Delete, Clear and cleanupExpired on a new cache of a positive size
  -- returns, and leaves a cache whose access order lists exactly the keys of its table, each once,
  -- and which holds at most `max_entries` entries.
  pub run-IsValid :
      (max_entries : ℕ) (calls : List (Call K V))
      → 0 < max_entries
      → (c : MemoryCache K V) × (run calls (new_memory_cache max_entries) ≡ some c) × IsValid dec c
  run-IsValid max_entries calls h =
      run-IsValid_from calls _ (new_memory_cache-IsValid dec max_entries h)
