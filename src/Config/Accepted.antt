-- ===== src/Config/Accepted.antt =====
-- internal/config/config.go: what a valid configuration guarantees to the cache.
use errantdns_io.Base.{ℕ, ◌≡◌, ◌<◌, refl, Bool, true, false, none, some, List, arith}
use errantdns_io.Base.Int.{ℤ, pos, negsuc, leb_ℤ}
use errantdns_io.Cache.{MemoryCache, new_memory_cache}
use errantdns_io.Cache.Invariant.{IsValid}
use errantdns_io.Cache.Run.{Call, run, run-IsValid}
use errantdns_io.Config.{Config, CacheConfig, validate_cache, validate_config}

positive : (x : ℤ) → leb_ℤ x (pos 0) ≡ false → (n : ℕ) × (x ≡ pos n) × (0 < n)
positive (pos n) h = (n, refl, ground arith)
positive (negsuc n) h = cc

positive_entries :
    (c : CacheConfig)
    → c.enabled ≡ true
    → validate_cache c ≡ none
    → leb_ℤ c.max_entries (pos 0) ≡ false
unfolding validate_cache
positive_entries c on h = ground arith

module _ {F : Type 0} (below_zero above_one : F → Bool) where
  cache_checked :
      (c : Config F) → validate_config below_zero above_one c ≡ none → validate_cache c.cache ≡ none
  unfolding validate_config
  cache_checked c valid = ground arith

  -- If Validate accepts a configuration in which the cache is enabled, the cache of the configured
  -- size never hangs: every sequence of Get, Set, Delete, Clear and cleanupExpired on it returns, and
  -- leaves a valid cache.
  pub run-validate_config :
      {K V : Type 0} (dec : Discrete K) (c : Config F) (calls : List (Call K V))
      → validate_config below_zero above_one c ≡ none
      → c.cache.enabled ≡ true
      → (n : ℕ) × (end : MemoryCache K V) × (c.cache.max_entries ≡ pos n)
        × (run dec calls (new_memory_cache n) ≡ some end)
        × IsValid dec end
  run-validate_config dec c calls valid on =
      let (n, size, many) =
        positive c.cache.max_entries (positive_entries c.cache on (cache_checked c valid)) in
      let (end, done, fine) = run-IsValid dec n calls many in (n, end, size, done, fine)
