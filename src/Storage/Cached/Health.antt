-- ===== src/Storage/Cached/Health.antt =====
-- internal/storage/cached.go: Health.
use errantdns_io.Base.{ℕ, ◌+◌, ◌≤◌, ◌≡◌, refl, ◌∙◌, true, none, some, [], ◌∷◌, arith, if_pos}
use errantdns_io.Base.Text.{Bytes, bytes_dec}
use errantdns_io.Cache
use errantdns_io.Cache.Invariant.{IsValid, get-IsValid, delete_unlocked-IsValid}
use errantdns_io.Cache.Own.{view-set_own}
use errantdns_io.Cache.Reads.{view, get-view, view-delete}
use errantdns_io.Storage.Cached.{
  CachedState, RecordCache, Times, health, check_cache, probe_cache, test_key, test_record,
}
use errantdns_io.Storage.Interface.{Storage, ok}
use errantdns_io.Storage.Select.{Chance}

module _ {S E : Type 0} (chance : Chance) (storage : Storage S E) (tie_breaker : Bytes) where
  probe_found :
      (t : Times) (c : RecordCache) (later : ℕ)
      → IsValid bytes_dec c
      → t.get_time ≤ t.set_time + 1000000000
      → (cache : RecordCache) × (probe_cache chance storage tie_breaker t c ≡ some (cache, true))
        × IsValid bytes_dec cache
        × (view bytes_dec later test_key cache ≡ none)
  unfolding probe_cache Cache.delete
  probe_found t c later v soon =
      let (filled, done, valid, reads) =
        view-set_own bytes_dec t.set_time 1000000000 test_key (test_record ∷ []) c t.get_time v in
      let found : view bytes_dec t.get_time test_key filled ≡ some (test_record ∷ []) =
        ground (arith, reads) in
      let read = Cache.get bytes_dec t.get_time t.access_time test_key filled in
      let read_valid = get-IsValid bytes_dec t.get_time t.access_time test_key filled valid in
      let answer : read.1 ≡ some (test_record ∷ []) =
        get-view bytes_dec t.get_time t.access_time test_key filled ∙ found in
      (
        Cache.delete bytes_dec test_key read.0,
        rw done (rw answer refl),
        delete_unlocked-IsValid bytes_dec test_key read.0 read_valid,
        view-delete bytes_dec test_key read.0 later test_key read_valid
            ∙ if_pos (bytes_dec test_key test_key) refl none (view bytes_dec later test_key read.0),
      )

  -- Where the cache is valid, the wrapped storage is healthy and the test record is read back within
  -- its second, Health returns no error, and afterwards its test key is not readable and the cache is
  -- valid.
  health_healthy :
      (t : Times) (c : CachedState S) (s : S) (later : ℕ)
      → IsValid bytes_dec c.cache
      → storage.health c.inner ≡ (s, ok tt)
      → t.get_time ≤ t.set_time + 1000000000
      → (cache : RecordCache) × (health chance storage tie_breaker t c
          ≡ some (record { cache = cache; inner = s }, ok tt))
        × IsValid bytes_dec cache
        × (view bytes_dec later test_key cache ≡ none)
  unfolding health check_cache
  health_healthy t c s later v answer soon =
      let (cache, done, valid, gone) = probe_found t c.cache later v soon in
      (cache, rw (answer, done) refl, valid, gone)
