-- ===== src/Storage/Select.antt =====
-- The tie-breaking of internal/storage/cached.go and postgres.go. The generator of math/rand and the
-- digest of crypto/md5 are parameters.
use Prim.Native.Nat.{bit_xor}
use errantdns_io.Base.{
  ℕ, ◌+◌, ◌*◌, ◌/◌, ◌%◌, ◌^◌, ◌<◌, ◌≡◌, refl, Option, none, some, List, [], ◌∷◌, ◌++◌, arith, leb,
  if◌then◌else◌, length, get_elem?, get_elem?-lt, Bool-cases, inl, inr,
}
use errantdns_io.Base.Text.{Bytes, codes, eqb}
use errantdns_io.Models.Net.{numeral}
use errantdns_io.Models.Record.{DnsRecord, LookupQuery}

pub record Chance : Type 0 where
  -- rand.New(rand.NewSource(seed)).Intn(n), with the int64 seed as its bit pattern
  pub intn : ℕ → ℕ → ℕ
  -- the first eight bytes of md5.Sum, as binary.BigEndian.Uint64 reads them
  pub md5_prefix : Bytes → ℕ

-- Intn returns a number below its argument, which has to be positive.
pub record IsDocumented (c : Chance) : Type 0 where
  pub intn_lt : (seed n : ℕ) → 0 < n → c.intn seed n < n

-- hash/fnv's New64a: the hash of some bytes from a state
fnv64a : ℕ → Bytes → ℕ
fnv64a h [] = h
fnv64a h (b ∷ bs) = fnv64a ((bit_xor h b * 1099511628211) % 2 ^ 64) bs

module _ (chance : Chance) where
  -- generateSeed, at a Unix time in seconds
  unfoldable pub generate_seed : ℕ → LookupQuery → ℕ
  unfolding fnv64a numeral
  generate_seed unix query =
      fnv64a 14695981039346656037 (query.name ++ (query.query_type ++ numeral 20 10 (unix / 300)))

  -- roundRobinIndex; the period is 5 seconds in cached.go and 30 in postgres.go
  round_robin_index : (period unix : ℕ) → LookupQuery → ℕ → ℕ
  round_robin_index period unix query count =
      let query_value = chance.md5_prefix (query.name ++ query.query_type) in
      let combined = (query_value + unix / period) % 2 ^ 64 in
      if leb count 1 then 0 else combined % count

  -- the index of the switch on the tie breaker
  pub select_index : (period unix : ℕ) → Bytes → LookupQuery → ℕ → ℕ
  select_index period unix tie_breaker query count =
      if eqb tie_breaker (codes "random")
      then chance.intn (generate_seed unix query) count
      else round_robin_index period unix query count

  -- selectFromArray and selectFromGroup; `none` is nil
  unfoldable pub select_from_array :
      (period unix : ℕ) → Bytes → List DnsRecord → LookupQuery → Option DnsRecord
  select_from_array period unix tie_breaker [] query = none
  select_from_array period unix tie_breaker (r ∷ []) query = some r
  select_from_array period unix tie_breaker (r ∷ r' ∷ rs) query =
      get_elem? (r ∷ r' ∷ rs) (select_index period unix tie_breaker query (length (r ∷ r' ∷ rs)))

  index_in_range :
      (period unix : ℕ) (tie_breaker : Bytes) (query : LookupQuery) (count : ℕ)
      → IsDocumented chance
      → 0 < count
      → select_index period unix tie_breaker query count < count
  unfolding select_index round_robin_index
  index_in_range period unix tie_breaker query count doc h =
      let lt = doc.intn_lt (generate_seed unix query) count h in
      elim (Bool-cases (eqb tie_breaker (codes "random"))) [
        | inl random ↦ rw random lt
        | inr other ↦ rw other (round_robin_lt count h)
      ]
    where
      round_robin_lt : (n : ℕ) → 0 < n → round_robin_index period unix query n < n
      round_robin_lt n p = grind arith

  -- If Intn returns numbers below its argument, the selection from records that are not empty returns
  -- one of them, whatever the tie breaker and the time: the index is in range, so the code does not
  -- panic.
  pub select_from_array-some :
      (period unix : ℕ) (tie_breaker : Bytes) (records : List DnsRecord) (query : LookupQuery)
      → IsDocumented chance
      → 0 < length records
      → (i : ℕ) × (r : DnsRecord) × (get_elem? records i ≡ some r)
        × (select_from_array period unix tie_breaker records query ≡ some r)
  unfolding select_from_array
  select_from_array-some period unix tie_breaker [] query doc h = elim h [ ]
  select_from_array-some period unix tie_breaker (r ∷ []) query doc h = (0, r, refl, refl)
  select_from_array-some period unix tie_breaker (r ∷ r' ∷ rs) query doc h =
      let i = select_index period unix tie_breaker query (length (r ∷ r' ∷ rs)) in
      let (found, e) =
        get_elem?-lt (r ∷ r' ∷ rs) i
          (index_in_range period unix tie_breaker query (length (r ∷ r' ∷ rs)) doc h) in
      (i, found, e, e)
