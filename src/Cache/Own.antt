-- ===== src/Cache/Own.antt =====
-- internal/cache/memory.go: what can be read under the key of a Set.
use mathlib.Core.Option.{some-injective}
use errantdns_io.Base.{
  subst, sym, ℕ, suc, ◌+◌, ◌≡◌, refl, some, none, arith, length, ltb, if◌then◌else◌, Option-cases,
  inl, inr, ite, if_pos, ◌∙◌,
}
use errantdns_io.Base.Table
use errantdns_io.Cache.{MemoryCache, set}
use errantdns_io.Cache.Eviction.{set_absent}
use errantdns_io.Cache.Invariant.{IsValid, set_rounds-IsValid}
use errantdns_io.Cache.Reads.{view, view-add, view-set_present}
use errantdns_io.Cache.Steps.{with_room}

if_own : {K A : Type 0} (dec : Discrete K) (k : K) (x y : A) → ite (dec k k) x y ≡ x
if_own dec k x y = if_pos (dec k k) refl x y

module _ {K V : Type 0} (dec : Discrete K) where
  view-set_any :
      (now ttl : ℕ) (k : K) (r : V) (c : MemoryCache K V) (t : ℕ)
      → IsValid dec c
      → (c' : MemoryCache K V) × (set dec now ttl k r c ≡ some c')
        × (view dec t k c' ≡ (if ltb (now + ttl) t then none else some r))
  view-set_any now ttl k r c t v = elim (Option-cases (Table.get dec k c.table)) [
    | inl absent ↦ (
      _,
      set_absent dec now ttl k r c v absent,
      view-add dec now ttl k r (with_room dec c) t k ∙ if_own dec k _ _,
    )
    | inr (e, found) ↦
        let (c', done, reads) = view-set_present dec now ttl k r c e t k found in
        (c', done, reads ∙ if_own dec k _ _)
  ]

  -- Set on a valid cache returns a valid cache in which its key is readable up to its expiry.
  pub view-set_own :
      (now ttl : ℕ) (k : K) (r : V) (c : MemoryCache K V) (t : ℕ)
      → IsValid dec c
      → (c' : MemoryCache K V) × (set dec now ttl k r c ≡ some c')
        × IsValid dec c'
        × (view dec t k c' ≡ (if ltb (now + ttl) t then none else some r))
  view-set_own now ttl k r c t v =
      let (c1, _, valid, done) =
        set_rounds-IsValid dec (suc (length c.table)) now ttl k r c v (omega arith) in
      let (c2, again, reads) = view-set_any now ttl k r c t v in
      (
        c1,
        done,
        valid,
        subst (λ z. view dec t k z ≡ (if ltb (now + ttl) t then none else some r))
            (some-injective c2 c1 (sym again ∙ done)) reads,
      )

  pub set-IsValid :
      (now ttl : ℕ) (k : K) (r : V) (c c' : MemoryCache K V)
      → IsValid dec c
      → set dec now ttl k r c ≡ some c'
      → IsValid dec c'
  set-IsValid now ttl k r c c' v done =
      let (d, made, valid, _) = view-set_own now ttl k r c 0 v in
      subst (IsValid dec) (some-injective d c' (sym made ∙ done)) valid
