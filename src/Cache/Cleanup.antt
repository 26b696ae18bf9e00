-- ===== src/Cache/Cleanup.antt =====
-- cleanupExpired of internal/cache/memory.go.
use mathlib.Core.Option
use errantdns_io.Base.{
  ℕ, ◌≤◌, ◌≡◌, if◌then◌else◌, refl, Option, some, none, List, [], ◌∷◌, arith, count, Option-cases,
  inl, inr, ◌==◌, ◌∙◌,
}
use errantdns_io.Base.Table
use errantdns_io.Base.Table.{Table, keys}
use errantdns_io.Cache.{
  MemoryCache, Entry, is_expired, delete_unlocked, expired_keys, delete_keys, cleanup_expired,
}
use errantdns_io.Cache.Invariant.{IsValid, delete_unlocked-IsValid}
use errantdns_io.Cache.Reads.{view, view_entry}

module _ {K V : Type 0} (dec : Discrete K) where
  -- the table after the deletions, at a key: gone if the key is listed, unchanged if not
  get-delete_keys :
      (ks : List K) (c : MemoryCache K V) (j : K)
      → IsValid dec c
      → Table.get dec j (delete_keys dec ks c).table
        ≡ (if count dec j ks == 0 then Table.get dec j c.table else none)
  unfolding delete_keys count
  get-delete_keys [] c j v = refl
  get-delete_keys (k ∷ ks) c j v =
      get-delete_keys ks (delete_unlocked dec k c) j (delete_unlocked-IsValid dec k c v)
      ∙ unfold delete_unlocked in
        rw (Table.get-delete dec k j c.table (v.coherent.once k)) (ground arith)

  count-expired_keys-le :
      (now : ℕ) (t : Table K (Entry V)) (j : K)
      → count dec j (expired_keys dec now t) ≤ count dec j (keys t)
  unfolding expired_keys count
  count-expired_keys-le now [] j = omega arith
  count-expired_keys-le now ((k, d) ∷ t) j = ground (arith, count-expired_keys-le now t j)

  -- A key is listed exactly if its entry has expired.
  count-expired_keys :
      (now : ℕ) (t : Table K (Entry V)) (j : K) (e : Entry V)
      → count dec j (keys t) ≤ 1
      → Table.get dec j t ≡ some e
      → count dec j (expired_keys dec now t) ≡ (if is_expired now e then 1 else 0)
  unfolding expired_keys count Table.get
  count-expired_keys now [] j e h found = cc
  count-expired_keys now ((k, d) ∷ t) j e h found =
      ground (arith, count-expired_keys now t j e, count-expired_keys-le now t j)

  -- the entry, unless it has expired
  abbrev unexpired : ℕ → Option (Entry V) → Option (Entry V)
  unexpired now none = none
  unexpired now (some e) = if is_expired now e then none else some e

  unexpired_view :
      (now t : ℕ) (o : Option (Entry V))
      → now ≤ t
      → view_entry dec t (unexpired now o) ≡ view_entry dec t o
  unfolding is_expired
  unexpired_view now t none h = refl
  unexpired_view now t (some e) h = ground arith

  unexpired_records :
      (now : ℕ) (o : Option (Entry V))
      → Option.map (λ e. e.records) (unexpired now o) ≡ view_entry dec now o
  unfolding is_expired
  unexpired_records now none = refl
  unexpired_records now (some e) = ground arith

  -- After cleanupExpired on a valid cache, the entry of a key is the one before the call if that had
  -- not expired, and there is none otherwise.
  get-cleanup_expired :
      (now : ℕ) (c : MemoryCache K V) (j : K)
      → IsValid dec c
      → Table.get dec j (cleanup_expired dec now c).table ≡ unexpired now (Table.get dec j c.table)
  unfolding cleanup_expired
  get-cleanup_expired now c j v = elim (Option-cases (Table.get dec j c.table)) [
    | inl absent ↦ get-delete_keys (expired_keys dec now c.table) c j v ∙ rw absent (ground arith)
    | inr (e, found) ↦
        get-delete_keys (expired_keys dec now c.table) c j v
        ∙ rw (found, count-expired_keys now c.table j e (v.coherent.once j) found) (ground arith)
  ]

  -- cleanupExpired on a valid cache cannot be observed: from its time on, every key reads as it would
  -- have read without it. What the table holds for a key after it is what can be read of the key: no
  -- expired entry is left.
  pub view-cleanup_expired :
      (now : ℕ) (c : MemoryCache K V) (t : ℕ) (j : K)
      → IsValid dec c
      → now ≤ t
      → (view dec t j (cleanup_expired dec now c) ≡ view dec t j c)
        × (Option.map
              (λ (e : Entry V). e.records)
              (Table.get dec j (cleanup_expired dec now c).table)
            ≡ view dec now j c)
  unfolding view is_expired
  view-cleanup_expired now c t j v later = (
    rw (get-cleanup_expired now c j v) (unexpired_view now t (Table.get dec j c.table) later),
    rw (get-cleanup_expired now c j v) (unexpired_records now (Table.get dec j c.table)),
  )
