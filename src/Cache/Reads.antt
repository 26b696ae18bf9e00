-- ===== src/Cache/Reads.antt =====
-- What can be read from the cache of internal/cache/memory.go: a map whose entries expire.
use errantdns_io.Base.{
  ℕ, ◌+◌, ◌≤◌, ◌≡◌, refl, Option, some, none, arith, ltb, if◌then◌else◌, Option-cases, Bool-cases,
  inl, inr, ite,
}
use errantdns_io.Base.Table
use errantdns_io.Base.Table.{keys}
use errantdns_io.Cache.{
  MemoryCache, Entry, is_expired, get, set, delete, delete_unlocked, touch, add,
  move_to_front_unlocked, fresh, clear,
}
use errantdns_io.Cache.Invariant.{IsValid}
use errantdns_io.Cache.Steps.{get_missing, get_expired, get_live, set_rounds_present}

module _ {K V : Type 0} (dec : Discrete K) where
  -- The abstract view: what the cache holds for a key at a time.
  abbrev pub view_entry : ℕ → Option (Entry V) → Option V
  view_entry t none = none
  view_entry t (some e) = if ltb e.expires_at t then none else some e.records

  unfoldable pub view : ℕ → K → MemoryCache K V → Option V
  view t k c = view_entry t (Table.get dec k c.table)

  -- Get returns the view of its key at the time of the call.
  pub get-view :
      (now access : ℕ) (k : K) (c : MemoryCache K V) → (get dec now access k c).1 ≡ view now k c
  unfolding get view is_expired
  get-view now access k c = ground arith

  -- Get on a valid cache changes nothing that can be read from its time on.
  pub view-get :
      (now access : ℕ) (k : K) (c : MemoryCache K V) (t : ℕ) (j : K)
      → IsValid dec c
      → now ≤ t
      → view t j (get dec now access k c).0 ≡ view t j c
  unfolding view is_expired touch delete_unlocked move_to_front_unlocked
  view-get now access k c t j v later = elim (Option-cases (Table.get dec k c.table)) [
    | inl absent ↦ rw (get_missing dec now access k c absent)
    | inr (e, found) ↦ elim (Bool-cases (is_expired now e)) [
      | inl old ↦
          rw (get_expired dec now access k c e found old)
            (rw (Table.get-delete dec k j c.table (v.coherent.once k)) (ground arith))
      | inr live ↦
          rw (get_live dec now access k c e found live)
            (rw (Table.get-put dec k j _ c.table) (ground arith))
    ]
  ]

  -- Delete makes its key unreadable, and leaves every other key as it was.
  pub view-delete :
      (k : K) (c : MemoryCache K V) (t : ℕ) (j : K)
      → IsValid dec c
      → view t j (delete dec k c) ≡ ite (dec k j) none (view t j c)
  unfolding view delete delete_unlocked
  view-delete k c t j v = rw (Table.get-delete dec k j c.table (v.coherent.once k)) (ground arith)

  -- Clear makes every key unreadable.
  view-clear : (c : MemoryCache K V) (t : ℕ) (j : K) → view t j (clear c) ≡ none
  unfolding view clear Table.get
  view-clear c t j = refl

  -- After a Set of a key that is in the table already, a read of that key up to the expiry gives the
  -- new records and a read after it gives nothing; every other key reads as before.
  pub view-set_present :
      (now ttl : ℕ) (k : K) (r : V) (c : MemoryCache K V) (e : Entry V) (t : ℕ) (j : K)
      → Table.get dec k c.table ≡ some e
      → (c' : MemoryCache K V) × (set dec now ttl k r c ≡ some c')
        × (view t j c' ≡ ite (dec k j) (if ltb (now + ttl) t then none else some r) (view t j c))
  unfolding view set move_to_front_unlocked
  view-set_present now ttl k r c e t j found = (
    _,
    set_rounds_present dec _ now ttl k r c e found,
    rw (Table.get-put dec k j (fresh dec now ttl r) c.table) (ground arith),
  )

  pub view-add :
      (now ttl : ℕ) (k : K) (r : V) (c : MemoryCache K V) (t : ℕ) (j : K)
      → view t j (add dec now ttl k r c)
        ≡ ite (dec k j) (if ltb (now + ttl) t then none else some r) (view t j c)
  unfolding view add
  view-add now ttl k r c t j =
      rw (Table.get-put dec k j (fresh dec now ttl r) c.table) (ground arith)
