-- ===== src/Base/Table.antt =====
-- Go's `map` as an association list: `get` is `m[k]` with its `ok`, `put` is `m[k] = v`, and
-- `delete` is `delete(m, k)`. The keys of a table built by these are distinct.
use Prim.Native.Nat.{suc, ◌≤◌, ◌<◌}
use mathlib.Core.Path.{◌≡◌, refl, ap, subst}
use mathlib.Core.Logic.{◌≢◌, ite, if_pos, if_neg}
use mathlib.Core.List.{List, [], ◌∷◌, ◌++◌}
use mathlib.Core.Option.{Option, none, some}
use native.Mathlib.Omega.{arith}
use errantdns_io.Base.Lists.{length, count, remove_first}

abbrev pub Table {ℓ} : Type ℓ → Type ℓ → Type ℓ
Table K V = List (K × V)

module _ {ℓ} {K V : Type ℓ} where
  abbrev pub keys : Table K V → List K
  keys [] = []
  keys ((j, v) ∷ t) = j ∷ keys t

  pub length-keys : (t : Table K V) → length (keys t) ≡ length t
  length-keys [] = refl
  length-keys ((j, v) ∷ t) = ap suc (length-keys t)

module _ {K V : Type 0} (dec : Discrete K) where
  unfoldable pub get : K → Table K V → Option V
  get k [] = none
  get k ((j, v) ∷ t) = ite (dec j k) (some v) (get k t)

  unfoldable pub put : K → V → Table K V → Table K V
  put k v [] = (k, v) ∷ []
  put k v ((j, w) ∷ t) = ite (dec j k) ((j, v) ∷ t) ((j, w) ∷ put k v t)

  unfoldable pub delete : K → Table K V → Table K V
  delete k [] = []
  delete k ((j, v) ∷ t) = ite (dec j k) t ((j, v) ∷ delete k t)

  pub get-put_self : (k : K) (v : V) (t : Table K V) → get k (put k v t) ≡ some v
  unfolding get put
  get-put_self k v [] = ground arith
  get-put_self k v ((j, w) ∷ t) = ground (arith, get-put_self k v t)

  get-put_ne : (k q : K) (v : V) (t : Table K V) → k ≢ q → get q (put k v t) ≡ get q t
  unfolding get put
  get-put_ne k q v [] h = ground arith
  get-put_ne k q v ((j, w) ∷ t) h = ground (arith, get-put_ne k q v t)

  get-delete_ne : (k q : K) (t : Table K V) → k ≢ q → get q (delete k t) ≡ get q t
  unfolding get delete
  get-delete_ne k q [] h = refl
  get-delete_ne k q ((j, w) ∷ t) h = ground (arith, get-delete_ne k q t)

  pub keys-delete : (k : K) (t : Table K V) → keys (delete k t) ≡ remove_first dec k (keys t)
  unfolding delete remove_first
  keys-delete k [] = refl
  keys-delete k ((j, w) ∷ t) = ground (arith, keys-delete k t)

  get_absent : (k : K) (t : Table K V) → count dec k (keys t) ≡ 0 → get k t ≡ none
  unfolding get count
  get_absent k [] h = refl
  get_absent k ((j, w) ∷ t) h = ground (arith, get_absent k t)

  pub get_present : (k : K) (t : Table K V) {v : V} → get k t ≡ some v → 0 < count dec k (keys t)
  unfolding get count
  get_present k [] h = cc
  get_present k ((j, w) ∷ t) {v} h = ground (arith, get_present k t {v = v})

  pub get_missing : (k : K) (t : Table K V) → get k t ≡ none → count dec k (keys t) ≡ 0
  unfolding get count
  get_missing k [] h = refl
  get_missing k ((j, w) ∷ t) h = ground (arith, get_missing k t)

  pub keys-put_present :
      (k : K) (v : V) (t : Table K V) → 0 < count dec k (keys t) → keys (put k v t) ≡ keys t
  unfolding put count
  keys-put_present k v [] h = elim h [ ]
  keys-put_present k v ((j, w) ∷ t) h = ground (arith, keys-put_present k v t)

  pub keys-put_absent :
      (k : K) (v : V) (t : Table K V)
      → count dec k (keys t) ≡ 0
      → keys (put k v t) ≡ keys t ++ k ∷ []
  unfolding put count
  keys-put_absent k v [] h = refl
  keys-put_absent k v ((j, w) ∷ t) h = ground (arith, keys-put_absent k v t)

  pub length-delete-le : (k : K) (t : Table K V) → length (delete k t) ≤ length t
  unfolding delete
  length-delete-le k [] = omega arith
  length-delete-le k ((j, w) ∷ t) = ground (arith, length-delete-le k t)

  get-delete_self : (k : K) (t : Table K V) → count dec k (keys t) ≤ 1 → get k (delete k t) ≡ none
  unfolding get delete count
  get-delete_self k [] h = refl
  get-delete_self k ((j, w) ∷ t) h = ground (arith, get-delete_self k t, get_absent k t)

  pub get-put :
      (k q : K) (v : V) (t : Table K V) → get q (put k v t) ≡ ite (dec k q) (some v) (get q t)
  unfolding get put
  get-put k q v [] = ground arith
  get-put k q v ((j, w) ∷ t) = ground (arith, get-put k q v t)

  pub get-delete :
      (k q : K) (t : Table K V)
      → count dec k (keys t) ≤ 1
      → get q (delete k t) ≡ ite (dec k q) none (get q t)
  get-delete k q t h = elim (dec k q) [
    | yes p ↦ rw (if_pos _ p) (subst (λ z. get z (delete k t) ≡ none) p (get-delete_self k t h))
    | no p ↦ rw (if_neg _ p) (get-delete_ne k q t p)
  ]
