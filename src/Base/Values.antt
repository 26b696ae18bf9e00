-- ===== src/Base/Values.antt =====
-- The values of a table, counted: what `put` and `delete` do to how often a number is a value.
use Prim.Native.Nat.{ℕ, ◌+◌, ◌≤◌, ◌<◌}
use mathlib.Core.Path.{◌≡◌}
use mathlib.Core.List.{List, [], ◌∷◌}
use mathlib.Core.Option.{none, some}
use native.Mathlib.Omega.{arith}
use errantdns_io.Base.Table
use errantdns_io.Base.Table.{Table}
use errantdns_io.Base.Tests.{if◌then◌else◌, ◌==◌}

abbrev pub values {ℓ} : {K V : Type ℓ} → Table K V → List V
values [] = []
values ((k, v) ∷ t) = v ∷ values t

-- how many keys have the value
unfoldable pub times : {K : Type 0} → ℕ → Table K ℕ → ℕ
times n [] = 0
times n ((k, v) ∷ t) = (if n == v then 1 else 0) + times n t

module _ {K : Type 0} (dec : Discrete K) where
  pub times-put-le :
      (n : ℕ) (k : K) (v : ℕ) (t : Table K ℕ)
      → times n (Table.put dec k v t) ≤ times n t + (if n == v then 1 else 0)
  unfolding times Table.put
  times-put-le n k v [] = omega arith
  times-put-le n k v ((j, w) ∷ t) = ground (arith, times-put-le n k v t)

  pub times-delete :
      (n : ℕ) (k : K) (v : ℕ) (t : Table K ℕ)
      → Table.get dec k t ≡ some v
      → times n t ≡ times n (Table.delete dec k t) + (if n == v then 1 else 0)
  unfolding times Table.get Table.delete
  times-delete n k v [] h = cc
  times-delete n k v ((j, w) ∷ t) h = ground (arith, times-delete n k v t)

  pub get-times : (k : K) (v : ℕ) (t : Table K ℕ) → Table.get dec k t ≡ some v → 0 < times v t
  unfolding times Table.get
  get-times k v [] h = cc
  get-times k v ((j, w) ∷ t) h = ground (arith, get-times k v t)

  pub times-put_absent :
      (n : ℕ) (k : K) (v : ℕ) (t : Table K ℕ)
      → Table.get dec k t ≡ none
      → times n (Table.put dec k v t) ≡ times n t + (if n == v then 1 else 0)
  unfolding times Table.get Table.put
  times-put_absent n k v [] h = omega arith
  times-put_absent n k v ((j, w) ∷ t) h = ground (arith, times-put_absent n k v t)
