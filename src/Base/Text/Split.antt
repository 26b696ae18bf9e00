-- ===== src/Base/Text/Split.antt =====
-- strings.Split and strings.Join, for a separator of one byte.
use Prim.Native.Nat.{ℕ}
use mathlib.Core.Bool.{Bool, true, false}
use mathlib.Core.List.{List, [], ◌∷◌, ◌++◌}
use mathlib.Core.Path.{◌≡◌, refl}
use native.Mathlib.Omega.{arith}
use errantdns_io.Base.Tests.{◌==◌, if◌then◌else◌}

abbrev Bytes : Type 0
Bytes = List ℕ

-- puts a byte in front of the first part
unfoldable pub push : ℕ → List Bytes → List Bytes
push c [] = (c ∷ []) ∷ []
push c (p ∷ ps) = (c ∷ p) ∷ ps

unfoldable pub split : ℕ → Bytes → List Bytes
unfolding push
split sep [] = [] ∷ []
split sep (c ∷ s) = let rest = split sep s in if c == sep then [] ∷ rest else push c rest

unfoldable pub join : ℕ → List Bytes → Bytes
join sep [] = []
join sep (p ∷ []) = p
join sep (p ∷ q ∷ ps) = p ++ sep ∷ join sep (q ∷ ps)

cons_if :
    (b : Bool) (c : ℕ) {p : Bytes} {ps rest : List Bytes}
    → rest ≡ p ∷ ps
    → (q : Bytes) × (qs : List Bytes) × ((if b then [] ∷ rest else push c rest) ≡ q ∷ qs)
unfolding push
cons_if true c {rest = r} e = ([], r, refl)
cons_if false c {p} {ps} e = (c ∷ p, ps, rw e)

-- A split has at least one part.
pub split-cons : (sep : ℕ) (s : Bytes) → (p : Bytes) × (ps : List Bytes) × (split sep s ≡ p ∷ ps)
unfolding split
split-cons sep [] = ([], [], refl)
split-cons sep (c ∷ s) = let (p, ps, e) = split-cons sep s in cons_if (c == sep) c e

join-push :
    (sep c : ℕ) (p : Bytes) (ps : List Bytes) → join sep (push c (p ∷ ps)) ≡ c ∷ join sep (p ∷ ps)
unfolding join push
join-push sep c p [] = refl
join-push sep c p (q ∷ ps) = refl

join-nil :
    (sep : ℕ) (p : Bytes) (ps : List Bytes) → join sep ([] ∷ p ∷ ps) ≡ sep ∷ join sep (p ∷ ps)
unfolding join
join-nil sep p ps = refl

-- Joining the parts of a split gives the text back.
pub join-split : (sep : ℕ) (s : Bytes) → join sep (split sep s) ≡ s
unfolding split
join-split sep [] = unfold join in refl
join-split sep (c ∷ s) =
    let (p, ps, e) = split-cons sep s in
    let whole = join-split sep s in ground (arith, e, join-push sep c p ps, join-nil sep p ps)
