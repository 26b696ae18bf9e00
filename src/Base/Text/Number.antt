-- ===== src/Base/Text/Number.antt =====
-- strconv.ParseUint with base 10, and strconv.Atoi.
use Prim.Native.Nat.{ℕ, ◌+◌, ◌-◌, ◌*◌, ◌^◌, ◌<◌}
use mathlib.Core.Bool.{◌&&◌}
use mathlib.Core.List.{List, [], ◌∷◌}
use mathlib.Core.Option.{Option, none, some}
use mathlib.Core.Path.{◌≡◌}
use native.Mathlib.Omega.{arith}
use errantdns_io.Base.Int.{ℤ, pos, negsuc}
use errantdns_io.Base.Tests.{ltb, leb, ◌==◌, if◌then◌else◌}

abbrev Bytes : Type 0
Bytes = List ℕ

-- the number that digits spell behind `n`
unfoldable pub digits_value : ℕ → Bytes → Option ℕ
digits_value n [] = some n
digits_value n (c ∷ s) =
    let rest = digits_value (n * 10 + (c - b'0')) s in
    if leb b'0' c && leb c b'9' then rest else none

-- strconv.ParseUint(s, 10, bits); `none` is a syntax or a range error
unfoldable pub parse_uint : ℕ → Bytes → Option ℕ
parse_uint bits [] = none
parse_uint bits (c ∷ s) = elim (digits_value 0 (c ∷ s)) [
  | none ↦ none
  | some n ↦ if ltb n (2 ^ bits) then some n else none
]

abbrev negate : ℕ → ℤ
negate n = if n == 0 then pos 0 else negsuc (n - 1)

signed : (ℕ → ℤ) → ℕ → Bytes → Option ℤ
signed sign limit [] = none
signed sign limit (c ∷ s) = elim (digits_value 0 (c ∷ s)) [
  | none ↦ none
  | some n ↦ if leb n limit then some (sign n) else none
]

-- strconv.Atoi, for an `int` of 64 bits
unfoldable pub atoi : Bytes → Option ℤ
unfolding signed
atoi [] = none
atoi (c ∷ s) =
    if c == b'-'
    then signed negate (2 ^ 63) s
    else if c == b'+'
    then signed pos (2 ^ 63 - 1) s
    else signed pos (2 ^ 63 - 1) (c ∷ s)

-- A number that ParseUint returns fits in the bits that are asked for.
parse_uint-lt : (bits : ℕ) (s : Bytes) (n : ℕ) → parse_uint bits s ≡ some n → n < 2 ^ bits
unfolding parse_uint
parse_uint-lt bits [] n h = cc
parse_uint-lt bits (c ∷ s) n h = ground arith
