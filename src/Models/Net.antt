-- ===== src/Models/Net.antt =====
-- net.ParseIP, IP.To4 and IP.String of Go's standard library, which internal/models and
-- internal/dns call. An address is its 16 bytes.
use errantdns_io.Base.{
  ℕ, zero, suc, ◌+◌, ◌-◌, ◌*◌, ◌/◌, ◌%◌, Bool, true, false, ◌&&◌, ◌||◌, not, Option, none, some,
  List, [], ◌∷◌, ◌++◌, leb, ltb, ◌==◌, if◌then◌else◌, length, take, drop, replicate, ◌≡◌, refl,
}
use errantdns_io.Base.Text.{Bytes, codes, is_digit, eqb}
use errantdns_io.Base.Text.Split.{split, join}
use errantdns_io.Base.Text.Number.{digits_value}

-- one field of a dotted quad: one to three digits with no leading zero, at most 255
octet : Bytes → Option ℕ
unfolding digits_value
octet [] = none
octet (c ∷ []) = digits_value 0 (c ∷ [])
octet (c ∷ d ∷ s) = if c == b'0' then none else elim (digits_value 0 (c ∷ d ∷ s)) [
  | none ↦ none
  | some n ↦ if leb n 255 then some n else none
]

octets : List Bytes → Option (List ℕ)
octets [] = some []
octets (p ∷ ps) = elim (octet p) [
  | none ↦ none
  | some n ↦ elim (octets ps) [ none ↦ none | some ns ↦ some (n ∷ ns) ]
]

parse_ipv4 : Bytes → Option (List ℕ)
unfolding octets octet split
parse_ipv4 s = if length (split b'.' s) == 4 then octets (split b'.' s) else none

hex_digit : ℕ → Option ℕ
hex_digit c =
    if is_digit c
    then some (c - b'0')
    else if leb b'a' c && leb c b'f'
    then some (c - b'a' + 10)
    else if leb b'A' c && leb c b'F'
    then some (c - b'A' + 10)
    else none

-- the leading hexadecimal digits of a text, and what stands behind them
hex_run : Bytes → List ℕ × Bytes
hex_run [] = ([], [])
hex_run (c ∷ s) =
    let (ds, rest) = hex_run s in
    elim (hex_digit c) [ none ↦ ([], c ∷ s) | some d ↦ (d ∷ ds, rest) ]

hex_value : ℕ → List ℕ → ℕ
hex_value acc [] = acc
hex_value acc (d ∷ ds) = hex_value (acc * 16 + d) ds

abbrev Groups : Type 0
Groups = List ℕ × Option ℕ × Bytes

abbrev is_some : Option ℕ → Bool
is_some none = false
is_some (some k) = true

-- the loop of netip's parseIPv6: the bytes so far, the place of the ellipsis and the unread text
groups : ℕ → List ℕ → Option ℕ → Bytes → Option Groups
groups zero acc ellipsis s = none
groups (suc n) acc ellipsis s =
    let (ds, rest) = hex_run s in
    let next = acc ++ hex_value 0 ds / 256 ∷ hex_value 0 ds % 256 ∷ [] in
    let go = groups n in
    if leb 16 (length acc)
    then some (acc, ellipsis, s)
    else if length ds == 0 || ltb 4 (length ds)
    then none
    else elim rest [
      | [] ↦ some (next, ellipsis, [])
      | c ∷ more ↦
          if c == b'.'
          then (if (not (is_some ellipsis) && not (length acc == 12)) || ltb 12 (length acc)
              then none
              else elim (parse_ipv4 s) [ none ↦ none | some v ↦ some (acc ++ v, ellipsis, []) ])
          else if not (c == b':')
          then none
          else elim more [
            | [] ↦ none
            | d ∷ rest' ↦
                if not (d == b':')
                then go next ellipsis (d ∷ rest')
                else if is_some ellipsis
                then none
                else elim rest' [
                  | [] ↦ some (next, some (length next), [])
                  | x ∷ xs ↦ go next (some (length next)) (x ∷ xs)
                ]
          ]
    ]

-- the end of parseIPv6: the ellipsis stands for at least one group of zeros
expand : Option Groups → Option (List ℕ)
expand none = none
expand (some (acc, ellipsis, x ∷ s)) = none
expand (some (acc, none, [])) = if length acc == 16 then some acc else none
expand (some (acc, some k, [])) =
    if ltb (length acc) 16
    then some (take k acc ++ replicate (16 - length acc) 0 ++ drop k acc)
    else none

-- eight groups, and one round more to see the end
parse_ipv6 : Bytes → Option (List ℕ)
unfolding groups hex_run hex_digit hex_value expand
parse_ipv6 s =
    if eqb (take 2 s) (codes "::")
    then (if length s == 2 then some (replicate 16 0) else expand (groups 9 [] (some 0) (drop 2 s)))
    else expand (groups 9 [] none s)

-- the bytes of an IPv4 address in its 16-byte form
abbrev pub mapped : List ℕ → List ℕ
mapped v = replicate 10 0 ++ 255 ∷ 255 ∷ v

has_byte : ℕ → Bytes → Bool
has_byte b [] = false
has_byte b (c ∷ s) = c == b || has_byte b s

abbrev ipv6_no_zone : Bytes → Bytes → Option (List ℕ)
ipv6_no_zone whole s = if has_byte b'%' whole then none else parse_ipv6 s

-- the first of '.', ':' and '%' decides
dispatch : Bytes → Bytes → Option (List ℕ)
dispatch whole [] = none
dispatch whole (c ∷ s) =
    let rest = dispatch whole s in
    if c == b'.'
    then elim (parse_ipv4 whole) [ none ↦ none | some v ↦ some (mapped v) ]
    else if c == b':'
    then ipv6_no_zone whole whole
    else if c == b'%'
    then none
    else rest

-- net.ParseIP
unfoldable pub parse_ip : Bytes → Option (List ℕ)
unfolding dispatch has_byte parse_ipv4 parse_ipv6 eqb
parse_ip s = dispatch s s

-- IP.To4
unfoldable pub to4 : List ℕ → Option (List ℕ)
to4 ip = if eqb (take 12 ip) (mapped []) then some (drop 12 ip) else none

digit_char : ℕ → ℕ
digit_char d = if ltb d 10 then b'0' + d else b'a' + (d - 10)

-- a number below `base ^ fuel` in the digits of the base
unfoldable pub numeral : ℕ → ℕ → ℕ → Bytes
unfolding digit_char
numeral zero base n = []
numeral (suc fuel) base n =
    let rest = numeral fuel base (n / base) in
    if ltb n base then digit_char n ∷ [] else rest ++ digit_char (n % base) ∷ []

map_numeral : ℕ → ℕ → List ℕ → List Bytes
map_numeral fuel base [] = []
map_numeral fuel base (n ∷ ns) = numeral fuel base n ∷ map_numeral fuel base ns

pairs : List ℕ → List ℕ
pairs [] = []
pairs (x ∷ []) = []
pairs (x ∷ y ∷ xs) = (x * 256 + y) ∷ pairs xs

zeros : List ℕ → ℕ
zeros [] = 0
zeros (n ∷ ns) = if n == 0 then suc (zeros ns) else 0

-- the first longest run of at least two zero groups: where it begins, and its length
longest : ℕ → List ℕ → ℕ → ℕ → ℕ × ℕ
longest i [] start len = (start, len)
longest i (n ∷ ns) start len =
    let l = zeros (n ∷ ns) in
    let better = leb 2 l && ltb len l in
    longest (suc i) ns (if better then i else start) (if better then l else len)

ipv6_string : List ℕ → Bytes
ipv6_string gs =
    let (start, len) = longest 0 gs 0 0 in
    if len == 0
    then join b':' (map_numeral 4 16 gs)
    else join b':' (map_numeral 4 16 (take start gs))
      ++ codes "::"
      ++ join b':' (map_numeral 4 16 (drop (start + len) gs))

-- IP.String
pub ip_string : List ℕ → Bytes
unfolding eqb to4 ipv6_string pairs zeros longest map_numeral numeral join
ip_string ip = elim (to4 ip) [
  | some v ↦ join b'.' (map_numeral 3 10 v)
  | none ↦ ipv6_string (pairs ip)
]

-- parsed and printed again
abbrev canonical : Bytes → Option Bytes
canonical s = elim (parse_ip s) [ none ↦ none | some ip ↦ some (ip_string ip) ]

canonical_tests :
    (canonical (codes "2001:DB8:0:0:0:0:0:1") ≡ some (codes "2001:db8::1"))
    × (canonical (codes "::") ≡ some (codes "::"))
    × (canonical (codes "1::") ≡ some (codes "1::"))
    × (canonical (codes "::ffff:10.0.0.1") ≡ some (codes "10.0.0.1"))
    × (canonical (codes "192.168.1.10") ≡ some (codes "192.168.1.10"))
    × (canonical (codes "192.168.01.10") ≡ none)
    × (canonical (codes "1.2.3") ≡ none)
    × (canonical (codes "1:2:3:4:5:6:7:8:9") ≡ none)
    × (canonical (codes "fe80::1%eth0") ≡ none)
    × (canonical (codes "1:0:0:2:0:0:0:3") ≡ some (codes "1:0:0:2::3"))
unfolding parse_ip ip_string eqb
canonical_tests = (refl, refl, refl, refl, refl, refl, refl, refl, refl, refl)
