-- ===== src/Models/Txt.antt =====
-- internal/models/txt.go. The loop is over runes; every rune that it tests for is ASCII, so here it
-- is over bytes. They differ on invalid UTF-8 alone, which both refuse.
pub mod Strings
use errantdns_io.Base.{
  ℕ, Bool, true, false, ◌||◌, ◌&&◌, not, Option, none, some, List, [], ◌∷◌, ◌++◌, ltb, leb, ◌==◌,
  if◌then◌else◌, length,
}
use errantdns_io.Base.Text.{Bytes, eqb}
use errantdns_io.Models.Errors.{Check, reject, ◌>>◌, txt_total, txt_string, txt_unclosed, txt_utf8}
use errantdns_io.Models.Record.{DnsRecord}

abbrev is_continuation : ℕ → Bool
is_continuation c = leb 128 c && leb c 191

abbrev between : ℕ → ℕ → ℕ → Bool
between lo hi c = leb lo c && leb c hi

-- a rune of three bytes
three : ℕ → ℕ → ℕ → Bool
three a b c =
    (if a == 224
      then between 160 191 b
      else if a == 237
      then between 128 159 b
      else between 225 239 a && is_continuation b)
    && is_continuation c

-- a rune of four bytes
four : ℕ → ℕ → ℕ → ℕ → Bool
four a b c d =
    (if a == 240
      then between 144 191 b
      else if a == 244
      then between 128 143 b
      else between 241 243 a && is_continuation b)
    && is_continuation c
    && is_continuation d

-- utf8.ValidString, by the first byte of each rune
pub valid_utf8 : Bytes → Bool
valid_utf8 [] = true
valid_utf8 (a ∷ []) = ltb a 128
valid_utf8 (a ∷ b ∷ []) = (ltb a 128 && ltb b 128) || (between 194 223 a && is_continuation b)
valid_utf8 (a ∷ b ∷ c ∷ []) =
    let one = valid_utf8 (b ∷ c ∷ []) in
    if ltb a 128
    then one
    else if between 194 223 a
    then is_continuation b && ltb c 128
    else three a b c
valid_utf8 (a ∷ b ∷ c ∷ d ∷ s) =
    let one = valid_utf8 (b ∷ c ∷ d ∷ s) in
    let two = valid_utf8 (c ∷ d ∷ s) in
    let behind3 = valid_utf8 (d ∷ s) in
    let behind4 = valid_utf8 s in
    if ltb a 128
    then one
    else if between 194 223 a
    then is_continuation b && two
    else if between 224 239 a
    then three a b c && behind3
    else four a b c d && behind4

-- what the loop has read: the string that is being built, whether it stands in quotes, and the
-- strings that have ended
pub record Scan : Type 0 where
  pub current : Bytes
  pub in_quotes : Bool
  pub strings : List Bytes

-- the end of a string inside the loop, with its test of the length
abbrev end_string : Scan → Option Scan
end_string s =
    if ltb 255 (length s.current)
    then none
    else some (record { current = []; in_quotes = false; strings = s.strings ++ s.current ∷ [] })

abbrev write : ℕ → Scan → Scan
write c s = record s { current = s.current ++ c ∷ [] }

-- one round of the loop for a character that is not escaped and no backslash
pub read_character : ℕ → Scan → Option Scan
read_character c s =
    if c == b'"'
    then (if s.in_quotes then end_string s else some (record s { in_quotes = true }))
    else if not s.in_quotes && (c == b' ' || c == 9)
    then (if ltb 0 (length s.current) then end_string s else some s)
    else some (write c s)

-- the loop; the second argument is `escaped`, and `none` is its error
unfoldable pub scan_txt : Scan → Bool → Bytes → Option Scan
unfolding read_character
scan_txt s escaped [] = some s
scan_txt s true (c ∷ cs) = scan_txt (write c s) false cs
scan_txt s false (c ∷ cs) =
    let escape = scan_txt (write c s) true cs in
    if c == b'\\'
    then escape
    else elim (read_character c s) [ none ↦ none | some s' ↦ scan_txt s' false cs ]

-- what stands behind the loop
unfoldable pub finish_txt : Bytes → Scan → Check
unfolding valid_utf8 three four
finish_txt target s = do
  reject s.in_quotes txt_unclosed
  reject (ltb 255 (length s.current)) txt_string
  reject
      (length s.strings == 0
        && length s.current == 0
        && not (length target == 0)
        && ltb 255 (length target))
      txt_string
  reject (not (valid_utf8 target)) txt_utf8

-- validateTXTRecord
unfoldable pub validate_txt_record : DnsRecord → Check
validate_txt_record r = if eqb r.target [] then none else do
  reject (ltb 65535 (length r.target)) txt_total
  elim (scan_txt (record { current = []; in_quotes = false; strings = [] }) false r.target) [
    | none ↦ some txt_string
    | some s ↦ finish_txt r.target s
  ]
