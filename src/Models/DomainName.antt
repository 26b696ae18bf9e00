-- ===== src/Models/DomainName.antt =====
-- internal/models/domain-name.go. The public suffix list is golang.org/x/net/publicsuffix: the two
-- functions of it that are called are a parameter.
pub mod Parts
pub mod Accepted
use mathlib.Core.Bool.{◌&&◌}
use Prim.Native.Nat.{bit_or}
use errantdns_io.Base.{
  ℕ, suc, ◌-◌, ◌^◌, ◌%◌, Bool, true, false, ◌||◌, not, Option, none, some, List, [], ◌∷◌, ◌++◌, ltb,
  ◌==◌, if◌then◌else◌, length, take,
}
use errantdns_io.Base.Text.{
  Bytes, codes, eqb, has_suffix, trim_suffix, contains, is_letter, is_digit,
}
use errantdns_io.Base.Text.Split.{split}
use errantdns_io.Models.Errors.{
  Check, reject, ◌>>◌, name_length, name_empty, etld_failed, suffix_missing, partial_wildcard,
  label_length, label_hyphen, label_character, tld_short, tld_numeric, tld_letter,
}
use errantdns_io.Models.Record.{DnsRecord}

-- publicsuffix.EffectiveTLDPlusOne (`none` is its error) and publicsuffix.PublicSuffix
pub record SuffixList : Type 0 where
  pub effective_tld_plus_one : Bytes → Option Bytes
  pub public_suffix : Bytes → Bytes

abbrev pub label_byte : ℕ → Bool
label_byte c = is_letter c || is_digit c || c == b'-'

unfoldable pub all_bytes : (ℕ → Bool) → Bytes → Bool
all_bytes test [] = true
all_bytes test (c ∷ s) = test c && all_bytes test s

abbrev pub starts_with_byte : ℕ → Bytes → Bool
starts_with_byte b [] = false
starts_with_byte b (c ∷ s) = c == b

pub ends_with_byte : ℕ → Bytes → Bool
ends_with_byte b [] = false
ends_with_byte b (c ∷ []) = c == b
ends_with_byte b (c ∷ d ∷ s) = ends_with_byte b (d ∷ s)

-- validateLabel; a rune outside ASCII has only bytes from 128 on, which fail the same test
unfoldable pub validate_label : Bytes → Check
unfolding eqb all_bytes ends_with_byte
validate_label label = if eqb label (codes "*") then none else do
  reject (length label == 0 || ltb 63 (length label)) label_length
  reject (starts_with_byte b'-' label || ends_with_byte b'-' label) label_hyphen
  reject (not (all_bytes label_byte label)) label_character

-- validateTLD
unfoldable pub validate_tld : Bytes → Check
unfolding all_bytes
validate_tld [] = some tld_short
validate_tld (first ∷ rest) = do
  reject (ltb (length (first ∷ rest)) 2) tld_short
  reject (all_bytes is_digit (first ∷ rest)) tld_numeric
  reject (not (is_letter first)) tld_letter

-- the loop over the labels; `several` is `len(labels) > 1`
unfoldable pub validate_labels : Bool → List Bytes → Check
validate_labels several [] = none
validate_labels several (label ∷ []) = do
  validate_label label
  if several then validate_tld label else none
validate_labels several (label ∷ next ∷ labels) = do
  validate_label label
  validate_labels several (next ∷ labels)

abbrev dot : Bytes
dot = codes "."

-- extractSubdomainLabels
unfoldable pub extract_subdomain_labels : Bytes → Bytes → List Bytes
extract_subdomain_labels full_domain apex_domain =
    let labels = split b'.' full_domain in
    let apex_labels = split b'.' apex_domain in
    let portion = trim_suffix full_domain (dot ++ apex_domain) in
    let prefix = trim_suffix (trim_suffix full_domain apex_domain) dot in
    if eqb full_domain apex_domain
    then []
    else if has_suffix full_domain (dot ++ apex_domain)
    then (if eqb portion [] then [] else split b'.' portion)
    else if has_suffix full_domain apex_domain
    then (if eqb prefix [] then [] else split b'.' prefix)
    else if ltb (length apex_labels) (length labels)
    then take (length labels - length apex_labels) labels
    else []

-- `1 << uint(i)` in a uint64
abbrev pub bit64 : ℕ → ℕ
bit64 i = 2 ^ i % 2 ^ 64

-- the loop of detectAndSetWildcards, from position `i` with what it has found so far
unfoldable pub scan_wildcards : ℕ → Bool → ℕ → List Bytes → Option (Bool × ℕ)
scan_wildcards i has mask [] = some (has, mask)
scan_wildcards i has mask (label ∷ labels) =
    let star = eqb label (codes "*") in
    let rest =
      scan_wildcards (suc i) (if star then true else has)
        (if star then bit_or mask (bit64 i) else mask) labels in
    if star then rest else if contains label (codes "*") then none else rest

-- detectAndSetWildcards
unfoldable pub detect_and_set_wildcards : DnsRecord → DnsRecord × Check
detect_and_set_wildcards r = elim (scan_wildcards 0 false 0 r.subdomain_labels) [
  | none ↦ (r, some partial_wildcard)
  | some found ↦ (record r { is_wildcard = found.0; wildcard_mask = found.1 }, none)
]

module _ (psl : SuffixList) where
  -- extractAndSetETLDInfo
  unfoldable pub extract_and_set_etld_info : Bytes → DnsRecord → DnsRecord × Check
  extract_and_set_etld_info domain r = elim (psl.effective_tld_plus_one domain) [
    | none ↦ (r, some etld_failed)
    | some etld_plus_one ↦
        let etld = psl.public_suffix domain in
        if eqb etld [] then (r, some suffix_missing) else (
          record r {
            etld = etld;
            apex_domain = etld_plus_one;
            subdomain_labels = extract_subdomain_labels domain etld_plus_one;
          },
          none,
        )
  ]

  -- the validation of the labels and the wildcards, behind the extraction
  unfoldable pub validate_parts : Bytes → DnsRecord → DnsRecord × Check
  validate_parts domain r =
      let labels = split b'.' domain in
      elim (validate_labels (ltb 1 (length labels)) labels) [
        | some e ↦ (r, some e)
        | none ↦ detect_and_set_wildcards r
      ]

  -- validateDomainNameOther
  unfoldable pub validate_domain_name_other : Bytes → DnsRecord → DnsRecord × Check
  validate_domain_name_other name r =
      let domain = trim_suffix name dot in
      let (r', failed) = extract_and_set_etld_info domain r in
      if length name == 0 || ltb 253 (length name)
      then (r, some name_length)
      else if length domain == 0
      then (r, some name_empty)
      else elim failed [ some e ↦ (r', some e) | none ↦ validate_parts domain r' ]

  -- validateDomainName, which reads r.Name
  unfoldable pub validate_domain_name : DnsRecord → DnsRecord × Check
  validate_domain_name r = validate_domain_name_other r.name r
