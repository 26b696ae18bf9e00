-- ===== src/Models/Targets.antt =====
-- The targets of internal/models/a.go, aaaa.go, cname.go, mx.go, ns.go and ptr.go, and the reverse
-- names of ptr.go. A method returns the record that it leaves, since validateDomainName writes to it.
pub mod Accepted
use errantdns_io.Base.{
  ℕ, Bool, true, ◌||◌, ◌&&◌, not, none, some, List, [], ◌∷◌, ltb, leb, ◌==◌, if◌then◌else◌, length,
}
use errantdns_io.Base.Int.{pos, ltb_ℤ}
use errantdns_io.Base.Text.{Bytes, codes, eqb, has_suffix, trim_suffix, is_digit}
use errantdns_io.Base.Text.Split.{split}
use errantdns_io.Base.Text.Number.{atoi}
use errantdns_io.Models.DomainName.{SuffixList, validate_domain_name}
use errantdns_io.Models.Errors.{
  Check, reject, ◌>>◌, target_empty, target_not_ip, target_not_ipv4, target_not_ipv6,
  target_zero_network, target_class_e, target_unspecified, target_not_domain, target_is_ip,
  target_empty_normalized, record_name_empty, ptr_octets, ptr_octet_syntax, ptr_octet_range,
  ptr_digits, ptr_digit_length, ptr_digit_hex, ptr_suffix,
}
use errantdns_io.Models.Net.{parse_ip, to4}
use errantdns_io.Models.Record.{DnsRecord, normalize_domain_name}

-- the tests of validateARecord on the first byte of the address
pub validate_ipv4 : List ℕ → Check
validate_ipv4 [] = some target_not_ipv4
validate_ipv4 (first ∷ rest) = do
  reject (first == 0) target_zero_network
  reject (leb 240 first) target_class_e

-- validateARecord
unfoldable pub validate_a_record : DnsRecord → Check
unfolding validate_ipv4
validate_a_record r = do
  reject (eqb r.target []) target_empty
  elim (parse_ip r.target) [
    | none ↦ some target_not_ip
    | some ip ↦ elim (to4 ip) [ none ↦ some target_not_ipv4 | some ipv4 ↦ validate_ipv4 ipv4 ]
  ]

pub all_zero : List ℕ → Bool
all_zero [] = true
all_zero (b ∷ bs) = b == 0 && all_zero bs

-- validateAAAARecord; To16 of a parsed address is the address
pub validate_aaaa_record : DnsRecord → Check
unfolding all_zero
validate_aaaa_record r = do
  reject (eqb r.target []) target_empty
  elim (parse_ip r.target) [
    | none ↦ some target_not_ip
    | some ip ↦ elim (to4 ip) [
      | some _ ↦ some target_not_ipv6
      | none ↦ reject (all_zero ip) target_unspecified
    ]
  ]

-- the tests that cname.go, mx.go, ns.go and ptr.go make on a target behind validateDomainName
pub validate_host : DnsRecord → Check
validate_host r = do
  elim (parse_ip r.target) [ none ↦ none | some _ ↦ some target_is_ip ]
  reject (eqb (normalize_domain_name r.target) []) target_empty_normalized

module _ (psl : SuffixList) where
  -- The body that validateCNAMERecord, validateMXTarget, validateNSRecord and validatePTRRecord
  -- share: the error of validateDomainName is replaced.
  unfoldable pub validate_domain_target : DnsRecord → DnsRecord × Check
  validate_domain_target r =
      let (r', failed) = validate_domain_name psl r in
      if eqb r.target []
      then (r, some target_empty)
      else elim failed [ some _ ↦ (r', some target_not_domain) | none ↦ (r', validate_host r') ]

  -- validateCNAMERecord
  unfoldable pub validate_cname_record : DnsRecord → DnsRecord × Check
  validate_cname_record r = validate_domain_target r

  -- validateNSRecord
  unfoldable pub validate_ns_record : DnsRecord → DnsRecord × Check
  validate_ns_record r = validate_domain_target r

  -- validatePTRRecord
  unfoldable pub validate_ptr_record : DnsRecord → DnsRecord × Check
  validate_ptr_record r = validate_domain_target r

  -- validateMXTarget, with the special case of "." last, as in the source
  unfoldable pub validate_mx_target : DnsRecord → DnsRecord × Check
  validate_mx_target r =
      let (r', failed) = validate_domain_target r in
      elim failed [
        | some e ↦ (r', some e)
        | none ↦ if eqb r'.target (codes ".") then (r', none) else (r', none)
      ]

-- the loop over the octets of an in-addr.arpa name
pub validate_octets : List Bytes → Check
validate_octets [] = none
validate_octets (octet ∷ octets) =
    let rest = validate_octets octets in
    elim (atoi octet) [
      | none ↦ some ptr_octet_syntax
      | some val ↦ if ltb_ℤ val (pos 0) || ltb_ℤ (pos 255) val then some ptr_octet_range else rest
    ]

abbrev pub is_hex : ℕ → Bool
is_hex c = is_digit c || (leb b'a' c && leb c b'f') || (leb b'A' c && leb c b'F')

-- the body of the loop over the digits of an ip6.arpa name
validate_hex_digit : Bytes → Check
validate_hex_digit (c ∷ []) = reject (not (is_hex c)) ptr_digit_hex
validate_hex_digit digit = some ptr_digit_length

unfoldable pub validate_hex_digits : List Bytes → Check
unfolding validate_hex_digit
validate_hex_digits [] = none
validate_hex_digits (digit ∷ digits) = do validate_hex_digit digit; validate_hex_digits digits

-- validatePTRName
pub validate_ptr_name : DnsRecord → Check
validate_ptr_name r =
    let normalized = normalize_domain_name r.name in
    let octets = split b'.' (trim_suffix normalized (codes ".in-addr.arpa")) in
    let digits = split b'.' (trim_suffix normalized (codes ".ip6.arpa")) in
    if eqb r.name []
    then some record_name_empty
    else if has_suffix normalized (codes ".in-addr.arpa")
    then (do reject (not (length octets == 4)) ptr_octets; validate_octets octets)
    else if has_suffix normalized (codes ".ip6.arpa")
    then (do reject (ltb 32 (length digits)) ptr_digits; validate_hex_digits digits)
    else some ptr_suffix
