-- ===== src/Models/Targets/Accepted.antt =====
-- What the checks of targets and reverse names in internal/models accept.
use errantdns_io.Base.{
  ℕ, ◌≤◌, true, false, ◌||◌, none, some, List, [], ◌∷◌, ◌≡◌, ◌≢◌, ◌↔◌, refl, arith, length,
  Option-cases, inl, inr, ◌∙◌, ap,
}
use errantdns_io.Base.Int.{ℤ, pos, negsuc, ltb_ℤ}
use errantdns_io.Base.Text.{Bytes, codes, eqb, eqb_iff, has_suffix, trim_suffix, to_lower}
use errantdns_io.Base.Text.Split.{split}
use errantdns_io.Base.Text.Number.{atoi}
use errantdns_io.Models.DomainName.{
  SuffixList, validate_domain_name, validate_domain_name_other, validate_parts,
  extract_and_set_etld_info, detect_and_set_wildcards,
}
use errantdns_io.Models.Net.{parse_ip, to4}
use errantdns_io.Models.Record.{DnsRecord, normalize_domain_name}
use errantdns_io.Models.Targets.{
  validate_ipv4, validate_a_record, validate_aaaa_record, all_zero, validate_host,
  validate_domain_target, validate_cname_record, validate_mx_target, validate_octets,
  validate_ptr_name,
}

-- a target that is an address is not empty
target_empty_no_ip : (t : Bytes) {ip : List ℕ} → parse_ip t ≡ some ip → eqb t [] ≡ false
unfolding parse_ip
target_empty_no_ip [] h = cc
target_empty_no_ip (c ∷ t) h = refl

-- validateARecord accepts exactly the targets that net.ParseIP reads as an IPv4 address whose first
-- byte is from 1 to 239.
pub validate_a_record_iff :
    (r : DnsRecord)
    → (validate_a_record r ≡ none) ↔ (
        (ip : List ℕ) × (first : ℕ) × (rest : List ℕ) × (parse_ip r.target ≡ some ip)
        × (to4 ip ≡ some (first ∷ rest))
        × (1 ≤ first)
        × (first ≤ 239))
unfolding validate_a_record validate_ipv4
validate_a_record_iff r = (
  λ h. ground arith,
  λ (ip, first, rest, p, q, lo, hi). let e = target_empty_no_ip r.target p in ground arith,
)

-- validateAAAARecord accepts exactly the targets that net.ParseIP reads as an address that is no IPv4
-- address and not all zero.
pub validate_aaaa_record_iff :
    (r : DnsRecord)
    → (validate_aaaa_record r ≡ none)
      ↔ ((ip : List ℕ) × (parse_ip r.target ≡ some ip) × (to4 ip ≡ none) × (all_zero ip ≡ false))
unfolding validate_aaaa_record
validate_aaaa_record_iff r =
    (λ h. ground arith, λ (ip, p, q, z). let e = target_empty_no_ip r.target p in ground arith)

module _ (psl : SuffixList) where
  -- The verdict of validateDomainName does not depend on the target, which it leaves alone.
  domain_name_target :
      (r : DnsRecord) (t : Bytes)
      → ((validate_domain_name psl (record r { target = t })).1 ≡ (validate_domain_name psl r).1)
        × ((validate_domain_name psl (record r { target = t })).0.target ≡ t)
  unfolding validate_domain_name validate_domain_name_other validate_parts extract_and_set_etld_info
      detect_and_set_wildcards
  domain_name_target r t = (ground arith, ground arith)

  -- What validateCNAMERecord asks of a target: with any text that is not empty, no address and not
  -- the single dot it accepts the record exactly if validateDomainName accepts the record's own name.
  pub cname_target_unchecked :
      (r : DnsRecord) (t : Bytes)
      → t ≢ []
      → parse_ip t ≡ none
      → normalize_domain_name t ≢ []
      → (validate_cname_record psl (record r { target = t })).1 ≡ none
        ↔ ((validate_domain_name psl r).1 ≡ none)
  unfolding validate_cname_record validate_domain_target validate_host
  cname_target_unchecked r t h p n =
      let (verdict, kept) = domain_name_target r t in
      let f = eqb_iff t [] in
      let g = eqb_iff (normalize_domain_name t) [] in (λ k. ground arith, λ k. ground arith)

  domain_name_target_kept : (r : DnsRecord) → (validate_domain_name psl r).0.target ≡ r.target
  unfolding validate_domain_name validate_domain_name_other validate_parts extract_and_set_etld_info
      detect_and_set_wildcards
  domain_name_target_kept r = ground arith

  dot_is_empty : (t : Bytes) → t ≡ codes "." → eqb (normalize_domain_name t) [] ≡ true
  unfolding normalize_domain_name trim_suffix to_lower eqb
  dot_is_empty t e = rw e

  -- validateMXTarget refuses the null MX target "." of RFC 7505, whatever the name of the record.
  null_mx_refused : (r : DnsRecord) → r.target ≡ codes "." → (validate_mx_target psl r).1 ≢ none
  unfolding validate_mx_target validate_domain_target validate_host
  null_mx_refused r e h =
      let empty =
        dot_is_empty (validate_domain_name psl r).0.target (domain_name_target_kept r ∙ e) in
      ground arith

-- An octet list that is accepted: each is a decimal number from 0 to 255.
abbrev pub AllOctets : List Bytes → Type 0
AllOctets [] = Unit
AllOctets (o ∷ os) = ((n : ℕ) × (atoi o ≡ some (pos n)) × (n ≤ 255)) × AllOctets os

octet_range :
    (val : ℤ)
    → ltb_ℤ val (pos 0) || ltb_ℤ (pos 255) val ≡ false
    → (n : ℕ) × (val ≡ pos n) × (n ≤ 255)
octet_range (pos n) h = (n, refl, ground arith)
octet_range (negsuc n) h = cc

validate_octets-AllOctets : (os : List Bytes) → validate_octets os ≡ none → AllOctets os
unfolding validate_octets
validate_octets-AllOctets [] h = tt
validate_octets-AllOctets (o ∷ os) h = elim (Option-cases (atoi o)) [
  | inl bad ↦ absurd (ground arith)
  | inr (val, read) ↦
      let (n, e, fits) = octet_range val (ground arith) in
      ((n, read ∙ ap some e, fits), validate_octets-AllOctets os (ground arith))
]

-- A reverse name under in-addr.arpa that validatePTRName accepts has exactly four labels in front of
-- the suffix, each a decimal number from 0 to 255.
validate_ptr_name-in_addr :
    (r : DnsRecord)
    → has_suffix (normalize_domain_name r.name) (codes ".in-addr.arpa") ≡ true
    → validate_ptr_name r ≡ none
    → (length (split b'.' (trim_suffix (normalize_domain_name r.name) (codes ".in-addr.arpa"))) ≡ 4)
      × AllOctets (split b'.' (trim_suffix (normalize_domain_name r.name) (codes ".in-addr.arpa")))
unfolding validate_ptr_name
validate_ptr_name-in_addr r suffix h =
    let os = split b'.' (trim_suffix (normalize_domain_name r.name) (codes ".in-addr.arpa")) in
    (ground arith, validate_octets-AllOctets os (ground arith))
