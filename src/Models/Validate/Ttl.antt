-- ===== src/Models/Validate/Ttl.antt =====
-- internal/models: no check of a record changes its TTL.
use errantdns_io.Base.{◌≡◌, refl, arith, List, [], ◌∷◌, Option-cases, inl, inr}
use errantdns_io.Base.Text.{Bytes, fields, to_lower, trim_space}
use errantdns_io.Models.Caa.{
  Packages, Tag, tag_of, validate_caa_issue_value, validate_caa_https, validate_caa_iodef_value,
  validate_caa_value, validate_caa_record,
}
use errantdns_io.Models.DomainName.{
  SuffixList, validate_domain_name, validate_domain_name_other, validate_parts,
  extract_and_set_etld_info, detect_and_set_wildcards,
}
use errantdns_io.Models.Record.{DnsRecord}
use errantdns_io.Models.Soa.{
  by_fields, validate_soa_fields, validate_soa_target, validate_soa_record,
}
use errantdns_io.Models.Targets.{
  validate_domain_target, validate_cname_record, validate_mx_target, validate_ns_record,
  validate_ptr_record,
}

module _ (psl : SuffixList) where
  other_ttl : (name : Bytes) (r : DnsRecord) → (validate_domain_name_other psl name r).0.ttl ≡ r.ttl
  unfolding validate_domain_name_other validate_parts extract_and_set_etld_info
      detect_and_set_wildcards
  other_ttl name r = ground arith

  name_ttl : (r : DnsRecord) → (validate_domain_name psl r).0.ttl ≡ r.ttl
  unfolding validate_domain_name
  name_ttl r = other_ttl r.name r

  pub cname_ttl : (r : DnsRecord) → (validate_cname_record psl r).0.ttl ≡ r.ttl
  unfolding validate_cname_record validate_domain_target
  cname_ttl r = ground (arith, name_ttl r)

  pub mx_ttl : (r : DnsRecord) → (validate_mx_target psl r).0.ttl ≡ r.ttl
  unfolding validate_mx_target validate_domain_target
  mx_ttl r = ground (arith, name_ttl r)

  pub ns_ttl : (r : DnsRecord) → (validate_ns_record psl r).0.ttl ≡ r.ttl
  unfolding validate_ns_record validate_domain_target
  ns_ttl r = ground (arith, name_ttl r)

  pub ptr_ttl : (r : DnsRecord) → (validate_ptr_record psl r).0.ttl ≡ r.ttl
  unfolding validate_ptr_record validate_domain_target
  ptr_ttl r = ground (arith, name_ttl r)

  soa_fields_ttl :
      (a b c d e : Bytes) (r : DnsRecord) → (validate_soa_fields psl a b c d e r).0.ttl ≡ r.ttl
  unfolding validate_soa_fields
  soa_fields_ttl a b c d e r = ground (arith, name_ttl r, name_ttl (validate_domain_name psl r).0)

  by_fields_ttl : (words : List Bytes) (r : DnsRecord) → (by_fields psl words r).0.ttl ≡ r.ttl
  unfolding by_fields
  by_fields_ttl (mname ∷ rname ∷ serial ∷ refresh ∷ retry ∷ expire ∷ minimum ∷ []) r =
      soa_fields_ttl serial refresh retry expire minimum r
  by_fields_ttl words r = refl

  pub soa_ttl : (r : DnsRecord) → (validate_soa_record psl r).0.ttl ≡ r.ttl
  unfolding validate_soa_record validate_soa_target
  soa_ttl r = ground (arith, by_fields_ttl (fields r.target) r)

module _ (pkg : Packages) where
  issue_ttl : (r : DnsRecord) → (validate_caa_issue_value pkg r).0.ttl ≡ r.ttl
  unfolding validate_caa_issue_value
  issue_ttl r = ground (arith, other_ttl pkg.suffix_list (trim_space r.target) r)

  https_ttl : (url : Bytes) (r : DnsRecord) → (validate_caa_https pkg url r).0.ttl ≡ r.ttl
  unfolding validate_caa_https
  https_ttl url r = elim (Option-cases (pkg.parse_url url)) [
    | inl bad ↦ ground (arith, bad)
    | inr (u, read) ↦ ground (arith, read, other_ttl pkg.suffix_list u.host r)
  ]

  value_ttl : (t : Tag) (r : DnsRecord) → (validate_caa_value pkg t r).0.ttl ≡ r.ttl
  unfolding validate_caa_value validate_caa_iodef_value
  value_ttl Tag.issue r = issue_ttl r
  value_ttl Tag.issuewild r = issue_ttl r
  value_ttl Tag.iodef r = ground (arith, https_ttl (trim_space r.target) r)
  value_ttl Tag.unknown r = refl

  pub caa_ttl : (r : DnsRecord) → (validate_caa_record pkg r).0.ttl ≡ r.ttl
  unfolding validate_caa_record
  caa_ttl r = ground (arith, value_ttl (tag_of (to_lower (trim_space r.tag))) r)
