-- ===== src/Models/Tests.antt =====
-- Tests of internal/models.
use errantdns_io.Base.{
  Bool-cases, inl, inr, ◌∙◌, ap, if◌then◌else◌, ◌≤◌, ◌≡◌, ◌≢◌, ◌↔◌, ◌⊎◌, refl, false, true, none,
  some, [], ◌∷◌, ◌++◌, arith, length,
}
use errantdns_io.Base.Text.{
  Bytes, codes, eqb, has_suffix, contains, eqb_iff, trim_suffix, fields, to_lower, lower_byte,
  has_prefix,
}
use errantdns_io.Base.Text.Number.{digits_value, parse_uint}
use errantdns_io.Base.Text.Split.{split}
use errantdns_io.Models.DomainName.{
  SuffixList, validate_label, validate_domain_name, validate_domain_name_other, validate_parts,
  extract_and_set_etld_info,
}
use errantdns_io.Models.DomainName.Accepted.{
  Accepts, IsSuffixList, IsHostLabel, validate_label_iff, validate_domain_name-Accepts,
}
use errantdns_io.Models.Net.{parse_ip}
use errantdns_io.Models.Record.{DnsRecord, normalize_domain_name}
use errantdns_io.Models.RecordSet.{RecordSet, highest_priority, highest_priority_lem, IsBest}
use errantdns_io.Models.Soa.{validate_soa_record, validate_soa_target}
use errantdns_io.Models.Soa.Timing.{IsTiming, validate_soa_record-IsTiming}
use errantdns_io.Models.Srv.{validate_srv_record}
use errantdns_io.Models.Srv.Rejected.{validate_srv_record-ne-none}
use errantdns_io.Models.Targets.{validate_cname_record}
use errantdns_io.Models.Targets.Accepted.{cname_target_unchecked}
use errantdns_io.Models.Txt.{Scan, scan_txt, validate_txt_record, valid_utf8}
use errantdns_io.Models.Txt.Strings.{AllShort, start, validate_txt_record-AllShort}
use errantdns_io.Models.Validate.{validate}
use errantdns_io.Models.Validate.Accepted.{IsContent, validate_iff}
use errantdns_io.Samples.{sample, a_record, suffixes, packages}

abbrev a_set : RecordSet
a_set = record { name = codes "a.io"; set_type = codes "A"; records = a_record ∷ [] }

validate_iff_example : ((validate packages a_record).1 ≡ none) ↔ (
    (a_record.name ≢ [])
    × (a_record.target ≢ [])
    × IsContent packages a_record
    × (a_record.ttl ≤ 2147483647))
validate_iff_example = validate_iff packages a_record

-- a list of suffixes with which "a.io" and "io" are the apexes of what stands in front of them
abbrev apex_io : SuffixList
apex_io = record {
  effective_tld_plus_one =
      λ name. if eqb name (codes "*.mx.a.io") then some (codes "a.io") else some name;
  public_suffix = λ name. codes "io";
}

apex_io-IsSuffixList : IsSuffixList apex_io
apex_io-IsSuffixList = record {
  behind_dot = λ name apex h. elim (Bool-cases (eqb name (codes "*.mx.a.io"))) [
    | inl same ↦ inr (
      codes "*.mx",
      (eqb_iff name (codes "*.mx.a.io")).0 same
          ∙ ap (λ z. codes "*.mx." ++ z) (ground (arith, same, h)),
    )
    | inr other ↦ inl (ground (arith, other, h))
  ];
}

validate_domain_name-Accepts_example :
    Accepts apex_io
      (codes "*.mx.a.io")
      a_record
      (validate_domain_name_other apex_io (codes "*.mx.a.io") a_record).0
unfolding validate_domain_name_other validate_parts extract_and_set_etld_info trim_suffix eqb
    errantdns_io.Models.DomainName.validate_labels split validate_label
    errantdns_io.Models.DomainName.validate_tld
    errantdns_io.Models.DomainName.detect_and_set_wildcards
    errantdns_io.Models.DomainName.scan_wildcards
    errantdns_io.Models.DomainName.extract_subdomain_labels has_suffix contains has_prefix
validate_domain_name-Accepts_example =
    validate_domain_name-Accepts apex_io (codes "*.mx.a.io") a_record apex_io-IsSuffixList refl

validate_label_iff_example :
    (validate_label (codes "mail-1") ≡ none)
    ↔ (((codes "mail-1") ≡ codes "*") ⊎ IsHostLabel (codes "mail-1"))
validate_label_iff_example = validate_label_iff (codes "mail-1")

validate_srv_record-ne-none_example :
    (validate_srv_record suffixes
      (sample (codes "_sip._tcp.a.io") (codes "SRV") (codes "sip.a.io") 60)).1
    ≢ none
validate_srv_record-ne-none_example =
    validate_srv_record-ne-none suffixes
      (sample (codes "_sip._tcp.a.io") (codes "SRV") (codes "sip.a.io") 60)

validate_soa_record-IsTiming_example :
    (contains
        (sample (codes "a.io") (codes "SOA") (codes "ns.a.io admin.a.io 1 20 10 30 5") 60).name
        (codes "*")
      ≡ false)
    × ((mname rname serial refresh retry expire minimum : Bytes) × (fields
            (sample
              (codes "a.io")
              (codes "SOA")
              (codes "ns.a.io admin.a.io 1 20 10 30 5")
              60).target
          ≡ mname ∷ rname ∷ serial ∷ refresh ∷ retry ∷ expire ∷ minimum ∷ [])
        × IsTiming serial refresh retry expire minimum
        × ((validate_domain_name suffixes
              (sample (codes "a.io") (codes "SOA") (codes "ns.a.io admin.a.io 1 20 10 30 5") 60)).1
            ≡ none))
unfolding validate_soa_record validate_soa_target contains has_prefix fields
    errantdns_io.Models.Soa.validate_soa_fields validate_domain_name validate_domain_name_other
    trim_suffix eqb extract_and_set_etld_info validate_parts
    errantdns_io.Models.DomainName.validate_labels split validate_label
    errantdns_io.Models.DomainName.validate_tld
    errantdns_io.Models.DomainName.detect_and_set_wildcards
    errantdns_io.Models.DomainName.scan_wildcards
    errantdns_io.Models.DomainName.extract_subdomain_labels errantdns_io.Models.Soa.validate_numbers
    errantdns_io.Models.Soa.validate_timing parse_uint digits_value
validate_soa_record-IsTiming_example =
    validate_soa_record-IsTiming suffixes
      (sample (codes "a.io") (codes "SOA") (codes "ns.a.io admin.a.io 1 20 10 30 5") 60) refl

validate_txt_record-AllShort_example :
    ((sample (codes "a.io") (codes "TXT") (codes "hello") 60).target ≡ [])
    ⊎ ((s : Scan) × (scan_txt start false
            (sample (codes "a.io") (codes "TXT") (codes "hello") 60).target
          ≡ some s)
        × (length (sample (codes "a.io") (codes "TXT") (codes "hello") 60).target ≤ 65535)
        × (s.in_quotes ≡ false)
        × AllShort (s.strings ++ s.current ∷ [])
        × (valid_utf8 (sample (codes "a.io") (codes "TXT") (codes "hello") 60).target ≡ true))
unfolding validate_txt_record eqb scan_txt errantdns_io.Models.Txt.finish_txt
validate_txt_record-AllShort_example =
    validate_txt_record-AllShort (sample (codes "a.io") (codes "TXT") (codes "hello") 60) refl

cname_target_unchecked_example :
    (validate_cname_record suffixes
        (record (sample (codes "www.a.io") (codes "CNAME") (codes "a.io") 60) {
          target = (codes "-bad-");
        })).1
      ≡ none
    ↔ ((validate_domain_name suffixes
          (sample (codes "www.a.io") (codes "CNAME") (codes "a.io") 60)).1
        ≡ none)
unfolding parse_ip normalize_domain_name to_lower trim_suffix eqb lower_byte has_suffix
cname_target_unchecked_example =
    cname_target_unchecked suffixes (sample (codes "www.a.io") (codes "CNAME") (codes "a.io") 60)
      (codes "-bad-") (λ e. ground (arith, e)) refl (λ e. ground (arith, e))

highest_priority_lem_example :
    (a_set.records ≡ []) × (highest_priority a_set ≡ none)
    ⊎ ((h : DnsRecord) × (highest_priority a_set ≡ some h)
        × IsBest (eqb a_set.set_type (codes "MX")) a_set.records h)
highest_priority_lem_example = highest_priority_lem a_set
