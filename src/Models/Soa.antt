-- ===== src/Models/Soa.antt =====
-- internal/models/soa.go
pub mod Timing
use errantdns_io.Base.{ℕ, none, some, List, [], ◌∷◌, ltb, leb, ◌==◌, if◌then◌else◌}
use errantdns_io.Base.Text.{Bytes, codes, contains, fields}
use errantdns_io.Base.Text.Number.{parse_uint}
use errantdns_io.Models.DomainName.{SuffixList, validate_domain_name}
use errantdns_io.Models.Errors.{
  ValidationError, Check, reject, ◌>>◌, soa_wildcard, soa_fields, soa_mname, soa_rname, soa_serial,
  soa_refresh, soa_refresh_zero, soa_retry, soa_retry_zero, soa_expire, soa_expire_zero,
  soa_minimum, soa_retry_refresh, soa_expire_refresh, soa_retry_expire, soa_minimum_refresh,
}
use errantdns_io.Models.Record.{DnsRecord}

-- `v, err := strconv.ParseUint(s, 10, 32)` with its error, and the code behind it
abbrev pub with_u32 : Bytes → ValidationError → (ℕ → Check) → Check
with_u32 s e k = elim (parse_uint 32 s) [ none ↦ some e | some n ↦ k n ]

-- the cross-field tests
unfoldable pub validate_timing : (refresh retry expire minimum : ℕ) → Check
validate_timing refresh retry expire minimum = do
  reject (leb refresh retry) soa_retry_refresh
  reject (leb expire refresh) soa_expire_refresh
  reject (leb expire retry) soa_retry_expire
  reject (ltb refresh minimum) soa_minimum_refresh

-- the numbers of the target, in the order in which they are read
unfoldable pub validate_numbers : (serial refresh retry expire minimum : Bytes) → Check
validate_numbers serial refresh_str retry_str expire_str minimum_str =
    with_u32 serial soa_serial (λ _. with_u32 refresh_str soa_refresh (λ refresh. do
      reject (refresh == 0) soa_refresh_zero
      with_u32 retry_str soa_retry (λ retry. do
        reject (retry == 0) soa_retry_zero
        with_u32 expire_str soa_expire (λ expire. do
          reject (expire == 0) soa_expire_zero
          with_u32 minimum_str soa_minimum
              (λ minimum. validate_timing refresh retry expire minimum)))))

module _ (psl : SuffixList) where
  -- validateSOATarget behind the count of the fields: MNAME and RNAME are both checked by
  -- validateDomainName, which reads the name of the record
  unfoldable pub validate_soa_fields :
      (serial refresh retry expire minimum : Bytes) → DnsRecord → DnsRecord × Check
  validate_soa_fields serial refresh retry expire minimum r =
      let (r1, mname) = validate_domain_name psl r in
      let (r2, rname) = validate_domain_name psl r1 in
      elim mname [
        | some _ ↦ (r1, some soa_mname)
        | none ↦ elim rname [
          | some _ ↦ (r2, some soa_rname)
          | none ↦ (r2, validate_numbers serial refresh retry expire minimum)
        ]
      ]

  unfoldable pub by_fields : List Bytes → DnsRecord → DnsRecord × Check
  by_fields (mname ∷ rname ∷ serial ∷ refresh ∷ retry ∷ expire ∷ minimum ∷ []) r =
      validate_soa_fields serial refresh retry expire minimum r
  by_fields _ r = (r, some soa_fields)

  -- validateSOATarget
  unfoldable pub validate_soa_target : DnsRecord → DnsRecord × Check
  unfolding by_fields
  validate_soa_target r = by_fields (fields r.target) r

  -- validateSOARecord
  unfoldable pub validate_soa_record : DnsRecord → DnsRecord × Check
  validate_soa_record r =
      if contains r.name (codes "*") then (r, some soa_wildcard) else validate_soa_target r
