-- ===== src/Models/Soa/Timing.antt =====
-- The numbers of an SOA target that internal/models/soa.go accepts.
use errantdns_io.Base.{
  ℕ, ◌≤◌, ◌<◌, false, none, some, List, [], ◌∷◌, ◌≡◌, ◌↔◌, refl, arith, Option-cases, inl, inr,
}
use errantdns_io.Base.Text.{Bytes, codes, contains, fields}
use errantdns_io.Base.Text.Number.{parse_uint}
use errantdns_io.Models.DomainName.{SuffixList, validate_domain_name}
use errantdns_io.Models.Record.{DnsRecord}
use errantdns_io.Models.Soa.{
  by_fields, validate_timing, validate_numbers, validate_soa_fields, validate_soa_target,
  validate_soa_record,
}

-- Numbers that fit in 32 bits, of which the first is free, and for which
-- 0 < retry < refresh < expire and minimum ≤ refresh hold.
pub record IsTiming (serial refresh retry expire minimum : Bytes) : Type 0 where
  pub serial_value : ℕ
  pub refresh_value : ℕ
  pub retry_value : ℕ
  pub expire_value : ℕ
  pub minimum_value : ℕ
  pub serial_read : parse_uint 32 serial ≡ some serial_value
  pub refresh_read : parse_uint 32 refresh ≡ some refresh_value
  pub retry_read : parse_uint 32 retry ≡ some retry_value
  pub expire_read : parse_uint 32 expire ≡ some expire_value
  pub minimum_read : parse_uint 32 minimum ≡ some minimum_value
  pub retry_pos : 0 < retry_value
  pub retry_refresh : retry_value < refresh_value
  pub refresh_expire : refresh_value < expire_value
  pub minimum_refresh : minimum_value ≤ refresh_value

to_timing :
    (serial refresh retry expire minimum : Bytes)
    → validate_numbers serial refresh retry expire minimum ≡ none
    → IsTiming serial refresh retry expire minimum
unfolding validate_numbers validate_timing
to_timing serial refresh retry expire minimum h = elim (Option-cases (parse_uint 32 serial)) [
  | inl e ↦ absurd (ground arith)
  | inr (s, es) ↦ elim (Option-cases (parse_uint 32 refresh)) [
    | inl e ↦ absurd (ground arith)
    | inr (f, ef) ↦ elim (Option-cases (parse_uint 32 retry)) [
      | inl e ↦ absurd (ground arith)
      | inr (t, et) ↦ elim (Option-cases (parse_uint 32 expire)) [
        | inl e ↦ absurd (ground arith)
        | inr (x, ex) ↦ elim (Option-cases (parse_uint 32 minimum)) [
          | inl e ↦ absurd (ground arith)
          | inr (m, em) ↦ record {
            serial_value = s;
            refresh_value = f;
            retry_value = t;
            expire_value = x;
            minimum_value = m;
            serial_read = es;
            refresh_read = ef;
            retry_read = et;
            expire_read = ex;
            minimum_read = em;
            retry_pos = ground arith;
            retry_refresh = ground arith;
            refresh_expire = ground arith;
            minimum_refresh = ground arith;
          }
        ]
      ]
    ]
  ]
]

from_timing :
    (serial refresh retry expire minimum : Bytes)
    → IsTiming serial refresh retry expire minimum
    → validate_numbers serial refresh retry expire minimum ≡ none
unfolding validate_numbers validate_timing
from_timing serial refresh retry expire minimum v = ground arith

-- Five number fields are accepted exactly if they are numbers below 2 ^ 32 with
-- 0 < retry < refresh < expire and minimum ≤ refresh.
validate_numbers_iff :
    (serial refresh retry expire minimum : Bytes)
    → (validate_numbers serial refresh retry expire minimum ≡ none)
      ↔ IsTiming serial refresh retry expire minimum
validate_numbers_iff serial refresh retry expire minimum =
    (to_timing serial refresh retry expire minimum, from_timing serial refresh retry expire minimum)

module _ (psl : SuffixList) where
  by_fields_lem :
      (l : List Bytes) (r : DnsRecord)
      → (by_fields psl l r).1 ≡ none
      → (mname rname serial refresh retry expire minimum : Bytes) × (l
          ≡ mname ∷ rname ∷ serial ∷ refresh ∷ retry ∷ expire ∷ minimum ∷ [])
        × IsTiming serial refresh retry expire minimum
        × ((validate_domain_name psl r).1 ≡ none)
  unfolding by_fields validate_soa_fields
  by_fields_lem (a ∷ b ∷ c ∷ d ∷ e ∷ f ∷ g ∷ []) r h =
      (a, b, c, d, e, f, g, refl, to_timing c d e f g (ground arith), ground arith)
  by_fields_lem l r h = cc

  -- An SOA record that validateSOARecord accepts has no "*" in its name, which validateDomainName
  -- accepts; its target has exactly seven fields, of which the last five are numbers below 2 ^ 32
  -- with 0 < retry < refresh < expire and minimum ≤ refresh.
  pub validate_soa_record-IsTiming :
      (r : DnsRecord)
      → (validate_soa_record psl r).1 ≡ none
      → (contains r.name (codes "*") ≡ false)
        × ((mname rname serial refresh retry expire minimum : Bytes) × (fields r.target
              ≡ mname ∷ rname ∷ serial ∷ refresh ∷ retry ∷ expire ∷ minimum ∷ [])
            × IsTiming serial refresh retry expire minimum
            × ((validate_domain_name psl r).1 ≡ none))
  unfolding validate_soa_record validate_soa_target
  validate_soa_record-IsTiming r h =
      (ground arith, by_fields_lem (fields r.target) r (ground arith))
