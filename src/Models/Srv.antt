-- ===== src/Models/Srv.antt =====
-- internal/models/srv.go
pub mod Rejected
use errantdns_io.Base.{ℕ, ◌&&◌, not, none, some, List, [], ◌∷◌, ltb, ◌==◌, if◌then◌else◌, length}
use errantdns_io.Base.Text.{Bytes, codes, eqb, fields, has_prefix, to_lower}
use errantdns_io.Base.Text.Split.{split}
use errantdns_io.Base.Text.Number.{parse_uint}
use errantdns_io.Models.DomainName.{SuffixList, validate_domain_name, all_bytes, label_byte}
use errantdns_io.Models.Errors.{
  ValidationError, Check, reject, ◌>>◌, target_empty, record_name_empty, srv_fields, srv_priority,
  srv_weight, srv_port, srv_port_zero, srv_host, srv_ip, srv_labels, srv_service, srv_service_short,
  srv_service_character, srv_protocol, srv_protocol_unknown, srv_domain,
}
use errantdns_io.Models.Net.{parse_ip}
use errantdns_io.Models.Record.{DnsRecord, normalize_domain_name}

abbrev pub with_u16 : Bytes → ValidationError → (ℕ → Check) → Check
with_u16 s e k = elim (parse_uint 16 s) [ none ↦ some e | some n ↦ k n ]

-- priority, weight and port
unfoldable pub validate_srv_numbers : (priority weight port : Bytes) → Check
validate_srv_numbers priority weight port = with_u16 priority srv_priority (λ _.
    with_u16 weight srv_weight (λ _. with_u16 port srv_port (λ n. reject (n == 0) srv_port_zero)))

-- the characters behind the underscore of a service label
service_name : Bytes → Check
service_name [] = none
service_name (c ∷ name) = reject (not (all_bytes label_byte name)) srv_service_character

-- the tests of validateSRVName on the labels, which stand before validateDomainName
pub validate_srv_labels : List Bytes → Check
unfolding service_name
validate_srv_labels (service ∷ protocol ∷ domain ∷ labels) = do
  reject (not (has_prefix service (codes "_"))) srv_service
  reject (ltb (length service) 2) srv_service_short
  service_name service
  reject (not (has_prefix protocol (codes "_"))) srv_protocol
  reject
      (not (eqb (to_lower protocol) (codes "_tcp")) && not (eqb (to_lower protocol) (codes "_udp")))
      srv_protocol_unknown
validate_srv_labels _ = some srv_labels

module _ (psl : SuffixList) where
  -- the tests of validateSRVTarget on the host, behind the numbers
  unfoldable pub validate_srv_host : Bytes → DnsRecord → DnsRecord × Check
  validate_srv_host target_host r =
      let (r', failed) = validate_domain_name psl r in
      if eqb target_host (codes ".") then (r, none) else elim failed [
        | some _ ↦ (r', some srv_host)
        | none ↦ (r', elim (parse_ip target_host) [ none ↦ none | some _ ↦ some srv_ip ])
      ]

  srv_by_fields : List Bytes → DnsRecord → DnsRecord × Check
  srv_by_fields (priority ∷ weight ∷ port ∷ target_host ∷ []) r =
      elim (validate_srv_numbers priority weight port) [
        | some e ↦ (r, some e)
        | none ↦ validate_srv_host target_host r
      ]
  srv_by_fields _ r = (r, some srv_fields)

  -- validateSRVTarget
  unfoldable pub validate_srv_target : DnsRecord → DnsRecord × Check
  unfolding srv_by_fields
  validate_srv_target r =
      if eqb r.target [] then (r, some target_empty) else srv_by_fields (fields r.target) r

  -- validateSRVName; the domain portion is checked by validateDomainName, which reads the whole name
  pub validate_srv_name : DnsRecord → DnsRecord × Check
  validate_srv_name r =
      let (r', failed) = validate_domain_name psl r in
      if eqb r.name []
      then (r, some record_name_empty)
      else elim (validate_srv_labels (split b'.' (normalize_domain_name r.name))) [
        | some e ↦ (r, some e)
        | none ↦ elim failed [ some _ ↦ (r', some srv_domain) | none ↦ (r', none) ]
      ]

  -- validateSRVRecord
  pub validate_srv_record : DnsRecord → DnsRecord × Check
  validate_srv_record r =
      let (r', failed) = validate_srv_target r in
      elim failed [ some e ↦ (r', some e) | none ↦ validate_srv_name r' ]
