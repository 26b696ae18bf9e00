-- ===== src/Models/Validate.antt =====
-- DNSRecord.Validate of internal/models/dns.go.
pub mod Ttl
pub mod Accepted
use errantdns_io.Base.{none, some, [], ltb, not, if◌then◌else◌}
use errantdns_io.Base.Text.{eqb}
use errantdns_io.Models.Caa.{Packages, validate_caa_record}
use errantdns_io.Models.Errors.{
  Check, reject, relabel, record_name_empty, record_type_invalid, record_target_empty, txt_too_long,
  ttl_large,
}
use errantdns_io.Models.Record.{DnsRecord, RecordType, type_of, is_supported}
use errantdns_io.Models.Soa.{validate_soa_record}
use errantdns_io.Models.Srv.{validate_srv_record}
use errantdns_io.Models.Targets.{
  validate_a_record, validate_aaaa_record, validate_cname_record, validate_mx_target,
  validate_ns_record, validate_ptr_record, validate_ptr_name,
}
use errantdns_io.Models.Txt.{validate_txt_record}

module _ (pkg : Packages) where
  open pkg use {suffix_list}

  -- the switch on the record type
  unfoldable pub validate_type : RecordType → DnsRecord → DnsRecord × Check
  validate_type RecordType.a r = (r, validate_a_record r)
  validate_type RecordType.aaaa r = (r, validate_aaaa_record r)
  validate_type RecordType.cname r = validate_cname_record suffix_list r
  validate_type RecordType.mx r = validate_mx_target suffix_list r
  validate_type RecordType.txt r = (r, relabel txt_too_long (validate_txt_record r))
  validate_type RecordType.soa r = validate_soa_record suffix_list r
  validate_type RecordType.ptr r =
      let (r', failed) = validate_ptr_record suffix_list r in
      elim failed [ some e ↦ (r', some e) | none ↦ (r', validate_ptr_name r') ]
  validate_type RecordType.ns r = validate_ns_record suffix_list r
  validate_type RecordType.srv r = validate_srv_record suffix_list r
  validate_type RecordType.caa r = validate_caa_record pkg r
  validate_type RecordType.unsupported r = (r, none)

  -- DNSRecord.Validate
  unfoldable pub validate : DnsRecord → DnsRecord × Check
  validate r =
      let (r', failed) = validate_type (type_of r.record_type) r in
      if eqb r.name []
      then (r, some record_name_empty)
      else if not (is_supported r.record_type)
      then (r, some record_type_invalid)
      else if eqb r.target []
      then (r, some record_target_empty)
      else elim failed [
        | some e ↦ (r', some e)
        | none ↦ (r', reject (ltb 2147483647 r'.ttl) ttl_large)
      ]
