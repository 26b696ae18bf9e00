-- ===== src/Models/Errors.antt =====
-- The errors that the validation of internal/models returns: a constructor for each fmt.Errorf. One
-- that wraps another with %w keeps it, so the inner error stands for both; one that drops the inner
-- error is a constructor of its own. `none` is Go's nil.
use errantdns_io.Base.{Bool, true, false, Option, none, some}

pub data ValidationError : Type 0 where
  -- domain-name.go
  name_length name_empty etld_failed suffix_missing partial_wildcard : ValidationError
  label_length label_hyphen label_character : ValidationError
  tld_short tld_numeric tld_letter : ValidationError
  -- the targets of a.go, aaaa.go, cname.go, mx.go, ns.go and ptr.go
  target_empty target_not_ip target_not_ipv4 target_not_ipv6 : ValidationError
  target_zero_network target_class_e target_unspecified : ValidationError
  target_not_domain target_is_ip target_empty_normalized : ValidationError
  -- the names of ptr.go
  ptr_octets ptr_octet_syntax ptr_octet_range : ValidationError
  ptr_digits ptr_digit_length ptr_digit_hex ptr_suffix : ValidationError
  -- soa.go
  soa_wildcard soa_fields soa_mname soa_rname soa_serial : ValidationError
  soa_refresh soa_refresh_zero soa_retry soa_retry_zero : ValidationError
  soa_expire soa_expire_zero soa_minimum : ValidationError
  soa_retry_refresh soa_expire_refresh soa_retry_expire soa_minimum_refresh : ValidationError
  -- txt.go
  txt_total txt_string txt_unclosed txt_utf8 : ValidationError
  -- srv.go
  srv_fields srv_priority srv_weight srv_port srv_port_zero srv_host srv_ip : ValidationError
  srv_labels srv_service srv_service_short srv_service_character : ValidationError
  srv_protocol srv_protocol_unknown srv_domain : ValidationError
  -- caa.go
  caa_flag caa_tag_empty caa_tag caa_value_empty caa_url caa_space : ValidationError
  caa_iodef caa_mailto caa_mailto_missing caa_email : ValidationError
  caa_https caa_scheme caa_host : ValidationError
  -- dns.go
  record_name_empty record_type_invalid record_target_empty txt_too_long ttl_large : ValidationError

abbrev pub Check : Type 0
Check = Option ValidationError

-- `if test { return err }`, and the code behind a check that has to pass
abbrev pub reject : Bool → ValidationError → Check
reject true e = some e
reject false e = none

infixr 5 ◌>>◌
abbrev pub ◌>>◌ : Check → Check → Check
none >> k = k
some e >> k = some e

-- `if err := m; err != nil { return wrapped }` that drops the inner error
abbrev pub relabel : ValidationError → Check → Check
relabel e none = none
relabel e (some _) = some e
