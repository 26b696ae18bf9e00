-- ===== src/Models/Validate/Accepted.antt =====
-- What DNSRecord.Validate of internal/models/dns.go accepts.
use errantdns_io.Base.{
  ℕ, ◌≤◌, true, false, none, some, List, [], ◌∷◌, ◌≡◌, ◌≢◌, ◌↔◌, refl, arith, subst, sym, ap,
}
use errantdns_io.Base.Text.{codes, eqb, eqb_iff}
use errantdns_io.Models.Caa.{Packages, validate_caa_record}
use errantdns_io.Models.Errors.{relabel, txt_too_long}
use errantdns_io.Models.Net.{parse_ip, to4}
use errantdns_io.Models.Record.{DnsRecord, RecordType, type_of, type_name, is_supported}
use errantdns_io.Models.Record.Laws.{type_name-type_of}
use errantdns_io.Models.Soa.{validate_soa_record}
use errantdns_io.Models.Srv.Rejected.{validate_srv_record-ne-none}
use errantdns_io.Models.Targets.{
  all_zero, validate_cname_record, validate_mx_target, validate_ns_record, validate_ptr_record,
  validate_ptr_name,
}
use errantdns_io.Models.Targets.Accepted.{validate_a_record_iff, validate_aaaa_record_iff}
use errantdns_io.Models.Txt.{validate_txt_record}
use errantdns_io.Models.Validate.Ttl.{cname_ttl, mx_ttl, ns_ttl, ptr_ttl, soa_ttl, caa_ttl}
use errantdns_io.Models.Validate.{validate_type, validate}

-- The content of a record, by the text of its type: an A record has an IPv4 address whose first byte
-- is from 1 to 239, an AAAA record an address that is no IPv4 address and not all zero, a record of
-- seven other types what the check of its type accepts. There is none of type SRV.
pub data IsContent (pkg : Packages) (r : DnsRecord) : Type 0 where
  a_content :
      (ip : List ℕ) (first : ℕ) (rest : List ℕ)
      → r.record_type ≡ codes "A"
      → parse_ip r.target ≡ some ip
      → to4 ip ≡ some (first ∷ rest)
      → 1 ≤ first
      → first ≤ 239
      → IsContent pkg r
  aaaa_content :
      (ip : List ℕ)
      → r.record_type ≡ codes "AAAA"
      → parse_ip r.target ≡ some ip
      → to4 ip ≡ none
      → all_zero ip ≡ false
      → IsContent pkg r
  cname_content :
      r.record_type ≡ codes "CNAME"
      → (validate_cname_record pkg.suffix_list r).1 ≡ none
      → IsContent pkg r
  mx_content :
      r.record_type ≡ codes "MX" → (validate_mx_target pkg.suffix_list r).1 ≡ none → IsContent pkg r
  txt_content : r.record_type ≡ codes "TXT" → validate_txt_record r ≡ none → IsContent pkg r
  ns_content :
      r.record_type ≡ codes "NS" → (validate_ns_record pkg.suffix_list r).1 ≡ none → IsContent pkg r
  soa_content :
      r.record_type ≡ codes "SOA"
      → (validate_soa_record pkg.suffix_list r).1 ≡ none
      → IsContent pkg r
  ptr_content :
      r.record_type ≡ codes "PTR"
      → (validate_ptr_record pkg.suffix_list r).1 ≡ none
      → validate_ptr_name (validate_ptr_record pkg.suffix_list r).0 ≡ none
      → IsContent pkg r
  caa_content : r.record_type ≡ codes "CAA" → (validate_caa_record pkg r).1 ≡ none → IsContent pkg r

module _ (pkg : Packages) (r : DnsRecord) where
  -- A record with an empty target is never accepted, not even one of type TXT.
  empty_target_refused : r.target ≡ [] → (validate pkg r).1 ≢ none
  unfolding validate
  empty_target_refused e h = let f = eqb_iff r.target [] in ground arith

  validate_type-IsContent :
      (t : RecordType)
      → r.record_type ≡ type_name t
      → t ≢ RecordType.unsupported
      → (validate_type pkg t r).1 ≡ none
      → IsContent pkg r
  unfolding validate_type type_name
  validate_type-IsContent RecordType.a e s h =
      let (ip, first, rest, p, q, low, high) = (validate_a_record_iff r).0 h in
      a_content ip first rest e p q low high
  validate_type-IsContent RecordType.aaaa e s h =
      let (ip, p, q, z) = (validate_aaaa_record_iff r).0 h in aaaa_content ip e p q z
  validate_type-IsContent RecordType.cname e s h = cname_content e h
  validate_type-IsContent RecordType.mx e s h = mx_content e h
  validate_type-IsContent RecordType.txt e s h = txt_content e (ground (arith, h))
  validate_type-IsContent RecordType.ns e s h = ns_content e h
  validate_type-IsContent RecordType.soa e s h = soa_content e h
  validate_type-IsContent RecordType.ptr e s h =
      ptr_content e (ground (arith, h)) (ground (arith, h))
  validate_type-IsContent RecordType.srv e s h =
      absurd (validate_srv_record-ne-none pkg.suffix_list r h)
  validate_type-IsContent RecordType.caa e s h = caa_content e h
  validate_type-IsContent RecordType.unsupported e s h = absurd (s refl)

  -- what the switch gives for a type, if the text of the record stands for it
  abbrev Verdict : Type 0
  Verdict =
      (t : RecordType) × (type_of r.record_type ≡ t)
      × (is_supported r.record_type ≡ true)
      × ((validate_type pkg t r).1 ≡ none)
      × ((validate_type pkg t r).0.ttl ≡ r.ttl)

  content_verdict : IsContent pkg r → Verdict
  unfolding validate_type type_of is_supported eqb type_name
  content_verdict (a_content ip first rest e p q low high) = (
    RecordType.a,
    ap type_of e,
    ap is_supported e,
    (validate_a_record_iff r).1 (ip, first, rest, p, q, low, high),
    refl,
  )
  content_verdict (aaaa_content ip e p q z) = (
    RecordType.aaaa,
    ap type_of e,
    ap is_supported e,
    (validate_aaaa_record_iff r).1 (ip, p, q, z),
    refl,
  )
  content_verdict (cname_content e h) =
      (RecordType.cname, ap type_of e, ap is_supported e, h, cname_ttl pkg.suffix_list r)
  content_verdict (mx_content e h) =
      (RecordType.mx, ap type_of e, ap is_supported e, h, mx_ttl pkg.suffix_list r)
  content_verdict (txt_content e h) =
      (RecordType.txt, ap type_of e, ap is_supported e, ap (relabel txt_too_long) h, refl)
  content_verdict (ns_content e h) =
      (RecordType.ns, ap type_of e, ap is_supported e, h, ns_ttl pkg.suffix_list r)
  content_verdict (soa_content e h) =
      (RecordType.soa, ap type_of e, ap is_supported e, h, soa_ttl pkg.suffix_list r)
  content_verdict (ptr_content e h k) = (
    RecordType.ptr,
    ap type_of e,
    ap is_supported e,
    ground (arith, h, k),
    ground (arith, ptr_ttl pkg.suffix_list r),
  )
  content_verdict (caa_content e h) =
      (RecordType.caa, ap type_of e, ap is_supported e, h, caa_ttl pkg r)

  content_accepted :
      IsContent pkg r
      → (is_supported r.record_type ≡ true)
        × ((validate_type pkg (type_of r.record_type) r).1 ≡ none)
        × ((validate_type pkg (type_of r.record_type) r).0.ttl ≡ r.ttl)
  content_accepted content =
      let (t, same, known, h, kept) = content_verdict content in
      (
        known,
        subst (λ z. (validate_type pkg z r).1 ≡ none) (sym same) h,
        subst (λ z. (validate_type pkg z r).0.ttl ≡ r.ttl) (sym same) kept,
      )

  supported : is_supported r.record_type ≡ true → type_of r.record_type ≢ RecordType.unsupported
  unfolding is_supported
  supported h e = ground (arith, h, e)

  accepted_parts : ((validate pkg r).1 ≡ none) ↔ (
      (eqb r.name [] ≡ false)
      × (is_supported r.record_type ≡ true)
      × (eqb r.target [] ≡ false)
      × ((validate_type pkg (type_of r.record_type) r).1 ≡ none)
      × ((validate_type pkg (type_of r.record_type) r).0.ttl ≤ 2147483647))
  unfolding validate
  accepted_parts = (λ h. ground arith, λ (n, t, g, c, l). ground arith)

  -- Validate accepts exactly the records with a name, a target, a content that is accepted for the text
  -- of the type (for the types A and AAAA: a target that is such an address; never for SRV nor for a
  -- text that names no supported type), and a TTL of at most 2147483647.
  pub validate_iff :
      ((validate pkg r).1 ≡ none)
      ↔ ((r.name ≢ []) × (r.target ≢ []) × IsContent pkg r × (r.ttl ≤ 2147483647))
  validate_iff =
      let same_name = eqb_iff r.name [] in
      let same_target = eqb_iff r.target [] in
      (
        λ h.
            let (n, t, g, c, l) = accepted_parts.0 h in
            let content =
              validate_type-IsContent (type_of r.record_type)
                (type_name-type_of r.record_type (supported t)) (supported t) c in
            (
              λ e. ground (arith, n, e, same_name),
              λ e. ground (arith, g, e, same_target),
              content,
              omega (arith, (content_accepted content).2, l),
            ),
        λ (n, g, content, l).
            let (t, c, kept) = content_accepted content in
            accepted_parts.1 (
              ground (arith, n, same_name),
              t,
              ground (arith, g, same_target),
              c,
              omega (arith, (content_accepted content).2, l),
            ),
      )
