-- ===== src/Server/Message.antt =====
-- internal/dns/server.go: the resource records of an answer, from the records of the storage. The
-- package miekg/dns is a parameter: its types and return codes are the constructors that the code
-- names, and `Fqdn` and `TypeToString` are arguments.
pub mod Match
use errantdns_io.Base.{ℕ, ◌+◌, ◌-◌, ◌%◌, ◌^◌, Bool, true, false, Option, none, some, List, [], ◌∷◌}
use errantdns_io.Base.Int.{ℤ, pos, negsuc}
use errantdns_io.Base.Text.{Bytes}
use errantdns_io.Models.Net.{parse_ip, to4}
use errantdns_io.Models.Record.{DnsRecord, RecordType, type_of}
use errantdns_io.Storage.Interface.{Result, ok, err}

-- the types of a question that the code names, and any other type by its number
pub data QueryType : Type 0 where
  type_a type_aaaa type_cname type_mx type_txt type_ns type_srv type_soa type_ptr type_caa :
      QueryType
  type_other : ℕ → QueryType

-- what the code uses of miekg/dns
pub record DnsPackage : Type 0 where
  pub fqdn : Bytes → Bytes
  pub type_to_string : QueryType → Bytes

-- dns.RR_Header; the class is always INET, and the type is the constructor of the record's data
pub record RrHeader : Type 0 where
  pub name : Bytes
  pub ttl : ℕ

-- the data of dns.A and the other types that the code builds
pub data RrData : Type 0 where
  a_data aaaa_data : List ℕ → RrData
  cname_data ns_data ptr_data txt_data : Bytes → RrData
  mx_data : Bytes → ℕ → RrData
  soa_data : (ns mbox : Bytes) → (serial refresh retry expire minttl : ℕ) → RrData
  srv_data : (priority weight port : ℕ) → Bytes → RrData

-- dns.RR
pub record Rr : Type 0 where
  pub header : RrHeader
  pub rr_data : RrData

-- the errors of createResourceRecord, with the target
pub data RecordError : Type 0 where
  invalid_ipv4 invalid_ipv6 : Bytes → RecordError

-- the conversion `uint16(n)` of an int
unfoldable pub to_uint16 : ℤ → ℕ
to_uint16 (pos n) = n % 2 ^ 16
to_uint16 (negsuc n) = 2 ^ 16 - 1 - n % 2 ^ 16

module _ (dns : DnsPackage) where
  abbrev pub with_header : DnsRecord → RrData → Option Rr
  with_header r d =
      some record { header = record { name = dns.fqdn r.name; ttl = r.ttl }; rr_data = d }

  -- the case of an A record
  unfoldable pub create_a : DnsRecord → Result RecordError (Option Rr)
  create_a r = elim (parse_ip r.target) [
    | none ↦ err (invalid_ipv4 r.target)
    | some ip ↦ elim (to4 ip) [
      | none ↦ err (invalid_ipv4 r.target)
      | some v4 ↦ ok (with_header r (a_data v4))
    ]
  ]

  -- the case of an AAAA record
  pub create_aaaa : DnsRecord → Result RecordError (Option Rr)
  create_aaaa r = elim (parse_ip r.target) [
    | none ↦ err (invalid_ipv6 r.target)
    | some ip ↦ elim (to4 ip) [
      | none ↦ ok (with_header r (aaaa_data ip))
      | some v4 ↦ err (invalid_ipv6 r.target)
    ]
  ]

  -- the switch of createResourceRecord, by the record's type and the question's
  unfoldable pub create_of : RecordType → QueryType → DnsRecord → Result RecordError (Option Rr)
  create_of RecordType.a type_a r = create_a r
  create_of RecordType.aaaa type_aaaa r = create_aaaa r
  create_of RecordType.cname type_cname r = ok (with_header r (cname_data (dns.fqdn r.target)))
  create_of RecordType.txt type_txt r = ok (with_header r (txt_data r.target))
  create_of RecordType.mx type_mx r =
      ok (with_header r (mx_data (dns.fqdn r.target) (to_uint16 r.priority)))
  create_of RecordType.ns type_ns r = ok (with_header r (ns_data (dns.fqdn r.target)))
  create_of RecordType.soa type_soa r = ok (
      with_header r (
        soa_data (dns.fqdn r.target) (dns.fqdn r.mbox) r.serial r.refresh r.retry r.expire
          r.minttl))
  create_of RecordType.ptr type_ptr r = ok (with_header r (ptr_data (dns.fqdn r.target)))
  create_of RecordType.srv type_srv r = ok (
      with_header r
        (srv_data (to_uint16 r.priority) (r.weight % 2 ^ 16) (r.port % 2 ^ 16) (dns.fqdn r.target)))
  create_of t q r = ok none

  -- createResourceRecord
  unfoldable pub create_resource_record : DnsRecord → QueryType → Result RecordError (Option Rr)
  create_resource_record r q = create_of (type_of r.record_type) q r
