-- ===== src/Models/Record.antt =====
-- internal/models/dns.go: DNSRecord, RecordType, LookupQuery and the normal form of names.
pub mod Laws
use errantdns_io.Base.{ℕ, Bool, true, false, Option, none, some, List, [], ◌∷◌, ◌++◌, if◌then◌else◌}
use errantdns_io.Base.Int.{ℤ}
use errantdns_io.Base.Text.{Bytes, codes, eqb, to_lower, to_upper, trim_suffix}
use errantdns_io.Models.Net.{parse_ip, ip_string}

-- type DNSRecord; times are numbers of nanoseconds
pub record DnsRecord : Type 0 where
  pub id : ℤ
  pub name : Bytes
  pub record_type : Bytes
  pub target : Bytes
  pub ttl : ℕ
  pub priority : ℤ
  pub created_at : ℕ
  pub updated_at : ℕ
  pub etld : Bytes
  pub apex_domain : Bytes
  pub subdomain_labels : List Bytes
  pub is_wildcard : Bool
  pub wildcard_mask : ℕ
  pub serial : ℕ
  pub mbox : Bytes
  pub refresh : ℕ
  pub retry : ℕ
  pub expire : ℕ
  pub minttl : ℕ
  pub weight : ℕ
  pub port : ℕ
  pub tag : Bytes

-- The constants of type RecordType, and `unsupported` for every other string: the case labels of
-- the switch statements over a record type.
pub data RecordType : Type 0 where
  a aaaa cname txt mx ns soa ptr srv caa unsupported : RecordType

-- the string of a constant
unfoldable pub type_name : RecordType → Bytes
type_name RecordType.a = codes "A"
type_name RecordType.aaaa = codes "AAAA"
type_name RecordType.cname = codes "CNAME"
type_name RecordType.txt = codes "TXT"
type_name RecordType.mx = codes "MX"
type_name RecordType.ns = codes "NS"
type_name RecordType.soa = codes "SOA"
type_name RecordType.ptr = codes "PTR"
type_name RecordType.srv = codes "SRV"
type_name RecordType.caa = codes "CAA"
type_name RecordType.unsupported = []

pub find_type : Bytes → List RecordType → RecordType
unfolding type_name
find_type s [] = RecordType.unsupported
find_type s (t ∷ ts) = if eqb s (type_name t) then t else find_type s ts

abbrev pub all_types : List RecordType
all_types =
    RecordType.a ∷ RecordType.aaaa ∷ RecordType.cname ∷ RecordType.txt ∷ RecordType.mx
    ∷ RecordType.ns ∷ RecordType.soa ∷ RecordType.ptr ∷ RecordType.srv ∷ RecordType.caa ∷ []

-- which constant a string is
unfoldable pub type_of : Bytes → RecordType
unfolding find_type eqb
type_of s = find_type s all_types

-- RecordType.IsValid (the method)
unfoldable pub is_supported : Bytes → Bool
is_supported s = elim (type_of s) [ RecordType.unsupported ↦ false | _ ↦ true ]

-- NormalizeDomainName
unfoldable pub normalize_domain_name : Bytes → Bytes
normalize_domain_name name = to_lower (trim_suffix name (codes "."))

-- type LookupQuery; its Type is any string
pub record LookupQuery : Type 0 where
  pub name : Bytes
  pub query_type : Bytes

-- NewLookupQuery
unfoldable pub new_lookup_query : Bytes → Bytes → LookupQuery
new_lookup_query name record_type = record {
  name = normalize_domain_name name;
  query_type = to_upper record_type;
}

-- LookupQuery.CacheKey
unfoldable pub cache_key : LookupQuery → Bytes
cache_key q = q.name ++ (codes ":" ++ q.query_type)

-- the switch of Normalize
unfoldable pub normalize_target : RecordType → Bytes → Bytes
normalize_target RecordType.cname target = normalize_domain_name target
normalize_target RecordType.ns target = normalize_domain_name target
normalize_target RecordType.mx target = normalize_domain_name target
normalize_target RecordType.a target = elim (parse_ip target) [
  | none ↦ target
  | some ip ↦ ip_string ip
]
normalize_target RecordType.aaaa target = elim (parse_ip target) [
  | none ↦ target
  | some ip ↦ ip_string ip
]
normalize_target _ target = target

-- DNSRecord.Normalize
unfoldable pub normalize : DnsRecord → DnsRecord
normalize r =
    let record_type = to_upper r.record_type in
    record r {
      name = normalize_domain_name r.name;
      record_type = record_type;
      target = normalize_target (type_of record_type) r.target;
    }
