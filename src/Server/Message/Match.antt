-- ===== src/Server/Message/Match.antt =====
-- internal/dns/server.go: which resource record answers a question.
use errantdns_io.Base.{◌≡◌, some, arith}
use errantdns_io.Models.Record.{DnsRecord, RecordType, type_of}
use errantdns_io.Server.Message.{
  QueryType, type_a, type_aaaa, type_cname, type_mx, type_txt, type_ns, type_srv, type_soa,
  type_ptr, type_caa, type_other, DnsPackage, Rr, RrData, a_data, aaaa_data, cname_data, ns_data,
  ptr_data, txt_data, mx_data, soa_data, srv_data, create_a, create_aaaa, create_of,
  create_resource_record,
}
use errantdns_io.Storage.Interface.{ok}

-- the type of a resource record's data
data_type : RrData → QueryType
data_type (a_data ip) = type_a
data_type (aaaa_data ip) = type_aaaa
data_type (cname_data n) = type_cname
data_type (ns_data n) = type_ns
data_type (ptr_data n) = type_ptr
data_type (txt_data s) = type_txt
data_type (mx_data n p) = type_mx
data_type (soa_data ns mbox serial refresh retry expire minttl) = type_soa
data_type (srv_data priority weight port n) = type_srv

-- the constant of models that has the same name as a type of a question
unfoldable pub record_type_of : QueryType → RecordType
record_type_of type_a = RecordType.a
record_type_of type_aaaa = RecordType.aaaa
record_type_of type_cname = RecordType.cname
record_type_of type_mx = RecordType.mx
record_type_of type_txt = RecordType.txt
record_type_of type_ns = RecordType.ns
record_type_of type_srv = RecordType.srv
record_type_of type_soa = RecordType.soa
record_type_of type_ptr = RecordType.ptr
record_type_of type_caa = RecordType.caa
record_type_of (type_other n) = RecordType.unsupported

module _ (dns : DnsPackage) where
  create_of_matches :
      (t : RecordType) (q : QueryType) (r : DnsRecord) (rr : Rr)
      → create_of dns t q r ≡ ok (some rr)
      → (t ≡ record_type_of q)
        × (data_type rr.rr_data ≡ q)
        × (rr.header.name ≡ dns.fqdn r.name)
        × (rr.header.ttl ≡ r.ttl)
  unfolding create_of create_a create_aaaa record_type_of data_type
  create_of_matches t q r rr made = ground arith

  -- A resource record that is made for a question has the question's type, which is the type of the
  -- record, the name of the record and its TTL.
  create_resource_record_matches :
      (r : DnsRecord) (q : QueryType) (rr : Rr)
      → create_resource_record dns r q ≡ ok (some rr)
      → (type_of r.record_type ≡ record_type_of q)
        × (data_type rr.rr_data ≡ q)
        × (rr.header.name ≡ dns.fqdn r.name)
        × (rr.header.ttl ≡ r.ttl)
  unfolding create_resource_record
  create_resource_record_matches r q rr made = create_of_matches (type_of r.record_type) q r rr made
