-- ===== src/Server.antt =====
-- internal/dns/server.go: the handler of requests and its statistics. The deadline of a lookup, the
-- logging, and the start and stop of the listeners are left out.
pub mod Message
pub mod Outcome
pub mod Outage
pub mod Totals
mod Tests
use errantdns_io.Base.{
  ℕ, Bool, true, false, Option, none, some, List, [], ◌∷◌, ◌++◌, if◌then◌else◌, inc64,
}
use errantdns_io.Base.Text.{Bytes}
use errantdns_io.Models.Record.{DnsRecord, LookupQuery, new_lookup_query}
use errantdns_io.Resolver.{resolve, resolve_all}
use errantdns_io.Server.Message.{
  QueryType, type_a, type_aaaa, type_cname, type_mx, type_txt, type_ns, type_srv, type_soa,
  type_ptr, type_caa, DnsPackage, Rr, RecordError, create_resource_record,
}
use errantdns_io.Storage.Interface.{Storage, Result, ok, err}

-- type Stats
pub record ServerStats : Type 0 where
  pub queries_received : ℕ
  pub queries_answered : ℕ
  pub queries_nxdomain : ℕ
  pub queries_error : ℕ
  pub count_a : ℕ
  pub count_aaaa : ℕ
  pub count_cname : ℕ
  pub count_mx : ℕ
  pub count_txt : ℕ
  pub count_ns : ℕ
  pub count_srv : ℕ
  pub count_soa : ℕ
  pub count_ptr : ℕ
  pub count_caa : ℕ
  pub count_other : ℕ

-- updateTypeStats
pub update_type_stats : QueryType → ServerStats → ServerStats
update_type_stats type_a s = record s { count_a = inc64 s.count_a }
update_type_stats type_aaaa s = record s { count_aaaa = inc64 s.count_aaaa }
update_type_stats type_cname s = record s { count_cname = inc64 s.count_cname }
update_type_stats type_mx s = record s { count_mx = inc64 s.count_mx }
update_type_stats type_txt s = record s { count_txt = inc64 s.count_txt }
update_type_stats type_ns s = record s { count_ns = inc64 s.count_ns }
update_type_stats type_srv s = record s { count_srv = inc64 s.count_srv }
update_type_stats type_soa s = record s { count_soa = inc64 s.count_soa }
update_type_stats type_ptr s = record s { count_ptr = inc64 s.count_ptr }
update_type_stats type_caa s = record s { count_caa = inc64 s.count_caa }
update_type_stats _ s = record s { count_other = inc64 s.count_other }

-- the return codes that the code names
pub data Rcode : Type 0 where
  rcode_success rcode_server_failure rcode_name_error : Rcode

-- what the handler changes of dns.Msg; the flags are constant
pub record Reply : Type 0 where
  pub answer : List Rr
  pub rcode : Rcode

-- dns.Question
pub record Question : Type 0 where
  pub name : Bytes
  pub question_type : QueryType

-- the errors of processQuestion
pub data QuestionError (E : Type 0) : Type 0 where
  resolver_failed : E → QuestionError E
  record_failed : RecordError → QuestionError E

-- the state of the storage, the statistics, and the message that is built
pub record Handling (S : Type 0) : Type 0 where
  pub inner : S
  pub stats : ServerStats
  pub message : Reply

-- whether all the records of a name answer a question of the type
pub wants_all : QueryType → Bool
wants_all type_srv = true
wants_all type_mx = true
wants_all type_ns = true
wants_all _ = false

module _ {S E : Type 0} (dns : DnsPackage) (storage : Storage S E) where
  -- the loop over the records of ResolveAll
  pub append_records : QueryType → List DnsRecord → Reply → Reply × Option (QuestionError E)
  append_records q [] m = (m, none)
  append_records q (r ∷ rs) m = elim (create_resource_record dns r q) [
    | err e ↦ (m, some (record_failed e))
    | ok none ↦ append_records q rs m
    | ok (some rr) ↦ append_records q rs (record m { answer = m.answer ++ (rr ∷ []) })
  ]

  -- the part of processQuestion behind ResolveAll
  pub answer_all :
      QueryType
      → ServerStats
      → Reply
      → S × Result E (List DnsRecord)
      → Handling S × Option (QuestionError E)
  answer_all q st m (s, err e) =
      (record { inner = s; stats = st; message = m }, some (resolver_failed e))
  answer_all q st m (s, ok []) =
      (record { inner = s; stats = st; message = record m { rcode = rcode_name_error } }, none)
  answer_all q st m (s, ok (r ∷ rs)) =
      let (m', failed) = append_records q (r ∷ rs) m in
      (record { inner = s; stats = st; message = m' }, failed)

  -- the part of processQuestion behind createResourceRecord
  pub put_record : Reply → Result RecordError (Option Rr) → Reply × Option (QuestionError E)
  put_record m (err e) = (m, some (record_failed e))
  put_record m (ok none) = (record m { rcode = rcode_name_error }, none)
  put_record m (ok (some rr)) = (record m { answer = m.answer ++ (rr ∷ []) }, none)

  -- the part of processQuestion behind Resolve
  pub answer_one :
      QueryType
      → ServerStats
      → Reply
      → S × Result E (Option DnsRecord)
      → Handling S × Option (QuestionError E)
  answer_one q st m (s, err e) =
      (record { inner = s; stats = st; message = m }, some (resolver_failed e))
  answer_one q st m (s, ok none) =
      (record { inner = s; stats = st; message = record m { rcode = rcode_name_error } }, none)
  answer_one q st m (s, ok (some r)) =
      let (m', failed) = put_record m (create_resource_record dns r q) in
      (record { inner = s; stats = st; message = m' }, failed)

  -- the query of a question
  abbrev pub query_of : Question → LookupQuery
  query_of q = new_lookup_query q.name (dns.type_to_string q.question_type)

  -- processQuestion
  pub process_question : Question → Handling S → Handling S × Option (QuestionError E)
  process_question q h =
      let st = update_type_stats q.question_type h.stats in
      if wants_all q.question_type
      then answer_all q.question_type st h.message (resolve_all storage (query_of q) h.inner)
      else answer_one q.question_type st h.message (resolve storage (query_of q) h.inner)

  -- what the loop of handleDNSRequest does with the result of processQuestion
  pub note_error : Handling S × Option (QuestionError E) → Handling S
  note_error (h, none) = h
  note_error (h, some e) = record h {
    message = record (h.message) { rcode = rcode_server_failure };
    stats = record (h.stats) { queries_error = inc64 h.stats.queries_error };
  }

  -- the loop of handleDNSRequest
  pub process_questions : List Question → Handling S → Handling S
  process_questions [] h = h
  process_questions (q ∷ qs) h = process_questions qs (note_error (process_question q h))

-- the statistics by the return code
pub count_outcome : Reply → ServerStats → ServerStats
count_outcome m st = elim m.rcode [
  | rcode_success ↦ elim m.answer [
    | [] ↦ record st { queries_nxdomain = inc64 st.queries_nxdomain }
    | _ ∷ _ ↦ record st { queries_answered = inc64 st.queries_answered }
  ]
  | rcode_name_error ↦ record st { queries_nxdomain = inc64 st.queries_nxdomain }
  | rcode_server_failure ↦ record st { queries_error = inc64 st.queries_error }
]

-- the statistics after the response is written, or could not be
pub count_written : Bool → ServerStats → ServerStats
count_written true st = st
count_written false st = record st { queries_error = inc64 st.queries_error }

module _ {S E : Type 0} (dns : DnsPackage) (storage : Storage S E) where
  -- handleDNSRequest; `written` tells whether the response can be written
  pub handle_dns_request :
      (written : Reply → Bool) → List Question → S → ServerStats → S × ServerStats × Reply
  handle_dns_request written questions s st =
      let received = record st { queries_received = inc64 st.queries_received } in
      let h = process_questions dns storage questions (record {
        inner = s;
        stats = received;
        message = record { answer = []; rcode = rcode_success };
      }) in
      (h.inner, count_written (written h.message) (count_outcome h.message h.stats), h.message)
