-- ===== src/Server/Outcome.antt =====
-- internal/dns/server.go: the replies and the statistics of requests.
use errantdns_io.Base.{
  ◌+◌, ◌≡◌, refl, ap, Bool, true, false, Option, none, some, List, [], ◌∷◌, ◌++◌, arith, length,
  inc64,
}
use errantdns_io.Models.Record.{DnsRecord, RecordType, type_of}
use errantdns_io.Resolver.{resolve, resolve_all}
use errantdns_io.Server.{
  Handling, Question, Reply, ServerStats, append_records, answer_all, answer_one, put_record,
  process_question, process_questions, note_error, count_outcome, count_written, handle_dns_request,
  query_of, update_type_stats, wants_all, rcode_success, rcode_name_error, rcode_server_failure,
}
use errantdns_io.Server.Message.{
  DnsPackage, QueryType, Rr, create_resource_record, create_of, type_caa, type_mx, type_ns,
  type_srv,
}
use errantdns_io.Server.Message.Match.{record_type_of}
use errantdns_io.Storage.Interface.{Storage, Result, ok, err}

-- every record has the type of the question
abbrev pub AllOfType : QueryType → List DnsRecord → Type 0
AllOfType q [] = Unit
AllOfType q (r ∷ rs) = (type_of r.record_type ≡ record_type_of q) × AllOfType q rs

length-append_one : {A : Type 0} (s : List A) (x : A) → length (s ++ x ∷ []) ≡ length s + 1
length-append_one [] x = refl
length-append_one (y ∷ s) x = omega (arith, length-append_one s x)

module _ {S E : Type 0} (dns : DnsPackage) (storage : Storage S E) where
  caa_not_made : (t : RecordType) (r : DnsRecord) → create_of dns t type_caa r ≡ ok none
  unfolding create_of
  caa_not_made t r = ground arith

  create_caa :
      (r : DnsRecord) (q : QueryType) → q ≡ type_caa → create_resource_record dns r q ≡ ok none
  unfolding create_resource_record
  create_caa r q e = rw e (caa_not_made (type_of r.record_type) r)

  caa_one :
      (st : ServerStats) (m : Reply) (q : QueryType) (found : S × Result E (Option DnsRecord))
      (h' : Handling S)
      → q ≡ type_caa
      → answer_one dns storage q st m found ≡ (h', none)
      → h'.message ≡ record m { rcode = rcode_name_error }
  unfolding answer_one put_record
  caa_one st m q (s, err x) h' e done = ground arith
  caa_one st m q (s, ok none) h' e done = ground arith
  caa_one st m q (s, ok (some r)) h' e done = ground (arith, create_caa r q e)

  -- No question of type CAA is ever answered: if it does not fail, then, whatever the storage holds,
  -- the answer of the reply is left as it was and the return code is set to NXDOMAIN.
  pub process_question_caa :
      (q : Question) (h h' : Handling S)
      → q.question_type ≡ type_caa
      → process_question dns storage q h ≡ (h', none)
      → h'.message ≡ record (h.message) { rcode = rcode_name_error }
  unfolding process_question wants_all
  process_question_caa q h h' e done =
      caa_one (update_type_stats q.question_type h.stats) h.message q.question_type
        (resolve storage (query_of dns storage q) h.inner) h' e (ground arith)

  -- If the response can be written, a request with one question, of another type than MX, NS and SRV,
  -- whose lookup fails gets the return code SERVFAIL and no answer, and counts as two errors:
  -- QueriesError goes up by two although the response is written.
  pub handle_dns_request_failed :
      (written : Reply → Bool) (q : Question) (s s' : S) (st : ServerStats) (e : E)
      → wants_all q.question_type ≡ false
      → resolve storage (query_of dns storage q) s ≡ (s', err e)
      → written (record { answer = []; rcode = rcode_server_failure }) ≡ true
      → let result = handle_dns_request dns storage written (q ∷ []) s st in
        (result.0 ≡ s')
        × (result.2 ≡ record { answer = []; rcode = rcode_server_failure })
        × (result.1.queries_error ≡ inc64 (inc64 st.queries_error))
  unfolding handle_dns_request process_questions process_question answer_one note_error
      count_outcome count_written update_type_stats
  handle_dns_request_failed written q s s' st e one failed sent = ground arith

  -- If the response can be written, a request with one question, of another type than MX, NS and SRV,
  -- for which the resolver returns a record that makes a resource record, gets that resource record as
  -- its answer and the return code of success; QueriesReceived and QueriesAnswered go up by one, and
  -- the counts of errors and of NXDOMAIN stay.
  pub handle_dns_request_answered :
      (written : Reply → Bool) (q : Question) (s s' : S) (st : ServerStats) (r : DnsRecord)
      (rr : Rr)
      → wants_all q.question_type ≡ false
      → resolve storage (query_of dns storage q) s ≡ (s', ok (some r))
      → create_resource_record dns r q.question_type ≡ ok (some rr)
      → written (record { answer = rr ∷ []; rcode = rcode_success }) ≡ true
      → let result = handle_dns_request dns storage written (q ∷ []) s st in
        (result.0 ≡ s')
        × (result.2 ≡ record { answer = rr ∷ []; rcode = rcode_success })
        × (result.1.queries_received ≡ inc64 st.queries_received)
        × (result.1.queries_answered ≡ inc64 st.queries_answered)
        × (result.1.queries_error ≡ st.queries_error)
        × (result.1.queries_nxdomain ≡ st.queries_nxdomain)
  unfolding handle_dns_request process_questions process_question answer_one note_error
      count_outcome count_written put_record update_type_stats
  handle_dns_request_answered written q s s' st r rr one found made sent = ground arith

  wanted_made :
      (q : QueryType) (r : DnsRecord)
      → wants_all q ≡ true
      → type_of r.record_type ≡ record_type_of q
      → (rr : Rr) × (create_resource_record dns r q ≡ ok (some rr))
  unfolding wants_all create_resource_record create_of record_type_of
  wanted_made type_mx r h e = (_, ap (λ t. create_of dns t type_mx r) e)
  wanted_made type_ns r h e = (_, ap (λ t. create_of dns t type_ns r) e)
  wanted_made type_srv r h e = (_, ap (λ t. create_of dns t type_srv r) e)
  wanted_made _ r h e = absurd (ground (arith, h))

  length-append_records :
      (q : QueryType) (rs : List DnsRecord) (m : Reply)
      → wants_all q ≡ true
      → AllOfType q rs
      → ((append_records dns storage q rs m).1 ≡ none)
        × ((append_records dns storage q rs m).0.rcode ≡ m.rcode)
        × (length (append_records dns storage q rs m).0.answer ≡ length m.answer + length rs)
  unfolding append_records
  length-append_records q [] m h all = (refl, refl, omega arith)
  length-append_records q (r ∷ rs) m h (first, rest) =
      let (rr, made) = wanted_made q r h first in
      let longer = record m { answer = m.answer ++ (rr ∷ []) } in
      let (fine, code, size) = length-append_records q rs longer h rest in
      rw (made, append_records) (fine, code, omega (arith, size, length-append_one m.answer rr))

  -- A question of type MX, NS or SRV for which the storage returns records, all of that type, does not
  -- fail, keeps the return code, and adds as many resource records to the answer as there are records.
  process_question_all :
      (q : Question) (h : Handling S) (s : S) (r : DnsRecord) (rs : List DnsRecord)
      → wants_all q.question_type ≡ true
      → resolve_all storage (query_of dns storage q) h.inner ≡ (s, ok (r ∷ rs))
      → AllOfType q.question_type (r ∷ rs)
      → let done = process_question dns storage q h in
        (done.1 ≡ none)
        × (done.0.message.rcode ≡ h.message.rcode)
        × (length done.0.message.answer ≡ length h.message.answer + length (r ∷ rs))
  unfolding process_question answer_all
  process_question_all q h s r rs wanted found all =
      rw (wanted, found) (length-append_records q.question_type (r ∷ rs) h.message wanted all)
