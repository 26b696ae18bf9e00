-- ===== src/Server/Outage.antt =====
-- internal/dns/server.go over internal/storage/postgres.go: a request while the database is down.
use errantdns_io.Base.{
  ℕ, ◌≡◌, ◌≢◌, refl, ◌∙◌, Bool, true, false, Option, none, some, List, [], ◌∷◌, arith, inc64,
}
use errantdns_io.Base.Text.{Bytes}
use errantdns_io.Models.Caa.{Packages}
use errantdns_io.Models.Record.{LookupQuery, RecordType, type_of}
use errantdns_io.Resolver.{resolve}
use errantdns_io.Server.{
  Question, Reply, ServerStats, process_questions, process_question, answer_one, note_error,
  count_outcome, count_written, handle_dns_request, query_of, update_type_stats, wants_all,
  rcode_name_error,
}
use errantdns_io.Server.Message.{DnsPackage}
use errantdns_io.Storage.Interface.{Storage, ok}
use errantdns_io.Storage.Postgres.{Db, postgres, lookup_record}
use errantdns_io.Storage.Postgres.Queries.{lookup_record_group-swallows}
use errantdns_io.Storage.Select.{Chance, select_from_array}

-- A request with one question that no record is found for gets NXDOMAIN.
handle_dns_request_missing :
    {S E : Type 0} (dns : DnsPackage) (storage : Storage S E) (written : Reply → Bool)
    (q : Question) (s s' : S) (st : ServerStats)
    → wants_all q.question_type ≡ false
    → resolve storage (query_of dns storage q) s ≡ (s', ok none)
    → written (record { answer = []; rcode = rcode_name_error }) ≡ true
    → let result = handle_dns_request dns storage written (q ∷ []) s st in
      (result.0 ≡ s')
      × (result.2 ≡ record { answer = []; rcode = rcode_name_error })
      × (result.1.queries_nxdomain ≡ inc64 st.queries_nxdomain)
      × (result.1.queries_error ≡ st.queries_error)
unfolding handle_dns_request process_questions process_question answer_one note_error count_outcome
    count_written update_type_stats
handle_dns_request_missing dns storage written q s s' st one found sent = ground arith

direct :
    {S F : Type 0} (storage : Storage S F) (query : LookupQuery) (s : S)
    → type_of query.query_type ≢ RecordType.soa
    → resolve storage query s ≡ storage.lookup_record query s
unfolding resolve
direct storage query s h = by_type (type_of query.query_type) refl
  where
    by_type :
        (t : RecordType)
        → type_of query.query_type ≡ t
        → resolve storage query s ≡ storage.lookup_record query s
    by_type RecordType.soa e = absurd (h e)
    by_type _ e = rw (e, resolve) refl

module _ {E : Type 0} (packages : Packages) (chance : Chance) (unix : ℕ) (tie_breaker : Bytes)
    (dns : DnsPackage) where
  none_found :
      (query : LookupQuery) (db : Db E) (e : E) (faults : List (Option E))
      → db.faults ≡ some e ∷ faults
      → lookup_record packages chance unix tie_breaker query db
        ≡ (record db { faults = faults }, ok none)
  unfolding lookup_record select_from_array
  none_found query db e faults h = rw (lookup_record_group-swallows query db e faults h) refl

  -- While the database is down, a question of another type than SOA, SRV, MX and NS is answered
  -- NXDOMAIN, whatever the table holds: the failure of the first query is counted as a name that does
  -- not exist, and not as an error.
  pub handle_dns_request_outage :
      (written : Reply → Bool) (q : Question) (db : Db E) (st : ServerStats) (e : E)
      (faults : List (Option E))
      → wants_all q.question_type ≡ false
      → type_of (query_of dns (postgres {E = E} packages chance unix tie_breaker) q).query_type
        ≢ RecordType.soa
      → db.faults ≡ some e ∷ faults
      → written (record { answer = []; rcode = rcode_name_error }) ≡ true
      → let result =
          handle_dns_request dns
            (postgres packages chance unix tie_breaker)
            written
            (q ∷ [])
            db
            st in
        (result.2 ≡ record { answer = []; rcode = rcode_name_error })
        × (result.1.queries_nxdomain ≡ inc64 st.queries_nxdomain)
        × (result.1.queries_error ≡ st.queries_error)
  handle_dns_request_outage written q db st e faults one direct_type down sent =
      let storage = postgres packages chance unix tie_breaker in
      let (_, reply, nxdomain, errors) =
        handle_dns_request_missing dns storage written q db (record db { faults = faults }) st one
          (direct storage (query_of dns storage q) db direct_type
            ∙ none_found (query_of dns storage q) db e faults down)
          sent in
      (reply, nxdomain, errors)
