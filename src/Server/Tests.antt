-- ===== src/Server/Tests.antt =====
-- Tests of internal/dns/server.go.
use errantdns_io.Base.Int.{pos}
use errantdns_io.Storage.Postgres.Columns.{to_row}
use errantdns_io.Base.{◌+◌, ◌≡◌, ◌≢◌, ◌≤◌, ℕ, false, some, refl, true, List, [], ◌∷◌, length, inc64}
use errantdns_io.Base.Text.{Bytes, codes, to_lower, lower_byte, to_upper, upper_byte, trim_suffix}
use errantdns_io.Models.Net.{parse_ip, to4}
use errantdns_io.Models.Record.{
  DnsRecord, RecordType, type_of, new_lookup_query, normalize_domain_name,
}
use errantdns_io.Resolver.{resolve}
use errantdns_io.Samples.{sample, a_record, listed, broken, dns_package, packages, steady}
use errantdns_io.Server.Totals.{Counts}
use errantdns_io.Server.Totals.Requests.{
  Request, new_stats, question_count, handle_all, handle_all-totals,
}
use errantdns_io.Server.Outage.{handle_dns_request_outage}
use errantdns_io.Storage.Postgres.{Db, postgres}
use errantdns_io.Server.{
  Question, Handling, handle_dns_request, process_question, wants_all, update_type_stats,
  rcode_success, rcode_name_error, rcode_server_failure, answer_one,
}
use errantdns_io.Server.Message.{
  Rr, type_a, type_mx, type_caa, a_data, create_resource_record, create_of, create_a,
}
use errantdns_io.Server.Outcome.{
  handle_dns_request_answered, handle_dns_request_failed, process_question_caa,
}

abbrev a_question : Question
a_question = record { name = codes "A.io."; question_type = type_a }

abbrev caa_question : Question
caa_question = record { name = codes "a.io"; question_type = type_caa }

abbrev mx_question : Question
mx_question = record { name = codes "a.io"; question_type = type_mx }

abbrev mx_record : DnsRecord
mx_record = sample (codes "a.io") (codes "MX") (codes "mail.a.io") 60

abbrev a_answer : Rr
a_answer = record {
  header = record { name = codes "a.io"; ttl = 60 };
  rr_data = a_data (10 ∷ 0 ∷ 0 ∷ 1 ∷ []);
}

-- the start of a request
abbrev handling : List DnsRecord → Handling (List DnsRecord)
handling s = record {
  inner = s;
  stats = new_stats;
  message = record { answer = []; rcode = rcode_success };
}

-- what a CAA question leaves
abbrev caa_refused : Handling (List DnsRecord)
caa_refused = record {
  inner = [];
  stats = record new_stats { count_caa = 1 };
  message = record { answer = []; rcode = rcode_name_error };
}

handle_dns_request_answered_example :
    let result =
      handle_dns_request dns_package listed
        (λ m. true)
        (a_question ∷ [])
        (a_record ∷ [])
        new_stats in
    (result.0 ≡ (a_record ∷ []))
    × (result.2 ≡ record { answer = a_answer ∷ []; rcode = rcode_success })
    × (result.1.queries_received ≡ inc64 new_stats.queries_received)
    × (result.1.queries_answered ≡ inc64 new_stats.queries_answered)
    × (result.1.queries_error ≡ new_stats.queries_error)
    × (result.1.queries_nxdomain ≡ new_stats.queries_nxdomain)
unfolding wants_all resolve type_of new_lookup_query to_upper upper_byte normalize_domain_name
    to_lower trim_suffix lower_byte create_resource_record create_of create_a parse_ip to4
handle_dns_request_answered_example =
    handle_dns_request_answered dns_package listed (λ m. true) a_question (a_record ∷ [])
      (a_record ∷ []) new_stats a_record a_answer refl refl refl refl

handle_dns_request_failed_example :
    let result = handle_dns_request dns_package broken (λ m. true) (a_question ∷ []) [] new_stats in
    (result.0 ≡ [])
    × (result.2 ≡ record { answer = []; rcode = rcode_server_failure })
    × (result.1.queries_error ≡ inc64 (inc64 new_stats.queries_error))
unfolding wants_all resolve type_of new_lookup_query to_upper upper_byte
handle_dns_request_failed_example =
    handle_dns_request_failed dns_package broken (λ m. true) a_question [] [] new_stats
      (codes "down") refl refl refl

process_question_caa_example :
    caa_refused.message ≡ record ((handling []).message) { rcode = rcode_name_error }
unfolding process_question wants_all answer_one resolve type_of new_lookup_query to_upper upper_byte
    update_type_stats
process_question_caa_example =
    process_question_caa dns_package listed caa_question (handling []) caa_refused refl refl

-- a database that is down, with the record in its table
abbrev down_db : Db Bytes
down_db = record {
  rows = to_row (pos 1) 5 5 a_record ∷ [];
  next_id = 2;
  now = 5;
  faults = some (codes "down") ∷ some (codes "down") ∷ [];
}

handle_dns_request_outage_example :
    let result =
      handle_dns_request dns_package
        (postgres packages steady 5 (codes "random"))
        (λ r. true)
        (a_question ∷ [])
        down_db
        new_stats in
    (result.2 ≡ record { answer = []; rcode = rcode_name_error })
    × (result.1.queries_nxdomain ≡ inc64 new_stats.queries_nxdomain)
    × (result.1.queries_error ≡ new_stats.queries_error)
unfolding wants_all type_of new_lookup_query to_upper upper_byte
handle_dns_request_outage_example =
    handle_dns_request_outage packages steady 5 (codes "random") dns_package (λ r. true) a_question
      down_db new_stats (codes "down") (some (codes "down") ∷ []) refl not_soa refl refl
  where
    not_soa : RecordType.a ≢ RecordType.soa
    not_soa e = cc

-- a request with two questions, and one whose response cannot be written
abbrev two_requests : List Request
two_requests =
    record { questions = a_question ∷ caa_question ∷ []; written = λ r. true }
    ∷ record { questions = mx_question ∷ []; written = λ r. false }
    ∷ []

handle_all-totals_example :
    (j : ℕ) × (j ≤ length two_requests + question_count two_requests)
    × Counts
        (length two_requests)
        (question_count two_requests)
        (length two_requests + j)
        (handle_all dns_package listed two_requests (a_record ∷ []) new_stats).1
handle_all-totals_example = handle_all-totals dns_package listed two_requests (a_record ∷ [])
