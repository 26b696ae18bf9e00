-- ===== src/Server/Totals.antt =====
-- internal/dns/server.go: the totals of the statistics over any sequence of requests.
pub mod Requests
use errantdns_io.Base.{
  ℕ, suc, ◌+◌, ◌%◌, ◌^◌, ◌≤◌, ◌≡◌, refl, ◌∙◌, ap, sym, subst, Bool, true, false, Option, none, some,
  List, [], ◌∷◌, length, inc64, if◌then◌else◌, arith,
}
use errantdns_io.Models.Record.{DnsRecord}
use errantdns_io.Resolver.{resolve, resolve_all}
use errantdns_io.Server.{
  ServerStats, Question, QuestionError, Handling, Reply, wants_all, update_type_stats, answer_all,
  append_records, answer_one, put_record, query_of, process_question, note_error, process_questions,
  count_outcome, count_written, handle_dns_request, rcode_success, rcode_name_error,
  rcode_server_failure,
}
use errantdns_io.Server.Message.{
  DnsPackage, QueryType, create_resource_record, type_a, type_aaaa, type_cname, type_mx, type_txt,
  type_ns, type_srv, type_soa, type_ptr, type_caa, type_other,
}
use errantdns_io.Storage.Interface.{Storage, Result, ok, err}

-- the counters of the types together
abbrev pub type_total : ServerStats → ℕ
type_total st =
    (st.count_a + st.count_aaaa + st.count_cname + st.count_mx + st.count_txt + st.count_ns
      + st.count_srv + st.count_soa + st.count_ptr + st.count_caa + st.count_other)
    % 2 ^ 64

-- the counters of the outcomes together
abbrev pub outcome_total : ServerStats → ℕ
outcome_total st = (st.queries_answered + st.queries_nxdomain + st.queries_error) % 2 ^ 64

-- The numbers of requests, of questions and of outcomes that the statistics hold, as bit patterns.
pub record Counts (n m k : ℕ) (st : ServerStats) : Type 0 where
  pub received : st.queries_received ≡ n % 2 ^ 64
  pub types : type_total st ≡ m % 2 ^ 64
  pub outcomes : outcome_total st ≡ k % 2 ^ 64

update-types :
    (q : QueryType) (m : ℕ) (st : ServerStats)
    → type_total st ≡ m % 2 ^ 64
    → type_total (update_type_stats q st) ≡ suc m % 2 ^ 64
unfolding update_type_stats
update-types type_a m st h = ground (arith, h)
update-types type_aaaa m st h = ground (arith, h)
update-types type_cname m st h = ground (arith, h)
update-types type_mx m st h = ground (arith, h)
update-types type_txt m st h = ground (arith, h)
update-types type_ns m st h = ground (arith, h)
update-types type_srv m st h = ground (arith, h)
update-types type_soa m st h = ground (arith, h)
update-types type_ptr m st h = ground (arith, h)
update-types type_caa m st h = ground (arith, h)
update-types (type_other t) m st h = ground (arith, h)

update-Counts :
    (q : QueryType) (n m k : ℕ) (st : ServerStats)
    → Counts n m k st
    → Counts n (suc m) k (update_type_stats q st)
unfolding update_type_stats
update-Counts q n m k st h = record {
  received = ground (arith, h.received);
  types = update-types q m st h.types;
  outcomes = ground (arith, h.outcomes);
}

pub recount :
    {n n' m m' k k' : ℕ} {st : ServerStats}
    → n ≡ n'
    → m ≡ m'
    → k ≡ k'
    → Counts n m k st
    → Counts n' m' k' st
recount {n} {n'} {m} {m'} {k} {k'} {st} same_n same_m same_k c =
    subst (λ z. Counts z m' k' st) same_n
      (subst (λ z. Counts n z k' st) same_m (subst (λ z. Counts n m z st) same_k c))

one_more :
    (n m k : ℕ) (st : ServerStats)
    → Counts n m k st
    → Counts n m (suc k) (record st { queries_error = inc64 st.queries_error })
one_more n m k st h = record {
  received = h.received;
  types = h.types;
  outcomes = ground (arith, h.outcomes);
}

outcome-Counts :
    (reply : Reply) (n m k : ℕ) (st : ServerStats)
    → Counts n m k st
    → Counts n m (suc k) (count_outcome reply st)
unfolding count_outcome
outcome-Counts reply n m k st h = record {
  received = ground (arith, h.received);
  types = ground (arith, h.types);
  outcomes = ground (arith, h.outcomes);
}

-- at most one more outcome than `k`
abbrev CountsOne : (n m k : ℕ) → ServerStats → Type 0
CountsOne n m k st = (j : ℕ) × (j ≤ 1) × Counts n m (k + j) st

written-Counts :
    (done : Bool) (n m k : ℕ) (st : ServerStats)
    → Counts n m k st
    → CountsOne n m k (count_written done st)
unfolding count_written
written-Counts true n m k st h = (0, omega arith, recount refl refl (omega arith) h)
written-Counts false n m k st h =
    (1, omega arith, recount refl refl (omega arith) (one_more n m k st h))

module _ {S E : Type 0} (dns : DnsPackage) (storage : Storage S E) where
  note-Counts :
      (h : Handling S) (failed : Option (QuestionError E)) (n m k : ℕ)
      → Counts n m k h.stats
      → CountsOne n m k (note_error dns storage (h, failed)).stats
  unfolding note_error
  note-Counts h none n m k c = (0, omega arith, recount refl refl (omega arith) c)
  note-Counts h (some e) n m k c =
      (1, omega arith, recount refl refl (omega arith) (one_more n m k h.stats c))

  answer_all_stats :
      (q : QueryType) (st : ServerStats) (m : Reply) (found : S × Result E (List DnsRecord))
      → (answer_all dns storage q st m found).0.stats ≡ st
  unfolding answer_all
  answer_all_stats q st m (s, err e) = refl
  answer_all_stats q st m (s, ok []) = refl
  answer_all_stats q st m (s, ok (r ∷ rs)) = refl

  answer_one_stats :
      (q : QueryType) (st : ServerStats) (m : Reply) (found : S × Result E (Option DnsRecord))
      → (answer_one dns storage q st m found).0.stats ≡ st
  unfolding answer_one
  answer_one_stats q st m (s, err e) = refl
  answer_one_stats q st m (s, ok none) = refl
  answer_one_stats q st m (s, ok (some r)) = refl

  process_question_stats :
      (q : Question) (h : Handling S)
      → (process_question dns storage q h).0.stats ≡ update_type_stats q.question_type h.stats
  unfolding process_question
  process_question_stats q h = by_kind (wants_all q.question_type)
    where
      by_kind :
          (all : Bool)
          → (if all
              then answer_all dns storage q.question_type
                  (update_type_stats q.question_type h.stats)
                  h.message
                  (resolve_all storage (query_of dns storage q) h.inner)
              else answer_one dns storage q.question_type
                  (update_type_stats q.question_type h.stats)
                  h.message
                  (resolve storage (query_of dns storage q) h.inner)).0.stats
            ≡ update_type_stats q.question_type h.stats
      by_kind true = answer_all_stats q.question_type _ h.message _
      by_kind false = answer_one_stats q.question_type _ h.message _

  process_questions-Counts :
      (qs : List Question) (h : Handling S) (n m k : ℕ)
      → Counts n m k h.stats
      → (j : ℕ) × (j ≤ length qs)
        × Counts n (m + length qs) (k + j) (process_questions dns storage qs h).stats
  unfolding process_questions
  process_questions-Counts [] h n m k c =
      (0, omega arith, recount refl (omega arith) (omega arith) c)
  process_questions-Counts (q ∷ qs) h n m k c =
      let (i, small, one) =
        note-Counts (process_question dns storage q h).0 (process_question dns storage q h).1 n
          (suc m) k
          (subst (λ z. Counts n (suc m) k z) (sym (process_question_stats q h))
            (update-Counts q.question_type n m k h.stats c)) in
      let (j, few, rest) =
        process_questions-Counts qs (note_error dns storage (process_question dns storage q h)) n
          (suc m) (k + i) one in
      (i + j, omega (arith, small, few), recount refl (omega arith) (omega arith) rest)

  pub handle-Counts :
      (written : Reply → Bool) (qs : List Question) (s : S) (st : ServerStats) (n m k : ℕ)
      → Counts n m k st
      → (j : ℕ) × (j ≤ suc (length qs))
        × Counts
            (suc n)
            (m + length qs)
            (suc (k + j))
            (handle_dns_request dns storage written qs s st).1
  unfolding handle_dns_request
  handle-Counts written qs s st n m k c =
      let start : Handling S = record {
        inner = s;
        stats = record st { queries_received = inc64 st.queries_received };
        message = record { answer = []; rcode = rcode_success };
      } in
      let (i, few, asked) = process_questions-Counts qs start (suc n) m k (record {
        received = ground (arith, c.received);
        types = c.types;
        outcomes = c.outcomes;
      }) in
      let h = process_questions dns storage qs start in
      let (j, small, ended) =
        written-Counts (written h.message) (suc n) (m + length qs) (suc (k + i)) _
          (outcome-Counts h.message (suc n) (m + length qs) (k + i) h.stats asked) in
      (i + j, omega (arith, few, small), recount refl refl (omega arith) ended)
