-- ===== src/Server/Totals/Requests.antt =====
-- internal/dns/server.go: sequences of requests and the totals of the statistics behind them.
use errantdns_io.Base.{ℕ, suc, ◌+◌, ◌≤◌, refl, Bool, List, [], ◌∷◌, length, arith}
use errantdns_io.Server.{ServerStats, Question, Reply, handle_dns_request}
use errantdns_io.Server.Message.{DnsPackage}
use errantdns_io.Storage.Interface.{Storage}
use errantdns_io.Server.Totals.{Counts, recount, handle-Counts}

-- the statistics of a new server
abbrev pub new_stats : ServerStats
new_stats = record {
  queries_received = 0;
  queries_answered = 0;
  queries_nxdomain = 0;
  queries_error = 0;
  count_a = 0;
  count_aaaa = 0;
  count_cname = 0;
  count_mx = 0;
  count_txt = 0;
  count_ns = 0;
  count_srv = 0;
  count_soa = 0;
  count_ptr = 0;
  count_caa = 0;
  count_other = 0;
}

-- a request, and which responses to it can be written
pub record Request : Type 0 where
  pub questions : List Question
  pub written : Reply → Bool

-- the number of questions of the requests
pub question_count : List Request → ℕ
question_count [] = 0
question_count (r ∷ requests) = length r.questions + question_count requests

module _ {S E : Type 0} (dns : DnsPackage) (storage : Storage S E) where
  -- a sequence of requests
  pub handle_all : List Request → S → ServerStats → S × ServerStats
  handle_all [] s st = (s, st)
  handle_all (r ∷ requests) s st =
      let done = handle_dns_request dns storage r.written r.questions s st in
      handle_all requests done.0 done.1

  handle_all-Counts :
      (requests : List Request) (s : S) (st : ServerStats) (n m k : ℕ)
      → Counts n m k st
      → (j : ℕ) × (j ≤ length requests + question_count requests)
        × Counts
            (length requests + n)
            (m + question_count requests)
            (length requests + (k + j))
            (handle_all requests s st).1
  unfolding handle_all question_count
  handle_all-Counts [] s st n m k c =
      (0, omega arith, recount (omega arith) (omega arith) (omega arith) c)
  handle_all-Counts (r ∷ requests) s st n m k c =
      let done = handle_dns_request dns storage r.written r.questions s st in
      let (i, few, first) = handle-Counts dns storage r.written r.questions s st n m k c in
      let (j, small, rest) =
        handle_all-Counts requests done.0 done.1 (suc n) (m + length r.questions) (suc (k + i))
          first in
      (i + j, omega (arith, few, small), recount (omega arith) (omega arith) (omega arith) rest)

  -- Over any sequence of requests to a new server, with any storage behind it: as bit patterns of 64
  -- bits, the received queries are the requests, the counters of the types add up to the questions, and
  -- the answered, NXDOMAIN and error counters add up to the requests and at most one more for each
  -- question and each request.
  pub handle_all-totals :
      (requests : List Request) (s : S)
      → (j : ℕ) × (j ≤ length requests + question_count requests)
        × Counts
            (length requests)
            (question_count requests)
            (length requests + j)
            (handle_all requests s new_stats).1
  handle_all-totals requests s =
      let (j, few, counted) =
        handle_all-Counts requests s new_stats 0 0 0
          (record { received = refl; types = refl; outcomes = refl }) in
      (j, few, recount (omega arith) (omega arith) (omega arith) counted)
