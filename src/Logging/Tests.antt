-- ===== src/Logging/Tests.antt =====
-- Tests of internal/logging/logger.go.
use errantdns_io.Base.{◌≡◌, some, none, List, true, false, [], ◌∷◌}
use errantdns_io.Base.Text.{Bytes, codes}
use errantdns_io.Logging.{
  LogCall, new_logger, log_run, info_call, debug_call, query_call, nxdomain_call, cache_miss_call,
}
use errantdns_io.Logging.Start.{
  FileAnswers, StartError, no_logger, initialize, get_logger, get_call, initialize_call, global_run,
  initialize-global_run,
}
use errantdns_io.Logging.Counted.{IsCounted, log_run-IsCounted}

abbrev calls : List LogCall
calls =
    info_call (codes "up")
    ∷ debug_call (codes "x")
    ∷ query_call true
    ∷ query_call false
    ∷ cache_miss_call
    ∷ nxdomain_call
    ∷ []

log_run-IsCounted_example : IsCounted (codes "INFO") (log_run calls (new_logger (codes "INFO")))
log_run-IsCounted_example = log_run-IsCounted (codes "INFO") calls

-- a file system without a directory for the log, and one that answers
abbrev full_disk : FileAnswers Bytes
full_disk = record {
  directory_answer = some (codes "full");
  app_answer = none;
  query_answer = none;
  error_answer = none;
}

abbrev good_disk : FileAnswers Bytes
good_disk = record full_disk { directory_answer = none }

initialize-global_run_example :
    let (g, failed) = initialize full_disk (codes "WARN") no_logger in
    let result =
      (get_logger good_disk
        (global_run (get_call good_disk ∷ initialize_call good_disk (codes "INFO") ∷ []) g)).1 in
    (failed ≡ none → result ≡ some (new_logger (codes "WARN")))
    × ((e : StartError Bytes) → failed ≡ some e → result ≡ none)
initialize-global_run_example =
    initialize-global_run full_disk good_disk (codes "WARN")
      (get_call good_disk ∷ initialize_call good_disk (codes "INFO") ∷ [])
