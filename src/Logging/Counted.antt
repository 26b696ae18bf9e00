-- ===== src/Logging/Counted.antt =====
-- internal/logging/logger.go: what the counters of GetStats say of the lines.
use errantdns_io.Base.{
  ℕ, suc, ◌%◌, ◌^◌, ◌≡◌, refl, Bool, true, false, ◌&&◌, List, [], ◌∷◌, leb, length, inc64, arith,
  if◌then◌else◌,
}
use errantdns_io.Base.Text.{Bytes, codes, eqb}
use errantdns_io.Logging.{
  Level, Line, Event, dns_query, dns_query_debug, app_message, cache_miss, debug_level, log_app,
  rank, info_level, warn_level, error_level, Logger, LogCall, new_logger, write_line,
  get_slog_level, should_sample_query, info, warn, error, debug, log_query, log_query_debug,
  log_nxdomain, log_query_timeout, log_cache_miss, log_malformed_query, log_step, log_run,
  info_call, warn_call, error_call, debug_call, query_call, query_debug_call, nxdomain_call,
  timeout_call, cache_miss_call, malformed_call,
}

-- how many lines are of sampled queries
pub sampled : List Line → ℕ
sampled [] = 0
sampled (line ∷ lines) = elim line.event [ dns_query ↦ suc (sampled lines) | _ ↦ sampled lines ]

-- whether no line is below a level
pub all_from : Level → List Line → Bool
all_from minimum [] = true
all_from minimum (line ∷ lines) = leb (rank minimum) (rank line.level) && all_from minimum lines

-- whether no line is of a cache miss
pub no_cache_miss : List Line → Bool
no_cache_miss [] = true
no_cache_miss (line ∷ lines) = elim line.event [ cache_miss ↦ false | _ ↦ no_cache_miss lines ]

-- What holds of a logger of a level.
pub record IsCounted (config_level : Bytes) (l : Logger) : Type 0 where
  pub level : l.config_level ≡ config_level
  pub queries : l.queries_logged ≡ sampled l.query_lines % 2 ^ 64
  pub errors : l.errors_logged ≡ length l.error_lines % 2 ^ 64
  pub never_sampled : l.queries_sampled ≡ 0
  pub app_from : all_from (get_slog_level config_level) l.app_lines ≡ true
  pub no_miss : no_cache_miss l.error_lines ≡ true

all_from-write_line :
    (minimum level : Level) (event : Event) (lines : List Line)
    → all_from minimum lines ≡ true
    → all_from minimum (write_line minimum level event lines) ≡ true
unfolding all_from write_line
all_from-write_line minimum level event lines h = ground arith

count_up : (n k : ℕ) → k ≡ n % 2 ^ 64 → inc64 k ≡ suc n % 2 ^ 64
count_up n k h = ground arith

app-IsCounted :
    (config_level : Bytes) (level : Level) (message : Bytes) (l : Logger)
    → IsCounted config_level l
    → IsCounted config_level (log_app level message l)
app-IsCounted config_level level message l h = record {
  level = h.level;
  queries = h.queries;
  errors = h.errors;
  never_sampled = h.never_sampled;
  app_from = rw h.level (
      all_from-write_line (get_slog_level config_level) level (app_message message) l.app_lines
        h.app_from);
  no_miss = h.no_miss;
}

-- a line of the error log that is counted
error-IsCounted :
    (config_level : Bytes) (line : Line) (l : Logger)
    → no_cache_miss (line ∷ []) ≡ true
    → IsCounted config_level l
    → IsCounted config_level
        (record l { error_lines = line ∷ l.error_lines; errors_logged = inc64 l.errors_logged })
unfolding no_cache_miss
error-IsCounted config_level line l other h = record {
  level = h.level;
  queries = h.queries;
  errors = count_up (length l.error_lines) l.errors_logged h.errors;
  never_sampled = h.never_sampled;
  app_from = h.app_from;
  no_miss = ground (arith, h.no_miss);
}

query-IsCounted :
    (config_level : Bytes) (drawn : Bool) (l : Logger)
    → IsCounted config_level l
    → IsCounted config_level (log_query drawn l)
unfolding log_query write_line sampled
query-IsCounted config_level drawn l h = by_sample (should_sample_query drawn l)
  where
    logged : Logger
    logged = record l {
      query_lines = record { level = info_level; event = dns_query } ∷ l.query_lines;
      queries_logged = inc64 l.queries_logged;
    }

    by_sample : (sample : Bool) → IsCounted config_level (if sample then logged else l)
    by_sample false = h
    by_sample true = record {
      level = h.level;
      queries = count_up (sampled l.query_lines) l.queries_logged h.queries;
      errors = h.errors;
      never_sampled = h.never_sampled;
      app_from = h.app_from;
      no_miss = h.no_miss;
    }

query_debug-IsCounted :
    (config_level : Bytes) (l : Logger)
    → IsCounted config_level l
    → IsCounted config_level (log_query_debug l)
unfolding log_query_debug write_line sampled
query_debug-IsCounted config_level l h = by_level (eqb l.config_level (codes "DEBUG"))
  where
    logged : Logger
    logged = record l {
      query_lines = record { level = debug_level; event = dns_query_debug } ∷ l.query_lines;
    }

    by_level : (is_debug : Bool) → IsCounted config_level (if is_debug then logged else l)
    by_level false = h
    by_level true = record {
      level = h.level;
      queries = h.queries;
      errors = h.errors;
      never_sampled = h.never_sampled;
      app_from = h.app_from;
      no_miss = h.no_miss;
    }

log_step-IsCounted :
    (config_level : Bytes) (c : LogCall) (l : Logger)
    → IsCounted config_level l
    → IsCounted config_level (log_step c l)
unfolding log_step info warn error debug log_nxdomain log_query_timeout log_cache_miss
    log_malformed_query write_line no_cache_miss
log_step-IsCounted config_level (info_call message) l h =
    app-IsCounted config_level info_level message l h
log_step-IsCounted config_level (warn_call message) l h =
    app-IsCounted config_level warn_level message l h
log_step-IsCounted config_level (error_call message) l h =
    app-IsCounted config_level error_level message l h
log_step-IsCounted config_level (debug_call message) l h =
    app-IsCounted config_level debug_level message l h
log_step-IsCounted config_level (query_call drawn) l h = query-IsCounted config_level drawn l h
log_step-IsCounted config_level query_debug_call l h = query_debug-IsCounted config_level l h
log_step-IsCounted config_level nxdomain_call l h = error-IsCounted config_level _ l refl h
log_step-IsCounted config_level timeout_call l h = error-IsCounted config_level _ l refl h
log_step-IsCounted config_level cache_miss_call l h = h
log_step-IsCounted config_level malformed_call l h = error-IsCounted config_level _ l refl h

log_run_keeps :
    (config_level : Bytes) (calls : List LogCall) (l : Logger)
    → IsCounted config_level l
    → IsCounted config_level (log_run calls l)
unfolding log_run
log_run_keeps config_level [] l h = h
log_run_keeps config_level (c ∷ calls) l h =
    log_run_keeps config_level calls (log_step c l) (log_step-IsCounted config_level c l h)

-- After any calls on a new logger, the counters are the numbers of lines modulo 2 ^ 64: the logged
-- queries those of the query log that are not debug lines, and the errors those of the error log. The
-- counter of sampled queries stays 0, no line of the application log is below the level of the
-- configuration, and no cache miss is ever written.
pub log_run-IsCounted :
    (config_level : Bytes) (calls : List LogCall)
    → IsCounted config_level (log_run calls (new_logger config_level))
unfolding sampled all_from no_cache_miss
log_run-IsCounted config_level calls =
    log_run_keeps config_level calls (new_logger config_level) (record {
      level = refl;
      queries = refl;
      errors = refl;
      never_sampled = refl;
      app_from = refl;
      no_miss = refl;
    })
