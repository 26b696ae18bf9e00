-- ===== src/Logging.antt =====
-- internal/logging/logger.go: the three loggers with their levels, the sampling of queries and the
-- counters. A logger is the lines that it wrote, the last one first. What a line says beside its level
-- and its event is not kept, nor are the files.
pub mod Counted
pub mod Start
mod Tests
use errantdns_io.Base.{ℕ, Bool, true, false, ◌||◌, List, [], ◌∷◌, leb, inc64, if◌then◌else◌}
use errantdns_io.Base.Text.{Bytes, codes, eqb}

-- slog.Level
pub data Level : Type 0 where
  debug_level info_level warn_level error_level : Level

-- the order of the levels
abbrev pub rank : Level → ℕ
rank debug_level = 0
rank info_level = 1
rank warn_level = 2
rank error_level = 3

-- the message of a line
pub data Event : Type 0 where
  app_message : Bytes → Event
  dns_query dns_query_debug nxdomain query_timeout cache_miss malformed_query : Event

pub record Line : Type 0 where
  pub level : Level
  pub event : Event

-- type Logger, with the rate as a test of the number that the generator draws
pub record Logger : Type 0 where
  pub config_level : Bytes
  pub app_lines : List Line
  pub query_lines : List Line
  pub error_lines : List Line
  pub queries_logged : ℕ
  pub queries_sampled : ℕ
  pub errors_logged : ℕ

-- a handler of slog writes the lines of its level and above
pub write_line : (minimum : Level) → Level → Event → List Line → List Line
write_line minimum level event lines =
    if leb (rank minimum) (rank level)
    then record { level = level; event = event } ∷ lines
    else lines

-- getSlogLevel
unfoldable pub get_slog_level : Bytes → Level
get_slog_level s =
    if eqb s (codes "DEBUG")
    then debug_level
    else if eqb s (codes "INFO")
    then info_level
    else if eqb s (codes "WARN")
    then warn_level
    else if eqb s (codes "ERROR")
    then error_level
    else info_level

-- newLogger
abbrev pub new_logger : Bytes → Logger
new_logger config_level = record {
  config_level = config_level;
  app_lines = [];
  query_lines = [];
  error_lines = [];
  queries_logged = 0;
  queries_sampled = 0;
  errors_logged = 0;
}

-- shouldSampleQuery; `drawn` says whether the number drawn is below the rate
unfoldable pub should_sample_query : (drawn : Bool) → Logger → Bool
should_sample_query drawn l = if eqb l.config_level (codes "DEBUG") then true else drawn

-- Info, Warn, Error and Debug write to the application log
abbrev pub log_app : Level → Bytes → Logger → Logger
log_app level message l = record l {
  app_lines = write_line (get_slog_level l.config_level) level (app_message message) l.app_lines;
}

pub info : Bytes → Logger → Logger
info message l = log_app info_level message l

pub warn : Bytes → Logger → Logger
warn message l = log_app warn_level message l

pub error : Bytes → Logger → Logger
error message l = log_app error_level message l

pub debug : Bytes → Logger → Logger
debug message l = log_app debug_level message l

-- LogQuery; the handler of the query log takes all levels
pub log_query : (drawn : Bool) → Logger → Logger
log_query drawn l =
    if should_sample_query drawn l
    then record l {
      query_lines = write_line debug_level info_level dns_query l.query_lines;
      queries_logged = inc64 l.queries_logged;
    }
    else l

-- LogQueryDebug
pub log_query_debug : Logger → Logger
log_query_debug l =
    if eqb l.config_level (codes "DEBUG")
    then record l { query_lines = write_line debug_level debug_level dns_query_debug l.query_lines }
    else l

-- LogNXDOMAIN; the handler of the error log takes warnings and errors
pub log_nxdomain : Logger → Logger
log_nxdomain l = record l {
  error_lines = write_line warn_level warn_level nxdomain l.error_lines;
  errors_logged = inc64 l.errors_logged;
}

-- LogQueryTimeout
pub log_query_timeout : Logger → Logger
log_query_timeout l = record l {
  error_lines = write_line warn_level error_level query_timeout l.error_lines;
  errors_logged = inc64 l.errors_logged;
}

-- LogCacheMiss
pub log_cache_miss : Logger → Logger
log_cache_miss l = record l {
  error_lines = write_line warn_level info_level cache_miss l.error_lines;
}

-- LogMalformedQuery
pub log_malformed_query : Logger → Logger
log_malformed_query l = record l {
  error_lines = write_line warn_level warn_level malformed_query l.error_lines;
  errors_logged = inc64 l.errors_logged;
}

-- a call of a method that logs
pub data LogCall : Type 0 where
  info_call warn_call error_call debug_call : (message : Bytes) → LogCall
  query_call : (drawn : Bool) → LogCall
  query_debug_call nxdomain_call timeout_call cache_miss_call malformed_call : LogCall

pub log_step : LogCall → Logger → Logger
log_step (info_call message) l = info message l
log_step (warn_call message) l = warn message l
log_step (error_call message) l = error message l
log_step (debug_call message) l = debug message l
log_step (query_call drawn) l = log_query drawn l
log_step query_debug_call l = log_query_debug l
log_step nxdomain_call l = log_nxdomain l
log_step timeout_call l = log_query_timeout l
log_step cache_miss_call l = log_cache_miss l
log_step malformed_call l = log_malformed_query l

pub log_run : List LogCall → Logger → Logger
log_run [] l = l
log_run (c ∷ calls) l = log_run calls (log_step c l)
