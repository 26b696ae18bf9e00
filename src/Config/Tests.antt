-- ===== src/Config/Tests.antt =====
-- Tests of internal/config/config.go.
use errantdns_io.Base.{
  ℕ, ◌≡◌, refl, Bool, true, false, some, [], ◌∷◌, ℕ_discrete, arith, ltb, leb, if◌then◌else◌,
}
use errantdns_io.Base.Int.{pos}
use errantdns_io.Base.Text.Number.{atoi, parse_uint}
use errantdns_io.Base.Text.{Bytes, codes, eqb, to_upper, upper_byte}
use errantdns_io.Cache.{MemoryCache, new_memory_cache}
use errantdns_io.Cache.Invariant.{IsValid}
use errantdns_io.Cache.Run.{run, get_call, set_call}
use errantdns_io.Config.{
  Config, validate_config, validate_database, validate_cache, validate_redis, validate_priority,
  validate_logging, is_level, port_field,
}
use errantdns_io.Config.Load.{ConfigPackages, load}
use errantdns_io.Config.Loaded.{IsFloat, loaded_check, validate_config-load}
use errantdns_io.Samples.{local}
use errantdns_io.Config.Accepted.{run-validate_config}

run-validate_config_example :
    (n : ℕ) × (end : MemoryCache ℕ ℕ) × (local.cache.max_entries ≡ pos n)
    × (run ℕ_discrete (set_call 10 60 7 5 ∷ get_call 12 12 7 ∷ []) (new_memory_cache n) ≡ some end)
    × IsValid ℕ_discrete end
unfolding validate_config validate_database validate_cache validate_redis validate_priority
    validate_logging is_level eqb to_upper upper_byte
run-validate_config_example =
    run-validate_config (λ rate. false) (λ rate. false) ℕ_discrete local
      (set_call 10 60 7 5 ∷ get_call 12 12 7 ∷ []) refl refl

-- rates in percent
abbrev percent : ConfigPackages ℕ
percent = record {
  parse_duration = λ s. atoi s;
  parse_float = λ s. parse_uint 8 s;
  from_zero = λ n. true;
  up_to_one = λ n. leb n 100;
  below_zero = λ n. false;
  above_one = λ n. ltb 100 n;
  one_percent = 1;
}

percent-IsFloat : IsFloat percent
percent-IsFloat = record {
  below_from = λ x h. refl;
  above_up_to = λ x h. ground arith;
  one_percent_from = refl;
  one_percent_up_to = refl;
}

-- two variables are set
abbrev environment : Bytes → Bytes
environment name =
    if eqb name (codes "DB_PORT")
    then codes "70000"
    else if eqb name (codes "LOG_LEVEL")
    then codes "debug"
    else []

validate_config-load_example :
    validate_config percent.below_zero percent.above_one (load percent environment)
    ≡ loaded_check percent environment (load percent environment)
validate_config-load_example = validate_config-load percent environment percent-IsFloat

-- the port is refused
check_port_70000 : loaded_check percent environment (load percent environment) ≡ some port_field
unfolding load errantdns_io.Config.Loaded.check_port errantdns_io.Config.Load.load_server_config
    errantdns_io.Config.Load.load_priority_config errantdns_io.Config.Load.load_database_config
    errantdns_io.Config.Load.load_int errantdns_io.Config.Load.if_set eqb
    errantdns_io.Config.Load.accept atoi errantdns_io.Base.Text.Number.digits_value
check_port_70000 = refl
