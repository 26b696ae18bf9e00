-- ===== src/Logging/Start.antt =====
-- internal/logging/logger.go: the global logger. What the file system answers is an argument: `none` is
-- no error. A nil logger is `none`.
use errantdns_io.Base.{
  ◌≡◌, refl, ◌∙◌, ap, ◌⊎◌, inl, inr, Bool, true, false, Option, none, some, List, [], ◌∷◌,
  if◌then◌else◌,
}
use errantdns_io.Base.Text.{Bytes, codes}
use errantdns_io.Logging.{Logger, new_logger}
use errantdns_io.Storage.Interface.{Result, ok, err}

-- the errors of newLogger
pub data StartError (E : Type 0) : Type 0 where
  directory_failed app_failed query_failed error_failed : E → StartError E

-- the answers of MkdirAll and of the three calls of OpenFile
pub record FileAnswers (E : Type 0) : Type 0 where
  pub directory_answer : Option E
  pub app_answer : Option E
  pub query_answer : Option E
  pub error_answer : Option E

-- `globalLogger` with the state of `once`
pub record Global : Type 0 where
  pub is_done : Bool
  pub global_logger : Option Logger

-- the variables at the start
abbrev pub no_logger : Global
no_logger = record { is_done = false; global_logger = none }

-- `if err != nil { return nil, ... }`, and the code behind it
abbrev or_fail :
    {E : Type 0}
    → (E → StartError E)
    → Option E
    → Result (StartError E) Logger
    → Result (StartError E) Logger
or_fail wrap (some e) rest = err (wrap e)
or_fail wrap none rest = rest

-- newLogger, with setupAppLogger, setupQueryLogger and setupErrorLogger
pub make_logger : {E : Type 0} → FileAnswers E → Bytes → Result (StartError E) Logger
make_logger a config_level = or_fail directory_failed a.directory_answer (
    or_fail app_failed a.app_answer (
      or_fail query_failed a.query_answer
        (or_fail error_failed a.error_answer (ok (new_logger config_level)))))

-- what the function that `once` runs leaves and returns
pub set_global : {E : Type 0} → Result (StartError E) Logger → Global × Option (StartError E)
set_global (err e) = (record { is_done = true; global_logger = none }, some e)
set_global (ok l) = (record { is_done = true; global_logger = some l }, none)

-- Initialize
pub initialize : {E : Type 0} → FileAnswers E → Bytes → Global → Global × Option (StartError E)
initialize a config_level g =
    let made = set_global (make_logger a config_level) in if g.is_done then (g, none) else made

-- GetLogger: the default configuration has the level INFO
pub get_logger : {E : Type 0} → FileAnswers E → Global → Global × Option Logger
get_logger a g = elim g.global_logger [
  | some l ↦ (g, some l)
  | none ↦ let tried = (initialize a (codes "INFO") g).0 in (tried, tried.global_logger)
]

-- Close, with the answers of the files that are open, in the order of the code
unfoldable pub close_logger : {E : Type 0} → List (Option E) → (last_error : Option E) → Option E
close_logger [] last_error = last_error
close_logger (none ∷ answers) last_error = close_logger answers last_error
close_logger (some e ∷ answers) last_error = close_logger answers (some e)

-- a call for the global logger, with the answers of the file system
pub data GlobalCall (E : Type 0) : Type 0 where
  initialize_call : FileAnswers E → (config_level : Bytes) → GlobalCall E
  get_call : FileAnswers E → GlobalCall E

module _ {E : Type 0} where
  pub global_step : GlobalCall E → Global → Global
  global_step (initialize_call a config_level) g = (initialize a config_level g).0
  global_step (get_call a) g = (get_logger a g).0

  pub global_run : List (GlobalCall E) → Global → Global
  global_run [] g = g
  global_run (c ∷ calls) g = global_run calls (global_step c g)

-- the global logger after `once` ran its function
abbrev decided : Option Logger → Global
decided l = record { is_done = true; global_logger = l }

module _ {E : Type 0} where
  -- a logger of the level, or an error
  Made : Bytes → Result (StartError E) Logger → Type 0
  Made config_level r = (r ≡ ok (new_logger config_level)) ⊎ ((e : StartError E) × (r ≡ err e))

  or_fail-Made :
      (wrap : E → StartError E) (answer : Option E) (config_level : Bytes)
      (rest : Result (StartError E) Logger)
      → Made config_level rest
      → Made config_level (or_fail wrap answer rest)
  unfolding Made
  or_fail-Made wrap none config_level rest h = h
  or_fail-Made wrap (some e) config_level rest h = inr (wrap e, refl)

  make_logger-Made :
      (a : FileAnswers E) (config_level : Bytes) → Made config_level (make_logger a config_level)
  unfolding Made make_logger
  make_logger-Made a config_level =
      or_fail-Made directory_failed a.directory_answer config_level _ (
        or_fail-Made app_failed a.app_answer config_level _ (
          or_fail-Made query_failed a.query_answer config_level _
            (or_fail-Made error_failed a.error_answer config_level _ (inl refl))))

  get_logger_done :
      (a : FileAnswers E) (l : Option Logger) → get_logger a (decided l) ≡ (decided l, l)
  unfolding get_logger initialize
  get_logger_done a none = refl
  get_logger_done a (some l) = refl

  global_step_done : (c : GlobalCall E) (l : Option Logger) → global_step c (decided l) ≡ decided l
  unfolding global_step initialize
  global_step_done (initialize_call a config_level) l = refl
  global_step_done (get_call a) l = ap (λ z. z.0) (get_logger_done a l)

  global_run_done :
      (calls : List (GlobalCall E)) (l : Option Logger) → global_run calls (decided l) ≡ decided l
  unfolding global_run
  global_run_done [] l = refl
  global_run_done (c ∷ calls) l =
      ap (global_run calls) (global_step_done c l) ∙ global_run_done calls l

  got :
      (b : FileAnswers E) (calls : List (GlobalCall E)) (l : Option Logger)
      → (get_logger b (global_run calls (decided l))).1 ≡ l
  got b calls l =
      ap (λ z. (get_logger b z).1) (global_run_done calls l) ∙ ap (λ z. z.1) (get_logger_done b l)

  -- The first Initialize decides: if it returns an error, there is no logger behind any later calls of
  -- Initialize and GetLogger, whatever the file system answers them; if it does not, every later
  -- GetLogger returns the logger of its level.
  pub initialize-global_run :
      (a b : FileAnswers E) (config_level : Bytes) (calls : List (GlobalCall E))
      → let (g, failed) = initialize a config_level no_logger in
        let result = (get_logger b (global_run calls g)).1 in
        (failed ≡ none → result ≡ some (new_logger config_level))
        × ((e : StartError E) → failed ≡ some e → result ≡ none)
  unfolding initialize Made set_global
  initialize-global_run a b config_level calls = elim (make_logger-Made a config_level) [
    | inl made ↦ rw made ((λ _. got b calls (some (new_logger config_level))), (λ e h. cc))
    | inr (e, failed) ↦ rw failed ((λ h. cc), (λ e' h. got b calls none))
  ]
