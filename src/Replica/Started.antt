-- ===== src/Replica/Started.antt =====
-- What holds of the globals that `Init` of fluid/fluid.go sets.
use fluidfs.Prelude.{
  ℕ, ◌+◌, ◌++◌, ◌≡◌, refl, sym, ap, ◌∙◌, inl, inr, Bool, true, List, [], ◌∷◌, Option, none, some,
  String, str_eq, str_eq_iff, arith, Bool-cases, Option-cases, subst, ◌||◌,
}
use fluidfs.Prelude.Text.{Text, text, trim_space, lines_from}
use fluidfs.Utils.{list_contains}
use fluidfs.Config.{Config, Verdict, valid, invalid, panicked, level_names}
use fluidfs.Config.Load.{load_config}
use fluidfs.Config.Runnable.{IsRunnable, load_config-IsRunnable}
use fluidfs.Logger.{
  LogLevel, level_debug, level_info, level_warn, level_error, level_fatal, level_string,
  level_from_string, Logger, init_logger, log,
}
use fluidfs.Logger.Levels.{KeepsCapitals, level_from_string-level_string}
use fluidfs.Fstab.{Platform, MountPoint, ParseError, parse, blank}
use fluidfs.Fstab.Table.{
  Table, LoadError, LineKind, empty_line, comment, update, definition, line_kind, scanned,
  add_parsed, load_line, load_lines, scanner_error, load,
}
use fluidfs.Replica.Start.{
  Place, Globals, Started, started, bad_config, config_panicked, no_log, bad_fstab, log_loaded,
  after_fstab, after_logger, logger_step, after_config, init_replica,
}

-- A severity by the name that the string is.
abbrev IsNamed : String → Type 0
IsNamed name = (l : LogLevel) × (level_string l ≡ text name)

named :
    (l : LogLevel) (known name : String)
    → level_string l ≡ text known
    → str_eq known name ≡ true
    → IsNamed name
named l known name spelled same = (l, spelled ∙ ap text ((str_eq_iff known name).0 same))

known_level : (name : String) → list_contains name level_names ≡ true → IsNamed name
unfolding list_contains
known_level name h = elim (Bool-cases (str_eq "DEBUG" name)) [
  | inl same ↦ named level_debug "DEBUG" name refl same
  | inr d ↦ elim (Bool-cases (str_eq "INFO" name)) [
    | inl same ↦ named level_info "INFO" name refl same
    | inr i ↦ elim (Bool-cases (str_eq "WARN" name)) [
      | inl same ↦ named level_warn "WARN" name refl same
      | inr w ↦ elim (Bool-cases (str_eq "ERROR" name)) [
        | inl same ↦ named level_error "ERROR" name refl same
        | inr e ↦ named level_fatal "FATAL" name refl (ground (arith, h, d, i, w, e))
      ]
    ]
  ]
]

module _ (p : Platform) where
  -- Code of the loop that keeps the path of the table.
  abbrev KeepsPath : (List Text → Table p → Table p × Option LoadError) → Type 0
  KeepsPath rest = (comments : List Text) (t : Table p) → (rest comments t).0.path ≡ t.path

  add_parsed-path :
      (r : MountPoint p.Uuid × Option ParseError)
      (rest : List Text → Table p → Table p × Option LoadError) (comments : List Text) (t : Table p)
      → KeepsPath rest
      → (add_parsed p r rest comments t).0.path ≡ t.path
  add_parsed-path (mp, some e) rest comments t h = refl
  add_parsed-path (mp, none) rest comments t h = h [] _

  load_line-path :
      (k : LineKind) (line : Text) (rest : List Text → Table p → Table p × Option LoadError)
      → KeepsPath rest
      → KeepsPath (load_line p k line rest)
  unfolding load_line
  load_line-path empty_line line rest h comments t = h comments t
  load_line-path comment line rest h comments t = h _ t
  load_line-path (update date) line rest h comments t =
      elim (Option-cases (p.parse_time (trim_space date))) [
        | inl bad ↦ rw (load_line, bad) refl
        | inr (updated, good) ↦ rw (load_line, good) (h comments (record t { updated = updated }))
      ]
  load_line-path definition line rest h comments t =
      add_parsed-path (parse p (blank p) line) rest comments t h

  load_lines-path : (ls : List Text) → KeepsPath (load_lines p ls)
  unfolding load_lines
  load_lines-path [] comments t = refl
  load_lines-path (l ∷ ls) comments t =
      load_line-path (line_kind (trim_space l)) (trim_space l) (load_lines p ls)
        (load_lines-path ls) comments t

  scanner_error-table :
      (failed : Bool) (r : Table p × Option LoadError) → (scanner_error p failed r).0 ≡ r.0
  scanner_error-table failed (t, some e) = refl
  scanner_error-table failed (t, none) = refl

  load-path : (disk : p.Disk) (now : p.Time) (path : Text) → (load p disk now path).0.path ≡ path
  unfolding load
  load-path disk now path = elim (Bool-cases (p.not_exist disk path)) [
    | inl missing ↦ rw (load, missing) refl
    | inr there ↦ elim (Option-cases (p.open_file disk path)) [
      | inl fails ↦ rw (load, there, fails) refl
      | inr (file, opened) ↦
          let fresh : Table p = record { mounts = []; path = path; updated = now } in
          let s = scanned (lines_from [] file.0) in
          rw (load, there, opened)
            (ap (λ t. t.path) (scanner_error-table (file.1 || s.1) (load_lines p s.0 [] fresh))
              ∙ load_lines-path s.0 [] fresh)
    ]
  ]

log-level :
    (level : LogLevel) (time message : Text) (logger : Logger)
    → (log level time message logger).0.level ≡ logger.level
unfolding log
log-level level time message logger = ground arith

module _ (place : Place) where
  log_loaded-level :
      (n : ℕ) (paths : List String) (logger : Logger)
      → (log_loaded place n paths logger).level ≡ logger.level
  log_loaded-level n [] logger = refl
  log_loaded-level n (path ∷ paths) logger =
      log_loaded-level (n + 1) paths _
      ∙ log-level level_info (place.times n) (text "loaded configuration from " ++ text path) logger

  init_logger-level :
      (level path : Text) (logger : Logger)
      → init_logger place.upper place.open_log place.stdout level path ≡ some logger
      → logger.level ≡ level_from_string place.upper level
  unfolding init_logger
  init_logger-level level path logger e = ground (arith, e)

  -- The globals fit together.
  pub record IsReady (g : Globals place) : Type 0 where
    pub runnable : IsRunnable g.config
    pub level : level_string g.logger.level ≡ text runnable.logging.level
    pub path : g.fstab.path ≡ text g.config.fstab

  module _ (keeps : KeepsCapitals place.upper) where
    logger_level :
        (conf : Config) (logger : Logger) (r : IsRunnable conf)
        → init_logger place.upper place.open_log place.stdout
            (text r.logging.level)
            (text r.logging.path)
          ≡ some logger
        → level_string logger.level ≡ text r.logging.level
    logger_level conf logger r e =
        let (l, spelled) = known_level r.logging.level r.level in
        ap level_string (
          init_logger-level (text r.logging.level) (text r.logging.path) logger e
          ∙ ap (level_from_string place.upper) (sym spelled)
          ∙ level_from_string-level_string place.upper keeps l)
        ∙ spelled

    -- The globals of a start, or others.
    abbrev globals_or : Globals place → Started place → Globals place
    globals_or other (started g) = g
    globals_or other (bad_config e) = other
    globals_or other config_panicked = other
    globals_or other no_log = other
    globals_or other (bad_fstab e) = other

    after_fstab-IsReady :
        (conf : Config) (logger : Logger) (r : Table place.platform × Option LoadError)
        (g : Globals place) (runnable : IsRunnable conf)
        → level_string logger.level ≡ text runnable.logging.level
        → r.0.path ≡ text conf.fstab
        → after_fstab place conf logger r ≡ started g
        → IsReady g
    after_fstab-IsReady conf logger (t, some e) g runnable level path h = absurd (ground (arith, h))
    after_fstab-IsReady conf logger (t, none) g runnable level path h =
        let set : Globals place = record { config = conf; logger = logger; fstab = t } in
        subst IsReady (ap (globals_or set) h)
          (record { runnable = runnable; level = level; path = path })

    after_config-IsReady :
        (files : place.platform.Disk) (now : place.platform.Time) (answer : Config × Verdict)
        (g : Globals place)
        → (answer.1 ≡ valid → IsRunnable answer.0)
        → after_config place files now answer ≡ started g
        → IsReady g
    unfolding after_config logger_step after_logger
    after_config-IsReady files now (conf, invalid e) g runnable h = absurd (ground (arith, h))
    after_config-IsReady files now (conf, panicked) g runnable h = absurd (ground (arith, h))
    after_config-IsReady files now (conf, valid) g runnable h =
        let ready = runnable refl in
        let answer =
          init_logger place.upper place.open_log place.stdout (text ready.logging.level)
            (text ready.logging.path) in
        let reached : after_config place files now (conf, valid)
            ≡ after_logger place files now conf answer =
          ap (logger_step place files now conf) ready.has_logging in
        elim (Option-cases answer) [
          | inl fails ↦
              absurd
                (no_logger (sym (ap (after_logger place files now conf) fails) ∙ sym reached ∙ h))
          | inr (logger, made) ↦
              let r = load place.platform files now (text conf.fstab) in
              after_fstab-IsReady conf (log_loaded place 0 conf.loaded logger) r g ready
                (ap level_string (log_loaded-level 0 conf.loaded logger)
                  ∙ logger_level conf logger ready made)
                (load-path place.platform files now (text conf.fstab))
                (ap (after_logger place files now conf) (sym made) ∙ sym reached ∙ h)
        ]
      where
        no_logger : no_log ≡ started g → ⊥
        no_logger e = ground (arith, e)

    -- Where `Init` succeeds, its globals fit together: a replica can start with the configuration, the
    -- logger writes from the severity on that the configuration names, and the table of mount points
    -- belongs to the configured path, to which later changes are saved.
    pub init_replica-IsReady :
        (random : ℕ) (path : String) (d : place.disk.State) (files : place.platform.Disk)
        (now : place.platform.Time) (g : Globals place)
        → (init_replica place random path d files now).1 ≡ started g
        → IsReady g
    unfolding init_replica
    init_replica-IsReady random path d files now g =
        after_config-IsReady files now
          (load_config place.disk place.machine place.strings place.sources random path d).1 g
          (load_config-IsRunnable place.disk place.strings place.machine place.sources random path
            d)
