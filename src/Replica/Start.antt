-- ===== src/Replica/Start.antt =====
-- `Init` of fluid/fluid.go: the configuration, the logger and the table of mount points, each from
-- what the ones before give. The routes of the API, which `Init` sets up last, are not modelled.
use fluidfs.Prelude.{ℕ, ◌+◌, List, [], ◌∷◌, ◌++◌, Option, none, some, String}
use fluidfs.Prelude.Text.{Text, text}
use fluidfs.Config.{
  Strings, Disk, LoggingConfig, Config, Verdict, valid, invalid, panicked, ConfigError,
}
use fluidfs.Config.Defaults.{Machine}
use fluidfs.Config.Load.{Sources, load_config}
use fluidfs.Logger.{Logger, info, init_logger, log}
use fluidfs.Fstab.{Platform}
use fluidfs.Fstab.Table.{Table, LoadError, load}

-- Where a replica starts: the parameters of the three parts, with the texts of the times that the log
-- lines hold.
pub record Place : Type 1 where
  pub disk : Disk
  pub machine : Machine
  pub strings : Strings
  pub sources : Sources
  pub upper : ℕ → ℕ
  pub open_log : Text → Option (List Text)
  pub stdout : List Text
  pub times : ℕ → Text
  pub platform : Platform

module _ (place : Place) where
  open place use {disk, platform}

  -- The globals that `Init` sets.
  pub record Globals : Type 0 where
    pub config : Config
    pub logger : Logger
    pub fstab : Table platform

  pub data Started : Type 0 where
    started : Globals → Started
    bad_config : ConfigError → Started
    config_panicked no_log : Started
    bad_fstab : LoadError → Started

  -- The loop over the configurations that were loaded.
  abbrev pub log_loaded : ℕ → List String → Logger → Logger
  log_loaded n [] logger = logger
  log_loaded n (path ∷ paths) logger =
      log_loaded (n + 1) paths
        (info (place.times n) (text "loaded configuration from " ++ text path) logger).0

  -- The end of `Init`, from the answer of `fstab.Load`.
  abbrev pub after_fstab : Config → Logger → Table platform × Option LoadError → Started
  after_fstab conf logger (t, some e) = bad_fstab e
  after_fstab conf logger (t, none) = started (record { config = conf; logger = logger; fstab = t })

  -- `Init` from the answer of `InitLogger` on.
  unfoldable pub after_logger : platform.Disk → platform.Time → Config → Option Logger → Started
  unfolding log load
  after_logger files now conf none = no_log
  after_logger files now conf (some logger) =
      after_fstab conf (log_loaded 0 conf.loaded logger) (load platform files now (text conf.fstab))

  -- `InitLogger` and what follows; it panics where the pointer is nil.
  unfoldable pub logger_step :
      platform.Disk → platform.Time → Config → Option LoggingConfig → Started
  unfolding init_logger after_logger
  logger_step files now conf none = config_panicked
  logger_step files now conf (some logging) =
      after_logger files now conf (
        init_logger place.upper place.open_log place.stdout (text logging.level)
          (text logging.path))

  -- `Init` from the answer of `LoadConfig` on.
  unfoldable pub after_config : platform.Disk → platform.Time → Config × Verdict → Started
  unfolding logger_step
  after_config files now (conf, valid) = logger_step files now conf conf.logging
  after_config files now (conf, invalid e) = bad_config e
  after_config files now (conf, panicked) = config_panicked

  -- `Init`: the directories as the call leaves them, and what it comes to.
  unfoldable pub init_replica :
      ℕ → String → disk.State → platform.Disk → platform.Time → disk.State × Started
  unfolding load_config after_config
  init_replica random path d files now =
      let (d', answer) = load_config disk place.machine place.strings place.sources random path d in
      (d', after_config files now answer)
