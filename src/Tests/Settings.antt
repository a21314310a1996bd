-- ===== src/Tests/Settings.antt =====
-- A concrete configuration, replica and request for fluid/config.go, fluid/fluid.go and fluid/web.go.
use fluidfs.Prelude.{ℕ, ◌≡◌, ◌⊎◌, refl, true, false, List, [], ◌∷◌, map, none, some, String}
use fluidfs.Prelude.Text.{Text, text}
use fluidfs.Config.{
  Strings, Disk, directory, valid, regularize, validate, logging_validate, database_validate,
  logging_step, storage_step, after_database, database_step, storage_validate, storage_accessed,
  ensure_directory, storage_check,
}
use fluidfs.Config.Defaults.{Machine, config_defaults}
use fluidfs.Config.Load.{Sources, read_config, load_config, paths, read_all, read}
use fluidfs.Config.Runnable.{IsRunnable, load_config-IsRunnable}
use fluidfs.Utils.{list_contains}
use fluidfs.Db.{init_database, select_driver}
use fluidfs.Db.Bolt.{bolt_database}
use fluidfs.Db.Level.{level_database}
use fluidfs.Pid.{SaveError, pid_path, save, save_new, free_port}
use fluidfs.Replica.{Services, Replica, no_database, no_pid_file, run, after_save}
use fluidfs.Replica.Mounts.{FileSystem, failures}
use fluidfs.Fstab.{MountPoint}
use fluidfs.Logger.{level_info, level_from_string, init_logger, log}
use fluidfs.Fstab.Table.{load}
use fluidfs.Replica.Start.{
  Place, Globals, started, after_config, logger_step, after_logger, init_replica,
}
use fluidfs.Replica.Started.{IsReady, init_replica-IsReady}
use fluidfs.Replica.Lifecycle.{run-no_database}
use fluidfs.Web.{Json, string, number, Outside, directory as is_directory, mount_handler}
use fluidfs.Web.Requests.{Asks, asked_mount, IsTurnedAway}
use fluidfs.Web.Mounted.{IsMounted, mount_handler-Unique}
use fluidfs.Tests.Db.{bolt, level}
use fluidfs.Tests.Fstab.{platform, table, home, other}
use fluidfs.Tests.Services.{
  upper_ascii, upper_ascii-KeepsCapitals, system, system_laws, server, no_pid,
}

abbrev strings : Strings
strings = record { trim_space = λ s. s; to_lower = λ s. s }

abbrev one_directory : Disk
one_directory = record { State = Unit; stat = λ d path. directory; mkdir_all = λ d path. some d }

abbrev machine : Machine
machine = record { hostname = some "alpha"; home = some "/home/alpha"; join = λ parts. "/joined" }

-- No file can be read.
abbrev no_sources : Sources
no_sources = record {
  working_dir = none;
  read_file = λ path. none;
  unmarshal = λ s conf. (conf, false);
}

defaults_load : (load_config one_directory machine strings no_sources 42 "" tt).1.1 ≡ valid
unfolding load_config read_config validate logging_validate database_validate storage_validate
    storage_accessed ensure_directory storage_check config_defaults paths read_all read
    list_contains regularize logging_step storage_step after_database database_step
defaults_load = refl

load_config-IsRunnable_example :
    IsRunnable (load_config one_directory machine strings no_sources 42 "" tt).1.0
load_config-IsRunnable_example =
    load_config-IsRunnable one_directory strings machine no_sources 42 "" tt defaults_load

abbrev services : String → Services
services driver = record {
  sys = system;
  bolt = bolt_database bolt;
  level = level_database level;
  Uuid = ℕ;
  driver = driver;
  database_path = text "cache.bdb";
  unmount = λ path. false;
  close_error = [];
}

abbrev replica : (driver : String) → Replica (services driver)
replica driver = record {
  disk = none;
  pid = no_pid;
  database = none;
  mounts = home ∷ other ∷ [];
  systems = [];
  said = [];
}

other_fails : (run (services "other") server (replica "other")).1 ≡ some no_database
unfolding run after_save save save_new free_port pid_path init_database select_driver
other_fails = refl

abbrev running : Replica (services "boltdb")
running = (run (services "boltdb") server (replica "boltdb")).0

-- One file system is served and the other was, when the API fails; no path can be unmounted.
abbrev connected : MountPoint ℕ → FileSystem ℕ
connected mp = record { mount = mp; connected = true }

abbrev serving_replica : Replica (services "boltdb")
serving_replica = record running { systems = map connected (home ∷ other ∷ []) }

none_unmounts : failures (λ path. false) serving_replica.systems ≡ 2
unfolding failures
none_unmounts = refl

abbrev stuck : Replica (services "other")
stuck = (run (services "other") server (replica "other")).0

run-no_database_example :
    (system.not_exist (pid_path system) stuck.disk ≡ false)
    × ((e : SaveError) × ((run (services "other") server stuck).1 ≡ some (no_pid_file e)))
    × ((run (services "other") server stuck).0.disk ≡ stuck.disk)
run-no_database_example =
    run-no_database (services "other") system_laws server server (replica "other") stuck other_fails
      refl

abbrev outside : Outside ℕ ℕ
outside = record { new_uuid = 9; stat = λ path. is_directory; to_uint32 = λ n. n }

abbrev request : List (String × Json ℕ)
request =
    ("path", string (text "/mnt/work"))
    ∷ ("prefix", string (text "work"))
    ∷ ("uid", number 501)
    ∷ ("gid", number 20)
    ∷ []

mount_handler-Unique_example :
    IsTurnedAway platform outside [] table
      (some request)
      (mount_handler platform outside [] tt (some request) table)
    ⊎ ((path prefix : Text) × (uid gid : ℕ) × Asks platform outside
          (some request)
          path
          prefix
          uid
          gid
        × IsMounted platform outside [] tt
            (asked_mount platform outside path prefix uid gid)
            table
            (mount_handler platform outside [] tt (some request) table))
mount_handler-Unique_example =
    mount_handler-Unique platform outside [] tt table (tt, tt) (some request)

abbrev place : Place
place = record {
  disk = one_directory;
  machine = machine;
  strings = strings;
  sources = no_sources;
  upper = upper_ascii;
  open_log = λ path. none;
  stdout = [];
  times = λ n. text "10:00";
  platform = platform;
}

abbrev ready : Globals place
ready = record {
  config = (load_config one_directory machine strings no_sources 42 "" tt).1.0;
  logger = record { level = level_info; output = [] };
  fstab = record { mounts = []; path = text "/joined"; updated = tt };
}

init_starts : (init_replica place 42 "" tt [] tt).1 ≡ started ready
unfolding init_replica after_config after_logger init_logger level_from_string log load load_config
    read_config validate logging_validate database_validate storage_validate storage_accessed
    ensure_directory storage_check config_defaults paths read_all read list_contains regularize
    logging_step storage_step after_database database_step logger_step
init_starts = refl

init_replica-IsReady_example : IsReady place ready
init_replica-IsReady_example =
    init_replica-IsReady place upper_ascii-KeepsCapitals 42 "" tt [] tt ready init_starts
