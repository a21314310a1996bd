-- ===== src/Config.antt =====
-- fluid/config.go: the configuration of a replica, its defaults and its validation.
-- What the operating system answers is a parameter: the user's home directory, the host's name and
-- the directories on disk. `strings.TrimSpace` and `strings.ToLower` are parameters too, since their
-- tables are those of Unicode.
pub mod Storage
pub mod Load
pub mod Runnable
pub mod Defaults
use fluidfs.Prelude.{
  ℕ, ◌||◌, List, [], ◌∷◌, Option, none, some, String, str_eq, not, ◌==◌, if◌then◌else◌,
}
use fluidfs.Prelude.Int.{ℤ, pos, ltb_ℤ}
use fluidfs.Utils.{list_contains}

pub record Strings : Type 0 where
  pub trim_space : String → String
  pub to_lower : String → String

-- fluid/utils.go
unfoldable pub regularize : Strings → String → String
regularize strings value = strings.to_lower (strings.trim_space value)

-- What `os.Stat` says of a path: that it does not exist, another error, or whether it is a directory.
pub data Stat : Type 0 where
  not_exist stat_failed directory no_directory : Stat

-- The directories on disk; `mkdir_all` is none if `os.MkdirAll` fails.
pub record Disk : Type 1 where
  pub State : Type 0
  pub stat : State → String → Stat
  pub mkdir_all : State → String → Option State

-- The errors of the three `Validate` methods, by what is wrong.
pub data ConfigError : Type 0 where
  no_pid no_name no_fstab : ConfigError
  bad_level : String → ConfigError
  bad_driver : String → ConfigError
  no_database_path no_storage_path cannot_create not_accessible : ConfigError
  bad_chunking : String → ConfigError
  bad_block_size bad_max_size bad_min_size : ConfigError
  bad_hashing : String → ConfigError

-- The result of a method that validates: nil, an error, or a panic.
pub data Verdict : Type 0 where
  valid : Verdict
  invalid : ConfigError → Verdict
  panicked : Verdict

pub record LoggingConfig : Type 0 where
  pub level : String
  pub path : String

pub record DatabaseConfig : Type 0 where
  pub driver : String
  pub path : String

pub record StorageConfig : Type 0 where
  pub path : String
  pub chunking : String
  pub block_size : ℤ
  pub min_block_size : ℤ
  pub max_block_size : ℤ
  pub hashing : String

-- The three parts are behind pointers, which the YAML library sets to nil where a file has `null`.
pub record Config : Type 0 where
  pub pid : ℕ
  pub name : String
  pub host : String
  pub port : ℤ
  pub fstab : String
  pub logging : Option LoggingConfig
  pub database : Option DatabaseConfig
  pub storage : Option StorageConfig
  pub loaded : List String

-- fluid/logger.go
abbrev pub level_names : List String
level_names = "DEBUG" ∷ "INFO" ∷ "WARN" ∷ "ERROR" ∷ "FATAL" ∷ []

-- fluid/db/db.go
abbrev pub driver_names : List String
driver_names = "boltdb" ∷ "leveldb" ∷ []

-- fluid/chunk.go
abbrev pub chunking_method_names : List String
chunking_method_names = "variable" ∷ "fixed" ∷ []

abbrev pub hashing_algorithm_names : List String
hashing_algorithm_names = "md5" ∷ "sha1" ∷ "sha224" ∷ "sha256" ∷ "murmur" ∷ []

unfoldable pub logging_validate : LoggingConfig → Verdict
unfolding list_contains
logging_validate conf =
    if not (list_contains conf.level level_names) then invalid (bad_level conf.level) else valid

-- The configuration as the call leaves it, and the result.
unfoldable pub database_validate : Strings → DatabaseConfig → DatabaseConfig × Verdict
unfolding regularize
database_validate strings conf =
    let conf' = record conf { driver = regularize strings conf.driver } in
    if not (list_contains conf'.driver driver_names)
    then (conf', invalid (bad_driver conf'.driver))
    else if str_eq conf'.path ""
    then (conf', invalid no_database_path)
    else (conf', valid)

-- What follows the check of the storage directory.
unfoldable pub storage_check : Strings → StorageConfig → StorageConfig × Verdict
unfolding regularize
storage_check strings conf =
    let conf' = record conf { chunking = regularize strings conf.chunking } in
    let conf'' = record conf' { hashing = regularize strings conf'.hashing } in
    if not (list_contains conf'.chunking chunking_method_names)
    then (conf', invalid (bad_chunking conf'.chunking))
    else if ltb_ℤ conf'.block_size (pos 1)
    then (conf', invalid bad_block_size)
    else if ltb_ℤ conf'.max_block_size conf'.block_size
        || ltb_ℤ conf'.max_block_size conf'.min_block_size
    then (conf', invalid bad_max_size)
    else if ltb_ℤ conf'.block_size conf'.min_block_size
        || ltb_ℤ conf'.max_block_size conf'.min_block_size
    then (conf', invalid bad_min_size)
    else if not (list_contains conf''.hashing hashing_algorithm_names)
    then (conf'', invalid (bad_hashing conf''.hashing))
    else (conf'', valid)

-- The call of `Validate` on the pointer; a nil pointer panics.
unfoldable pub logging_step : Option LoggingConfig → Verdict
unfolding logging_validate
logging_step none = panicked
logging_step (some conf) = logging_validate conf

module _ (disk : Disk) where
  -- The directory is created if it does not exist; none is the error.
  unfoldable pub ensure_directory : disk.State → String → Option disk.State
  ensure_directory d path = elim (disk.stat d path) [
    | not_exist ↦ disk.mkdir_all d path
    | _ ↦ some d
  ]

  -- `info, _ := os.Stat(conf.Path)` leaves `info` nil on any error, and the call of its method panics.
  unfoldable pub storage_accessed : Strings → disk.State → StorageConfig → StorageConfig × Verdict
  unfolding storage_check
  storage_accessed strings d conf = elim (disk.stat d conf.path) [
    | directory ↦ storage_check strings conf
    | no_directory ↦ (conf, invalid not_accessible)
    | _ ↦ (conf, panicked)
  ]

  -- The disk and the configuration as the call leaves them, and the result.
  unfoldable pub storage_validate :
      Strings → disk.State → StorageConfig → disk.State × (StorageConfig × Verdict)
  unfolding storage_accessed ensure_directory
  storage_validate strings d conf =
      let created = ensure_directory d conf.path in
      if str_eq conf.path "" then (d, (conf, invalid no_storage_path)) else elim created [
        | none ↦ (d, (conf, invalid cannot_create))
        | some d' ↦ (d', storage_accessed strings d' conf)
      ]

  -- The end of `Validate`; a nil pointer panics.
  unfoldable pub storage_step :
      Strings → disk.State → Config → Option StorageConfig → disk.State × (Config × Verdict)
  unfolding storage_validate
  storage_step strings d conf none = (d, (conf, panicked))
  storage_step strings d conf (some part) =
      let (d', (storage, verdict)) = storage_validate strings d part in
      (d', (record conf { storage = some storage }, verdict))

  -- `Validate` from the answer for the database on.
  unfoldable pub after_database :
      Strings → disk.State → Config → DatabaseConfig × Verdict → disk.State × (Config × Verdict)
  unfolding storage_step
  after_database strings d conf (database, valid) =
      storage_step strings d (record conf { database = some database }) conf.storage
  after_database strings d conf (database, verdict) =
      (d, (record conf { database = some database }, verdict))

  unfoldable pub database_step :
      Strings → disk.State → Config → Option DatabaseConfig → disk.State × (Config × Verdict)
  unfolding after_database database_validate
  database_step strings d conf none = (d, (conf, panicked))
  database_step strings d conf (some part) =
      after_database strings d conf (database_validate strings part)

  unfoldable pub validate : Strings → disk.State → Config → disk.State × (Config × Verdict)
  unfolding storage_step after_database database_step logging_step
  validate strings d conf =
      if conf.pid == 0
      then (d, (conf, invalid no_pid))
      else if str_eq conf.name ""
      then (d, (conf, invalid no_name))
      else if str_eq conf.fstab ""
      then (d, (conf, invalid no_fstab))
      else elim (logging_step conf.logging) [
        | valid ↦ database_step strings d conf conf.database
        | invalid e ↦ (d, (conf, invalid e))
        | panicked ↦ (d, (conf, panicked))
      ]
