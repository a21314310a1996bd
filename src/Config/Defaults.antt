-- ===== src/Config/Defaults.antt =====
-- The defaults of fluid/config.go, and that they are valid.
use fluidfs.Prelude.{ℕ, ◌≡◌, refl, false, List, [], ◌∷◌, Option, none, some, String, str_eq}
use fluidfs.Prelude.Int.{pos}
use fluidfs.Utils.{list_contains}
use fluidfs.Config.{
  Strings, regularize, valid, LoggingConfig, DatabaseConfig, StorageConfig, Config,
  logging_validate, database_validate, storage_check,
}

-- What the defaults take from the machine: `os.Hostname`, the home directory of `user.Current`, where
-- none is an error, and `filepath.Join`.
pub record Machine : Type 0 where
  pub hostname : Option String
  pub home : Option String
  pub join : List String → String

-- A path in the hidden directory, or the path as it was where there is no home.
abbrev pub hidden_path : Machine → String → String → String
hidden_path machine name path = elim machine.home [
  | none ↦ path
  | some home ↦ machine.join (home ∷ ".fluidfs" ∷ name ∷ [])
]

unfoldable pub logging_defaults : LoggingConfig → LoggingConfig
logging_defaults conf = record conf { level = "INFO" }

unfoldable pub database_defaults : Machine → DatabaseConfig → DatabaseConfig
database_defaults machine conf = record conf {
  driver = "boltdb";
  path = hidden_path machine "cache.bdb" conf.path;
}

unfoldable pub storage_defaults : Machine → StorageConfig → StorageConfig
storage_defaults machine conf = record {
  path = hidden_path machine "data" conf.path;
  chunking = "variable";
  block_size = pos 4096;
  min_block_size = pos 2048;
  max_block_size = pos 8192;
  hashing = "sha256";
}

-- The parts after `new` and their defaults.
abbrev pub default_logging : LoggingConfig
default_logging = logging_defaults (record { level = ""; path = "" })

abbrev pub default_database : Machine → DatabaseConfig
default_database machine = database_defaults machine (record { driver = ""; path = "" })

abbrev pub default_storage : Machine → StorageConfig
default_storage machine = storage_defaults machine (record {
  path = "";
  chunking = "";
  block_size = pos 0;
  min_block_size = pos 0;
  max_block_size = pos 0;
  hashing = "";
})

-- `random` is what `rand.Intn(1000)` answers. The three parts are new.
unfoldable pub config_defaults : Machine → ℕ → Config → Config
unfolding logging_defaults database_defaults storage_defaults
config_defaults machine random conf = record conf {
  pid = random;
  name = elim machine.hostname [ none ↦ conf.name | some name ↦ name ];
  port = pos 4157;
  fstab = hidden_path machine "fstab" conf.fstab;
  logging = some default_logging;
  database = some (default_database machine);
  storage = some (default_storage machine);
}

module _ (machine : Machine) (strings : Strings) (boltdb : regularize strings "boltdb" ≡ "boltdb")
    (variable : regularize strings "variable" ≡ "variable")
    (sha256 : regularize strings "sha256" ≡ "sha256") where
  -- The default logging and database configurations are valid, and the default storage configuration
  -- passes its checks unchanged, if trimming and lowering leave the default names as they are, and the
  -- path of the database is not empty.
  pub defaults_valid :
      str_eq (default_database machine).path "" ≡ false
      → (logging_validate default_logging ≡ valid)
        × (database_validate strings (default_database machine) ≡ (default_database machine, valid))
        × (storage_check strings (default_storage machine) ≡ (default_storage machine, valid))
  unfolding logging_defaults database_defaults storage_defaults logging_validate database_validate
      storage_check list_contains
  defaults_valid path =
      (refl, rw (database_validate, boltdb, path) refl, rw (storage_check, variable, sha256) refl)
