-- ===== src/Config/Runnable.antt =====
-- What the rest of the program relies on of a configuration that `LoadConfig` of fluid/config.go
-- answers.
use fluidfs.Prelude.{
  ℕ, ◌≡◌, refl, sym, ap, Option, none, ◌∙◌, subst, inl, inr, true, false, some, String, str_eq,
  ◌==◌, arith, Bool-cases, Option-cases, str_eq_iff,
}
use fluidfs.Utils.{list_contains}
use fluidfs.Config.{
  Strings, Disk, Stat, not_exist, stat_failed, directory, no_directory, Verdict, valid, invalid,
  panicked, not_accessible, LoggingConfig, DatabaseConfig, StorageConfig, Config, driver_names,
  level_names, logging_validate, database_validate, storage_check, storage_accessed,
  ensure_directory, storage_validate, logging_step, storage_step, database_step, after_database,
  validate,
}
use fluidfs.Config.Storage.{IsChecked, storage_check-IsChecked}
use fluidfs.Config.Defaults.{Machine}
use fluidfs.Config.Load.{Sources, read_config, load_config}
use fluidfs.Db.{Driver, select_driver}

-- A configuration that a replica can start with.
pub record IsRunnable (c : Config) : Type 0 where
  pub pid : (c.pid == 0) ≡ false
  pub name : str_eq c.name "" ≡ false
  pub fstab : str_eq c.fstab "" ≡ false
  pub logging : LoggingConfig
  pub has_logging : c.logging ≡ some logging
  pub level : list_contains logging.level level_names ≡ true
  pub database : DatabaseConfig
  pub has_database : c.database ≡ some database
  pub driver : Driver
  pub selected : select_driver database.driver ≡ some driver
  pub database_path : str_eq database.path "" ≡ false
  pub storage : StorageConfig
  pub has_storage : c.storage ≡ some storage
  pub checked : IsChecked storage

known_driver :
    (name : String)
    → list_contains name driver_names ≡ true
    → (driver : Driver) × (select_driver name ≡ some driver)
unfolding list_contains select_driver
known_driver name h = elim (Option-cases (select_driver name)) [
  | inr chosen ↦ chosen
  | inl unknown ↦ absurd (
      ground (
        arith,
        h,
        unknown,
        str_eq_iff "boltdb" name,
        str_eq_iff name "boltdb",
        str_eq_iff "leveldb" name,
        str_eq_iff name "leveldb",
      ))
]

database_validate-known :
    (strings : Strings) (conf : DatabaseConfig)
    → (database_validate strings conf).1 ≡ valid
    → (list_contains (database_validate strings conf).0.driver driver_names ≡ true)
      × (str_eq (database_validate strings conf).0.path "" ≡ false)
unfolding database_validate
database_validate-known strings conf h = (ground arith, ground arith)

module _ (disk : Disk) (strings : Strings) where
  storage_accessed-IsChecked :
      (d : disk.State) (conf : StorageConfig)
      → (storage_accessed disk strings d conf).1 ≡ valid
      → IsChecked (storage_accessed disk strings d conf).0
  unfolding storage_accessed
  storage_accessed-IsChecked d conf = of_stat (disk.stat d conf.path)
    where
      accessed : Stat → StorageConfig × Verdict
      accessed s = elim s [
        | directory ↦ storage_check strings conf
        | no_directory ↦ (conf, invalid not_accessible)
        | _ ↦ (conf, panicked)
      ]

      of_stat : (s : Stat) → (accessed s).1 ≡ valid → IsChecked (accessed s).0
      of_stat directory h = storage_check-IsChecked strings conf h
      of_stat no_directory h = absurd (ground (arith, h))
      of_stat not_exist h = absurd (ground (arith, h))
      of_stat stat_failed h = absurd (ground (arith, h))

  storage_validate-IsChecked :
      (d : disk.State) (conf : StorageConfig)
      → (storage_validate disk strings d conf).1.1 ≡ valid
      → IsChecked (storage_validate disk strings d conf).1.0
  unfolding storage_validate
  storage_validate-IsChecked d conf h = elim (Bool-cases (str_eq conf.path "")) [
    | inl empty ↦ absurd (ground (arith, h, empty))
    | inr given ↦ elim (Option-cases (ensure_directory disk d conf.path)) [
      | inl fails ↦ absurd (ground (arith, h, given, fails))
      | inr (d', made) ↦
          let accessed : (storage_validate disk strings d conf).1
              ≡ storage_accessed disk strings d' conf =
            rw (storage_validate, given, made) refl in
          subst (λ r. IsChecked r.0) (sym accessed)
            (storage_accessed-IsChecked d' conf (ap (λ r. r.1) (sym accessed) ∙ h))
    ]
  ]

  -- The steps of `Validate` that succeed have their part of the configuration.
  storage_step-valid :
      (d : disk.State) (conf : Config) (part : Option StorageConfig)
      → (storage_step disk strings d conf part).1.1 ≡ valid
      → (storage : StorageConfig) × ((storage_validate disk strings d storage).1.1 ≡ valid)
        × ((storage_step disk strings d conf part).1.0
            ≡ (record conf { storage = some (storage_validate disk strings d storage).1.0 }))
  unfolding storage_step
  storage_step-valid d conf none h = absurd (ground (arith, h))
  storage_step-valid d conf (some storage) h = (storage, h, refl)

  after_database-valid :
      (d : disk.State) (conf : Config) (answer : DatabaseConfig × Verdict)
      → (after_database disk strings d conf answer).1.1 ≡ valid
      → (answer.1 ≡ valid)
        × (storage : StorageConfig) × ((storage_validate disk strings d storage).1.1 ≡ valid)
        × ((after_database disk strings d conf answer).1.0 ≡ (record conf {
          database = some answer.0;
          storage = some (storage_validate disk strings d storage).1.0;
        }))
  unfolding after_database
  after_database-valid d conf (database, valid) h =
      let (storage, checked, result) =
        storage_step-valid d (record conf { database = some database }) conf.storage h in
      (refl, storage, checked, result)
  after_database-valid d conf (database, invalid e) h = absurd (ground (arith, h))
  after_database-valid d conf (database, panicked) h = absurd (ground (arith, h))

  database_step-valid :
      (d : disk.State) (conf : Config) (part : Option DatabaseConfig)
      → (database_step disk strings d conf part).1.1 ≡ valid
      → (database : DatabaseConfig) × (database_step disk strings d conf part
          ≡ after_database disk strings d conf (database_validate strings database))
  unfolding database_step
  database_step-valid d conf none h = absurd (ground (arith, h))
  database_step-valid d conf (some database) h = (database, refl)

  logging_step-valid :
      (part : Option LoggingConfig)
      → logging_step part ≡ valid
      → (logging : LoggingConfig) × (part ≡ some logging) × (logging_validate logging ≡ valid)
  unfolding logging_step
  logging_step-valid none h = absurd (ground (arith, h))
  logging_step-valid (some logging) h = (logging, refl, h)

  level_valid :
      (level : String) (path : String)
      → logging_validate (record { level = level; path = path }) ≡ valid
      → list_contains level level_names ≡ true
  unfolding logging_validate
  level_valid level path h = ground (arith, h)

  -- The steps of a `Validate` that succeeds.
  validate-steps :
      (d : disk.State) (conf : Config)
      → (validate disk strings d conf).1.1 ≡ valid
      → ((conf.pid == 0) ≡ false)
        × (str_eq conf.name "" ≡ false)
        × (str_eq conf.fstab "" ≡ false)
        × (logging_step conf.logging ≡ valid)
        × (validate disk strings d conf ≡ database_step disk strings d conf conf.database)
  unfolding validate
  validate-steps d conf h = elim (Bool-cases (conf.pid == 0)) [
    | inl zero_pid ↦ absurd (ground (arith, h, zero_pid))
    | inr pid ↦ elim (Bool-cases (str_eq conf.name "")) [
      | inl no_name ↦ absurd (ground (arith, h, pid, no_name))
      | inr name ↦ elim (Bool-cases (str_eq conf.fstab "")) [
        | inl no_fstab ↦ absurd (ground (arith, h, pid, name, no_fstab))
        | inr fstab ↦
            let rest = logging_cases pid name fstab (logging_step conf.logging) refl in
            (pid, name, fstab, rest.0, rest.1)
      ]
    ]
  ]
    where
      logging_cases :
          (conf.pid == 0) ≡ false
          → str_eq conf.name "" ≡ false
          → str_eq conf.fstab "" ≡ false
          → (v : Verdict) → logging_step conf.logging ≡ v
          → (logging_step conf.logging ≡ valid)
            × (validate disk strings d conf ≡ database_step disk strings d conf conf.database)
      logging_cases pid name fstab valid e = (e, rw (validate, pid, name, fstab, e) refl)
      logging_cases pid name fstab (invalid x) e = absurd (ground (arith, h, pid, name, fstab, e))
      logging_cases pid name fstab panicked e = absurd (ground (arith, h, pid, name, fstab, e))

  validate-IsRunnable :
      (d : disk.State) (conf : Config)
      → (validate disk strings d conf).1.1 ≡ valid
      → IsRunnable (validate disk strings d conf).1.0
  validate-IsRunnable d conf h =
      let (pid, name, fstab, logged, whole) = validate-steps d conf h in
      let (logging, has_logging, logging_valid) = logging_step-valid conf.logging logged in
      let (database, stepped) =
        database_step-valid d conf conf.database (ap (λ r. r.1.1) (sym whole) ∙ h) in
      let (answered, storage, checked, result) =
        after_database-valid d conf (database_validate strings database)
          (ap (λ r. r.1.1) (sym (whole ∙ stepped)) ∙ h) in
      let (known, path) = database_validate-known strings database answered in
      let (driver, selected) = known_driver (database_validate strings database).0.driver known in
      subst IsRunnable (sym (ap (λ r. r.1.0) (whole ∙ stepped) ∙ result)) (record {
        pid = pid;
        name = name;
        fstab = fstab;
        logging = logging;
        has_logging = has_logging;
        level = level_valid logging.level logging.path logging_valid;
        database = (database_validate strings database).0;
        has_database = refl;
        driver = driver;
        selected = selected;
        database_path = path;
        storage = (storage_validate disk strings d storage).1.0;
        has_storage = refl;
        checked = storage_validate-IsChecked d storage checked;
      })

  -- Where `LoadConfig` succeeds, whatever the files and the YAML library gave, a replica can start with
  -- the configuration: it has a process id, a name and an fstab, none of its three parts is nil, the
  -- logging part has the name of a severity, `InitDatabase` knows the driver of the database part, which
  -- has a path, and the storage part passes the checks that the chunkers rely on.
  pub load_config-IsRunnable :
      (machine : Machine) (sources : Sources) (random : ℕ) (path : String) (d : disk.State)
      → (load_config disk machine strings sources random path d).1.1 ≡ valid
      → IsRunnable (load_config disk machine strings sources random path d).1.0
  unfolding load_config
  load_config-IsRunnable machine sources random path d =
      validate-IsRunnable d (read_config disk machine strings sources random path)
