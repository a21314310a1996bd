-- ===== src/Config/Load.antt =====
-- `LoadConfig` of fluid/config.go, and what holds of the configuration that it answers.
use fluidfs.Prelude.{
  ℕ, Bool, true, false, not, List, [], ◌∷◌, ◌++◌, Option, none, some, String, str_eq, if◌then◌else◌,
}
use fluidfs.Prelude.Slices.{Bytes}
use fluidfs.Prelude.Int.{pos}
use fluidfs.Config.{Strings, Disk, Verdict, Config, validate}
use fluidfs.Config.Defaults.{Machine, config_defaults}

-- What is not in the repository: the working directory, the files on disk and the YAML library.
-- `unmarshal` answers what the configuration becomes, and whether there was no error.
pub record Sources : Type 0 where
  pub working_dir : Option String
  pub read_file : String → Option Bytes
  pub unmarshal : Bytes → Config → Config × Bool

-- `Paths`
unfoldable pub paths : Machine → Sources → List String
paths machine sources =
    let etc =
      machine.join ("/" ∷ "etc" ∷ "fluidfs" ∷ "config.yml" ∷ [])
      ∷ machine.join ("/" ∷ "etc" ∷ "fluidfs" ∷ "config.yaml" ∷ [])
      ∷ [] in
    let user : List String = elim machine.home [
      | none ↦ []
      | some home ↦
          machine.join (home ∷ ".fluidfs" ∷ "config.yml" ∷ [])
          ∷ machine.join (home ∷ ".fluidfs" ∷ "config.yaml" ∷ [])
          ∷ []
    ] in
    let working : List String = elim sources.working_dir [
      | none ↦ []
      | some dir ↦
          machine.join (dir ∷ "fluidfs.yml" ∷ [])
          ∷ machine.join (dir ∷ "fluidfs.yaml" ∷ [])
          ∷ machine.join (dir ∷ "conf" ∷ "fluidfs.yml" ∷ [])
          ∷ machine.join (dir ∷ "conf" ∷ "fluidfs.yaml" ∷ [])
          ∷ []
    ] in
    etc ++ user ++ working

-- `Read`: the configuration as the call leaves it, and whether there was no error. An error of the YAML
-- library leaves what it has set.
unfoldable pub read : Sources → String → Config → Config × Bool
read sources path conf = elim (sources.read_file path) [
  | none ↦ (conf, false)
  | some s ↦
      let (read, success) = sources.unmarshal s conf in
      if success then (record read { loaded = read.loaded ++ path ∷ [] }, true) else (read, false)
]

-- The loop over the paths, whose errors are ignored.
unfoldable pub read_all : Sources → List String → Config → Config
unfolding read
read_all sources [] conf = conf
read_all sources (path ∷ rest) conf = read_all sources rest (read sources path conf).0

-- `Environ`, which sets nothing.
abbrev pub environ : Config → Config
environ conf = conf

-- `new(Config)`
abbrev pub new_config : Config
new_config = record {
  pid = 0;
  name = "";
  host = "";
  port = pos 0;
  fstab = "";
  logging = none;
  database = none;
  storage = none;
  loaded = [];
}

module _ (disk : Disk) (machine : Machine) (strings : Strings) (sources : Sources) where
  -- The configuration before `Validate`.
  unfoldable pub read_config : ℕ → String → Config
  unfolding config_defaults paths read_all
  read_config random path =
      let conf =
        read_all sources (paths machine sources) (config_defaults machine random new_config) in
      environ (if not (str_eq path "") then (read sources path conf).0 else conf)

  -- The disk as the call leaves it, the configuration, and the verdict; the configuration is answered
  -- where the verdict is valid.
  unfoldable pub load_config : ℕ → String → disk.State → disk.State × (Config × Verdict)
  unfolding read_config validate
  load_config random path d = validate disk strings d (read_config random path)
