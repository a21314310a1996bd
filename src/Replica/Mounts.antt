-- ===== src/Replica/Mounts.antt =====
-- `FileSystem` of fluid/fuse.go as it runs and shuts down, and `FuseFSTable` of fluid/fstab.go.
use fluidfs.Prelude.{
  ℕ, ◌+◌, Bool, true, false, not, List, [], ◌∷◌, ◌++◌, Option, none, some, if◌then◌else◌, length,
  ltb,
}
use fluidfs.Prelude.Text.{Text, text, format_uint}
use fluidfs.Fstab.{MountPoint}

-- A file system with its mount point, and whether its connection is there.
pub record FileSystem (U : Type 0) : Type 0 where
  pub mount : MountPoint U
  pub connected : Bool

-- What `FileSystem.Run` comes to: `mounted` is the answer of `fuse.Mount`, `served` that of
-- `fs.Serve`, and `ready` whether the connection has no error of the mount.
pub data RunResult : Type 0 where
  mount_failed serve_failed nil_error finished : RunResult

-- How far a goroutine that `FuseFSTable.Run` starts has come when `Shutdown` is called: it has not
-- mounted yet, it is in `fs.Serve`, or `FileSystem.Run` has ended, with these answers.
pub data Progress : Type 0 where
  waiting : Progress
  serving : Progress
  ended : Bool → Bool → Bool → Progress

module _ {U : Type 0} where
  -- `FuseFSTable.Run`: the file systems, and what it says.
  unfoldable pub run_all : List (MountPoint U) → List (FileSystem U) × List Text
  run_all [] = ([], [])
  run_all (mp ∷ mps) =
      let (systems, messages) = run_all mps in
      (
        record { mount = mp; connected = false } ∷ systems,
        (text "mounting fluidfs://" ++ (mp.prefix ++ (text " on " ++ mp.path))) ∷ messages,
      )

  -- `FileSystem.Shutdown`: whether there is no error.
  unfoldable pub shutdown_system : (Text → Bool) → FileSystem U → Bool
  shutdown_system unmount fs = if not fs.connected then true else unmount fs.mount.path

  unfoldable pub failures : (Text → Bool) → List (FileSystem U) → ℕ
  unfolding shutdown_system
  failures unmount [] = 0
  failures unmount (fs ∷ systems) =
      let rest = failures unmount systems in if shutdown_system unmount fs then rest else 1 + rest

  -- `FuseFSTable.Shutdown`: the file systems it leaves, and the error.
  unfoldable pub shutdown_all :
      (Text → Bool) → List (FileSystem U) → List (FileSystem U) × Option Text
  unfolding failures
  shutdown_all unmount systems =
      if ltb 0 (failures unmount systems)
      then (
        systems,
        some (
            text "could not shutdown "
            ++ (format_uint (failures unmount systems)
                ++ (text " of " ++ (format_uint (length systems) ++ text " mounts")))),
      )
      else ([], none)

  -- `FileSystem.Run`: the file system as the call leaves it, and how it ends. The report of an error of
  -- the mount calls `err.Error()` where `err` is nil.
  unfoldable pub run_system : Bool → Bool → Bool → FileSystem U → FileSystem U × RunResult
  run_system mounted served ready fs =
      if not mounted
      then (record fs { connected = false }, mount_failed)
      else if not served
      then (record fs { connected = true }, serve_failed)
      else if not ready
      then (record fs { connected = true }, nil_error)
      else (record fs { connected = true }, finished)

  -- The file system by then; none is the panic of the goroutine, which ends the process.
  unfoldable pub act : Progress → FileSystem U → Option (FileSystem U)
  unfolding run_system
  act waiting fs = some fs
  act serving fs = some (record fs { connected = true })
  act (ended mounted served ready) fs =
      let (fs', result) = run_system mounted served ready fs in
      elim result [
        | nil_error ↦ none
        | mount_failed ↦ some fs'
        | serve_failed ↦ some fs'
        | finished ↦ some fs'
      ]

  -- The file systems with their goroutines; those behind the end of the list are still waiting.
  unfoldable pub act_all : List Progress → List (FileSystem U) → Option (List (FileSystem U))
  unfolding act
  act_all [] systems = some systems
  act_all (g ∷ gs) [] = some []
  act_all (g ∷ gs) (fs ∷ systems) =
      let rest = act_all gs systems in
      elim (act g fs) [
        | none ↦ none
        | some fs' ↦ elim rest [ none ↦ none | some systems' ↦ some (fs' ∷ systems') ]
      ]
