-- ===== src/Replica.antt =====
-- The replica process: `Run` and `Shutdown` of fluid/fluid.go, with the file systems that
-- `FuseFSTable` of fluid/fstab.go and `FileSystem` of fluid/fuse.go run and shut down.
pub mod Mounts
pub mod Lifecycle
pub mod Start
pub mod Started
use fluidfs.Prelude.{
  ℕ, Bool, true, false, not, List, [], ◌∷◌, ◌++◌, map, Option, none, some, String, if◌then◌else◌,
  length, ltb,
}
use fluidfs.Prelude.Slices.{Bytes}
use fluidfs.Prelude.Text.{Text, text, format_uint}
use fluidfs.Logger.{LogLevel, level_info, level_warn, level_error}
use fluidfs.Fstab.{MountPoint}
use fluidfs.Db.{Reply, ok, failed, panicked, Database, init_database}
use fluidfs.Pid.{Pid, System, Process, SaveError, pid_path, save, free, addr}
use fluidfs.Replica.Mounts.{FileSystem, Progress, run_all, act_all, shutdown_all}

-- The configuration and the services that the process starts with. `unmount` tells of a path whether
-- `fuse.Unmount` has no error, and `close_error` is the text of an error of `Close`.
pub record Services : Type 1 where
  pub sys : System
  pub bolt : Database
  pub level : Database
  pub Uuid : Type 0
  pub driver : String
  pub database_path : Bytes
  pub unmount : Text → Bool
  pub close_error : Text

-- What a call of `Run` or `Shutdown` comes to.
pub data RunError : Type 0 where
  no_pid_file : SaveError → RunError
  no_database : RunError

pub data Ending : Type 0 where
  returned : Ending
  free_failed : Ending
  panic : Ending

module _ (services : Services) where
  open services use {sys, bolt, level, Uuid, unmount}

  abbrev pub Connection : Type 0
  Connection = Option bolt.State × Option level.State

  -- The globals of the package, the disk, and what was said to the logger, with its severity.
  pub record Replica : Type 0 where
    pub disk : sys.Disk
    pub pid : Pid
    pub database : Option Connection
    pub mounts : List (MountPoint Uuid)
    pub systems : List (FileSystem Uuid)
    pub said : List (LogLevel × Text)

  abbrev pub say : LogLevel → Text → Replica → Replica
  say level message r = record r { said = r.said ++ (level, message) ∷ [] }

  -- The file systems: their messages, and the list of them.
  abbrev pub run_systems : Replica → Replica
  run_systems r =
      let (systems, messages) = run_all r.mounts in
      record r { systems = systems; said = r.said ++ map (λ m. (level_info, m)) messages }

  -- `Run` once `InitDatabase` has answered. After an error `Run` ends, and the database is not used, so it
  -- stays as it was. The file systems and the API run in goroutines.
  abbrev pub after_open : Option Connection → Replica → Replica × Option RunError
  after_open none r = (r, some no_database)
  after_open (some connection) r =
      let message =
        text "connected to " ++ (text services.driver ++ (text " at " ++ services.database_path)) in
      (run_systems (say level_info message (record r { database = some connection })), none)

  -- `Run` once `Save` has answered.
  unfoldable pub after_save :
      Pid × sys.Disk × Option SaveError → Replica → Replica × Option RunError
  unfolding init_database run_all pid_path
  after_save (pid, disk, some e) r = (record r { pid = pid; disk = disk }, some (no_pid_file e))
  after_save (pid, disk, none) r =
      after_open (init_database bolt level services.driver services.database_path) (
        say level_info (text "pid file created at " ++ pid_path sys)
          (record r { pid = pid; disk = disk }))

  -- `Run` up to the wait for an error of a service.
  unfoldable pub run : Process → Replica → Replica × Option RunError
  unfolding save after_save
  run p r = after_save (save sys p (record { pid = 0; ppid = 0; port = 0 }) r.disk) r

  -- The replica while `Run` waits, once the goroutines of its file systems have come this far.
  unfoldable pub goroutines : List Progress → Replica → Option Replica
  unfolding act_all
  goroutines gs r = elim (act_all gs r.systems) [
    | none ↦ none
    | some systems ↦ some (record r { systems = systems })
  ]

  abbrev pub close : Connection → Reply (Unit {0})
  close (some s, rest) = bolt.close s
  close (none, some s) = level.close s
  close (none, none) = ok tt

  -- The end of `Shutdown`: the PID file.
  unfoldable pub free_pid : Replica → Replica × Ending
  unfolding free
  free_pid r =
      let (disk, done) = free sys r.disk in
      let r' = record r { disk = disk } in
      if done
      then (say level_info (text "fluidfs successfully shutdown") r', returned)
      else (r', free_failed)

  -- The FUSE part of `Shutdown`.
  unfoldable pub unmount_systems : Replica → Replica
  unfolding shutdown_all
  unmount_systems r =
      let (systems, error) = shutdown_all unmount r.systems in
      elim error [
        | none ↦ record r { systems = systems }
        | some message ↦ say level_warn (text "could not shutdown FS: " ++ message) r
      ]

  -- The rest of `Shutdown`, from the call of `Close` on.
  abbrev pub after_close : Reply (Unit {0}) → Replica → Replica × Ending
  after_close (ok done) r = free_pid r
  after_close failed r =
      free_pid (say level_warn (text "could not shutdown database: " ++ services.close_error) r)
  after_close panicked r = (r, panic)

  -- `Shutdown`. The database is nil before `Run` has opened it; its `Close` panics then.
  unfoldable pub shutdown : Replica → Replica × Ending
  unfolding unmount_systems free_pid
  shutdown r =
      let r' = unmount_systems (say level_warn (text "starting shutdown process") r) in
      elim r.database [ none ↦ (r', panic) | some connection ↦ after_close (close connection) r' ]

  -- The end of `Run`, once a service has failed.
  unfoldable pub stop : Text → Replica → Replica × Ending
  unfolding shutdown
  stop error r = shutdown (say level_error error r)
