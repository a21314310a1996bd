-- ===== src/Pid.antt =====
-- The process id file: fluid/pid.go.
pub mod Lifetime
use fluidfs.Prelude.{
  ℕ, Bool, true, false, not, List, [], ◌∷◌, ◌++◌, Option, none, some, if◌then◌else◌,
}
use fluidfs.Prelude.Slices.{Bytes}
use fluidfs.Prelude.Text.{Text, text, format_uint}

-- `PID`
pub record Pid : Type 0 where
  pub pid : ℕ
  pub ppid : ℕ
  pub port : ℕ

-- What is not in the repository: `os/user`, `path/filepath`, `encoding/json` and the files on disk.
-- `decode` answers what the object becomes, and whether there was no error; `mkdir_all`,
-- `write_file` and `remove` answer the disk and whether there was no error.
pub record System : Type 1 where
  pub home_dir : Option Text
  pub join : List Text → Text
  pub dir : Text → Text
  pub encode : Pid → Option Bytes
  pub decode : Bytes → Pid → Pid × Bool
  pub Disk : Type 0
  pub not_exist : Text → Disk → Bool
  pub mkdir_all : Text → Disk → Disk × Bool
  pub write_file : Text → Bytes → Disk → Disk × Bool
  pub read_file : Text → Disk → Option Bytes
  pub remove : Text → Disk → Disk × Bool

-- A process: its number, that of its parent, and the answers of the kernel to its requests of a port.
pub record Process : Type 0 where
  pub getpid : ℕ
  pub getppid : ℕ
  pub resolved : Bool
  pub listened : Option ℕ

pub data SaveError : Type 0 where
  no_port not_encoded no_directory not_written file_exists : SaveError

-- `FreePort`
unfoldable pub free_port : Process → Option ℕ
free_port p = if not p.resolved then none else p.listened

module _ (sys : System) where
  open sys use {
    home_dir, join, dir, encode, decode, Disk, not_exist, mkdir_all, write_file, read_file, remove,
  }

  -- `Path`
  unfoldable pub pid_path : Text
  pid_path = elim home_dir [
    | none ↦ join (text "/" ∷ text "var" ∷ text "run" ∷ text "fluid.pid" ∷ [])
    | some home ↦ join (home ∷ text ".fluidfs" ∷ text "fluid.pid" ∷ [])
  ]

  -- `ioutil.WriteFile`, after the directory was made.
  abbrev pub write_new : Bytes → Disk × Bool → Disk × Option SaveError
  write_new encoded (disk, false) = (disk, some no_directory)
  write_new encoded (disk, true) =
      let (written, done) = write_file pid_path encoded disk in
      (written, if done then none else some not_written)

  -- The end of `Save`: the file is made if it is not there.
  unfoldable pub save_new : Bytes → Disk → Disk × Option SaveError
  unfolding pid_path
  save_new encoded disk =
      if not (not_exist pid_path disk)
      then (disk, some file_exists)
      else write_new encoded (mkdir_all (dir pid_path) disk)

  -- `Save`: the object and the disk as the call leaves them, and the error.
  unfoldable pub save : Process → Pid → Disk → Pid × Disk × Option SaveError
  unfolding free_port save_new
  save p old disk = elim (free_port p) [
    | none ↦ (record { pid = p.getpid; ppid = p.getppid; port = 0 }, disk, some no_port)
    | some port ↦
        let new : Pid = record { pid = p.getpid; ppid = p.getppid; port = port } in
        elim (encode new) [
          | none ↦ (new, disk, some not_encoded)
          | some encoded ↦ let (disk', error) = save_new encoded disk in (new, disk', error)
        ]
  ]

  -- `Load`: the object as the call leaves it, and whether there was no error.
  unfoldable pub load : Disk → Pid → Pid × Bool
  unfolding pid_path
  load disk old = elim (read_file pid_path disk) [
    | none ↦ (old, false)
    | some encoded ↦ decode encoded old
  ]

  -- `Free`: the disk as the call leaves it, and whether there was no error.
  unfoldable pub free : Disk → Disk × Bool
  unfolding pid_path
  free disk = if not_exist pid_path disk then (disk, true) else remove pid_path disk

-- `Addr`
unfoldable pub addr : Pid → Text
unfolding format_uint
addr p = text "localhost:" ++ format_uint p.port
