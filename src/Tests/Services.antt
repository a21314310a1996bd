-- ===== src/Tests/Services.antt =====
-- A concrete disk, logger and replica for fluid/chunk.go, fluid/logger.go, fluid/pid.go,
-- fluid/fluid.go and fluid/web.go.
use fluidfs.Prelude.{
  ℕ, ◌-◌, ◌≡◌, ◌≢◌, ◌≤◌, ◌⊎◌, refl, sym, ap, ◌∙◌, Bool, true, false, ◌||◌, List, [], ◌∷◌, ◌++◌,
  Option, none, some, arith, ◌==◌, All, length, if◌then◌else◌,
}
use fluidfs.Prelude.Slices.{Bytes}
use fluidfs.Prelude.Text.{Text, text, text_eq, between}
use fluidfs.Chunk.Blobs as Blobs
use fluidfs.Chunk.{Blob, size}
use fluidfs.Chunk.Blobs.{FileLibrary, blob_ext}
use fluidfs.Chunk.Blobs.Path.{NotSlash, FileLaws, load_blob-save}
use fluidfs.Logger.Filter.{Message, log_all, logged, log_all-logged}
use fluidfs.Logger.{Logger, level_debug, level_fatal, level_warn, level_from_string}
use fluidfs.Logger.Levels.{KeepsCapitals}
use fluidfs.Pid.{Pid, System, Process, pid_path, save, save_new, load, free, free_port}
use fluidfs.Pid.Lifetime.{SystemLaws, is_success, save_all, load_pid-save, save_all-once}
use fluidfs.Fstab.Unique.{text_eq_refl}

abbrev any_slash : Text → Bool
any_slash [] = false
any_slash (c ∷ s) = c == b'/' || any_slash s

abbrev last_element : Text → Text
last_element [] = []
last_element (c ∷ s) = let rest = last_element s in if any_slash (c ∷ s) then rest else c ∷ s

abbrev join_parts : List Text → Text
join_parts [] = []
join_parts (s ∷ []) = s
join_parts (s ∷ t ∷ ts) = s ++ b'/' ∷ join_parts (t ∷ ts)

abbrev Files : Type 0
Files = List (Text × Bytes)

abbrev contents : Text → Files → Bytes × Bool
contents path [] = ([], false)
contents path ((name, s) ∷ fs) =
    let rest = contents path fs in if text_eq name path then (s, true) else rest

-- All files of this disk are blobs.
abbrev blobs : FileLibrary
blobs = record {
  join = join_parts;
  dir = λ path. [];
  file = last_element;
  ext = λ path. blob_ext;
  Disk = Files;
  mkdir_all = λ path disk. disk;
  write_file = λ path s disk. some ((path, s) ∷ disk);
  read_file = contents;
}

no_slash : (s : Text) → All NotSlash s → any_slash s ≡ false
no_slash [] h = refl
no_slash (c ∷ s) h = ground (arith, h.0, no_slash s h.1)

last_element-name : (s : Text) → All NotSlash s → last_element s ≡ s
last_element-name [] h = refl
last_element-name (c ∷ s) h = rw (last_element, no_slash (c ∷ s) h) refl

slash_in : (d s : Text) → any_slash (d ++ b'/' ∷ s) ≡ true
slash_in [] s = refl
slash_in (c ∷ d) s = ground (arith, slash_in d s)

last_element-join : (d s : Text) → last_element (d ++ b'/' ∷ s) ≡ last_element s
last_element-join [] s = refl
last_element-join (c ∷ d) s = rw (last_element, slash_in (c ∷ d) s) (last_element-join d s)

read_back :
    (path : Text) (s : Bytes) (disk disk' : Files)
    → some ((path, s) ∷ disk) ≡ some disk'
    → contents path disk' ≡ (s, true)
read_back path s disk disk' e = ap contents_of (sym e) ∙ rw (text_eq_refl path) refl
  where
    contents_of : Option Files → Bytes × Bool
    contents_of none = ([], false)
    contents_of (some fs) = contents path fs

blob_laws : FileLaws blobs
blob_laws = record {
  file_law = last_element-name;
  join_law = λ d path h long. last_element-join d path;
  ext_law = λ path stem h. refl;
  read_law = read_back;
}

abbrev new_blob : Blob
new_blob = record {
  contents = 1 ∷ 2 ∷ 3 ∷ [];
  size = 0;
  hash = text "UPo8xAOMJzMMfi6FRJTGGQ";
  path = [];
}

abbrev other_blob : Blob
other_blob = record { contents = 9 ∷ []; size = 1; hash = text "old"; path = text "old.blob" }

hash_not_empty : new_blob.hash ≢ []
hash_not_empty e = absurd (ground (arith, e))

load_blob-save_example :
    (saved : Blob) × (written : Option Files) × (Blobs.save blobs (text "data") [] new_blob
      ≡ some (saved, written))
    × (saved.contents ≡ new_blob.contents)
    × (saved.size ≡ 0)
    × (saved.hash ≡ new_blob.hash)
    × ((written ≡ none)
        ⊎ ((disk' : Files) × (written ≡ some disk')
            × (Blobs.load blobs saved.path disk' other_blob ≡ (record saved { size = 1 }, true))
            × ((size (Blobs.load blobs saved.path disk' other_blob).0).1 ≡ 1)))
load_blob-save_example =
    load_blob-save blobs blob_laws (text "data") [] new_blob other_blob refl hash_not_empty
      (ground arith) (ground arith)

abbrev pub upper_ascii : ℕ → ℕ
upper_ascii c = if between b'a' b'z' c then c - 32 else c

pub upper_ascii-KeepsCapitals : KeepsCapitals upper_ascii
upper_ascii-KeepsCapitals c lo hi = ground arith

lower_warning : level_from_string upper_ascii (text " warning ") ≡ level_warn
unfolding level_from_string
lower_warning = refl

-- A disk with at most one file.
abbrev Slot : Type 0
Slot = Option Bytes

abbrev decode_pid : Bytes → Pid → Pid × Bool
decode_pid (a ∷ b ∷ c ∷ []) old = (record { pid = a; ppid = b; port = c }, true)
decode_pid _ old = (old, false)

abbrev encode_pid : Pid → Bytes
encode_pid p = p.pid ∷ p.ppid ∷ p.port ∷ []

abbrev is_none : Slot → Bool
is_none none = true
is_none (some s) = false

abbrev pub system : System
system = record {
  home_dir = some (text "/home/alpha");
  join = join_parts;
  dir = λ path. [];
  encode = λ p. some (encode_pid p);
  decode = decode_pid;
  Disk = Slot;
  not_exist = λ path disk. is_none disk;
  mkdir_all = λ path disk. (disk, true);
  write_file = λ path s disk. (some s, true);
  read_file = λ path disk. disk;
  remove = λ path disk. (none, true);
}

decode_back :
    (p old : Pid) (s : Bytes) → some (encode_pid p) ≡ some s → decode_pid s old ≡ (p, true)
decode_back p old s e = ap decode_some (sym e)
  where
    decode_some : Option Bytes → Pid × Bool
    decode_some none = (old, false)
    decode_some (some t) = decode_pid t old

pub system_laws : SystemLaws system
system_laws = record {
  write_law = λ path s disk disk' e. (ap (λ r. is_none r.0) (sym e), ap (λ r. r.0) (sym e));
  remove_law = λ path disk disk' e. ap (λ r. is_none r.0) (sym e);
  decode_law = decode_back;
}

abbrev pub server : Process
server = record { getpid = 41; getppid = 1; resolved = true; listened = some 4157 }

abbrev pub no_pid : Pid
no_pid = record { pid = 0; ppid = 0; port = 0 }

server_saves : is_success system (save system server no_pid none).2 ≡ true
unfolding save free_port save_new pid_path
server_saves = refl

load_pid-save_example :
    (load system (save system server no_pid none).1 no_pid
      ≡ ((save system server no_pid none).0, true))
    × ((save system server no_pid none).0.pid ≡ 41)
    × (free_port server ≡ some (save system server no_pid none).0.port)
load_pid-save_example = load_pid-save system system_laws server no_pid no_pid none server_saves

save_all-once_example :
    ((save_all system ((server, no_pid) ∷ (server, no_pid) ∷ []) none).1 ≤ 1)
    × ((system.not_exist (pid_path system) none ≡ true)
        ⊎ (save_all system ((server, no_pid) ∷ (server, no_pid) ∷ []) none ≡ (none, 0)))
    × (((free system none).1 ≡ false)
        ⊎ (system.not_exist (pid_path system) (free system none).0 ≡ true))
save_all-once_example =
    save_all-once system system_laws ((server, no_pid) ∷ (server, no_pid) ∷ []) none

abbrev messages : List Message
messages =
    (level_warn, text "10:00", text "low")
    ∷ (level_debug, text "10:01", text "detail")
    ∷ (level_fatal, text "10:02", text "no disk")
    ∷ (level_fatal, text "10:03", text "never")
    ∷ []

abbrev warner : Logger
warner = record { level = level_warn; output = [] }

log_all-logged_example : log_all messages warner ≡ logged messages warner
log_all-logged_example = log_all-logged messages warner

two_lines : length (logged messages warner).0.output ≡ 2
two_lines = refl
