-- ===== src/Tests/Dirs.antt =====
-- A concrete mount for fluid/dir.go.
use fluidfs.Prelude.{
  List, Option, String, arith, ℕ, ◌+◌, ◌≡◌, ◌≢◌, refl, false, [], ◌∷◌, some, none, ◌==◌,
  if◌then◌else◌,
}
use fluidfs.Prelude.Maps.{lookup, insert, delete}
use fluidfs.Fs.{Entity, FileSystem, Dir, dir, file, blank, init, ok}
use fluidfs.Fs.Heap.{Sound}
use fluidfs.Fs.NodeOps.Path.{node_path, node_path-ends}
use fluidfs.Fs.Progress.{is_blocked}
use fluidfs.Fs.Progress.Lock as Lock
use fluidfs.Fs.Progress.Lock.{handlers_never_wait}
use fluidfs.Fs.Reach.{start, step, created, reached-Sound}
use fluidfs.Fs.FileOps.{ReadRequest, read}
use fluidfs.Fs.DirOps.{CreateRequest, create, removable, remove, rename, lookup_entry}
use fluidfs.Fs.DirOps.Entries.{children_at}
use fluidfs.Fs.DirOps.Entries.Change.{rename-entries, remove-entries}
use fluidfs.Fs.DirOps.Entries.Find.{answer, lookup_entry_lem}
use fluidfs.Tests.Files.{four_bytes}

abbrev draw : ℕ → ℕ × ℕ
draw q = (q, q + 1)

abbrev notes : CreateRequest
notes = record { name = "notes"; mode = 420; uid = 7; gid = 7 }

abbrev new_mount : FileSystem ℕ
new_mount = init draw 1 0 0 0

-- A new mount in which a file was created.
abbrev with_notes : FileSystem ℕ
with_notes = (create draw (λ n. n) 0 notes new_mount).1

reached-Sound_example : Sound with_notes
reached-Sound_example =
    reached-Sound draw 100 1 0 0 0 with_notes
      (step new_mount with_notes start (created (λ n. n) 0 notes new_mount refl))

with_notes-entries : children_at with_notes 0 ≡ some (("notes", 1) ∷ [])
unfolding create init insert
with_notes-entries = refl

with_notes-locked : with_notes.locked ≡ false
unfolding create init insert
with_notes-locked = refl

with_notes-Sound : Sound with_notes
with_notes-Sound =
    reached-Sound draw 100 1 0 0 0 with_notes
      (step new_mount with_notes start (created (λ n. n) 0 notes new_mount refl))

lookup_entry_lem_example :
    (lookup_entry (λ n. n) 0 "notes" with_notes).0 ≡ answer (lookup "notes" (("notes", 1) ∷ []))
lookup_entry_lem_example =
    lookup_entry_lem (λ n. n) 0 "notes" with_notes (("notes", 1) ∷ []) with_notes-locked
      with_notes-entries with_notes-Sound

-- A root with a file and an empty directory.
abbrev a_dir : Dir
a_dir = record {
  node = (record four_bytes.node { attrs = record four_bytes.node.attrs { mode = 2147483648 } });
  children = [];
}

abbrev two_entries : FileSystem ℕ
two_entries = record (blank 4 0 0) {
  heap = λ a.
      if 0 == a
      then some (dir (record a_dir { children = ("notes", 1) ∷ ("papers", 2) ∷ [] }))
      else if 1 == a
      then some (file four_bytes)
      else if 2 == a
      then some (dir a_dir)
      else none;
  free = 3;
}

two_entries-there : two_entries.heap 1 ≢ none
two_entries-there e = cc

-- A file is moved from the root into the directory: the root keeps its entry.
rename-entries_example :
    ((rename (λ n. n) 0 "notes" "todo" 2 two_entries).0 ≡ ok tt)
    × (children_at (rename (λ n. n) 0 "notes" "todo" 2 two_entries).1 0
        ≡ some (("notes", 1) ∷ ("papers", 2) ∷ []))
unfolding lookup
rename-entries_example =
    rename-entries (λ n. n) 0 two_entries (("notes", 1) ∷ ("papers", 2) ∷ []) refl refl refl 1
      "notes" "todo" 2 [] refl refl two_entries-there 0

remove-entries_example :
    ((remove (λ n. n) 0 "papers" two_entries).0 ≡ ok tt)
    × (children_at (remove (λ n. n) 0 "papers" two_entries).1 0
        ≡ some (delete "papers" (("notes", 1) ∷ ("papers", 2) ∷ [])))
unfolding lookup removable
remove-entries_example =
    remove-entries (λ n. n) 0 two_entries (("notes", 1) ∷ ("papers", 2) ∷ []) refl refl refl 2
      "papers" (dir a_dir) refl refl refl 0

abbrev beyond : ReadRequest
beyond = record { offset = 6; size = 2 }

-- A file is created, a directory is asked for a name that is not there, and the file is read past its
-- end, which panics.
handlers_never_wait_example :
    ((lookup_entry (λ n. n) 0 "nothing" with_notes).1.locked ≡ false)
    × (is_blocked (read (λ n. n) 1 beyond (lookup_entry (λ n. n) 0 "nothing" with_notes).1).0
        ≡ false)
    × ((read (λ n. n) 1 beyond (lookup_entry (λ n. n) 0 "nothing" with_notes).1).1.locked ≡ false)
handlers_never_wait_example =
    handlers_never_wait draw 1000000 1 0 0 0 (lookup_entry (λ n. n) 0 "nothing" with_notes).1
      (read (λ n. n) 1 beyond (lookup_entry (λ n. n) 0 "nothing" with_notes).1).1
      (is_blocked (read (λ n. n) 1 beyond (lookup_entry (λ n. n) 0 "nothing" with_notes).1).0)
      (Lock.after with_notes _ _
        (Lock.after new_mount _ _ Lock.start (Lock.created (λ n. n) 0 notes new_mount))
        (Lock.looked_up (λ n. n) 0 "nothing" with_notes))
      (Lock.data_read (λ n. n) 1 beyond (lookup_entry (λ n. n) 0 "nothing" with_notes).1)

abbrev entity_or : Entity → Option Entity → Entity
entity_or other none = other
entity_or other (some e) = e

abbrev notes_entity : Entity
notes_entity = entity_or (file four_bytes) (with_notes.heap 1)

notes_there : with_notes.heap 1 ≡ some notes_entity
unfolding create init
notes_there = refl

abbrev join_names : List String → String
join_names names = "/joined"

node_path-ends_example :
    (path : String) × (node_path join_names 2 with_notes.heap 1 ≡ some path)
    × (node_path join_names 9 with_notes.heap 1 ≡ some path)
node_path-ends_example =
    node_path-ends draw join_names 100 1 0 0 0 with_notes 1 9 notes_entity
      (step new_mount with_notes start (created (λ n. n) 0 notes new_mount refl)) notes_there
      (omega arith)
