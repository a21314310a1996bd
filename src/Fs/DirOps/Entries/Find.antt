-- ===== src/Fs/DirOps/Entries/Find.antt =====
-- `Dir.Lookup` of fluid/dir.go on the entries.
use fluidfs.Prelude.{
  ℕ, ◌≡◌, refl, ap, ◌∙◌, inl, inr, false, Option, none, some, String, Option-cases,
}
use fluidfs.Prelude.Maps.{Map, lookup}
use fluidfs.Fs.{Entity, dir, file, FileSystem, Outcome, ok, err, enoent, edit, on_node, set_atime}
use fluidfs.Fs.Heap.{Sound, LocalOk, edit-Sound, edit-present, on_node-Keeps, on_node_parent}
use fluidfs.Fs.Calls.{held}
use fluidfs.Fs.DirOps.{asserted, lookup_child, lookup_entry}
use fluidfs.Fs.DirOps.Entries.{children_at, dir_of_children, entries_call}

-- What a lookup in the entries `m` answers.
abbrev pub answer : Option ℕ → Outcome ℕ
answer none = err enoent
answer (some a) = ok a

asserted_lem : (a : ℕ) (e : Entity) → LocalOk e → asserted a (some e) ≡ ok a
unfolding asserted
asserted_lem a (dir x) l = rw (l.0) refl
asserted_lem a (file x) l = rw (l.0) refl

-- Under a free lock and the invariant, a lookup answers with the entry of the map, or that there is
-- none: its type assertions never panic.
pub lookup_entry_lem :
    {Q : Type 0} (now : ℕ → ℕ) (d : ℕ) (name : String) (fs : FileSystem Q) (m : Map ℕ)
    → fs.locked ≡ false
    → children_at fs d ≡ some m
    → Sound fs
    → (lookup_entry now d name fs).0 ≡ answer (lookup name m)
unfolding lookup_entry lookup_child
lookup_entry_lem now d name fs m idle entries s =
    let touched = edit d (on_node (set_atime (now 0))) (held fs) in
    let s' : Sound touched =
      edit-Sound d (on_node (set_atime (now 0))) (held fs)
        (on_node-Keeps fs.heap (set_atime (now 0)) (λ n. (refl, refl, refl, refl)))
        (λ e at. on_node_parent fs.heap (set_atime (now 0)) (λ n. (refl, refl, refl, refl)) e) s in
    elim (Option-cases (lookup name m)) [
      | inl absent ↦ rw absent (
          ap (λ r. r.0)
            (entries_call fs d m (lookup_child now d name) (err enoent, touched) idle entries
              (rw (lookup_child, absent) refl)))
      | inr (a, found) ↦ elim (Option-cases (touched.heap a)) [
        | inl gone ↦
            let (x, stands, same) = dir_of_children (fs.heap d) m entries in
            absurd (
              edit-present d (on_node (set_atime (now 0))) (held fs) a
                (s.closed d (dir x) name a stands (ap (lookup name) same ∙ found)) gone)
        | inr (e, there) ↦ rw found (
            ap (λ r. r.0)
              (entries_call fs d m (lookup_child now d name) (ok a, touched) idle entries
                (rw (lookup_child, found, there, asserted_lem a e (s'.entities a e there)) refl)))
      ]
    ]
