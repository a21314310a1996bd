-- ===== src/Fs/Calls.antt =====
-- How a handler starts: the read-only test, the lock and the pointer (fluid/fuse.go and the first
-- lines of the handlers).
use fluidfs.Prelude.{
  ℕ, ◌≡◌, ◌∙◌, ap, refl, true, false, some, eqb_refl, arith, ==_iff, Bool-cases, inl, inr,
  if◌then◌else◌, ◌==◌,
}
use fluidfs.Prelude.Maps.{Map}
use fluidfs.Fs.{
  Node, Dir, File, Entity, dir, file, get_node, FileSystem, Outcome, blocked, Op, with_lock,
  unless_readonly, edit,
}
use fluidfs.Fs.NodeOps.{the_node}
use fluidfs.Fs.FileOps.{the_file}
use fluidfs.Fs.DirOps.{the_children}

-- The state under the lock, and the end of a locked call.
abbrev pub held : {Q : Type 0} → FileSystem Q → FileSystem Q
held fs = record fs { locked = true }

abbrev pub unlocked : {Q A : Type 0} → Outcome A × FileSystem Q → Outcome A × FileSystem Q
unlocked r = (r.0, record r.1 { locked = false })

module _ {Q A : Type 0} (fs : FileSystem Q) where
  pub with_lock-idle :
      (body : Op Q A) → fs.locked ≡ false → with_lock body fs ≡ unlocked (body (held fs))
  unfolding with_lock
  with_lock-idle body h = rw (with_lock, h) refl

  pub with_lock-held : (body : Op Q A) → fs.locked ≡ true → with_lock body fs ≡ (blocked, fs)
  unfolding with_lock
  with_lock-held body h = rw (with_lock, h) refl

  pub writable_call : (body : Op Q A) → fs.readonly ≡ false → unless_readonly body fs ≡ body fs
  unfolding unless_readonly
  writable_call body h = rw (unless_readonly, h) refl

  pub the_file-present :
      (a : ℕ) (f : File) (body : File → Op Q A)
      → fs.heap a ≡ some (file f)
      → the_file a body fs ≡ body f fs
  unfolding the_file
  the_file-present a f body h = rw (the_file, h) refl

  pub the_children-present :
      (d : ℕ) (x : Dir) (body : Map ℕ → Op Q A)
      → fs.heap d ≡ some (dir x)
      → the_children d body fs ≡ body x.children fs
  unfolding the_children
  the_children-present d x body h = rw (the_children, h) refl

  pub the_node-present :
      (a : ℕ) (e : Entity) (body : Node → Op Q A)
      → fs.heap a ≡ some e
      → the_node a body fs ≡ body (get_node e) fs
  unfolding the_node
  the_node-present a e body h = rw (the_node, h) refl

module _ {Q A : Type 0} (fs : FileSystem Q) (idle : fs.locked ≡ false) (a : ℕ) where
  -- A locked call on what stands at an address.
  pub file_call :
      (f : File) (body : File → Op Q A) (r : Outcome A × FileSystem Q)
      → fs.heap a ≡ some (file f)
      → body f (held fs) ≡ r
      → with_lock (the_file a body) fs ≡ unlocked r
  file_call f body r there same =
      with_lock-idle fs (the_file a body) idle
      ∙ ap unlocked (the_file-present (held fs) a f body there ∙ same)

  pub children_call :
      (x : Dir) (body : Map ℕ → Op Q A) (r : Outcome A × FileSystem Q)
      → fs.heap a ≡ some (dir x)
      → body x.children (held fs) ≡ r
      → with_lock (the_children a body) fs ≡ unlocked r
  children_call x body r there same =
      with_lock-idle fs (the_children a body) idle
      ∙ ap unlocked (the_children-present (held fs) a x body there ∙ same)

  pub node_call :
      (e : Entity) (body : Node → Op Q A) (r : Outcome A × FileSystem Q)
      → fs.heap a ≡ some e
      → body (get_node e) (held fs) ≡ r
      → with_lock (the_node a body) fs ≡ unlocked r
  node_call e body r there same =
      with_lock-idle fs (the_node a body) idle
      ∙ ap unlocked (the_node-present (held fs) a e body there ∙ same)

module _ {Q : Type 0} (fs : FileSystem Q) (a : ℕ) (f : Entity → Entity) where
  pub edit_self : (e : Entity) → fs.heap a ≡ some e → (edit a f fs).heap a ≡ some (f e)
  unfolding edit
  edit_self e h = rw (edit, eqb_refl a, h) refl

  pub edit-other : (b : ℕ) → (a == b) ≡ false → (edit a f fs).heap b ≡ fs.heap b
  unfolding edit
  edit-other b h = rw (edit, h) refl

-- What the heap is after another entity was put in the place of one.
pub put-heap :
    {Q : Type 0} (fs : FileSystem Q) (a : ℕ) (e e' : Entity)
    → fs.heap a ≡ some e
    → (b : ℕ) → (edit a (λ _. e') fs).heap b ≡ (if a == b then some e' else fs.heap b)
unfolding edit
put-heap fs a e e' h b = elim (Bool-cases (a == b)) [
  | inl same ↦ ground (arith, h, ap fs.heap ((==_iff a b).0 same))
  | inr other ↦ rw (edit, other) refl
]
