-- ===== src/Fs/DirOps/Entries.antt =====
-- The entries of a directory: what the handlers of fluid/dir.go do to the map of its children.
pub mod Change
pub mod Find
use fluidfs.Prelude.{
  ℕ, ◌≡◌, refl, sym, ap, ◌∙◌, inl, inr, Bool, true, false, Option, none, some, String, arith,
  Bool-cases, Option-cases, ◌==◌, if◌then◌else◌,
}
use fluidfs.Prelude.Maps.{Map}
use fluidfs.Fs.{
  Node, Dir, Entity, dir, file, FileSystem, Outcome, Op, edit, alloc, on_node, on_children,
}
use fluidfs.Fs.Calls.{held, unlocked, children_call}
use fluidfs.Fs.DirOps.{dir_op}

-- The children of what stands at an address, if it is a directory.
abbrev pub children_of : Option Entity → Option (Map ℕ)
children_of (some (dir x)) = some x.children
children_of _ = none

abbrev pub children_at : {Q : Type 0} → FileSystem Q → ℕ → Option (Map ℕ)
children_at fs d = children_of (fs.heap d)

abbrev pub map_children : (Map ℕ → Map ℕ) → Option (Map ℕ) → Option (Map ℕ)
map_children g none = none
map_children g (some m) = some (g m)

children_of-on_node :
    (f : Node → Node) (o : Option Entity)
    → children_of (elim o [ none ↦ none | some e ↦ some (on_node f e) ]) ≡ children_of o
children_of-on_node f none = refl
children_of-on_node f (some (dir x)) = refl
children_of-on_node f (some (file x)) = refl

children_of-on_children :
    (g : Map ℕ → Map ℕ) (o : Option Entity)
    → children_of (elim o [ none ↦ none | some e ↦ some (on_children g e) ])
      ≡ map_children g (children_of o)
children_of-on_children g none = refl
children_of-on_children g (some (dir x)) = refl
children_of-on_children g (some (file x)) = refl

pub dir_of_children :
    (o : Option Entity) (m : Map ℕ)
    → children_of o ≡ some m
    → (x : Dir) × (o ≡ some (dir x)) × (x.children ≡ m)
dir_of_children none m h = absurd (ground arith)
dir_of_children (some (dir x)) m h = (x, refl, ground arith)
dir_of_children (some (file x)) m h = absurd (ground arith)

module _ {Q : Type 0} (a : ℕ) (fs : FileSystem Q) (b : ℕ) where
  -- A change of a node leaves every directory's entries.
  pub children_at-on_node :
      (f : Node → Node) → children_at (edit a (on_node f) fs) b ≡ children_at fs b
  unfolding edit
  children_at-on_node f = elim (Bool-cases (a == b)) [
    | inl same ↦ rw (edit, same) (children_of-on_node f (fs.heap b))
    | inr other ↦ rw (edit, other) refl
  ]

  pub children_at-edit :
      (g : Map ℕ → Map ℕ)
      → children_at (edit a (on_children g) fs) b
        ≡ (if a == b then map_children g (children_at fs b) else children_at fs b)
  unfolding edit
  children_at-edit g = elim (Bool-cases (a == b)) [
    | inl same ↦ rw (edit, same) (children_of-on_children g (fs.heap b))
    | inr other ↦ rw (edit, other) refl
  ]

-- A locked call on the entries of a directory.
pub entries_call :
    {Q A : Type 0} (fs : FileSystem Q) (d : ℕ) (m : Map ℕ) (body : Map ℕ → Op Q A)
    (r : Outcome A × FileSystem Q)
    → fs.locked ≡ false
    → children_at fs d ≡ some m
    → body m (held fs) ≡ r
    → dir_op d body fs ≡ unlocked r
entries_call fs d m body r idle there same =
    let (x, stands, entries) = dir_of_children (fs.heap d) m there in
    children_call fs idle d x body r stands (ap (λ t. body t (held fs)) entries ∙ same)
