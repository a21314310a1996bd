-- ===== src/Fs/Heap.antt =====
-- The invariant of the heap of entities (fluid/fuse.go), and that the changes which the handlers are
-- made of preserve it.
use fluidfs.Prelude.{
  ℕ, ◌≤◌, ◌<◌, ==_iff, refl, ◌≡◌, ◌≢◌, ◌⊎◌, inl, inr, sym, ap, ◌∙◌, subst, true, false, Option,
  none, some, String, arith, Bool-cases, Option-cases, ◌==◌, length, str_eq,
}
use fluidfs.Prelude.Maps.{
  Map, lookup, insert, delete, Distinct, lookup-insert, lookup-delete, insert-Distinct,
  delete-Distinct,
}
use fluidfs.Utils.{blocks}
use fluidfs.Fs.{
  Node, File, Entity, dir, file, get_node, FileSystem, Op, with_lock, unless_readonly, is_dir, edit,
  alloc, on_node, on_children,
}

-- The bit of the mode agrees with the type of the object, a directory has each name once, and a file's
-- size and blocks are those of its data.
abbrev pub LocalOk : Entity → Type 0
LocalOk (dir x) = (is_dir x.node ≡ true) × Distinct x.children
LocalOk (file f) =
    (is_dir f.node ≡ false)
    × (f.node.attrs.size ≡ length f.contents.visible)
    × (f.node.attrs.blocks ≡ blocks f.node.attrs.size)

abbrev pub ChildOf : Entity → String → ℕ → Type 0
ChildOf (dir x) k b = lookup k x.children ≡ some b
ChildOf (file f) k b = ⊥

-- The addresses from `free` on are unused, every entity is as it should be, every child of a directory
-- is an entity, and a parent is an entity that was made before.
pub record IsSound (heap : ℕ → Option Entity) (free : ℕ) : Type 0 where
  pub unused : (a : ℕ) → free ≤ a → heap a ≡ none
  pub entities : (a : ℕ) (e : Entity) → heap a ≡ some e → LocalOk e
  pub closed :
      (a : ℕ) (e : Entity) (k : String) (b : ℕ) → heap a ≡ some e → ChildOf e k b → heap b ≢ none
  pub rooted :
      (a : ℕ) (e : Entity) (b : ℕ)
      → heap a ≡ some e
      → (get_node e).parent ≡ some b
      → (b < a) × (heap b ≢ none)

abbrev pub Sound : {Q : Type 0} → FileSystem Q → Type 0
Sound fs = IsSound fs.heap fs.free

-- A change of an entity that keeps what the invariant says of it; its new children are entities.
pub record Keeps (heap : ℕ → Option Entity) (f : Entity → Entity) : Type 0 where
  pub entity : (e : Entity) → LocalOk e → LocalOk (f e)
  pub children :
      (e : Entity) (k : String) (b : ℕ) → ChildOf (f e) k b → ChildOf e k b ⊎ (heap b ≢ none)

module _ {Q : Type 0} (a : ℕ) (f : Entity → Entity) (fs : FileSystem Q) where
  -- What stands at an address after a change.
  pub edit-heap :
      (b : ℕ) (e : Entity)
      → (edit a f fs).heap b ≡ some e
      → (fs.heap b ≡ some e)
        ⊎ ((e' : Entity) × (fs.heap b ≡ some e') × (e ≡ f e') × (fs.heap a ≡ some e'))
  unfolding edit
  edit-heap b e h = elim (Option-cases (fs.heap b)) [
    | inl absent ↦ inl (ground arith)
    | inr (e', present) ↦ elim (Bool-cases (a == b)) [
      | inl same ↦ inr (e', present, ground arith, ap fs.heap ((==_iff a b).0 same) ∙ present)
      | inr other ↦ inl (ground arith)
    ]
  ]

  pub edit-present : (b : ℕ) → fs.heap b ≢ none → (edit a f fs).heap b ≢ none
  unfolding edit
  edit-present b h = ground arith

  pub edit-absent : (b : ℕ) → fs.heap b ≡ none → (edit a f fs).heap b ≡ none
  unfolding edit
  edit-absent b h = ground arith

  pub edit-Sound :
      Keeps fs.heap f
      → ((e : Entity) → fs.heap a ≡ some e → (get_node (f e)).parent ≡ (get_node e).parent)
      → Sound fs
      → Sound (edit a f fs)
  unfolding edit
  edit-Sound k same_parent s = record {
    unused = λ b h. edit-absent b (s.unused b h);
    entities = λ b e h. elim (edit-heap b e h) [
      | inl old ↦ s.entities b e old
      | inr (e', old, same, at) ↦ rw same (k.entity e' (s.entities b e' old))
    ];
    closed = λ b e name c h child. elim (edit-heap b e h) [
      | inl old ↦ edit-present c (s.closed b e name c old child)
      | inr (e', old, same, at) ↦
          edit-present c (elim (k.children e' name c (subst (λ t. ChildOf t name c) same child)) [
            | inl was ↦ s.closed b e' name c old was
            | inr there ↦ there
          ])
    ];
    rooted = λ b e c h up. elim (edit-heap b e h) [
      | inl old ↦ present_after (s.rooted b e c old up)
      | inr (e', old, same, at) ↦ present_after (
          s.rooted b e' c old
            (sym (same_parent e' at) ∙ ap (λ t. (get_node t).parent) (sym same) ∙ up))
    ];
  }
    where
      present_after :
          {b c : ℕ} → (c < b) × (fs.heap c ≢ none) → (c < b) × ((edit a f fs).heap c ≢ none)
      present_after {c = c} (older, there) = (older, edit-present c there)

-- A file in the place of another of the same parent.
pub put_file-Sound :
    {Q : Type 0} (a : ℕ) (f f' : File) (fs : FileSystem Q)
    → fs.heap a ≡ some (file f')
    → f.node.parent ≡ f'.node.parent
    → LocalOk (file f)
    → Sound fs
    → Sound (edit a (λ e. file f) fs)
put_file-Sound a f f' fs there same_parent l =
    edit-Sound a (λ e. file f) fs (record { entity = λ e _. l; children = λ e k b c. absurd c })
      (λ e at. same_parent ∙ ap parent_of (sym there ∙ at))
  where
    parent_of : Option Entity → Option ℕ
    parent_of none = none
    parent_of (some e) = (get_node e).parent

module _ {Q : Type 0} (e : Entity) (fs : FileSystem Q) where
  pub alloc-present : (b : ℕ) → fs.heap b ≢ none → (alloc e fs).heap b ≢ none
  unfolding alloc
  alloc-present b h = ground arith

  pub alloc-heap :
      (b : ℕ) (e' : Entity) → (alloc e fs).heap b ≡ some e' → (e' ≡ e) ⊎ (fs.heap b ≡ some e')
  unfolding alloc
  alloc-heap b e' h = elim (Bool-cases (fs.free == b)) [
    | inl same ↦ inl (ground arith)
    | inr other ↦ inr (ground arith)
  ]

  pub alloc-Sound :
      LocalOk e
      → ((k : String) (b : ℕ) → ¬ ChildOf e k b)
      → ((b : ℕ) → (get_node e).parent ≡ some b → fs.heap b ≢ none)
      → Sound fs
      → Sound (alloc e fs)
  unfolding alloc
  alloc-Sound ok_e no_child parent_there s = record {
    unused = λ b h. ground (arith, s.unused b);
    entities = λ b e' h. elim (alloc-heap b e' h) [
      | inl same ↦ rw same ok_e
      | inr old ↦ s.entities b e' old
    ];
    closed = λ b e' name c h child. elim (alloc-heap b e' h) [
      | inl same ↦ absurd (no_child name c (subst (λ t. ChildOf t name c) same child))
      | inr old ↦ alloc-present c (s.closed b e' name c old child)
    ];
    rooted = λ b e' c h up. elim (Bool-cases (fs.free == b)) [
      | inl same ↦
          let there = parent_there c (ap parent_of (at_free b e' same h) ∙ up) in
          (
            subst (λ n. c < n) ((==_iff fs.free b).0 same) (below_free c there),
            alloc-present c there,
          )
      | inr other ↦
          let (older, there) = s.rooted b e' c (ground (arith, h, other)) up in
          (older, alloc-present c there)
    ];
  }
    where
      parent_of : Entity → Option ℕ
      parent_of e = (get_node e).parent

      at_free :
          (b : ℕ) (e' : Entity) → (fs.free == b) ≡ true → (alloc e fs).heap b ≡ some e' → e ≡ e'
      at_free b e' same h = ground (arith, same, h)

      below_free : (c : ℕ) → fs.heap c ≢ none → c < fs.free
      below_free c there = ground (arith, s.unused c, there)

  pub alloc-new : (alloc e fs).heap fs.free ≡ some e
  unfolding alloc
  alloc-new = ground arith

module _ (heap : ℕ → Option Entity) where
  -- A change of the node keeps the invariant if it keeps the bit, and of a file the size and blocks.
  abbrev pub SameNode : (Node → Node) → Type 0
  SameNode f =
      (n : Node)
      → (is_dir (f n) ≡ is_dir n)
        × ((f n).attrs.size ≡ n.attrs.size)
        × ((f n).attrs.blocks ≡ n.attrs.blocks)
        × ((f n).parent ≡ n.parent)

  on_node-LocalOk :
      (f : Node → Node) → SameNode f → (e : Entity) → LocalOk e → LocalOk (on_node f e)
  on_node-LocalOk f same (dir x) l = ((same x.node).0 ∙ l.0, l.1)
  on_node-LocalOk f same (file x) l = (
    (same x.node).0 ∙ l.0,
    (same x.node).1 ∙ l.1,
    (same x.node).2 ∙ l.2 ∙ ap blocks (sym (same x.node).1),
  )

  on_node-ChildOf :
      (f : Node → Node) (e : Entity) (k : String) (b : ℕ)
      → ChildOf (on_node f e) k b
      → ChildOf e k b ⊎ (heap b ≢ none)
  on_node-ChildOf f (dir x) k b c = inl c
  on_node-ChildOf f (file x) k b c = absurd c

  pub on_node-Keeps : (f : Node → Node) → SameNode f → Keeps heap (on_node f)
  on_node-Keeps f same = record { entity = on_node-LocalOk f same; children = on_node-ChildOf f }

  pub on_node_parent :
      (f : Node → Node)
      → SameNode f
      → (e : Entity) → (get_node (on_node f e)).parent ≡ (get_node e).parent
  on_node_parent f same (dir x) = (same x.node).3
  on_node_parent f same (file x) = (same x.node).3

  pub on_children_parent :
      (g : Map ℕ → Map ℕ) (e : Entity) → (get_node (on_children g e)).parent ≡ (get_node e).parent
  on_children_parent g (dir x) = refl
  on_children_parent g (file x) = refl

  insert-LocalOk :
      (name : String) (a : ℕ) (e : Entity) → LocalOk e → LocalOk (on_children (insert name a) e)
  insert-LocalOk name a (dir x) l = (l.0, insert-Distinct name a x.children l.1)
  insert-LocalOk name a (file x) l = l

  insert-ChildOf :
      (name : String) (a : ℕ)
      → heap a ≢ none
      → (e : Entity) (k : String) (b : ℕ) → ChildOf (on_children (insert name a) e) k b
      → ChildOf e k b ⊎ (heap b ≢ none)
  insert-ChildOf name a there (dir x) k b c = elim (Bool-cases (str_eq name k)) [
    | inl same ↦
        inr (subst (λ t. heap t ≢ none) (ground (arith, lookup-insert name k a x.children)) there)
    | inr other ↦ inl (ground (arith, lookup-insert name k a x.children))
  ]
  insert-ChildOf name a there (file x) k b c = absurd c

  pub insert-Keeps :
      (name : String) (a : ℕ) → heap a ≢ none → Keeps heap (on_children (insert name a))
  insert-Keeps name a there = record {
    entity = insert-LocalOk name a;
    children = insert-ChildOf name a there;
  }

  delete-LocalOk : (name : String) (e : Entity) → LocalOk e → LocalOk (on_children (delete name) e)
  delete-LocalOk name (dir x) l = (l.0, delete-Distinct name x.children l.1)
  delete-LocalOk name (file x) l = l

  delete-ChildOf :
      (name : String) (e : Entity) (k : String) (b : ℕ)
      → ChildOf (on_children (delete name) e) k b
      → ChildOf e k b ⊎ (heap b ≢ none)
  delete-ChildOf name (dir x) k b c = inl (ground (arith, lookup-delete name k x.children))
  delete-ChildOf name (file x) k b c = absurd c

  pub delete-Keeps : (name : String) → Keeps heap (on_children (delete name))
  delete-Keeps name = record { entity = delete-LocalOk name; children = delete-ChildOf name }

module _ {Q A : Type 0} where
  pub with_lock-Sound :
      (body : Op Q A)
      → ((fs : FileSystem Q) → Sound fs → Sound (body fs).1)
      → (fs : FileSystem Q) → Sound fs
      → Sound (with_lock body fs).1
  unfolding with_lock
  with_lock-Sound body h fs s = elim (Bool-cases fs.locked) [
    | inl held ↦ rw held s
    | inr idle ↦ rw idle (h (record fs { locked = true }) s)
  ]

  pub unless_readonly-Sound :
      (body : Op Q A)
      → ((fs : FileSystem Q) → Sound fs → Sound (body fs).1)
      → (fs : FileSystem Q) → Sound fs
      → Sound (unless_readonly body fs).1
  unfolding unless_readonly
  unless_readonly-Sound body h fs s = elim (Bool-cases fs.readonly) [
    | inl yes_readonly ↦ rw yes_readonly s
    | inr writable ↦ simp writable (h fs s)
  ]
