-- ===== src/Fs/NodeOps/Path.antt =====
-- `Node.Path` of fluid/node.go: the way up to the root ends.
use fluidfs.Prelude.{
  ℕ, zero, suc, ◌+◌, ◌<◌, ◌≡◌, refl, inl, inr, List, [], ◌∷◌, Option, none, some, String, arith,
  Option-cases,
}
use fluidfs.Fs.{Entity, get_node, FileSystem, init}
use fluidfs.Fs.Heap.{IsSound}
use fluidfs.Fs.Reach.{Reach, reached-Sound}

-- `Path`, where `join` is that of `path/filepath`, with fuel for the way up; none is the panic of a nil
-- pointer, or the end of the fuel.
unfoldable pub node_path : (List String → String) → ℕ → (ℕ → Option Entity) → ℕ → Option String
node_path join zero heap a = none
node_path join (suc fuel) heap a = elim (heap a) [
  | none ↦ none
  | some e ↦ elim (get_node e).parent [
    | none ↦ some (get_node e).name
    | some b ↦ elim (node_path join fuel heap b) [
      | none ↦ none
      | some path ↦ some (join (path ∷ (get_node e).name ∷ []))
    ]
  ]
]

module _ (join : List String → String) (heap : ℕ → Option Entity) (free : ℕ)
    (s : IsSound heap free) where
  -- Any two amounts of fuel above the address give the same path.
  same_path :
      (n m a : ℕ) (e : Entity)
      → heap a ≡ some e
      → a < n
      → a < m
      → (path : String) × (node_path join n heap a ≡ some path)
        × (node_path join m heap a ≡ some path)
  unfolding node_path
  same_path zero m a e there less_n less_m = absurd (omega (arith, less_n))
  same_path (suc n) zero a e there less_n less_m = absurd (omega (arith, less_m))
  same_path (suc n) (suc m) a e there less_n less_m = elim (Option-cases (get_node e).parent) [
    | inl top ↦
        ((get_node e).name, rw (node_path, there, top) refl, rw (node_path, there, top) refl)
    | inr (b, up) ↦
        let (older, present) = s.rooted a e b there up in
        elim (Option-cases (heap b)) [
          | inl gone ↦ absurd (present gone)
          | inr (e', found) ↦
              let (path, first, second) = same_path n m b e' found (omega arith) (omega arith) in
              (
                join (path ∷ (get_node e).name ∷ []),
                rw (node_path, there, up, first) refl,
                rw (node_path, there, up, second) refl,
              )
        ]
  ]

-- In every state that calls lead to from a new mount, within the bounds of a step, the recursion of
-- `Path` ends for every entity, without a nil pointer: as many calls as the entity's address and one
-- more are enough, and more fuel gives the same path.
pub node_path-ends :
    {Q : Type 0} (draw : Q → ℕ × Q) (join : List String → String) (max_alloc : ℕ) (sequence : Q)
    (now uid gid : ℕ) (fs : FileSystem Q) (a fuel : ℕ) (e : Entity)
    → Reach draw max_alloc (init draw sequence now uid gid) fs
    → fs.heap a ≡ some e
    → a < fuel
    → (path : String) × (node_path join (a + 1) fs.heap a ≡ some path)
      × (node_path join fuel fs.heap a ≡ some path)
node_path-ends draw join max_alloc sequence now uid gid fs a fuel e r there enough =
    let s = reached-Sound draw max_alloc sequence now uid gid fs r in
    same_path join fs.heap fs.free s (a + 1) fuel a e there (omega arith) enough
