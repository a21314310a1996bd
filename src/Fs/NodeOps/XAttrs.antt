-- ===== src/Fs/NodeOps/XAttrs.antt =====
-- The extended attributes of fluid/node.go.
use fluidfs.Prelude.{
  ℕ, ◌≡◌, refl, ap, ◌∙◌, inl, inr, false, none, some, String, Bool-cases, str_eq, if◌then◌else◌,
}
use fluidfs.Prelude.Maps.{Map, lookup, delete, lookup-delete}
use fluidfs.Fs.{
  Slice, Node, Entity, dir, file, get_node, FileSystem, ok, err, no_xattr, edit, on_node,
}
use fluidfs.Fs.Calls.{held, node_call, the_node-present, edit_self}
use fluidfs.Fs.NodeOps.{in_buffer, xattr_reply, GetxattrRequest, getxattr, removexattr}

-- `Setxattr` and `Removexattr` change the attributes of the node alone.
abbrev pub with_xattrs : (Map ℕ → Map ℕ) → Node → Node
with_xattrs g n = record n { xattrs = g n.xattrs }

get_node-on_node : (f : Node → Node) (e : Entity) → get_node (on_node f e) ≡ f (get_node e)
get_node-on_node f (dir x) = refl
get_node-on_node f (file x) = refl

module _ {Q : Type 0} (fs : FileSystem Q) (a : ℕ) (e : Entity) (there : fs.heap a ≡ some e)
    (idle : fs.locked ≡ false) (k : String) (size : ℕ) (later : ℕ → Slice) where
  abbrev request : GetxattrRequest
  request = record { name = k; size = size }

  -- The state in which the FUSE library has used its buffers again.
  abbrev reused : FileSystem Q → FileSystem Q
  reused fs' = record fs' { buffers = later }

  getxattr_reply :
      (fs' : FileSystem Q) (e' : Entity)
      → fs'.heap a ≡ some e'
      → (getxattr a request (reused fs')).0
        ≡ xattr_reply size (in_buffer (reused fs') (lookup k (get_node e').xattrs))
  unfolding getxattr
  getxattr_reply fs' e' h =
      ap (λ r. r.0)
        (the_node-present (reused fs') a e'
          (λ n fs''. (xattr_reply size (in_buffer fs'' (lookup k n.xattrs)), fs'')) h)

  changed_reply :
      (g : Map ℕ → Map ℕ)
      → (getxattr a request
          (reused (record (edit a (on_node (with_xattrs g)) (held fs)) { locked = false }))).0
        ≡ xattr_reply size (in_buffer (reused fs) (lookup k (g (get_node e).xattrs)))
  changed_reply g =
      getxattr_reply (record (edit a (on_node (with_xattrs g)) (held fs)) { locked = false })
        (on_node (with_xattrs g) e) (edit_self (held fs) a (on_node (with_xattrs g)) e there)
      ∙ ap (λ n. xattr_reply size (in_buffer (reused fs) (lookup k n.xattrs)))
          (get_node-on_node (with_xattrs g) e)

  -- After `Removexattr` of an attribute that the node has, under a free lock, and whatever the buffers
  -- hold later, `Getxattr` answers that there is none of that name, and for every other name as it does
  -- without the call.
  pub getxattr-removexattr :
      (name : String) (place : ℕ)
      → lookup name (get_node e).xattrs ≡ some place
      → (getxattr a request (record (removexattr a name fs).1 { buffers = later })).0 ≡ (
          if str_eq name k
          then err no_xattr
          else (getxattr a request (record fs { buffers = later })).0)
  unfolding removexattr xattr_reply
  getxattr-removexattr name place found =
      ap (λ r. (getxattr a request (reused r.1)).0)
        (node_call fs idle a e
          (λ n fs'. elim (lookup name n.xattrs) [
            | none ↦ (err no_xattr, fs')
            | some value ↦ (ok tt, edit a (on_node (with_xattrs (delete name))) fs')
          ])
          (ok tt, edit a (on_node (with_xattrs (delete name))) (held fs)) there (rw found refl))
      ∙ changed_reply (delete name)
      ∙ rw (lookup-delete name k (get_node e).xattrs, getxattr_reply fs e there)
          (elim (Bool-cases (str_eq name k)) [
            | inl same ↦ rw (same, xattr_reply) refl
            | inr other ↦ rw other refl
          ])
