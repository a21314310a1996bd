-- ===== src/Fs/NodeOps.antt =====
-- The handlers of fluid/node.go, on the node at the address `a`. What a handler only logs is left out.
pub mod XAttrs
pub mod Path
use fluidfs.Prelude.{
  ℕ, Bool, true, false, List, map, Option, none, some, String, ◌==◌, if◌then◌else◌,
}
use fluidfs.Prelude.Maps.{lookup, insert, delete}
use fluidfs.Fs.{
  Slice, reslice, Attr, Node, Entity, get_node, FileSystem, Outcome, ok, err, panicked, no_xattr,
  Op, with_lock, edit, on_node,
}

-- The node behind a pointer; a nil pointer panics.
unfoldable pub the_node : {Q A : Type 0} → ℕ → (Node → Op Q A) → Op Q A
the_node a body fs = elim (fs.heap a) [ none ↦ (panicked, fs) | some e ↦ body (get_node e) fs ]

pub record GetxattrRequest : Type 0 where
  pub name : String
  pub size : ℕ

-- `data[:req.Size]`, if the size is not 0.
unfoldable pub xattr_reply : ℕ → Option Slice → Outcome Slice
xattr_reply size none = err no_xattr
xattr_reply size (some value) =
    if size == 0
    then ok value
    else elim (reslice 0 size value) [ none ↦ panicked | some part ↦ ok part ]

-- The slice that an attribute refers to, as it is now.
abbrev pub in_buffer : {Q : Type 0} → FileSystem Q → Option ℕ → Option Slice
in_buffer fs none = none
in_buffer fs (some place) = some (fs.buffers place)

unfoldable pub getxattr : {Q : Type 0} → ℕ → GetxattrRequest → Op Q Slice
unfolding the_node xattr_reply
getxattr a req =
    the_node a (λ n fs. (xattr_reply req.size (in_buffer fs (lookup req.name n.xattrs)), fs))

unfoldable pub listxattr : {Q : Type 0} → ℕ → Op Q (List String)
unfolding the_node
listxattr a = the_node a (λ n fs. (ok (map (λ entry. entry.0) n.xattrs), fs))

unfoldable pub removexattr : {Q : Type 0} → ℕ → String → Op Q (Unit {0})
unfolding the_node with_lock edit
removexattr a name = with_lock (
    the_node a (λ n fs. elim (lookup name n.xattrs) [
      | none ↦ (err no_xattr, fs)
      | some place ↦ (ok tt, edit a (on_node (λ m. record m { xattrs = delete name m.xattrs })) fs)
    ]))

-- The map keeps the slice of the request, `req.Xattr`, and not a copy of its bytes.
unfoldable pub setxattr : {Q : Type 0} → ℕ → String → ℕ → Op Q (Unit {0})
unfolding the_node with_lock edit
setxattr a name place = with_lock (
    the_node a (λ n fs.
      (ok tt, edit a (on_node (λ m. record m { xattrs = insert name place m.xattrs })) fs)))

unfoldable pub getattr : {Q : Type 0} → ℕ → Op Q Attr
unfolding the_node
getattr a = the_node a (λ n fs. (ok n.attrs, fs))

-- `Attr` fills in the attributes, all of them.
unfoldable pub attr : {Q : Type 0} → ℕ → Op Q Attr
unfolding the_node
attr a = the_node a (λ n fs. (ok n.attrs, fs))

-- Permission is always granted.
unfoldable pub access : {Q : Type 0} → ℕ → Op Q (Unit {0})
unfolding the_node
access a = the_node a (λ n fs. (ok tt, fs))

unfoldable pub forget : {Q : Type 0} → ℕ → Op Q (Unit {0})
unfolding the_node
forget a = the_node a (λ n fs. (ok tt, fs))

-- `fuse.SetattrRequest`: the bits of `Valid` that the handlers act on, and the values.
pub record SetattrRequest : Type 0 where
  pub valid_size : Bool
  pub valid_atime : Bool
  pub valid_atime_now : Bool
  pub valid_mtime : Bool
  pub valid_mtime_now : Bool
  pub valid_mode : Bool
  pub valid_uid : Bool
  pub valid_gid : Bool
  pub valid_crtime : Bool
  pub valid_flags : Bool
  pub size : ℕ
  pub atime : ℕ
  pub mtime : ℕ
  pub mode : ℕ
  pub uid : ℕ
  pub gid : ℕ
  pub crtime : ℕ
  pub flags : ℕ

-- The new attributes. A field that is both set and set to now is set to now.
unfoldable pub changed_attrs : (ℕ → ℕ) → SetattrRequest → Attr → Attr
changed_attrs now req attrs = record attrs {
  atime =
      if req.valid_atime_now then now 0 else (if req.valid_atime then req.atime else attrs.atime);
  mtime =
      if req.valid_mtime_now then now 1 else (if req.valid_mtime then req.mtime else attrs.mtime);
  mode = if req.valid_mode then req.mode else attrs.mode;
  uid = if req.valid_uid then req.uid else attrs.uid;
  gid = if req.valid_gid then req.gid else attrs.gid;
  crtime = if req.valid_crtime then req.crtime else attrs.crtime;
  flags = if req.valid_flags then req.flags else attrs.flags;
}

-- `Node.Setattr`; the response holds the new attributes.
unfoldable pub setattr : {Q : Type 0} → (ℕ → ℕ) → ℕ → SetattrRequest → Op Q Attr
unfolding the_node with_lock edit changed_attrs
setattr now a req = with_lock (
    the_node a (λ n fs. (
      ok (changed_attrs now req n.attrs),
      edit a (on_node (λ m. record m { attrs = changed_attrs now req m.attrs })) fs,
    )))
