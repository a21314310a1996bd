-- ===== src/Fstab/Unique.antt =====
-- `FSTable.AddMountPoint` of fluid/fstab.go keeps mount points apart.
use fluidfs.Prelude.{
  ◌≡◌, ◌≢◌, ◌⊎◌, refl, sym, ap, ◌∙◌, inl, inr, true, false, List, [], ◌∷◌, ◌++◌, map, Option, none,
  some, arith, All, Option-cases,
}
use fluidfs.Prelude.Text.{Text, text_eq}
use fluidfs.Fstab.{Platform, MountPoint, with_defaults}
use fluidfs.Fstab.Table.{save_failed, Table, save, clash, add_mount_point, AddError}

pub text_eq_refl : (s : Text) → text_eq s s ≡ true
text_eq_refl [] = refl
text_eq_refl (c ∷ s) = ground (arith, text_eq_refl s)

text_eq-ne : (s t : Text) → text_eq s t ≡ false → s ≢ t
text_eq-ne s t h e = let b : false ≡ true = sym h ∙ ap (λ x. text_eq x t) e ∙ text_eq_refl t in cc

module _ (p : Platform) where
  -- Another UUID, another path and another prefix.
  abbrev pub Differs : MountPoint p.Uuid → MountPoint p.Uuid → Type 0
  Differs mp cmp =
      (p.same_uuid mp.uuid cmp.uuid ≡ false) × (mp.path ≢ cmp.path) × (mp.prefix ≢ cmp.prefix)

  abbrev pub Unique : List (MountPoint p.Uuid) → Type 0
  Unique [] = Unit
  Unique (mp ∷ mps) = All (λ later. Differs later mp) mps × Unique mps

  clash-Differs :
      (mp : MountPoint p.Uuid) (mps : List (MountPoint p.Uuid))
      → clash p mp mps ≡ none
      → All (Differs mp) mps
  unfolding clash
  clash-Differs mp [] h = tt
  clash-Differs mp (cmp ∷ mps) h =
      let (uuid, path, prefix, rest) = apart in
      (
        (uuid, text_eq-ne mp.path cmp.path path, text_eq-ne mp.prefix cmp.prefix prefix),
        clash-Differs mp mps rest,
      )
    where
      apart :
          (p.same_uuid mp.uuid cmp.uuid ≡ false)
          × (text_eq mp.path cmp.path ≡ false)
          × (text_eq mp.prefix cmp.prefix ≡ false)
          × (clash p mp mps ≡ none)
      apart = (ground arith, ground arith, ground arith, ground arith)

  Unique-append :
      (mps : List (MountPoint p.Uuid)) (mp : MountPoint p.Uuid)
      → Unique mps
      → All (Differs mp) mps
      → Unique (mps ++ mp ∷ [])
  Unique-append [] mp u d = (tt, tt)
  Unique-append (first ∷ mps) mp u d = (All-snoc mps u.0, Unique-append mps mp u.1 d.1)
    where
      All-snoc :
          (ms : List (MountPoint p.Uuid))
          → All (λ later. Differs later first) ms
          → All (λ later. Differs later first) (ms ++ mp ∷ [])
      All-snoc [] h = (d.0, tt)
      All-snoc (m ∷ ms) h = (h.0, All-snoc ms h.1)

  All-with_defaults :
      (first : MountPoint p.Uuid) (mps : List (MountPoint p.Uuid))
      → All (λ later. Differs later first) mps
      → All (λ later. Differs later (with_defaults first)) (map with_defaults mps)
  All-with_defaults first [] h = tt
  All-with_defaults first (mp ∷ mps) h = (h.0, All-with_defaults first mps h.1)

  Unique-with_defaults :
      (mps : List (MountPoint p.Uuid)) → Unique mps → Unique (map with_defaults mps)
  Unique-with_defaults [] u = tt
  Unique-with_defaults (mp ∷ mps) u = (All-with_defaults mp mps u.0, Unique-with_defaults mps u.1)

  -- What a call of `AddMountPoint` leads to.
  pub record IsAdded (mp : MountPoint p.Uuid) (t : Table p)
      (r : Table p × p.Disk × Option (AddError p)) : Type 0 where
    pub mounts : r.0.mounts ≡ map with_defaults (t.mounts ++ mp ∷ [])
    pub new : All (Differs mp) t.mounts
    pub unique : Unique r.0.mounts

  -- A mount point that clashes with none, by the answer of `Save`.
  module _ (disk : p.Disk) (now : p.Time) (mp : MountPoint p.Uuid) (t : Table p) where
    abbrev joined : Table p
    joined = record t { mounts = t.mounts ++ mp ∷ [] }

    pub add-not_saved :
        clash p mp t.mounts ≡ none
        → (save p disk now [] joined).1 ≡ none
        → add_mount_point p disk now mp t ≡ ((save p disk now [] joined).0, disk, some save_failed)
    unfolding add_mount_point save
    add-not_saved free failed = rw (add_mount_point, free, failed) refl

    pub add-saved :
        (disk' : p.Disk)
        → clash p mp t.mounts ≡ none
        → (save p disk now [] joined).1 ≡ some disk'
        → add_mount_point p disk now mp t ≡ ((save p disk now [] joined).0, disk', none)
    unfolding add_mount_point save
    add-saved disk' free saved = rw (add_mount_point, free, saved) refl

    added-mounts :
        clash p mp t.mounts ≡ none
        → (add_mount_point p disk now mp t).0.mounts ≡ map with_defaults (t.mounts ++ mp ∷ [])
    unfolding save
    added-mounts free = elim (Option-cases (save p disk now [] joined).1) [
      | inl failed ↦ ap (λ r. r.0.mounts) (add-not_saved free failed)
      | inr (disk', saved) ↦ ap (λ r. r.0.mounts) (add-saved disk' free saved)
    ]

  -- To a table whose mount points differ pairwise in their UUIDs, paths and prefixes, `AddMountPoint`
  -- either refuses a mount point that clashes with one of them, and neither the table nor the disk
  -- changes; or the mount point differs from all, the table has it at its end and still differs
  -- pairwise, also where the file could not be saved.
  pub add_mount_point-Unique :
      (disk : p.Disk) (now : p.Time) (mp : MountPoint p.Uuid) (t : Table p)
      → Unique t.mounts
      → ((e : AddError p) × (clash p mp t.mounts ≡ some e)
          × (add_mount_point p disk now mp t ≡ (t, disk, some e)))
        ⊎ IsAdded mp t (add_mount_point p disk now mp t)
  unfolding add_mount_point
  add_mount_point-Unique disk now mp t u = elim (Option-cases (clash p mp t.mounts)) [
    | inr (e, clashes) ↦ inl (e, clashes, rw (add_mount_point, clashes) refl)
    | inl none_clashes ↦
        let new = clash-Differs mp t.mounts none_clashes in
        inr (record {
          mounts = added-mounts disk now mp t none_clashes;
          new = new;
          unique =
              rw (added-mounts disk now mp t none_clashes)
                (Unique-with_defaults (t.mounts ++ mp ∷ []) (Unique-append t.mounts mp u new));
        })
  ]
