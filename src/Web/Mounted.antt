-- ===== src/Web/Mounted.antt =====
-- What a request to `MountHandler` of fluid/web.go does to the table of fluid/fstab.go.
use fluidfs.Prelude.{
  ◌≡◌, ◌⊎◌, inl, inr, refl, sym, ap, ◌∙◌, false, [], ◌∷◌, ◌++◌, map, Option, none, some, Bool-cases,
  Option-cases, subst, All, arith,
}
use fluidfs.Prelude.Maps.{Map, lookup}
use fluidfs.Prelude.Text.{Text, text, has_prefix}
use fluidfs.Fstab.{Platform, MountPoint, with_defaults, format}
use fluidfs.Fstab.Table.{Table, AddError, clash, save, add_mount_point}
use fluidfs.Fstab.Unique.{Differs, Unique, add-not_saved, add-saved, add_mount_point-Unique}
use fluidfs.Web.Requests.{
  string_field, number_field, Asks, asked_mount, unreadable, incomplete, not_there, no_stat,
  absolute, clashes, IsTurnedAway,
}
use fluidfs.Web.{
  Json, Stat, missing, stat_failed, directory, no_directory, Outside, answered, refused, panicked,
  Handled, mounted, checked_mount, mount_handler,
}

module _ (p : Platform) {F : Type 0} (outside : Outside p.Uuid F) where
  -- The end of a request by whether the table could be saved.
  abbrev pub IsSaved : p.Disk → p.Time → MountPoint p.Uuid → Table p → Handled p outside → Type 0
  IsSaved disk now mp t end =
      let saved = (save p disk now [] (record t { mounts = t.mounts ++ mp ∷ [] })).1 in
      ((saved ≡ none) × (end.1 ≡ disk) × (end.2 ≡ refused 500))
      ⊎ ((disk' : p.Disk) × (saved ≡ some disk')
          × (end.1 ≡ disk')
          × (end.2 ≡ answered 200 (format p mp).1))

  -- A request that reaches the table: its mount point joins the table, which is saved or not.
  pub record IsMounted (disk : p.Disk) (now : p.Time) (mp : MountPoint p.Uuid) (t : Table p)
      (end : Handled p outside) : Type 0 where
    pub directory_there : outside.stat mp.path ≡ directory
    pub relative : has_prefix mp.prefix (text "/") ≡ false
    pub differs : All (Differs p mp) t.mounts
    pub mounts : end.0.mounts ≡ map with_defaults (t.mounts ++ mp ∷ [])
    pub unique : Unique p end.0.mounts
    pub saved : IsSaved disk now mp t end

  mounted-table :
      (mp : MountPoint p.Uuid) (r : Table p × p.Disk × Option (AddError p))
      → (mounted p outside mp r).0 ≡ r.0
  mounted-table mp (t, disk, some e) = refl
  mounted-table mp (t, disk, none) = refl

  -- A mount point that clashes with none is added, and the answer depends on the file.
  mounted-IsSaved :
      (disk : p.Disk) (now : p.Time) (mp : MountPoint p.Uuid) (t : Table p)
      → clash p mp t.mounts ≡ none
      → IsSaved disk now mp t (mounted p outside mp (add_mount_point p disk now mp t))
  mounted-IsSaved disk now mp t free =
      let joined = record t { mounts = t.mounts ++ mp ∷ [] } in
      elim (Option-cases (save p disk now [] joined).1) [
        | inl failed ↦
            let end = add-not_saved p disk now mp t free failed in
            inl (
              failed,
              ap (λ r. (mounted p outside mp r).1) end,
              ap (λ r. (mounted p outside mp r).2) end,
            )
        | inr (disk', saved) ↦
            let end = add-saved p disk now mp t disk' free saved in
            inr (
              disk',
              saved,
              ap (λ r. (mounted p outside mp r).1) end,
              ap (λ r. (mounted p outside mp r).2) end,
            )
      ]

  module _ (disk : p.Disk) (now : p.Time) (t : Table p) (u : Unique p t.mounts) where
    added :
        (mp : MountPoint p.Uuid)
        → outside.stat mp.path ≡ directory
        → has_prefix mp.prefix (text "/") ≡ false
        → clash p mp t.mounts ≡ none
        → IsMounted disk now mp t (mounted p outside mp (add_mount_point p disk now mp t))
    added mp there relative free = elim (add_mount_point-Unique p disk now mp t u) [
      | inl (e, clash_there, same) ↦ absurd (ground (arith, free, clash_there))
      | inr joined ↦
          let table = mounted-table mp (add_mount_point p disk now mp t) in
          record {
            directory_there = there;
            relative = relative;
            differs = joined.new;
            mounts = ap (λ t. t.mounts) table ∙ joined.mounts;
            unique = subst (λ t. Unique p t.mounts) (sym table) joined.unique;
            saved = mounted-IsSaved disk now mp t free;
          }
    ]

    module _ (req : Option (Map (Json F))) (path prefix : Text) (uid gid : F)
        (asks : Asks p outside req path prefix uid gid) where
      abbrev mp : MountPoint p.Uuid
      mp = asked_mount p outside path prefix uid gid

      abbrev Ends : Handled p outside → Type 0
      Ends end = IsTurnedAway p outside disk t req end ⊎ IsMounted disk now mp t end

      added_or_not :
          outside.stat path ≡ directory
          → has_prefix prefix (text "/") ≡ false
          → Ends (mounted p outside mp (add_mount_point p disk now mp t))
      unfolding add_mount_point
      added_or_not there relative = elim (Option-cases (clash p mp t.mounts)) [
        | inl free ↦ inr (added mp there relative free)
        | inr (e, clash_there) ↦
            inl (refused 500, rw (add_mount_point, clash_there) refl, clashes asks clash_there)
      ]

      checked_or_not :
          (s : Stat) → outside.stat path ≡ s → Ends (checked_mount p outside disk now mp t)
      unfolding checked_mount
      checked_or_not missing e =
          inl (refused 400, rw (checked_mount, e) refl, not_there asks (inl e))
      checked_or_not stat_failed e = inl (panicked, rw (checked_mount, e) refl, no_stat asks e)
      checked_or_not no_directory e =
          inl (refused 400, rw (checked_mount, e) refl, not_there asks (inr e))
      checked_or_not directory e = elim (Bool-cases (has_prefix prefix (text "/"))) [
        | inl slash ↦ inl (refused 400, rw (checked_mount, e, slash) refl, absolute asks slash)
        | inr relative ↦
            let reached : checked_mount p outside disk now mp t
                ≡ mounted p outside mp (add_mount_point p disk now mp t) =
              rw (checked_mount, e, relative) refl in
            subst Ends (sym reached) (added_or_not e relative)
      ]

    -- To a table whose mount points differ pairwise, a request of a mount either is turned away, and
    -- neither the table nor the disk changes, for a reason that the answer fits: it cannot be read
    -- (500), one of the fields path, prefix, uid and gid is missing or of another type (400), the
    -- path is not there or no directory (400), its `Stat` fails otherwise (a panic), the prefix
    -- begins with a slash (400), or the mount point clashes with one of the table (500). Or the
    -- request has these four fields, and the mount point made of them, each in its place, joins the
    -- table: the path is a directory, the prefix does not begin with a slash, the mount point differs
    -- from all others, and the table still differs pairwise; the answer is the line of the mount
    -- point, with the disk that `Save` left, or 500 where the table could not be saved.
    pub mount_handler-Unique :
        (req : Option (Map (Json F)))
        → IsTurnedAway p outside disk t req (mount_handler p outside disk now req t)
          ⊎ ((path prefix : Text) × (uid gid : F) × Asks p outside req path prefix uid gid
              × IsMounted disk now
                  (asked_mount p outside path prefix uid gid)
                  t
                  (mount_handler p outside disk now req t))
    unfolding mount_handler
    mount_handler-Unique none = inl (refused 500, refl, unreadable refl)
    mount_handler-Unique (some req) = elim (string_field (lookup "path" req)) [
      | inl no_path ↦
          inl (refused 400, rw (mount_handler, no_path) refl, incomplete req refl (inl no_path))
      | inr (path, has_path) ↦ elim (string_field (lookup "prefix" req)) [
        | inl no_prefix ↦ inl (
          refused 400,
          rw (mount_handler, has_path, no_prefix) refl,
          incomplete req refl (inr (inl no_prefix)),
        )
        | inr (prefix, has_prefix_) ↦ elim (number_field (lookup "uid" req)) [
          | inl no_uid ↦ inl (
            refused 400,
            rw (mount_handler, has_path, has_prefix_, no_uid) refl,
            incomplete req refl (inr (inr (inl no_uid))),
          )
          | inr (uid, has_uid) ↦ elim (number_field (lookup "gid" req)) [
            | inl no_gid ↦ inl (
              refused 400,
              rw (mount_handler, has_path, has_prefix_, has_uid, no_gid) refl,
              incomplete req refl (inr (inr (inr no_gid))),
            )
            | inr (gid, has_gid) ↦
                let asks : Asks p outside (some req) path prefix uid gid = record {
                  body = req;
                  readable = refl;
                  path_field = has_path;
                  prefix_field = has_prefix_;
                  uid_field = has_uid;
                  gid_field = has_gid;
                } in
                let reached : mount_handler p outside disk now (some req) t
                    ≡ checked_mount p outside disk now (asked_mount p outside path prefix uid gid)
                        t =
                  rw (mount_handler, has_path, has_prefix_, has_uid, has_gid) refl in
                elim (checked_or_not (some req) path prefix uid gid asks (outside.stat path) refl) [
                  | inl away ↦
                      inl (subst (IsTurnedAway p outside disk t (some req)) (sym reached) away)
                  | inr joined ↦ inr (
                    path,
                    prefix,
                    uid,
                    gid,
                    asks,
                    subst (IsMounted disk now (asked_mount p outside path prefix uid gid) t)
                        (sym reached) joined,
                  )
                ]
          ]
        ]
      ]
    ]
