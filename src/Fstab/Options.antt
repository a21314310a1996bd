-- ===== src/Fstab/Options.antt =====
-- `MountPoint.MountOptions` of fluid/fstab.go and `DefaultMountOptions` of fluid/fuse.go.
use fluidfs.Prelude.{
  ◌≡◌, refl, List, [], map, Option, none, some, arith, if◌then◌else◌, ◌||◌, subst, ◌⊎◌,
  Option-cases, All-mono, sym, ◌∙◌, false, All, str_eq_iff, Bool-cases, inl, inr, String, str_eq,
}
use mathlib.Core.List.{Mem}
use fluidfs.Prelude.Maps.{
  Map, lookup, insert, delete, Distinct, values-Keyed, Mem-lookup, insert-Distinct, delete-Distinct,
}
use fluidfs.Prelude.Text.{Text, text, is_one_of}
use fluidfs.Fstab.{MountPoint, with_defaults}

-- The calls of the FUSE library that make an option.
pub data MountOption : Type 0 where
  fs_name : Text → MountOption
  subtype : Text → MountOption
  local_volume : MountOption
  volume_name : Text → MountOption
  read_only no_apple_double no_apple_xattr allow_non_empty_mount allow_dev : MountOption

unfoldable pub default_mount_options : Map MountOption
unfolding insert
default_mount_options =
    insert "local" local_volume
      (insert "subtype" (subtype (text "fluidfs")) (insert "fsname" (fs_name (text "fluidfs")) []))

-- `if ListContains(name, mp.Options) { ... }`
abbrev pub when :
    Text → List Text → (Map MountOption → Map MountOption) → Map MountOption → Map MountOption
when name options change opts = if is_one_of name options then change opts else opts

-- The options by their keys.
unfoldable pub keyed_options : {U : Type 0} → MountPoint U → Map MountOption
unfolding default_mount_options insert delete
keyed_options mp =
    let options = (with_defaults mp).options in
    when (text "dev") options (insert "dev" allow_dev) (
      when (text "nonempty") options (insert "allownonempty" allow_non_empty_mount) (
        when (text "noapple") options
          (λ opts.
            insert "noapplexattr" no_apple_xattr (insert "noappledouble" no_apple_double opts))
          (when (text "readonly") options (insert "readonly" read_only) (
            when (text "remote") options (delete "local")
              (insert "volume" (volume_name mp.prefix) default_mount_options)))))

-- The values, in the order of the map, which Go leaves open.
unfoldable pub mount_options : {U : Type 0} → MountPoint U → MountPoint U × List MountOption
unfolding keyed_options
mount_options mp = (with_defaults mp, map (λ entry. entry.1) (keyed_options mp))

-- The option that a mount point asks for under a key: the documentation of `MountOptions`, where
-- "remote" takes the local volume away and the other words add options. There are no other keys.
abbrev pub wanted : {U : Type 0} → MountPoint U → String → Option MountOption
wanted mp key =
    let asked = λ (name : Text). is_one_of name (with_defaults mp).options in
    if str_eq "fsname" key
    then some (fs_name (text "fluidfs"))
    else if str_eq "subtype" key
    then some (subtype (text "fluidfs"))
    else if str_eq "volume" key
    then some (volume_name mp.prefix)
    else if str_eq "local" key
    then (if asked (text "remote") then none else some local_volume)
    else if str_eq "readonly" key
    then (if asked (text "readonly") then some read_only else none)
    else if str_eq "noappledouble" key || str_eq "noapplexattr" key
    then (if asked (text "noapple")
        then some (if str_eq "noappledouble" key then no_apple_double else no_apple_xattr)
        else none)
    else if str_eq "allownonempty" key
    then (if asked (text "nonempty") then some allow_non_empty_mount else none)
    else if str_eq "dev" key
    then (if asked (text "dev") then some allow_dev else none)
    else none

-- A change that is made or not keeps every key once.
when-Distinct :
    (name : Text) (options : List Text) (change : Map MountOption → Map MountOption)
    (opts : Map MountOption)
    → ((opts : Map MountOption) → Distinct opts → Distinct (change opts))
    → Distinct opts
    → Distinct (when name options change opts)
when-Distinct name options change opts keeps d = elim (Bool-cases (is_one_of name options)) [
  | inl asked ↦ rw (when, asked) (keeps opts d)
  | inr absent ↦ rw (when, absent) d
]

lookup-when :
    (key : String) (name : Text) (options : List Text) (change : Map MountOption → Map MountOption)
    (opts : Map MountOption)
    → lookup key (when name options change opts)
      ≡ (if is_one_of name options then lookup key (change opts) else lookup key opts)
lookup-when key name options change opts = ground arith

default-Distinct : (volume : MountOption) → Distinct (insert "volume" volume default_mount_options)
unfolding default_mount_options insert lookup
default-Distinct volume = (refl, (refl, (refl, (refl, tt))))

keyed_options-Distinct : {U : Type 0} (mp : MountPoint U) → Distinct (keyed_options mp)
unfolding keyed_options
keyed_options-Distinct mp =
    let options = (with_defaults mp).options in
    let volume = insert "volume" (volume_name mp.prefix) default_mount_options in
    let remote = when (text "remote") options (delete "local") volume in
    let readonly = when (text "readonly") options (insert "readonly" read_only) remote in
    let no_apple = λ (opts : Map MountOption).
      insert "noapplexattr" no_apple_xattr (insert "noappledouble" no_apple_double opts) in
    let noapple = when (text "noapple") options no_apple readonly in
    let nonempty =
      when (text "nonempty") options (insert "allownonempty" allow_non_empty_mount) noapple in
    when-Distinct (text "dev") options (insert "dev" allow_dev) nonempty
      (insert-Distinct "dev" allow_dev)
      (when-Distinct (text "nonempty") options (insert "allownonempty" allow_non_empty_mount)
        noapple (insert-Distinct "allownonempty" allow_non_empty_mount)
        (when-Distinct (text "noapple") options no_apple readonly
          (λ opts d.
            insert-Distinct "noapplexattr" no_apple_xattr
              (insert "noappledouble" no_apple_double opts)
              (insert-Distinct "noappledouble" no_apple_double opts d))
          (when-Distinct (text "readonly") options (insert "readonly" read_only) remote
            (insert-Distinct "readonly" read_only)
            (when-Distinct (text "remote") options (delete "local") volume (delete-Distinct "local")
              (default-Distinct (volume_name mp.prefix))))))

-- What holds at one key, and at another that differs.
by_key :
    (name key : String) (P : String → Type 0) → P name → (str_eq name key ≡ false → P key) → P key
by_key name key P at_name elsewhere = elim (Bool-cases (str_eq name key)) [
  | inl same ↦ subst P ((str_eq_iff name key).0 same) at_name
  | inr differs ↦ elsewhere differs
]

lookup-keyed_options :
    {U : Type 0} (mp : MountPoint U) (key : String) → lookup key (keyed_options mp) ≡ wanted mp key
unfolding keyed_options default_mount_options lookup insert delete
lookup-keyed_options mp key =
    let P = λ (key : String). lookup key (keyed_options mp) ≡ wanted mp key in
    by_key "dev" key P (ground arith) λ not_dev.
      by_key "allownonempty" key P (ground arith) λ not_allownonempty.
        by_key "noapplexattr" key P (ground arith) λ not_noapplexattr.
          by_key "noappledouble" key P (ground arith) λ not_noappledouble.
            by_key "readonly" key P (ground arith) λ not_readonly.
              by_key "local" key P (ground arith) λ not_local.
                by_key "volume" key P (ground arith) λ not_volume.
                  by_key "subtype" key P (ground arith) λ not_subtype.
                    by_key "fsname" key P (ground arith) λ not_fsname. ground (
                      arith, not_dev, not_allownonempty, not_noapplexattr, not_noappledouble,
                      not_readonly, not_local, not_volume, not_subtype, not_fsname,
                    )

-- The options of a mount point are those that the documentation of `MountOptions` gives and no others:
-- under every key stands what is wanted there, and nothing where nothing is; the values that
-- `mount_options` answers are what is wanted under some key, and whatever is wanted is among them.
pub mount_options-wanted :
    {U : Type 0} (mp : MountPoint U)
    → ((key : String) → lookup key (keyed_options mp) ≡ wanted mp key)
      × All (λ option. (key : String) × (wanted mp key ≡ some option)) (mount_options mp).1
      × ((key : String)
          → (wanted mp key ≡ none)
            ⊎ ((option : MountOption) × (wanted mp key ≡ some option)
                × Mem option (mount_options mp).1))
unfolding mount_options
mount_options-wanted mp = (
  lookup-keyed_options mp,
  All-mono (λ option. (key : String) × (lookup key (keyed_options mp) ≡ some option))
      (λ option. (key : String) × (wanted mp key ≡ some option))
      (λ option (key, found). (key, sym (lookup-keyed_options mp key) ∙ found))
      (map (λ entry. entry.1) (keyed_options mp))
      (values-Keyed (keyed_options mp) (keyed_options-Distinct mp)),
  λ key. elim (Option-cases (wanted mp key)) [
    | inl nothing ↦ inl nothing
    | inr (option, is) ↦
        inr
          (option, is, Mem-lookup option (keyed_options mp) key (lookup-keyed_options mp key ∙ is))
  ],
)
