-- ===== src/Tests/Fstab.antt =====
-- A concrete platform and table for fluid/fstab.go: a UUID is a number, written as letters.
use fluidfs.Prelude.{
  ℕ, suc, zero, ◌-◌, ◌≡◌, ◌⊎◌, refl, sym, ap, ◌∙◌, Bool, true, false, List, [], ◌∷◌, ◌++◌, Option,
  String, none, some, arith, ◌==◌, All, length, if◌then◌else◌,
}
use fluidfs.Prelude.Text.{Text, text, text_eq, join, format_uint}
use fluidfs.Prelude.Text.Words.{NotSpace}
use fluidfs.Utils.{utf8_length}
use fluidfs.Fstab.{Platform, MountPoint, with_defaults, parse, format}
use mathlib.Core.List.{Mem}
use fluidfs.Prelude.Maps.{lookup, insert, delete}
use fluidfs.Fstab.Options.{
  MountOption, fs_name, subtype, volume_name, read_only, wanted, default_mount_options,
  keyed_options, mount_options, mount_options-wanted,
}
use fluidfs.Fstab.Table.{
  Table, AddError, save, load, clash, paragraphs, update_prefix, path_exists, update_date,
  add_mount_point,
}
use fluidfs.Fstab.Entry.{IsUuidSafe, IsPrintable, parse-format}
use fluidfs.Fstab.File.{IsLawful, IsSavable}
use fluidfs.Fstab.RoundTrip.{load-save}
use fluidfs.Fstab.Unique.{IsAdded, text_eq_refl, add_mount_point-Unique}

abbrev letters : ℕ → Text
letters zero = []
letters (suc n) = b'u' ∷ letters n

abbrev Files : Type 0
Files = List (Text × Text)

abbrev contents : Files → Text → Option (Text × Bool)
contents [] path = none
contents ((name, s) ∷ fs) path =
    let rest = contents fs path in if text_eq name path then some (s, false) else rest

abbrev is_missing : Files → Text → Bool
is_missing fs path = elim (contents fs path) [ none ↦ true | some c ↦ false ]

abbrev lower_rune : ℕ → ℕ
lower_rune c = c

abbrev pub platform : Platform
platform = record {
  Uuid = ℕ;
  nil_uuid = 0;
  parse_uuid = λ s. (length s - 1, true);
  print_uuid = λ u. letters (suc u);
  same_uuid = λ u v. u == v;
  Time = Unit;
  parse_time = λ s. some tt;
  format_time = λ t. text "now";
  lower = lower_rune;
  Disk = Files;
  not_exist = is_missing;
  open_file = contents;
  write_file = λ d path s. some ((path, s) ∷ d);
}

length-letters : (n : ℕ) → length (letters n) ≡ n
length-letters zero = refl
length-letters (suc n) = ap suc (length-letters n)

letters-NotSpace : (n : ℕ) → All NotSpace (letters n)
letters-NotSpace zero = tt
letters-NotSpace (suc n) = (refl, letters-NotSpace n)

uuid_safe : IsUuidSafe platform
uuid_safe = record {
  word = λ u. (refl, letters-NotSpace (suc u));
  first = λ u. (b'u', letters u, refl, ground arith);
  read_back = λ u. ap (λ n. (n, true)) (omega (arith, length-letters u));
}

written_opens :
    (d d' : Files) (path s : Text)
    → some ((path, s) ∷ d) ≡ some d'
    → contents d' path ≡ some (s, false)
written_opens d d' path s e = ap (λ o. contents_of o) (sym e) ∙ rw (text_eq_refl path) refl
  where
    contents_of : Option Files → Option (Text × Bool)
    contents_of none = none
    contents_of (some fs) = contents fs path

written_exists :
    (d d' : Files) (path s : Text) → some ((path, s) ∷ d) ≡ some d' → is_missing d' path ≡ false
written_exists d d' path s e = rw (is_missing, written_opens d d' path s e) refl

lawful : IsLawful platform (λ t. t)
unfolding utf8_length
lawful = record {
  uuids = uuid_safe;
  date_line = λ t. (refl, (refl, (refl, tt)));
  date_trimmed = λ t. (refl, refl);
  date_not_empty = λ t. refl;
  date_runes = λ t. refl;
  date_short = λ t. omega arith;
  date_back = λ t. refl;
  written_exists = written_exists;
  written_opens = written_opens;
}

abbrev pub home : MountPoint ℕ
home = record {
  uuid = 3;
  path = text "/mnt/home";
  prefix = text "home";
  uid = 501;
  gid = 20;
  stored = true;
  replicate = false;
  comments = text "# Files of mine" ∷ [];
  options = text "readonly" ∷ text "remote" ∷ [];
}

abbrev pub other : MountPoint ℕ
other = record home { uuid = 4; path = text "/mnt/other"; prefix = text "other"; options = [] }

mount_options-wanted_example :
    ((key : String) → lookup key (keyed_options home) ≡ wanted home key)
    × All (λ option. (key : String) × (wanted home key ≡ some option)) (mount_options home).1
    × ((key : String)
        → (wanted home key ≡ none)
          ⊎ ((option : MountOption) × (wanted home key ≡ some option)
              × Mem option (mount_options home).1))
mount_options-wanted_example = mount_options-wanted home

home_options :
    (mount_options home).1
    ≡ fs_name (text "fluidfs")
      ∷ subtype (text "fluidfs")
      ∷ volume_name (text "home")
      ∷ read_only
      ∷ []
unfolding mount_options keyed_options default_mount_options insert delete
home_options = refl

home_line : (format platform home).1 ≡ text "uuuu /mnt/home home 501 20 readonly,remote true false"
unfolding format join format_uint
home_line = refl

printable : IsPrintable platform (with_defaults home)
unfolding join
printable = record {
  path = (refl, ground arith);
  prefix = (refl, ground arith);
  uid = omega arith;
  gid = omega arith;
  first_option = text "readonly";
  other_options = text "remote" ∷ [];
  options = refl;
  parts = ground arith;
  option_word = (
    refl,
    (
      refl,
      (
        refl,
        (
          refl,
          (
            refl,
            (
              refl,
              (refl, (refl, (refl, (refl, (refl, (refl, (refl, (refl, (refl, (refl, tt)))))))))),
            ),
          ),
        ),
      ),
    ),
  );
  lowered = refl;
}

parse-format_example :
    parse platform other (format platform home).1
    ≡ (record (format platform home).0 { comments = other.comments }, none)
parse-format_example = parse-format platform uuid_safe home printable other

abbrev pub table : Table platform
table = record { mounts = home ∷ []; path = text "fstab"; updated = tt }

savable : IsSavable platform home
unfolding format join format_uint utf8_length update_date
savable = record {
  printable = printable;
  comments = (
    record {
      plain = record { line = ground arith; trimmed = (refl, refl); short = omega arith };
      not_empty = refl;
      mark = refl;
      not_update = refl;
    },
    tt,
  );
  short = omega arith;
}

abbrev after_save : Files
after_save =
    (text "fstab", update_prefix ++ (text "now" ++ 10 ∷ paragraphs platform (home ∷ []))) ∷ []

load-save_example : load platform after_save tt (text "fstab") ≡ (
  record {
    mounts = (save platform [] tt (text "fstab") table).0.mounts;
    path = text "fstab";
    updated = tt;
  },
  none,
)
unfolding save
load-save_example =
    load-save platform (λ t. t) lawful [] after_save tt tt (text "fstab") table (savable, tt) refl

add_mount_point-Unique_example :
    ((e : AddError platform) × (clash platform other table.mounts ≡ some e)
      × (add_mount_point platform [] tt other table ≡ (table, [], some e)))
    ⊎ IsAdded platform other table (add_mount_point platform [] tt other table)
add_mount_point-Unique_example = add_mount_point-Unique platform [] tt other table (tt, tt)

same_path :
    clash platform (record other { path = home.path }) table.mounts ≡ some (path_exists home.path)
unfolding clash
same_path = refl
