-- ===== src/Web/Requests.antt =====
-- The requests to `MountHandler` of fluid/web.go: what they ask for, and why they are turned away.
use fluidfs.Prelude.{◌≡◌, ◌⊎◌, inl, inr, refl, true, [], ◌∷◌, Option, none, some}
use fluidfs.Prelude.Maps.{Map, lookup}
use fluidfs.Prelude.Text.{Text, text, has_prefix}
use fluidfs.Fstab.{Platform, MountPoint}
use fluidfs.Fstab.Table.{Table, AddError, clash}
use fluidfs.Web.{
  Json, string, number, other, missing, stat_failed, no_directory, Outside, Answer, refused,
  panicked, string_value, number_value, Handled,
}

-- A field is a string or not, and a number or not.
pub string_field :
    {F : Type 0} (field : Option (Json F))
    → (string_value field ≡ none) ⊎ ((s : Text) × (field ≡ some (string s)))
string_field none = inl refl
string_field (some (string s)) = inr (s, refl)
string_field (some (number x)) = inl refl
string_field (some other) = inl refl

pub number_field :
    {F : Type 0} (field : Option (Json F))
    → (number_value field ≡ none) ⊎ ((x : F) × (field ≡ some (number x)))
number_field none = inl refl
number_field (some (string s)) = inl refl
number_field (some (number x)) = inr (x, refl)
number_field (some other) = inl refl

module _ (p : Platform) {F : Type 0} (outside : Outside p.Uuid F) where
  -- The request is an object with these four fields.
  pub record Asks (req : Option (Map (Json F))) (path prefix : Text) (uid gid : F) : Type 0 where
    pub body : Map (Json F)
    pub readable : req ≡ some body
    pub path_field : lookup "path" body ≡ some (string path)
    pub prefix_field : lookup "prefix" body ≡ some (string prefix)
    pub uid_field : lookup "uid" body ≡ some (number uid)
    pub gid_field : lookup "gid" body ≡ some (number gid)

  -- The mount point that a request asks for: each field in its place, stored and replicated, with the
  -- default options and a new UUID.
  abbrev pub asked_mount : Text → Text → F → F → MountPoint p.Uuid
  asked_mount path prefix uid gid = record {
    uuid = outside.new_uuid;
    path = path;
    prefix = prefix;
    uid = outside.to_uint32 uid;
    gid = outside.to_uint32 gid;
    stored = true;
    replicate = true;
    comments = [];
    options = text "defaults" ∷ [];
  }

  -- The reasons to turn a request away, with the answer to each.
  pub data Refused (t : Table p) (req : Option (Map (Json F))) : Answer → Type 0 where
    unreadable : req ≡ none → Refused t req (refused 500)
    incomplete :
        (body : Map (Json F))
        → req ≡ some body
        → (string_value (lookup "path" body) ≡ none)
          ⊎ ((string_value (lookup "prefix" body) ≡ none)
              ⊎ ((number_value (lookup "uid" body) ≡ none)
                  ⊎ (number_value (lookup "gid" body) ≡ none)))
        → Refused t req (refused 400)
    not_there :
        {path prefix : Text} {uid gid : F}
        → Asks req path prefix uid gid
        → (outside.stat path ≡ missing) ⊎ (outside.stat path ≡ no_directory)
        → Refused t req (refused 400)
    no_stat :
        {path prefix : Text} {uid gid : F}
        → Asks req path prefix uid gid
        → outside.stat path ≡ stat_failed
        → Refused t req panicked
    absolute :
        {path prefix : Text} {uid gid : F}
        → Asks req path prefix uid gid
        → has_prefix prefix (text "/") ≡ true
        → Refused t req (refused 400)
    clashes :
        {path prefix : Text} {uid gid : F} {e : AddError p}
        → Asks req path prefix uid gid
        → clash p (asked_mount path prefix uid gid) t.mounts ≡ some e
        → Refused t req (refused 500)

  -- A request that is turned away for one of these reasons changes neither the table nor the disk.
  abbrev pub IsTurnedAway : p.Disk → Table p → Option (Map (Json F)) → Handled p outside → Type 0
  IsTurnedAway disk t req end = (answer : Answer) × (end ≡ (t, disk, answer)) × Refused t req answer
