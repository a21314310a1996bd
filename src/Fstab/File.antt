-- ===== src/Fstab/File.antt =====
-- `FSTable.Load` and `FSTable.Save` of fluid/fstab.go undo each other.
use fluidfs.Prelude.{
  ◌+◌, ◌<◌, ◌≡◌, refl, sym, ap, ◌∙◌, true, false, List, [], ◌∷◌, ◌++◌, map, Option, none, some,
  arith, ◌==◌, lt→ltb, All, append-nil, append_assoc,
}
use fluidfs.Prelude.Text.{Text, text, is_empty, after_prefix, has_prefix, join}
use fluidfs.Prelude.Text.Words.{
  IsTrimmed, All-append, trim_space-trimmed, join-IsTrimmed, ends_with_space-append,
}
use fluidfs.Prelude.Text.Lines.{IsLine, or_empty_line, join-IsLine, drop_cr-trimmed}
use fluidfs.Utils.{utf8_length}
use fluidfs.Fstab.{Platform, MountPoint, with_defaults, format, blank, columns}
use fluidfs.Fstab.Entry.{IsUuidSafe, IsPrintable, columns-IsWord, parse-format}
use fluidfs.Fstab.Table.{
  Table, LoadError, update_prefix, are_update_runes, update_date, LineKind, empty_line, comment,
  update, definition, line_kind, scanned, add_parsed, load_line, load_lines,
}

-- A line that the scanner passes on as it is, and that trimming leaves alone.
pub record IsPlain (l : Text) : Type 0 where
  pub line : IsLine l
  pub trimmed : IsTrimmed l
  pub short : utf8_length l < 65536

-- A line that `Load` keeps as a comment.
pub record IsComment (c : Text) : Type 0 where
  pub plain : IsPlain c
  pub not_empty : is_empty c ≡ false
  pub mark : has_prefix c (text "#") ≡ true
  pub not_update : update_date c ≡ none

-- What the code relies on. A printed time is a line of the runes of the update line, and reading it
-- back gives the time to the second. A file that was written is there, with the text.
pub record IsLawful (p : Platform) (to_second : p.Time → p.Time) : Type 0 where
  pub uuids : IsUuidSafe p
  pub date_line : (t : p.Time) → IsLine (p.format_time t)
  pub date_trimmed : (t : p.Time) → IsTrimmed (p.format_time t)
  pub date_not_empty : (t : p.Time) → is_empty (p.format_time t) ≡ false
  pub date_runes : (t : p.Time) → are_update_runes (p.format_time t) ≡ true
  pub date_short : (t : p.Time) → utf8_length (p.format_time t) < 1000
  pub date_back : (t : p.Time) → p.parse_time (p.format_time t) ≡ some (to_second t)
  pub written_exists :
      (d d' : p.Disk) (path s : Text)
      → p.write_file d path s ≡ some d'
      → p.not_exist d' path ≡ false
  pub written_opens :
      (d d' : p.Disk) (path s : Text)
      → p.write_file d path s ≡ some d'
      → p.open_file d' path ≡ some (s, false)

-- A mount point that can be saved: it can be printed, its comments are comments, and its line is short
-- enough for the scanner.
pub record IsSavable (p : Platform) (mp : MountPoint p.Uuid) : Type 0 where
  pub printable : IsPrintable p (with_defaults mp)
  pub comments : All IsComment mp.comments
  pub short : utf8_length (format p mp).1 < 65536

utf8_length-append : (s t : Text) → utf8_length (s ++ t) ≡ utf8_length s + utf8_length t
unfolding utf8_length
utf8_length-append [] t = omega arith
utf8_length-append (c ∷ s) t = omega (arith, utf8_length-append s t)

after_prefix-append : (s t : Text) → after_prefix s (s ++ t) ≡ some t
after_prefix-append [] t = refl
after_prefix-append (c ∷ s) t = ground (arith, after_prefix-append s t)

pub scanned-plain : (ls : List Text) → All IsPlain ls → scanned ls ≡ (ls, false)
unfolding scanned
scanned-plain [] h = refl
scanned-plain (l ∷ ls) h =
    rw (scanned, lt→ltb (utf8_length l) 65536 h.0.short, scanned-plain ls h.1)
      (ap (λ t. (t ∷ ls, false)) (drop_cr-trimmed l h.0.trimmed.1))

pub empty-IsPlain : IsPlain []
unfolding utf8_length
empty-IsPlain = record { line = tt; trimmed = (refl, refl); short = omega arith }

pub All-IsPlain : (cs : List Text) → All IsComment cs → All IsPlain cs
All-IsPlain [] h = tt
All-IsPlain (c ∷ cs) h = (h.0.plain, All-IsPlain cs h.1)

pub or_empty_line-IsPlain : (cs : List Text) → All IsPlain cs → All IsPlain (or_empty_line cs)
or_empty_line-IsPlain [] h = (empty-IsPlain, tt)
or_empty_line-IsPlain (c ∷ cs) h = h

pub All-IsLine : (ls : List Text) → All IsPlain ls → All IsLine ls
All-IsLine [] h = tt
All-IsLine (l ∷ ls) h = (h.0.line, All-IsLine ls h.1)

module _ (p : Platform) (to_second : p.Time → p.Time) (laws : IsLawful p to_second) where
  -- The lines of a mount point in the file, and of all.
  abbrev pub mount_lines : MountPoint p.Uuid → List Text
  mount_lines mp = [] ∷ (or_empty_line mp.comments ++ (format p mp).1 ∷ [])

  abbrev pub table_lines : List (MountPoint p.Uuid) → List Text
  table_lines [] = []
  table_lines (mp ∷ mps) = mount_lines mp ++ table_lines mps

  abbrev pub header : p.Time → Text
  header now = update_prefix ++ p.format_time now

  pub definition-IsPlain : (mp : MountPoint p.Uuid) → IsSavable p mp → IsPlain (format p mp).1
  unfolding format
  definition-IsPlain mp h =
      let words = columns-IsWord p laws.uuids (with_defaults mp) h.printable in
      record {
        line = join-IsLine (columns p (with_defaults mp)) words;
        trimmed = join-IsTrimmed (columns p (with_defaults mp)) words;
        short = h.short;
      }

  definition_kind : (mp : MountPoint p.Uuid) → line_kind (format p mp).1 ≡ definition
  unfolding line_kind format join
  definition_kind mp =
      let (c, s, e, other) = laws.uuids.first mp.uuid in rw e (ground (arith, other))

  pub header-IsPlain : (now : p.Time) → IsPlain (header now)
  unfolding utf8_length
  header-IsPlain now = record {
    line =
        All-append (λ c. (c == 10) ≡ false) update_prefix (p.format_time now) (ground arith)
          (laws.date_line now);
    trimmed = (
      refl,
      ends_with_space-append update_prefix (p.format_time now) (laws.date_not_empty now)
          ∙ (laws.date_trimmed now).1,
    );
    short =
        omega (arith, utf8_length-append update_prefix (p.format_time now), laws.date_short now);
  }

  header_kind : (now : p.Time) → line_kind (header now) ≡ update (p.format_time now)
  unfolding line_kind update_date
  header_kind now =
      rw
        (
          line_kind,
          update_date,
          after_prefix-append update_prefix (p.format_time now),
          laws.date_not_empty now,
          laws.date_runes now,
        )
        refl

  abbrev pub after : List Text → List Text → Table p → Table p × Option LoadError
  after ls comments t = load_lines p ls comments t

  load-kind :
      (l : Text) (k : LineKind) (ls cs : List Text) (t : Table p)
      → IsTrimmed l
      → line_kind l ≡ k
      → after (l ∷ ls) cs t ≡ load_line p k l (load_lines p ls) cs t
  unfolding load_lines
  load-kind l k ls cs t trimmed kind =
      ap (λ s. load_line p (line_kind s) s (load_lines p ls) cs t) (trim_space-trimmed l trimmed)
      ∙ ap (λ k. load_line p k l (load_lines p ls) cs t) kind

  pub load-update :
      (now : p.Time) (ls : List Text) (t : Table p)
      → after (header now ∷ ls) [] t ≡ after ls [] (record t { updated = to_second now })
  unfolding load_line
  load-update now ls t =
      load-kind (header now) (update (p.format_time now)) ls [] t (header-IsPlain now).trimmed
        (header_kind now)
      ∙ rw
          (
            load_line,
            trim_space-trimmed (p.format_time now) (laws.date_trimmed now),
            laws.date_back now,
          )
          refl

  load-empty_line : (ls cs : List Text) (t : Table p) → after ([] ∷ ls) cs t ≡ after ls cs t
  unfolding line_kind load_line
  load-empty_line ls cs t = load-kind [] empty_line ls cs t (refl, refl) refl

  comment_kind : (c : Text) → IsComment c → line_kind c ≡ comment
  unfolding line_kind
  comment_kind c h = rw (line_kind, h.not_empty, h.mark, h.not_update) refl

  load-comments :
      (cs ls before : List Text) (t : Table p)
      → All IsComment cs
      → after (cs ++ ls) before t ≡ after ls (before ++ cs) t
  unfolding load_line
  load-comments [] ls before t h = ap (λ c. after ls c t) (sym (append-nil before))
  load-comments (c ∷ cs) ls before t h =
      load-kind c comment (cs ++ ls) before t h.0.plain.trimmed (comment_kind c h.0)
      ∙ load-comments cs ls (before ++ c ∷ []) t h.1
      ∙ ap (λ b. after ls b t) (append_assoc before (c ∷ []) cs)

  load-or_empty_line :
      (cs ls : List Text) (t : Table p)
      → All IsComment cs
      → after (or_empty_line cs ++ ls) [] t ≡ after ls cs t
  load-or_empty_line [] ls t h = load-empty_line ls [] t
  load-or_empty_line (c ∷ cs) ls t h = load-comments (c ∷ cs) ls [] t h

  abbrev pub added : Table p → MountPoint p.Uuid → Table p
  added t mp = record t { mounts = t.mounts ++ with_defaults mp ∷ [] }

  load-definition :
      (mp : MountPoint p.Uuid) (ls : List Text) (t : Table p)
      → IsSavable p mp
      → after ((format p mp).1 ∷ ls) mp.comments t ≡ after ls [] (added t mp)
  unfolding load_line format
  load-definition mp ls t h =
      load-kind (format p mp).1 definition ls mp.comments t (definition-IsPlain mp h).trimmed
        (definition_kind mp)
      ∙ ap (λ r. add_parsed p r (load_lines p ls) mp.comments t)
          (parse-format p laws.uuids mp h.printable (blank p))

  load-mount :
      (mp : MountPoint p.Uuid) (ls : List Text) (t : Table p)
      → IsSavable p mp
      → after (mount_lines mp ++ ls) [] t ≡ after ls [] (added t mp)
  load-mount mp ls t h =
      load-empty_line ((or_empty_line mp.comments ++ (format p mp).1 ∷ []) ++ ls) [] t
      ∙ ap (λ ms. after ms [] t)
          (append_assoc (or_empty_line mp.comments) ((format p mp).1 ∷ []) ls)
      ∙ load-or_empty_line mp.comments ((format p mp).1 ∷ ls) t h.comments
      ∙ load-definition mp ls t h

  pub load-table :
      (mps : List (MountPoint p.Uuid)) (t : Table p)
      → All (IsSavable p) mps
      → after (table_lines mps) [] t
        ≡ (record t { mounts = t.mounts ++ map with_defaults mps }, none)
  unfolding load_lines
  load-table [] t h = ap (λ ms. (record t { mounts = ms }, none)) (sym (append-nil t.mounts))
  load-table (mp ∷ mps) t h =
      load-mount mp (table_lines mps) t h.0
      ∙ load-table mps (added t mp) h.1
      ∙ ap (λ ms. (record t { mounts = ms }, none))
          (append_assoc t.mounts (with_defaults mp ∷ []) (map with_defaults mps))
