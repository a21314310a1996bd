-- ===== src/Fstab/Entry.antt =====
-- `MountPoint.Parse` and `MountPoint.String` of fluid/fstab.go undo each other.
use fluidfs.Prelude.{
  ℕ, ◌<◌, ◌^◌, ◌≤◌, ◌≡◌, ◌≢◌, refl, sym, ap, ◌∙◌, Bool, true, false, List, [], ◌∷◌, map, none, some,
  arith, All,
}
use fluidfs.Prelude.Text.{Text, is_empty, split, join, format_uint, parse_bool, format_bool}
use fluidfs.Prelude.Text.Decimal.{
  IsDigit, format_uint-IsDigit, format_uint-cons, parse_uint-format_uint,
}
use fluidfs.Prelude.Text.Words.{NotSpace, IsWord, IsPart, fields-join, split-join}
use fluidfs.Fstab.{
  Platform, MountPoint, with_defaults, parse_flags, parse_numbers, parse, columns, format,
}

-- What the code relies on: a printed UUID is one word, does not begin with the mark of a comment, and
-- is read back.
pub record IsUuidSafe (p : Platform) : Type 0 where
  pub word : (u : p.Uuid) → IsWord (p.print_uuid u)
  pub first : (u : p.Uuid) → (c : ℕ) × (s : Text) × (p.print_uuid u ≡ c ∷ s) × (c ≢ b'#')
  pub read_back : (u : p.Uuid) → p.parse_uuid (p.print_uuid u) ≡ (u, true)

-- What a line can hold: a path and a prefix without spaces, numbers of 32 bits, and at least one
-- option; the options have no spaces, commas or capitals, and are not all empty.
pub record IsPrintable (p : Platform) (mp : MountPoint p.Uuid) : Type 0 where
  pub path : IsWord mp.path
  pub prefix : IsWord mp.prefix
  pub uid : mp.uid < 2 ^ 32
  pub gid : mp.gid < 2 ^ 32
  pub first_option : Text
  pub other_options : List Text
  pub options : mp.options ≡ first_option ∷ other_options
  pub parts : All (IsPart b',') (first_option ∷ other_options)
  pub option_word : IsWord (join b',' mp.options)
  pub lowered : map p.lower (join b',' mp.options) ≡ join b',' mp.options

digits-NotSpace : (s : Text) → All IsDigit s → All NotSpace s
digits-NotSpace [] h = tt
digits-NotSpace (c ∷ s) h = (digit_not_space c h.0.0 h.0.1, digits-NotSpace s h.1)
  where
    digit_not_space : (c : ℕ) → b'0' ≤ c → c ≤ b'9' → NotSpace c
    digit_not_space c lo hi = ground arith

format_uint-IsWord : (n : ℕ) → IsWord (format_uint n)
format_uint-IsWord n =
    let (c, s, e) = format_uint-cons n in
    (ap is_empty e, digits-NotSpace (format_uint n) (format_uint-IsDigit n))

format_bool-IsWord : (b : Bool) → IsWord (format_bool b)
format_bool-IsWord true = (refl, (refl, (refl, (refl, (refl, tt)))))
format_bool-IsWord false = (refl, (refl, (refl, (refl, (refl, (refl, tt))))))

parse_bool-format_bool : (b : Bool) → parse_bool (format_bool b) ≡ some b
unfolding parse_bool
parse_bool-format_bool true = refl
parse_bool-format_bool false = refl

module _ (p : Platform) (l : IsUuidSafe p) (mp : MountPoint p.Uuid) (h : IsPrintable p mp) where
  pub columns-IsWord : All IsWord (columns p mp)
  columns-IsWord = (
    l.word mp.uuid,
    (
      h.path,
      (
        h.prefix,
        (
          format_uint-IsWord mp.uid,
          (
            format_uint-IsWord mp.gid,
            (h.option_word, (format_bool-IsWord mp.stored, (format_bool-IsWord mp.replicate, tt))),
          ),
        ),
      ),
    ),
  )

  options_back : split b',' (map p.lower (join b',' mp.options)) ≡ mp.options
  options_back =
      ap (split b',') (h.lowered ∙ ap (join b',') h.options)
      ∙ split-join b',' h.first_option h.other_options h.parts
      ∙ sym h.options

  -- What `Parse` makes of the columns.
  parse_columns :
      (old : MountPoint p.Uuid)
      → parse_numbers p
          (record old { uuid = mp.uuid; path = mp.path; prefix = mp.prefix })
          (columns p mp)
        ≡ (record mp { comments = old.comments }, none)
  unfolding parse_numbers parse_flags
  parse_columns old =
      let given = record mp {
        comments = old.comments;
        stored = old.stored;
        replicate = old.replicate;
      } in
      rw
        (
          parse_numbers,
          parse_uint-format_uint 32 mp.uid h.uid,
          parse_uint-format_uint 32 mp.gid h.gid,
        )
        (ap (λ os. parse_flags p (record given { options = os }) (columns p mp)) options_back
          ∙ rw (parse_flags, parse_bool-format_bool mp.stored, parse_bool-format_bool mp.replicate)
              refl)

  -- A printed mount point is read back, whatever the object held before, but for its comments, which a
  -- line does not have.
  pub parse-join :
      (old : MountPoint p.Uuid)
      → parse p old (join b' ' (columns p mp)) ≡ (record mp { comments = old.comments }, none)
  unfolding parse
  parse-join old =
      rw (parse, fields-join (columns p mp) columns-IsWord, l.read_back mp.uuid) (parse_columns old)

module _ (p : Platform) (l : IsUuidSafe p) (mp : MountPoint p.Uuid)
    (h : IsPrintable p (with_defaults mp)) where
  -- What `String` prints of a mount point is read back by `Parse`, whatever the object held before, with
  -- the options that `String` has set if there were none; the object keeps its own comments. A printed
  -- UUID is one word that is read back, the path and the prefix have no spaces, the numbers have 32
  -- bits, and the options are in lower case, without spaces and commas.
  pub parse-format :
      (old : MountPoint p.Uuid)
      → parse p old (format p mp).1 ≡ (record (format p mp).0 { comments = old.comments }, none)
  unfolding format
  parse-format = parse-join p l (with_defaults mp) h
