-- ===== src/Prelude/Text/Lines.antt =====
-- Lines that are put one under another are read as the same lines.
use Prim.Native.Nat.{ℕ}
use mathlib.Core.Path.{◌≡◌, refl, sym, ap, ◌∙◌}
use mathlib.Core.List.{List, [], ◌∷◌, ◌++◌, append-nil, append_assoc}
use mathlib.Core.Bool.{false}
use native.Mathlib.Omega.{arith}
use fluidfs.Prelude.Tests.{◌==◌}
use fluidfs.Prelude.Lists.{All}
use fluidfs.Prelude.Text.{Text, is_space, drop_cr, join, lines_from}
use fluidfs.Prelude.Text.Words.{IsPart, IsWord, NotSpace, All-append, ends_with_space}

-- A line has no newline.
abbrev pub IsLine : Text → Type 0
IsLine = IsPart 10

-- Lines, each with its newline.
abbrev pub written_lines : List Text → Text
written_lines [] = []
written_lines (l ∷ ls) = l ++ 10 ∷ written_lines ls

lines_from-line :
    (p l rest : Text) → IsLine l → lines_from p (l ++ 10 ∷ rest) ≡ (p ++ l) ∷ lines_from [] rest
unfolding lines_from
lines_from-line p [] rest h = ap (λ t. t ∷ lines_from [] rest) (sym (append-nil p))
lines_from-line p (c ∷ l) rest h =
    rw (lines_from, h.0)
      (lines_from-line (p ++ c ∷ []) l rest h.1
        ∙ ap (λ t. t ∷ lines_from [] rest) (append_assoc p (c ∷ []) l))

pub lines_from-written_lines :
    (ls : List Text) → All IsLine ls → lines_from [] (written_lines ls) ≡ ls
unfolding lines_from
lines_from-written_lines [] h = refl
lines_from-written_lines (l ∷ ls) h =
    lines_from-line [] l (written_lines ls) h.0 ∙ ap (λ t. l ∷ t) (lines_from-written_lines ls h.1)

pub written_lines-append :
    (ls ms : List Text) → written_lines (ls ++ ms) ≡ written_lines ls ++ written_lines ms
written_lines-append [] ms = refl
written_lines-append (l ∷ ls) ms =
    ap (λ t. l ++ 10 ∷ t) (written_lines-append ls ms)
    ∙ sym (append_assoc l (10 ∷ written_lines ls) (written_lines ms))

-- `strings.Join` at newlines is the same text but for the last newline, and no line is one empty line.
abbrev pub or_empty_line : List Text → List Text
or_empty_line [] = [] ∷ []
or_empty_line (l ∷ ls) = l ∷ ls

pub join-written_lines : (ls : List Text) → join 10 ls ++ 10 ∷ [] ≡ written_lines (or_empty_line ls)
unfolding join
join-written_lines [] = refl
join-written_lines (l ∷ []) = refl
join-written_lines (l ∷ m ∷ ls) =
    append_assoc l (10 ∷ join 10 (m ∷ ls)) (10 ∷ [])
    ∙ ap (λ t. l ++ 10 ∷ t) (join-written_lines (m ∷ ls))

word-IsLine : (w : Text) → All NotSpace w → IsLine w
word-IsLine [] h = tt
word-IsLine (c ∷ w) h = (no_newline c h.0, word-IsLine w h.1)
  where
    no_newline : (c : ℕ) → is_space c ≡ false → (c == 10) ≡ false
    no_newline c h = ground arith

-- Words that are joined by spaces make one line.
pub join-IsLine : (ws : List Text) → All IsWord ws → IsLine (join 32 ws)
unfolding join
join-IsLine [] h = tt
join-IsLine (w ∷ []) h = word-IsLine w h.0.1
join-IsLine (w ∷ v ∷ ws) h =
    All-append (λ c. (c == 10) ≡ false) w (32 ∷ join 32 (v ∷ ws)) (word-IsLine w h.0.1)
      (refl, join-IsLine (v ∷ ws) h.1)

-- A trimmed line has no carriage return to drop.
pub drop_cr-trimmed : (s : Text) → ends_with_space s ≡ false → drop_cr s ≡ s
drop_cr-trimmed [] h = refl
drop_cr-trimmed (c ∷ []) h = ground arith
drop_cr-trimmed (c ∷ d ∷ s) h = ap (λ t. c ∷ t) (drop_cr-trimmed (d ∷ s) h)
