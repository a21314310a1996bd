-- ===== src/Prelude/Text/Words.antt =====
-- Texts that are joined from words are taken apart into the same words.
use Prim.Native.Nat.{ℕ}
use mathlib.Core.Path.{◌≡◌, refl, sym, ap, ◌∙◌}
use mathlib.Core.Logic.{◌⊎◌, inl, inr}
use mathlib.Core.List.{List, [], ◌∷◌, ◌++◌, append-nil, append_assoc}
use mathlib.Core.Bool.{Bool, true, false, ◌&&◌}
use native.Mathlib.Omega.{arith}
use fluidfs.Prelude.Tests.{◌==◌, Bool-cases, if◌then◌else◌}
use fluidfs.Prelude.Lists.{All}
use fluidfs.Prelude.Text.{
  Text, is_empty, is_space, put_back, trim_left, trim_right, trim_space, fields_from, fields,
  split_from, split, join,
}

abbrev pub NotSpace : ℕ → Type 0
NotSpace c = is_space c ≡ false

-- A word: it has runes, and none is a space.
abbrev pub IsWord : Text → Type 0
IsWord w = (is_empty w ≡ false) × All NotSpace w

is_empty-append : (f : Text) (c : ℕ) → is_empty (f ++ c ∷ []) ≡ false
is_empty-append [] c = refl
is_empty-append (d ∷ f) c = refl

fields_from-word :
    (f w rest : Text) → All NotSpace w → fields_from f (w ++ rest) ≡ fields_from (f ++ w) rest
unfolding fields_from
fields_from-word f [] rest h = ap (λ t. fields_from t rest) (sym (append-nil f))
fields_from-word f (c ∷ w) rest h =
    rw (fields_from, h.0)
      (fields_from-word (f ++ c ∷ []) w rest h.1
        ∙ ap (λ t. fields_from t rest) (append_assoc f (c ∷ []) w))

-- Words that are joined by spaces.
pub fields-join : (ws : List Text) → All IsWord ws → fields (join 32 ws) ≡ ws
unfolding fields fields_from join
fields-join [] h = refl
fields-join (w ∷ []) h =
    ap (fields_from []) (sym (append-nil w))
    ∙ fields_from-word [] w [] h.0.1
    ∙ rw (fields_from, h.0.0) refl
fields-join (w ∷ v ∷ ws) h =
    fields_from-word [] w (32 ∷ join 32 (v ∷ ws)) h.0.1
    ∙ rw (fields_from, h.0.0) (ap (λ t. w ∷ t) (fields-join (v ∷ ws) h.1))

module _ (sep : ℕ) where
  abbrev pub IsPart : Text → Type 0
  IsPart = All (λ c. (c == sep) ≡ false)

  split_from-part :
      (p w rest : Text) → IsPart w → split_from p sep (w ++ rest) ≡ split_from (p ++ w) sep rest
  unfolding split_from
  split_from-part p [] rest h = ap (λ t. split_from t sep rest) (sym (append-nil p))
  split_from-part p (c ∷ w) rest h =
      rw (split_from, h.0)
        (split_from-part (p ++ c ∷ []) w rest h.1
          ∙ ap (λ t. split_from t sep rest) (append_assoc p (c ∷ []) w))

  sep_eq : (sep == sep) ≡ true
  sep_eq = ground arith

  -- Parts that are joined by a separator that they do not have; there is one at least.
  pub split-join :
      (w : Text) (ws : List Text) → All IsPart (w ∷ ws) → split sep (join sep (w ∷ ws)) ≡ w ∷ ws
  unfolding split split_from join
  split-join w [] h = ap (split_from [] sep) (sym (append-nil w)) ∙ split_from-part [] w [] h.0
  split-join w (v ∷ ws) h =
      split_from-part [] w (sep ∷ join sep (v ∷ ws)) h.0
      ∙ rw (split_from, sep_eq) (ap (λ t. w ∷ t) (split-join v ws h.1))

-- A text that neither begins nor ends with a space is not changed by trimming.
abbrev pub ends_with_space : Text → Bool
ends_with_space [] = false
ends_with_space (c ∷ []) = is_space c
ends_with_space (c ∷ d ∷ s) = ends_with_space (d ∷ s)

abbrev pub begins_with_space : Text → Bool
begins_with_space [] = false
begins_with_space (c ∷ s) = is_space c

abbrev pub IsTrimmed : Text → Type 0
IsTrimmed s = (begins_with_space s ≡ false) × (ends_with_space s ≡ false)

put_back-cons :
    (c d : ℕ) (s : Text)
    → (is_space c ≡ true) ⊎ (is_space c ≡ false)
    → put_back c (d ∷ s) ≡ c ∷ d ∷ s
put_back-cons c d s (inl e) = ap (λ b. if b && false then [] else c ∷ d ∷ s) e
put_back-cons c d s (inr e) = ap (λ b. if b && false then [] else c ∷ d ∷ s) e

trim_right-trimmed : (s : Text) → ends_with_space s ≡ false → trim_right s ≡ s
unfolding trim_right
trim_right-trimmed [] h = refl
trim_right-trimmed (c ∷ []) h = ap (λ b. if b && true then [] else c ∷ []) h
trim_right-trimmed (c ∷ d ∷ s) h =
    ap (put_back c) (trim_right-trimmed (d ∷ s) h) ∙ put_back-cons c d s (Bool-cases (is_space c))

trim_left-trimmed : (s : Text) → begins_with_space s ≡ false → trim_left s ≡ s
unfolding trim_left
trim_left-trimmed [] h = refl
trim_left-trimmed (c ∷ s) h = rw (trim_left, h) refl

pub trim_space-trimmed : (s : Text) → IsTrimmed s → trim_space s ≡ s
unfolding trim_space
trim_space-trimmed s h = ap trim_right (trim_left-trimmed s h.0) ∙ trim_right-trimmed s h.1

pub All-append {ℓ} :
    {A : Type ℓ} (P : A → Type 0) (xs ys : List A) → All P xs → All P ys → All P (xs ++ ys)
All-append P [] ys h k = k
All-append P (x ∷ xs) ys h k = (h.0, All-append P xs ys h.1 k)

ends_with_space-cons :
    (c : ℕ) (s : Text) → is_empty s ≡ false → ends_with_space (c ∷ s) ≡ ends_with_space s
ends_with_space-cons c [] h = absurd (ground arith)
ends_with_space-cons c (d ∷ s) h = refl

is_empty-append_right : (s t : Text) → is_empty t ≡ false → is_empty (s ++ t) ≡ false
is_empty-append_right [] t h = h
is_empty-append_right (c ∷ s) t h = refl

pub ends_with_space-append :
    (s t : Text) → is_empty t ≡ false → ends_with_space (s ++ t) ≡ ends_with_space t
ends_with_space-append [] t h = refl
ends_with_space-append (c ∷ s) t h =
    ends_with_space-cons c (s ++ t) (is_empty-append_right s t h) ∙ ends_with_space-append s t h

ends_with_space-word : (w : Text) → All NotSpace w → ends_with_space w ≡ false
ends_with_space-word [] h = refl
ends_with_space-word (c ∷ []) h = h.0
ends_with_space-word (c ∷ d ∷ w) h = ends_with_space-word (d ∷ w) h.1

begins_with_space-append :
    (s t : Text) → is_empty s ≡ false → begins_with_space (s ++ t) ≡ begins_with_space s
begins_with_space-append [] t h = absurd (ground arith)
begins_with_space-append (c ∷ s) t h = refl

begins_with_space-word : (w : Text) → All NotSpace w → begins_with_space w ≡ false
begins_with_space-word [] h = refl
begins_with_space-word (c ∷ w) h = h.0

ends_with_space-join : (ws : List Text) → All IsWord ws → ends_with_space (join 32 ws) ≡ false
unfolding join
ends_with_space-join [] h = refl
ends_with_space-join (w ∷ []) h = ends_with_space-word w h.0.1
ends_with_space-join (w ∷ v ∷ ws) h =
    ends_with_space-append w (32 ∷ join 32 (v ∷ ws)) refl
    ∙ ends_with_space-cons 32 (join 32 (v ∷ ws)) (is_empty-join v ws h.1.0.0)
    ∙ ends_with_space-join (v ∷ ws) h.1
  where
    is_empty-join :
        (v : Text) (ws : List Text) → is_empty v ≡ false → is_empty (join 32 (v ∷ ws)) ≡ false
    is_empty-join v [] e = e
    is_empty-join [] (u ∷ us) e = absurd (ground arith)
    is_empty-join (c ∷ v) (u ∷ us) e = refl

begins_with_space-join : (ws : List Text) → All IsWord ws → begins_with_space (join 32 ws) ≡ false
unfolding join
begins_with_space-join [] h = refl
begins_with_space-join (w ∷ []) h = begins_with_space-word w h.0.1
begins_with_space-join (w ∷ v ∷ ws) h =
    begins_with_space-append w (32 ∷ join 32 (v ∷ ws)) h.0.0 ∙ begins_with_space-word w h.0.1

pub join-IsTrimmed : (ws : List Text) → All IsWord ws → IsTrimmed (join 32 ws)
join-IsTrimmed ws h = (begins_with_space-join ws h, ends_with_space-join ws h)
