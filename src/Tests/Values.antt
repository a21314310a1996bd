-- ===== src/Tests/Values.antt =====
-- Concrete versions, strings and numbers for fluid/version.go and fluid/utils.go.
use fluidfs.Prelude.{
  ℕ, map, ◌+◌, ◌*◌, ◌≤◌, ◌<◌, ◌≡◌, ◌≢◌, ◌↔◌, refl, true, false, ◌&&◌, ◌||◌, [], ◌∷◌, ◌++◌, List,
  some, arith, concat, length, All, ◌==◌, if◌then◌else◌,
}
use fluidfs.Utils.{Runes, blocks, stride_fixed}
use fluidfs.Utils.Numeric.{blocks_least}
use fluidfs.Utils.Stride.{Size, stride_fixed_lem}
use fluidfs.Version.{
  Version, update, next, less, less_equal, equal, not_equal, greater, greater_equal,
}
use fluidfs.Version.Order.{compare_total}
use fluidfs.Version.Lamport.{
  less-next-update, Cluster, set_at, Reach, here, then_step, draw, reconcile, AllDistinct,
  drawn-AllDistinct,
}

abbrev first : Version
first = record { scalar = 3; pid = 1; latest = 3 }

abbrev second : Version
second = record { scalar = 3; pid = 2; latest = 7 }

abbrev third : Version
third = record { scalar = 5; pid = 1; latest = 5 }

compare_total_example :
    ((less first second || equal first second || greater first second) ≡ true)
    × (((less first second && greater first second)
          || (equal first second && (less first second || greater first second)))
        ≡ false)
    × (less_equal first second ≡ (less first second || equal first second))
    × (greater_equal first second ≡ (greater first second || equal first second))
    × (not_equal first second ≡ (less first second || greater first second))
    × (greater first second ≡ less second first)
    × ((equal first second ≡ true) ↔ ((first.scalar ≡ second.scalar) × (first.pid ≡ second.pid)))
compare_total_example = compare_total first second

first-less : less first second ≡ true
unfolding less
first-less = refl

second-less : less second third ≡ true
unfolding less
second-less = refl

less-next-update_example :
    (less first (next (update first second).0 0).1 ≡ true)
    × (less second (next (update first second).0 0).1 ≡ true)
    × ((next (update first second).0 0).0.latest ≡ (next (update first second).0 0).1.scalar)
    × ((next (update first second).0 0).1.pid ≡ (if 0 == 0 then first.pid else 0))
less-next-update_example =
    less-next-update first second 0 (omega arith) (omega arith) (omega arith) (omega arith)

abbrev begun : Cluster
begun = record { current = λ p. record { scalar = 0; pid = p; latest = 0 }; drawn = [] }

abbrev after_draw : ℕ → Cluster → Cluster
after_draw p c = record {
  current = set_at p (next (c.current p) p).1 c.current;
  drawn = (next (c.current p) p).1 ∷ c.drawn;
}

abbrev after_reconcile : ℕ → ℕ → Cluster → Cluster
after_reconcile p q c = record c {
  current =
      set_at q (update (c.current p) (c.current q)).1
        (set_at p (update (c.current p) (c.current q)).0 c.current);
}

-- Replicas 1 and 2 draw their first versions, with the same scalar.
abbrev both_drew : Cluster
both_drew = after_draw 2 (after_draw 1 begun)

-- They reconcile, and both draw again.
abbrev both_drew_again : Cluster
both_drew_again = after_draw 1 (after_draw 2 (after_reconcile 1 2 both_drew))

both_draw_again : Reach begun both_drew_again
unfolding next update
both_draw_again =
    then_step
      (then_step
        (then_step (then_step (then_step here (draw 1 (omega arith))) (draw 2 (omega arith)))
          (reconcile 1 2))
        (draw 2 (omega arith)))
      (draw 1 (omega arith))

drawn-AllDistinct_example : AllDistinct both_drew_again.drawn
drawn-AllDistinct_example = drawn-AllDistinct begun both_drew_again both_draw_again (λ p. refl) refl

drawn_scalars : map (λ v. v.scalar) both_drew_again.drawn ≡ 2 ∷ 2 ∷ 1 ∷ 1 ∷ []
unfolding next update
drawn_scalars = refl

abbrev five_runes : Runes
five_runes = 97 ∷ 98 ∷ 99 ∷ 100 ∷ 101 ∷ []

five_runes-ne-nil : five_runes ≢ []
five_runes-ne-nil e = cc

stride_fixed_lem_example :
    (o : List Runes) × (rest : Runes) × (stride_fixed five_runes 2 ≡ some o)
    × (concat o ++ rest ≡ five_runes)
    × (length rest < 2)
    × All (Size 2) o
stride_fixed_lem_example =
    stride_fixed_lem five_runes 2 (omega arith) five_runes-ne-nil
      (omega arith, (omega arith, (omega arith, (omega arith, (omega arith, tt)))))

blocks_least_example : (1025 ≤ 512 * blocks 1025) × (512 * blocks 1025 < 1025 + 512)
blocks_least_example = blocks_least 1025
