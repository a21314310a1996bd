-- ===== src/Utils/Numeric.antt =====
-- What the helpers of fluid/utils.go on numbers and on lists of strings compute.
use mathlib.Core.List.{Mem, mem-cons_self, mem-cons_of_mem, eq-or-mem_of_mem-cons, not-mem-nil}
use mathlib.Core.Logic.Or
use mathlib.Core.Bool.{Bool-set, false≢true}
use fluidfs.Prelude.{
  ℕ, ◌+◌, ◌*◌, ◌≤◌, ◌<◌, ◌≡◌, refl, sym, ◌∙◌, ◌⊎◌, inl, inr, ◌↔◌, true, List, [], ◌∷◌, arith,
  String, str_eq, str_eq_iff, Bool-cases, ltb, if◌then◌else◌,
}
use fluidfs.Utils.{blocks, max_loop, max_uint64, list_contains}

-- The number of blocks is the least that holds the bytes: no fewer blocks do, and one more byte than
-- they hold is not needed.
pub blocks_least : (value : ℕ) → (value ≤ 512 * blocks value) × (512 * blocks value < value + 512)
unfolding blocks
blocks_least value = ground arith

-- The elements of a list are at most `m`.
abbrev pub AllAtMost : ℕ → List ℕ → Type 0
AllAtMost m [] = Unit
AllAtMost m (v ∷ vs) = (v ≤ m) × AllAtMost m vs

le-max_loop : (max : ℕ) (values : List ℕ) → max ≤ max_loop max values
unfolding max_loop
le-max_loop max [] = omega arith
le-max_loop max (v ∷ values) = ground (arith, le-max_loop (if ltb max v then v else max) values)

AllAtMost-max_loop : (max : ℕ) (values : List ℕ) → AllAtMost (max_loop max values) values
unfolding max_loop
AllAtMost-max_loop max [] = tt
AllAtMost-max_loop max (v ∷ values) =
    let next = if ltb max v then v else max in
    (ground (arith, le-max_loop next values), AllAtMost-max_loop next values)

-- Where a value stands in the list of the arguments, or is the initial 0.
abbrev pub Among : ℕ → List ℕ → Type 0
Among m [] = ⊥
Among m (v ∷ vs) = (m ≡ v) ⊎ Among m vs

attained_step :
    (max v m : ℕ) (values : List ℕ)
    → (m ≡ (if ltb max v then v else max)) ⊎ Among m values
    → (m ≡ max) ⊎ ((m ≡ v) ⊎ Among m values)
attained_step max v m values (inr a) = inr (inr a)
attained_step max v m values (inl e) = elim (Bool-cases (ltb max v)) [
  | inl up ↦ inr (inl (rw up at e))
  | inr down ↦ inl (rw down at e)
]

max_loop_attained :
    (max : ℕ) (values : List ℕ) → (max_loop max values ≡ max) ⊎ Among (max_loop max values) values
unfolding max_loop
max_loop_attained max [] = inl refl
max_loop_attained max (v ∷ values) =
    attained_step max v (max_loop max (v ∷ values)) values
      (max_loop_attained (if ltb max v then v else max) values)

-- The maximum is at least every argument, and is one of them, or 0.
pub max_uint64_lem :
    (values : List ℕ)
    → AllAtMost (max_uint64 values) values
      × ((max_uint64 values ≡ 0) ⊎ Among (max_uint64 values) values)
unfolding max_uint64
max_uint64_lem values = (AllAtMost-max_loop 0 values, max_loop_attained 0 values)

-- The search answers true exactly when the value is a member of the list.
pub list_contains_iff :
    (value : String) (list : List String) → (list_contains value list ≡ true) ↔ Mem value list
unfolding list_contains
list_contains_iff value [] = (λ h. cc, λ m. absurd (not-mem-nil m))
list_contains_iff value (elem ∷ list) = elim (Bool-cases (str_eq elem value)) [
  | inl same ↦ rw same ((λ _. rw ((str_eq_iff elem value).0 same) mem-cons_self, λ _. refl))
  | inr other ↦ rw other (
      (
        λ h. mem-cons_of_mem elem ((list_contains_iff value list).0 h),
        λ m.
            Or.elim (Bool-set _ _) (eq-or-mem_of_mem-cons m)
              (λ e. absurd (false≢true (sym other ∙ (str_eq_iff elem value).1 (sym e))))
              (list_contains_iff value list).1,
      ))
]
