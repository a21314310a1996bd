-- ===== src/Prelude/Maps.antt =====
-- Go's `map[string]V` as an association list. A key that is set anew keeps its place; Go leaves the
-- order of iteration open, so no statement of the development depends on it.
use Prim.Native.String.{String}
use mathlib.Core.Path.{◌≡◌, refl, subst}
use mathlib.Core.List.{List, [], ◌∷◌, map, Mem, mem-cons_self, mem-cons_of_mem}
use mathlib.Core.Option.{Option, none, some}
use native.Mathlib.Omega.{arith}
use text.Mathlib.Text.{◌==◌ as str_eq}
use text.Mathlib.TextEquality.{eq_iff as str_eq_iff}
use text.Mathlib.TextPositions.{eq_refl as str_eq_refl}
use mathlib.Core.Logic.{inl, inr}
use fluidfs.Prelude.Lists.{All, All-mono}
use fluidfs.Prelude.Tests.{Bool-cases, if◌then◌else◌}

abbrev pub Map {ℓ} : Type ℓ → Type ℓ
Map V = List (String × V)

module _ {ℓ} {V : Type ℓ} where
  -- `delete(m, key)`
  unfoldable pub delete : String → Map V → Map V
  delete key [] = []
  delete key ((name, old) ∷ rest) =
      let rest' = delete key rest in if str_eq name key then rest' else (name, old) ∷ rest'

  -- `m[key] = value`
  unfoldable pub insert : String → V → Map V → Map V
  insert key value [] = (key, value) ∷ []
  insert key value ((name, old) ∷ rest) =
      let rest' = insert key value rest in
      if str_eq name key then (name, value) ∷ rest else (name, old) ∷ rest'

  -- `value, ok := m[key]`
  unfoldable pub lookup : String → Map V → Option V
  lookup key [] = none
  lookup key ((name, value) ∷ rest) =
      let found = lookup key rest in if str_eq name key then some value else found

  pub lookup-delete :
      (key other : String) (entries : Map V)
      → lookup other (delete key entries)
        ≡ (if str_eq key other then none else lookup other entries)
  unfolding delete lookup
  lookup-delete key other [] = ground arith
  lookup-delete key other ((name, old) ∷ rest) = ground (
    arith,
    lookup-delete key other rest,
    str_eq_iff name key,
    str_eq_iff name other,
    str_eq_iff key other,
  )

  pub lookup-insert :
      (key other : String) (value : V) (entries : Map V)
      → lookup other (insert key value entries)
        ≡ (if str_eq key other then some value else lookup other entries)
  unfolding insert lookup
  lookup-insert key other value [] = ground arith
  lookup-insert key other value ((name, old) ∷ rest) = ground (
    arith,
    lookup-insert key other value rest,
    str_eq_iff name key,
    str_eq_iff name other,
    str_eq_iff key other,
  )

  pub lookup-delete_self : (key : String) (entries : Map V) → lookup key (delete key entries) ≡ none
  lookup-delete_self key entries = simp (lookup-delete, str_eq_refl)

  pub lookup-insert_self :
      (key : String) (value : V) (entries : Map V)
      → lookup key (insert key value entries) ≡ some value
  lookup-insert_self key value entries = simp (lookup-insert, str_eq_refl)

  -- Every key of the map stands in it once.
  abbrev pub Distinct : Map V → Type ℓ
  Distinct [] = Unit
  Distinct ((name, value) ∷ rest) = (lookup name rest ≡ none) × Distinct rest

  pub insert-Distinct :
      (key : String) (value : V) (entries : Map V)
      → Distinct entries
      → Distinct (insert key value entries)
  unfolding lookup insert
  insert-Distinct key value [] d = (refl, tt)
  insert-Distinct key value ((name, old) ∷ rest) d = ground (
    arith,
    insert-Distinct key value rest d.1,
    lookup-insert key name value rest,
    str_eq_iff name key,
    str_eq_iff key name,
  )

  pub delete-Distinct :
      (key : String) (entries : Map V) → Distinct entries → Distinct (delete key entries)
  unfolding lookup delete
  delete-Distinct key [] d = tt
  delete-Distinct key ((name, old) ∷ rest) d = ground (
    arith,
    delete-Distinct key rest d.1,
    lookup-delete key name rest,
    str_eq_iff name key,
    str_eq_iff key name,
  )

  -- What stands under a key is a value of the map.
  pub Mem-lookup :
      (value : V) (entries : Map V) (key : String)
      → lookup key entries ≡ some value
      → Mem value (map (λ entry. entry.1) entries)
  unfolding lookup
  Mem-lookup value [] key e = absurd (ground (arith, e))
  Mem-lookup value ((name, other) ∷ rest) key e = elim (Bool-cases (str_eq name key)) [
    | inl same ↦
        let is : other ≡ value = ground (arith, e, same) in
        subst (λ v. Mem v (other ∷ map (λ entry. entry.1) rest)) is mem-cons_self
    | inr differs ↦ mem-cons_of_mem other (Mem-lookup value rest key (ground (arith, e, differs)))
  ]

  -- Every value of a map without double keys stands under a key.
  pub values-Keyed :
      (entries : Map V)
      → Distinct entries
      → All
          (λ value. (key : String) × (lookup key entries ≡ some value))
          (map (λ entry. entry.1) entries)
  unfolding lookup
  values-Keyed [] d = tt
  values-Keyed ((name, value) ∷ rest) d = (
    (name, rw (lookup, str_eq_refl name) refl),
    All-mono (λ v. (key : String) × (lookup key rest ≡ some v))
        (λ v. (key : String) × (lookup key ((name, value) ∷ rest) ≡ some v))
        (λ v (key, found). (key, ground (arith, found, d.0, str_eq_iff name key)))
        (map (λ entry. entry.1) rest) (values-Keyed rest d.1),
  )

pub ruleset map_laws = (lookup-delete, lookup-insert, lookup-delete_self, lookup-insert_self)
