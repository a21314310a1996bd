-- ===== src/Db/Spec.antt =====
-- What fluid/db/ promises of a database: it is a dictionary for each bucket.
use fluidfs.Prelude.{
  ◌≤◌, ◌<◌, ◌≡◌, refl, ◌∙◌, sym, length-map, Bool, true, false, ◌&&◌, List, [], ◌∷◌, map, Option,
  none, some, length, All, if◌then◌else◌,
}
use fluidfs.Prelude.Slices.{Bytes}
use fluidfs.Prelude.Text.{text_eq}
use fluidfs.Db.{
  Reply, ok, failed, panicked, Bucket, names, versions, prefixes, bucket_name, Database,
}

abbrev pub Store : Type 0
Store = Bucket → Bytes → Option Bytes

abbrev pub empty_store : Store
empty_store b k = none

abbrev pub same_bucket : Bucket → Bucket → Bool
same_bucket names names = true
same_bucket versions versions = true
same_bucket prefixes prefixes = true
same_bucket _ _ = false

-- A call that changes the database.
pub data Operation : Type 0 where
  put : Bucket → Bytes → Bytes → Operation
  delete : Bucket → Bytes → Operation
  batch : Bucket → List (Bytes × Bytes) → Operation

abbrev pub set_value : Bucket → Bytes → Option Bytes → Store → Store
set_value b k value st b' k' = if same_bucket b b' && text_eq k k' then value else st b' k'

abbrev pub set_values : Bucket → List (Bytes × Bytes) → Store → Store
set_values b [] st = st
set_values b ((k, v) ∷ puts) st = set_values b puts (set_value b k (some v) st)

abbrev pub apply : Operation → Store → Store
apply (put b k v) st = set_value b k (some v) st
apply (delete b k) st = set_value b k none st
apply (batch b puts) st = set_values b puts st

abbrev pub apply_all : List Operation → Store → Store
apply_all [] st = st
apply_all (o ∷ os) st = apply_all os (apply o st)

-- A key and a value that both drivers take: boltdb wants a key of 1 to 32768 bytes and a value of at
-- most 2 ^ 31 - 2.
abbrev pub IsEntry : Bytes × Bytes → Type 0
IsEntry (k, v) = (0 < length k) × (length k ≤ 32768) × (length v ≤ 2147483646)

abbrev pub IsProper : Operation → Type 0
IsProper (put b k v) = IsEntry (k, v)
IsProper (delete b k) = Unit
IsProper (batch b puts) = All IsEntry puts

-- The keys and the values of a batch are as many.
pub same_lengths :
    (puts : List (Bytes × Bytes)) → length (map (λ e. e.0) puts) ≡ length (map (λ e. e.1) puts)
same_lengths puts = length-map puts (λ e. e.0) ∙ sym (length-map puts (λ e. e.1))

module _ (db : Database) where
  -- What a reply of `Get` holds in the state that it was made in.
  abbrev pub seen : db.State → Reply (Option db.Value) → Reply (Option Bytes)
  seen s (ok none) = ok none
  seen s (ok (some value)) = ok (some (db.read value s))
  seen s failed = failed
  seen s panicked = panicked

  abbrev pub perform : Operation → db.State → Reply (Unit {0}) × db.State
  perform (put b k v) s = db.put k v (bucket_name b) s
  perform (delete b k) s = db.delete k (bucket_name b) s
  perform (batch b puts) s = db.batch (map (λ e. e.0) puts) (map (λ e. e.1) puts) (bucket_name b) s

  -- The operations in order, up to the first that does not succeed.
  abbrev pub perform_all : List Operation → db.State → Reply (Unit {0}) × db.State
  perform_all [] s = (ok tt, s)
  perform_all (o ∷ os) s = elim (perform o s).0 [
    | ok done ↦ perform_all os (perform o s).1
    | failed ↦ (failed, (perform o s).1)
    | panicked ↦ (panicked, (perform o s).1)
  ]

  -- That a database implements the dictionary, by a relation between its states and stores.
  pub record Refines (Represents : db.State → Store → Type 0) : Type 0 where
    pub get_refines :
        (s : db.State) (st : Store)
        → Represents s st
        → (b : Bucket) (k : Bytes) → seen s (db.get k (bucket_name b) s) ≡ ok (st b k)
    pub perform_refines :
        (o : Operation) (s : db.State) (st : Store)
        → IsProper o
        → Represents s st
        → ((perform o s).0 ≡ ok tt) × Represents (perform o s).1 (apply o st)

  module _ (Represents : db.State → Store → Type 0) (r : Refines Represents) where
    pub perform_all-refines :
        (os : List Operation) (s : db.State) (st : Store)
        → All IsProper os
        → Represents s st
        → ((perform_all os s).0 ≡ ok tt) × Represents (perform_all os s).1 (apply_all os st)
    perform_all-refines [] s st h rep = (refl, rep)
    perform_all-refines (o ∷ os) s st h rep =
        let (done, rep') = r.perform_refines o s st h.0 rep in
        rw (perform_all, done) (perform_all-refines os (perform o s).1 (apply o st) h.1 rep')

    pub run-refines :
        (os : List Operation) (s : db.State)
        → All IsProper os
        → Represents s empty_store
        → (b : Bucket) (k : Bytes)
        → ((perform_all os s).0 ≡ ok tt)
          × (seen (perform_all os s).1 (db.get k (bucket_name b) (perform_all os s).1)
              ≡ ok (apply_all os empty_store b k))
    run-refines os s h rep b k =
        let (done, rep') = perform_all-refines os s empty_store h rep in
        (done, r.get_refines (perform_all os s).1 (apply_all os empty_store) rep' b k)
