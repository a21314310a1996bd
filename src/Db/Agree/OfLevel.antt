-- ===== src/Db/Agree/OfLevel.antt =====
-- fluid/db/leveldb.go implements the dictionary, on a library that keeps its documented promises.
use fluidfs.Prelude.{
  ◌≡◌, refl, ap, ◌∙◌, sym, subst, Bool, true, false, ◌&&◌, List, [], ◌∷◌, map, Option, none, some,
  length, if◌then◌else◌, eqb_refl,
}
use fluidfs.Prelude.Slices.{Bytes}
use fluidfs.Prelude.Text.{text_eq}
use fluidfs.Db.{ok, Bucket, bucket_name}
use fluidfs.Db.Level.{
  LevelLibrary, create_bucket, changed, level_get, level_put, level_delete, batch_puts, level_batch,
  level_database,
}
use fluidfs.Db.Spec.{
  Store, empty_store, same_bucket, Operation, put, delete, batch, set_value, set_values, apply,
  seen, perform, same_lengths, Refines,
}
use fluidfs.Db.Agree.{same_create_bucket}

-- The value of a key after a batch of puts, a later put before an earlier one.
abbrev pub written : List (Bytes × Bytes) → Bytes → Option (Option Bytes) → Option (Option Bytes)
written [] k old = old
written ((k', v) ∷ puts) k old = written puts k (if text_eq k' k then some (some v) else old)

-- The batch that a bucket's keys and values make.
abbrev in_bucket : Bucket → List (Bytes × Bytes) → List (Bytes × Bytes)
in_bucket b [] = []
in_bucket b ((k, v) ∷ puts) = (create_bucket (bucket_name b) k, v) ∷ in_bucket b puts

module _ (lib : LevelLibrary) where
  open lib use {State, open_file, db_get, db_put, db_delete, write}

  -- What the library documents of a disk without faults.
  pub record LevelLaws : Type 0 where
    pub put_law :
        (k v : Bytes) (s : State)
        → (s' : State) × (db_put k v s ≡ some s')
          × ((k' : Bytes) → db_get k' s' ≡ (if text_eq k k' then some (some v) else db_get k' s))
    pub delete_law :
        (k : Bytes) (s : State)
        → (s' : State) × (db_delete k s ≡ some s')
          × ((k' : Bytes) → db_get k' s' ≡ (if text_eq k k' then some none else db_get k' s))
    pub write_law :
        (puts : List (Bytes × Bytes)) (s : State)
        → (s' : State) × (write puts s ≡ some s')
          × ((k : Bytes) → db_get k s' ≡ written puts k (db_get k s))

  -- A database that the library makes: it has no key.
  pub record IsNew (path : Bytes) (s : State) : Type 0 where
    pub opened : open_file path ≡ some s
    pub no_value : (k : Bytes) → db_get k s ≡ some none

  abbrev pub Represents : State → Store → Type 0
  Represents s st =
      (b : Bucket) (k : Bytes) → db_get (create_bucket (bucket_name b) k) s ≡ some (st b k)

  module _ (laws : LevelLaws) where
    some_if :
        (c : Bool) (x y : Option Bytes) → (if c then some x else some y) ≡ some (if c then x else y)
    some_if true x y = refl
    some_if false x y = refl

    replaced :
        (b : Bucket) (k : Bytes) (value : Option Bytes) (st : Store) (b' : Bucket) (k' : Bytes)
        → (if text_eq (create_bucket (bucket_name b) k) (create_bucket (bucket_name b') k')
            then some value
            else some (st b' k'))
          ≡ some (set_value b k value st b' k')
    replaced b k value st b' k' =
        rw (same_create_bucket b b' k k')
          (some_if (same_bucket b b' && text_eq k k') value (st b' k'))

    written-in_bucket :
        (b : Bucket) (puts : List (Bytes × Bytes)) (st : Store) (b' : Bucket) (k : Bytes)
        → written (in_bucket b puts) (create_bucket (bucket_name b') k) (some (st b' k))
          ≡ some (set_values b puts st b' k)
    written-in_bucket b [] st b' k = refl
    written-in_bucket b ((k, v) ∷ puts) st b' k' =
        ap (written (in_bucket b puts) (create_bucket (bucket_name b') k'))
          (replaced b k (some v) st b' k')
        ∙ written-in_bucket b puts (set_value b k (some v) st) b' k'

    batch_puts_lem :
        (b : Bucket) (puts : List (Bytes × Bytes))
        → batch_puts lib (bucket_name b) (map (λ e. e.0) puts) (map (λ e. e.1) puts)
          ≡ some (in_bucket b puts)
    unfolding batch_puts
    batch_puts_lem b [] = refl
    batch_puts_lem b ((k, v) ∷ puts) = rw (batch_puts, batch_puts_lem b puts) refl

    level_performs :
        (o : Operation) (s : State) (st : Store)
        → Represents s st
        → (s' : State) × (perform (level_database lib) o s ≡ (ok tt, s'))
          × Represents s' (apply o st)
    unfolding level_put level_delete level_batch
    level_performs (put b k v) s st rep =
        let (s', e, got) = laws.put_law (create_bucket (bucket_name b) k) v s in
        (
          s',
          ap (changed lib s) e,
          λ b' k'.
              got (create_bucket (bucket_name b') k')
              ∙ rw (rep b' k') (replaced b k (some v) st b' k'),
        )
    level_performs (delete b k) s st rep =
        let (s', e, got) = laws.delete_law (create_bucket (bucket_name b) k) s in
        (
          s',
          ap (changed lib s) e,
          λ b' k'.
              got (create_bucket (bucket_name b') k') ∙ rw (rep b' k') (replaced b k none st b' k'),
        )
    level_performs (batch b puts) s st rep =
        let (s', e, got) = laws.write_law (in_bucket b puts) s in
        (
          s',
          rw (same_lengths puts, eqb_refl (length (map (λ e. e.1) puts)), batch_puts_lem b puts, e)
              refl,
          λ b' k'.
              got (create_bucket (bucket_name b') k')
              ∙ rw (rep b' k') (written-in_bucket b puts st b' k'),
        )

    seen-level_get :
        (b : Bucket) (k : Bytes) (s : State) (value : Option Bytes)
        → db_get (create_bucket (bucket_name b) k) s ≡ some value
        → seen (level_database lib) s (level_get lib k (bucket_name b) s) ≡ ok value
    unfolding level_get
    seen-level_get b k s none e = rw (level_get, e) refl
    seen-level_get b k s (some value) e = rw (level_get, e) refl

    pub level-Refines : Refines (level_database lib) Represents
    level-Refines = record {
      get_refines = λ s st rep b k. seen-level_get b k s (st b k) (rep b k);
      perform_refines = λ o s st h rep.
          let (s', e, rep') = level_performs o s st rep in
          (ap (λ r. r.0) e, subst (λ r. Represents r.1 (apply o st)) (sym e) rep');
    }

  pub new-Represents : (path : Bytes) (s : State) → IsNew path s → Represents s empty_store
  new-Represents path s new b k = new.no_value (create_bucket (bucket_name b) k)
