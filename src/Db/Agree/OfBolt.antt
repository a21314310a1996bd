-- ===== src/Db/Agree/OfBolt.antt =====
-- fluid/db/boltdb.go implements the dictionary, on a library that keeps its documented promises.
use fluidfs.Prelude.{
  Option-cases, inl, inr, arith, ◌<◌, ◌≤◌, ◌≡◌, refl, ap, ◌∙◌, sym, Bool, true, ◌&&◌, ◌||◌, List,
  [], ◌∷◌, map, Option, none, some, length, All, if◌then◌else◌, subst, eqb_refl,
}
use fluidfs.Prelude.Slices.{Bytes}
use fluidfs.Prelude.Text.{text_eq}
use fluidfs.Db.{Reply, ok, Bucket, names, versions, prefixes, bucket_name}
use fluidfs.Db.Bolt.{
  BoltLibrary, transaction, in_bucket, create_buckets, bolt_init, bolt_get, bolt_put, bolt_delete,
  put_all, bolt_batch, bolt_database,
}
use fluidfs.Db.Spec.{
  Store, empty_store, Operation, put, delete, batch, set_value, set_values, apply, IsEntry,
  IsProper, seen, perform, same_lengths, Refines,
}
use fluidfs.Db.Agree.{same_bucket_name}

module _ (lib : BoltLibrary) where
  open lib use {
    State, Slice, read_slice, open_file, create_bucket_if_not_exists, has_bucket, bucket_get,
    bucket_put, bucket_delete, commit,
  }

  -- The value of a key, as the slice that `Bucket.Get` answers holds it in that state.
  abbrev pub stored : Bytes → Bytes → State → Option Bytes
  stored b k s = elim (bucket_get b k s) [ none ↦ none | some slice ↦ some (read_slice slice s) ]

  -- What the library documents of a disk without faults: a bucket is made if its name is neither blank
  -- nor too long.
  pub record BoltLaws : Type 0 where
    pub create_law :
        (name : Bytes) (s : State)
        → 0 < length name
        → length name ≤ 32768
        → (s' : State) × (create_bucket_if_not_exists name s ≡ some s')
          × ((b : Bytes) → has_bucket b s' ≡ text_eq name b || has_bucket b s)
          × ((b k : Bytes) → stored b k s' ≡ stored b k s)
    pub put_law :
        (b k v : Bytes) (s : State)
        → has_bucket b s ≡ true
        → IsEntry (k, v)
        → (s' : State) × (bucket_put b k v s ≡ some s')
          × ((b' : Bytes) → has_bucket b' s' ≡ has_bucket b' s)
          × ((b' k' : Bytes)
              → stored b' k' s' ≡ (if text_eq b b' && text_eq k k' then some v else stored b' k' s))
    pub delete_law :
        (b k : Bytes) (s : State)
        → has_bucket b s ≡ true
        → (s' : State) × (bucket_delete b k s ≡ some s')
          × ((b' : Bytes) → has_bucket b' s' ≡ has_bucket b' s)
          × ((b' k' : Bytes)
              → stored b' k' s' ≡ (if text_eq b b' && text_eq k k' then none else stored b' k' s))
    pub commit_law : (s : State) → commit s ≡ some s

  -- A file that the library makes: it has no bucket.
  pub record IsNew (path : Bytes) (s : State) : Type 0 where
    pub opened : open_file path ≡ some s
    pub no_value : (b k : Bytes) → stored b k s ≡ none

  pub record Represents (s : State) (st : Store) : Type 0 where
    pub present : (b : Bucket) → has_bucket (bucket_name b) s ≡ true
    pub same : (b : Bucket) (k : Bytes) → stored (bucket_name b) k s ≡ st b k

  module _ (laws : BoltLaws) where
    committed :
        (change : State → Reply State) (s s' : State)
        → change s ≡ ok s'
        → transaction lib change s ≡ (ok tt, s')
    unfolding transaction
    committed change s s' e = rw (transaction, e, laws.commit_law s') refl

    in_present :
        (b : Bytes) (change : State → Option State) (s s' : State)
        → has_bucket b s ≡ true
        → change s ≡ some s'
        → in_bucket lib b change s ≡ ok s'
    unfolding in_bucket
    in_present b change s s' h e = rw (h, e) refl

    -- The state after a change of one key represents the changed store.
    changed :
        (b : Bucket) (k : Bytes) (value : Option Bytes) (s s' : State) (st : Store)
        → Represents s st
        → ((b' : Bytes) → has_bucket b' s' ≡ has_bucket b' s)
        → ((b' k' : Bytes)
            → stored b' k' s'
              ≡ (if text_eq (bucket_name b) b' && text_eq k k' then value else stored b' k' s))
        → Represents s' (set_value b k value st)
    changed b k value s s' st rep has got = record {
      present = λ b'. has (bucket_name b') ∙ rep.present b';
      same = λ b' k'. got (bucket_name b') k' ∙ rw (same_bucket_name b b', rep.same b' k') refl;
    }

    put_changes :
        (b : Bucket) (k v : Bytes) (s : State) (st : Store)
        → IsEntry (k, v)
        → Represents s st
        → (s' : State) × (in_bucket lib (bucket_name b) (bucket_put (bucket_name b) k v) s ≡ ok s')
          × Represents s' (set_value b k (some v) st)
    put_changes b k v s st h rep =
        let (s', e, has, got) = laws.put_law (bucket_name b) k v s (rep.present b) h in
        (
          s',
          in_present (bucket_name b) (bucket_put (bucket_name b) k v) s s' (rep.present b) e,
          changed b k (some v) s s' st rep has got,
        )

    put_all-changes :
        (b : Bucket) (puts : List (Bytes × Bytes)) (s : State) (st : Store)
        → All IsEntry puts
        → Represents s st
        → (s' : State) × (put_all lib (bucket_name b) (map (λ e. e.0) puts) (map (λ e. e.1) puts) s
            ≡ ok s')
          × Represents s' (set_values b puts st)
    unfolding put_all
    put_all-changes b [] s st h rep = (s, refl, rep)
    put_all-changes b ((k, v) ∷ puts) s st h rep =
        let (s1, e1, rep1) = put_changes b k v s st h.0 rep in
        let (s2, e2, rep2) = put_all-changes b puts s1 (set_value b k (some v) st) h.1 rep1 in
        (s2, rw (put_all, e1) e2, rep2)

    bolt_performs :
        (o : Operation) (s : State) (st : Store)
        → IsProper o
        → Represents s st
        → (s' : State) × (perform (bolt_database lib) o s ≡ (ok tt, s'))
          × Represents s' (apply o st)
    unfolding bolt_put bolt_delete bolt_batch
    bolt_performs (put b k v) s st h rep =
        let (s', e, rep') = put_changes b k v s st h rep in
        (
          s',
          committed (in_bucket lib (bucket_name b) (bucket_put (bucket_name b) k v)) s s' e,
          rep',
        )
    bolt_performs (delete b k) s st h rep =
        let name = bucket_name b in
        let (s', e, has, got) = laws.delete_law name k s (rep.present b) in
        (
          s',
          committed (in_bucket lib name (bucket_delete name k)) s s'
              (in_present name (bucket_delete name k) s s' (rep.present b) e),
          changed b k none s s' st rep has got,
        )
    bolt_performs (batch b puts) s st h rep =
        let (s', e, rep') = put_all-changes b puts s st h rep in
        (
          s',
          rw (same_lengths puts, eqb_refl (length (map (λ e. e.1) puts)))
              (committed (put_all lib (bucket_name b) (map (λ e. e.0) puts) (map (λ e. e.1) puts)) s
                s' e),
          rep',
        )

    seen-bolt_get :
        (k b : Bytes) (s : State)
        → has_bucket b s ≡ true
        → seen (bolt_database lib) s (bolt_get lib k b s) ≡ ok (stored b k s)
    unfolding bolt_get
    seen-bolt_get k b s there = elim (Option-cases (bucket_get b k s)) [
      | inl nil ↦ rw (bolt_get, stored, there, nil) refl
      | inr (slice, got) ↦ rw (bolt_get, stored, there, got) refl
    ]

    pub bolt-Refines : Refines (bolt_database lib) Represents
    bolt-Refines = record {
      get_refines =
          λ s st rep b k. seen-bolt_get k (bucket_name b) s (rep.present b) ∙ ap ok (rep.same b k);
      perform_refines = λ o s st h rep.
          let (s', e, rep') = bolt_performs o s st h rep in
          (ap (λ r. r.0) e, subst (λ r. Represents r.1 (apply o st)) (sym e) rep');
    }

    -- The three buckets are there when each is made after the ones before.
    has_all :
        (f0 f1 f2 f3 : Bytes → Bool)
        → ((b : Bytes) → f1 b ≡ text_eq (bucket_name names) b || f0 b)
        → ((b : Bytes) → f2 b ≡ text_eq (bucket_name versions) b || f1 b)
        → ((b : Bytes) → f3 b ≡ text_eq (bucket_name prefixes) b || f2 b)
        → (b : Bucket) → f3 (bucket_name b) ≡ true
    has_all f0 f1 f2 f3 h1 h2 h3 names =
        h3 (bucket_name names) ∙ h2 (bucket_name names) ∙ h1 (bucket_name names)
    has_all f0 f1 f2 f3 h1 h2 h3 versions = h3 (bucket_name versions) ∙ h2 (bucket_name versions)
    has_all f0 f1 f2 f3 h1 h2 h3 prefixes = h3 (bucket_name prefixes)

    create_all :
        (path : Bytes) (s : State)
        → IsNew path s
        → (s' : State) × (create_buckets lib
              (bucket_name names ∷ bucket_name versions ∷ bucket_name prefixes ∷ [])
              s
            ≡ ok s')
          × Represents s' empty_store
    unfolding create_buckets
    create_all path s new =
        let (s1, e1, has1, got1) =
          laws.create_law (bucket_name names) s (omega arith) (omega arith) in
        let (s2, e2, has2, got2) =
          laws.create_law (bucket_name versions) s1 (omega arith) (omega arith) in
        let (s3, e3, has3, got3) =
          laws.create_law (bucket_name prefixes) s2 (omega arith) (omega arith) in
        (
          s3,
          rw (create_buckets, e1, create_buckets, e2, create_buckets, e3) refl,
          record {
            present =
                has_all (λ b. has_bucket b s) (λ b. has_bucket b s1) (λ b. has_bucket b s2)
                  (λ b. has_bucket b s3) has1 has2 has3;
            same = λ b k.
                got3 (bucket_name b) k
                ∙ got2 (bucket_name b) k
                ∙ got1 (bucket_name b) k
                ∙ new.no_value (bucket_name b) k;
          },
        )

    pub bolt_init-Represents :
        (path : Bytes) (s : State)
        → IsNew path s
        → (s' : State) × (bolt_init lib path ≡ some s') × Represents s' empty_store
    unfolding bolt_init
    bolt_init-Represents path s new =
        let (s', e, rep) = create_all path s new in
        let buckets = bucket_name names ∷ bucket_name versions ∷ bucket_name prefixes ∷ [] in
        let done = committed (create_buckets lib buckets) s s' e in
        (s', rw (bolt_init, new.opened, done) (ap (λ r. some r.1) done), rep)
