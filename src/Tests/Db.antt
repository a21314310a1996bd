-- ===== src/Tests/Db.antt =====
-- Concrete libraries for fluid/db/: a state is a function.
use fluidfs.Prelude.{
  ◌<◌, ◌≤◌, All, ◌≡◌, refl, ap, ◌∙◌, Bool, true, false, ◌&&◌, ◌||◌, List, [], ◌∷◌, Option, none,
  some, arith, Option-cases, inl, inr, if◌then◌else◌,
}
use fluidfs.Prelude.Slices.{Bytes}
use fluidfs.Prelude.Text.{text, text_eq}
use fluidfs.Db.{ok, Bucket, names, versions, bucket_name, init_database}
use fluidfs.Db.Bolt.{BoltLibrary, bolt_database}
use fluidfs.Db.Level.{LevelLibrary, level_database}
use fluidfs.Db.Spec.{
  empty_store, Operation, put, delete, batch, apply_all, IsProper, seen, perform_all,
}
use fluidfs.Db.Agree.OfBolt
use fluidfs.Db.Agree.OfLevel
use fluidfs.Db.Drivers.{drivers_agree}

abbrev Buckets : Type 0
Buckets = (Bytes → Bool) × (Bytes → Bytes → Option Bytes)

abbrev set_key : Bytes → Bytes → Option Bytes → Buckets → Option Buckets
set_key b k value (has, got) =
    some (has, λ b' k'. if text_eq b b' && text_eq k k' then value else got b' k')

-- A slice is a place: what it holds depends on the state in which it is read.
abbrev bytes_at : Option Bytes → Bytes
bytes_at none = []
bytes_at (some value) = value

abbrev slice_of : Bytes → Bytes → Option Bytes → Option (Bytes × Bytes)
slice_of b k none = none
slice_of b k (some value) = some (b, k)

abbrev pub bolt : BoltLibrary
bolt = record {
  State = Buckets;
  Slice = Bytes × Bytes;
  read_slice = λ slice s. bytes_at (s.1 slice.0 slice.1);
  open_file = λ path. some (λ b. false, λ b k. none);
  close = λ s. true;
  create_bucket_if_not_exists = λ name s. some (λ b. text_eq name b || s.0 b, s.1);
  has_bucket = λ b s. s.0 b;
  bucket_get = λ b k s. slice_of b k (s.1 b k);
  bucket_put = λ b k v s. set_key b k (some v) s;
  bucket_delete = λ b k s. set_key b k none s;
  commit = λ s. some s;
}

-- The slice of a key holds the key's value.
stored-is : (s : Buckets) (b k : Bytes) → OfBolt.stored bolt b k s ≡ s.1 b k
stored-is s b k = elim (Option-cases (s.1 b k)) [
  | inl nothing ↦ rw (OfBolt.stored, nothing) refl
  | inr (value, there) ↦ rw (OfBolt.stored, there) (ap (λ v. some (bytes_at v)) there)
]

bolt_laws : OfBolt.BoltLaws bolt
bolt_laws = record {
  create_law =
      λ name s nonblank short. ((λ b. text_eq name b || s.0 b, s.1), refl, λ b. refl, λ b k. refl);
  put_law = λ b k v s h e. (
    (s.0, λ b' k'. if text_eq b b' && text_eq k k' then some v else s.1 b' k'),
    refl,
    λ b'. refl,
    λ b' k'.
        stored-is (s.0, λ b' k'. if text_eq b b' && text_eq k k' then some v else s.1 b' k') b' k'
        ∙ rw (stored-is s b' k') refl,
  );
  delete_law = λ b k s h. (
    (s.0, λ b' k'. if text_eq b b' && text_eq k k' then none else s.1 b' k'),
    refl,
    λ b'. refl,
    λ b' k'.
        stored-is (s.0, λ b' k'. if text_eq b b' && text_eq k k' then none else s.1 b' k') b' k'
        ∙ rw (stored-is s b' k') refl,
  );
  commit_law = λ s. refl;
}

abbrev Keys : Type 0
Keys = Bytes → Option Bytes

abbrev with_key : Bytes → Option Bytes → Keys → Keys
with_key k value s k' = if text_eq k k' then value else s k'

abbrev with_keys : List (Bytes × Bytes) → Keys → Keys
with_keys [] s = s
with_keys ((k, v) ∷ puts) s = with_keys puts (with_key k (some v) s)

abbrev pub level : LevelLibrary
level = record {
  State = Keys;
  open_file = λ path. some (λ k. none);
  close = λ s. true;
  db_get = λ k s. some (s k);
  db_put = λ k v s. some (with_key k (some v) s);
  db_delete = λ k s. some (with_key k none s);
  write = λ puts s. some (with_keys puts s);
}

some_if :
    (c : Bool) (x y : Option Bytes) → some (if c then x else y) ≡ (if c then some x else some y)
some_if true x y = refl
some_if false x y = refl

with_keys-written :
    (puts : List (Bytes × Bytes)) (s : Keys) (k : Bytes)
    → some (with_keys puts s k) ≡ OfLevel.written puts k (some (s k))
with_keys-written [] s k = refl
with_keys-written ((k', v) ∷ puts) s k =
    with_keys-written puts (with_key k' (some v) s) k
    ∙ ap (OfLevel.written puts k) (some_if (text_eq k' k) (some v) (s k))

level_laws : OfLevel.LevelLaws level
level_laws = record {
  put_law = λ k v s. (with_key k (some v) s, refl, λ k'. some_if (text_eq k k') (some v) (s k'));
  delete_law = λ k s. (with_key k none s, refl, λ k'. some_if (text_eq k k') none (s k'));
  write_law = λ puts s. (with_keys puts s, refl, λ k. with_keys-written puts s k);
}

abbrev operations : List Operation
operations =
    put names (text "a") (text "1")
    ∷ batch versions ((text "a", text "2") ∷ (text "b", text "3") ∷ [])
    ∷ delete names (text "a")
    ∷ put versions (text "a") (text "4")
    ∷ []

entry_small : (0 < 1) × (1 ≤ 32768) × (1 ≤ 2147483646)
entry_small = (omega arith, omega arith, omega arith)

operations-IsProper : All IsProper operations
operations-IsProper = (entry_small, ((entry_small, (entry_small, tt)), (tt, (entry_small, tt))))

after_operations : apply_all operations empty_store versions (text "a") ≡ some (text "4")
after_operations = refl

abbrev new_buckets : Buckets
new_buckets = (λ b. false, λ b k. none)

drivers_agree_example :
    (s : bolt.State) × (init_database
        (bolt_database bolt)
        (level_database level)
        "boltdb"
        (text "db")
      ≡ some (some s, none))
    × (init_database (bolt_database bolt) (level_database level) "leveldb" (text "db")
        ≡ some (none, some (λ k. none)))
    × ((perform_all (bolt_database bolt) operations s).0 ≡ ok tt)
    × ((perform_all (level_database level) operations (λ k. none)).0 ≡ ok tt)
    × ((b : Bucket) (k : Bytes)
        → (seen (bolt_database bolt) (perform_all (bolt_database bolt) operations s).1 (
              (bolt_database bolt).get k
                (bucket_name b)
                (perform_all (bolt_database bolt) operations s).1)
            ≡ ok (apply_all operations empty_store b k))
          × (seen
                (level_database level)
                (perform_all (level_database level) operations (λ k. none)).1
                ((level_database level).get k
                  (bucket_name b)
                  (perform_all (level_database level) operations (λ k. none)).1)
              ≡ ok (apply_all operations empty_store b k)))
drivers_agree_example =
    drivers_agree bolt level bolt_laws level_laws (text "db") new_buckets (λ k. none)
      (record { opened = refl; no_value = λ b k. refl })
      (record { opened = refl; no_value = λ k. refl }) operations operations-IsProper
