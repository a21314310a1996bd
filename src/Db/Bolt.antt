-- ===== src/Db/Bolt.antt =====
-- fluid/db/boltdb.go. The library `github.com/boltdb/bolt` is a parameter.
use fluidfs.Prelude.{Bool, not, List, [], ◌∷◌, Option, none, some, ◌==◌, length, if◌then◌else◌}
use fluidfs.Prelude.Slices.{Bytes}
use fluidfs.Db.{Reply, ok, failed, panicked, Database, bucket_name, names, versions, prefixes}

-- The library: a state holds buckets of keys; a change of a bucket and a commit may fail. `Bucket.Get`
-- answers a slice into the file, which has the value in the state of its transaction, and is not valid
-- after it.
pub record BoltLibrary : Type 1 where
  pub State : Type 0
  pub Slice : Type 0
  pub read_slice : Slice → State → Bytes
  pub open_file : Bytes → Option State
  pub close : State → Bool
  pub create_bucket_if_not_exists : Bytes → State → Option State
  pub has_bucket : Bytes → State → Bool
  pub bucket_get : Bytes → Bytes → State → Option Slice
  pub bucket_put : Bytes → Bytes → Bytes → State → Option State
  pub bucket_delete : Bytes → Bytes → State → Option State
  pub commit : State → Option State

module _ (lib : BoltLibrary) where
  open lib use {
    State, Slice, read_slice, open_file, create_bucket_if_not_exists, has_bucket, bucket_get,
    bucket_put, bucket_delete, commit,
  }

  -- `db.Update` and `db.Batch`: what the function changes is committed, or nothing is changed.
  unfoldable pub transaction : (State → Reply State) → State → Reply (Unit {0}) × State
  transaction change s = elim (change s) [
    | ok s' ↦ elim (commit s') [ none ↦ (failed, s) | some s'' ↦ (ok tt, s'') ]
    | failed ↦ (failed, s)
    | panicked ↦ (panicked, s)
  ]

  -- A method of the bucket that `tx.Bucket` answers: of a nil bucket it panics.
  unfoldable pub in_bucket : Bytes → (State → Option State) → State → Reply State
  in_bucket bucket change s =
      if not (has_bucket bucket s)
      then panicked
      else elim (change s) [ none ↦ failed | some s' ↦ ok s' ]

  -- The loop of `Init` over the names of the buckets.
  unfoldable pub create_buckets : List Bytes → State → Reply State
  create_buckets [] s = ok s
  create_buckets (name ∷ bs) s = elim (create_bucket_if_not_exists name s) [
    | none ↦ failed
    | some s' ↦ create_buckets bs s'
  ]

  unfoldable pub bolt_init : Bytes → Option State
  unfolding transaction create_buckets
  bolt_init path = elim (open_file path) [
    | none ↦ none
    | some s ↦
        let (reply, s') =
          transaction
            (create_buckets (bucket_name names ∷ bucket_name versions ∷ bucket_name prefixes ∷ []))
            s in
        elim reply [ ok done ↦ some s' | failed ↦ none | panicked ↦ none ]
  ]

  unfoldable pub bolt_close : State → Reply (Unit {0})
  bolt_close s = if lib.close s then ok tt else failed

  -- The slice is returned as it is, after the end of its transaction.
  unfoldable pub bolt_get : Bytes → Bytes → State → Reply (Option Slice)
  bolt_get key bucket s =
      if not (has_bucket bucket s) then panicked else ok (bucket_get bucket key s)

  unfoldable pub bolt_put : Bytes → Bytes → Bytes → State → Reply (Unit {0}) × State
  unfolding transaction in_bucket
  bolt_put key value bucket = transaction (in_bucket bucket (bucket_put bucket key value))

  unfoldable pub bolt_delete : Bytes → Bytes → State → Reply (Unit {0}) × State
  unfolding transaction in_bucket
  bolt_delete key bucket = transaction (in_bucket bucket (bucket_delete bucket key))

  -- The loop of `Batch`, over lists of one length; a missing value panics.
  unfoldable pub put_all : Bytes → List Bytes → List Bytes → State → Reply State
  unfolding in_bucket
  put_all bucket [] values s = ok s
  put_all bucket (k ∷ ks) [] s = panicked
  put_all bucket (k ∷ ks) (v ∷ vs) s = elim (in_bucket bucket (bucket_put bucket k v) s) [
    | ok s' ↦ put_all bucket ks vs s'
    | failed ↦ failed
    | panicked ↦ panicked
  ]

  unfoldable pub bolt_batch : List Bytes → List Bytes → Bytes → State → Reply (Unit {0}) × State
  unfolding transaction put_all
  bolt_batch keys values bucket s =
      if not (length keys == length values)
      then (failed, s)
      else transaction (put_all bucket keys values) s

  abbrev pub bolt_database : Database
  bolt_database = record {
    State = State;
    Value = Slice;
    read = read_slice;
    init = bolt_init;
    close = bolt_close;
    get = bolt_get;
    put = bolt_put;
    delete = bolt_delete;
    batch = bolt_batch;
  }
