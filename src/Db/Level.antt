-- ===== src/Db/Level.antt =====
-- fluid/db/leveldb.go. The library `github.com/syndtr/goleveldb` is a parameter.
use fluidfs.Prelude.{
  Bool, not, List, [], ◌∷◌, ◌++◌, Option, none, some, ◌==◌, length, if◌then◌else◌,
}
use fluidfs.Prelude.Slices.{Bytes}
use fluidfs.Db.{Reply, ok, failed, panicked, Database}

-- The library: `Get` fails, or answers a copy of the value, where none is `ErrNotFound`.
pub record LevelLibrary : Type 1 where
  pub State : Type 0
  pub open_file : Bytes → Option State
  pub close : State → Bool
  pub db_get : Bytes → State → Option (Option Bytes)
  pub db_put : Bytes → Bytes → State → Option State
  pub db_delete : Bytes → State → Option State
  pub write : List (Bytes × Bytes) → State → Option State

-- `CreateBucket`: the name of the bucket, a slash and the key.
unfoldable pub create_bucket : Bytes → Bytes → Bytes
create_bucket bucket key = bucket ++ b'/' ∷ key

module _ (lib : LevelLibrary) where
  open lib use {State, open_file, db_get, db_put, db_delete, write}

  abbrev pub changed : State → Option State → Reply (Unit {0}) × State
  changed s none = (failed, s)
  changed s (some s') = (ok tt, s')

  unfoldable pub level_close : State → Reply (Unit {0})
  level_close s = if lib.close s then ok tt else failed

  unfoldable pub level_get : Bytes → Bytes → State → Reply (Option Bytes)
  unfolding create_bucket
  level_get key bucket s = elim (db_get (create_bucket bucket key) s) [
    | none ↦ failed
    | some value ↦ ok value
  ]

  unfoldable pub level_put : Bytes → Bytes → Bytes → State → Reply (Unit {0}) × State
  unfolding create_bucket
  level_put key value bucket s = changed s (db_put (create_bucket bucket key) value s)

  unfoldable pub level_delete : Bytes → Bytes → State → Reply (Unit {0}) × State
  unfolding create_bucket
  level_delete key bucket s = changed s (db_delete (create_bucket bucket key) s)

  -- The loop that fills the batch; a missing value panics.
  unfoldable pub batch_puts : Bytes → List Bytes → List Bytes → Option (List (Bytes × Bytes))
  unfolding create_bucket
  batch_puts bucket [] values = some []
  batch_puts bucket (k ∷ ks) [] = none
  batch_puts bucket (k ∷ ks) (v ∷ vs) = elim (batch_puts bucket ks vs) [
    | none ↦ none
    | some puts ↦ some ((create_bucket bucket k, v) ∷ puts)
  ]

  unfoldable pub level_batch : List Bytes → List Bytes → Bytes → State → Reply (Unit {0}) × State
  unfolding batch_puts
  level_batch keys values bucket s =
      if not (length keys == length values)
      then (failed, s)
      else elim (batch_puts bucket keys values) [
        | none ↦ (panicked, s)
        | some puts ↦ changed s (write puts s)
      ]

  abbrev pub level_database : Database
  level_database = record {
    State = State;
    Value = Bytes;
    read = λ value s. value;
    init = open_file;
    close = level_close;
    get = level_get;
    put = level_put;
    delete = level_delete;
    batch = level_batch;
  }
