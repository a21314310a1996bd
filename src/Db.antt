-- ===== src/Db.antt =====
-- The key-value stores: fluid/db/. Keys, values and the names of buckets are bytes.
pub mod Bolt
pub mod Level
pub mod Spec
pub mod Agree
pub mod Drivers
use fluidfs.Prelude.{
  Bool, true, false, List, [], ◌∷◌, Option, none, some, String, str_eq, if◌then◌else◌,
}
use fluidfs.Prelude.Slices.{Bytes}
use fluidfs.Prelude.Text.{text}

-- What a method answers: a value, an error, or a panic.
pub data Reply (A : Type 0) : Type 0 where
  ok : A → Reply A
  failed : Reply A
  panicked : Reply A

-- The buckets of the application, and their names.
pub data Bucket : Type 0 where
  names versions prefixes : Bucket

abbrev pub bucket_name : Bucket → Bytes
bucket_name names = text "names"
bucket_name versions = text "versions"
bucket_name prefixes = text "prefixes"

-- The interface `Database`: a method takes the state of the database and leaves another. A missing key
-- has the value nil, which is none; `read` gives the bytes that another value holds, in the state that
-- the call saw. `Scan` and `Keys` are stubs in both drivers.
pub record Database : Type 1 where
  pub State : Type 0
  pub Value : Type 0
  pub read : Value → State → Bytes
  pub init : Bytes → Option State
  pub close : State → Reply (Unit {0})
  pub get : Bytes → Bytes → State → Reply (Option Value)
  pub put : Bytes → Bytes → Bytes → State → Reply (Unit {0}) × State
  pub delete : Bytes → Bytes → State → Reply (Unit {0}) × State
  pub batch : List Bytes → List Bytes → Bytes → State → Reply (Unit {0}) × State

pub data Driver : Type 0 where
  bolt_db level_db : Driver

-- The switch of `InitDatabase`; none is the error of an unknown driver.
unfoldable pub select_driver : String → Option Driver
select_driver name =
    if str_eq name "boltdb"
    then some bolt_db
    else if str_eq name "leveldb"
    then some level_db
    else none

-- `InitDatabase` with the two drivers: the database that is chosen, and its state after `Init`.
unfoldable pub init_database :
    (bolt level : Database) → String → Bytes → Option (Option bolt.State × Option level.State)
unfolding select_driver
init_database bolt level name path = elim (select_driver name) [
  | none ↦ none
  | some bolt_db ↦ elim (bolt.init path) [ none ↦ none | some s ↦ some (some s, none) ]
  | some level_db ↦ elim (level.init path) [ none ↦ none | some s ↦ some (none, some s) ]
]
