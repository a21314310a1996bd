-- ===== src/Db/Drivers.antt =====
-- The drivers of fluid/db/ side by side: a replica may choose either.
use fluidfs.Prelude.{◌≡◌, refl, List, none, some, All, []}
use fluidfs.Prelude.Slices.{Bytes}
use fluidfs.Db.{ok, Bucket, names, bucket_name, init_database, select_driver}
use fluidfs.Db.Bolt.{BoltLibrary, bolt_database}
use fluidfs.Db.Level.{LevelLibrary, level_database}
use fluidfs.Db.Spec.{empty_store, Operation, apply_all, IsProper, seen, perform_all, run-refines}
use fluidfs.Db.Agree.OfBolt
use fluidfs.Db.Agree.OfLevel

module _ (bolt : BoltLibrary) (level : LevelLibrary) where
  -- Let both libraries keep their promises, and let each make a new database at the path. Then
  -- `InitDatabase` succeeds with either driver's name, and from there every sequence of proper puts,
  -- deletes and batches succeeds with both drivers. After it, `Get` of any key of the three buckets
  -- answers with both drivers nil where the dictionary of the operations has nothing for the key, and
  -- else what holds its value in the state that `Get` saw: with leveldb a copy, with boltdb a slice that
  -- the library promises to hold it during the transaction of `Get` alone.
  pub drivers_agree :
      (bolt_laws : OfBolt.BoltLaws bolt) (level_laws : OfLevel.LevelLaws level) (path : Bytes)
      (sb : bolt.State) (sl : level.State)
      → OfBolt.IsNew bolt path sb
      → OfLevel.IsNew level path sl
      → (os : List Operation) → All IsProper os
      → (s : bolt.State) × (init_database (bolt_database bolt) (level_database level) "boltdb" path
          ≡ some (some s, none))
        × (init_database (bolt_database bolt) (level_database level) "leveldb" path
            ≡ some (none, some sl))
        × ((perform_all (bolt_database bolt) os s).0 ≡ ok tt)
        × ((perform_all (level_database level) os sl).0 ≡ ok tt)
        × ((b : Bucket) (k : Bytes)
            → (seen (bolt_database bolt) (perform_all (bolt_database bolt) os s).1 (
                  (bolt_database bolt).get k
                    (bucket_name b)
                    (perform_all (bolt_database bolt) os s).1)
                ≡ ok (apply_all os empty_store b k))
              × (seen (level_database level) (perform_all (level_database level) os sl).1 (
                    (level_database level).get k
                      (bucket_name b)
                      (perform_all (level_database level) os sl).1)
                  ≡ ok (apply_all os empty_store b k)))
  unfolding init_database select_driver
  drivers_agree bolt_laws level_laws path sb sl new_b new_l os h =
      let (s, e, rep) = OfBolt.bolt_init-Represents bolt bolt_laws path sb new_b in
      let Rb = OfBolt.Represents bolt in
      let Rl = OfLevel.Represents level in
      let of_bolt =
        run-refines (bolt_database bolt) Rb (OfBolt.bolt-Refines bolt bolt_laws) os s h rep in
      let of_level =
        run-refines (level_database level) Rl (OfLevel.level-Refines level level_laws) os sl h
          (OfLevel.new-Represents level path sl new_l) in
      (
        s,
        rw (init_database, e) refl,
        rw (init_database, new_l.opened) refl,
        (of_bolt names []).0,
        (of_level names []).0,
        λ b k. ((of_bolt b k).1, (of_level b k).1),
      )
