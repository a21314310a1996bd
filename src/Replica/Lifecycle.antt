-- ===== src/Replica/Lifecycle.antt =====
-- The PID file over the life of a replica of fluid/fluid.go.
use fluidfs.Prelude.{
  ◌≡◌, ◌⊎◌, inl, inr, refl, sym, ap, ◌∙◌, Bool, true, false, Option, none, some, if◌then◌else◌,
  arith,
}
use fluidfs.Prelude.Text.{Text}
use fluidfs.Pid.{Pid, Process, SaveError, pid_path, save, free}
use fluidfs.Pid.Lifetime.{SystemLaws, is_success, save-IsSaved, save-exists}
use fluidfs.Replica.{
  Services, Replica, no_pid_file, no_database, Ending, returned, free_failed, after_open,
  after_save, run, Connection,
}

module _ (services : Services) where
  open services use {sys}

  abbrev there : Replica services → Bool
  there r = sys.not_exist (pid_path sys) r.disk

  -- The end of a shutdown that frees the file of this disk.
  abbrev Frees : sys.Disk → Replica services × Ending → Type 0
  Frees disk end =
      (end.0.disk ≡ (free sys disk).0)
      × (end.1 ≡ (if (free sys disk).1 then returned else free_failed))

  abbrev no_pid : Pid
  no_pid = record { pid = 0; ppid = 0; port = 0 }

  after_open-disk :
      (c : Option (Connection services)) (r : Replica services)
      → (after_open services c r).0.disk ≡ r.disk
  after_open-disk none r = refl
  after_open-disk (some connection) r = refl

  after_open-database :
      (c : Option (Connection services)) (r : Replica services)
      → (after_open services c r).1 ≡ none
      → (connection : Connection services) × ((after_open services c r).0.database
          ≡ some connection)
  after_open-database none r h = absurd (ground arith)
  after_open-database (some connection) r h = (connection, refl)

  -- What `Run` comes to by the answer of `Save`.
  saved_or_not :
      (s : Pid × sys.Disk × Option SaveError) (r : Replica services)
      → ((e : SaveError) × (s.2 ≡ some e)
          × (after_save services s r ≡ (record r { pid = s.0; disk = s.1 }, some (no_pid_file e))))
        ⊎ ((s.2 ≡ none)
            × ((after_save services s r).0.disk ≡ s.1)
            × (((after_save services s r).1 ≡ none)
                → (connection : Connection services) × ((after_save services s r).0.database
                    ≡ some connection)))
  unfolding after_save
  saved_or_not (pid, disk, some e) r = inl (e, refl, refl)
  saved_or_not (pid, disk, none) r = inr (refl, after_open-disk _ _, after_open-database _ _)

  success_of : (e : Option SaveError) → e ≡ none → is_success sys e ≡ true
  success_of e h = ap (is_success sys) h

  -- `Run` by whether the PID file was saved.
  started_or_not :
      (p : Process) (r : Replica services)
      → ((e : SaveError) × ((save sys p no_pid r.disk).2 ≡ some e)
          × ((run services p r).1 ≡ some (no_pid_file e))
          × ((run services p r).0.disk ≡ (save sys p no_pid r.disk).1))
        ⊎ ((is_success sys (save sys p no_pid r.disk).2 ≡ true)
            × ((run services p r).0.disk ≡ (save sys p no_pid r.disk).1)
            × (((run services p r).1 ≡ none)
                → (connection : Connection services) × ((run services p r).0.database
                    ≡ some connection)))
  unfolding run
  started_or_not p r = elim (saved_or_not (save sys p no_pid r.disk) r) [
    | inl (e, error, whole) ↦ inl (e, error, ap (λ end. end.1) whole, ap (λ end. end.0.disk) whole)
    | inr (no_error, disk, database) ↦
        inr (success_of (save sys p no_pid r.disk).2 no_error, disk, database)
  ]

  module _ (laws : SystemLaws sys) where
    -- The PID file is there on the disk that a run leaves which saved it.
    file_there :
        (p : Process) (r : Replica services)
        → is_success sys (save sys p no_pid r.disk).2 ≡ true
        → (run services p r).0.disk ≡ (save sys p no_pid r.disk).1
        → sys.not_exist (pid_path sys) (run services p r).0.disk ≡ false
    file_there p r success disk =
        ap (sys.not_exist (pid_path sys)) disk
        ∙ (save-IsSaved sys laws p no_pid r.disk success).there

    -- Where `Run` fails because the database cannot be opened, it leaves the PID file: every later `Run`
    -- from that disk, by any process, fails, and leaves the disk as it is.
    pub run-no_database :
        (p q : Process) (r r' : Replica services)
        → (run services p r).1 ≡ some no_database
        → r'.disk ≡ (run services p r).0.disk
        → (sys.not_exist (pid_path sys) r'.disk ≡ false)
          × ((e : SaveError) × ((run services q r').1 ≡ some (no_pid_file e)))
          × ((run services q r').0.disk ≡ r'.disk)
    run-no_database p q r r' failed_ same = elim (started_or_not p r) [
      | inl (e, saved, refused, disk) ↦ absurd (not_database e (sym refused ∙ failed_))
      | inr (success, disk, database) ↦
          let stays : sys.not_exist (pid_path sys) r'.disk ≡ false =
            ap (sys.not_exist (pid_path sys)) same ∙ file_there p r success disk in
          let (kept, refused) = save-exists sys q no_pid r'.disk stays in
          let later : ((e : SaveError) × ((run services q r').1 ≡ some (no_pid_file e)))
              × ((run services q r').0.disk ≡ r'.disk) =
            elim (started_or_not q r') [
              | inl (e, saved, fails, disk') ↦ ((e, fails), disk' ∙ kept)
              | inr (success', disk', database') ↦ absurd (true_not_false (sym success' ∙ refused))
            ] in
          (stays, later.0, later.1)
    ]
      where
        not_database : (e : SaveError) → some (no_pid_file e) ≡ some no_database → ⊥
        not_database e h = ground (arith, h)

        true_not_false : true ≡ false → ⊥
        true_not_false h = ground (arith, h)
