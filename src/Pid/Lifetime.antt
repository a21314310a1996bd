-- ===== src/Pid/Lifetime.antt =====
-- From `PID.Save` to `PID.Free` of fluid/pid.go: one server holds the file, and clients read it.
use fluidfs.Prelude.{
  ℕ, ◌+◌, ◌≤◌, ◌≡◌, ◌⊎◌, inl, inr, refl, sym, ap, ◌∙◌, subst, Bool, true, false, List, [], ◌∷◌,
  Option, none, some, if◌then◌else◌, arith, Bool-cases, Option-cases,
}
use fluidfs.Prelude.Slices.{Bytes}
use fluidfs.Prelude.Text.{Text}
use fluidfs.Pid.{
  Pid, System, Process, SaveError, not_written, free_port, pid_path, write_new, save_new, save,
  load, free,
}

module _ (sys : System) where
  open sys use {dir, encode, decode, Disk, not_exist, mkdir_all, write_file, read_file, remove}

  -- What is documented of a disk and of JSON: a file that was written is there, with its contents, until
  -- it is removed, and what was encoded is decoded, whatever the object held.
  pub record SystemLaws : Type 0 where
    pub write_law :
        (path : Text) (s : Bytes) (disk disk' : Disk)
        → write_file path s disk ≡ (disk', true)
        → (not_exist path disk' ≡ false) × (read_file path disk' ≡ some s)
    pub remove_law :
        (path : Text) (disk disk' : Disk)
        → remove path disk ≡ (disk', true)
        → not_exist path disk' ≡ true
    pub decode_law : (p old : Pid) (s : Bytes) → encode p ≡ some s → decode s old ≡ (p, true)

  abbrev pub Saved : Type 0
  Saved = Pid × Disk × Option SaveError

  abbrev pub is_success : Option SaveError → Bool
  is_success none = true
  is_success (some e) = false

  -- The attempts of several servers to save, in order: the disk, and how many succeed.
  abbrev pub save_all : List (Process × Pid) → Disk → Disk × ℕ
  save_all [] disk = (disk, 0)
  save_all ((p, old) ∷ attempts) disk =
      let (disk', successes) = save_all attempts (save sys p old disk).1 in
      (disk', if is_success (save sys p old disk).2 then 1 + successes else successes)

  pub save-exists :
      (p : Process) (old : Pid) (disk : Disk)
      → not_exist (pid_path sys) disk ≡ false
      → ((save sys p old disk).1 ≡ disk) × (is_success (save sys p old disk).2 ≡ false)
  unfolding save save_new
  save-exists p old disk there = (ground (arith, there), ground (arith, there))

  module _ (laws : SystemLaws) where
    write_new-written :
        (s : Bytes) (made : Disk × Bool)
        → is_success (write_new sys s made).1 ≡ true
        → (not_exist (pid_path sys) (write_new sys s made).0 ≡ false)
          × (read_file (pid_path sys) (write_new sys s made).0 ≡ some s)
    write_new-written s (disk, false) h = absurd (ground arith)
    write_new-written s (disk, true) h =
        laws.write_law (pid_path sys) s disk (write_file (pid_path sys) s disk).0 (
          ap (λ b. ((write_file (pid_path sys) s disk).0, b))
            (success_true (write_file (pid_path sys) s disk).1 h))
      where
        success_true :
            (b : Bool) → is_success (if b then none else some not_written) ≡ true → b ≡ true
        success_true true e = refl
        success_true false e = absurd (ground arith)

    save_new-written :
        (s : Bytes) (disk : Disk)
        → is_success (save_new sys s disk).1 ≡ true
        → (not_exist (pid_path sys) (save_new sys s disk).0 ≡ false)
          × (read_file (pid_path sys) (save_new sys s disk).0 ≡ some s)
    unfolding save_new
    save_new-written s disk h = elim (Bool-cases (not_exist (pid_path sys) disk)) [
      | inl missing ↦
          let opened : save_new sys s disk ≡ write_new sys s (mkdir_all (dir (pid_path sys)) disk) =
            rw (save_new, missing) refl in
          rw opened (
            write_new-written s (mkdir_all (dir (pid_path sys)) disk)
              (subst (λ r. is_success r.1 ≡ true) opened h))
      | inr there ↦ absurd (ground (arith, there))
    ]

    -- What a successful save did.
    pub record IsSaved (p : Process) (disk : Disk) (r : Saved) : Type 0 where
      pub port : ℕ
      pub encoded : Bytes
      pub asked : free_port p ≡ some port
      pub made : r.0 ≡ (record { pid = p.getpid; ppid = p.getppid; port = port })
      pub encodes : encode (record { pid = p.getpid; ppid = p.getppid; port = port }) ≡ some encoded
      pub there : not_exist (pid_path sys) r.1 ≡ false
      pub read : read_file (pid_path sys) r.1 ≡ some encoded

    pub save-IsSaved :
        (p : Process) (old : Pid) (disk : Disk)
        → is_success (save sys p old disk).2 ≡ true
        → IsSaved p disk (save sys p old disk)
    unfolding save
    save-IsSaved p old disk h = elim (Option-cases (free_port p)) [
      | inl no_answer ↦ absurd (ground (arith, no_answer))
      | inr (port, asked) ↦
          let new : Pid = record { pid = p.getpid; ppid = p.getppid; port = port } in
          elim (Option-cases (encode new)) [
            | inl fails ↦ absurd (ground (arith, asked, fails))
            | inr (encoded, encodes) ↦
                let opened : save sys p old disk
                    ≡ (new, (save_new sys encoded disk).0, (save_new sys encoded disk).1) =
                  rw (save, asked, encodes) refl in
                let (there, read) =
                  save_new-written encoded disk (subst (λ r. is_success r.2 ≡ true) opened h) in
                record {
                  port = port;
                  encoded = encoded;
                  asked = asked;
                  made = ap (λ r. r.0) opened;
                  encodes = encodes;
                  there = ap (λ r. not_exist (pid_path sys) r.1) opened ∙ there;
                  read = ap (λ r. read_file (pid_path sys) r.1) opened ∙ read;
                }
          ]
    ]

    save_all-exists :
        (attempts : List (Process × Pid)) (disk : Disk)
        → not_exist (pid_path sys) disk ≡ false
        → save_all attempts disk ≡ (disk, 0)
    save_all-exists [] disk there = refl
    save_all-exists ((p, old) ∷ attempts) disk there =
        let (same, fails) = save-exists p old disk there in
        rw (save_all, same, fails, save_all-exists attempts disk there) refl

    -- Where a server's `Save` succeeds, a client's `Load` from the disk that it leaves gives the server's
    -- object, with its process number and the port that the kernel answered, whatever the client's
    -- object held.
    pub load_pid-save :
        (p : Process) (old client : Pid) (disk : Disk)
        → is_success (save sys p old disk).2 ≡ true
        → (load sys (save sys p old disk).1 client ≡ ((save sys p old disk).0, true))
          × ((save sys p old disk).0.pid ≡ p.getpid)
          × (free_port p ≡ some (save sys p old disk).0.port)
    unfolding load
    load_pid-save p old client disk h =
        let saved = save-IsSaved p old disk h in
        (
          rw (load, saved.read, laws.decode_law _ client saved.encoded saved.encodes, saved.made)
              refl,
          ap (λ n. n.pid) saved.made,
          saved.asked ∙ ap (λ n. some n.port) (sym saved.made),
        )

    -- Of any attempts to save, one after the other and with no `Free` between them, at most one
    -- succeeds, and none where the file was there, which also leaves the disk as it was. After a `Free`
    -- without an error the file is not there.
    pub save_all-once :
        (attempts : List (Process × Pid)) (disk : Disk)
        → ((save_all attempts disk).1 ≤ 1)
          × ((not_exist (pid_path sys) disk ≡ true) ⊎ (save_all attempts disk ≡ (disk, 0)))
          × (((free sys disk).1 ≡ false) ⊎ (not_exist (pid_path sys) (free sys disk).0 ≡ true))
    unfolding free
    save_all-once attempts disk = (at_most_one attempts disk, missing_or_none, freed)
      where
        at_most_one :
            (attempts : List (Process × Pid)) (disk : Disk) → (save_all attempts disk).1 ≤ 1
        at_most_one [] disk = omega arith
        at_most_one ((p, old) ∷ attempts) disk =
            elim (Bool-cases (is_success (save sys p old disk).2)) [
              | inl succeeds ↦
                  let rest =
                    save_all-exists attempts (save sys p old disk).1
                      (save-IsSaved p old disk succeeds).there in
                  rw (save_all, succeeds, ap (λ r. r.1) rest) (omega arith)
              | inr fails ↦ rw (save_all, fails) (at_most_one attempts (save sys p old disk).1)
            ]

        missing_or_none :
            (not_exist (pid_path sys) disk ≡ true) ⊎ (save_all attempts disk ≡ (disk, 0))
        missing_or_none = elim (Bool-cases (not_exist (pid_path sys) disk)) [
          | inl missing ↦ inl missing
          | inr there ↦ inr (save_all-exists attempts disk there)
        ]

        freed : ((free sys disk).1 ≡ false) ⊎ (not_exist (pid_path sys) (free sys disk).0 ≡ true)
        freed = elim (Bool-cases (not_exist (pid_path sys) disk)) [
          | inl missing ↦ inr (rw (free, missing) missing)
          | inr there ↦ elim (Bool-cases (remove (pid_path sys) disk).1) [
            | inr fails ↦ inl (rw (free, there) fails)
            | inl done ↦ inr (
                rw (free, there)
                  (laws.remove_law (pid_path sys) disk (remove (pid_path sys) disk).0
                    (ap (λ b. ((remove (pid_path sys) disk).0, b)) done)))
          ]
        ]
