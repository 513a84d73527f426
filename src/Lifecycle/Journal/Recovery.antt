-- ===== src/Lifecycle/Journal/Recovery.antt =====
-- What a later invocation reads from the journal, whenever the earlier one ended.
use mathlib.Core.Path.{subst}
use appliance_ctl.Common.{
  String, Bool, true, false, not, ◌&&◌, some, List, [], ◌∷◌, ok, All, ◌≡◌, ◌≢◌, refl, ◌⊎◌, inl, inr,
  arith, if◌then◌else◌, Bool-cases,
}
use appliance_ctl.Lifecycle.Atomic.{Disk, Trace, write_file_atomic}
use appliance_ctl.Lifecycle.Atomic.Safety.{write_file_atomic-old_or_new}
use appliance_ctl.Lifecycle.Journal.{
  completed, failed, rolled_back, complete, fail, roll_back, Journal, Transaction, OperationStatus,
  interrupted, Codec, System, current, persist, begin, finish, new_transaction, finished,
}

pub All-map {ℓ κ μ} :
    {A : Type ℓ} {P : A → Type κ} {Q : A → Type μ} (xs : List A)
    → ((x : A) → P x → Q x)
    → All P xs
    → All Q xs
All-map [] f h = tt
All-map (x ∷ xs) f h = (f x h.0, All-map xs f h.1)

module _ (codec : Codec) (j : Journal) where
  -- Unmarshalling what was marshalled gives the transaction back.
  abbrev pub ReadsBack : Transaction → Type 0
  ReadsBack t = (bytes : String) × (codec.marshal t ≡ some bytes) × (codec.unmarshal bytes ≡ some t)

  -- `current` depends on the journal's file alone.
  current-congr :
      (disk disk' : Disk)
      → disk j.path ≡ disk' j.path
      → current codec j true disk ≡ current codec j true disk'
  unfolding current
  current-congr disk disk' e = rw (e, current)

  current-marshal :
      (disk : Disk) (t : Transaction) (bytes : String)
      → codec.unmarshal bytes ≡ some t
      → disk j.path ≡ some bytes
      → current codec j true disk ≡ ok (some t)
  unfolding current
  current-marshal disk t bytes back e = rw (e, current) (rw (back, current))

  -- What `Current` reads behind each call and on return, from what it read before.
  abbrev Reads : Transaction → Disk → Trace → Type 0
  Reads txn disk t =
      All
        (λ d.
          (current codec j true d ≡ current codec j true disk)
          ⊎ (current codec j true d ≡ ok (some txn)))
        t.disks
      × (current codec j true t.final
          ≡ (if t.success && not j.dry_run then ok (some txn) else current codec j true disk))

  nothing_done :
      (txn : Transaction) (disk : Disk) (success : Bool)
      → (success && not j.dry_run) ≡ false
      → Reads txn disk (record { disks = disk ∷ []; final = disk; success = success })
  nothing_done txn disk success h = ((inl refl, tt), rw h)

  written :
      (sys : System) (txn : Transaction) (disk : Disk)
      → sys.tmp ≢ j.path
      → (back : ReadsBack txn) → j.dry_run ≡ false
      → Reads txn disk (write_file_atomic sys.outcomes sys.tmp j.path back.0 disk)
  written sys txn disk fresh back real =
      let t = write_file_atomic sys.outcomes sys.tmp j.path back.0 disk in
      let (all, last) =
        write_file_atomic-old_or_new sys.outcomes sys.tmp j.path back.0 disk fresh in
      (All-map t.disks (λ d c. read_one d c) all, ending t last)
    where
      read_one :
          (d : Disk)
          → (d j.path ≡ disk j.path) ⊎ (d j.path ≡ some back.0)
          → (current codec j true d ≡ current codec j true disk)
            ⊎ (current codec j true d ≡ ok (some txn))
      read_one d (inl e) = inl (current-congr d disk e)
      read_one d (inr e) = inr (current-marshal d txn back.0 back.2 e)

      ending :
          (t : Trace)
          → t.final j.path ≡ (if t.success then some back.0 else disk j.path)
          → current codec j true t.final
            ≡ (if t.success && not j.dry_run then ok (some txn) else current codec j true disk)
      ending t e = elim (Bool-cases t.success) [
        | inl done ↦ ground (arith, real, done, e, current-marshal t.final txn back.0 back.2)
        | inr error ↦ ground (arith, real, error, e, current-congr t.final disk)
      ]

  module _ (sys : System) (txn : Transaction) (disk : Disk) where
    persist_dry :
        j.dry_run ≡ true
        → record { disks = disk ∷ []; final = disk; success = true } ≡ persist codec j sys txn disk
    unfolding persist
    persist_dry dry = ground (arith, dry)

    persist_refused :
        {bytes : String}
        → j.dry_run ≡ false
        → codec.marshal txn ≡ some bytes
        → sys.journal_mkdir_ok ≡ false
        → record { disks = disk ∷ []; final = disk; success = false } ≡ persist codec j sys txn disk
    unfolding persist
    persist_refused real m refused = ground (arith, real, m, refused)

    persist_real :
        {bytes : String}
        → j.dry_run ≡ false
        → codec.marshal txn ≡ some bytes
        → sys.journal_mkdir_ok ≡ true
        → write_file_atomic sys.outcomes sys.tmp j.path bytes disk ≡ persist codec j sys txn disk
    unfolding persist
    persist_real real m made = ground (arith, real, m, made)

  module _ (sys : System) (txn : Transaction) (disk : Disk) (fresh : sys.tmp ≢ j.path)
      (back : ReadsBack txn) where
    -- Behind every system call of `persist` a later `Current` reads what it would have read
    -- before, or the new transaction, if the codec reads that one back. On return from a real run it reads the new transaction if
    -- `persist` returned nil; on an error, and in a dry run, what it would have read before.
    pub persist-current :
        All
          (λ d.
            (current codec j true d ≡ current codec j true disk)
            ⊎ (current codec j true d ≡ ok (some txn)))
          (persist codec j sys txn disk).disks
        × (current codec j true (persist codec j sys txn disk).final ≡ (
            if (persist codec j sys txn disk).success && not j.dry_run
            then ok (some txn)
            else current codec j true disk))
    persist-current = elim (Bool-cases j.dry_run) [
      | inl dry ↦
          subst (Reads txn disk) (persist_dry sys txn disk dry)
            (nothing_done txn disk true (ground (arith, dry)))
      | inr real ↦ elim (Bool-cases sys.journal_mkdir_ok) [
        | inl made ↦
            subst (Reads txn disk) (persist_real sys txn disk real back.1 made)
              (written sys txn disk fresh back real)
        | inr refused ↦
            subst (Reads txn disk) (persist_refused sys txn disk real back.1 refused)
              (nothing_done txn disk false refl)
      ]
    ]

  -- A real `Begin` that returned nil leaves for the next invocation an interrupted transaction
  -- with its operation and versions.
  pub current-begin :
      (sys : System) (operation source target : String) (disk : Disk)
      → sys.tmp ≢ j.path
      → ReadsBack (new_transaction sys operation source target)
      → j.dry_run ≡ false
      → (begin codec j sys operation source target disk).success ≡ true
      → let t = new_transaction sys operation source target in
        (current codec j true (begin codec j sys operation source target disk).final ≡ ok (some t))
        × (interrupted t.status ≡ true)
        × (t.type ≡ operation)
        × (t.source_version ≡ source)
        × (t.target_version ≡ target)
  unfolding begin new_transaction interrupted
  current-begin sys operation source target disk fresh back real done = (
    ground (
      arith,
      real,
      done,
      (persist-current sys (new_transaction sys operation source target) disk fresh back).1,
    ),
    refl,
    refl,
    refl,
    refl,
  )

  -- Current reads the transaction in the status, with its end, if the call returned nil, and what
  -- was there before if not; the status is not that of an interrupted transaction.
  abbrev pub Finished : OperationStatus → System → Transaction → Disk → Trace → Type 0
  Finished status sys txn disk t =
      (current codec j true t.final ≡ (
        if t.success
        then ok (some (record txn { status = status; completed_at = some sys.now }))
        else current codec j true disk))
      × (interrupted status ≡ false)

  finish-Finished :
      (status : OperationStatus) (sys : System) (txn : Transaction) (disk : Disk)
      → sys.tmp ≢ j.path
      → ReadsBack (record txn { status = status; completed_at = some sys.now })
      → j.dry_run ≡ false
      → interrupted status ≡ false
      → Finished status sys txn disk (finish codec status j sys txn disk)
  unfolding finish finished
  finish-Finished status sys txn disk fresh back real terminal = (
    ground (
      arith,
      real,
      (persist-current sys (record txn { status = status; completed_at = some sys.now }) disk fresh
          back).1,
    ),
    terminal,
  )

  -- Behind a real Complete the transaction is read as completed, behind a Fail as failed and behind
  -- a RollBack as rolled back, each with its end and no longer as interrupted, if the call returned
  -- nil; behind one that returned an error, what was there before is read. The codec reads back
  -- what it writes of the transaction, and the temporary file has a name of its own.
  pub current-finish :
      (sys : System) (txn : Transaction) (disk : Disk)
      → sys.tmp ≢ j.path
      → ((status : OperationStatus)
          → ReadsBack (record txn { status = status; completed_at = some sys.now }))
      → j.dry_run ≡ false
      → Finished completed sys txn disk (complete codec j sys txn disk)
        × Finished failed sys txn disk (fail codec j sys txn disk)
        × Finished rolled_back sys txn disk (roll_back codec j sys txn disk)
  unfolding interrupted
  current-finish sys txn disk fresh back real = (
    finish-Finished completed sys txn disk fresh (back completed) real refl,
    finish-Finished failed sys txn disk fresh (back failed) real refl,
    finish-Finished rolled_back sys txn disk fresh (back rolled_back) real refl,
  )
