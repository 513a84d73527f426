-- ===== src/Cluster/Enrollment/Signer.antt =====
-- internal/cluster/key.go: LoadOrCreateSigner. An `Attempt` is what one run of the body meets of the
-- operating system and of other processes; `Crypto` holds base64.RawStdEncoding and ed25519.
use appliance_ctl.Common.{
  String, eqb, Bool, not, Option, none, some, List, [], ◌∷◌, Result, ok, err, if◌then◌else◌,
}
use appliance_ctl.Cluster.Enrollment.{Crypto, fingerprint}
use appliance_ctl.Lifecycle.Atomic.{Disk, update}

pub data SignerProblem : Type 0 where
  invalid_key_file not_read no_directory not_generated not_created not_written not_closed :
      SignerProblem

-- How `os.OpenFile` with O_EXCL ends: with the file, with its error, or because another process has
-- made the file in the meantime, with this content by the next reading.
pub data Opened : Type 0 where
  created refused : Opened
  taken : String → Opened

pub record Attempt (Bytes : Type 0) : Type 0 where
  pub readable : Bool
  pub mkdir_ok : Bool
  pub generated : Option Bytes
  pub opened : Opened
  pub write_ok : Bool
  pub written : String
  pub close_ok : Bool
  pub remove_ok : Bool

module _ {Bytes : Type 0} (c : Crypto Bytes) where
  -- The key with its fingerprint, or the error.
  abbrev pub Signed : Type 0
  Signed = Result SignerProblem (Bytes × String)

  -- The disk, and what was returned; `none` is the call of the function on itself.
  abbrev pub Ended : Type 0
  Ended = Disk × Option Signed

  abbrev pub with_fingerprint : Bytes → Bytes × String
  with_fingerprint private = (private, fingerprint c (c.public_of private))

  -- A key file of this content.
  unfoldable pub read_key : String → Signed
  read_key text = elim (c.decode text) [
    | none ↦ err invalid_key_file
    | some raw ↦ if eqb (c.size raw) 64 then ok (with_fingerprint raw) else err invalid_key_file
  ]

  abbrev pub remove_key : Attempt Bytes → String → SignerProblem → Disk → Ended
  remove_key a path problem disk =
      (if a.remove_ok then update disk path none else disk, some (err problem))

  -- The write and the close of the new file.
  unfoldable pub write_key : Attempt Bytes → String → Bytes → Disk → Ended
  write_key a path private disk =
      if not a.write_ok
      then remove_key a path not_written (update disk path (some a.written))
      else if not a.close_ok
      then remove_key a path not_closed (update disk path (some (c.encode private)))
      else (update disk path (some (c.encode private)), some (ok (with_fingerprint private)))

  unfoldable pub open_key : Opened → Attempt Bytes → String → Bytes → Disk → Ended
  unfolding write_key
  open_key created a path private disk = write_key a path private disk
  open_key refused a path private disk = (disk, some (err not_created))
  open_key (taken content) a path private disk = (update disk path (some content), none)

  unfoldable pub generate_key : Option Bytes → Attempt Bytes → String → Disk → Ended
  unfolding open_key
  generate_key none a path disk = (disk, some (err not_generated))
  generate_key (some private) a path disk = open_key a.opened a path private disk

  -- The body, from what the path holds.
  unfoldable pub attempt : Option String → Attempt Bytes → String → Disk → Ended
  unfolding read_key generate_key
  attempt (some text) a path disk =
      (disk, some (if a.readable then read_key text else err not_read))
  attempt none a path disk =
      let made = generate_key a.generated a path disk in
      if not a.readable
      then (disk, some (err not_read))
      else if a.mkdir_ok
      then made
      else (disk, some (err no_directory))

  abbrev pub if_again : Ended → (Disk → Ended) → Ended
  if_again (disk, none) again = again disk
  if_again (disk, some r) again = (disk, some r)

  -- `LoadOrCreateSigner`, for as many runs of the body as there are attempts.
  unfoldable pub load_or_create_signer : List (Attempt Bytes) → String → Disk → Ended
  unfolding attempt
  load_or_create_signer [] path disk = (disk, none)
  load_or_create_signer (a ∷ rest) path disk =
      if_again (attempt (disk path) a path disk) (load_or_create_signer rest path)
