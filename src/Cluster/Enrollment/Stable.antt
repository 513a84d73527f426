-- ===== src/Cluster/Enrollment/Stable.antt =====
-- internal/cluster/key.go: the key of LoadOrCreateSigner stays the same.
use appliance_ctl.Common.{
  arith, String, not, Bool, true, false, Option, none, some, List, [], ◌∷◌, ok, err, ◌≡◌, refl, ap,
  eq_refl, if◌then◌else◌,
}
use appliance_ctl.Cluster.Enrollment.{Crypto}
use appliance_ctl.Cluster.Enrollment.Signer.{
  Attempt, Opened, not_read, no_directory, created, refused, taken, Ended, read_key, write_key,
  open_key, generate_key, attempt, if_again, load_or_create_signer, with_fingerprint,
}
use appliance_ctl.Lifecycle.Atomic.{Disk, update}

module _ {Bytes : Type 0} (c : Crypto Bytes) (path : String) (key : Bytes × String) where
  -- A private key that is read back from its text.
  abbrev pub IsStorable : Bytes → Type 0
  IsStorable private = (c.decode (c.encode private) ≡ some private) × (c.size private ≡ 64)

  -- If the key was returned, it is what the path holds.
  abbrev Kept : Ended c → Type 0
  Kept (disk, r) =
      r ≡ some (ok key) → (text : String) × (disk path ≡ some text) × (read_key c text ≡ ok key)

  read_key-encode :
      (private : Bytes)
      → IsStorable private
      → read_key c (c.encode private) ≡ ok (with_fingerprint c private)
  unfolding read_key
  read_key-encode private (back, sized) = rw (back, sized, read_key) refl

  update-same : (disk : Disk) (text : Option String) → update disk path text path ≡ text
  update-same disk text = ground (arith, eq_refl path)

  write_key-Kept :
      (a : Attempt Bytes) (private : Bytes) (disk : Disk)
      → IsStorable private
      → Kept (write_key c a path private disk)
  unfolding write_key
  write_key-Kept a private disk storable h =
      let back = read_key-encode private storable in
      let here = update-same disk (some (c.encode private)) in
      (c.encode private, ground (arith, h, here), ground (arith, h, back))

  -- Every private key that an attempt generates is storable.
  abbrev pub Generates : List (Attempt Bytes) → Type 0
  Generates [] = Unit {0}
  Generates (a ∷ rest) =
      ((private : Bytes) → a.generated ≡ some private → IsStorable private) × Generates rest

  open_key-Kept :
      (opened : Opened) (a : Attempt Bytes) (private : Bytes) (disk : Disk)
      → IsStorable private
      → Kept (open_key c opened a path private disk)
  unfolding open_key
  open_key-Kept created a private disk storable h = write_key-Kept a private disk storable h
  open_key-Kept refused a private disk storable h = ground (arith, h)
  open_key-Kept (taken content) a private disk storable h = ground (arith, h)

  generate_key-Kept :
      (generated : Option Bytes) (a : Attempt Bytes) (disk : Disk)
      → ((private : Bytes) → generated ≡ some private → IsStorable private)
      → Kept (generate_key c generated a path disk)
  unfolding generate_key
  generate_key-Kept none a disk storable h = ground (arith, h)
  generate_key-Kept (some private) a disk storable h =
      open_key-Kept a.opened a private disk (storable private refl) h

  if-Kept : (b : Bool) (e e' : Ended c) → Kept e → Kept e' → Kept (if b then e else e')
  if-Kept true e e' kept kept' h = kept h
  if-Kept false e e' kept kept' h = kept' h

  attempt-Kept :
      (held : Option String) (a : Attempt Bytes) (disk : Disk)
      → disk path ≡ held
      → ((private : Bytes) → a.generated ≡ some private → IsStorable private)
      → Kept (attempt c held a path disk)
  unfolding attempt
  attempt-Kept (some text) a disk here storable h = (text, here, ground (arith, h))
  attempt-Kept none a disk here storable h =
      let made = generate_key c a.generated a path disk in
      let no_directory_left : Ended c = (disk, some (err no_directory)) in
      if-Kept (not a.readable) (disk, some (err not_read))
        (if a.mkdir_ok then made else no_directory_left) (λ e. ground (arith, e))
        (if-Kept a.mkdir_ok made no_directory_left (generate_key-Kept a.generated a disk storable)
          (λ e. ground (arith, e)))
        h

  if_again-Kept :
      (e : Ended c) (again : Disk → Ended c)
      → Kept e
      → ((disk : Disk) → Kept (again disk))
      → Kept (if_again c e again)
  if_again-Kept (disk, none) again kept kept_again h = kept_again disk h
  if_again-Kept (disk, some r) again kept kept_again h = kept h

  load_or_create_signer-Kept :
      (attempts : List (Attempt Bytes)) (disk : Disk)
      → Generates attempts
      → Kept (load_or_create_signer c attempts path disk)
  unfolding load_or_create_signer
  load_or_create_signer-Kept [] disk g h = ground (arith, h)
  load_or_create_signer-Kept (a ∷ rest) disk g h =
      if_again-Kept (attempt c (disk path) a path disk) (load_or_create_signer c rest path)
        (attempt-Kept (disk path) a disk refl g.0)
        (λ later. load_or_create_signer-Kept rest later g.1) h

  attempt-reads :
      (held : Option String) (text : String) (b : Attempt Bytes) (disk : Disk)
      → held ≡ some text
      → b.readable ≡ true
      → attempt c held b path disk ≡ (disk, some (read_key c text))
  unfolding attempt
  attempt-reads held text b disk h r = rw (h, r, attempt) refl

  -- Where every key that is generated is read back from its text, a key that LoadOrCreateSigner
  -- returned is on the disk: each later call that can read the file returns the same key and
  -- fingerprint, and changes nothing.
  pub load_or_create_signer-again :
      (attempts : List (Attempt Bytes)) (disk : Disk) (b : Attempt Bytes)
      (rest : List (Attempt Bytes))
      → Generates attempts
      → (load_or_create_signer c attempts path disk).1 ≡ some (ok key)
      → b.readable ≡ true
      → load_or_create_signer c (b ∷ rest) path (load_or_create_signer c attempts path disk).0
        ≡ ((load_or_create_signer c attempts path disk).0, some (ok key))
  unfolding load_or_create_signer
  load_or_create_signer-again attempts disk b rest g returned r =
      let after = (load_or_create_signer c attempts path disk).0 in
      let (text, here, back) = load_or_create_signer-Kept attempts disk g returned in
      rw (attempt-reads (after path) text b after here r) (ap (λ k. (after, some k)) back)
