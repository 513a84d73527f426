-- ===== src/Verify.antt =====
-- internal/verify: the digest, size and signature of one file (digest.go and signature.go). What
-- the file system holds and the cryptographic packages are the fields of `Host`; an error is its
-- text. The sizes of files are natural numbers.
pub mod Signed
pub mod Artifacts
pub mod Provenance
pub mod Keys
pub mod Vulnerability
use appliance_ctl.Common.{
  String, ◌<>◌, ◌==◌, ℕ, eqb, Bool, not, Option, none, some, Result, ok, err, ◌>>=◌, ◌>>◌, fail_if,
}

-- Why a file cannot be read.
pub data Unread : Type 0 where
  open_error read_error : String → Unread

-- os.Open with io.Copy, os.Stat, os.ReadFile, SHA-256 in hexadecimal, crypto/ed25519, encoding/pem,
-- crypto/x509, and fmt's %d and %q, over the type of byte slices. A key that x509 parses is `none`
-- when it is not an ed25519 key.
pub record Host (B : Type 0) : Type 0 where
  pub contents : String → Result Unread B
  pub size : String → Result String ℕ
  pub read_file : String → Result String B
  pub sha256_hex : B → String
  pub len : B → ℕ
  pub ed25519_verify : B → B → B → Bool
  pub ed25519_sign : B → B → B
  pub ed25519_key_from_seed : B → B
  pub pem_decode : B → Option B
  pub parse_pkix : B → Option (Option B)
  pub parse_pkcs8 : B → Option (Option B)
  pub decimal : ℕ → String
  pub quote : String → String

abbrev pub public_key_size : ℕ
public_key_size = 32

abbrev pub private_key_size : ℕ
private_key_size = 64

abbrev pub seed_size : ℕ
seed_size = 32

abbrev pub signature_size : ℕ
signature_size = 64

pub record PublicKey (B : Type 0) : Type 0 where
  pub id : String
  pub key : B

-- `return fmt.Errorf("<before>: %w", err)`
abbrev pub wrap {ℓ} : {A : Type ℓ} → String → Result String A → Result String A
wrap context (err e) = err (context <> ": " <> e)
wrap context (ok a) = ok a

module _ {B : Type 0} (host : Host B) where
  -- From the answer for the file on.
  unfoldable pub digest_of : String → Result Unread B → Result String String
  digest_of path (err (open_error e)) = err ("verify: open " <> path <> ": " <> e)
  digest_of path (err (read_error e)) = err ("verify: read " <> path <> ": " <> e)
  digest_of path (ok data_) = ok ("sha256:" <> host.sha256_hex data_)

  -- `Digest`
  unfoldable pub digest : String → Result String String
  unfolding digest_of
  digest path = digest_of path (host.contents path)

  -- `VerifyDigest`
  unfoldable pub verify_digest : String → String → Result String (Unit {0})
  unfolding digest
  verify_digest path expected = do
    actual ← digest path
    fail_if (not (actual == expected))
        ("verify: digest mismatch for " <> path <> ": expected " <> expected <> ", got " <> actual)

  -- `VerifySize`
  unfoldable pub verify_size : String → ℕ → Result String (Unit {0})
  verify_size path expected = do
    size ← wrap ("verify: stat " <> path) (host.size path)
    fail_if (not (eqb size expected)) (
        "verify: size mismatch for "
        <> path
        <> ": expected "
        <> host.decimal expected
        <> " bytes, got "
        <> host.decimal size)

  -- `VerifySignature`
  unfoldable pub verify_signature : PublicKey B → B → B → Result String (Unit {0})
  verify_signature pub_key message sig = do
    fail_if (not (eqb (host.len pub_key.key) public_key_size))
        ("verify: public key " <> host.quote pub_key.id <> " has invalid length")
    fail_if (not (eqb (host.len sig) signature_size))
        ("verify: signature has invalid length " <> host.decimal (host.len sig))
    fail_if (not (host.ed25519_verify pub_key.key message sig))
        ("verify: signature does not verify against key " <> host.quote pub_key.id)

  -- `VerifyFileSignature`
  unfoldable pub verify_file_signature : PublicKey B → String → String → Result String (Unit {0})
  unfolding verify_signature
  verify_file_signature pub_key path sig_path = do
    message ← wrap ("verify: read " <> path) (host.read_file path)
    sig ← wrap ("verify: read signature " <> sig_path) (host.read_file sig_path)
    verify_signature pub_key message sig

  -- `Sign`
  unfoldable pub sign : B → B → Result String B
  sign priv message = do
    fail_if (not (eqb (host.len priv) private_key_size))
        ("verify: private key has invalid length " <> host.decimal (host.len priv))
    ok (host.ed25519_sign priv message)
