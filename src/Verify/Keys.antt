-- ===== src/Verify/Keys.antt =====
-- internal/verify/signature.go: LoadPublicKey and LoadPrivateKey.
use appliance_ctl.Common.{
  String, ◌<>◌, eqb, if◌then◌else◌, Option, none, some, Result, ok, err, ◌>>=◌, from_option,
}
use appliance_ctl.Verify.{Host, PublicKey, public_key_size, private_key_size, seed_size, wrap}

module _ {B : Type 0} (host : Host B) where
  -- From the answer of x509.ParsePKIXPublicKey on.
  unfoldable pub public_key_of :
      String → String → B → Option (Option B) → Result String (PublicKey B)
  public_key_of id path block none =
      if eqb (host.len block) public_key_size
      then ok (record { id = id; key = block })
      else err ("verify: " <> path <> " is not a valid ed25519 public key")
  public_key_of id path block (some none) =
      err ("verify: " <> path <> " does not contain an ed25519 public key")
  public_key_of id path block (some (some key)) = ok (record { id = id; key = key })

  -- `LoadPublicKey`
  unfoldable pub load_public_key : String → String → Result String (PublicKey B)
  unfolding public_key_of
  load_public_key id path = do
    data_ ← wrap ("verify: read public key " <> path) (host.read_file path)
    block ← from_option ("verify: " <> path <> " is not PEM-encoded") (host.pem_decode data_)
    public_key_of id path block (host.parse_pkix block)

  -- From the answer of x509.ParsePKCS8PrivateKey on.
  unfoldable pub private_key_of : String → B → Option (Option B) → Result String B
  private_key_of path block none =
      if eqb (host.len block) seed_size
      then ok (host.ed25519_key_from_seed block)
      else if eqb (host.len block) private_key_size
      then ok block
      else err ("verify: " <> path <> " is not a valid ed25519 private key")
  private_key_of path block (some none) =
      err ("verify: " <> path <> " does not contain an ed25519 private key")
  private_key_of path block (some (some key)) = ok key

  -- `LoadPrivateKey`
  unfoldable pub load_private_key : String → Result String B
  unfolding private_key_of
  load_private_key path = do
    data_ ← wrap ("verify: read private key " <> path) (host.read_file path)
    block ← from_option ("verify: " <> path <> " is not PEM-encoded") (host.pem_decode data_)
    private_key_of path block (host.parse_pkcs8 block)
