-- ===== src/Verify/Signed.antt =====
-- When the checks of one file succeed.
use appliance_ctl.Common.{
  String, ◌<>◌, ℕ, true, Result, ok, ◌≡◌, refl, ◌↔◌, inl, inr, eq_iff, arith, Result-cases, sym,
  ◌∙◌,
}
use appliance_ctl.Verify.{
  Host, PublicKey, Unread, open_error, read_error, public_key_size, signature_size, digest_of,
  digest, verify_digest, verify_size, verify_signature, verify_file_signature,
}

module _ {B : Type 0} (host : Host B) where
  -- The file can be read, and the digest of what it holds is `expected`.
  abbrev pub HasDigest : String → String → Type 0
  HasDigest path expected =
      (message : B) × (host.contents path ≡ ok message)
      × (("sha256:" <> host.sha256_hex message) ≡ expected)

  -- Both files can be read, the lengths are those of ed25519, and the signature verifies.
  abbrev pub IsSigned : PublicKey B → String → String → Type 0
  IsSigned pub_key path sig_path =
      (message : B) × (sig : B) × (host.read_file path ≡ ok message)
      × (host.read_file sig_path ≡ ok sig)
      × (host.len pub_key.key ≡ public_key_size)
      × (host.len sig ≡ signature_size)
      × (host.ed25519_verify pub_key.key message sig ≡ true)

  digest_same :
      (m x : B) (expected : String)
      → Path (Result Unread B) (ok m) (ok x)
      → ("sha256:" <> host.sha256_hex x) ≡ expected
      → ("sha256:" <> host.sha256_hex m) ≡ expected
  digest_same m x expected e same = cc

  pub verify_digest_iff :
      (path expected : String)
      → (verify_digest host path expected ≡ ok tt) ↔ HasDigest path expected
  unfolding verify_digest digest digest_of
  verify_digest_iff path expected = elim (Result-cases (host.contents path)) [
    | inl (open_error e, r) ↦ (λ h. cc, λ h. cc)
    | inl (read_error e, r) ↦ (λ h. cc, λ h. cc)
    | inr (m, r) ↦ rw r (
      λ h. (m, refl, ground (arith, eq_iff ("sha256:" <> host.sha256_hex m) expected)),
      λ (x, e, same). ground (
        arith,
        eq_iff ("sha256:" <> host.sha256_hex m) expected,
        digest_same m x expected e same,
      ),
    )
  ]

  pub verify_size_iff :
      (path : String) (expected : ℕ)
      → (verify_size host path expected ≡ ok tt) ↔ (host.size path ≡ ok expected)
  unfolding verify_size
  verify_size_iff path expected = ground (arith, Result-cases (host.size path))

  verify_signature_iff :
      (pub_key : PublicKey B) (message sig : B)
      → (verify_signature host pub_key message sig ≡ ok tt) ↔ (
          (host.len pub_key.key ≡ public_key_size)
          × (host.len sig ≡ signature_size)
          × (host.ed25519_verify pub_key.key message sig ≡ true))
  unfolding verify_signature
  verify_signature_iff pub_key message sig = (λ h. ground (arith, h), λ h. ground (arith, h))

  -- What was read is what `IsSigned` speaks of.
  verify_signature-same :
      (pub_key : PublicKey B) (m n sig s : B)
      → Path (Result String B) (ok m) (ok n)
      → Path (Result String B) (ok sig) (ok s)
      → verify_signature host pub_key n s ≡ ok tt
      → verify_signature host pub_key m sig ≡ ok tt
  verify_signature-same pub_key m n sig s e e' h = cc

  pub verify_file_signature_iff :
      (pub_key : PublicKey B) (path sig_path : String)
      → (verify_file_signature host pub_key path sig_path ≡ ok tt) ↔ IsSigned pub_key path sig_path
  unfolding verify_file_signature
  verify_file_signature_iff pub_key path sig_path = elim (Result-cases (host.read_file path)) [
    | inl (e, r) ↦ (λ h. ground (arith, h, r), λ (m, s, q, q', k, l, v). cc)
    | inr (m, r) ↦ elim (Result-cases (host.read_file sig_path)) [
      | inl (e, r') ↦ (λ h. ground (arith, h, r, r'), λ (n, s, q, q', k, l, v). cc)
      | inr (sig, r') ↦ (
        λ h.
            let (k, l, v) = (verify_signature_iff pub_key m sig).0 (rw r at (rw r' at h)) in
            (m, sig, r, r', k, l, v),
        λ (n, s, q, q', k, l, v).
            rw (r, r')
              (verify_signature-same pub_key m n sig s (sym r ∙ q) (sym r' ∙ q')
                ((verify_signature_iff pub_key n s).1 (k, l, v))),
      )
    ]
  ]
