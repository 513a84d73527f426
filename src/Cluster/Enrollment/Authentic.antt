-- ===== src/Cluster/Enrollment/Authentic.antt =====
-- Which enrollments `Validate` accepts.
use appliance_ctl.Common.{
  String, eq_iff, ℕ, ◌+◌, ◌≤◌, ◌<◌, eqb_iff, true, false, some, ok, ◌≡◌, refl, ◌⊎◌, inl, inr, arith,
  >>=-eq-ok, fail_if->>, Option-cases,
}
use appliance_ctl.Common.Text.{is_blank, has_digest_shape}
use appliance_ctl.Cluster.Enrollment.{
  Enrollment, Crypto, clock_skew, max_validity, unsigned, check_binding, check_period, check_target,
  check_signature, token_fingerprint_of, fingerprint, validate, sign_with, any_empty,
  required_fields,
}

module _ {Bytes : Type 0} (c : Crypto Bytes) where
  -- The artifact bears a signature of its other fields by the key with this fingerprint.
  pub record IsSignedBy (e : Enrollment) (expected_key : String) : Type 0 where
    pub public : Bytes
    pub signature : Bytes
    pub payload : Bytes
    pub public_decodes : c.decode e.signer_public_key ≡ some public
    pub public_size : c.size public ≡ 32
    pub key_given : is_blank expected_key ≡ false
    pub expected : fingerprint c public ≡ expected_key
    pub signature_decodes : c.decode e.signature ≡ some signature
    pub signature_size : c.size signature ≡ 64
    pub marshals : c.marshal (unsigned e) ≡ some payload
    pub verifies : c.verify public payload signature ≡ true

  check_signature-IsSignedBy :
      (e : Enrollment) (expected_key : String)
      → check_signature c e expected_key ≡ ok tt
      → IsSignedBy e expected_key
  unfolding check_signature
  check_signature-IsSignedBy e expected_key h = elim (Option-cases (c.decode e.signer_public_key)) [
    | inl none_key ↦ ground (arith, none_key)
    | inr (public, p) ↦ elim (Option-cases (c.decode e.signature)) [
      | inl none_signature ↦ ground (arith, p, none_signature)
      | inr (signature, s) ↦ elim (Option-cases (c.marshal (unsigned e))) [
        | inl none_payload ↦ ground (arith, p, s, none_payload)
        | inr (payload, m) ↦ record {
          public = public;
          signature = signature;
          payload = payload;
          public_decodes = p;
          public_size = ground (arith, p, s, m);
          key_given = ground (arith, p, s, m);
          expected = ground (arith, p, s, m, eq_iff (fingerprint c public) expected_key);
          signature_decodes = s;
          signature_size = ground (arith, p, s, m);
          marshals = m;
          verifies = ground (arith, p, s, m);
        }
      ]
    ]
  ]

  check_signature_of_IsSignedBy :
      (e : Enrollment) (expected_key : String)
      → IsSignedBy e expected_key
      → check_signature c e expected_key ≡ ok tt
  unfolding check_signature
  check_signature_of_IsSignedBy e expected_key s = ground (
    arith,
    s.public_decodes,
    s.public_size,
    s.key_given,
    s.signature_decodes,
    s.signature_size,
    s.marshals,
    s.verifies,
    (eq_iff (fingerprint c s.public) expected_key).1 s.expected,
  )

  -- What a node may rely on when it joins with the artifact: who signed it, when it is good, which
  -- token it carries, and which kind of node it admits to which topology.
  pub record IsTrusted (e : Enrollment) (now : ℕ) (expected_key : String) : Type 0 where
    pub signed : IsSignedBy e expected_key
    pub not_expired : now < e.expires_at
    pub not_early : e.issued_at ≤ now + clock_skew
    pub short_lived : e.expires_at ≤ e.issued_at + max_validity
    pub same_token : token_fingerprint_of c e.k3s_token ≡ e.token_fingerprint
    pub bound :
        ((e.version ≡ 1)
          × (e.deployment_topology ≡ "")
          × ((e.node_role ≡ "worker") ⊎ (e.node_role ≡ "inference") ⊎ (e.node_role ≡ "prime")))
        ⊎ ((e.version ≡ 2)
            × (e.deployment_topology ≡ "embedded-etcd-v1")
            × (e.node_role ≡ "server")
            × (has_digest_shape e.inventory_fingerprint ≡ true))

  check_target-token :
      (e : Enrollment)
      → check_target c e ≡ ok tt
      → token_fingerprint_of c e.k3s_token ≡ e.token_fingerprint
  unfolding check_target
  check_target-token e h =
      ground (arith, eq_iff (token_fingerprint_of c e.k3s_token) e.token_fingerprint)

  check_target-role :
      (e : Enrollment)
      → check_target c e ≡ ok tt
      → e.version ≡ 1
      → (e.node_role ≡ "worker") ⊎ (e.node_role ≡ "inference") ⊎ (e.node_role ≡ "prime")
  unfolding check_target
  check_target-role e h v = ground (
    arith,
    eqb_iff e.version 1,
    eq_iff e.node_role "worker",
    eq_iff e.node_role "inference",
    eq_iff e.node_role "prime",
  )

  check_binding-version :
      (e : Enrollment)
      → check_binding e ≡ ok tt
      → ((e.version ≡ 1) × (e.deployment_topology ≡ ""))
        ⊎ ((e.version ≡ 2)
            × (e.deployment_topology ≡ "embedded-etcd-v1")
            × (e.node_role ≡ "server")
            × (has_digest_shape e.inventory_fingerprint ≡ true))
  unfolding check_binding
  check_binding-version e h = ground (
    arith,
    eqb_iff e.version 1,
    eqb_iff e.version 2,
    eq_iff e.deployment_topology "",
    eq_iff e.deployment_topology "embedded-etcd-v1",
    eq_iff e.node_role "server",
  )

  check_period-bounds :
      (e : Enrollment) (now : ℕ)
      → check_period e now ≡ ok tt
      → (now < e.expires_at)
        × (e.issued_at ≤ now + clock_skew)
        × (e.expires_at ≤ e.issued_at + max_validity)
  unfolding check_period
  check_period-bounds e now h =
      let (_, h1) = fail_if->> (any_empty (required_fields e)) _ _ h in ground (arith, h1)

  -- An enrollment that `Validate` accepts is signed by the expected key, has not expired, was not
  -- issued more than five minutes ahead, is good for at most 24 hours, carries the token that it
  -- names, and admits a server to the embedded-etcd topology or another node to no topology.
  pub validate-IsTrusted :
      (e : Enrollment) (now : ℕ) (expected_key : String)
      → validate c e now expected_key ≡ ok tt
      → IsTrusted e now expected_key
  unfolding validate
  validate-IsTrusted e now expected_key h =
      let (_, binding, h1) = >>=-eq-ok (check_binding e) _ h in
      let (_, period, h2) = >>=-eq-ok (check_period e now) _ h1 in
      let (_, target, last) = >>=-eq-ok (check_target c e) _ h2 in
      let (live, early, short) = check_period-bounds e now period in
      record {
        signed = check_signature-IsSignedBy e expected_key last;
        not_expired = live;
        not_early = early;
        short_lived = short;
        same_token = check_target-token e target;
        bound = elim (check_binding-version e binding) [
          | inl (v, t) ↦ inl (v, t, check_target-role e target v)
          | inr embedded ↦ inr embedded
        ];
      }

  -- What the libraries document of a key pair and its signature of a payload.
  pub record Signs (private payload : Bytes) : Type 0 where
    pub private_size : c.size private ≡ 64
    pub public_size : c.size (c.public_of private) ≡ 32
    pub signature_size : c.size (c.sign private payload) ≡ 64
    pub public_decodes : c.decode (c.encode (c.public_of private)) ≡ some (c.public_of private)
    pub signature_decodes :
        c.decode (c.encode (c.sign private payload)) ≡ some (c.sign private payload)
    pub verifies : c.verify (c.public_of private) payload (c.sign private payload) ≡ true

  -- The artifact that signing makes.
  abbrev pub signed_artifact : Bytes → Bytes → Enrollment → Enrollment
  signed_artifact private payload e = record e {
    signer_public_key = c.encode (c.public_of private);
    signature = c.encode (c.sign private payload);
  }

  -- Signing succeeds with a key of the right size, and `Validate` accepts the artifact under the
  -- fingerprint of the key's public half, if it passes the checks that do not read the signature.
  pub sign_with-validate :
      (private payload : Bytes) (e : Enrollment) (now : ℕ)
      → Signs private payload
      → c.marshal (unsigned (signed_artifact private payload e)) ≡ some payload
      → is_blank (fingerprint c (c.public_of private)) ≡ false
      → check_binding (signed_artifact private payload e) ≡ ok tt
      → check_period (signed_artifact private payload e) now ≡ ok tt
      → check_target c (signed_artifact private payload e) ≡ ok tt
      → (sign_with c private e ≡ ok (signed_artifact private payload e))
        × (validate c (signed_artifact private payload e) now (fingerprint c (c.public_of private))
            ≡ ok tt)
  unfolding sign_with validate unsigned
  sign_with-validate private payload e now s marshals named binding period target =
      let signed = signed_artifact private payload e in
      let good : IsSignedBy signed (fingerprint c (c.public_of private)) = record {
        public = c.public_of private;
        signature = c.sign private payload;
        payload = payload;
        public_decodes = s.public_decodes;
        public_size = s.public_size;
        key_given = named;
        expected = refl;
        signature_decodes = s.signature_decodes;
        signature_size = s.signature_size;
        marshals = marshals;
        verifies = s.verifies;
      } in
      (
        ground (arith, s.private_size, marshals),
        rw (binding, period, target)
            (check_signature_of_IsSignedBy signed (fingerprint c (c.public_of private)) good),
      )
