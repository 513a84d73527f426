-- ===== src/Cluster/Enrollment/Files.antt =====
-- internal/cluster/enrollment.go: WriteEnrollment, ReadEnrollment and NewNonce. encoding/json is
-- `marshal` and `unmarshal`, and base64.RawURLEncoding `encode_url`.
use appliance_ctl.Common.{
  arith, String, Bool, true, false, Option, none, some, [], ◌∷◌, Result, ok, err, ◌>>=◌,
  from_option, if◌then◌else◌, ◌≡◌, ◌≢◌, refl, ap, ◌∙◌, sym,
}
use appliance_ctl.Common.Text.{is_blank}
use appliance_ctl.Cluster.Enrollment.{Enrollment}
use appliance_ctl.Lifecycle.Atomic.{Disk, Outcomes, Trace, write_file_atomic}
use appliance_ctl.Lifecycle.Atomic.Safety.{write_file_atomic-old_or_new}

pub data FileProblem : Type 0 where
  not_read not_parsed no_randomness : FileProblem

abbrev refused : Disk → Trace
refused disk = record { disks = disk ∷ []; final = disk; success = false }

module _ (marshal : Enrollment → Option String) (unmarshal : String → Option Enrollment) where
  unfoldable write_text : Option String → Bool → Outcomes → String → String → Disk → Trace
  write_text none made o tmp path disk = refused disk
  write_text (some text) made o tmp path disk =
      if made then write_file_atomic o tmp path text disk else refused disk

  -- `WriteEnrollment`; `made` is whether the directory could be made.
  unfoldable pub write_enrollment : Bool → Outcomes → String → String → Enrollment → Disk → Trace
  unfolding write_text
  write_enrollment made o tmp path e disk =
      let written = write_text (marshal e) made o tmp path disk in
      if is_blank path then refused disk else written

  -- `ReadEnrollment`; `readable` is whether a file that is there can be read.
  unfoldable pub read_enrollment : Bool → String → Disk → Result FileProblem Enrollment
  read_enrollment readable path disk = do
    text ← from_option not_read (if readable then disk path else none)
    from_option not_parsed (unmarshal text)

  write_enrollment-success :
      (made : Bool) (o : Outcomes) (tmp path text : String) (e : Enrollment) (disk : Disk)
      → marshal e ≡ some text
      → (write_enrollment made o tmp path e disk).success ≡ true
      → write_enrollment made o tmp path e disk ≡ write_file_atomic o tmp path text disk
  unfolding write_enrollment write_text
  write_enrollment-success made o tmp path text e disk m h = ground (arith, m, h)

  -- After a WriteEnrollment that returned nil, ReadEnrollment returns what was written, if the
  -- decoder reads it back, and the temporary file's name is another one.
  write_enrollment-read_enrollment :
      (made : Bool) (o : Outcomes) (tmp path text : String) (e : Enrollment) (disk : Disk)
      → tmp ≢ path
      → marshal e ≡ some text
      → unmarshal text ≡ some e
      → (write_enrollment made o tmp path e disk).success ≡ true
      → read_enrollment true path (write_enrollment made o tmp path e disk).final ≡ ok e
  unfolding read_enrollment
  write_enrollment-read_enrollment made o tmp path text e disk fresh m u h =
      let same = write_enrollment-success made o tmp path text e disk m h in
      let success : (write_file_atomic o tmp path text disk).success ≡ true =
        sym (ap (λ t. t.success) same) ∙ h in
      let content : (write_file_atomic o tmp path text disk).final path ≡ some text =
        (write_file_atomic-old_or_new o tmp path text disk fresh).1
        ∙ ap (λ b. if b then some text else disk path) success in
      rw (same, content, u) refl

-- `NewNonce`, from the random bytes.
unfoldable pub new_nonce :
    {Bytes : Type 0} → (Bytes → String) → Option Bytes → Result FileProblem String
new_nonce encode_url none = err no_randomness
new_nonce encode_url (some bytes) = ok (encode_url bytes)
