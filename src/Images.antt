-- ===== src/Images.antt =====
-- internal/images: what the importer reads of containerd, and the wait for
-- containerd (preload.go). The importing of an archive is left out.
pub mod Ready
use appliance_ctl.Common.{
  String, ◌<>◌, ℕ, zero, suc, ◌+◌, ltb, leb, Bool, true, false, ◌||◌, if◌then◌else◌, Option, none,
  some, List, [], ◌∷◌, ◌++◌, contains, Result, ok, err, ◌>>=◌,
}
use appliance_ctl.Common.Split.{split}
use appliance_ctl.Common.Text.{trim_space, is_empty, join}
use appliance_ctl.K3s.Inspect.{sort_texts}

-- A set of references is the list of its members, each once.
abbrev pub lines_of : List String → List String
lines_of [] = []
lines_of (line ∷ rest) =
    let name = trim_space line in
    let more = lines_of rest in if is_empty name || contains name more then more else name ∷ more

-- `Imported`, from the answer of `ctr image ls -q`.
unfoldable pub imported : Result String String → Result String (List String)
unfolding split trim_space
imported (err e) = err ("images: list imported images: " <> e)
imported (ok out) = ok (lines_of (split b'\n' (trim_space out)))

abbrev pub without : List String → List String → List String
without before [] = []
without before (ref ∷ rest) =
    let more = without before rest in if contains ref before then more else ref ∷ more

-- `newImageReferences`
unfoldable pub new_image_references : List String → List String → List String
unfolding sort_texts
new_image_references before after = sort_texts (without before after)

-- The clock and the context of a wait: the answer to the n-th listing, the time behind it, and the
-- error of the context if that ended the sleep that follows.
pub record Waiting : Type 0 where
  pub reply : ℕ → Result String String
  pub time : ℕ → ℕ
  pub ended : ℕ → Option String
  pub duration : ℕ → String

module _ (w : Waiting) (timeout : ℕ) where
  -- Behind a listing that failed.
  unfoldable pub after_failure :
      String
      → Bool
      → Option String
      → Option (Result String (Unit {0}))
      → Option (Result String (Unit {0}))
  after_failure e true ended rest =
      some
        (err ("images: containerd did not become ready within " <> w.duration timeout <> ": " <> e))
  after_failure e false (some problem) rest = some (err problem)
  after_failure e false none rest = rest

  abbrev pub after_listing :
      Result String (List String)
      → Bool
      → Option String
      → Option (Result String (Unit {0}))
      → Option (Result String (Unit {0}))
  after_listing (ok refs) late ended rest = some (ok tt)
  after_listing (err e) late ended rest = after_failure e late ended rest

  -- The loop of `WaitReady` from the n-th listing on, for at most `fuel` listings.
  unfoldable pub poll : ℕ → ℕ → ℕ → Option (Result String (Unit {0}))
  unfolding imported after_failure
  poll zero deadline n = none
  poll (suc fuel) deadline n =
      let rest = poll fuel deadline (suc n) in
      after_listing (imported (w.reply n)) (ltb deadline (w.time n)) (w.ended n) rest

  -- `WaitReady`, from the time at which it is called.
  unfoldable pub wait_ready : ℕ → ℕ → Option (Result String (Unit {0}))
  unfolding poll
  wait_ready fuel called = poll fuel (called + timeout) 0
