-- ===== src/Images/Ready.antt =====
-- internal/images/preload.go: WaitReady returns.
use appliance_ctl.Common.{
  arith, String, ℕ, zero, suc, ◌+◌, ◌*◌, ◌≤◌, ◌<◌, ltb, Bool, true, false, Option, none, some, List,
  Result, ok, err, ◌≡◌, refl,
}
use appliance_ctl.Images.{Waiting, imported, after_failure, after_listing, poll, wait_ready}

-- A sleep takes the interval at least.
abbrev pub Sleeps : Waiting → ℕ → Type 0
Sleeps w interval = (n : ℕ) → w.time n + interval ≤ w.time (suc n)

-- Containerd listed its images.
abbrev pub Answered : Waiting → Type 0
Answered w = (n : ℕ) × (refs : List String) × (imported (w.reply n) ≡ ok refs)

abbrev pub Returns : Waiting → Option (Result String (Unit {0})) → Type 0
Returns w o = (r : Result String (Unit {0})) × (o ≡ some r) × (r ≡ ok tt → Answered w)

module _ (w : Waiting) (timeout : ℕ) where
  after_listing-Returns :
      (n : ℕ) (listing : Result String (List String)) (late : Bool) (ended : Option String)
      (rest : Option (Result String (Unit {0})))
      → imported (w.reply n) ≡ listing
      → (late ≡ false → Returns w rest)
      → Returns w (after_listing w timeout listing late ended rest)
  unfolding after_failure
  after_listing-Returns n (ok refs) late ended rest listed h =
      (ok tt, refl, λ same. (n, refs, listed))
  after_listing-Returns n (err e) true ended rest listed h = (_, refl, λ same. cc)
  after_listing-Returns n (err e) false (some problem) rest listed h =
      (err problem, refl, λ same. cc)
  after_listing-Returns n (err e) false none rest listed h = h refl

  module _ (interval : ℕ) (sleeps : Sleeps w interval) where
    -- The listings that are left reach the deadline.
    poll-Returns :
        (fuel deadline n : ℕ)
        → deadline < w.time n + fuel * interval
        → Returns w (poll w timeout (suc fuel) deadline n)
    unfolding poll
    poll-Returns zero deadline n h =
        after_listing-Returns n (imported (w.reply n)) (ltb deadline (w.time n)) (w.ended n)
          (poll w timeout 0 deadline (suc n)) refl (λ early. ground arith)
    poll-Returns (suc fuel) deadline n h =
        let slept = sleeps n in
        after_listing-Returns n (imported (w.reply n)) (ltb deadline (w.time n)) (w.ended n)
          (poll w timeout (suc fuel) deadline (suc n)) refl
          (λ early. poll-Returns fuel deadline (suc n) (omega arith))

    -- Where every sleep takes the interval at least and k intervals are longer than the timeout,
    -- WaitReady returns behind at most k + 1 listings, whatever they and the context answer, and it
    -- returns nil only if containerd listed its images.
    pub wait_ready-Returns :
        (called k : ℕ)
        → called ≤ w.time 0
        → timeout < k * interval
        → Returns w (wait_ready w timeout (suc k) called)
    unfolding wait_ready
    wait_ready-Returns called k now enough = poll-Returns k (called + timeout) 0 (omega arith)
