-- ===== src/Teardown/Log.antt =====
-- Reasoning about the log: every call allowed by those before it, and what a step leaves behind
-- when it succeeds.
use appliance_ctl.Common.{
  ◌<>◌, String, Bool, true, false, List, [], ◌∷◌, All, Result, ok, err, ◌≡◌, refl, ◌⊎◌, inl, inr,
  if◌then◌else◌,
}
use appliance_ctl.Common.Effects.{
  Run, ◌>>=◌, ◌>>◌, return, fail_with, attempt, in_context, continue,
}
use appliance_ctl.Evidence.{Status}
use appliance_ctl.Teardown.{Call, System, World, note, perform, checked, checked_call}

-- The call was made.
abbrev pub Made : Call → List Call → Type 0
Made c [] = ⊥
Made c (d ∷ past) = (d ≡ c) ⊎ Made c past

abbrev pub Has : List Call → List Call → Type 0
Has cs past = All (λ c. Made c past) cs

pub Has-more : (cs past : List Call) (d : Call) → Has cs past → Has cs (d ∷ past)
Has-more [] past d h = tt
Has-more (c ∷ cs) past d h = (inr h.0, Has-more cs past d h.1)

module _ (Next : List Call → Call → Type 0) where
  -- Every call is allowed by those before it.
  abbrev pub Allowed : List Call → Type 0
  Allowed [] = Unit
  Allowed (c ∷ past) = Next past c × Allowed past

  -- From an allowed log that has the calls `before`, the run leaves an allowed log, and one that
  -- has the calls `after` if it succeeds.
  pub record Step {A : Type 0} (before after : List Call) (m : Run World A) : Type 0 where
    pub run :
        (w : World)
        → Has before w.calls
        → Allowed w.calls
        → Allowed (m w).world.calls × ((a : A) → (m w).result ≡ ok a → Has after (m w).world.calls)

  pub return-Step : {A : Type 0} {cs : List Call} (a : A) → Step cs cs (return a)
  return-Step a = record { run = λ w h k. (k, λ b e. h) }

  pub fail_with-Step :
      {A : Type 0} {cs ds : List Call} (e : String) → Step {A = A} cs ds (fail_with e)
  fail_with-Step e = record { run = λ w h k. (k, λ b same. cc) }

  pub note-Step :
      {cs : List Call} (id category : String) (status : Status) (message : String)
      → Step cs cs (note id category status message)
  note-Step id category status message = record { run = λ w h k. (k, λ b e. h) }

  pub >>=-Step :
      {A B : Type 0} {cs ds es : List Call} {m : Run World A} {k : A → Run World B}
      → Step cs ds m
      → ((a : A) → Step ds es (k a))
      → Step cs es (m >>= k)
  >>=-Step {A} {B} {ds = ds} {es = es} {m = m} {k = k} s t = record {
    run = λ w h l. let (allowed, after) = s.run w h l in go (m w).world (m w).result allowed after;
  }
    where
      go :
          (w : World) (r : Result String A)
          → Allowed w.calls
          → ((a : A) → r ≡ ok a → Has ds w.calls)
          → Allowed (continue w r k).world.calls
            × ((b : B) → (continue w r k).result ≡ ok b → Has es (continue w r k).world.calls)
      go w (err e) l f = (l, λ b same. cc)
      go w (ok a) l f = (t a).run w (f a refl) l

  pub >>-Step :
      {A B : Type 0} {cs ds es : List Call} {m : Run World A} {k : Run World B}
      → Step cs ds m
      → Step ds es k
      → Step cs es (m >> k)
  >>-Step s t = >>=-Step s (λ a. t)

  -- A call that is allowed behind the calls of `cs`, and is in the log from then on.
  pub perform-Step :
      (sys : System) (cs : List Call) (c : Call)
      → ((past : List Call) → Has cs past → Next past c)
      → Step cs (c ∷ cs) (perform sys c)
  unfolding perform
  perform-Step sys cs c next = record {
    run = λ w h l. ((next w.calls h, l), λ a e. (inl refl, Has-more cs w.calls c h));
  }

  -- A call whose error does not end the run.
  pub attempt-perform-Step :
      (sys : System) (cs : List Call) (c : Call)
      → ((past : List Call) → Has cs past → Next past c)
      → Step cs cs (attempt (perform sys c))
  unfolding perform
  attempt-perform-Step sys cs c next = record {
    run = λ w h l. ((next w.calls h, l), λ a e. Has-more cs w.calls c h);
  }

  -- The last call need not be remembered.
  pub forget-Step :
      {A : Type 0} {c : Call} {cs ds : List Call} {m : Run World A}
      → Step cs (c ∷ ds) m
      → Step cs ds m
  forget-Step s = record {
    run = λ w h l. let (allowed, after) = s.run w h l in (allowed, λ a e. (after a e).1);
  }

  pub if-Step :
      {A : Type 0} {cs ds : List Call} {m k : Run World A} (b : Bool)
      → Step cs ds m
      → Step cs ds k
      → Step cs ds (if b then m else k)
  if-Step true s t = s
  if-Step false s t = t

  -- The same where the branches need the test.
  pub tested-Step :
      {A : Type 0} {cs ds : List Call} {m k : Run World A} (b : Bool)
      → (b ≡ true → Step cs ds m)
      → (b ≡ false → Step cs ds k)
      → Step cs ds (if b then m else k)
  tested-Step true s t = s refl
  tested-Step false s t = t refl

  -- Changing the error, with or without a check of it.
  pub in_context-Step :
      {A : Type 0} {cs ds : List Call} {m : Run World A} (context : String)
      → Step cs ds m
      → Step cs ds (in_context context m)
  in_context-Step {A} {cs} {ds} {m} context s = record {
    run = λ w h l. let (allowed, after) = s.run w h l in go (m w).world (m w).result allowed after;
  }
    where
      step : Result String A → Run World A
      step o = elim o [ err e ↦ fail_with (context <> ": " <> e) | ok a ↦ return a ]

      go :
          (w : World) (r : Result String A)
          → Allowed w.calls
          → ((a : A) → r ≡ ok a → Has ds w.calls)
          → Allowed (step r w).world.calls
            × ((a : A) → (step r w).result ≡ ok a → Has ds (step r w).world.calls)
      go w (err e) l f = (l, λ a same. cc)
      go w (ok a) l f = (l, λ b same. f a refl)

  pub checked-Step :
      (sys : System) {cs ds : List Call} {m : Run World (Unit {0})} (id category context : String)
      → Step cs ds m
      → Step cs ds (attempt m >>= checked sys id category context)
  unfolding checked
  checked-Step sys {cs} {ds} {m} id category context s = record {
    run = λ w h l. let (allowed, after) = s.run w h l in go (m w).world (m w).result allowed after;
  }
    where
      go :
          (w : World) (r : Result String (Unit {0}))
          → Allowed w.calls
          → ((a : Unit {0}) → r ≡ ok a → Has ds w.calls)
          → Allowed (checked sys id category context r w).world.calls
            × ((a : Unit {0})
                → (checked sys id category context r w).result ≡ ok a
                → Has ds (checked sys id category context r w).world.calls)
      go w (err e) l f = (l, λ a same. cc)
      go w (ok a) l f = (l, λ b same. f a refl)

  pub checked_call-Step :
      (sys : System) (cs : List Call) (id category context : String) (c : Call)
      → ((past : List Call) → Has cs past → Next past c)
      → Step cs cs (checked_call sys id category context c)
  unfolding checked_call
  checked_call-Step sys cs id category context c next =
      checked-Step sys id category context (forget-Step (perform-Step sys cs c next))
