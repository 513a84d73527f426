-- ===== src/Backup/Starts.antt =====
-- Functions that start K3s before they return an error.
use appliance_ctl.Common.{String, Option, none, some, List, [], ◌∷◌, Result, ok, err, ◌≡◌, refl}
use appliance_ctl.Common.Effects.{Outcome, Run, ◌>>=◌, continue}
use appliance_ctl.Backup.{Call, enable_and_start, System, World, answered, perform, bail}

-- The last call that was made.
abbrev pub Newest : Call → List Call → Type 0
Newest c [] = ⊥
Newest c (d ∷ past) = d ≡ c

-- The last call was made, and succeeded.
abbrev pub Answered : System → Call → List Call → Type 0
Answered sys c [] = ⊥
Answered sys c (d ∷ past) = (d ≡ c) × (sys.fails past c ≡ none)

-- If an error is returned, the last call is the start of the unit.
abbrev pub StartsOnError : {A : Type 0} → String → Outcome World A → Type 0
StartsOnError unit o =
    (e : String) → o.result ≡ err e → Newest (enable_and_start unit) o.world.calls

-- The last call is the start of the unit, and it succeeded behind a result without an error.
pub record IsRestarted {A : Type 0} (sys : System) (unit : String) (Clean : A → Type 0)
    (o : Outcome World A) : Type 0 where
  pub newest : Newest (enable_and_start unit) o.world.calls
  pub started :
      (a : A) → o.result ≡ ok a → Clean a → Answered sys (enable_and_start unit) o.world.calls

module _ (sys : System) (unit : String) where
  answered-Newest :
      (c : Call) (w : World) (answer : Option String)
      → Newest c (answered sys c w answer).world.calls
  unfolding answered
  answered-Newest c w none = refl
  answered-Newest c w (some problem) = refl

  pub perform-Newest : (c : Call) (w : World) → Newest c (perform sys c w).world.calls
  unfolding perform
  perform-Newest c w = answered-Newest c w (sys.fails w.calls c)

  answered-Answered :
      (c : Call) (w : World) (answer : Option String)
      → sys.fails w.calls c ≡ answer
      → (answered sys c w answer).result ≡ ok tt
      → Answered sys c (answered sys c w answer).world.calls
  unfolding answered
  answered-Answered c w none e h = (refl, e)
  answered-Answered c w (some problem) e h = cc

  pub perform-Answered :
      (c : Call) (w : World)
      → (perform sys c w).result ≡ ok tt
      → Answered sys c (perform sys c w).world.calls
  unfolding perform
  perform-Answered c w h = answered-Answered c w (sys.fails w.calls c) refl h

  pub bail-StartsOnError :
      {A : Type 0} (e : String) (w : World) → StartsOnError {A = A} unit (bail sys unit e w)
  unfolding bail
  bail-StartsOnError e w e' h = perform-Newest (enable_and_start unit) w

-- What holds behind both: the errors of the first, and whatever the rest does.
pub >>=-either :
    {A B : Type 0} (m : Run World A) (k : A → Run World B) (Q : Outcome World B → Type 0)
    (w : World)
    → ((e : String) → (m w).result ≡ err e → Q (record { world = (m w).world; result = err e }))
    → ((a : A) → (m w).result ≡ ok a → Q (k a (m w).world))
    → Q ((m >>= k) w)
>>=-either {A} {B} m k Q w on_error on_value = go (m w).result on_error on_value
  where
    go :
        (r : Result String A)
        → ((e : String) → r ≡ err e → Q (record { world = (m w).world; result = err e }))
        → ((a : A) → r ≡ ok a → Q (k a (m w).world))
        → Q (continue (m w).world r k)
    go (err e) f g = f e refl
    go (ok a) f g = g a refl

-- An early error of a step, or what the rest of the run does.
pub step-IsRestarted :
    {A B : Type 0} (sys : System) (unit : String) (Clean : B → Type 0) (m : Run World A)
    (k : A → Run World B) (w : World)
    → ((w : World) → StartsOnError unit (m w))
    → ((a : A) (w' : World) → IsRestarted sys unit Clean (k a w'))
    → IsRestarted sys unit Clean ((m >>= k) w)
step-IsRestarted sys unit Clean m k w starts rest =
    >>=-either m k (IsRestarted sys unit Clean) w
      (λ e h. record { newest = starts w e h; started = λ a h'. cc }) (λ a h. rest a (m w).world)
