-- ===== src/Upgrade/Protocol/Holds.antt =====
-- Reasoning about the calls of an upgrade: what holds of the log in front of a run, behind its
-- value, and behind its error.
use appliance_ctl.Common.{
  String, ◌<>◌, Bool, true, false, List, [], ◌∷◌, ◌++◌, map, Result, ok, err, ◌≡◌, refl,
  if◌then◌else◌,
}
use mathlib.Core.Path.{subst}
use appliance_ctl.Backup as Recovery
use appliance_ctl.Common.Effects.{
  Outcome, Run, ◌>>=◌, ◌>>◌, return, fail_with, attempt, in_context, continue,
}
use appliance_ctl.Evidence.{Check, Status}
use appliance_ctl.Verify.Artifacts.{check_of}
use appliance_ctl.Upgrade.Host.{
  Call, in_backup, clean_values, System, World, Pending, add_checks, note, set_pending, ask,
  operate, deferred, or_fail, front, Answer,
}

abbrev pub Assertion : Type 1
Assertion = List Call → Type 0

-- What holds of an outcome.
abbrev pub Behind : {A : Type 0} → (A → Assertion) → (String → Assertion) → Outcome World A → Type 0
Behind {A} Q E o =
    ((a : A) → o.result ≡ ok a → Q a o.world.calls)
    × ((e : String) → o.result ≡ err e → E e o.world.calls)

pub record Holds {A : Type 0} (P : Assertion) (Q : A → Assertion) (E : String → Assertion)
    (m : Run World A) : Type 0 where
  pub run : (w : World) → P w.calls → Behind Q E (m w)

ok_same : {A : Type 0} {a b : A} → Path (Result String A) (ok a) (ok b) → a ≡ b
ok_same h = cc

err_same : {A : Type 0} {a b : String} → Path (Result String A) (err a) (err b) → a ≡ b
err_same h = cc

pub value-Behind :
    {A : Type 0} (Q : A → Assertion) (E : String → Assertion) (w : World) (a : A)
    → Q a w.calls
    → Behind Q E (record { world = w; result = ok a })
value-Behind Q E w a h = (λ b same. subst (λ x. Q x w.calls) (ok_same same) h, λ e same. cc)

pub error-Behind :
    {A : Type 0} (Q : A → Assertion) (E : String → Assertion) (w : World) (e : String)
    → E e w.calls
    → Behind Q E (record { world = w; result = err e })
error-Behind {A} Q E w e h =
    (λ b same. cc, λ x same. subst (λ y. E y w.calls) (err_same {A = A} same) h)

pub return-Holds :
    {A : Type 0} {Q : A → Assertion} {E : String → Assertion} (a : A) → Holds (Q a) Q E (return a)
return-Holds {Q = Q} {E = E} a = record { run = λ w h. value-Behind Q E w a h }

pub fail_with-Holds :
    {A : Type 0} {Q : A → Assertion} {E : String → Assertion} (e : String)
    → Holds (E e) Q E (fail_with e)
fail_with-Holds {Q = Q} {E = E} e = record { run = λ w h. error-Behind Q E w e h }

pub add_checks-Holds :
    {P : Assertion} {E : String → Assertion} (checks : List Check)
    → Holds P (λ done. P) E (add_checks checks)
unfolding add_checks
add_checks-Holds {P} {E} checks = record {
  run = λ w h. value-Behind (λ done. P) E (record w { checks = w.checks ++ checks }) tt h;
}

pub note-Holds :
    {P : Assertion} {E : String → Assertion} (id category : String) (status : Status)
    (message : String)
    → Holds P (λ done. P) E (note id category status message)
unfolding note
note-Holds id category status message = add_checks-Holds (check_of id category status message ∷ [])

pub set_pending-Holds :
    {P : Assertion} {E : String → Assertion} (f : Pending → Pending)
    → Holds P (λ done. P) E (set_pending f)
unfolding set_pending
set_pending-Holds {P} {E} f = record {
  run = λ w h. value-Behind (λ done. P) E (record w { pending = f w.pending }) tt h;
}

pub ask-Holds :
    {P R : Assertion} {E : String → Assertion} (sys : System) (c : Call)
    → ((past : List Call) → P past → R (c ∷ past))
    → Holds P (λ a. R) E (ask sys c)
unfolding ask
ask-Holds sys c next = record { run = λ w h. (λ a same. next w.calls h, λ e same. cc) }

pub >>=-Holds :
    {A B : Type 0} {P : Assertion} {Q : A → Assertion} {R : B → Assertion} {E : String → Assertion}
    {m : Run World A} {k : A → Run World B}
    → Holds P Q E m
    → ((a : A) → Holds (Q a) R E (k a))
    → Holds P R E (m >>= k)
>>=-Holds {A} {B} {Q = Q} {R = R} {E = E} {m = m} {k = k} first rest = record {
  run = λ w h. go (m w).world (m w).result (first.run w h);
}
  where
    go :
        (w : World) (r : Result String A)
        → ((a : A) → r ≡ ok a → Q a w.calls) × ((e : String) → r ≡ err e → E e w.calls)
        → Behind R E (continue w r k)
    go w (err e) h = error-Behind R E w e (h.1 e refl)
    go w (ok a) h = (rest a).run w (h.0 a refl)

pub >>-Holds :
    {A B : Type 0} {P P' : Assertion} {R : B → Assertion} {E : String → Assertion} {m : Run World A}
    {k : Run World B}
    → Holds P (λ a. P') E m
    → Holds P' R E k
    → Holds P R E (m >> k)
>>-Holds first rest = >>=-Holds first (λ a. rest)

pub if-Holds :
    {A : Type 0} {P : Assertion} {Q : A → Assertion} {E : String → Assertion} {m k : Run World A}
    (test : Bool)
    → Holds P Q E m
    → Holds P Q E k
    → Holds P Q E (if test then m else k)
if-Holds true first second = first
if-Holds false first second = second

-- A run whose error is looked at.
pub attempt-Holds :
    {A : Type 0} {P R : Assertion} {E : String → Assertion} {m : Run World A}
    → Holds P (λ a. R) (λ e. R) m
    → Holds P (λ a. R) E (attempt m)
attempt-Holds {A} {P} {R} {E} {m} h = record {
  run = λ w p. (λ a same. go (m w).world (m w).result (h.run w p), λ e same. cc);
}
  where
    go :
        (w : World) (r : Result String A)
        → ((a : A) → r ≡ ok a → R w.calls) × ((e : String) → r ≡ err e → R w.calls)
        → R w.calls
    go w (err e) f = f.1 e refl
    go w (ok a) f = f.0 a refl

-- Where the error changes nothing in what is known of the log.
pub in_context-Holds :
    {A : Type 0} {P R : Assertion} {m : Run World A} (context : String)
    → Holds P (λ a. R) (λ e. R) m
    → Holds P (λ a. R) (λ e. R) (in_context context m)
in_context-Holds {A} {P} {R} {m} context h = >>=-Holds (attempt-Holds {E = λ e. R} h) go
  where
    go :
        (o : Result String A)
        → Holds {A = A} R
            (λ a. R)
            (λ e. R)
            (elim o [ err e ↦ fail_with (context <> ": " <> e) | ok a ↦ return a ])
    go (err e) = fail_with-Holds (context <> ": " <> e)
    go (ok a) = return-Holds a

pub or_fail-Holds :
    {A : Type 0} {P : Assertion} {E : String → Assertion} (context : String) (r : Result String A)
    → ((e : String) → Holds {A = A} P (λ a. P) E (fail_with (context <> e)))
    → Holds P (λ a. P) E (or_fail context r)
or_fail-Holds {P = P} {E = E} context (err e) fails = fails e
or_fail-Holds {P = P} {E = E} context (ok a) fails = return-Holds a

-- A run that looks at the host.
pub look-Holds :
    {A : Type 0} {P : Assertion} {Q : A → Assertion} {E : String → Assertion}
    {m : World → Run World A}
    → ((w : World) → Holds P Q E (m w))
    → Holds P Q E (λ w. m w w)
look-Holds h = record { run = λ w p. (h w).run w p }

-- An operation of internal/backup, whether it fails or not.
pub operate-Holds :
    {A : Type 0} {P R : Assertion} (sys : System) (c : Recovery.World → Call)
    (m : Recovery.System → Run Recovery.World A)
    → ((past : List Call) (seen : Recovery.World)
        → P past
        → R (map in_backup (m (sys.recovery (c seen ∷ past)) seen).world.calls ++ (c seen ∷ past)))
    → Holds P (λ a. R) (λ e. R) (operate sys c m)
unfolding operate
operate-Holds sys c m next = record {
  run = λ w h. (λ a same. next w.calls (front w) h, λ e same. next w.calls (front w) h);
}

-- A call whose answer is looked at.
pub answer-Holds :
    {P : Assertion} {Q : Answer → Assertion} {E : String → Assertion} (sys : System) (c : Call)
    → ((past : List Call) → P past → Q (sys.answer past c) (c ∷ past))
    → Holds P Q E (ask sys c)
unfolding ask
answer-Holds {Q = Q} {E = E} sys c next = record {
  run = λ w h. value-Behind Q E (ask sys c w).world (sys.answer w.calls c) (next w.calls h);
}

-- The removal of a values file keeps what is known.
pub deferred-Holds :
    {A : Type 0} {P : Assertion} {Q : A → Assertion} {E : String → Assertion} {m : Run World A}
    (sys : System) (path : String)
    → ((a : A) (past : List Call) → Q a past → Q a (clean_values path ∷ past))
    → ((e : String) (past : List Call) → E e past → E e (clean_values path ∷ past))
    → Holds P Q E m
    → Holds P Q E (deferred sys path m)
unfolding deferred ask
deferred-Holds sys path keep_value keep_error h = record {
  run = λ w p.
      let (value, error) = h.run w p in
      (λ a same. keep_value a _ (value a same), λ e same. keep_error e _ (error e same));
}

-- The two branches of a test, each of which knows its outcome.
pub tested-Holds :
    {A : Type 0} {P : Assertion} {Q : A → Assertion} {E : String → Assertion} {m k : Run World A}
    (test : Bool)
    → (test ≡ true → Holds P Q E m)
    → (test ≡ false → Holds P Q E k)
    → Holds P Q E (if test then m else k)
tested-Holds true first second = first refl
tested-Holds false first second = second refl
