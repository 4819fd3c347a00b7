-- ===== src/Chat/Steps.antt =====
-- Reasoning on the calls of a service, step by step.
use combox_backend.Prelude.{Bool, true, false, Option, ◌≡◌, refl, if◌then◌else◌, subst}
use combox_backend.Chat.Base.{
  Fault, Error, Result, ok, err, Answer, got, failed, Action, ◌>>=◌, then_run, answered,
  guard_result, Holds, raise, ask, tell, require, pure, lift,
}

pub answered-ok :
    {A : Type 0} (as_error : Fault → Error) (answer : Answer A) (a : A)
    → answered as_error answer ≡ ok a
    → answer ≡ got a
answered-ok as_error (got b) a h = cc
answered-ok as_error (failed f) a h = cc

pub ok-Holds : {A : Type 0} (P : A → Type 0) (r : Result A) (a : A) → Holds P r → r ≡ ok a → P a
ok-Holds P (ok b) a h e = let same : b ≡ a = cc in subst P same h
ok-Holds P (err b) a h e = cc

pub Holds-weaken :
    {A : Type 0} (P Q : A → Type 0) (r : Result A) → ((a : A) → P a → Q a) → Holds P r → Holds Q r
Holds-weaken P Q (ok a) f h = f a h
Holds-weaken P Q (err e) f h = tt

-- A check that passed.
guard-ok : (test : Bool) (e : Error) (u : Unit {0}) → guard_result test e ≡ ok u → test ≡ true
guard-ok true e u h = refl
guard-ok false e u h = cc

module _ {Store : Type 0} where
  -- A step that only reads.
  pub record Keeps {A : Type 0} (m : Action Store A) : Type 0 where
    pub kept : (s : Store) → (m s).0 ≡ s

  then_run-cases :
      {A B : Type 0} (P : Store × Result B → Type 0) (f : A → Action Store B) (s : Store)
      (out : Store × Result A)
      → out.0 ≡ s
      → ((e : Error) → P (s, err e))
      → ((a : A) → out.1 ≡ ok a → P (f a s))
      → P (then_run f out)
  then_run-cases P f s (t, ok a) same bad good = rw same (good a refl)
  then_run-cases P f s (t, err e) same bad good = rw same (bad e)

  -- What holds of every refusal at the store that a reading step began with, and of the rest of the
  -- operation there, holds of the operation.
  pub bind_cases :
      {A B : Type 0} (P : Store × Result B → Type 0) (m : Action Store A) (f : A → Action Store B)
      (s : Store)
      → Keeps m
      → ((e : Error) → P (s, err e))
      → ((a : A) → (m s).1 ≡ ok a → P (f a s))
      → P ((m >>= f) s)
  unfolding ◌>>=◌
  bind_cases P m f s keeps bad good = then_run-cases P f s (m s) (keeps.kept s) bad good

  pub ask-Keeps :
      {A : Type 0} (read : Store → Answer A) (as_error : Fault → Error) → Keeps (ask read as_error)
  unfolding ask
  ask-Keeps read as_error = record { kept = λ s. refl }

  pub require-Keeps : (test : Bool) (e : Error) → Keeps (require {Store = Store} test e)
  unfolding require
  require-Keeps test e = record { kept = λ s. refl }

  -- A reading step: an answer that came, or a refusal.
  pub ask_cases :
      {A B : Type 0} (P : Store × Result B → Type 0) (read : Store → Answer A)
      (as_error : Fault → Error) (f : A → Action Store B) (s : Store)
      → ((e : Error) → P (s, err e))
      → ((a : A) → read s ≡ got a → P (f a s))
      → P ((ask read as_error >>= f) s)
  unfolding ask
  ask_cases P read as_error f s bad good =
      bind_cases P (ask read as_error) f s (ask-Keeps read as_error) bad
        (λ a e. good a (answered-ok as_error (read s) a e))

  -- A check: it passed, or it refused.
  pub require_cases :
      {B : Type 0} (P : Store × Result B → Type 0) (test : Bool) (e : Error)
      (f : Unit {0} → Action Store B) (s : Store)
      → ((e : Error) → P (s, err e))
      → (test ≡ true → P (f tt s))
      → P ((require test e >>= f) s)
  unfolding require
  require_cases P test e f s bad good =
      bind_cases P (require test e) f s (require-Keeps test e) bad
        (λ u h. good (guard-ok test e u h))

  pub bind-Keeps :
      {A B : Type 0} (m : Action Store A) (f : A → Action Store B)
      → Keeps m
      → ((a : A) → Keeps (f a))
      → Keeps (m >>= f)
  bind-Keeps m f keeps rest = record {
    kept = λ s. bind_cases (λ out. out.0 ≡ s) m f s keeps (λ e. refl) (λ a e. (rest a).kept s);
  }

  pub branch-Keeps :
      {A : Type 0} (b : Bool) (x y : Action Store A)
      → Keeps x
      → Keeps y
      → Keeps (if b then x else y)
  branch-Keeps true x y h k = h
  branch-Keeps false x y h k = k

  pub raise-Keeps : {A : Type 0} (e : Error) → Keeps (raise {Store = Store} {A = A} e)
  unfolding raise
  raise-Keeps e = record { kept = λ s. refl }

  pub pure-Keeps : {A : Type 0} (a : A) → Keeps (pure {Store = Store} a)
  unfolding pure
  pure-Keeps a = record { kept = λ s. refl }

  pub lift-Keeps : {A : Type 0} (r : Result A) → Keeps (lift {Store = Store} r)
  unfolding lift
  lift-Keeps r = record { kept = λ s. refl }

  -- A step that may write, and keeps a property of the store.
  pub record Preserves {A : Type 0} (P : Store → Type 0) (m : Action Store A) : Type 0 where
    pub preserved : (s : Store) → P s → P (m s).0

  pub Keeps-Preserves :
      {A : Type 0} (P : Store → Type 0) (m : Action Store A) → Keeps m → Preserves P m
  Keeps-Preserves P m keeps = record { preserved = λ s h. rw (keeps.kept s) h }

  then_run-preserved :
      {A B : Type 0} (P : Store → Type 0) (f : A → Action Store B) (out : Store × Result A)
      → P out.0
      → ((a : A) → Preserves P (f a))
      → P (then_run f out).0
  then_run-preserved P f (s, ok a) h rest = (rest a).preserved s h
  then_run-preserved P f (s, err e) h rest = h

  pub bind-Preserves :
      {A B : Type 0} (P : Store → Type 0) (m : Action Store A) (f : A → Action Store B)
      → Preserves P m
      → ((a : A) → Preserves P (f a))
      → Preserves P (m >>= f)
  unfolding ◌>>=◌
  bind-Preserves P m f first rest = record {
    preserved = λ s h. then_run-preserved P f (m s) (first.preserved s h) rest;
  }

  pub tell-Preserves :
      (P : Store → Type 0) (write : Store → Store × Option Fault) (as_error : Fault → Error)
      → ((s : Store) → P s → P (write s).0)
      → Preserves P (tell write as_error)
  unfolding tell
  tell-Preserves P write as_error h = record { preserved = h }
