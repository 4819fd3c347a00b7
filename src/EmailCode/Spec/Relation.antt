-- ===== src/EmailCode/Spec/Relation.antt =====
-- internal/service/emailcode/service.go: which maps stand for which stages of the addresses.
use combox_backend.Prelude.{
  ℕ, ◌≤◌, String, false, ◌==◌, ltb, if◌then◌else◌, Bool-cases, Option, none, some, [], ◌∷◌, ◌≡◌,
  refl, sym, ap, ◌∙◌, inl, inr, subst, arith, eq_iff,
}
use combox_backend.Prelude.Dict.{
  Dict, lookup, has, Distinct, erase, lookup-erase_same, lookup-erase_other, erase-Distinct,
}
use combox_backend.EmailCode.{
  CodeEntry, Service, Result, new_service, on_email, prune, prune_verified, prune_login_keys,
}
use combox_backend.EmailCode.Spec.{Stage, idle, coded, confirmed, keyed, Stages, put, at_address}

-- A value that is not past its time.
unfoldable pub live {ℓ} : {V : Type ℓ} → (V → ℕ) → ℕ → Option V → Option V
live expiry now none = none
live expiry now (some v) = if ltb (expiry v) now then none else some v

pub live-later {ℓ} :
    {V : Type ℓ} (expiry : V → ℕ) (now later : ℕ) (o : Option V)
    → now ≤ later
    → live expiry later (live expiry now o) ≡ live expiry later o
unfolding live
live-later expiry now later none h = refl
live-later expiry now later (some v) h = ground arith

pub live-live {ℓ} :
    {V : Type ℓ} (expiry : V → ℕ) (now : ℕ) (o : Option V)
    → live expiry now (live expiry now o) ≡ live expiry now o
live-live expiry now o = live-later expiry now now o (omega arith)

has-pruned {ℓ} :
    {V : Type ℓ} (expiry : V → ℕ) (now : ℕ) (j : String) (m : Dict V)
    → has j m ≡ false
    → has j (prune expiry now m) ≡ false
unfolding has prune
has-pruned expiry now j [] h = refl
has-pruned expiry now j ((i, w) ∷ m) h = ground (arith, has-pruned expiry now j m)

lookup_absent {ℓ} : {V : Type ℓ} (j : String) (m : Dict V) → has j m ≡ false → lookup j m ≡ none
unfolding has lookup
lookup_absent j [] h = refl
lookup_absent j ((i, w) ∷ m) h = ground (arith, lookup_absent j m)

-- After pruning, a key has its value if that is not past its time.
pub lookup-prune {ℓ} :
    {V : Type ℓ} (expiry : V → ℕ) (now : ℕ) (j : String) (m : Dict V)
    → Distinct m
    → lookup j (prune expiry now m) ≡ live expiry now (lookup j m)
unfolding lookup prune live
lookup-prune expiry now j [] d = refl
lookup-prune expiry now j ((i, w) ∷ m) d = ground (
  arith,
  lookup-prune expiry now j m d.1,
  eq_iff i j,
  lookup_absent i (prune expiry now m) (has-pruned expiry now i m d.0),
)

pub prune-Distinct {ℓ} :
    {V : Type ℓ} (expiry : V → ℕ) (now : ℕ) (m : Dict V)
    → Distinct m
    → Distinct (prune expiry now m)
unfolding prune
prune-Distinct expiry now [] d = tt
prune-Distinct expiry now ((i, w) ∷ m) d =
    ground (arith, has-pruned expiry now i m d.0, prune-Distinct expiry now m d.1)

-- What a stage leaves in each map.
unfoldable pub code_of : Stage → Option CodeEntry
code_of idle = none
code_of (coded entry) = some entry
code_of (confirmed until) = none
code_of (keyed entry) = none

unfoldable pub until_of : Stage → Option ℕ
until_of idle = none
until_of (coded entry) = none
until_of (confirmed until) = some until
until_of (keyed entry) = none

unfoldable pub key_of : Stage → Option CodeEntry
key_of idle = none
key_of (coded entry) = none
key_of (confirmed until) = none
key_of (keyed entry) = some entry

abbrev pub live_until : ℕ → Option ℕ → Option ℕ
live_until now o = live (λ until. until) now o

abbrev pub live_key : ℕ → Option CodeEntry → Option CodeEntry
live_key now o = live (λ entry. entry.expires_at) now o

-- The maps hold for an address what its stage says, up to entries that are past their time.
pub record HoldsAt (now : ℕ) (s : Service) (x : String) (stage : Stage) : Type 0 where
  pub codes : lookup x s.codes ≡ code_of stage
  pub verified : live_until now (lookup x s.verified) ≡ live_until now (until_of stage)
  pub login_key : live_key now (lookup x s.login_key) ≡ live_key now (key_of stage)

pub record Refines (now : ℕ) (s : Service) (stages : Stages) : Type 0 where
  pub at : (x : String) → HoldsAt now s x (stages x)
  pub verified_once : Distinct s.verified
  pub keys_once : Distinct s.login_key

-- The service answers as the stages do, and refines them again.
pub record Agrees {A : Type 0} (now : ℕ) (out : Service × Result A) (due : Stages × Result A)
    : Type 0 where
  pub refined : Refines now out.0 due.0
  pub answer : out.1 ≡ due.1

pub new_service-Refines : Refines 0 new_service (λ x. idle)
unfolding lookup code_of until_of key_of live
new_service-Refines = record {
  at = λ x. record { codes = refl; verified = refl; login_key = refl };
  verified_once = tt;
  keys_once = tt;
}

live_same {ℓ} :
    {V : Type ℓ} (expiry : V → ℕ) (now later : ℕ) (o p : Option V)
    → now ≤ later
    → live expiry now o ≡ live expiry now p
    → live expiry later o ≡ live expiry later p
live_same expiry now later o p le h =
    sym (live-later expiry now later o le)
    ∙ ap (λ q. live expiry later q) h
    ∙ live-later expiry now later p le

pub later-Refines :
    (now later : ℕ) (s : Service) (stages : Stages)
    → now ≤ later
    → Refines now s stages
    → Refines later s stages
later-Refines now later s stages le h = record {
  at = λ x. record {
    codes = (h.at x).codes;
    verified = live_same _ now later _ _ le (h.at x).verified;
    login_key = live_same _ now later _ _ le (h.at x).login_key;
  };
  verified_once = h.verified_once;
  keys_once = h.keys_once;
}

pub prune_verified-Refines :
    (now : ℕ) (s : Service) (stages : Stages)
    → Refines now s stages
    → Refines now (prune_verified now s) stages
prune_verified-Refines now s stages h = record {
  at = λ x. record {
    codes = (h.at x).codes;
    verified =
        ap (live_until now) (lookup-prune (λ until. until) now x s.verified h.verified_once)
        ∙ live-live _ now _
        ∙ (h.at x).verified;
    login_key = (h.at x).login_key;
  };
  verified_once = prune-Distinct _ now s.verified h.verified_once;
  keys_once = h.keys_once;
}

pub prune_login_keys-Refines :
    (now : ℕ) (s : Service) (stages : Stages)
    → Refines now s stages
    → Refines now (prune_login_keys now s) stages
prune_login_keys-Refines now s stages h = record {
  at = λ x. record {
    codes = (h.at x).codes;
    verified = (h.at x).verified;
    login_key =
        ap (live_key now) (lookup-prune (λ entry. entry.expires_at) now x s.login_key h.keys_once)
        ∙ live-live _ now _
        ∙ (h.at x).login_key;
  };
  verified_once = h.verified_once;
  keys_once = prune-Distinct _ now s.login_key h.keys_once;
}

-- A change of the maps at one address only.
pub record Touches (email : String) (s t : Service) : Type 0 where
  pub codes : (x : String) → (email == x) ≡ false → lookup x t.codes ≡ lookup x s.codes
  pub verified : (x : String) → (email == x) ≡ false → lookup x t.verified ≡ lookup x s.verified
  pub login_key : (x : String) → (email == x) ≡ false → lookup x t.login_key ≡ lookup x s.login_key
  pub verified_once : Distinct s.verified → Distinct t.verified
  pub keys_once : Distinct s.login_key → Distinct t.login_key

-- After it, the maps hold the new stage of the address, and the other addresses keep theirs.
pub put-Refines :
    (now : ℕ) (email : String) (stage : Stage) (s t : Service) (stages : Stages)
    → Refines now s stages
    → Touches email s t
    → HoldsAt now t email stage
    → Refines now t (put email stage stages)
unfolding put
put-Refines now email stage s t stages h change here = record {
  at = λ x. elim (Bool-cases (email == x)) [
    | inl same ↦
        let equal : email ≡ x = (eq_iff email x).0 same in
        rw same (subst (λ y. HoldsAt now t y stage) equal here)
    | inr other ↦ rw other (record {
      codes = change.codes x other ∙ (h.at x).codes;
      verified = ap (live_until now) (change.verified x other) ∙ (h.at x).verified;
      login_key = ap (live_key now) (change.login_key x other) ∙ (h.at x).login_key;
    })
  ];
  verified_once = change.verified_once h.verified_once;
  keys_once = change.keys_once h.keys_once;
}

pub nothing-Touches : (email : String) (s : Service) → Touches email s s
nothing-Touches email s = record {
  codes = λ x other. refl;
  verified = λ x other. refl;
  login_key = λ x other. refl;
  verified_once = λ d. d;
  keys_once = λ d. d;
}

-- A call that leaves its address at its stage.
pub stay-Agrees :
    {A : Type 0} (now : ℕ) (email : String) (stage : Stage) (s : Service) (stages : Stages)
    (answer : Result A)
    → Refines now s stages
    → stages email ≡ stage
    → Agrees now (s, answer) (put email stage stages, answer)
stay-Agrees now email stage s stages answer h e = record {
  refined =
      put-Refines now email stage s s stages h (nothing-Touches email s)
        (subst (HoldsAt now s email) e (h.at email));
  answer = refl;
}

-- The maps at an address whose stage is known.
pub held :
    (now : ℕ) (email : String) (stage : Stage) (s : Service) (stages : Stages)
    → Refines now s stages
    → stages email ≡ stage
    → HoldsAt now s email stage
held now email stage s stages h e = subst (HoldsAt now s email) e (h.at email)

-- A stage that the maps hold already.
pub drift-Agrees :
    {A : Type 0} (now : ℕ) (email : String) (stage : Stage) (s : Service) (stages : Stages)
    (answer : Result A)
    → Refines now s stages
    → HoldsAt now s email stage
    → Agrees now (s, answer) (put email stage stages, answer)
drift-Agrees now email stage s stages answer h here = record {
  refined = put-Refines now email stage s s stages h (nothing-Touches email s) here;
  answer = refl;
}

-- A verification that goes.
pub erase_verified-Agrees :
    {A : Type 0} (now : ℕ) (email : String) (stage : Stage) (s : Service) (stages : Stages)
    (answer : Result A)
    → Refines now s stages
    → lookup email s.codes ≡ code_of stage
    → until_of stage ≡ none
    → live_key now (lookup email s.login_key) ≡ live_key now (key_of stage)
    → Agrees now
        (record s { verified = erase email s.verified }, answer)
        (put email stage stages, answer)
erase_verified-Agrees now email stage s stages answer h codes none_left keys = record {
  refined =
      put-Refines now email stage s (record s { verified = erase email s.verified }) stages h
        (record {
          codes = λ x other. refl;
          verified = λ x other. lookup-erase_other email x s.verified other;
          login_key = λ x other. refl;
          verified_once = λ d. erase-Distinct email s.verified d;
          keys_once = λ d. d;
        })
        (record {
          codes = codes;
          verified = ap (live_until now) (lookup-erase_same email s.verified ∙ sym none_left);
          login_key = keys;
        });
  answer = refl;
}

-- A call on an address, if it is valid.
pub on_email-Agrees :
    {A : Type 0} (now : ℕ) (s : Service) (stages : Stages) (f : String → Service × Result A)
    (g : Stage → Stage × Result A) (address : Option String)
    → Refines now s stages
    → ((email : String)
        → Agrees now (f email) (put email (g (stages email)).0 stages, (g (stages email)).1))
    → Agrees now (on_email s f address) (at_address stages g address)
unfolding on_email at_address
on_email-Agrees now s stages f g none h each = record { refined = h; answer = refl }
on_email-Agrees now s stages f g (some email) h each = each email
