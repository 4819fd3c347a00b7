-- ===== src/EmailCode/Spec/Keys.antt =====
-- internal/service/emailcode/service.go: `IssueLoginKey`, `ValidateLoginKey` and `ConsumeLoginKey` move
-- the stage of their address.
use combox_backend.Prelude.{
  ℕ, String, Bool, true, false, ◌==◌, ltb, Bool-cases, Option, none, some, ◌≡◌, refl, ap, ◌∙◌, inl,
  inr,
}
use combox_backend.Prelude.Text.{trim_space}
use combox_backend.Prelude.Dict.{
  insert, erase, lookup-insert_same, lookup-insert_other, lookup-erase_same, lookup-erase_other,
  insert-Distinct, erase-Distinct,
}
use combox_backend.EmailCode.{
  Std, CodeEntry, Config, Service, ok, prune_verified, prune_login_keys, normalize_email, code_hash,
}
use combox_backend.EmailCode.Keys.{
  give_key, issue_entry, issue_login_key, validate_entry, validate_trimmed, validate_login_key,
  use_entry, use_trimmed, consume_login_key,
}
use combox_backend.EmailCode.Spec.{
  Stage, idle, coded, confirmed, keyed, Stages, put, at_address, fresh_key, given, issued, matching,
  matched, matched_if,
}
use combox_backend.EmailCode.Spec.Relation.{
  live, live_until, live_key, lookup-prune, code_of, until_of, key_of, HoldsAt, Refines, Agrees,
  held, drift-Agrees, erase_verified-Agrees, prune_verified-Refines, prune_login_keys-Refines,
  put-Refines, stay-Agrees, on_email-Agrees,
}

module _ (std : Std) (cfg : Config) where
  give_key-Agrees :
      (s : Service) (stages : Stages) (now until : ℕ) (email : String) (key salt : Option String)
      → Refines now s stages
      → stages email ≡ confirmed until
      → let due = given std cfg now key salt until in
        Agrees now (give_key std cfg s now email key salt) (put email due.0 stages, due.1)
  unfolding give_key given code_of until_of key_of
  give_key-Agrees s stages now until email none salt h e =
      stay-Agrees now email (confirmed until) s stages _ h e
  give_key-Agrees s stages now until email (some key) none h e =
      stay-Agrees now email (confirmed until) s stages _ h e
  give_key-Agrees s stages now until email (some key) (some salt) h e =
      let entry = fresh_key std cfg now key salt in
      record {
        refined =
            put-Refines now email (keyed entry) s
              (record s {
                login_key = insert email entry s.login_key;
                verified = erase email s.verified;
              })
              stages h
              (record {
                codes = λ x other. refl;
                verified = λ x other. lookup-erase_other email x s.verified other;
                login_key = λ x other. lookup-insert_other email x entry s.login_key other;
                verified_once = λ d. erase-Distinct email s.verified d;
                keys_once = λ d. insert-Distinct email entry s.login_key d;
              })
              (record {
                codes = (held now email (confirmed until) s stages h e).codes;
                verified = ap (live_until now) (lookup-erase_same email s.verified);
                login_key = ap (live_key now) (lookup-insert_same email entry s.login_key);
              });
        answer = refl;
      }

  issue_entry-Agrees :
      (s : Service) (stages : Stages) (now : ℕ) (email : String) (key salt : Option String)
      (stage : Stage)
      → Refines now s stages
      → stages email ≡ stage
      → let due = issued std cfg now key salt stage in
        Agrees now
          (issue_entry std cfg s now email key salt (live_until now (until_of stage)))
          (put email due.0 stages, due.1)
  unfolding issued issue_entry until_of code_of key_of live
  issue_entry-Agrees s stages now email key salt idle h e =
      let here = held now email idle s stages h e in
      erase_verified-Agrees now email idle s stages (ok "") h here.codes refl here.login_key
  issue_entry-Agrees s stages now email key salt (coded entry) h e =
      let here = held now email (coded entry) s stages h e in
      erase_verified-Agrees now email (coded entry) s stages (ok "") h here.codes refl
        here.login_key
  issue_entry-Agrees s stages now email key salt (keyed entry) h e =
      let here = held now email (keyed entry) s stages h e in
      erase_verified-Agrees now email (keyed entry) s stages (ok "") h here.codes refl
        here.login_key
  issue_entry-Agrees s stages now email key salt (confirmed until) h e =
      let here = held now email (confirmed until) s stages h e in
      elim (Bool-cases (ltb until now)) [
        | inl late ↦
            rw late (
              erase_verified-Agrees now email idle s stages (ok "") h here.codes refl
                here.login_key)
        | inr fresh ↦ rw (fresh, fresh) (give_key-Agrees s stages now until email key salt h e)
      ]

  -- `IssueLoginKey`
  pub issue_login_key-Agrees :
      (s : Service) (stages : Stages) (now : ℕ) (email : String) (key salt : Option String)
      → Refines now s stages
      → Agrees now
          (issue_login_key std cfg s now email key salt)
          (at_address stages (issued std cfg now key salt) (normalize_email std cfg email))
  unfolding issue_login_key
  issue_login_key-Agrees s stages now email key salt h =
      on_email-Agrees now s stages _ _ (normalize_email std cfg email) h (λ address.
        rw
          (
            lookup-prune (λ until. until) now address s.verified h.verified_once,
            (h.at address).verified,
          )
          (issue_entry-Agrees (prune_login_keys now (prune_verified now s)) stages now address key
            salt (stages address)
            (prune_login_keys-Refines now (prune_verified now s) stages
              (prune_verified-Refines now s stages h))
            refl))

  -- A key that is past its time.
  late_key-HoldsAt :
      (s : Service) (stages : Stages) (now : ℕ) (email : String) (entry : CodeEntry)
      → Refines now s stages
      → stages email ≡ keyed entry
      → ltb entry.expires_at now ≡ true
      → HoldsAt now s email idle
  unfolding live code_of until_of key_of
  late_key-HoldsAt s stages now email entry h e late =
      let here = held now email (keyed entry) s stages h e in
      record {
        codes = here.codes;
        verified = here.verified;
        login_key = here.login_key ∙ rw late refl;
      }

  validate_entry-Agrees :
      (s : Service) (stages : Stages) (now : ℕ) (email key : String) (stage : Stage)
      → Refines now s stages
      → stages email ≡ stage
      → let due = matched std cfg now false key stage in
        Agrees now
          (validate_entry std cfg s now key email (live_key now (key_of stage)))
          (put email due.0 stages, due.1)
  unfolding matched matching validate_entry key_of live
  validate_entry-Agrees s stages now email key idle h e = stay-Agrees now email idle s stages _ h e
  validate_entry-Agrees s stages now email key (coded entry) h e =
      stay-Agrees now email (coded entry) s stages _ h e
  validate_entry-Agrees s stages now email key (confirmed until) h e =
      stay-Agrees now email (confirmed until) s stages _ h e
  validate_entry-Agrees s stages now email key (keyed entry) h e =
      elim (Bool-cases (ltb entry.expires_at now)) [
        | inl late ↦ rw late (
            drift-Agrees now email idle s stages (ok false) h
              (late_key-HoldsAt s stages now email entry h e late))
        | inr fresh ↦
            rw (fresh, fresh)
              (elim (Bool-cases (code_hash std cfg entry.salt key == entry.hash)) [
                | inl right ↦ rw right (stay-Agrees now email (keyed entry) s stages _ h e)
                | inr wrong ↦ rw wrong (stay-Agrees now email (keyed entry) s stages _ h e)
              ])
      ]

  use_key-Agrees :
      (s : Service) (stages : Stages) (now : ℕ) (email : String) (entry : CodeEntry)
      → Refines now s stages
      → stages email ≡ keyed entry
      → Agrees {A = Bool} now
          (record s { login_key = erase email s.login_key }, ok true)
          (put email idle stages, ok true)
  unfolding code_of until_of key_of
  use_key-Agrees s stages now email entry h e =
      let here = held now email (keyed entry) s stages h e in
      record {
        refined =
            put-Refines now email idle s (record s { login_key = erase email s.login_key }) stages h
              (record {
                codes = λ x other. refl;
                verified = λ x other. refl;
                login_key = λ x other. lookup-erase_other email x s.login_key other;
                verified_once = λ d. d;
                keys_once = λ d. erase-Distinct email s.login_key d;
              })
              (record {
                codes = here.codes;
                verified = here.verified;
                login_key = ap (live_key now) (lookup-erase_same email s.login_key);
              });
        answer = refl;
      }

  use_entry-Agrees :
      (s : Service) (stages : Stages) (now : ℕ) (email key : String) (stage : Stage)
      → Refines now s stages
      → stages email ≡ stage
      → let due = matched std cfg now true key stage in
        Agrees now
          (use_entry std cfg s now key email (live_key now (key_of stage)))
          (put email due.0 stages, due.1)
  unfolding matched matching use_entry key_of live
  use_entry-Agrees s stages now email key idle h e = stay-Agrees now email idle s stages _ h e
  use_entry-Agrees s stages now email key (coded entry) h e =
      stay-Agrees now email (coded entry) s stages _ h e
  use_entry-Agrees s stages now email key (confirmed until) h e =
      stay-Agrees now email (confirmed until) s stages _ h e
  use_entry-Agrees s stages now email key (keyed entry) h e =
      elim (Bool-cases (ltb entry.expires_at now)) [
        | inl late ↦ rw late (
            drift-Agrees now email idle s stages (ok false) h
              (late_key-HoldsAt s stages now email entry h e late))
        | inr fresh ↦
            rw (fresh, fresh)
              (elim (Bool-cases (code_hash std cfg entry.salt key == entry.hash)) [
                | inl right ↦ rw right (use_key-Agrees s stages now email entry h e)
                | inr wrong ↦ rw wrong (stay-Agrees now email (keyed entry) s stages _ h e)
              ])
      ]

  -- `ValidateLoginKey`
  pub validate_login_key-Agrees :
      (s : Service) (stages : Stages) (now : ℕ) (email key : String)
      → Refines now s stages
      → Agrees now (validate_login_key std cfg s now email key) (
          at_address stages
            (matched_if std cfg now false (trim_space key))
            (normalize_email std cfg email))
  unfolding validate_login_key validate_trimmed matched_if
  validate_login_key-Agrees s stages now email key h =
      on_email-Agrees now s stages _ _ (normalize_email std cfg email) h (λ address.
        elim (Bool-cases (trim_space key == "")) [
          | inl blank ↦ rw blank (stay-Agrees now address (stages address) s stages _ h refl)
          | inr text ↦
              rw
                (
                  text,
                  lookup-prune (λ entry. entry.expires_at) now address s.login_key h.keys_once,
                  (h.at address).login_key,
                )
                (validate_entry-Agrees (prune_login_keys now s) stages now address (trim_space key)
                  (stages address) (prune_login_keys-Refines now s stages h) refl)
        ])

  -- `ConsumeLoginKey`
  pub consume_login_key-Agrees :
      (s : Service) (stages : Stages) (now : ℕ) (email key : String)
      → Refines now s stages
      → Agrees now (consume_login_key std cfg s now email key) (
          at_address stages
            (matched_if std cfg now true (trim_space key))
            (normalize_email std cfg email))
  unfolding consume_login_key use_trimmed matched_if
  consume_login_key-Agrees s stages now email key h =
      on_email-Agrees now s stages _ _ (normalize_email std cfg email) h (λ address.
        elim (Bool-cases (trim_space key == "")) [
          | inl blank ↦ rw blank (stay-Agrees now address (stages address) s stages _ h refl)
          | inr text ↦
              rw
                (
                  text,
                  lookup-prune (λ entry. entry.expires_at) now address s.login_key h.keys_once,
                  (h.at address).login_key,
                )
                (use_entry-Agrees (prune_login_keys now s) stages now address (trim_space key)
                  (stages address) (prune_login_keys-Refines now s stages h) refl)
        ])
