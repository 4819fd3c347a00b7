-- ===== src/EmailCode/Spec/Codes.antt =====
-- internal/service/emailcode/service.go: `sendCode`, `VerifyCode` and `ConsumeVerified` move the stage of
-- their address.
use combox_backend.Prelude.{
  ℕ, ◌+◌, suc, String, Bool, true, false, not, ◌==◌, eqb, leb, ltb, Option, none, some, ◌≡◌, refl,
  ap, ◌∙◌, Bool-cases, inl, inr,
}
use combox_backend.Prelude.Text.{trim_space}
use combox_backend.Prelude.Dict.{
  insert, erase, lookup-insert_same, lookup-insert_other, lookup-erase_same, lookup-erase_other,
  insert-Distinct, erase-Distinct,
}
use combox_backend.EmailCode.{
  Std, CodeEntry, Config, Service, ok, prune_verified, normalize_email, code_hash, byte_length,
  store_code, send_to, send_code, missed, verify_entry, verify_trimmed, verify_code, consume_entry,
  consume_verified,
}
use combox_backend.EmailCode.Spec.{
  Stage, idle, coded, confirmed, keyed, Stages, put, at_address, fresh_code, sent, missed_stage,
  tried, verified_by, verified_if, consumed,
}
use combox_backend.EmailCode.Spec.Relation.{
  live_until, live_key, lookup-prune, code_of, until_of, key_of, HoldsAt, Refines, Agrees, Touches,
  held, drift-Agrees, erase_verified-Agrees, prune_verified-Refines, put-Refines, stay-Agrees,
  on_email-Agrees, live,
}

-- A time that is past.
gone : (until now : ℕ) → ltb until now ≡ true → live_until now (some until) ≡ none
unfolding live
gone until now late = rw late refl

module _ (std : Std) (cfg : Config) where
  store-Touches :
      (s : Service) (now : ℕ) (email code salt : String)
      → Touches email (prune_verified now s) (store_code std cfg s now email code salt)
  unfolding store_code
  store-Touches s now email code salt = record {
    codes = λ x other. lookup-insert_other email x _ s.codes other;
    verified = λ x other. lookup-erase_other email x (prune_verified now s).verified other;
    login_key = λ x other. lookup-erase_other email x s.login_key other;
    verified_once = λ d. erase-Distinct email (prune_verified now s).verified d;
    keys_once = λ d. erase-Distinct email s.login_key d;
  }

  store-HoldsAt :
      (s : Service) (now : ℕ) (email code salt : String)
      → HoldsAt now
          (store_code std cfg s now email code salt)
          email
          (coded (fresh_code std cfg now code salt))
  unfolding store_code code_of until_of key_of
  store-HoldsAt s now email code salt = record {
    codes = lookup-insert_same email _ s.codes;
    verified = ap (live_until now) (lookup-erase_same email (prune_verified now s).verified);
    login_key = ap (live_key now) (lookup-erase_same email s.login_key);
  }

  send_to-Agrees :
      (s : Service) (stages : Stages) (now : ℕ) (email : String) (notify : Bool)
      (code salt mail : Option String) (bot : Option (Bool × Option String))
      → Refines now s stages
      → let due = sent std cfg now notify code salt mail bot (stages email) in
        Agrees now
          (send_to std cfg s now notify code salt mail bot email)
          (put email due.0 stages, due.1)
  unfolding send_to sent
  send_to-Agrees s stages now email notify none salt mail bot h =
      stay-Agrees now email (stages email) s stages _ h refl
  send_to-Agrees s stages now email notify (some code) none mail bot h =
      stay-Agrees now email (stages email) s stages _ h refl
  send_to-Agrees s stages now email notify (some code) (some salt) mail bot h = record {
    refined =
        put-Refines now email (coded (fresh_code std cfg now code salt)) (prune_verified now s)
          (store_code std cfg s now email code salt) stages (prune_verified-Refines now s stages h)
          (store-Touches s now email code salt) (store-HoldsAt s now email code salt);
    answer = refl;
  }

  -- `sendCode`
  pub send_code-Agrees :
      (s : Service) (stages : Stages) (now : ℕ) (email : String) (notify : Bool)
      (code salt mail : Option String) (bot : Option (Bool × Option String))
      → Refines now s stages
      → Agrees now (send_code std cfg s now email notify code salt mail bot) (
          at_address stages
            (sent std cfg now notify code salt mail bot)
            (normalize_email std cfg email))
  unfolding send_code
  send_code-Agrees s stages now email notify code salt mail bot h =
      on_email-Agrees now s stages _ _ (normalize_email std cfg email) h
        (λ address. send_to-Agrees s stages now address notify code salt mail bot h)

  -- A code that goes leaves its address idle.
  drop_code-Agrees :
      (s : Service) (stages : Stages) (now : ℕ) (email : String) (entry : CodeEntry)
      → Refines now s stages
      → stages email ≡ coded entry
      → Agrees {A = Bool} now
          (record s { codes = erase email s.codes }, ok false)
          (put email idle stages, ok false)
  unfolding code_of until_of key_of
  drop_code-Agrees s stages now email entry h e = record {
    refined =
        put-Refines now email idle s (record s { codes = erase email s.codes }) stages h
          (record {
            codes = λ x other. lookup-erase_other email x s.codes other;
            verified = λ x other. refl;
            login_key = λ x other. refl;
            verified_once = λ d. d;
            keys_once = λ d. d;
          })
          (record {
            codes = lookup-erase_same email s.codes;
            verified = (held now email (coded entry) s stages h e).verified;
            login_key = (held now email (coded entry) s stages h e).login_key;
          });
    answer = refl;
  }

  missed-Agrees :
      (s : Service) (stages : Stages) (now : ℕ) (email : String) (entry : CodeEntry)
      → Refines now s stages
      → stages email ≡ coded entry
      → Agrees {A = Bool} now
          (missed std cfg s email entry, ok false)
          (put email (missed_stage std cfg entry) stages, ok false)
  unfolding missed missed_stage code_of until_of key_of
  missed-Agrees s stages now email entry h e =
      let next : CodeEntry = record entry { attempts = suc entry.attempts } in
      elim (Bool-cases (leb cfg.max_attempts (suc entry.attempts))) [
        | inl last ↦ rw last (drop_code-Agrees s stages now email entry h e)
        | inr more ↦ rw more (record {
          refined =
              put-Refines now email (coded next) s (record s { codes = insert email next s.codes })
                stages h
                (record {
                  codes = λ x other. lookup-insert_other email x next s.codes other;
                  verified = λ x other. refl;
                  login_key = λ x other. refl;
                  verified_once = λ d. d;
                  keys_once = λ d. d;
                })
                (record {
                  codes = lookup-insert_same email next s.codes;
                  verified = (held now email (coded entry) s stages h e).verified;
                  login_key = (held now email (coded entry) s stages h e).login_key;
                });
          answer = refl;
        })
      ]

  confirm-Agrees :
      (s : Service) (stages : Stages) (now until : ℕ) (email : String) (entry : CodeEntry)
      → Refines now s stages
      → stages email ≡ coded entry
      → Agrees {A = Bool} now
          (
            record s { codes = erase email s.codes; verified = insert email until s.verified },
            ok true,
          )
          (put email (confirmed until) stages, ok true)
  unfolding code_of until_of key_of
  confirm-Agrees s stages now until email entry h e = record {
    refined =
        put-Refines now email (confirmed until) s
          (record s { codes = erase email s.codes; verified = insert email until s.verified })
          stages h
          (record {
            codes = λ x other. lookup-erase_other email x s.codes other;
            verified = λ x other. lookup-insert_other email x until s.verified other;
            login_key = λ x other. refl;
            verified_once = λ d. insert-Distinct email until s.verified d;
            keys_once = λ d. d;
          })
          (record {
            codes = lookup-erase_same email s.codes;
            verified = ap (live_until now) (lookup-insert_same email until s.verified);
            login_key = (held now email (coded entry) s stages h e).login_key;
          });
    answer = refl;
  }

  tried-Agrees :
      (s : Service) (stages : Stages) (now : ℕ) (email code : String) (entry : CodeEntry)
      → Refines now s stages
      → stages email ≡ coded entry
      → let due = tried std cfg now code entry in
        Agrees now
          (verify_entry std cfg s now email code (some entry))
          (put email due.0 stages, due.1)
  unfolding verify_entry tried
  tried-Agrees s stages now email code entry h e = elim (Bool-cases (ltb entry.expires_at now)) [
    | inl late ↦ rw late (drop_code-Agrees s stages now email entry h e)
    | inr fresh ↦ rw fresh (elim (Bool-cases (leb cfg.max_attempts entry.attempts)) [
      | inl spent ↦ rw spent (drop_code-Agrees s stages now email entry h e)
      | inr left ↦
          rw left (elim (Bool-cases (not (code_hash std cfg entry.salt code == entry.hash))) [
            | inl wrong ↦ rw wrong (missed-Agrees s stages now email entry h e)
            | inr right ↦
                rw right (confirm-Agrees s stages now (now + cfg.verified_ttl) email entry h e)
          ])
    ])
  ]

  verify_entry-Agrees :
      (s : Service) (stages : Stages) (now : ℕ) (email code : String) (stage : Stage)
      → Refines now s stages
      → stages email ≡ stage
      → let due = verified_by std cfg now code stage in
        Agrees now
          (verify_entry std cfg s now email code (code_of stage))
          (put email due.0 stages, due.1)
  unfolding code_of verified_by verify_entry
  verify_entry-Agrees s stages now email code idle h e = stay-Agrees now email idle s stages _ h e
  verify_entry-Agrees s stages now email code (coded entry) h e =
      tried-Agrees s stages now email code entry h e
  verify_entry-Agrees s stages now email code (confirmed until) h e =
      stay-Agrees now email (confirmed until) s stages _ h e
  verify_entry-Agrees s stages now email code (keyed entry) h e =
      stay-Agrees now email (keyed entry) s stages _ h e

  verify_trimmed-Agrees :
      (s : Service) (stages : Stages) (now : ℕ) (email code : String)
      → Refines now s stages
      → let due = verified_if std cfg now code (stages email) in
        Agrees now (verify_trimmed std cfg s now code email) (put email due.0 stages, due.1)
  unfolding verify_trimmed verified_if
  verify_trimmed-Agrees s stages now email code h =
      elim (Bool-cases (not (eqb (byte_length code) 6))) [
        | inl odd ↦ rw odd (stay-Agrees now email (stages email) s stages _ h refl)
        | inr six ↦
            rw (six, (h.at email).codes)
              (verify_entry-Agrees (prune_verified now s) stages now email code (stages email)
                (prune_verified-Refines now s stages h) refl)
      ]

  -- `VerifyCode`
  pub verify_code-Agrees :
      (s : Service) (stages : Stages) (now : ℕ) (email code : String)
      → Refines now s stages
      → Agrees now (verify_code std cfg s now email code) (
          at_address stages
            (verified_if std cfg now (trim_space code))
            (normalize_email std cfg email))
  unfolding verify_code
  verify_code-Agrees s stages now email code h =
      on_email-Agrees now s stages _ _ (normalize_email std cfg email) h
        (λ address. verify_trimmed-Agrees s stages now address (trim_space code) h)

  consume_entry-Agrees :
      (s : Service) (stages : Stages) (now : ℕ) (email : String) (stage : Stage)
      → Refines now s stages
      → stages email ≡ stage
      → let due = consumed std cfg now stage in
        Agrees now
          (consume_entry std cfg s now email (live_until now (until_of stage)))
          (put email due.0 stages, due.1)
  unfolding consumed consume_entry until_of code_of key_of live
  consume_entry-Agrees s stages now email idle h e = stay-Agrees now email idle s stages _ h e
  consume_entry-Agrees s stages now email (coded entry) h e =
      stay-Agrees now email (coded entry) s stages _ h e
  consume_entry-Agrees s stages now email (keyed entry) h e =
      stay-Agrees now email (keyed entry) s stages _ h e
  consume_entry-Agrees s stages now email (confirmed until) h e =
      let here = held now email (confirmed until) s stages h e in
      elim (Bool-cases (ltb until now)) [
        | inl late ↦ rw late (
            drift-Agrees now email idle s stages (ok false) h (record {
              codes = here.codes;
              verified = here.verified ∙ gone until now late;
              login_key = here.login_key;
            }))
        | inr fresh ↦
            rw (fresh, fresh)
              (erase_verified-Agrees now email idle s stages (ok true) h here.codes refl
                here.login_key)
      ]

  -- `ConsumeVerified`
  pub consume_verified-Agrees :
      (s : Service) (stages : Stages) (now : ℕ) (email : String)
      → Refines now s stages
      → Agrees now
          (consume_verified std cfg s now email)
          (at_address stages (consumed std cfg now) (normalize_email std cfg email))
  unfolding consume_verified
  consume_verified-Agrees s stages now email h =
      on_email-Agrees now s stages _ _ (normalize_email std cfg email) h (λ address.
        rw
          (
            lookup-prune (λ until. until) now address s.verified h.verified_once,
            (h.at address).verified,
          )
          (consume_entry-Agrees (prune_verified now s) stages now address (stages address)
            (prune_verified-Refines now s stages h) refl))
