-- ===== src/EmailCode/Locked.antt =====
-- internal/service/emailcode/service.go: an address without a code gets one from `sendCode` only.
use text.Mathlib.TextEquality.{eq_iff}
use combox_backend.Prelude.{
  ℕ, suc, String, Bool, false, not, ◌==◌, eqb, leb, ltb, if_both, Option, none, some, List, [], ◌∷◌,
  All, ◌≡◌, refl, sym, ◌∙◌, ap, arith,
}
use combox_backend.Prelude.Text.{trim_space}
use combox_backend.Prelude.Dict.{lookup, erase, lookup-erase, lookup-insert_other}
use combox_backend.EmailCode.{
  Std, CodeEntry, Config, Service, Result, on_email, normalize_email, prune_verified,
  prune_login_keys, missed, verify_entry, verify_trimmed, verify_code, send_to, send_code,
  store_code, consume_entry, consume_verified, byte_length, code_hash,
}
use combox_backend.EmailCode.Keys.{
  give_key, issue_entry, issue_login_key, validate_entry, validate_trimmed, validate_login_key,
  use_entry, use_trimmed, consume_login_key,
}
use combox_backend.EmailCode.Runs.{
  Call, sends, verifies, consumes, issues, validates, uses, after, after_all,
}

-- An address has no code.
abbrev pub HasNoCode : String → Service → Type 0
HasNoCode address s = lookup address s.codes ≡ none

abbrev pub names_address : String → Option String → Bool
names_address address none = false
names_address address (some email) = email == address

-- The result of a call with an address, whatever the call does where the address is valid.
on_email-HasNoCode :
    {A : Type 0} (address : String) (s : Service) (f : String → Service × Result A)
    (known : Option String)
    → HasNoCode address s
    → ((email : String) → known ≡ some email → HasNoCode address (f email).0)
    → HasNoCode address (on_email s f known).0
unfolding on_email
on_email-HasNoCode address s f none h each = h
on_email-HasNoCode address s f (some email) h each = each email refl

module _ (std : Std) (cfg : Config) (address : String) where
  send_to-HasNoCode :
      (s : Service) (now : ℕ) (notify : Bool) (code salt mail : Option String)
      (bot : Option (Bool × Option String)) (email : String)
      → HasNoCode address s
      → (email == address) ≡ false
      → HasNoCode address (send_to std cfg s now notify code salt mail bot email).0
  unfolding send_to store_code
  send_to-HasNoCode s now notify none salt mail bot email h else_where = h
  send_to-HasNoCode s now notify (some code) none mail bot email h else_where = h
  send_to-HasNoCode s now notify (some code) (some salt) mail bot email h else_where =
      lookup-insert_other email address _ s.codes else_where ∙ h

  missed-HasNoCode :
      (s : Service) (email : String) (entry : CodeEntry)
      → HasNoCode address s
      → (email == address) ≡ false
      → HasNoCode address (missed std cfg s email entry)
  unfolding missed
  missed-HasNoCode s email entry h else_where =
      if_both (HasNoCode address) (leb cfg.max_attempts (suc entry.attempts))
        (λ last. ground (arith, lookup-erase email address s.codes))
        (λ more. lookup-insert_other email address _ s.codes else_where ∙ h)

  verify_entry-HasNoCode :
      (s : Service) (now : ℕ) (email code : String) (known : Option CodeEntry)
      → HasNoCode address s
      → lookup email s.codes ≡ known
      → HasNoCode address (verify_entry std cfg s now email code known).0
  unfolding verify_entry
  verify_entry-HasNoCode s now email code none h held = h
  verify_entry-HasNoCode s now email code (some entry) h held =
      let else_where : (email == address) ≡ false = ground (arith, eq_iff email address) in
      let gone : lookup address (erase email s.codes) ≡ none =
        ground (arith, lookup-erase email address s.codes) in
      if_both {A = Service × Result Bool} (λ out. HasNoCode address out.0)
        (ltb entry.expires_at now) (λ old. gone)
        (λ fresh.
          if_both {A = Service × Result Bool} (λ out. HasNoCode address out.0)
            (leb cfg.max_attempts entry.attempts) (λ full. gone)
            (λ few.
              if_both {A = Service × Result Bool} (λ out. HasNoCode address out.0)
                (not (code_hash std cfg entry.salt code == entry.hash))
                (λ wrong. missed-HasNoCode s email entry h else_where) (λ right. gone)))

  verify_code-HasNoCode :
      (s : Service) (now : ℕ) (email code : String)
      → HasNoCode address s
      → HasNoCode address (verify_code std cfg s now email code).0
  unfolding verify_code verify_trimmed
  verify_code-HasNoCode s now email code h =
      on_email-HasNoCode address s _ (normalize_email std cfg email) h (λ other known.
        if_both {A = Service × Result Bool} (λ out. HasNoCode address out.0)
          (not (eqb (byte_length (trim_space code)) 6)) (λ short. h)
          (λ whole.
            verify_entry-HasNoCode (prune_verified now s) now other (trim_space code)
              (lookup other s.codes) h refl))

  consume_entry-HasNoCode :
      (s : Service) (now : ℕ) (email : String) (known : Option ℕ)
      → HasNoCode address s
      → HasNoCode address (consume_entry std cfg s now email known).0
  unfolding consume_entry
  consume_entry-HasNoCode s now email none h = h
  consume_entry-HasNoCode s now email (some expires_at) h = h

  give_key-HasNoCode :
      (s : Service) (now : ℕ) (email : String) (key salt : Option String)
      → HasNoCode address s
      → HasNoCode address (give_key std cfg s now email key salt).0
  unfolding give_key
  give_key-HasNoCode s now email none salt h = h
  give_key-HasNoCode s now email (some key) none h = h
  give_key-HasNoCode s now email (some key) (some salt) h = h

  issue_entry-HasNoCode :
      (s : Service) (now : ℕ) (email : String) (key salt : Option String) (known : Option ℕ)
      → HasNoCode address s
      → HasNoCode address (issue_entry std cfg s now email key salt known).0
  unfolding issue_entry
  issue_entry-HasNoCode s now email key salt none h = h
  issue_entry-HasNoCode s now email key salt (some expires_at) h =
      if_both {A = Service × Result String} (λ out. HasNoCode address out.0) (ltb expires_at now)
        (λ old. h) (λ fresh. give_key-HasNoCode s now email key salt h)

  validate_entry-HasNoCode :
      (s : Service) (now : ℕ) (key email : String) (known : Option CodeEntry)
      → HasNoCode address s
      → HasNoCode address (validate_entry std cfg s now key email known).0
  unfolding validate_entry
  validate_entry-HasNoCode s now key email none h = h
  validate_entry-HasNoCode s now key email (some entry) h =
      if_both {A = Service × Result Bool} (λ out. HasNoCode address out.0)
        (ltb entry.expires_at now) (λ old. h) (λ fresh. h)

  use_entry-HasNoCode :
      (s : Service) (now : ℕ) (key email : String) (known : Option CodeEntry)
      → HasNoCode address s
      → HasNoCode address (use_entry std cfg s now key email known).0
  unfolding use_entry
  use_entry-HasNoCode s now key email none h = h
  use_entry-HasNoCode s now key email (some entry) h =
      if_both {A = Service × Result Bool} (λ out. HasNoCode address out.0)
        (ltb entry.expires_at now) (λ old. h)
        (λ fresh.
          if_both {A = Service × Result Bool} (λ out. HasNoCode address out.0)
            (not (code_hash std cfg entry.salt key == entry.hash)) (λ wrong. h) (λ right. h))

  -- A call sends no code to the address.
  abbrev pub IsSpared : Call → Type 0
  IsSpared (sends now email notify code salt mail bot) =
      names_address address (normalize_email std cfg email) ≡ false
  IsSpared (verifies now email code) = Unit
  IsSpared (consumes now email) = Unit
  IsSpared (issues now email key salt) = Unit
  IsSpared (validates now email key) = Unit
  IsSpared (uses now email key) = Unit

  after-HasNoCode :
      (s : Service) (call : Call)
      → HasNoCode address s
      → IsSpared call
      → HasNoCode address (after std cfg s call)
  unfolding after send_code consume_verified issue_login_key validate_login_key validate_trimmed
      consume_login_key use_trimmed
  after-HasNoCode s (sends now email notify code salt mail bot) h spared =
      on_email-HasNoCode address s _ (normalize_email std cfg email) h (λ other known.
        send_to-HasNoCode s now notify code salt mail bot other h
          (sym (ap (names_address address) known) ∙ spared))
  after-HasNoCode s (verifies now email code) h spared = verify_code-HasNoCode s now email code h
  after-HasNoCode s (consumes now email) h spared =
      on_email-HasNoCode address s _ (normalize_email std cfg email) h
        (λ other known. consume_entry-HasNoCode (prune_verified now s) now other _ h)
  after-HasNoCode s (issues now email key salt) h spared =
      on_email-HasNoCode address s _ (normalize_email std cfg email) h (λ other known.
        issue_entry-HasNoCode (prune_login_keys now (prune_verified now s)) now other key salt _ h)
  after-HasNoCode s (validates now email key) h spared =
      on_email-HasNoCode address s _ (normalize_email std cfg email) h (λ other known.
        if_both {A = Service × Result Bool} (λ out. HasNoCode address out.0) (trim_space key == "")
          (λ blank. h)
          (λ given.
            validate_entry-HasNoCode (prune_login_keys now s) now (trim_space key) other _ h))
  after-HasNoCode s (uses now email key) h spared =
      on_email-HasNoCode address s _ (normalize_email std cfg email) h (λ other known.
        if_both {A = Service × Result Bool} (λ out. HasNoCode address out.0) (trim_space key == "")
          (λ blank. h)
          (λ given. use_entry-HasNoCode (prune_login_keys now s) now (trim_space key) other _ h))

  -- Calls that send no code to an address leave it without one.
  pub after_all-HasNoCode :
      (s : Service) (calls : List Call)
      → HasNoCode address s
      → All IsSpared calls
      → HasNoCode address (after_all std cfg s calls)
  unfolding after_all
  after_all-HasNoCode s [] h spared = h
  after_all-HasNoCode s (call ∷ calls) h spared =
      after_all-HasNoCode (after std cfg s call) calls (after-HasNoCode s call h spared.0) spared.1
