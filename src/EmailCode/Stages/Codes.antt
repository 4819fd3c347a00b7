-- ===== src/EmailCode/Stages/Codes.antt =====
-- internal/service/emailcode/service.go: `sendCode`, `VerifyCode` and `ConsumeVerified` keep the
-- stages of the addresses.
use combox_backend.Prelude.{
  ℕ, ◌<◌, suc, String, Bool, true, not, ◌==◌, eq_iff, eqb, leb, ltb, if_both, Option, none, some,
  ◌≡◌, refl, arith,
}
use combox_backend.Prelude.Text.{trim_space}
use combox_backend.Prelude.Dict.{
  lookup, has, insert, erase, has-insert, lookup-erase, has-lookup-some,
}
use combox_backend.EmailCode.{
  Std, CodeEntry, Config, Service, Result, prune_verified, on_email, normalize_email, store_code,
  send_to, missed, verify_entry, verify_trimmed, verify_code, consume_entry, consume_verified,
  code_hash, byte_length,
}
use combox_backend.EmailCode.Stages.{
  IsStaged, prune_verified-IsStaged, drop_code-IsStaged, drop_verified-IsStaged, drop_key-IsStaged,
  insert_code-IsStaged, has-erased,
}

module _ (std : Std) (cfg : Config) where
  -- What an operation leaves behind.
  pub record LeavesStaged {ℓ} {A : Type ℓ} (out : Service × Result A) : Type 0 where
    pub staged : IsStaged cfg out.0

  pub on_email-LeavesStaged {ℓ} :
      {A : Type ℓ} (s : Service) (f : String → Service × Result A) (email : Option String)
      → IsStaged cfg s
      → ((address : String) → LeavesStaged (f address))
      → LeavesStaged (on_email s f email)
  unfolding on_email
  on_email-LeavesStaged s f none h k = record { staged = h }
  on_email-LeavesStaged s f (some address) h k = k address

  store_code-IsStaged :
      (s : Service) (now : ℕ) (email code salt : String)
      → 0 < cfg.max_attempts
      → IsStaged cfg s
      → IsStaged cfg (store_code std cfg s now email code salt)
  unfolding store_code
  store_code-IsStaged s now email code salt positive h =
      insert_code-IsStaged cfg email _ _
        (drop_verified-IsStaged cfg email _
          (drop_key-IsStaged cfg email _ (prune_verified-IsStaged cfg now s h)))
        (ground (arith, has-erased email email (prune_verified now s).verified, eq_iff email email))
        (ground (arith, has-erased email email s.login_key, eq_iff email email)) positive

  pub send_to-LeavesStaged :
      (s : Service) (now : ℕ) (notify : Bool) (code salt mail : Option String)
      (bot : Option (Bool × Option String)) (email : String)
      → 0 < cfg.max_attempts
      → IsStaged cfg s
      → LeavesStaged (send_to std cfg s now notify code salt mail bot email)
  unfolding send_to
  send_to-LeavesStaged s now notify none salt mail bot email p h = record { staged = h }
  send_to-LeavesStaged s now notify (some code) none mail bot email p h = record { staged = h }
  send_to-LeavesStaged s now notify (some code) (some salt) mail bot email p h = record {
    staged = store_code-IsStaged s now email code salt p h;
  }

  missed-IsStaged :
      (s : Service) (email : String) (entry : CodeEntry)
      → IsStaged cfg s
      → lookup email s.codes ≡ some entry
      → IsStaged cfg (missed std cfg s email entry)
  unfolding missed
  missed-IsStaged s email entry h e =
      let here = has-lookup-some email entry s.codes e in
      let alone = h.one email in
      if_both (IsStaged cfg) (leb cfg.max_attempts (suc entry.attempts))
        (λ last. drop_code-IsStaged cfg email s h)
        (λ more. insert_code-IsStaged cfg email _ s h (ground arith) (ground arith) (ground arith))

  verified-IsStaged :
      (s : Service) (email : String) (expires_at : ℕ)
      → IsStaged cfg s
      → has email s.codes ≡ true
      → IsStaged cfg
          (record s { codes = erase email s.codes; verified = insert email expires_at s.verified })
  verified-IsStaged s email expires_at h here = record {
    few = λ other entry e. h.few other entry (ground (arith, lookup-erase email other s.codes));
    one = λ other. ground (
      arith,
      has-erased email other s.codes,
      has-insert email other expires_at s.verified,
      h.one other,
      eq_iff email other,
    );
  }

  verify_entry-LeavesStaged :
      (s : Service) (now : ℕ) (email code : String) (found : Option CodeEntry)
      → IsStaged cfg s
      → lookup email s.codes ≡ found
      → LeavesStaged (verify_entry std cfg s now email code found)
  unfolding verify_entry
  verify_entry-LeavesStaged s now email code none h e = record { staged = h }
  verify_entry-LeavesStaged s now email code (some entry) h e =
      if_both LeavesStaged (ltb entry.expires_at now)
        (λ old. record { staged = drop_code-IsStaged cfg email s h })
        (λ fresh.
          if_both LeavesStaged (leb cfg.max_attempts entry.attempts)
            (λ full. record { staged = drop_code-IsStaged cfg email s h })
            (λ guesses.
              if_both LeavesStaged (not (code_hash std cfg entry.salt code == entry.hash))
                (λ wrong. record { staged = missed-IsStaged s email entry h e })
                (λ right. record {
                  staged = verified-IsStaged s email _ h (has-lookup-some email entry s.codes e);
                })))

  pub verify_code-LeavesStaged :
      (s : Service) (now : ℕ) (email code : String)
      → IsStaged cfg s
      → LeavesStaged (verify_code std cfg s now email code)
  unfolding verify_code verify_trimmed
  verify_code-LeavesStaged s now email code h =
      on_email-LeavesStaged s _ (normalize_email std cfg email) h (λ address.
        if_both LeavesStaged (not (eqb (byte_length (trim_space code)) 6))
          (λ short. record { staged = h })
          (λ whole.
            verify_entry-LeavesStaged (prune_verified now s) now address (trim_space code) _
              (prune_verified-IsStaged cfg now s h) refl))

  consume_entry-LeavesStaged :
      (s : Service) (now : ℕ) (address : String) (found : Option ℕ)
      → IsStaged cfg s
      → LeavesStaged (consume_entry std cfg s now address found)
  unfolding consume_entry
  consume_entry-LeavesStaged s now address none h = record { staged = h }
  consume_entry-LeavesStaged s now address (some t) h = record {
    staged = drop_verified-IsStaged cfg address s h;
  }

  pub consume_verified-LeavesStaged :
      (s : Service) (now : ℕ) (email : String)
      → IsStaged cfg s
      → LeavesStaged (consume_verified std cfg s now email)
  unfolding consume_verified
  consume_verified-LeavesStaged s now email h =
      on_email-LeavesStaged s _ (normalize_email std cfg email) h (λ address.
        consume_entry-LeavesStaged _ now address _ (prune_verified-IsStaged cfg now s h))
