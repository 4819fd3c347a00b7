-- ===== src/EmailCode/Verifying.antt =====
-- internal/service/emailcode/service.go: the code that was sent verifies the address, once.
use combox_backend.Prelude.{
  ℕ, ◌+◌, ◌≤◌, ◌<◌, String, Bool, true, false, ◌==◌, leb, ltb, eq_refl, Option, none, some, [], ◌∷◌,
  ◌≡◌, refl, arith,
}
use combox_backend.Prelude.Text.{trim_space}
use combox_backend.Prelude.Dict.{Dict, lookup, insert, erase, lookup-insert, lookup-erase}
use combox_backend.EmailCode.Guessing.{verify_code-none}
use combox_backend.EmailCode.{
  Std, CodeEntry, Config, Service, ok, on_email, normalize_email, prune, prune_verified, store_code,
  send_to, send_code, verify_entry, verify_trimmed, verify_code, consume_entry, consume_verified,
  code_hash, byte_length,
}

lookup-prune {ℓ} :
    {V : Type ℓ} (expiry : V → ℕ) (now : ℕ) (k : String) (v : V) (m : Dict V)
    → lookup k m ≡ some v
    → now ≤ expiry v
    → lookup k (prune expiry now m) ≡ some v
unfolding lookup prune
lookup-prune expiry now k v [] h p = h
lookup-prune expiry now k v ((i, w) ∷ m) h p = ground (arith, lookup-prune expiry now k v m)

module _ (std : Std) (cfg : Config) where
  -- The state after the right code.
  abbrev verified_state : Service → ℕ → String → Service
  verified_state s now address = record s {
    codes = erase address s.codes;
    verified = insert address (now + cfg.verified_ttl) s.verified;
  }

  verify_entry-right :
      (s : Service) (now : ℕ) (address code : String) (entry : CodeEntry)
      → now ≤ entry.expires_at
      → entry.attempts < cfg.max_attempts
      → (code_hash std cfg entry.salt code == entry.hash) ≡ true
      → verify_entry std cfg s now address code (some entry)
        ≡ (verified_state s now address, ok true)
  unfolding verify_entry
  verify_entry-right s now address code entry young few right =
      let fresh : ltb entry.expires_at now ≡ false = ground arith in
      let allowed : leb cfg.max_attempts entry.attempts ≡ false = ground arith in
      rw (fresh, allowed, right) refl

  verify_stored :
      (s : Service) (sent now : ℕ) (email address given code salt : String)
      → 0 < cfg.max_attempts
      → normalize_email std cfg email ≡ some address
      → trim_space given ≡ code
      → byte_length code ≡ 6
      → now ≤ sent + cfg.code_ttl
      → verify_code std cfg (store_code std cfg s sent address code salt) now email given ≡ (
        verified_state
            (prune_verified now (store_code std cfg s sent address code salt))
            now
            address,
        ok true,
      )
  unfolding verify_code on_email verify_trimmed store_code
  verify_stored s sent now email address given code salt positive known typed six young =
      rw (known, typed, six, lookup-insert address address _ s.codes, eq_refl address)
        (verify_entry-right _ now address code _ young positive
          (eq_refl (code_hash std cfg salt code)))

  consume_verified-verified :
      (s : Service) (now last : ℕ) (email address : String)
      → normalize_email std cfg email ≡ some address
      → last ≤ now + cfg.verified_ttl
      → (consume_verified std cfg (verified_state s now address) last email).1 ≡ ok true
  unfolding consume_verified on_email consume_entry
  consume_verified-verified s now last email address known young =
      let in_time : ltb (now + cfg.verified_ttl) last ≡ false = ground arith in
      let kept =
        lookup-prune (λ t. t) last address (now + cfg.verified_ttl)
          (insert address (now + cfg.verified_ttl) s.verified)
          (ground (
            arith,
            lookup-insert address address (now + cfg.verified_ttl) s.verified,
            eq_refl address,
          ))
          young in
      rw (known, kept, in_time) refl

  -- Where the configuration allows an attempt and `sendCode` has the random values, the code that it
  -- sends verifies the address within its time, whatever becomes of the mail; then the address can be
  -- consumed within its time, and the same code does not verify it again.
  pub verify_code-send_code :
      (s : Service) (sent now last : ℕ) (email address : String) (notify : Bool)
      (given code salt : String) (mail : Option String) (bot : Option (Bool × Option String))
      → 0 < cfg.max_attempts
      → normalize_email std cfg email ≡ some address
      → trim_space given ≡ code
      → byte_length code ≡ 6
      → now ≤ sent + cfg.code_ttl
      → last ≤ now + cfg.verified_ttl
      → let start = (send_code std cfg s sent email notify (some code) (some salt) mail bot).0 in
        let done = verify_code std cfg start now email given in
        (done.1 ≡ ok true)
        × ((consume_verified std cfg done.0 last email).1 ≡ ok true)
        × ((verify_code std cfg done.0 last email given).1 ≡ ok false)
  unfolding send_code on_email send_to
  verify_code-send_code s sent now last email address notify given code salt mail bot positive known
        typed six young in_time =
      let stored = store_code std cfg s sent address code salt in
      let gone : lookup address (erase address stored.codes) ≡ none =
        ground (arith, lookup-erase address address stored.codes, eq_refl address) in
      rw
        (
          known,
          verify_stored s sent now email address given code salt positive known typed six young,
        )
        (
          refl,
          consume_verified-verified (prune_verified now stored) now last email address known
              in_time,
          (verify_code-none std cfg (verified_state (prune_verified now stored) now address) last
              email address given known gone).0,
        )
