-- ===== src/EmailCode/Keys.antt =====
-- internal/service/emailcode/service.go: the login key of a verified address.
use combox_backend.Prelude.{
  ℕ, ◌+◌, String, Bool, true, false, not, ◌==◌, ltb, if◌then◌else◌, Option, none, some,
}
use combox_backend.Prelude.Text.{trim_space}
use combox_backend.Prelude.Dict.{lookup, insert, erase}
use combox_backend.EmailCode.{
  Std, CodeEntry, Config, Service, random_failed, Result, ok, err, prune_verified, prune_login_keys,
  on_email, normalize_email, code_hash,
}

module _ (std : Std) (cfg : Config) where
  -- A key for an address that is verified. The random values come before the map changes.
  unfoldable pub give_key :
      Service → ℕ → String → Option String → Option String → Service × Result String
  unfolding insert erase code_hash
  give_key s now email none salt = (s, err random_failed)
  give_key s now email (some key) none = (s, err random_failed)
  give_key s now email (some key) (some salt) = (
    record s {
      login_key =
          insert email
            (record {
              hash = code_hash std cfg salt key;
              salt = salt;
              expires_at = now + cfg.verified_ttl;
              attempts = 0;
            })
            s.login_key;
      verified = erase email s.verified;
    },
    ok key,
  )

  unfoldable pub issue_entry :
      Service → ℕ → String → Option String → Option String → Option ℕ → Service × Result String
  unfolding give_key erase
  issue_entry s now email key salt none = (record s { verified = erase email s.verified }, ok "")
  issue_entry s now email key salt (some expires_at) =
      if ltb expires_at now
      then (record s { verified = erase email s.verified }, ok "")
      else give_key s now email key salt

  -- `IssueLoginKey`, with the random key and salt.
  unfoldable pub issue_login_key :
      Service → ℕ → String → Option String → Option String → Service × Result String
  unfolding issue_entry on_email normalize_email
  issue_login_key s now email key salt =
      on_email s
        (λ address.
          let pruned = prune_login_keys now (prune_verified now s) in
          issue_entry pruned now address key salt (lookup address pruned.verified))
        (normalize_email std cfg email)

  unfoldable pub validate_entry :
      Service → ℕ → String → String → Option CodeEntry → Service × Result Bool
  unfolding code_hash erase
  validate_entry s now key email none = (s, ok false)
  validate_entry s now key email (some entry) =
      if ltb entry.expires_at now
      then (record s { login_key = erase email s.login_key }, ok false)
      else (s, ok (code_hash std cfg entry.salt key == entry.hash))

  unfoldable pub validate_trimmed : Service → ℕ → String → String → Service × Result Bool
  unfolding validate_entry
  validate_trimmed s now key email =
      if key == ""
      then (s, ok false)
      else (let pruned = prune_login_keys now s in
          validate_entry pruned now key email (lookup email pruned.login_key))

  -- `ValidateLoginKey`
  unfoldable pub validate_login_key : Service → ℕ → String → String → Service × Result Bool
  unfolding validate_trimmed on_email normalize_email trim_space
  validate_login_key s now email key =
      on_email s (validate_trimmed s now (trim_space key)) (normalize_email std cfg email)

  unfoldable pub use_entry :
      Service → ℕ → String → String → Option CodeEntry → Service × Result Bool
  unfolding code_hash erase
  use_entry s now key email none = (s, ok false)
  use_entry s now key email (some entry) =
      if ltb entry.expires_at now
      then (record s { login_key = erase email s.login_key }, ok false)
      else if not (code_hash std cfg entry.salt key == entry.hash)
      then (s, ok false)
      else (record s { login_key = erase email s.login_key }, ok true)

  unfoldable pub use_trimmed : Service → ℕ → String → String → Service × Result Bool
  unfolding use_entry
  use_trimmed s now key email =
      if key == ""
      then (s, ok false)
      else (let pruned = prune_login_keys now s in
          use_entry pruned now key email (lookup email pruned.login_key))

  -- `ConsumeLoginKey`
  unfoldable pub consume_login_key : Service → ℕ → String → String → Service × Result Bool
  unfolding use_trimmed on_email normalize_email trim_space
  consume_login_key s now email key =
      on_email s (use_trimmed s now (trim_space key)) (normalize_email std cfg email)
