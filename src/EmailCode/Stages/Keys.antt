-- ===== src/EmailCode/Stages/Keys.antt =====
-- internal/service/emailcode/service.go: the operations on login keys keep the stages of the
-- addresses.
use combox_backend.Prelude.{
  ℕ, String, Bool, true, false, not, ◌==◌, eq_iff, ltb, if◌then◌else◌, if_both, Option, none, some,
  ◌≡◌, refl, arith,
}
use combox_backend.Prelude.Text.{trim_space}
use combox_backend.Prelude.Dict.{lookup, has, insert, erase, has-insert, has-lookup-some}
use combox_backend.EmailCode.{Std, CodeEntry, Config, Service, normalize_email, code_hash}
use combox_backend.EmailCode.Keys.{
  give_key, issue_entry, issue_login_key, validate_entry, validate_trimmed, validate_login_key,
  use_entry, use_trimmed, consume_login_key,
}
use combox_backend.EmailCode.Stages.{
  IsStaged, prune_verified-IsStaged, prune_login_keys-IsStaged, drop_verified-IsStaged,
  drop_key-IsStaged, has-erased,
}
use combox_backend.EmailCode.Stages.Codes.{LeavesStaged, on_email-LeavesStaged}

module _ (std : Std) (cfg : Config) where
  -- A verified address trades its place for a key.
  key-IsStaged :
      (s : Service) (email : String) (entry : CodeEntry)
      → IsStaged cfg s
      → has email s.verified ≡ true
      → IsStaged cfg (record s {
        login_key = insert email entry s.login_key;
        verified = erase email s.verified;
      })
  key-IsStaged s email entry h here = record {
    few = h.few;
    one = λ other. ground (
      arith,
      has-erased email other s.verified,
      has-insert email other entry s.login_key,
      h.one other,
      eq_iff email other,
    );
  }

  give_key-LeavesStaged :
      (s : Service) (now : ℕ) (email : String) (key salt : Option String)
      → IsStaged cfg s
      → has email s.verified ≡ true
      → LeavesStaged std cfg (give_key std cfg s now email key salt)
  unfolding give_key
  give_key-LeavesStaged s now email none salt h here = record { staged = h }
  give_key-LeavesStaged s now email (some key) none h here = record { staged = h }
  give_key-LeavesStaged s now email (some key) (some salt) h here = record {
    staged = key-IsStaged s email _ h here;
  }

  issue_entry-LeavesStaged :
      (s : Service) (now : ℕ) (email : String) (key salt : Option String) (found : Option ℕ)
      → IsStaged cfg s
      → lookup email s.verified ≡ found
      → LeavesStaged std cfg (issue_entry std cfg s now email key salt found)
  unfolding issue_entry
  issue_entry-LeavesStaged s now email key salt none h e = record {
    staged = drop_verified-IsStaged cfg email s h;
  }
  issue_entry-LeavesStaged s now email key salt (some t) h e =
      if_both (LeavesStaged std cfg) (ltb t now)
        (λ old. record { staged = drop_verified-IsStaged cfg email s h })
        (λ fresh.
          give_key-LeavesStaged s now email key salt h (has-lookup-some email t s.verified e))

  pub issue_login_key-LeavesStaged :
      (s : Service) (now : ℕ) (email : String) (key salt : Option String)
      → IsStaged cfg s
      → LeavesStaged std cfg (issue_login_key std cfg s now email key salt)
  unfolding issue_login_key
  issue_login_key-LeavesStaged s now email key salt h =
      on_email-LeavesStaged std cfg s _ (normalize_email std cfg email) h (λ address.
        issue_entry-LeavesStaged _ now address key salt _
          (prune_login_keys-IsStaged cfg now _ (prune_verified-IsStaged cfg now s h)) refl)

  validate_entry-LeavesStaged :
      (s : Service) (now : ℕ) (key email : String) (found : Option CodeEntry)
      → IsStaged cfg s
      → LeavesStaged std cfg (validate_entry std cfg s now key email found)
  unfolding validate_entry
  validate_entry-LeavesStaged s now key email none h = record { staged = h }
  validate_entry-LeavesStaged s now key email (some entry) h =
      if_both (LeavesStaged std cfg) (ltb entry.expires_at now)
        (λ old. record { staged = drop_key-IsStaged cfg email s h })
        (λ fresh. record { staged = h })

  use_entry-LeavesStaged :
      (s : Service) (now : ℕ) (key email : String) (found : Option CodeEntry)
      → IsStaged cfg s
      → LeavesStaged std cfg (use_entry std cfg s now key email found)
  unfolding use_entry
  use_entry-LeavesStaged s now key email none h = record { staged = h }
  use_entry-LeavesStaged s now key email (some entry) h =
      if_both (LeavesStaged std cfg) (ltb entry.expires_at now)
        (λ old. record { staged = drop_key-IsStaged cfg email s h })
        (λ fresh.
          if_both (LeavesStaged std cfg) (not (code_hash std cfg entry.salt key == entry.hash))
            (λ wrong. record { staged = h })
            (λ right. record { staged = drop_key-IsStaged cfg email s h }))

  pub key_op-LeavesStaged :
      (s : Service) (now : ℕ) (email key : String) (use_it : Bool)
      → IsStaged cfg s
      → LeavesStaged std cfg (
          if use_it
          then consume_login_key std cfg s now email key
          else validate_login_key std cfg s now email key)
  unfolding consume_login_key validate_login_key validate_trimmed use_trimmed
  key_op-LeavesStaged s now email key true h =
      on_email-LeavesStaged std cfg s _ (normalize_email std cfg email) h (λ address.
        if_both (LeavesStaged std cfg) (trim_space key == "") (λ blank. record { staged = h })
          (λ given.
            use_entry-LeavesStaged _ now (trim_space key) address _
              (prune_login_keys-IsStaged cfg now s h)))
  key_op-LeavesStaged s now email key false h =
      on_email-LeavesStaged std cfg s _ (normalize_email std cfg email) h (λ address.
        if_both (LeavesStaged std cfg) (trim_space key == "") (λ blank. record { staged = h })
          (λ given.
            validate_entry-LeavesStaged _ now (trim_space key) address _
              (prune_login_keys-IsStaged cfg now s h)))
