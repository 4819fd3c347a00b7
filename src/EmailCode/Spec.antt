-- ===== src/EmailCode/Spec.antt =====
-- internal/service/emailcode/service.go: what the service promises, without its three maps and their
-- pruning. Each address stands in one stage, and a call moves the stage of its address only.
pub mod Relation
pub mod Codes
pub mod Keys
pub mod Runs
use combox_backend.Prelude.{
  ℕ, ◌+◌, suc, String, Bool, true, false, not, ◌==◌, eqb, leb, ltb, if◌then◌else◌, Option, none,
  some, List, [], ◌∷◌,
}
use combox_backend.Prelude.Text.{trim_space}
use combox_backend.EmailCode.{
  Std, CodeEntry, Config, Result, ok, err, invalid_email, random_failed, delivery, bot_answer,
  normalize_email, code_hash, byte_length,
}

-- An address has nothing, a code, a verification until a time, or a login key.
pub data Stage : Type 0 where
  idle : Stage
  coded : CodeEntry → Stage
  confirmed : ℕ → Stage
  keyed : CodeEntry → Stage

abbrev pub Stages : Type 0
Stages = String → Stage

unfoldable pub put : String → Stage → Stages → Stages
put email stage stages x = if email == x then stage else stages x

-- With the address and its stage, if the address is valid.
unfoldable pub at_address {ℓ} :
    {A : Type ℓ} → Stages → (Stage → Stage × Result A) → Option String → Stages × Result A
unfolding put
at_address stages f none = (stages, err invalid_email)
at_address stages f (some email) =
    let (stage, answer) = f (stages email) in (put email stage stages, answer)

module _ (std : Std) (cfg : Config) where
  abbrev pub fresh_code : ℕ → String → String → CodeEntry
  fresh_code now code salt = record {
    hash = code_hash std cfg salt code;
    salt = salt;
    expires_at = now + cfg.code_ttl;
    attempts = 0;
  }

  abbrev pub fresh_key : ℕ → String → String → CodeEntry
  fresh_key now key salt = record {
    hash = code_hash std cfg salt key;
    salt = salt;
    expires_at = now + cfg.verified_ttl;
    attempts = 0;
  }

  -- A new code takes the place of whatever an address has.
  unfoldable pub sent :
      ℕ
      → Bool
      → Option String
      → Option String
      → Option String
      → Option (Bool × Option String)
      → Stage
      → Stage × Result (Unit {0})
  unfolding delivery bot_answer
  sent now notify none salt mail bot stage = (stage, err random_failed)
  sent now notify (some code) none mail bot stage = (stage, err random_failed)
  sent now notify (some code) (some salt) mail bot stage =
      (coded (fresh_code now code salt), delivery mail (bot_answer notify bot))

  missed_stage : CodeEntry → Stage
  missed_stage entry =
      if leb cfg.max_attempts (suc entry.attempts)
      then idle
      else coded (record entry { attempts = suc entry.attempts })

  tried : ℕ → String → CodeEntry → Stage × Result Bool
  unfolding missed_stage code_hash
  tried now code entry =
      if ltb entry.expires_at now
      then (idle, ok false)
      else if leb cfg.max_attempts entry.attempts
      then (idle, ok false)
      else if not (code_hash std cfg entry.salt code == entry.hash)
      then (missed_stage entry, ok false)
      else (confirmed (now + cfg.verified_ttl), ok true)

  -- The right code in time confirms the address.
  verified_by : ℕ → String → Stage → Stage × Result Bool
  unfolding tried
  verified_by now code idle = (idle, ok false)
  verified_by now code (coded entry) = tried now code entry
  verified_by now code (confirmed until) = (confirmed until, ok false)
  verified_by now code (keyed entry) = (keyed entry, ok false)

  unfoldable pub verified_if : ℕ → String → Stage → Stage × Result Bool
  unfolding verified_by byte_length
  verified_if now code stage =
      if not (eqb (byte_length code) 6) then (stage, ok false) else verified_by now code stage

  -- A confirmation is used once.
  unfoldable pub consumed : ℕ → Stage → Stage × Result Bool
  consumed now idle = (idle, ok false)
  consumed now (coded entry) = (coded entry, ok false)
  consumed now (confirmed until) = (idle, ok (not (ltb until now)))
  consumed now (keyed entry) = (keyed entry, ok false)

  given : ℕ → Option String → Option String → ℕ → Stage × Result String
  given now none salt until = (confirmed until, err random_failed)
  given now (some key) none until = (confirmed until, err random_failed)
  given now (some key) (some salt) until = (keyed (fresh_key now key salt), ok key)

  -- A confirmed address is given a login key.
  unfoldable pub issued : ℕ → Option String → Option String → Stage → Stage × Result String
  unfolding given
  issued now key salt idle = (idle, ok "")
  issued now key salt (coded entry) = (coded entry, ok "")
  issued now key salt (confirmed until) =
      if ltb until now then (idle, ok "") else given now key salt until
  issued now key salt (keyed entry) = (keyed entry, ok "")

  matching : ℕ → Bool → String → CodeEntry → Stage × Result Bool
  unfolding code_hash
  matching now uses key entry =
      if ltb entry.expires_at now
      then (idle, ok false)
      else if not (code_hash std cfg entry.salt key == entry.hash)
      then (keyed entry, ok false)
      else (if uses then idle else keyed entry, ok true)

  -- A login key is matched, and goes if it is used.
  matched : ℕ → Bool → String → Stage → Stage × Result Bool
  unfolding matching
  matched now uses key idle = (idle, ok false)
  matched now uses key (coded entry) = (coded entry, ok false)
  matched now uses key (confirmed until) = (confirmed until, ok false)
  matched now uses key (keyed entry) = matching now uses key entry

  unfoldable pub matched_if : ℕ → Bool → String → Stage → Stage × Result Bool
  unfolding matched
  matched_if now uses key stage =
      if key == "" then (stage, ok false) else matched now uses key stage
