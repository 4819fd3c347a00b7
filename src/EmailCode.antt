-- ===== src/EmailCode.antt =====
-- internal/service/emailcode/service.go: login codes that go out by mail, and the login keys that a
-- verified address is given. `Std` holds what the source calls of strings.ToLower, net/mail and
-- crypto. Random values are arguments, `none` where the random source fails, and so are the time
-- and the answers of the mail sender and of the bot.
pub mod Keys
pub mod Stages
pub mod Runs
pub mod Guessing
pub mod Locked
pub mod Verifying
pub mod Spec
mod Tests
use Prim.Native.Char.{len_utf8}
use Prim.Native.String
use combox_backend.Prelude.{
  ℕ, ◌+◌, suc, String, Bool, true, false, not, ◌||◌, ◌==◌, eqb, leb, ltb, if◌then◌else◌, Option,
  none, some, List, [], ◌∷◌,
}
use combox_backend.Prelude.Text.{trim_space, append_text}
use combox_backend.Prelude.Dict.{Dict, lookup, insert, erase}

pub record Std : Type 0 where
  pub to_lower : String → String
  pub parse_address : String → Bool
  pub sha256_hex : String → String

pub record CodeEntry : Type 0 where
  pub hash : String
  pub salt : String
  pub expires_at : ℕ
  pub attempts : ℕ

-- `New` accepts only a positive `code_ttl` and `max_attempts`.
pub record Config : Type 0 where
  pub code_ttl : ℕ
  pub verified_ttl : ℕ
  pub max_attempts : ℕ

pub record Service : Type 0 where
  pub codes : Dict CodeEntry
  pub verified : Dict ℕ
  pub login_key : Dict CodeEntry

abbrev pub new_service : Service
new_service = record { codes = []; verified = []; login_key = [] }

pub data Error : Type 0 where
  invalid_email random_failed : Error
  send_failed : String → Error
  send_and_bot_failed : String → String → Error

pub data Result {ℓ} (A : Type ℓ) : Type ℓ where
  ok : A → Result A
  err : Error → Result A

unfoldable pub byte_length : String → ℕ
byte_length String.[] = 0
byte_length (String.◌∷◌ c s) = len_utf8 c + byte_length s

-- The entries that are not past their time.
unfoldable pub prune {ℓ} : {V : Type ℓ} → (V → ℕ) → ℕ → Dict V → Dict V
prune expiry now [] = []
prune expiry now ((email, v) ∷ m) =
    let rest = prune expiry now m in if ltb (expiry v) now then rest else (email, v) ∷ rest

-- `pruneExpiredVerifiedLocked`
abbrev pub prune_verified : ℕ → Service → Service
prune_verified now s = record s { verified = prune (λ expires_at. expires_at) now s.verified }

-- `pruneExpiredLoginKeysLocked`
abbrev pub prune_login_keys : ℕ → Service → Service
prune_login_keys now s = record s { login_key = prune (λ entry. entry.expires_at) now s.login_key }

-- The error that `sendCode` ends with, from those of the mail and of the bot. `bot` is what the
-- notifier answers, if there is one: whether it delivered, and its error.
bot_answer : Bool → Option (Bool × Option String) → Bool × Option String
bot_answer notify none = (false, none)
bot_answer notify (some answer) = if notify then answer else (false, none)

unfoldable pub delivery : Option String → Bool × Option String → Result (Unit {0})
delivery none bot = ok tt
delivery (some mail) (true, bot) = ok tt
delivery (some mail) (false, some bot) = err (send_and_bot_failed mail bot)
delivery (some mail) (false, none) = err (send_failed mail)

-- With the address, if it is valid.
unfoldable pub on_email {ℓ} :
    {A : Type ℓ} → Service → (String → Service × Result A) → Option String → Service × Result A
on_email s f none = (s, err invalid_email)
on_email s f (some email) = f email

module _ (std : Std) (cfg : Config) where
  -- `normalizeEmail`
  unfoldable pub normalize_email : String → Option String
  unfolding trim_space
  normalize_email raw =
      let email = trim_space (std.to_lower raw) in
      if email == "" then none else if std.parse_address email then some email else none

  -- `codeHash`
  unfoldable pub code_hash : String → String → String
  unfolding append_text
  code_hash salt code = std.sha256_hex (append_text salt (append_text ":" code))

  -- The critical section of `sendCode`.
  unfoldable pub store_code : Service → ℕ → String → String → String → Service
  unfolding erase insert code_hash
  store_code s now email code salt = record s {
    codes =
        insert email
          (record {
            hash = code_hash salt code;
            salt = salt;
            expires_at = now + cfg.code_ttl;
            attempts = 0;
          })
          s.codes;
    verified = erase email (prune_verified now s).verified;
    login_key = erase email s.login_key;
  }

  pub send_to :
      Service
      → ℕ
      → Bool
      → Option String
      → Option String
      → Option String
      → Option (Bool × Option String)
      → String
      → Service × Result (Unit {0})
  unfolding store_code delivery bot_answer
  send_to s now notify none salt mail bot email = (s, err random_failed)
  send_to s now notify (some code) none mail bot email = (s, err random_failed)
  send_to s now notify (some code) (some salt) mail bot email =
      (store_code s now email code salt, delivery mail (bot_answer notify bot))

  -- `sendCode`, with the random code and salt, the error of the mail and the answer of the bot.
  unfoldable pub send_code :
      Service
      → ℕ
      → String
      → Bool
      → Option String
      → Option String
      → Option String
      → Option (Bool × Option String)
      → Service × Result (Unit {0})
  unfolding send_to on_email normalize_email
  send_code s now email notify code salt mail bot =
      on_email s (send_to s now notify code salt mail bot) (normalize_email email)

  -- A wrong code counts, and the last one that is allowed takes the entry away.
  unfoldable pub missed : Service → String → CodeEntry → Service
  unfolding insert erase
  missed s email entry =
      if leb cfg.max_attempts (suc entry.attempts)
      then record s { codes = erase email s.codes }
      else record s {
        codes = insert email (record entry { attempts = suc entry.attempts }) s.codes;
      }

  verify_entry : Service → ℕ → String → String → Option CodeEntry → Service × Result Bool
  unfolding missed code_hash insert erase
  verify_entry s now email code none = (s, ok false)
  verify_entry s now email code (some entry) =
      if ltb entry.expires_at now
      then (record s { codes = erase email s.codes }, ok false)
      else if leb cfg.max_attempts entry.attempts
      then (record s { codes = erase email s.codes }, ok false)
      else if not (code_hash entry.salt code == entry.hash)
      then (missed s email entry, ok false)
      else (
        record s {
          codes = erase email s.codes;
          verified = insert email (now + cfg.verified_ttl) s.verified;
        },
        ok true,
      )

  verify_trimmed : Service → ℕ → String → String → Service × Result Bool
  unfolding verify_entry byte_length
  verify_trimmed s now code email =
      if not (eqb (byte_length code) 6)
      then (s, ok false)
      else (let pruned = prune_verified now s in
          verify_entry pruned now email code (lookup email pruned.codes))

  -- `VerifyCode`
  unfoldable pub verify_code : Service → ℕ → String → String → Service × Result Bool
  unfolding verify_trimmed on_email normalize_email trim_space
  verify_code s now email code =
      on_email s (verify_trimmed s now (trim_space code)) (normalize_email email)

  consume_entry : Service → ℕ → String → Option ℕ → Service × Result Bool
  unfolding erase
  consume_entry s now email none = (s, ok false)
  consume_entry s now email (some expires_at) =
      (record s { verified = erase email s.verified }, ok (not (ltb expires_at now)))

  -- `ConsumeVerified`; an entry that is past its time goes as well, with another answer.
  unfoldable pub consume_verified : Service → ℕ → String → Service × Result Bool
  unfolding consume_entry on_email normalize_email
  consume_verified s now email =
      on_email s
        (λ address.
          let pruned = prune_verified now s in
          consume_entry pruned now address (lookup address pruned.verified))
        (normalize_email email)
