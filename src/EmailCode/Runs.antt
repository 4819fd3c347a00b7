-- ===== src/EmailCode/Runs.antt =====
-- internal/service/emailcode/service.go: any calls, one after the other. Each operation holds the lock
-- of the service while it reads and writes the maps.
use combox_backend.Prelude.{ℕ, ◌<◌, String, Bool, true, false, Option, List, [], ◌∷◌}
use combox_backend.EmailCode.{
  Std, Config, Service, new_service, normalize_email, send_code, verify_code, consume_verified,
}
use combox_backend.EmailCode.Keys.{issue_login_key, validate_login_key, consume_login_key}
use combox_backend.EmailCode.Stages.{IsStaged, new_service-IsStaged}
use combox_backend.EmailCode.Stages.Codes.{
  on_email-LeavesStaged, send_to-LeavesStaged, verify_code-LeavesStaged,
  consume_verified-LeavesStaged,
}
use combox_backend.EmailCode.Stages.Keys.{issue_login_key-LeavesStaged, key_op-LeavesStaged}

-- The calls, each with its time, the random values and the answers of the mail and of the bot.
pub data Call : Type 0 where
  sends :
      ℕ
      → String
      → Bool
      → Option String
      → Option String
      → Option String
      → Option (Bool × Option String)
      → Call
  verifies : ℕ → String → String → Call
  consumes : ℕ → String → Call
  issues : ℕ → String → Option String → Option String → Call
  validates uses : ℕ → String → String → Call

module _ (std : Std) (cfg : Config) where
  unfoldable pub after : Service → Call → Service
  unfolding send_code verify_code consume_verified issue_login_key validate_login_key
      consume_login_key
  after s (sends now email notify code salt mail bot) =
      (send_code std cfg s now email notify code salt mail bot).0
  after s (verifies now email code) = (verify_code std cfg s now email code).0
  after s (consumes now email) = (consume_verified std cfg s now email).0
  after s (issues now email key salt) = (issue_login_key std cfg s now email key salt).0
  after s (validates now email key) = (validate_login_key std cfg s now email key).0
  after s (uses now email key) = (consume_login_key std cfg s now email key).0

  unfoldable pub after_all : Service → List Call → Service
  unfolding after
  after_all s [] = s
  after_all s (call ∷ calls) = after_all (after s call) calls

  after-IsStaged :
      (s : Service) (call : Call)
      → 0 < cfg.max_attempts
      → IsStaged cfg s
      → IsStaged cfg (after s call)
  unfolding after send_code
  after-IsStaged s (sends now email notify code salt mail bot) p h =
      (on_email-LeavesStaged std cfg s _ (normalize_email std cfg email) h (λ address.
        send_to-LeavesStaged std cfg s now notify code salt mail bot address p h)).staged
  after-IsStaged s (verifies now email code) p h =
      (verify_code-LeavesStaged std cfg s now email code h).staged
  after-IsStaged s (consumes now email) p h =
      (consume_verified-LeavesStaged std cfg s now email h).staged
  after-IsStaged s (issues now email key salt) p h =
      (issue_login_key-LeavesStaged std cfg s now email key salt h).staged
  after-IsStaged s (validates now email key) p h =
      (key_op-LeavesStaged std cfg s now email key false h).staged
  after-IsStaged s (uses now email key) p h =
      (key_op-LeavesStaged std cfg s now email key true h).staged

  all-IsStaged :
      (s : Service) (calls : List Call)
      → 0 < cfg.max_attempts
      → IsStaged cfg s
      → IsStaged cfg (after_all s calls)
  unfolding after_all
  all-IsStaged s [] p h = h
  all-IsStaged s (call ∷ calls) p h =
      all-IsStaged (after s call) calls p (after-IsStaged s call p h)

  -- Where the configuration allows an attempt, after any calls on a new service an address stands in
  -- one of the maps of codes, of verified addresses and of login keys at most, and each code that is
  -- kept has fewer attempts than are allowed.
  pub after_all-IsStaged :
      (calls : List Call) → 0 < cfg.max_attempts → IsStaged cfg (after_all new_service calls)
  after_all-IsStaged calls p = all-IsStaged new_service calls p (new_service-IsStaged cfg)
