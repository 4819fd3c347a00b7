-- ===== src/EmailCode/Spec/Runs.antt =====
-- internal/service/emailcode/service.go: a run of calls is answered as the stages say.
use combox_backend.Prelude.{ℕ, ◌≤◌, String, Bool, true, false, List, [], ◌∷◌, ◌≡◌, refl, ap}
use combox_backend.Prelude.Text.{trim_space}
use combox_backend.EmailCode.{
  Std, Config, Service, Result, new_service, normalize_email, send_code, verify_code,
  consume_verified,
}
use combox_backend.EmailCode.Keys.{issue_login_key, validate_login_key, consume_login_key}
use combox_backend.EmailCode.Runs.{Call, sends, verifies, consumes, issues, validates, uses}
use combox_backend.EmailCode.Spec.{
  Stages, idle, at_address, sent, verified_if, consumed, issued, matched_if,
}
use combox_backend.EmailCode.Spec.Relation.{Refines, Agrees, later-Refines, new_service-Refines}
use combox_backend.EmailCode.Spec.Codes.{
  send_code-Agrees, verify_code-Agrees, consume_verified-Agrees,
}
use combox_backend.EmailCode.Spec.Keys.{
  issue_login_key-Agrees, validate_login_key-Agrees, consume_login_key-Agrees,
}

-- What a caller gets back.
pub data Reply : Type 0 where
  told : Result (Unit {0}) → Reply
  checked : Result Bool → Reply
  handed : Result String → Reply

abbrev pub time_of : Call → ℕ
time_of (sends now email notify code salt mail bot) = now
time_of (verifies now email code) = now
time_of (consumes now email) = now
time_of (issues now email key salt) = now
time_of (validates now email key) = now
time_of (uses now email key) = now

-- The clock of the calls does not go back.
abbrev pub InOrder : ℕ → List Call → Type 0
InOrder now [] = Unit {0}
InOrder now (call ∷ calls) = (now ≤ time_of call) × InOrder (time_of call) calls

abbrev replying {ℓ} : {S : Type 0} {A : Type ℓ} → (A → Reply) → S × A → S × Reply
replying f out = (out.0, f out.1)

module _ (std : Std) (cfg : Config) where
  -- A call of the service.
  respond : Service → Call → Service × Reply
  unfolding send_code verify_code consume_verified issue_login_key validate_login_key
      consume_login_key
  respond s (sends now email notify code salt mail bot) =
      replying told (send_code std cfg s now email notify code salt mail bot)
  respond s (verifies now email code) = replying checked (verify_code std cfg s now email code)
  respond s (consumes now email) = replying checked (consume_verified std cfg s now email)
  respond s (issues now email key salt) =
      replying handed (issue_login_key std cfg s now email key salt)
  respond s (validates now email key) =
      replying checked (validate_login_key std cfg s now email key)
  respond s (uses now email key) = replying checked (consume_login_key std cfg s now email key)

  -- The same call of the stages.
  behave : Stages → Call → Stages × Reply
  unfolding at_address normalize_email sent verified_if consumed issued matched_if trim_space
  behave stages (sends now email notify code salt mail bot) = replying told (
      at_address stages (sent std cfg now notify code salt mail bot)
        (normalize_email std cfg email))
  behave stages (verifies now email code) = replying checked (
      at_address stages (verified_if std cfg now (trim_space code)) (normalize_email std cfg email))
  behave stages (consumes now email) =
      replying checked (at_address stages (consumed std cfg now) (normalize_email std cfg email))
  behave stages (issues now email key salt) =
      replying handed
        (at_address stages (issued std cfg now key salt) (normalize_email std cfg email))
  behave stages (validates now email key) = replying checked (
      at_address stages (matched_if std cfg now false (trim_space key))
        (normalize_email std cfg email))
  behave stages (uses now email key) = replying checked (
      at_address stages (matched_if std cfg now true (trim_space key))
        (normalize_email std cfg email))

  unfoldable pub replies : Service → List Call → List Reply
  unfolding respond
  replies s [] = []
  replies s (call ∷ calls) = (respond s call).1 ∷ replies (respond s call).0 calls

  unfoldable pub due_replies : Stages → List Call → List Reply
  unfolding behave
  due_replies stages [] = []
  due_replies stages (call ∷ calls) =
      (behave stages call).1 ∷ due_replies (behave stages call).0 calls

  record Follows (now : ℕ) (out : Service × Reply) (due : Stages × Reply) : Type 0 where
    refined : Refines now out.0 due.0
    answer : out.1 ≡ due.1

  reply-Follows :
      {A : Type 0} (now : ℕ) (f : Result A → Reply) (out : Service × Result A)
      (due : Stages × Result A)
      → Agrees now out due
      → Follows now (replying f out) (replying f due)
  reply-Follows now f out due h = record { refined = h.refined; answer = ap f h.answer }

  respond-Follows :
      (s : Service) (stages : Stages) (call : Call)
      → Refines (time_of call) s stages
      → Follows (time_of call) (respond s call) (behave stages call)
  unfolding respond behave
  respond-Follows s stages (sends now email notify code salt mail bot) h =
      reply-Follows now told _ _
        (send_code-Agrees std cfg s stages now email notify code salt mail bot h)
  respond-Follows s stages (verifies now email code) h =
      reply-Follows now checked _ _ (verify_code-Agrees std cfg s stages now email code h)
  respond-Follows s stages (consumes now email) h =
      reply-Follows now checked _ _ (consume_verified-Agrees std cfg s stages now email h)
  respond-Follows s stages (issues now email key salt) h =
      reply-Follows now handed _ _ (issue_login_key-Agrees std cfg s stages now email key salt h)
  respond-Follows s stages (validates now email key) h =
      reply-Follows now checked _ _ (validate_login_key-Agrees std cfg s stages now email key h)
  respond-Follows s stages (uses now email key) h =
      reply-Follows now checked _ _ (consume_login_key-Agrees std cfg s stages now email key h)

  replies-Refines :
      (now : ℕ) (s : Service) (stages : Stages) (calls : List Call)
      → InOrder now calls
      → Refines now s stages
      → replies s calls ≡ due_replies stages calls
  unfolding replies due_replies
  replies-Refines now s stages [] order h = refl
  replies-Refines now s stages (call ∷ calls) order h =
      let next =
        respond-Follows s stages call (later-Refines now (time_of call) s stages order.0 h) in
      rw next.answer (
        ap (λ rest. (behave stages call).1 ∷ rest)
          (replies-Refines (time_of call) (respond s call).0 (behave stages call).0 calls order.1
            next.refined))

  -- Calls whose times do not go back get from a new service the replies of a machine that keeps one
  -- stage for each address, with no maps, no pruning and no address in reach of another: idle, coded,
  -- confirmed or keyed.
  pub replies-due_replies :
      (calls : List Call)
      → InOrder 0 calls
      → replies new_service calls ≡ due_replies (λ x. idle) calls
  replies-due_replies calls order =
      replies-Refines 0 new_service (λ x. idle) calls order new_service-Refines
