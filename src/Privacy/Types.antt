-- ===== src/Privacy/Types.antt =====
-- internal/service/privacy/types.go: the parameters, the rules, the rows and the errors.
use combox_backend.Prelude.{ℕ, String, Bool, ◌||◌, ◌==◌, Option, none, some, List, [], ◌∷◌}
use combox_backend.Prelude.Dict.{Dict, lookup, has}

abbrev pub rule_everybody : String
rule_everybody = "everybody"

abbrev pub rule_contacts : String
rule_contacts = "contacts"

abbrev pub rule_nobody : String
rule_nobody = "nobody"

-- `Params`
abbrev pub params : List String
params =
    "phone_number" ∷ "last_seen" ∷ "profile_photos" ∷ "forwarded_messages" ∷ "calls"
    ∷ "voice_messages" ∷ "messages" ∷ "birthday" ∷ "gifts" ∷ "bio" ∷ "saved_music" ∷ "invites" ∷ []

-- `Defaults`
abbrev pub defaults : Dict String
defaults =
    ("phone_number", rule_contacts)
    ∷ ("last_seen", rule_everybody)
    ∷ ("profile_photos", rule_everybody)
    ∷ ("forwarded_messages", rule_contacts)
    ∷ ("calls", rule_everybody)
    ∷ ("voice_messages", rule_everybody)
    ∷ ("messages", rule_everybody)
    ∷ ("birthday", rule_everybody)
    ∷ ("gifts", rule_everybody)
    ∷ ("bio", rule_everybody)
    ∷ ("saved_music", rule_everybody)
    ∷ ("invites", rule_everybody)
    ∷ []

-- `IsParam`
unfoldable pub is_param : String → Bool
unfolding has
is_param param = has param defaults

or_everybody : Option String → String
or_everybody none = rule_everybody
or_everybody (some rule) = rule

-- `DefaultRule`
unfoldable pub default_rule : String → String
unfolding or_everybody lookup
default_rule param = or_everybody (lookup param defaults)

-- `IsRule`
unfoldable pub is_rule : String → Bool
is_rule rule = rule == rule_everybody || rule == rule_contacts || rule == rule_nobody

pub record Row : Type 0 where
  pub param : String
  pub rule : String
  pub allow_ids : List String
  pub deny_ids : List String

pub record Setting : Type 0 where
  pub param : String
  pub rule : String
  pub allow_ids : List String
  pub deny_ids : List String
  pub allow_count : ℕ
  pub deny_count : ℕ

-- The sentinel causes, and an error of the repository.
pub data Cause : Type 0 where
  unknown_param invalid_rule invalid_id : Cause
  repository : String → Cause

pub record Error : Type 0 where
  pub code : String
  pub message_key : String
  pub details : Dict String
  pub cause : Cause

abbrev pub invalid_arg : String → Cause → Dict String → Error
invalid_arg key cause details = record {
  code = "invalid_argument";
  message_key = key;
  details = details;
  cause = cause;
}

abbrev pub internal_err : Cause → Error
internal_err cause = record {
  code = "internal";
  message_key = "error.internal";
  details = [];
  cause = cause;
}

pub data Result {ℓ} (A : Type ℓ) : Type ℓ where
  ok : A → Result A
  err : Error → Result A
