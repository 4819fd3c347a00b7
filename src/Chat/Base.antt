-- ===== src/Chat/Base.antt =====
-- internal/service/chat: the errors (service_types.go, service_helpers.go), and the calls of a
-- service. An operation reads and writes what the repositories keep, `Store`; it hands the store back
-- after an error too, since what was written stays written.
use combox_backend.Prelude.{String, Bool, true, false, Option, none, some, []}
use combox_backend.Prelude.Dict.{Dict}

-- `strings.ToLower` and `strings.EqualFold`, whose tables for letters outside ASCII are not modelled,
-- and `uuid.Parse`.
pub record Std : Type 0 where
  pub to_lower : String → String
  pub equal_fold : String → String → Bool
  pub parse_uuid : String → Bool

-- An error of a repository: one of the sentinels, or another one with its text.
pub data Fault : Type 0 where
  chat_not_found message_not_found poll_not_found invalid_attachments : Fault
  folder_not_found folder_name_taken folder_limit : Fault
  not_configured : Fault
  other : String → Fault

pub record Error : Type 0 where
  pub code : String
  pub message_key : String
  pub details : Dict String
  pub cause : Option Fault

abbrev pub invalid_arg : String → Error
invalid_arg key = record {
  code = "invalid_argument";
  message_key = key;
  details = [];
  cause = none;
}

abbrev pub forbidden : String → Error
forbidden key = record { code = "forbidden"; message_key = key; details = []; cause = none }

abbrev pub internal : Fault → Error
internal fault = record {
  code = "internal";
  message_key = "error.internal";
  details = [];
  cause = some fault;
}

abbrev pub not_found : String → Option Fault → Error
not_found key cause = record { code = "not_found"; message_key = key; details = []; cause = cause }

abbrev pub conflict : String → Error
conflict key = record { code = "conflict"; message_key = key; details = []; cause = none }

abbrev pub already_exists : String → Error
already_exists key = record {
  code = "already_exists";
  message_key = key;
  details = [];
  cause = none;
}

-- `mapChatOrMessageRepoError`
unfoldable pub map_fault : Fault → Error
map_fault chat_not_found = not_found "error.chat.not_found" (some chat_not_found)
map_fault message_not_found = not_found "error.message.not_found" (some message_not_found)
map_fault poll_not_found = not_found "error.poll.not_found" (some poll_not_found)
map_fault invalid_attachments = invalid_arg "error.message.invalid_input"
map_fault folder_not_found = internal folder_not_found
map_fault folder_name_taken = internal folder_name_taken
map_fault folder_limit = internal folder_limit
map_fault not_configured = internal not_configured
map_fault (other text) = internal (other text)

pub data Result {ℓ} (A : Type ℓ) : Type ℓ where
  ok : A → Result A
  err : Error → Result A

-- Of a result, if there is one.
abbrev pub Holds {ℓ} : {A : Type ℓ} → (A → Type 0) → Result A → Type 0
Holds P (ok a) = P a
Holds P (err e) = Unit {0}

-- What a repository answers to a read.
pub data Answer {ℓ} (A : Type ℓ) : Type ℓ where
  got : A → Answer A
  failed : Fault → Answer A

abbrev pub Action : Type 0 → Type 0 → Type 0
Action Store A = Store → Store × Result A

abbrev pub answered {ℓ} : {A : Type ℓ} → (Fault → Error) → Answer A → Result A
answered as_error (got a) = ok a
answered as_error (failed f) = err (as_error f)

abbrev pub written : (Fault → Error) → Option Fault → Result (Unit {0})
written as_error none = ok tt
written as_error (some f) = err (as_error f)

-- The rest of an operation runs on the store that a step left, unless the step failed.
abbrev pub then_run :
    {Store A B : Type 0} → (A → Action Store B) → Store × Result A → Store × Result B
then_run f (s, ok a) = f a s
then_run f (s, err e) = (s, err e)

infixl 5 ◌>>=◌ ◌>>◌
unfoldable pub ◌>>=◌ : {Store A B : Type 0} → Action Store A → (A → Action Store B) → Action Store B
◌>>=◌ m f s = then_run f (m s)

abbrev pub ◌>>◌ : {Store B : Type 0} → Action Store (Unit {0}) → Action Store B → Action Store B
m >> k = m >>= λ _. k

unfoldable pub pure : {Store A : Type 0} → A → Action Store A
pure a s = (s, ok a)

unfoldable pub raise : {Store A : Type 0} → Error → Action Store A
raise e s = (s, err e)

-- A result that needs no store.
unfoldable pub lift : {Store A : Type 0} → Result A → Action Store A
lift r s = (s, r)

abbrev pub guard_result : Bool → Error → Result (Unit {0})
guard_result true e = ok tt
guard_result false e = err e

-- `if !ok { return err }`
unfoldable pub require : {Store : Type 0} → Bool → Error → Action Store (Unit {0})
require test e s = (s, guard_result test e)

unfoldable pub ask : {Store A : Type 0} → (Store → Answer A) → (Fault → Error) → Action Store A
ask read as_error s = (s, answered as_error (read s))

unfoldable pub tell :
    {Store : Type 0} → (Store → Store × Option Fault) → (Fault → Error) → Action Store (Unit {0})
tell write as_error s = let (s', fault) = write s in (s', written as_error fault)
