-- ===== src/Privacy/Service.antt =====
-- internal/service/privacy/service.go. The repository is a parameter: what it answers does not
-- change while one call chain runs. The memo of a context is passed on explicitly; `none` is a
-- context without one.
pub mod Keys
pub mod Memoised
pub mod Decisions
pub mod Rules
pub mod Settings
use Prim.Native.String
use combox_backend.Prelude.{
  ℕ, String, Bool, true, false, not, ◌||◌, ◌==◌, if◌then◌else◌, Option, none, some, List, [], ◌∷◌,
  ◌++◌, length,
}
use combox_backend.Prelude.Text.{trim_space}
use combox_backend.Prelude.Dict.{Dict, lookup, insert}
use combox_backend.Privacy.Types.{
  Row, Setting, Error, Result, ok, err, unknown_param, invalid_rule, invalid_id, repository,
  invalid_arg, internal_err, params, defaults, default_rule, is_param, is_rule, rule_everybody,
  rule_contacts, rule_nobody,
}

-- An answer of the repository: a value, or the text of its error.
pub data Answer {ℓ} (A : Type ℓ) : Type ℓ where
  got : A → Answer A
  failed : String → Answer A

-- The repository, and `uuid.Parse` of the uuid package.
pub record Repository : Type 0 where
  pub get_all : String → Answer (List Row)
  pub are_direct_contacts : String → String → Answer Bool
  pub upsert : String → Row → Option String
  pub parse_uuid : String → Bool

pub record Memo : Type 0 where
  pub rows : Dict (Dict Row)
  pub decisions : Dict Bool
  pub contacts : Dict Bool

abbrev pub new_memo : Memo
new_memo = record { rows = []; decisions = []; contacts = [] }

-- `containsID`
among : List String → String → Bool
among [] candidate = false
among (id ∷ ids) candidate = if id == candidate then true else among ids candidate

unfoldable pub contains_id : List String → String → Bool
unfolding among
contains_id ids candidate = if candidate == "" then false else among ids candidate

unfoldable pub or_default : String → Option Row → Row
unfolding default_rule
or_default param none = record {
  param = param;
  rule = default_rule param;
  allow_ids = [];
  deny_ids = [];
}
or_default param (some row) = row

-- `rowFor`; the row of the caller's parameter either way, since the second result only says whether
-- the row was stored.
unfoldable pub row_for : Dict Row → String → Row
unfolding or_default lookup
row_for rows param = or_default param (lookup param rows)

-- `newSetting`
unfoldable pub new_setting : Row → Setting
new_setting row = record {
  param = row.param;
  rule = row.rule;
  allow_ids = row.allow_ids;
  deny_ids = row.deny_ids;
  allow_count = length row.allow_ids;
  deny_count = length row.deny_ids;
}

pub index : Dict Row → List Row → Dict Row
unfolding insert
index rows [] = rows
index rows (row ∷ raw) = index (if row.param == "" then rows else insert row.param row rows) raw

-- The strings that a decision and a contact are remembered under.
pub join_key : String → String → String
join_key String.[] rest = String.◌∷◌ "|" rest
join_key (String.◌∷◌ c s) rest = String.◌∷◌ c (join_key s rest)

pub decision_key : String → String → String → String
decision_key viewer_id target_id param = join_key viewer_id (join_key target_id param)

pub contact_key : String → String → String
contact_key viewer_id target_id = join_key viewer_id target_id

pub keep_rows : Option Memo → String → Dict Row → Option Memo
keep_rows none user_id rows = none
keep_rows (some m) user_id rows = some (record m { rows = insert user_id rows m.rows })

pub keep_contact : Option Memo → String → Bool → Option Memo
keep_contact none key b = none
keep_contact (some m) key b = some (record m { contacts = insert key b m.contacts })

pub keep_decision : Option Memo → String → Bool → Option Memo
keep_decision none key b = none
keep_decision (some m) key b = some (record m { decisions = insert key b m.decisions })

pub known_rows : Option Memo → String → Option (Dict Row)
known_rows none user_id = none
known_rows (some m) user_id = lookup user_id m.rows

pub known_contact : Option Memo → String → Option Bool
known_contact none key = none
known_contact (some m) key = lookup key m.contacts

pub known_decision : Option Memo → String → Option Bool
known_decision none key = none
known_decision (some m) key = lookup key m.decisions

module _ (r : Repository) where
  -- `validUUID`
  unfoldable pub valid_uuid : String → Bool
  unfolding trim_space
  valid_uuid value = if trim_space value == "" then false else r.parse_uuid value

  fetched : Option Memo → String → Answer (List Row) → Option Memo × Result (Dict Row)
  unfolding index keep_rows
  fetched m user_id (failed text) = (m, err (internal_err (repository text)))
  fetched m user_id (got raw) = let rows = index [] raw in (keep_rows m user_id rows, ok rows)

  rows_or_fetch : Option Memo → String → Option (Dict Row) → Option Memo × Result (Dict Row)
  unfolding fetched
  rows_or_fetch m user_id (some rows) = (m, ok rows)
  rows_or_fetch m user_id none = fetched m user_id (r.get_all user_id)

  -- `loadRows`
  unfoldable pub load_rows : Option Memo → String → Option Memo × Result (Dict Row)
  unfolding rows_or_fetch known_rows
  load_rows m user_id = rows_or_fetch m user_id (known_rows m user_id)

  asked : Option Memo → String → Answer Bool → Option Memo × Result Bool
  unfolding keep_contact
  asked m key (failed text) = (m, err (internal_err (repository text)))
  asked m key (got b) = (keep_contact m key b, ok b)

  contact_or_ask : Option Memo → String → String → Option Bool → Option Memo × Result Bool
  unfolding asked
  contact_or_ask m viewer_id target_id (some b) = (m, ok b)
  contact_or_ask m viewer_id target_id none =
      asked m (contact_key viewer_id target_id) (r.are_direct_contacts viewer_id target_id)

  -- `areContacts`
  unfoldable pub are_contacts : Option Memo → String → String → Option Memo × Result Bool
  unfolding contact_or_ask known_contact
  are_contacts m viewer_id target_id =
      contact_or_ask m viewer_id target_id (known_contact m (contact_key viewer_id target_id))

  -- `evaluateRule`
  unfoldable pub evaluate_rule : Option Memo → String → String → Row → Option Memo × Result Bool
  unfolding contains_id are_contacts
  evaluate_rule m viewer_id target_id row =
      if contains_id row.deny_ids viewer_id
      then (m, ok false)
      else if row.rule == rule_everybody
      then (m, ok true)
      else if row.rule == rule_nobody
      then (m, ok (contains_id row.allow_ids viewer_id))
      else if row.rule == rule_contacts
      then (if contains_id row.allow_ids viewer_id
          then (m, ok true)
          else are_contacts m viewer_id target_id)
      else (m, ok false)

  by_rows : String → String → String → Option Memo × Result (Dict Row) → Option Memo × Result Bool
  unfolding evaluate_rule row_for
  by_rows viewer_id target_id param (m, err e) = (m, err e)
  by_rows viewer_id target_id param (m, ok rows) =
      evaluate_rule m viewer_id target_id (row_for rows param)

  -- `decide`
  unfoldable pub decide : Option Memo → String → String → String → Option Memo × Result Bool
  unfolding by_rows load_rows
  decide m viewer_id target_id param = by_rows viewer_id target_id param (load_rows m target_id)

  decided : String → Option Memo × Result Bool → Option Memo × Result Bool
  unfolding keep_decision
  decided key (m, err e) = (m, err e)
  decided key (m, ok b) = (keep_decision m key b, ok b)

  pub decision_or : Option Memo → String → String → String → Option Bool → Option Memo × Result Bool
  unfolding decided decide
  decision_or m viewer_id target_id param (some b) = (m, ok b)
  decision_or m viewer_id target_id param none =
      decided (decision_key viewer_id target_id param) (decide m viewer_id target_id param)

  -- `Evaluate` on ids and a parameter that are trimmed already.
  evaluate_trimmed : Option Memo → String → String → String → Option Memo × Result Bool
  unfolding is_param decision_or known_decision
  evaluate_trimmed m viewer_id target_id param =
      if not (is_param param)
      then (
        m,
        err (invalid_arg "error.request.invalid_input" unknown_param (("param", param) ∷ [])),
      )
      else if viewer_id == "" || target_id == ""
      then (m, ok false)
      else if viewer_id == target_id
      then (m, ok true)
      else decision_or m viewer_id target_id param
          (known_decision m (decision_key viewer_id target_id param))

  -- `Evaluate`
  unfoldable pub evaluate : Option Memo → String → String → String → Option Memo × Result Bool
  unfolding evaluate_trimmed trim_space
  evaluate m viewer_id target_id param =
      evaluate_trimmed m (trim_space viewer_id) (trim_space target_id) (trim_space param)
