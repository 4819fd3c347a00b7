-- ===== src/Privacy/Service/Settings.antt =====
-- internal/service/privacy/service.go: `normalizeIDs`, `Get` and `Set`. `Set` hands back the calls of
-- `Upsert` that it made, beside its result.
pub mod Normal
pub mod Saving
pub mod Reading
use combox_backend.Prelude.{
  String, Bool, true, false, not, ◌==◌, if◌then◌else◌, Option, none, some, List, [], ◌∷◌, ◌++◌, map,
}
use combox_backend.Prelude.Text.{trim_space}
use combox_backend.Prelude.Dict.{Dict, has, insert}
use combox_backend.Privacy.Types.{
  Row, Setting, Result, ok, err, unknown_param, invalid_rule, invalid_id, repository, invalid_arg,
  internal_err, params, defaults, is_param, is_rule,
}
use combox_backend.Privacy.Service.{Repository, Memo, load_rows, row_for, new_setting, valid_uuid}

-- The type `Result` of types.go: every parameter, and the default rules.
pub record Settings : Type 0 where
  pub settings : List Setting
  pub defaults : Dict String

-- The variables of the loop: the ids that were seen, and those to return.
pub record Ids : Type 0 where
  pub seen : Dict (Unit {0})
  pub out : List String

abbrev invalid_input : String
invalid_input = "error.request.invalid_input"

module _ (r : Repository) where
  -- The body of the loop of `normalizeIDs`.
  unfoldable pub admit_id : Ids → String → Result Ids
  unfolding valid_uuid trim_space has insert
  admit_id ids raw =
      let id = trim_space raw in
      if id == ""
      then ok ids
      else if not (valid_uuid r id)
      then err (invalid_arg invalid_input invalid_id (("id", raw) ∷ []))
      else if has id ids.seen
      then ok ids
      else ok (record { seen = insert id tt ids.seen; out = ids.out ++ id ∷ [] })

  unfoldable pub normalize_from : Result Ids → List String → Result (List String)
  unfolding admit_id
  normalize_from (err e) raws = err e
  normalize_from (ok ids) [] = ok ids.out
  normalize_from (ok ids) (raw ∷ raws) = normalize_from (admit_id ids raw) raws

  -- `normalizeIDs`
  unfoldable pub normalize_ids : List String → Result (List String)
  unfolding normalize_from
  normalize_ids raws = normalize_from (ok (record { seen = []; out = [] })) raws

  get_from : Option Memo × Result (Dict Row) → Option Memo × Result Settings
  unfolding row_for new_setting
  get_from (m, err e) = (m, err e)
  get_from (m, ok rows) = (
    m,
    ok (record {
      settings = map (λ param. new_setting (row_for rows param)) params;
      defaults = defaults;
    }),
  )

  -- `Get`
  unfoldable pub get : Option Memo → String → Option Memo × Result Settings
  unfolding get_from load_rows valid_uuid trim_space
  get m user_id =
      let user = trim_space user_id in
      if not (valid_uuid r user)
      then (m, err (invalid_arg invalid_input invalid_id (("user_id", user) ∷ [])))
      else get_from (load_rows r m user)

  -- After `Upsert`, which answers with the text of its error, if any.
  upserted : String → Row → Option String → List (String × Row) × Result Setting
  unfolding new_setting
  upserted user row none = ((user, row) ∷ [], ok (new_setting row))
  upserted user row (some text) = ((user, row) ∷ [], err (internal_err (repository text)))

  with_deny :
      String
      → String
      → String
      → List String
      → Result (List String)
      → List (String × Row) × Result Setting
  unfolding upserted
  with_deny user param rule allow (err e) = ([], err e)
  with_deny user param rule allow (ok deny) =
      let row : Row = record { param = param; rule = rule; allow_ids = allow; deny_ids = deny } in
      upserted user row (r.upsert user row)

  with_allow :
      String
      → String
      → String
      → List String
      → Result (List String)
      → List (String × Row) × Result Setting
  unfolding with_deny normalize_ids
  with_allow user param rule deny_ids (err e) = ([], err e)
  with_allow user param rule deny_ids (ok allow) =
      with_deny user param rule allow (normalize_ids deny_ids)

  -- `Set` on a user, a parameter and a rule that are trimmed already.
  set_trimmed :
      String → String → String → List String → List String → List (String × Row) × Result Setting
  unfolding with_allow normalize_ids valid_uuid is_param is_rule
  set_trimmed user param rule allow_ids deny_ids =
      if not (valid_uuid r user)
      then ([], err (invalid_arg invalid_input invalid_id (("user_id", user) ∷ [])))
      else if not (is_param param)
      then ([], err (invalid_arg invalid_input unknown_param (("param", param) ∷ [])))
      else if not (is_rule rule)
      then ([], err (invalid_arg invalid_input invalid_rule (("rule", rule) ∷ [])))
      else with_allow user param rule deny_ids (normalize_ids allow_ids)

  -- `Set`
  unfoldable pub set :
      String → String → String → List String → List String → List (String × Row) × Result Setting
  unfolding set_trimmed trim_space
  set user_id param rule allow_ids deny_ids =
      set_trimmed (trim_space user_id) (trim_space param) (trim_space rule) allow_ids deny_ids
