-- ===== src/Privacy/Service/Settings/Reading.antt =====
-- internal/service/privacy/service.go: what `Get` shows is what `Evaluate` decides by.
use combox_backend.Prelude.{
  String, true, ◌==◌, if◌then◌else◌, Option, none, some, List, [], ◌∷◌, map, All, map_same, ◌≡◌,
  refl, ap, eq_iff, Bool-cases, inl, inr,
}
use combox_backend.Prelude.Text.{trim_space}
use combox_backend.Prelude.Dict.{has}
use combox_backend.Privacy.Types.{Row, Setting, ok, params, defaults, is_param}
use combox_backend.Privacy.Service.{Repository, got, valid_uuid, new_setting, or_default}
use combox_backend.Privacy.Service.Memoised.{load_rows-none}
use combox_backend.Privacy.Service.Rules.{last_row, current_row, row_for_lem, load_rows_lem}
use combox_backend.Privacy.Service.Settings.{get, get_from}

params-IsParam : All (λ param. is_param param ≡ true) params
unfolding is_param has
params-IsParam = (
  refl,
  (refl, (refl, (refl, (refl, (refl, (refl, (refl, (refl, (refl, (refl, (refl, tt))))))))))),
)

chosen-param :
    (found : Option Row) (param : String) (row : Row)
    → (or_default param found).param ≡ param
    → (or_default param (if row.param == param then some row else found)).param ≡ param
unfolding or_default
chosen-param found param row h = elim (Bool-cases (row.param == param)) [
  | inl e ↦ rw e ((eq_iff row.param param).0 e)
  | inr e ↦ rw e h
]

last_row-param :
    (found : Option Row) (param : String) (raw : List Row)
    → (or_default param found).param ≡ param
    → (or_default param (last_row found param raw)).param ≡ param
unfolding last_row
last_row-param found param [] h = h
last_row-param found param (row ∷ raw) h =
    last_row-param (if row.param == param then some row else found) param raw
      (chosen-param found param row h)

-- The settings that are due: for each parameter, in the order of `Params`, that of the row that
-- counts.
abbrev pub due_settings : List Row → List Setting
due_settings raw = map (λ param. new_setting (current_row param raw)) params

settings-params :
    (raw : List Row) (names : List String)
    → map (λ s. s.param) (map (λ param. new_setting (current_row param raw)) names) ≡ names
unfolding new_setting or_default
settings-params raw [] = refl
settings-params raw (name ∷ names) =
    rw (last_row-param none name raw refl, settings-params raw names) refl

module _ (r : Repository) where
  -- For a valid user whose rows the repository knows, `Get` without a memo shows the default rules,
  -- and for each parameter the setting of the row that counts, which is a row of that parameter.
  pub get_lem :
      (user_id : String) (raw : List Row)
      → valid_uuid r (trim_space user_id) ≡ true
      → r.get_all (trim_space user_id) ≡ got raw
      → ((get r none user_id).1 ≡ ok (record { settings = due_settings raw; defaults = defaults }))
        × (map (λ s. s.param) (due_settings raw) ≡ params)
  unfolding get get_from
  get_lem user_id raw valid rows = (
    rw (valid, load_rows-none r (trim_space user_id), load_rows_lem r (trim_space user_id) raw rows)
        (ap (λ list. ok (record { settings = list; defaults = defaults }))
          (map_same (λ param. is_param param ≡ true)
            (λ param h. ap new_setting (row_for_lem r param raw h)) params params-IsParam)),
    settings-params raw params,
  )
