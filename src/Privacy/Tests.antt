-- ===== src/Privacy/Tests.antt =====
-- The theorems of the privacy service at concrete requests.
use combox_backend.Prelude.{
  String, true, false, not, ◌==◌, [], ◌∷◌, none, some, map, ◌≡◌, refl, any,
}
use combox_backend.Prelude.Text.{trim_space}
use combox_backend.Privacy.Types.{Row, ok, rule_contacts, is_param, defaults}
use combox_backend.Privacy.Service.{Repository, got, new_memo, evaluate, valid_uuid, or_default}
use combox_backend.Privacy.Service.Decisions.{
  Query, evaluate_each, evaluate_alone, evaluate_each-memo,
}
use combox_backend.Privacy.Service.Rules.{last_row, evaluate_lem}
use combox_backend.Privacy.Service.Settings.{normalize_ids, get, set}
use combox_backend.Privacy.Service.Settings.Normal.{Normalised, normalize_ids-Normalised}
use combox_backend.Privacy.Service.Settings.Saving.{SetOutcome, set-SetOutcome}
use combox_backend.Privacy.Service.Settings.Reading.{due_settings, get_lem}

abbrev calls_row : Row
calls_row = record {
  param = "calls";
  rule = rule_contacts;
  allow_ids = [];
  deny_ids = "mallory" ∷ [];
}

abbrev repo : Repository
repo = record {
  get_all = λ user. got (calls_row ∷ []);
  are_direct_contacts = λ viewer target. got true;
  upsert = λ user row. none;
  parse_uuid = λ id. not (id == "nobody");
}

abbrev ask : String → Query
ask viewer = record { viewer = viewer; target = "bob"; param = "calls" }

evaluate_each-memo_example :
    evaluate_each repo (some new_memo) (ask "ann" ∷ ask "mallory" ∷ ask " ann" ∷ [])
    ≡ map (evaluate_alone repo) (ask "ann" ∷ ask "mallory" ∷ ask " ann" ∷ [])
unfolding trim_space
evaluate_each-memo_example = evaluate_each-memo repo (ask "ann" ∷ ask "mallory" ∷ ask " ann" ∷ []) (
  ((refl, (refl, (refl, tt))), (refl, (refl, (refl, tt)))),
  (
    ((refl, (refl, (refl, (refl, (refl, (refl, (refl, tt))))))), (refl, (refl, (refl, tt)))),
    (((refl, (refl, (refl, tt))), (refl, (refl, (refl, tt)))), tt),
  ),
)

evaluate_lem_example : (evaluate repo none "mallory" "bob" "calls").1 ≡ ok false
unfolding trim_space is_param any or_default last_row
evaluate_lem_example =
    evaluate_lem repo "mallory" "bob" "calls" (calls_row ∷ []) true refl refl refl refl refl refl

set-SetOutcome_example :
    SetOutcome repo "bob" "calls" rule_contacts
      ("ann" ∷ [])
      []
      (set repo "bob" "calls" rule_contacts ("ann" ∷ []) [])
unfolding trim_space
set-SetOutcome_example = set-SetOutcome repo "bob" "calls" rule_contacts ("ann" ∷ []) []

get_lem_example :
    (get repo none "bob").1
    ≡ ok (record { settings = due_settings (calls_row ∷ []); defaults = defaults })
unfolding trim_space valid_uuid
get_lem_example = (get_lem repo "bob" (calls_row ∷ []) refl refl).0

normalize_ids-Normalised_example :
    Normalised repo (" ann" ∷ "" ∷ "ann" ∷ []) (normalize_ids repo (" ann" ∷ "" ∷ "ann" ∷ []))
normalize_ids-Normalised_example = normalize_ids-Normalised repo (" ann" ∷ "" ∷ "ann" ∷ [])
