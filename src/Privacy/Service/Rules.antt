-- ===== src/Privacy/Service/Rules.antt =====
-- internal/service/privacy/service.go: what `Evaluate` decides, against a Boolean formula over the row
-- that counts, which is the last one stored for the parameter.
use combox_backend.Prelude.{
  Bool-cases, inl, inr, String, Bool, true, false, not, ◌&&◌, ◌||◌, ◌==◌, if◌then◌else◌, eq_iff,
  any, Option, none, some, List, [], ◌∷◌, ◌≡◌, refl, ◌∙◌, sym, ap, subst, arith,
}
use combox_backend.Privacy.Service.Memoised.{load_rows-none}
use combox_backend.Privacy.Service.Decisions.{due-decision}
use combox_backend.Prelude.Text.{trim_space}
use combox_backend.Prelude.Dict.{Dict, lookup, has, insert, lookup-insert}
use combox_backend.Privacy.Types.{Row, ok, is_param, rule_everybody, rule_nobody, rule_contacts}
use combox_backend.Privacy.Service.{
  Repository, got, decide, evaluate, evaluate_rule, load_rows, row_for, are_contacts, contains_id,
  among, or_default, index, fetched, rows_or_fetch, known_rows, by_rows, asked, contact_or_ask,
  known_contact, evaluate_trimmed,
}

-- The last row of a parameter.
unfoldable pub last_row : Option Row → String → List Row → Option Row
last_row found param [] = found
last_row found param (row ∷ raw) =
    last_row (if row.param == param then some row else found) param raw

-- Whether a row lets a viewer see, where `contacts` says whether the two share a direct chat.
abbrev pub allows : Row → String → Bool → Bool
allows row viewer_id contacts =
    let listed = any (λ id. id == viewer_id) row.allow_ids in
    let denied = any (λ id. id == viewer_id) row.deny_ids in
    not denied
    && (row.rule == rule_everybody
        || listed && (row.rule == rule_nobody || row.rule == rule_contacts)
        || contacts && (row.rule == rule_contacts))

lookup-index :
    (rows : Dict Row) (param : String) (raw : List Row)
    → (param == "") ≡ false
    → lookup param (index rows raw) ≡ last_row (lookup param rows) param raw
unfolding index last_row
lookup-index rows param [] h = refl
lookup-index rows param (row ∷ raw) h =
    lookup-index (if row.param == "" then rows else insert row.param row rows) param raw h
    ∙ ap (λ found. last_row found param raw)
        (ground (
          arith,
          lookup-insert row.param param row rows,
          eq_iff row.param param,
          eq_iff row.param "",
          eq_iff param "",
        ))

among-any : (ids : List String) (v : String) → among ids v ≡ any (λ id. id == v) ids
unfolding among any
among-any [] v = refl
among-any (id ∷ ids) v = ground (arith, among-any ids v)

contains_id-any :
    (ids : List String) (v : String)
    → (v == "") ≡ false
    → contains_id ids v ≡ any (λ id. id == v) ids
unfolding contains_id
contains_id-any ids v h = rw (h, among-any ids v) refl

nobody_apart : (rule : String) → (rule == rule_nobody) ≡ true → (rule == rule_contacts) ≡ false
nobody_apart rule h =
    subst (λ x. (x == rule_contacts) ≡ false) (sym ((eq_iff rule rule_nobody).0 h)) refl

blank_is_no_param : is_param "" ≡ false
unfolding is_param has
blank_is_no_param = refl

is_param_nonblank : (param : String) → is_param param ≡ true → (param == "") ≡ false
is_param_nonblank param h = elim (Bool-cases (param == "")) [
  | inl e ↦
      let same = (eq_iff param "").0 e in
      let no = subst (λ x. is_param x ≡ false) (sym same) blank_is_no_param in cc
  | inr e ↦ e
]

-- The row that counts for a parameter: the last one that is stored, or else the default.
abbrev pub current_row : String → List Row → Row
current_row param raw = or_default param (last_row none param raw)

module _ (r : Repository) where
  are_contacts_lem :
      (v t : String) (c : Bool)
      → r.are_direct_contacts v t ≡ got c
      → (are_contacts r none v t).1 ≡ ok c
  unfolding are_contacts contact_or_ask known_contact asked
  are_contacts_lem v t c e = rw e refl

  evaluate_rule_lem :
      (v t : String) (row : Row) (c : Bool)
      → (v == "") ≡ false
      → r.are_direct_contacts v t ≡ got c
      → (evaluate_rule r none v t row).1 ≡ ok (allows row v c)
  unfolding evaluate_rule
  evaluate_rule_lem v t row c h e = ground (
    arith,
    contains_id-any row.deny_ids v h,
    contains_id-any row.allow_ids v h,
    are_contacts_lem v t c e,
    nobody_apart row.rule,
  )

  pub load_rows_lem :
      (t : String) (raw : List Row)
      → r.get_all t ≡ got raw
      → (load_rows r none t).1 ≡ ok (index [] raw)
  unfolding load_rows rows_or_fetch known_rows fetched
  load_rows_lem t raw e = rw e refl

  pub row_for_lem :
      (param : String) (raw : List Row)
      → is_param param ≡ true
      → row_for (index [] raw) param ≡ current_row param raw
  unfolding row_for lookup
  row_for_lem param raw h =
      ap (or_default param) (lookup-index [] param raw (is_param_nonblank param h))

  decide_lem :
      (v t p : String) (raw : List Row) (c : Bool)
      → is_param p ≡ true
      → (v == "") ≡ false
      → r.get_all t ≡ got raw
      → r.are_direct_contacts v t ≡ got c
      → (decide r none v t p).1 ≡ ok (allows (current_row p raw) v c)
  unfolding decide by_rows
  decide_lem v t p raw c is nonblank rows contacts =
      rw (load_rows-none r t, load_rows_lem t raw rows, row_for_lem p raw is)
        (evaluate_rule_lem v t (current_row p raw) c nonblank contacts)

  -- A question about a known parameter, between two different users, whose trimmed ids are not blank,
  -- and of whom the repository knows the rows and whether they are direct contacts: `Evaluate`
  -- answers by `allows` on the row that counts.
  pub evaluate_lem :
      (viewer target param : String) (raw : List Row) (c : Bool)
      → is_param (trim_space param) ≡ true
      → (trim_space viewer == "") ≡ false
      → (trim_space target == "") ≡ false
      → (trim_space viewer == trim_space target) ≡ false
      → r.get_all (trim_space target) ≡ got raw
      → r.are_direct_contacts (trim_space viewer) (trim_space target) ≡ got c
      → (evaluate r none viewer target param).1
        ≡ ok (allows (current_row (trim_space param) raw) (trim_space viewer) c)
  unfolding evaluate evaluate_trimmed
  evaluate_lem viewer target param raw c is v_given t_given apart rows contacts =
      rw (is, v_given, t_given, apart)
        (due-decision r (trim_space viewer) (trim_space target) (trim_space param)
          ∙ decide_lem _ _ _ raw c is v_given rows contacts)
