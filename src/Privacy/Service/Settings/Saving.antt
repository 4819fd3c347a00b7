-- ===== src/Privacy/Service/Settings/Saving.antt =====
-- internal/service/privacy/service.go: the outcomes of `Set`, and the parameters of `Get`.
use combox_backend.Prelude.{
  String, Bool, true, false, not, ◌&&◌, ◌||◌, if_both, any, Option, none, some, List, [], ◌∷◌, ◌≡◌,
  refl, sym, arith,
}
use combox_backend.Prelude.Text.{trim_space}
use combox_backend.Privacy.Types.{
  Row, Setting, Result, Error, ok, err, is_param, is_rule, internal_err, repository,
}
use combox_backend.Privacy.Service.{Repository, valid_uuid, new_setting}
use combox_backend.Privacy.Service.Settings.{
  normalize_ids, upserted, with_deny, with_allow, set_trimmed, set,
}
use combox_backend.Privacy.Service.Settings.Normal.{
  IsNormal, Normalised, is_bad, normalize_ids-Normalised,
}

not-false : (b : Bool) → not b ≡ false → b ≡ true
not-false true h = refl
not-false false h = sym h

-- A conjunction of five parts fails with each of the first three.
five_fail : (a b c d e : Bool) → (not a || not b || not c) ≡ true → (a && b && c && d && e) ≡ false
five_fail a b c d e h = ground arith

module _ (r : Repository) where
  -- A request that `Set` accepts.
  abbrev pub acceptable : String → String → String → List String → List String → Bool
  acceptable user param rule allow_ids deny_ids =
      valid_uuid r user
      && is_param param
      && is_rule rule
      && not (any (is_bad r) allow_ids)
      && not (any (is_bad r) deny_ids)

  -- The row that a request asks for.
  pub record IsRequested (param rule : String) (allow_ids deny_ids : List String) (row : Row)
      : Type 0 where
    pub param_kept : row.param ≡ param
    pub rule_kept : row.rule ≡ rule
    pub allow : IsNormal r allow_ids row.allow_ids
    pub deny : IsNormal r deny_ids row.deny_ids

  -- The calls of `Upsert`, and the result.
  pub data SetOutcome (user param rule : String) (allow_ids deny_ids : List String)
      : List (String × Row) × Result Setting → Type 0 where
    refused :
        (e : Error)
        → acceptable user param rule allow_ids deny_ids ≡ false
        → SetOutcome user param rule allow_ids deny_ids ([], err e)
    stored :
        (row : Row)
        → acceptable user param rule allow_ids deny_ids ≡ true
        → IsRequested param rule allow_ids deny_ids row
        → r.upsert user row ≡ none
        → SetOutcome user param rule allow_ids deny_ids ((user, row) ∷ [], ok (new_setting row))
    not_stored :
        (row : Row) (text : String)
        → acceptable user param rule allow_ids deny_ids ≡ true
        → IsRequested param rule allow_ids deny_ids row
        → r.upsert user row ≡ some text
        → SetOutcome user param rule allow_ids deny_ids
            ((user, row) ∷ [], err (internal_err (repository text)))

  module _ (user param rule : String) (allow_ids deny_ids : List String) where
    Out : List (String × Row) × Result Setting → Type 0
    Out = SetOutcome user param rule allow_ids deny_ids

    upserted-Outcome :
        (row : Row) (answer : Option String)
        → acceptable user param rule allow_ids deny_ids ≡ true
        → IsRequested param rule allow_ids deny_ids row
        → r.upsert user row ≡ answer
        → Out (upserted r user row answer)
    unfolding upserted Out
    upserted-Outcome row none fine row_fine e = stored row fine row_fine e
    upserted-Outcome row (some text) fine row_fine e = not_stored row text fine row_fine e

    with_deny-Outcome :
        (allow : List String) (deny : Result (List String))
        → valid_uuid r user ≡ true
        → is_param param ≡ true
        → is_rule rule ≡ true
        → IsNormal r allow_ids allow
        → Normalised r deny_ids deny
        → Out (with_deny r user param rule allow deny)
    unfolding with_deny Out
    with_deny-Outcome allow (err e) u p k a d = refused e (ground (arith, a.good))
    with_deny-Outcome allow (ok deny) u p k a d =
        upserted-Outcome _ _ (ground (arith, a.good, d.good))
          (record { param_kept = refl; rule_kept = refl; allow = a; deny = d }) refl

    with_allow-Outcome :
        (allow : Result (List String))
        → valid_uuid r user ≡ true
        → is_param param ≡ true
        → is_rule rule ≡ true
        → Normalised r allow_ids allow
        → Out (with_allow r user param rule deny_ids allow)
    unfolding with_allow Out
    with_allow-Outcome (err e) u p k a = refused e (ground arith)
    with_allow-Outcome (ok allow) u p k a =
        with_deny-Outcome allow (normalize_ids r deny_ids) u p k a
          (normalize_ids-Normalised r deny_ids)

    unfit :
        (e : Error)
        → (not (valid_uuid r user) || not (is_param param) || not (is_rule rule)) ≡ true
        → Out ([], err e)
    unfolding Out
    unfit e h = refused e (five_fail _ _ _ _ _ h)

    set_trimmed-Outcome : Out (set_trimmed r user param rule allow_ids deny_ids)
    unfolding set_trimmed Out
    set_trimmed-Outcome =
        if_both Out (not (valid_uuid r user)) (λ no. unfit _ (ground arith))
          (λ u.
            if_both Out (not (is_param param)) (λ no. unfit _ (ground arith))
              (λ p.
                if_both Out (not (is_rule rule)) (λ no. unfit _ (ground arith))
                  (λ k.
                    with_allow-Outcome (normalize_ids r allow_ids) (not-false _ u) (not-false _ p)
                      (not-false _ k) (normalize_ids-Normalised r allow_ids))))

  -- `Set` refuses a request without a call of `Upsert` exactly if the request is not acceptable;
  -- otherwise it stores the requested row with one call, and answers with the setting of that row,
  -- or with the error of the repository.
  pub set-SetOutcome :
      (user param rule : String) (allow_ids deny_ids : List String)
      → SetOutcome
          (trim_space user)
          (trim_space param)
          (trim_space rule)
          allow_ids
          deny_ids
          (set r user param rule allow_ids deny_ids)
  unfolding set Out
  set-SetOutcome user param rule allow_ids deny_ids =
      set_trimmed-Outcome (trim_space user) (trim_space param) (trim_space rule) allow_ids deny_ids
