-- ===== src/Privacy/Service/Settings/Normal.antt =====
-- internal/service/privacy/service.go: which ids `normalizeIDs` keeps.
use combox_backend.Prelude.{
  among_ids, NoRepeat, any-append, append-nil, append-cons, append-NoRepeat, String, Bool, true,
  false, not, ◌&&◌, ◌==◌, eq_iff, any, All, All-append, List, [], ◌∷◌, ◌++◌, ◌≡◌, ◌∙◌, refl, sym,
  arith, if_both, subst,
}
use combox_backend.Prelude.Text.{trim_space}
use combox_backend.Prelude.Dict.{has, insert, has-insert}
use combox_backend.Privacy.Types.{Result, ok, err}
use combox_backend.Privacy.Service.{Repository, valid_uuid}
use combox_backend.Privacy.Service.Settings.{Ids, admit_id, normalize_from, normalize_ids}

module _ (r : Repository) where
  -- An id that the caller gives and that is no UUID.
  pub is_bad : String → Bool
  is_bad raw = not (trim_space raw == "") && not (valid_uuid r (trim_space raw))

  -- The ids `out` are those of `raws`: trimmed, not blank, valid, and each of them once.
  pub record IsNormal (raws out : List String) : Type 0 where
    pub good : any is_bad raws ≡ false
    pub valid : All (λ id. valid_uuid r id ≡ true) out
    pub once : NoRepeat out
    pub same :
        (x : String) → (x == "") ≡ false → among_ids x out ≡ any (λ raw. trim_space raw == x) raws

  abbrev pub Normalised : List String → Result (List String) → Type 0
  Normalised raws (ok out) = IsNormal raws out
  Normalised raws (err e) = any is_bad raws ≡ true

  -- The loop after the ids `done`.
  record IsDone (done : List String) (ids : Ids) : Type 0 where
    normal : IsNormal done ids.out
    tracked : (x : String) → has x ids.seen ≡ among_ids x ids.out

  Progress : List String → Result Ids → Type 0
  Progress done (ok ids) = IsDone done ids
  Progress done (err e) = any is_bad done ≡ true

  after_blank :
      (done : List String) (ids : Ids) (raw : String)
      → IsDone done ids
      → (trim_space raw == "") ≡ true
      → IsDone (done ++ raw ∷ []) ids
  unfolding any is_bad
  after_blank done ids raw h blank = record {
    normal = record {
      good = ground (arith, any-append is_bad done (raw ∷ []), h.normal.good);
      valid = h.normal.valid;
      once = h.normal.once;
      same = λ x given. ground (
        arith,
        any-append (λ other. trim_space other == x) done (raw ∷ []),
        h.normal.same x given,
        eq_iff (trim_space raw) "",
        eq_iff (trim_space raw) x,
        eq_iff x "",
      );
    };
    tracked = h.tracked;
  }

  after_seen :
      (done : List String) (ids : Ids) (raw : String)
      → IsDone done ids
      → (trim_space raw == "") ≡ false
      → valid_uuid r (trim_space raw) ≡ true
      → has (trim_space raw) ids.seen ≡ true
      → IsDone (done ++ raw ∷ []) ids
  unfolding any is_bad
  after_seen done ids raw h given valid seen = record {
    normal = record {
      good = ground (arith, any-append is_bad done (raw ∷ []), h.normal.good);
      valid = h.normal.valid;
      once = h.normal.once;
      same = λ x given_x. ground (
        arith,
        any-append (λ other. trim_space other == x) done (raw ∷ []),
        h.normal.same x given_x,
        h.tracked (trim_space raw),
        eq_iff (trim_space raw) x,
      );
    };
    tracked = h.tracked;
  }

  after_new :
      (done : List String) (ids : Ids) (raw : String)
      → IsDone done ids
      → (trim_space raw == "") ≡ false
      → valid_uuid r (trim_space raw) ≡ true
      → has (trim_space raw) ids.seen ≡ false
      → IsDone (done ++ raw ∷ []) (record {
        seen = insert (trim_space raw) tt ids.seen;
        out = ids.out ++ trim_space raw ∷ [];
      })
  unfolding any is_bad
  after_new done ids raw h given valid fresh = record {
    normal = record {
      good = ground (arith, any-append is_bad done (raw ∷ []), h.normal.good);
      valid =
          All-append (λ id. valid_uuid r id ≡ true) ids.out (trim_space raw ∷ []) h.normal.valid
            (valid, tt);
      once =
          append-NoRepeat ids.out (trim_space raw) h.normal.once
            (sym (h.tracked (trim_space raw)) ∙ fresh);
      same = λ x given_x. ground (
        arith,
        any-append (λ other. trim_space other == x) done (raw ∷ []),
        any-append (λ id. id == x) ids.out (trim_space raw ∷ []),
        h.normal.same x given_x,
      );
    };
    tracked = λ x. ground (
      arith,
      has-insert (trim_space raw) x tt ids.seen,
      any-append (λ id. id == x) ids.out (trim_space raw ∷ []),
      h.tracked x,
    );
  }

  admit_id-Progress :
      (done : List String) (ids : Ids) (raw : String)
      → IsDone done ids
      → Progress (done ++ raw ∷ []) (admit_id r ids raw)
  unfolding admit_id Progress any is_bad
  admit_id-Progress done ids raw h =
      if_both (Progress (done ++ raw ∷ [])) (trim_space raw == "")
        (λ blank. after_blank done ids raw h blank)
        (λ given.
          if_both (Progress (done ++ raw ∷ [])) (not (valid_uuid r (trim_space raw)))
            (λ invalid. ground (arith, any-append is_bad done (raw ∷ [])))
            (λ valid.
              if_both (Progress (done ++ raw ∷ [])) (has (trim_space raw) ids.seen)
                (λ seen. after_seen done ids raw h given (ground arith) seen)
                (λ fresh. after_new done ids raw h given (ground arith) fresh)))

  normalize_from-Normalised :
      (done raws : List String) (ids : Result Ids)
      → Progress done ids
      → Normalised (done ++ raws) (normalize_from r ids raws)
  unfolding normalize_from Progress any
  normalize_from-Normalised done raws (err e) h = ground (arith, any-append is_bad done raws)
  normalize_from-Normalised done [] (ok ids) h =
      subst (λ all. IsNormal all ids.out) (sym (append-nil done)) h.normal
  normalize_from-Normalised done (raw ∷ raws) (ok ids) h =
      subst (λ all. Normalised all (normalize_from r (admit_id r ids raw) raws))
        (append-cons done raw raws)
        (normalize_from-Normalised (done ++ raw ∷ []) raws (admit_id r ids raw)
          (admit_id-Progress done ids raw h))

  -- What `normalizeIDs` answers: it refuses exactly if a trimmed id is neither blank nor a UUID; else
  -- it hands back the trimmed ids that are not blank, each of them once.
  pub normalize_ids-Normalised : (raws : List String) → Normalised raws (normalize_ids r raws)
  unfolding normalize_ids Progress any
  normalize_ids-Normalised raws =
      normalize_from-Normalised [] raws (ok (record { seen = []; out = [] })) (record {
        normal = record { good = refl; valid = tt; once = tt; same = λ x given. refl };
        tracked = λ x. refl;
      })
