-- ===== src/Calls/History/Distinct.antt =====
-- internal/calls/history.go: `dedupeIDs` picks each id of a list once.
use combox_backend.Prelude.{
  String, Bool, true, false, ◌&&◌, ◌||◌, ◌==◌, if◌then◌else◌, leb, if_both, Bool-cases, eq_refl,
  List, [], ◌∷◌, ◌++◌, length, any, any-append, length-append, among_ids, NoRepeat, All, All-weaken,
  ◌≤◌, ◌≡◌, refl, sym, ap, subst, ◌∙◌, inl, inr, arith,
}
use text.Mathlib.TextEquality.{eq_iff}
use combox_backend.Prelude.Text.{trim_space}
use combox_backend.Prelude.Dict.{has}
use combox_backend.Prelude.Chosen.{
  Chosen, none_chosen, with_choice, IsChosen, none_chosen-IsChosen, with_choice-IsChosen,
}
use combox_backend.Calls.History.{dedupe_step, dedupe_from, dedupe_ids}

-- An id is that of an entry of a list, trimmed.
abbrev pub named_in : List String → String → Bool
named_in raws id = any (λ raw. trim_space raw == id) raws

-- What may be shown of a list: an id that is not blank and that the list names.
abbrev pub IsOf : List String → String → Type 0
IsOf raws id = ((id == "") ≡ false) × (named_in raws id ≡ true)

dedupe_step-IsChosen :
    (all : List String) (c : Chosen) (raw : String)
    → IsChosen (IsOf all) c
    → named_in all (trim_space raw) ≡ true
    → IsChosen (IsOf all) (dedupe_step c raw)
unfolding dedupe_step
dedupe_step-IsChosen all c raw h named =
    let id = trim_space raw in
    if_both (IsChosen (IsOf all)) (id == "" || has id c.seen) (λ skip. h)
      (λ fresh. with_choice-IsChosen (IsOf all) c id h (ground arith) (ground arith, named))

-- An id that was chosen stays chosen.
dedupe_step_keeps :
    (c : Chosen) (raw x : String)
    → among_ids x c.out ≡ true
    → among_ids x (dedupe_step c raw).out ≡ true
unfolding dedupe_step with_choice
dedupe_step_keeps c raw x h =
    let id = trim_space raw in
    if_both (λ (d : Chosen). among_ids x d.out ≡ true) (id == "" || has id c.seen) (λ skip. h)
      (λ fresh. ground (arith, any-append (λ y. y == x) c.out (id ∷ [])))

dedupe_from_keeps :
    (c : Chosen) (raws : List String) (x : String)
    → among_ids x c.out ≡ true
    → among_ids x (dedupe_from c raws) ≡ true
unfolding dedupe_from
dedupe_from_keeps c [] x h = h
dedupe_from_keeps c (raw ∷ raws) x h =
    dedupe_from_keeps (dedupe_step c raw) raws x (dedupe_step_keeps c raw x h)

-- After its turn an id is chosen, unless it is blank.
dedupe_step_takes :
    (all : List String) (c : Chosen) (raw : String)
    → IsChosen (IsOf all) c
    → (trim_space raw == "") ≡ false
    → among_ids (trim_space raw) (dedupe_step c raw).out ≡ true
unfolding dedupe_step with_choice any
dedupe_step_takes all c raw h given =
    let id = trim_space raw in
    elim (Bool-cases (has id c.seen)) [
      | inl old ↦ rw (given, old) (sym (h.tracked id) ∙ old)
      | inr new ↦
          rw (given, new) (ground (arith, any-append (λ y. y == id) c.out (id ∷ []), eq_refl id))
    ]

-- The ids of a list, trimmed: each that is not blank stands in another list.
abbrev pub Covers : List String → List String → Type 0
Covers raws ids = All (λ raw. (trim_space raw == "" || among_ids (trim_space raw) ids) ≡ true) raws

-- The ids that a list names, each once and no other, without the blank one.
pub record IsDistinctOf (raws ids : List String) : Type 0 where
  pub once : NoRepeat ids
  pub named : All (λ id. ((id == "") ≡ false) × (named_in raws id ≡ true)) ids
  pub covers : Covers raws ids

or_later : (b t : Bool) → (b ≡ false → t ≡ true) → (b || t) ≡ true
or_later true t h = refl
or_later false t h = h refl

dedupe_from_chosen :
    (all : List String) (c : Chosen) (raws : List String)
    → IsChosen (IsOf all) c
    → All (λ raw. named_in all (trim_space raw) ≡ true) raws
    → IsChosen (IsOf all) c
      × NoRepeat (dedupe_from c raws)
      × All (IsOf all) (dedupe_from c raws)
      × Covers raws (dedupe_from c raws)
unfolding dedupe_from
dedupe_from_chosen all c [] h names = (h, h.once, h.kind, tt)
dedupe_from_chosen all c (raw ∷ raws) h names =
    let next = dedupe_step-IsChosen all c raw h names.0 in
    let rest = dedupe_from_chosen all (dedupe_step c raw) raws next names.1 in
    (
      h,
      rest.1,
      rest.2,
      (
        or_later (trim_space raw == "") _ (λ given.
            dedupe_from_keeps (dedupe_step c raw) raws (trim_space raw)
              (dedupe_step_takes all c raw h given)),
        rest.3,
      ),
    )

-- A list names its own entries.
names_own : (raws : List String) → All (λ raw. named_in raws (trim_space raw) ≡ true) raws
unfolding any
names_own [] = tt
names_own (raw ∷ raws) = (
  ground (arith, eq_refl (trim_space raw)),
  All-weaken (λ other h. ground (arith, h)) raws (names_own raws),
)

pub dedupe_ids-IsDistinctOf : (raws : List String) → IsDistinctOf raws (dedupe_ids raws)
unfolding dedupe_ids
dedupe_ids-IsDistinctOf raws =
    let all =
      dedupe_from_chosen raws none_chosen raws (none_chosen-IsChosen (IsOf raws))
        (names_own raws) in
    record { once = all.1; named = all.2; covers = all.3 }

-- Every entry of a list that is not blank names one id.
pub all_as : String → List String → Bool
all_as id [] = true
all_as id (raw ∷ raws) =
    let rest = all_as id raws in (trim_space raw == "" || trim_space raw == id) && rest

-- The entries of a list that are not blank name one id at most.
pub alone : List String → Bool
unfolding all_as
alone [] = true
alone (raw ∷ raws) =
    let rest = alone raws in if trim_space raw == "" then rest else all_as (trim_space raw) raws

dedupe_step-le : (c : Chosen) (raw : String) → length c.out ≤ length (dedupe_step c raw).out
unfolding dedupe_step with_choice
dedupe_step-le c raw =
    let id = trim_space raw in
    if_both {A = Chosen} (λ (d : Chosen). length c.out ≤ length d.out) (id == "" || has id c.seen)
      (λ skip. omega arith) (λ fresh. ground (arith, length-append c.out (id ∷ [])))

dedupe_from-le : (c : Chosen) (raws : List String) → length c.out ≤ length (dedupe_from c raws)
unfolding dedupe_from
dedupe_from-le c [] = omega arith
dedupe_from-le c (raw ∷ raws) =
    omega (arith, dedupe_from-le (dedupe_step c raw) raws, dedupe_step-le c raw)

dedupe_step_blank :
    (c : Chosen) (raw : String) → (trim_space raw == "") ≡ true → dedupe_step c raw ≡ c
unfolding dedupe_step
dedupe_step_blank c raw blank = rw blank refl

dedupe_step_old :
    (c : Chosen) (raw : String) → has (trim_space raw) c.seen ≡ true → dedupe_step c raw ≡ c
unfolding dedupe_step
dedupe_step_old c raw old = elim (Bool-cases (trim_space raw == "")) [
  | inl blank ↦ rw blank refl
  | inr given ↦ rw (given, old) refl
]

dedupe_step_new :
    (c : Chosen) (raw : String)
    → (trim_space raw == "") ≡ false
    → has (trim_space raw) c.seen ≡ false
    → (dedupe_step c raw).out ≡ c.out ++ trim_space raw ∷ []
unfolding dedupe_step with_choice
dedupe_step_new c raw given new = rw (given, new) refl

-- With one id chosen, no other is added exactly if every further entry names it.
dedupe_from_one :
    (all : List String) (c : Chosen) (raws : List String) (id : String)
    → IsChosen (IsOf all) c
    → All (λ raw. named_in all (trim_space raw) ≡ true) raws
    → c.out ≡ id ∷ []
    → leb (length (dedupe_from c raws)) 1 ≡ all_as id raws
unfolding dedupe_from all_as any
dedupe_from_one all c [] id h names e = rw e refl
dedupe_from_one all c (raw ∷ raws) id h names e = elim (Bool-cases (trim_space raw == "")) [
  | inl blank ↦
      rw (dedupe_step_blank c raw blank, blank) (dedupe_from_one all c raws id h names.1 e)
  | inr given ↦ elim (Bool-cases (has (trim_space raw) c.seen)) [
    | inl old ↦
        let same : among_ids (trim_space raw) (id ∷ []) ≡ true =
          subst (λ ids. among_ids (trim_space raw) ids ≡ true) e
            (sym (h.tracked (trim_space raw)) ∙ old) in
        let rest = dedupe_from_one all c raws id h names.1 e in
        rw (dedupe_step_old c raw old, rest)
          (ground (arith, same, given, eq_iff (trim_space raw) id, eq_iff id (trim_space raw)))
    | inr new ↦
        let other : among_ids (trim_space raw) (id ∷ []) ≡ false =
          subst (λ ids. among_ids (trim_space raw) ids ≡ false) e
            (sym (h.tracked (trim_space raw)) ∙ new) in
        let more = dedupe_from-le (dedupe_step c raw) raws in
        let two : length (dedupe_step c raw).out ≡ 2 =
          rw (dedupe_step_new c raw given new, e) refl in
        ground
          (arith, more, two, other, given, eq_iff (trim_space raw) id, eq_iff id (trim_space raw))
  ]
]

-- With no id chosen, one at most is chosen exactly if the entries name one at most.
dedupe_from_none :
    (all : List String) (c : Chosen) (raws : List String)
    → IsChosen (IsOf all) c
    → All (λ raw. named_in all (trim_space raw) ≡ true) raws
    → c.out ≡ []
    → leb (length (dedupe_from c raws)) 1 ≡ alone raws
unfolding dedupe_from alone any
dedupe_from_none all c [] h names e = rw e refl
dedupe_from_none all c (raw ∷ raws) h names e = elim (Bool-cases (trim_space raw == "")) [
  | inl blank ↦ rw (dedupe_step_blank c raw blank, blank) (dedupe_from_none all c raws h names.1 e)
  | inr given ↦
      let none_yet : has (trim_space raw) c.seen ≡ false =
        h.tracked (trim_space raw) ∙ ap (among_ids (trim_space raw)) e in
      let one : alone (raw ∷ raws) ≡ all_as (trim_space raw) raws = rw given refl in
      dedupe_from_one all (dedupe_step c raw) raws (trim_space raw)
        (dedupe_step-IsChosen all c raw h names.0) names.1
        (dedupe_step_new c raw given none_yet ∙ ap (λ ids. ids ++ trim_space raw ∷ []) e)
      ∙ sym one
]

pub dedupe_ids-alone : (raws : List String) → leb (length (dedupe_ids raws)) 1 ≡ alone raws
unfolding dedupe_ids
dedupe_ids-alone raws =
    dedupe_from_none raws none_chosen raws (none_chosen-IsChosen (IsOf raws)) (names_own raws) refl
