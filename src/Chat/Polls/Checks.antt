-- ===== src/Chat/Polls/Checks.antt =====
-- internal/service/chat/service_polls.go: which answers `validatePollAnswer` lets through.
use combox_backend.Prelude.{
  ◌≤◌, String, true, false, not, ◌&&◌, ◌==◌, eq_iff, eqb, Bool-cases, Option, none, some, List, [],
  ◌∷◌, ◌++◌, length, any, any-append, among_ids, NoRepeat, append-cons, append-nil, All, ◌≡◌, refl,
  if_both, ap, sym, ◌∙◌, inl, inr, arith,
}
use combox_backend.Prelude.Text.{trim_space}
use combox_backend.Prelude.Dict.{has}
use combox_backend.Prelude.Chosen.{
  Chosen, none_chosen, with_choice, IsChosen, none_chosen-IsChosen, with_choice-tracked,
  with_choice-IsChosen,
}
use combox_backend.Chat.Base.{Result, ok, err, Error, Holds}
use combox_backend.Chat.Polls.{
  Poll, PollOption, choose, knows, known_id, answer_from, counted, validate_poll_answer, bad_input,
}

choose-IsChosen :
    (P : String → Type 0) (c : Chosen) (e : Error) (o : Option String)
    → IsChosen P c
    → ((id : String) → o ≡ some id → P id)
    → Holds (IsChosen P) (choose c e o)
unfolding choose any
choose-IsChosen P c e none h p = tt
choose-IsChosen P c e (some id) h p = elim (Bool-cases (has id c.seen)) [
  | inl old ↦ rw old tt
  | inr new ↦ rw new (with_choice-IsChosen P c id h new (p id refl))
]

known_id-knows :
    (options : List PollOption) (raw id : String)
    → known_id options raw ≡ some id
    → knows options id ≡ true
unfolding known_id
known_id-knows options raw id h = ground arith

-- A valid ballot: known options, each once, one at least, and one only where the poll is so.
pub record IsAnswer (poll : Poll) (ids : List String) : Type 0 where
  pub known : All (λ id. knows poll.options id ≡ true) ids
  pub once : NoRepeat ids
  pub some_given : 1 ≤ length ids
  pub single : poll.multiple ≡ false → length ids ≡ 1

abbrev Known : List PollOption → String → Type 0
Known options id = knows options id ≡ true

answer_from-Known :
    (options : List PollOption) (c : Result Chosen) (raws : List String)
    → Holds (IsChosen (Known options)) c
    → Holds (λ out. All (Known options) out × NoRepeat out) (answer_from options c raws)
unfolding answer_from
answer_from-Known options (err e) raws h = tt
answer_from-Known options (ok c) [] h = (h.kind, h.once)
answer_from-Known options (ok c) (raw ∷ raws) h =
    answer_from-Known options (choose c bad_input (known_id options (trim_space raw))) raws (
      choose-IsChosen (Known options) c bad_input _ h
        (λ id e. known_id-knows options (trim_space raw) id e))

counted-IsAnswer :
    (poll : Poll) (out : Result (List String))
    → Holds (λ ids. All (Known poll.options) ids × NoRepeat ids) out
    → Holds (IsAnswer poll) (counted poll.multiple out)
unfolding counted
counted-IsAnswer poll (err e) h = tt
counted-IsAnswer poll (ok ids) h =
    if_both (Holds (IsAnswer poll)) (eqb (length ids) 0) (λ none_given. tt)
      (λ given.
        if_both (Holds (IsAnswer poll)) (not poll.multiple && not (eqb (length ids) 1)) (λ many. tt)
          (λ fits. record {
            known = h.0;
            once = h.1;
            some_given = ground arith;
            single = λ e. ground arith;
          }))

-- What a text must be so that it is taken as it is.
abbrev Fits : List PollOption → String → Type 0
Fits options raw = (trim_space raw ≡ raw) × ((raw == "") ≡ false) × (knows options raw ≡ true)

plain-Fits :
    (options : List PollOption) (raws : List String)
    → All (λ raw. (trim_space raw ≡ raw) × ((raw == "") ≡ false)) raws
    → All (Known options) raws
    → All (Fits options) raws
plain-Fits options [] h k = tt
plain-Fits options (raw ∷ raws) h k = ((h.0.0, h.0.1, k.0), plain-Fits options raws h.1 k.1)

choose-Fits :
    (options : List PollOption) (c : Chosen) (raw : String)
    → Fits options raw
    → has raw c.seen ≡ false
    → choose c bad_input (known_id options (trim_space raw)) ≡ ok (with_choice c raw)
unfolding choose known_id
choose-Fits options c raw fit fresh = rw (fit.0, fit.1, fit.2, fresh) refl

fresh-append :
    (raws ys : List String) (y : String)
    → All (λ x. among_ids x ys ≡ false) raws
    → among_ids y raws ≡ false
    → All (λ x. among_ids x (ys ++ y ∷ []) ≡ false) raws
unfolding any
fresh-append [] ys y h k = tt
fresh-append (x ∷ raws) ys y h k = (
  ground (arith, any-append (λ id. id == x) ys (y ∷ []), eq_iff x y, eq_iff y x, h.0),
  fresh-append raws ys y h.1 (ground arith),
)

answer_from-Fits :
    (options : List PollOption) (c : Chosen) (raws : List String)
    → ((x : String) → has x c.seen ≡ among_ids x c.out)
    → All (Fits options) raws
    → NoRepeat raws
    → All (λ raw. among_ids raw c.out ≡ false) raws
    → answer_from options (ok c) raws ≡ ok (c.out ++ raws)
unfolding answer_from any with_choice
answer_from-Fits options c [] tracked fit once fresh = ap ok (sym (append-nil c.out))
answer_from-Fits options c (raw ∷ raws) tracked fit once fresh =
    ap (λ x. answer_from options x raws) (choose-Fits options c raw fit.0 (tracked raw ∙ fresh.0))
    ∙ answer_from-Fits options (with_choice c raw) raws
        (λ x. with_choice-tracked c raw x (tracked x)) fit.1 once.1
        (fresh-append raws c.out raw fresh.1 once.0)
    ∙ ap ok (append-cons c.out raw raws)

none_seen : (raws : List String) → All (λ x. among_ids x [] ≡ false) raws
unfolding any
none_seen [] = tt
none_seen (x ∷ raws) = (refl, none_seen raws)

counted-accepts :
    (poll : Poll) (ids : List String) → IsAnswer poll ids → counted poll.multiple (ok ids) ≡ ok ids
unfolding counted
counted-accepts poll ids h = ground (arith, h.some_given, h.single)

-- `validatePollAnswer` hands back nothing but a valid ballot.
pub validate_poll_answer-IsAnswer :
    (poll : Poll) (raws : List String) → Holds (IsAnswer poll) (validate_poll_answer poll raws)
unfolding validate_poll_answer any
validate_poll_answer-IsAnswer poll raws = counted-IsAnswer poll _ (
    answer_from-Known poll.options (ok none_chosen) raws
      (none_chosen-IsChosen (Known poll.options)))

-- A valid ballot whose ids are trimmed and not blank is handed back as it is.
pub validate_poll_answer_accepts :
    (poll : Poll) (ids : List String)
    → IsAnswer poll ids
    → All (λ id. (trim_space id ≡ id) × ((id == "") ≡ false)) ids
    → validate_poll_answer poll ids ≡ ok ids
unfolding validate_poll_answer any
validate_poll_answer_accepts poll ids valid plain =
    ap (counted poll.multiple) (
      answer_from-Fits poll.options none_chosen ids (λ x. refl)
        (plain-Fits poll.options ids plain valid.known) valid.once (none_seen ids))
    ∙ counted-accepts poll ids valid
