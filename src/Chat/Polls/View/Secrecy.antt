-- ===== src/Chat/Polls/View/Secrecy.antt =====
-- internal/service/chat/service_polls.go: what a viewer's page of a poll tells.
use combox_backend.Prelude.{
  ℕ, zero, suc, String, Bool, true, false, not, ◌&&◌, eqb, eqb_refl, Bool-cases, none, some, List,
  [], ◌∷◌, length, map, ◌≡◌, refl, if_both, ap, sym, ◌∙◌, inl, inr,
}
use combox_backend.Chat.Base.{Std}
use combox_backend.Chat.Polls.{Poll, PollVote, effectively_closed}
use combox_backend.Chat.Polls.View.{
  build_poll_view, opened, tallied, arranged, shown, shuffled, pick, at, keep_some, vote_by_user,
  ids_of,
}
use combox_backend.Chat.Polls.Tally.{due_row, tally_lem}

-- A poll as the repository keeps it: nothing is computed yet.
pub record IsStored (poll : Poll) : Type 0 where
  pub no_results : poll.results ≡ []
  pub no_total : poll.total_votes ≡ none
  pub no_voters : poll.voters ≡ none

keep_some-map {ℓ κ} :
    {A : Type ℓ} {B : Type κ} (f : A → B) (xs : List A) (i : ℕ) (zs : List A)
    → keep_some (at (map f xs) i) (map f zs) ≡ map f (keep_some (at xs i) zs)
unfolding keep_some at
keep_some-map f [] i zs = refl
keep_some-map f (x ∷ xs) zero zs = refl
keep_some-map f (x ∷ xs) (suc i) zs = keep_some-map f xs i zs

pub pick-map {ℓ κ} :
    {A : Type ℓ} {B : Type κ} (f : A → B) (xs : List A) (is : List ℕ)
    → pick (map f xs) is ≡ map f (pick xs is)
unfolding pick
pick-map f xs [] = refl
pick-map f xs (i ∷ is) = rw (pick-map f xs is) (keep_some-map f xs i (pick xs is))

pick-nil {ℓ} : {A : Type ℓ} (is : List ℕ) → pick {A = A} [] is ≡ []
unfolding pick keep_some at
pick-nil [] = refl
pick-nil (i ∷ is) = pick-nil is

pub length-map {ℓ κ} :
    {A : Type ℓ} {B : Type κ} (f : A → B) (xs : List A) → length (map f xs) ≡ length xs
length-map f [] = refl
length-map f (x ∷ xs) = ap suc (length-map f xs)

map-map {ℓ κ ι} :
    {A : Type ℓ} {B : Type κ} {C : Type ι} (g : B → C) (f : A → B) (xs : List A)
    → map g (map f xs) ≡ map (λ x. g (f x)) xs
map-map g f [] = refl
map-map g f (x ∷ xs) = ap (λ ys. g (f x) ∷ ys) (map-map g f xs)

module _ (std : Std) (order : String → String → ℕ → List ℕ) where
  arranged-empty :
      (view : Poll) (viewer_id : String)
      → view.results ≡ []
      → (arranged std order view viewer_id).results ≡ []
  unfolding arranged shuffled
  arranged-empty view viewer_id h = elim (Bool-cases view.shuffle_options) [
    | inl mixed ↦
        rw (mixed, h, pick-nil)
          (if_both (λ rows. rows ≡ []) (eqb 0 (length view.options)) (λ same. refl) (λ other. refl))
    | inr plain ↦ rw plain h
  ]

  arranged-aligned :
      (view : Poll) (votes : List PollVote) (viewer_id : String)
      → view.results ≡ map (due_row votes) view.options
      → map (λ row. row.id) (arranged std order view viewer_id).results
        ≡ map (λ o. o.id) (arranged std order view viewer_id).options
  unfolding arranged shuffled
  arranged-aligned view votes viewer_id h = elim (Bool-cases view.shuffle_options) [
    | inl mixed ↦
        rw
          (
            mixed,
            h,
            length-map (due_row votes) view.options,
            eqb_refl (length view.options),
            pick-map (due_row votes) view.options _,
          )
          (map-map (λ row. row.id) (due_row votes) _)
    | inr plain ↦ rw (plain, h) (map-map (λ row. row.id) (due_row votes) view.options)
  ]

  -- Whether the results are kept from a viewer.
  abbrev pub keeps_back : Poll → List PollVote → ℕ → String → Bool
  keeps_back poll votes now viewer_id =
      poll.hide_results
      && not (effectively_closed poll now)
      && eqb (length (ids_of std order (vote_by_user std votes viewer_id))) 0

  arranged-total :
      (view : Poll) (viewer_id : String)
      → ((arranged std order view viewer_id).total_votes ≡ view.total_votes)
        × ((arranged std order view viewer_id).voters ≡ view.voters)
  unfolding arranged shuffled
  arranged-total view viewer_id = elim (Bool-cases view.shuffle_options) [
    | inl mixed ↦ rw mixed (refl, refl)
    | inr plain ↦ rw plain (refl, refl)
  ]

  opened_alike :
      (poll : Poll) (votes : List PollVote) (now : ℕ) (viewer_id : String)
      → ids_of std order (vote_by_user std votes viewer_id) ≡ []
      → opened std order poll votes now viewer_id ≡ opened std order poll [] now viewer_id
  unfolding opened
  opened_alike poll votes now viewer_id none_mine = rw none_mine refl

  tallied-hidden :
      (poll : Poll) (votes : List PollVote) (now : ℕ) (viewer_id : String)
      → keeps_back poll votes now viewer_id ≡ true
      → tallied std order (opened std order poll votes now viewer_id) votes
        ≡ opened std order poll votes now viewer_id
  unfolding tallied opened
  tallied-hidden poll votes now viewer_id hidden = rw hidden refl

  opened-stored :
      (poll : Poll) (votes : List PollVote) (now : ℕ) (viewer_id : String)
      → let view = opened std order poll votes now viewer_id in
        (view.total_votes ≡ poll.total_votes)
        × (view.results ≡ poll.results)
        × (view.voters ≡ poll.voters)
  unfolding opened
  opened-stored poll votes now viewer_id = (refl, refl, refl)

  -- While the results of an open poll are hidden, what a viewer who has not voted gets does not depend
  -- on the ballots, and shows no total, no rows and no voters, where the stored poll has none.
  pub view-hidden :
      (poll : Poll) (votes : List PollVote) (now : ℕ) (viewer_id : String)
      → IsStored poll
      → poll.hide_results ≡ true
      → effectively_closed poll now ≡ false
      → ids_of std order (vote_by_user std votes viewer_id) ≡ []
      → let view = build_poll_view std order poll votes now viewer_id in
        (view ≡ build_poll_view std order poll [] now viewer_id)
        × (view.total_votes ≡ none)
        × (view.results ≡ [])
        × (view.voters ≡ none)
  unfolding build_poll_view
  view-hidden poll votes now viewer_id stored hides live none_mine =
      let hidden : keeps_back poll votes now viewer_id ≡ true = rw (hides, live, none_mine) refl in
      let alone : keeps_back poll [] now viewer_id ≡ true = rw (hides, live) refl in
      let page = opened std order poll [] now viewer_id in
      let same =
        ap (λ view. arranged std order view viewer_id)
          (tallied-hidden poll votes now viewer_id hidden
            ∙ opened_alike poll votes now viewer_id none_mine) in
      let empty =
        ap (λ view. arranged std order view viewer_id)
          (tallied-hidden poll [] now viewer_id alone) in
      let kept = opened-stored poll [] now viewer_id in
      (
        same ∙ sym empty,
        ap (λ view. view.total_votes) same
            ∙ (arranged-total page viewer_id).0
            ∙ kept.0
            ∙ stored.no_total,
        ap (λ view. view.results) same ∙ arranged-empty page viewer_id (kept.1 ∙ stored.no_results),
        ap (λ view. view.voters) same
            ∙ (arranged-total page viewer_id).1
            ∙ kept.2
            ∙ stored.no_voters,
      )

  pub shown-rows :
      (view : Poll) (votes : List PollVote)
      → (shown std order view votes).results ≡ map (due_row votes) view.options
  unfolding shown
  shown-rows view votes = tally_lem view.options votes

  pub tallied-shown :
      (poll : Poll) (votes : List PollVote) (now : ℕ) (viewer_id : String)
      → keeps_back poll votes now viewer_id ≡ false
      → tallied std order (opened std order poll votes now viewer_id) votes
        ≡ shown std order (opened std order poll votes now viewer_id) votes
  unfolding tallied opened
  tallied-shown poll votes now viewer_id seen = rw seen refl

  shown-total :
      (view : Poll) (votes : List PollVote)
      → (shown std order view votes).total_votes ≡ some (length votes)
  unfolding shown
  shown-total view votes = refl

  pub shown-options :
      (view : Poll) (votes : List PollVote) → (shown std order view votes).options ≡ view.options
  unfolding shown
  shown-options view votes = refl

  -- Where the results are not kept back, a viewer gets the number of ballots, and a row for each
  -- option that is shown, in the same order, whatever order the shuffle gives.
  pub view-aligned :
      (poll : Poll) (votes : List PollVote) (now : ℕ) (viewer_id : String)
      → keeps_back poll votes now viewer_id ≡ false
      → let view = build_poll_view std order poll votes now viewer_id in
        (view.total_votes ≡ some (length votes))
        × (map (λ row. row.id) view.results ≡ map (λ o. o.id) view.options)
  unfolding build_poll_view
  view-aligned poll votes now viewer_id seen =
      let page = opened std order poll votes now viewer_id in
      let full = shown std order page votes in
      rw (tallied-shown poll votes now viewer_id seen) (
        (arranged-total full viewer_id).0 ∙ shown-total page votes,
        arranged-aligned full votes viewer_id
            (shown-rows page votes ∙ ap (map (due_row votes)) (sym (shown-options page votes))),
      )
