-- ===== src/Chat/Polls/View/Voter.antt =====
-- internal/service/chat/service_polls.go: what a voter sees of a poll.
use combox_backend.Prelude.{
  ℕ, String, false, Bool-cases, if_both, some, List, [], ◌∷◌, length, map, All, eqb_refl, ◌≡◌, refl,
  sym, ap, ◌∙◌, inl, inr,
}
use combox_backend.Chat.Base.{Std}
use combox_backend.Chat.Polls.{Poll, PollOption, PollResult, PollVote}
use combox_backend.Chat.Polls.Tally.{ballots_for, due_row}
use combox_backend.Chat.Polls.View.{
  build_poll_view, opened, arranged, shown, shuffled, vote_by_user, ids_of,
}
use combox_backend.Chat.Polls.View.Secrecy.{
  keeps_back, length-map, pick-map, shown-rows, shown-options, tallied-shown, view-aligned,
}

-- A row of the results has the number of ballots that name its option.
abbrev pub Counts : List PollVote → PollResult → Type 0
Counts votes row = row.votes ≡ ballots_for row.id votes

-- What a voter sees: the ids that were voted for, the number of ballots, and a counted row for each
-- option that is shown.
pub record ShowsVote (ids : List String) (votes : List PollVote) (view : Poll) : Type 0 where
  pub mine : view.my_option_ids ≡ ids
  pub total : view.total_votes ≡ some (length votes)
  pub rows : map (λ row. row.id) view.results ≡ map (λ o. o.id) view.options
  pub row_counts : All (Counts votes) view.results

due_rows-Counts :
    (votes : List PollVote) (options : List PollOption)
    → All (Counts votes) (map (due_row votes) options)
due_rows-Counts votes [] = tt
due_rows-Counts votes (o ∷ os) = (refl, due_rows-Counts votes os)

module _ (std : Std) (order : String → String → ℕ → List ℕ) where
  arranged-Counts :
      (view : Poll) (votes : List PollVote) (viewer_id : String)
      → view.results ≡ map (due_row votes) view.options
      → All (Counts votes) (arranged std order view viewer_id).results
  unfolding arranged shuffled
  arranged-Counts view votes viewer_id h = elim (Bool-cases view.shuffle_options) [
    | inl mixed ↦
        rw
          (
            mixed,
            h,
            length-map (due_row votes) view.options,
            eqb_refl (length view.options),
            pick-map (due_row votes) view.options _,
          )
          (due_rows-Counts votes _)
    | inr plain ↦ rw (plain, h) (due_rows-Counts votes view.options)
  ]

  arranged-mine :
      (view : Poll) (viewer_id : String)
      → (arranged std order view viewer_id).my_option_ids ≡ view.my_option_ids
  unfolding arranged shuffled
  arranged-mine view viewer_id =
      if_both {A = Poll} (λ shown'. shown'.my_option_ids ≡ view.my_option_ids) view.shuffle_options
        (λ mixed. refl) (λ plain. refl)

  shown-mine :
      (poll : Poll) (votes : List PollVote) (now : ℕ) (viewer_id : String)
      → (shown std order (opened std order poll votes now viewer_id) votes).my_option_ids
        ≡ ids_of std order (vote_by_user std votes viewer_id)
  unfolding shown opened
  shown-mine poll votes now viewer_id = refl

  -- A voter gets to see the vote.
  pub view-ShowsVote :
      (poll : Poll) (votes : List PollVote) (now : ℕ) (viewer_id : String)
      → keeps_back std order poll votes now viewer_id ≡ false
      → ShowsVote
          (ids_of std order (vote_by_user std votes viewer_id))
          votes
          (build_poll_view std order poll votes now viewer_id)
  unfolding build_poll_view
  view-ShowsVote poll votes now viewer_id seen =
      let page = opened std order poll votes now viewer_id in
      let full = shown std order page votes in
      let aligned = view-aligned std order poll votes now viewer_id seen in
      let same =
        ap (λ view. arranged std order view viewer_id)
          (tallied-shown std order poll votes now viewer_id seen) in
      record {
        mine =
            ap (λ view. view.my_option_ids) same
            ∙ arranged-mine full viewer_id
            ∙ shown-mine poll votes now viewer_id;
        total = aligned.0;
        rows = aligned.1;
        row_counts = rw same (
            arranged-Counts full votes viewer_id (
              shown-rows std order page votes
              ∙ ap (map (due_row votes)) (sym (shown-options std order page votes))));
      }
