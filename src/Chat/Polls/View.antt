-- ===== src/Chat/Polls/View.antt =====
-- internal/service/chat/service_polls.go: `buildPollView`. `order` is the permutation that the seeded
-- generator of math/rand gives for a poll, a viewer and a number of options; it is read where there
-- are two options at least.
pub mod Secrecy
pub mod Voter
use combox_backend.Prelude.{
  ℕ, ◌+◌, ◌*◌, ◌/◌, zero, suc, String, Bool, true, false, not, ◌&&◌, ◌==◌, eqb, leb, ltb,
  if◌then◌else◌, Option, none, some, List, [], ◌∷◌, ◌++◌, length, map,
}
use combox_backend.Prelude.Dict.{Dict, lookup, has, insert}
use combox_backend.Chat.Base.{Std}
use combox_backend.Chat.Polls.{Poll, PollOption, PollResult, PollVote, effectively_closed}

-- `int(mathRound(float64(count) * 100 / float64(total)))`: the nearest whole number, a half upwards.
-- The floats decide this exactly for every number of ballots below 2 ^ 40.
unfoldable pub percent_of : ℕ → ℕ → ℕ
percent_of count total = if eqb total 0 then 0 else (200 * count + total) / (2 * total)

-- `pollVoteByUser`
unfoldable pub vote_by_user : Std → List PollVote → String → Option PollVote
vote_by_user std [] user_id = none
vote_by_user std (vote ∷ votes) user_id =
    if std.equal_fold vote.user_id user_id then some vote else vote_by_user std votes user_id

unfoldable pub or_zero : Option ℕ → ℕ
or_zero none = 0
or_zero (some n) = n

-- `counts` with 0 for each option.
unfoldable pub no_counts : Dict ℕ → List PollOption → Dict ℕ
unfolding insert
no_counts counts [] = counts
no_counts counts (o ∷ os) = no_counts (insert o.id 0 counts) os

-- `counts[optionID]++` for an id that is a key.
unfoldable pub bump : Dict ℕ → String → Dict ℕ
unfolding insert or_zero has lookup
bump counts id =
    if has id counts then insert id (suc (or_zero (lookup id counts))) counts else counts

unfoldable pub bump_all : Dict ℕ → List String → Dict ℕ
unfolding bump
bump_all counts [] = counts
bump_all counts (id ∷ ids) = bump_all (bump counts id) ids

unfoldable pub count_votes : Dict ℕ → List PollVote → Dict ℕ
unfolding bump_all
count_votes counts [] = counts
count_votes counts (vote ∷ votes) = count_votes (bump_all counts vote.option_ids) votes

or_nobody : Option (List String) → List String
or_nobody none = []
or_nobody (some users) = users

no_voters : Dict (List String) → List PollOption → Dict (List String)
unfolding insert
no_voters voters [] = voters
no_voters voters (o ∷ os) = no_voters (insert o.id [] voters) os

name_voter : Dict (List String) → String → List String → Dict (List String)
unfolding insert has lookup or_nobody
name_voter voters user_id [] = voters
name_voter voters user_id (id ∷ ids) =
    name_voter
      (if has id voters
        then insert id (or_nobody (lookup id voters) ++ user_id ∷ []) voters
        else voters)
      user_id ids

name_voters : Dict (List String) → List PollVote → Dict (List String)
unfolding name_voter
name_voters voters [] = voters
name_voters voters (vote ∷ votes) =
    name_voters (name_voter voters vote.user_id vote.option_ids) votes

unfoldable pub result_of : Dict ℕ → ℕ → PollOption → PollResult
unfolding or_zero lookup percent_of
result_of counts total o =
    let count = or_zero (lookup o.id counts) in
    record { id = o.id; text = o.text; votes = count; percent = percent_of count total }

unfoldable pub tally : List PollOption → List PollVote → List PollResult
unfolding result_of count_votes no_counts
tally options votes =
    map (result_of (count_votes (no_counts [] options) votes) (length votes)) options

unfoldable pub voters_of : List PollOption → List PollVote → Dict (List String)
unfolding name_voters no_voters
voters_of options votes = name_voters (no_voters [] options) votes

count_up : ℕ → ℕ → List ℕ
count_up from zero = []
count_up from (suc n) = from ∷ count_up (suc from) n

unfoldable pub at {ℓ} : {A : Type ℓ} → List A → ℕ → Option A
at [] i = none
at (x ∷ xs) zero = some x
at (x ∷ xs) (suc i) = at xs i

keep_some {ℓ} : {A : Type ℓ} → Option A → List A → List A
keep_some none xs = xs
keep_some (some x) xs = x ∷ xs

-- `items[idx]` for each index. An index out of range, which the source would panic at, is left out.
unfoldable pub pick {ℓ} : {A : Type ℓ} → List A → List ℕ → List A
unfolding keep_some at
pick xs [] = []
pick xs (i ∷ is) = keep_some (at xs i) (pick xs is)

module _ (std : Std) (order : String → String → ℕ → List ℕ) where
  -- `pollShuffleOrder`
  unfoldable pub poll_shuffle_order : String → String → ℕ → List ℕ
  unfolding count_up
  poll_shuffle_order poll_id viewer_id n =
      if leb n 1 then count_up 0 n else order poll_id viewer_id n

  unfoldable pub ids_of : Option PollVote → List String
  ids_of none = []
  ids_of (some vote) = vote.option_ids

  -- The part of `buildPollView` for results that may be seen.
  pub shown : Poll → List PollVote → Poll
  unfolding tally voters_of
  shown view votes = record view {
    total_votes = some (length votes);
    results = tally view.options votes;
    voters = if view.show_who_voted then some (voters_of view.options votes) else view.voters;
  }

  shuffled : Poll → List ℕ → Poll
  unfolding pick
  shuffled view is = record view {
    options = pick view.options is;
    results =
        if eqb (length view.results) (length view.options)
        then pick view.results is
        else view.results;
  }

  -- What the viewer's ballot says of the results.
  pub opened : Poll → List PollVote → ℕ → String → Poll
  unfolding ids_of vote_by_user effectively_closed
  opened poll votes now viewer_id =
      let mine = ids_of (vote_by_user std votes viewer_id) in
      let closed = effectively_closed poll now in
      record poll {
        my_option_ids = mine;
        closed = closed;
        results_hidden = poll.hide_results && not closed && eqb (length mine) 0;
      }

  pub tallied : Poll → List PollVote → Poll
  unfolding shown
  tallied view votes = if view.results_hidden then view else shown view votes

  pub arranged : Poll → String → Poll
  unfolding shuffled poll_shuffle_order
  arranged view viewer_id =
      if view.shuffle_options
      then shuffled view (poll_shuffle_order view.id viewer_id (length view.options))
      else view

  -- `buildPollView`
  unfoldable pub build_poll_view : Poll → List PollVote → ℕ → String → Poll
  unfolding opened tallied arranged
  build_poll_view poll votes now viewer_id =
      arranged (tallied (opened poll votes now viewer_id) votes) viewer_id
