-- ===== src/Chat/Polls/Tests.antt =====
-- The theorems about polls at a concrete poll and its ballots.
use combox_backend.Prelude.{
  eq_refl, ℕ, String, true, false, not, ◌==◌, none, some, List, [], ◌∷◌, map, any, ◌≤◌, All, ◌≡◌,
  refl, arith, if◌then◌else◌,
}
use combox_backend.Prelude.Text.{trim_space}
use combox_backend.Chat.Base.{poll_not_found, ok, Holds, got, failed}
use combox_backend.Chat.Access.{Chats}
use combox_backend.Chat.Polls.{
  Poll, PollOption, PollVote, effectively_closed, knows, validate_poll_answer,
}
use combox_backend.Chat.Polls.Checks.{
  IsAnswer, validate_poll_answer-IsAnswer, validate_poll_answer_accepts,
}
use combox_backend.Chat.Polls.Tally.{due_row, tally_lem, tally_bounds}
use combox_backend.Chat.Polls.View.{build_poll_view, vote_by_user, ids_of, tally}
use combox_backend.Chat.Polls.View.Secrecy.{view-hidden, view-aligned}
use combox_backend.Chat.Polls.Voting.{PollStore, vote_poll}
use combox_backend.Chat.Polls.Voting.Outcome.{Voted, vote_poll-Voted}
use combox_backend.Chat.Tests.{std, group}

abbrev options : List PollOption
options =
    record { id = "o1"; text = "tea" }
    ∷ record { id = "o2"; text = "milk" }
    ∷ record { id = "o3"; text = "water" }
    ∷ []

-- A poll for several answers, whose results wait for a vote.
abbrev poll : Poll
poll = record {
  id = "p1";
  chat_id = "c";
  message_id = "m1";
  question = "What will you drink?";
  description = none;
  options = options;
  show_who_voted = true;
  multiple = true;
  allow_add_options = false;
  allow_revoting = false;
  shuffle_options = true;
  correct_option_ids = [];
  explanation = none;
  closes_at = some 100;
  hide_results = true;
  is_closed = false;
  created_by = "ann";
  created_at = 1;
  closed = false;
  results_hidden = false;
  my_option_ids = [];
  total_votes = none;
  results = [];
  voters = none;
}

abbrev ballots : List PollVote
ballots =
    record { user_id = "ann"; option_ids = "o1" ∷ "o3" ∷ []; voted_at = 5 }
    ∷ record { user_id = "bob"; option_ids = "o3" ∷ []; voted_at = 6 }
    ∷ []

abbrev reversed : String → String → ℕ → List ℕ
reversed poll_id viewer_id n = 2 ∷ 1 ∷ 0 ∷ []

-- The ballots, with the roles fixed.
abbrev ballot_chats : Chats (List PollVote)
ballot_chats = record {
  get_chat = λ c s. got group;
  is_chat_member = λ c u s. got (not (u == "eve"));
  get_chat_member_role = λ c u s. got "member";
  list_chat_member_ids = λ c s. got [];
  list_chat_members = λ c banned s. got [];
  is_public_channel_banned = λ c u s. got false;
  add_chat_members = λ c ids s. (s, none);
  update_chat_member_role = λ c u role s. (s, none);
  remove_chat_member = λ c u s. (s, none);
  upsert_public_channel_ban = λ c u a s. (s, none);
  delete_public_channel_ban = λ c u s. (s, none);
  upsert_public_channel_mute = λ c u a s. (s, none);
  delete_public_channel_mute = λ c u s. (s, none);
}

abbrev polls : PollStore (List PollVote)
polls = record {
  configured = true;
  get_poll = λ id s. if id == "p1" then got poll else failed poll_not_found;
  list_votes = λ id s. got s;
  upsert_vote =
      λ id user ids now s. (record { user_id = user; option_ids = ids; voted_at = now } ∷ s, none);
  close_poll = λ id s. (s, none);
  get_message = λ c id s. got tt;
}

vote_poll-Voted_example :
    Voted std reversed ballot_chats polls "cat" "p1" 7 ballots
      (vote_poll std reversed ballot_chats polls " cat" "p1" ("o2" ∷ []) 7 ballots)
unfolding trim_space
vote_poll-Voted_example =
    vote_poll-Voted std reversed ballot_chats polls " cat" "p1" ("o2" ∷ []) 7 ballots eq_refl

view-hidden_example :
    let view = build_poll_view std reversed poll ballots 7 "cat" in
    (view ≡ build_poll_view std reversed poll [] 7 "cat")
    × (view.total_votes ≡ none)
    × (view.results ≡ [])
    × (view.voters ≡ none)
unfolding effectively_closed vote_by_user ids_of
view-hidden_example =
    view-hidden std reversed poll ballots 7 "cat"
      (record { no_results = refl; no_total = refl; no_voters = refl }) refl refl refl

view-aligned_example :
    let view = build_poll_view std reversed poll ballots 7 "bob" in
    (view.total_votes ≡ some 2) × (map (λ row. row.id) view.results ≡ map (λ o. o.id) view.options)
unfolding effectively_closed vote_by_user ids_of
view-aligned_example = view-aligned std reversed poll ballots 7 "bob" refl

tally_lem_example : tally options ballots ≡ map (due_row ballots) options
tally_lem_example = tally_lem options ballots

tally_bounds_example : All (λ row. (row.votes ≤ 2) × (row.percent ≤ 100)) (tally options ballots)
unfolding any
tally_bounds_example = tally_bounds options ballots ((refl, (refl, tt)), ((refl, tt), tt))

validate_poll_answer-IsAnswer_example :
    Holds (IsAnswer poll) (validate_poll_answer poll (" o1" ∷ "o3" ∷ []))
validate_poll_answer-IsAnswer_example = validate_poll_answer-IsAnswer poll (" o1" ∷ "o3" ∷ [])

validate_poll_answer_accepts_example :
    validate_poll_answer poll ("o3" ∷ "o1" ∷ []) ≡ ok ("o3" ∷ "o1" ∷ [])
unfolding knows any trim_space
validate_poll_answer_accepts_example =
    validate_poll_answer_accepts poll ("o3" ∷ "o1" ∷ [])
      (record {
        known = (refl, (refl, tt));
        once = (refl, (refl, tt));
        some_given = omega arith;
        single = λ one. ground arith;
      })
      ((refl, refl), ((refl, refl), tt))
