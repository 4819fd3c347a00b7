-- ===== src/Chat/Polls/Voting.antt =====
-- internal/service/chat/service_polls.go: `GetPoll`, `VotePoll` and `ClosePoll`. `now` is the time of
-- the call.
pub mod Recast
pub mod Outcome
use combox_backend.Prelude.{
  ℕ, String, Bool, true, false, not, ◌&&◌, ◌||◌, ◌==◌, if◌then◌else◌, Option, none, some, List, [],
  ◌∷◌, ◌++◌,
}
use combox_backend.Prelude.Text.{trim_space}
use combox_backend.Chat.Base.{
  Std, Fault, chat_not_found, message_not_found, poll_not_found, invalid_attachments,
  folder_not_found, folder_name_taken, folder_limit, not_configured, other, Error, internal,
  conflict, not_found, map_fault, Result, ok, err, Answer, got, failed, Action, ◌>>=◌, ◌>>◌, lift,
  pure, raise, require, ask, tell,
}
use combox_backend.Chat.Access.{
  Chats, no_access, ensure_chat_readable, can_manage_members_by_role, role_if_member,
}
use combox_backend.Chat.Polls.{Poll, PollVote, bad_input, effectively_closed, validate_poll_answer}
use combox_backend.Chat.Polls.View.{vote_by_user, build_poll_view}

-- The methods of `PollRepository`, and `GetMessageByID` of the message repository. `configured` says
-- whether the service was given a poll repository.
pub record PollStore (Store : Type 0) : Type 0 where
  pub configured : Bool
  pub get_poll : String → Store → Answer Poll
  pub list_votes : String → Store → Answer (List PollVote)
  pub upsert_vote : String → String → List String → ℕ → Store → Store × Option Fault
  pub close_poll : String → Store → Store × Option Fault
  pub get_message : String → String → Store → Answer (Unit {0})

-- The error of a poll whose message is gone.
message_fault : Fault → Error
unfolding map_fault
message_fault chat_not_found = map_fault chat_not_found
message_fault message_not_found = not_found "error.poll.not_found" (some message_not_found)
message_fault poll_not_found = map_fault poll_not_found
message_fault invalid_attachments = map_fault invalid_attachments
message_fault folder_not_found = map_fault folder_not_found
message_fault folder_name_taken = map_fault folder_name_taken
message_fault folder_limit = map_fault folder_limit
message_fault not_configured = map_fault not_configured
message_fault (other text) = map_fault (other text)

abbrev pub is_some {ℓ} : {A : Type ℓ} → Option A → Bool
is_some none = false
is_some (some a) = true

-- The ballots after a vote: the first ballot of the user is replaced, or a new one stands last.
replaced : Std → List PollVote → String → List String → ℕ → List PollVote
replaced std [] user_id ids now = []
replaced std (vote ∷ votes) user_id ids now =
    let rest = replaced std votes user_id ids now in
    if std.equal_fold vote.user_id user_id
    then record vote { option_ids = ids; voted_at = now } ∷ votes
    else vote ∷ rest

unfoldable pub reflected : Std → List PollVote → String → List String → ℕ → List PollVote
unfolding replaced vote_by_user
reflected std votes user_id ids now =
    if is_some (vote_by_user std votes user_id)
    then replaced std votes user_id ids now
    else votes ++ record { user_id = user_id; option_ids = ids; voted_at = now } ∷ []

module _ (std : Std) (order : String → String → ℕ → List ℕ) {Store : Type 0} (chats : Chats Store)
    (polls : PollStore Store) where
  -- `ensurePollReadable`
  unfoldable pub ensure_poll_readable : Poll → String → Action Store (Unit {0})
  unfolding ensure_chat_readable message_fault
  ensure_poll_readable poll user_id =
      ensure_chat_readable std chats poll.chat_id user_id
      >> ask (polls.get_message poll.chat_id poll.message_id) message_fault

  -- `pollVotes`
  unfoldable pub poll_votes : String → Action Store (List PollVote)
  poll_votes poll_id = do
    require polls.configured (internal not_configured)
    ask (polls.list_votes poll_id) internal

  -- The poll that a request on trimmed ids is about.
  unfoldable pub readable_poll : String → String → Action Store Poll
  unfolding ensure_poll_readable map_fault
  readable_poll user poll_id = do
    require (not (user == "" || poll_id == "")) bad_input
    require polls.configured (internal not_configured)
    poll ← ask (polls.get_poll poll_id) map_fault
    ensure_poll_readable poll user
    pure poll

  -- `GetPoll`
  unfoldable pub get_poll : String → String → ℕ → Action Store Poll
  unfolding readable_poll poll_votes build_poll_view trim_space
  get_poll user_id poll_id now = do
    let user = trim_space user_id
    poll ← readable_poll user (trim_space poll_id)
    votes ← poll_votes poll.id
    pure (build_poll_view std order poll votes now user)

  -- `VotePoll`
  unfoldable pub vote_poll : String → String → List String → ℕ → Action Store Poll
  unfolding readable_poll poll_votes build_poll_view effectively_closed validate_poll_answer
      vote_by_user reflected trim_space
  vote_poll user_id poll_id option_ids now = do
    let user = trim_space user_id
    poll ← readable_poll user (trim_space poll_id)
    require (not (effectively_closed poll now)) (conflict "error.poll.closed")
    ids ← lift (validate_poll_answer poll option_ids)
    votes ← poll_votes poll.id
    require (not (is_some (vote_by_user std votes user) && not poll.allow_revoting))
        (conflict "error.poll.already_voted")
    tell (polls.upsert_vote poll.id user ids now) internal
    pure (build_poll_view std order poll (reflected std votes user ids now) now user)

  or_no_role : Option String → String
  or_no_role none = ""
  or_no_role (some role) = role

  -- The creator, or who may edit the chat.
  may_close : Poll → String → Action Store (Unit {0})
  unfolding can_manage_members_by_role role_if_member or_no_role
  may_close poll user =
      if std.equal_fold poll.created_by user
      then pure tt
      else ((λ s. (s, role_if_member (chats.get_chat_member_role poll.chat_id user s))) >>= λ role.
          require (can_manage_members_by_role std (or_no_role role)) no_access)

  -- A poll that is closed already is left alone.
  stop : Poll → Action Store Poll
  stop poll =
      if poll.is_closed
      then pure poll
      else (tell (polls.close_poll poll.id) internal >> pure (record poll { is_closed = true }))

  -- `ClosePoll`
  unfoldable pub close_poll : String → String → ℕ → Action Store Poll
  unfolding readable_poll may_close stop poll_votes build_poll_view trim_space
  close_poll user_id poll_id now = do
    let user = trim_space user_id
    poll ← readable_poll user (trim_space poll_id)
    may_close poll user
    closed ← stop poll
    votes ← poll_votes closed.id
    pure (build_poll_view std order closed votes now user)
