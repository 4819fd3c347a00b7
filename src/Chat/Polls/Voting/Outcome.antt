-- ===== src/Chat/Polls/Voting/Outcome.antt =====
-- internal/service/chat/service_polls.go: how `VotePoll` ends.
use combox_backend.Prelude.{
  ℕ, ◌≤◌, String, true, false, not, ◌&&◌, none, some, Option-cases, List, length, ◌≡◌, refl, subst,
  inl, inr, arith,
}
use combox_backend.Prelude.Text.{trim_space}
use combox_backend.Chat.Base.{
  Std, Fault, Error, internal, Result, ok, err, ◌>>=◌, ◌>>◌, lift, pure, tell,
}
use combox_backend.Chat.Access.{Chats}
use combox_backend.Chat.Access.Reads.{ensure_chat_readable-Keeps}
use combox_backend.Chat.Steps.{
  Keeps, bind_cases, bind-Keeps, lift-Keeps, require_cases, require-Keeps, ask-Keeps, pure-Keeps,
  ok-Holds,
}
use combox_backend.Chat.Polls.{Poll, PollVote, effectively_closed, validate_poll_answer}
use combox_backend.Chat.Polls.Checks.{IsAnswer, validate_poll_answer-IsAnswer}
use combox_backend.Chat.Polls.View.{vote_by_user, ids_of, build_poll_view}
use combox_backend.Chat.Polls.View.Secrecy.{keeps_back}
use combox_backend.Chat.Polls.View.Voter.{ShowsVote, view-ShowsVote}
use combox_backend.Chat.Polls.Voting.Recast.{IsRecast, said-ids_of, reflected-IsRecast}
use combox_backend.Chat.Polls.Voting.{
  PollStore, is_some, reflected, ensure_poll_readable, poll_votes, readable_poll, vote_poll,
}

module _ (std : Std) (order : String → String → ℕ → List ℕ) {Store : Type 0} (chats : Chats Store)
    (polls : PollStore Store) where
  readable_poll-Keeps :
      (user poll_id : String) → Keeps (readable_poll std order chats polls user poll_id)
  unfolding readable_poll ensure_poll_readable
  readable_poll-Keeps user poll_id = bind-Keeps _ _ (require-Keeps _ _) (λ u.
      bind-Keeps _ _ (require-Keeps _ _) (λ u. bind-Keeps _ _ (ask-Keeps _ _) (λ poll.
        bind-Keeps _ _
          (bind-Keeps _ _ (ensure_chat_readable-Keeps std chats _ _) (λ u. ask-Keeps _ _))
          (λ u. pure-Keeps _))))

  poll_votes-Keeps : (poll_id : String) → Keeps (poll_votes std order chats polls poll_id)
  unfolding poll_votes
  poll_votes-Keeps poll_id = bind-Keeps _ _ (require-Keeps _ _) (λ u. ask-Keeps _ _)

  -- A vote on an open poll by a valid ballot, by one who has not voted or may vote again.
  pub record IsFair (user poll_id : String) (now : ℕ) (s : Store) : Type 0 where
    pub poll : Poll
    pub ids : List String
    pub votes : List PollVote
    pub readable : (readable_poll std order chats polls user poll_id s).1 ≡ ok poll
    pub is_open : effectively_closed poll now ≡ false
    pub valid : IsAnswer poll ids
    pub known : (poll_votes std order chats polls poll.id s).1 ≡ ok votes
    pub may_vote : (is_some (vote_by_user std votes user) && not poll.allow_revoting) ≡ false

  pub data Voted (user poll_id : String) (now : ℕ) (s : Store) (out : Store × Result Poll)
      : Type 0 where
    refused : out.0 ≡ s → (e : Error) → out.1 ≡ err e → Voted user poll_id now s out
    not_written :
        (fair : IsFair user poll_id now s)
        → (f : Fault) → (polls.upsert_vote fair.poll.id user fair.ids now s).1 ≡ some f
        → out ≡ ((polls.upsert_vote fair.poll.id user fair.ids now s).0, err (internal f))
        → Voted user poll_id now s out
    done :
        (fair : IsFair user poll_id now s) (votes : List PollVote) (view : Poll)
        → (polls.upsert_vote fair.poll.id user fair.ids now s).1 ≡ none
        → out ≡ ((polls.upsert_vote fair.poll.id user fair.ids now s).0, ok view)
        → IsRecast std user fair.ids now fair.votes votes
        → view ≡ build_poll_view std order fair.poll votes now user
        → ShowsVote fair.ids votes view
        → Voted user poll_id now s out

  refuse :
      (user poll_id : String) (now : ℕ) (s : Store) (e : Error)
      → Voted user poll_id now s (s, err e)
  refuse user poll_id now s e = refused refl e refl

  -- The view of a voter, who has named an option.
  voter-ShowsVote :
      (poll : Poll) (votes after : List PollVote) (user : String) (ids : List String) (now : ℕ)
      → 1 ≤ length ids
      → IsRecast std user ids now votes after
      → ShowsVote ids after (build_poll_view std order poll after now user)
  voter-ShowsVote poll votes after user ids now given recast =
      let mine : ids_of std order (vote_by_user std after user) ≡ ids =
        said-ids_of std order (vote_by_user std after user) ids now recast.own in
      let seen : keeps_back std order poll after now user ≡ false = rw mine (ground arith) in
      subst (λ own. ShowsVote own after (build_poll_view std order poll after now user)) mine
        (view-ShowsVote std order poll after now user seen)

  write-Voted :
      (user poll_id : String) (now : ℕ) (s : Store) (fair : IsFair user poll_id now s)
      → std.equal_fold user user ≡ true
      → Voted user poll_id now s (
          (tell (polls.upsert_vote fair.poll.id user fair.ids now) internal
              >> pure (
                  build_poll_view std order fair.poll
                    (reflected std fair.votes user fair.ids now)
                    now
                    user))
            s)
  unfolding tell pure ◌>>=◌
  write-Voted user poll_id now s fair same =
      let after = reflected std fair.votes user fair.ids now in
      let recast = reflected-IsRecast std fair.votes user fair.ids now same in
      elim (Option-cases (polls.upsert_vote fair.poll.id user fair.ids now s).1) [
        | inl fine ↦ rw fine (
            done fair after (build_poll_view std order fair.poll after now user) fine refl recast
              refl
              (voter-ShowsVote fair.poll fair.votes after user fair.ids now fair.valid.some_given
                recast))
        | inr (f, broken) ↦ rw broken (not_written fair f broken refl)
      ]

  -- `VotePoll`: nothing is written but a valid ballot on an open poll that the user may read, by a user
  -- who has not voted or where votes may change; each refusal leaves the store as it was. A vote that is
  -- written is answered with the poll as it looks with ballots among which the user's own is the new one
  -- and those of all others are as they were: the user's choice, the number of these ballots, and for
  -- each option how many of them name it. An id of a user has to match itself under `strings.EqualFold`.
  pub vote_poll-Voted :
      (user_id poll_id : String) (option_ids : List String) (now : ℕ) (s : Store)
      → ((id : String) → std.equal_fold id id ≡ true)
      → Voted
          (trim_space user_id)
          (trim_space poll_id)
          now
          s
          (vote_poll std order chats polls user_id poll_id option_ids now s)
  unfolding vote_poll lift
  vote_poll-Voted user_id poll_id option_ids now s same =
      let user = trim_space user_id in
      let Out = Voted user (trim_space poll_id) now s in
      let refuse' = refuse user (trim_space poll_id) now s in
      bind_cases Out _ _ s (readable_poll-Keeps user (trim_space poll_id)) refuse' (λ poll readable.
        require_cases Out _ _ _ s refuse' (λ is_open.
          bind_cases Out _ _ s (lift-Keeps (validate_poll_answer poll option_ids)) refuse'
            (λ ids given. bind_cases Out _ _ s (poll_votes-Keeps poll.id) refuse' (λ votes known.
              require_cases Out _ _ _ s refuse' (λ may_vote.
                write-Voted user (trim_space poll_id) now s
                  (record {
                    poll = poll;
                    ids = ids;
                    votes = votes;
                    readable = readable;
                    is_open = ground arith;
                    valid =
                        ok-Holds (IsAnswer poll) _ ids
                          (validate_poll_answer-IsAnswer poll option_ids) given;
                    known = known;
                    may_vote = ground arith;
                  })
                  (same user))))))
