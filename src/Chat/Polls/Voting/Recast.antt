-- ===== src/Chat/Polls/Voting/Recast.antt =====
-- internal/service/chat/service_polls.go: the ballots after a vote.
use combox_backend.Prelude.{
  ℕ, ◌+◌, String, Bool, true, false, not, bit, Bool-cases, Option, none, some, List, [], ◌∷◌, ◌++◌,
  length, keep, ◌≡◌, refl, ap, inl, inr, arith,
}
use combox_backend.Chat.Base.{Std}
use combox_backend.Chat.Polls.{PollVote}
use combox_backend.Chat.Polls.View.{vote_by_user, ids_of}
use combox_backend.Chat.Polls.Voting.{is_some, replaced, reflected}

-- What a ballot says, and since when.
abbrev pub said : Option PollVote → Option (List String × ℕ)
said none = none
said (some vote) = some (vote.option_ids, vote.voted_at)

pub said-ids_of :
    (std : Std) (order : String → String → ℕ → List ℕ) (known : Option PollVote) (ids : List String)
    (now : ℕ)
    → said known ≡ some (ids, now)
    → ids_of std order known ≡ ids
unfolding ids_of
said-ids_of std order none ids now h = cc
said-ids_of std order (some vote) ids now h = cc

-- The ballots of all others.
abbrev pub by_others : Std → String → PollVote → Bool
by_others std user vote = not (std.equal_fold vote.user_id user)

-- Ballots after a user has voted: the user's ballot is the new one, those of all others are as they
-- were, and there is one ballot more exactly if the user had none.
pub record IsRecast (std : Std) (user : String) (ids : List String) (now : ℕ)
    (votes after : List PollVote) : Type 0 where
  pub own : said (vote_by_user std after user) ≡ some (ids, now)
  pub unchanged : keep (by_others std user) after ≡ keep (by_others std user) votes
  pub size : length after ≡ length votes + bit (not (is_some (vote_by_user std votes user)))

replaced-IsRecast :
    (std : Std) (votes : List PollVote) (user : String) (ids : List String) (now : ℕ)
    → is_some (vote_by_user std votes user) ≡ true
    → IsRecast std user ids now votes (replaced std votes user ids now)
unfolding replaced vote_by_user keep
replaced-IsRecast std [] user ids now h = cc
replaced-IsRecast std (vote ∷ votes) user ids now h =
    elim (Bool-cases (std.equal_fold vote.user_id user)) [
      | inl mine ↦
          rw mine
            (record { own = rw mine refl; unchanged = rw mine refl; size = rw mine (omega arith) })
      | inr other ↦
          let rest = replaced-IsRecast std votes user ids now (ground arith) in
          rw other (record {
            own = rw other rest.own;
            unchanged = rw other (ap (λ kept. vote ∷ kept) rest.unchanged);
            size = rw other (omega (arith, rest.size));
          })
    ]

added-IsRecast :
    (std : Std) (votes : List PollVote) (user : String) (ids : List String) (now : ℕ)
    → std.equal_fold user user ≡ true
    → is_some (vote_by_user std votes user) ≡ false
    → IsRecast std user ids now votes
        (votes ++ record { user_id = user; option_ids = ids; voted_at = now } ∷ [])
unfolding vote_by_user keep
added-IsRecast std [] user ids now same h = record {
  own = rw same refl;
  unchanged = rw same refl;
  size = omega arith;
}
added-IsRecast std (vote ∷ votes) user ids now same h =
    elim (Bool-cases (std.equal_fold vote.user_id user)) [
      | inl mine ↦ ground arith
      | inr other ↦
          let rest = added-IsRecast std votes user ids now same (ground arith) in
          record {
            own = rw other rest.own;
            unchanged = rw other (ap (λ kept. vote ∷ kept) rest.unchanged);
            size = rw other (omega (arith, rest.size));
          }
    ]

pub reflected-IsRecast :
    (std : Std) (votes : List PollVote) (user : String) (ids : List String) (now : ℕ)
    → std.equal_fold user user ≡ true
    → IsRecast std user ids now votes (reflected std votes user ids now)
unfolding reflected
reflected-IsRecast std votes user ids now same =
    elim (Bool-cases (is_some (vote_by_user std votes user))) [
      | inl had ↦ rw had (replaced-IsRecast std votes user ids now had)
      | inr new ↦ rw new (added-IsRecast std votes user ids now same new)
    ]
