-- ===== src/Chat/Polls/Tally.antt =====
-- internal/service/chat/service_polls.go: what the rows of a tally count, and their percentages.
use native.Mathlib.Decide.{dec_lt}
use native.Mathlib.Nat.{div-lt_iff_lt-mul}
use combox_backend.Prelude.{
  ℕ, ◌+◌, ◌*◌, ◌/◌, ◌≤◌, ◌<◌, suc, String, true, false, ◌==◌, eq_iff, eq_refl, bit, if◌then◌else◌,
  Option, none, some, Option-cases, List, [], ◌∷◌, length, map, All, inl, inr, ◌≡◌, refl, ap, sym,
  ◌∙◌, arith, NoRepeat, among_ids, any, All-weaken, map_same, subst,
}
use combox_backend.Prelude.Dict.{
  Dict, lookup, insert, lookup-insert, has-lookup-none, has-lookup-some,
}
use combox_backend.Chat.Polls.{PollOption, PollResult, PollVote, knows}
use combox_backend.Chat.Polls.View.{
  percent_of, or_zero, no_counts, bump, bump_all, count_votes, result_of, tally,
}

-- How often an id stands in a list, and in the ballots.
pub times : String → List String → ℕ
times id [] = 0
times id (x ∷ xs) = bit (x == id) + times id xs

pub ballots_for : String → List PollVote → ℕ
unfolding times
ballots_for id [] = 0
ballots_for id (vote ∷ votes) = times id vote.option_ids + ballots_for id votes

add_to : ℕ → Option ℕ → Option ℕ
add_to n none = none
add_to n (some k) = some (k + n)

add_to-zero : (o : Option ℕ) → add_to 0 o ≡ o
unfolding add_to
add_to-zero none = refl
add_to-zero (some k) = ground arith

add_to-add_to : (m n : ℕ) (o : Option ℕ) → add_to n (add_to m o) ≡ add_to (m + n) o
unfolding add_to
add_to-add_to m n none = refl
add_to-add_to m n (some k) = ground arith

lookup-bump : (c : Dict ℕ) (i j : String) → lookup j (bump c i) ≡ add_to (bit (i == j)) (lookup j c)
unfolding bump add_to or_zero
lookup-bump c i j = elim (Option-cases (lookup i c)) [
  | inl e ↦ ground (arith, e, has-lookup-none i c e, eq_iff i j, add_to-zero (lookup j c))
  | inr (k, e) ↦ ground (
    arith,
    e,
    has-lookup-some i k c e,
    lookup-insert i j (suc k) c,
    eq_iff i j,
    add_to-zero (lookup j c),
  )
]

lookup-bump_all :
    (c : Dict ℕ) (ids : List String) (j : String)
    → lookup j (bump_all c ids) ≡ add_to (times j ids) (lookup j c)
unfolding bump_all times
lookup-bump_all c [] j = sym (add_to-zero (lookup j c))
lookup-bump_all c (i ∷ ids) j =
    lookup-bump_all (bump c i) ids j
    ∙ ap (add_to (times j ids)) (lookup-bump c i j)
    ∙ add_to-add_to (bit (i == j)) (times j ids) (lookup j c)

lookup-count_votes :
    (c : Dict ℕ) (votes : List PollVote) (j : String)
    → lookup j (count_votes c votes) ≡ add_to (ballots_for j votes) (lookup j c)
unfolding count_votes ballots_for
lookup-count_votes c [] j = sym (add_to-zero (lookup j c))
lookup-count_votes c (vote ∷ votes) j =
    lookup-count_votes (bump_all c vote.option_ids) votes j
    ∙ ap (add_to (ballots_for j votes)) (lookup-bump_all c vote.option_ids j)
    ∙ add_to-add_to (times j vote.option_ids) (ballots_for j votes) (lookup j c)

lookup-no_counts :
    (c : Dict ℕ) (os : List PollOption) (j : String)
    → lookup j (no_counts c os) ≡ (if knows os j then some 0 else lookup j c)
unfolding no_counts knows
lookup-no_counts c [] j = refl
lookup-no_counts c (o ∷ os) j =
    ground (arith, lookup-no_counts (insert o.id 0 c) os j, lookup-insert o.id j 0 c)

-- The row that is due for an option: how often the ballots name it.
abbrev pub due_row : List PollVote → PollOption → PollResult
due_row votes o = record {
  id = o.id;
  text = o.text;
  votes = ballots_for o.id votes;
  percent = percent_of (ballots_for o.id votes) (length votes);
}

result_of-due_row :
    (options : List PollOption) (votes : List PollVote) (o : PollOption)
    → knows options o.id ≡ true
    → result_of (count_votes (no_counts [] options) votes) (length votes) o ≡ due_row votes o
unfolding result_of or_zero add_to
result_of-due_row options votes o known =
    let count : or_zero (lookup o.id (count_votes (no_counts [] options) votes))
        ≡ ballots_for o.id votes =
      ground (
        arith,
        lookup-count_votes (no_counts [] options) votes o.id,
        lookup-no_counts [] options o.id,
      ) in
    rw count refl

-- An option of a list is known to the list.
knows-All : (os : List PollOption) → All (λ o. knows os o.id ≡ true) os
unfolding knows
knows-All [] = tt
knows-All (o ∷ os) =
    (ground (arith, eq_refl o.id), All-weaken (λ other h. ground arith) os (knows-All os))

-- The tally has a row for each option, in their order: the number of ballots that name the option,
-- counted as often as they name it, and its share of all ballots.
pub tally_lem :
    (options : List PollOption) (votes : List PollVote)
    → tally options votes ≡ map (due_row votes) options
unfolding tally
tally_lem options votes =
    map_same (λ o. knows options o.id ≡ true) (result_of-due_row options votes) options
      (knows-All options)

absent-times : (id : String) (ids : List String) → among_ids id ids ≡ false → times id ids ≡ 0
unfolding times any
absent-times id [] h = refl
absent-times id (x ∷ ids) h = ground (arith, absent-times id ids)

times-le_one : (id : String) (ids : List String) → NoRepeat ids → times id ids ≤ 1
unfolding times
times-le_one id [] h = omega arith
times-le_one id (x ∷ ids) h =
    ground (arith, times-le_one id ids h.1, eq_iff x id, absent-times x ids h.0)

ballots_for-le :
    (id : String) (votes : List PollVote)
    → All (λ vote. NoRepeat vote.option_ids) votes
    → ballots_for id votes ≤ length votes
unfolding ballots_for
ballots_for-le id [] h = omega arith
ballots_for-le id (vote ∷ votes) h =
    omega (arith, times-le_one id vote.option_ids h.0, ballots_for-le id votes h.1)

percent_of-le : (count total : ℕ) → count ≤ total → percent_of count total ≤ 100
unfolding percent_of
percent_of-le count total h = elim (dec_lt 0 total) [
  | yes pos ↦
      let small : (200 * count + total) / (2 * total) < 101 =
        (div-lt_iff_lt-mul {k = 2 * total} {y = 101} (omega arith)).1 (omega arith) in
      ground arith
  | no nobody ↦ ground arith
]

rows_bounded :
    (votes : List PollVote) (os : List PollOption)
    → All (λ vote. NoRepeat vote.option_ids) votes
    → All (λ row. (row.votes ≤ length votes) × (row.percent ≤ 100)) (map (due_row votes) os)
rows_bounded votes [] h = tt
rows_bounded votes (o ∷ os) h =
    let few = ballots_for-le o.id votes h in
    ((few, percent_of-le (ballots_for o.id votes) (length votes) few), rows_bounded votes os h)

-- If no ballot names an option twice, no option has more votes than there are ballots, nor more than
-- a hundred percent of them.
pub tally_bounds :
    (options : List PollOption) (votes : List PollVote)
    → All (λ vote. NoRepeat vote.option_ids) votes
    → All (λ row. (row.votes ≤ length votes) × (row.percent ≤ 100)) (tally options votes)
tally_bounds options votes h =
    subst (All (λ row. (row.votes ≤ length votes) × (row.percent ≤ 100)))
      (sym (tally_lem options votes)) (rows_bounded votes options h)
