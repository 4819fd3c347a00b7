-- ===== src/Chat/Polls.antt =====
-- internal/service/chat: polls. The records of service_types.go, and the checks of service_polls.go
-- that need no repository.
pub mod View
pub mod Checks
pub mod Tally
pub mod Voting
mod Tests
use Prim.Native.Char.{code}
use Prim.Native.String
use combox_backend.Prelude.{
  ℕ, ◌+◌, ◌*◌, ◌-◌, zero, suc, String, Bool, true, false, not, ◌&&◌, ◌||◌, ◌==◌, eqb, leb, ltb,
  if◌then◌else◌, Option, none, some, List, [], ◌∷◌, ◌++◌, length, map,
}
use combox_backend.Prelude.Text.{trim_space, rune_length}
use combox_backend.Prelude.Dict.{Dict, has, insert}
use combox_backend.Prelude.Chosen.{Chosen, none_chosen, with_choice}
use combox_backend.Chat.Base.{Std, Result, ok, err, Error, invalid_arg}

abbrev pub poll_min_options : ℕ
poll_min_options = 2

abbrev pub poll_max_options : ℕ
poll_max_options = 13

abbrev pub poll_max_question : ℕ
poll_max_question = 300

abbrev pub poll_max_option_len : ℕ
poll_max_option_len = 100

abbrev pub poll_max_answer_len : ℕ
poll_max_answer_len = 600

abbrev pub bad_options : Error
bad_options = invalid_arg "error.poll.invalid_options"

abbrev pub bad_input : Error
bad_input = invalid_arg "error.poll.invalid_input"

pub record PollOption : Type 0 where
  pub id : String
  pub text : String

pub record PollResult : Type 0 where
  pub id : String
  pub text : String
  pub votes : ℕ
  pub percent : ℕ

pub record PollVote : Type 0 where
  pub user_id : String
  pub option_ids : List String
  pub voted_at : ℕ

-- The fields from `closed` on are those that `buildPollView` computes for a viewer.
pub record Poll : Type 0 where
  pub id : String
  pub chat_id : String
  pub message_id : String
  pub question : String
  pub description : Option String
  pub options : List PollOption
  pub show_who_voted : Bool
  pub multiple : Bool
  pub allow_add_options : Bool
  pub allow_revoting : Bool
  pub shuffle_options : Bool
  pub correct_option_ids : List String
  pub explanation : Option String
  pub closes_at : Option ℕ
  pub hide_results : Bool
  pub is_closed : Bool
  pub created_by : String
  pub created_at : ℕ
  pub closed : Bool
  pub results_hidden : Bool
  pub my_option_ids : List String
  pub total_votes : Option ℕ
  pub results : List PollResult
  pub voters : Option (Dict (List String))

-- `pollEffectivelyClosed`
past : ℕ → Option ℕ → Bool
past now none = false
past now (some closes_at) = leb closes_at now

unfoldable pub effectively_closed : Poll → ℕ → Bool
unfolding past
effectively_closed poll now = if poll.is_closed then true else past now poll.closes_at

-- `optionalText`
unfoldable pub optional_text : String → Option String
unfolding trim_space
optional_text value = if trim_space value == "" then none else some (trim_space value)

-- The loop of `normalizePollOptions`: the texts seen, those kept, and the ids that the uuid package
-- makes, one for each option.
pub record Options : Type 0 where
  pub seen : Dict (Unit {0})
  pub out : List PollOption

option_error : Std → Options → String → Bool
unfolding rune_length has
option_error std o text =
    text == "" || ltb poll_max_option_len (rune_length text) || has (std.to_lower text) o.seen

keep_option : Std → Options → String → String → Options
unfolding insert
keep_option std o text fresh = record {
  seen = insert (std.to_lower text) tt o.seen;
  out = o.out ++ record { id = fresh; text = text } ∷ [];
}

normalize_from : Std → Options → List (String × String) → Result (List PollOption)
unfolding option_error keep_option trim_space
normalize_from std o [] = ok o.out
normalize_from std o ((raw, fresh) ∷ raws) =
    let text = trim_space raw in
    let rest = normalize_from std (keep_option std o text fresh) raws in
    if option_error std o text then err bad_options else rest

-- `normalizePollOptions`, on each text with the id that it would get.
unfoldable pub normalize_poll_options : Std → List (String × String) → Result (List PollOption)
unfolding normalize_from
normalize_poll_options std raw =
    if ltb (length raw) poll_min_options || ltb poll_max_options (length raw)
    then err bad_options
    else normalize_from std (record { seen = []; out = [] }) raw

-- `strconv.Atoi` and the test for a negative number: the digits with an optional sign. A number past
-- 64 bits, which Atoi refuses, is past every number of options.
digits_from : ℕ → String → Option ℕ
digits_from n String.[] = some n
digits_from n (String.◌∷◌ c s) =
    let rest = digits_from (n * 10 + (code c - b'0')) s in
    if leb b'0' (code c) && leb (code c) b'9' then rest else none

digits : String → Option ℕ
unfolding digits_from
digits String.[] = none
digits (String.◌∷◌ c s) = digits_from 0 (String.◌∷◌ c s)

only_zero : Option ℕ → Option ℕ
only_zero none = none
only_zero (some n) = if eqb n 0 then some 0 else none

unfoldable pub to_index : String → Option ℕ
unfolding digits only_zero
to_index String.[] = none
to_index (String.◌∷◌ c s) =
    if eqb (code c) b'+'
    then digits s
    else if eqb (code c) b'-'
    then only_zero (digits s)
    else digits (String.◌∷◌ c s)

-- The option at an index, if there is one.
pub option_at : List PollOption → Option ℕ → Option String
option_at [] i = none
option_at (o ∷ os) none = none
option_at (o ∷ os) (some zero) = some o.id
option_at (o ∷ os) (some (suc i)) = option_at os (some i)

-- An id is chosen once.
unfoldable pub choose : Chosen → Error → Option String → Result Chosen
unfolding has with_choice
choose c e none = err e
choose c e (some id) = if has id c.seen then err e else ok (with_choice c id)

non_blank : List String → List String
unfolding trim_space
non_blank [] = []
non_blank (raw ∷ raws) =
    let rest = non_blank raws in
    let value = trim_space raw in if value == "" then rest else value ∷ rest

resolve_from : List PollOption → Result Chosen → List String → Result (List String)
unfolding choose option_at to_index
resolve_from options (err e) entries = err e
resolve_from options (ok c) [] = ok c.out
resolve_from options (ok c) (entry ∷ entries) =
    resolve_from options (choose c bad_options (option_at options (to_index entry))) entries

-- `resolveCorrectOptionIDs`
unfoldable pub resolve_correct_option_ids :
    List PollOption → List String → Bool → Result (List String)
unfolding resolve_from non_blank
resolve_correct_option_ids options raw multiple =
    let entries = non_blank raw in
    if eqb (length entries) 0
    then ok []
    else if not multiple && ltb 1 (length entries)
    then err bad_options
    else resolve_from options (ok none_chosen) entries

unfoldable pub knows : List PollOption → String → Bool
knows [] id = false
knows (o ∷ os) id = if o.id == id then true else knows os id

known_id : List PollOption → String → Option String
unfolding knows
known_id options id = if id == "" then none else if knows options id then some id else none

answer_from : List PollOption → Result Chosen → List String → Result (List String)
unfolding choose known_id trim_space
answer_from options (err e) raws = err e
answer_from options (ok c) [] = ok c.out
answer_from options (ok c) (raw ∷ raws) =
    answer_from options (choose c bad_input (known_id options (trim_space raw))) raws

-- After the loop of `validatePollAnswer`: at least one option, and one only if the poll is so.
counted : Bool → Result (List String) → Result (List String)
counted multiple (err e) = err e
counted multiple (ok out) =
    if eqb (length out) 0
    then err bad_input
    else if not multiple && not (eqb (length out) 1)
    then err bad_input
    else ok out

-- `validatePollAnswer`
unfoldable pub validate_poll_answer : Poll → List String → Result (List String)
unfolding answer_from counted
validate_poll_answer poll raw =
    counted poll.multiple (answer_from poll.options (ok none_chosen) raw)
