-- ===== src/Calls/History.antt =====
-- internal/calls/history.go: the past calls of a chat. Times are nanoseconds here. The source computes
-- the whole seconds of a duration with floats, which is exact below 2 ^ 22 seconds.
pub mod Distinct
pub mod Projection
use combox_backend.Prelude.{
  ℕ, ◌-◌, ◌/◌, String, Bool, true, false, not, ◌&&◌, ◌||◌, ◌==◌, eqb, leb, ltb, if◌then◌else◌,
  Option, none, some, List, [], ◌∷◌, length, map,
}
use combox_backend.Prelude.Text.{trim_space}
use combox_backend.Prelude.Dict.{has}
use combox_backend.Prelude.Chosen.{Chosen, none_chosen, with_choice}
use combox_backend.Calls.Errors.{GoError, err_not_member, err_call_not_found, Result, ok, err}
use combox_backend.Calls.Types.{CallRecord, ParticipantRecord, ended}

pub record CallHistoryEntry : Type 0 where
  pub call : CallRecord
  pub participants : List String

pub record ChatCall : Type 0 where
  pub id : String
  pub chat_id : String
  pub kind : String
  pub started_by : String
  pub started_at : ℕ
  pub ended_at : Option ℕ
  pub duration_seconds : ℕ
  pub end_reason : Option String
  pub direction : String
  pub missed : Bool
  pub participants : List String

abbrev pub direction_outgoing : String
direction_outgoing = "outgoing"

abbrev pub direction_incoming : String
direction_incoming = "incoming"

-- What the service reads: the membership check, the bulk query of the stores that have one, and the
-- calls and participants of any store; each may be missing.
pub record Archive : Type 0 where
  pub is_member : Option (String → String → Result Bool)
  pub bulk : Option (String → ℕ → Result (List CallHistoryEntry))
  pub recent_calls : Option (String → ℕ → Result (List CallRecord))
  pub list_participants : String → Result (List ParticipantRecord)
  pub delete_call : Option (String → String → Result Bool)

dedupe_step : Chosen → String → Chosen
unfolding trim_space has with_choice
dedupe_step c raw =
    let id = trim_space raw in if id == "" || has id c.seen then c else with_choice c id

dedupe_from : Chosen → List String → List String
unfolding dedupe_step
dedupe_from c [] = c.out
dedupe_from c (raw ∷ raws) = dedupe_from (dedupe_step c raw) raws

-- `dedupeIDs`
unfoldable pub dedupe_ids : List String → List String
unfolding dedupe_from
dedupe_ids raw = dedupe_from none_chosen raw

seconds_of : ℕ → Option ℕ → ℕ
seconds_of started none = 0
seconds_of started (some finish) = (finish - started) / 1000000000

-- `projectChatCall`
unfoldable pub project_chat_call : CallHistoryEntry → String → ChatCall
unfolding dedupe_ids seconds_of ended
project_chat_call entry viewer_id =
    let call = entry.call in
    let participants = dedupe_ids entry.participants in
    record {
      id = call.id;
      chat_id = call.chat_id;
      kind = call.kind;
      started_by = call.started_by;
      started_at = call.started_at;
      ended_at = call.ended_at;
      duration_seconds = seconds_of call.started_at call.ended_at;
      end_reason = call.end_reason;
      direction = if call.started_by == viewer_id then direction_outgoing else direction_incoming;
      missed = ended call && leb (length participants) 1;
      participants = participants;
    }

-- A negative limit counts as 0 here, which the source treats alike.
limited_calls : ℕ → ℕ
limited_calls limit =
    let given = if eqb limit 0 then 50 else limit in if ltb 200 given then 200 else given

-- The membership check of a viewer, where there is one.
member_or :
    {A : Type 0} → Option (String → String → Result Bool) → String → String → Result A → Result A
member_or none user chat rest = rest
member_or (some check) user chat rest = elim (check user chat) [
  | err e ↦ err e
  | ok member ↦ if member then rest else err err_not_member
]

with_participants : Archive → List CallRecord → Result (List CallHistoryEntry)
with_participants a [] = ok []
with_participants a (call ∷ calls) =
    let rest = with_participants a calls in
    elim (a.list_participants call.id) [
      | err e ↦ err e
      | ok parts ↦ elim rest [
        | err e ↦ err e
        | ok entries ↦
            ok (record { call = call; participants = map (λ part. part.user_id) parts } ∷ entries)
      ]
    ]

-- `callHistory`
call_history : Archive → String → ℕ → Result (List CallHistoryEntry)
unfolding with_participants
call_history a chat limit = elim a.bulk [
  | some query ↦ query chat limit
  | none ↦ elim a.recent_calls [
    | none ↦ ok []
    | some query ↦ elim (query chat limit) [ err e ↦ err e | ok calls ↦ with_participants a calls ]
  ]
]

projected : String → Result (List CallHistoryEntry) → Result (List ChatCall)
unfolding project_chat_call
projected viewer (err e) = err e
projected viewer (ok entries) = ok (map (λ entry. project_chat_call entry viewer) entries)

-- `ListChatCalls`
unfoldable pub list_chat_calls : Archive → String → String → ℕ → Result (List ChatCall)
unfolding limited_calls member_or call_history projected trim_space
list_chat_calls a user_id chat_id limit =
    let user = trim_space user_id in
    let chat = trim_space chat_id in
    if user == "" || chat == ""
    then err err_not_member
    else member_or a.is_member user chat
        (projected user (call_history a chat (limited_calls limit)))

erased : Option (String → String → Result Bool) → String → String → Result (Unit {0})
erased none chat call_id = err err_call_not_found
erased (some delete) chat call_id = elim (delete chat call_id) [
  | err e ↦ err e
  | ok deleted ↦ if deleted then ok tt else err err_call_not_found
]

-- `DeleteChatCall`: what it answers.
unfoldable pub delete_chat_call : Archive → String → String → String → Result (Unit {0})
unfolding member_or erased trim_space
delete_chat_call a user_id chat_id call_id =
    let user = trim_space user_id in
    let chat = trim_space chat_id in
    let call = trim_space call_id in
    if user == "" || chat == "" || call == ""
    then err err_call_not_found
    else member_or a.is_member user chat (erased a.delete_call chat call)
