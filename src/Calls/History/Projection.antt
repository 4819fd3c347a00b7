-- ===== src/Calls/History/Projection.antt =====
-- internal/calls/history.go: what the feed of a chat shows of a past call.
use combox_backend.Prelude.{◌&&◌, String, ◌≡◌, ap}
use combox_backend.Calls.Types.{ended}
use combox_backend.Calls.History.{CallHistoryEntry, ChatCall, project_chat_call}
use combox_backend.Calls.History.Distinct.{
  IsDistinctOf, alone, dedupe_ids-IsDistinctOf, dedupe_ids-alone,
}

-- What the feed shows of a call: everyone who took part and nobody else, each once; and that it was
-- missed exactly if it has ended and one person at most took part.
pub record IsProjected (entry : CallHistoryEntry) (call : ChatCall) : Type 0 where
  pub everyone : IsDistinctOf entry.participants call.participants
  pub missed_alone : call.missed ≡ (ended entry.call && alone entry.participants)

-- The feed shows of a call everyone who took part and nobody else, each once and without blank ids; and
-- the call as missed exactly if it has ended and the people who took part are one at most.
pub project_chat_call-IsProjected :
    (entry : CallHistoryEntry) (viewer_id : String)
    → IsProjected entry (project_chat_call entry viewer_id)
unfolding project_chat_call
project_chat_call-IsProjected entry viewer_id = record {
  everyone = dedupe_ids-IsDistinctOf entry.participants;
  missed_alone = ap (λ few. ended entry.call && few) (dedupe_ids-alone entry.participants);
}
