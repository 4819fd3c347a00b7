-- ===== src/Chat/Events.antt =====
-- internal/service/chat/service_chat_events.go: the journal of a chat.
pub mod Payload
use Prim.Native.String
use combox_backend.Prelude.{
  ℕ, String, Bool, true, false, not, ◌&&◌, ◌||◌, ◌==◌, eqb, leb, ltb, if◌then◌else◌, Option, none,
  some, List, [], ◌∷◌,
}
use combox_backend.Prelude.Text.{is_space, trim_space, append_text, rune_length, take_runes}
use combox_backend.Chat.Base.{
  Std, Fault, Error, invalid_arg, internal, Result, ok, err, Answer, got, failed, Action, ◌>>=◌,
  ◌>>◌, pure, raise, require, ask,
}
use combox_backend.Chat.Access.{Chats, ensure_chat_readable}

-- The event that the service writes: the repository gives the id and the time.
pub record ChatEvent : Type 0 where
  pub chat_id : String
  pub actor_user_id : Option String
  pub target_user_id : Option String
  pub event_type : String
  pub payload : String

-- `ChatEventRepository`; `configured` says whether the service was given one.
pub record Events (Store : Type 0) : Type 0 where
  pub configured : Bool
  pub record_chat_event : ChatEvent → Store → Store × Option Fault
  pub list_chat_events : String → ℕ → Store → Answer (List ChatEvent)

abbrev pub default_chat_events_limit : ℕ
default_chat_events_limit = 50

abbrev pub max_chat_events_limit : ℕ
max_chat_events_limit = 200

abbrev pub chat_event_payload_limit : ℕ
chat_event_payload_limit = 160

cons_word : String → List String → List String
cons_word String.[] ws = ws
cons_word (String.◌∷◌ c w) ws = String.◌∷◌ c w ∷ ws

-- The word that a text begins with, empty in front of a space, and the later words.
words_from : String → String × List String
unfolding cons_word
words_from String.[] = ("", [])
words_from (String.◌∷◌ c s) =
    let rest = words_from s in
    if is_space c then ("", cons_word rest.0 rest.1) else (String.◌∷◌ c rest.0, rest.1)

-- `strings.Fields`
unfoldable pub fields : String → List String
unfolding words_from cons_word is_space
fields s = cons_word (words_from s).0 (words_from s).1

-- `strings.Join(words, " ")`
unfoldable pub join_words : List String → String
unfolding append_text
join_words [] = ""
join_words (w ∷ []) = w
join_words (w ∷ v ∷ ws) = append_text w (append_text " " (join_words (v ∷ ws)))

cut_at : ℕ → String → String
unfolding rune_length take_runes append_text
cut_at limit s = if ltb limit (rune_length s) then append_text (take_runes limit s) "…" else s

-- `chatEventPayload`
unfoldable pub chat_event_payload : String → String
unfolding fields join_words cut_at
chat_event_payload payload = cut_at chat_event_payload_limit (join_words (fields payload))

optional : String → Option String
unfolding trim_space
optional raw = if trim_space raw == "" then none else some (trim_space raw)

journal_event : String → String → String → String → String → ChatEvent
unfolding optional chat_event_payload
journal_event chat actor target kind payload = record {
  chat_id = chat;
  actor_user_id = optional actor;
  target_user_id = optional target;
  event_type = kind;
  payload = chat_event_payload payload;
}

module _ {Store : Type 0} (events : Events Store) where
  -- `recordChatEvent`, which swallows every failure.
  unfoldable pub record_event : String → String → String → String → String → Store → Store
  unfolding journal_event trim_space
  record_event chat_id actor target event_type payload s =
      let chat = trim_space chat_id in
      let kind = trim_space event_type in
      if not events.configured || chat == "" || kind == ""
      then s
      else (events.record_chat_event (journal_event chat actor target kind payload) s).0

  limited : ℕ → ℕ
  limited limit =
      let given = if eqb limit 0 then default_chat_events_limit else limit in
      if ltb max_chat_events_limit given then max_chat_events_limit else given

  listed_events : String → ℕ → Action Store (List ChatEvent)
  listed_events chat limit =
      if events.configured then ask (events.list_chat_events chat limit) internal else pure []

  -- `ListChatEvents`; a negative limit counts as 0 here, which the source treats alike.
  unfoldable pub list_chat_events :
      Std → Chats Store → String → String → ℕ → Action Store (List ChatEvent)
  unfolding ensure_chat_readable limited listed_events trim_space
  list_chat_events std chats user_id chat_id limit = do
    let user = trim_space user_id
    let chat = trim_space chat_id
    require (not (user == "" || chat == "")) (invalid_arg "error.chat.invalid_input")
    ensure_chat_readable std chats chat user
    listed_events chat (limited limit)
