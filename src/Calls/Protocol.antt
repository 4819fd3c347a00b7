-- ===== src/Calls/Protocol.antt =====
-- internal/calls/protocol.go: the signaling frames, their parsing and their validation.
pub mod Valid
use combox_backend.Prelude.{
  ℕ, String, Bool, true, false, not, ◌&&◌, ◌||◌, ◌==◌, if◌then◌else◌, Option, none, some, List, [],
  ◌∷◌,
}
use combox_backend.Prelude.Text.{trim_space}
use combox_backend.Prelude.Dict.{Dict}
use combox_backend.Calls.Errors.{
  GoError, Result, ok, err, new_error, error_code, error_text, err_invalid_message,
}
use combox_backend.Calls.Types.{MediaState, Participant, IceServer, kind_valid, role_valid}

abbrev pub msg_join : String
msg_join = "call.join"

abbrev pub msg_leave : String
msg_leave = "call.leave"

abbrev pub msg_decline : String
msg_decline = "call.decline"

abbrev pub msg_offer : String
msg_offer = "call.offer"

abbrev pub msg_answer : String
msg_answer = "call.answer"

abbrev pub msg_candidate : String
msg_candidate = "call.candidate"

abbrev pub msg_relay : String
msg_relay = "call.relay"

abbrev pub msg_media : String
msg_media = "call.media"

abbrev pub msg_tracks : String
msg_tracks = "call.tracks"

abbrev pub msg_ping : String
msg_ping = "call.ping"

abbrev pub msg_pong : String
msg_pong = "call.pong"

abbrev pub msg_joined : String
msg_joined = "call.joined"

abbrev pub msg_peer_joined : String
msg_peer_joined = "call.peer_joined"

abbrev pub msg_peer_left : String
msg_peer_left = "call.peer_left"

abbrev pub msg_escalate : String
msg_escalate = "call.escalate"

abbrev pub msg_call_ended : String
msg_call_ended = "call.ended"

abbrev pub msg_error : String
msg_error = "call.error"

pub record Envelope : Type 0 where
  pub type : String
  pub id : String
  pub call_id : String
  pub chat_id : String
  pub kind : String
  pub role : String
  pub topology : String
  pub device_id : String
  pub e2ee : Bool
  pub reason : String
  pub mesh_limit : ℕ
  pub sdp : String
  pub candidate : String
  pub sdp_mid : String
  pub sdp_m_line_index : Option ℕ
  pub from_user_id : String
  pub target_user_id : String
  pub relay_kind : String
  pub media : Option MediaState
  pub tracks : Dict String
  pub participants : List Participant
  pub ice_servers : List IceServer
  pub code : String
  pub message : String

abbrev pub new_frame : String → Envelope
new_frame msg_type = record {
  type = msg_type;
  id = "";
  call_id = "";
  chat_id = "";
  kind = "";
  role = "";
  topology = "";
  device_id = "";
  e2ee = false;
  reason = "";
  mesh_limit = 0;
  sdp = "";
  candidate = "";
  sdp_mid = "";
  sdp_m_line_index = none;
  from_user_id = "";
  target_user_id = "";
  relay_kind = "";
  media = none;
  tracks = [];
  participants = [];
  ice_servers = [];
  code = "";
  message = "";
}

unfoldable pub error_frame : String → GoError → Envelope
unfolding error_code error_text
error_frame req_id e = record (new_frame msg_error) {
  id = req_id;
  code = error_code e;
  message = error_text e;
}

unfoldable pub is_blank : String → Bool
unfolding trim_space
is_blank s = trim_space s == ""

is_nil {ℓ} : {A : Type ℓ} → Option A → Bool
is_nil none = true
is_nil (some a) = false

no_tracks : Dict String → Bool
no_tracks [] = true
no_tracks (t ∷ ts) = false

-- A failed check returns `newError(ErrInvalidMessage.Code, text)` at once.
abbrev invalid : String → Option GoError
invalid text = some (new_error "invalid_message" text)

abbrev check : Bool → String → Option GoError → Option GoError
check failed text rest = if failed then invalid text else rest

pub validate_relay : Envelope → Option GoError
validate_relay e =
    if e.relay_kind == "offer" || e.relay_kind == "answer"
    then check (is_blank e.sdp) "sdp is required" none
    else if e.relay_kind == "candidate"
    then check (is_blank e.candidate) "candidate is required" none
    else invalid "relay_kind is invalid"

-- The cases of the switch in `Envelope.validate`.
validate_type : String → Envelope → Option GoError
unfolding validate_relay is_nil no_tracks
validate_type type e =
    if type == msg_join
    then check (is_blank e.chat_id) "chat_id is required" (
        check (not (e.kind == "") && not (kind_valid e.kind)) "kind is invalid"
          (check (not (e.role == "") && not (role_valid e.role)) "role is invalid" none))
    else if type == msg_offer || type == msg_answer
    then check (is_blank e.call_id) "call_id is required"
        (check (is_blank e.sdp) "sdp is required" none)
    else if type == msg_candidate
    then check (is_blank e.call_id) "call_id is required" (
        check (is_blank e.candidate) "candidate is required" (
          check (is_blank e.sdp_mid && is_nil e.sdp_m_line_index)
            "sdp_mid or sdp_mline_index is required" none))
    else if type == msg_leave || type == msg_decline
    then check (is_blank e.call_id) "call_id is required" none
    else if type == msg_ping
    then none
    else if type == msg_relay
    then check (is_blank e.call_id) "call_id is required"
        (check (is_blank e.target_user_id) "target_user_id is required" (validate_relay e))
    else if type == msg_media
    then check (is_blank e.call_id || is_nil e.media) "call_id and media are required" none
    else if type == msg_tracks
    then check (is_blank e.call_id || no_tracks e.tracks) "call_id and tracks are required" none
    else invalid "unknown message type"

-- `Envelope.validate`: no error is `none`.
unfoldable pub validate : Envelope → Option GoError
unfolding validate_type
validate e = validate_type e.type e

validated : Envelope → Option GoError → Result Envelope
validated env none = ok env
validated env (some e) = err e

-- The frame that the decoder filled in.
parse_raw : Envelope → Result Envelope
unfolding validated
parse_raw raw =
    let env = record raw { type = trim_space raw.type } in
    if env.type == "" then err err_invalid_message else validated env (validate env)

parse_decoded : Option Envelope → Result Envelope
unfolding parse_raw
parse_decoded none = err (new_error "invalid_message" "invalid json")
parse_decoded (some raw) = parse_raw raw

-- `ParseEnvelope`, over the JSON decoder of the standard library.
unfoldable pub parse_envelope : (String → Option Envelope) → String → Result Envelope
unfolding parse_decoded
parse_envelope unmarshal bytes = parse_decoded (unmarshal bytes)
