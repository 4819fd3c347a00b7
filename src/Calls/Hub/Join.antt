-- ===== src/Calls/Hub/Join.antt =====
-- internal/calls/hub.go: `Hub.Join` with its steps, and `Hub.ActiveCall`.
pub mod Opened
pub mod Refused
pub mod Sound
use combox_backend.Prelude.{
  ℕ, suc, ◌+◌, String, Bool, true, false, not, ◌&&◌, ◌||◌, ◌==◌, eqb, if◌then◌else◌, Option, none,
  some, List, [], ◌∷◌, ◌++◌, length,
}
use combox_backend.Prelude.Text.{trim_space}
use combox_backend.Prelude.Dict.{Dict, lookup, has, insert, erase, values}
use combox_backend.Calls.Errors.{
  GoError, Result, ok, err, new_error, err_call_not_found, err_call_ended, err_not_member,
  err_not_participant, err_forbidden, err_invalid_message, err_topology,
}
use combox_backend.Calls.Types.{
  kind_group, kind_broadcast, kind_valid, topology_mesh, topology_sfu, role_publisher,
  reason_declined, MediaState, Participant, clone, unbind, only_user, CallRecord, ParticipantRecord,
}
use combox_backend.Calls.Protocol.{
  Envelope, new_frame, msg_peer_joined, msg_peer_left, msg_escalate, msg_call_ended, msg_media,
  msg_tracks,
}
use combox_backend.Calls.Room.{
  Room, Joined, Left, ForwardedTrack, new_room, to_record, others, register, leave_section,
  end_section, discard_section, media_section, tracks_section,
}
use combox_backend.Calls.Routes.{
  remove_route, remove_routes_for, remove_all_routes, drop_peer_caches,
}
use combox_backend.Calls.Hub.{
  Effect, send, create_call, add_participant, close_participant, call_started, call_ended, Peer,
  Backend, Hub, JoinRequest, JoinResult, update, put_room, emit, send_all, broadcast, close_peer,
  persist_participant, persist_close, unregister, forget, end, discard_room, member_check,
  publish_check,
}

-- The room of a call id that the client names.
named_room : Hub → JoinRequest → Option ℕ → Result ℕ
named_room h req none = err err_call_not_found
named_room h req (some p) =
    if (h.room p).closed
    then err err_call_not_found
    else if not (req.chat_id == "") && not ((h.room p).chat_id == req.chat_id)
    then err err_call_not_found
    else ok p

-- The live room of a chat.
chat_room : Hub → String → Option ℕ
chat_room h chat_id = elim (lookup chat_id h.by_chat) [
  | none ↦ none
  | some id ↦ elim (lookup id h.rooms) [
    | none ↦ none
    | some p ↦ if (h.room p).closed then none else some p
  ]
]

-- `Hub.ActiveCall`
unfoldable pub active_call : Hub → String → Option ℕ
unfolding chat_room
active_call h chat_id = chat_room h chat_id

pub open_room : Hub → JoinRequest → String → String → Hub
unfolding new_room
open_room h req kind fresh =
    let r =
      new_room fresh kind req.chat_id req.user_id req.e2ee h.mesh_limit h.max_participants h.now in
    record (put_room h h.next_room r) {
      next_room = suc h.next_room;
      rooms = insert r.id h.next_room h.rooms;
      by_chat = insert r.chat_id r.id h.by_chat;
    }

pub record Resolved : Type 0 where
  pub hub : Hub
  pub room : ℕ
  pub created : Bool

found_or_new : Hub → JoinRequest → String → String → Option ℕ → Resolved
unfolding open_room
found_or_new h req kind fresh (some p) = record { hub = h; room = p; created = false }
found_or_new h req kind fresh none = record {
  hub = open_room h req kind fresh;
  room = h.next_room;
  created = true;
}

-- A request without a kind asks for a group call.
abbrev requested_kind : JoinRequest → String
requested_kind req = if req.kind == "" then kind_group else req.kind

at_room : Hub → Result ℕ → Result Resolved
at_room h (err e) = err e
at_room h (ok p) = ok (record { hub = h; room = p; created = false })

module _ (b : Backend) where
  resolve_id : Hub → JoinRequest → String → String → Result Resolved
  unfolding named_room chat_room found_or_new at_room
  resolve_id h req kind fresh =
      if not (req.call_id == "")
      then at_room h (named_room h req (lookup req.call_id h.rooms))
      else ok (found_or_new h req kind fresh (chat_room h req.chat_id))

  resolve_member : Hub → JoinRequest → String → String → Result (Unit {0}) → Result Resolved
  unfolding resolve_id
  resolve_member h req kind fresh (err e) = err e
  resolve_member h req kind fresh (ok u) = resolve_id h req kind fresh

  -- `Hub.resolveRoom`; `fresh` is the id that a new room would get.
  unfoldable pub resolve_room : Hub → JoinRequest → String → String → Result Resolved
  unfolding resolve_member member_check
  resolve_room h req kind fresh =
      resolve_member h req kind fresh (member_check b.is_member req.user_id req.chat_id)

  -- The publishing check applies to a publisher of a stream only.
  stream_check : Hub → ℕ → JoinRequest → Result (Unit {0})
  unfolding publish_check
  stream_check h p req =
      if (req.role == role_publisher) && ((h.room p).kind == kind_broadcast)
      then publish_check b.can_publish_stream req.user_id req.chat_id
      else ok tt

  announce_new : Hub → ℕ → Bool → Hub
  announce_new h p created =
      let started = create_call (to_record (h.room p)) ∷ [] in
      if created
      then emit h
          (if b.has_notifier then started ++ call_started (to_record (h.room p)) ∷ [] else started)
      else h

  announce_topology : Hub → ℕ → Joined → Hub
  unfolding broadcast
  announce_topology h p j =
      let frame = record (new_frame msg_escalate) {
        call_id = (h.room p).id;
        topology = topology_sfu;
        reason = "mesh_limit";
      } in
      if j.escalated then broadcast h p frame j.participant.user_id else h

  announce_peer : Hub → ℕ → Joined → Hub
  unfolding broadcast
  announce_peer h p j =
      let frame = record (new_frame msg_peer_joined) {
        call_id = (h.room p).id;
        participants = clone j.participant ∷ [];
      } in
      broadcast h p frame j.participant.user_id

  joined : Hub → ℕ → Bool → Joined → Hub
  unfolding persist_participant announce_new announce_topology announce_peer
  joined h p created j =
      if j.rejoined
      then persist_participant h p j.participant
      else (let stored = persist_participant (announce_new h p created) p j.participant in
          announce_peer (announce_topology stored p j) p j)

  join_result : ℕ → Bool → Joined → JoinResult
  join_result p created j = record {
    room = p;
    participant = j.participant;
    escalated = j.escalated;
    created = created && not j.rejoined;
    track_sources = j.track_sources;
  }

  registered : Hub → ℕ → Bool → Room × Result Joined → Hub × Result JoinResult
  unfolding joined join_result
  registered h p created (r, err e) = (h, err e)
  registered h p created (r, ok j) =
      (joined (put_room h p r) p created j, ok (join_result p created j))

  -- A refused publisher throws away the room that this join created.
  join_checked : JoinRequest → Resolved → Result (Unit {0}) → Hub × Result JoinResult
  unfolding discard_room register registered
  join_checked req s (err e) = (if s.created then discard_room s.hub s.room else s.hub, err e)
  join_checked req s (ok u) =
      registered s.hub s.room s.created
        (register (s.hub.room s.room) req.user_id req.device_id req.role req.sender s.hub.now)

  join_resolved : Hub → JoinRequest → Result Resolved → Hub × Result JoinResult
  unfolding join_checked stream_check
  join_resolved h req (err e) = (h, err e)
  join_resolved h req (ok s) = join_checked req s (stream_check s.hub s.room req)

  -- `Hub.Join`
  unfoldable pub join : Hub → JoinRequest → String → Hub × Result JoinResult
  unfolding resolve_room join_resolved kind_valid
  join h req fresh =
      if req.user_id == "" || req.chat_id == ""
      then (h, err err_invalid_message)
      else if not (kind_valid (requested_kind req))
      then (h, err err_invalid_message)
      else join_resolved h req (resolve_room h req (requested_kind req) fresh)
