-- ===== src/Calls/Hub/Leave.antt =====
-- internal/calls/hub.go: `Hub.Leave`, `Hub.Decline` and `Hub.CloseAll`, the ways out of a call.
pub mod Sound
pub mod Peers
pub mod Parting
use combox_backend.Prelude.{
  ℕ, suc, ◌+◌, String, Bool, true, false, not, ◌&&◌, ◌||◌, ◌==◌, eqb, if◌then◌else◌, Option, none,
  some, List, [], ◌∷◌, ◌++◌, length,
}
use combox_backend.Prelude.Text.{trim_space}
use combox_backend.Prelude.Dict.{Dict, lookup, has, insert, erase, values}
use combox_backend.Calls.Errors.{
  GoError, Result, ok, err, new_error, err_call_not_found, err_call_ended, err_not_member,
  err_not_participant, err_forbidden, err_invalid_message, err_topology,
}
use combox_backend.Calls.Types.{
  kind_group, kind_broadcast, kind_valid, topology_mesh, topology_sfu, role_publisher,
  reason_declined, MediaState, Participant, clone, unbind, only_user, CallRecord, ParticipantRecord,
}
use combox_backend.Calls.Protocol.{
  Envelope, new_frame, msg_peer_joined, msg_peer_left, msg_escalate, msg_call_ended, msg_media,
  msg_tracks,
}
use combox_backend.Calls.Room.{
  Room, Joined, Left, ForwardedTrack, new_room, to_record, others, register, leave_section,
  end_section, discard_section, media_section, tracks_section,
}
use combox_backend.Calls.Routes.{
  remove_route, remove_routes_for, remove_all_routes, drop_peer_caches,
}
use combox_backend.Calls.Hub.{
  Effect, send, create_call, add_participant, close_participant, call_started, call_ended, Peer,
  Backend, Hub, JoinRequest, JoinResult, update, put_room, emit, send_all, broadcast, close_peer,
  persist_participant, persist_close, unregister, forget, end, discard_room, member_check,
}

module _ (b : Backend) where
  left_frame : Room → String → String → Envelope
  left_frame r user_id reason = record (new_frame msg_peer_left) {
    call_id = r.id;
    reason = reason;
    participants = only_user user_id ∷ [];
  }

  close_left : Hub → Option ℕ → Hub
  unfolding close_peer
  close_left h none = h
  close_left h (some q) = close_peer h q

  -- The legs of the participant who left go, and the store is told.
  clear_left : Hub → ℕ → String → String → Left → Hub
  unfolding close_left remove_routes_for persist_close
  clear_left h p user_id reason l =
      let closed = close_left h l.peer in
      let cleared = put_room closed p (remove_routes_for (closed.room p) user_id) in
      persist_close cleared p user_id reason

  drop_caches : Hub → ℕ → Hub
  unfolding drop_peer_caches
  drop_caches h p = put_room h p (drop_peer_caches (h.room p))

  leave_rest : Hub → ℕ → String → String → Option Left → Hub
  unfolding clear_left broadcast left_frame drop_caches forget end
  leave_rest h p user_id reason none = h
  leave_rest h p user_id reason (some l) =
      let cleared = clear_left h p user_id reason l in
      let told = broadcast cleared p (left_frame (h.room p) user_id reason) "" in
      let ended = end b (drop_caches told p) p reason in
      let gone = forget b (drop_caches cleared p) p reason in
      if l.empty then gone else if l.lonely then ended else told

  -- `Hub.Leave`: room, user, connection that leaves (`none`: whichever), reason.
  unfoldable pub leave : Hub → ℕ → String → Option ℕ → String → Hub
  unfolding leave_rest leave_section
  leave h p user_id sender reason =
      let (r, l) = leave_section (h.room p) user_id sender in
      leave_rest (put_room h p r) p user_id reason l

  -- The callee is not in the call, and one participant waits.
  ringing : Room → String → Bool
  ringing r user_id = not (has user_id r.participants) && eqb (length r.participants) 1

  decline_member : Hub → ℕ → String → Result (Unit {0}) → Hub × Option GoError
  unfolding ringing end
  decline_member h p user_id (err e) = (h, some e)
  decline_member h p user_id (ok u) =
      if (h.room p).kind == kind_broadcast
      then (h, none)
      else if ringing (h.room p) user_id
      then (end b h p reason_declined, none)
      else (h, none)

  decline_room : Hub → String → Option ℕ → Hub × Option GoError
  unfolding decline_member member_check
  decline_room h user_id none = (h, some err_call_not_found)
  decline_room h user_id (some p) =
      if (h.room p).closed
      then (h, some err_call_not_found)
      else decline_member h p user_id (member_check b.is_member user_id (h.room p).chat_id)

  -- `Hub.Decline`
  unfoldable pub decline : Hub → String → String → Hub × Option GoError
  unfolding decline_room
  decline h user_id call_id =
      let id = trim_space call_id in
      if user_id == "" || id == ""
      then (h, some err_invalid_message)
      else decline_room h user_id (lookup id h.rooms)

  end_each : Hub → List ℕ → String → Hub
  unfolding end
  end_each h [] reason = h
  end_each h (p ∷ ps) reason = end_each (end b h p reason) ps reason

  -- `Hub.CloseAll`
  unfoldable pub close_all : Hub → String → Hub
  unfolding end_each
  close_all h reason = end_each h (values h.rooms) reason
