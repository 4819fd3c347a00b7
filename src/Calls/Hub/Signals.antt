-- ===== src/Calls/Hub/Signals.antt =====
-- internal/calls/hub.go: `Hub.Relay`, `Hub.UpdateMedia` and `Hub.SetTrackSources`, and the peers.
pub mod Sound
use combox_backend.Prelude.{
  ℕ, suc, ◌+◌, String, Bool, true, false, not, ◌&&◌, ◌||◌, ◌==◌, eqb, if◌then◌else◌, Option, none,
  some, List, [], ◌∷◌, ◌++◌, length,
}
use combox_backend.Prelude.Text.{trim_space}
use combox_backend.Prelude.Dict.{Dict, lookup, has, insert, erase, values}
use combox_backend.Calls.Errors.{
  GoError, Result, ok, err, new_error, err_call_not_found, err_call_ended, err_not_member,
  err_not_participant, err_forbidden, err_invalid_message, err_topology,
}
use combox_backend.Calls.Types.{
  kind_group, kind_broadcast, kind_valid, topology_mesh, topology_sfu, role_publisher,
  reason_declined, MediaState, Participant, clone, unbind, only_user, CallRecord, ParticipantRecord,
}
use combox_backend.Calls.Protocol.{
  Envelope, new_frame, msg_peer_joined, msg_peer_left, msg_escalate, msg_call_ended, msg_media,
  msg_tracks,
}
use combox_backend.Calls.Room.{
  Room, Joined, Left, ForwardedTrack, new_room, to_record, others, register, leave_section,
  end_section, discard_section, media_section, tracks_section,
}
use combox_backend.Calls.Routes.{
  remove_route, remove_routes_for, remove_all_routes, drop_peer_caches,
}
use combox_backend.Calls.Hub.{
  Effect, send, create_call, add_participant, close_participant, call_started, call_ended, Peer,
  Backend, Hub, JoinRequest, JoinResult, update, put_room, emit, send_all, broadcast, close_peer,
  persist_participant, persist_close, unregister, forget, end, discard_room, send_one,
}

module _ (b : Backend) where
  -- The error that a connection returns; a participant without one drops the frame.
  send_to : Hub → Option ℕ → Envelope → Hub × Option GoError
  send_to h none env = (h, none)
  send_to h (some conn) env = (emit h (send conn env ∷ []), b.send_result conn env)

  relay_to : Hub → Envelope → Option Participant → Option Participant → Hub × Option GoError
  unfolding send_to
  relay_to h env none target = (h, some err_not_participant)
  relay_to h env (some p) none =
      (h, some (new_error "peer_not_found" "target participant is not in the call"))
  relay_to h env (some p) (some target) = send_to h target.sender env

  -- `Hub.Relay`
  unfoldable pub relay : Hub → ℕ → String → Envelope → Hub × Option GoError
  unfolding relay_to
  relay h p from_user_id env =
      let r = h.room p in
      if not (r.topology == topology_mesh)
      then (h, some err_topology)
      else relay_to h (record env { from_user_id = from_user_id })
          (lookup from_user_id r.participants) (lookup env.target_user_id r.participants)

media_frame : Room → String → MediaState → Envelope
media_frame r user_id media = record (new_frame msg_media) {
  call_id = r.id;
  media = some media;
  participants = only_user user_id ∷ [];
}

told_media : Hub → ℕ → String → MediaState → Room × Result (List Participant) → Hub × Option GoError
unfolding media_frame send_all
told_media h p user_id media (r, err e) = (h, some e)
told_media h p user_id media (r, ok targets) =
    (emit (put_room h p r) (send_all targets (media_frame r user_id media)), none)

-- `Hub.UpdateMedia`
unfoldable pub update_media : Hub → ℕ → String → MediaState → Hub × Option GoError
unfolding told_media media_section
update_media h p user_id media =
    told_media h p user_id media (media_section (h.room p) user_id media)

tracks_frame : Room → String → Dict String → Envelope
tracks_frame r user_id cp = record (new_frame msg_tracks) {
  call_id = r.id;
  from_user_id = user_id;
  tracks = cp;
}

told_tracks :
    Hub → ℕ → String → Room × Result (Dict String × List Participant) → Hub × Option GoError
unfolding tracks_frame send_all
told_tracks h p user_id (r, err e) = (h, some e)
told_tracks h p user_id (r, ok (cp, targets)) =
    (emit (put_room h p r) (send_all targets (tracks_frame r user_id cp)), none)

-- `Hub.SetTrackSources`
unfoldable pub set_track_sources : Hub → ℕ → String → Dict String → Hub × Option GoError
unfolding told_tracks tracks_section
set_track_sources h p user_id sources =
    told_tracks h p user_id (tracks_section (h.room p) user_id sources)

-- A peer that the room holds and that is not closed.
live_peer : Hub → Option ℕ → Option ℕ
live_peer h none = none
live_peer h (some q) = if (h.peer q).closed then none else some q

-- The peer that is there, or what making one gives.
peer_or : Hub → Option ℕ → Hub × Result ℕ → Hub × Result ℕ
peer_or h (some q) made = (h, ok q)
peer_or h none made = made

pub attach_peer : Hub → ℕ → String → Hub
attach_peer h p user_id =
    record (put_room h p
      (record (h.room p) { peers = insert user_id h.next_peer (h.room p).peers })) {
        peer =
            update h.peer h.next_peer
              (record { user_id = user_id; room = p; closed = false; forwarded = [] });
        next_peer = suc h.next_peer;
      }

module _ (b : Backend) where
  made_peer : Hub → ℕ → String → Option GoError → Hub × Result ℕ
  unfolding attach_peer
  made_peer h p user_id (some e) = (h, err e)
  made_peer h p user_id none =
      if has user_id (h.room p).participants
      then (attach_peer h p user_id, ok h.next_peer)
      else (h, err err_not_participant)

  make_peer : Hub → ℕ → String → Option (String → String → Option GoError) → Hub × Result ℕ
  unfolding made_peer live_peer peer_or
  make_peer h p user_id none = (h, err (new_error "internal" "sfu is not initialised"))
  make_peer h p user_id (some new_peer) =
      if (h.room p).closed
      then (h, err err_call_ended)
      else peer_or h (live_peer h (lookup user_id (h.room p).peers))
          (made_peer h p user_id (new_peer (h.room p).id user_id))

  -- `Hub.ensurePeer`
  unfoldable pub ensure_peer : Hub → ℕ → String → Hub × Result ℕ
  unfolding make_peer
  ensure_peer h p user_id = make_peer h p user_id b.new_peer

  -- `Hub.PeerFor`
  unfoldable pub peer_for : Hub → ℕ → String → Hub × Result ℕ
  unfolding ensure_peer live_peer peer_or
  peer_for h p user_id =
      if (h.room p).closed
      then (h, err err_call_ended)
      else peer_or h (live_peer h (lookup user_id (h.room p).peers)) (
          if has user_id (h.room p).participants
          then ensure_peer h p user_id
          else (h, err err_not_participant))
