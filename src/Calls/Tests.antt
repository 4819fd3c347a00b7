-- ===== src/Calls/Tests.antt =====
-- The theorems about the calls at concrete rooms, sessions and frames.
use combox_backend.Prelude.{
  String, true, false, not, none, some, [], ◌∷◌, ◌++◌, any, keep, ◌≡◌, refl, arith,
}
use combox_backend.Prelude.Dict.{lookup, has, erase, count, values}
use combox_backend.Calls.Errors.{err_invalid_message}
use combox_backend.Calls.Types.{Participant}
use combox_backend.Calls.Protocol.{
  Envelope, new_frame, parse_envelope, validate, is_blank, msg_media,
}
use combox_backend.Calls.Protocol.Valid.{IsUsable, parse_envelope-IsUsable}
use combox_backend.Calls.Room.{
  Room, to_record, OutRoute, Joined, new_room, newcomer, register, leave_section,
}
use combox_backend.Calls.Room.Invariant.{IsSound, new_room-IsSound}
use combox_backend.Calls.Room.Joining.{IsSeated, register-IsSeated}
use combox_backend.Calls.Room.Leaving.{HasLeft, leave_section-HasLeft, register-leave_stale}
use combox_backend.Calls.Routes.{
  routes_at, touches, is_leg, add_route, remove_route, remove_routes_for,
}
use combox_backend.Calls.Routes.Laws.{remove_routes_for_lem, remove_route_lem, add_route_lem}
use combox_backend.Calls.Hub.Join.{open_room, join}
use combox_backend.Calls.Hub.Join.Refused.{Refused, join-Refused}
use combox_backend.Calls.Hub.Leave.Parting.{HasParted, leave-HasParted}
use combox_backend.Calls.Hub.{
  JoinRequest, Backend, Hub, new_hub, put_room, send_all, ended_frame, end,
}
use combox_backend.Calls.Hub.Sound.{IsSoundHub}
use combox_backend.Calls.Hub.Runs.{opens, registers, start, then_section, reached-IsSoundHub}
use combox_backend.Calls.Hub.Ending.{closed_rows, final_calls, end-closed, end-room, end-log}
use combox_backend.Calls.Hub.Leave.{leave}
use combox_backend.Calls.Hub.Leave.Peers.{leave-closed}
use combox_backend.Calls.Session.{new_session, begin_gate, end_gate, write_frame, send_each}
use combox_backend.Calls.History.{CallHistoryEntry, project_chat_call}
use combox_backend.Calls.History.Projection.{IsProjected, project_chat_call-IsProjected}
use combox_backend.Calls.Session.Gate.{take_first, begin_gate-holds, join_order}

-- A group call with a mesh limit of 1 and room for two.
abbrev empty_room : Room
empty_room = record {
  id = "r1";
  chat_id = "c1";
  kind = "group";
  topology = "mesh";
  e2ee = false;
  started_by = "ann";
  started_at = 5;
  max_participants = 2;
  mesh_limit = 1;
  participants = [];
  peers = [];
  routes = [];
  track_sources = [];
  closed = false;
}

abbrev ann : Participant
ann = newcomer "ann" "d1" "publisher" 5 (some 1)

abbrev bob : Participant
bob = newcomer "bob" "d2" "publisher" 6 (some 2)

abbrev ann_room : Room
ann_room = record empty_room { participants = ("ann", ann) ∷ [] }

abbrev full_room : Room
full_room = record empty_room {
  participants = ("ann", ann) ∷ ("bob", bob) ∷ [];
  topology = "sfu";
  peers = ("ann", 1) ∷ ("bob", 2) ∷ [];
}

empty_room-IsSound : IsSound empty_room
unfolding new_room
empty_room-IsSound = new_room-IsSound "r1" "group" "c1" "ann" false 1 2 5

ann_room-IsSound : IsSound ann_room
unfolding has count
ann_room-IsSound = record {
  distinct = (refl, tt);
  capacity = omega arith;
  publisher = λ k. omega arith;
  mesh = λ m. omega arith;
  stream = λ k. cc;
  empty = λ c. cc;
}

full_room-IsSound : IsSound full_room
unfolding has count
full_room-IsSound = record {
  distinct = (refl, (refl, tt));
  capacity = omega arith;
  publisher = λ k. cc;
  mesh = λ m. cc;
  stream = λ k. cc;
  empty = λ c. cc;
}

abbrev bob_joined : Joined
bob_joined = record { participant = bob; rejoined = false; escalated = true; track_sources = [] }

register-IsSeated_example :
    IsSeated ann_room (register ann_room "bob" "d2" "" (some 2) 6).0 "bob" (some 2) bob_joined
unfolding register lookup
register-IsSeated_example =
    register-IsSeated ann_room "bob" "d2" "" (some 2) 6 bob_joined ann_room-IsSound refl

leave_section-HasLeft_example :
    HasLeft full_room
      (leave_section full_room "bob" (some 2)).0
      "bob"
      (record { participant = bob; peer = some 2; empty = false; lonely = true })
unfolding leave_section lookup erase
leave_section-HasLeft_example =
    leave_section-HasLeft full_room "bob" (some 2)
      (record { participant = bob; peer = some 2; empty = false; lonely = true }) full_room-IsSound
      refl

abbrev bob_again : Joined
bob_again = record {
  participant = record bob { sender = some 9 };
  rejoined = true;
  escalated = false;
  track_sources = [];
}

register-leave_stale_example :
    let r' = (register full_room "bob" "" "" (some 9) 8).0 in
    leave_section r' "bob" (some 2) ≡ (r', none)
unfolding register lookup
register-leave_stale_example =
    register-leave_stale full_room "bob" "" "" 9 2 8 bob_again full_room-IsSound refl refl

-- A leg from ann to bob.
abbrev ann_to_bob : OutRoute
ann_to_bob = record {
  owner_id = "ann";
  track = record { leg = 4; key = "ann|cam"; peer = 2; peer_user = "bob" };
}

abbrev routed_room : Room
routed_room = record full_room { routes = ("ann|cam", ann_to_bob ∷ []) ∷ [] }

remove_routes_for_lem_example :
    routes_at (remove_routes_for routed_room "bob").routes "ann|cam"
    ≡ keep (λ x. not (touches "bob" x)) (ann_to_bob ∷ [])
unfolding lookup has
remove_routes_for_lem_example = remove_routes_for_lem routed_room "bob" "ann|cam" (refl, tt)

remove_route_lem_example :
    routes_at (remove_route routed_room "ann|cam" ann_to_bob.track).routes "ann|cam"
    ≡ keep (λ x. not (is_leg ann_to_bob.track x)) (ann_to_bob ∷ [])
unfolding lookup
remove_route_lem_example = remove_route_lem routed_room "ann|cam" "ann|cam" ann_to_bob.track

add_route_lem_example :
    routes_at (add_route full_room ann_to_bob).routes "ann|cam" ≡ ann_to_bob ∷ []
unfolding lookup any
add_route_lem_example = add_route_lem full_room ann_to_bob "ann|cam"

abbrev start_hub : Hub
start_hub = new_hub 2 200 7

-- A stream that is asked for with a role that does not exist.
abbrev speaker_request : JoinRequest
speaker_request = record {
  user_id = "ann";
  device_id = "d1";
  call_id = "";
  chat_id = "c9";
  kind = "broadcast";
  role = "speaker";
  e2ee = false;
  sender = some 1;
}

-- A stream is opened, and its publisher joins.
abbrev opened_hub : Hub
opened_hub = open_room start_hub speaker_request "broadcast" "r9"

reached-IsSoundHub_example : IsSoundHub (
    put_room opened_hub 0
      (register (opened_hub.room 0) "ann" "d1" "publisher" (some 1) opened_hub.now).0)
reached-IsSoundHub_example = reached-IsSoundHub 2 200 7 _ (
    then_section (then_section start (opens speaker_request "broadcast" "r9"))
      (registers 0 "ann" "d1" "publisher" (some 1)))

-- A hub whose room 0 is the full room, with its peers open.
abbrev full_hub : Hub
full_hub = record (put_room start_hub 0 full_room) {
  peer = λ q. record { user_id = ""; room = 0; closed = false; forwarded = [] };
}

abbrev backend : Backend
backend = record {
  is_member = none;
  can_publish_stream = none;
  new_peer = some (λ room user. none);
  send_result = λ conn env. none;
  has_notifier = true;
}

end-log_example :
    (end backend full_hub 0 "declined").log
    ≡ ((full_hub.log ++ closed_rows "r1" full_hub.now "declined" (ann ∷ bob ∷ []))
        ++ final_calls true (to_record full_room) full_hub.now "declined")
      ++ send_all (ann ∷ bob ∷ []) (ended_frame backend full_room "declined")
unfolding values
end-log_example = end-log backend full_hub 0 "declined" refl

end-closed_example : ((end backend full_hub 0 "shutdown").peer 1).closed ≡ true
unfolding values any
end-closed_example = end-closed backend full_hub 0 "shutdown" 1 refl

leave-closed_example :
    ((leave backend full_hub 0 "bob" (some 2) "left").peer 1).closed ≡ (full_hub.peer 1).closed
unfolding lookup
leave-closed_example = leave-closed backend full_hub 0 "bob" (some 2) "left" 1 (λ h. cc)

leave-HasParted_example :
    HasParted (full_hub.room 0) "bob" ((leave backend full_hub 0 "bob" (some 2) "left").room 0)
unfolding leave_section lookup erase
leave-HasParted_example =
    leave-HasParted backend full_hub 0 "bob" (some 2) "left"
      (record { participant = bob; peer = some 2; empty = false; lonely = true }) full_room-IsSound
      refl

join-Refused_example :
    Refused start_hub speaker_request "r9" err_invalid_message
      (join backend start_hub speaker_request "r9").0
unfolding join new_room register lookup new_hub
join-Refused_example =
    join-Refused backend start_hub speaker_request "r9" err_invalid_message (omega arith) refl

end-room_example : ((end backend full_hub 0 "shutdown").room 0).closed ≡ true
end-room_example = (end-room backend full_hub 0 "shutdown" refl).0

abbrev media_bytes : String
media_bytes = "{media}"

abbrev media_envelope : Envelope
media_envelope = record (new_frame msg_media) {
  call_id = "r1";
  media = some (record { mic = true; camera = false; screen = false; speaking = false });
}

parse_envelope-IsUsable_example : IsUsable media_envelope
unfolding parse_envelope validate is_blank
parse_envelope-IsUsable_example =
    parse_envelope-IsUsable (λ bytes. some media_envelope) media_bytes media_envelope refl

-- `call.joined` goes out before the frame that arrived first.
join_order_example :
    let gated = send_each (λ e. none) (begin_gate new_session) (new_frame "call.tracks" ∷ []) in
    let told = (write_frame (λ e. none) gated (new_frame "call.joined")).0 in
    (end_gate (λ e. none) (send_each (λ e. none) told (new_frame "call.media" ∷ []))).0.wire
    ≡ new_frame "call.joined" ∷ new_frame "call.tracks" ∷ new_frame "call.media" ∷ []
unfolding new_session take_first
join_order_example =
    join_order (λ e. none) new_session (new_frame "call.tracks" ∷ []) (new_frame "call.media" ∷ [])
      (new_frame "call.joined") refl (λ e. refl)

begin_gate-holds_example :
    send_each (λ e. none) (begin_gate new_session) (new_frame "call.tracks" ∷ [])
    ≡ record new_session { gated = true; queued = new_frame "call.tracks" ∷ [] }
unfolding take_first
begin_gate-holds_example = begin_gate-holds (λ e. none) new_session (new_frame "call.tracks" ∷ [])

-- A call in which one person joined twice and nobody else did.
abbrev lonely_call : CallHistoryEntry
lonely_call = record {
  call = record {
    id = "k1";
    chat_id = "c1";
    kind = "group";
    topology = "mesh";
    e2ee = false;
    started_by = "ann";
    started_at = 0;
    ended_at = some 3000000000;
    end_reason = none;
    max_participants = 2;
  };
  participants = "ann" ∷ " ann" ∷ "" ∷ [];
}

project_chat_call-IsProjected_example :
    IsProjected lonely_call (project_chat_call lonely_call "ann")
project_chat_call-IsProjected_example = project_chat_call-IsProjected lonely_call "ann"
