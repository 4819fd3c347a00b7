-- ===== src/Calls/Hub.antt =====
-- internal/calls/hub.go, the Hub: the registry of live calls and its operations. Each critical
-- section of the source is one function of Calls/Room, and an operation runs its sections and
-- effects in the source's order, with nothing between them. Rooms and peers are pointers (numbers)
-- into the hub's heap; what leaves the process is appended to `log`.
pub mod Leave
pub mod Join
pub mod Signals
pub mod Sound
pub mod Runs
pub mod Ending
use combox_backend.Prelude.{
  ℕ, suc, ◌+◌, String, Bool, true, false, not, ◌&&◌, ◌||◌, ◌==◌, eqb, if◌then◌else◌, Option, none,
  some, List, [], ◌∷◌, ◌++◌, length,
}
use combox_backend.Prelude.Text.{trim_space}
use combox_backend.Prelude.Dict.{Dict, lookup, has, insert, erase, values}
use combox_backend.Calls.Errors.{
  GoError, Result, ok, err, new_error, err_call_not_found, err_call_ended, err_not_member,
  err_not_participant, err_forbidden, err_invalid_message, err_topology,
}
use combox_backend.Calls.Types.{
  kind_group, kind_broadcast, kind_valid, topology_mesh, topology_sfu, role_publisher,
  reason_declined, MediaState, Participant, clone, unbind, only_user, CallRecord, ParticipantRecord,
}
use combox_backend.Calls.Protocol.{
  Envelope, new_frame, msg_peer_joined, msg_peer_left, msg_escalate, msg_call_ended, msg_media,
  msg_tracks,
}
use combox_backend.Calls.Room.{
  Room, Joined, Left, ForwardedTrack, new_room, to_record, others, register, leave_section,
  end_section, discard_section, media_section, tracks_section,
}
use combox_backend.Calls.Routes.{
  remove_route, remove_routes_for, remove_all_routes, drop_peer_caches,
}

-- A call that leaves the hub: a frame for a connection, or one of the store and the notifier.
pub data Effect : Type 0 where
  send : ℕ → Envelope → Effect
  create_call : CallRecord → Effect
  add_participant : ParticipantRecord → Effect
  close_participant : String → String → ℕ → String → Effect
  end_call : String → ℕ → String → Effect
  call_started : CallRecord → Effect
  call_ended : CallRecord → String → Effect

-- The part of `sfuPeer` that the hub reads and closes.
pub record Peer : Type 0 where
  pub user_id : String
  pub room : ℕ
  pub closed : Bool
  pub forwarded : Dict ForwardedTrack

-- The answers of the parts that the hub calls: the membership check, the optional publishing check,
-- and whether the media stack makes a peer. `none` is a nil interface.
pub record Backend : Type 0 where
  pub is_member : Option (String → String → Result Bool)
  pub can_publish_stream : Option (String → String → Result Bool)
  pub new_peer : Option (String → String → Option GoError)
  pub send_result : ℕ → Envelope → Option GoError
  pub has_notifier : Bool

pub record Hub : Type 0 where
  pub mesh_limit : ℕ
  pub max_participants : ℕ
  pub now : ℕ
  pub rooms : Dict ℕ
  pub by_chat : Dict String
  pub room : ℕ → Room
  pub next_room : ℕ
  pub peer : ℕ → Peer
  pub next_peer : ℕ
  pub log : List Effect

pub record JoinRequest : Type 0 where
  pub user_id : String
  pub device_id : String
  pub call_id : String
  pub chat_id : String
  pub kind : String
  pub role : String
  pub e2ee : Bool
  pub sender : Option ℕ

pub record JoinResult : Type 0 where
  pub room : ℕ
  pub participant : Participant
  pub escalated : Bool
  pub created : Bool
  pub track_sources : Dict (Dict String)

-- `newHub`. The cells of the heap that no room or peer has taken yet are never read.
unfoldable pub new_hub : ℕ → ℕ → ℕ → Hub
new_hub mesh_limit max_participants now = record {
  mesh_limit = mesh_limit;
  max_participants = max_participants;
  now = now;
  rooms = [];
  by_chat = [];
  room = λ p. new_room "" "" "" "" false 0 0 0;
  next_room = 0;
  peer = λ q. record { user_id = ""; room = 0; closed = true; forwarded = [] };
  next_peer = 0;
  log = [];
}

abbrev pub update {ℓ} : {A : Type ℓ} → (ℕ → A) → ℕ → A → ℕ → A
update f p a q = if eqb q p then a else f q

abbrev pub put_room : Hub → ℕ → Room → Hub
put_room h p r = record h { room = update h.room p r }

abbrev pub emit : Hub → List Effect → Hub
emit h es = record h { log = h.log ++ es }

-- `Participant.Send` drops the frame where no connection is bound.
abbrev send_one : Participant → Envelope → List Effect → List Effect
send_one p env rest = elim p.sender [ none ↦ rest | some conn ↦ send conn env ∷ rest ]

pub send_all : List Participant → Envelope → List Effect
send_all [] env = []
send_all (p ∷ ps) env = send_one p env (send_all ps env)

-- `Room.broadcast`
pub broadcast : Hub → ℕ → Envelope → String → Hub
unfolding send_all others
broadcast h p env exclude = emit h (send_all (others exclude (h.room p).participants) env)

-- `sfuPeer.close`: the legs of the peer leave the routing table.
remove_legs : Room → Dict ForwardedTrack → Room
unfolding remove_route
remove_legs r [] = r
remove_legs r ((key, ft) ∷ m) = remove_legs (remove_route r ft.key ft) m

unfoldable pub close_peer : Hub → ℕ → Hub
unfolding remove_legs
close_peer h q = if (h.peer q).closed then h else record h {
  peer = update h.peer q (record (h.peer q) { closed = true; forwarded = [] });
  room = update h.room (h.peer q).room (remove_legs (h.room (h.peer q).room) (h.peer q).forwarded);
}

pub close_peers : Hub → List ℕ → Hub
unfolding close_peer
close_peers h [] = h
close_peers h (q ∷ qs) = close_peers (close_peer h q) qs

participant_record : Room → Participant → ParticipantRecord
participant_record r p = record {
  call_id = r.id;
  user_id = p.user_id;
  device_id = p.device_id;
  role = p.role;
  joined_at = p.joined_at;
}

pub persist_participant : Hub → ℕ → Participant → Hub
unfolding participant_record
persist_participant h p part = emit h (add_participant (participant_record (h.room p) part) ∷ [])

pub persist_close : Hub → ℕ → String → String → Hub
persist_close h p user_id reason =
    emit h (close_participant (h.room p).id user_id h.now reason ∷ [])

-- Take the room off the registry: `rooms`, and `byChat` where the chat still points to it.
pub unregister : Hub → ℕ → Hub
unregister h p =
    let r = h.room p in
    let points_here : Bool = elim (lookup r.chat_id h.by_chat) [
      | none ↦ false
      | some id ↦ id == r.id
    ] in
    record h {
      by_chat = if points_here then erase r.chat_id h.by_chat else h.by_chat;
      rooms = erase r.id h.rooms;
    }

-- `Hub.discardRoom`
unfoldable pub discard_room : Hub → ℕ → Hub
unfolding discard_section unregister
discard_room h p =
    let (r, gone) = discard_section (h.room p) in if gone then unregister (put_room h p r) p else h

-- The answer of the membership check, where there is one.
pub member_check : Option (String → String → Result Bool) → String → String → Result (Unit {0})
member_check none user_id chat_id = ok tt
member_check (some is_member) user_id chat_id = elim (is_member user_id chat_id) [
  | err e ↦ err e
  | ok true ↦ ok tt
  | ok false ↦ err err_not_member
]

pub publish_check : Option (String → String → Result Bool) → String → String → Result (Unit {0})
publish_check none user_id chat_id = ok tt
publish_check (some can_publish) user_id chat_id = elim (can_publish user_id chat_id) [
  | err e ↦ err e
  | ok true ↦ ok tt
  | ok false ↦ err err_forbidden
]

module _ (b : Backend) where
  -- `Hub.forget`
  unfoldable pub forget : Hub → ℕ → String → Hub
  unfolding unregister
  forget h p reason =
      let h' = unregister h p in
      let ended = end_call (h.room p).id h.now reason ∷ [] in
      emit h'
        (if b.has_notifier then ended ++ call_ended (to_record (h.room p)) reason ∷ [] else ended)

  persist_closes : Hub → ℕ → List Participant → String → Hub
  unfolding persist_close
  persist_closes h p [] reason = h
  persist_closes h p (x ∷ xs) reason =
      persist_closes (persist_close h p x.user_id reason) p xs reason

  pub ended_frame : Room → String → Envelope
  ended_frame r reason = record (new_frame msg_call_ended) { call_id = r.id; reason = reason }

  end_rest : Hub → ℕ → String → Option (List ℕ × List Participant) → Hub
  unfolding close_peers persist_closes forget send_all ended_frame
  end_rest h p reason none = h
  end_rest h p reason (some (peers, parts)) =
      let closed = close_peers h peers in
      let cleared = put_room closed p (remove_all_routes (closed.room p)) in
      let forgotten = forget (persist_closes cleared p parts reason) p reason in
      emit forgotten (send_all parts (ended_frame (h.room p) reason))

  -- `Hub.End`
  unfoldable pub end : Hub → ℕ → String → Hub
  unfolding end_rest end_section
  end h p reason = let (r, out) = end_section (h.room p) in end_rest (put_room h p r) p reason out
