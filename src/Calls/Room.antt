-- ===== src/Calls/Room.antt =====
-- internal/calls/hub.go, the Room: its state, and each critical section that holds its lock.
pub mod Invariant
pub mod Joining
pub mod Leaving
use combox_backend.Prelude.{
  ℕ, String, Bool, true, false, not, ◌&&◌, ◌==◌, eqb, leb, ltb, if◌then◌else◌, Option, none, some,
  List, [], ◌∷◌, ◌++◌, length,
}
use combox_backend.Prelude.Dict.{Dict, lookup, has, insert, erase, values}
use combox_backend.Calls.Errors.{
  Result, ok, err, err_call_ended, err_call_full, err_invalid_message, err_forbidden,
  err_not_participant,
}
use combox_backend.Calls.Types.{
  kind_broadcast, topology_mesh, topology_sfu, topology_broadcast, role_publisher, role_subscriber,
  role_valid, MediaState, Participant, rebind, unbind, owned_by, clone, CallRecord,
}
use combox_backend.Calls.Tracks.{normalize_track_key, normalize_track_source}

-- One outbound leg: the track of a publisher, forwarded to the peer of a subscriber. `leg` is the
-- identity of the `*forwardedTrack`, and `peer_user` the user of the peer that it belongs to.
pub record ForwardedTrack : Type 0 where
  pub leg : ℕ
  pub key : String
  pub peer : ℕ
  pub peer_user : String

pub record OutRoute : Type 0 where
  pub owner_id : String
  pub track : ForwardedTrack

-- `peers` holds pointers to the server side peers, which the hub keeps.
pub record Room : Type 0 where
  pub id : String
  pub chat_id : String
  pub kind : String
  pub topology : String
  pub e2ee : Bool
  pub started_by : String
  pub started_at : ℕ
  pub max_participants : ℕ
  pub mesh_limit : ℕ
  pub participants : Dict Participant
  pub peers : Dict ℕ
  pub routes : Dict (List OutRoute)
  pub track_sources : Dict (Dict String)
  pub closed : Bool

-- `newRoom`; the id is the one that the uuid package makes.
unfoldable pub new_room : String → String → String → String → Bool → ℕ → ℕ → ℕ → Room
new_room fresh kind chat_id started_by e2ee mesh_limit max_participants now = record {
  id = fresh;
  chat_id = chat_id;
  kind = kind;
  topology = if kind == kind_broadcast then topology_broadcast else topology_mesh;
  e2ee = e2ee;
  started_by = started_by;
  started_at = now;
  max_participants = max_participants;
  mesh_limit = mesh_limit;
  participants = [];
  peers = [];
  routes = [];
  track_sources = [];
  closed = false;
}

-- `Room.Record`
abbrev pub to_record : Room → CallRecord
to_record r = record {
  id = r.id;
  chat_id = r.chat_id;
  kind = r.kind;
  topology = r.topology;
  e2ee = r.e2ee;
  started_by = r.started_by;
  started_at = r.started_at;
  ended_at = none;
  end_reason = none;
  max_participants = r.max_participants;
}

clones : Dict Participant → List Participant
clones [] = []
clones ((id, p) ∷ m) = clone p ∷ clones m

-- `snapshotParticipants`
unfoldable pub snapshot_participants : Room → List Participant
unfolding clones
snapshot_participants r = clones r.participants

abbrev pub is_publisher : Participant → Bool
is_publisher p = p.role == role_publisher

any_publisher : Dict Participant → Bool
any_publisher [] = false
any_publisher ((id, p) ∷ m) = if is_publisher p then true else any_publisher m

-- `hasPublisher` and `hasPublisherLocked`
unfoldable pub has_publisher : Room → Bool
unfolding any_publisher
has_publisher r = any_publisher r.participants

-- The participants but one: the targets of a broadcast, of a media change and of a track map.
unfoldable pub others : String → Dict Participant → List Participant
others exclude [] = []
others exclude ((id, p) ∷ m) =
    let rest = others exclude m in if id == exclude then rest else p ∷ rest

-- What `Join` hands back of its critical section.
pub record Joined : Type 0 where
  pub participant : Participant
  pub rejoined : Bool
  pub escalated : Bool
  pub track_sources : Dict (Dict String)

-- The role that a newcomer gets, or the refusal.
unfoldable pub join_role : Room → String → Result String
unfolding role_valid has_publisher
join_role r requested =
    if not (r.kind == kind_broadcast)
    then ok role_publisher
    else (let role = if requested == "" then role_subscriber else requested in
        if not (role_valid role)
        then err err_invalid_message
        else if role == role_publisher && has_publisher r
        then err err_forbidden
        else ok role)

abbrev pub newcomer : String → String → String → ℕ → Option ℕ → Participant
newcomer user_id device_id role now sender = record {
  user_id = user_id;
  device_id = device_id;
  role = role;
  joined_at = now;
  media = record { mic = true; camera = true; screen = false; speaking = false };
  sender = sender;
}

-- Whether this join moves the room from the mesh to the SFU.
abbrev pub escalates : Room → Bool
escalates r = (r.topology == topology_mesh) && leb r.mesh_limit (length r.participants)

-- The last part of the critical section: topology, then registration.
unfoldable pub admit : Room → Participant → Room × Joined
admit r p =
    let broadcast = record r {
      topology = if r.kind == kind_broadcast then topology_broadcast else r.topology;
    } in
    let escalated = escalates broadcast in
    (
      record broadcast {
        topology = if escalated then topology_sfu else broadcast.topology;
        participants = insert p.user_id p r.participants;
      },
      record {
        participant = p;
        rejoined = false;
        escalated = escalated;
        track_sources = r.track_sources;
      },
    )

enter : Room → String → String → Option ℕ → ℕ → Result String → Room × Result Joined
unfolding admit
enter r user_id device_id sender now (err e) = (r, err e)
enter r user_id device_id sender now (ok role) =
    let (r', j) = admit r (newcomer user_id device_id role now sender) in (r', ok j)

seat : Room → String → String → String → Option ℕ → ℕ → Option Participant → Room × Result Joined
unfolding enter join_role
seat r user_id device_id role sender now (some existing) =
    let p = rebind existing sender device_id in
    (
      record r { participants = insert user_id p r.participants },
      ok (record {
        participant = p;
        rejoined = true;
        escalated = false;
        track_sources = r.track_sources;
      }),
    )
seat r user_id device_id role sender now none =
    if leb r.max_participants (length r.participants)
    then (r, err err_call_full)
    else enter r user_id device_id sender now (join_role r role)

-- The critical section of `Hub.Join`: user, device, requested role, connection, time.
unfoldable pub register : Room → String → String → String → Option ℕ → ℕ → Room × Result Joined
unfolding seat
register r user_id device_id role sender now =
    if r.closed
    then (r, err err_call_ended)
    else seat r user_id device_id role sender now (lookup user_id r.participants)

-- What `Leave` learns in its critical section.
pub record Left : Type 0 where
  pub participant : Participant
  pub peer : Option ℕ
  pub empty : Bool
  pub lonely : Bool

remove : Room → String → Participant → Room × Left
remove r user_id p =
    let rest = erase user_id r.participants in
    let empty = eqb (length rest) 0 in
    (
      record r { participants = rest; peers = erase user_id r.peers; closed = empty },
      record {
        participant = p;
        peer = lookup user_id r.peers;
        empty = empty;
        lonely = not empty && eqb (length rest) 1 && not (r.kind == kind_broadcast);
      },
    )

-- The connection that asks still owns the slot, or there is none to ask for.
abbrev pub may_remove : Participant → Option ℕ → Bool
may_remove p none = true
may_remove p (some s) = owned_by p (some s)

vacate : Room → String → Option ℕ → Option Participant → Room × Option Left
unfolding remove
vacate r user_id sender none = (r, none)
vacate r user_id sender (some p) =
    if may_remove p sender then (let (r', l) = remove r user_id p in (r', some l)) else (r, none)

-- The critical section of `Hub.Leave`; `none` where it returns early.
unfoldable pub leave_section : Room → String → Option ℕ → Room × Option Left
unfolding vacate
leave_section r user_id sender =
    if r.closed then (r, none) else vacate r user_id sender (lookup user_id r.participants)

-- The critical section of `Hub.End`: the peers and the participants that it takes out.
unfoldable pub end_section : Room → Room × Option (List ℕ × List Participant)
unfolding values
end_section r = if r.closed then (r, none) else (
  record r { closed = true; peers = []; participants = [] },
  some (values r.peers, values r.participants),
)

-- The critical section of `Hub.discardRoom`: whether the room goes.
unfoldable pub discard_section : Room → Room × Bool
discard_section r =
    if r.closed
    then (r, false)
    else if ltb 0 (length r.participants)
    then (r, false)
    else (record r { closed = true }, true)

set_media : Room → String → MediaState → Option Participant → Room × Result (List Participant)
unfolding others
set_media r user_id media none = (r, err err_not_participant)
set_media r user_id media (some p) = (
  record r { participants = insert user_id (record p { media = media }) r.participants },
  ok (others user_id r.participants),
)

-- The critical section of `Hub.UpdateMedia`.
unfoldable pub media_section : Room → String → MediaState → Room × Result (List Participant)
unfolding set_media
media_section r user_id media = set_media r user_id media (lookup user_id r.participants)

-- The copy of a track map that `SetTrackSources` keeps.
unfoldable pub clean_sources : Dict String → Dict String → Dict String
unfolding normalize_track_key normalize_track_source
clean_sources cp [] = cp
clean_sources cp ((k, v) ∷ rest) =
    let key = normalize_track_key k in
    let src = normalize_track_source v in
    clean_sources (if key == "" then cp else if src == "" then cp else insert key src cp) rest

store_sources : Room → String → Dict String → Room
store_sources r user_id [] = record r { track_sources = erase user_id r.track_sources }
store_sources r user_id (c ∷ cs) = record r {
  track_sources = insert user_id (c ∷ cs) r.track_sources;
}

-- The critical section of `Hub.SetTrackSources`: the map to announce and whom to tell.
unfoldable pub tracks_section :
    Room → String → Dict String → Room × Result (Dict String × List Participant)
unfolding clean_sources store_sources others
tracks_section r user_id sources =
    if has user_id r.participants
    then (let cp = clean_sources [] sources in
        (store_sources r user_id cp, ok (cp, others user_id r.participants)))
    else (r, err err_not_participant)
