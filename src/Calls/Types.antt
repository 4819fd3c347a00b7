-- ===== src/Calls/Types.antt =====
-- internal/calls/types.go: call kinds, topologies, roles, participants and the persisted records.
-- `CallKind`, `Topology` and `Role` are strings in the source and here. A time is a number, and a
-- connection (the `Sender` of a participant, compared by identity) is a number too.
use combox_backend.Prelude.{
  ℕ, String, Bool, true, false, ◌||◌, ◌==◌, eqb, if◌then◌else◌, Option, none, some, List,
}

abbrev pub kind_p2p : String
kind_p2p = "p2p"

abbrev pub kind_group : String
kind_group = "group"

abbrev pub kind_broadcast : String
kind_broadcast = "broadcast"

-- `CallKind.Valid`
unfoldable pub kind_valid : String → Bool
kind_valid k = k == kind_p2p || k == kind_group || k == kind_broadcast

abbrev pub topology_mesh : String
topology_mesh = "mesh"

abbrev pub topology_sfu : String
topology_sfu = "sfu"

abbrev pub topology_broadcast : String
topology_broadcast = "broadcast"

abbrev pub role_publisher : String
role_publisher = "publisher"

abbrev pub role_subscriber : String
role_subscriber = "subscriber"

-- `Role.Valid`
unfoldable pub role_valid : String → Bool
role_valid r = r == role_publisher || r == role_subscriber

abbrev pub reason_declined : String
reason_declined = "declined"

pub record MediaState : Type 0 where
  pub mic : Bool
  pub camera : Bool
  pub screen : Bool
  pub speaking : Bool

pub record Participant : Type 0 where
  pub user_id : String
  pub device_id : String
  pub role : String
  pub joined_at : ℕ
  pub media : MediaState
  pub sender : Option ℕ

abbrev pub rebind : Participant → Option ℕ → String → Participant
rebind p sender device_id = record p {
  sender = sender;
  device_id = if device_id == "" then p.device_id else device_id;
}

abbrev pub unbind : Participant → Participant
unbind p = record p { sender = none }

abbrev pub same_sender : Option ℕ → Option ℕ → Bool
same_sender none none = true
same_sender (some a) (some b) = eqb a b
same_sender _ _ = false

abbrev pub owned_by : Participant → Option ℕ → Bool
owned_by p sender = same_sender p.sender sender

-- `Clone` leaves the connection out.
abbrev pub clone : Participant → Participant
clone p = record p { sender = none }

-- The empty participant that carries nothing but a user id, as in `&Participant{UserID: userID}`.
abbrev pub only_user : String → Participant
only_user user_id = record {
  user_id = user_id;
  device_id = "";
  role = "";
  joined_at = 0;
  media = record { mic = false; camera = false; screen = false; speaking = false };
  sender = none;
}

pub record CallRecord : Type 0 where
  pub id : String
  pub chat_id : String
  pub kind : String
  pub topology : String
  pub e2ee : Bool
  pub started_by : String
  pub started_at : ℕ
  pub ended_at : Option ℕ
  pub end_reason : Option String
  pub max_participants : ℕ

unfoldable pub ended : CallRecord → Bool
ended c = elim c.ended_at [ none ↦ false | some t ↦ true ]

pub record ParticipantRecord : Type 0 where
  pub call_id : String
  pub user_id : String
  pub device_id : String
  pub role : String
  pub joined_at : ℕ

pub record IceServer : Type 0 where
  pub urls : List String
  pub username : String
  pub credential : String
