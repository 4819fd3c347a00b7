-- ===== src/Calls/Hub/Join/Sound.antt =====
-- internal/calls/hub.go: joining keeps every room sound.
use combox_backend.Prelude.{
  ℕ, String, Bool, true, false, ◌||◌, ◌==◌, not, if_both, Option, none, some,
}
use combox_backend.Calls.Errors.{Result, ok, err}
use combox_backend.Calls.Types.{kind_valid}
use combox_backend.Calls.Room.{Room, Joined, register}
use combox_backend.Calls.Room.Invariant.{IsSound, new_room-IsSound, register-IsSound}
use combox_backend.Calls.Hub.{Backend, Hub, JoinRequest, put_room, member_check}
use combox_backend.Calls.Hub.Sound.{
  IsSoundHub, put_room-IsSoundHub, broadcast-IsSoundHub, persist_participant-IsSoundHub,
  discard_room-IsSoundHub, KeptSound,
}
use combox_backend.Calls.Hub.Join.{
  Resolved, open_room, found_or_new, resolve_id, resolve_room, announce_new, announce_topology,
  announce_peer, joined, registered, at_room, resolve_member, join_checked, join_resolved,
  requested_kind, join,
}

pub open_room-IsSoundHub :
    (h : Hub) (req : JoinRequest) (kind fresh : String)
    → IsSoundHub h
    → IsSoundHub (open_room h req kind fresh)
unfolding open_room
open_room-IsSoundHub h req kind fresh s = record {
  rooms =
      (put_room-IsSoundHub h h.next_room _ s (
        new_room-IsSound fresh kind req.chat_id req.user_id req.e2ee h.mesh_limit h.max_participants
          h.now)).rooms;
}

found_or_new-IsSoundHub :
    (h : Hub) (req : JoinRequest) (kind fresh : String) (found : Option ℕ)
    → IsSoundHub h
    → IsSoundHub (found_or_new h req kind fresh found).hub
unfolding found_or_new
found_or_new-IsSoundHub h req kind fresh (some p) s = s
found_or_new-IsSoundHub h req kind fresh none s = open_room-IsSoundHub h req kind fresh s

-- What a fallible step hands on is sound.
abbrev SoundResult : Result Resolved → Type 0
SoundResult (err e) = Unit
SoundResult (ok x) = IsSoundHub x.hub

at_room-Sound : (h : Hub) (r : Result ℕ) → IsSoundHub h → SoundResult (at_room h r)
unfolding at_room
at_room-Sound h (err e) s = tt
at_room-Sound h (ok p) s = s

module _ (b : Backend) where
  resolve_id-Sound :
      (h : Hub) (req : JoinRequest) (kind fresh : String)
      → IsSoundHub h
      → SoundResult (resolve_id b h req kind fresh)
  unfolding resolve_id
  resolve_id-Sound h req kind fresh s =
      if_both SoundResult (not (req.call_id == "")) (λ named. at_room-Sound h _ s)
        (λ any. found_or_new-IsSoundHub h req kind fresh _ s)

  resolve_member-Sound :
      (h : Hub) (req : JoinRequest) (kind fresh : String) (r : Result (Unit {0}))
      → IsSoundHub h
      → SoundResult (resolve_member b h req kind fresh r)
  unfolding resolve_member
  resolve_member-Sound h req kind fresh (err e) s = tt
  resolve_member-Sound h req kind fresh (ok u) s = resolve_id-Sound h req kind fresh s

  announce_new-IsSoundHub :
      (h : Hub) (p : ℕ) (created : Bool) → IsSoundHub h → IsSoundHub (announce_new b h p created)
  unfolding announce_new
  announce_new-IsSoundHub h p true s = record { rooms = s.rooms }
  announce_new-IsSoundHub h p false s = s

  announce_topology-IsSoundHub :
      (h : Hub) (p : ℕ) (j : Joined) → IsSoundHub h → IsSoundHub (announce_topology b h p j)
  unfolding announce_topology
  announce_topology-IsSoundHub h p j s =
      if_both IsSoundHub j.escalated (λ moved. broadcast-IsSoundHub h p _ j.participant.user_id s)
        (λ same. s)

  joined-IsSoundHub :
      (h : Hub) (p : ℕ) (created : Bool) (j : Joined)
      → IsSoundHub h
      → IsSoundHub (joined b h p created j)
  unfolding joined announce_peer
  joined-IsSoundHub h p created j s =
      if_both IsSoundHub j.rejoined (λ again. persist_participant-IsSoundHub h p j.participant s)
        (λ anew. broadcast-IsSoundHub _ p _ j.participant.user_id (
          announce_topology-IsSoundHub _ p j (
            persist_participant-IsSoundHub _ p j.participant
              (announce_new-IsSoundHub h p created s))))

  registered-KeptSound :
      (h : Hub) (p : ℕ) (created : Bool) (r : Room × Result Joined)
      → IsSoundHub h
      → IsSound r.0
      → KeptSound (registered b h p created r)
  unfolding registered
  registered-KeptSound h p created (r, err e) s t = record { hub = s }
  registered-KeptSound h p created (r, ok j) s t = record {
    hub = joined-IsSoundHub (put_room h p r) p created j (put_room-IsSoundHub h p r s t);
  }

  join_checked-KeptSound :
      (req : JoinRequest) (x : Resolved) (r : Result (Unit {0}))
      → IsSoundHub x.hub
      → KeptSound (join_checked b req x r)
  unfolding join_checked
  join_checked-KeptSound req x (err e) s = record {
    hub = if_both IsSoundHub x.created (λ fresh. discard_room-IsSoundHub x.hub x.room s) (λ old. s);
  }
  join_checked-KeptSound req x (ok u) s =
      registered-KeptSound x.hub x.room x.created
        (register (x.hub.room x.room) req.user_id req.device_id req.role req.sender x.hub.now) s
        (register-IsSound _ req.user_id req.device_id req.role req.sender x.hub.now
          (s.rooms x.room))

  join_resolved-KeptSound :
      (h : Hub) (req : JoinRequest) (r : Result Resolved)
      → IsSoundHub h
      → SoundResult r
      → KeptSound (join_resolved b h req r)
  unfolding join_resolved
  join_resolved-KeptSound h req (err e) s t = record { hub = s }
  join_resolved-KeptSound h req (ok x) s t = join_checked-KeptSound req x _ t

  -- A join, whatever its request and whatever the checks answer, keeps every room sound.
  pub join-KeptSound :
      (h : Hub) (req : JoinRequest) (fresh : String) → IsSoundHub h → KeptSound (join b h req fresh)
  unfolding join resolve_room
  join-KeptSound h req fresh s =
      if_both KeptSound (req.user_id == "" || req.chat_id == "") (λ bad. record { hub = s })
        (λ named.
          if_both KeptSound (not (kind_valid (requested_kind req))) (λ bad. record { hub = s })
            (λ valid.
              join_resolved-KeptSound h req (resolve_room b h req (requested_kind req) fresh) s (
                resolve_member-Sound h req (requested_kind req) fresh
                  (member_check b.is_member req.user_id req.chat_id) s)))
