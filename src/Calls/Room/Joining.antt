-- ===== src/Calls/Room/Joining.antt =====
-- internal/calls/hub.go: what a join and a leave do to the slots of a room.
use combox_backend.Prelude.{
  ℕ, ◌<◌, String, Bool, true, false, not, ◌&&◌, ◌==◌, leb, if◌then◌else◌, Option, none, some,
  length, ◌≡◌, refl, sym, subst, arith, ◌∙◌, if_both, Bool-cases, inl, inr,
}
use combox_backend.Prelude.Dict.{
  lookup, has, insert, lookup-insert, has-lookup-none, has-lookup-some,
}
use combox_backend.Calls.Errors.{
  GoError, Result, ok, err, ok_injective, err_injective, err_invalid_message,
}
use combox_backend.Calls.Types.{
  kind_broadcast, topology_mesh, topology_sfu, topology_broadcast, role_publisher, role_subscriber,
  role_valid, Participant, rebind,
}
use combox_backend.Calls.Room.{
  Room, Joined, new_room, has_publisher, join_role, admit, enter, seat, register, newcomer,
}
use combox_backend.Calls.Room.Invariant.{IsSound}

-- The role of a newcomer to a stream that has no publisher.
join_role-stream :
    (r : Room) (role : String)
    → has_publisher r ≡ false
    → (r.kind == kind_broadcast) ≡ true
    → (role == "") ≡ false
    → join_role r role ≡ (if role_valid role then ok role else err err_invalid_message)
unfolding join_role
join_role-stream r role nobody stream given = elim (Bool-cases (role_valid role)) [
  | inl valid ↦ rw (stream, given, valid, nobody) (ground arith)
  | inr unknown ↦ rw (stream, given, unknown) refl
]

join_role-call :
    (r : Room) (role : String)
    → (r.kind == kind_broadcast) ≡ false
    → join_role r role ≡ ok role_publisher
unfolding join_role
join_role-call r role call = rw call refl

join_role-blank :
    (r : Room) (role : String)
    → has_publisher r ≡ false
    → (r.kind == kind_broadcast) ≡ true
    → (role == "") ≡ true
    → join_role r role ≡ ok role_subscriber
unfolding join_role role_valid
join_role-blank r role nobody stream blank = rw (stream, blank) refl

join_role_refused :
    (r : Room) (role : String) (e : GoError)
    → has_publisher r ≡ false
    → join_role r role ≡ err e
    → ((r.kind == kind_broadcast) ≡ true)
      × ((not (role == "") && not (role_valid role)) ≡ true)
      × (e ≡ err_invalid_message)
join_role_refused r role e nobody h = elim (Bool-cases (r.kind == kind_broadcast)) [
  | inr call ↦ let held : join_role r role ≡ ok role_publisher = join_role-call r role call in cc
  | inl stream ↦ elim (Bool-cases (role == "")) [
    | inl blank ↦
        let held : join_role r role ≡ ok role_subscriber =
          join_role-blank r role nobody stream blank in
        cc
    | inr given ↦
        let held = join_role-stream r role nobody stream given in
        elim (Bool-cases (role_valid role)) [
          | inl valid ↦ let taken : join_role r role ≡ ok role = held ∙ rw valid refl in cc
          | inr unknown ↦
              let refused : join_role r role ≡ err err_invalid_message = held ∙ rw unknown refl in
              (stream, ground arith, err_injective (sym h ∙ refused))
        ]
  ]
]

enter_refused :
    (r : Room) (user_id device_id : String) (sender : Option ℕ) (now : ℕ) (role : Result String)
    (e : GoError)
    → (enter r user_id device_id sender now role).1 ≡ err e
    → role ≡ err e
unfolding enter
enter_refused r user_id device_id sender now (err e') e h = cc
enter_refused r user_id device_id sender now (ok role) e h = cc

-- A new room that has a slot refuses a join only to a stream and for the role that is asked for.
pub register-new_room :
    (fresh kind chat_id started_by : String) (e2ee : Bool) (mesh_limit max_participants opened : ℕ)
    (user_id device_id role : String) (sender : Option ℕ) (now : ℕ) (e : GoError)
    → 0 < max_participants
    → (register
        (new_room fresh kind chat_id started_by e2ee mesh_limit max_participants opened)
        user_id
        device_id
        role
        sender
        now).1
      ≡ err e
    → ((kind == kind_broadcast) ≡ true)
      × ((not (role == "") && not (role_valid role)) ≡ true)
      × (e ≡ err_invalid_message)
unfolding register seat new_room has_publisher lookup
register-new_room fresh kind chat_id started_by e2ee mesh_limit max_participants opened user_id
      device_id role sender now e room =
    let r = new_room fresh kind chat_id started_by e2ee mesh_limit max_participants opened in
    if_both {A = Room × Result Joined}
      (λ x.
        x.1 ≡ err e
        → ((kind == kind_broadcast) ≡ true)
          × ((not (role == "") && not (role_valid role)) ≡ true)
          × (e ≡ err_invalid_message))
      (leb max_participants 0) (λ full. ground arith)
      (λ free h.
        join_role_refused r role e refl
          (enter_refused r user_id device_id sender now (join_role r role) e h))

-- What a join that the room lets in has done.
pub record IsSeated (r r' : Room) (user_id : String) (sender : Option ℕ) (j : Joined) : Type 0 where
  -- the user's slot is the participant that the join returns, and the other slots are as they were
  pub slots :
      (k : String)
      → lookup k r'.participants
        ≡ (if user_id == k then some j.participant else lookup k r.participants)
  pub table : r'.participants ≡ insert user_id j.participant r.participants
  -- the slot belongs to the connection that joined
  pub bound : j.participant.sender ≡ sender
  -- the room moves to the SFU exactly if a newcomer meets a mesh that is full
  pub moved : j.escalated ≡ (
      (r.topology == topology_mesh) && leb r.mesh_limit (length r.participants) && not j.rejoined)
  pub topology : r'.topology ≡ (if j.escalated then topology_sfu else r.topology)
  -- who was in the room is recognised
  pub again : j.rejoined ≡ has user_id r.participants
  pub live : r'.closed ≡ false

stream_topology :
    (r : Room)
    → IsSound r
    → (if r.kind == kind_broadcast then topology_broadcast else r.topology) ≡ r.topology
stream_topology r s = elim (Bool-cases (r.kind == kind_broadcast)) [
  | inl stream ↦ rw stream (sym (s.stream stream))
  | inr call ↦ rw call
]

admit-IsSeated :
    (r : Room) (p : Participant)
    → IsSound r
    → r.closed ≡ false
    → has p.user_id r.participants ≡ false
    → IsSeated r (admit r p).0 p.user_id p.sender (admit r p).1
unfolding admit
admit-IsSeated r p s live free = record {
  slots = λ k. lookup-insert p.user_id k p r.participants;
  table = refl;
  bound = refl;
  moved = rw (stream_topology r s) (ground arith);
  topology = rw (stream_topology r s);
  again = sym free;
  live = live;
}

enter-IsSeated :
    (r : Room) (user_id device_id : String) (sender : Option ℕ) (now : ℕ) (role : Result String)
    (j : Joined)
    → IsSound r
    → r.closed ≡ false
    → has user_id r.participants ≡ false
    → (enter r user_id device_id sender now role).1 ≡ ok j
    → IsSeated r (enter r user_id device_id sender now role).0 user_id sender j
unfolding enter
enter-IsSeated r user_id device_id sender now (err e) j s live free h = cc
enter-IsSeated r user_id device_id sender now (ok role) j s live free h =
    subst (IsSeated r (admit r (newcomer user_id device_id role now sender)).0 user_id sender)
      (ok_injective h) (admit-IsSeated r (newcomer user_id device_id role now sender) s live free)

seat-IsSeated :
    (r : Room) (user_id device_id role : String) (sender : Option ℕ) (now : ℕ)
    (held : Option Participant) (j : Joined)
    → IsSound r
    → r.closed ≡ false
    → lookup user_id r.participants ≡ held
    → (seat r user_id device_id role sender now held).1 ≡ ok j
    → IsSeated r (seat r user_id device_id role sender now held).0 user_id sender j
unfolding seat
seat-IsSeated r user_id device_id role sender now (some p) j s live e h =
    subst
      (IsSeated r
        (record r { participants = insert user_id (rebind p sender device_id) r.participants })
        user_id sender)
      (ok_injective h)
      (record {
        slots = λ k. lookup-insert user_id k (rebind p sender device_id) r.participants;
        table = refl;
        bound = refl;
        moved = ground arith;
        topology = refl;
        again = sym (has-lookup-some user_id p r.participants e);
        live = live;
      })
seat-IsSeated r user_id device_id role sender now none j s live e h =
    if_both {A = Room × Result Joined} (λ x. x.1 ≡ ok j → IsSeated r x.0 user_id sender j)
      (leb r.max_participants (length r.participants)) (λ full h'. cc)
      (λ room.
        enter-IsSeated r user_id device_id sender now (join_role r role) j s live
          (has-lookup-none user_id r.participants e))
      h

-- A join that a sound room lets in: the user's slot is the participant that is returned, bound to
-- the connection that joined, and every other slot is as before; a user who was in the room is
-- recognised; the room moves from mesh to SFU exactly if a newcomer meets a mesh that is full, and
-- keeps its topology otherwise.
pub register-IsSeated :
    (r : Room) (user_id device_id role : String) (sender : Option ℕ) (now : ℕ) (j : Joined)
    → IsSound r
    → (register r user_id device_id role sender now).1 ≡ ok j
    → IsSeated r (register r user_id device_id role sender now).0 user_id sender j
unfolding register
register-IsSeated r user_id device_id role sender now j s =
    if_both {A = Room × Result Joined} (λ x. x.1 ≡ ok j → IsSeated r x.0 user_id sender j) r.closed
      (λ over h. cc)
      (λ live.
        seat-IsSeated r user_id device_id role sender now (lookup user_id r.participants) j s live
          refl)
