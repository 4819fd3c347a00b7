-- ===== src/Calls/Room/Invariant.antt =====
-- internal/calls/hub.go: what holds of a room in every state, whichever critical sections ran.
use combox_backend.Prelude.{
  ℕ, suc, ◌+◌, ◌≤◌, String, Bool, true, false, ◌&&◌, ◌==◌, leb, if◌then◌else◌, Option, none, some,
  List, [], ◌∷◌, length, ◌≡◌, refl, inl, inr, arith, Bool-cases, bit, if_both, ltb,
}
use combox_backend.Prelude.Dict.{
  Dict, Distinct, lookup, has, insert, count, length-insert, length-erase-le, insert-Distinct,
  erase-Distinct, has-lookup-none, has-lookup-some, count-insert_absent, count-insert_same,
  count-erase-le,
}
use combox_backend.Calls.Errors.{Result, ok, err}
use combox_backend.Calls.Types.{
  kind_broadcast, topology_mesh, topology_sfu, topology_broadcast, role_publisher, MediaState,
  Participant, rebind,
}
use combox_backend.Calls.Room.{
  Room, new_room, is_publisher, any_publisher, has_publisher, join_role, admit, enter, seat,
  register, newcomer, remove, vacate, leave_section, end_section, discard_section, set_media,
  media_section, store_sources, tracks_section, may_remove, OutRoute,
}

abbrev pub publishers : Dict Participant → ℕ
publishers m = count is_publisher m

pub record IsSound (r : Room) : Type 0 where
  -- one slot for each user
  pub distinct : Distinct r.participants
  -- the call is never over its capacity
  pub capacity : length r.participants ≤ r.max_participants
  -- a stream has one publisher at most
  pub publisher : (r.kind == kind_broadcast) ≡ true → publishers r.participants ≤ 1
  -- a mesh is never larger than its limit
  pub mesh : (r.topology == topology_mesh) ≡ true → length r.participants ≤ r.mesh_limit
  -- a stream has the topology of a stream
  pub stream : (r.kind == kind_broadcast) ≡ true → r.topology ≡ topology_broadcast
  -- nobody is in a closed room
  pub empty : r.closed ≡ true → length r.participants ≡ 0

-- A critical section that branches is sound if its branches are.
if_IsSound :
    {X : Type 0} (b : Bool) (x y : Room × X)
    → (b ≡ true → IsSound x.0)
    → (b ≡ false → IsSound y.0)
    → IsSound (if b then x else y).0
if_IsSound {X} b x y f g = if_both {A = Room × X} (λ x. IsSound x.0) b f g

pub new_room-IsSound :
    (fresh kind chat_id started_by : String) (e2ee : Bool) (mesh_limit max now : ℕ)
    → IsSound (new_room fresh kind chat_id started_by e2ee mesh_limit max now)
unfolding new_room count
new_room-IsSound fresh kind chat_id started_by e2ee mesh_limit max now = record {
  distinct = tt;
  capacity = omega arith;
  publisher = λ h. omega arith;
  mesh = λ h. omega arith;
  stream = λ h. rw h;
  empty = λ h. refl;
}

-- A room in which nobody is a publisher counts none.
no_publishers : (m : Dict Participant) → any_publisher m ≡ false → publishers m ≡ 0
unfolding any_publisher count
no_publishers [] h = refl
no_publishers ((id, p) ∷ m) h = ground (arith, no_publishers m)

-- A newcomer to a stream is a publisher only if there was none.
join_role-publisher :
    (r : Room) (requested role : String)
    → join_role r requested ≡ ok role
    → (r.kind == kind_broadcast) ≡ true
    → publishers r.participants ≤ 1
    → publishers r.participants + bit (role == role_publisher) ≤ 1
unfolding join_role has_publisher
join_role-publisher r requested role h k one = ground (arith, no_publishers r.participants)

-- After the escalation a mesh still has room for one more.
mesh_room :
    (t : String) (is_mesh : Bool) (n limit : ℕ)
    → (t == topology_mesh) ≡ is_mesh
    → ((if is_mesh && leb limit n then topology_sfu else t) == topology_mesh) ≡ true
    → suc n ≤ limit
mesh_room t false n limit e h = cc
mesh_room t true n limit e h = elim (Bool-cases (leb limit n)) [
  | inl full ↦ cc (rw full at h)
  | inr room ↦ ground arith
]

admit-IsSound :
    (r : Room) (p : Participant)
    → IsSound r
    → r.closed ≡ false
    → lookup p.user_id r.participants ≡ none
    → leb r.max_participants (length r.participants) ≡ false
    → ((r.kind == kind_broadcast) ≡ true → publishers r.participants + bit (is_publisher p) ≤ 1)
    → IsSound (admit r p).0
unfolding admit
admit-IsSound r p s live free room one =
    let absent = has-lookup-none p.user_id r.participants free in
    let longer = length-insert p.user_id p r.participants in
    let counted = count-insert_absent is_publisher p.user_id p r.participants absent in
    record {
      distinct = insert-Distinct p.user_id p r.participants s.distinct;
      capacity = ground (arith, absent, longer);
      publisher = λ k. ground (arith, one k, counted);
      mesh = λ m. ground (
        arith,
        absent,
        longer,
        mesh_room (if r.kind == kind_broadcast then topology_broadcast else r.topology) _
            (length r.participants) r.mesh_limit refl m,
      );
      stream = λ k. rw k;
      empty = λ c. ground (arith, c, live);
    }

enter-IsSound :
    (r : Room) (user_id device_id : String) (sender : Option ℕ) (now : ℕ) (role : Result String)
    → IsSound r
    → r.closed ≡ false
    → lookup user_id r.participants ≡ none
    → leb r.max_participants (length r.participants) ≡ false
    → ((x : String)
        → role ≡ ok x
        → (r.kind == kind_broadcast) ≡ true
        → publishers r.participants + bit (x == role_publisher) ≤ 1)
    → IsSound (enter r user_id device_id sender now role).0
unfolding enter
enter-IsSound r user_id device_id sender now (err e) s live free room one = s
enter-IsSound r user_id device_id sender now (ok role) s live free room one =
    admit-IsSound r (newcomer user_id device_id role now sender) s live free room (one role refl)

-- Writing to an existing slot, with its role kept, keeps the room sound.
slot-IsSound :
    (r : Room) (user_id : String) (old new : Participant)
    → IsSound r
    → lookup user_id r.participants ≡ some old
    → new.role ≡ old.role
    → IsSound (record r { participants = insert user_id new r.participants })
slot-IsSound r user_id old new s held same =
    let present = has-lookup-some user_id old r.participants held in
    let as_long = length-insert user_id new r.participants in
    let counted = count-insert_same is_publisher user_id new old r.participants held (rw same) in
    record {
      distinct = insert-Distinct user_id new r.participants s.distinct;
      capacity = ground (arith, present, as_long, s.capacity);
      publisher = λ k. ground (arith, counted, s.publisher k);
      mesh = λ m. ground (arith, present, as_long, s.mesh m);
      stream = s.stream;
      empty = λ c. ground (arith, present, as_long, s.empty c);
    }

seat-IsSound :
    (r : Room) (user_id device_id role : String) (sender : Option ℕ) (now : ℕ)
    (held : Option Participant)
    → IsSound r
    → r.closed ≡ false
    → lookup user_id r.participants ≡ held
    → IsSound (seat r user_id device_id role sender now held).0
unfolding seat
seat-IsSound r user_id device_id role sender now (some p) s live e =
    slot-IsSound r user_id p (rebind p sender device_id) s e refl
seat-IsSound r user_id device_id role sender now none s live e =
    elim (Bool-cases (leb r.max_participants (length r.participants))) [
      | inl full ↦ rw full s
      | inr room ↦ rw room (
          enter-IsSound r user_id device_id sender now (join_role r role) s live e room
            (λ x given k. join_role-publisher r role x given k (s.publisher k)))
    ]

pub register-IsSound :
    (r : Room) (user_id device_id role : String) (sender : Option ℕ) (now : ℕ)
    → IsSound r
    → IsSound (register r user_id device_id role sender now).0
unfolding register
register-IsSound r user_id device_id role sender now s =
    if_IsSound r.closed _ _ (λ over. s)
      (λ live. seat-IsSound r user_id device_id role sender now _ s live refl)

remove-IsSound :
    (r : Room) (user_id : String) (p : Participant) → IsSound r → IsSound (remove r user_id p).0
unfolding remove
remove-IsSound r user_id p s =
    let shorter = length-erase-le user_id r.participants in
    let fewer = count-erase-le is_publisher user_id r.participants in
    record {
      distinct = erase-Distinct user_id r.participants s.distinct;
      capacity = omega (arith, shorter, s.capacity);
      publisher = λ k. omega (arith, fewer, s.publisher k);
      mesh = λ m. omega (arith, shorter, s.mesh m);
      stream = s.stream;
      empty = λ c. ground (arith, c);
    }

vacate-IsSound :
    (r : Room) (user_id : String) (sender : Option ℕ) (held : Option Participant)
    → IsSound r
    → IsSound (vacate r user_id sender held).0
unfolding vacate
vacate-IsSound r user_id sender none s = s
vacate-IsSound r user_id sender (some p) s =
    if_IsSound (may_remove p sender) _ _ (λ mine. remove-IsSound r user_id p s) (λ stale. s)

pub leave_section-IsSound :
    (r : Room) (user_id : String) (sender : Option ℕ)
    → IsSound r
    → IsSound (leave_section r user_id sender).0
unfolding leave_section
leave_section-IsSound r user_id sender s =
    if_IsSound r.closed _ _ (λ over. s) (λ live. vacate-IsSound r user_id sender _ s)

pub end_section-IsSound : (r : Room) → IsSound r → IsSound (end_section r).0
unfolding end_section count
end_section-IsSound r s =
    if_IsSound r.closed _ _ (λ over. s)
      (λ live. record {
        distinct = tt;
        capacity = omega arith;
        publisher = λ k. omega arith;
        mesh = λ m. omega arith;
        stream = s.stream;
        empty = λ c. refl;
      })

pub discard_section-IsSound : (r : Room) → IsSound r → IsSound (discard_section r).0
unfolding discard_section
discard_section-IsSound r s =
    if_IsSound r.closed _ _ (λ over. s)
      (λ live.
        if_IsSound (ltb 0 (length r.participants)) _ _ (λ held. s)
          (λ idle. record {
            distinct = s.distinct;
            capacity = s.capacity;
            publisher = s.publisher;
            mesh = s.mesh;
            stream = s.stream;
            empty = λ c. ground (arith, idle);
          }))

set_media-IsSound :
    (r : Room) (user_id : String) (media : MediaState) (held : Option Participant)
    → IsSound r
    → lookup user_id r.participants ≡ held
    → IsSound (set_media r user_id media held).0
unfolding set_media
set_media-IsSound r user_id media none s e = s
set_media-IsSound r user_id media (some p) s e =
    slot-IsSound r user_id p (record p { media = media }) s e refl

pub media_section-IsSound :
    (r : Room) (user_id : String) (media : MediaState)
    → IsSound r
    → IsSound (media_section r user_id media).0
unfolding media_section
media_section-IsSound r user_id media s = set_media-IsSound r user_id media _ s refl

-- The room's other maps are free to change.
pub maps-IsSound :
    (r : Room) (peers : Dict ℕ) (routes : Dict (List OutRoute)) (track_sources : Dict (Dict String))
    → IsSound r
    → IsSound (record r { peers = peers; routes = routes; track_sources = track_sources })
maps-IsSound r peers routes track_sources s = record {
  distinct = s.distinct;
  capacity = s.capacity;
  publisher = s.publisher;
  mesh = s.mesh;
  stream = s.stream;
  empty = s.empty;
}

store_sources-IsSound :
    (r : Room) (user_id : String) (cp : Dict String)
    → IsSound r
    → IsSound (store_sources r user_id cp)
unfolding store_sources
store_sources-IsSound r user_id [] s = maps-IsSound r r.peers r.routes _ s
store_sources-IsSound r user_id (c ∷ cs) s = maps-IsSound r r.peers r.routes _ s

pub tracks_section-IsSound :
    (r : Room) (user_id : String) (sources : Dict String)
    → IsSound r
    → IsSound (tracks_section r user_id sources).0
unfolding tracks_section
tracks_section-IsSound r user_id sources s =
    if_IsSound (has user_id r.participants) _ _ (λ held. store_sources-IsSound r user_id _ s)
      (λ absent. s)
