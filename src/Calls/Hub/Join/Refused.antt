-- ===== src/Calls/Hub/Join/Refused.antt =====
-- internal/calls/hub.go: what a refused `Hub.Join` leaves behind.
use combox_backend.Prelude.{
  ℕ, ◌<◌, String, Bool, true, false, not, ◌&&◌, ◌||◌, ◌==◌, eqb_refl, if_both, Option, none, some,
  ◌≡◌, refl, sym, subst, arith,
}
use combox_backend.Calls.Errors.{GoError, Result, ok, err, err_invalid_message}
use combox_backend.Calls.Types.{kind_broadcast, kind_valid, role_publisher, role_valid}
use combox_backend.Calls.Room.{Room, Joined, new_room, register}
use combox_backend.Calls.Room.Joining.{register-new_room}
use combox_backend.Calls.Hub.{Backend, Hub, JoinRequest, JoinResult}
use combox_backend.Calls.Hub.Join.{
  Resolved, chat_room, at_room, found_or_new, open_room, requested_kind, resolve_id, resolve_member,
  resolve_room, stream_check, registered, join_checked, join_resolved, join, active_call,
}
use combox_backend.Calls.Hub.Join.Opened.{
  opened_room, Opens, IsThrownAway, IsLeftEmpty, open_room-IsLeftEmpty, discard_room-IsThrownAway,
}

-- What a refused join leaves.
pub data Refused (h : Hub) (req : JoinRequest) (fresh : String) (e : GoError) (after : Hub)
    : Type 0 where
  as_before : after ≡ h → Refused h req fresh e after
  thrown_away :
      Opens h req
      → ((req.role == role_publisher) && (requested_kind req == kind_broadcast)) ≡ true
      → IsThrownAway h req fresh after
      → Refused h req fresh e after
  left_empty :
      Opens h req
      → (requested_kind req == kind_broadcast) ≡ true
      → (not (req.role == "") && not (role_valid req.role)) ≡ true
      → e ≡ err_invalid_message
      → IsLeftEmpty h req fresh after
      → Refused h req fresh e after

-- What `resolveRoom` answers.
data Answers (h : Hub) (req : JoinRequest) (fresh : String) (out : Result Resolved) : Type 0 where
  failed : (e : GoError) → out ≡ err e → Answers h req fresh out
  found :
      (p : ℕ) → out ≡ ok (record { hub = h; room = p; created = false }) → Answers h req fresh out
  fresh_room :
      Opens h req
      → out
        ≡ ok (record {
          hub = open_room h req (requested_kind req) fresh;
          room = h.next_room;
          created = true;
        })
      → Answers h req fresh out

at_room-Answers :
    (h : Hub) (req : JoinRequest) (fresh : String) (r : Result ℕ)
    → Answers h req fresh (at_room h r)
unfolding at_room
at_room-Answers h req fresh (err e) = failed e refl
at_room-Answers h req fresh (ok p) = found p refl

found_or_new-Answers :
    (h : Hub) (req : JoinRequest) (fresh : String) (known : Option ℕ)
    → (req.call_id == "") ≡ true
    → chat_room h req.chat_id ≡ known
    → Answers h req fresh (ok (found_or_new h req (requested_kind req) fresh known))
unfolding found_or_new active_call
found_or_new-Answers h req fresh none any h' = fresh_room (any, h') refl
found_or_new-Answers h req fresh (some p) any h' = found p refl

resolve_member-Answers :
    (b : Backend) (h : Hub) (req : JoinRequest) (fresh : String) (known : Result (Unit {0}))
    → Answers h req fresh (resolve_member b h req (requested_kind req) fresh known)
unfolding resolve_member resolve_id
resolve_member-Answers b h req fresh (err e) = failed e refl
resolve_member-Answers b h req fresh (ok u) =
    if_both {A = Result Resolved} (Answers h req fresh) (not (req.call_id == ""))
      (λ named. at_room-Answers h req fresh _)
      (λ any. found_or_new-Answers h req fresh _ (ground arith) refl)

resolve_room-Answers :
    (b : Backend) (h : Hub) (req : JoinRequest) (fresh : String)
    → Answers h req fresh (resolve_room b h req (requested_kind req) fresh)
unfolding resolve_room
resolve_room-Answers b h req fresh = resolve_member-Answers b h req fresh _

module _ (b : Backend) where
  -- What a join answers once the room has answered.
  registered-err :
      (h : Hub) (p : ℕ) (created : Bool) (out : Room × Result Joined) (e : GoError)
      → (registered b h p created out).1 ≡ err e
      → ((registered b h p created out).0 ≡ h) × (out.1 ≡ err e)
  unfolding registered
  registered-err h p created (r, err e') e refused = (refl, ground arith)
  registered-err h p created (r, ok j) e refused = cc

  found-Refused :
      (h : Hub) (req : JoinRequest) (fresh : String) (p : ℕ) (check : Result (Unit {0}))
      (e : GoError)
      → (join_checked b req (record { hub = h; room = p; created = false }) check).1 ≡ err e
      → Refused h req fresh e
          (join_checked b req (record { hub = h; room = p; created = false }) check).0
  unfolding join_checked
  found-Refused h req fresh p (err e') e refused = as_before refl
  found-Refused h req fresh p (ok u) e refused = as_before (registered-err h p false _ e refused).0

  -- A join that has opened a room.
  abbrev on_opened : Hub → JoinRequest → String → Resolved
  on_opened h req fresh = record {
    hub = open_room h req (requested_kind req) fresh;
    room = h.next_room;
    created = true;
  }

  checked_stream :
      (h : Hub) (req : JoinRequest) (fresh : String) (e : GoError)
      → stream_check b (on_opened h req fresh).hub h.next_room req ≡ err e
      → ((req.role == role_publisher) && (requested_kind req == kind_broadcast)) ≡ true
  unfolding stream_check open_room new_room
  checked_stream h req fresh e =
      let opened = (on_opened h req fresh).hub in
      let same : opened.room h.next_room ≡ opened_room h req fresh =
        rw (eqb_refl h.next_room) refl in
      if_both
        (λ out.
          out ≡ err e
          → ((req.role == role_publisher) && (requested_kind req == kind_broadcast)) ≡ true)
        ((req.role == role_publisher) && ((opened.room h.next_room).kind == kind_broadcast))
        (λ streams refused.
          subst (λ (r : Room). ((req.role == role_publisher) && (r.kind == kind_broadcast)) ≡ true)
            same streams)
        (λ other refused. cc)

  entered-Refused :
      (h : Hub) (req : JoinRequest) (fresh : String) (e : GoError) (u : Unit {0})
      → 0 < h.max_participants
      → Opens h req
      → (join_checked b req (on_opened h req fresh) (ok u)).1 ≡ err e
      → Refused h req fresh e (join_checked b req (on_opened h req fresh) (ok u)).0
  unfolding join_checked open_room
  entered-Refused h req fresh e u room opens refused =
      let opened = open_room h req (requested_kind req) fresh in
      let same : opened.room h.next_room ≡ opened_room h req fresh =
        rw (eqb_refl h.next_room) refl in
      let out = registered-err opened h.next_room true _ e refused in
      let why =
        register-new_room fresh (requested_kind req) req.chat_id req.user_id req.e2ee h.mesh_limit
          h.max_participants h.now req.user_id req.device_id req.role req.sender h.now e room
          (subst (λ r. (register r req.user_id req.device_id req.role req.sender h.now).1 ≡ err e)
            same out.1) in
      left_empty opens why.0 why.1 why.2
        (subst (IsLeftEmpty h req fresh) (sym out.0) (open_room-IsLeftEmpty h req fresh))

  opened-Refused :
      (h : Hub) (req : JoinRequest) (fresh : String) (e : GoError) (check : Result (Unit {0}))
      → 0 < h.max_participants
      → Opens h req
      → stream_check b (on_opened h req fresh).hub h.next_room req ≡ check
      → (join_checked b req (on_opened h req fresh) check).1 ≡ err e
      → Refused h req fresh e (join_checked b req (on_opened h req fresh) check).0
  unfolding join_checked
  opened-Refused h req fresh e (ok u) room opens answer refused =
      entered-Refused h req fresh e u room opens refused
  opened-Refused h req fresh e (err e') room opens answer refused =
      thrown_away opens (checked_stream h req fresh e' answer)
        (discard_room-IsThrownAway h req fresh)

  resolved-Refused :
      (h : Hub) (req : JoinRequest) (fresh : String) (e : GoError) (s : Result Resolved)
      → 0 < h.max_participants
      → Answers h req fresh s
      → (join_resolved b h req s).1 ≡ err e
      → Refused h req fresh e (join_resolved b h req s).0
  unfolding join_resolved
  resolved-Refused h req fresh e s room (failed e' answer) refused = rw answer (as_before refl)
  resolved-Refused h req fresh e s room (found p answer) refused =
      subst
        (λ s'.
          (join_resolved b h req s').1 ≡ err e → Refused h req fresh e (join_resolved b h req s').0)
        (sym answer) (found-Refused h req fresh p _ e) refused
  resolved-Refused h req fresh e s room (fresh_room opens answer) refused =
      subst
        (λ s'.
          (join_resolved b h req s').1 ≡ err e → Refused h req fresh e (join_resolved b h req s').0)
        (sym answer) (opened-Refused h req fresh e _ room opens refl) refused

  -- `Hub.Join` where it refuses and rooms have a slot at all. Either the hub is as it was. Or the join
  -- has opened a room, as the chat had none: then of a publisher of a stream nothing stays but a closed
  -- room that no map points to, and a stream that is asked for with an unknown role stays behind empty,
  -- as the live call of the chat. In each case nobody is told.
  pub join-Refused :
      (h : Hub) (req : JoinRequest) (fresh : String) (e : GoError)
      → 0 < h.max_participants
      → (join b h req fresh).1 ≡ err e
      → Refused h req fresh e (join b h req fresh).0
  unfolding join
  join-Refused h req fresh e room =
      if_both {A = Hub × Result JoinResult} (λ out. out.1 ≡ err e → Refused h req fresh e out.0)
        (req.user_id == "" || req.chat_id == "") (λ blank refused. as_before refl)
        (λ given.
          if_both {A = Hub × Result JoinResult} (λ out. out.1 ≡ err e → Refused h req fresh e out.0)
            (not (kind_valid (requested_kind req))) (λ unknown refused. as_before refl)
            (λ valid. resolved-Refused h req fresh e _ room (resolve_room-Answers b h req fresh)))
