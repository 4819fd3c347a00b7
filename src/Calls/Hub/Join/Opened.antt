-- ===== src/Calls/Hub/Join/Opened.antt =====
-- internal/calls/hub.go: the room that `Hub.Join` opens, as it stays and as `discardRoom` leaves it.
use combox_backend.Prelude.{
  ℕ, String, Bool, true, false, ◌==◌, eqb, eqb_refl, eq_refl, ltb, length, if◌then◌else◌, none,
  some, ◌≡◌, refl, sym, subst, ap, ◌∙◌, [], arith,
}
use combox_backend.Prelude.Dict.{lookup, insert, erase, lookup-insert, lookup-erase}
use combox_backend.Calls.Room.{Room, new_room, discard_section}
use combox_backend.Calls.Hub.{Hub, JoinRequest, put_room, update, unregister, discard_room}
use combox_backend.Calls.Hub.Join.{open_room, requested_kind, active_call}

-- The room that a join opens.
abbrev pub opened_room : Hub → JoinRequest → String → Room
opened_room h req fresh =
    new_room fresh (requested_kind req) req.chat_id req.user_id req.e2ee h.mesh_limit
      h.max_participants h.now

-- A join that opens a room: it names no call, and the chat has no live one.
abbrev pub Opens : Hub → JoinRequest → Type 0
Opens h req = ((req.call_id == "") ≡ true) × (active_call h req.chat_id ≡ none)

-- The new room was thrown away: it is closed and off the registry, and all else is as it was.
pub record IsThrownAway (h : Hub) (req : JoinRequest) (fresh : String) (after : Hub) : Type 0 where
  pub rooms : (k : String) → lookup k after.rooms ≡ (if fresh == k then none else lookup k h.rooms)
  pub by_chat :
      (c : String)
      → lookup c after.by_chat ≡ (if req.chat_id == c then none else lookup c h.by_chat)
  pub heap :
      (q : ℕ)
      → after.room q
        ≡ update h.room h.next_room (record (opened_room h req fresh) { closed = true }) q
  pub peers : after.peer ≡ h.peer
  pub silent : after.log ≡ h.log

-- The new room stays, without a participant, and is the live call of its chat.
pub record IsLeftEmpty (h : Hub) (req : JoinRequest) (fresh : String) (after : Hub) : Type 0 where
  pub rooms :
      (k : String)
      → lookup k after.rooms ≡ (if fresh == k then some h.next_room else lookup k h.rooms)
  pub by_chat :
      (c : String)
      → lookup c after.by_chat ≡ (if req.chat_id == c then some fresh else lookup c h.by_chat)
  pub heap : (q : ℕ) → after.room q ≡ update h.room h.next_room (opened_room h req fresh) q
  pub peers : after.peer ≡ h.peer
  pub silent : after.log ≡ h.log

-- A room that was just opened.
pub open_room-IsLeftEmpty :
    (h : Hub) (req : JoinRequest) (fresh : String)
    → IsLeftEmpty h req fresh (open_room h req (requested_kind req) fresh)
unfolding open_room new_room
open_room-IsLeftEmpty h req fresh = record {
  rooms = λ k. lookup-insert fresh k h.next_room h.rooms;
  by_chat = λ c. lookup-insert req.chat_id c fresh h.by_chat;
  heap = λ q. refl;
  peers = refl;
  silent = refl;
}

twice :
    {A : Type 0} (old mid new : A) (here : Bool)
    → (if here then new else if here then mid else old) ≡ (if here then new else old)
twice old mid new true = refl
twice old mid new false = refl

discard_section-empty :
    (r : Room)
    → r.closed ≡ false
    → r.participants ≡ []
    → discard_section r ≡ (record r { closed = true }, true)
unfolding discard_section
discard_section-empty r live empty =
    let few : ltb 0 (length r.participants) ≡ false = rw empty refl in rw (live, few) refl

unregister-here :
    (h : Hub) (p : ℕ)
    → lookup (h.room p).chat_id h.by_chat ≡ some (h.room p).id
    → unregister h p ≡ record h {
      by_chat = erase (h.room p).chat_id h.by_chat;
      rooms = erase (h.room p).id h.rooms;
    }
unfolding unregister
unregister-here h p listed = rw (listed, eq_refl (h.room p).id) refl

unregister-listed :
    (h : Hub) (p : ℕ) (r : Room)
    → h.room p ≡ r
    → lookup r.chat_id h.by_chat ≡ some r.id
    → unregister h p ≡ record h { by_chat = erase r.chat_id h.by_chat; rooms = erase r.id h.rooms }
unregister-listed h p r here =
    subst
      (λ (x : Room).
        lookup x.chat_id h.by_chat ≡ some x.id
        → unregister h p
          ≡ record h { by_chat = erase x.chat_id h.by_chat; rooms = erase x.id h.rooms })
      here (unregister-here h p)

discard_room-here :
    (h : Hub) (p : ℕ)
    → (h.room p).closed ≡ false
    → (h.room p).participants ≡ []
    → discard_room h p ≡ unregister (put_room h p (record (h.room p) { closed = true })) p
unfolding discard_room
discard_room-here h p live empty =
    ap (λ (out : Room × Bool). if out.1 then unregister (put_room h p out.0) p else h)
      (discard_section-empty (h.room p) live empty)

-- An empty room that its chat points to is thrown away.
discard_room-listed :
    (h : Hub) (p : ℕ) (r : Room)
    → h.room p ≡ r
    → r.closed ≡ false
    → r.participants ≡ []
    → lookup r.chat_id h.by_chat ≡ some r.id
    → discard_room h p ≡ record h {
      room = update h.room p (record r { closed = true });
      by_chat = erase r.chat_id h.by_chat;
      rooms = erase r.id h.rooms;
    }
discard_room-listed h p r here live empty listed =
    let gone : Room = record r { closed = true } in
    let held : update h.room p gone p ≡ gone = rw (eqb_refl p) refl in
    subst
      (λ (x : Room).
        x.closed ≡ false
        → x.participants ≡ []
        → discard_room h p ≡ unregister (put_room h p (record x { closed = true })) p)
      here (discard_room-here h p) live empty
    ∙ unregister-listed (put_room h p gone) p gone held listed

-- A new room that was opened and then thrown away.
abbrev without_opened : Hub → JoinRequest → String → Hub
without_opened h req fresh =
    let opened = open_room h req (requested_kind req) fresh in
    record opened {
      room = update opened.room h.next_room (record (opened_room h req fresh) { closed = true });
      by_chat = erase req.chat_id opened.by_chat;
      rooms = erase fresh opened.rooms;
    }

discard_room-opened :
    (h : Hub) (req : JoinRequest) (fresh : String)
    → discard_room (open_room h req (requested_kind req) fresh) h.next_room
      ≡ without_opened h req fresh
unfolding open_room new_room
discard_room-opened h req fresh =
    discard_room-listed (open_room h req (requested_kind req) fresh) h.next_room
      (opened_room h req fresh) (rw (eqb_refl h.next_room) refl) refl refl
      (ground (arith, lookup-insert req.chat_id req.chat_id fresh h.by_chat, eq_refl req.chat_id))

pub discard_room-IsThrownAway :
    (h : Hub) (req : JoinRequest) (fresh : String)
    → IsThrownAway h req fresh
        (discard_room (open_room h req (requested_kind req) fresh) h.next_room)
unfolding open_room
discard_room-IsThrownAway h req fresh =
    subst (IsThrownAway h req fresh) (sym (discard_room-opened h req fresh)) (record {
      rooms = λ k. ground (
        arith,
        lookup-erase fresh k (insert fresh h.next_room h.rooms),
        lookup-insert fresh k h.next_room h.rooms,
      );
      by_chat = λ c. ground (
        arith,
        lookup-erase req.chat_id c (insert req.chat_id fresh h.by_chat),
        lookup-insert req.chat_id c fresh h.by_chat,
      );
      heap = λ q. twice (h.room q) _ _ (eqb q h.next_room);
      peers = refl;
      silent = refl;
    })
