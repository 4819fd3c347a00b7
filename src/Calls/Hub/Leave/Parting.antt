-- ===== src/Calls/Hub/Leave/Parting.antt =====
-- internal/calls/hub.go: the room after the whole of `Hub.Leave`.
use combox_backend.Prelude.{
  ℕ, String, Bool, false, not, ◌&&◌, ◌||◌, ◌==◌, eqb, eqb_refl, if◌then◌else◌, Option, none, some,
  [], ◌∷◌, length, ◌≡◌, refl, sym, subst, ap, ◌∙◌, Bool-cases, inl, inr, arith,
}
use combox_backend.Prelude.Dict.{Dict, lookup}
use combox_backend.Calls.Types.{kind_broadcast, Participant}
use combox_backend.Calls.Room.{Room, Left, leave_section}
use combox_backend.Calls.Room.Invariant.{IsSound}
use combox_backend.Calls.Room.Leaving.{HasLeft, leave_section-HasLeft}
use combox_backend.Calls.Routes.{drop_peer_caches, remove_routes_for}
use combox_backend.Calls.Hub.{Backend, Hub, put_room, broadcast, persist_close, unregister, forget}
use combox_backend.Calls.Hub.Ending.{close_peer-SameCall, end-room}
use combox_backend.Calls.Hub.Leave.{
  close_left, clear_left, drop_caches, left_frame, leave_rest, leave,
}

-- A leave is the end of a call if nobody stays, or one participant of a call that is no stream.
abbrev pub is_last : Room → Bool
is_last r =
    eqb (length r.participants) 1
    || (eqb (length r.participants) 2 && not (r.kind == kind_broadcast))

-- A room before and after a user has left it.
pub record HasParted (r : Room) (user_id : String) (r' : Room) : Type 0 where
  pub over : r'.closed ≡ is_last r
  pub slots :
      (k : String)
      → lookup k r'.participants
        ≡ (if is_last r || user_id == k then none else lookup k r.participants)

-- The participants and whether the room is closed are those of another room.
record IsAsFull (r r' : Room) : Type 0 where
  participants : r'.participants ≡ r.participants
  closed : r'.closed ≡ r.closed

lookup_nobody : (m : Dict Participant) (k : String) → length m ≡ 0 → lookup k m ≡ none
unfolding lookup
lookup_nobody [] k h = refl
lookup_nobody ((j, x) ∷ m) k h = ground arith

-- What the critical section has done, and then the rest, is the whole leave.
left-HasParted :
    (r r' out : Room) (user_id : String) (l : Left)
    → HasLeft r r' user_id l
    → out.participants ≡ (if not l.empty && l.lonely then [] else r'.participants)
    → out.closed ≡ (l.empty || l.lonely)
    → HasParted r user_id out
unfolding lookup
left-HasParted r r' out user_id l left people closed =
    let last : is_last r ≡ (l.empty || l.lonely) =
      ground (arith, left.one_less, left.closes, left.empty, left.lonely) in
    record {
      over = closed ∙ sym last;
      slots = λ k.
          rw (last, people)
            (elim (Bool-cases l.empty) [
              | inl empty ↦
                  rw empty
                    (lookup_nobody r'.participants k (ground (arith, left.closes, left.empty)))
              | inr held ↦ elim (Bool-cases l.lonely) [
                | inl lonely ↦ rw (held, lonely) refl
                | inr more ↦ rw (held, more) (left.slots k)
              ]
            ]);
    }

module _ (b : Backend) where
  close_left-IsAsFull :
      (h : Hub) (own : Option ℕ) (p : ℕ) → IsAsFull (h.room p) ((close_left b h own).room p)
  unfolding close_left
  close_left-IsAsFull h none p = record { participants = refl; closed = refl }
  close_left-IsAsFull h (some q) p =
      let same = close_peer-SameCall h q p in
      record { participants = same.participants; closed = same.closed }

  clear_left-IsAsFull :
      (h : Hub) (p : ℕ) (user_id reason : String) (l : Left)
      → IsAsFull (h.room p) ((clear_left b h p user_id reason l).room p)
  unfolding clear_left persist_close remove_routes_for
  clear_left-IsAsFull h p user_id reason l =
      let same = close_left-IsAsFull h l.peer p in
      record {
        participants = simp (eqb_refl p) same.participants;
        closed = simp (eqb_refl p) same.closed;
      }

  drop_caches-IsAsFull : (h : Hub) (p : ℕ) → IsAsFull (h.room p) ((drop_caches b h p).room p)
  unfolding drop_caches drop_peer_caches
  drop_caches-IsAsFull h p = record { participants = simp (eqb_refl p); closed = simp (eqb_refl p) }

  -- The room after what follows the critical section.
  leave_rest-room :
      (h : Hub) (p : ℕ) (user_id reason : String) (l : Left)
      → (h.room p).closed ≡ l.empty
      → let r = (leave_rest b h p user_id reason (some l)).room p in
        (r.participants ≡ (if not l.empty && l.lonely then [] else (h.room p).participants))
        × (r.closed ≡ (l.empty || l.lonely))
  unfolding leave_rest forget unregister broadcast
  leave_rest-room h p user_id reason l over =
      let cleared = clear_left b h p user_id reason l in
      let told = broadcast cleared p (left_frame b (h.room p) user_id reason) "" in
      let same = clear_left-IsAsFull h p user_id reason l in
      let dropped = drop_caches-IsAsFull cleared p in
      let dropped' = drop_caches-IsAsFull told p in
      elim (Bool-cases l.empty) [
        | inl empty ↦
            rw empty (
              dropped.participants ∙ same.participants,
              dropped.closed ∙ same.closed ∙ over ∙ empty,
            )
        | inr held ↦
            let live : ((drop_caches b told p).room p).closed ≡ false =
              dropped'.closed ∙ same.closed ∙ over ∙ held in
            let ended = end-room b (drop_caches b told p) p reason live in
            elim (Bool-cases l.lonely) [
              | inl lonely ↦ rw (held, lonely) (ended.1, ended.0)
              | inr more ↦ rw (held, more) (same.participants, same.closed ∙ over ∙ held)
            ]
      ]

  -- `Hub.Leave`, where its critical section takes a participant out of a sound room. If nobody stays,
  -- or one participant of a call that is no stream, the call is over: the room is closed and nobody is
  -- in it. Else the room is open, without that participant and with every other one as before.
  pub leave-HasParted :
      (h : Hub) (p : ℕ) (user_id : String) (sender : Option ℕ) (reason : String) (l : Left)
      → IsSound (h.room p)
      → (leave_section (h.room p) user_id sender).1 ≡ some l
      → HasParted (h.room p) user_id ((leave b h p user_id sender reason).room p)
  unfolding leave
  leave-HasParted h p user_id sender reason l sound taken =
      let r = h.room p in
      let r' = (leave_section r user_id sender).0 in
      let left = leave_section-HasLeft r user_id sender l sound taken in
      let h' = put_room h p r' in
      let here : h'.room p ≡ r' = rw (eqb_refl p) refl in
      let rest =
        leave_rest-room h' p user_id reason l (ap (λ (x : Room). x.closed) here ∙ sym left.empty) in
      let rest' =
        subst
          (λ (x : Room).
            let out = (leave_rest b h' p user_id reason (some l)).room p in
            out.participants ≡ (if not l.empty && l.lonely then [] else x.participants))
          here rest.0 in
      subst (λ o. HasParted r user_id ((leave_rest b h' p user_id reason o).room p)) (sym taken)
        (left-HasParted r r' _ user_id l left rest' rest.1)
