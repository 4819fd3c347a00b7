-- ===== src/Calls/Room/Leaving.antt =====
-- internal/calls/hub.go: who leaves a room, and what stays.
use combox_backend.Prelude.{
  ℕ, ◌+◌, String, false, not, ◌&&◌, ◌==◌, eq_refl, eqb, if◌then◌else◌, if_both, Option, none, some,
  length, ◌≡◌, refl, subst, arith, ◌∙◌,
}
use mathlib.Core.Option.{some-injective}
use combox_backend.Prelude.Dict.{lookup, lookup-erase, has-lookup-some, length-erase_present}
use combox_backend.Calls.Errors.{ok}
use combox_backend.Calls.Types.{kind_broadcast, Participant}
use combox_backend.Calls.Room.{
  Room, Joined, Left, register, remove, vacate, may_remove, leave_section,
}
use combox_backend.Calls.Room.Invariant.{IsSound}
use combox_backend.Calls.Room.Joining.{register-IsSeated}

vacate_other :
    (r : Room) (user_id : String) (p : Participant) (mine other : ℕ)
    → p.sender ≡ some mine
    → eqb mine other ≡ false
    → vacate r user_id (some other) (some p) ≡ (r, none)
unfolding vacate
vacate_other r user_id p mine other bound differ = rw bound (rw differ)

leave_other :
    (r : Room) (user_id : String) (p : Participant) (mine other : ℕ)
    → r.closed ≡ false
    → lookup user_id r.participants ≡ some p
    → p.sender ≡ some mine
    → eqb mine other ≡ false
    → leave_section r user_id (some other) ≡ (r, none)
unfolding leave_section
leave_other r user_id p mine other live held bound differ =
    simp (live, held, vacate_other r user_id p mine other bound differ)

-- A stale connection cannot take out a user who has joined again: after a join that a sound room
-- lets in, a leave by any other connection of that user changes nothing.
pub register-leave_stale :
    (r : Room) (user_id device_id role : String) (mine other now : ℕ) (j : Joined)
    → IsSound r
    → (register r user_id device_id role (some mine) now).1 ≡ ok j
    → eqb mine other ≡ false
    → let r' = (register r user_id device_id role (some mine) now).0 in
      leave_section r' user_id (some other) ≡ (r', none)
register-leave_stale r user_id device_id role mine other now j s h differ =
    let seated = register-IsSeated r user_id device_id role (some mine) now j s h in
    leave_other _ user_id j.participant mine other seated.live (seated.slots user_id ∙ simp eq_refl)
      seated.bound differ

-- What a leave that takes a participant out has done.
pub record HasLeft (r r' : Room) (user_id : String) (l : Left) : Type 0 where
  -- the slot of the user is free, and the other slots are as they were
  pub slots :
      (k : String)
      → lookup k r'.participants ≡ (if user_id == k then none else lookup k r.participants)
  pub one_less : length r'.participants + 1 ≡ length r.participants
  -- the room closes with its last participant
  pub closes : r'.closed ≡ eqb (length r'.participants) 0
  pub empty : l.empty ≡ r'.closed
  -- a call that is no stream is over when one participant is left
  pub lonely : l.lonely ≡ (eqb (length r'.participants) 1 && not (r.kind == kind_broadcast))

remove-HasLeft :
    (r : Room) (user_id : String) (p : Participant)
    → IsSound r
    → lookup user_id r.participants ≡ some p
    → HasLeft r (remove r user_id p).0 user_id (remove r user_id p).1
unfolding remove
remove-HasLeft r user_id p s held = record {
  slots = λ k. lookup-erase user_id k r.participants;
  one_less =
      length-erase_present user_id r.participants s.distinct
        (has-lookup-some user_id p r.participants held);
  closes = refl;
  empty = refl;
  lonely = ground arith;
}

vacate-HasLeft :
    (r : Room) (user_id : String) (sender : Option ℕ) (held : Option Participant) (l : Left)
    → IsSound r
    → lookup user_id r.participants ≡ held
    → (vacate r user_id sender held).1 ≡ some l
    → HasLeft r (vacate r user_id sender held).0 user_id l
unfolding vacate
vacate-HasLeft r user_id sender none l s e h = cc
vacate-HasLeft r user_id sender (some p) l s e h =
    if_both {A = Room × Option Left} (λ x. x.1 ≡ some l → HasLeft r x.0 user_id l)
      (may_remove p sender)
      (λ mine h'.
        subst (HasLeft r (remove r user_id p).0 user_id) (some-injective _ _ h')
          (remove-HasLeft r user_id p s e))
      (λ stale h'. cc) h

-- A leave that takes a participant out of a sound room frees that user's slot and no other, closes
-- the room exactly if nobody is left, and reports a call, not a stream, with one participant left.
pub leave_section-HasLeft :
    (r : Room) (user_id : String) (sender : Option ℕ) (l : Left)
    → IsSound r
    → (leave_section r user_id sender).1 ≡ some l
    → HasLeft r (leave_section r user_id sender).0 user_id l
unfolding leave_section
leave_section-HasLeft r user_id sender l s =
    if_both {A = Room × Option Left} (λ x. x.1 ≡ some l → HasLeft r x.0 user_id l) r.closed
      (λ over h. cc)
      (λ live. vacate-HasLeft r user_id sender (lookup user_id r.participants) l s refl)

vacate-peer :
    (r : Room) (user_id : String) (sender : Option ℕ) (held : Option Participant) (l : Left)
    → (vacate r user_id sender held).1 ≡ some l
    → l.peer ≡ lookup user_id r.peers
unfolding vacate remove
vacate-peer r user_id sender none l h = cc
vacate-peer r user_id sender (some p) l h = ground arith

-- The peer that a leave hands on to be closed is the one of the user who leaves.
pub leave_section-peer :
    (r : Room) (user_id : String) (sender : Option ℕ) (l : Left)
    → (leave_section r user_id sender).1 ≡ some l
    → l.peer ≡ lookup user_id r.peers
unfolding leave_section
leave_section-peer r user_id sender l =
    if_both {A = Room × Option Left} (λ x. x.1 ≡ some l → l.peer ≡ lookup user_id r.peers) r.closed
      (λ over h. cc) (λ live. vacate-peer r user_id sender (lookup user_id r.participants) l)
