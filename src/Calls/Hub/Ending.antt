-- ===== src/Calls/Hub/Ending.antt =====
-- internal/calls/hub.go: what `Hub.End` does, to the room, its peers, the store and the clients.
use combox_backend.Prelude.{
  ℕ, String, Bool, true, false, ◌||◌, eqb, eqb_iff, eqb_refl, if◌then◌else◌, if_both, some, List,
  [], ◌∷◌, ◌++◌, any, ◌≡◌, refl, sym, ap, ◌∙◌, arith, Bool-cases, inl, inr,
}
use mathlib.Core.List.{append_assoc, append-nil}
use combox_backend.Prelude.Dict.{Dict, values}
use combox_backend.Calls.Types.{Participant, CallRecord}
use combox_backend.Calls.Room.{Room, ForwardedTrack, to_record, end_section}
use combox_backend.Calls.Routes.{remove_route, remove_all_routes}
use combox_backend.Calls.Hub.{
  Backend, Hub, Peer, Effect, close_participant, end_call, call_ended, put_room, send_all,
  remove_legs, close_peer, close_peers, persist_close, persist_closes, unregister, forget,
  ended_frame, end_rest, end,
}

-- Two states of one room that agree on all but its maps.
pub record SameCall (r r' : Room) : Type 0 where
  pub record_of : to_record r' ≡ to_record r
  pub closed : r'.closed ≡ r.closed
  pub participants : r'.participants ≡ r.participants

pub SameCall-refl : (r : Room) → SameCall r r
SameCall-refl r = record { record_of = refl; closed = refl; participants = refl }

remove_legs-SameCall : (r : Room) (m : Dict ForwardedTrack) → SameCall r (remove_legs r m)
unfolding remove_legs remove_route
remove_legs-SameCall r [] = SameCall-refl r
remove_legs-SameCall r ((key, ft) ∷ m) =
    let rest = remove_legs-SameCall (remove_route r ft.key ft) m in
    record { record_of = rest.record_of; closed = rest.closed; participants = rest.participants }

pub close_peer-SameCall : (h : Hub) (q p : ℕ) → SameCall (h.room p) ((close_peer h q).room p)
unfolding close_peer
close_peer-SameCall h q p =
    if_both {A = Hub} (λ x. SameCall (h.room p) (x.room p)) (h.peer q).closed
      (λ gone. SameCall-refl (h.room p))
      (λ live. elim (Bool-cases (eqb p (h.peer q).room)) [
        | inl hit ↦
            rw (hit, (eqb_iff p _).0 hit)
              (remove_legs-SameCall (h.room (h.peer q).room) (h.peer q).forwarded)
        | inr miss ↦ rw miss (SameCall-refl (h.room p))
      ])

close_peers-SameCall :
    (h : Hub) (qs : List ℕ) (p : ℕ) → SameCall (h.room p) ((close_peers h qs).room p)
unfolding close_peers
close_peers-SameCall h [] p = SameCall-refl (h.room p)
close_peers-SameCall h (q ∷ qs) p =
    let one = close_peer-SameCall h q p in
    let rest = close_peers-SameCall (close_peer h q) qs p in
    record {
      record_of = rest.record_of ∙ one.record_of;
      closed = rest.closed ∙ one.closed;
      participants = rest.participants ∙ one.participants;
    }

close_peer-log : (h : Hub) (q : ℕ) → (close_peer h q).log ≡ h.log
unfolding close_peer
close_peer-log h q = ground arith

close_peers-log : (h : Hub) (qs : List ℕ) → (close_peers h qs).log ≡ h.log
unfolding close_peers
close_peers-log h [] = refl
close_peers-log h (q ∷ qs) = close_peers-log (close_peer h q) qs ∙ close_peer-log h q

close_peer-now : (h : Hub) (q : ℕ) → (close_peer h q).now ≡ h.now
unfolding close_peer
close_peer-now h q = ground arith

close_peers-now : (h : Hub) (qs : List ℕ) → (close_peers h qs).now ≡ h.now
unfolding close_peers
close_peers-now h [] = refl
close_peers-now h (q ∷ qs) = close_peers-now (close_peer h q) qs ∙ close_peer-now h q

pub close_peer-closed :
    (h : Hub) (q p : ℕ) → ((close_peer h q).peer p).closed ≡ (eqb p q || (h.peer p).closed)
unfolding close_peer
close_peer-closed h q p = elim (Bool-cases (eqb p q)) [
  | inl hit ↦
      if_both {A = Hub} (λ x. (x.peer p).closed ≡ (eqb p q || (h.peer p).closed)) (h.peer q).closed
        (λ gone. rw hit (ap (λ (n : ℕ). (h.peer n).closed) ((eqb_iff p q).0 hit) ∙ gone))
        (λ live. rw hit)
  | inr miss ↦
      if_both {A = Hub} (λ x. (x.peer p).closed ≡ (eqb p q || (h.peer p).closed)) (h.peer q).closed
        (λ gone. rw miss) (λ live. rw miss)
]

-- Closing a list of peers closes those and no other.
pub close_peers-closed :
    (h : Hub) (qs : List ℕ) (p : ℕ)
    → ((close_peers h qs).peer p).closed ≡ (any (eqb p) qs || (h.peer p).closed)
unfolding close_peers any
close_peers-closed h [] p = refl
close_peers-closed h (q ∷ qs) p =
    ground (arith, close_peers-closed (close_peer h q) qs p, close_peer-closed h q p)

-- One row of the store for each participant who is closed out.
abbrev pub closed_rows : String → ℕ → String → List Participant → List Effect
closed_rows id now reason [] = []
closed_rows id now reason (x ∷ xs) =
    close_participant id x.user_id now reason ∷ closed_rows id now reason xs

-- What the store and the notifier hear of the end of a call.
abbrev pub final_calls : Bool → CallRecord → ℕ → String → List Effect
final_calls notifies c now reason =
    if notifies
    then end_call c.id now reason ∷ call_ended c reason ∷ []
    else end_call c.id now reason ∷ []

module _ (b : Backend) where
  persist_closes-log :
      (h : Hub) (p : ℕ) (xs : List Participant) (reason : String)
      → (persist_closes b h p xs reason).log ≡ h.log ++ closed_rows (h.room p).id h.now reason xs
  unfolding persist_closes persist_close closed_rows
  persist_closes-log h p [] reason = sym (append-nil h.log)
  persist_closes-log h p (x ∷ xs) reason =
      persist_closes-log (persist_close h p x.user_id reason) p xs reason
      ∙ append_assoc h.log (close_participant (h.room p).id x.user_id h.now reason ∷ []) _

  persist_closes-room :
      (h : Hub) (p q : ℕ) (xs : List Participant) (reason : String)
      → (persist_closes b h p xs reason).room q ≡ h.room q
  unfolding persist_closes persist_close
  persist_closes-room h p q [] reason = refl
  persist_closes-room h p q (x ∷ xs) reason =
      persist_closes-room (persist_close h p x.user_id reason) p q xs reason

  persist_closes-now :
      (h : Hub) (p : ℕ) (xs : List Participant) (reason : String)
      → (persist_closes b h p xs reason).now ≡ h.now
  unfolding persist_closes persist_close
  persist_closes-now h p [] reason = refl
  persist_closes-now h p (x ∷ xs) reason =
      persist_closes-now (persist_close h p x.user_id reason) p xs reason

  persist_closes-peer :
      (h : Hub) (p q : ℕ) (xs : List Participant) (reason : String)
      → (persist_closes b h p xs reason).peer q ≡ h.peer q
  unfolding persist_closes persist_close
  persist_closes-peer h p q [] reason = refl
  persist_closes-peer h p q (x ∷ xs) reason =
      persist_closes-peer (persist_close h p x.user_id reason) p q xs reason

  -- Ending a live call closes exactly the peers that the room held, beside those closed before.
  pub end-closed :
      (h : Hub) (p : ℕ) (reason : String) (q : ℕ)
      → (h.room p).closed ≡ false
      → ((end b h p reason).peer q).closed
        ≡ (any (eqb q) (values (h.room p).peers) || (h.peer q).closed)
  unfolding end end_section end_rest forget unregister
  end-closed h p reason q live = rw live (
      ap (λ (x : Peer). x.closed)
        (persist_closes-peer _ p q (values (h.room p).participants) reason)
      ∙ close_peers-closed _ (values (h.room p).peers) q)

  -- A call that has ended is not ended again: the second end tells nobody anything.
  end_ended :
      (h : Hub) (p : ℕ) (reason : String)
      → (h.room p).closed ≡ true
      → (end b h p reason).log ≡ h.log
  unfolding end end_section end_rest
  end_ended h p reason over = rw over

  -- The room as the critical section leaves it.
  emptied : Hub → ℕ → Hub
  emptied h p = put_room h p (record (h.room p) { closed = true; peers = []; participants = [] })

  end_live :
      (h : Hub) (p : ℕ) (reason : String)
      → (h.room p).closed ≡ false
      → end b h p reason
        ≡ end_rest b
            (emptied h p)
            p
            reason
            (some (values (h.room p).peers, values (h.room p).participants))
  unfolding end end_section emptied
  end_live h p reason live = simp live

  end_rest-room :
      (h : Hub) (p : ℕ) (reason : String) (qs : List ℕ) (xs : List Participant)
      → (end_rest b h p reason (some (qs, xs))).room p
        ≡ remove_all_routes ((close_peers h qs).room p)
  unfolding end_rest forget unregister
  end_rest-room h p reason qs xs = persist_closes-room _ p p xs reason ∙ simp (eqb_refl p)

  -- An ended room is closed, and empty of participants and routes.
  pub end-room :
      (h : Hub) (p : ℕ) (reason : String)
      → (h.room p).closed ≡ false
      → let r = (end b h p reason).room p in
        (r.closed ≡ true) × (r.participants ≡ []) × (r.routes ≡ [])
  end-room h p reason live =
      let same = close_peers-SameCall (emptied h p) (values (h.room p).peers) p in
      let at_end =
        ap (λ (x : Hub). x.room p) (end_live h p reason live)
        ∙ end_rest-room (emptied h p) p reason (values (h.room p).peers)
            (values (h.room p).participants) in
      unfold emptied remove_all_routes in
      (
        ap (λ (r : Room). r.closed) at_end ∙ same.closed ∙ simp (eqb_refl p),
        ap (λ (r : Room). r.participants) at_end ∙ same.participants ∙ simp (eqb_refl p),
        ap (λ (r : Room). r.routes) at_end,
      )

  -- The room after the peers and the routes are gone is the same call.
  end_rest-record :
      (h : Hub) (p : ℕ) (qs : List ℕ)
      → let r = (close_peers h qs).room p in
        to_record ((put_room (close_peers h qs) p (remove_all_routes r)).room p)
        ≡ to_record (h.room p)
  unfolding remove_all_routes
  end_rest-record h p qs = simp (eqb_refl p) (close_peers-SameCall h qs p).record_of

  end_rest-log :
      (h : Hub) (p : ℕ) (reason : String) (qs : List ℕ) (xs : List Participant)
      → (end_rest b h p reason (some (qs, xs))).log
        ≡ ((h.log ++ closed_rows (h.room p).id h.now reason xs)
            ++ final_calls b.has_notifier (to_record (h.room p)) h.now reason)
          ++ send_all xs (ended_frame b (h.room p) reason)
  unfolding end_rest forget unregister
  end_rest-log h p reason qs xs =
      let h1 = put_room (close_peers h qs) p (remove_all_routes ((close_peers h qs).room p)) in
      let c = end_rest-record h p qs in
      let n = close_peers-now h qs in
      let c' = ap (λ (r : Room). to_record r) (persist_closes-room h1 p p xs reason) ∙ c in
      let n' = persist_closes-now h1 p xs reason ∙ n in
      let rows : (persist_closes b h1 p xs reason).log
          ≡ h.log ++ closed_rows (h.room p).id h.now reason xs =
        persist_closes-log h1 p xs reason
        ∙ (λ i. close_peers-log h qs i ++ closed_rows (c i).id (n i) reason xs) in
      λ i.
        (rows i ++ final_calls b.has_notifier (c' i) (n' i) reason)
        ++ send_all xs (ended_frame b (h.room p) reason)

  -- Ending a live call tells, in this order, the store of each participant who is closed out, the
  -- store and the notifier of the end of the call, and every participant who was in the room.
  pub end-log :
      (h : Hub) (p : ℕ) (reason : String)
      → (h.room p).closed ≡ false
      → let xs = values (h.room p).participants in
        (end b h p reason).log
        ≡ ((h.log ++ closed_rows (h.room p).id h.now reason xs)
            ++ final_calls b.has_notifier (to_record (h.room p)) h.now reason)
          ++ send_all xs (ended_frame b (h.room p) reason)
  unfolding emptied ended_frame
  end-log h p reason live =
      ap (λ (x : Hub). x.log) (end_live h p reason live)
      ∙ end_rest-log (emptied h p) p reason (values (h.room p).peers)
          (values (h.room p).participants)
      ∙ simp (eqb_refl p)
