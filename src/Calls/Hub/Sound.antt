-- ===== src/Calls/Hub/Sound.antt =====
-- internal/calls/hub.go: every operation of the hub keeps every room sound.
use combox_backend.Prelude.{ℕ, String, false, eqb, if_both, Option, none, some, List, [], ◌∷◌}
use combox_backend.Prelude.Dict.{Dict}
use combox_backend.Calls.Types.{Participant}
use combox_backend.Calls.Protocol.{Envelope}
use combox_backend.Calls.Room.{Room, ForwardedTrack, end_section, discard_section}
use combox_backend.Calls.Room.Invariant.{
  IsSound, maps-IsSound, new_room-IsSound, end_section-IsSound, discard_section-IsSound,
}
use combox_backend.Calls.Routes.{remove_route, remove_all_routes}
use combox_backend.Calls.Hub.{
  Backend, Hub, Effect, new_hub, put_room, emit, broadcast, remove_legs, close_peer, close_peers,
  persist_participant, persist_close, persist_closes, unregister, forget, end_rest, end,
  discard_room,
}

-- Every room that was ever made is sound, also those that are off the registry.
pub record IsSoundHub (h : Hub) : Type 0 where
  pub rooms : (p : ℕ) → IsSound (h.room p)

pub new_hub-IsSoundHub :
    (mesh_limit max_participants now : ℕ) → IsSoundHub (new_hub mesh_limit max_participants now)
unfolding new_hub
new_hub-IsSoundHub mesh_limit max_participants now = record {
  rooms = λ p. new_room-IsSound "" "" "" "" false 0 0 0;
}

pub put_room-IsSoundHub :
    (h : Hub) (p : ℕ) (r : Room) → IsSoundHub h → IsSound r → IsSoundHub (put_room h p r)
put_room-IsSoundHub h p r s t = record {
  rooms = λ q. if_both IsSound (eqb q p) (λ hit. t) (λ miss. s.rooms q);
}

remove_legs-IsSound : (r : Room) (m : Dict ForwardedTrack) → IsSound r → IsSound (remove_legs r m)
unfolding remove_legs remove_route
remove_legs-IsSound r [] s = s
remove_legs-IsSound r ((key, ft) ∷ m) s =
    remove_legs-IsSound (remove_route r ft.key ft) m (maps-IsSound r r.peers _ r.track_sources s)

pub close_peer-IsSoundHub : (h : Hub) (q : ℕ) → IsSoundHub h → IsSoundHub (close_peer h q)
unfolding close_peer
close_peer-IsSoundHub h q s =
    if_both IsSoundHub (h.peer q).closed (λ gone. s)
      (λ live. record {
        rooms =
            (put_room-IsSoundHub h (h.peer q).room _ s
              (remove_legs-IsSound _ (h.peer q).forwarded (s.rooms _))).rooms;
      })

close_peers-IsSoundHub : (h : Hub) (qs : List ℕ) → IsSoundHub h → IsSoundHub (close_peers h qs)
unfolding close_peers
close_peers-IsSoundHub h [] s = s
close_peers-IsSoundHub h (q ∷ qs) s =
    close_peers-IsSoundHub (close_peer h q) qs (close_peer-IsSoundHub h q s)

pub unregister-IsSoundHub : (h : Hub) (p : ℕ) → IsSoundHub h → IsSoundHub (unregister h p)
unfolding unregister
unregister-IsSoundHub h p s = record { rooms = s.rooms }

pub emit-IsSoundHub : (h : Hub) (es : List Effect) → IsSoundHub h → IsSoundHub (emit h es)
emit-IsSoundHub h es s = record { rooms = s.rooms }

pub broadcast-IsSoundHub :
    (h : Hub) (p : ℕ) (env : Envelope) (exclude : String)
    → IsSoundHub h
    → IsSoundHub (broadcast h p env exclude)
unfolding broadcast
broadcast-IsSoundHub h p env exclude s = record { rooms = s.rooms }

pub persist_close-IsSoundHub :
    (h : Hub) (p : ℕ) (user_id reason : String)
    → IsSoundHub h
    → IsSoundHub (persist_close h p user_id reason)
unfolding persist_close
persist_close-IsSoundHub h p user_id reason s = record { rooms = s.rooms }

pub persist_participant-IsSoundHub :
    (h : Hub) (p : ℕ) (part : Participant)
    → IsSoundHub h
    → IsSoundHub (persist_participant h p part)
unfolding persist_participant
persist_participant-IsSoundHub h p part s = record { rooms = s.rooms }

pub discard_room-IsSoundHub : (h : Hub) (p : ℕ) → IsSoundHub h → IsSoundHub (discard_room h p)
unfolding discard_room
discard_room-IsSoundHub h p s =
    if_both IsSoundHub (discard_section (h.room p)).1
      (λ gone.
        unregister-IsSoundHub (put_room h p (discard_section (h.room p)).0) p
          (put_room-IsSoundHub h p _ s (discard_section-IsSound _ (s.rooms p))))
      (λ kept. s)

module _ (b : Backend) where
  pub forget-IsSoundHub :
      (h : Hub) (p : ℕ) (reason : String) → IsSoundHub h → IsSoundHub (forget b h p reason)
  unfolding forget unregister
  forget-IsSoundHub h p reason s = record { rooms = s.rooms }

  persist_closes-IsSoundHub :
      (h : Hub) (p : ℕ) (parts : List Participant) (reason : String)
      → IsSoundHub h
      → IsSoundHub (persist_closes b h p parts reason)
  unfolding persist_closes
  persist_closes-IsSoundHub h p [] reason s = s
  persist_closes-IsSoundHub h p (x ∷ xs) reason s =
      persist_closes-IsSoundHub (persist_close h p x.user_id reason) p xs reason
        (persist_close-IsSoundHub h p x.user_id reason s)

  end_rest-IsSoundHub :
      (h : Hub) (p : ℕ) (reason : String) (out : Option (List ℕ × List Participant))
      → IsSoundHub h
      → IsSoundHub (end_rest b h p reason out)
  unfolding end_rest remove_all_routes
  end_rest-IsSoundHub h p reason none s = s
  end_rest-IsSoundHub h p reason (some (peers, parts)) s = emit-IsSoundHub _ _ (
      forget-IsSoundHub _ p reason (
        persist_closes-IsSoundHub _ p parts reason (
          put_room-IsSoundHub _ p _ (close_peers-IsSoundHub h peers s) (
            maps-IsSound ((close_peers h peers).room p) _ [] _
              ((close_peers-IsSoundHub h peers s).rooms p)))))

  pub end-IsSoundHub :
      (h : Hub) (p : ℕ) (reason : String) → IsSoundHub h → IsSoundHub (end b h p reason)
  unfolding end
  end-IsSoundHub h p reason s =
      end_rest-IsSoundHub (put_room h p (end_section (h.room p)).0) p reason
        (end_section (h.room p)).1
        (put_room-IsSoundHub h p _ s (end_section-IsSound (h.room p) (s.rooms p)))

-- An operation that returns a hub and a result has kept every room sound.
pub record KeptSound {X : Type 0} (x : Hub × X) : Type 0 where
  pub hub : IsSoundHub x.0
