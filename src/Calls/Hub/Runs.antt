-- ===== src/Calls/Hub/Runs.antt =====
-- internal/calls/hub.go: the critical sections of concurrent calls, in any order. The source holds
-- one lock for each of them and none between them, so a run of the hub is a sequence of sections
-- of any number of operations; each constructor below is one such section, at any room.
use combox_backend.Prelude.{ℕ, String, Option, List, if_both, any}
use combox_backend.Prelude.Dict.{Dict}
use combox_backend.Calls.Types.{MediaState}
use combox_backend.Calls.Room.{
  Room, OutRoute, ForwardedTrack, register, leave_section, end_section, discard_section,
  media_section, tracks_section,
}
use combox_backend.Calls.Room.Invariant.{
  IsSound, maps-IsSound, register-IsSound, leave_section-IsSound, end_section-IsSound,
  discard_section-IsSound, media_section-IsSound, tracks_section-IsSound,
}
use combox_backend.Calls.Routes.{
  is_leg, routes_at, add_route, remove_route, remove_routes_for, remove_all_routes,
  drop_peer_caches,
}
use combox_backend.Calls.Hub.{
  Hub, new_hub, Effect, JoinRequest, put_room, emit, unregister, close_peer,
}
use combox_backend.Calls.Hub.Sound.{
  IsSoundHub, new_hub-IsSoundHub, put_room-IsSoundHub, unregister-IsSoundHub, emit-IsSoundHub,
  close_peer-IsSoundHub,
}
use combox_backend.Calls.Hub.Join.{open_room}
use combox_backend.Calls.Hub.Join.Sound.{open_room-IsSoundHub}
use combox_backend.Calls.Hub.Signals.{attach_peer}
use combox_backend.Calls.Hub.Signals.Sound.{attach_peer-IsSoundHub}

pub data Section (h : Hub) : Hub → Type 0 where
  -- `resolveRoom`, where it makes a room
  opens : (req : JoinRequest) (kind fresh : String) → Section h (open_room h req kind fresh)
  -- `Join`
  registers :
      (p : ℕ) (user_id device_id role : String) (sender : Option ℕ)
      → Section h (put_room h p (register (h.room p) user_id device_id role sender h.now).0)
  -- `Leave`
  leaves :
      (p : ℕ) (user_id : String) (sender : Option ℕ)
      → Section h (put_room h p (leave_section (h.room p) user_id sender).0)
  -- `End`
  ends : (p : ℕ) → Section h (put_room h p (end_section (h.room p)).0)
  -- `discardRoom`, the room's lock
  discards : (p : ℕ) → Section h (put_room h p (discard_section (h.room p)).0)
  -- `forget` and `discardRoom`, the hub's lock
  unregisters : (p : ℕ) → Section h (unregister h p)
  -- `UpdateMedia`
  changes_media :
      (p : ℕ) (user_id : String) (media : MediaState)
      → Section h (put_room h p (media_section (h.room p) user_id media).0)
  -- `SetTrackSources`
  sets_tracks :
      (p : ℕ) (user_id : String) (sources : Dict String)
      → Section h (put_room h p (tracks_section (h.room p) user_id sources).0)
  -- `ensurePeer`, where it keeps a new peer
  attaches : (p : ℕ) (user_id : String) → Section h (attach_peer h p user_id)
  -- `sfuPeer.close`
  closes_peer : (q : ℕ) → Section h (close_peer h q)
  -- the routing table
  adds_route : (p : ℕ) (route : OutRoute) → Section h (put_room h p (add_route (h.room p) route))
  removes_route :
      (p : ℕ) (key : String) (ft : ForwardedTrack)
      → Section h (put_room h p (remove_route (h.room p) key ft))
  removes_routes_for :
      (p : ℕ) (user_id : String) → Section h (put_room h p (remove_routes_for (h.room p) user_id))
  removes_all_routes : (p : ℕ) → Section h (put_room h p (remove_all_routes (h.room p)))
  drops_caches : (p : ℕ) → Section h (put_room h p (drop_peer_caches (h.room p)))
  -- frames, the store and the notifier, which hold no lock; the clock
  emits : (es : List Effect) → Section h (emit h es)
  ticks : (now : ℕ) → Section h (record h { now = now })

pub data Run (h : Hub) : Hub → Type 0 where
  start : Run h h
  then_section : {i j : Hub} → Run h i → Section i j → Run h j

add_route-IsSound : (r : Room) (route : OutRoute) → IsSound r → IsSound (add_route r route)
unfolding add_route
add_route-IsSound r route s =
    if_both IsSound (any (is_leg route.track) (routes_at r.routes route.track.key)) (λ old. s)
      (λ new. maps-IsSound r _ _ _ s)

Section-IsSoundHub : {h i : Hub} → Section h i → IsSoundHub h → IsSoundHub i
unfolding remove_route remove_routes_for remove_all_routes drop_peer_caches
Section-IsSoundHub {h} (opens req kind fresh) s = open_room-IsSoundHub h req kind fresh s
Section-IsSoundHub {h} (registers p user_id device_id role sender) s =
    put_room-IsSoundHub h p _ s (register-IsSound _ user_id device_id role sender h.now (s.rooms p))
Section-IsSoundHub {h} (leaves p user_id sender) s =
    put_room-IsSoundHub h p _ s (leave_section-IsSound _ user_id sender (s.rooms p))
Section-IsSoundHub {h} (ends p) s = put_room-IsSoundHub h p _ s (end_section-IsSound _ (s.rooms p))
Section-IsSoundHub {h} (discards p) s =
    put_room-IsSoundHub h p _ s (discard_section-IsSound _ (s.rooms p))
Section-IsSoundHub {h} (unregisters p) s = unregister-IsSoundHub h p s
Section-IsSoundHub {h} (changes_media p user_id media) s =
    put_room-IsSoundHub h p _ s (media_section-IsSound _ user_id media (s.rooms p))
Section-IsSoundHub {h} (sets_tracks p user_id sources) s =
    put_room-IsSoundHub h p _ s (tracks_section-IsSound _ user_id sources (s.rooms p))
Section-IsSoundHub {h} (attaches p user_id) s = attach_peer-IsSoundHub h p user_id s
Section-IsSoundHub {h} (closes_peer q) s = close_peer-IsSoundHub h q s
Section-IsSoundHub {h} (adds_route p route) s =
    put_room-IsSoundHub h p _ s (add_route-IsSound (h.room p) route (s.rooms p))
Section-IsSoundHub {h} (removes_route p key ft) s =
    put_room-IsSoundHub h p _ s (maps-IsSound (h.room p) _ _ _ (s.rooms p))
Section-IsSoundHub {h} (removes_routes_for p user_id) s =
    put_room-IsSoundHub h p _ s (maps-IsSound (h.room p) _ _ _ (s.rooms p))
Section-IsSoundHub {h} (removes_all_routes p) s =
    put_room-IsSoundHub h p _ s (maps-IsSound (h.room p) _ _ _ (s.rooms p))
Section-IsSoundHub {h} (drops_caches p) s =
    put_room-IsSoundHub h p _ s (maps-IsSound (h.room p) _ _ _ (s.rooms p))
Section-IsSoundHub {h} (emits es) s = emit-IsSoundHub h es s
Section-IsSoundHub {h} (ticks now) s = record { rooms = s.rooms }

Run-IsSoundHub : {h i : Hub} → IsSoundHub h → Run h i → IsSoundHub i
Run-IsSoundHub s start = s
Run-IsSoundHub s (then_section r st) = Section-IsSoundHub st (Run-IsSoundHub s r)

-- However the critical sections of concurrent calls interleave after the start of the hub, every
-- room is sound: one slot for each user, no more participants than the capacity, no more than the
-- mesh limit while the topology is mesh, at most one publisher in a stream, the stream topology in
-- a stream, and nobody in a closed room.
pub reached-IsSoundHub :
    (mesh_limit max_participants now : ℕ) (h : Hub)
    → Run (new_hub mesh_limit max_participants now) h
    → IsSoundHub h
reached-IsSoundHub mesh_limit max_participants now h r =
    Run-IsSoundHub (new_hub-IsSoundHub mesh_limit max_participants now) r
