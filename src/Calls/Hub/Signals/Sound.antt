-- ===== src/Calls/Hub/Signals/Sound.antt =====
-- internal/calls/hub.go: relays, media changes, track maps and new peers keep every room sound.
use combox_backend.Prelude.{ℕ, String, ◌==◌, not, if_both, Option, none, some, List}
use combox_backend.Prelude.Dict.{Dict, lookup, has}
use combox_backend.Calls.Errors.{GoError, Result, ok, err}
use combox_backend.Calls.Types.{MediaState, Participant, topology_mesh}
use combox_backend.Calls.Protocol.{Envelope}
use combox_backend.Calls.Room.{Room, media_section, tracks_section}
use combox_backend.Calls.Room.Invariant.{
  IsSound, maps-IsSound, media_section-IsSound, tracks_section-IsSound,
}
use combox_backend.Calls.Hub.{Backend, Hub}
use combox_backend.Calls.Hub.Sound.{IsSoundHub, put_room-IsSoundHub, emit-IsSoundHub, KeptSound}
use combox_backend.Calls.Hub.Signals.{
  send_to, relay_to, relay, told_media, update_media, told_tracks, set_track_sources, peer_or,
  attach_peer, made_peer, make_peer, ensure_peer, peer_for,
}

told_media-KeptSound :
    (h : Hub) (p : ℕ) (user_id : String) (media : MediaState) (r : Room × Result (List Participant))
    → IsSoundHub h
    → IsSound r.0
    → KeptSound (told_media h p user_id media r)
unfolding told_media
told_media-KeptSound h p user_id media (r, err e) s t = record { hub = s }
told_media-KeptSound h p user_id media (r, ok targets) s t = record {
  hub = record { rooms = (put_room-IsSoundHub h p r s t).rooms };
}

pub update_media-KeptSound :
    (h : Hub) (p : ℕ) (user_id : String) (media : MediaState)
    → IsSoundHub h
    → KeptSound (update_media h p user_id media)
unfolding update_media
update_media-KeptSound h p user_id media s =
    told_media-KeptSound h p user_id media (media_section (h.room p) user_id media) s
      (media_section-IsSound (h.room p) user_id media (s.rooms p))

told_tracks-KeptSound :
    (h : Hub) (p : ℕ) (user_id : String) (r : Room × Result (Dict String × List Participant))
    → IsSoundHub h
    → IsSound r.0
    → KeptSound (told_tracks h p user_id r)
unfolding told_tracks
told_tracks-KeptSound h p user_id (r, err e) s t = record { hub = s }
told_tracks-KeptSound h p user_id (r, ok (cp, targets)) s t = record {
  hub = record { rooms = (put_room-IsSoundHub h p r s t).rooms };
}

pub set_track_sources-KeptSound :
    (h : Hub) (p : ℕ) (user_id : String) (sources : Dict String)
    → IsSoundHub h
    → KeptSound (set_track_sources h p user_id sources)
unfolding set_track_sources
set_track_sources-KeptSound h p user_id sources s =
    told_tracks-KeptSound h p user_id (tracks_section (h.room p) user_id sources) s
      (tracks_section-IsSound (h.room p) user_id sources (s.rooms p))

pub attach_peer-IsSoundHub :
    (h : Hub) (p : ℕ) (user_id : String) → IsSoundHub h → IsSoundHub (attach_peer h p user_id)
unfolding attach_peer
attach_peer-IsSoundHub h p user_id s = record {
  rooms = (put_room-IsSoundHub h p _ s (maps-IsSound (h.room p) _ _ _ (s.rooms p))).rooms;
}

peer_or-KeptSound :
    (h : Hub) (q : Option ℕ) (made : Hub × Result ℕ)
    → IsSoundHub h
    → KeptSound made
    → KeptSound (peer_or h q made)
unfolding peer_or
peer_or-KeptSound h (some q) made s t = record { hub = s }
peer_or-KeptSound h none made s t = t

module _ (b : Backend) where
  send_to-KeptSound :
      (h : Hub) (conn : Option ℕ) (env : Envelope) → IsSoundHub h → KeptSound (send_to b h conn env)
  unfolding send_to
  send_to-KeptSound h none env s = record { hub = s }
  send_to-KeptSound h (some conn) env s = record { hub = emit-IsSoundHub h _ s }

  relay_to-KeptSound :
      (h : Hub) (env : Envelope) (from target : Option Participant)
      → IsSoundHub h
      → KeptSound (relay_to b h env from target)
  unfolding relay_to
  relay_to-KeptSound h env none target s = record { hub = s }
  relay_to-KeptSound h env (some p) none s = record { hub = s }
  relay_to-KeptSound h env (some p) (some target) s = send_to-KeptSound h target.sender env s

  pub relay-KeptSound :
      (h : Hub) (p : ℕ) (from_user_id : String) (env : Envelope)
      → IsSoundHub h
      → KeptSound (relay b h p from_user_id env)
  unfolding relay
  relay-KeptSound h p from_user_id env s =
      if_both KeptSound (not ((h.room p).topology == topology_mesh)) (λ sfu. record { hub = s })
        (λ mesh.
          relay_to-KeptSound h _ (lookup from_user_id (h.room p).participants)
            (lookup env.target_user_id (h.room p).participants) s)

  made_peer-KeptSound :
      (h : Hub) (p : ℕ) (user_id : String) (r : Option GoError)
      → IsSoundHub h
      → KeptSound (made_peer b h p user_id r)
  unfolding made_peer
  made_peer-KeptSound h p user_id (some e) s = record { hub = s }
  made_peer-KeptSound h p user_id none s =
      if_both KeptSound (has user_id (h.room p).participants)
        (λ held. record { hub = attach_peer-IsSoundHub h p user_id s }) (λ gone. record { hub = s })

  make_peer-KeptSound :
      (h : Hub) (p : ℕ) (user_id : String) (new_peer : Option (String → String → Option GoError))
      → IsSoundHub h
      → KeptSound (make_peer b h p user_id new_peer)
  unfolding make_peer
  make_peer-KeptSound h p user_id none s = record { hub = s }
  make_peer-KeptSound h p user_id (some new_peer) s =
      if_both KeptSound (h.room p).closed (λ over. record { hub = s })
        (λ live. peer_or-KeptSound h _ _ s (made_peer-KeptSound h p user_id _ s))

  pub peer_for-KeptSound :
      (h : Hub) (p : ℕ) (user_id : String) → IsSoundHub h → KeptSound (peer_for b h p user_id)
  unfolding peer_for ensure_peer
  peer_for-KeptSound h p user_id s =
      if_both KeptSound (h.room p).closed (λ over. record { hub = s })
        (λ live. peer_or-KeptSound h _ _ s (
          if_both KeptSound (has user_id (h.room p).participants)
            (λ held. make_peer-KeptSound h p user_id b.new_peer s) (λ gone. record { hub = s })))
