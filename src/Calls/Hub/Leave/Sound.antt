-- ===== src/Calls/Hub/Leave/Sound.antt =====
-- internal/calls/hub.go: leaving, declining and the shutdown keep every room sound.
use combox_backend.Prelude.{ℕ, String, ◌||◌, ◌==◌, if_both, Option, none, some, List, [], ◌∷◌}
use combox_backend.Prelude.Text.{trim_space}
use combox_backend.Prelude.Dict.{values}
use combox_backend.Calls.Errors.{Result, ok, err}
use combox_backend.Calls.Types.{kind_broadcast, reason_declined}
use combox_backend.Calls.Room.{Left, leave_section}
use combox_backend.Calls.Room.Invariant.{maps-IsSound, leave_section-IsSound}
use combox_backend.Calls.Routes.{remove_routes_for, drop_peer_caches}
use combox_backend.Calls.Hub.{Backend, Hub, put_room, end}
use combox_backend.Calls.Hub.Sound.{
  IsSoundHub, put_room-IsSoundHub, close_peer-IsSoundHub, broadcast-IsSoundHub,
  persist_close-IsSoundHub, forget-IsSoundHub, end-IsSoundHub, KeptSound,
}
use combox_backend.Calls.Hub.Leave.{
  close_left, clear_left, drop_caches, left_frame, leave_rest, leave, ringing, decline_member,
  decline_room, decline, end_each, close_all,
}

module _ (b : Backend) where
  close_left-IsSoundHub : (h : Hub) (q : Option ℕ) → IsSoundHub h → IsSoundHub (close_left b h q)
  unfolding close_left
  close_left-IsSoundHub h none s = s
  close_left-IsSoundHub h (some q) s = close_peer-IsSoundHub h q s

  clear_left-IsSoundHub :
      (h : Hub) (p : ℕ) (user_id reason : String) (l : Left)
      → IsSoundHub h
      → IsSoundHub (clear_left b h p user_id reason l)
  unfolding clear_left remove_routes_for
  clear_left-IsSoundHub h p user_id reason l s =
      let closed = close_left-IsSoundHub h l.peer s in
      persist_close-IsSoundHub _ p user_id reason (
        put_room-IsSoundHub (close_left b h l.peer) p _ closed
          (maps-IsSound ((close_left b h l.peer).room p) _ _ _ (closed.rooms p)))

  drop_caches-IsSoundHub : (h : Hub) (p : ℕ) → IsSoundHub h → IsSoundHub (drop_caches b h p)
  unfolding drop_caches drop_peer_caches
  drop_caches-IsSoundHub h p s =
      put_room-IsSoundHub h p _ s (maps-IsSound (h.room p) [] _ [] (s.rooms p))

  leave_rest-IsSoundHub :
      (h : Hub) (p : ℕ) (user_id reason : String) (l : Option Left)
      → IsSoundHub h
      → IsSoundHub (leave_rest b h p user_id reason l)
  unfolding leave_rest
  leave_rest-IsSoundHub h p user_id reason none s = s
  leave_rest-IsSoundHub h p user_id reason (some l) s =
      let cleared = clear_left-IsSoundHub h p user_id reason l s in
      let told =
        broadcast-IsSoundHub (clear_left b h p user_id reason l) p
          (left_frame b (h.room p) user_id reason) "" cleared in
      if_both IsSoundHub l.empty
        (λ empty. forget-IsSoundHub b _ p reason (drop_caches-IsSoundHub _ p cleared))
        (λ held.
          if_both IsSoundHub l.lonely
            (λ lonely. end-IsSoundHub b _ p reason (drop_caches-IsSoundHub _ p told))
            (λ more. told))

  pub leave-IsSoundHub :
      (h : Hub) (p : ℕ) (user_id : String) (sender : Option ℕ) (reason : String)
      → IsSoundHub h
      → IsSoundHub (leave b h p user_id sender reason)
  unfolding leave
  leave-IsSoundHub h p user_id sender reason s =
      leave_rest-IsSoundHub (put_room h p (leave_section (h.room p) user_id sender).0) p user_id
        reason _
        (put_room-IsSoundHub h p _ s (leave_section-IsSound (h.room p) user_id sender (s.rooms p)))

  decline_member-KeptSound :
      (h : Hub) (p : ℕ) (user_id : String) (r : Result (Unit {0}))
      → IsSoundHub h
      → KeptSound (decline_member b h p user_id r)
  unfolding decline_member
  decline_member-KeptSound h p user_id (err e) s = record { hub = s }
  decline_member-KeptSound h p user_id (ok u) s =
      if_both KeptSound ((h.room p).kind == kind_broadcast) (λ stream. record { hub = s })
        (λ call.
          if_both KeptSound (ringing b (h.room p) user_id)
            (λ rings. record { hub = end-IsSoundHub b h p reason_declined s })
            (λ live. record { hub = s }))

  decline_room-KeptSound :
      (h : Hub) (user_id : String) (p : Option ℕ)
      → IsSoundHub h
      → KeptSound (decline_room b h user_id p)
  unfolding decline_room
  decline_room-KeptSound h user_id none s = record { hub = s }
  decline_room-KeptSound h user_id (some p) s =
      if_both KeptSound (h.room p).closed (λ over. record { hub = s })
        (λ live. decline_member-KeptSound h p user_id _ s)

  pub decline-KeptSound :
      (h : Hub) (user_id call_id : String) → IsSoundHub h → KeptSound (decline b h user_id call_id)
  unfolding decline
  decline-KeptSound h user_id call_id s =
      if_both KeptSound (user_id == "" || trim_space call_id == "") (λ bad. record { hub = s })
        (λ good. decline_room-KeptSound h user_id _ s)

  end_each-IsSoundHub :
      (h : Hub) (ps : List ℕ) (reason : String) → IsSoundHub h → IsSoundHub (end_each b h ps reason)
  unfolding end_each
  end_each-IsSoundHub h [] reason s = s
  end_each-IsSoundHub h (p ∷ ps) reason s =
      end_each-IsSoundHub (end b h p reason) ps reason (end-IsSoundHub b h p reason s)

  pub close_all-IsSoundHub :
      (h : Hub) (reason : String) → IsSoundHub h → IsSoundHub (close_all b h reason)
  unfolding close_all
  close_all-IsSoundHub h reason s = end_each-IsSoundHub h (values h.rooms) reason s
