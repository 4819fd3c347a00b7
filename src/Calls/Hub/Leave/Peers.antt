-- ===== src/Calls/Hub/Leave/Peers.antt =====
-- internal/calls/hub.go: which server side peers a leave closes.
use combox_backend.Prelude.{
  ℕ, String, eqb, eqb_iff, eqb_refl, if_both, Option, none, some, [], any, ◌≡◌, ◌≢◌, refl, sym, ap,
  ◌∙◌, Bool-cases, inl, inr,
}
use combox_backend.Prelude.Dict.{values, lookup}
use combox_backend.Calls.Room.{Left, leave_section}
use combox_backend.Calls.Room.Leaving.{leave_section-peer}
use combox_backend.Calls.Routes.{drop_peer_caches}
use combox_backend.Calls.Hub.{
  Backend, Hub, broadcast, persist_close, unregister, forget, end, end_rest,
}
use combox_backend.Calls.Hub.Ending.{close_peer-closed, end-closed}
use combox_backend.Calls.Hub.Leave.{
  close_left, clear_left, drop_caches, left_frame, leave_rest, leave,
}

module _ (b : Backend) where
  -- Where a room holds no peer, ending it closes none.
  end-closed_none :
      (h : Hub) (p : ℕ) (reason : String) (q : ℕ)
      → (h.room p).peers ≡ []
      → ((end b h p reason).peer q).closed ≡ (h.peer q).closed
  end-closed_none h p reason q none_held = elim (Bool-cases (h.room p).closed) [
    | inl over ↦ unfold end end_rest in simp over
    | inr live ↦ end-closed b h p reason q live ∙ unfold values any in rw none_held
  ]

  close_left-closed :
      (h : Hub) (own : Option ℕ) (q : ℕ)
      → own ≢ some q
      → ((close_left b h own).peer q).closed ≡ (h.peer q).closed
  unfolding close_left
  close_left-closed h none q other = refl
  close_left-closed h (some o) q other = elim (Bool-cases (eqb q o)) [
    | inl hit ↦ absurd (other (ap some (sym ((eqb_iff q o).0 hit))))
    | inr miss ↦ close_peer-closed h o q ∙ rw miss
  ]

  drop_caches-peers : (h : Hub) (p : ℕ) → ((drop_caches b h p).room p).peers ≡ []
  unfolding drop_caches drop_peer_caches
  drop_caches-peers h p = simp (eqb_refl p)

  leave_rest-closed :
      (h : Hub) (p : ℕ) (user_id reason : String) (out : Option Left) (q : ℕ)
      → ((l : Left) → out ≡ some l → l.peer ≢ some q)
      → ((leave_rest b h p user_id reason out).peer q).closed ≡ (h.peer q).closed
  unfolding leave_rest clear_left drop_caches drop_peer_caches forget unregister persist_close
      broadcast
  leave_rest-closed h p user_id reason none q other = refl
  leave_rest-closed h p user_id reason (some l) q other =
      let kept = close_left-closed h l.peer q (other l refl) in
      let told =
        broadcast (clear_left b h p user_id reason l) p (left_frame b (h.room p) user_id reason)
          "" in
      if_both {A = Hub} (λ x. (x.peer q).closed ≡ (h.peer q).closed) l.empty (λ empty. kept)
        (λ held.
          if_both {A = Hub} (λ x. (x.peer q).closed ≡ (h.peer q).closed) l.lonely
            (λ lonely.
              end-closed_none (drop_caches b told p) p reason q (drop_caches-peers told p) ∙ kept)
            (λ more. kept))

  -- A leave closes no peer but the one of the user who leaves: also where it ends the call for a
  -- last participant who stays behind, that participant's peer is not closed, and no peer of the
  -- room is.
  pub leave-closed :
      (h : Hub) (p : ℕ) (user_id : String) (sender : Option ℕ) (reason : String) (q : ℕ)
      → lookup user_id (h.room p).peers ≢ some q
      → ((leave b h p user_id sender reason).peer q).closed ≡ (h.peer q).closed
  unfolding leave
  leave-closed h p user_id sender reason q other =
      leave_rest-closed _ p user_id reason (leave_section (h.room p) user_id sender).1 q
        (λ l e same. other (sym (leave_section-peer (h.room p) user_id sender l e) ∙ same))
