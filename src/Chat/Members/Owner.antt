-- ===== src/Chat/Members/Owner.antt =====
-- internal/service/chat/service_chat_management.go: the owner of a chat, and the requests of the members.
use combox_backend.Prelude.{
  String, Bool, true, false, not, ◌||◌, ◌==◌, Option, none, some, Bool-cases, List, [], ◌∷◌, ◌≡◌,
  refl, sym, ◌∙◌, inl, inr, subst, if_both, arith,
}
use combox_backend.Prelude.Text.{trim_space, append_text}
use combox_backend.Chat.Base.{
  Std, Fault, Error, Result, ok, Answer, got, Action, ◌>>◌, ask, tell, require, pure,
}
use combox_backend.Chat.Events.{Events, ChatEvent, record_event}
use combox_backend.Chat.Access.{ChatMember, Chats, role_if_member}
use combox_backend.Chat.Steps.{
  bind_cases, bind-Keeps, require_cases, ask_cases, require-Keeps, ask-Keeps, pure-Keeps, Preserves,
  Keeps-Preserves, bind-Preserves, tell-Preserves,
}
use combox_backend.Chat.Members.{
  event, joined_events, add_members, update_member_role, remove_member,
}
use combox_backend.Chat.Members.Authority.{
  Ruled, refused, not_written, done, update_member_role-Promoted, Promoted-Ruled,
  remove_member-Ruled, list_members-Keeps,
}
use combox_backend.Chat.Moderation.{
  may_moderate, note, leave_as, ban, unban, mute, unmute, unsubscribe,
}

-- What the repository says of its writes. Two spellings of an id may name the same row, `same`: then
-- they read the same role. A write to a row changes the role of no other; new members do not replace
-- old ones; bans, mutes and events are kept apart from the roles.
pub record Lawful {Store : Type 0} (chats : Chats Store) (events : Events Store) : Type 0 where
  pub same : String → String → String → String → Bool
  pub same_role :
      (c u c' u' : String) (s : Store)
      → same c u c' u' ≡ true
      → chats.get_chat_member_role c u s ≡ chats.get_chat_member_role c' u' s
  pub updates :
      (c u role c' u' : String) (s : Store)
      → same c u c' u' ≡ false
      → chats.get_chat_member_role c' u' (chats.update_chat_member_role c u role s).0
        ≡ chats.get_chat_member_role c' u' s
  pub removes :
      (c u c' u' : String) (s : Store)
      → same c u c' u' ≡ false
      → chats.get_chat_member_role c' u' (chats.remove_chat_member c u s).0
        ≡ chats.get_chat_member_role c' u' s
  pub adds :
      (c : String) (ids : List String) (c' u' role : String) (s : Store)
      → chats.get_chat_member_role c' u' s ≡ got role
      → chats.get_chat_member_role c' u' (chats.add_chat_members c ids s).0 ≡ got role
  pub bans :
      (c u a c' u' : String) (s : Store)
      → chats.get_chat_member_role c' u' (chats.upsert_public_channel_ban c u a s).0
        ≡ chats.get_chat_member_role c' u' s
  pub unbans :
      (c u c' u' : String) (s : Store)
      → chats.get_chat_member_role c' u' (chats.delete_public_channel_ban c u s).0
        ≡ chats.get_chat_member_role c' u' s
  pub mutes :
      (c u a c' u' : String) (s : Store)
      → chats.get_chat_member_role c' u' (chats.upsert_public_channel_mute c u a s).0
        ≡ chats.get_chat_member_role c' u' s
  pub unmutes :
      (c u c' u' : String) (s : Store)
      → chats.get_chat_member_role c' u' (chats.delete_public_channel_mute c u s).0
        ≡ chats.get_chat_member_role c' u' s
  pub records :
      (event : ChatEvent) (c' u' : String) (s : Store)
      → chats.get_chat_member_role c' u' (events.record_chat_event event s).0
        ≡ chats.get_chat_member_role c' u' s

-- The requests of members, each with its actor first.
pub data Request : Type 0 where
  adds : String → String → List String → Request
  promotes : String → String → String → String → Request
  removes bans unbans mutes unmutes : String → String → String → Request
  unsubscribes : String → String → Request

module _ (std : Std) {Store : Type 0} (chats : Chats Store) (events : Events Store) where
  pub serve : Request → Store → Store
  unfolding add_members update_member_role remove_member ban unban mute unmute unsubscribe
  serve (Request.adds actor chat ids) s = (add_members std chats events actor chat ids s).0
  serve (promotes actor chat target role) s =
      (update_member_role std chats events actor chat target role s).0
  serve (Request.removes actor chat target) s =
      (remove_member std chats events actor chat target s).0
  serve (Request.bans actor chat target) s = (ban std chats events actor chat target s).0
  serve (Request.unbans actor chat target) s = (unban std chats events actor chat target s).0
  serve (Request.mutes actor chat target) s = (mute std chats events actor chat target s).0
  serve (Request.unmutes actor chat target) s = (unmute std chats events actor chat target s).0
  serve (unsubscribes user chat) s = (unsubscribe std chats events user chat s).0

  pub serve_all : List Request → Store → Store
  unfolding serve
  serve_all [] s = s
  serve_all (r ∷ rs) s = serve_all rs (serve r s)

  module _ (laws : Lawful chats events) (chat_id owner : String)
      (owner_fold : std.equal_fold "owner" "owner" ≡ true) where
    abbrev Owns : Store → Type 0
    Owns s = chats.get_chat_member_role chat_id owner s ≡ got "owner"

    journal :
        (chat actor target kind payload : String) (s : Store)
        → chats.get_chat_member_role chat_id owner
            (record_event events chat actor target kind payload s)
          ≡ chats.get_chat_member_role chat_id owner s
    unfolding record_event
    journal chat actor target kind payload s =
        if_both
          (λ after.
            chats.get_chat_member_role chat_id owner after
            ≡ chats.get_chat_member_role chat_id owner s)
          (not events.configured || trim_space chat == "" || trim_space kind == "") (λ silent. refl)
          (λ told. laws.records _ chat_id owner s)

    -- A row whose role is not the owner's is another row than the owner's.
    other_row :
        (chat target role : String) (s : Store)
        → chats.get_chat_member_role chat target s ≡ got role
        → std.equal_fold role "owner" ≡ false
        → Owns s
        → laws.same chat target chat_id owner ≡ false
    other_row chat target role s e no_owner h =
        elim (Bool-cases (laws.same chat target chat_id owner)) [
          | inl alike ↦
              let found = laws.same_role chat target chat_id owner s alike in
              let equal : role ≡ "owner" = cc in
              let fold = subst (λ x. std.equal_fold x "owner" ≡ true) (sym equal) owner_fold in cc
          | inr apart ↦ apart
        ]

    Ruled-Owns :
        (may : String → Bool) (chat actor target kind detail : String)
        (write : Store → Store × Option Fault) (s : Store) (out : Store × Result (List ChatMember))
        → (laws.same chat target chat_id owner ≡ false
            → chats.get_chat_member_role chat_id owner (write s).0
              ≡ chats.get_chat_member_role chat_id owner s)
        → Ruled std chats events may chat actor target write
            (record_event events chat actor target kind detail)
            s
            out
        → Owns s
        → Owns out.0
    Ruled-Owns may chat actor target kind detail write s out apart (refused same e bad) h =
        rw same h
    Ruled-Owns may chat actor target kind detail write s out apart (not_written allowed f broken e)
          h =
        rw e
          (apart (other_row chat target allowed.target_role s allowed.bears allowed.no_owner h) ∙ h)
    Ruled-Owns may chat actor target kind detail write s out apart (done allowed fine e) h = rw e (
        journal chat actor target kind detail (write s).0
        ∙ apart (other_row chat target allowed.target_role s allowed.bears allowed.no_owner h)
        ∙ h)

    joined_events-Preserves :
        (chat user : String) (members : List String)
        → Preserves Owns (joined_events std chats events chat user members)
    unfolding joined_events event
    joined_events-Preserves chat user [] = Keeps-Preserves Owns _ (pure-Keeps _)
    joined_events-Preserves chat user (member ∷ members) =
        bind-Preserves Owns _ _
          (record { preserved = λ s h. journal chat user member "member_joined" "" s ∙ h })
          (λ u. joined_events-Preserves chat user members)

    add_members-Preserves :
        (user chat : String) (ids : List String)
        → Preserves Owns (add_members std chats events user chat ids)
    unfolding add_members
    add_members-Preserves user chat ids =
        let reads = λ (A : Type 0) (read : Store → Answer A) (as_error : Fault → Error).
          Keeps-Preserves Owns (ask read as_error) (ask-Keeps read as_error) in
        let checks = λ (test : Bool) (e : Error).
          Keeps-Preserves Owns (require test e) (require-Keeps test e) in
        bind-Preserves Owns _ _ (checks _ _) (λ u. bind-Preserves Owns _ _ (reads _ _ _) (λ target.
          bind-Preserves Owns _ _ (checks _ _) (λ u. bind-Preserves Owns _ _ (checks _ _) (λ u.
            bind-Preserves Owns _ _ (reads _ _ _) (λ role.
              bind-Preserves Owns _ _ (checks _ _) (λ u.
                bind-Preserves Owns _ _ (reads _ _ _) (λ existing.
                  bind-Preserves Owns _ _ (checks _ _) (λ u.
                    bind-Preserves Owns _ _
                      (tell-Preserves Owns _ _
                        (λ s h. laws.adds (trim_space chat) _ chat_id owner "owner" s h))
                      (λ u.
                        bind-Preserves Owns _ _
                          (joined_events-Preserves (trim_space chat) (trim_space user) _)
                          (λ u. Keeps-Preserves Owns _ (
                            list_members-Keeps std chats events (trim_space user) (trim_space chat)
                              false)))))))))))

    -- An operation of the moderators: its write keeps the roles.
    moderated-Preserves :
        (actor channel : String) (blank : Bool) (write : Action Store (Unit {0}))
        → Preserves Owns write
        → Preserves Owns (may_moderate std chats events actor channel blank >> write)
    unfolding may_moderate
    moderated-Preserves actor channel blank write h =
        bind-Preserves Owns _ _
          (Keeps-Preserves Owns _ (
            bind-Keeps _ _ (require-Keeps _ _) (λ u. bind-Keeps _ _ (ask-Keeps _ _) (λ target.
              bind-Keeps _ _ (require-Keeps _ _)
                (λ u. bind-Keeps _ _ (ask-Keeps _ _) (λ role. require-Keeps _ _))))))
          (λ u. h)

    note-Preserves :
        (channel actor target kind : String)
        → Preserves Owns (note std chats events channel actor target kind)
    unfolding note
    note-Preserves channel actor target kind = record {
      preserved = λ s h. journal channel actor target kind "" s ∙ h;
    }

    leave-Owns :
        (user chat : String) (s : Store) (answer : Answer String) (role : Option String)
        → chats.get_chat_member_role chat user s ≡ answer
        → role_if_member answer ≡ ok role
        → Owns s
        → Owns (leave_as std chats events user chat role s).0
    unfolding leave_as role_if_member pure tell
    leave-Owns user chat s answer none known e h = h
    leave-Owns user chat s answer (some role) known e h =
        let bears : chats.get_chat_member_role chat user s ≡ got role = ground arith in
        require_cases (λ (out : Store × Result (Unit {0})). Owns out.0) _ _ _ s (λ e. h)
          (λ no_owner.
            laws.removes chat user chat_id owner s
              (other_row chat user role s bears (ground arith) h)
            ∙ h)

    unsubscribe-Owns :
        (user chat : String) (s : Store)
        → Owns s
        → Owns (unsubscribe std chats events user chat s).0
    unfolding unsubscribe
    unsubscribe-Owns user chat s h =
        let P = λ (out : Store × Result (Unit {0})). Owns out.0 in
        require_cases P _ _ _ s (λ e. h)
          (λ given.
            ask_cases P _ _ _ s (λ e. h)
              (λ target found.
                require_cases P _ _ _ s (λ e. h)
                  (λ public.
                    bind_cases P _ _ s (record { kept = λ s. refl }) (λ e. h)
                      (λ role known.
                        leave-Owns (trim_space user) (trim_space chat) s _ role refl known h))))

    serve-Owns : (r : Request) (s : Store) → Owns s → Owns (serve r s)
    unfolding serve ban unban mute unmute
    serve-Owns (Request.adds actor chat ids) s h =
        (add_members-Preserves actor chat ids).preserved s h
    serve-Owns (promotes actor chat target role) s h =
        Ruled-Owns _ (trim_space chat) _ (trim_space target) "role_changed"
          (append_text "role=" (trim_space (std.to_lower role))) _ s _
          (laws.updates (trim_space chat) (trim_space target) _ chat_id owner s)
          (Promoted-Ruled std chats events (trim_space chat) (trim_space actor) (trim_space target)
            (trim_space (std.to_lower role)) s _
            (update_member_role-Promoted std chats events actor chat target role s))
          h
    serve-Owns (Request.removes actor chat target) s h =
        Ruled-Owns _ (trim_space chat) _ (trim_space target) "member_removed" "" _ s _
          (laws.removes (trim_space chat) (trim_space target) chat_id owner s)
          (remove_member-Ruled std chats events actor chat target s) h
    serve-Owns (Request.bans actor chat target) s h =
        (moderated-Preserves _ _ _ _ (
            bind-Preserves Owns _ _
              (tell-Preserves Owns _ _ (λ s h. laws.bans _ _ _ chat_id owner s ∙ h))
              (λ u.
                note-Preserves (trim_space chat) (trim_space actor) (trim_space target)
                  "banned"))).preserved
          s h
    serve-Owns (Request.unbans actor chat target) s h =
        (moderated-Preserves _ _ _ _ (
            bind-Preserves Owns _ _
              (tell-Preserves Owns _ _ (λ s h. laws.unbans _ _ chat_id owner s ∙ h))
              (λ u.
                note-Preserves (trim_space chat) (trim_space actor) (trim_space target)
                  "unbanned"))).preserved
          s h
    serve-Owns (Request.mutes actor chat target) s h =
        (moderated-Preserves _ _ _ _
            (tell-Preserves Owns _ _ (λ s h. laws.mutes _ _ _ chat_id owner s ∙ h))).preserved
          s h
    serve-Owns (Request.unmutes actor chat target) s h =
        (moderated-Preserves _ _ _ _
            (tell-Preserves Owns _ _ (λ s h. laws.unmutes _ _ chat_id owner s ∙ h))).preserved
          s h
    serve-Owns (unsubscribes user chat) s h = unsubscribe-Owns user chat s h

    -- Where the repository keeps its laws and "owner" folds to itself: whatever is asked, in any order,
    -- of the operations on the members of any chat (adding, promoting and removing them, and leaving a
    -- channel) and of the bans and mutes, the owner of a chat stays its owner.
    pub serve_all-owner :
        (requests : List Request) (s : Store)
        → chats.get_chat_member_role chat_id owner s ≡ got "owner"
        → chats.get_chat_member_role chat_id owner (serve_all requests s) ≡ got "owner"
    unfolding serve_all
    serve_all-owner [] s h = h
    serve_all-owner (r ∷ requests) s h = serve_all-owner requests (serve r s) (serve-Owns r s h)
