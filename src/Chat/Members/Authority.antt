-- ===== src/Chat/Members/Authority.antt =====
-- internal/service/chat/service_chat_management.go: who may change a role or remove a member.
use combox_backend.Prelude.{
  String, Bool, true, false, not, Option, none, some, List, ◌≡◌, refl, Option-cases, inl, inr,
  arith,
}
use combox_backend.Prelude.Text.{trim_space, append_text}
use combox_backend.Chat.Base.{
  ask, require, Std, Fault, Error, internal, Result, err, got, ◌>>=◌, ◌>>◌, tell,
}
use combox_backend.Chat.Events.{Events, record_event}
use combox_backend.Chat.Access.{
  no_access, is_standalone_channel, Chat, ChatMember, Chats, can_manage_members_by_role,
  can_manage_roles_by_role,
}
use combox_backend.Chat.Access.Reads.{ensure_chat_member-Keeps}
use combox_backend.Chat.Steps.{
  Keeps, bind-Keeps, ask-Keeps, require-Keeps, branch-Keeps, require_cases, ask_cases,
}
use combox_backend.Chat.Members.{
  valid_role, event, listed, list_members, update_member_role, remove_member,
}

module _ (std : Std) {Store : Type 0} (chats : Chats Store) (events : Events Store) where
  listed-Keeps :
      (target : Chat) (user_id chat_id : String) (include_banned : Bool)
      → Keeps (listed std chats events target user_id chat_id include_banned)
  unfolding listed
  listed-Keeps target user_id chat_id include_banned =
      branch-Keeps _ _ _
        (bind-Keeps _ _ (ask-Keeps _ _)
          (λ role. bind-Keeps _ _ (require-Keeps _ _) (λ u. (ask-Keeps _ _))))
        (ask-Keeps _ _)

  pub list_members-Keeps :
      (user_id chat_id : String) (include_banned : Bool)
      → Keeps (list_members std chats events user_id chat_id include_banned)
  unfolding list_members
  list_members-Keeps user_id chat_id include_banned = bind-Keeps _ _ (require-Keeps _ _) (λ u.
      bind-Keeps _ _ (ensure_chat_member-Keeps std chats _ _)
        (λ m. bind-Keeps _ _ (ask-Keeps _ _) (λ target. listed-Keeps target _ _ include_banned)))

  -- The actor's role allows it, and the target does not own the chat.
  pub record IsAllowed (may : String → Bool) (chat actor target : String) (s : Store) : Type 0 where
    pub actor_role : String
    pub target_role : String
    pub acts : chats.get_chat_member_role chat actor s ≡ got actor_role
    pub may_act : may actor_role ≡ true
    pub bears : chats.get_chat_member_role chat target s ≡ got target_role
    pub no_owner : std.equal_fold target_role "owner" ≡ false

  -- How an operation on a member ends: refused with the store as it was; or allowed, with the error
  -- of the write; or allowed and written, whatever the final listing answers.
  pub data Ruled (may : String → Bool) (chat actor target : String)
      (write : Store → Store × Option Fault) (told : Store → Store) (s : Store)
      (out : Store × Result (List ChatMember)) : Type 0 where
    refused : out.0 ≡ s → (e : Error) → out.1 ≡ err e → Ruled may chat actor target write told s out
    not_written :
        IsAllowed may chat actor target s
        → (f : Fault) → (write s).1 ≡ some f
        → out ≡ ((write s).0, err (internal f))
        → Ruled may chat actor target write told s out
    done :
        IsAllowed may chat actor target s
        → (write s).1 ≡ none
        → out.0 ≡ told (write s).0
        → Ruled may chat actor target write told s out

  refuse :
      (may : String → Bool) (chat actor target : String) (write : Store → Store × Option Fault)
      (told : Store → Store) (s : Store) (e : Error)
      → Ruled may chat actor target write told s (s, err e)
  refuse may chat actor target write told s e = refused refl e refl

  -- The write, the event and the listing, once the request is allowed.
  write-Ruled :
      (may : String → Bool) (chat actor target kind detail user : String)
      (write : Store → Store × Option Fault) (s : Store)
      → IsAllowed may chat actor target s
      → Ruled may chat actor target write (record_event events chat actor target kind detail) s (
          (tell write internal
              >> (event std chats events chat actor target kind detail
                  >> list_members std chats events user chat false))
            s)
  unfolding tell ◌>>=◌ event
  write-Ruled may chat actor target kind detail user write s allowed =
      elim (Option-cases (write s).1) [
        | inl fine ↦ rw fine (
            done allowed fine (
              (list_members-Keeps user chat false).kept
                (record_event events chat actor target kind detail (write s).0)))
        | inr (f, broken) ↦ rw broken (not_written allowed f broken refl)
      ]

  -- The checks of the two roles before the write.
  acts-IsAllowed :
      (may : String → Bool) (chat actor target : String) (s : Store) (a b : String)
      → chats.get_chat_member_role chat actor s ≡ got a
      → may a ≡ true
      → chats.get_chat_member_role chat target s ≡ got b
      → not (std.equal_fold b "owner") ≡ true
      → IsAllowed may chat actor target s
  acts-IsAllowed may chat actor target s a b acts may_act bears no_owner = record {
    actor_role = a;
    target_role = b;
    acts = acts;
    may_act = may_act;
    bears = bears;
    no_owner = ground arith;
  }

  -- The checks of the two roles, the write, the event and the listing.
  checked-Ruled :
      (may : String → Bool) (chat actor target kind detail : String)
      (write : Store → Store × Option Fault) (s : Store)
      → Ruled may chat actor target write (record_event events chat actor target kind detail) s (
          (ask (chats.get_chat_member_role chat actor) internal >>= λ a.
          require (may a) no_access
          >> (ask (chats.get_chat_member_role chat target) internal >>= λ b.
              require (not (std.equal_fold b "owner")) no_access
              >> (tell write internal
                  >> (event std chats events chat actor target kind detail
                      >> list_members std chats events actor chat false))))
            s)
  checked-Ruled may chat actor target kind detail write s =
      let told = record_event events chat actor target kind detail in
      let Out = Ruled may chat actor target write told s in
      let refuse' = refuse may chat actor target write told s in
      ask_cases Out _ _ _ s refuse' (λ a acts. require_cases Out _ _ _ s refuse' (λ may_act.
        ask_cases Out _ _ _ s refuse' (λ b bears. require_cases Out _ _ _ s refuse' (λ no_owner.
          write-Ruled may chat actor target kind detail actor write s
            (acts-IsAllowed may chat actor target s a b acts may_act bears no_owner)))))

  -- How `UpdateMemberRole` ends: refused with the store as it was, or as `Ruled` says for a role that
  -- the chat knows.
  pub data Promoted (chat actor target role : String) (s : Store)
      (out : Store × Result (List ChatMember)) : Type 0 where
    unfit : out.0 ≡ s → (e : Error) → out.1 ≡ err e → Promoted chat actor target role s out
    fit :
        (meta : Chat)
        → chats.get_chat chat s ≡ got meta
        → valid_role (is_standalone_channel std meta) role ≡ true
        → Ruled
            (can_manage_roles_by_role std)
            chat
            actor
            target
            (chats.update_chat_member_role chat target role)
            (record_event events chat actor target "role_changed" (append_text "role=" role))
            s
            out
        → Promoted chat actor target role s out

  unfit_refuse :
      (chat actor target role : String) (s : Store) (e : Error)
      → Promoted chat actor target role s (s, err e)
  unfit_refuse chat actor target role s e = unfit refl e refl

  -- `UpdateMemberRole`: nothing is written but a role that the chat knows, by an owner or an admin, on a
  -- member who is not the owner; an error before the write leaves the store as it was.
  pub update_member_role-Promoted :
      (actor_id chat_id target_id role : String) (s : Store)
      → Promoted
          (trim_space chat_id)
          (trim_space actor_id)
          (trim_space target_id)
          (trim_space (std.to_lower role))
          s
          (update_member_role std chats events actor_id chat_id target_id role s)
  unfolding update_member_role
  update_member_role-Promoted actor_id chat_id target_id role s =
      let chat = trim_space chat_id in
      let actor = trim_space actor_id in
      let target = trim_space target_id in
      let given = trim_space (std.to_lower role) in
      let Out = Promoted chat actor target given s in
      let refuse' = unfit_refuse chat actor target given s in
      require_cases Out _ _ _ s refuse' (λ given_ids. ask_cases Out _ _ _ s refuse' (λ meta found.
        require_cases Out _ _ _ s refuse' (λ fits. fit meta found fits (
          checked-Ruled (can_manage_roles_by_role std) chat actor target "role_changed"
            (append_text "role=" given) (chats.update_chat_member_role chat target given) s))))

  -- The same, without the role.
  pub Promoted-Ruled :
      (chat actor target role : String) (s : Store) (out : Store × Result (List ChatMember))
      → Promoted chat actor target role s out
      → Ruled
          (can_manage_roles_by_role std)
          chat
          actor
          target
          (chats.update_chat_member_role chat target role)
          (record_event events chat actor target "role_changed" (append_text "role=" role))
          s
          out
  Promoted-Ruled chat actor target role s out (unfit same e bad) = refused same e bad
  Promoted-Ruled chat actor target role s out (fit meta found fits ruled) = ruled

  -- `RemoveMember`: nothing is written but by an owner, an admin or a moderator, on a member who is
  -- not the owner; an error before the write leaves the store as it was.
  pub remove_member-Ruled :
      (actor_id chat_id target_id : String) (s : Store)
      → let chat = trim_space chat_id in
        Ruled
          (can_manage_members_by_role std)
          chat
          (trim_space actor_id)
          (trim_space target_id)
          (chats.remove_chat_member chat (trim_space target_id))
          (record_event events chat
            (trim_space actor_id)
            (trim_space target_id)
            "member_removed"
            "")
          s
          (remove_member std chats events actor_id chat_id target_id s)
  unfolding remove_member
  remove_member-Ruled actor_id chat_id target_id s =
      let chat = trim_space chat_id in
      let actor = trim_space actor_id in
      let target = trim_space target_id in
      let may = can_manage_members_by_role std in
      let write = chats.remove_chat_member chat target in
      let told = record_event events chat actor target "member_removed" "" in
      require_cases (Ruled may chat actor target write told s) _ _ _ s
        (refuse may chat actor target write told s)
        (λ given_ids. checked-Ruled may chat actor target "member_removed" "" write s)
