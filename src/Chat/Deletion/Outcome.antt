-- ===== src/Chat/Deletion/Outcome.antt =====
-- internal/service/chat/service_delete_chat.go: how `DeleteChat` ends.
use combox_backend.Prelude.{
  String, Bool, true, false, not, ◌&&◌, ◌||◌, ◌==◌, if_both, Bool-cases, none, Option-cases, ◌≡◌,
  refl, inl, inr, arith,
}
use combox_backend.Prelude.Text.{trim_space}
use combox_backend.Chat.Base.{
  Std, Fault, Error, map_fault, Result, ok, err, got, Holds, ◌>>=◌, ◌>>◌, written, lift, tell,
}
use combox_backend.Chat.Access.{Chat, Chats, kind_of, is_group_channel, ensure_chat_member}
use combox_backend.Chat.Access.Reads.{ensure_chat_member-Keeps}
use combox_backend.Chat.Steps.{bind_cases, require_cases, ask_cases, lift-Keeps, ok-Holds}
use combox_backend.Chat.Deletion.{
  Removals, is_self_service_chat, deletable, reset_unread, forget, leave_private, delete_owned,
  delete_chat,
}

module _ (std : Std) {Store : Type 0} (chats : Chats Store) (removals : Removals Store) where
  abbrev Member : String → String → Store → Type 0
  Member user chat s = (ensure_chat_member std chats chat user s).1 ≡ ok tt

  -- A group or a standalone channel.
  abbrev pub whole : Chat → Bool
  whole target = kind_of std target == "group" || kind_of std target == "standalone_channel"

  -- How `DeleteChat` ends for a chat: refused, with the store as it was; in a private chat the caller
  -- leaves, and the chat itself stays; the owner deletes a group or a standalone channel.
  pub data Deleted (user chat : String) (s : Store) (out : Store × Result (Unit {0})) : Type 0 where
    refused : out.0 ≡ s → (e : Error) → out.1 ≡ err e → Deleted user chat s out
    not_left :
        (target : Chat)
        → chats.get_chat chat s ≡ got target
        → is_self_service_chat std target ≡ true
        → (f : Fault) → out ≡ ((chats.remove_chat_member chat user s).0, err (map_fault f))
        → Deleted user chat s out
    left :
        (target : Chat)
        → chats.get_chat chat s ≡ got target
        → is_self_service_chat std target ≡ true
        → Member user chat s
        → (chats.remove_chat_member chat user s).1 ≡ none
        → out ≡ (
          reset_unread std chats removals user chat
              (removals.delete_chat_user_state user chat
                (chats.remove_chat_member chat user s).0).0,
          ok tt,
        )
        → Deleted user chat s out
    deleted :
        (target : Chat) (role : String)
        → chats.get_chat chat s ≡ got target
        → is_self_service_chat std target ≡ false
        → whole target ≡ true
        → Member user chat s
        → chats.get_chat_member_role chat user s ≡ got role
        → std.equal_fold role "owner" ≡ true
        → out ≡ ((removals.delete_chat chat s).0, written map_fault (removals.delete_chat chat s).1)
        → Deleted user chat s out

  refuse : (user chat : String) (s : Store) (e : Error) → Deleted user chat s (s, err e)
  refuse user chat s e = refused refl e refl

  -- The removal, and what goes with it.
  removal-Deleted :
      (user chat : String) (s : Store) (target : Chat)
      → chats.get_chat chat s ≡ got target
      → is_self_service_chat std target ≡ true
      → Member user chat s
      → Deleted user chat s (
          (tell (chats.remove_chat_member chat user) map_fault
              >> forget std chats removals user chat)
            s)
  unfolding tell forget ◌>>=◌
  removal-Deleted user chat s target found private member =
      elim (Option-cases (chats.remove_chat_member chat user s).1) [
        | inl fine ↦ rw fine (left target found private member fine refl)
        | inr (f, broken) ↦ rw broken (not_left target found private f refl)
      ]

  leave_private-Deleted :
      (user chat : String) (s : Store) (target : Chat)
      → chats.get_chat chat s ≡ got target
      → is_self_service_chat std target ≡ true
      → Deleted user chat s (leave_private std chats removals user chat s)
  unfolding leave_private
  leave_private-Deleted user chat s target found private =
      bind_cases (Deleted user chat s) _ _ s (ensure_chat_member-Keeps std chats chat user)
        (refuse user chat s) (λ u member. removal-Deleted user chat s target found private member)

  deletable-whole : (target : Chat) → Holds (λ u. whole target ≡ true) (deletable std target)
  unfolding deletable
  deletable-whole target =
      let P = Holds {A = Unit {0}} (λ u. whole target ≡ true) in
      let kind = kind_of std target in
      if_both P (is_group_channel std target) (λ channel. tt)
        (λ no_channel.
          if_both P
            (not (kind == "group") && not (kind == "standalone_channel") && not (kind == "channel"))
            (λ odd. tt)
            (λ known. if_both P (kind == "channel") (λ topic. tt) (λ other. ground arith)))

  delete_owned-Deleted :
      (user chat : String) (s : Store) (target : Chat)
      → chats.get_chat chat s ≡ got target
      → is_self_service_chat std target ≡ false
      → Deleted user chat s (delete_owned std chats removals user chat target s)
  unfolding delete_owned tell lift
  delete_owned-Deleted user chat s target found shared =
      let Out = Deleted user chat s in
      let refuse' = refuse user chat s in
      bind_cases Out _ _ s (ensure_chat_member-Keeps std chats chat user) refuse' (λ u member.
        bind_cases Out _ _ s (lift-Keeps (deletable std target)) refuse' (λ u fits.
          ask_cases Out _ _ _ s refuse' (λ role bears. require_cases Out _ _ _ s refuse' (λ owner.
            deleted target role found shared
              (ok-Holds (λ u. whole target ≡ true) _ u (deletable-whole target) fits) member bears
              owner refl))))

  -- `DeleteChat`: in a private chat nothing goes but what belongs to the caller, and a group or a
  -- standalone channel is deleted for its owner only; each refusal leaves the store as it was.
  pub delete_chat-Deleted :
      (user_id chat_id : String) (s : Store)
      → Deleted
          (trim_space user_id)
          (trim_space chat_id)
          s
          (delete_chat std chats removals user_id chat_id s)
  unfolding delete_chat
  delete_chat-Deleted user_id chat_id s =
      let user = trim_space user_id in
      let chat = trim_space chat_id in
      let Out = Deleted user chat s in
      let refuse' = refuse user chat s in
      require_cases Out _ _ _ s refuse' (λ given. ask_cases Out _ _ _ s refuse' (λ target found.
        elim (Bool-cases (is_self_service_chat std target)) [
          | inl private ↦ rw private (leave_private-Deleted user chat s target found private)
          | inr shared ↦ rw shared (delete_owned-Deleted user chat s target found shared)
        ]))
