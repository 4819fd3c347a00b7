-- ===== src/Chat/Access/Reads.antt =====
-- internal/service/chat: the access checks write nothing.
use combox_backend.Prelude.{String, Bool, true, false, refl}
use combox_backend.Chat.Base.{Std}
use combox_backend.Chat.Access.{
  Chat, Chats, ensure_chat_member, unless_member, member_of_parent, ensure_chat_readable, readable,
  readable_public, readable_thread,
}
use combox_backend.Chat.Steps.{
  Keeps, bind-Keeps, ask-Keeps, require-Keeps, branch-Keeps, raise-Keeps, pure-Keeps,
}

module _ (std : Std) {Store : Type 0} (chats : Chats Store) where
  unless_member-Keeps :
      (chat_id user_id : String) (member : Bool)
      → Keeps (unless_member std chats chat_id user_id member)
  unfolding unless_member member_of_parent
  unless_member-Keeps chat_id user_id true = pure-Keeps _
  unless_member-Keeps chat_id user_id false = bind-Keeps _ _ (ask-Keeps _ _) (λ chat.
      branch-Keeps _ _ _ (bind-Keeps _ _ (ask-Keeps _ _) (λ member. (require-Keeps _ _)))
        (raise-Keeps _))

  pub ensure_chat_member-Keeps :
      (chat_id user_id : String) → Keeps (ensure_chat_member std chats chat_id user_id)
  unfolding ensure_chat_member
  ensure_chat_member-Keeps chat_id user_id =
      bind-Keeps _ _ (ask-Keeps _ _) (λ member. unless_member-Keeps chat_id user_id member)

  readable_public-Keeps :
      (chat_id user_id : String) → Keeps (readable_public std chats chat_id user_id)
  unfolding readable_public
  readable_public-Keeps chat_id user_id = bind-Keeps _ _ (ask-Keeps _ _) (λ banned.
      bind-Keeps _ _ (require-Keeps _ _)
        (λ u. bind-Keeps _ _ (record { kept = λ s. refl }) (λ role. (require-Keeps _ _))))

  readable_thread-Keeps :
      (chat : Chat) (user_id : String) → Keeps (readable_thread std chats chat user_id)
  unfolding readable_thread
  readable_thread-Keeps chat user_id =
      bind-Keeps _ _ (require-Keeps _ _)
        (λ u. bind-Keeps _ _ (ask-Keeps _ _) (λ banned. (require-Keeps _ _)))

  pub ensure_chat_readable-Keeps :
      (chat_id user_id : String) → Keeps (ensure_chat_readable std chats chat_id user_id)
  unfolding ensure_chat_readable readable
  ensure_chat_readable-Keeps chat_id user_id = bind-Keeps _ _ (ask-Keeps _ _) (λ chat.
      branch-Keeps _ _ _ (readable_public-Keeps chat_id user_id) (
        branch-Keeps _ _ _ (readable_thread-Keeps chat user_id)
          (ensure_chat_member-Keeps chat_id user_id)))
