-- ===== src/Chat/Deletion.antt =====
-- internal/service/chat/service_delete_chat.go: leaving a private chat, and deleting a chat.
pub mod Outcome
mod Tests
use combox_backend.Prelude.{
  String, Bool, true, false, not, ◌&&◌, ◌||◌, ◌==◌, if◌then◌else◌, Option, none, some, List,
}
use combox_backend.Prelude.Text.{trim_space}
use combox_backend.Chat.Base.{
  Std, Fault, Error, invalid_arg, internal, map_fault, Result, ok, err, Answer, Action, ◌>>=◌, ◌>>◌,
  lift, pure, raise, require, ask, tell,
}
use combox_backend.Chat.Access.{
  Chat, Chats, no_access, kind_of, parent_of, is_group_channel, ensure_chat_member,
}

-- The methods of the repositories that only a deletion calls. `notified` says whether the service was
-- given a notification repository.
pub record Removals (Store : Type 0) : Type 0 where
  pub delete_chat : String → Store → Store × Option Fault
  pub delete_chat_user_state : String → String → Store → Store × Option Fault
  pub notified : Bool
  pub reset_chat_unread : String → String → Store → Store × Option Fault

abbrev bad_deletion : Error
bad_deletion = invalid_arg "error.chat.invalid_input"

module _ (std : Std) where
  -- `isBotChat`
  is_bot_chat : Chat → Bool
  unfolding kind_of
  is_bot_chat chat = kind_of std chat == "bot"

  -- `isSelfServiceChat`
  unfoldable pub is_self_service_chat : Chat → Bool
  unfolding is_bot_chat
  is_self_service_chat chat = chat.is_direct || is_bot_chat chat

  -- What may be deleted as a whole, by its kind.
  unfoldable pub deletable : Chat → Result (Unit {0})
  unfolding kind_of is_group_channel
  deletable chat =
      let kind = kind_of std chat in
      if is_group_channel std chat
      then err bad_deletion
      else if not (kind == "group") && not (kind == "standalone_channel") && not (kind == "channel")
      then err bad_deletion
      else if kind == "channel"
      then err no_access
      else ok tt

  module _ {Store : Type 0} (chats : Chats Store) (removals : Removals Store) where
    -- The unread count goes, if there is one; an error of it is dropped.
    unfoldable pub reset_unread : String → String → Store → Store
    reset_unread user chat s =
        if removals.notified then (removals.reset_chat_unread user chat s).0 else s

    -- What is left of a chat for one who left it; errors are dropped.
    unfoldable pub forget : String → String → Action Store (Unit {0})
    unfolding reset_unread
    forget user chat s =
        (reset_unread user chat (removals.delete_chat_user_state user chat s).0, ok tt)

    -- The caller leaves a private chat.
    unfoldable pub leave_private : String → String → Action Store (Unit {0})
    unfolding ensure_chat_member forget map_fault
    leave_private user chat = do
      ensure_chat_member std chats chat user
      tell (chats.remove_chat_member chat user) map_fault
      forget user chat

    -- The owner deletes a group or a channel.
    unfoldable pub delete_owned : String → String → Chat → Action Store (Unit {0})
    unfolding ensure_chat_member deletable map_fault
    delete_owned user chat target = do
      ensure_chat_member std chats chat user
      lift (deletable target)
      role ← ask (chats.get_chat_member_role chat user) internal
      require (std.equal_fold role "owner") no_access
      tell (removals.delete_chat chat) map_fault

    -- `DeleteChat`
    unfoldable pub delete_chat : String → String → Action Store (Unit {0})
    unfolding is_self_service_chat leave_private delete_owned map_fault trim_space
    delete_chat user_id chat_id = do
      let user = trim_space user_id
      let chat = trim_space chat_id
      require (not (user == "" || chat == "")) bad_deletion
      target ← ask (chats.get_chat chat) map_fault
      if is_self_service_chat target then leave_private user chat else delete_owned user chat target

    unread_reset : String → String → Action Store (Unit {0})
    unfolding reset_unread
    unread_reset user chat s = (reset_unread user chat s, ok tt)

    -- `DeleteChatForEveryone`
    unfoldable pub delete_chat_for_everyone : String → String → Action Store (Unit {0})
    unfolding ensure_chat_member unread_reset map_fault trim_space
    delete_chat_for_everyone user_id chat_id = do
      let user = trim_space user_id
      let chat = trim_space chat_id
      require (not (user == "" || chat == "")) bad_deletion
      target ← ask (chats.get_chat chat) map_fault
      require target.is_direct no_access
      ensure_chat_member std chats chat user
      tell (removals.delete_chat chat) map_fault
      unread_reset user chat
