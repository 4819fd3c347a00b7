-- ===== src/Chat/Deletion/Tests.antt =====
-- The theorems about deletions at a concrete chat.
use combox_backend.Prelude.{true, none}
use combox_backend.Prelude.Text.{trim_space}
use combox_backend.Chat.Deletion.{Removals, delete_chat}
use combox_backend.Chat.Deletion.Outcome.{Deleted, delete_chat-Deleted}
use combox_backend.Chat.Tests.{Roles, std, chats, roles}

abbrev removals : Removals Roles
removals = record {
  delete_chat = λ chat s. ((λ user. none), none);
  delete_chat_user_state = λ user chat s. (s, none);
  notified = true;
  reset_chat_unread = λ user chat s. (s, none);
}

delete_chat-Deleted_example :
    Deleted std chats removals "ann" "c" roles (delete_chat std chats removals " ann" "c" roles)
unfolding trim_space
delete_chat-Deleted_example = delete_chat-Deleted std chats removals " ann" "c" roles
