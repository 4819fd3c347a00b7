-- ===== src/Chat/Folders/Tests.antt =====
-- The theorems about folders at a concrete store.
use combox_backend.Prelude.{true, false, ◌||◌, ◌==◌, none, List, [], ◌∷◌}
use combox_backend.Prelude.Text.{trim_space}
use combox_backend.Chat.Base.{got}
use combox_backend.Chat.Access.{Chats}
use combox_backend.Chat.Folders.{
  ChatFolder, CreateChatFolderInput, Folders, create_chat_folder, set_chat_folder_chats,
}
use combox_backend.Chat.Folders.Contents.{
  Saved, set_chat_folder_chats-Saved, Created, create_chat_folder-Created,
}
use combox_backend.Chat.Tests.{std, group}

-- The folders of one user, who is a member of the chats c1 and c2.
abbrev chats : Chats (List ChatFolder)
chats = record {
  get_chat = λ c s. got group;
  is_chat_member = λ c u s. got (c == "c1" || c == "c2");
  get_chat_member_role = λ c u s. got "member";
  list_chat_member_ids = λ c s. got [];
  list_chat_members = λ c banned s. got [];
  is_public_channel_banned = λ c u s. got false;
  add_chat_members = λ c ids s. (s, none);
  update_chat_member_role = λ c u role s. (s, none);
  remove_chat_member = λ c u s. (s, none);
  upsert_public_channel_ban = λ c u a s. (s, none);
  delete_public_channel_ban = λ c u s. (s, none);
  upsert_public_channel_mute = λ c u a s. (s, none);
  delete_public_channel_mute = λ c u s. (s, none);
}

abbrev made : CreateChatFolderInput → ChatFolder
made input = record {
  id = "f1";
  name = input.name;
  icon = input.icon;
  position = 0;
  chat_ids = input.chat_ids;
}

abbrev work : ChatFolder
work = record { id = "f1"; name = "Work"; icon = ""; position = 0; chat_ids = [] }

abbrev folders : Folders (List ChatFolder)
folders = record {
  configured = true;
  list_chat_folders = λ user s. got s;
  get_chat_folder = λ user folder s. got work;
  create_chat_folder = λ input limit s. (made input ∷ s, got (made input));
  update_chat_folder_meta = λ user folder name icon s. (s, got work);
  move_chat_folder = λ user folder position s. (s, got work);
  replace_chat_folder_chats = λ user folder ids s.
      (record work { chat_ids = ids } ∷ [], got (record work { chat_ids = ids }));
  delete_chat_folder = λ user folder s. ([], got tt);
}

set_chat_folder_chats-Saved_example :
    Saved std chats folders "ann"
      (work ∷ [])
      (folders.replace_chat_folder_chats "ann" "f1")
      (set_chat_folder_chats std chats folders " ann" "f1" ("c1" ∷ " c1" ∷ "c2" ∷ []) (work ∷ []))
unfolding trim_space
set_chat_folder_chats-Saved_example =
    set_chat_folder_chats-Saved std chats folders " ann" "f1" ("c1" ∷ " c1" ∷ "c2" ∷ []) (work ∷ [])

abbrev wanted : CreateChatFolderInput
wanted = record { user_id = "ann"; name = " Work "; icon = ""; chat_ids = "c2" ∷ "c1" ∷ [] }

create_chat_folder-Created_example :
    Created std chats folders "ann" [] (create_chat_folder std chats folders wanted [])
unfolding trim_space
create_chat_folder-Created_example = create_chat_folder-Created std chats folders wanted []
