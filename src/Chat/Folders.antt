-- ===== src/Chat/Folders.antt =====
-- internal/service/chat/service_chat_folders.go: the folders of a user's chat list. A position is a
-- natural number; the service hands it on as it is.
pub mod Contents
mod Tests
use combox_backend.Prelude.{
  ℕ, String, Bool, true, false, not, ◌&&◌, ◌||◌, ◌==◌, ltb, if◌then◌else◌, Option, none, some, List,
  [], ◌∷◌, ◌++◌, length,
}
use combox_backend.Prelude.Text.{trim_space, rune_length}
use combox_backend.Prelude.Dict.{Dict, has, insert}
use combox_backend.Prelude.Chosen.{Chosen, none_chosen, with_choice}
use combox_backend.Chat.Base.{
  Std, Fault, chat_not_found, message_not_found, poll_not_found, invalid_attachments,
  folder_not_found, folder_name_taken, folder_limit, not_configured, other, Error, invalid_arg,
  internal, not_found, already_exists, Result, ok, err, Answer, got, failed, Action, ◌>>=◌, ◌>>◌,
  lift, pure, raise, require, ask,
}
use combox_backend.Chat.Access.{Chats, ensure_chat_member}

abbrev pub max_chat_folders_per_user : ℕ
max_chat_folders_per_user = 12

abbrev pub max_chat_folder_chats : ℕ
max_chat_folder_chats = 1000

abbrev pub chat_folder_name_max_runes : ℕ
chat_folder_name_max_runes = 32

abbrev pub chat_folder_icon_max_runes : ℕ
chat_folder_icon_max_runes = 64

pub record ChatFolder : Type 0 where
  pub id : String
  pub name : String
  pub icon : String
  pub position : ℕ
  pub chat_ids : List String

pub record CreateChatFolderInput : Type 0 where
  pub user_id : String
  pub name : String
  pub icon : String
  pub chat_ids : List String

-- `OptionalString`: whether it was set, and the value, if any.
pub record OptionalString : Type 0 where
  pub is_set : Bool
  pub value : Option String

pub record UpdateChatFolderInput : Type 0 where
  pub user_id : String
  pub folder_id : String
  pub name : OptionalString
  pub icon : OptionalString
  pub position : Option ℕ

-- `ChatFolderRepository`: a write hands back the folder that it left. `configured` says whether the
-- service was given one.
pub record Folders (Store : Type 0) : Type 0 where
  pub configured : Bool
  pub list_chat_folders : String → Store → Answer (List ChatFolder)
  pub get_chat_folder : String → String → Store → Answer ChatFolder
  pub create_chat_folder : CreateChatFolderInput → ℕ → Store → Store × Answer ChatFolder
  pub update_chat_folder_meta :
      String → String → Option String → Option String → Store → Store × Answer ChatFolder
  pub move_chat_folder : String → String → ℕ → Store → Store × Answer ChatFolder
  pub replace_chat_folder_chats : String → String → List String → Store → Store × Answer ChatFolder
  pub delete_chat_folder : String → String → Store → Store × Answer (Unit {0})

abbrev pub bad_folder_input : Error
bad_folder_input = invalid_arg "error.chat.folder.invalid_input"

abbrev pub no_folder : Error
no_folder = not_found "error.chat.folder.not_found" none

abbrev pub bad_with : String → String → String → Error
bad_with key field value = record {
  code = "invalid_argument";
  message_key = key;
  details = (field, value) ∷ [];
  cause = none;
}

-- `mapChatFolderRepoError`
unfoldable pub folder_fault : Fault → Error
folder_fault folder_not_found = not_found "error.chat.folder.not_found" (some folder_not_found)
folder_fault folder_name_taken = already_exists "error.chat.folder.already_exists"
folder_fault folder_limit = bad_with "error.chat.folder.limit_reached" "limit" "12"
folder_fault chat_not_found = internal chat_not_found
folder_fault message_not_found = internal message_not_found
folder_fault poll_not_found = internal poll_not_found
folder_fault invalid_attachments = internal invalid_attachments
folder_fault not_configured = internal not_configured
folder_fault (other text) = internal (other text)

-- `normalizeChatFolderName`
unfoldable pub normalize_chat_folder_name : String → Result String
unfolding trim_space rune_length
normalize_chat_folder_name raw =
    let name = trim_space raw in
    if name == "" || ltb chat_folder_name_max_runes (rune_length name)
    then err (bad_with "error.chat.folder.invalid_input" "field" "name")
    else ok name

-- `normalizeChatFolderIcon`
unfoldable pub normalize_chat_folder_icon : String → Result String
unfolding trim_space rune_length
normalize_chat_folder_icon raw =
    let icon = trim_space raw in
    if ltb chat_folder_icon_max_runes (rune_length icon)
    then err (bad_with "error.chat.folder.invalid_input" "field" "icon")
    else ok icon

unfoldable pub pick_chat : Std → Chosen → String → Result Chosen
unfolding trim_space has with_choice
pick_chat std p raw =
    let id = trim_space raw in
    if id == "" || has id p.seen
    then ok p
    else if not (std.parse_uuid id)
    then err (bad_with "error.chat.folder.invalid_chat_id" "chat_id" raw)
    else ok (with_choice p id)

picked_from : Std → Result Chosen → List String → Result (List String)
unfolding pick_chat
picked_from std (err e) raws = err e
picked_from std (ok p) [] =
    if ltb max_chat_folder_chats (length p.out)
    then err (bad_with "error.chat.folder.too_many_chats" "limit" "1000")
    else ok p.out
picked_from std (ok p) (raw ∷ raws) = picked_from std (pick_chat std p raw) raws

unfoldable pub picked_ids : Std → List String → Result (List String)
unfolding picked_from
picked_ids std raws = picked_from std (ok none_chosen) raws

abbrev pub found_folder : Answer ChatFolder → Result ChatFolder
found_folder answer = elim answer [ got folder ↦ ok folder | failed f ↦ err (folder_fault f) ]

-- `derefString`
deref_string : Option String → String
unfolding trim_space
deref_string none = ""
deref_string (some value) = trim_space value

-- A field that was not set stays as it is.
patched : (String → Result String) → OptionalString → Result (Option String)
unfolding deref_string
patched normalize field =
    if field.is_set
    then elim (normalize (deref_string field.value)) [ ok value ↦ ok (some value) | err e ↦ err e ]
    else ok none

abbrev nothing_set : Option String → Option String → Option ℕ → Bool
nothing_set none none none = true
nothing_set none none (some position) = false
nothing_set none (some icon) position = false
nothing_set (some name) icon position = false

module _ (std : Std) {Store : Type 0} (chats : Chats Store) (folders : Folders Store) where
  -- A write of the repository that hands back a folder.
  unfoldable pub change : {A : Type 0} → (Store → Store × Answer A) → Action Store A
  unfolding folder_fault
  change write s =
      let (s', answer) = write s in
      (s', elim answer [ got a ↦ ok a | failed f ↦ err (folder_fault f) ])

  -- `folderRepo`
  unfoldable pub folder_repo : Action Store (Unit {0})
  folder_repo = require folders.configured (internal not_configured)

  -- The caller may reference every chat.
  unfoldable pub member_of_all : String → List String → Action Store (Unit {0})
  unfolding ensure_chat_member
  member_of_all user [] = pure tt
  member_of_all user (id ∷ ids) = ensure_chat_member std chats id user >> member_of_all user ids

  -- `normalizeChatFolderChatIDs`
  unfoldable pub normalize_chat_folder_chat_ids : String → List String → Action Store (List String)
  unfolding picked_ids member_of_all
  normalize_chat_folder_chat_ids user raws = do
    ids ← lift (picked_ids std raws)
    member_of_all user ids
    pure ids

  -- `ListChatFolders`
  unfoldable pub list_chat_folders : String → Action Store (List ChatFolder)
  unfolding folder_repo trim_space
  list_chat_folders user_id = do
    let user = trim_space user_id
    require (not (user == "")) bad_folder_input
    folder_repo
    ask (folders.list_chat_folders user) internal

  -- `CreateChatFolder`
  unfoldable pub create_chat_folder : CreateChatFolderInput → Action Store ChatFolder
  unfolding normalize_chat_folder_name normalize_chat_folder_icon normalize_chat_folder_chat_ids
      folder_repo change trim_space
  create_chat_folder input = do
    let user = trim_space input.user_id
    require (not (user == "")) bad_folder_input
    name ← lift (normalize_chat_folder_name input.name)
    icon ← lift (normalize_chat_folder_icon input.icon)
    chat_ids ← normalize_chat_folder_chat_ids user input.chat_ids
    folder_repo
    change (
        folders.create_chat_folder
          (record { user_id = user; name = name; icon = icon; chat_ids = chat_ids })
          max_chat_folders_per_user)

  known_folder_id : String → Bool
  known_folder_id folder = not (folder == "") && std.parse_uuid folder

  renamed : String → String → Option String → Option String → Action Store (Option ChatFolder)
  unfolding change
  renamed user folder none none = pure none
  renamed user folder none (some icon) =
      change (folders.update_chat_folder_meta user folder none (some icon)) >>= λ item.
      pure (some item)
  renamed user folder (some name) icon =
      change (folders.update_chat_folder_meta user folder (some name) icon) >>= λ item.
      pure (some item)

  abbrev no_item : ChatFolder
  no_item = record { id = ""; name = ""; icon = ""; position = 0; chat_ids = [] }

  moved : String → String → Option ℕ → Option ChatFolder → Action Store ChatFolder
  unfolding change
  moved user folder (some position) item = change (folders.move_chat_folder user folder position)
  moved user folder none (some item) = pure item
  moved user folder none none = pure no_item

  update_or_read :
      String → String → Option String → Option String → Option ℕ → Action Store ChatFolder
  unfolding renamed moved folder_fault
  update_or_read user folder name icon position =
      if nothing_set name icon position
      then ask (folders.get_chat_folder user folder) folder_fault
      else (renamed user folder name icon >>= moved user folder position)

  -- `UpdateChatFolder`
  unfoldable pub update_chat_folder : UpdateChatFolderInput → Action Store ChatFolder
  unfolding known_folder_id patched normalize_chat_folder_name normalize_chat_folder_icon
      folder_repo update_or_read trim_space
  update_chat_folder input = do
    let user = trim_space input.user_id
    let folder = trim_space input.folder_id
    require (not (user == "")) bad_folder_input
    require (known_folder_id folder) no_folder
    name ← lift (patched normalize_chat_folder_name input.name)
    icon ← lift (patched normalize_chat_folder_icon input.icon)
    folder_repo
    update_or_read user folder name icon input.position

  -- `SetChatFolderChats`
  unfoldable pub set_chat_folder_chats : String → String → List String → Action Store ChatFolder
  unfolding known_folder_id normalize_chat_folder_chat_ids folder_repo change trim_space
  set_chat_folder_chats user_id folder_id chat_ids = do
    let user = trim_space user_id
    let folder = trim_space folder_id
    require (not (user == "")) bad_folder_input
    require (known_folder_id folder) no_folder
    normalized ← normalize_chat_folder_chat_ids user chat_ids
    folder_repo
    change (folders.replace_chat_folder_chats user folder normalized)

  -- `DeleteChatFolder`
  unfoldable pub delete_chat_folder : String → String → Action Store (Unit {0})
  unfolding known_folder_id folder_repo change trim_space
  delete_chat_folder user_id folder_id = do
    let user = trim_space user_id
    let folder = trim_space folder_id
    require (not (user == "")) bad_folder_input
    require (known_folder_id folder) no_folder
    folder_repo
    change (folders.delete_chat_folder user folder)
