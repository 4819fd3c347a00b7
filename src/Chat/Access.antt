-- ===== src/Chat/Access.antt =====
-- internal/service/chat: the part of a chat that access depends on, the roles, and the checks
-- `ensureChatMember` (service_helpers.go) and `ensureChatReadableForViewer`
-- (service_message_pins.go). The chat repository is a parameter.
pub mod Reads
use combox_backend.Prelude.{
  ℕ, String, Bool, true, false, not, ◌&&◌, ◌||◌, ◌==◌, if◌then◌else◌, Option, none, some, List, [],
  ◌∷◌,
}
use combox_backend.Prelude.Text.{trim_space}
use combox_backend.Chat.Base.{
  Std, Fault, chat_not_found, message_not_found, poll_not_found, invalid_attachments,
  folder_not_found, folder_name_taken, folder_limit, not_configured, other, Error, invalid_arg,
  forbidden, internal, map_fault, Result, ok, err, Answer, got, failed, Action, ◌>>=◌, ◌>>◌, pure,
  raise, require, ask, tell,
}

pub record Chat : Type 0 where
  pub id : String
  pub is_direct : Bool
  pub kind : String
  pub is_public : Bool
  pub parent_chat_id : Option String

pub record ChatMember : Type 0 where
  pub user_id : String
  pub role : String

-- The methods of `ChatRepository` that are called here: reads answer, writes leave a new store.
pub record Chats (Store : Type 0) : Type 0 where
  pub get_chat : String → Store → Answer Chat
  pub is_chat_member : String → String → Store → Answer Bool
  pub get_chat_member_role : String → String → Store → Answer String
  pub list_chat_member_ids : String → Store → Answer (List String)
  pub list_chat_members : String → Bool → Store → Answer (List ChatMember)
  pub is_public_channel_banned : String → String → Store → Answer Bool
  pub add_chat_members : String → List String → Store → Store × Option Fault
  pub update_chat_member_role : String → String → String → Store → Store × Option Fault
  pub remove_chat_member : String → String → Store → Store × Option Fault
  pub upsert_public_channel_ban : String → String → String → Store → Store × Option Fault
  pub delete_public_channel_ban : String → String → Store → Store × Option Fault
  pub upsert_public_channel_mute : String → String → String → Store → Store × Option Fault
  pub delete_public_channel_mute : String → String → Store → Store × Option Fault

-- The optional id of the parent, trimmed; empty where there is none.
pub parent_of : Chat → String
unfolding trim_space
parent_of chat = elim chat.parent_chat_id [ none ↦ "" | some parent ↦ trim_space parent ]

is_not_found : Fault → Bool
is_not_found chat_not_found = true
is_not_found message_not_found = false
is_not_found poll_not_found = false
is_not_found invalid_attachments = false
is_not_found folder_not_found = false
is_not_found folder_name_taken = false
is_not_found folder_limit = false
is_not_found not_configured = false
is_not_found (other text) = false

-- A role that may be missing: `errors.Is(err, ErrChatNotFound)` is no failure.
unfoldable pub role_if_member : Answer String → Result (Option String)
unfolding is_not_found
role_if_member (got role) = ok (some role)
role_if_member (failed f) = if is_not_found f then ok none else err (internal f)

abbrev pub no_access : Error
no_access = forbidden "error.chat.forbidden"

module _ (std : Std) where
  unfoldable pub kind_of : Chat → String
  unfolding trim_space
  kind_of chat = trim_space (std.to_lower chat.kind)

  -- `isStandaloneChannel`
  unfoldable pub is_standalone_channel : Chat → Bool
  unfolding kind_of parent_of
  is_standalone_channel chat =
      if kind_of chat == "standalone_channel"
      then true
      else if not (kind_of chat == "channel")
      then false
      else parent_of chat == ""

  -- `isGroupChannel`
  unfoldable pub is_group_channel : Chat → Bool
  unfolding kind_of parent_of
  is_group_channel chat =
      if not (kind_of chat == "channel") then false else not (parent_of chat == "")

  -- `IsSavedChat`
  unfoldable pub is_saved_chat : Chat → Bool
  unfolding trim_space
  is_saved_chat chat = std.equal_fold (trim_space chat.kind) "saved"

  role_of : String → String
  unfolding trim_space
  role_of role = trim_space (std.to_lower role)

  -- `canManageMembersByRole`, `canEditChatByRole` and `canCreateChannelByRole`, which are alike.
  unfoldable pub can_manage_members_by_role : String → Bool
  unfolding role_of
  can_manage_members_by_role role =
      role_of role == "owner" || role_of role == "admin" || role_of role == "moderator"

  -- `canManageRolesByRole`, `canPostPublicChannelByRole` and `canViewPublicChannelMembersByRole`,
  -- which are alike.
  unfoldable pub can_manage_roles_by_role : String → Bool
  unfolding role_of
  can_manage_roles_by_role role = role_of role == "owner" || role_of role == "admin"

  module _ {Store : Type 0} (chats : Chats Store) where
    -- The parent's members may read a channel of a group.
    member_of_parent : Chat → String → Action Store (Unit {0})
    unfolding is_group_channel parent_of
    member_of_parent chat user_id =
        if is_group_channel chat
        then (ask (chats.is_chat_member (parent_of chat) user_id) internal >>= λ member.
            require member no_access)
        else raise no_access

    unless_member : String → String → Bool → Action Store (Unit {0})
    unfolding member_of_parent map_fault
    unless_member chat_id user_id true = pure tt
    unless_member chat_id user_id false =
        ask (chats.get_chat chat_id) map_fault >>= λ chat. member_of_parent chat user_id

    -- `ensureChatMember`
    unfoldable pub ensure_chat_member : String → String → Action Store (Unit {0})
    unfolding unless_member
    ensure_chat_member chat_id user_id =
        ask (chats.is_chat_member chat_id user_id) internal >>= unless_member chat_id user_id

    -- A public channel may be read by all but the banned.
    readable_public : String → String → Action Store (Unit {0})
    unfolding role_if_member
    readable_public chat_id user_id = do
      banned ← ask (chats.is_public_channel_banned chat_id user_id) internal
      require (not banned) no_access
      role ← λ s. (s, role_if_member (chats.get_chat_member_role chat_id user_id s))
      require (not (elim role [ none ↦ false | some name ↦ std.equal_fold name "banned" ]))
          no_access

    -- Comments may be read by all who are not banned from the channel.
    readable_thread : Chat → String → Action Store (Unit {0})
    unfolding parent_of
    readable_thread chat user_id = do
      require (not (parent_of chat == "")) no_access
      banned ← ask (chats.is_public_channel_banned (parent_of chat) user_id) internal
      require (not banned) no_access

    readable : String → String → Chat → Action Store (Unit {0})
    unfolding is_standalone_channel kind_of readable_public readable_thread ensure_chat_member
    readable chat_id user_id chat =
        if is_standalone_channel chat && chat.is_public
        then readable_public chat_id user_id
        else if kind_of chat == "comment_thread"
        then readable_thread chat user_id
        else ensure_chat_member chat_id user_id

    -- `ensureChatReadableForViewer`
    unfoldable pub ensure_chat_readable : String → String → Action Store (Unit {0})
    unfolding readable map_fault
    ensure_chat_readable chat_id user_id =
        ask (chats.get_chat chat_id) map_fault >>= readable chat_id user_id
