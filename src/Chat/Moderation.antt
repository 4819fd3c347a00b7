-- ===== src/Chat/Moderation.antt =====
-- internal/service/chat/service_chat_management.go: bans and mutes in a public channel, and leaving
-- it.
use combox_backend.Prelude.{String, Bool, not, ◌&&◌, ◌||◌, ◌==◌, Option, none, some}
use combox_backend.Prelude.Text.{trim_space}
use combox_backend.Chat.Base.{
  Std, Error, invalid_arg, internal, map_fault, ok, Action, ◌>>=◌, ◌>>◌, pure, require, ask, tell,
}
use combox_backend.Chat.Events.{Events, record_event}
use combox_backend.Chat.Access.{
  Chats, no_access, role_if_member, is_standalone_channel, can_manage_roles_by_role,
}

abbrev pub bad_channel_input : Error
bad_channel_input = invalid_arg "error.chat.invalid_input"

module _ (std : Std) {Store : Type 0} (chats : Chats Store) (events : Events Store) where
  -- The checks that the operations on a channel begin with, on trimmed ids.
  unfoldable pub may_moderate : String → String → Bool → Action Store (Unit {0})
  unfolding is_standalone_channel can_manage_roles_by_role map_fault
  may_moderate actor channel_id blank = do
    require (not blank) bad_channel_input
    channel ← ask (chats.get_chat channel_id) map_fault
    require (is_standalone_channel std channel) bad_channel_input
    role ← ask (chats.get_chat_member_role channel_id actor) map_fault
    require (can_manage_roles_by_role std role) no_access

  unfoldable pub note : String → String → String → String → Action Store (Unit {0})
  unfolding record_event
  note channel actor target kind s = (record_event events channel actor target kind "" s, ok tt)

  abbrev any_blank : String → String → String → Bool
  any_blank a b c = a == "" || b == "" || c == ""

  -- `BanPublicChannelUser`
  unfoldable pub ban : String → String → String → Action Store (Unit {0})
  unfolding may_moderate note trim_space
  ban actor_id channel_id target_id = do
    let actor = trim_space actor_id
    let channel = trim_space channel_id
    let target = trim_space target_id
    may_moderate actor channel (any_blank actor channel target)
    tell (chats.upsert_public_channel_ban channel target actor) internal
    note channel actor target "banned"

  -- `UnbanPublicChannelUser`
  unfoldable pub unban : String → String → String → Action Store (Unit {0})
  unfolding may_moderate note trim_space
  unban actor_id channel_id target_id = do
    let actor = trim_space actor_id
    let channel = trim_space channel_id
    let target = trim_space target_id
    may_moderate actor channel (any_blank actor channel target)
    tell (chats.delete_public_channel_ban channel target) internal
    note channel actor target "unbanned"

  -- `MutePublicChannelUser`
  unfoldable pub mute : String → String → String → Action Store (Unit {0})
  unfolding may_moderate trim_space
  mute actor_id channel_id target_id = do
    let actor = trim_space actor_id
    let channel = trim_space channel_id
    let target = trim_space target_id
    may_moderate actor channel (any_blank actor channel target)
    tell (chats.upsert_public_channel_mute channel target actor) internal

  -- `UnmutePublicChannelUser`
  unfoldable pub unmute : String → String → String → Action Store (Unit {0})
  unfolding may_moderate trim_space
  unmute actor_id channel_id target_id = do
    let actor = trim_space actor_id
    let channel = trim_space channel_id
    let target = trim_space target_id
    may_moderate actor channel (any_blank actor channel target)
    tell (chats.delete_public_channel_mute channel target) internal

  -- Who is no subscriber has nothing to leave; the owner may not.
  unfoldable pub leave_as : String → String → Option String → Action Store (Unit {0})
  leave_as user channel none = pure tt
  leave_as user channel (some role) =
      require (not (std.equal_fold role "owner")) no_access
      >> tell (chats.remove_chat_member channel user) internal

  -- `UnsubscribePublicChannel`
  unfoldable pub unsubscribe : String → String → Action Store (Unit {0})
  unfolding is_standalone_channel role_if_member leave_as trim_space map_fault
  unsubscribe user_id chat_id = do
    let user = trim_space user_id
    let chat = trim_space chat_id
    require (not (user == "" || chat == "")) bad_channel_input
    target ← ask (chats.get_chat chat) map_fault
    require (is_standalone_channel std target && target.is_public) bad_channel_input
    role ← λ s. (s, role_if_member (chats.get_chat_member_role chat user s))
    leave_as user chat role
