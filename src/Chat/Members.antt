-- ===== src/Chat/Members.antt =====
-- internal/service/chat/service_chat_management.go: members and roles.
pub mod Owner
pub mod Authority
use combox_backend.Prelude.{
  ℕ, String, Bool, true, false, not, ◌&&◌, ◌||◌, ◌==◌, if◌then◌else◌, Option, none, some, List, [],
  ◌∷◌, ◌++◌, length, eqb,
}
use combox_backend.Prelude.Text.{trim_space, append_text}
use combox_backend.Prelude.Dict.{Dict, has, insert}
use combox_backend.Chat.Base.{
  Std, Fault, Error, invalid_arg, forbidden, internal, map_fault, Result, ok, err, Answer, Action,
  ◌>>=◌, ◌>>◌, pure, raise, require, ask, tell,
}
use combox_backend.Chat.Events.{Events, record_event}
use combox_backend.Chat.Access.{
  Chat, ChatMember, Chats, no_access, role_if_member, is_standalone_channel, is_saved_chat,
  can_manage_members_by_role, can_manage_roles_by_role, ensure_chat_member,
}

abbrev pub bad_chat_input : Error
bad_chat_input = invalid_arg "error.chat.invalid_input"

-- `dedupeMembers`: the ids that were seen, and those to return.
dedupe_from : Dict (Unit {0}) → List String → List String → List String
unfolding trim_space has insert
dedupe_from seen out [] = out
dedupe_from seen out (raw ∷ raws) =
    let item = trim_space raw in
    let skip = item == "" || has item seen in
    dedupe_from (if skip then seen else insert item tt seen)
      (if skip then out else out ++ item ∷ []) raws

unfoldable pub dedupe_members : List String → List String
unfolding dedupe_from
dedupe_members raw = dedupe_from [] [] raw

-- The set of `existingMemberIDs`.
present : Dict (Unit {0}) → List String → Dict (Unit {0})
unfolding trim_space insert
present set [] = set
present set (raw ∷ raws) =
    let item = trim_space raw in present (if item == "" then set else insert item tt set) raws

-- The members that `AddMembers` adds: neither the caller nor those that are there.
new_from : String → Dict (Unit {0}) → List String → List String
unfolding has trim_space
new_from user_id set [] = []
new_from user_id set (raw ∷ raws) =
    let rest = new_from user_id set raws in
    let item = trim_space raw in
    if item == "" || item == user_id then rest else if has item set then rest else item ∷ rest

unfoldable pub next_members : String → List String → List String → List String
unfolding present new_from dedupe_members
next_members user_id existing ids = new_from user_id (present [] existing) (dedupe_members ids)

abbrev blank2 : String → String → Bool
blank2 a b = a == "" || b == ""

abbrev blank3 : String → String → String → Bool
blank3 a b c = a == "" || b == "" || c == ""

-- The roles that `UpdateMemberRole` may give.
unfoldable pub valid_role : Bool → String → Bool
valid_role standalone role =
    if standalone
    then role == "subscriber" || role == "admin" || role == "banned"
    else role == "member" || role == "moderator" || role == "admin"

module _ (std : Std) {Store : Type 0} (chats : Chats Store) (events : Events Store) where
  event : String → String → String → String → String → Action Store (Unit {0})
  unfolding record_event
  event chat actor target kind detail s =
      (record_event events chat actor target kind detail s, ok tt)

  -- A list for those who may see it.
  listed : Chat → String → String → Bool → Action Store (List ChatMember)
  unfolding is_standalone_channel can_manage_roles_by_role
  listed target user_id chat_id include_banned =
      if is_standalone_channel std target
      then (ask (chats.get_chat_member_role chat_id user_id) internal >>= λ role.
          require (can_manage_roles_by_role std role) no_access
          >> ask (chats.list_chat_members chat_id include_banned) internal)
      else ask (chats.list_chat_members chat_id include_banned) internal

  -- `ListMembers`
  unfoldable pub list_members : String → String → Bool → Action Store (List ChatMember)
  unfolding listed ensure_chat_member trim_space map_fault
  list_members user_id chat_id include_banned = do
    let user = trim_space user_id
    let chat = trim_space chat_id
    require (not (blank2 user chat)) bad_chat_input
    ensure_chat_member std chats chat user
    target ← ask (chats.get_chat chat) map_fault
    listed target user chat include_banned

  -- The events of members who joined.
  joined_events : String → String → List String → Action Store (Unit {0})
  unfolding event
  joined_events chat user [] = pure tt
  joined_events chat user (member ∷ members) =
      event chat user member "member_joined" "" >> joined_events chat user members

  -- `AddMembers`
  unfoldable pub add_members : String → String → List String → Action Store (List ChatMember)
  unfolding is_saved_chat can_manage_members_by_role next_members joined_events list_members
      trim_space map_fault
  add_members user_id chat_id member_ids = do
    let user = trim_space user_id
    let chat = trim_space chat_id
    require (not (blank2 user chat)) bad_chat_input
    target ← ask (chats.get_chat chat) map_fault
    require (not (is_saved_chat std target)) bad_chat_input
    require (not target.is_direct) bad_chat_input
    role ← ask (chats.get_chat_member_role chat user) internal
    require (can_manage_members_by_role std role) no_access
    existing ← ask (chats.list_chat_member_ids chat) internal
    let next = next_members user existing member_ids
    require (not (eqb (length next) 0)) bad_chat_input
    tell (chats.add_chat_members chat next) internal
    joined_events chat user next
    list_members user chat false

  -- `UpdateMemberRole`
  unfoldable pub update_member_role :
      String → String → String → String → Action Store (List ChatMember)
  unfolding is_standalone_channel can_manage_roles_by_role valid_role append_text event list_members
      trim_space map_fault
  update_member_role actor_id chat_id target_id new_role = do
    let actor = trim_space actor_id
    let chat = trim_space chat_id
    let target = trim_space target_id
    let role = trim_space (std.to_lower new_role)
    require (not (blank3 actor chat target)) bad_chat_input
    meta ← ask (chats.get_chat chat) map_fault
    require (valid_role (is_standalone_channel std meta) role) bad_chat_input
    actor_role ← ask (chats.get_chat_member_role chat actor) internal
    require (can_manage_roles_by_role std actor_role) no_access
    target_role ← ask (chats.get_chat_member_role chat target) internal
    require (not (std.equal_fold target_role "owner")) no_access
    tell (chats.update_chat_member_role chat target role) internal
    event chat actor target "role_changed" (append_text "role=" role)
    list_members actor chat false

  -- `RemoveMember`
  unfoldable pub remove_member : String → String → String → Action Store (List ChatMember)
  unfolding can_manage_members_by_role event list_members trim_space
  remove_member actor_id chat_id target_id = do
    let actor = trim_space actor_id
    let chat = trim_space chat_id
    let target = trim_space target_id
    require (not (blank3 actor chat target || actor == target)) bad_chat_input
    actor_role ← ask (chats.get_chat_member_role chat actor) internal
    require (can_manage_members_by_role std actor_role) no_access
    target_role ← ask (chats.get_chat_member_role chat target) internal
    require (not (std.equal_fold target_role "owner")) no_access
    tell (chats.remove_chat_member chat target) internal
    event chat actor target "member_removed" ""
    list_members actor chat false
