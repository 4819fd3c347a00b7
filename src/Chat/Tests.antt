-- ===== src/Chat/Tests.antt =====
-- The theorems about the members of chats and their journal at a concrete chat.
use combox_backend.Prelude.{
  String, Bool, true, false, ◌==◌, eq_iff, Option, none, some, List, [], ◌∷◌, any, ◌≤◌, ◌≡◌, refl,
  sym, ap, arith, if◌then◌else◌,
}
use combox_backend.Prelude.Text.{trim_space}
use combox_backend.Chat.Base.{Std, chat_not_found, Answer, got, failed}
use combox_backend.Chat.Events.{Events, record_event}
use combox_backend.Chat.Access.{Chat, Chats, can_manage_members_by_role}
use combox_backend.Chat.Members.{update_member_role, remove_member}
use combox_backend.Chat.Members.Authority.{
  Ruled, Promoted, update_member_role-Promoted, remove_member-Ruled,
}
use combox_backend.Chat.Members.Owner.{
  Lawful, Request, promotes, unsubscribes, serve_all, serve_all-owner,
}
use combox_backend.Chat.Events.{chat_event_payload}
use combox_backend.Chat.Events.Payload.{on_a_line, chat_event_payload_bounds}
use combox_backend.Prelude.Text.{rune_length}

abbrev pub std : Std
std = record { to_lower = λ s. s; equal_fold = λ a b. a == b; parse_uuid = λ s. true }

-- One group: the roles of its members.
abbrev pub Roles : Type 0
Roles = String → Option String

abbrev role_answer : Option String → Answer String
role_answer none = failed chat_not_found
role_answer (some role) = got role

abbrev joined_as : Bool → Option String → Option String
joined_as new none = if new then some "member" else none
joined_as new (some role) = some role

abbrev pub group : Chat
group = record {
  id = "c";
  is_direct = false;
  kind = "group";
  is_public = false;
  parent_chat_id = none;
}

abbrev pub chats : Chats Roles
chats = record {
  get_chat = λ c s. got group;
  is_chat_member = λ c u s. got (elim (s u) [ none ↦ false | some role ↦ true ]);
  get_chat_member_role = λ c u s. role_answer (s u);
  list_chat_member_ids = λ c s. got ("ann" ∷ "bob" ∷ []);
  list_chat_members = λ c banned s. got [];
  is_public_channel_banned = λ c u s. got false;
  add_chat_members = λ c ids s. ((λ u. joined_as (any (λ id. id == u) ids) (s u)), none);
  update_chat_member_role = λ c u role s. ((λ x. if x == u then some role else s x), none);
  remove_chat_member = λ c u s. ((λ x. if x == u then none else s x), none);
  upsert_public_channel_ban = λ c u a s. (s, none);
  delete_public_channel_ban = λ c u s. (s, none);
  upsert_public_channel_mute = λ c u a s. (s, none);
  delete_public_channel_mute = λ c u s. (s, none);
}

abbrev silent : Events Roles
silent = record {
  configured = true;
  record_chat_event = λ event s. (s, none);
  list_chat_events = λ chat limit s. got [];
}

joined_as-member :
    (new : Bool) (held : Option String) (role : String)
    → role_answer held ≡ got role
    → role_answer (joined_as new held) ≡ got role
joined_as-member new none role h = ground arith
joined_as-member new (some other) role h = h

laws : Lawful chats silent
laws = record {
  same = λ c u c' u'. u' == u;
  same_role = λ c u c' u' s alike. ap (λ x. role_answer (s x)) (sym ((eq_iff u' u).0 alike));
  updates = λ c u role c' u' s apart. rw apart refl;
  removes = λ c u c' u' s apart. rw apart refl;
  adds = λ c ids c' u' role s h. joined_as-member (any (λ id. id == u') ids) (s u') role h;
  bans = λ c u a c' u' s. refl;
  unbans = λ c u c' u' s. refl;
  mutes = λ c u a c' u' s. refl;
  unmutes = λ c u c' u' s. refl;
  records = λ event c' u' s. refl;
}

abbrev pub roles : Roles
roles user =
    if user == "ann"
    then some "owner"
    else if user == "bob"
    then some "admin"
    else if user == "cat"
    then some "member"
    else none

abbrev attempts : List Request
attempts =
    promotes "bob" "c" "ann" "member"
    ∷ Request.removes "bob" "c" "ann"
    ∷ Request.removes "bob" "c" "cat"
    ∷ Request.adds "bob" "c" ("ann" ∷ "dan" ∷ [])
    ∷ unsubscribes "ann" "c"
    ∷ []

serve_all-owner_example :
    chats.get_chat_member_role "c" "ann" (serve_all std chats silent attempts roles) ≡ got "owner"
serve_all-owner_example = serve_all-owner std chats silent laws "c" "ann" refl attempts roles refl

update_member_role-Promoted_example :
    Promoted std chats silent "c" "bob" "cat" "moderator" roles
      (update_member_role std chats silent "bob" "c" "cat" "moderator" roles)
unfolding trim_space
update_member_role-Promoted_example =
    update_member_role-Promoted std chats silent "bob" "c" "cat" "moderator" roles

remove_member-Ruled_example :
    Ruled std chats silent
      (can_manage_members_by_role std)
      "c"
      "bob"
      "ann"
      (chats.remove_chat_member "c" "ann")
      (record_event silent "c" "bob" "ann" "member_removed" "")
      roles
      (remove_member std chats silent "bob" "c" "ann" roles)
unfolding trim_space
remove_member-Ruled_example = remove_member-Ruled std chats silent "bob" "c" "ann" roles

chat_event_payload_bounds_example :
    (on_a_line (chat_event_payload " title\n  of a  chat ") ≡ true)
    × (rune_length (chat_event_payload " title\n  of a  chat ") ≤ 161)
chat_event_payload_bounds_example = chat_event_payload_bounds " title\n  of a  chat "
