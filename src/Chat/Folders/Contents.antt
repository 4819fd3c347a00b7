-- ===== src/Chat/Folders/Contents.antt =====
-- internal/service/chat/service_chat_folders.go: what may stand in a folder, and when one is written.
use combox_backend.Prelude.{
  ◌≤◌, String, true, false, not, ◌||◌, ◌==◌, ltb, if_both, List, [], ◌∷◌, length, NoRepeat, All,
  ◌≡◌, refl, arith,
}
use combox_backend.Prelude.Text.{trim_space, rune_length}
use combox_backend.Prelude.Dict.{has}
use combox_backend.Prelude.Chosen.{
  Chosen, none_chosen, IsChosen, none_chosen-IsChosen, with_choice-IsChosen,
}
use combox_backend.Chat.Base.{Std, Error, Result, ok, err, Answer, Holds, ◌>>=◌, ◌>>◌, lift, pure}
use combox_backend.Chat.Access.{Chats, ensure_chat_member}
use combox_backend.Chat.Access.Reads.{ensure_chat_member-Keeps}
use combox_backend.Chat.Steps.{
  Keeps, bind_cases, bind-Keeps, require_cases, lift-Keeps, pure-Keeps, ok-Holds, Holds-weaken,
}
use combox_backend.Chat.Folders.{
  ChatFolder, CreateChatFolderInput, Folders, found_folder, max_chat_folder_chats,
  normalize_chat_folder_name, normalize_chat_folder_icon, pick_chat, picked_from, picked_ids,
  change, folder_repo, member_of_all, normalize_chat_folder_chat_ids, create_chat_folder,
  set_chat_folder_chats,
}

abbrev IsUuid : Std → String → Type 0
IsUuid std id = std.parse_uuid id ≡ true

pick_chat-IsChosen :
    (std : Std) (p : Chosen) (raw : String)
    → IsChosen (IsUuid std) p
    → Holds (IsChosen (IsUuid std)) (pick_chat std p raw)
unfolding pick_chat
pick_chat-IsChosen std p raw h =
    let id = trim_space raw in
    if_both (Holds (IsChosen (IsUuid std))) (id == "" || has id p.seen) (λ skipped. h)
      (λ fresh.
        if_both (Holds (IsChosen (IsUuid std))) (not (std.parse_uuid id)) (λ bad. tt)
          (λ good. with_choice-IsChosen (IsUuid std) p id h (ground arith) (ground arith)))

-- UUIDs, each once, a thousand at most.
pub record IsPicked (std : Std) (ids : List String) : Type 0 where
  pub uuids : All (λ id. std.parse_uuid id ≡ true) ids
  pub once : NoRepeat ids
  pub few : length ids ≤ 1000

picked_from-IsPicked :
    (std : Std) (p : Result Chosen) (raws : List String)
    → Holds (IsChosen (IsUuid std)) p
    → Holds (IsPicked std) (picked_from std p raws)
unfolding picked_from
picked_from-IsPicked std (err e) raws h = tt
picked_from-IsPicked std (ok p) [] h =
    if_both (Holds (IsPicked std)) (ltb max_chat_folder_chats (length p.out)) (λ many. tt)
      (λ fit. record { uuids = h.kind; once = h.once; few = ground arith })
picked_from-IsPicked std (ok p) (raw ∷ raws) h =
    picked_from-IsPicked std (pick_chat std p raw) raws (pick_chat-IsChosen std p raw h)

picked_ids-IsPicked : (std : Std) (raws : List String) → Holds (IsPicked std) (picked_ids std raws)
unfolding picked_ids
picked_ids-IsPicked std raws =
    picked_from-IsPicked std (ok none_chosen) raws (none_chosen-IsChosen (IsUuid std))

-- A trimmed text of 1 to 32 characters, and one of 64 at most.
pub IsName : String → Type 0
IsName name = ((name == "") ≡ false) × (rune_length name ≤ 32)

normalize_chat_folder_name-IsName : (raw : String) → Holds IsName (normalize_chat_folder_name raw)
unfolding normalize_chat_folder_name IsName
normalize_chat_folder_name-IsName raw =
    if_both (Holds IsName) (trim_space raw == "" || ltb 32 (rune_length (trim_space raw)))
      (λ bad. tt) (λ good. (ground arith, ground arith))

normalize_chat_folder_icon-short :
    (raw : String) → Holds (λ icon. rune_length icon ≤ 64) (normalize_chat_folder_icon raw)
unfolding normalize_chat_folder_icon
normalize_chat_folder_icon-short raw =
    if_both (Holds (λ icon. rune_length icon ≤ 64)) (ltb 64 (rune_length (trim_space raw)))
      (λ bad. tt) (λ good. ground arith)

module _ (std : Std) {Store : Type 0} (chats : Chats Store) (folders : Folders Store) where
  member_of_all-Keeps :
      (user : String) (ids : List String) → Keeps (member_of_all std chats folders user ids)
  unfolding member_of_all
  member_of_all-Keeps user [] = pure-Keeps _
  member_of_all-Keeps user (id ∷ ids) =
      bind-Keeps _ _ (ensure_chat_member-Keeps std chats id user)
        (λ u. member_of_all-Keeps user ids)

  abbrev Member : String → Store → String → Type 0
  Member user s id = (ensure_chat_member std chats id user s).1 ≡ ok tt

  member_of_all-Member :
      (user : String) (ids : List String) (s : Store)
      → Holds (λ u. All (Member user s) ids) (member_of_all std chats folders user ids s).1
  unfolding member_of_all pure
  member_of_all-Member user [] s = tt
  member_of_all-Member user (id ∷ ids) s =
      bind_cases
        (λ (out : Store × Result (Unit {0})). Holds (λ u. All (Member user s) (id ∷ ids)) out.1) _ _
        s (ensure_chat_member-Keeps std chats id user) (λ e. tt)
        (λ u passed.
          Holds-weaken (λ u. All (Member user s) ids) (λ u. All (Member user s) (id ∷ ids))
            (member_of_all std chats folders user ids s).1 (λ u rest. (passed, rest))
            (member_of_all-Member user ids s))

  -- What a folder of a user may hold: a thousand UUIDs at most, each once, of chats that have the user
  -- for a member, or that are channels of a group which has.
  pub record MayHold (user : String) (s : Store) (ids : List String) : Type 0 where
    pub picked : IsPicked std ids
    pub member : All (λ id. (ensure_chat_member std chats id user s).1 ≡ ok tt) ids

  normalize-Keeps :
      (user : String) (raws : List String)
      → Keeps (normalize_chat_folder_chat_ids std chats folders user raws)
  unfolding normalize_chat_folder_chat_ids
  normalize-Keeps user raws =
      bind-Keeps _ _ (lift-Keeps _)
        (λ ids. bind-Keeps _ _ (member_of_all-Keeps user ids) (λ u. pure-Keeps _))

  normalize-MayHold :
      (user : String) (raws : List String) (s : Store)
      → Holds (MayHold user s) (normalize_chat_folder_chat_ids std chats folders user raws s).1
  unfolding normalize_chat_folder_chat_ids lift pure
  normalize-MayHold user raws s =
      let P = λ (out : Store × Result (List String)). Holds (MayHold user s) out.1 in
      bind_cases P _ _ s (lift-Keeps (picked_ids std raws)) (λ e. tt)
        (λ ids given.
          bind_cases P _ _ s (member_of_all-Keeps user ids) (λ e. tt)
            (λ u passed. record {
              picked = ok-Holds (IsPicked std) _ ids (picked_ids-IsPicked std raws) given;
              member =
                  ok-Holds (λ u. All (Member user s) ids) _ u (member_of_all-Member user ids s)
                    passed;
            }))

  -- How an operation that writes a folder ends: refused with the store as it was, or with the one write,
  -- for a chat list that the folder may hold.
  pub data Saved (user : String) (s : Store)
      (write : List String → Store → Store × Answer ChatFolder) (out : Store × Result ChatFolder)
      : Type 0 where
    refused : out.0 ≡ s → (e : Error) → out.1 ≡ err e → Saved user s write out
    wrote :
        (ids : List String)
        → MayHold user s ids
        → out ≡ ((write ids s).0, found_folder (write ids s).1)
        → Saved user s write out

  refuse :
      (user : String) (s : Store) (write : List String → Store → Store × Answer ChatFolder)
      (e : Error)
      → Saved user s write (s, err e)
  refuse user s write e = refused refl e refl

  change-found :
      (write : Store → Store × Answer ChatFolder) (s : Store)
      → change std chats folders write s ≡ ((write s).0, found_folder (write s).1)
  unfolding change
  change-found write s = refl

  -- The chat list, the repository, and the write.
  save-Saved :
      (user : String) (raws : List String) (s : Store)
      (write : List String → Store → Store × Answer ChatFolder)
      → Saved user s write (
          (normalize_chat_folder_chat_ids std chats folders user raws >>= λ ids.
          folder_repo std chats folders >> change std chats folders (write ids))
            s)
  unfolding folder_repo
  save-Saved user raws s write =
      let refuse' = refuse user s write in
      bind_cases (Saved user s write) _ _ s (normalize-Keeps user raws) refuse' (λ ids given.
        require_cases (Saved user s write) _ _ _ s refuse' (λ configured.
          wrote ids (ok-Holds (MayHold user s) _ ids (normalize-MayHold user raws s) given)
            (change-found (write ids) s)))

  -- `SetChatFolderChats`: refused without a write, or the one write puts ids into the folder that are
  -- UUIDs, each once, a thousand at most, and that the member check of chats lets through
  -- for the user.
  pub set_chat_folder_chats-Saved :
      (user_id folder_id : String) (raws : List String) (s : Store)
      → Saved
          (trim_space user_id)
          s
          (folders.replace_chat_folder_chats (trim_space user_id) (trim_space folder_id))
          (set_chat_folder_chats std chats folders user_id folder_id raws s)
  unfolding set_chat_folder_chats
  set_chat_folder_chats-Saved user_id folder_id raws s =
      let user = trim_space user_id in
      let folder = trim_space folder_id in
      let write = folders.replace_chat_folder_chats user folder in
      let refuse' = refuse user s write in
      require_cases (Saved user s write) _ _ _ s refuse' (λ someone.
        require_cases (Saved user s write) _ _ _ s refuse' (λ known. save-Saved user raws s write))

  pub new_folder : String → String → String → List String → CreateChatFolderInput
  new_folder user name icon ids = record {
    user_id = user;
    name = name;
    icon = icon;
    chat_ids = ids;
  }

  -- How `CreateChatFolder` ends: refused with the store as it was, or as `Saved` says for a name and an
  -- icon that fit.
  pub data Created (user : String) (s : Store) (out : Store × Result ChatFolder) : Type 0 where
    refused : out.0 ≡ s → (e : Error) → out.1 ≡ err e → Created user s out
    saved :
        (name icon : String)
        → IsName name
        → rune_length icon ≤ 64
        → Saved user s (λ ids. folders.create_chat_folder (new_folder user name icon ids) 12) out
        → Created user s out

  refuse_new : (user : String) (s : Store) (e : Error) → Created user s (s, err e)
  refuse_new user s e = Created.refused refl e refl

  -- `CreateChatFolder`: refused without a write, or the one write makes a folder with a name of 1 to 32
  -- characters, an icon of 64 at most, and chats as in `SetChatFolderChats`.
  pub create_chat_folder-Created :
      (input : CreateChatFolderInput) (s : Store)
      → Created (trim_space input.user_id) s (create_chat_folder std chats folders input s)
  unfolding create_chat_folder lift new_folder
  create_chat_folder-Created input s =
      let user = trim_space input.user_id in
      let refuse' = λ (e : Error). refuse_new user s e in
      require_cases (Created user s) _ _ _ s refuse' (λ someone.
        bind_cases (Created user s) _ _ s (lift-Keeps (normalize_chat_folder_name input.name))
          refuse'
          (λ name named.
            bind_cases (Created user s) _ _ s (lift-Keeps (normalize_chat_folder_icon input.icon))
              refuse'
              (λ icon drawn.
                saved name icon
                  (ok-Holds IsName _ name (normalize_chat_folder_name-IsName input.name) named)
                  (ok-Holds (λ icon. rune_length icon ≤ 64) _ icon
                    (normalize_chat_folder_icon-short input.icon) drawn)
                  (save-Saved user input.chat_ids s
                    (λ ids. folders.create_chat_folder (new_folder user name icon ids) 12)))))
