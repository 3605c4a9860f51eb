-- ===== src/App/Save.antt =====
-- bot/internal/app/handler.go: the save of a message under the exclusion of its tenant.
use undelete.Base.{
  ℕ, suc, Bool, true, Option, none, some, String, List, [], ◌∷◌, ◌++◌, if◌then◌else◌, not, ◌&&◌,
  ◌||◌, ◌==◌, string_comparable,
}
use undelete.Base.Int.{ℤ, pos, int_comparable}
use undelete.Telegram.Split.{Text}
use undelete.Telegram.Alert.{runes}
use undelete.Business.Cache.{Connection}
use undelete.Media.Catalogue.{MediaKey, Record as MediaRecord}
use undelete.Messages.Store.{Record}
use undelete.App.Effects.{
  User, Chat, Attachment, Message, resolved, refused, unavailable, Effect, locked, unlocked,
  re_resolved, saved_message, saved_media, Config, World, Returned, value, failure, Handling,
}
use undelete.App.Commands.{message_text}

-- Two names with a space between, when both are there.
abbrev spaced : Text → Text → Text
spaced name [] = name
spaced [] (r ∷ last) = r ∷ last
spaced (q ∷ name) (r ∷ last) = (q ∷ name) ++ runes " " ++ r ∷ last

unfoldable pub chat_title : Chat → Text
chat_title chat = elim chat.title [
  | [] ↦ spaced chat.first_name chat.last_name
  | r ∷ title ↦ r ∷ title
]

unfoldable pub display_name : User → Text
display_name user = elim user.username [
  | [] ↦ spaced user.first_name user.last_name
  | r ∷ username ↦
      spaced user.first_name user.last_name ++ runes " (@" ++ (r ∷ username) ++ runes ")"
]

unfoldable pub message_type : List Attachment → Text
message_type [] = runes "text"
message_type (a ∷ attachments) = runes a.kind

abbrev pub record_of : Message → Record
record_of msg = record {
  connection = msg.connection;
  chat_id = msg.chat.id;
  message_id = msg.message_id;
  from_user_id = elim msg.sender [ none ↦ none | some user ↦ some user.id ];
  from_display = elim msg.sender [ none ↦ [] | some user ↦ display_name user ];
  message_type = message_type msg.attachments;
  text_content = message_text msg;
  telegram_date = msg.date;
  chat_title = chat_title msg.chat;
  chat_username = msg.chat.username;
  chat_type = msg.chat.kind;
}

abbrev pub is_blank : Message → Bool
is_blank msg = (msg.connection == "") || ((msg.chat.id == pos 0) || (msg.message_id == pos 0))

abbrev pub media_key : ℤ → Message → ℕ → MediaKey
media_key owner msg index = record {
  owner = owner;
  connection = msg.connection;
  chat = msg.chat.id;
  message = msg.message_id;
  file_index = pos index;
}

-- `optional`: zero is not known.
abbrev optional : ℤ → Option ℤ
optional n = if n == pos 0 then none else some n

abbrev pub media_record : Attachment → MediaRecord
media_record a = record {
  telegram_file_id = a.file_id;
  telegram_file_unique_id = a.file_unique_id;
  media_type = a.kind;
  mime_type = a.mime_type;
  file_name = a.file_name;
  byte_size = optional a.byte_size;
  width = optional a.width;
  height = optional a.height;
  duration = optional a.duration;
  media_group = a.media_group;
}

-- The loop over the attachments, from an index on.
unfoldable pub save_media : Config → World → ℤ → Message → ℕ → List Attachment → Handling Bool
save_media c w owner msg index [] = ([], value true)
save_media c w owner msg index (a ∷ attachments) =
    let rest = save_media c w owner msg (suc index) attachments in
    if c.has_quota && not (w.admits_media index)
    then ([], value true)
    else if w.saves_media index
    then (saved_media (media_key owner msg index) (media_record a) ∷ rest.0, rest.1)
    else (saved_media (media_key owner msg index) (media_record a) ∷ [], failure)

-- What `enterSave` and `rechecked` return: no connection, an error, or the connection under the
-- exclusion.
pub data Entered : Type 0 where
  skipped broken : Entered
  entered : Connection → Entered

abbrev pub released : Config → ℤ → List Effect
released c owner = if c.has_guard then unlocked owner ∷ [] else []

unfoldable pub enter_save : Config → World → String → Connection → List Effect × Entered
enter_save c w id conn =
    if not c.has_guard
    then ([], entered conn)
    else if not w.shares
    then ([], broken)
    else elim w.relookup [
      | refused ↦ (locked conn.owner ∷ re_resolved id ∷ unlocked conn.owner ∷ [], skipped)
      | unavailable ↦ (locked conn.owner ∷ re_resolved id ∷ unlocked conn.owner ∷ [], broken)
      | resolved fresh ↦ (locked conn.owner ∷ re_resolved id ∷ [], entered fresh)
    ]

-- The enabled gate of `rechecked`.
abbrev pub gate : Config → ℤ → List Effect × Entered → List Effect × Entered
gate c owner (before, skipped) = (before, skipped)
gate c owner (before, broken) = (before, broken)
gate c owner (before, entered fresh) =
    if fresh.is_enabled then (before, entered fresh) else (before ++ released c owner, skipped)

unfoldable pub rechecked : Config → World → String → Connection → List Effect × Entered
rechecked c w id conn = gate c conn.owner (enter_save c w id conn)

abbrev pub connection_if : Connection → Returned Bool → Returned (Option Connection)
connection_if conn (value b) = value (some conn)
connection_if conn failure = failure

-- The writes of a save.
unfoldable pub write_message :
    Config → World → Message → Bool → Connection → Handling (Option Connection)
write_message c w msg edited conn =
    let media =
      if c.has_media then save_media c w conn.owner msg 0 msg.attachments else ([], value true) in
    if w.saves
    then (saved_message conn.owner (record_of msg) edited ∷ media.0, connection_if conn media.1)
    else (saved_message conn.owner (record_of msg) edited ∷ [], failure)

abbrev pub save_entered :
    Config → World → Message → Bool → ℤ → List Effect × Entered → Handling (Option Connection)
save_entered c w msg edited owner (before, skipped) = (before, value none)
save_entered c w msg edited owner (before, broken) = (before, failure)
save_entered c w msg edited owner (before, entered conn) =
    let written = write_message c w msg edited conn in
    (before ++ written.0 ++ released c owner, written.1)

unfoldable pub save_message : Config → World → Message → Bool → Handling (Option Connection)
save_message c w msg edited = if is_blank msg then ([], value none) else elim w.lookup [
  | refused ↦ ([], value none)
  | unavailable ↦ ([], failure)
  | resolved conn ↦
      if not conn.is_enabled
      then ([], value none)
      else if c.has_quota && not w.admits_capture
      then ([], value none)
      else save_entered c w msg edited conn.owner (rechecked c w msg.connection conn)
]
