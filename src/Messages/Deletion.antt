-- ===== src/Messages/Deletion.antt =====
-- bot/internal/messages/repository.go: MarkDeleted, one transaction on messages, chats, media_files
-- and notification_outbox.
use undelete.Base.{
  ℕ, suc, Bool, ◌&&◌, Option, none, some, List, [], ◌∷◌, ◌++◌, String, ◌==◌, string_comparable, map,
  keep,
}
use undelete.Base.Int.{ℤ, int_comparable}
use undelete.Base.Rows.{set_where}
use undelete.Telegram.Split.{Text}
use undelete.Telegram.Alert.{SendMessageRequest, DeletionAlert, build_deletion_message_requests}
use undelete.Media.Catalogue.{Catalogue}
use undelete.Media.Queries.{mem_ℤ}
use undelete.Outbox.Row.{MediaPayload, text_kind, Table}
use undelete.Outbox.Store.{insert_tx}
use undelete.Messages.Store.{Chat, Message, Archive, is_chat, DeletedRecord, returned, sort_records}
use undelete.Messages.Media.{
  MediaAlertScope, Entry, ChunkCount, set_count, alert_key, enqueue_media_alerts,
}

pub record Database : Type 0 where
  pub archive : Archive
  pub catalogue : Catalogue
  pub outbox : Table

-- What the transaction uses of other packages: the date layout and the JSON encoder.
pub record Formats : Type 0 where
  pub date : ℤ → Text
  pub encode : MediaPayload → String

-- The title and the user name of the chat, empty when there is no row.
unfoldable pub chat_names : ℤ → String → ℤ → List Chat → Text × Text
chat_names owner connection chat cs = elim (keep (is_chat owner connection chat) cs) [
  | [] ↦ ([], [])
  | c ∷ _ ↦ (c.title, c.username)
]

abbrev pub is_deleted : MediaAlertScope → List ℤ → Message → Bool
is_deleted scope ids m =
    (m.owner == scope.owner)
    && ((m.connection == scope.connection)
        && ((m.chat_id == scope.chat_id) && mem_ℤ m.message_id ids))

-- `COALESCE(deleted_at, now())`.
abbrev pub or_now : ℕ → Option ℕ → Option ℕ
or_now now none = some now
or_now now (some t) = some t

abbrev pub marked : ℕ → Message → Message
marked now m = record m { deleted_at = or_now now m.deleted_at }

abbrev pub alert_of : MediaAlertScope → Text × Text → DeletedRecord → DeletionAlert
alert_of scope names d = record {
  owner_telegram = scope.owner_telegram;
  chat_id = d.chat_id;
  chat_title = names.0;
  chat_username = names.1;
  from_display = d.from_display;
  from_user_id = d.from_user_id;
  message_type = d.message_type;
  telegram_date = d.telegram_date;
  content = d.text_content;
}

-- The chunks of one message, from an index on, and the count after them.
unfoldable pub chunk_entries :
    MediaAlertScope
    → DeletedRecord
    → ℕ
    → List SendMessageRequest
    → ChunkCount
    → List Entry × ChunkCount
chunk_entries scope d index [] counts = ([], counts)
chunk_entries scope d index (r ∷ rs) counts =
    let rest = chunk_entries scope d (suc index) rs (set_count d.message_id (suc index) counts) in
    (
      record {
        key = record (alert_key scope d.message_id index) { chat = d.chat_id };
        text = r.text;
        kind = text_kind;
        media_payload = "";
      }
          ∷ rest.0,
      rest.1,
    )

unfoldable pub text_entries :
    (ℤ → Text)
    → MediaAlertScope
    → Text × Text
    → List DeletedRecord
    → ChunkCount
    → List Entry × ChunkCount
text_entries date scope names [] counts = ([], counts)
text_entries date scope names (d ∷ ds) counts =
    let mine =
      chunk_entries scope d 0 (build_deletion_message_requests date (alert_of scope names d))
        counts in
    let rest = text_entries date scope names ds mine.1 in (mine.0 ++ rest.0, rest.1)

-- Everything that is inserted for the records of a deletion, in order.
unfoldable pub deletion_entries :
    Formats → MediaAlertScope → Text × Text → List DeletedRecord → Catalogue → List Entry
deletion_entries formats scope names found c =
    let texts = text_entries formats.date scope names found (λ m. 0) in
    texts.0 ++ enqueue_media_alerts formats.encode scope found texts.1 c

unfoldable pub insert_all : ℕ → ℤ → List Entry → Table → Table
insert_all now owner_telegram [] t = t
insert_all now owner_telegram (e ∷ es) t =
    insert_all now owner_telegram es
      (insert_tx now e.key owner_telegram e.text e.kind e.media_payload t)

-- The transaction when it commits; one that fails leaves the tables as they were and returns its
-- error.
unfoldable pub mark_deleted :
    Formats → ℕ → MediaAlertScope → List ℤ → Database → Database × List DeletedRecord
mark_deleted formats now scope ids db =
    let hit = is_deleted scope ids in
    let names = chat_names scope.owner scope.connection scope.chat_id db.archive.chats in
    let messages = set_where hit (marked now) db.archive.messages in
    let found = sort_records (map returned (keep hit messages)) in
    let entries = deletion_entries formats scope names found db.catalogue in
    (
      record db {
        archive = record (db.archive) { messages = messages };
        outbox = insert_all now scope.owner_telegram entries db.outbox;
      },
      found,
    )
