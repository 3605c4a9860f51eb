-- ===== src/Messages/Examples.antt =====
-- Runs of the archive: a photo that is deleted.
use undelete.Base.{
  ℕ, ◌≡◌, refl, true, false, none, some, List, [], ◌∷◌, ◌++◌, map, All, keep, length, arith,
}
use undelete.Base.Int.{ℤ, pos}
use undelete.Base.Rows.{count_where}
use undelete.Telegram.Split.{split_loop, split_telegram_text}
use undelete.Telegram.Alert.{
  runes, build_deletion_text, build_deletion_message_requests, chat_line, sender_line,
  format_alert_date,
}
use undelete.Media.Catalogue.{File, stored}
use undelete.Media.Queries.{select_stored, album_anchor, mem_ℤ}
use undelete.Outbox.Row.{exists_row, same_key}
use undelete.Outbox.Store.{insert_tx}
use undelete.Messages.Store.{Record, Archive, save, upsert_chat, upsert_message, sort_records}
use undelete.Messages.Media.{
  MediaAlertScope, MediaGroup, is_for, alert_key, add_file, group_loop, group_media, group_entries,
  enqueue_media_alerts,
}
use undelete.Messages.Deletion.{
  Database, Formats, mark_deleted, insert_all, deletion_entries, text_entries, chunk_entries,
  chat_names,
}
use undelete.Messages.Redelivery.{mark_deleted-redelivered}
use undelete.Messages.Groups.{group_media_lem}
use undelete.Messages.Chunks.{entry_of}
use undelete.Messages.Unique.{
  Transaction, save_message, commit, commit_all, IsUnique, commit_all-IsUnique,
}
use undelete.Messages.Enqueue.{mark_deleted-enqueues}

abbrev formats : Formats
formats = record { date = λ d. runes "2026"; encode = λ p. "json" }

abbrev scope : MediaAlertScope
scope = record { owner = pos 7; owner_telegram = pos 70; connection = "bc"; chat_id = pos 3 }

abbrev photo : Record
photo = record {
  connection = "bc";
  chat_id = pos 3;
  message_id = pos 11;
  from_user_id = some (pos 5);
  from_display = runes "Ann";
  message_type = runes "photo";
  text_content = runes "hi";
  telegram_date = pos 1000;
  chat_title = runes "Ann";
  chat_username = [];
  chat_type = runes "private";
}

abbrev photo_file : File
photo_file = record {
  id = 1;
  key = record {
    owner = pos 7;
    connection = "bc";
    chat = pos 3;
    message = pos 11;
    file_index = pos 0;
  };
  telegram_file_id = "f";
  telegram_file_unique_id = "u";
  media_type = "photo";
  mime_type = none;
  file_name = none;
  byte_size = none;
  width = none;
  height = none;
  duration = none;
  media_group = none;
  relative_path = some (b'a' ∷ []);
  thumbnail = none;
  sha256 = none;
  status = stored;
  created_at = 0;
  updated_at = 0;
}

abbrev no_messages : Archive
no_messages = record { chats = []; messages = [] }

abbrev empty_database : Database
empty_database = record {
  archive = no_messages;
  catalogue = record { files = photo_file ∷ []; next_id = 2 };
  outbox = record { rows = []; next_id = 1 };
}

-- The photo saved, and then saved again by a redelivery.
abbrev saved_twice : List Transaction
saved_twice = save_message 1 (pos 7) photo false ∷ save_message 2 (pos 7) photo false ∷ []

abbrev database : Database
database = record empty_database { archive = save 1 (pos 7) photo false no_messages }

redelivery_keeps_one_row : length ((commit_all saved_twice empty_database).archive.messages) ≡ 1
unfolding commit_all commit save upsert_chat upsert_message
redelivery_keeps_one_row = refl

-- One text chunk and one media entry.
two_alerts :
    length ((mark_deleted formats 5 scope (pos 11 ∷ pos 12 ∷ []) database).0.outbox.rows) ≡ 2
unfolding mark_deleted insert_all insert_tx deletion_entries text_entries chunk_entries save
    upsert_chat upsert_message chat_names sort_records build_deletion_message_requests
    build_deletion_text chat_line sender_line format_alert_date split_telegram_text split_loop
    enqueue_media_alerts group_media group_loop add_file group_entries select_stored album_anchor
    exists_row
two_alerts = refl

mark_deleted-redelivered_example :
    let first = mark_deleted formats 5 scope (pos 11 ∷ pos 12 ∷ []) database in
    let again = mark_deleted formats 9 scope (pos 11 ∷ pos 12 ∷ []) first.0 in
    (again.1 ≡ first.1)
    × (again.0.archive ≡ first.0.archive)
    × (again.0.outbox.rows ≡ first.0.outbox.rows)
mark_deleted-redelivered_example =
    mark_deleted-redelivered formats 5 9 scope (pos 11 ∷ pos 12 ∷ []) database

nothing_saved : IsUnique no_messages.messages
nothing_saved owner connection chat message = omega arith

commit_all-IsUnique_example : IsUnique ((commit_all saved_twice empty_database).archive.messages)
commit_all-IsUnique_example = commit_all-IsUnique saved_twice empty_database nothing_saved

one_saved : IsUnique database.archive.messages
unfolding save upsert_message
one_saved owner connection chat message = ground arith

no_alert :
    (m : ℤ) (chunk : ℕ)
    → mem_ℤ m (pos 11 ∷ pos 12 ∷ []) ≡ true
    → exists_row (λ r. same_key r.key (alert_key scope m chunk)) database.outbox.rows ≡ false
unfolding exists_row
no_alert m chunk e = refl

mark_deleted-enqueues_example :
    let out = mark_deleted formats 5 scope (pos 11 ∷ pos 12 ∷ []) database in
    let names = chat_names scope.owner scope.connection scope.chat_id database.archive.chats in
    map entry_of out.0.outbox.rows
    ≡ map entry_of database.outbox.rows
      ++ deletion_entries formats scope names out.1 database.catalogue
mark_deleted-enqueues_example =
    mark_deleted-enqueues formats 5 scope (pos 11 ∷ pos 12 ∷ []) database one_saved no_alert

abbrev album_file : File
album_file = record photo_file { id = 2; media_group = some "g" }

group_media_lem_example :
    let groups = group_media (photo_file ∷ album_file ∷ []) (λ id. some (pos 4)) in
    All (λ (g : MediaGroup). g.files ≡ keep (λ f. is_for f g) (photo_file ∷ album_file ∷ [])) groups
    × All (λ (f : File). count_where (is_for f) groups ≡ 1) (photo_file ∷ album_file ∷ [])
group_media_lem_example = group_media_lem (photo_file ∷ album_file ∷ []) (λ id. some (pos 4))
