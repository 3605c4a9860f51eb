-- ===== src/Messages/Store.antt =====
-- bot/internal/messages/repository.go: the tables messages and chats and their statements, each one
-- transaction that sees the rows of its tenant. `now` is the database's clock.
use undelete.Base.{
  ℕ, ◌+◌, ◌*◌, Bool, true, false, ◌&&◌, Option, none, some, List, [], ◌∷◌, ◌++◌, String,
  if◌then◌else◌, ◌==◌, nat_comparable, string_comparable, nat_beq,
}
use undelete.Base.Int.{ℤ, int_comparable, leb_ℤ}
use undelete.Base.Rows.{set_where, remove_where, count_where}
use undelete.Telegram.Split.{Text}
use undelete.Media.Queries.{day, is_older}

-- `Record`.
pub record Record : Type 0 where
  pub connection : String
  pub chat_id : ℤ
  pub message_id : ℤ
  pub from_user_id : Option ℤ
  pub from_display : Text
  pub message_type : Text
  pub text_content : Text
  pub telegram_date : ℤ
  pub chat_title : Text
  pub chat_username : Text
  pub chat_type : Text

-- A row of chats.
pub record Chat : Type 0 where
  pub owner : ℤ
  pub connection : String
  pub chat_id : ℤ
  pub title : Text
  pub username : Text
  pub kind : Text
  pub last_seen_at : ℕ

-- A row of messages.
pub record Message : Type 0 where
  pub owner : ℤ
  pub connection : String
  pub chat_id : ℤ
  pub message_id : ℤ
  pub from_user_id : Option ℤ
  pub from_display : Text
  pub message_type : Text
  pub text_content : Text
  pub telegram_date : ℤ
  pub saved_at : ℕ
  pub edited_at : Option ℕ
  pub deleted_at : Option ℕ

pub record Archive : Type 0 where
  pub chats : List Chat
  pub messages : List Message

abbrev pub is_chat : ℤ → String → ℤ → Chat → Bool
is_chat owner connection chat c =
    (c.owner == owner) && ((c.connection == connection) && (c.chat_id == chat))

abbrev pub is_message : ℤ → String → ℤ → ℤ → Message → Bool
is_message owner connection chat message m =
    (m.owner == owner)
    && ((m.connection == connection) && ((m.chat_id == chat) && (m.message_id == message)))

-- `CASE WHEN new <> '' THEN new ELSE old END`.
abbrev pub replaced : Text → Text → Text
replaced [] old = old
replaced (r ∷ new) old = r ∷ new

abbrev relabelled : ℕ → Record → Chat → Chat
relabelled now m c = record c {
  title = replaced m.chat_title c.title;
  username = replaced m.chat_username c.username;
  kind = replaced m.chat_type c.kind;
  last_seen_at = now;
}

unfoldable pub upsert_chat : ℕ → ℤ → Record → List Chat → List Chat
upsert_chat now owner m cs =
    let same = is_chat owner m.connection m.chat_id in
    if nat_beq (count_where same cs) 0
    then cs
      ++ record {
        owner = owner;
        connection = m.connection;
        chat_id = m.chat_id;
        title = m.chat_title;
        username = m.chat_username;
        kind = m.chat_type;
        last_seen_at = now;
      }
        ∷ []
    else set_where same (relabelled now m) cs

abbrev pub fresh_message : ℕ → ℤ → Record → Bool → Message
fresh_message now owner m edited = record {
  owner = owner;
  connection = m.connection;
  chat_id = m.chat_id;
  message_id = m.message_id;
  from_user_id = m.from_user_id;
  from_display = m.from_display;
  message_type = m.message_type;
  text_content = m.text_content;
  telegram_date = m.telegram_date;
  saved_at = now;
  edited_at = if edited then some now else none;
  deleted_at = none;
}

-- The conflict clause.
abbrev pub rewritten : ℕ → Record → Bool → Message → Message
rewritten now m edited row = record row {
  text_content = m.text_content;
  message_type = m.message_type;
  from_user_id = m.from_user_id;
  from_display = m.from_display;
  edited_at = if edited then some now else row.edited_at;
}

unfoldable pub upsert_message : ℕ → ℤ → Record → Bool → List Message → List Message
upsert_message now owner m edited ms =
    let same = is_message owner m.connection m.chat_id m.message_id in
    if nat_beq (count_where same ms) 0
    then ms ++ fresh_message now owner m edited ∷ []
    else set_where same (rewritten now m edited) ms

unfoldable pub save : ℕ → ℤ → Record → Bool → Archive → Archive
save now owner m edited a = record {
  chats = upsert_chat now owner m a.chats;
  messages = upsert_message now owner m edited a.messages;
}

unfoldable pub count_by_owner : ℤ → Archive → ℕ
count_by_owner owner a = count_where (λ (m : Message). m.owner == owner) a.messages

unfoldable pub delete_tenant : ℤ → Archive → Archive × ℕ × ℕ
delete_tenant owner a =
    let mine = λ (m : Message). m.owner == owner in
    let labels = λ (c : Chat). c.owner == owner in
    (
      record { chats = remove_where labels a.chats; messages = remove_where mine a.messages },
      count_where mine a.messages,
      count_where labels a.chats,
    )

-- `users.TenantRetention`.
pub record TenantRetention : Type 0 where
  pub owner : ℤ
  pub days : ℕ

abbrev pub is_expired : ℕ → TenantRetention → Message → Bool
is_expired now t m = (m.owner == t.owner) && is_older now (t.days * day) m.saved_at

-- The loop over the tenants; each deletion commits by itself, and the first that fails ends it. A
-- tenant comes with whether its transaction succeeds.
unfoldable pub purge_expired : ℕ → List (TenantRetention × Bool) → ℕ → Archive → Archive × ℕ × Bool
purge_expired now [] purged a = (a, purged, true)
purge_expired now (t ∷ ts) purged a =
    let gone = is_expired now t.0 in
    let rest =
      purge_expired now ts (purged + count_where gone a.messages)
        (record a { messages = remove_where gone a.messages }) in
    if t.1 then rest else (a, purged, false)

-- `DeletedRecord`.
pub record DeletedRecord : Type 0 where
  pub chat_id : ℤ
  pub message_id : ℤ
  pub from_user_id : Option ℤ
  pub from_display : Text
  pub message_type : Text
  pub text_content : Text
  pub telegram_date : ℤ

abbrev pub returned : Message → DeletedRecord
returned m = record {
  chat_id = m.chat_id;
  message_id = m.message_id;
  from_user_id = m.from_user_id;
  from_display = m.from_display;
  message_type = m.message_type;
  text_content = m.text_content;
  telegram_date = m.telegram_date;
}

abbrev pub insert_record : DeletedRecord → List DeletedRecord → List DeletedRecord
insert_record d [] = d ∷ []
insert_record d (e ∷ ds) =
    let rest = insert_record d ds in
    if leb_ℤ d.message_id e.message_id then d ∷ e ∷ ds else e ∷ rest

-- `sort.Slice` by message id.
unfoldable pub sort_records : List DeletedRecord → List DeletedRecord
sort_records [] = []
sort_records (d ∷ ds) = insert_record d (sort_records ds)
