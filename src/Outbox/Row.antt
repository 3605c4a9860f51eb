-- ===== src/Outbox/Row.antt =====
-- bot/internal/outbox: a row of notification_outbox, the job that a worker holds, and the statements
-- on the table. An instant is a number of nanoseconds on PostgreSQL's clock, a text is its list of
-- code points.
use undelete.Base.{
  ℕ, suc, ◌+◌, ◌-◌, Bool, true, false, ◌&&◌, ◌||◌, not, Option, List, [], ◌∷◌, String,
  if◌then◌else◌, ◌==◌, keep,
}
use undelete.Base.Int.{ℤ, pos_part, neg_part, int_comparable}
use undelete.Base.{string_comparable, nat_comparable}
use undelete.Media.Path.{FilePath}

abbrev pub Text : Type 0
Text = List ℕ

pub data Status : Type 0 where
  pending processing sent failed : Status

abbrev pub status_beq : Status → Status → Bool
status_beq pending pending = true
status_beq processing processing = true
status_beq sent sent = true
status_beq failed failed = true
status_beq _ _ = false

pub data PayloadKind : Type 0 where
  text_kind media_kind : PayloadKind

-- The class that is stored of a failure: "transport", or "telegram_" and the code.
pub data ErrorClass : Type 0 where
  transport : ErrorClass
  telegram : ℤ → ErrorClass

pub record MediaItem : Type 0 where
  pub media_file_id : ℤ
  pub message_id : ℤ
  pub file_index : ℤ
  pub media_type : String
  pub relative_path : FilePath
  pub file_name : String
  pub caption : Text

pub record MediaPayload : Type 0 where
  pub media_group_id : String
  pub items : List MediaItem

-- The columns of the unique key.
pub record Key : Type 0 where
  pub owner : ℤ
  pub connection : String
  pub chat : ℤ
  pub message : ℤ
  pub event : String
  pub chunk : ℕ

-- The column updated_at is left out: no statement reads it.
pub record Row : Type 0 where
  pub id : ℕ
  pub key : Key
  pub open key use *
  pub owner_telegram : ℤ
  pub payload_text : Text
  pub payload_kind : PayloadKind
  -- The stored JSON; the empty string is NULL.
  pub media_payload : String
  pub status : Status
  pub attempts : ℕ
  pub next_attempt_at : ℕ
  pub locked_until : Option ℕ
  pub lease_token : Option String
  pub last_error_class : Option ErrorClass
  pub created_at : ℕ
  pub sent_at : Option ℕ

pub record Job : Type 0 where
  pub id : ℕ
  pub owner_user : ℤ
  pub owner_telegram_user : ℤ
  pub business_connection : String
  pub chat_id : ℤ
  pub message_id : ℤ
  pub event_type : String
  pub text : Text
  pub attempts : ℕ
  pub lease : String
  pub payload_kind : PayloadKind
  pub media : Option MediaPayload

-- The rows of one message's alert: equal in all columns of the key but the chunk.
abbrev pub same_message : Key → Key → Bool
same_message a b =
    (a.owner == b.owner)
    && ((a.connection == b.connection)
        && ((a.chat == b.chat) && ((a.message == b.message) && (a.event == b.event))))

abbrev pub same_key : Key → Key → Bool
same_key a b = same_message a b && (a.chunk == b.chunk)

pub record Table : Type 0 where
  pub rows : List Row
  pub next_id : ℕ

-- An instant moved by a duration that may be negative.
abbrev pub shift : ℕ → ℤ → ℕ
shift now d = now + pos_part d - neg_part d

-- `UPDATE … WHERE`: the rows after it.
unfoldable pub update_where : (Row → Bool) → (Row → Row) → List Row → List Row
update_where p f [] = []
update_where p f (r ∷ rs) = (if p r then f r else r) ∷ update_where p f rs

-- `tag.RowsAffected()`.
unfoldable pub affected : (Row → Bool) → List Row → ℕ
affected p [] = 0
affected p (r ∷ rs) = let rest = affected p rs in if p r then suc rest else rest

unfoldable pub exists_row : (Row → Bool) → List Row → Bool
exists_row p [] = false
exists_row p (r ∷ rs) = p r || exists_row p rs

-- `DELETE … WHERE`: the rows that stay.
unfoldable pub delete_where : (Row → Bool) → List Row → List Row
delete_where p rs = keep (λ r. not (p r)) rs
