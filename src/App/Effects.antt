-- ===== src/App/Effects.antt =====
-- bot/internal/app/handler.go: the updates, what the handler asks of the other packages, and what
-- these answer. A handling is the list of the calls that it makes, in order, and its result.
use undelete.Base.{ℕ, Bool, Option, List, String}
use undelete.Base.Int.{ℤ}
use undelete.Telegram.Split.{Text}
use undelete.Business.Cache.{Connection}
use undelete.Erasure.Confirm.{Outcome}
use undelete.Media.Catalogue.{MediaKey, Record as MediaRecord}
use undelete.Messages.Store.{Record}

pub record User : Type 0 where
  pub id : ℤ
  pub first_name : Text
  pub last_name : Text
  pub username : Text

pub record Chat : Type 0 where
  pub id : ℤ
  pub title : Text
  pub first_name : Text
  pub last_name : Text
  pub username : Text
  pub kind : Text

-- `MediaAttachment`, as far as a record of it is saved.
pub record Attachment : Type 0 where
  pub kind : String
  pub file_id : String
  pub file_unique_id : String
  pub media_group : String
  pub file_name : String
  pub mime_type : String
  pub byte_size : ℤ
  pub width : ℤ
  pub height : ℤ
  pub duration : ℤ

-- `attachments` is what `ExtractMedia` reads of the message.
pub record Message : Type 0 where
  pub connection : String
  pub chat : Chat
  pub message_id : ℤ
  pub sender : Option User
  pub text : Text
  pub caption : Text
  pub date : ℤ
  pub attachments : List Attachment

pub record Deletion : Type 0 where
  pub connection : String
  pub chat_id : ℤ
  pub message_ids : List ℤ

-- The fields of `Update`, of which Telegram fills one.
pub record Update : Type 0 where
  pub has_connection : Bool
  pub message : Option Message
  pub edited : Option Message
  pub deleted : Option Deletion

-- What `Resolve` answers: the three refusals of `connectionRefused`, or another error.
pub data Resolution : Type 0 where
  resolved : Connection → Resolution
  refused unavailable : Resolution

-- The texts that the bot answers with; their wordings are fixed.
pub data Answer : Type 0 where
  privacy_chunk : ℕ → Answer
  challenge : Text → Answer
  confirmation replay : ℕ → Answer
  expired_notice unknown_notice failed_notice retention_usage : Answer
  retention_status retention_changed : ℕ → ℕ → Answer

-- One call. A message is sent to a Telegram user; every write names its tenant. Of the calls of
-- `Resolve`, the one that `enterSave` makes under the exclusion of the tenant is recorded, with its
-- argument.
pub data Effect : Type 0 where
  handled_connection : Effect
  locked unlocked : ℤ → Effect
  re_resolved : String → Effect
  saved_message : ℤ → Record → Bool → Effect
  saved_media : MediaKey → MediaRecord → Effect
  marked : ℤ → ℤ → String → ℤ → List ℤ → Effect
  sent : ℤ → Answer → Effect
  erasure_requested : ℤ → ℤ → Effect
  erasure_confirmed : ℤ → ℤ → Text → Effect
  retention_read : ℤ → Effect
  retention_set : ℤ → ℕ → Effect

-- The dependencies that may be nil, and the retention of the backups in days.
pub record Config : Type 0 where
  pub has_media : Bool
  pub has_sender : Bool
  pub has_eraser : Bool
  pub has_retention : Bool
  pub has_guard : Bool
  pub has_quota : Bool
  pub backup_days : ℕ

-- The answers that one handling of an update meets. `control` is what the connection resolves to
-- before the capture (or for an edited confirmation), `lookup` at the save or the deletion, and
-- `relookup` under the exclusion of the tenant.
pub record World : Type 0 where
  pub handles_connection : Bool
  pub control : Resolution
  pub lookup : Resolution
  pub relookup : Resolution
  pub shares : Bool
  pub admits_capture : Bool
  pub admits_media : ℕ → Bool
  pub saves : Bool
  pub saves_media : ℕ → Bool
  pub marks : Bool
  pub sends : ℕ → Bool
  pub privacy_chunks : ℕ
  pub requests : Option Text
  pub confirms : Option Outcome
  pub reads_retention : Option ℕ
  pub sets_retention : Bool

-- The result of a function that may fail.
pub data Returned {ℓ} (A : Type ℓ) : Type ℓ where
  value : A → Returned A
  failure : Returned A

abbrev pub Handling {ℓ} : Type ℓ → Type ℓ
Handling A = List Effect × Returned A
