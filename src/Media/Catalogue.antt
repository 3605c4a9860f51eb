-- ===== src/Media/Catalogue.antt =====
-- bot/internal/media/repository.go: the table media_files and its statements, each one transaction
-- that sees the rows of its tenant. NULL is `none`; an id is the serial number of its row.
use undelete.Base.{
  ℕ, suc, Bool, true, false, ◌&&◌, Option, none, some, List, [], ◌∷◌, ◌++◌, String, if◌then◌else◌,
  ◌==◌, nat_comparable, string_comparable, keep, nat_beq,
}
use undelete.Base.Int.{ℤ, pos, int_comparable, add_ℤ, fits_int64}
use undelete.Base.Rows.{set_where, count_where}
use undelete.Media.Path.{FilePath, PathError, validate_relative_path}
use undelete.Media.Hash.{HashError, validate_sha256}

pub data Status : Type 0 where
  pending stored purged : Status

-- The columns of the anti-collision key.
pub record MediaKey : Type 0 where
  pub owner : ℤ
  pub connection : String
  pub chat : ℤ
  pub message : ℤ
  pub file_index : ℤ

-- `Record`: what is known before the download.
pub record Record : Type 0 where
  pub telegram_file_id : String
  pub telegram_file_unique_id : String
  pub media_type : String
  pub mime_type : String
  pub file_name : String
  pub byte_size : Option ℤ
  pub width : Option ℤ
  pub height : Option ℤ
  pub duration : Option ℤ
  pub media_group : String

-- `File`, with the columns that its query does not return.
pub record File : Type 0 where
  pub id : ℕ
  pub key : MediaKey
  pub telegram_file_id : String
  pub telegram_file_unique_id : String
  pub media_type : String
  pub mime_type : Option String
  pub file_name : Option String
  pub byte_size : Option ℤ
  pub width : Option ℤ
  pub height : Option ℤ
  pub duration : Option ℤ
  pub media_group : Option String
  pub relative_path : Option FilePath
  pub thumbnail : Option FilePath
  pub sha256 : Option (List ℕ)
  pub status : Status
  pub created_at : ℕ
  pub updated_at : ℕ

-- `StoredFile`; the empty thumbnail is none.
pub record StoredFile : Type 0 where
  pub relative_path : FilePath
  pub thumbnail : FilePath
  pub sha256 : List ℕ
  pub byte_size : ℤ

pub record Catalogue : Type 0 where
  pub files : List File
  pub next_id : ℕ

pub data MediaError : Type 0 where
  not_found : MediaError
  bad_path bad_thumbnail : PathError → MediaError
  bad_hash : HashError → MediaError

abbrev pub status_beq : Status → Status → Bool
status_beq pending pending = true
status_beq stored stored = true
status_beq purged purged = true
status_beq _ _ = false

-- `NULLIF(x, '')` and `COALESCE(x, y)`.
abbrev pub null_if_empty : String → Option String
null_if_empty s = if s == "" then none else some s

abbrev pub coalesce {ℓ} : {A : Type ℓ} → Option A → Option A → Option A
coalesce none y = y
coalesce (some x) y = some x

abbrev pub null_if_no_path : FilePath → Option FilePath
null_if_no_path [] = none
null_if_no_path (c ∷ p) = some (c ∷ p)

abbrev pub owned : ℤ → File → Bool
owned owner f = f.key.owner == owner

abbrev pub same_key : MediaKey → File → Bool
same_key k f =
    (f.key.owner == k.owner)
    && ((f.key.connection == k.connection)
        && ((f.key.chat == k.chat)
            && ((f.key.message == k.message) && (f.key.file_index == k.file_index))))

abbrev pub fresh_file : ℕ → ℕ → MediaKey → Record → File
fresh_file id now k m = record {
  id = id;
  key = k;
  telegram_file_id = m.telegram_file_id;
  telegram_file_unique_id = m.telegram_file_unique_id;
  media_type = m.media_type;
  mime_type = null_if_empty m.mime_type;
  file_name = null_if_empty m.file_name;
  byte_size = m.byte_size;
  width = m.width;
  height = m.height;
  duration = m.duration;
  media_group = null_if_empty m.media_group;
  relative_path = none;
  thumbnail = none;
  sha256 = none;
  status = pending;
  created_at = now;
  updated_at = now;
}

-- The conflict clause.
abbrev pub refreshed : ℕ → Record → File → File
refreshed now m f = record f {
  telegram_file_id = m.telegram_file_id;
  telegram_file_unique_id = m.telegram_file_unique_id;
  media_type = m.media_type;
  mime_type = coalesce (null_if_empty m.mime_type) f.mime_type;
  file_name = coalesce (null_if_empty m.file_name) f.file_name;
  byte_size = if status_beq f.status stored then f.byte_size else coalesce m.byte_size f.byte_size;
  width = coalesce m.width f.width;
  height = coalesce m.height f.height;
  duration = coalesce m.duration f.duration;
  media_group = coalesce (null_if_empty m.media_group) f.media_group;
  updated_at = now;
}

-- The id that the statement returns: that of the row in conflict, or the new one. The serial number
-- is drawn either way.
unfoldable pub save : ℕ → MediaKey → Record → Catalogue → Catalogue × ℕ
save now k m c = elim (keep (same_key k) c.files) [
  | [] ↦ (
    record { files = c.files ++ fresh_file c.next_id now k m ∷ []; next_id = suc c.next_id },
    c.next_id,
  )
  | f ∷ _ ↦ (
    record { files = set_where (same_key k) (refreshed now m) c.files; next_id = suc c.next_id },
    f.id,
  )
]

unfoldable pub count_by_owner : ℤ → Catalogue → ℕ
count_by_owner owner c = count_where (owned owner) c.files

-- The bytes of a row; NULL does not add to the sum.
abbrev pub bytes_of : Option ℤ → ℤ
bytes_of none = pos 0
bytes_of (some n) = n

unfoldable pub sum_bytes : List File → ℤ
sum_bytes [] = pos 0
sum_bytes (f ∷ fs) = add_ℤ (bytes_of f.byte_size) (sum_bytes fs)

-- The sum is of any size in the database; the scan of one that is no int64 fails.
unfoldable pub sum_stored_bytes : ℤ → Catalogue → Option ℤ
sum_stored_bytes owner c =
    let total = sum_bytes (keep (λ f. owned owner f && status_beq f.status stored) c.files) in
    if fits_int64 total then some total else none

-- `update`: one row of the tenant, or ErrNotFound.
unfoldable pub update : ℤ → ℕ → (File → File) → Catalogue → Catalogue × Option MediaError
update owner id change c =
    let hit = λ (f : File). owned owner f && (f.id == id) in
    if nat_beq (count_where hit c.files) 0
    then (c, some not_found)
    else (record c { files = set_where hit change c.files }, none)

-- The path that `MarkStored` checks when there is one.
abbrev pub validate_thumbnail : FilePath → Option PathError
validate_thumbnail [] = none
validate_thumbnail (b ∷ p) = validate_relative_path (b ∷ p)

abbrev pub stored_row : ℕ → StoredFile → File → File
stored_row now s f = record f {
  status = stored;
  relative_path = some s.relative_path;
  thumbnail = null_if_no_path s.thumbnail;
  sha256 = some s.sha256;
  byte_size = some s.byte_size;
  updated_at = now;
}

unfoldable pub mark_stored : ℕ → ℤ → ℕ → StoredFile → Catalogue → Catalogue × Option MediaError
mark_stored now owner id s c = elim (validate_relative_path s.relative_path) [
  | some e ↦ (c, some (bad_path e))
  | none ↦ elim (validate_thumbnail s.thumbnail) [
    | some e ↦ (c, some (bad_thumbnail e))
    | none ↦ elim (validate_sha256 s.sha256) [
      | some e ↦ (c, some (bad_hash e))
      | none ↦ update owner id (stored_row now s) c
    ]
  ]
]

abbrev pub purged_row : ℕ → File → File
purged_row now f = record f {
  status = purged;
  relative_path = none;
  thumbnail = none;
  updated_at = now;
}

unfoldable pub mark_purged : ℕ → ℤ → ℕ → Catalogue → Catalogue × Option MediaError
mark_purged now owner id c = update owner id (purged_row now) c

abbrev pub requeued_row : ℕ → File → File
requeued_row now f = record f {
  status = pending;
  relative_path = none;
  thumbnail = none;
  sha256 = none;
  updated_at = now;
}

unfoldable pub mark_pending_retry : ℕ → ℤ → ℕ → Catalogue → Catalogue × Option MediaError
mark_pending_retry now owner id c = update owner id (requeued_row now) c
