-- ===== src/Messages/Media.antt =====
-- bot/internal/messages/media_alerts.go: the media of a deletion in groups, and the entries that
-- deliver them.
use undelete.Base.{
  ℕ, suc, Bool, true, false, ◌&&◌, Option, none, some, List, [], ◌∷◌, ◌++◌, String, if◌then◌else◌,
  ◌==◌, string_comparable, map,
}
use undelete.Base.Int.{ℤ, pos, int_comparable}
use undelete.Telegram.Split.{Text}
use undelete.Telegram.Alert.{build_media_alert_text, truncate_caption}
use undelete.Media.Path.{FilePath}
use undelete.Media.Catalogue.{File, Catalogue}
use undelete.Media.Queries.{select_stored, album_anchor}
use undelete.Outbox.Row.{MediaItem, MediaPayload, PayloadKind, media_kind, Key}
use undelete.Messages.Store.{DeletedRecord}

abbrev pub event_deleted_message : String
event_deleted_message = "deleted_message"

pub record MediaAlertScope : Type 0 where
  pub owner : ℤ
  pub owner_telegram : ℤ
  pub connection : String
  pub chat_id : ℤ

pub record MediaGroup : Type 0 where
  pub anchor : ℤ
  pub media_group_id : String
  pub files : List File

-- One call of `InsertTx` or `InsertMediaTx`; the empty payload is NULL.
pub record Entry : Type 0 where
  pub key : Key
  pub text : Text
  pub kind : PayloadKind
  pub media_payload : String

-- `chunkCount`; a missing key reads 0.
abbrev pub ChunkCount : Type 0
ChunkCount = ℤ → ℕ

abbrev pub set_count : ℤ → ℕ → ChunkCount → ChunkCount
set_count message n counts m = if m == message then n else counts m

-- `COALESCE(x, '')`.
abbrev pub or_empty : Option String → String
or_empty none = ""
or_empty (some s) = s

-- What `byAlbum` or `byMessage` finds: an album by its id, a lone group by the message it was
-- made for.
abbrev pub is_for : File → MediaGroup → Bool
is_for f g =
    let id = or_empty f.media_group in
    if id == ""
    then (g.media_group_id == "") && (g.anchor == f.key.message)
    else g.media_group_id == id

abbrev pub anchor_of : (String → Option ℤ) → File → ℤ
anchor_of anchors f =
    let id = or_empty f.media_group in
    if id == ""
    then f.key.message
    else elim (anchors id) [ none ↦ f.key.message | some anchor ↦ anchor ]

abbrev pub new_group : (String → Option ℤ) → File → MediaGroup
new_group anchors f = record {
  anchor = anchor_of anchors f;
  media_group_id = or_empty f.media_group;
  files = f ∷ [];
}

abbrev pub join : File → MediaGroup → MediaGroup
join f g = record g { files = g.files ++ f ∷ [] }

-- One turn of the loop: the file joins its group or opens one at the end.
unfoldable pub add_file : (String → Option ℤ) → File → List MediaGroup → List MediaGroup
add_file anchors f [] = new_group anchors f ∷ []
add_file anchors f (g ∷ gs) =
    let rest = add_file anchors f gs in if is_for f g then join f g ∷ gs else g ∷ rest

unfoldable pub group_loop : (String → Option ℤ) → List File → List MediaGroup → List MediaGroup
group_loop anchors [] groups = groups
group_loop anchors (f ∷ fs) groups = group_loop anchors fs (add_file anchors f groups)

unfoldable pub group_media : List File → (String → Option ℤ) → List MediaGroup
group_media files anchors = group_loop anchors files []

-- `captions[m]`: what the last record of the message says.
unfoldable pub caption_of : List DeletedRecord → ℤ → Text
caption_of [] message = []
caption_of (d ∷ ds) message =
    let rest = caption_of ds message in
    if any_later ds message then rest else if d.message_id == message then d.text_content else []
  where
    any_later : List DeletedRecord → ℤ → Bool
    any_later [] message = false
    any_later (d ∷ ds) message = if d.message_id == message then true else any_later ds message

-- A path that is NULL does not come out of `select_stored`.
abbrev or_no_path : Option FilePath → FilePath
or_no_path none = []
or_no_path (some p) = p

abbrev media_item : List DeletedRecord → File → MediaItem
media_item found f = record {
  media_file_id = pos f.id;
  message_id = f.key.message;
  file_index = f.key.file_index;
  media_type = f.media_type;
  relative_path = or_no_path f.relative_path;
  file_name = or_empty f.file_name;
  caption = truncate_caption (caption_of found f.key.message);
}

-- `MediaTypes`.
abbrev pub media_types : MediaPayload → List String
media_types p = map (λ (i : MediaItem). i.media_type) p.items

abbrev pub group_payload : List DeletedRecord → MediaGroup → MediaPayload
group_payload found g = record {
  media_group_id = g.media_group_id;
  items = map (media_item found) g.files;
}

abbrev pub alert_key : MediaAlertScope → ℤ → ℕ → Key
alert_key scope message chunk = record {
  owner = scope.owner;
  connection = scope.connection;
  chat = scope.chat_id;
  message = message;
  event = event_deleted_message;
  chunk = chunk;
}

-- The loop over the groups. `encode` is the JSON encoder, which does not fail on a payload.
unfoldable pub group_entries :
    (MediaPayload → String)
    → MediaAlertScope
    → List DeletedRecord
    → List MediaGroup
    → ChunkCount
    → List Entry
group_entries encode scope found [] counts = []
group_entries encode scope found (g ∷ gs) counts =
    let chunk = counts g.anchor in
    let payload = group_payload found g in
    record {
      key = alert_key scope g.anchor chunk;
      text = build_media_alert_text (media_types payload);
      kind = media_kind;
      media_payload = encode payload;
    }
    ∷ group_entries encode scope found gs (set_count g.anchor (suc chunk) counts)

unfoldable pub enqueue_media_alerts :
    (MediaPayload → String)
    → MediaAlertScope
    → List DeletedRecord
    → ChunkCount
    → Catalogue
    → List Entry
enqueue_media_alerts encode scope [] counts c = []
enqueue_media_alerts encode scope (d ∷ ds) counts c =
    let ids = map (λ (r : DeletedRecord). r.message_id) (d ∷ ds) in
    let files = select_stored scope.owner scope.connection scope.chat_id ids c in
    let anchors = album_anchor scope.owner scope.connection scope.chat_id ids c in
    group_entries encode scope (d ∷ ds) (group_media files anchors) counts
