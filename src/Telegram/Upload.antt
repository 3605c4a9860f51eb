-- ===== src/Telegram/Upload.antt =====
-- bot/internal/telegram/sendmedia.go: the calls that the files of one alert take. A form is known by
-- its chat and its items; the answer to each call and what `os.Lstat` finds are arguments.
use undelete.Base.{
  ℕ, suc, ◌*◌, ◌^◌, Bool, true, false, ◌||◌, not, Option, none, some, List, [], ◌∷◌, ◌++◌, String,
  if◌then◌else◌, ltb, ◌==◌, string_comparable, nat_beq, length,
}
use undelete.Base.Int.{ℤ, pos, int_comparable}
use undelete.Media.Path.{FilePath}
use undelete.Telegram.Split.{Text}

-- The errors that a delivery tells apart; `api` carries the code and the retry_after.
pub data SendError : Type 0 where
  api : ℤ → ℤ → SendError
  no_media_delivery media_unavailable media_too_large unsafe_path : SendError
  canceled deadline_exceeded other : SendError

pub record MediaAlertItem : Type 0 where
  pub kind : String
  pub path : FilePath
  pub file_name : String
  pub caption : Text

-- A request that Telegram answered with success: its chat, and its text or its files.
pub data Request : Type 0 where
  message : ℤ → Text → Request
  files : ℤ → List MediaAlertItem → Request

pub record FileInfo : Type 0 where
  pub is_regular : Bool
  pub size : ℕ

abbrev pub max_upload_bytes : ℕ
max_upload_bytes = 50 * 2 ^ 20

abbrev pub max_group_items : ℕ
max_group_items = 10

-- `groupType` of `specFor`: a type that the table does not name is sent as a document.
unfoldable pub group_type : String → String
group_type kind =
    if kind == "photo"
    then "photo"
    else if kind == "video"
    then "video"
    else if kind == "audio"
    then "audio"
    else if (kind == "animation")
        || ((kind == "voice") || ((kind == "video_note") || (kind == "sticker")))
    then ""
    else "document"

unfoldable pub group_class : String → String
unfolding group_type
group_class kind =
    let t = group_type kind in
    if (t == "photo") || (t == "video")
    then "visual"
    else if t == "document"
    then "document"
    else if t == "audio"
    then "audio"
    else ""

-- What the loop does with an item: a batch of its own, the first of a new group, or one more of the
-- current group.
pub data Placement : Type 0 where
  alone opens joins : Placement

unfoldable pub place_item : List MediaAlertItem → String → MediaAlertItem → Placement
unfolding group_class
place_item current class item =
    let c = group_class item.kind in
    if c == ""
    then alone
    else if not (c == class) || nat_beq (length current) max_group_items
    then opens
    else joins

-- `flush`: the current group, in front of the batches that follow, and the class that it leaves.
unfoldable pub flush : List MediaAlertItem → List (List MediaAlertItem) → List (List MediaAlertItem)
flush [] batches = batches
flush (i ∷ current) batches = (i ∷ current) ∷ batches

unfoldable pub flushed_class : List MediaAlertItem → String → String
flushed_class [] class = class
flushed_class (i ∷ current) class = ""

unfoldable pub plan_loop :
    List MediaAlertItem → String → List MediaAlertItem → List (List MediaAlertItem)
unfolding flush flushed_class place_item
plan_loop current class [] = flush current []
plan_loop current class (item ∷ items) = elim (place_item current class item) [
  | alone ↦ flush current ((item ∷ []) ∷ plan_loop [] (flushed_class current class) items)
  | opens ↦ flush current (plan_loop (item ∷ []) (group_class item.kind) items)
  | joins ↦ plan_loop (current ++ item ∷ []) class items
]

unfoldable pub plan_media_batches : List MediaAlertItem → List (List MediaAlertItem)
unfolding plan_loop
plan_media_batches items = plan_loop [] "" items

abbrev pub is_blank_path : FilePath → Bool
is_blank_path [] = true
is_blank_path (c ∷ path) = false

unfoldable pub check_media_file : (FilePath → Option FileInfo) → MediaAlertItem → Option SendError
check_media_file lstat item =
    if is_blank_path item.path then some media_unavailable else elim (lstat item.path) [
      | none ↦ some media_unavailable
      | some info ↦
          if not info.is_regular
          then some media_unavailable
          else if nat_beq info.size 0
          then some media_unavailable
          else if ltb max_upload_bytes info.size
          then some media_too_large
          else none
    ]

-- The errors of `buildMediaForm`: its array of strings has a JSON encoding.
unfoldable pub check_batch : (FilePath → Option FileInfo) → List MediaAlertItem → Option SendError
unfolding check_media_file
check_batch lstat [] = none
check_batch lstat (item ∷ batch) =
    let rest = check_batch lstat batch in
    elim (check_media_file lstat item) [ some e ↦ some e | none ↦ rest ]

-- The loop over the batches from a number on; `answer` is that of `sendForm` to each.
unfoldable pub send_batches :
    (FilePath → Option FileInfo)
    → (ℕ → Option SendError)
    → ℤ
    → ℕ
    → List (List MediaAlertItem)
    → Option SendError × List Request
unfolding check_batch
send_batches lstat answer chat index [] = (none, [])
send_batches lstat answer chat index (batch ∷ batches) =
    let rest = send_batches lstat answer chat (suc index) batches in
    elim (check_batch lstat batch) [
      | some e ↦ (some e, [])
      | none ↦ elim (answer index) [
        | some e ↦ (some e, [])
        | none ↦ (rest.0, files chat batch ∷ rest.1)
      ]
    ]

unfoldable pub send_media_once :
    (FilePath → Option FileInfo)
    → (ℕ → Option SendError)
    → ℤ
    → List MediaAlertItem
    → Option SendError × List Request
unfolding send_batches plan_media_batches
send_media_once lstat answer chat items = if chat == pos 0 then (some other, []) else elim items [
  | [] ↦ (some media_unavailable, [])
  | i ∷ rest ↦ send_batches lstat answer chat 0 (plan_media_batches (i ∷ rest))
]
