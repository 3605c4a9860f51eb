-- ===== src/Telegram/Alert.antt =====
-- bot/internal/telegram/alerts.go and sendmedia.go: the texts of a deletion alert. A text is its
-- list of code points; `format` stands for the date layout of the standard library.
use undelete.Base.{
  ℕ, zero, suc, ◌+◌, ◌-◌, ◌/◌, ◌%◌, true, false, Option, none, some, List, [], ◌∷◌, ◌++◌, String,
  if◌then◌else◌, ltb, leb, length,
}
use undelete.Base.Int.{ℤ, pos, negsuc}
use undelete.Telegram.Split.{Text, telegram_text_limit, utf16_units, split_telegram_text}
use undelete.Telegram.Note.{keep_within}
use Prim.Native.Char.{code}
use Prim.Native.String.{[] as empty_string, ◌∷◌ as ◌∷∷◌}

abbrev pub runes : String → Text
runes empty_string = []
runes (c ∷∷ s) = code c ∷ runes s

-- `%d`, for at most twenty digits.
abbrev pub decimal_on : ℕ → ℕ → Text
decimal_on zero n = []
decimal_on (suc fuel) n = elim (ltb n 10) [
  | true ↦ (b'0' + n) ∷ []
  | false ↦ decimal_on fuel (n / 10) ++ (b'0' + n % 10) ∷ []
]

abbrev pub decimal : ℤ → Text
decimal (pos n) = decimal_on 20 n
decimal (negsuc n) = b'-' ∷ decimal_on 20 (suc n)

pub record DeletionAlert : Type 0 where
  pub owner_telegram : ℤ
  pub chat_id : ℤ
  pub chat_title : Text
  pub chat_username : Text
  pub from_display : Text
  pub from_user_id : Option ℤ
  pub message_type : Text
  pub telegram_date : ℤ
  pub content : Text

pub record SendMessageRequest : Type 0 where
  pub chat_id : ℤ
  pub text : Text

-- The text, or another one when it is empty.
abbrev or_else : Text → Text → Text
or_else [] other = other
or_else (r ∷ text) other = r ∷ text

abbrev with_id : Text → ℤ → Text
with_id label id = label ++ runes " (" ++ decimal id ++ runes ")"

-- Title and user name, either of which may be missing.
abbrev chat_label : Text → Text → Text
chat_label [] [] = []
chat_label [] (u ∷ username) = runes "@" ++ u ∷ username
chat_label (t ∷ title) [] = t ∷ title
chat_label (t ∷ title) (u ∷ username) = (t ∷ title) ++ runes " (@" ++ (u ∷ username) ++ runes ")"

abbrev labelled : Text → ℤ → Text
labelled [] id = runes "chat " ++ decimal id
labelled (r ∷ label) id = with_id (r ∷ label) id

unfoldable pub chat_line : DeletionAlert → Text
chat_line alert = labelled (chat_label alert.chat_title alert.chat_username) alert.chat_id

unfoldable pub sender_line : DeletionAlert → Text
sender_line alert = elim alert.from_user_id [
  | none ↦ or_else alert.from_display (runes "unknown")
  | some id ↦ with_id (or_else alert.from_display (runes "unknown")) id
]

unfoldable pub format_alert_date : (ℤ → Text) → ℤ → Text
format_alert_date format (pos zero) = runes "unknown"
format_alert_date format (pos (suc n)) = format (pos (suc n))
format_alert_date format (negsuc n) = format (negsuc n)

abbrev after_header : Text → Text
after_header [] = []
after_header (r ∷ content) = runes "\n\n" ++ r ∷ content

unfoldable pub build_deletion_text : (ℤ → Text) → DeletionAlert → Text
build_deletion_text format alert =
    runes "Recovered deleted message\n"
    ++ (runes "Chat: " ++ chat_line alert ++ runes "\n")
    ++ (runes "From: " ++ sender_line alert ++ runes "\n")
    ++ (runes "Type: " ++ or_else alert.message_type (runes "unknown") ++ runes "\n")
    ++ (runes "Date: " ++ format_alert_date format alert.telegram_date)
    ++ after_header alert.content

abbrev requests_to : ℤ → List Text → List SendMessageRequest
requests_to owner [] = []
requests_to owner (chunk ∷ chunks) =
    record { chat_id = owner; text = chunk } ∷ requests_to owner chunks

unfoldable pub build_deletion_message_requests :
    (ℤ → Text) → DeletionAlert → List SendMessageRequest
build_deletion_message_requests format alert =
    requests_to alert.owner_telegram
      (split_telegram_text (build_deletion_text format alert) telegram_text_limit)

abbrev join_comma : List String → Text
join_comma [] = []
join_comma (t ∷ []) = runes t
join_comma (t ∷ u ∷ ts) = runes t ++ runes ", " ++ join_comma (u ∷ ts)

unfoldable pub build_media_alert_text : List String → Text
build_media_alert_text [] = runes "Attached media"
build_media_alert_text (t ∷ ts) =
    runes "Attached media ("
    ++ decimal (pos (suc (length ts)))
    ++ runes " file"
    ++ (if ltb 1 (suc (length ts)) then runes "s" else [])
    ++ runes ": "
    ++ join_comma (t ∷ ts)
    ++ runes ")"

abbrev pub caption_limit : ℕ
caption_limit = 1024

-- `captionUnits` is `utf16Units` again.
unfoldable pub truncate_caption : Text → Text
truncate_caption caption =
    let ellipsis = runes "…" in
    if leb (utf16_units caption) caption_limit
    then caption
    else keep_within (caption_limit - utf16_units ellipsis) 0 caption ++ ellipsis
