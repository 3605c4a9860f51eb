-- ===== src/Telegram/Note.antt =====
-- bot/internal/telegram/alerts.go: WithMediaUnavailableNote.
use undelete.Base.{
  ℕ, ◌+◌, ◌-◌, ◌≤◌, ◌≡◌, refl, [], ◌∷◌, ◌++◌, arith, if◌then◌else◌, ltb, leb, nat_beq, if-split,
}
use undelete.Telegram.Split.{
  Text, telegram_text_limit, rune_utf16_units, utf16_units, utf16_units-append,
}

abbrev newline : ℕ
newline = 10

-- "\n\n[media unavailable]".
abbrev pub note_suffix : Text
note_suffix =
    newline ∷ newline ∷ b'[' ∷ b'm' ∷ b'e' ∷ b'd' ∷ b'i' ∷ b'a' ∷ b' ' ∷ b'u' ∷ b'n' ∷ b'a' ∷ b'v'
    ∷ b'a' ∷ b'i' ∷ b'l' ∷ b'a' ∷ b'b' ∷ b'l' ∷ b'e' ∷ b']' ∷ []

-- `strings.TrimRight(text, "\n")`.
unfoldable pub trim_right : Text → Text
trim_right [] = []
trim_right (r ∷ text) = elim (trim_right text) [
  | [] ↦ if nat_beq r newline then [] else r ∷ []
  | s ∷ rest ↦ r ∷ s ∷ rest
]

-- The loop that keeps runes while they fit the budget.
unfoldable pub keep_within : ℕ → ℕ → Text → Text
keep_within budget units [] = []
keep_within budget units (r ∷ text) =
    let size = rune_utf16_units r in
    let rest = keep_within budget (units + size) text in
    if ltb budget (units + size) then [] else r ∷ rest

unfoldable pub with_media_unavailable_note : Text → Text
unfolding trim_right keep_within utf16_units
with_media_unavailable_note text =
    if leb (utf16_units text + utf16_units note_suffix) telegram_text_limit
    then trim_right text ++ note_suffix
    else keep_within (telegram_text_limit - utf16_units note_suffix) 0 (trim_right text)
      ++ note_suffix

trim_right-le : (text : Text) → utf16_units (trim_right text) ≤ utf16_units text
unfolding trim_right utf16_units
trim_right-le [] = omega arith
trim_right-le (r ∷ text) = ground (arith, trim_right-le text)

keep_within-le :
    (budget units : ℕ) (text : Text)
    → units ≤ budget
    → units + utf16_units (keep_within budget units text) ≤ budget
unfolding keep_within utf16_units
keep_within-le budget units [] h = omega arith
keep_within-le budget units (r ∷ text) h =
    ground (arith, keep_within-le budget (units + rune_utf16_units r) text)

-- The text that is kept, of any text: it has the note at its end and never passes the limit of 4096
-- UTF-16 units, so that Telegram does not refuse it for its length.
pub with_media_unavailable_note-bounded :
    (text : Text)
    → (utf16_units (with_media_unavailable_note text) ≤ telegram_text_limit)
      × ((kept : Text) × (with_media_unavailable_note text ≡ kept ++ note_suffix))
unfolding with_media_unavailable_note
with_media_unavailable_note-bounded text =
    if-split
      (λ (out : Text).
        (utf16_units out ≤ telegram_text_limit) × ((kept : Text) × (out ≡ kept ++ note_suffix)))
      (leb (utf16_units text + utf16_units note_suffix) telegram_text_limit) _ _
      (λ fits. (
        let short = trim_right-le text in
            rw (utf16_units-append (trim_right text) note_suffix) (ground arith),
        (trim_right text, refl),
      ))
      (λ _. (
        let budget = telegram_text_limit - utf16_units note_suffix in
            let short = keep_within-le budget 0 (trim_right text) (omega arith) in
            let suffix : utf16_units note_suffix ≡ 21 =
              unfold utf16_units rune_utf16_units in refl in
            rw (utf16_units-append (keep_within budget 0 (trim_right text)) note_suffix)
              (omega arith),
        (keep_within (telegram_text_limit - utf16_units note_suffix) 0 (trim_right text), refl),
      ))
