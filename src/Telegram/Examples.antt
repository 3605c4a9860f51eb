-- ===== src/Telegram/Examples.antt =====
-- Runs of the text helpers on short texts.
use undelete.Base.{
  ℕ, ◌+◌, ◌%◌, ◌≤◌, ◌≡◌, refl, List, [], ◌∷◌, ◌++◌, arith, All, if◌then◌else◌, nat_beq, length,
}
use undelete.Base.Int.{ℤ, pos, negsuc}
use undelete.Telegram.Dispatch.{
  Attempt, accepted, full, cancelled, dispatch, first_pass, second_pass,
}
use undelete.Telegram.Order.{of_shard, dispatch-order, dispatch-loses_deferred}
use mathlib.Core.List.{flatten}
use undelete.Telegram.Split.{
  Text, telegram_text_limit, utf16_units, split_telegram_text, IsChunk, split_telegram_text_lem,
}
use undelete.Base.{some}
use undelete.Telegram.Split.{rune_utf16_units, split_loop}
use undelete.Telegram.Policy.{
  segments_on, paragraph_segments, place, policy_loop, split_policy_text,
}
use undelete.Telegram.Paragraphs.{split_policy_text_lem}
use undelete.Telegram.Privacy.{privacy_chunks, privacy_chunks-Ends}
use undelete.Telegram.Note.{
  note_suffix, with_media_unavailable_note, with_media_unavailable_note-bounded,
}

-- A letter, an emoji of two units and a letter.
abbrev three_runes : Text
three_runes = 65 ∷ 0x1f600 ∷ 66 ∷ []

chunks : split_telegram_text three_runes 2 ≡ (65 ∷ []) ∷ (0x1f600 ∷ []) ∷ (66 ∷ []) ∷ []
unfolding split_telegram_text
chunks = refl

split_telegram_text_lem_example :
    (flatten (split_telegram_text three_runes 2) ≡ three_runes)
    × All (IsChunk 2) (split_telegram_text three_runes 2)
split_telegram_text_lem_example = split_telegram_text_lem three_runes 2 (omega arith)

with_media_unavailable_note-bounded_example :
    (utf16_units (with_media_unavailable_note three_runes) ≤ telegram_text_limit)
    × ((kept : Text) × (with_media_unavailable_note three_runes ≡ kept ++ note_suffix))
with_media_unavailable_note-bounded_example = with_media_unavailable_note-bounded three_runes

-- Positions 0 and 2 on worker 0, position 1 on worker 1; the queue of worker 0 is full at first.
abbrev worker_of : ℕ → ℕ
worker_of i = i % 2

abbrev busy_first : ℕ → Attempt
busy_first i = if nat_beq i 0 then full else accepted

abbrev cancelled_second : ℕ → Attempt
cancelled_second i = if nat_beq i 0 then full else cancelled

abbrev always : ℕ → Attempt
always i = accepted

sends : (dispatch worker_of busy_first always (0 ∷ 1 ∷ 2 ∷ [])).sent ≡ 1 ∷ 0 ∷ 2 ∷ []
unfolding dispatch first_pass second_pass
sends = refl

dispatch-order_example :
    let p = dispatch worker_of busy_first always (0 ∷ 1 ∷ 2 ∷ []) in
    of_shard worker_of 0 p.sent
      ++ (of_shard worker_of 0 p.deferred ++ of_shard worker_of 0 p.refused)
    ≡ of_shard worker_of 0 (0 ∷ 1 ∷ 2 ∷ [])
dispatch-order_example = dispatch-order worker_of busy_first always 0 (0 ∷ 1 ∷ 2 ∷ [])

dispatch-loses_deferred_example :
    let p = dispatch worker_of cancelled_second always (0 ∷ 1 ∷ 2 ∷ []) in
    (p.sent ≡ []) × (p.deferred ≡ 0 ∷ []) × (p.refused ≡ 1 ∷ 2 ∷ [])
dispatch-loses_deferred_example =
    dispatch-loses_deferred worker_of cancelled_second always 0 1 (2 ∷ []) (λ e. omega (arith, e))
      refl refl

-- A format that writes the digits of small numbers, and a hash that counts bytes.
abbrev one_digit : ℤ → List ℕ
one_digit (pos n) = (n + 48) ∷ []
one_digit (negsuc n) = 45 ∷ (n + 49) ∷ []

abbrev byte_count : List ℕ → ℕ
byte_count key = length key

-- Two paragraphs, of which one message of 8 units holds one.
abbrev two_paragraphs : Text
two_paragraphs = b'a' ∷ b'b' ∷ 10 ∷ 10 ∷ b'c' ∷ b'd' ∷ b'e' ∷ b'f' ∷ b'g' ∷ []

cut_at_the_blank_line :
    split_policy_text two_paragraphs 8
    ≡ (b'a' ∷ b'b' ∷ 10 ∷ 10 ∷ []) ∷ (b'c' ∷ b'd' ∷ b'e' ∷ b'f' ∷ b'g' ∷ []) ∷ []
unfolding split_policy_text policy_loop place paragraph_segments segments_on utf16_units
    rune_utf16_units split_telegram_text split_loop
cut_at_the_blank_line = refl

split_policy_text_lem_example :
    (flatten (split_policy_text two_paragraphs 8) ≡ two_paragraphs)
    × All (IsChunk 8) (split_policy_text two_paragraphs 8)
split_policy_text_lem_example = split_policy_text_lem two_paragraphs 8 (omega arith)

privacy_chunks-Ends_example :
    (chunks : List Text) × (privacy_chunks two_paragraphs ≡ some chunks)
    × (flatten chunks ≡ two_paragraphs)
privacy_chunks-Ends_example = privacy_chunks-Ends two_paragraphs
