-- ===== src/Telegram/Privacy.antt =====
-- bot/internal/telegram/alerts.go: BuildPrivacyMessageRequests.
use undelete.Base.{
  ℕ, zero, suc, ◌+◌, ◌-◌, ◌*◌, ◌/◌, ◌%◌, ◌≤◌, ◌<◌, ◌≡◌, refl, Bool, true, false, Option, none, some,
  List, [], ◌∷◌, ◌++◌, arith, if◌then◌else◌, ltb, leb, length, length-append, All, if-split,
}
use mathlib.Core.List.{flatten}
use undelete.Base.Int.{ℤ, pos}
use undelete.Telegram.Split.{Text, telegram_text_limit, rune_utf16_units, utf16_units, IsChunk}
use undelete.Telegram.Alert.{runes, decimal_on, decimal, SendMessageRequest}
use undelete.Telegram.Policy.{split_policy_text}
use undelete.Telegram.Paragraphs.{split_policy_text_lem}

abbrev chunk_label : ℕ → ℕ → Text
chunk_label index total =
    runes "Privacy policy (" ++ decimal (pos index) ++ runes "/" ++ decimal (pos total) ++ runes ")"

abbrev privacy_label_units : ℕ → ℕ
privacy_label_units total = utf16_units (chunk_label total total) + utf16_units (runes "\n\n")

abbrev chunks_for : Text → ℕ → List Text
chunks_for text total = split_policy_text text (telegram_text_limit - privacy_label_units total)

-- The loop that raises the total; `none` is the end of the fuel.
unfoldable pub privacy_loop : ℕ → Text → ℕ → Option (List Text)
privacy_loop zero text total = none
privacy_loop (suc fuel) text total =
    let chunks = chunks_for text total in
    let rest = privacy_loop fuel text (length chunks) in
    if leb (length chunks) total then some chunks else rest

unfoldable pub privacy_chunks : Text → Option (List Text)
privacy_chunks text = privacy_loop (suc (length text)) text 1

abbrev labelled_from : ℤ → ℕ → ℕ → List Text → List SendMessageRequest
labelled_from owner total index [] = []
labelled_from owner total index (chunk ∷ chunks) =
    record { chat_id = owner; text = chunk_label index total ++ runes "\n\n" ++ chunk }
    ∷ labelled_from owner total (suc index) chunks

unfoldable pub build_privacy_message_requests : ℤ → Text → Option (List SendMessageRequest)
build_privacy_message_requests owner text = elim (privacy_chunks text) [
  | none ↦ none
  | some chunks ↦ some (labelled_from owner (length chunks) 1 chunks)
]

utf16_units-le : (text : Text) → utf16_units text ≤ 2 * length text
unfolding utf16_units rune_utf16_units
utf16_units-le [] = omega arith
utf16_units-le (r ∷ text) = ground (arith, utf16_units-le text)

decimal_on-le : (fuel n : ℕ) → length (decimal_on fuel n) ≤ fuel
decimal_on-le zero n = omega arith
decimal_on-le (suc fuel) n = go (decimal_on-le fuel (n / 10)) (ltb n 10)
  where
    go :
        length (decimal_on fuel (n / 10)) ≤ fuel
        → (b : Bool)
        → length (elim b as (λ x. Text) [
          | true ↦ (b'0' + n) ∷ []
          | false ↦ decimal_on fuel (n / 10) ++ (b'0' + n % 10) ∷ []
        ])
          ≤ suc fuel
    go h true = omega arith
    go h false =
        rw (length-append (decimal_on fuel (n / 10)) ((b'0' + n % 10) ∷ [])) (omega (arith, h))

length-label :
    (a d b e c : Text)
    → length (a ++ d ++ b ++ e ++ c) ≡ length a + length d + length b + length e + length c
length-label a d b e c =
    rw
      (
        length-append (a ++ d ++ b ++ e) c,
        length-append (a ++ d ++ b) e,
        length-append (a ++ d) b,
        length-append a d,
      )
      refl

label-le : (total : ℕ) → utf16_units (chunk_label total total) ≤ 200
label-le total =
    let digits = decimal_on-le 20 total in
    let parts =
      length-label (runes "Privacy policy (") (decimal_on 20 total) (runes "/")
        (decimal_on 20 total) (runes ")") in
    let units = utf16_units-le (chunk_label total total) in omega (arith, digits, parts, units)

separator-le : utf16_units (runes "\n\n") ≡ 2
unfolding utf16_units rune_utf16_units
separator-le = refl

label_fits : (total : ℕ) → 2 ≤ telegram_text_limit - privacy_label_units total
label_fits total = omega (arith, label-le total, separator-le)

-- There are no more chunks than runes.
chunks-le : (limit : ℕ) (cs : List Text) → All (IsChunk limit) cs → length cs ≤ length (flatten cs)
unfolding flatten
chunks-le limit [] a = omega arith
chunks-le limit (c ∷ cs) a =
    rw (length-append c (flatten cs)) (omega (arith, a.0.0, chunks-le limit cs a.1))

chunks_for-le : (text : Text) (total : ℕ) → length (chunks_for text total) ≤ length text
chunks_for-le text total =
    let good =
      split_policy_text_lem text (telegram_text_limit - privacy_label_units total)
        (label_fits total) in
    let few = chunks-le _ (chunks_for text total) good.1 in rw good.0 at few

abbrev Ends : Text → Option (List Text) → Type 0
Ends text r = (chunks : List Text) × (r ≡ some chunks) × (flatten chunks ≡ text)

privacy_loop-Ends :
    (fuel : ℕ) (text : Text) (total : ℕ)
    → 1 ≤ fuel
    → length text < fuel + total
    → Ends text (privacy_loop fuel text total)
unfolding privacy_loop
privacy_loop-Ends zero text total h k = absurd (omega (arith, h))
privacy_loop-Ends (suc fuel) text total h k =
    let chunks = chunks_for text total in
    let few = chunks_for-le text total in
    if-split (Ends text) (leb (length chunks) total) _ _
      (λ e. (
        chunks,
        refl,
        (split_policy_text_lem text (telegram_text_limit - privacy_label_units total)
            (label_fits total)).0,
      ))
      (λ e.
        let more : total < length chunks = ground (arith, e) in
        privacy_loop-Ends fuel text (length chunks) (omega (arith, k, few, more))
          (omega (arith, k, few, more)))

-- The loop that resolves the number of chunks with the room of their labels ends for every document,
-- within one round more than the document has runes, and the chunks that it ends with are the
-- document.
pub privacy_chunks-Ends :
    (text : Text)
    → (chunks : List Text) × (privacy_chunks text ≡ some chunks) × (flatten chunks ≡ text)
unfolding privacy_chunks
privacy_chunks-Ends text = privacy_loop-Ends (suc (length text)) text 1 (omega arith) (omega arith)
