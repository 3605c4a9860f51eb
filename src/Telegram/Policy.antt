-- ===== src/Telegram/Policy.antt =====
-- bot/internal/telegram/alerts.go: the splitting of a document on its paragraphs.
use undelete.Base.{
  ℕ, zero, suc, ◌+◌, Bool, true, false, ◌&&◌, not, List, [], ◌∷◌, ◌++◌, if◌then◌else◌, ltb, nat_beq,
  length,
}
use undelete.Telegram.Split.{Text, utf16_units, split_telegram_text}

abbrev pub is_newline : ℕ → Bool
is_newline r = nat_beq r 10

-- The line feeds that the text begins with, and the rest.
abbrev pub absorb : Text → Text × Text
absorb [] = ([], [])
absorb (r ∷ text) =
    let rest = absorb text in if is_newline r then (r ∷ rest.0, rest.1) else ([], r ∷ text)

-- The text up to its first blank line, with the line feeds that follow, and the rest.
abbrev pub cut : Text → Text × Text
cut [] = ([], [])
cut (r ∷ []) = (r ∷ [], [])
cut (r ∷ s ∷ text) =
    let rest = cut (s ∷ text) in
    let blank = absorb text in
    if is_newline r && is_newline s then (r ∷ s ∷ blank.0, blank.1) else (r ∷ rest.0, rest.1)

-- The loop, for at most as many segments as there are runes.
unfoldable pub segments_on : ℕ → Text → List Text
segments_on zero text = []
segments_on (suc fuel) [] = []
segments_on (suc fuel) (r ∷ text) = let piece = cut (r ∷ text) in piece.0 ∷ segments_on fuel piece.1

unfoldable pub paragraph_segments : Text → List Text
paragraph_segments text = segments_on (length text) text

abbrev pub is_empty : Text → Bool
is_empty [] = true
is_empty (r ∷ text) = false

abbrev pub but_last : List Text → List Text
but_last [] = []
but_last (c ∷ []) = []
but_last (c ∷ d ∷ cs) = c ∷ but_last (d ∷ cs)

abbrev pub last : List Text → Text
last [] = []
last (c ∷ []) = c
last (c ∷ d ∷ cs) = last (d ∷ cs)

abbrev pub flushed : Bool → Text → List Text
flushed b current = if b then current ∷ [] else []

abbrev pub kept : Bool → Text → Text
kept b current = if b then [] else current

-- One paragraph: the chunks that it completes, the chunk in progress after it, and its length.
unfoldable pub place : ℕ → Text → ℕ → Text → List Text × Text × ℕ
place limit current units p =
    let size = utf16_units p in
    let flushes = ltb limit (units + size) && not (is_empty current) in
    let subs = split_telegram_text p limit in
    if ltb limit size
    then (
      flushed flushes current ++ but_last subs,
      kept flushes current ++ last subs,
      utf16_units (last subs),
    )
    else (flushed flushes current, kept flushes current ++ p, (if flushes then 0 else units) + size)

-- The loop over the paragraphs: `current` is the chunk in progress.
unfoldable pub policy_loop : ℕ → Text → ℕ → List Text → List Text
policy_loop limit current units [] = if is_empty current then [] else current ∷ []
policy_loop limit current units (p ∷ ps) =
    let placed = place limit current units p in placed.0 ++ policy_loop limit placed.1 placed.2 ps

unfoldable pub split_policy_text : Text → ℕ → List Text
split_policy_text [] limit = []
split_policy_text (r ∷ text) limit =
    if ltb limit 1 then [] else policy_loop limit [] 0 (paragraph_segments (r ∷ text))
