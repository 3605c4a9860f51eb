-- ===== src/Telegram/Split.antt =====
-- bot/internal/telegram/alerts.go: UTF-16 lengths and splitTelegramText. A text is its list of code
-- points.
use undelete.Base.{
  ℕ, ◌+◌, ◌≤◌, ◌<◌, ◌≡◌, refl, ap, ◌∙◌, Bool, true, false, ◌&&◌, not, List, [], ◌∷◌, ◌++◌, arith,
  if◌then◌else◌, ltb, leb, length, All, if-both, if-split,
}
use mathlib.Core.List.{append_assoc, flatten}

abbrev pub Text : Type 0
Text = List ℕ

abbrev pub telegram_text_limit : ℕ
telegram_text_limit = 4096

-- `utf16.RuneLen` is 2 from 0x10000 to 0x10ffff, 1 below but for the surrogates, and -1 otherwise,
-- which counts as one unit.
unfoldable pub rune_utf16_units : ℕ → ℕ
rune_utf16_units r = if leb 0x10000 r && leb r 0x10ffff then 2 else 1

unfoldable pub utf16_units : Text → ℕ
unfolding rune_utf16_units
utf16_units [] = 0
utf16_units (r ∷ text) = rune_utf16_units r + utf16_units text

abbrev is_empty : Text → Bool
is_empty [] = true
is_empty (_ ∷ _) = false

-- The loop: `current` is the chunk in progress, `units` its length.
unfoldable pub split_loop : ℕ → Text → ℕ → Text → List Text
unfolding rune_utf16_units
split_loop limit current units [] = if is_empty current then [] else current ∷ []
split_loop limit current units (r ∷ text) =
    let rune_units = rune_utf16_units r in
    let flushed = current ∷ split_loop limit (r ∷ []) rune_units text in
    let grown = split_loop limit (current ++ r ∷ []) (units + rune_units) text in
    if ltb limit (units + rune_units) && not (is_empty current) then flushed else grown

unfoldable pub split_telegram_text : Text → ℕ → List Text
unfolding split_loop
split_telegram_text [] limit = []
split_telegram_text (r ∷ text) limit = if ltb limit 1 then [] else split_loop limit [] 0 (r ∷ text)

rune_bounds : (r : ℕ) → (1 ≤ rune_utf16_units r) × (rune_utf16_units r ≤ 2)
unfolding rune_utf16_units
rune_bounds r = ground arith

pub utf16_units-append : (xs ys : Text) → utf16_units (xs ++ ys) ≡ utf16_units xs + utf16_units ys
unfolding utf16_units
utf16_units-append [] ys = omega arith
utf16_units-append (x ∷ xs) ys = omega (arith, utf16_units-append xs ys)

-- The chunks of the loop, put together again, are the chunk in progress and the rest.
flatten-split_loop :
    (limit : ℕ) (current : Text) (units : ℕ) (text : Text)
    → flatten (split_loop limit current units text) ≡ current ++ text
unfolding split_loop flatten
flatten-split_loop limit [] units [] = refl
flatten-split_loop limit (c ∷ current) units [] = refl
flatten-split_loop limit current units (r ∷ text) =
    let u = rune_utf16_units r in
    if-both (λ (chunks : List Text). flatten chunks ≡ current ++ r ∷ text)
      (ltb limit (units + u) && not (is_empty current)) _ _
      (ap (λ rest. current ++ rest) (flatten-split_loop limit (r ∷ []) u text))
      (flatten-split_loop limit (current ++ r ∷ []) (units + u) text
        ∙ append_assoc current (r ∷ []) text)

abbrev pub IsChunk : ℕ → Text → Type 0
IsChunk limit chunk = (0 < length chunk) × (utf16_units chunk ≤ limit)

split_loop-IsChunk :
    (limit : ℕ) (current : Text) (units : ℕ) (text : Text)
    → 2 ≤ limit
    → units ≡ utf16_units current
    → units ≤ limit
    → All (IsChunk limit) (split_loop limit current units text)
unfolding split_loop utf16_units
split_loop-IsChunk limit [] units [] h e b = tt
split_loop-IsChunk limit (c ∷ current) units [] h e b = ((omega arith, omega arith), tt)
split_loop-IsChunk limit [] units (r ∷ text) h e b =
    let u = rune_utf16_units r in
    if-split (All (IsChunk limit)) (ltb limit (units + u) && false) _ _
      (λ never. absurd (ground arith))
      (λ room.
        split_loop-IsChunk limit (r ∷ []) (units + u) text h (omega arith)
          (omega (arith, rune_bounds r)))
split_loop-IsChunk limit (c ∷ current) units (r ∷ text) h e b =
    let u = rune_utf16_units r in
    if-split (All (IsChunk limit)) (ltb limit (units + u) && true) _ _
      (λ full. (
        (omega arith, omega arith),
        split_loop-IsChunk limit (r ∷ []) u text h (omega arith) (omega (arith, rune_bounds r)),
      ))
      (λ room.
        split_loop-IsChunk limit (c ∷ (current ++ r ∷ [])) (units + u) text h
          (omega (arith, utf16_units-append (c ∷ current) (r ∷ []))) (ground arith))

-- For a limit of at least 2 units, the chunks put together are the text, and each of them is
-- non-empty and at most `limit` UTF-16 units long.
pub split_telegram_text_lem :
    (text : Text) (limit : ℕ)
    → 2 ≤ limit
    → (flatten (split_telegram_text text limit) ≡ text)
      × All (IsChunk limit) (split_telegram_text text limit)
unfolding split_telegram_text flatten
split_telegram_text_lem [] limit h = (refl, tt)
split_telegram_text_lem (r ∷ text) limit h =
    if-split (λ (chunks : List Text). (flatten chunks ≡ r ∷ text) × All (IsChunk limit) chunks)
      (ltb limit 1) _ _ (λ small. absurd (ground arith))
      (λ _. (
        flatten-split_loop limit [] 0 (r ∷ text),
        split_loop-IsChunk limit [] 0 (r ∷ text) h (unfold utf16_units in refl) (omega arith),
      ))
