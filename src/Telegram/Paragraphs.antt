-- ===== src/Telegram/Paragraphs.antt =====
-- The chunks of splitPolicyText and the document they are cut from.
use undelete.Base.{
  ℕ, zero, suc, ◌+◌, ◌≤◌, ◌<◌, ◌≡◌, refl, sym, ap, ◌∙◌, Bool, true, false, ◌&&◌, not, List, [], ◌∷◌,
  ◌++◌, arith, if◌then◌else◌, ltb, length, All, if-both, if-split,
}
use undelete.Base.Rows.{append-All}
use mathlib.Core.List.{append_assoc, flatten}
use undelete.Telegram.Split.{
  Text, utf16_units, split_telegram_text, split_telegram_text_lem, utf16_units-append, IsChunk,
}
use undelete.Telegram.Policy.{
  is_newline, absorb, cut, segments_on, paragraph_segments, is_empty, but_last, last, flushed, kept,
  place, policy_loop, split_policy_text,
}

absorb-all : (text : Text) → (absorb text).0 ++ (absorb text).1 ≡ text
absorb-all [] = refl
absorb-all (r ∷ text) =
    if-both (λ (p : Text × Text). p.0 ++ p.1 ≡ r ∷ text) (is_newline r) _ _
      (ap (λ rest. r ∷ rest) (absorb-all text)) refl

cut-all : (text : Text) → (cut text).0 ++ (cut text).1 ≡ text
cut-all [] = refl
cut-all (r ∷ []) = refl
cut-all (r ∷ s ∷ text) =
    if-both (λ (p : Text × Text). p.0 ++ p.1 ≡ r ∷ s ∷ text) (is_newline r && is_newline s) _ _
      (ap (λ rest. r ∷ s ∷ rest) (absorb-all text)) (ap (λ rest. r ∷ rest) (cut-all (s ∷ text)))

-- A cut takes at least one rune.
absorb-le : (text : Text) → length (absorb text).1 ≤ length text
absorb-le [] = omega arith
absorb-le (r ∷ text) =
    if-both (λ (p : Text × Text). length p.1 ≤ suc (length text)) (is_newline r) _ _
      (omega (arith, absorb-le text)) (omega arith)

cut-less : (r : ℕ) (text : Text) → length (cut (r ∷ text)).1 ≤ length text
cut-less r [] = omega arith
cut-less r (s ∷ text) =
    if-both (λ (p : Text × Text). length p.1 ≤ suc (length text)) (is_newline r && is_newline s) _ _
      (omega (arith, absorb-le text)) (omega (arith, cut-less s text))

segments_on-all :
    (fuel : ℕ) (text : Text) → length text ≤ fuel → flatten (segments_on fuel text) ≡ text
unfolding segments_on flatten
segments_on-all zero [] h = refl
segments_on-all zero (r ∷ text) h = absurd (omega (arith, h))
segments_on-all (suc fuel) [] h = refl
segments_on-all (suc fuel) (r ∷ text) h =
    ap (λ rest. (cut (r ∷ text)).0 ++ rest)
      (segments_on-all fuel (cut (r ∷ text)).1 (omega (arith, h, cut-less r text)))
    ∙ cut-all (r ∷ text)

flatten-append : (xs ys : List Text) → flatten (xs ++ ys) ≡ flatten xs ++ flatten ys
unfolding flatten
flatten-append [] ys = refl
flatten-append (x ∷ xs) ys =
    ap (λ rest. x ++ rest) (flatten-append xs ys) ∙ sym (append_assoc x (flatten xs) (flatten ys))

append-empty : (xs : Text) → xs ++ [] ≡ xs
append-empty [] = refl
append-empty (x ∷ xs) = ap (λ ys. x ∷ ys) (append-empty xs)

flatten-but_last : (cs : List Text) → flatten (but_last cs) ++ last cs ≡ flatten cs
unfolding flatten
flatten-but_last [] = refl
flatten-but_last (c ∷ []) = sym (append-empty c)
flatten-but_last (c ∷ d ∷ cs) =
    append_assoc c (flatten (but_last (d ∷ cs))) (last (d ∷ cs))
    ∙ ap (λ rest. c ++ rest) (flatten-but_last (d ∷ cs))

-- What is flushed and what is kept are the chunk in progress.
flatten-flushed :
    (b : Bool) (current rest : Text)
    → flatten (flushed b current) ++ (kept b current ++ rest) ≡ current ++ rest
unfolding flatten
flatten-flushed true current rest = ap (λ xs. xs ++ rest) (append-empty current)
flatten-flushed false current rest = refl

-- A paragraph that is too long finds no chunk in progress.
kept-long :
    (limit units size : ℕ) (current : Text)
    → limit < size
    → kept (ltb limit (units + size) && not (is_empty current)) current ≡ []
kept-long limit units size [] h =
    if-both (λ (t : Text). t ≡ []) (ltb limit (units + size) && false) _ _ refl refl
kept-long limit units size (c ∷ current) h =
    if-split (λ (t : Text). t ≡ []) (ltb limit (units + size) && true) _ _ (λ e. refl)
      (λ e. absurd (ground (arith, e, h)))

flatten-long :
    (b : Bool) (current : Text) (subs : List Text) (p : Text)
    → kept b current ≡ []
    → flatten subs ≡ p
    → flatten (flushed b current ++ but_last subs) ++ (kept b current ++ last subs) ≡ current ++ p
unfolding flatten
flatten-long true current subs p h whole =
    append_assoc current (flatten (but_last subs)) (last subs)
    ∙ ap (λ rest. current ++ rest) (flatten-but_last subs ∙ whole)
flatten-long false current subs p h whole = rw h (flatten-but_last subs ∙ whole)

flushed-All :
    (limit units size : ℕ) (current : Text)
    → units ≡ utf16_units current
    → units ≤ limit
    → All (IsChunk limit) (flushed (ltb limit (units + size) && not (is_empty current)) current)
flushed-All limit units size [] e h =
    if-split (All (IsChunk limit)) (ltb limit (units + size) && false) _ _
      (λ f. absurd (ground (arith, f))) (λ f. tt)
flushed-All limit units size (c ∷ current) e h =
    if-both (All (IsChunk limit)) (ltb limit (units + size) && true) _ _
      ((omega arith, omega (arith, e, h)), tt) tt

but_last-All :
    (limit : ℕ) (cs : List Text) → All (IsChunk limit) cs → All (IsChunk limit) (but_last cs)
but_last-All limit [] a = tt
but_last-All limit (c ∷ []) a = tt
but_last-All limit (c ∷ d ∷ cs) a = (a.0, but_last-All limit (d ∷ cs) a.1)

last-le : (limit : ℕ) (cs : List Text) → All (IsChunk limit) cs → utf16_units (last cs) ≤ limit
unfolding utf16_units
last-le limit [] a = omega arith
last-le limit (c ∷ []) a = a.0.1
last-le limit (c ∷ d ∷ cs) a = last-le limit (d ∷ cs) a.1

kept-units :
    (b : Bool) (units : ℕ) (current p : Text)
    → units ≡ utf16_units current
    → (if b then 0 else units) + utf16_units p ≡ utf16_units (kept b current ++ p)
kept-units true units current p e = omega arith
kept-units false units current p e = rw (utf16_units-append current p, e) refl

kept-le :
    (limit units size : ℕ) (current : Text)
    → units ≡ utf16_units current
    → size ≤ limit
    → (if ltb limit (units + size) && not (is_empty current) then 0 else units) + size ≤ limit
unfolding utf16_units
kept-le limit units size [] e h = ground (arith, e, h)
kept-le limit units size (c ∷ current) e h = ground (arith, h)

abbrev Placed : ℕ → Text → Text → List Text × Text × ℕ → Type 0
Placed limit current p r =
    (flatten r.0 ++ r.1 ≡ current ++ p)
    × All (IsChunk limit) r.0
    × (r.2 ≡ utf16_units r.1)
    × (r.2 ≤ limit)

place-Placed :
    (limit : ℕ) (current : Text) (units : ℕ) (p : Text)
    → 2 ≤ limit
    → units ≡ utf16_units current
    → units ≤ limit
    → Placed limit current p (place limit current units p)
unfolding place
place-Placed limit current units p h e le =
    let size = utf16_units p in
    let flushes = ltb limit (units + size) && not (is_empty current) in
    let subs = split_telegram_text p limit in
    let whole = split_telegram_text_lem p limit h in
    let before = flushed-All limit units size current e le in
    if-split (Placed limit current p) (ltb limit size) _ _
      (λ long.
        let none_kept = kept-long limit units size current (ground (arith, long)) in
        (
          flatten-long flushes current subs p none_kept whole.0,
          append-All _ (flushed flushes current) (but_last subs) before
              (but_last-All limit subs whole.1),
          rw none_kept refl,
          last-le limit subs whole.1,
        ))
      (λ short. (
        flatten-flushed flushes current p,
        before,
        kept-units flushes units current p e,
        kept-le limit units size current e (ground (arith, short)),
      ))

policy_loop_lem :
    (limit : ℕ) (current : Text) (units : ℕ) (ps : List Text)
    → 2 ≤ limit
    → units ≡ utf16_units current
    → units ≤ limit
    → (flatten (policy_loop limit current units ps) ≡ current ++ flatten ps)
      × All (IsChunk limit) (policy_loop limit current units ps)
unfolding policy_loop flatten
policy_loop_lem limit [] units [] h e le = (refl, tt)
policy_loop_lem limit (c ∷ current) units [] h e le =
    (refl, ((omega arith, omega (arith, e, le)), tt))
policy_loop_lem limit current units (p ∷ ps) h e le =
    let placed = place limit current units p in
    let good = place-Placed limit current units p h e le in
    let rest = policy_loop_lem limit placed.1 placed.2 ps h good.2 good.3 in
    (
      flatten-append placed.0 _
          ∙ ap (λ xs. flatten placed.0 ++ xs) rest.0
          ∙ sym (append_assoc (flatten placed.0) placed.1 (flatten ps))
          ∙ ap (λ xs. xs ++ flatten ps) good.0
          ∙ append_assoc current p (flatten ps),
      append-All _ placed.0 _ good.1 rest.1,
    )

-- For a limit of at least 2 units, the chunks of a document put together are the document, and each
-- of them is non-empty and at most `limit` UTF-16 units long.
pub split_policy_text_lem :
    (text : Text) (limit : ℕ)
    → 2 ≤ limit
    → (flatten (split_policy_text text limit) ≡ text)
      × All (IsChunk limit) (split_policy_text text limit)
unfolding split_policy_text paragraph_segments flatten
split_policy_text_lem [] limit h = (refl, tt)
split_policy_text_lem (r ∷ text) limit h =
    if-split (λ (cs : List Text). (flatten cs ≡ r ∷ text) × All (IsChunk limit) cs) (ltb limit 1) _
      _ (λ small. absurd (ground (arith, small, h)))
      (λ _.
        let loop =
          policy_loop_lem limit [] 0 (segments_on (length (r ∷ text)) (r ∷ text)) h
            (unfold utf16_units in refl) (omega arith) in
        (loop.0 ∙ segments_on-all (length (r ∷ text)) (r ∷ text) (omega arith), loop.1))
