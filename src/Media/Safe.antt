-- ===== src/Media/Safe.antt =====
-- What an accepted path is made of.
use undelete.Base.{
  ℕ, ◌≡◌, ◌≢◌, refl, false, none, List, [], ◌∷◌, ◌++◌, arith, ap, ◌∙◌, if◌then◌else◌, nat_beq, All,
  Bool-cases, Option-cases, inl, inr, if-split, if-both,
}
use undelete.Media.Path.{
  FilePath, contains, split_slash, check_component, check_components, validate_relative_path,
}

-- One name in a directory: it holds no slash, and it is not empty, not "." and not "..".
abbrev pub IsPlain : FilePath → Type 0
IsPlain c = (contains b'/' c ≡ false) × (c ≢ []) × (c ≢ b'.' ∷ []) × (c ≢ b'.' ∷ b'.' ∷ [])

-- `strings.Join(cs, "/")`.
abbrev pub join_slash : List FilePath → FilePath
join_slash [] = []
join_slash (c ∷ []) = c
join_slash (c ∷ d ∷ cs) = c ++ b'/' ∷ join_slash (d ∷ cs)

abbrev HasNoSlash : FilePath → Type 0
HasNoSlash c = contains b'/' c ≡ false

-- What the split does with a byte in front: `x` begins a component.
longer-HasNoSlash :
    (x : ℕ) (cs : List FilePath)
    → All HasNoSlash cs
    → cs ≢ []
    → All HasNoSlash (elim cs [
      | [] ↦ (x ∷ []) ∷ []
      | c ∷ ds ↦ if nat_beq x b'/' then [] ∷ c ∷ ds else (x ∷ c) ∷ ds
    ])
unfolding contains
longer-HasNoSlash x [] h n = absurd (n refl)
longer-HasNoSlash x (c ∷ ds) h n =
    if-split (All HasNoSlash) (nat_beq x b'/') _ _ (λ e. (refl, h)) (λ e. (ground arith, h.1))

split_slash-some : (p : FilePath) → split_slash p ≢ []
unfolding split_slash
split_slash-some [] = cc
split_slash-some (x ∷ p) = go (split_slash p)
  where
    go :
        (cs : List FilePath)
        → (elim cs [
          | [] ↦ (x ∷ []) ∷ []
          | c ∷ ds ↦ if nat_beq x b'/' then [] ∷ c ∷ ds else (x ∷ c) ∷ ds
        ])
          ≢ []
    go [] = cc
    go (c ∷ ds) = if-both (λ (l : List FilePath). l ≢ []) (nat_beq x b'/') _ _ (cc) (cc)

split_slash-HasNoSlash : (p : FilePath) → All HasNoSlash (split_slash p)
unfolding split_slash contains
split_slash-HasNoSlash [] = (refl, tt)
split_slash-HasNoSlash (x ∷ p) =
    longer-HasNoSlash x (split_slash p) (split_slash-HasNoSlash p) (split_slash-some p)

check_component-IsPlain : (c : FilePath) → HasNoSlash c → check_component c ≡ none → IsPlain c
unfolding check_component
check_component-IsPlain [] h e = cc
check_component-IsPlain (a ∷ []) h e = (h, ground arith, ground arith, ground arith)
check_component-IsPlain (a ∷ b ∷ []) h e = (h, ground arith, ground arith, ground arith)
check_component-IsPlain (a ∷ b ∷ c ∷ p) h e = (h, ground arith, ground arith, ground arith)

check_components-IsPlain :
    (cs : List FilePath) → All HasNoSlash cs → check_components cs ≡ none → All IsPlain cs
unfolding check_components
check_components-IsPlain [] h e = tt
check_components-IsPlain (c ∷ cs) h e = elim (Option-cases (check_component c)) [
  | inl p ↦ (
    check_component-IsPlain c h.0 p,
    check_components-IsPlain cs h.1 (rw (p, check_components) at e),
  )
  | inr (x, p) ↦ let f = rw (p, check_components) at e in cc
]

longer :
    (x : ℕ) (c : FilePath) (cs : List FilePath)
    → join_slash ((x ∷ c) ∷ cs) ≡ x ∷ join_slash (c ∷ cs)
longer x c [] = refl
longer x c (d ∷ cs) = refl

join-split : (p : FilePath) → join_slash (split_slash p) ≡ p
unfolding split_slash
join-split [] = refl
join-split (x ∷ p) = joined x p (split_slash p) (join-split p)
  where
    joined :
        (x : ℕ) (p : FilePath) (cs : List FilePath)
        → join_slash cs ≡ p
        → join_slash (elim cs [
          | [] ↦ (x ∷ []) ∷ []
          | c ∷ ds ↦ if nat_beq x b'/' then [] ∷ c ∷ ds else (x ∷ c) ∷ ds
        ])
          ≡ x ∷ p
    joined x p [] e = ap (λ q. x ∷ q) e
    joined x p (c ∷ ds) e = elim (Bool-cases (nat_beq x b'/')) [
      | inl b ↦ let slash : x ≡ b'/' = ground arith in rw (b, slash) (ap (λ q. b'/' ∷ q) e)
      | inr b ↦ rw b (longer x c ds ∙ ap (λ q. x ∷ q) e)
    ]

-- A path that `ValidateRelativePath` accepts is the join by slashes of components that hold no slash,
-- none of which is empty, "." or "..", and it holds neither a backslash nor a zero byte.
pub validate_relative_path-IsPlain :
    (p : FilePath)
    → validate_relative_path p ≡ none
    → (join_slash (split_slash p) ≡ p)
      × All IsPlain (split_slash p)
      × (contains b'\\' p ≡ false)
      × (contains 0 p ≡ false)
unfolding validate_relative_path
validate_relative_path-IsPlain [] e = cc
validate_relative_path-IsPlain (x ∷ p) e =
    let checked : check_components (split_slash (x ∷ p)) ≡ none = ground arith in
    (
      join-split (x ∷ p),
      check_components-IsPlain (split_slash (x ∷ p)) (split_slash-HasNoSlash (x ∷ p)) checked,
      ground arith,
      ground arith,
    )
