-- ===== src/Media/Path.antt =====
-- bot/internal/media/path.go: ValidateRelativePath. A path is its list of bytes.
use undelete.Base.{ℕ, Bool, false, ◌||◌, Option, none, some, List, [], ◌∷◌, if◌then◌else◌, nat_beq}

abbrev pub FilePath : Type 0
FilePath = List ℕ

pub data PathError : Type 0 where
  empty absolute backslash nul empty_component dot_component : PathError

-- `strings.Contains` of one byte.
unfoldable pub contains : ℕ → FilePath → Bool
contains c [] = false
contains c (x ∷ p) = nat_beq x c || contains c p

-- `strings.Split(p, "/")`: the component in progress is put in front of the others.
unfoldable pub split_slash : FilePath → List FilePath
split_slash [] = [] ∷ []
split_slash (x ∷ p) = elim (split_slash p) [
  | [] ↦ (x ∷ []) ∷ []
  | c ∷ cs ↦ if nat_beq x b'/' then [] ∷ c ∷ cs else (x ∷ c) ∷ cs
]

-- The `switch` of the loop.
unfoldable pub check_component : FilePath → Option PathError
check_component [] = some empty_component
check_component (a ∷ []) = if nat_beq a b'.' then some dot_component else none
check_component (a ∷ b ∷ []) =
    if nat_beq a b'.' then (if nat_beq b b'.' then some dot_component else none) else none
check_component (a ∷ b ∷ c ∷ p) = none

unfoldable pub check_components : List FilePath → Option PathError
unfolding check_component
check_components [] = none
check_components (c ∷ cs) =
    let rest = check_components cs in elim (check_component c) [ some e ↦ some e | none ↦ rest ]

abbrev starts_with_slash : FilePath → Bool
starts_with_slash [] = false
starts_with_slash (x ∷ p) = nat_beq x b'/'

-- `none` is the nil error.
unfoldable pub validate_relative_path : FilePath → Option PathError
unfolding check_components split_slash contains
validate_relative_path [] = some empty
validate_relative_path (x ∷ p) =
    if nat_beq x b'/'
    then some absolute
    else (if contains b'\\' (x ∷ p)
        then some backslash
        else (if contains 0 (x ∷ p) then some nul else check_components (split_slash (x ∷ p))))
