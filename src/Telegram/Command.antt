-- ===== src/Telegram/Command.antt =====
-- bot/internal/telegram/commands.go: the command and the argument of a text. The Unicode tables of
-- the standard library, `unicode.IsSpace` and `unicode.ToLower`, are arguments.
use undelete.Base.{ℕ, Bool, Option, none, some, [], ◌∷◌, if◌then◌else◌, nat_beq, map}
use undelete.Telegram.Split.{Text}

pub record Unicode : Type 0 where
  pub is_space : ℕ → Bool
  pub lower : ℕ → ℕ

-- The text before the first rune of a kind, and the text from it on.
abbrev pub before : (ℕ → Bool) → Text → Text
before p [] = []
before p (r ∷ text) = let rest = before p text in if p r then [] else r ∷ rest

abbrev pub from : (ℕ → Bool) → Text → Text
from p [] = []
from p (r ∷ text) = let rest = from p text in if p r then r ∷ text else rest

-- No rune but the slash is no command.
abbrev named : Text → Option Text
named [] = none
named (r ∷ []) = none
named (r ∷ s ∷ text) = some (r ∷ s ∷ text)

unfoldable pub parse_command : Unicode → Text → Option Text
parse_command u [] = none
parse_command u (r ∷ text) =
    if nat_beq r b'/'
    then named (map u.lower (before (λ c. nat_beq c b'@') (before u.is_space (r ∷ text))))
    else none

-- `strings.TrimSpace`.
abbrev trim_left : (ℕ → Bool) → Text → Text
trim_left p [] = []
trim_left p (r ∷ text) = let rest = trim_left p text in if p r then rest else r ∷ text

abbrev trim_end : (ℕ → Bool) → Text → Text
trim_end p [] = []
trim_end p (r ∷ text) = elim (trim_end p text) [
  | [] ↦ if p r then [] else r ∷ []
  | s ∷ rest ↦ r ∷ s ∷ rest
]

unfoldable pub command_argument : Unicode → Text → Text
command_argument u text = elim (parse_command u text) [
  | none ↦ []
  | some command ↦ trim_end u.is_space (trim_left u.is_space (from u.is_space text))
]
