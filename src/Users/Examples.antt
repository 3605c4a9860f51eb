-- ===== src/Users/Examples.antt =====
-- A run of the command /retention.
use undelete.Base.{ℕ, ◌≡◌, refl, Bool, false, none, some, List, [], ◌∷◌, nat_beq}
use undelete.Base.Int.{ℤ, pos}
use undelete.Base.Dict.{lookup}
use undelete.Users.Retention.{
  days, refused, not_a_number, parse_retention_days, get_retention_days, set_retention_days,
  parse_retention_days-stored, fields, parse_fields, parse_token, all_digits, value, atoi,
}

abbrev is_blank : ℕ → Bool
is_blank b = nat_beq b 32

-- " 30 ".
abbrev thirty : List ℕ
thirty = 32 ∷ 51 ∷ 48 ∷ 32 ∷ []

read_thirty : parse_retention_days is_blank thirty ≡ days 30
unfolding parse_retention_days fields parse_fields parse_token all_digits value atoi
read_thirty = refl

read_leading_zero : parse_retention_days is_blank (48 ∷ 55 ∷ []) ≡ refused not_a_number
unfolding parse_retention_days fields parse_fields parse_token all_digits value atoi
read_leading_zero = refl

abbrev tenants : List (ℤ × ℕ)
tenants = (pos 7, 7) ∷ []

parse_retention_days-stored_example :
    let r = set_retention_days false (pos 7) 30 tenants in
    (r.1 ≡ none) × (get_retention_days (pos 7) r.0 ≡ some 30)
unfolding get_retention_days lookup
parse_retention_days-stored_example =
    parse_retention_days-stored is_blank thirty 30 (pos 7) tenants read_thirty refl
