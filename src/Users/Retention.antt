-- ===== src/Users/Retention.antt =====
-- bot/internal/users/repository.go: ParseRetentionDays, GetRetentionDays and SetRetentionDays. An
-- argument is its list of bytes; the table `users` maps the tenant's id to its period in days.
use undelete.Base.{
  ℕ, ◌+◌, ◌-◌, ◌*◌, ◌≡◌, refl, Bool, true, false, ◌&&◌, ◌||◌, not, Option, none, some, List, [],
  ◌∷◌, if◌then◌else◌, ltb, leb, nat_beq, arith, is_some, Option-cases, inl, inr,
}
use undelete.Base.Int.{ℤ, max_int64, int_comparable}
use undelete.Base.Dict.{lookup, insert, lookup-insert_self}

abbrev pub min_retention_days : ℕ
min_retention_days = 1

abbrev pub max_retention_days : ℕ
max_retention_days = 365

pub data RetentionError : Type 0 where
  not_a_number : RetentionError
  out_of_bounds : ℕ → RetentionError
  no_such_tenant : ℤ → RetentionError
  database : RetentionError

pub data Parsed : Type 0 where
  days : ℕ → Parsed
  refused : RetentionError → Parsed

-- The rest of `strings.Fields` after a byte: `open` tells whether a field is in progress.
abbrev pub extend : ℕ → Bool → List (List ℕ) → List (List ℕ)
extend b true [] = (b ∷ []) ∷ []
extend b true (f ∷ fs) = (b ∷ f) ∷ fs
extend b false fs = (b ∷ []) ∷ fs

abbrev pub starts_field : (ℕ → Bool) → List ℕ → Bool
starts_field is_space [] = false
starts_field is_space (b ∷ bs) = not (is_space b)

-- `strings.Fields`, for the white space of unicode.IsSpace.
unfoldable pub fields : (ℕ → Bool) → List ℕ → List (List ℕ)
fields is_space [] = []
fields is_space (b ∷ bs) =
    let rest = fields is_space bs in
    if is_space b then rest else extend b (starts_field is_space bs) rest

-- A superfluous leading zero.
abbrev pub has_leading_zero : List ℕ → Bool
has_leading_zero [] = false
has_leading_zero (b ∷ []) = false
has_leading_zero (b ∷ c ∷ bs) = nat_beq b 48

-- The loop over the token.
unfoldable pub all_digits : List ℕ → Bool
all_digits [] = true
all_digits (b ∷ bs) = not (ltb b 48 || ltb 57 b) && all_digits bs

-- The value of digits after a prefix.
unfoldable pub value : ℕ → List ℕ → ℕ
value n [] = n
value n (b ∷ bs) = value (n * 10 + (b - 48)) bs

-- `strconv.Atoi` on digits: an error past the largest int, and for no digits.
unfoldable pub atoi : List ℕ → Option ℕ
atoi [] = none
atoi (b ∷ bs) = let n = value 0 (b ∷ bs) in if leb n max_int64 then some n else none

-- The test of both functions.
abbrev pub in_bounds : ℕ → Bool
in_bounds n = not (ltb n min_retention_days || ltb max_retention_days n)

unfoldable pub parse_token : List ℕ → Parsed
parse_token token =
    if has_leading_zero token
    then refused not_a_number
    else (if all_digits token
        then elim (atoi token) [
          | none ↦ refused not_a_number
          | some n ↦ if in_bounds n then days n else refused (out_of_bounds n)
        ]
        else refused not_a_number)

unfoldable pub parse_fields : List (List ℕ) → Parsed
parse_fields [] = refused not_a_number
parse_fields (token ∷ []) = parse_token token
parse_fields (token ∷ other ∷ rest) = refused not_a_number

unfoldable pub parse_retention_days : (ℕ → Bool) → List ℕ → Parsed
parse_retention_days is_space argument = parse_fields (fields is_space argument)

unfoldable pub get_retention_days : ℤ → List (ℤ × ℕ) → Option ℕ
get_retention_days owner users = lookup owner users

-- `none` is the nil error; `fails` tells that the database does.
unfoldable pub set_retention_days :
    Bool → ℤ → ℕ → List (ℤ × ℕ) → List (ℤ × ℕ) × Option RetentionError
set_retention_days fails owner n users =
    if in_bounds n
    then (if fails then (users, some database) else elim (lookup owner users) [
      | none ↦ (users, some (no_such_tenant owner))
      | some _ ↦ (insert owner n users, none)
    ])
    else (users, some (out_of_bounds n))

parse_token-in_bounds : (token : List ℕ) (n : ℕ) → parse_token token ≡ days n → in_bounds n ≡ true
unfolding parse_token
parse_token-in_bounds token n e = ground arith

parse_fields-in_bounds :
    (fs : List (List ℕ)) (n : ℕ) → parse_fields fs ≡ days n → in_bounds n ≡ true
unfolding parse_fields
parse_fields-in_bounds [] n e = cc
parse_fields-in_bounds (token ∷ []) n e = parse_token-in_bounds token n e
parse_fields-in_bounds (token ∷ other ∷ rest) n e = cc

-- A period that the argument of /retention is read as can always be stored: for a tenant of the table
-- and a database that answers, it is what the tenant's period is read as afterwards, whatever the
-- argument was.
pub parse_retention_days-stored :
    (is_space : ℕ → Bool) (argument : List ℕ) (n : ℕ) (owner : ℤ) (users : List (ℤ × ℕ))
    → parse_retention_days is_space argument ≡ days n
    → is_some (get_retention_days owner users) ≡ true
    → let r = set_retention_days false owner n users in
      (r.1 ≡ none) × (get_retention_days owner r.0 ≡ some n)
unfolding parse_retention_days get_retention_days set_retention_days
parse_retention_days-stored is_space argument n owner users e known =
    let within = parse_fields-in_bounds (fields is_space argument) n e in
    elim (Option-cases (lookup owner users)) [
      | inl p ↦ let absent = rw p at known in cc
      | inr (old, p) ↦ rw (set_retention_days, within, p) (refl, lookup-insert_self owner n users)
    ]
