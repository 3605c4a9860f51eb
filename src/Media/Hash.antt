-- ===== src/Media/Hash.antt =====
-- bot/internal/media/path.go: ValidateSHA256. A hash is its list of bytes.
use undelete.Base.{
  ℕ, Bool, true, ◌&&◌, ◌||◌, Option, none, some, List, [], ◌∷◌, if◌then◌else◌, leb, nat_beq, length,
}

pub data HashError : Type 0 where
  bad_length bad_digit : HashError

-- "0" to "9" and "a" to "f".
abbrev pub is_hex : ℕ → Bool
is_hex c = (leb 48 c && leb c 57) || (leb 97 c && leb c 102)

unfoldable pub all_hex : List ℕ → Bool
all_hex [] = true
all_hex (c ∷ cs) = is_hex c && all_hex cs

unfoldable pub validate_sha256 : List ℕ → Option HashError
validate_sha256 h =
    if nat_beq (length h) 64 then (if all_hex h then none else some bad_digit) else some bad_length
