-- ===== src/Erasure/Code.antt =====
-- bot/internal/erasure/erasure.go: newCode, NormaliseCode, HashCode. A code is its list of runes.
use undelete.Base.{
  ℕ, zero, suc, ◌%◌, ◌≡◌, Bool, not, ◌||◌, List, [], ◌∷◌, map, arith, if◌then◌else◌, nat_beq, keep,
  String, All,
}

-- "ABCDEFGHJKLMNPQRSTUVWXYZ23456789".
abbrev pub code_alphabet : List ℕ
code_alphabet =
    65 ∷ 66 ∷ 67 ∷ 68 ∷ 69 ∷ 70 ∷ 71 ∷ 72 ∷ 74 ∷ 75 ∷ 76 ∷ 77 ∷ 78 ∷ 80 ∷ 81 ∷ 82 ∷ 83 ∷ 84 ∷ 85
    ∷ 86 ∷ 87 ∷ 88 ∷ 89 ∷ 90 ∷ 50 ∷ 51 ∷ 52 ∷ 53 ∷ 54 ∷ 55 ∷ 56 ∷ 57 ∷ []

-- `xs[i]`, where 0 stands for the panic out of range.
abbrev pub at : List ℕ → ℕ → ℕ
at [] i = 0
at (x ∷ xs) zero = x
at (x ∷ xs) (suc i) = at xs i

-- The symbol of one random byte.
unfoldable pub symbol : ℕ → ℕ
symbol b = at code_alphabet (b % 32)

-- `newCode` on the bytes that `rand.Read` gave.
unfoldable pub new_code : List ℕ → List ℕ
new_code raw = map symbol raw

-- The separators of the `switch`: a space, a dash and an underscore.
abbrev pub is_separator : ℕ → Bool
is_separator r = nat_beq r 32 || (nat_beq r 45 || nat_beq r 95)

-- `strings.TrimSpace` from the left.
unfoldable pub trim_left : (ℕ → Bool) → List ℕ → List ℕ
trim_left is_space [] = []
trim_left is_space (r ∷ rs) =
    let rest = trim_left is_space rs in if is_space r then rest else r ∷ rs

unfoldable pub reverse_onto : List ℕ → List ℕ → List ℕ
reverse_onto ys [] = ys
reverse_onto ys (x ∷ xs) = reverse_onto (x ∷ ys) xs

abbrev pub trim_space : (ℕ → Bool) → List ℕ → List ℕ
trim_space is_space rs =
    reverse_onto [] (trim_left is_space (reverse_onto [] (trim_left is_space rs)))

-- The Unicode tables and SHA-256 of the standard library: `unicode.ToUpper`, `unicode.IsSpace` and
-- the lowercase hex of the digest.
module _ (to_upper : ℕ → ℕ) (is_space : ℕ → Bool) where
  unfoldable pub normalise_code : List ℕ → List ℕ
  normalise_code code = keep (λ r. not (is_separator r)) (map to_upper (trim_space is_space code))

  unfoldable pub hash_code : (List ℕ → String) → List ℕ → String
  unfolding normalise_code
  hash_code sha256_hex code = sha256_hex (normalise_code code)

-- How many of the byte values below `n` are drawn as the symbol.
unfoldable pub draws : ℕ → ℕ → ℕ
unfolding symbol
draws zero s = 0
draws (suc n) s = let rest = draws n s in if nat_beq (symbol n) s then suc rest else rest

-- Every symbol of the alphabet is drawn by exactly 8 of the 256 values of a random byte: a code is
-- uniform over the alphabet.
pub symbol-uniform : All (λ s. draws 256 s ≡ 8) code_alphabet
unfolding draws
symbol-uniform = ground arith
