-- ===== src/Base/Rows.antt =====
-- The rows of a table under SQL statements, for rows of any type.
use Prim.Native.Nat.{ℕ, zero, suc, ◌+◌, ◌≤◌}
use mathlib.Core.Path.{◌≡◌, refl, ap}
use mathlib.Core.Logic.{inl, inr}
use mathlib.Core.Bool.{Bool, true, false, not, ◌||◌}
use mathlib.Core.List.{List, [], ◌∷◌, ◌++◌}
use native.Mathlib.Omega.{arith}
use undelete.Base.Tests.{if◌then◌else◌, Bool-cases, leb, if-split}
use undelete.Base.Lists.{length, keep, All}

module _ {ℓ} {A : Type ℓ} where
  -- `UPDATE … SET f WHERE p`, `DELETE … WHERE p`, and the rows that they affect.
  abbrev pub set_where : (A → Bool) → (A → A) → List A → List A
  set_where p f [] = []
  set_where p f (r ∷ rs) = (if p r then f r else r) ∷ set_where p f rs

  abbrev pub remove_where : (A → Bool) → List A → List A
  remove_where p rs = keep (λ r. not (p r)) rs

  abbrev pub count_where : (A → Bool) → List A → ℕ
  count_where p rs = length (keep p rs)

  abbrev pub any_where : (A → Bool) → List A → Bool
  any_where p [] = false
  any_where p (r ∷ rs) = p r || any_where p rs

  -- `ORDER BY` a number, ascending.
  abbrev pub insert_by : (A → ℕ) → A → List A → List A
  insert_by key r [] = r ∷ []
  insert_by key r (s ∷ rs) =
      let rest = insert_by key r rs in if leb (key r) (key s) then r ∷ s ∷ rs else s ∷ rest

  abbrev pub order_by : (A → ℕ) → List A → List A
  order_by key [] = []
  order_by key (r ∷ rs) = insert_by key r (order_by key rs)

  -- `LIMIT`.
  abbrev pub limit_to : ℕ → List A → List A
  limit_to zero rs = []
  limit_to (suc n) [] = []
  limit_to (suc n) (r ∷ rs) = r ∷ limit_to n rs

  pub keep-keep :
      (p q : A → Bool) (rs : List A)
      → ((r : A) → p r ≡ true → q r ≡ true)
      → keep p (keep q rs) ≡ keep p rs
  keep-keep p q [] h = refl
  keep-keep p q (r ∷ rs) h = elim (Bool-cases (q r)) [
    | inl e ↦ elim (Bool-cases (p r)) [
      | inl f ↦ rw (e, f) (ap (λ x. r ∷ x) (keep-keep p q rs h))
      | inr f ↦ rw (e, f) (keep-keep p q rs h)
    ]
    | inr e ↦ elim (Bool-cases (p r)) [
      | inl f ↦ let g = h r f in cc
      | inr f ↦ rw (e, f) (keep-keep p q rs h)
    ]
  ]

  -- What the WHERE clause of an update or a deletion excludes is not affected.
  pub keep-set_where_other :
      (q p : A → Bool) (f : A → A) (rs : List A)
      → ((r : A) → p r ≡ true → q r ≡ false)
      → ((r : A) → p r ≡ true → q (f r) ≡ false)
      → keep q (set_where p f rs) ≡ keep q rs
  keep-set_where_other q p f [] h k = refl
  keep-set_where_other q p f (r ∷ rs) h k = elim (Bool-cases (p r)) [
    | inl e ↦ rw (e, h r e, k r e) (keep-set_where_other q p f rs h k)
    | inr e ↦ elim (Bool-cases (q r)) [
      | inl g ↦ rw (e, g) (ap (λ x. r ∷ x) (keep-set_where_other q p f rs h k))
      | inr g ↦ rw (e, g) (keep-set_where_other q p f rs h k)
    ]
  ]

  pub keep-remove_where_other :
      (q p : A → Bool) (rs : List A)
      → ((r : A) → p r ≡ true → q r ≡ false)
      → keep q (remove_where p rs) ≡ keep q rs
  keep-remove_where_other q p rs h = keep-keep q (λ r. not (p r)) rs (λ r e. ground (arith, h r))

  pub keep-remove_where : (p : A → Bool) (rs : List A) → keep p (remove_where p rs) ≡ []
  keep-remove_where p [] = refl
  keep-remove_where p (r ∷ rs) = ground (arith, keep-remove_where p rs)

  -- A property of every row under the statements.
  pub set_where-All {κ} :
      (P : A → Type κ) (p : A → Bool) (f : A → A) (rs : List A)
      → ((r : A) → P r → P (f r))
      → All P rs
      → All P (set_where p f rs)
  set_where-All P p f [] h a = tt
  set_where-All P p f (r ∷ rs) h a =
      (if-split P (p r) _ _ (λ e. h r a.0) (λ e. a.0), set_where-All P p f rs h a.1)

  pub keep-All {κ} : (P : A → Type κ) (p : A → Bool) (rs : List A) → All P rs → All P (keep p rs)
  keep-All P p [] a = tt
  keep-All P p (r ∷ rs) a =
      if-split (All P) (p r) _ _ (λ e. (a.0, keep-All P p rs a.1)) (λ e. keep-All P p rs a.1)

  pub append-All {κ} : (P : A → Type κ) (rs ss : List A) → All P rs → All P ss → All P (rs ++ ss)
  append-All P [] ss a b = b
  append-All P (r ∷ rs) ss a b = (a.0, append-All P rs ss a.1 b)

  pub set_where-none :
      (p : A → Bool) (f : A → A) (rs : List A) → count_where p rs ≡ 0 → set_where p f rs ≡ rs
  set_where-none p f [] e = refl
  set_where-none p f (r ∷ rs) e = elim (Bool-cases (p r)) [
    | inl b ↦ let full : suc (count_where p rs) ≡ 0 = rw b at e in absurd (omega (arith, full))
    | inr b ↦ rw b (ap (λ x. r ∷ x) (set_where-none p f rs (rw b at e)))
  ]

  -- Counting under the statements.
  pub count-set_where :
      (q p : A → Bool) (change : A → A) (rs : List A)
      → ((r : A) → q (change r) ≡ q r)
      → count_where q (set_where p change rs) ≡ count_where q rs
  count-set_where q p change [] h = refl
  count-set_where q p change (r ∷ rs) h = ground (arith, count-set_where q p change rs h, h r)

  pub count-append :
      (q : A → Bool) (rs : List A) (r : A)
      → count_where q (rs ++ r ∷ []) ≡ count_where q rs + (if q r then 1 else 0)
  count-append q [] r = ground arith
  count-append q (s ∷ rs) r = ground (arith, count-append q rs r)

  pub count-remove_where-le :
      (q p : A → Bool) (rs : List A) → count_where q (remove_where p rs) ≤ count_where q rs
  count-remove_where-le q p [] = omega arith
  count-remove_where-le q p (r ∷ rs) = ground (arith, count-remove_where-le q p rs)

  pub count-same :
      (q p : A → Bool) (rs : List A) → ((r : A) → q r ≡ p r) → count_where q rs ≡ count_where p rs
  count-same q p [] h = refl
  count-same q p (r ∷ rs) h = ground (arith, count-same q p rs h, h r)

  pub keep-holds : (p : A → Bool) (rs : List A) → All (λ (r : A). p r ≡ true) (keep p rs)
  keep-holds p [] = tt
  keep-holds p (r ∷ rs) =
      if-split (All (λ (s : A). p s ≡ true)) (p r) _ _ (λ e. (e, keep-holds p rs))
        (λ e. keep-holds p rs)

  pub All-implies {κ ι} :
      (P : A → Type κ) (Q : A → Type ι) (rs : List A) → ((r : A) → P r → Q r) → All P rs → All Q rs
  All-implies P Q [] h a = tt
  All-implies P Q (r ∷ rs) h a = (h r a.0, All-implies P Q rs h a.1)
