-- ===== src/Base/Dict.antt =====
-- A Go map as an association list: one entry for each key when it is built by `insert`.
use Prim.Native.Nat.{suc, ◌≤◌}
use mathlib.Core.Path.{◌≡◌, refl, subst}
use mathlib.Core.Bool.{true}
use mathlib.Core.Option.{Option, none, some}
use mathlib.Core.List.{List, [], ◌∷◌}
use native.Mathlib.Omega.{arith}
use undelete.Base.Tests.{
  if◌then◌else◌, Comparable, ◌==◌, ==-refl, is_some, Bool-cases, Option-cases,
}
use mathlib.Core.Logic.{inl, inr, ◌≢◌}
use undelete.Base.Lists.{length, All}

module _ {ℓ κ} {K : Type ℓ} {V : Type κ} ⦃e : Comparable K⦄ where
  unfoldable pub lookup : K → List (K × V) → Option V
  lookup key [] = none
  lookup key ((other, val) ∷ dict) =
      let rest = lookup key dict in if other == key then some val else rest

  -- `dict[key] = val`: in place, or a new entry.
  unfoldable pub insert : K → V → List (K × V) → List (K × V)
  insert key val [] = (key, val) ∷ []
  insert key val ((other, old) ∷ dict) =
      let rest = insert key val dict in
      if other == key then (key, val) ∷ dict else (other, old) ∷ rest

  -- `delete(dict, key)`.
  unfoldable pub delete : K → List (K × V) → List (K × V)
  delete key [] = []
  delete key ((other, old) ∷ dict) =
      let rest = delete key dict in if other == key then rest else (other, old) ∷ rest

  pub lookup-insert :
      (key other : K) (val : V) (dict : List (K × V))
      → lookup other (insert key val dict) ≡ (if key == other then some val else lookup other dict)
  unfolding lookup insert
  lookup-insert key other val [] = refl
  lookup-insert key other val ((here, old) ∷ dict) = ground (
    arith,
    e.equals_iff key other,
    e.equals_iff here key,
    e.equals_iff here other,
    lookup-insert key other val dict,
  )

  pub lookup-insert_self :
      (key : K) (val : V) (dict : List (K × V)) → lookup key (insert key val dict) ≡ some val
  lookup-insert_self key val dict = rw (lookup-insert key key val dict, ==-refl key)

  pub lookup-insert_other :
      (key other : K) (val : V) (dict : List (K × V))
      → key ≢ other
      → lookup other (insert key val dict) ≡ lookup other dict
  lookup-insert_other key other val dict apart =
      ground (arith, e.equals_iff key other, lookup-insert key other val dict)

  pub lookup-delete :
      (key other : K) (dict : List (K × V))
      → lookup other (delete key dict) ≡ (if key == other then none else lookup other dict)
  unfolding lookup delete
  lookup-delete key other [] = ground arith
  lookup-delete key other ((here, old) ∷ dict) = ground (
    arith,
    e.equals_iff key other,
    e.equals_iff here key,
    e.equals_iff here other,
    lookup-delete key other dict,
  )

  pub lookup-delete_other :
      (key other : K) (dict : List (K × V))
      → key ≢ other
      → lookup other (delete key dict) ≡ lookup other dict
  lookup-delete_other key other dict apart =
      ground (arith, e.equals_iff key other, lookup-delete key other dict)

  pub length-delete-le : (key : K) (dict : List (K × V)) → length (delete key dict) ≤ length dict
  unfolding delete
  length-delete-le key [] = omega arith
  length-delete-le key ((here, old) ∷ dict) = ground (arith, length-delete-le key dict)

  -- A key that is present leaves the size as it is, a new one adds one entry.
  pub length-insert :
      (key : K) (val : V) (dict : List (K × V))
      → length (insert key val dict)
        ≡ elim (lookup key dict) [ none ↦ suc (length dict) | some _ ↦ length dict ]
  unfolding lookup insert
  length-insert key val [] = refl
  length-insert key val ((here, old) ∷ dict) = ground (arith, length-insert key val dict)

  -- Deleting a key that is present shrinks the map.
  pub length-delete-lt :
      (key : K) (val : V) (dict : List (K × V))
      → lookup key dict ≡ some val
      → suc (length (delete key dict)) ≤ length dict
  unfolding lookup delete
  length-delete-lt key val [] h = ground arith
  length-delete-lt key val ((here, old) ∷ dict) h =
      ground (arith, length-delete-le key dict, length-delete-lt key val dict)

  -- A property of every entry survives the updates, and holds of what a lookup finds.
  pub insert-All {μ} :
      (P : K × V → Type μ) (key : K) (val : V) (dict : List (K × V))
      → P (key, val)
      → All P dict
      → All P (insert key val dict)
  unfolding insert
  insert-All P key val [] p h = (p, tt)
  insert-All P key val ((other, old) ∷ dict) p h = elim (Bool-cases (other == key)) [
    | inl e ↦ rw e (p, h.1)
    | inr e ↦ rw e (h.0, insert-All P key val dict p h.1)
  ]

  pub delete-All {μ} :
      (P : K × V → Type μ) (key : K) (dict : List (K × V)) → All P dict → All P (delete key dict)
  unfolding delete
  delete-All P key [] h = tt
  delete-All P key ((other, old) ∷ dict) h = elim (Bool-cases (other == key)) [
    | inl e ↦ rw e (delete-All P key dict h.1)
    | inr e ↦ rw e (h.0, delete-All P key dict h.1)
  ]

  pub lookup-All {μ} :
      (P : V → Type μ) (key : K) (val : V) (dict : List (K × V))
      → All (λ e. P e.1) dict
      → lookup key dict ≡ some val
      → P val
  unfolding lookup
  lookup-All P key val [] h e = cc
  lookup-All P key val ((other, old) ∷ dict) h e = elim (Bool-cases (other == key)) [
    | inl b ↦ let found : some old ≡ some val = rw b at e in subst P (cc) h.0
    | inr b ↦ lookup-All P key val dict h.1 (rw b at e)
  ]

  lookup-cons :
      (x : K × V) (key : K) (dict : List (K × V))
      → is_some (lookup key dict) ≡ true
      → is_some (lookup key (x ∷ dict)) ≡ true
  unfolding lookup
  lookup-cons (other, old) key dict h = ground arith

  -- Every key that the list shows can be looked up.
  pub All-present :
      (xs dict : List (K × V))
      → ((key : K) → is_some (lookup key xs) ≡ true → is_some (lookup key dict) ≡ true)
      → All (λ e. is_some (lookup e.0 dict) ≡ true) xs
  unfolding lookup
  All-present [] dict sub = tt
  All-present ((other, old) ∷ xs) dict sub = (
    sub other (rw (==-refl other)),
    All-present xs dict λ key h. sub key (lookup-cons (other, old) key xs h),
  )

  pub length-delete-present :
      (key : K) (dict : List (K × V))
      → is_some (lookup key dict) ≡ true
      → suc (length (delete key dict)) ≤ length dict
  length-delete-present key dict h = elim (Option-cases (lookup key dict)) [
    | inl e ↦ let f = rw e at h in cc
    | inr (val, e) ↦ length-delete-lt key val dict e
  ]
