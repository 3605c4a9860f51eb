-- ===== src/Erasure/Rows.antt =====
-- The rows of one tenant's code under the statements of bot/internal/erasure/repository.go.
use undelete.Base.{
  ℕ, ◌≡◌, refl, sym, ap, ◌∙◌, subst, Bool, true, ◌&&◌, ◌||◌, List, [], ◌∷◌, ◌⊎◌, ltb, String, ◌==◌,
  string_comparable, keep, arith, Bool-cases, inl, inr,
}
use undelete.Base.Int.{ℤ, int_comparable}
use undelete.Erasure.Requests.{
  Status, pending, consumed, completed, Request, granted, resumable, claim, complete, delete_others,
  map_where, is_pending, is_consumed, is_code, is_spendable, spent, classify_rows, scrubbed,
}
use undelete.Erasure.Confirm.{Outcome, erased, already_erased, was_expired, was_unknown, Store}

-- A filter that implies another one sees only what the other keeps.
pub keep-keep :
    (p q : Request → Bool) (rs : List Request)
    → ((r : Request) → p r ≡ true → q r ≡ true)
    → keep p (keep q rs) ≡ keep p rs
keep-keep p q [] h = refl
keep-keep p q (r ∷ rs) h = elim (Bool-cases (q r)) [
  | inl e ↦ elim (Bool-cases (p r)) [
    | inl f ↦ rw (e, f) (ap (λ x. r ∷ x) (keep-keep p q rs h))
    | inr f ↦ rw (e, f) (keep-keep p q rs h)
  ]
  | inr e ↦ elim (Bool-cases (p r)) [
    | inl f ↦ let g = h r f in cc
    | inr f ↦ rw (e, f) (keep-keep p q rs h)
  ]
]

-- An update that leaves a filter's columns alone commutes with it.
keep-map_where :
    (q p : Request → Bool) (f : Request → Request) (rs : List Request)
    → ((r : Request) → q (f r) ≡ q r)
    → keep q (map_where p f rs) ≡ map_where p f (keep q rs)
keep-map_where q p f [] h = refl
keep-map_where q p f (r ∷ rs) h = elim (Bool-cases (p r)) [
  | inl e ↦ elim (Bool-cases (q r)) [
    | inl g ↦ rw (e, h r, g, e) (ap (λ x. f r ∷ x) (keep-map_where q p f rs h))
    | inr g ↦ rw (e, h r, g) (keep-map_where q p f rs h)
  ]
  | inr e ↦ elim (Bool-cases (q r)) [
    | inl g ↦ rw (e, g, e) (ap (λ x. r ∷ x) (keep-map_where q p f rs h))
    | inr g ↦ rw (e, g) (keep-map_where q p f rs h)
  ]
]

-- The rows of one tenant's code, and the tenant's rows.
abbrev pub codes {ℓ} : {S : Type ℓ} → ℤ → String → Store S → List Request
codes owner hash t = keep (is_code owner hash) t.requests

abbrev pub requests_of {ℓ} : {S : Type ℓ} → ℤ → Store S → List Request
requests_of owner t = keep (λ r. r.owner == owner) t.requests

-- The code of the row can start an erasure: it is live, or its erasure was interrupted.
abbrev pub can_start : ℕ → Request → Bool
can_start now r = (is_pending r.status && ltb now r.expires_at) || is_consumed r.status

pub keep-none :
    (p q : Request → Bool) (rs : List Request)
    → ((r : Request) → p r ≡ true → q r ≡ true)
    → keep q rs ≡ []
    → keep p rs ≡ []
keep-none p q [] h e = refl
keep-none p q (r ∷ rs) h e = elim (Bool-cases (q r)) [
  | inl b ↦ let full : r ∷ keep q rs ≡ [] = rw b at e in cc
  | inr b ↦ elim (Bool-cases (p r)) [
    | inl c ↦ let d = h r c in cc
    | inr c ↦ rw c (keep-none p q rs h (rw b at e))
  ]
]

pub keep-head :
    (p : Request → Bool) (rs xs : List Request) (r : Request) → keep p rs ≡ r ∷ xs → p r ≡ true
keep-head p [] xs r e = cc
keep-head p (x ∷ rs) xs r e = elim (Bool-cases (p x)) [
  | inl f ↦
      let found : x ∷ keep p rs ≡ r ∷ xs = rw f at e in
      let same : x ≡ r = cc in subst (λ y. p y ≡ true) same f
  | inr f ↦ keep-head p rs xs r (rw f at e)
]

-- What the status of a row that cannot start an erasure is answered with.
abbrev pub refusal_of : Status → Outcome
refusal_of pending = was_expired
refusal_of completed = already_erased
refusal_of consumed = erased

abbrev pub refusal : List Request → Outcome
refusal [] = was_unknown
refusal (r ∷ rs) = refusal_of r.status

module _ (owner : ℤ) (hash : String) (now : ℕ) (rs : List Request) where
  spendable-codes :
      keep (is_spendable owner hash now) rs
      ≡ keep (is_spendable owner hash now) (keep (is_code owner hash) rs)
  spendable-codes = sym (keep-keep _ _ rs (λ r h. ground arith))

  -- A claim that finds nothing to spend.
  pub claim-classifies :
      keep (is_spendable owner hash now) (keep (is_code owner hash) rs) ≡ []
      → claim owner hash now rs ≡ (rs, classify_rows (keep (is_code owner hash) rs))
  unfolding claim
  claim-classifies e = rw (spendable-codes ∙ e, claim) refl

  -- A claim of the only row of a code that can start an erasure.
  pub claim-starts :
      (r : Request)
      → keep (is_code owner hash) rs ≡ r ∷ []
      → can_start now r ≡ true
      → (((claim owner hash now rs).1 ≡ granted) ⊎ ((claim owner hash now rs).1 ≡ resumable))
        × (keep (is_code owner hash) (claim owner hash now rs).0 ≡ spent r ∷ [])
  unfolding claim
  claim-starts r only h = elim (Bool-cases (is_spendable owner hash now r)) [
    | inl e ↦
        let hits : keep (is_spendable owner hash now) rs ≡ r ∷ [] =
          spendable-codes ∙ rw (only, e) refl in
        rw (hits, claim)
          (inl refl, keep-map_where (is_code owner hash) _ spent rs (λ x. refl) ∙ rw (only, e) refl)
    | inr e ↦
        let mine = keep-head (is_code owner hash) rs [] r only in
        let done : r.status ≡ consumed = ground arith in
        let none_left = claim-classifies (rw (only, e) refl) in
        rw (none_left)
          (inr (rw (only, done) refl), only ∙ ap (λ st. record r { status = st } ∷ []) done)
  ]

-- The other requests deleted, a tenant keeps the rows of the code.
pub delete_others-kept :
    (owner : ℤ) (hash : String) (rs : List Request)
    → keep (λ r. r.owner == owner) (delete_others owner hash rs).0 ≡ keep (is_code owner hash) rs
unfolding delete_others
delete_others-kept owner hash [] = refl
delete_others-kept owner hash (r ∷ rs) = ground (arith, delete_others-kept owner hash rs)

pub complete-codes :
    (owner : ℤ) (hash : String) (rs : List Request) (r : Request)
    → keep (λ x. x.owner == owner) rs ≡ spent r ∷ []
    → is_code owner hash r ≡ true
    → keep (λ x. x.owner == owner) (complete owner hash rs) ≡ scrubbed r ∷ []
unfolding complete
complete-codes owner hash rs r e h =
    keep-map_where (λ x. x.owner == owner) _ scrubbed rs (λ x. refl) ∙ rw (e, h) refl
