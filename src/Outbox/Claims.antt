-- ===== src/Outbox/Claims.antt =====
-- Which job a claim reserves, and what its lease protects.
use undelete.Base.{
  ℕ, zero, suc, ◌+◌, ◌≤◌, ◌<◌, ◌≡◌, refl, sym, subst, Bool, true, false, ◌&&◌, Option, none, some,
  List, [], ◌∷◌, arith, ◌⊎◌, inl, inr, Bool-cases, Option-cases, String, All, nat_beq, is_some,
  if-both, if-split,
}
use undelete.Base.Int.{ℤ}
use undelete.Outbox.Row.{
  Status, pending, processing, sent, failed, MediaPayload, Job, Row, Table, update_where,
  exists_row,
}
use undelete.Outbox.Store.{
  visible, is_unlocked, is_candidate, is_prior, is_open, is_unsent, is_before, earlier,
  first_candidate, claimed_row, claim, job_of,
}

earlier-passes :
    (p : Row → Bool) (r : Row) (rest : Option Row)
    → p r ≡ true
    → ((b : Row) → rest ≡ some b → p b ≡ true)
    → p (earlier r rest) ≡ true
earlier-passes p r none h k = h
earlier-passes p r (some b) h k = if-both (λ x. p x ≡ true) (is_before b r) b r (k b refl) h

-- The first candidate passes the test.
pub first_candidate-passes :
    (p : Row → Bool) (rs : List Row) (c : Row) → first_candidate p rs ≡ some c → p c ≡ true
unfolding first_candidate
first_candidate-passes p [] c e = cc
first_candidate-passes p (r ∷ rs) c e = elim (Bool-cases (p r)) [
  | inl t ↦
      let found : some (earlier r (first_candidate p rs)) ≡ some c = rw t at e in
      subst (λ x. p x ≡ true) (cc)
        (earlier-passes p r (first_candidate p rs) t (first_candidate-passes p rs))
  | inr f ↦ first_candidate-passes p rs c (rw f at e)
]

first_candidate-found :
    (p : Row → Bool) (rs : List Row)
    → exists_row p rs ≡ true
    → is_some (first_candidate p rs) ≡ true
unfolding first_candidate exists_row
first_candidate-found p [] h = cc
first_candidate-found p (r ∷ rs) h = ground (arith, first_candidate-found p rs)

abbrev pub Occurs : Row → List Row → Type 0
Occurs c [] = ⊥
Occurs c (r ∷ rs) = (r ≡ c) ⊎ Occurs c rs

exists_row-Occurs :
    (p : Row → Bool) (rs : List Row)
    → exists_row p rs ≡ true
    → (c : Row) × (p c ≡ true) × Occurs c rs
unfolding exists_row
exists_row-Occurs p [] h = absurd (cc)
exists_row-Occurs p (r ∷ rs) h = elim (Bool-cases (p r)) [
  | inl t ↦ (r, t, inl refl)
  | inr f ↦ let (c, pc, o) = exists_row-Occurs p rs (rw f at h) in (c, pc, inr o)
]

Occurs-exists_row :
    (p : Row → Bool) (rs : List Row) (c : Row) → Occurs c rs → p c ≡ true → exists_row p rs ≡ true
unfolding exists_row
Occurs-exists_row p [] c o h = absurd o
Occurs-exists_row p (r ∷ rs) c (inl e) h =
    let t : p r ≡ true = subst (λ x. p x ≡ true) (sym e) h in ground arith
Occurs-exists_row p (r ∷ rs) c (inr o) h = ground (arith, Occurs-exists_row p rs c o h)

pub All-Occurs : (P : Row → Type 0) (rs : List Row) (c : Row) → All P rs → Occurs c rs → P c
All-Occurs P [] c a o = absurd o
All-Occurs P (r ∷ rs) c a (inl e) = subst P e a.0
All-Occurs P (r ∷ rs) c a (inr o) = All-Occurs P rs c a.1 o

-- Its deadline and its lease have passed.
abbrev pub IsOverdue : ℕ → Row → Type 0
IsOverdue now r = (r.next_attempt_at ≤ now) × (is_unlocked r.locked_until now ≡ true)

open_unsent : (s : Status) → is_open s ≡ true → is_unsent s ≡ true
open_unsent pending h = refl
open_unsent processing h = refl
open_unsent sent h = h
open_unsent failed h = refl

-- From an unsent row, the smallest open chunk of its message is a candidate.
candidate-exists :
    (owner : ℤ) (now : ℕ) (all : List Row)
    → All (IsOverdue now) all
    → (fuel : ℕ) (r : Row) → r.chunk < fuel
    → Occurs r all
    → visible owner r ≡ true
    → is_unsent r.status ≡ true
    → exists_row (is_candidate owner now (λ _. false) all) all ≡ true
candidate-exists owner now all due zero r h o v u = absurd (omega arith)
candidate-exists owner now all due (suc fuel) r h o v u =
    elim (Bool-cases (exists_row (is_prior owner r) all)) [
      | inl blocked ↦
          let (prior, test, o') = exists_row-Occurs (is_prior owner r) all blocked in
          candidate-exists owner now all due fuel prior (ground arith) o' (ground arith)
            (open_unsent prior.status (ground arith))
      | inr free ↦
          let overdue = All-Occurs (IsOverdue now) all r due o in
          Occurs-exists_row (is_candidate owner now (λ _. false) all) all r o (ground arith)
    ]

-- No candidate is due before `c`.
abbrev pub IsFirst : (Row → Bool) → Row → List Row → Type 0
IsFirst p c rs = All (λ (x : Row). (p x ≡ false) ⊎ (c.next_attempt_at ≤ x.next_attempt_at)) rs

-- What the choice says of the rows: there is no candidate, or the chosen one is first.
abbrev FirstOf : (Row → Bool) → Option Row → List Row → Type 0
FirstOf p none rs = All (λ (x : Row). p x ≡ false) rs
FirstOf p (some c) rs = IsFirst p c rs

absent-IsFirst : (p : Row → Bool) (c : Row) (rs : List Row) → FirstOf p none rs → IsFirst p c rs
absent-IsFirst p c [] h = tt
absent-IsFirst p c (r ∷ rs) h = (inl h.0, absent-IsFirst p c rs h.1)

sooner-IsFirst :
    (p : Row → Bool) (b c : Row) (rs : List Row)
    → c.next_attempt_at ≤ b.next_attempt_at
    → IsFirst p b rs
    → IsFirst p c rs
sooner-IsFirst p b c [] le h = tt
sooner-IsFirst p b c (r ∷ rs) le h = (
  elim h.0 [ inl f ↦ inl f | inr l ↦ inr (omega (arith, l, le)) ],
  sooner-IsFirst p b c rs le h.1,
)

earlier-FirstOf :
    (p : Row → Bool) (r : Row) (o : Option Row) (rs : List Row)
    → FirstOf p o rs
    → IsFirst p (earlier r o) (r ∷ rs)
earlier-FirstOf p r none rs h = (inr (omega arith), absent-IsFirst p r rs h)
earlier-FirstOf p r (some b) rs h =
    if-split (λ (c : Row). IsFirst p c (r ∷ rs)) (is_before b r) b r (λ e. (inr (ground arith), h))
      (λ e.
        let le : r.next_attempt_at ≤ b.next_attempt_at = ground arith in
        (inr (omega arith), sooner-IsFirst p b r rs le h))

skipped-FirstOf :
    (p : Row → Bool) (r : Row) (o : Option Row) (rs : List Row)
    → p r ≡ false
    → FirstOf p o rs
    → FirstOf p o (r ∷ rs)
skipped-FirstOf p r none rs f h = (f, h)
skipped-FirstOf p r (some c) rs f h = (inl f, h)

first_candidate-FirstOf : (p : Row → Bool) (rs : List Row) → FirstOf p (first_candidate p rs) rs
unfolding first_candidate
first_candidate-FirstOf p [] = tt
first_candidate-FirstOf p (r ∷ rs) =
    if-split (λ (o : Option Row). FirstOf p o (r ∷ rs)) (p r) _ _
      (λ t. earlier-FirstOf p r (first_candidate p rs) rs (first_candidate-FirstOf p rs))
      (λ f. skipped-FirstOf p r (first_candidate p rs) rs f (first_candidate-FirstOf p rs))

earlier-Occurs :
    (r : Row) (rs : List Row) (o : Option Row)
    → ((b : Row) → o ≡ some b → Occurs b rs)
    → Occurs (earlier r o) (r ∷ rs)
earlier-Occurs r rs none h = inl refl
earlier-Occurs r rs (some b) h =
    if-both (λ x. Occurs x (r ∷ rs)) (is_before b r) b r (inr (h b refl)) (inl refl)

first_candidate-Occurs :
    (p : Row → Bool) (rs : List Row) (c : Row) → first_candidate p rs ≡ some c → Occurs c rs
unfolding first_candidate
first_candidate-Occurs p [] c e = absurd (cc)
first_candidate-Occurs p (r ∷ rs) c e = elim (Bool-cases (p r)) [
  | inl t ↦
      let found : some (earlier r (first_candidate p rs)) ≡ some c = rw t at e in
      subst (λ x. Occurs x (r ∷ rs)) (cc)
        (earlier-Occurs r rs (first_candidate p rs) (first_candidate-Occurs p rs))
  | inr f ↦ inr (first_candidate-Occurs p rs c (rw f at e))
]

-- The claim gives the job of a candidate that no other candidate is due before.
abbrev pub GivesFirst : ℤ → ℕ → List Row → Option Job → Type 0
GivesFirst owner now rs none = ⊥
GivesFirst owner now rs (some job) =
    (c : Row) × Occurs c rs
    × (job.id ≡ c.id)
    × (is_candidate owner now (λ _. false) rs c ≡ true)
    × IsFirst (is_candidate owner now (λ _. false) rs) c rs

-- A tenant with an alert that has not been sent, all deadlines and leases of the table past and no
-- row locked by another transaction, is given a job by the next claim; its row is one of
-- the table and a candidate, and no other candidate has an earlier deadline.
pub claim-live :
    (unmarshal : String → Option MediaPayload) (owner : ℤ) (now lease : ℕ) (token : String)
    (t : Table) (r : Row)
    → Occurs r t.rows
    → visible owner r ≡ true
    → is_unsent r.status ≡ true
    → All (IsOverdue now) t.rows
    → GivesFirst owner now t.rows (claim unmarshal owner now lease token (λ _. false) t).1
unfolding claim job_of
claim-live unmarshal owner now lease token t r o v u due =
    let found =
      first_candidate-found _ t.rows
        (candidate-exists owner now t.rows due (suc r.chunk) r (omega arith) o v u) in
    let p = is_candidate owner now (λ _. false) t.rows in
    elim (Option-cases (first_candidate p t.rows)) [
      | inl e ↦ absurd (ground (arith, e, found))
      | inr (c, e) ↦
          let first = first_candidate-FirstOf p t.rows in
          rw (e, claim)
            (
              c,
              first_candidate-Occurs p t.rows c e,
              refl,
              first_candidate-passes p t.rows c e,
              rw e at first,
            )
    ]

-- The rows of one id that a claim has leased.
abbrev pub Leased : ℤ → ℕ → ℕ → String → Row → Type 0
Leased owner id until token r =
    (visible owner r && nat_beq r.id id ≡ false)
    ⊎ ((r.status ≡ processing) × (r.locked_until ≡ some until) × (r.lease_token ≡ some token))

pub update_where-Leased :
    (owner : ℤ) (id now lease : ℕ) (token : String) (rs : List Row)
    → All
        (Leased owner id (now + lease) token)
        (update_where (λ r. visible owner r && nat_beq r.id id) (claimed_row now lease token) rs)
unfolding update_where
update_where-Leased owner id now lease token [] = tt
update_where-Leased owner id now lease token (r ∷ rs) = (
  if-split (Leased owner id (now + lease) token) (visible owner r && nat_beq r.id id) _ _
      (λ t. inr (refl, refl, refl)) (λ f. inl f),
  update_where-Leased owner id now lease token rs,
)
