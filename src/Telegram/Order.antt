-- ===== src/Telegram/Order.antt =====
-- The order in which the updates of a batch reach their partition.
use mathlib.Core.List.{append-nil, append_assoc}
use undelete.Base.{
  ℕ, ◌≡◌, ◌≢◌, refl, sym, ap, ◌∙◌, Bool, true, false, List, [], ◌∷◌, ◌++◌, nat_beq, nat_beq_iff,
  keep, arith, Bool-cases, inl, inr, if-split,
}
use undelete.Telegram.Dispatch.{
  Attempt, full, cancelled, Pass, is_marked, first_pass, second_pass, dispatch,
}

keep-append : (p : ℕ → Bool) (xs ys : List ℕ) → keep p (xs ++ ys) ≡ keep p xs ++ keep p ys
keep-append p [] ys = refl
keep-append p (x ∷ xs) ys = ground (arith, keep-append p xs ys)

-- The positions of one worker.
abbrev pub of_shard : (ℕ → ℕ) → ℕ → List ℕ → List ℕ
of_shard shard s is = keep (λ i. nat_beq (shard i) s) is

module _ (shard : ℕ → ℕ) (first : ℕ → Attempt) where
  -- Nothing is sent to a worker that is marked.
  first_pass-marked :
      (s : ℕ) (marked is : List ℕ)
      → is_marked s marked ≡ true
      → of_shard shard s (first_pass shard first marked is).sent ≡ []
  unfolding first_pass
  first_pass-marked s marked [] h = refl
  first_pass-marked s marked (i ∷ is) h = ground (
    arith,
    nat_beq_iff (shard i) s,
    first_pass-marked s marked is h,
    first_pass-marked s (shard i ∷ marked) is (ground arith),
  )

  first_pass-order :
      (s : ℕ) (marked is : List ℕ)
      → let p = first_pass shard first marked is in
        of_shard shard s p.sent ++ (of_shard shard s p.deferred ++ of_shard shard s p.refused)
        ≡ of_shard shard s is
  unfolding first_pass
  first_pass-order s marked [] = refl
  first_pass-order s marked (i ∷ is) = elim (Bool-cases (nat_beq (shard i) s)) [
    | inl same ↦ ground (
      arith,
      nat_beq_iff (shard i) s,
      first_pass-order s marked is,
      first_pass-order s (shard i ∷ marked) is,
      first_pass-marked s marked is,
      first_pass-marked s (shard i ∷ marked) is (ground arith),
    )
    | inr other ↦
        ground (arith, first_pass-order s marked is, first_pass-order s (shard i ∷ marked) is)
  ]

  first_pass-refused :
      (marked is : List ℕ)
      → (first_pass shard first marked is).aborted ≡ false
      → (first_pass shard first marked is).refused ≡ []
  unfolding first_pass
  first_pass-refused marked [] h = refl
  first_pass-refused marked (i ∷ is) h =
      ground (arith, first_pass-refused marked is, first_pass-refused (shard i ∷ marked) is)

second_pass-order :
    (second : ℕ → Attempt) (is : List ℕ)
    → (second_pass second is).sent ++ (second_pass second is).refused ≡ is
unfolding second_pass
second_pass-order second [] = refl
second_pass-order second (i ∷ is) = ground (arith, second_pass-order second is)

-- `Dispatch` keeps the order of the batch on every worker, whichever queues are full and whenever the
-- context is cancelled: the updates of one worker are, in the order of the batch, those that it was
-- sent, then those that a cancelled first pass leaves deferred, then those that report that they
-- were not submitted.
pub dispatch-order :
    (shard : ℕ → ℕ) (first second : ℕ → Attempt) (s : ℕ) (is : List ℕ)
    → let p = dispatch shard first second is in
      of_shard shard s p.sent ++ (of_shard shard s p.deferred ++ of_shard shard s p.refused)
      ≡ of_shard shard s is
unfolding dispatch
dispatch-order shard first second s is =
    let p = first_pass shard first [] is in
    let q = second_pass second p.deferred in
    let mine = of_shard shard s in
    if-split (λ (r : Pass). mine r.sent ++ (mine r.deferred ++ mine r.refused) ≡ mine is) p.aborted
      _ _ (λ e. first_pass-order shard first s [] is)
      λ e.
        let none_refused = first_pass-refused shard first [] is e in
        let sends = keep-append (λ i. nat_beq (shard i) s) p.sent q.sent in
        let parked = keep-append (λ i. nat_beq (shard i) s) q.sent q.refused in
        let order = first_pass-order shard first s [] is in
        let later =
          sym parked
          ∙ ap mine (second_pass-order second p.deferred)
          ∙ sym (append-nil (mine p.deferred))
          ∙ ap (λ r. mine p.deferred ++ mine r) (sym none_refused) in
        ap (λ x. x ++ mine q.refused) sends
        ∙ append_assoc (mine p.sent) (mine q.sent) (mine q.refused)
        ∙ ap (λ x. mine p.sent ++ x) later
        ∙ order

-- When the first pass finds the context cancelled, an update that it had deferred is neither sent nor
-- reported as not submitted: its error stays nil, as after a success.
pub dispatch-loses_deferred :
    (shard : ℕ → ℕ) (first second : ℕ → Attempt) (i j : ℕ) (is : List ℕ)
    → shard i ≢ shard j
    → first i ≡ full
    → first j ≡ cancelled
    → let p = dispatch shard first second (i ∷ j ∷ is) in
      (p.sent ≡ []) × (p.deferred ≡ i ∷ []) × (p.refused ≡ j ∷ is)
unfolding dispatch first_pass
dispatch-loses_deferred shard first second i j is apart e f =
    ground (arith, nat_beq_iff (shard i) (shard j))
