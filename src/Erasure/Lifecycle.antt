-- ===== src/Erasure/Lifecycle.antt =====
-- The life of a confirmation code: spent once, resumed after a failure, replayed without effect.
use undelete.Base.{
  ℕ, ◌≡◌, refl, sym, ap, ◌∙◌, true, false, Option, none, some, List, [], ◌∷◌, ◌⊎◌, String, ◌==◌,
  string_comparable, keep, arith, Bool-cases, inl, inr,
}
use undelete.Base.Int.{ℤ, int_comparable}
use undelete.Erasure.Requests.{
  Status, pending, consumed, completed, Request, ClaimState, unknown, expired, granted, resumable,
  finished, claim, complete, delete_others, is_consumed, is_code, is_spendable, spent, classify,
  classify_rows, scrubbed,
}
use undelete.Erasure.Confirm.{
  erased, already_erased, Failure, World, Store, answer, fails, run_steps, erase_requests, erase,
  finish, decide, confirm_hash,
}
use undelete.Erasure.Rows.{
  keep-keep, keep-none, keep-head, claim-classifies, claim-starts, delete_others-kept,
  complete-codes, codes, requests_of, can_start, refusal_of, refusal,
}

module _ {ℓ} {S : Type ℓ} (owner : ℤ) (hash : String) where
  decide-starts :
      (w : World S) (s : S) (c : List Request × ClaimState)
      → (c.1 ≡ granted) ⊎ (c.1 ≡ resumable)
      → decide w owner hash s c
        ≡ finish w owner hash (erase w owner hash (record { requests = c.0; data_of = s }))
  unfolding decide
  decide-starts w s (rs, granted) h = refl
  decide-starts w s (rs, resumable) h = refl
  decide-starts w s (rs, unknown) (inl e) = cc
  decide-starts w s (rs, unknown) (inr e) = cc
  decide-starts w s (rs, expired) (inl e) = cc
  decide-starts w s (rs, expired) (inr e) = cc
  decide-starts w s (rs, finished) (inl e) = cc
  decide-starts w s (rs, finished) (inr e) = cc

  confirm_hash-decides :
      (w : World S) (t : Store S)
      → w.guard_fails ≡ false
      → w.claim_fails ≡ false
      → confirm_hash w owner hash t
        ≡ decide w owner hash t.data_of (claim owner hash w.now t.requests)
  unfolding confirm_hash
  confirm_hash-decides w t g c = rw (g, c) refl

  refuses-by_status :
      (w : World S) (s : S) (rs : List Request) (st : Status)
      → is_consumed st ≡ false
      → decide w owner hash s (rs, classify st)
        ≡ (record { requests = rs; data_of = s }, answer (refusal_of st))
  unfolding decide
  refuses-by_status w s rs pending h = refl
  refuses-by_status w s rs completed h = refl
  refuses-by_status w s rs consumed h = cc

  refuses-by_rows :
      (w : World S) (s : S) (rs xs : List Request)
      → keep (can_start w.now) xs ≡ []
      → decide w owner hash s (rs, classify_rows xs)
        ≡ (record { requests = rs; data_of = s }, answer (refusal xs))
  unfolding decide
  refuses-by_rows w s rs [] e = refl
  refuses-by_rows w s rs (r ∷ xs) e = elim (Bool-cases (is_consumed r.status)) [
    | inl b ↦
        let starts : can_start w.now r ≡ true = ground arith in
        let full : r ∷ keep (can_start w.now) xs ≡ [] = rw starts at e in cc
    | inr b ↦ refuses-by_status w s rs r.status b
  ]

  -- When none of the rows of a submitted code can start an erasure, nothing is deleted and no row
  -- changes; an unknown code, an expired and a spent one are told apart by the answer.
  pub confirm_hash-refuses :
      (w : World S) (t : Store S)
      → w.guard_fails ≡ false
      → w.claim_fails ≡ false
      → keep (can_start w.now) (codes owner hash t) ≡ []
      → confirm_hash w owner hash t ≡ (t, answer (refusal (codes owner hash t)))
  confirm_hash-refuses w t g c e =
      let nothing =
        keep-none (is_spendable owner hash w.now) (can_start w.now) (codes owner hash t)
          (λ r h. ground arith) e in
      confirm_hash-decides w t g c
      ∙ ap (decide w owner hash t.data_of) (claim-classifies owner hash w.now t.requests nothing)
      ∙ refuses-by_rows w t.data_of t.requests (codes owner hash t) e

  -- What a started confirmation is, as a run of the deletions.
  confirm_hash-starts :
      (w : World S) (t : Store S) (r : Request)
      → w.guard_fails ≡ false
      → w.claim_fails ≡ false
      → codes owner hash t ≡ r ∷ []
      → can_start w.now r ≡ true
      → confirm_hash w owner hash t
        ≡ finish w owner hash (
            erase w owner hash
              (record { requests = (claim owner hash w.now t.requests).0; data_of = t.data_of }))
  confirm_hash-starts w t r g c only h =
      confirm_hash-decides w t g c
      ∙ decide-starts w t.data_of _ (claim-starts owner hash w.now t.requests r only h).0

  run-ends :
      (w : World S) (rs : List Request) (x : S × Option Failure)
      → w.requests_fail ≡ false
      → w.complete_fails ≡ false
      → x.1 ≡ none
      → finish w owner hash (erase_requests w owner hash rs x) ≡ (
        record { requests = complete owner hash (delete_others owner hash rs).0; data_of = x.0 },
        answer erased,
      )
  run-ends w rs (s, none) q d e = rw (q, d) refl
  run-ends w rs (s, some f) q d e = cc

  run-breaks :
      (w : World S) (rs : List Request) (x : S × Option Failure) (f : Failure)
      → x.1 ≡ some f
      → finish w owner hash (erase_requests w owner hash rs x)
        ≡ (record { requests = rs; data_of = x.0 }, fails erased f)
  run-breaks w rs (s, none) f e = cc
  run-breaks w rs (s, some g) f e = let same : g ≡ f = cc in rw same refl

  -- The four deletions, each on what the one before it left.
  run_steps-all :
      (w : World S) (s a b c d : S)
      → w.steps.disable_owner owner s ≡ (a, false)
      → w.steps.delete_alerts owner a ≡ (b, false)
      → w.steps.erase_media owner b ≡ (c, false)
      → w.steps.delete_messages owner c ≡ (d, false)
      → run_steps w.steps owner s ≡ (d, none)
  unfolding run_steps
  run_steps-all w s a b c d e f g h = rw (e, f, g, h) refl

  -- A tenant of whose code only a completed receipt is left: the code starts nothing any more.
  receipt-refuses :
      (w : World S) (t : Store S) (r : Request)
      → w.guard_fails ≡ false
      → w.claim_fails ≡ false
      → codes owner hash t ≡ scrubbed r ∷ []
      → confirm_hash w owner hash t ≡ (t, answer already_erased)
  receipt-refuses w t r g c left = confirm_hash-refuses w t g c (rw left refl) ∙ rw left refl

  -- The rows of the code, among the tenant's requests.
  receipt-codes :
      (t : Store S) (r : Request)
      → requests_of owner t ≡ scrubbed r ∷ []
      → is_code owner hash r ≡ true
      → codes owner hash t ≡ scrubbed r ∷ []
  receipt-codes t r only mine =
      sym (keep-keep (is_code owner hash) (λ x. x.owner == owner) t.requests (λ x h. ground arith))
      ∙ rw (only, mine) refl

  -- A code that can start an erasure runs it whole when nothing fails: the answer is that the tenant
  -- is erased; the tenant's data is what the messages' deletion leaves of what the media's leaves of
  -- what the alerts' leaves of what the connections' leaves; and of the tenant's requests only the
  -- receipt is left, completed and without its Telegram identifiers. Submitting the code again to any
  -- store with the same rows for the code, whatever else is in it, answers that it was done already
  -- and changes nothing, unless the exclusion or the claim fails.
  pub confirm_hash-erases_once :
      (w later : World S) (t t' : Store S) (r : Request) (s₁ s₂ s₃ s₄ : S)
      → w.guard_fails ≡ false
      → w.claim_fails ≡ false
      → w.requests_fail ≡ false
      → w.complete_fails ≡ false
      → codes owner hash t ≡ r ∷ []
      → can_start w.now r ≡ true
      → w.steps.disable_owner owner t.data_of ≡ (s₁, false)
      → w.steps.delete_alerts owner s₁ ≡ (s₂, false)
      → w.steps.erase_media owner s₂ ≡ (s₃, false)
      → w.steps.delete_messages owner s₃ ≡ (s₄, false)
      → later.guard_fails ≡ false
      → later.claim_fails ≡ false
      → codes owner hash t' ≡ codes owner hash (confirm_hash w owner hash t).0
      → let first = confirm_hash w owner hash t in
        (first.1 ≡ answer erased)
        × (first.0.data_of ≡ s₄)
        × (requests_of owner first.0 ≡ scrubbed r ∷ [])
        × (confirm_hash later owner hash t' ≡ (t', answer already_erased))
  unfolding erase
  confirm_hash-erases_once w later t t' r s₁ s₂ s₃ s₄ g c q d only h e₁ e₂ e₃ e₄ g' c' same =
      let ran = run_steps-all w t.data_of s₁ s₂ s₃ s₄ e₁ e₂ e₃ e₄ in
      let mine = keep-head (is_code owner hash) t.requests [] r only in
      let rs = (claim owner hash w.now t.requests).0 in
      let whole =
        confirm_hash-starts w t r g c only h
        ∙ run-ends w rs (run_steps w.steps owner t.data_of) q d (ap (λ x. x.1) ran) in
      let claimed = (claim-starts owner hash w.now t.requests r only h).1 in
      let receipt =
        complete-codes owner hash (delete_others owner hash rs).0 r
          (delete_others-kept owner hash rs ∙ claimed) mine in
      let left = receipt-codes (confirm_hash w owner hash t).0 r (rw whole receipt) mine in
      let again = receipt-refuses later t' r g' c' (same ∙ left) in
      rw whole (refl, ap (λ x. x.0) ran, receipt, again)

  -- A confirmation whose deletions fail reports the failure and keeps the code spent and unfinished:
  -- its row can start an erasure at every later time, so that submitting the code again resumes it.
  pub confirm_hash-interrupted :
      (w : World S) (t : Store S) (r : Request) (e : Failure) (later : ℕ)
      → w.guard_fails ≡ false
      → w.claim_fails ≡ false
      → codes owner hash t ≡ r ∷ []
      → can_start w.now r ≡ true
      → (run_steps w.steps owner t.data_of).1 ≡ some e
      → let first = confirm_hash w owner hash t in
        (first.1 ≡ fails erased e)
        × (first.0.data_of ≡ (run_steps w.steps owner t.data_of).0)
        × (codes owner hash first.0 ≡ spent r ∷ [])
        × (can_start later (spent r) ≡ true)
  unfolding erase
  confirm_hash-interrupted w t r e later g c only h ran =
      let rs = (claim owner hash w.now t.requests).0 in
      let whole =
        confirm_hash-starts w t r g c only h
        ∙ run-breaks w rs (run_steps w.steps owner t.data_of) e ran in
      rw whole (refl, refl, (claim-starts owner hash w.now t.requests r only h).1, refl)
