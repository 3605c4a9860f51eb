-- ===== src/Outbox/Leases.antt =====
-- What the lease of a claimed job protects.
use undelete.Base.{
  ℕ, ◌+◌, ◌<◌, ◌≡◌, ◌≢◌, refl, sym, ap, ◌∙◌, Bool, true, false, ◌&&◌, Option, none, some, List, [],
  ◌∷◌, arith, ◌⊎◌, inl, inr, Bool-cases, Option-cases, String, All, nat_beq, nat_beq_iff,
  string_comparable, if-both,
}
use undelete.Base.Int.{ℤ}
use undelete.Outbox.Row.{MediaPayload, Row, Job, Table, update_where, affected}
use undelete.Outbox.Store.{
  lease_lost, visible, is_candidate, is_before, earlier, first_candidate, claimed_row, claim,
  is_leased, acknowledge, verify_lease_update, job_of,
}
use undelete.Outbox.Claims.{Occurs, Leased, update_where-Leased, first_candidate-passes, All-Occurs}

earlier-cases :
    (r : Row) (rest : Option Row) → (earlier r rest ≡ r) ⊎ (rest ≡ some (earlier r rest))
earlier-cases r none = inl refl
earlier-cases r (some b) =
    if-both (λ x. (x ≡ r) ⊎ (some b ≡ some x)) (is_before b r) b r (inr refl) (inl refl)

first_candidate-Occurs :
    (p : Row → Bool) (rs : List Row) (c : Row) → first_candidate p rs ≡ some c → Occurs c rs
unfolding first_candidate
first_candidate-Occurs p [] c e = cc
first_candidate-Occurs p (r ∷ rs) c e = elim (Bool-cases (p r)) [
  | inr f ↦ inr (first_candidate-Occurs p rs c (rw f at e))
  | inl t ↦
      let found : some (earlier r (first_candidate p rs)) ≡ some c = rw t at e in
      elim (earlier-cases r (first_candidate p rs)) [
        | inl first ↦ inl (cc)
        | inr later ↦ inr (first_candidate-Occurs p rs c (later ∙ found))
      ]
]

-- A claim that returns a job: the candidate that it reserved.
claim-cases :
    (unmarshal : String → Option MediaPayload) (owner : ℤ) (now lease : ℕ) (token : String)
    (busy : ℕ → Bool) (t : Table) (job : Job)
    → (claim unmarshal owner now lease token busy t).1 ≡ some job
    → (c : Row) × (first_candidate (is_candidate owner now busy t.rows) t.rows ≡ some c)
      × (job.id ≡ c.id)
      × (job.lease ≡ token)
      × ((claim unmarshal owner now lease token busy t).0.rows
          ≡ update_where
              (λ r. visible owner r && nat_beq r.id c.id)
              (claimed_row now lease token)
              t.rows)
unfolding claim job_of
claim-cases unmarshal owner now lease token busy t job e =
    elim (Option-cases (first_candidate (is_candidate owner now busy t.rows) t.rows)) [
      | inl f ↦ absurd (ground arith)
      | inr (c, f) ↦ (c, f, ground arith, ground arith, ground arith)
    ]

Leased-not_due :
    (owner : ℤ) (id until : ℕ) (token : String) (now : ℕ) (busy : ℕ → Bool) (all : List Row)
    (r : Row)
    → Leased owner id until token r
    → is_candidate owner now busy all r ≡ true
    → r.id ≡ id
    → now < until
    → ⊥
Leased-not_due owner id until token now busy all r (inl apart) passes e early =
    ground (arith, nat_beq_iff r.id id)
Leased-not_due owner id until token now busy all r (inr (s, u, k)) passes e early = ground arith

-- A job that has been claimed is not claimed again before its lease runs out: a second claim of the
-- same tenant, by any worker, reserves another job or none.
pub claim-exclusive :
    (unmarshal : String → Option MediaPayload) (owner : ℤ) (now lease : ℕ) (token : String)
    (busy : ℕ → Bool) (t : Table) (job : Job) (now' lease' : ℕ) (token' : String) (busy' : ℕ → Bool)
    (job' : Job)
    → (claim unmarshal owner now lease token busy t).1 ≡ some job
    → now' < now + lease
    → (claim unmarshal owner now' lease' token' busy'
        (claim unmarshal owner now lease token busy t).0).1
      ≡ some job'
    → job'.id ≢ job.id
claim-exclusive unmarshal owner now lease token busy t job now' lease' token' busy' job' e early e'
      same =
    let t' = (claim unmarshal owner now lease token busy t).0 in
    let (c, f, i, l, rows) = claim-cases unmarshal owner now lease token busy t job e in
    let (c', f', i', l', rows') = claim-cases unmarshal owner now' lease' token' busy' t' job' e' in
    let passes = first_candidate-passes _ t'.rows c' f' in
    let leased =
      All-Occurs (Leased owner c.id (now + lease) token) t'.rows c'
        (rw rows (update_where-Leased owner c.id now lease token t.rows))
        (first_candidate-Occurs _ t'.rows c' f') in
    Leased-not_due owner c.id (now + lease) token now' busy' t'.rows c' leased passes
      (sym i' ∙ same ∙ i) early

update_where-none :
    (p : Row → Bool) (f : Row → Row) (rs : List Row)
    → All (λ r. p r ≡ false) rs
    → (update_where p f rs ≡ rs) × (affected p rs ≡ 0)
unfolding update_where affected
update_where-none p f [] h = (refl, refl)
update_where-none p f (r ∷ rs) h = ground (arith, update_where-none p f rs h.1)

stale_not-Leased :
    (owner : ℤ) (id until : ℕ) (token stale : String) (rs : List Row)
    → token ≢ stale
    → All (Leased owner id until token) rs
    → All (λ r. is_leased owner id stale r ≡ false) rs
stale_not-Leased owner id until token stale [] apart h = tt
stale_not-Leased owner id until token stale (r ∷ rs) apart h = (
  ground (arith, string_comparable.equals_iff token stale),
  stale_not-Leased owner id until token stale rs apart h.1,
)

-- After a job has been claimed again, every acknowledgement under an older token is refused as a
-- lost lease and changes nothing, whatever it would write.
pub acknowledge-stale :
    (unmarshal : String → Option MediaPayload) (owner : ℤ) (now lease : ℕ) (token stale : String)
    (busy : ℕ → Bool) (t : Table) (job : Job) (f : Row → Row)
    → (claim unmarshal owner now lease token busy t).1 ≡ some job
    → token ≢ stale
    → let t' = (claim unmarshal owner now lease token busy t).0 in
      (((acknowledge owner job.id stale f t').0.rows ≡ t'.rows)
        × ((acknowledge owner job.id stale f t').1 ≡ some (lease_lost job.id)))
unfolding acknowledge verify_lease_update
acknowledge-stale unmarshal owner now lease token stale busy t job f e apart =
    let t' = (claim unmarshal owner now lease token busy t).0 in
    let (c, _, i, _, rows) = claim-cases unmarshal owner now lease token busy t job e in
    let leased : All (Leased owner job.id (now + lease) token) t'.rows =
      rw (i, rows) (update_where-Leased owner c.id now lease token t.rows) in
    let none_left =
      update_where-none (is_leased owner job.id stale) f t'.rows
        (stale_not-Leased owner job.id (now + lease) token stale t'.rows apart leased) in
    (none_left.0, ap (λ n. verify_lease_update n job.id) none_left.1)
