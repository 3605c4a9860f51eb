-- ===== src/Outbox/Evolution.antt =====
-- What one round of the worker does to the rows: no alert is lost, none is marked sent unless a
-- request was accepted, and the rows of other tenants stay as they are.
use undelete.Base.{
  ℕ, ◌+◌, ◌≡◌, sym, ap, ◌∙◌, subst, Bool, true, false, Option, none, some, List, [], ◌∷◌, arith,
  leb, ◌⊎◌, inl, inr, Option-cases, String, if-split, if-both,
}
use undelete.Base.Int.{ℤ}
use undelete.Outbox.Row.{sent, status_beq, MediaPayload, Row, Job, Table, update_where, ErrorClass}
use undelete.Outbox.Store.{
  StoreError, visible, claimed_row, claim, is_leased, acknowledge, mark_sent, mark_retry,
  mark_failed, sent_row, retry_row, failed_row, first_candidate, is_candidate,
}
use undelete.Outbox.Worker.{
  World, Report, process_one, process_claimed, settle, acknowledge_sent, reschedule, deliver,
  marked, default_lease, is_shutdown, is_permanent, error_class, wait_for, max_delivery_attempts,
}
use undelete.Telegram.Upload.{SendError, Request}
use undelete.Outbox.Delivery.{Delivered, deliver-Delivered, Delivered-some}

-- One row before and after a round of the worker for `owner`; `accepted` tells whether a request
-- was accepted.
pub record Evolves (owner : ℤ) (accepted : Bool) (r r' : Row) : Type 0 where
  pub same_id : r'.id ≡ r.id
  pub same_key : r'.key ≡ r.key
  pub same_text : r'.payload_text ≡ r.payload_text
  pub same_media : r'.media_payload ≡ r.media_payload
  pub sent_by_request :
      (status_beq r'.status sent ≡ false) ⊎ (status_beq r.status sent ≡ true) ⊎ (accepted ≡ true)
  pub spares_others : (visible owner r ≡ true) ⊎ (r' ≡ r)

-- The rows stay in number and order, each evolving.
abbrev pub EvolveAll : ℤ → Bool → List Row → List Row → Type 0
EvolveAll owner accepted [] [] = Unit
EvolveAll owner accepted [] (_ ∷ _) = ⊥
EvolveAll owner accepted (_ ∷ _) [] = ⊥
EvolveAll owner accepted (r ∷ rs) (r' ∷ rs') =
    Evolves owner accepted r r' × EvolveAll owner accepted rs rs'

Evolves-refl : (owner : ℤ) (accepted : Bool) (r : Row) → Evolves owner accepted r r
Evolves-refl owner accepted r = ground arith

EvolveAll-refl : (owner : ℤ) (accepted : Bool) (rs : List Row) → EvolveAll owner accepted rs rs
EvolveAll-refl owner accepted [] = tt
EvolveAll-refl owner accepted (r ∷ rs) =
    (Evolves-refl owner accepted r, EvolveAll-refl owner accepted rs)

Evolves-trans :
    (owner : ℤ) (accepted : Bool) (r s t : Row)
    → Evolves owner accepted r s
    → Evolves owner accepted s t
    → Evolves owner accepted r t
Evolves-trans owner accepted r s t h k = record {
  same_id = k.same_id ∙ h.same_id;
  same_key = k.same_key ∙ h.same_key;
  same_text = k.same_text ∙ h.same_text;
  same_media = k.same_media ∙ h.same_media;
  sent_by_request = let a = h.sent_by_request in let b = k.sent_by_request in ground arith;
  spares_others = elim h.spares_others [
    | inl v ↦ inl v
    | inr e ↦ elim k.spares_others [
      | inl v ↦ inl (subst (λ x. visible owner x ≡ true) e v)
      | inr e' ↦ inr (e' ∙ e)
    ]
  ];
}

EvolveAll-trans :
    (owner : ℤ) (accepted : Bool) (rs ss ts : List Row)
    → EvolveAll owner accepted rs ss
    → EvolveAll owner accepted ss ts
    → EvolveAll owner accepted rs ts
EvolveAll-trans owner accepted [] [] [] h k = tt
EvolveAll-trans owner accepted [] [] (t ∷ ts) h k = k
EvolveAll-trans owner accepted [] (s ∷ ss) ts h k = absurd h
EvolveAll-trans owner accepted (r ∷ rs) [] ts h k = absurd h
EvolveAll-trans owner accepted (r ∷ rs) (s ∷ ss) [] h k = k
EvolveAll-trans owner accepted (r ∷ rs) (s ∷ ss) (t ∷ ts) h k =
    (Evolves-trans owner accepted r s t h.0 k.0, EvolveAll-trans owner accepted rs ss ts h.1 k.1)

update_where-EvolveAll :
    (owner : ℤ) (accepted : Bool) (p : Row → Bool) (f : Row → Row) (rs : List Row)
    → ((r : Row) → p r ≡ true → Evolves owner accepted r (f r))
    → EvolveAll owner accepted rs (update_where p f rs)
unfolding update_where
update_where-EvolveAll owner accepted p f [] h = tt
update_where-EvolveAll owner accepted p f (r ∷ rs) h = (
  if-split (Evolves owner accepted r) (p r) (f r) r (h r) (λ _. Evolves-refl owner accepted r),
  update_where-EvolveAll owner accepted p f rs h,
)

-- The writes, on a row of the tenant.
claimed_row-Evolves :
    (owner : ℤ) (accepted : Bool) (now lease : ℕ) (token : String) (r : Row)
    → visible owner r ≡ true
    → Evolves owner accepted r (claimed_row now lease token r)
claimed_row-Evolves owner accepted now lease token r v = ground arith

sent_row-Evolves :
    (owner : ℤ) (now : ℕ) (r : Row) → visible owner r ≡ true → Evolves owner true r (sent_row now r)
sent_row-Evolves owner now r v = ground arith

retry_row-Evolves :
    (owner : ℤ) (accepted : Bool) (now : ℕ) (wait : ℤ) (class : ErrorClass) (r : Row)
    → visible owner r ≡ true
    → Evolves owner accepted r (retry_row now wait class r)
retry_row-Evolves owner accepted now wait class r v = ground arith

failed_row-Evolves :
    (owner : ℤ) (accepted : Bool) (now : ℕ) (class : ErrorClass) (r : Row)
    → visible owner r ≡ true
    → Evolves owner accepted r (failed_row now class r)
failed_row-Evolves owner accepted now class r v = ground arith

leased-visible :
    (owner : ℤ) (id : ℕ) (token : String) (r : Row)
    → is_leased owner id token r ≡ true
    → visible owner r ≡ true
leased-visible owner id token r h = ground arith

-- The claim, the acknowledgements and a database that fails.
claim-EvolveAll :
    (unmarshal : String → Option MediaPayload) (owner : ℤ) (accepted : Bool) (now lease : ℕ)
    (token : String) (busy : ℕ → Bool) (t : Table)
    → EvolveAll owner accepted t.rows (claim unmarshal owner now lease token busy t).0.rows
unfolding claim
claim-EvolveAll unmarshal owner accepted now lease token busy t =
    elim (Option-cases (first_candidate (is_candidate owner now busy t.rows) t.rows)) [
      | inl e ↦ rw (e, claim) (EvolveAll-refl owner accepted t.rows)
      | inr (c, e) ↦
          rw (e, claim)
            (update_where-EvolveAll owner accepted _ _ t.rows
              (λ r h. claimed_row-Evolves owner accepted now lease token r (ground arith)))
    ]

marked-EvolveAll :
    (w : World) (owner : ℤ) (accepted : Bool) (t : Table) (r : Table × Option StoreError)
    → EvolveAll owner accepted t.rows r.0.rows
    → EvolveAll owner accepted t.rows (marked w t r).0.rows
marked-EvolveAll w owner accepted t r h = elim (Option-cases w.mark_error) [
  | inl e ↦ rw (e, marked) h
  | inr (x, e) ↦ rw (e, marked) (EvolveAll-refl owner accepted t.rows)
]

reschedule-EvolveAll :
    (w : World) (owner : ℤ) (accepted : Bool) (job : Job) (e : SendError) (reqs : List Request)
    (t : Table)
    → EvolveAll owner accepted t.rows (reschedule w owner job e reqs t).0.rows
unfolding reschedule mark_failed mark_retry acknowledge
reschedule-EvolveAll w owner accepted job e reqs t =
    let fails =
      marked-EvolveAll w owner accepted t
        (mark_failed owner job.id job.lease (error_class e) w.mark_time t)
        (update_where-EvolveAll owner accepted _ _ t.rows (λ r h.
          failed_row-Evolves owner accepted w.mark_time (error_class e) r
            (leased-visible owner job.id job.lease r h))) in
    let retries =
      marked-EvolveAll w owner accepted t
        (mark_retry owner job.id job.lease (wait_for e job.attempts) (error_class e) w.mark_time t)
        (update_where-EvolveAll owner accepted _ _ t.rows (λ r h.
          retry_row-Evolves owner accepted w.mark_time (wait_for e job.attempts) (error_class e) r
            (leased-visible owner job.id job.lease r h))) in
    let P = λ (x : Table × Report). EvolveAll owner accepted t.rows x.0.rows in
    if-both P (is_shutdown w.dead_at_delivery e) _ _ (EvolveAll-refl owner accepted t.rows) (
      if-both P (is_permanent e) _ _ fails
        (if-both P (leb max_delivery_attempts (job.attempts + 1)) _ _ fails retries))

abbrev pub some_accepted : List Request → Bool
some_accepted [] = false
some_accepted (_ ∷ _) = true

acknowledge_sent-accepted :
    (w : World) (owner : ℤ) (job : Job) (reqs : List Request) (t : Table)
    → (acknowledge_sent w owner job reqs t).1.accepted ≡ reqs
unfolding acknowledge_sent
acknowledge_sent-accepted w owner job reqs t = ground arith

settle-EvolveAll :
    (w : World) (owner : ℤ) (job : Job) (d : Option SendError × List Request) (t : Table)
    → Delivered w job job.payload_kind d
    → EvolveAll owner
        (some_accepted (settle w owner job d t).1.accepted)
        t.rows
        (settle w owner job d t).0.rows
unfolding settle acknowledge_sent mark_sent acknowledge
settle-EvolveAll w owner job (none, []) t h = absurd (Delivered-some w job job.payload_kind h)
settle-EvolveAll w owner job (none, r ∷ rs) t h =
    subst (λ b. EvolveAll owner b t.rows (acknowledge_sent w owner job (r ∷ rs) t).0.rows)
      (sym (ap some_accepted (acknowledge_sent-accepted w owner job (r ∷ rs) t)))
      (marked-EvolveAll w owner true t (mark_sent owner job.id job.lease w.mark_time t) (
        update_where-EvolveAll owner true _ _ t.rows (λ x l.
          sent_row-Evolves owner w.mark_time x (leased-visible owner job.id job.lease x l))))
settle-EvolveAll w owner job (some e, reqs) t h = reschedule-EvolveAll w owner _ job e reqs t

process_claimed-EvolveAll :
    (w : World) (owner : ℤ) (t : Table) (job : Option Job)
    → EvolveAll owner
        (some_accepted (process_claimed w owner (t, job)).1.accepted)
        t.rows
        (process_claimed w owner (t, job)).0.rows
unfolding process_claimed
process_claimed-EvolveAll w owner t none = EvolveAll-refl owner _ t.rows
process_claimed-EvolveAll w owner t (some job) =
    settle-EvolveAll w owner job (deliver w job) t (deliver-Delivered w job)

-- One round of the worker for a tenant, whatever the sender, the database and the context do: the
-- rows of the queue stay in number and order, each with its id, key, text and media; a row is newly
-- marked sent only if Telegram accepted a request in this round; rows of other tenants are as they
-- were.
pub process_one-EvolveAll :
    (unmarshal : String → Option MediaPayload) (w : World) (owner : ℤ) (t : Table)
    → EvolveAll owner
        (some_accepted (process_one unmarshal w owner t).1.accepted)
        t.rows
        (process_one unmarshal w owner t).0.rows
unfolding process_one
process_one-EvolveAll unmarshal w owner t = elim (Option-cases w.guard_error) [
  | inr (e, g) ↦ rw (g, process_one) (EvolveAll-refl owner _ t.rows)
  | inl g ↦ elim (Option-cases w.claim_error) [
    | inr (e, c) ↦ rw (g, process_one, c) (EvolveAll-refl owner _ t.rows)
    | inl c ↦
        let claimed = claim unmarshal owner w.claim_time default_lease w.token w.busy t in
        rw (g, process_one, c)
          (EvolveAll-trans owner _ t.rows claimed.0.rows _
            (claim-EvolveAll unmarshal owner _ w.claim_time default_lease w.token w.busy t)
            (process_claimed-EvolveAll w owner claimed.0 claimed.1))
  ]
]
