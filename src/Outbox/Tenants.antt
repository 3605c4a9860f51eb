-- ===== src/Outbox/Tenants.antt =====
-- The statements of the queue seen tenant by tenant: insertion, erasure, retention and the backlog.
use undelete.Base.{
  ℕ, ◌≡◌, ◌≢◌, refl, ap, ◌∙◌, Bool, true, false, ◌&&◌, List, [], ◌∷◌, arith, inl, inr, Bool-cases,
  length, keep, nat_comparable, string_comparable,
}
use undelete.Base.Int.{ℤ, int_comparable, int_beq_iff}
use undelete.Outbox.Row.{Row, Table, affected, delete_where}
use undelete.Outbox.Store.{visible, delete_tenant, purge_tenant, purge_expired, is_expired, is_open}

-- The rows of a tenant, in order.
abbrev pub rows_of : ℤ → Table → List Row
rows_of owner t = keep (visible owner) t.rows

keep-delete_other :
    (p : Row → Bool) (other : ℤ) (rs : List Row)
    → ((r : Row) → visible other r ≡ true → p r ≡ false)
    → keep (visible other) (delete_where p rs) ≡ keep (visible other) rs
unfolding delete_where
keep-delete_other p other [] h = refl
keep-delete_other p other (r ∷ rs) h = elim (Bool-cases (visible other r)) [
  | inl v ↦ rw (h r v, v) (ap (λ x. r ∷ x) (keep-delete_other p other rs h))
  | inr v ↦ ground (arith, keep-delete_other p other rs h)
]

not_both :
    (owner other : ℤ) (r : Row) → owner ≢ other → visible other r ≡ true → visible owner r ≡ false
not_both owner other r apart v =
    ground (arith, int_beq_iff r.owner owner, int_beq_iff r.owner other)

keep-delete_all : (p : Row → Bool) (rs : List Row) → keep p (delete_where p rs) ≡ []
unfolding delete_where
keep-delete_all p [] = refl
keep-delete_all p (r ∷ rs) = ground (arith, keep-delete_all p rs)

affected-length : (p : Row → Bool) (rs : List Row) → affected p rs ≡ length (keep p rs)
unfolding affected
affected-length p [] = refl
affected-length p (r ∷ rs) = ground (arith, affected-length p rs)

-- The erasure of a tenant's queue leaves none of its rows, whatever their status, reports how many
-- there were, and leaves the rows of every other tenant as they were.
pub delete_tenant_lem :
    (owner other : ℤ) (t : Table)
    → owner ≢ other
    → let r = delete_tenant owner t in
      (rows_of owner r.0 ≡ [])
      × (r.1 ≡ length (rows_of owner t))
      × (rows_of other r.0 ≡ rows_of other t)
unfolding delete_tenant
delete_tenant_lem owner other t apart = (
  keep-delete_all (visible owner) t.rows,
  affected-length (visible owner) t.rows,
  keep-delete_other (visible owner) other t.rows (λ r. not_both owner other r apart),
)

-- An alert that is still on its way: pending or held by a worker.
abbrev pub open_rows : Table → List Row
open_rows t = keep (λ r. is_open r.status) t.rows

keep-delete_open :
    (p : Row → Bool) (rs : List Row)
    → ((r : Row) → is_open r.status ≡ true → p r ≡ false)
    → keep (λ r. is_open r.status) (delete_where p rs) ≡ keep (λ r. is_open r.status) rs
unfolding delete_where
keep-delete_open p [] h = refl
keep-delete_open p (r ∷ rs) h = elim (Bool-cases (is_open r.status)) [
  | inl v ↦ rw (h r v, v) (ap (λ x. r ∷ x) (keep-delete_open p rs h))
  | inr v ↦ ground (arith, keep-delete_open p rs h)
]

expired-not_open :
    (now days : ℕ) (owner : ℤ) (r : Row)
    → is_open r.status ≡ true
    → visible owner r && is_expired now days r ≡ false
expired-not_open now days owner r h = ground arith

-- Retention takes no alert that is still on its way: whatever tenants and periods it is run for, the
-- pending and processing rows are the same before and after it.
pub purge_expired-open_rows :
    (now : ℕ) (tenants : List (ℤ × ℕ)) (t : Table)
    → open_rows (purge_expired now tenants t) ≡ open_rows t
unfolding purge_expired purge_tenant
purge_expired-open_rows now [] t = refl
purge_expired-open_rows now ((owner, days) ∷ tenants) t =
    purge_expired-open_rows now tenants (purge_tenant now (owner, days) t)
    ∙ keep-delete_open (λ r. visible owner r && is_expired now days r) t.rows
        (expired-not_open now days owner)
