-- ===== src/Quotas/Rate.antt =====
-- The sliding window of the capture rate against the list of all granted captures.
use undelete.Base.{
  ℕ, ◌≤◌, ◌≡◌, refl, ap, true, false, none, some, List, [], ◌∷◌, ◌++◌, arith, length, keep,
  Bool-cases, inl, inr, ◌∙◌, sym, ◌⊎◌,
}
use undelete.Base.Dict.{insert, lookup-insert_self}
use undelete.Base.Int.{ℤ, pos, leb_ℤ, int_comparable}
use undelete.Quotas.Limits.{capture_rate}
use undelete.Quotas.Ledger.{Tenant}
use undelete.Quotas.Tracker.{Tracker, put_tenant, prune_before, in_window, usage}
use undelete.Quotas.Admit.{admit_rate, refusal}
use undelete.Quotas.Memo.{tenant_locked_known}

-- Pruning at a later instant forgets an earlier pruning.
keep-keep :
    (now later : ℕ) (stamps : List ℕ)
    → now ≤ later
    → keep (in_window later) (keep (in_window now) stamps) ≡ keep (in_window later) stamps
keep-keep now later [] h = refl
keep-keep now later (s ∷ stamps) h = ground (arith, keep-keep now later stamps h)

keep-append :
    (now : ℕ) (stamps : List ℕ)
    → keep (in_window now) (stamps ++ now ∷ []) ≡ keep (in_window now) stamps ++ now ∷ []
keep-append now [] = ground arith
keep-append now (s ∷ stamps) = ground (arith, keep-append now stamps)

-- The window of a ledger is what the captures granted so far leave in the last minute.
abbrev pub Tracks : Tracker → ℤ → ℕ → List ℕ → Type 0
Tracks t owner now granted =
    (te : Tenant) × (usage t owner ≡ some te) × (te.rate ≡ keep (in_window now) granted)

-- How many captures were granted in the minute that ends at `now`.
abbrev pub in_last_minute : ℕ → List ℕ → ℕ
in_last_minute now granted = length (keep (in_window now) granted)

-- The two outcomes of one check of the capture rate, given the captures granted so far.
abbrev pub Checked : Tracker → ℤ → ℕ → List ℕ → Type 0
Checked t owner now granted =
    let cap = t.limits.captures_per_minute in
    let r = admit_rate t owner now in
    ((leb_ℤ cap (pos (in_last_minute now granted)) ≡ true)
      × (r.1 ≡ some (refusal capture_rate false (pos (in_last_minute now granted)) cap))
      × Tracks r.0 owner now granted)
    ⊎ ((leb_ℤ cap (pos (in_last_minute now granted)) ≡ false)
        × (r.1 ≡ none)
        × Tracks r.0 owner now (granted ++ now ∷ []))

-- One check of the capture rate, for a tenant whose window tracks the captures `granted` up to an
-- earlier instant: it is refused exactly when the limit per minute is reached by those granted in
-- the last minute; otherwise it is granted, and the window tracks the longer list.
pub admit_rate-Checked :
    (t : Tracker) (owner : ℤ) (earlier now : ℕ) (granted : List ℕ)
    → earlier ≤ now
    → Tracks t owner earlier granted
    → Checked t owner now granted
unfolding admit_rate prune_before usage put_tenant
admit_rate-Checked t owner earlier now granted h (te, e, w) =
    let seen : Tenant = record te { last_seen = now } in
    let pruned : keep (in_window now) te.rate ≡ keep (in_window now) granted =
      ap (keep (in_window now)) w ∙ keep-keep earlier now granted h in
    let t₁ = insert owner seen t.tenants in
    elim (Bool-cases (leb_ℤ t.limits.captures_per_minute (pos (in_last_minute now granted)))) [
      | inl full ↦
          rw (tenant_locked_known t owner now te e, admit_rate, pruned, full)
            (inl (
              refl,
              refl,
              (
                record seen { rate = keep (in_window now) granted },
                lookup-insert_self owner _ t₁,
                refl,
              ),
            ))
      | inr room ↦
          rw (tenant_locked_known t owner now te e, admit_rate, pruned, room)
            (inr (
              refl,
              refl,
              (
                record seen { rate = keep (in_window now) granted ++ now ∷ [] },
                lookup-insert_self owner _ t₁,
                sym (keep-append now granted),
              ),
            ))
    ]
