-- ===== src/Quotas/Isolation.antt =====
-- An operation for one tenant leaves the ledgers of the others alone, or evicts one from a full map.
use undelete.Base.{
  ℕ, ◌≤◌, ◌≡◌, ◌≢◌, refl, ◌∙◌, ◌⊎◌, Bool, true, Option, none, some, List, [], ◌∷◌, arith, leb,
  length, Option-cases, Bool-cases, inl, inr, if-both, is_some,
}
use undelete.Base.Dict.{lookup, lookup-delete, lookup-insert_other, lookup-insert_self}
use undelete.Base.Int.{ℤ, pos, leb_ℤ, int_comparable}
use undelete.Quotas.Limits.{QuotaKind, messages}
use undelete.Quotas.Ledger.{Tenant, new_tenant}
use undelete.Quotas.Tracker.{
  Tracker, Readings, tenant_locked, put_tenant, resync, apply_readings, change_tenant, evict_locked,
  oldest_from, prune_before, max_tenants, usage,
}
use undelete.Quotas.Admit.{
  pass, admit_volume, allow_on, verified, decide, is_memoised, has_room, admit_rate, admit_capture,
}
use undelete.Quotas.Memo.{quiet}

-- The ledger of `other` is as it was; or it has been evicted, from a map that was full, for a tenant
-- that had no ledger in it.
abbrev pub Spares : ℤ → ℤ → Tracker → Tracker → Type 0
Spares owner other t t' =
    (usage t' other ≡ usage t other)
    ⊎ ((usage t' other ≡ none) × (usage t owner ≡ none) × (max_tenants ≤ length t.tenants))

module _ (owner other : ℤ) (apart : owner ≢ other) where
  -- The map holds a ledger of the tenant.
  abbrev Holds : Tracker → Type 0
  Holds t = is_some (usage t owner) ≡ true

  -- What a step does once the map holds the tenant's ledger: it evicts nobody.
  abbrev Kept : Tracker → Tracker → Type 0
  Kept t t' = (usage t' other ≡ usage t other) × Holds t'

  Kept-trans : (t u v : Tracker) → Kept t u → Kept u v → Kept t v
  Kept-trans t u v h k = (k.0 ∙ h.0, k.1)

  Spares-Kept : (t u v : Tracker) → Spares owner other t u → Kept u v → Spares owner other t v
  Spares-Kept t u v (inl e) k = inl (k.0 ∙ e)
  Spares-Kept t u v (inr (gone, new, full)) k = inr (k.0 ∙ gone, new, full)

  put_tenant-Kept : (t : Tracker) (te : Tenant) → Kept t (put_tenant t owner te)
  unfolding put_tenant usage
  put_tenant-Kept t te = (
    lookup-insert_other owner other te t.tenants apart,
    rw (lookup-insert_self owner te t.tenants) refl,
  )

  evict_locked-lookup :
      (m : List (ℤ × Tenant))
      → (lookup other (evict_locked m) ≡ lookup other m) ⊎ (lookup other (evict_locked m) ≡ none)
  unfolding evict_locked
  evict_locked-lookup [] = inl refl
  evict_locked-lookup ((k, te) ∷ m) =
      ground (arith, lookup-delete (oldest_from m (k, te.last_seen)).0 other ((k, te) ∷ m))

  tenant_locked-Spares :
      (t : Tracker) (now : ℕ)
      → Spares owner other t (tenant_locked t owner now).0 × Holds (tenant_locked t owner now).0
  unfolding tenant_locked usage
  tenant_locked-Spares t now = elim (Option-cases (lookup owner t.tenants)) [
    | inr (te, e) ↦
        rw (e, tenant_locked)
          (
            inl (lookup-insert_other owner other _ t.tenants apart),
            rw (lookup-insert_self owner (record te { last_seen = now }) t.tenants) refl,
          )
    | inl e ↦ elim (Bool-cases (leb max_tenants (length t.tenants))) [
      | inl full ↦
          let m = evict_locked t.tenants in
          rw
            (
              e,
              tenant_locked,
              full,
              lookup-insert_other owner other (new_tenant now) m apart,
              lookup-insert_self owner (new_tenant now) m,
            )
            (
              elim (evict_locked-lookup t.tenants) [
                | inl same ↦ inl same
                | inr gone ↦ inr (gone, refl, ground (arith, full))
              ],
              refl,
            )
      | inr free ↦
          rw (e, tenant_locked, free)
            (
              inl (lookup-insert_other owner other _ t.tenants apart),
              rw (lookup-insert_self owner (new_tenant now) t.tenants) refl,
            )
    ]
  ]

  tenant_locked-Kept : (t : Tracker) (now : ℕ) → Holds t → Kept t (tenant_locked t owner now).0
  unfolding usage
  tenant_locked-Kept t now h =
      let (spares, holds) = tenant_locked-Spares t now in
      (
        elim spares [ inl same ↦ same | inr (gone, new, full) ↦ absurd (ground (arith, h, new)) ],
        holds,
      )

  change_tenant-Kept :
      (t : Tracker) (f : Tenant → Tenant) → Holds t → Kept t (change_tenant t owner f)
  unfolding change_tenant
  change_tenant-Kept t f h = elim (Option-cases (lookup owner t.tenants)) [
    | inl e ↦ rw (e, change_tenant) (refl, h)
    | inr (te, e) ↦ rw (e, change_tenant) (put_tenant-Kept t (f te))
  ]

  apply_readings-Kept :
      (t : Tracker) (m f b : Option ℤ) → Holds t → Kept t (apply_readings t owner m f b)
  unfolding apply_readings
  apply_readings-Kept t (some m) (some f) (some b) h = change_tenant-Kept t _ h
  apply_readings-Kept t _ _ _ h = (refl, h)

  pass-Kept : (t : Tracker) (r : Readings) → Holds t → Kept t (pass t owner (quiet r))
  unfolding pass resync
  pass-Kept t r h =
      if-both (Kept t) t.has_source _ _ (apply_readings-Kept t _ _ _ h)
        (change_tenant-Kept t (λ te. record te { seeded = true }) h)

  touched_put-Kept :
      (t : Tracker) (now : ℕ) (te : Tenant)
      → Holds t
      → Kept t (put_tenant (tenant_locked t owner now).0 owner te)
  touched_put-Kept t now te h = Kept-trans t _ _ (tenant_locked-Kept t now h) (put_tenant-Kept _ te)

  verified-Kept :
      (t : Tracker) (now : ℕ) (kind : QuotaKind) (inc : Bool)
      → Holds t
      → Kept t (verified t owner now kind inc).0
  unfolding verified allow_on
  verified-Kept t now kind inc h =
      let t₁ = (tenant_locked t owner now).0 in
      elim (Bool-cases (has_room t₁.limits (tenant_locked t owner now).1 kind)) [
        | inl e ↦ rw (e, verified) (touched_put-Kept t now _ h)
        | inr e ↦ rw (e, verified) (touched_put-Kept t now _ h)
      ]

  decide-Kept :
      (t : Tracker) (now : ℕ) (kind : QuotaKind) (inc : Bool) (r : Readings)
      → Holds t
      → Kept t (decide t owner now kind inc (quiet r)).0
  unfolding decide allow_on
  decide-Kept t now kind inc r h =
      let t₁ = (tenant_locked t owner now).0 in
      let te = (tenant_locked t owner now).1 in
      let touched = tenant_locked-Kept t now h in
      elim (Bool-cases (has_room t₁.limits te kind)) [
        | inl e ↦ rw (e, decide) (touched_put-Kept t now _ h)
        | inr e ↦ elim (Bool-cases (is_memoised te kind now)) [
          | inl m ↦ rw (e, decide, m) touched
          | inr m ↦
              let passed = Kept-trans t t₁ _ touched (pass-Kept t₁ r touched.1) in
              rw (e, decide, m) (Kept-trans t _ _ passed (verified-Kept _ now kind inc passed.1))
        ]
      ]

  admit_volume-Kept :
      (t : Tracker) (now : ℕ) (kind : QuotaKind) (inc : Bool) (r r' : Readings)
      → Holds t
      → Kept t (admit_volume t owner now kind inc (quiet r) (quiet r')).0
  unfolding admit_volume
  admit_volume-Kept t now kind inc r r' h =
      let t₁ = (tenant_locked t owner now).0 in
      let touched = tenant_locked-Kept t now h in
      let seeded =
        if-both (Kept t) (tenant_locked t owner now).1.seeded t₁ (pass t₁ owner (quiet r)) touched
          (Kept-trans t t₁ _ touched (pass-Kept t₁ r touched.1)) in
      Kept-trans t _ _ seeded (decide-Kept _ now kind inc r' seeded.1)

  touched_put-Spares :
      (t : Tracker) (now : ℕ) (te : Tenant)
      → let t' = put_tenant (tenant_locked t owner now).0 owner te in
        Spares owner other t t' × Holds t'
  touched_put-Spares t now te =
      let touched = tenant_locked-Spares t now in
      let put = put_tenant-Kept (tenant_locked t owner now).0 te in
      (Spares-Kept t _ _ touched.0 put, put.1)

  admit_rate-Spares :
      (t : Tracker) (now : ℕ)
      → Spares owner other t (admit_rate t owner now).0 × Holds (admit_rate t owner now).0
  unfolding admit_rate
  admit_rate-Spares t now =
      let t₁ = (tenant_locked t owner now).0 in
      let pruned = prune_before now (tenant_locked t owner now).1.rate in
      elim (Bool-cases (leb_ℤ t₁.limits.captures_per_minute (pos (length pruned)))) [
        | inl e ↦ rw (e, admit_rate) (touched_put-Spares t now _)
        | inr e ↦ rw (e, admit_rate) (touched_put-Spares t now _)
      ]

  -- A capture for one tenant leaves the ledger of every other tenant exactly as it was, whatever the
  -- database answers; or it evicts it, which happens only when the map was full and had no ledger of
  -- the capturing tenant. No other goroutine runs meanwhile.
  pub admit_capture-Spares :
      (t : Tracker) (now : ℕ) (r r' : Readings)
      → Spares owner other t (admit_capture t owner now (λ u. u) (quiet r) (quiet r')).0
  unfolding admit_capture
  admit_capture-Spares t now r r' = elim (Bool-cases (leb_ℤ owner (pos 0))) [
    | inl e ↦ rw (e, admit_capture) (inl refl)
    | inr e ↦
        let rated = admit_rate-Spares t now in
        elim (Option-cases (admit_rate t owner now).1) [
          | inl f ↦
              rw (e, admit_capture, f)
                (Spares-Kept t _ _ rated.0 (admit_volume-Kept _ now messages true r r' rated.1))
          | inr (adm, f) ↦ rw (e, admit_capture, f) rated.0
        ]
  ]
