-- ===== src/Quotas/Memo.antt =====
-- When the database is asked: the memoised refusal, the healing resync and the fail-open path.
use undelete.Base.{
  ℕ, ◌<◌, ◌≡◌, refl, ap, ◌∙◌, Bool, true, false, Option, some, arith, if◌then◌else◌, not, ◌&&◌,
  is_some,
}
use undelete.Base.Dict.{lookup, insert, lookup-insert_self}
use undelete.Base.Int.{ℤ, ltb_ℤ, leb_ℤ, int_comparable}
use undelete.Quotas.Limits.{
  QuotaKind, messages, media_files, media_bytes, capture_rate, Limits, limit_of,
}
use undelete.Quotas.Ledger.{Tenant, allow_locked, current_of}
use undelete.Quotas.Tracker.{
  Tracker, Readings, tenant_locked, put_tenant, resync, apply_readings, apply_usage, change_tenant,
  usage, clamp,
}
use undelete.Quotas.Admit.{
  Gap, pass, admit_volume, allow_on, verified, decide, is_memoised, refusal, has_room,
}

-- A ledger that is in the map is touched.
pub tenant_locked_known :
    (t : Tracker) (owner : ℤ) (now : ℕ) (te : Tenant)
    → lookup owner t.tenants ≡ some te
    → tenant_locked t owner now ≡ (
      record t { tenants = insert owner (record te { last_seen = now }) t.tenants },
      record te { last_seen = now },
    )
unfolding tenant_locked
tenant_locked_known t owner now te e = rw (e, tenant_locked)

current_of-seen :
    (te : Tenant) (kind : QuotaKind) (now : ℕ)
    → current_of (record te { last_seen = now }) kind ≡ current_of te kind
unfolding current_of
current_of-seen te messages now = refl
current_of-seen te kind now = refl

decide-memoised :
    (t : Tracker) (owner : ℤ) (now : ℕ) (kind : QuotaKind) (inc : Bool) (recheck : Gap)
    (te : Tenant) (until : ℕ)
    → lookup owner t.tenants ≡ some te
    → te.seeded ≡ true
    → leb_ℤ (limit_of t.limits kind) (current_of te kind) ≡ true
    → te.blocked kind ≡ some until
    → now < until
    → decide t owner now kind inc recheck ≡ (
      record t { tenants = insert owner (record te { last_seen = now }) t.tenants },
      refusal kind false (current_of te kind) (limit_of t.limits kind),
    )
unfolding decide
decide-memoised t owner now kind inc recheck te until e s over b early =
    rw (tenant_locked_known t owner now te e, decide) (ground (arith, current_of-seen te kind now))

-- A seeded ledger goes straight to the decision.
admit_volume_seeded :
    (t : Tracker) (owner : ℤ) (now : ℕ) (kind : QuotaKind) (inc : Bool) (seed recheck : Gap)
    (te : Tenant)
    → lookup owner t.tenants ≡ some te
    → te.seeded ≡ true
    → admit_volume t owner now kind inc seed recheck
      ≡ decide
          (record t { tenants = insert owner (record te { last_seen = now }) t.tenants })
          owner
          now
          kind
          inc
          recheck
unfolding admit_volume
admit_volume_seeded t owner now kind inc seed recheck te e s =
    let t₁ : Tracker = record t {
      tenants = insert owner (record te { last_seen = now }) t.tenants;
    } in
    rw (tenant_locked_known t owner now te e, admit_volume)
      (ap (λ b. decide (if b then t₁ else pass t₁ owner seed) owner now kind inc recheck) s)

-- While a refusal is memoised, a tenant whose seeded ledger is at or over its limit is refused from
-- memory, without an alert: the answer and the ledger do not depend on what the database would
-- answer, nor on other goroutines, and the ledger changes in nothing but the time it was last seen.
pub admit_volume-memoised :
    (t : Tracker) (owner : ℤ) (now : ℕ) (kind : QuotaKind) (inc : Bool) (seed recheck : Gap)
    (te : Tenant) (until : ℕ)
    → usage t owner ≡ some te
    → te.seeded ≡ true
    → leb_ℤ (limit_of t.limits kind) (current_of te kind) ≡ true
    → te.blocked kind ≡ some until
    → now < until
    → let r = admit_volume t owner now kind inc seed recheck in
      (r.1 ≡ refusal kind false (current_of te kind) (limit_of t.limits kind))
      × (usage r.0 owner ≡ some (record te { last_seen = now }))
unfolding admit_volume usage
admit_volume-memoised t owner now kind inc seed recheck te until e s over b early =
    let seen : Tenant = record te { last_seen = now } in
    let t₁ : Tracker = record t { tenants = insert owner seen t.tenants } in
    let refused =
      decide-memoised t₁ owner now kind inc recheck seen until
        (lookup-insert_self owner seen t.tenants) s (rw (current_of-seen te kind now) over) b
        early in
    rw
      (
        admit_volume_seeded t owner now kind inc seed recheck te e s,
        refused,
        current_of-seen te kind now,
        lookup-insert_self owner seen t₁.tenants,
      )
      (refl, refl)

abbrev pub quiet : Readings → Gap
quiet r = record { before = λ t. t; readings = r; after = λ t. t }

-- What the database says of a quota, negative answers read as 0.
abbrev pub reading_of : QuotaKind → ℤ → ℤ → ℤ → ℤ
reading_of media_files m f b = clamp f
reading_of media_bytes m f b = clamp b
reading_of messages m f b = clamp m
reading_of capture_rate m f b = clamp m

current_of-apply_usage :
    (l : Limits) (m f b : ℤ) (te : Tenant) (kind : QuotaKind)
    → current_of (apply_usage l m f b te) kind ≡ reading_of kind m f b
unfolding current_of apply_usage
current_of-apply_usage l m f b te messages = ground arith
current_of-apply_usage l m f b te kind = ground arith

allow_on-allowed :
    (t : Tracker) (owner : ℤ) (te : Tenant) (kind : QuotaKind) (inc : Bool)
    → (allow_on t owner te kind inc).1.allowed ≡ true
unfolding allow_on allow_locked
allow_on-allowed t owner te kind inc = refl

-- A section after a resync that found room.
verified-healed :
    (t : Tracker) (owner : ℤ) (now : ℕ) (kind : QuotaKind) (inc : Bool) (te : Tenant)
    → lookup owner t.tenants ≡ some te
    → ltb_ℤ (current_of te kind) (limit_of t.limits kind) ≡ true
    → (verified t owner now kind inc).1.allowed ≡ true
unfolding verified
verified-healed t owner now kind inc te e below =
    let room : has_room t.limits (record te { last_seen = now }) kind ≡ true =
      ground (arith, current_of-seen te kind now) in
    rw (tenant_locked_known t owner now te e, verified, room) (allow_on-allowed _ owner _ kind inc)

-- A lapsed memo sends an over-quota ledger to the database.
decide-rechecks :
    (t : Tracker) (owner : ℤ) (now : ℕ) (kind : QuotaKind) (inc : Bool) (recheck : Gap)
    (te : Tenant)
    → lookup owner t.tenants ≡ some te
    → te.seeded ≡ true
    → leb_ℤ (limit_of t.limits kind) (current_of te kind) ≡ true
    → is_memoised te kind now ≡ false
    → decide t owner now kind inc recheck
      ≡ verified
          (pass
            (record t { tenants = insert owner (record te { last_seen = now }) t.tenants })
            owner
            recheck)
          owner
          now
          kind
          inc
unfolding decide
decide-rechecks t owner now kind inc recheck te e s over lapsed =
    let seen : Tenant = record te { last_seen = now } in
    let full : has_room t.limits seen kind ≡ false = ground (arith, current_of-seen te kind now) in
    rw (tenant_locked_known t owner now te e, decide, full, lapsed)

abbrev pub answers : ℤ → ℤ → ℤ → Readings
answers m f b = record {
  count_messages = some m;
  count_media_files = some f;
  sum_stored_media_bytes = some b;
}

pass-answers :
    (t : Tracker) (owner : ℤ) (m f b : ℤ) (te : Tenant)
    → t.has_source ≡ true
    → lookup owner t.tenants ≡ some te
    → pass t owner (quiet (answers m f b)) ≡ put_tenant t owner (apply_usage t.limits m f b te)
unfolding pass resync apply_readings change_tenant
pass-answers t owner m f b te src e =
    ap
      (λ source.
        if source
        then change_tenant t owner (apply_usage t.limits m f b)
        else change_tenant t owner (λ x. record x { seeded = true }))
      src
    ∙ rw (e, change_tenant)

-- When no refusal is memoised, a tenant that the ledger calls over quota is admitted as soon as the
-- database says that it is below its limit.
pub admit_volume-heals :
    (t : Tracker) (owner : ℤ) (now : ℕ) (kind : QuotaKind) (inc : Bool) (seed : Gap) (te : Tenant)
    (m f b : ℤ)
    → t.has_source ≡ true
    → usage t owner ≡ some te
    → te.seeded ≡ true
    → leb_ℤ (limit_of t.limits kind) (current_of te kind) ≡ true
    → is_memoised te kind now ≡ false
    → ltb_ℤ (reading_of kind m f b) (limit_of t.limits kind) ≡ true
    → (admit_volume t owner now kind inc seed (quiet (answers m f b))).1.allowed ≡ true
unfolding usage put_tenant
admit_volume-heals t owner now kind inc seed te m f b src e s over lapsed below =
    let seen : Tenant = record te { last_seen = now } in
    let t₁ : Tracker = record t { tenants = insert owner seen t.tenants } in
    let t₂ : Tracker = record t { tenants = insert owner seen t₁.tenants } in
    rw
      (
        admit_volume_seeded t owner now kind inc seed (quiet (answers m f b)) te e s,
        decide-rechecks t₁ owner now kind inc (quiet (answers m f b)) seen
            (lookup-insert_self owner seen t.tenants) s (rw (current_of-seen te kind now) over)
            lapsed,
        pass-answers t₂ owner m f b seen src (lookup-insert_self owner seen t₁.tenants),
      )
      (verified-healed (put_tenant t₂ owner (apply_usage t.limits m f b seen)) owner now kind inc
        (apply_usage t.limits m f b seen) (lookup-insert_self owner _ t₂.tenants)
        (rw (current_of-apply_usage t.limits m f b seen kind) below))

-- One of the three queries failed.
abbrev pub has_failed : Readings → Bool
has_failed r =
    not
      (is_some r.count_messages && is_some r.count_media_files && is_some r.sum_stored_media_bytes)

apply_readings-failed :
    (t : Tracker) (owner : ℤ) (m f b : Option ℤ)
    → not (is_some m && is_some f && is_some b) ≡ true
    → apply_readings t owner m f b ≡ t
unfolding apply_readings
apply_readings-failed t owner (some m) (some f) (some b) h = cc
apply_readings-failed t owner _ _ _ h = refl

pass-failed :
    (t : Tracker) (owner : ℤ) (r : Readings)
    → t.has_source ≡ true
    → has_failed r ≡ true
    → pass t owner (quiet r) ≡ t
unfolding pass resync
pass-failed t owner r src failed =
    ap
      (λ source.
        if source
        then apply_readings t owner r.count_messages r.count_media_files r.sum_stored_media_bytes
        else change_tenant t owner (λ x. record x { seeded = true }))
      src
    ∙ apply_readings-failed t owner _ _ _ failed

admit_volume_unseeded :
    (t : Tracker) (owner : ℤ) (now : ℕ) (kind : QuotaKind) (inc : Bool) (seed recheck : Gap)
    (te : Tenant)
    → lookup owner t.tenants ≡ some te
    → te.seeded ≡ false
    → admit_volume t owner now kind inc seed recheck
      ≡ decide
          (pass
            (record t { tenants = insert owner (record te { last_seen = now }) t.tenants })
            owner
            seed)
          owner
          now
          kind
          inc
          recheck
unfolding admit_volume
admit_volume_unseeded t owner now kind inc seed recheck te e s =
    let t₁ : Tracker = record t {
      tenants = insert owner (record te { last_seen = now }) t.tenants;
    } in
    rw (tenant_locked_known t owner now te e, admit_volume)
      (ap (λ b. decide (if b then t₁ else pass t₁ owner seed) owner now kind inc recheck) s)

decide_unseeded :
    (t : Tracker) (owner : ℤ) (now : ℕ) (kind : QuotaKind) (inc : Bool) (recheck : Gap)
    (te : Tenant)
    → lookup owner t.tenants ≡ some te
    → te.seeded ≡ false
    → (decide t owner now kind inc recheck).1.allowed ≡ true
unfolding decide
decide_unseeded t owner now kind inc recheck te e s =
    let room : has_room t.limits (record te { last_seen = now }) kind ≡ true = ground arith in
    rw (tenant_locked_known t owner now te e, decide, room) (allow_on-allowed _ owner _ kind inc)

-- An outage fails open: while one of the three queries fails, a tenant whose ledger is not seeded
-- is admitted, however large its counters are.
pub admit_volume-fails_open :
    (t : Tracker) (owner : ℤ) (now : ℕ) (kind : QuotaKind) (inc : Bool) (r : Readings)
    (recheck : Gap) (te : Tenant)
    → t.has_source ≡ true
    → usage t owner ≡ some te
    → te.seeded ≡ false
    → has_failed r ≡ true
    → (admit_volume t owner now kind inc (quiet r) recheck).1.allowed ≡ true
unfolding usage
admit_volume-fails_open t owner now kind inc r recheck te src e s failed =
    let seen : Tenant = record te { last_seen = now } in
    let t₁ : Tracker = record t { tenants = insert owner seen t.tenants } in
    rw
      (
        admit_volume_unseeded t owner now kind inc (quiet r) recheck te e s,
        pass-failed t₁ owner r src failed,
      )
      (decide_unseeded t₁ owner now kind inc recheck seen (lookup-insert_self owner seen t.tenants)
        s)
