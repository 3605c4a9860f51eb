-- ===== src/Quotas/Invariant.antt =====
-- What holds of the tracker between two critical sections, whatever other goroutines do.
use undelete.Base.{
  ℕ, suc, ◌≤◌, ◌<◌, ◌≡◌, true, Option, none, some, List, [], ◌∷◌, arith, if◌then◌else◌, ltb, leb,
  length, All, Option-cases, Bool-cases, inl, inr, is_some, if-both,
}
use undelete.Base.Dict.{
  lookup, insert, length-insert, insert-All, delete-All, lookup-All, All-present,
  length-delete-present,
}
use undelete.Base.Int.{ℤ, pos_part, neg_part, max_int64, add64, int_comparable}
use undelete.Quotas.Limits.{QuotaKind, messages, media_files, media_bytes, Limits}
use undelete.Quotas.Ledger.{Tenant, new_tenant}
use undelete.Quotas.Tracker.{
  Tracker, Readings, max_tenants, tenant_locked, put_tenant, change_tenant, resync, oldest_from,
  evict_locked, apply_usage, clear_stale, apply_readings, clamp,
}
use undelete.Quotas.Admit.{Gap}

-- An int64.
abbrev pub IsInt64 : ℤ → Type 0
IsInt64 z = (pos_part z ≤ max_int64) × (neg_part z ≤ suc max_int64)

pub add64-IsInt64 : (a b : ℤ) → IsInt64 (add64 a b)
unfolding add64
add64-IsInt64 a b = ground arith

-- A ledger within its types, its window no longer than the rate limit allows.
pub record IsLedger (cap : ℤ) (te : Tenant) : Type 0 where
  pub messages_fit : IsInt64 te.message_count
  pub files_fit : IsInt64 te.media_file_count
  pub bytes_fit : IsInt64 te.media_byte_count
  pub rate_bounded : length te.rate ≤ pos_part cap

pub record Inv (l : Limits) (t : Tracker) : Type 0 where
  pub same_limits : t.limits ≡ l
  pub bounded : length t.tenants ≤ max_tenants
  pub ledgers : All (λ e. IsLedger l.captures_per_minute e.1) t.tenants

abbrev pub Fits : Option ℤ → Type 0
Fits none = Unit {0}
Fits (some z) = IsInt64 z

-- Other goroutines keep the invariant, and the database answers in int64.
pub record Respects (l : Limits) (g : Gap) : Type 0 where
  pub before_keeps : (t : Tracker) → Inv l t → Inv l (g.before t)
  pub after_keeps : (t : Tracker) → Inv l t → Inv l (g.after t)
  pub messages_read : Fits g.readings.count_messages
  pub files_read : Fits g.readings.count_media_files
  pub bytes_read : Fits g.readings.sum_stored_media_bytes

oldest_from-present :
    (m all : List (ℤ × Tenant)) (best : ℤ × ℕ)
    → is_some (lookup best.0 all) ≡ true
    → All (λ e. is_some (lookup e.0 all) ≡ true) m
    → is_some (lookup (oldest_from m best).0 all) ≡ true
unfolding oldest_from
oldest_from-present [] all best h hs = h
oldest_from-present ((k, te) ∷ m) all best h hs =
    oldest_from-present m all (if ltb te.last_seen best.1 then (k, te.last_seen) else best)
      (if-both (λ (x : ℤ × ℕ). is_some (lookup x.0 all) ≡ true) (ltb te.last_seen best.1)
        (k, te.last_seen) best hs.0 h)
      hs.1

-- An eviction makes room for one entry.
length-evict_locked :
    (m : List (ℤ × Tenant)) → length m ≤ max_tenants → length (evict_locked m) < max_tenants
unfolding evict_locked
length-evict_locked [] h = omega arith
length-evict_locked ((k, te) ∷ m) h =
    let here = All-present ((k, te) ∷ m) ((k, te) ∷ m) (λ j p. p) in
    omega (
      arith,
      length-delete-present (oldest_from m (k, te.last_seen)).0 ((k, te) ∷ m)
          (oldest_from-present m ((k, te) ∷ m) (k, te.last_seen) here.0 here.1),
    )

evict_locked-All :
    (P : ℤ × Tenant → Type 0) (m : List (ℤ × Tenant)) → All P m → All P (evict_locked m)
unfolding evict_locked
evict_locked-All P [] h = tt
evict_locked-All P ((k, te) ∷ m) h = delete-All P _ ((k, te) ∷ m) h

module _ (l : Limits) where
  new_tenant-IsLedger : (now : ℕ) → IsLedger l.captures_per_minute (new_tenant now)
  unfolding new_tenant
  new_tenant-IsLedger now = omega arith

  pub put_tenant-Inv :
      (t : Tracker) (owner : ℤ) (old te : Tenant)
      → Inv l t
      → lookup owner t.tenants ≡ some old
      → IsLedger l.captures_per_minute te
      → Inv l (put_tenant t owner te)
  unfolding put_tenant
  put_tenant-Inv t owner old te v e h = record {
    same_limits = v.same_limits;
    bounded = let b = v.bounded in rw (length-insert owner te t.tenants, e) b;
    ledgers = insert-All (λ x. IsLedger l.captures_per_minute x.1) owner te t.tenants h v.ledgers;
  }

  change_tenant-Inv :
      (t : Tracker) (owner : ℤ) (f : Tenant → Tenant)
      → ((te : Tenant) → IsLedger l.captures_per_minute te → IsLedger l.captures_per_minute (f te))
      → Inv l t
      → Inv l (change_tenant t owner f)
  unfolding change_tenant
  change_tenant-Inv t owner f keeps v = elim (Option-cases (lookup owner t.tenants)) [
    | inl e ↦ rw (e, change_tenant) v
    | inr (te, e) ↦
        rw (e, change_tenant)
          (put_tenant-Inv t owner te (f te) v e
            (keeps te (lookup-All (IsLedger l.captures_per_minute) owner te t.tenants v.ledgers e)))
  ]

  insert_new-Inv :
      (t : Tracker) (owner : ℤ) (room : List (ℤ × Tenant)) (te : Tenant)
      → Inv l t
      → length room < max_tenants
      → All (λ e. IsLedger l.captures_per_minute e.1) room
      → IsLedger l.captures_per_minute te
      → Inv l (record t { tenants = insert owner te room })
  insert_new-Inv t owner room te v short all h = record {
    same_limits = v.same_limits;
    bounded = ground (arith, length-insert owner te room);
    ledgers = insert-All (λ x. IsLedger l.captures_per_minute x.1) owner te room h all;
  }

  pub tenant_locked-Inv :
      (t : Tracker) (owner : ℤ) (now : ℕ) → Inv l t → Inv l (tenant_locked t owner now).0
  unfolding tenant_locked put_tenant
  tenant_locked-Inv t owner now v = elim (Option-cases (lookup owner t.tenants)) [
    | inr (te, e) ↦
        let h = lookup-All (IsLedger l.captures_per_minute) owner te t.tenants v.ledgers e in
        rw (e, tenant_locked)
          (put_tenant-Inv t owner te (record te { last_seen = now }) v e (omega arith))
    | inl e ↦ elim (Bool-cases (leb max_tenants (length t.tenants))) [
      | inl full ↦
          rw (e, tenant_locked, full)
            (insert_new-Inv t owner _ _ v (length-evict_locked t.tenants v.bounded)
              (evict_locked-All _ t.tenants v.ledgers) (new_tenant-IsLedger now))
      | inr free ↦
          rw (e, tenant_locked, free)
            (insert_new-Inv t owner t.tenants _ v (ground arith) v.ledgers
              (new_tenant-IsLedger now))
    ]
  ]

  clear_stale-IsLedger :
      (kind : QuotaKind) (te : Tenant)
      → IsLedger l.captures_per_minute te
      → IsLedger l.captures_per_minute (clear_stale l kind te)
  unfolding clear_stale
  clear_stale-IsLedger kind te h = ground arith

  apply_usage-IsLedger :
      (m f b : ℤ) (te : Tenant)
      → IsInt64 m
      → IsInt64 f
      → IsInt64 b
      → IsLedger l.captures_per_minute te
      → IsLedger l.captures_per_minute (apply_usage l m f b te)
  unfolding apply_usage
  apply_usage-IsLedger m f b te hm hf hb h = clear_stale-IsLedger media_bytes _ (
      clear_stale-IsLedger media_files _ (
        clear_stale-IsLedger messages
          (record te {
            message_count = clamp m;
            media_file_count = clamp f;
            media_byte_count = clamp b;
            seeded = true;
          })
          (record {
            messages_fit = ground arith;
            files_fit = ground arith;
            bytes_fit = ground arith;
            rate_bounded = h.rate_bounded;
          })))

  apply_readings-Inv :
      (t : Tracker) (owner : ℤ) (m f b : Option ℤ)
      → Fits m
      → Fits f
      → Fits b
      → Inv l t
      → Inv l (apply_readings t owner m f b)
  unfolding apply_readings
  apply_readings-Inv t owner (some m) (some f) (some b) hm hf hb v =
      change_tenant-Inv t owner (apply_usage t.limits m f b)
        (λ te h. rw v.same_limits (apply_usage-IsLedger m f b te hm hf hb h)) v
  apply_readings-Inv t owner _ _ _ hm hf hb v = v

  -- The locked end of a resync keeps the invariant, whichever queries failed.
  pub resync-Inv :
      (t : Tracker) (owner : ℤ) (r : Readings)
      → Fits r.count_messages
      → Fits r.count_media_files
      → Fits r.sum_stored_media_bytes
      → Inv l t
      → Inv l (resync t owner r)
  unfolding resync
  resync-Inv t owner r fm ff fb v =
      if-both (Inv l) t.has_source _ _ (apply_readings-Inv t owner _ _ _ fm ff fb v) (
        change_tenant-Inv t owner (λ te. record te { seeded = true })
          (λ te h. record {
            messages_fit = h.messages_fit;
            files_fit = h.files_fit;
            bytes_fit = h.bytes_fit;
            rate_bounded = h.rate_bounded;
          })
          v)
