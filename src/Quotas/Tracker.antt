-- ===== src/Quotas/Tracker.antt =====
-- bot/internal/quotas/quotas.go: the tracker's map of ledgers, its eviction, the sliding window and
-- the resync with the database. Each function is one critical section, run under `Tracker.mu`.
use undelete.Base.{
  ℕ, ◌+◌, ◌*◌, Bool, true, false, Option, none, some, List, [], ◌∷◌, if◌then◌else◌, ltb, leb, keep,
  length,
}
use undelete.Base.Dict.{lookup, insert, delete}
use undelete.Base.Int.{ℤ, pos, ltb_ℤ, int_comparable}
use undelete.Quotas.Limits.{
  QuotaKind, messages, media_files, media_bytes, Limits, warn_threshold, limit_of,
}
use undelete.Quotas.Ledger.{Tenant, new_tenant, current_of, set_kind}

pub record Tracker : Type 0 where
  pub limits : Limits
  -- Whether a `UsageSource` is set: nil is the pure-memory mode.
  pub has_source : Bool
  pub tenants : List (ℤ × Tenant)

abbrev pub second : ℕ
second = 1000000000

-- One minute, in nanoseconds.
abbrev pub rate_window : ℕ
rate_window = 60 * second

abbrev pub recheck_interval : ℕ
recheck_interval = 60 * second

abbrev pub max_tenants : ℕ
max_tenants = 4096

unfoldable pub new_tracker : Limits → Bool → Tracker
new_tracker l source = record { limits = l; has_source = source; tenants = [] }

-- The loop of `evictLocked` over the map: the id seen longest ago so far, with its time.
unfoldable pub oldest_from : List (ℤ × Tenant) → ℤ × ℕ → ℤ × ℕ
oldest_from [] best = best
oldest_from ((id, te) ∷ m) best =
    oldest_from m (if ltb te.last_seen best.1 then (id, te.last_seen) else best)

unfoldable pub evict_locked : List (ℤ × Tenant) → List (ℤ × Tenant)
unfolding oldest_from
evict_locked [] = []
evict_locked ((id, te) ∷ m) = delete (oldest_from m (id, te.last_seen)).0 ((id, te) ∷ m)

-- The ledger of a tenant, touched or inserted, and the tracker that holds it.
unfoldable pub tenant_locked : Tracker → ℤ → ℕ → Tracker × Tenant
unfolding new_tenant
tenant_locked t owner now = elim (lookup owner t.tenants) [
  | some te ↦
      let seen : Tenant = record te { last_seen = now } in
      (record t { tenants = insert owner seen t.tenants }, seen)
  | none ↦
      let room = if leb max_tenants (length t.tenants) then evict_locked t.tenants else t.tenants in
      (record t { tenants = insert owner (new_tenant now) room }, new_tenant now)
]

-- Write back a ledger that a critical section changed through its pointer.
unfoldable pub put_tenant : Tracker → ℤ → Tenant → Tracker
put_tenant t owner te = record t { tenants = insert owner te t.tenants }

-- `ts.After(now.Add(-rateWindow))`, with the window added on the other side.
abbrev pub in_window : ℕ → ℕ → Bool
in_window now ts = ltb now (ts + rate_window)

-- The stamps that are still inside the window that ends now.
unfoldable pub prune_before : ℕ → List ℕ → List ℕ
prune_before now stamps = keep (in_window now) stamps

-- The answers of the three queries; `none` is an error.
pub record Readings : Type 0 where
  pub count_messages : Option ℤ
  pub count_media_files : Option ℤ
  pub sum_stored_media_bytes : Option ℤ

abbrev pub clamp : ℤ → ℤ
clamp n = if ltb_ℤ n (pos 0) then pos 0 else n

-- One round of the loop that ends `resync`.
unfoldable pub clear_stale : Limits → QuotaKind → Tenant → Tenant
unfolding current_of limit_of
clear_stale l kind te =
    let unblocked : Tenant =
      if ltb_ℤ (current_of te kind) (limit_of l kind)
      then record te { blocked = set_kind te.blocked kind none }
      else te in
    if ltb_ℤ (current_of te kind) (warn_threshold l (limit_of l kind))
    then record unblocked { warned = set_kind unblocked.warned kind false }
    else unblocked

unfoldable pub apply_usage : Limits → ℤ → ℤ → ℤ → Tenant → Tenant
unfolding clear_stale
apply_usage l message_count media_file_count media_byte_count te = clear_stale l media_bytes (
    clear_stale l media_files (
      clear_stale l messages (record te {
        message_count = clamp message_count;
        media_file_count = clamp media_file_count;
        media_byte_count = clamp media_byte_count;
        seeded = true;
      })))

-- A change of a ledger that is still in the map; an evicted one is left absent.
unfoldable pub change_tenant : Tracker → ℤ → (Tenant → Tenant) → Tracker
unfolding put_tenant
change_tenant t owner f = elim (lookup owner t.tenants) [
  | none ↦ t
  | some te ↦ put_tenant t owner (f te)
]

-- The usage that the three queries report, unless one of them failed.
unfoldable pub apply_readings : Tracker → ℤ → Option ℤ → Option ℤ → Option ℤ → Tracker
unfolding change_tenant apply_usage
apply_readings t owner (some m) (some f) (some b) =
    change_tenant t owner (apply_usage t.limits m f b)
apply_readings t owner _ _ _ = t

-- The locked end of `resync`, once the queries have answered.
unfoldable pub resync : Tracker → ℤ → Readings → Tracker
unfolding apply_readings change_tenant
resync t owner r =
    if t.has_source
    then apply_readings t owner r.count_messages r.count_media_files r.sum_stored_media_bytes
    else change_tenant t owner (λ te. record te { seeded = true })

-- The ledger behind `Usage`.
unfoldable pub usage : Tracker → ℤ → Option Tenant
usage t owner = lookup owner t.tenants
