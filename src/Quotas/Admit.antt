-- ===== src/Quotas/Admit.antt =====
-- bot/internal/quotas/quotas.go: the admissions, each the composition of its critical sections. While
-- `Tracker.mu` is released other goroutines run: a `Gap` is one such span, with what they do to the
-- tracker before and after the locked end of the resync, and what the queries answered.
use undelete.Base.{
  ℕ, ◌+◌, Bool, true, false, ◌&&◌, ◌||◌, not, Option, none, some, [], ◌∷◌, ◌++◌, if◌then◌else◌, ltb,
  length,
}
use undelete.Base.Int.{ℤ, pos, ltb_ℤ, leb_ℤ, add64}
use undelete.Quotas.Limits.{
  QuotaKind, messages, media_files, media_bytes, capture_rate, Limits, warn_threshold, limit_of,
}
use undelete.Quotas.Ledger.{Tenant, Admission, current_of, allow_locked, set_kind}
use undelete.Quotas.Tracker.{
  Tracker, Readings, tenant_locked, put_tenant, resync, prune_before, recheck_interval,
}

pub record Gap : Type 0 where
  pub before : Tracker → Tracker
  pub readings : Readings
  pub after : Tracker → Tracker

-- What an unlocked span leaves behind.
unfoldable pub pass : Tracker → ℤ → Gap → Tracker
pass t owner g = g.after (resync (g.before t) owner g.readings)

abbrev pub refusal : QuotaKind → Bool → ℤ → ℤ → Admission
refusal kind warn usage limit = record {
  allowed = false;
  warn = warn;
  quota = kind;
  usage = usage;
  limit = limit;
}

-- Answer an admission on the ledger in hand, and write the ledger back.
unfoldable pub allow_on : Tracker → ℤ → Tenant → QuotaKind → Bool → Tracker × Admission
allow_on t owner te kind inc =
    let limit = limit_of t.limits kind in
    let (te', adm) = allow_locked te kind limit (warn_threshold t.limits limit) inc in
    (put_tenant t owner te', adm)

-- The test of both critical sections: an unseeded ledger, or one below its limit.
abbrev pub has_room : Limits → Tenant → QuotaKind → Bool
has_room l te kind = not te.seeded || ltb_ℤ (current_of te kind) (limit_of l kind)

-- The memoised refusal, while it lasts.
abbrev pub is_memoised : Tenant → QuotaKind → ℕ → Bool
is_memoised te kind now = elim (te.blocked kind) [ none ↦ false | some until ↦ ltb now until ]

-- The critical section after the re-verification.
unfoldable pub verified : Tracker → ℤ → ℕ → QuotaKind → Bool → Tracker × Admission
verified t owner now kind inc =
    let (t₁, te) = tenant_locked t owner now in
    if has_room t₁.limits te kind
    then allow_on t₁ owner (record te { blocked = set_kind te.blocked kind none }) kind inc
    else (
      put_tenant t₁ owner (record te {
        blocked = set_kind te.blocked kind (some (now + recheck_interval));
        warned = set_kind te.warned kind true;
      }),
      refusal kind true (current_of te kind) (limit_of t₁.limits kind),
    )

-- The critical section on a ledger that has been seeded, or could not be.
unfoldable pub decide : Tracker → ℤ → ℕ → QuotaKind → Bool → Gap → Tracker × Admission
decide t owner now kind inc recheck =
    let (t₁, te) = tenant_locked t owner now in
    if has_room t₁.limits te kind
    then allow_on t₁ owner te kind inc
    else (if is_memoised te kind now
        then (t₁, refusal kind false (current_of te kind) (limit_of t₁.limits kind))
        else verified (pass t₁ owner recheck) owner now kind inc)

unfoldable pub admit_volume : Tracker → ℤ → ℕ → QuotaKind → Bool → Gap → Gap → Tracker × Admission
admit_volume t owner now kind inc seed recheck =
    let (t₁, te) = tenant_locked t owner now in
    decide (if te.seeded then t₁ else pass t₁ owner seed) owner now kind inc recheck

-- The critical section of `AdmitCapture` on the rate: the refusal, or the stamp that it appends.
unfoldable pub admit_rate : Tracker → ℤ → ℕ → Tracker × Option Admission
admit_rate t owner now =
    let (t₁, te) = tenant_locked t owner now in
    let pruned = prune_before now te.rate in
    let cap = t₁.limits.captures_per_minute in
    if leb_ℤ cap (pos (length pruned))
    then (
      put_tenant t₁ owner (record te { rate = pruned }),
      some (refusal capture_rate false (pos (length pruned)) cap),
    )
    else (put_tenant t₁ owner (record te { rate = pruned ++ now ∷ [] }), none)

-- `others` is what other goroutines do between the rate check and the volume check.
unfoldable pub admit_capture :
    Tracker → ℤ → ℕ → (Tracker → Tracker) → Gap → Gap → Tracker × Admission
admit_capture t owner now others seed recheck =
    if leb_ℤ owner (pos 0)
    then (t, refusal messages true (pos 0) t.limits.max_messages)
    else (let (t₁, refused) = admit_rate t owner now in
        elim refused [
          | some adm ↦ (t₁, adm)
          | none ↦ admit_volume (others t₁) owner now messages true seed recheck
        ])

unfoldable pub admit_media_file : Tracker → ℤ → ℕ → Gap → Gap → Tracker × Admission
admit_media_file t owner now seed recheck =
    if leb_ℤ owner (pos 0)
    then (t, refusal media_files true (pos 0) t.limits.max_media_files)
    else admit_volume t owner now media_files true seed recheck

unfoldable pub admit_media_bytes : Tracker → ℤ → ℕ → Gap → Gap → Tracker × Admission
admit_media_bytes t owner now seed recheck =
    if leb_ℤ owner (pos 0)
    then (t, refusal media_bytes true (pos 0) t.limits.max_media_bytes)
    else admit_volume t owner now media_bytes false seed recheck

-- The last critical section of `AddMediaBytes`: the same alert as `answer_allowed`.
unfoldable pub account_bytes : Tracker → ℤ → ℕ → ℤ → Tracker × Admission
account_bytes t owner now n =
    let (t₁, te) = tenant_locked t owner now in
    let limit = t₁.limits.max_media_bytes in
    let total = add64 te.media_byte_count n in
    let warn = leb_ℤ (warn_threshold t₁.limits limit) total && not (te.warned media_bytes) in
    (
      put_tenant t₁ owner (record te {
        media_byte_count = total;
        warned = if warn then set_kind te.warned media_bytes true else te.warned;
      }),
      record { allowed = true; warn = warn; quota = media_bytes; usage = total; limit = limit },
    )

unfoldable pub add_media_bytes :
    Tracker → ℤ → ℕ → ℤ → (Tracker → Tracker) → Gap → Tracker × Admission
add_media_bytes t owner now n others seed =
    if leb_ℤ owner (pos 0)
    then (
      t,
      record {
        allowed = true;
        warn = false;
        quota = media_bytes;
        usage = pos 0;
        limit = t.limits.max_media_bytes;
      },
    )
    else (let (t₁, te) = tenant_locked t owner now in
        let t₂ =
          if te.seeded
          then others t₁
          else others (tenant_locked (pass t₁ owner seed) owner now).0 in
        account_bytes t₂ owner now (if ltb_ℤ n (pos 0) then pos 0 else n))
