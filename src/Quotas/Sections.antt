-- ===== src/Quotas/Sections.antt =====
-- Each operation of the tracker keeps the invariant, under any interference that keeps it.
use undelete.Base.{
  ℕ, ◌≤◌, ◌≡◌, refl, ap, Bool, true, false, Option, some, List, [], ◌∷◌, ◌++◌, arith, length,
  length-append, length-keep-le, keep, All, Option-cases, Bool-cases, inl, inr, if-both, if-split,
}
use undelete.Base.Dict.{lookup, lookup-insert_self, lookup-All}
use undelete.Base.Int.{ℤ, pos, pos_part, leb_ℤ, int_comparable}
use undelete.Quotas.Limits.{QuotaKind, messages, media_files, media_bytes, Limits}
use undelete.Quotas.Ledger.{Tenant, Admission, allow_locked}
use undelete.Quotas.Tracker.{
  Tracker, tenant_locked, put_tenant, prune_before, in_window, new_tracker,
}
use undelete.Quotas.Admit.{
  Gap, pass, admit_volume, admit_rate, admit_capture, admit_media_file, admit_media_bytes,
  account_bytes, add_media_bytes, allow_on, verified, decide, is_memoised, has_room,
}
use undelete.Quotas.Invariant.{
  Inv, IsLedger, Respects, add64-IsInt64, put_tenant-Inv, tenant_locked-Inv, resync-Inv,
}

-- The ledger in hand is the one in the map.
pub lookup-tenant_locked :
    (t : Tracker) (owner : ℤ) (now : ℕ)
    → lookup owner (tenant_locked t owner now).0.tenants ≡ some (tenant_locked t owner now).1
unfolding tenant_locked
lookup-tenant_locked t owner now = elim (Option-cases (lookup owner t.tenants)) [
  | inl e ↦ rw (e, tenant_locked) (lookup-insert_self owner _ _)
  | inr (te, e) ↦ rw (e, tenant_locked) (lookup-insert_self owner _ _)
]

room_for_one :
    (l k : Limits) (stamps : List ℕ) (now : ℕ)
    → k ≡ l
    → leb_ℤ k.captures_per_minute (pos (length stamps)) ≡ false
    → length (stamps ++ now ∷ []) ≤ pos_part l.captures_per_minute
room_for_one l k stamps now e room =
    let c : k.captures_per_minute ≡ l.captures_per_minute = ap (λ x. x.captures_per_minute) e in
    ground (arith, length-append stamps (now ∷ []))

module _ (l : Limits) where
  pub pass-Inv :
      (t : Tracker) (owner : ℤ) (g : Gap) → Respects l g → Inv l t → Inv l (pass t owner g)
  unfolding pass
  pass-Inv t owner g r v = r.after_keeps _ (
      resync-Inv l _ owner g.readings r.messages_read r.files_read r.bytes_read
        (r.before_keeps t v))

  allow_locked-IsLedger :
      (te : Tenant) (kind : QuotaKind) (limit threshold : ℤ) (inc : Bool)
      → IsLedger l.captures_per_minute te
      → IsLedger l.captures_per_minute (allow_locked te kind limit threshold inc).0
  unfolding allow_locked
  allow_locked-IsLedger te kind limit threshold inc h =
      ground
        (arith, add64-IsInt64 te.message_count (pos 1), add64-IsInt64 te.media_file_count (pos 1))

  -- What a critical section starts from: the ledger in hand is in the map.
  pub touched-IsLedger :
      (t : Tracker) (owner : ℤ) (now : ℕ)
      → Inv l t
      → IsLedger l.captures_per_minute (tenant_locked t owner now).1
  touched-IsLedger t owner now v =
      lookup-All (IsLedger l.captures_per_minute) owner _ _
        (tenant_locked-Inv l t owner now v).ledgers (lookup-tenant_locked t owner now)

  -- A critical section that ends by writing its ledger back.
  touched_put-Inv :
      (t : Tracker) (owner : ℤ) (now : ℕ) (te : Tenant)
      → Inv l t
      → IsLedger l.captures_per_minute te
      → Inv l (put_tenant (tenant_locked t owner now).0 owner te)
  touched_put-Inv t owner now te v h =
      put_tenant-Inv l _ owner _ te (tenant_locked-Inv l t owner now v)
        (lookup-tenant_locked t owner now) h

  pub blocked-IsLedger :
      (te : Tenant) (blocked : QuotaKind → Option ℕ)
      → IsLedger l.captures_per_minute te
      → IsLedger l.captures_per_minute (record te { blocked = blocked })
  blocked-IsLedger te blocked h = omega arith

  blocked_warned-IsLedger :
      (te : Tenant) (blocked : QuotaKind → Option ℕ) (warned : QuotaKind → Bool)
      → IsLedger l.captures_per_minute te
      → IsLedger l.captures_per_minute (record te { blocked = blocked; warned = warned })
  blocked_warned-IsLedger te blocked warned h = omega arith

  verified-Inv :
      (t : Tracker) (owner : ℤ) (now : ℕ) (kind : QuotaKind) (inc : Bool)
      → Inv l t
      → Inv l (verified t owner now kind inc).0
  unfolding verified allow_on
  verified-Inv t owner now kind inc v =
      let t₁ = (tenant_locked t owner now).0 in
      let te = (tenant_locked t owner now).1 in
      let h = touched-IsLedger t owner now v in
      elim (Bool-cases (has_room t₁.limits te kind)) [
        | inl e ↦
            rw (e, verified)
              (touched_put-Inv t owner now _ v
                (allow_locked-IsLedger _ kind _ _ inc (blocked-IsLedger te _ h)))
        | inr e ↦
            rw (e, verified) (touched_put-Inv t owner now _ v (blocked_warned-IsLedger te _ _ h))
      ]

  decide-Inv :
      (t : Tracker) (owner : ℤ) (now : ℕ) (kind : QuotaKind) (inc : Bool) (g : Gap)
      → Respects l g
      → Inv l t
      → Inv l (decide t owner now kind inc g).0
  unfolding decide allow_on
  decide-Inv t owner now kind inc g r v =
      let t₁ = (tenant_locked t owner now).0 in
      let te = (tenant_locked t owner now).1 in
      let w = tenant_locked-Inv l t owner now v in
      elim (Bool-cases (has_room t₁.limits te kind)) [
        | inl e ↦
            rw (e, decide)
              (touched_put-Inv t owner now _ v
                (allow_locked-IsLedger te kind _ _ inc (touched-IsLedger t owner now v)))
        | inr e ↦ elim (Bool-cases (is_memoised te kind now)) [
          | inl m ↦ rw (e, decide, m) w
          | inr m ↦ rw (e, decide, m) (verified-Inv _ owner now kind inc (pass-Inv t₁ owner g r w))
        ]
      ]

  pub admit_volume-Inv :
      (t : Tracker) (owner : ℤ) (now : ℕ) (kind : QuotaKind) (inc : Bool) (seed recheck : Gap)
      → Respects l seed
      → Respects l recheck
      → Inv l t
      → Inv l (admit_volume t owner now kind inc seed recheck).0
  unfolding admit_volume
  admit_volume-Inv t owner now kind inc seed recheck r r' v =
      let w = tenant_locked-Inv l t owner now v in
      decide-Inv _ owner now kind inc recheck r'
        (if-both (Inv l) _ _ _ w (pass-Inv _ owner seed r w))

  admit_rate-Inv : (t : Tracker) (owner : ℤ) (now : ℕ) → Inv l t → Inv l (admit_rate t owner now).0
  unfolding admit_rate prune_before
  admit_rate-Inv t owner now v =
      let t₁ = (tenant_locked t owner now).0 in
      let te = (tenant_locked t owner now).1 in
      let h = touched-IsLedger t owner now v in
      let shorter = length-keep-le (in_window now) te.rate in
      let limits = (tenant_locked-Inv l t owner now v).same_limits in
      if-split (λ (r : Tracker × Option Admission). Inv l r.0) _ _ _
        (λ _. touched_put-Inv t owner now _ v (omega arith))
        (λ room. touched_put-Inv t owner now _ v (record {
          messages_fit = h.messages_fit;
          files_fit = h.files_fit;
          bytes_fit = h.bytes_fit;
          rate_bounded = room_for_one l t₁.limits (keep (in_window now) te.rate) now limits room;
        }))

  pub admit_capture-Inv :
      (t : Tracker) (owner : ℤ) (now : ℕ) (others : Tracker → Tracker) (seed recheck : Gap)
      → ((t : Tracker) → Inv l t → Inv l (others t))
      → Respects l seed
      → Respects l recheck
      → Inv l t
      → Inv l (admit_capture t owner now others seed recheck).0
  unfolding admit_capture
  admit_capture-Inv t owner now others seed recheck o r r' v =
      elim (Bool-cases (leb_ℤ owner (pos 0))) [
        | inl e ↦ rw (e, admit_capture) v
        | inr e ↦ elim (Option-cases (admit_rate t owner now).1) [
          | inl f ↦
              rw (e, admit_capture, f)
                (admit_volume-Inv _ owner now messages true seed recheck r r'
                  (o _ (admit_rate-Inv t owner now v)))
          | inr (adm, f) ↦ rw (e, admit_capture, f) (admit_rate-Inv t owner now v)
        ]
      ]

  account_bytes-Inv :
      (t : Tracker) (owner : ℤ) (now : ℕ) (n : ℤ) → Inv l t → Inv l (account_bytes t owner now n).0
  unfolding account_bytes
  account_bytes-Inv t owner now n v =
      let te = (tenant_locked t owner now).1 in
      let h = touched-IsLedger t owner now v in
      touched_put-Inv t owner now _ v (record {
        messages_fit = h.messages_fit;
        files_fit = h.files_fit;
        bytes_fit = add64-IsInt64 te.media_byte_count n;
        rate_bounded = h.rate_bounded;
      })

  pub add_media_bytes-Inv :
      (t : Tracker) (owner : ℤ) (now : ℕ) (n : ℤ) (others : Tracker → Tracker) (seed : Gap)
      → ((t : Tracker) → Inv l t → Inv l (others t))
      → Respects l seed
      → Inv l t
      → Inv l (add_media_bytes t owner now n others seed).0
  unfolding add_media_bytes
  add_media_bytes-Inv t owner now n others seed o r v =
      let w = tenant_locked-Inv l t owner now v in
      if-both (λ (r : Tracker × Admission). Inv l r.0) _ _ _ v
        (account_bytes-Inv _ owner now _ (
          if-both (Inv l) _ _ _ (o _ w)
            (o _ (tenant_locked-Inv l _ owner now (pass-Inv _ owner seed r w)))))

-- One operation of the tracker, with the interference that it meets.
pub data Operation : Type 0 where
  capture : ℤ → ℕ → (Tracker → Tracker) → Gap → Gap → Operation
  media_file media_gate : ℤ → ℕ → Gap → Gap → Operation
  stored_bytes : ℤ → ℕ → ℤ → (Tracker → Tracker) → Gap → Operation

unfoldable pub operate : Tracker → Operation → Tracker
unfolding admit_capture admit_media_file admit_media_bytes add_media_bytes
operate t (capture owner now others seed recheck) =
    (admit_capture t owner now others seed recheck).0
operate t (media_file owner now seed recheck) = (admit_media_file t owner now seed recheck).0
operate t (media_gate owner now seed recheck) = (admit_media_bytes t owner now seed recheck).0
operate t (stored_bytes owner now n others seed) = (add_media_bytes t owner now n others seed).0

abbrev pub RespectsAll : Limits → Operation → Type 0
RespectsAll l (capture owner now others seed recheck) =
    ((t : Tracker) → Inv l t → Inv l (others t)) × Respects l seed × Respects l recheck
RespectsAll l (media_file owner now seed recheck) = Respects l seed × Respects l recheck
RespectsAll l (media_gate owner now seed recheck) = Respects l seed × Respects l recheck
RespectsAll l (stored_bytes owner now n others seed) =
    ((t : Tracker) → Inv l t → Inv l (others t)) × Respects l seed

operate-Inv :
    (l : Limits) (t : Tracker) (o : Operation) → RespectsAll l o → Inv l t → Inv l (operate t o)
unfolding operate
operate-Inv l t (capture owner now others seed recheck) r v =
    admit_capture-Inv l t owner now others seed recheck r.0 r.1 r.2 v
operate-Inv l t (media_file owner now seed recheck) r v =
    if-both (λ (r : Tracker × Admission). Inv l r.0) _ _ _ v
      (admit_volume-Inv l t owner now media_files true seed recheck r.0 r.1 v)
operate-Inv l t (media_gate owner now seed recheck) r v =
    if-both (λ (r : Tracker × Admission). Inv l r.0) _ _ _ v
      (admit_volume-Inv l t owner now media_bytes false seed recheck r.0 r.1 v)
operate-Inv l t (stored_bytes owner now n others seed) r v =
    add_media_bytes-Inv l t owner now n others seed r.0 r.1 v

unfoldable pub run : Tracker → List Operation → Tracker
unfolding operate
run t [] = t
run t (o ∷ os) = run (operate t o) os

run-Inv :
    (l : Limits) (t : Tracker) (os : List Operation)
    → All (RespectsAll l) os
    → Inv l t
    → Inv l (run t os)
unfolding run
run-Inv l t [] rs v = v
run-Inv l t (o ∷ os) rs v = run-Inv l (operate t o) os rs.1 (operate-Inv l t o rs.0 v)

-- After any operations on a new tracker, whatever the database answers and whatever other
-- goroutines that keep the invariant do while the lock is released: the limits are as they were, at
-- most 4096 ledgers are held, every counter is an int64 and no ledger holds more capture stamps
-- than the limit per minute.
pub run-new_tracker-Inv :
    (l : Limits) (source : Bool) (os : List Operation)
    → All (RespectsAll l) os
    → Inv l (run (new_tracker l source) os)
unfolding new_tracker
run-new_tracker-Inv l source os rs =
    run-Inv l _ os rs (record { same_limits = refl; bounded = omega arith; ledgers = tt })
