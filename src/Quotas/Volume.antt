-- ===== src/Quotas/Volume.antt =====
-- What the answers of the volume quotas mean, and when the database is asked.
use undelete.Base.{
  ℕ, ◌+◌, ◌≤◌, ◌≡◌, refl, sym, ap, ◌∙◌, subst, ◌⊎◌, Bool, true, false, Option, none, some, arith,
  Bool-cases, inl, inr, if-both,
}
use undelete.Base.Dict.{lookup, lookup-insert_self}
use undelete.Base.Int.{ℤ, pos, pos_part, ltb_ℤ, leb_ℤ, max_int64, add64, int_comparable}
use undelete.Quotas.Limits.{QuotaKind, messages, Limits, limit_of, warn_threshold}
use undelete.Quotas.Ledger.{Tenant, Admission, allow_locked, current_of, set_kind}
use undelete.Quotas.Tracker.{Tracker, tenant_locked, put_tenant, recheck_interval}
use undelete.Quotas.Admit.{
  Gap, pass, admit_volume, allow_on, verified, decide, is_memoised, has_room,
}
use undelete.Quotas.Invariant.{Inv, IsLedger, IsInt64, Respects, tenant_locked-Inv}
use undelete.Quotas.Sections.{lookup-tenant_locked, touched-IsLedger, blocked-IsLedger, pass-Inv}

-- An answer to an admission, given the ledger that it leaves: an allowed one is on an unseeded
-- ledger or within the limit, a refused one on a seeded ledger that is at or over its limit.
abbrev pub Outcome : Tenant → Admission → Type 0
Outcome te adm =
    ((adm.allowed ≡ true) × ((te.seeded ≡ false) ⊎ (leb_ℤ adm.usage adm.limit ≡ true)))
    ⊎ ((adm.allowed ≡ false) × (te.seeded ≡ true) × (leb_ℤ adm.limit adm.usage ≡ true))

pub record Answers (l : Limits) (owner : ℤ) (kind : QuotaKind) (r : Tracker × Admission)
    : Type 0 where
  pub ledger : Tenant
  pub found : lookup owner r.0.tenants ≡ some ledger
  pub quotes_usage : r.1.usage ≡ current_of ledger kind
  pub quotes_limit : r.1.limit ≡ limit_of l kind
  pub outcome : Outcome ledger r.1

add_one-le :
    (z limit : ℤ)
    → IsInt64 z
    → pos_part limit ≤ max_int64
    → ltb_ℤ z limit ≡ true
    → leb_ℤ (add64 z (pos 1)) limit ≡ true
unfolding add64
add_one-le z limit h k e = ground arith

-- An admission that is allowed leaves a ledger within its limit, if it started below it.
allow_locked_lem :
    (te : Tenant) (kind : QuotaKind) (limit threshold : ℤ) (inc : Bool) (cap : ℤ)
    → IsLedger cap te
    → pos_part limit ≤ max_int64
    → let r = allow_locked te kind limit threshold inc in
      (r.1.allowed ≡ true)
      × (r.1.usage ≡ current_of r.0 kind)
      × (r.1.limit ≡ limit)
      × (r.0.seeded ≡ te.seeded)
      × (ltb_ℤ (current_of te kind) limit ≡ true → leb_ℤ r.1.usage r.1.limit ≡ true)
unfolding allow_locked
allow_locked_lem te kind limit threshold inc cap h k = ground (
  arith,
  add_one-le te.message_count limit h.messages_fit k,
  add_one-le te.media_file_count limit h.files_fit k,
)

room_cases :
    (l : Limits) (te : Tenant) (kind : QuotaKind)
    → has_room l te kind ≡ true
    → (te.seeded ≡ false) ⊎ (ltb_ℤ (current_of te kind) (limit_of l kind) ≡ true)
room_cases l te kind e = ground arith

no_room :
    (l : Limits) (te : Tenant) (kind : QuotaKind)
    → has_room l te kind ≡ false
    → (te.seeded ≡ true) × (leb_ℤ (limit_of l kind) (current_of te kind) ≡ true)
no_room l te kind e = ground arith

current_of-blocked :
    (te : Tenant) (kind : QuotaKind) (blocked : QuotaKind → Option ℕ)
    → current_of (record te { blocked = blocked }) kind ≡ current_of te kind
unfolding current_of
current_of-blocked te messages blocked = refl
current_of-blocked te kind blocked = refl

current_of-warned :
    (te : Tenant) (kind : QuotaKind) (blocked : QuotaKind → Option ℕ) (warned : QuotaKind → Bool)
    → current_of (record te { blocked = blocked; warned = warned }) kind ≡ current_of te kind
unfolding current_of
current_of-warned te messages blocked warned = refl
current_of-warned te kind blocked warned = refl

module _ (l : Limits) (owner : ℤ) (kind : QuotaKind)
    (small : pos_part (limit_of l kind) ≤ max_int64) where
  allow_on-Answers :
      (t : Tracker) (te : Tenant) (inc : Bool)
      → t.limits ≡ l
      → IsLedger l.captures_per_minute te
      → (te.seeded ≡ false) ⊎ (ltb_ℤ (current_of te kind) (limit_of l kind) ≡ true)
      → Answers l owner kind (allow_on t owner te kind inc)
  unfolding allow_on put_tenant
  allow_on-Answers t te inc e h room =
      let threshold = warn_threshold t.limits (limit_of t.limits kind) in
      let small' : pos_part (limit_of t.limits kind) ≤ max_int64 = rw e small in
      let f =
        allow_locked_lem te kind (limit_of t.limits kind) threshold inc l.captures_per_minute h
          small' in
      let same : limit_of t.limits kind ≡ limit_of l kind = ap (λ x. limit_of x kind) e in
      record {
        ledger = (allow_locked te kind (limit_of t.limits kind) threshold inc).0;
        found = lookup-insert_self owner _ t.tenants;
        quotes_usage = f.1;
        quotes_limit = f.2 ∙ same;
        outcome = inl (
          f.0,
          elim room [
            | inl unseeded ↦ inl (f.3 ∙ unseeded)
            | inr below ↦
                inr (f.4 (subst (λ z. ltb_ℤ (current_of te kind) z ≡ true) (sym same) below))
          ],
        );
      }

  -- The critical section after a resync, whatever has happened meanwhile.
  verified-Answers :
      (t : Tracker) (now : ℕ) (inc : Bool)
      → Inv l t
      → Answers l owner kind (verified t owner now kind inc)
  unfolding verified put_tenant
  verified-Answers t now inc v =
      let t₁ = (tenant_locked t owner now).0 in
      let te = (tenant_locked t owner now).1 in
      let w = tenant_locked-Inv l t owner now v in
      let h = touched-IsLedger l t owner now v in
      elim (Bool-cases (has_room t₁.limits te kind)) [
        | inl e ↦
            rw (e, verified)
              (allow_on-Answers t₁ (record te { blocked = set_kind te.blocked kind none }) inc
                w.same_limits (blocked-IsLedger l te _ h)
                (rw (current_of-blocked te kind) (room_cases l te kind (rw w.same_limits at e))))
        | inr e ↦
            let over = no_room l te kind (rw w.same_limits at e) in
            rw (e, verified)
              (record {
                ledger = record te {
                  blocked = set_kind te.blocked kind (some (now + recheck_interval));
                  warned = set_kind te.warned kind true;
                };
                found = lookup-insert_self owner _ t₁.tenants;
                quotes_usage = sym (current_of-warned te kind _ _);
                quotes_limit = ap (λ x. limit_of x kind) w.same_limits;
                outcome = inr (refl, over.0, (no_room t₁.limits te kind e).1);
              })
      ]

  decide-Answers :
      (t : Tracker) (now : ℕ) (inc : Bool) (recheck : Gap)
      → Respects l recheck
      → Inv l t
      → Answers l owner kind (decide t owner now kind inc recheck)
  unfolding decide
  decide-Answers t now inc recheck r v =
      let t₁ = (tenant_locked t owner now).0 in
      let te = (tenant_locked t owner now).1 in
      let w = tenant_locked-Inv l t owner now v in
      elim (Bool-cases (has_room t₁.limits te kind)) [
        | inl e ↦
            rw (e, decide)
              (allow_on-Answers t₁ te inc w.same_limits (touched-IsLedger l t owner now v)
                (room_cases l te kind (rw w.same_limits at e)))
        | inr e ↦ elim (Bool-cases (is_memoised te kind now)) [
          | inl m ↦
              rw (e, decide, m)
                (record {
                  ledger = te;
                  found = lookup-tenant_locked t owner now;
                  quotes_usage = refl;
                  quotes_limit = ap (λ x. limit_of x kind) w.same_limits;
                  outcome = let over = no_room t₁.limits te kind e in inr (refl, over.0, over.1);
                })
          | inr m ↦
              rw (e, decide, m)
                (verified-Answers (pass t₁ owner recheck) now inc (pass-Inv l t₁ owner recheck r w))
        ]
      ]

  -- Every answer of a volume quota quotes the ledger that it leaves in the map and the configured
  -- limit. Allowed, the ledger is unseeded or within its limit (no overshoot, the unit included);
  -- refused, the ledger is seeded and at or over its limit. This holds under any interference and
  -- any answers of the database that keep the invariant, for a limit that is an int64.
  pub admit_volume-Answers :
      (t : Tracker) (now : ℕ) (inc : Bool) (seed recheck : Gap)
      → Respects l seed
      → Respects l recheck
      → Inv l t
      → Answers l owner kind (admit_volume t owner now kind inc seed recheck)
  unfolding admit_volume
  admit_volume-Answers t now inc seed recheck r r' v =
      let w = tenant_locked-Inv l t owner now v in
      decide-Answers _ now inc recheck r' (if-both (Inv l) _ _ _ w (pass-Inv l _ owner seed r w))
