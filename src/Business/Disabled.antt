-- ===== src/Business/Disabled.antt =====
-- A disabled owner stays disabled in the connection cache, stale reads of the database included.
use undelete.Base.{
  ℕ, ◌+◌, ◌≡◌, refl, subst, Bool, true, false, not, ◌&&◌, Option, none, some, List, [], ◌∷◌, arith,
  ltb, ◌==◌, string_comparable, length, is_some, Bool-cases, Option-cases, inl, inr, String,
  if-both, if-split, ==-refl, All,
}
use undelete.Base.Int.{ℤ, int_comparable, int_beq_iff}
use undelete.Base.Dict.{lookup, insert, lookup-insert, lookup-delete}
use undelete.Business.Cache.{
  Connection, Entry, resolved, unknown, refused, CacheEntry, Cache, Marker, marked, element_of,
  unlink, drop_back, lookup_cache, evict, put_locked, store, store_db, store_unknown, store_refused,
  disable_entries, disable_owner, Operation, lookup_op, store_op, store_db_op, store_unknown_op,
  store_refused_op, disable_owner_op, operate, run, disable_entry, holds_disabled,
}

-- The entry resolves to an enabled connection of the owner.
abbrev pub is_on : ℤ → Entry → Bool
is_on owner (resolved conn) = conn.owner == owner && conn.is_enabled
is_on owner unknown = false
is_on owner (refused n) = false

abbrev pub answers_on : ℤ → Option Entry → Bool
answers_on owner none = false
answers_on owner (some e) = is_on owner e

-- The operation stores an enabled connection of the owner as Telegram reports it now.
abbrev pub reconnects : ℤ → Operation → Bool
reconnects owner (store_op conn now) = conn.owner == owner && conn.is_enabled
reconnects owner (lookup_op id now) = false
reconnects owner (store_db_op conn now) = false
reconnects owner (store_unknown_op id now) = false
reconnects owner (store_refused_op id n now) = false
reconnects owner (disable_owner_op other) = false

AreOff : ℤ → List CacheEntry → Type 0
AreOff owner es = All (λ e. is_on owner e.entry ≡ false) es

pub IsOff : ℤ → Cache → Type 0
IsOff owner c = (is_some (lookup owner c.disabled_owners) ≡ true) × AreOff owner c.order

unlink-AreOff :
    (owner : ℤ) (id : String) (es : List CacheEntry) → AreOff owner es → AreOff owner (unlink id es)
unfolding unlink AreOff
unlink-AreOff owner id [] h = tt
unlink-AreOff owner id (e ∷ es) h = elim (Bool-cases (e.id == id)) [
  | inl b ↦ rw b (unlink-AreOff owner id es h.1)
  | inr b ↦ rw b (h.0, unlink-AreOff owner id es h.1)
]

drop_back-AreOff :
    (owner : ℤ) (es : List CacheEntry) → AreOff owner es → AreOff owner (drop_back es)
unfolding drop_back AreOff
drop_back-AreOff owner [] h = tt
drop_back-AreOff owner (e ∷ []) h = tt
drop_back-AreOff owner (e ∷ f ∷ es) h = (h.0, drop_back-AreOff owner (f ∷ es) h.1)

element_of-AreOff :
    (owner : ℤ) (id : String) (es : List CacheEntry) (e : CacheEntry)
    → AreOff owner es
    → element_of id es ≡ some e
    → is_on owner e.entry ≡ false
unfolding element_of AreOff
element_of-AreOff owner id [] e h p = cc
element_of-AreOff owner id (f ∷ es) e h p = elim (Bool-cases (f.id == id)) [
  | inl b ↦
      let found : some f ≡ some e = rw b at p in
      let same : f ≡ e = cc in subst (λ (x : CacheEntry). is_on owner x.entry ≡ false) same h.0
  | inr b ↦ element_of-AreOff owner id es e h.1 (rw b at p)
]

pub put_locked-IsOff :
    (owner : ℤ) (id : String) (entry : Entry) (now : ℕ) (c : Cache)
    → is_on owner entry ≡ false
    → IsOff owner c
    → IsOff owner (put_locked id entry now c)
unfolding put_locked evict IsOff AreOff
put_locked-IsOff owner id entry now c off (m, h) =
    elim (Bool-cases (is_some (element_of id c.order))) [
      | inl p ↦ rw (p, put_locked) (m, (off, unlink-AreOff owner id c.order h))
      | inr p ↦
          let e : CacheEntry = record { id = id; entry = entry; expires_at = now + c.ttl } in
          rw (p, put_locked)
            (
              m,
              if-both (AreOff owner) (ltb c.max (length (e ∷ c.order))) _ _
                  (drop_back-AreOff owner (e ∷ c.order) (off, h)) (off, h),
            )
    ]

pub lookup_cache-IsOff :
    (owner : ℤ) (id : String) (now : ℕ) (c : Cache)
    → IsOff owner c
    → IsOff owner (lookup_cache id now c).0 × (answers_on owner (lookup_cache id now c).1 ≡ false)
unfolding lookup_cache IsOff AreOff
lookup_cache-IsOff owner id now c (m, h) = elim (Option-cases (element_of id c.order)) [
  | inl p ↦ rw (p, lookup_cache) ((m, h), refl)
  | inr (e, p) ↦
      let off = element_of-AreOff owner id c.order e h p in
      let rest = unlink-AreOff owner id c.order h in
      rw (p, lookup_cache)
        (if-both
          (λ (r : Cache × Option Entry). IsOff owner (r.0) × (answers_on owner (r.1) ≡ false))
          (ltb now e.expires_at) _ _ ((m, (off, rest)), off) ((m, rest), refl))
]

disable_entry-keeps_off :
    (owner other : ℤ) (e : Entry)
    → is_on owner e ≡ false
    → is_on owner (disable_entry other e) ≡ false
disable_entry-keeps_off owner other (resolved conn) h = ground arith
disable_entry-keeps_off owner other unknown h = refl
disable_entry-keeps_off owner other (refused n) h = refl

disable_entry-off : (owner : ℤ) (e : Entry) → is_on owner (disable_entry owner e) ≡ false
disable_entry-off owner (resolved conn) = ground arith
disable_entry-off owner unknown = refl
disable_entry-off owner (refused n) = refl

disable_entries-keeps_off :
    (owner other : ℤ) (es : List CacheEntry)
    → AreOff owner es
    → AreOff owner (disable_entries other es)
unfolding disable_entries AreOff
disable_entries-keeps_off owner other [] h = tt
disable_entries-keeps_off owner other (e ∷ es) h =
    (disable_entry-keeps_off owner other e.entry h.0, disable_entries-keeps_off owner other es h.1)

disable_entries-off : (owner : ℤ) (es : List CacheEntry) → AreOff owner (disable_entries owner es)
unfolding disable_entries AreOff
disable_entries-off owner [] = tt
disable_entries-off owner (e ∷ es) = (disable_entry-off owner e.entry, disable_entries-off owner es)

insert-marked :
    (owner other : ℤ) (m : List (ℤ × Marker))
    → is_some (lookup owner m) ≡ true
    → is_some (lookup owner (insert other marked m)) ≡ true
insert-marked owner other m h = ground (arith, lookup-insert other owner marked m)

pub store-IsOff :
    (owner : ℤ) (conn : Connection) (now : ℕ) (c : Cache)
    → conn.owner == owner && conn.is_enabled ≡ false
    → IsOff owner c
    → IsOff owner (store conn now c)
unfolding store IsOff
store-IsOff owner conn now c off (m, h) = put_locked-IsOff owner conn.id (resolved conn) now _ off (
  ground (
    arith,
    int_beq_iff conn.owner owner,
    lookup-delete conn.owner owner c.disabled_owners,
    insert-marked owner conn.owner c.disabled_owners,
  ),
  h,
)

is_marked :
    (owner : ℤ) (c : Cache) → IsOff owner c → is_some (lookup owner c.disabled_owners) ≡ true
unfolding IsOff
is_marked owner c h = h.0

another :
    (owner other : ℤ) (c : Cache)
    → is_some (lookup other c.disabled_owners) ≡ false
    → is_some (lookup owner c.disabled_owners) ≡ true
    → other == owner ≡ false
another owner other c f h = ground (arith, int_beq_iff other owner)

pub store_db-IsOff :
    (owner : ℤ) (conn : Connection) (now : ℕ) (c : Cache)
    → IsOff owner c
    → IsOff owner (store_db conn now c)
unfolding store_db
store_db-IsOff owner conn now c h =
    let marked_here : is_some (lookup owner c.disabled_owners) ≡ true = is_marked owner c h in
    if-split (IsOff owner) (not conn.is_enabled) _ _
      (λ e. put_locked-IsOff owner conn.id _ now c (ground arith) h)
      λ e. if-both (IsOff owner) (holds_disabled (element_of conn.id c.order)) _ _ h (
        if-split (IsOff owner) (is_some (lookup conn.owner c.disabled_owners)) _ _
          (λ f. put_locked-IsOff owner conn.id _ now c (ground arith) h)
          λ f.
            put_locked-IsOff owner conn.id _ now c
              (ground
                (arith, int_beq_iff conn.owner owner, another owner conn.owner c f marked_here))
              h)

pub disable_owner-keeps_IsOff :
    (owner other : ℤ) (c : Cache) → IsOff owner c → IsOff owner (disable_owner other c)
unfolding disable_owner IsOff
disable_owner-keeps_IsOff owner other c h = (
  insert-marked owner other c.disabled_owners h.0,
  disable_entries-keeps_off owner other c.order h.1,
)

operate-IsOff :
    (owner : ℤ) (o : Operation) (c : Cache)
    → reconnects owner o ≡ false
    → IsOff owner c
    → IsOff owner (operate o c)
unfolding operate store_unknown store_refused disable_owner IsOff
operate-IsOff owner (lookup_op id now) c q h = (lookup_cache-IsOff owner id now c h).0
operate-IsOff owner (store_op conn now) c q h = store-IsOff owner conn now c q h
operate-IsOff owner (store_db_op conn now) c q h = store_db-IsOff owner conn now c h
operate-IsOff owner (store_unknown_op id now) c q h = put_locked-IsOff owner id unknown now c refl h
operate-IsOff owner (store_refused_op id n now) c q h =
    put_locked-IsOff owner id (refused n) now c refl h
operate-IsOff owner (disable_owner_op other) c q h = disable_owner-keeps_IsOff owner other c h

run-IsOff :
    (owner : ℤ) (os : List Operation) (c : Cache)
    → All (λ o. reconnects owner o ≡ false) os
    → IsOff owner c
    → IsOff owner (run os c)
unfolding run
run-IsOff owner [] c q h = h
run-IsOff owner (o ∷ os) c q h =
    run-IsOff owner os (operate o c) q.1 (operate-IsOff owner o c q.0 h)

pub disable_owner-IsOff : (owner : ℤ) (c : Cache) → IsOff owner (disable_owner owner c)
unfolding disable_owner IsOff
disable_owner-IsOff owner c = (
  ground (arith, lookup-insert owner owner marked c.disabled_owners, ==-refl owner),
  disable_entries-off owner c.order,
)

-- Once an owner has been disabled, and until Telegram reports an enabled connection of that owner,
-- no lookup of the cache answers an enabled connection of the owner: neither evictions, expiries,
-- refusals and other owners' operations in between, nor the storing of database rows of the owner
-- that were read as enabled, bring one back.
pub disable_owner-sticks :
    (owner : ℤ) (c : Cache) (os : List Operation) (id : String) (now : ℕ)
    → All (λ o. reconnects owner o ≡ false) os
    → answers_on owner (lookup_cache id now (run os (disable_owner owner c))).1 ≡ false
disable_owner-sticks owner c os id now q =
    (lookup_cache-IsOff owner id now _ (run-IsOff owner os _ q (disable_owner-IsOff owner c))).1
