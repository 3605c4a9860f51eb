-- ===== src/Business/Order.antt =====
-- The bound of the connection cache, its distinct ids and what a lookup answers.
use undelete.Base.{
  ℕ, suc, ◌+◌, ◌≤◌, ◌≡◌, ◌≢◌, refl, sym, ap, subst, true, false, not, Option, none, some, List, [],
  ◌∷◌, arith, if◌then◌else◌, ltb, ◌==◌, string_comparable, length, is_some, Bool-cases,
  Option-cases, inl, inr, String, if-both, ==-refl, All,
}
use undelete.Base.Int.{ℤ}
use undelete.Business.Cache.{
  Entry, CacheEntry, Cache, new_connection_cache, element_of, unlink, drop_back, lookup_cache,
  evict, put_locked, store, store_db, store_unknown, store_refused, disable_entries, disable_owner,
  Operation, lookup_op, store_op, store_db_op, store_unknown_op, store_refused_op, disable_owner_op,
  operate, run, holds_disabled,
}

-- No entry of the list has the id.
abbrev pub IsAbsent : String → List CacheEntry → Type 0
IsAbsent id es = All (λ e. e.id ≢ id) es

-- The ids are pairwise distinct.
abbrev pub AreDistinct : List CacheEntry → Type 0
AreDistinct [] = Unit
AreDistinct (e ∷ es) = IsAbsent e.id es × AreDistinct es

-- The list holds at most `max` entries, of distinct ids.
abbrev pub IsBounded : Cache → Type 0
IsBounded c = (length c.order ≤ c.max) × AreDistinct c.order

unlink-All :
    (P : CacheEntry → Type 0) (id : String) (es : List CacheEntry) → All P es → All P (unlink id es)
unfolding unlink
unlink-All P id [] h = tt
unlink-All P id (e ∷ es) h = elim (Bool-cases (e.id == id)) [
  | inl b ↦ rw b (unlink-All P id es h.1)
  | inr b ↦ rw b (h.0, unlink-All P id es h.1)
]

unlink-AreDistinct :
    (id : String) (es : List CacheEntry) → AreDistinct es → AreDistinct (unlink id es)
unfolding unlink
unlink-AreDistinct id [] h = tt
unlink-AreDistinct id (e ∷ es) h = elim (Bool-cases (e.id == id)) [
  | inl b ↦ rw b (unlink-AreDistinct id es h.1)
  | inr b ↦ rw b (unlink-All _ id es h.0, unlink-AreDistinct id es h.1)
]

unlink-IsAbsent : (id : String) (es : List CacheEntry) → IsAbsent id (unlink id es)
unfolding unlink
unlink-IsAbsent id [] = tt
unlink-IsAbsent id (e ∷ es) = elim (Bool-cases (e.id == id)) [
  | inl b ↦ rw b (unlink-IsAbsent id es)
  | inr b ↦ rw b (ground (arith, string_comparable.equals_iff e.id id), unlink-IsAbsent id es)
]

length-unlink-le : (id : String) (es : List CacheEntry) → length (unlink id es) ≤ length es
unfolding unlink
length-unlink-le id [] = omega arith
length-unlink-le id (e ∷ es) = ground (arith, length-unlink-le id es)

length-unlink-lt :
    (id : String) (es : List CacheEntry)
    → is_some (element_of id es) ≡ true
    → suc (length (unlink id es)) ≤ length es
unfolding unlink element_of
length-unlink-lt id [] h = cc
length-unlink-lt id (e ∷ es) h = ground (arith, length-unlink-le id es, length-unlink-lt id es)

element_of-id :
    (id : String) (es : List CacheEntry) (e : CacheEntry) → element_of id es ≡ some e → e.id ≡ id
unfolding element_of
element_of-id id [] e h = cc
element_of-id id (f ∷ es) e h =
    ground (arith, element_of-id id es e, string_comparable.equals_iff f.id id)

element_of-none :
    (id : String) (es : List CacheEntry) → is_some (element_of id es) ≡ false → IsAbsent id es
unfolding element_of
element_of-none id [] h = tt
element_of-none id (e ∷ es) h = elim (Bool-cases (e.id == id)) [
  | inl b ↦ absurd (ground arith)
  | inr b ↦
      (ground (arith, string_comparable.equals_iff e.id id), element_of-none id es (rw b at h))
]

drop_back-All : (P : CacheEntry → Type 0) (es : List CacheEntry) → All P es → All P (drop_back es)
unfolding drop_back
drop_back-All P [] h = tt
drop_back-All P (e ∷ []) h = tt
drop_back-All P (e ∷ f ∷ es) h = (h.0, drop_back-All P (f ∷ es) h.1)

drop_back-AreDistinct : (es : List CacheEntry) → AreDistinct es → AreDistinct (drop_back es)
unfolding drop_back
drop_back-AreDistinct [] h = tt
drop_back-AreDistinct (e ∷ []) h = tt
drop_back-AreDistinct (e ∷ f ∷ es) h =
    (drop_back-All _ (f ∷ es) h.0, drop_back-AreDistinct (f ∷ es) h.1)

length-drop_back : (e : CacheEntry) (es : List CacheEntry) → length (drop_back (e ∷ es)) ≡ length es
unfolding drop_back
length-drop_back e [] = refl
length-drop_back e (f ∷ es) = ap suc (length-drop_back f es)

-- The entries of an operation that changes the recency list.
pub put_locked-IsBounded :
    (id : String) (entry : Entry) (now : ℕ) (c : Cache)
    → IsBounded c
    → IsBounded (put_locked id entry now c)
unfolding put_locked evict
put_locked-IsBounded id entry now c (b, d) = elim (Bool-cases (is_some (element_of id c.order))) [
  | inl p ↦ rw p (
    ground (arith, length-unlink-lt id c.order),
    (unlink-IsAbsent id c.order, unlink-AreDistinct id c.order d),
  )
  | inr p ↦
      let e : CacheEntry = record { id = id; entry = entry; expires_at = now + c.ttl } in
      let fresh : AreDistinct (e ∷ c.order) = (element_of-none id c.order p, d) in
      rw p (
        ground (arith, length-drop_back e c.order),
        if-both AreDistinct (ltb c.max (length (e ∷ c.order))) _ _
            (drop_back-AreDistinct (e ∷ c.order) fresh) fresh,
      )
]

lookup_cache-IsBounded :
    (id : String) (now : ℕ) (c : Cache) → IsBounded c → IsBounded (lookup_cache id now c).0
unfolding lookup_cache
lookup_cache-IsBounded id now c (b, d) = elim (Option-cases (element_of id c.order)) [
  | inl p ↦ rw (p, lookup_cache) (b, d)
  | inr (e, p) ↦
      let distinct = unlink-AreDistinct id c.order d in
      let absent =
        subst (λ x. IsAbsent x (unlink id c.order)) (sym (element_of-id id c.order e p))
          (unlink-IsAbsent id c.order) in
      let smaller = length-unlink-lt id c.order (rw p) in
      rw (p, lookup_cache)
        (if-both (λ (r : Cache × Option Entry). IsBounded (r.0)) (ltb now e.expires_at) _ _
          (omega (arith, smaller), (absent, distinct)) (omega (arith, smaller), distinct))
]

disable_entries-IsAbsent :
    (owner : ℤ) (id : String) (es : List CacheEntry)
    → IsAbsent id es
    → IsAbsent id (disable_entries owner es)
unfolding disable_entries
disable_entries-IsAbsent owner id [] h = tt
disable_entries-IsAbsent owner id (e ∷ es) h = (h.0, disable_entries-IsAbsent owner id es h.1)

disable_entries-AreDistinct :
    (owner : ℤ) (es : List CacheEntry) → AreDistinct es → AreDistinct (disable_entries owner es)
unfolding disable_entries
disable_entries-AreDistinct owner [] h = tt
disable_entries-AreDistinct owner (e ∷ es) h =
    (disable_entries-IsAbsent owner e.id es h.0, disable_entries-AreDistinct owner es h.1)

length-disable_entries :
    (owner : ℤ) (es : List CacheEntry) → length (disable_entries owner es) ≡ length es
unfolding disable_entries
length-disable_entries owner [] = refl
length-disable_entries owner (e ∷ es) = ap suc (length-disable_entries owner es)

operate-IsBounded : (o : Operation) (c : Cache) → IsBounded c → IsBounded (operate o c)
unfolding operate store store_db store_unknown store_refused disable_owner
operate-IsBounded (lookup_op id now) c h = lookup_cache-IsBounded id now c h
operate-IsBounded (store_op conn now) c h = put_locked-IsBounded conn.id _ now _ h
operate-IsBounded (store_db_op conn now) c h =
    if-both IsBounded (not conn.is_enabled) _ _ (put_locked-IsBounded conn.id _ now c h) (
      if-both IsBounded (holds_disabled (element_of conn.id c.order)) _ _ h (
        if-both IsBounded _ _ _ (put_locked-IsBounded conn.id _ now c h)
          (put_locked-IsBounded conn.id _ now c h)))
operate-IsBounded (store_unknown_op id now) c h = put_locked-IsBounded id _ now c h
operate-IsBounded (store_refused_op id n now) c h = put_locked-IsBounded id _ now c h
operate-IsBounded (disable_owner_op owner) c (b, d) =
    (rw (length-disable_entries owner c.order) b, disable_entries-AreDistinct owner c.order d)

run-IsBounded : (os : List Operation) (c : Cache) → IsBounded c → IsBounded (run os c)
unfolding run
run-IsBounded [] c h = h
run-IsBounded (o ∷ os) c h = run-IsBounded os (operate o c) (operate-IsBounded o c h)

-- After any sequence of operations on a new cache, whatever its time to live and its maximum, the
-- cache holds at most the maximum number of entries, and no two entries of one id.
pub run-new-IsBounded :
    (ttl max : ℕ) (os : List Operation) → IsBounded (run os (new_connection_cache ttl max))
unfolding new_connection_cache
run-new-IsBounded ttl max os = run-IsBounded os (new_connection_cache ttl max) (omega arith, tt)

evict-front :
    (max : ℕ) (e : CacheEntry) (es : List CacheEntry)
    → 1 ≤ max
    → (rest : List CacheEntry) × (evict max (e ∷ es) ≡ e ∷ rest)
unfolding evict drop_back
evict-front max e [] h = ([], ground arith)
evict-front max e (f ∷ es) h = elim (Bool-cases (ltb max (length (e ∷ f ∷ es)))) [
  | inl b ↦ (drop_back (f ∷ es), rw b refl)
  | inr b ↦ (f ∷ es, rw b refl)
]

lookup-front :
    (id : String) (now : ℕ) (c : Cache) (e : CacheEntry) (es : List CacheEntry)
    → c.order ≡ e ∷ es
    → e.id ≡ id
    → (lookup_cache id now c).1 ≡ (if ltb now e.expires_at then some e.entry else none)
unfolding lookup_cache element_of
lookup-front id now c e es p q =
    let found : element_of id c.order ≡ some e = rw (p, q, ==-refl id) in
    rw (found, lookup_cache) (ground arith)

-- In a cache of at least one entry, what was put under an id is what a lookup of the id answers
-- until the time to live has passed, and from that instant on the lookup answers nothing.
pub put_locked-lookup :
    (id : String) (entry : Entry) (now later : ℕ) (c : Cache)
    → 1 ≤ c.max
    → (lookup_cache id later (put_locked id entry now c)).1
      ≡ (if ltb later (now + c.ttl) then some entry else none)
unfolding put_locked
put_locked-lookup id entry now later c h =
    let e : CacheEntry = record { id = id; entry = entry; expires_at = now + c.ttl } in
    elim (Bool-cases (is_some (element_of id c.order))) [
      | inl p ↦ rw (p, put_locked) (lookup-front id later _ e _ refl refl)
      | inr p ↦
          let (rest, q) = evict-front c.max e c.order h in
          rw (p, put_locked) (lookup-front id later _ e rest q refl)
    ]
