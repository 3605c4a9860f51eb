-- ===== src/Business/Memory.antt =====
-- What a resolution answers after a revocation.
use undelete.Base.{
  ℕ, ◌+◌, ◌≤◌, ◌<◌, ◌≡◌, refl, ◌∙◌, false, none, some, ◌∷◌, arith, ◌==◌, string_comparable,
  Option-cases, inl, inr, String, lt→ltb,
}
use undelete.Base.Int.{pos, int_comparable}
use undelete.Business.Cache.{unknown, Cache, element_of, lookup_cache, store_unknown}
use undelete.Business.Service.{
  api_error, World, State, connection_unknown, error, get_from_db, resolve_from_api,
  resolve_from_db, resolve_entry, resolve,
}
use undelete.Business.Order.{put_locked-lookup}

lookup_cache-config :
    (id : String) (now : ℕ) (c : Cache)
    → ((lookup_cache id now c).0.ttl ≡ c.ttl) × ((lookup_cache id now c).0.max ≡ c.max)
unfolding lookup_cache
lookup_cache-config id now c = elim (Option-cases (element_of id c.order)) [
  | inl p ↦ rw (p, lookup_cache) (refl, refl)
  | inr (e, p) ↦ ground arith
]

-- What `Resolve` does when only the API is left and answers a 400.
resolve-revoked :
    (w : World) (id : String) (s : State)
    → id == "" ≡ false
    → (lookup_cache id w.now s.cache).1 ≡ none
    → w.read_fails ≡ false
    → get_from_db id s ≡ none
    → w.api ≡ api_error (pos 400)
    → resolve w id s ≡ (
      record s {
        cache = store_unknown id w.now (lookup_cache id w.now s.cache).0;
        asked = id ∷ s.asked;
      },
      error connection_unknown,
    )
unfolding resolve resolve_entry resolve_from_db resolve_from_api get_from_db
resolve-revoked w id s named fresh reads absent revoked =
    rw (named, fresh, resolve_entry, resolve_from_db, reads, absent, resolve_from_api, revoked) refl

resolve-unknown :
    (w : World) (id : String) (s : State)
    → id == "" ≡ false
    → (lookup_cache id w.now s.cache).1 ≡ some unknown
    → resolve w id s
      ≡ (record s { cache = (lookup_cache id w.now s.cache).0 }, error connection_unknown)
unfolding resolve resolve_entry
resolve-unknown w id s named held = rw (named, held) refl

-- A revoked connection costs one call of the API: when neither the cache nor the database knows an id
-- and Telegram answers 400 for it, `Resolve` refuses it as unknown, and until the time to live has
-- passed the next `Resolve` refuses it again without asking Telegram or changing a table, whatever the
-- database and Telegram would answer by then.
pub resolve-asks_once :
    (w later : World) (id : String) (s : State)
    → id == "" ≡ false
    → (lookup_cache id w.now s.cache).1 ≡ none
    → w.read_fails ≡ false
    → get_from_db id s ≡ none
    → w.api ≡ api_error (pos 400)
    → 1 ≤ s.cache.max
    → later.now < w.now + s.cache.ttl
    → let first = resolve w id s in
      let second = resolve later id first.0 in
      (first.1 ≡ error connection_unknown)
      × (second.1 ≡ error connection_unknown)
      × (second.0.asked ≡ id ∷ s.asked)
      × (second.0.connections ≡ s.connections)
      × (second.0.users ≡ s.users)
unfolding store_unknown
resolve-asks_once w later id s named fresh reads absent revoked room soon =
    let config = lookup_cache-config id w.now s.cache in
    let c = (lookup_cache id w.now s.cache).0 in
    let first = resolve-revoked w id s named fresh reads absent revoked in
    let t : State = record s { cache = store_unknown id w.now c; asked = id ∷ s.asked } in
    let held : (lookup_cache id later.now t.cache).1 ≡ some unknown =
      put_locked-lookup id unknown w.now later.now c (omega (arith, config.1))
      ∙ rw (lt→ltb later.now (w.now + c.ttl) (omega (arith, config.0, soon))) refl in
    let second = resolve-unknown later id t named held in
    rw (first, second) (refl, refl, refl, refl, refl)
