-- ===== src/Business/Admission.antt =====
-- What the resolution of connections promises: admission, ownership, memory and erasure.
use undelete.Base.{
  ◌≡◌, refl, Bool, true, ◌||◌, Option, none, some, List, ◌∷◌, arith, ◌==◌, string_comparable,
  Option-cases, inl, inr, String, if-both, if-split,
}
use undelete.Base.Int.{ℤ, pos, int_comparable, int_beq}
use undelete.Business.Cache.{Connection, Entry, resolved, unknown, refused, Cache, lookup_cache}
use undelete.Business.Service.{
  BusinessConnection, ApiAnswer, connection, api_error, transport_error, World, State, ServiceError,
  empty_id, invalid_connection, read_failed, Result, ok, error, owner_allowed, get_from_db,
  write_connection, upsert_admitted, admitted, upsert_from_telegram, store_resolved,
  resolve_from_api, resolve_from_db, resolve_entry, resolve,
}

-- A connection that is answered belongs to a holder whom the allowlist admits.
abbrev pub answers_admitted : List ℤ → Result Connection → Bool
answers_admitted allowed (ok conn) = owner_allowed allowed conn.owner_telegram
answers_admitted allowed (error e) = true

upsert_admitted-holder :
    (w : World) (tc : BusinessConnection) (s : State) (allowed : List ℤ)
    → owner_allowed allowed tc.user ≡ true
    → answers_admitted allowed (upsert_admitted w tc s).1 ≡ true
unfolding upsert_admitted write_connection
upsert_admitted-holder w tc s allowed h = ground (arith)

stored-admitted :
    (w : World) (id : String) (user : ℤ) (allowed : List ℤ) (r : State × Result Connection)
    → answers_admitted allowed r.1 ≡ true
    → answers_admitted allowed (store_resolved w id user (admitted r)).1 ≡ true
stored-admitted w id user allowed (s, ok conn) h = h
stored-admitted w id user allowed (s, error e) h = refl

-- The outcomes of the operations, one by one.
module _ (w : World) where
  pub upsert_from_telegram-cases :
      (Q : State × Result (Option Connection) → Type 0) (tc : BusinessConnection) (s : State)
      → Q (s, error invalid_connection)
      → Q (s, ok none)
      → (owner_allowed s.allowed tc.user ≡ true → Q (admitted (upsert_admitted w tc s)))
      → Q (upsert_from_telegram w tc s)
  unfolding upsert_from_telegram
  upsert_from_telegram-cases Q tc s invalid stranger written =
      if-both Q (tc.id == "" || int_beq tc.user (pos 0)) _ _ invalid
        (if-split Q (owner_allowed s.allowed tc.user) _ _ written (λ e. stranger))

  module _ (Q : State × Result Connection → Type 0) (id : String) where
    pub resolve_from_api-cases :
        (s : State)
        → ((c : Cache) (e : ServiceError)
            → Q (record s { cache = c; asked = id ∷ s.asked }, error e))
        → ((tc : BusinessConnection)
            → Q (
                store_resolved w id tc.user
                  (upsert_from_telegram w tc (record s { asked = id ∷ s.asked }))))
        → Q (resolve_from_api w id s)
    unfolding resolve_from_api
    resolve_from_api-cases s failed stored = go w.api refl
      where
        go : (a : ApiAnswer) → w.api ≡ a → Q (resolve_from_api w id s)
        go transport_error p = rw (p, resolve_from_api) (failed _ _)
        go (api_error code) p =
            rw (p, resolve_from_api)
              (if-both Q (int_beq code (pos 400)) _ _ (failed _ _) (failed _ _))
        go (connection tc) p =
            rw (p, resolve_from_api) (if-both Q (tc.id == id) _ _ (stored tc) (failed _ _))

    pub resolve_from_db-cases :
        (s : State)
        → ((c : Cache) (e : ServiceError) → Q (record s { cache = c }, error e))
        → ((c : Cache) (conn : Connection)
            → get_from_db id s ≡ some conn
            → owner_allowed s.allowed conn.owner_telegram ≡ true
            → Q (record s { cache = c }, ok conn))
        → (get_from_db id s ≡ none → Q (resolve_from_api w id s))
        → Q (resolve_from_db w id s)
    unfolding resolve_from_db
    resolve_from_db-cases s failed found asked =
        if-both Q w.read_fails _ _ (failed s.cache read_failed)
          (elim (Option-cases (get_from_db id s)) [
            | inl p ↦ rw p (asked p)
            | inr (conn, p) ↦ rw p (
                if-split Q (owner_allowed s.allowed conn.owner_telegram) _ _ (found _ conn p)
                  (λ e. failed _ _))
          ])

    pub resolve-cases :
        (s : State)
        → ((c : Cache) (e : ServiceError) → Q (record s { cache = c }, error e))
        → ((c : Cache) (conn : Connection)
            → (lookup_cache id w.now s.cache).1 ≡ some (resolved conn)
            → owner_allowed s.allowed conn.owner_telegram ≡ true
            → Q (record s { cache = c }, ok conn))
        → ((c : Cache)
            → c ≡ (lookup_cache id w.now s.cache).0
            → Q (resolve_from_db w id (record s { cache = c })))
        → Q (resolve w id s)
    unfolding resolve resolve_entry
    resolve-cases s failed memo read =
        if-both Q (id == "") _ _ (failed s.cache empty_id)
          (go (lookup_cache id w.now s.cache).1 refl)
      where
        go :
            (o : Option Entry)
            → (lookup_cache id w.now s.cache).1 ≡ o
            → Q (resolve_entry w id (record s { cache = (lookup_cache id w.now s.cache).0 }) o)
        go none p = read _ refl
        go (some unknown) p = failed _ _
        go (some (refused n)) p =
            if-both Q (owner_allowed s.allowed n) _ _ (read _ refl) (failed _ _)
        go (some (resolved conn)) p =
            if-split Q (owner_allowed s.allowed conn.owner_telegram) _ _ (memo _ conn p)
              (λ e. failed _ _)

-- A connection that `Resolve` answers, from the cache, the database or the API, belongs to a holder
-- whom the allowlist admits, historical rows and memoised entries included.
pub resolve-admitted :
    (w : World) (id : String) (s : State) → answers_admitted s.allowed (resolve w id s).1 ≡ true
resolve-admitted w id s =
    let allows = λ (r : State × Result Connection). answers_admitted s.allowed (r.1) ≡ true in
    resolve-cases w allows id s (λ c e. refl) (λ c conn p h. h)
      λ c q.
        resolve_from_db-cases w allows id (record s { cache = c }) (λ d e. refl) (λ d conn p h. h)
          λ p.
            resolve_from_api-cases w allows id (record s { cache = c }) (λ d e. refl)
              λ tc.
                upsert_from_telegram-cases w (λ r. allows (store_resolved w id tc.user r)) tc _ refl
                  refl
                  λ h.
                    stored-admitted w id tc.user s.allowed _
                      (upsert_admitted-holder w tc _ s.allowed h)
