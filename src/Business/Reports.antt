-- ===== src/Business/Reports.antt =====
-- The upsert of a reported connection, when no row and no entry is an enabled one of an erased owner.
use undelete.Base.{
  ◌≡◌, refl, sym, subst, Bool, false, ◌&&◌, Option, none, some, List, [], ◌∷◌, arith, ◌==◌,
  string_comparable, Option-cases, inl, inr, String, if-both,
}
use undelete.Base.Int.{ℤ, int_comparable}
use undelete.Base.Dict.{lookup, insert, lookup-insert}
use undelete.Business.Cache.{Connection, Cache}
use undelete.Business.Service.{
  BusinessConnection, can_reply, ConnectionRow, transport_error, api_error, connection, World,
  State, Result, ok, error, joined, telegram_id_of, scan_row, get_from_db, upsert_by_telegram_id,
  write_connection, upsert_admitted, admitted, upsert_from_telegram, conflicts, Step, resolve_step,
  handle_step, disable_step, step, user_upsert_failed,
}
use undelete.Business.Admission.{upsert_from_telegram-cases}
use undelete.Business.Ownership.{upsert_by_telegram_id-connections}
use undelete.Business.Disabled.{IsOff}

-- An enabled connection of the owner.
abbrev pub is_live : ℤ → Connection → Bool
is_live owner conn = conn.owner == owner && conn.is_enabled

-- `Resolve` answers an enabled connection of the owner.
abbrev pub answers_enabled : ℤ → Result Connection → Bool
answers_enabled owner (ok conn) = is_live owner conn
answers_enabled owner (error e) = false

-- Telegram reports an enabled connection, of a user whom the table maps to the owner.
abbrev pub enables : ℤ → BusinessConnection → State → Bool
enables owner tc s = tc.is_enabled && ((upsert_by_telegram_id tc.user s).1 == owner)

-- The step has Telegram report an enabled connection of the owner: an update, or the answer for an id
-- that the database does not know.
abbrev pub returns : ℤ → Step → State → Bool
returns owner (resolve_step w id) s = elim (get_from_db id s) [
  | some conn ↦ false
  | none ↦ elim w.api [
    | transport_error ↦ false
    | api_error code ↦ false
    | connection tc ↦ enables owner tc s
  ]
]
returns owner (handle_step w tc) s = enables owner tc s
returns owner (disable_step w other) s = false

-- None of the steps does, each in the state that it meets.
abbrev pub Quiet : ℤ → List Step → State → Type 0
Quiet owner [] s = Unit
Quiet owner (x ∷ xs) s = (returns owner x s ≡ false) × Quiet owner xs (step x s)

abbrev pub row_on : ℤ → Option ConnectionRow → Bool
row_on owner none = false
row_on owner (some row) = row.owner == owner && row.is_enabled

-- No row and no entry of the cache is an enabled connection of the owner, who is marked.
abbrev pub IsErased : ℤ → State → Type 0
IsErased owner s =
    ((id : String) → row_on owner (lookup id s.connections) ≡ false) × IsOff owner s.cache

abbrev pub Calm : ℤ → State × Result Connection → Type 0
Calm owner r = IsErased owner r.0 × (answers_enabled owner r.1 ≡ false)

module _ (owner : ℤ) where
  pub get_from_db-off :
      (id : String) (s : State) (conn : Connection)
      → row_on owner (lookup id s.connections) ≡ false
      → get_from_db id s ≡ some conn
      → is_live owner conn ≡ false
  unfolding get_from_db scan_row joined
  get_from_db-off id s conn h = go (lookup id s.connections) h
    where
      read :
          (row : ConnectionRow) (n : Option ℤ)
          → row.owner == owner && row.is_enabled ≡ false
          → joined id row n ≡ some conn
          → is_live owner conn ≡ false
      read row none h e = cc
      read row (some n) h e = ground (arith, h, e)

      go :
          (o : Option ConnectionRow)
          → row_on owner o ≡ false
          → scan_row id s.users o ≡ some conn
          → is_live owner conn ≡ false
      go none h e = cc
      go (some row) h e = read row (telegram_id_of row.owner s.users) h e

  pub user-same :
      (telegram : ℤ) (s : State) (c : Cache) (asked : List String)
      → (upsert_by_telegram_id telegram (record s { cache = c; asked = asked })).1
        ≡ (upsert_by_telegram_id telegram s).1
  unfolding upsert_by_telegram_id
  user-same telegram s c asked = elim (Option-cases (lookup telegram s.users)) [
    | inl p ↦ rw (p, upsert_by_telegram_id) refl
    | inr (user, p) ↦ rw (p, upsert_by_telegram_id) refl
  ]

  upsert_by_telegram_id-cache :
      (telegram : ℤ) (s : State) → (upsert_by_telegram_id telegram s).0.cache ≡ s.cache
  unfolding upsert_by_telegram_id
  upsert_by_telegram_id-cache telegram s = elim (Option-cases (lookup telegram s.users)) [
    | inl p ↦ rw (p, upsert_by_telegram_id) refl
    | inr (user, p) ↦ rw (p, upsert_by_telegram_id) refl
  ]

  write_connection-Calm :
      (w : World) (conn : Connection) (s : State)
      → is_live owner conn ≡ false
      → IsErased owner s
      → Calm owner (write_connection w conn s)
  unfolding write_connection
  write_connection-Calm w conn s off h =
      if-both (Calm owner) w.upsert_fails _ _ (h, refl)
        (if-both (Calm owner) (conflicts conn.owner (lookup conn.id s.connections)) _ _ (h, refl)
          ((λ id. written id, h.1), off))
    where
      written :
          (id : String)
          → row_on owner (
              lookup id (
                insert conn.id
                  (record {
                    owner = conn.owner;
                    can_reply = conn.can_reply;
                    is_enabled = conn.is_enabled;
                  })
                  s.connections))
            ≡ false
      written id =
          rw
            (lookup-insert conn.id id
              (record {
                owner = conn.owner;
                can_reply = conn.can_reply;
                is_enabled = conn.is_enabled;
              })
              s.connections)
            (if-both (λ o. row_on owner o ≡ false) (conn.id == id) _ _ off (h.0 id))

  upsert_admitted-Calm :
      (w : World) (tc : BusinessConnection) (s : State)
      → enables owner tc s ≡ false
      → IsErased owner s
      → Calm owner (upsert_admitted w tc s)
  unfolding upsert_admitted
  upsert_admitted-Calm w tc s quiet h =
      let kept : IsErased owner (upsert_by_telegram_id tc.user s).0 = (
        λ id.
            subst (λ rows. row_on owner (lookup id rows) ≡ false)
              (sym (upsert_by_telegram_id-connections tc.user s)) (h.0 id),
        subst (IsOff owner) (sym (upsert_by_telegram_id-cache tc.user s)) h.1,
      ) in
      let t = (upsert_by_telegram_id tc.user s).0 in
      let conn : Connection = record {
        id = tc.id;
        owner = (upsert_by_telegram_id tc.user s).1;
        owner_telegram = tc.user;
        can_reply = can_reply tc;
        is_enabled = tc.is_enabled;
      } in
      let off : is_live owner conn ≡ false = ground (arith, quiet) in
      if-both (Calm owner) w.user_upsert_fails (s, error user_upsert_failed)
        (write_connection w conn t) (h, refl) (write_connection-Calm w conn t off kept)

  -- What the upsert hands on to be stored in the cache.
  abbrev pub Handed : State × Result (Option Connection) → Type 0
  Handed (s, error e) = IsErased owner s
  Handed (s, ok none) = IsErased owner s
  Handed (s, ok (some conn)) = IsErased owner s × (is_live owner conn ≡ false)

  admitted-Handed : (r : State × Result Connection) → Calm owner r → Handed (admitted r)
  admitted-Handed (s, ok conn) h = h
  admitted-Handed (s, error e) h = h.0

  pub upsert_from_telegram-Handed :
      (w : World) (tc : BusinessConnection) (s : State)
      → enables owner tc s ≡ false
      → IsErased owner s
      → Handed (upsert_from_telegram w tc s)
  upsert_from_telegram-Handed w tc s quiet h =
      upsert_from_telegram-cases w Handed tc s h h
        (λ e. admitted-Handed (upsert_admitted w tc s) (upsert_admitted-Calm w tc s quiet h))
