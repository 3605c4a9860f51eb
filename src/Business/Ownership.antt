-- ===== src/Business/Ownership.antt =====
-- The table of connections under the service's steps: owners, refusals, memory and erasure.
use undelete.Base.{
  ◌≡◌, refl, ap, ◌∙◌, false, Option, none, some, List, [], ◌∷◌, arith, if◌then◌else◌, ◌==◌,
  string_comparable, Bool-cases, Option-cases, inl, inr, String, if-both,
}
use undelete.Base.Int.{ℤ, int_comparable}
use undelete.Base.Dict.{lookup, lookup-insert}
use undelete.Business.Cache.{Connection}
use undelete.Business.Service.{
  BusinessConnection, ConnectionRow, World, State, Result, ok, error, upsert_by_telegram_id,
  conflicts, write_connection, upsert_admitted, admitted, upsert_from_telegram, store_resolved,
  welcome, handle_business_connection, disable_rows, disable_connections, Step, resolve_step,
  handle_step, disable_step, step, steps,
}
use undelete.Business.Admission.{
  upsert_from_telegram-cases, resolve_from_api-cases, resolve_from_db-cases, resolve-cases,
}

abbrev pub row_owner : Option ConnectionRow → Option ℤ
row_owner none = none
row_owner (some row) = some row.owner

-- The owner that the table gives a connection.
abbrev pub owner_in : String → State → Option ℤ
owner_in id s = row_owner (lookup id s.connections)

write_connection-owner :
    (w : World) (conn : Connection) (s : State) (id : String) (owner : ℤ)
    → owner_in id s ≡ some owner
    → owner_in id (write_connection w conn s).0 ≡ some owner
unfolding write_connection conflicts
write_connection-owner w conn s id owner h = ground (
  arith,
  string_comparable.equals_iff conn.id id,
  lookup-insert conn.id id
      (record { owner = conn.owner; can_reply = conn.can_reply; is_enabled = conn.is_enabled })
      s.connections,
)

pub upsert_by_telegram_id-connections :
    (telegram : ℤ) (s : State) → (upsert_by_telegram_id telegram s).0.connections ≡ s.connections
unfolding upsert_by_telegram_id
upsert_by_telegram_id-connections telegram s = elim (Option-cases (lookup telegram s.users)) [
  | inl p ↦ rw (p, upsert_by_telegram_id) refl
  | inr (user, p) ↦ rw (p, upsert_by_telegram_id) refl
]

-- The row of the id still belongs to the owner after a step that answers.
abbrev Owns {ℓ} : {A : Type ℓ} → String → ℤ → State × A → Type 0
Owns id owner r = owner_in id (r.0) ≡ some owner

upsert_admitted-owner :
    (w : World) (tc : BusinessConnection) (s : State) (id : String) (owner : ℤ)
    → owner_in id s ≡ some owner
    → Owns id owner (upsert_admitted w tc s)
unfolding upsert_admitted
upsert_admitted-owner w tc s id owner h = if-both (Owns id owner) w.user_upsert_fails _ _ h (
    write_connection-owner w _ _ id owner
      (ap (λ c. row_owner (lookup id c)) (upsert_by_telegram_id-connections tc.user s) ∙ h))

admitted-owner :
    (id : String) (owner : ℤ) (r : State × Result Connection)
    → Owns id owner r
    → Owns id owner (admitted r)
admitted-owner id owner (s, ok conn) h = h
admitted-owner id owner (s, error e) h = h

stored-owner :
    (w : World) (key : String) (user : ℤ) (id : String) (owner : ℤ)
    (r : State × Result (Option Connection))
    → Owns id owner r
    → Owns id owner (store_resolved w key user r)
stored-owner w key user id owner (s, ok none) h = h
stored-owner w key user id owner (s, ok (some conn)) h = h
stored-owner w key user id owner (s, error e) h = h

welcome-owner :
    (w : World) (tc : BusinessConnection) (id : String) (owner : ℤ)
    (r : State × Result (Option Connection))
    → Owns id owner r
    → Owns id owner (welcome w tc r)
welcome-owner w tc id owner (s, ok none) h = h
welcome-owner w tc id owner (s, ok (some conn)) h =
    if-both (λ (x : State). owner_in id x ≡ some owner) conn.is_enabled _ _ h h
welcome-owner w tc id owner (s, error e) h = h

upsert_from_telegram-owner :
    (w : World) (tc : BusinessConnection) (s : State) (id : String) (owner : ℤ)
    → owner_in id s ≡ some owner
    → Owns id owner (upsert_from_telegram w tc s)
upsert_from_telegram-owner w tc s id owner h =
    upsert_from_telegram-cases w (Owns id owner) tc s h h
      λ e. admitted-owner id owner _ (upsert_admitted-owner w tc s id owner h)

-- The row of an id after the UPDATE of `DisableOwner`.
abbrev pub disabled_row : ℤ → Option ConnectionRow → Option ConnectionRow
disabled_row owner none = none
disabled_row owner (some row) =
    some (if row.owner == owner then record row { is_enabled = false } else row)

disabled_row-owner :
    (other owner : ℤ) (o : Option ConnectionRow)
    → row_owner o ≡ some owner
    → row_owner (disabled_row other o) ≡ some owner
disabled_row-owner other owner none e = e
disabled_row-owner other owner (some row) e = ground arith

pub disable_rows-lookup :
    (owner : ℤ) (id : String) (rows : List (String × ConnectionRow))
    → lookup id (disable_rows owner rows) ≡ disabled_row owner (lookup id rows)
unfolding disable_rows lookup
disable_rows-lookup owner id [] = refl
disable_rows-lookup owner id ((j, row) ∷ rows) = elim (Bool-cases (j == id)) [
  | inl b ↦ rw b refl
  | inr b ↦ rw b (disable_rows-lookup owner id rows)
]

disable_connections-owner :
    (w : World) (other : ℤ) (s : State) (id : String) (owner : ℤ)
    → owner_in id s ≡ some owner
    → Owns id owner (disable_connections w other s)
unfolding disable_connections
disable_connections-owner w other s id owner h = if-both (Owns id owner) w.update_fails _ _ h (
    ap row_owner (disable_rows-lookup other id s.connections)
    ∙ disabled_row-owner other owner (lookup id s.connections) h)

step-owner :
    (x : Step) (s : State) (id : String) (owner : ℤ)
    → owner_in id s ≡ some owner
    → owner_in id (step x s) ≡ some owner
unfolding step handle_business_connection
step-owner (resolve_step w key) s id owner h =
    resolve-cases w (Owns id owner) key s (λ c e. h) (λ c conn p a. h)
      λ c q.
        resolve_from_db-cases w (Owns id owner) key (record s { cache = c }) (λ d e. h)
          (λ d conn p a. h)
          λ p.
            resolve_from_api-cases w (Owns id owner) key (record s { cache = c }) (λ d e. h)
              λ tc.
                stored-owner w key tc.user id owner _ (upsert_from_telegram-owner w tc _ id owner h)
step-owner (handle_step w tc) s id owner h =
    welcome-owner w tc id owner _ (upsert_from_telegram-owner w tc s id owner h)
step-owner (disable_step w other) s id owner h = disable_connections-owner w other s id owner h

-- A Business connection never changes hands: once a row of the table gives it to an owner, the row is
-- there with that owner after any sequence of resolutions, connection updates and erasures, whatever
-- Telegram and the database answer.
pub steps-owner :
    (xs : List Step) (s : State) (id : String) (owner : ℤ)
    → owner_in id s ≡ some owner
    → owner_in id (steps xs s) ≡ some owner
unfolding steps
steps-owner [] s id owner h = h
steps-owner (x ∷ xs) s id owner h = steps-owner xs (step x s) id owner (step-owner x s id owner h)
