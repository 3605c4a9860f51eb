-- ===== src/Business/Service.antt =====
-- bot/internal/business/service.go: resolution, connection updates and the disabling of an owner;
-- bot/internal/users/repository.go: UpsertByTelegramID. The tables `business_connections` and
-- `users` are association lists; what the database and the Telegram API answer to one call, and
-- the reading of the clock, are the fields of `World`. Log lines and message texts are left out.
use undelete.Base.{
  ℕ, suc, Bool, true, false, ◌&&◌, ◌||◌, not, Option, none, some, List, [], ◌∷◌, if◌then◌else◌,
  String, ◌==◌, string_comparable, nat_comparable,
}
use undelete.Base.Int.{ℤ, pos, int_comparable, int_beq}
use undelete.Base.Dict.{lookup, insert}
use undelete.Business.Cache.{
  Connection, Entry, resolved, unknown, refused, Cache, lookup_cache, store, store_db,
  store_unknown, store_refused, disable_owner,
}

-- `BusinessConnection` of telegram/types.go; `rights` is `Rights.CanReply` behind its pointer.
pub record BusinessConnection : Type 0 where
  pub id : String
  pub user : ℤ
  pub user_chat : ℤ
  pub is_enabled : Bool
  pub rights : Option Bool
  pub can_reply_legacy : Bool

unfoldable pub can_reply : BusinessConnection → Bool
can_reply tc = elim tc.rights [ some r ↦ r | none ↦ tc.can_reply_legacy ]

-- A row of `business_connections` under its id.
pub record ConnectionRow : Type 0 where
  pub owner : ℤ
  pub can_reply : Bool
  pub is_enabled : Bool

-- What Telegram answers to getBusinessConnection: a connection, an APIError by its code, or
-- another failure.
pub data ApiAnswer : Type 0 where
  connection : BusinessConnection → ApiAnswer
  api_error : ℤ → ApiAnswer
  transport_error : ApiAnswer

pub record World : Type 0 where
  pub now : ℕ
  pub read_fails : Bool
  pub user_upsert_fails : Bool
  pub upsert_fails : Bool
  pub update_fails : Bool
  pub api : ApiAnswer

-- The service's cache and allowlist, the tables, and the calls made to Telegram, the last one first.
pub record State : Type 0 where
  pub allowed : List ℤ
  pub cache : Cache
  pub connections : List (String × ConnectionRow)
  pub users : List (ℤ × ℤ)
  pub next_user : ℕ
  pub asked : List String
  pub welcomed : List (ℤ × ℤ)

pub data ServiceError : Type 0 where
  empty_id connection_unknown owner_not_allowed owner_conflict : ServiceError
  read_failed api_failed wrong_answer invalid_connection : ServiceError
  user_upsert_failed upsert_failed disable_failed : ServiceError

pub data Result {ℓ} (A : Type ℓ) : Type ℓ where
  ok : A → Result A
  error : ServiceError → Result A

abbrev pub mem : ℤ → List ℤ → Bool
mem n [] = false
mem n (m ∷ ms) = m == n || mem n ms

unfoldable pub owner_allowed : List ℤ → ℤ → Bool
owner_allowed [] n = true
owner_allowed (m ∷ ms) n = mem n (m ∷ ms)

-- The join of `getFromDB`: the Telegram id of a user's row.
unfoldable pub telegram_id_of : ℤ → List (ℤ × ℤ) → Option ℤ
telegram_id_of user [] = none
telegram_id_of user ((telegram, id) ∷ us) =
    let rest = telegram_id_of user us in if id == user then some telegram else rest

unfoldable pub joined : String → ConnectionRow → Option ℤ → Option Connection
joined id row none = none
joined id row (some telegram) = some (record {
  id = id;
  owner = row.owner;
  owner_telegram = telegram;
  can_reply = row.can_reply;
  is_enabled = row.is_enabled;
})

unfoldable pub scan_row : String → List (ℤ × ℤ) → Option ConnectionRow → Option Connection
scan_row id users none = none
scan_row id users (some row) = joined id row (telegram_id_of row.owner users)

unfoldable pub get_from_db : String → State → Option Connection
get_from_db id s = scan_row id s.users (lookup id s.connections)

-- `UpsertByTelegramID`: the id of the row, new or not.
unfoldable pub upsert_by_telegram_id : ℤ → State → State × ℤ
upsert_by_telegram_id telegram s = elim (lookup telegram s.users) [
  | some user ↦ (s, user)
  | none ↦ (
    record s { users = insert telegram (pos s.next_user) s.users; next_user = suc s.next_user },
    pos s.next_user,
  )
]

-- The row in the way of an INSERT belongs to another owner.
unfoldable pub conflicts : ℤ → Option ConnectionRow → Bool
conflicts owner none = false
conflicts owner (some row) = not (row.owner == owner)

-- The INSERT with its conflict clause.
unfoldable pub write_connection : World → Connection → State → State × Result Connection
write_connection w conn s =
    if w.upsert_fails
    then (s, error upsert_failed)
    else (if conflicts conn.owner (lookup conn.id s.connections)
        then (s, error owner_conflict)
        else (
          record s {
            connections =
                insert conn.id
                  (record {
                    owner = conn.owner;
                    can_reply = conn.can_reply;
                    is_enabled = conn.is_enabled;
                  })
                  s.connections;
          },
          ok conn,
        ))

-- `upsertFromTelegram` past the allowlist.
unfoldable pub upsert_admitted : World → BusinessConnection → State → State × Result Connection
upsert_admitted w tc s =
    let (s', user) = upsert_by_telegram_id tc.user s in
    if w.user_upsert_fails
    then (s, error user_upsert_failed)
    else write_connection w
        (record {
          id = tc.id;
          owner = user;
          owner_telegram = tc.user;
          can_reply = can_reply tc;
          is_enabled = tc.is_enabled;
        })
        s'

-- `ok none` is the refusal by the allowlist.
abbrev pub admitted : State × Result Connection → State × Result (Option Connection)
admitted (s, ok conn) = (s, ok (some conn))
admitted (s, error e) = (s, error e)

unfoldable pub upsert_from_telegram :
    World → BusinessConnection → State → State × Result (Option Connection)
upsert_from_telegram w tc s =
    if tc.id == "" || int_beq tc.user (pos 0)
    then (s, error invalid_connection)
    else (if owner_allowed s.allowed tc.user
        then admitted (upsert_admitted w tc s)
        else (s, ok none))

-- The end of `Resolve`, and of `HandleBusinessConnection`: what the upsert answered is memoised.
abbrev pub store_resolved :
    World → String → ℤ → State × Result (Option Connection) → State × Result Connection
store_resolved w id user (s, error e) = (s, error e)
store_resolved w id user (s, ok none) =
    (record s { cache = store_refused id user w.now s.cache }, error owner_not_allowed)
store_resolved w id user (s, ok (some conn)) =
    (record s { cache = store conn w.now s.cache }, ok conn)

-- `Resolve` from the call of the API.
unfoldable pub resolve_from_api : World → String → State → State × Result Connection
resolve_from_api w id s =
    let s' : State = record s { asked = id ∷ s.asked } in
    elim w.api [
      | transport_error ↦ (s', error api_failed)
      | api_error code ↦
          if int_beq code (pos 400)
          then (record s' { cache = store_unknown id w.now s.cache }, error connection_unknown)
          else (s', error api_failed)
      | connection tc ↦
          if tc.id == id
          then store_resolved w id tc.user (upsert_from_telegram w tc s')
          else (s', error wrong_answer)
    ]

-- `Resolve` from the reading of the database.
unfoldable pub resolve_from_db : World → String → State → State × Result Connection
resolve_from_db w id s = if w.read_fails then (s, error read_failed) else elim (get_from_db id s) [
  | none ↦ resolve_from_api w id s
  | some conn ↦
      if owner_allowed s.allowed conn.owner_telegram
      then (record s { cache = store_db conn w.now s.cache }, ok conn)
      else (
        record s { cache = store_refused id conn.owner_telegram w.now s.cache },
        error owner_not_allowed,
      )
]

-- The `switch` on the entry of the cache.
unfoldable pub resolve_entry : World → String → State → Option Entry → State × Result Connection
resolve_entry w id s none = resolve_from_db w id s
resolve_entry w id s (some unknown) = (s, error connection_unknown)
resolve_entry w id s (some (refused telegram)) =
    if owner_allowed s.allowed telegram
    then resolve_from_db w id s
    else (s, error owner_not_allowed)
resolve_entry w id s (some (resolved conn)) =
    if owner_allowed s.allowed conn.owner_telegram
    then (s, ok conn)
    else (s, error owner_not_allowed)

unfoldable pub resolve : World → String → State → State × Result Connection
resolve w id s =
    let (cache, found) = lookup_cache id w.now s.cache in
    if id == "" then (s, error empty_id) else resolve_entry w id (record s { cache = cache }) found

-- `HandleBusinessConnection` after the upsert; the welcome of `notifyWelcome` is the request that
-- it makes, whose failure is only logged.
abbrev pub welcome :
    World → BusinessConnection → State × Result (Option Connection) → State × Option ServiceError
welcome w tc (s, error e) = (s, some e)
welcome w tc (s, ok none) = (s, none)
welcome w tc (s, ok (some conn)) =
    let s' : State = record s { cache = store conn w.now s.cache } in
    (
      if conn.is_enabled then record s' { welcomed = (tc.user_chat, tc.user) ∷ s.welcomed } else s',
      none,
    )

unfoldable pub handle_business_connection :
    World → BusinessConnection → State → State × Option ServiceError
handle_business_connection w tc s = welcome w tc (upsert_from_telegram w tc s)

-- The UPDATE of `DisableOwner`, and the rows that it changes.
unfoldable pub disable_rows : ℤ → List (String × ConnectionRow) → List (String × ConnectionRow)
disable_rows owner [] = []
disable_rows owner ((id, row) ∷ rows) =
    (id, if row.owner == owner then record row { is_enabled = false } else row)
    ∷ disable_rows owner rows

unfoldable pub count_enabled : ℤ → List (String × ConnectionRow) → ℕ
count_enabled owner [] = 0
count_enabled owner ((id, row) ∷ rows) =
    let rest = count_enabled owner rows in
    if row.owner == owner && row.is_enabled then suc rest else rest

unfoldable pub disable_connections : World → ℤ → State → State × Result ℕ
disable_connections w owner s = if w.update_fails then (s, error disable_failed) else (
  record s { connections = disable_rows owner s.connections; cache = disable_owner owner s.cache },
  ok (count_enabled owner s.connections),
)

-- The three operations of the service.
pub data Step : Type 0 where
  resolve_step : World → String → Step
  handle_step : World → BusinessConnection → Step
  disable_step : World → ℤ → Step

unfoldable pub step : Step → State → State
step (resolve_step w id) s = (resolve w id s).0
step (handle_step w tc) s = (handle_business_connection w tc s).0
step (disable_step w owner) s = (disable_connections w owner s).0

unfoldable pub steps : List Step → State → State
steps [] s = s
steps (x ∷ xs) s = steps xs (step x s)
