-- ===== src/Business/Examples.antt =====
-- Runs of the cache and of the service.
use undelete.Base.{
  ℕ, ◌≡◌, refl, true, false, none, some, List, [], ◌∷◌, arith, string_comparable, String, inl, inr,
  Option-cases,
}
use undelete.Base.Int.{pos}
use undelete.Base.Dict.{lookup}
use undelete.Business.Cache.{
  Connection, Cache, new_connection_cache, lookup_cache, put_locked, store, disable_owner,
  Operation, store_db_op, lookup_op, run, element_of, evict,
}
use undelete.Business.Order.{IsBounded, run-new-IsBounded}
use undelete.Business.Disabled.{answers_on, disable_owner-sticks}
use undelete.Business.Service.{
  BusinessConnection, api_error, World, State, error, connection_unknown, resolve,
  disable_connections, Step, resolve_step, handle_step, disable_step, upsert_by_telegram_id, steps,
  get_from_db, scan_row,
}
use undelete.Business.Admission.{answers_admitted, resolve-admitted}
use undelete.Business.Ownership.{owner_in, steps-owner}
use undelete.Business.Memory.{resolve-asks_once}
use undelete.Business.Reports.{Quiet, returns, answers_enabled}
use undelete.Business.Erased.{disable_connections-resolve}

abbrev conn : Connection
conn = record {
  id = "c1";
  owner = pos 7;
  owner_telegram = pos 70;
  can_reply = true;
  is_enabled = true;
}

-- A database row of the owner, read before the erasure and stored after it.
abbrev stale_read : List Operation
stale_read = store_db_op conn 20 ∷ lookup_op "c1" 30 ∷ []

abbrev held : Cache
held = store conn 10 (new_connection_cache 60 2)

run-new-IsBounded_example : IsBounded (run stale_read (new_connection_cache 60 2))
run-new-IsBounded_example = run-new-IsBounded 60 2 stale_read

disable_owner-sticks_example :
    answers_on (pos 7) (lookup_cache "c1" 40 (run stale_read (disable_owner (pos 7) held))).1
    ≡ false
disable_owner-sticks_example =
    disable_owner-sticks (pos 7) held stale_read "c1" 40 (refl, (refl, tt))

-- Tenant 7 with its connection, which the cache holds as enabled.
abbrev state : State
state = record {
  allowed = [];
  cache = held;
  connections = ("c1", record { owner = pos 7; can_reply = true; is_enabled = true }) ∷ [];
  users = (pos 70, pos 7) ∷ [];
  next_user = 8;
  asked = [];
  welcomed = [];
}

abbrev revoking : ℕ → World
revoking now = record {
  now = now;
  read_fails = false;
  user_upsert_fails = false;
  upsert_fails = false;
  update_fails = false;
  api = api_error (pos 400);
}

abbrev stranger : BusinessConnection
stranger = record {
  id = "c1";
  user = pos 90;
  user_chat = pos 90;
  is_enabled = true;
  rights = none;
  can_reply_legacy = false;
}

resolve-admitted_example : answers_admitted [] (resolve (revoking 20) "c1" state).1 ≡ true
resolve-admitted_example = resolve-admitted (revoking 20) "c1" state

abbrev takeover : List Step
takeover = handle_step (revoking 20) stranger ∷ disable_step (revoking 30) (pos 7) ∷ []

steps-owner_example : owner_in "c1" (steps takeover state) ≡ some (pos 7)
unfolding lookup
steps-owner_example = steps-owner takeover state "c1" (pos 7) refl

-- An update of a stranger on the same id, and a resolution, after the erasure.
abbrev afterwards : List Step
afterwards = handle_step (revoking 25) stranger ∷ resolve_step (revoking 26) "c1" ∷ []

revoked-quiet :
    (now : ℕ) (id : String) (s : State) → returns (pos 7) (resolve_step (revoking now) id) s ≡ false
revoked-quiet now id s = elim (Option-cases (get_from_db id s)) [
  | inl e ↦ rw (returns, e) refl
  | inr (conn, e) ↦ rw (returns, e) refl
]

abbrev erased_state : State
erased_state = (disable_connections (revoking 20) (pos 7) state).0

afterwards-Quiet : Quiet (pos 7) afterwards erased_state
unfolding disable_connections upsert_by_telegram_id lookup
afterwards-Quiet = (refl, (revoked-quiet 26 "c1" _, tt))

disable_connections-resolve_example :
    answers_enabled (pos 7) (resolve (revoking 30) "c1" (steps afterwards erased_state)).1 ≡ false
disable_connections-resolve_example =
    disable_connections-resolve (pos 7) (revoking 20) (revoking 30) afterwards state "c1" refl
      afterwards-Quiet (revoked-quiet 30 "c1" (steps afterwards erased_state))

resolve-asks_once_example :
    let first = resolve (revoking 20) "c9" state in
    let second = resolve (revoking 30) "c9" first.0 in
    (first.1 ≡ error connection_unknown)
    × (second.1 ≡ error connection_unknown)
    × (second.0.asked ≡ "c9" ∷ state.asked)
    × (second.0.connections ≡ state.connections)
    × (second.0.users ≡ state.users)
unfolding get_from_db lookup scan_row lookup_cache element_of store put_locked new_connection_cache
    evict
resolve-asks_once_example =
    resolve-asks_once (revoking 20) (revoking 30) "c9" state refl refl refl refl refl (omega arith)
      (omega arith)
