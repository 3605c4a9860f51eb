-- ===== src/Business/Erased.antt =====
-- What a resolution answers after an erasure, with other operations in between.
use undelete.Base.{
  ℕ, ◌≡◌, refl, ap, ◌∙◌, false, ◌&&◌, Option, none, some, List, [], ◌∷◌, arith, if◌then◌else◌, ◌==◌,
  string_comparable, Option-cases, inl, inr, String, if-both,
}
use undelete.Base.Int.{ℤ, pos, int_comparable, int_beq}
use undelete.Base.Dict.{lookup}
use undelete.Business.Cache.{
  Connection, Entry, resolved, unknown, refused, Cache, lookup_cache, store_unknown, store_refused,
}
use undelete.Business.Service.{
  BusinessConnection, ConnectionRow, ApiAnswer, transport_error, api_error, connection, World,
  State, Result, ok, error, owner_allowed, get_from_db, upsert_from_telegram, store_resolved,
  resolve_from_api, resolve_from_db, resolve_entry, resolve, welcome, handle_business_connection,
  disable_connections, Step, resolve_step, handle_step, disable_step, step, steps,
  connection_unknown, api_failed, wrong_answer,
}
use undelete.Business.Ownership.{disabled_row, disable_rows-lookup}
use undelete.Business.Disabled.{
  IsOff, answers_on, lookup_cache-IsOff, disable_owner-IsOff, put_locked-IsOff, store-IsOff,
  store_db-IsOff, disable_owner-keeps_IsOff,
}
use undelete.Business.Reports.{
  answers_enabled, enables, returns, Quiet, row_on, IsErased, Calm, get_from_db-off, user-same,
  Handed, upsert_from_telegram-Handed,
}

module _ (owner : ℤ) where
  store_resolved-Calm :
      (w : World) (id : String) (user : ℤ) (r : State × Result (Option Connection))
      → Handed owner r
      → Calm owner (store_resolved w id user r)
  unfolding store_refused
  store_resolved-Calm w id user (s, error e) h = (h, refl)
  store_resolved-Calm w id user (s, ok none) h =
      ((h.0, put_locked-IsOff owner id (refused user) w.now s.cache refl h.1), refl)
  store_resolved-Calm w id user (s, ok (some conn)) h =
      ((h.0.0, store-IsOff owner conn w.now s.cache h.1 h.0.1), h.1)

  resolve_from_api-Calm :
      (w : World) (id : String) (s : State) (c : Cache)
      → get_from_db id s ≡ none
      → returns owner (resolve_step w id) s ≡ false
      → IsErased owner (record s { cache = c })
      → Calm owner (resolve_from_api w id (record s { cache = c }))
  unfolding resolve_from_api store_unknown
  resolve_from_api-Calm w id s c absent quiet h = go w.api (rw (returns, absent) at quiet)
    where
      go :
          (a : ApiAnswer)
          → (elim a [
            | transport_error ↦ false
            | api_error code ↦ false
            | connection tc ↦ enables owner tc s
          ])
            ≡ false
          → let s' : State = record s { cache = c; asked = id ∷ s.asked } in
            Calm owner (elim a [
              | transport_error ↦ (s', error api_failed)
              | api_error code ↦
                  if int_beq code (pos 400)
                  then (record s' { cache = store_unknown id w.now c }, error connection_unknown)
                  else (s', error api_failed)
              | connection tc ↦
                  if tc.id == id
                  then store_resolved w id tc.user (upsert_from_telegram w tc s')
                  else (s', error wrong_answer)
            ])
      go transport_error q = (h, refl)
      go (api_error code) q =
          if-both (Calm owner) (int_beq code (pos 400)) _ _
            ((h.0, put_locked-IsOff owner id unknown w.now c refl h.1), refl) (h, refl)
      go (connection tc) q =
          if-both (Calm owner) (tc.id == id) _ _
            (store_resolved-Calm w id tc.user _ (
              upsert_from_telegram-Handed owner w tc (record s { cache = c; asked = id ∷ s.asked })
                (ap (λ n. tc.is_enabled && (n == owner))
                    (user-same owner tc.user s c (id ∷ s.asked))
                  ∙ q)
                h))
            (h, refl)

  get_from_db-cache :
      (id : String) (s : State) (c : Cache)
      → get_from_db id (record s { cache = c }) ≡ get_from_db id s
  unfolding get_from_db
  get_from_db-cache id s c = refl

  resolve_from_db-Calm :
      (w : World) (id : String) (s : State) (c : Cache)
      → returns owner (resolve_step w id) s ≡ false
      → IsErased owner (record s { cache = c })
      → Calm owner (resolve_from_db w id (record s { cache = c }))
  unfolding resolve_from_db store_refused
  resolve_from_db-Calm w id s c quiet h =
      if-both (Calm owner) w.read_fails _ _ (h, refl)
        (elim (Option-cases (get_from_db id s)) [
          | inl p ↦ rw (get_from_db-cache id s c ∙ p) (resolve_from_api-Calm w id s c p quiet h)
          | inr (conn, p) ↦ rw (get_from_db-cache id s c ∙ p) (
              if-both (Calm owner) (owner_allowed s.allowed conn.owner_telegram) _ _
                (
                  (h.0, store_db-IsOff owner conn w.now c h.1),
                  get_from_db-off owner id s conn (h.0 id) p,
                )
                (
                  (h.0, put_locked-IsOff owner id (refused conn.owner_telegram) w.now c refl h.1),
                  refl,
                ))
        ])

  resolve-Calm :
      (w : World) (id : String) (s : State)
      → returns owner (resolve_step w id) s ≡ false
      → IsErased owner s
      → Calm owner (resolve w id s)
  unfolding resolve resolve_entry
  resolve-Calm w id s quiet h =
      let found = lookup_cache-IsOff owner id w.now s.cache h.1 in
      if-both (Calm owner) (id == "") _ _ (h, refl)
        (go (lookup_cache id w.now s.cache).0 (lookup_cache id w.now s.cache).1 found.0 found.1)
    where
      go :
          (c : Cache) (o : Option Entry)
          → IsOff owner c
          → answers_on owner o ≡ false
          → Calm owner (resolve_entry w id (record s { cache = c }) o)
      go c none off q = resolve_from_db-Calm w id s c quiet (h.0, off)
      go c (some unknown) off q = ((h.0, off), refl)
      go c (some (refused n)) off q =
          if-both (Calm owner) (owner_allowed s.allowed n) _ _
            (resolve_from_db-Calm w id s c quiet (h.0, off)) ((h.0, off), refl)
      go c (some (resolved conn)) off q =
          if-both (Calm owner) (owner_allowed s.allowed conn.owner_telegram) _ _ ((h.0, off), q)
            ((h.0, off), refl)

  welcome-IsErased :
      (w : World) (tc : BusinessConnection) (r : State × Result (Option Connection))
      → Handed owner r
      → IsErased owner (welcome w tc r).0
  welcome-IsErased w tc (s, error e) h = h
  welcome-IsErased w tc (s, ok none) h = h
  welcome-IsErased w tc (s, ok (some conn)) h =
      let off = store-IsOff owner conn w.now s.cache h.1 h.0.1 in
      if-both (IsErased owner) conn.is_enabled _ _ (h.0.0, off) (h.0.0, off)

  disabled_row-off :
      (other : ℤ) (o : Option ConnectionRow)
      → row_on owner o ≡ false
      → row_on owner (disabled_row other o) ≡ false
  disabled_row-off other none h = refl
  disabled_row-off other (some row) h = ground arith

  disabled_row-own : (o : Option ConnectionRow) → row_on owner (disabled_row owner o) ≡ false
  disabled_row-own none = refl
  disabled_row-own (some row) = ground arith

  step-IsErased :
      (x : Step) (s : State)
      → returns owner x s ≡ false
      → IsErased owner s
      → IsErased owner (step x s)
  unfolding step handle_business_connection disable_connections
  step-IsErased (resolve_step w id) s quiet h = (resolve-Calm w id s quiet h).0
  step-IsErased (handle_step w tc) s quiet h =
      welcome-IsErased w tc _ (upsert_from_telegram-Handed owner w tc s quiet h)
  step-IsErased (disable_step w other) s quiet h =
      if-both (λ (r : State × Result ℕ). IsErased owner r.0) w.update_fails _ _ h
        (
          λ id.
              ap (row_on owner) (disable_rows-lookup other id s.connections)
              ∙ disabled_row-off other (lookup id s.connections) (h.0 id),
          disable_owner-keeps_IsOff owner other s.cache h.1,
        )

  steps-IsErased :
      (xs : List Step) (s : State)
      → Quiet owner xs s
      → IsErased owner s
      → IsErased owner (steps xs s)
  unfolding steps
  steps-IsErased [] s quiet h = h
  steps-IsErased (x ∷ xs) s quiet h =
      steps-IsErased xs (step x s) quiet.1 (step-IsErased x s quiet.0 h)

  disable_connections-IsErased :
      (w : World) (s : State)
      → w.update_fails ≡ false
      → IsErased owner (disable_connections w owner s).0
  unfolding disable_connections
  disable_connections-IsErased w s done = rw done (
    λ id.
        ap (row_on owner) (disable_rows-lookup owner id s.connections)
        ∙ disabled_row-own (lookup id s.connections),
    disable_owner-IsOff owner s.cache,
  )

  -- After a `DisableOwner` that succeeded for an owner, and any sequence of resolutions, connection
  -- updates and further erasures of anyone, none of which runs while another does, `Resolve` does not
  -- answer an enabled connection of the owner for any id, whatever the cache held before. The
  -- condition is that in none of them, nor in that `Resolve`, Telegram reports an enabled connection
  -- of the owner, in an update or for an id that the database does not know.
  pub disable_connections-resolve :
      (w later : World) (xs : List Step) (s : State) (id : String)
      → w.update_fails ≡ false
      → Quiet owner xs (disable_connections w owner s).0
      → returns owner (resolve_step later id) (steps xs (disable_connections w owner s).0) ≡ false
      → answers_enabled owner (resolve later id (steps xs (disable_connections w owner s).0)).1
        ≡ false
  disable_connections-resolve w later xs s id done quiet last =
      (resolve-Calm later id _ last
        (steps-IsErased xs _ quiet (disable_connections-IsErased w s done))).1
