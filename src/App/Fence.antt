-- ===== src/App/Fence.antt =====
-- The writes of app/handler.go under the exclusion of the tenant.
use undelete.Base.{
  ℕ, suc, ◌≡◌, refl, subst, String, Bool, true, Option, none, List, [], ◌∷◌, ◌++◌, if◌then◌else◌,
  not, ◌&&◌, string_comparable, All, arith, inl, inr, ◌⊎◌, if-both, if-split,
}
use undelete.Base.Int.{ℤ, int_comparable}
use undelete.Business.Cache.{Connection}
use undelete.App.Effects.{
  Message, Attachment, Deletion, Resolution, resolved, refused, unavailable, Effect,
  handled_connection, locked, unlocked, re_resolved, saved_message, saved_media, marked, sent,
  erasure_requested, erasure_confirmed, retention_read, retention_set, Config, World, value,
  failure, Handling,
}
use undelete.App.Save.{
  is_blank, save_media, Entered, skipped, broken, entered, enter_save, gate, rechecked,
  write_message, save_entered, save_message, released,
}
use undelete.App.Handler.{handle_deleted, mark_entered}

-- A write for the tenant.
abbrev pub Writes : ℤ → Effect → Type 0
Writes tenant (saved_message owner r edited) = owner ≡ tenant
Writes tenant (saved_media key a) = key.owner ≡ tenant
Writes tenant (marked owner telegram connection chat ids) = owner ≡ tenant
Writes tenant handled_connection = ⊥
Writes tenant (locked owner) = ⊥
Writes tenant (unlocked owner) = ⊥
Writes tenant (re_resolved id) = ⊥
Writes tenant (sent to answer) = ⊥
Writes tenant (erasure_requested owner telegram) = ⊥
Writes tenant (erasure_confirmed owner telegram code) = ⊥
Writes tenant (retention_read owner) = ⊥
Writes tenant (retention_set owner n) = ⊥

-- No call; or the lock of the tenant whose connection was looked up, the second resolution of the
-- connection, writes for that tenant, and the release. When there is a write, the second resolution
-- gave a connection that is `Live`.
abbrev pub Fenced : (Connection → Type 0) → World → String → List Effect → Type 0
Fenced Live w id effects =
    (effects ≡ [])
    ⊎ ((conn : Connection) × (inside : List Effect) × (w.lookup ≡ resolved conn)
        × (effects ≡ locked conn.owner ∷ re_resolved id ∷ (inside ++ unlocked conn.owner ∷ []))
        × All (Writes conn.owner) inside
        × ((inside ≡ []) ⊎ ((fresh : Connection) × (w.relookup ≡ resolved fresh) × Live fresh)))

abbrev pub Enabled : Connection → Type 0
Enabled conn = conn.is_enabled ≡ true

abbrev pub Anything : Connection → Type 0
Anything conn = Unit

module _ (c : Config) (w : World) (guarded : c.has_guard ≡ true)
    (kept : (a b : Connection)
      → w.lookup ≡ resolved a
      → w.relookup ≡ resolved b
      → b.owner ≡ a.owner) where
  released-one : (owner : ℤ) → released c owner ≡ unlocked owner ∷ []
  released-one owner = rw guarded refl

  -- What `enter_save` returns when there is a guard.
  abbrev Locked : String → Connection → List Effect × Entered → Type 0
  Locked id conn (before, skipped) = Fenced Enabled w id before × Fenced Anything w id before
  Locked id conn (before, broken) = Fenced Enabled w id before × Fenced Anything w id before
  Locked id conn (before, entered fresh) =
      (before ≡ locked conn.owner ∷ re_resolved id ∷ []) × (w.relookup ≡ resolved fresh)

  nothing_inside :
      (Live : Connection → Type 0) (id : String) (conn : Connection)
      → w.lookup ≡ resolved conn
      → Fenced Live w id (locked conn.owner ∷ re_resolved id ∷ unlocked conn.owner ∷ [])
  nothing_inside Live id conn e = inr (conn, [], e, refl, tt, inl refl)

  enter_save-Locked :
      (id : String) (conn : Connection)
      → w.lookup ≡ resolved conn
      → Locked id conn (enter_save c w id conn)
  unfolding enter_save
  enter_save-Locked id conn known =
      if-split (Locked id conn) (not c.has_guard) _ _ (λ e. absurd (ground (arith, e, guarded)))
        (λ e. if-both (Locked id conn) (not w.shares) _ _ (inl refl, inl refl) (go w.relookup refl))
    where
      go :
          (r : Resolution)
          → w.relookup ≡ r
          → Locked id conn (elim r [
            | refused ↦ (locked conn.owner ∷ re_resolved id ∷ unlocked conn.owner ∷ [], skipped)
            | unavailable ↦ (locked conn.owner ∷ re_resolved id ∷ unlocked conn.owner ∷ [], broken)
            | resolved fresh ↦ (locked conn.owner ∷ re_resolved id ∷ [], entered fresh)
          ])
      go refused f = (nothing_inside Enabled id conn known, nothing_inside Anything id conn known)
      go unavailable f =
          (nothing_inside Enabled id conn known, nothing_inside Anything id conn known)
      go (resolved fresh) f = (refl, f)

  save_media-Writes :
      (owner : ℤ) (msg : Message) (index : ℕ) (attachments : List Attachment)
      → All (Writes owner) (save_media c w owner msg index attachments).0
  unfolding save_media
  save_media-Writes owner msg index [] = tt
  save_media-Writes owner msg index (a ∷ attachments) =
      if-both (λ (r : Handling Bool). All (Writes owner) r.0)
        (c.has_quota && not (w.admits_media index)) _ _ tt
        (if-both (λ (r : Handling Bool). All (Writes owner) r.0) (w.saves_media index) _ _
          (refl, save_media-Writes owner msg (suc index) attachments) (refl, tt))

  write_message-Writes :
      (msg : Message) (edited : Bool) (conn : Connection)
      → All (Writes conn.owner) (write_message c w msg edited conn).0
  unfolding write_message
  write_message-Writes msg edited conn =
      if-both (λ (r : Handling (Option Connection)). All (Writes conn.owner) r.0) w.saves _ _
        (
          refl,
          if-both (λ (r : Handling Bool). All (Writes conn.owner) r.0) c.has_media _ _
              (save_media-Writes conn.owner msg 0 msg.attachments) tt,
        )
        (refl, tt)

  save_entered-Fenced :
      (msg : Message) (edited : Bool) (conn : Connection) (e : List Effect × Entered)
      → w.lookup ≡ resolved conn
      → Locked msg.connection conn e
      → Fenced Enabled w msg.connection
          (save_entered c w msg edited conn.owner (gate c conn.owner e)).0
  save_entered-Fenced msg edited conn (before, skipped) known h = h.0
  save_entered-Fenced msg edited conn (before, broken) known h = h.0
  save_entered-Fenced msg edited conn (before, entered fresh) known h =
      if-split
        (λ (e : List Effect × Entered).
          Fenced Enabled w msg.connection (save_entered c w msg edited conn.owner e).0)
        fresh.is_enabled _ _
        (λ live. inr (
          conn,
          (write_message c w msg edited fresh).0,
          known,
          rw (h.0, released-one conn.owner) refl,
          subst (λ o. All (Writes o) (write_message c w msg edited fresh).0)
              (kept conn fresh known h.1) (write_message-Writes msg edited fresh),
          inr (fresh, h.1, live),
        ))
        (λ dead.
          rw (h.0, released-one conn.owner) (nothing_inside Enabled msg.connection conn known))

  mark_entered-Fenced :
      (del : Deletion) (conn : Connection) (e : List Effect × Entered)
      → w.lookup ≡ resolved conn
      → Locked del.connection conn e
      → Fenced Anything w del.connection (mark_entered c w del conn.owner e).0
  mark_entered-Fenced del conn (before, skipped) known h = h.1
  mark_entered-Fenced del conn (before, broken) known h = h.1
  mark_entered-Fenced del conn (before, entered fresh) known h = inr (
    conn,
    marked fresh.owner fresh.owner_telegram del.connection del.chat_id del.message_ids ∷ [],
    known,
    rw (h.0, released-one conn.owner) refl,
    (kept conn fresh known h.1, tt),
    inr (fresh, h.1, tt),
  )

  -- With a guard, and a connection whose two resolutions have one owner, a save makes no call, or it
  -- locks the owner of the looked-up connection, resolves the connection's id again, writes for that
  -- owner only, and releases the lock; it writes nothing unless the second resolution is of an
  -- enabled connection. A deletion is marked in the same way, whether the connection is enabled or
  -- not.
  pub saves-Fenced :
      ((msg : Message) (edited : Bool)
        → Fenced Enabled w msg.connection (save_message c w msg edited).0)
      × ((del : Deletion) → Fenced Anything w del.connection (handle_deleted c w del).0)
  unfolding save_message handle_deleted rechecked
  saves-Fenced = (
    λ msg edited.
        if-both (λ (r : Handling (Option Connection)). Fenced Enabled w msg.connection r.0)
          (is_blank msg) _ _ (inl refl) (save msg edited w.lookup refl),
    λ del.
        if-both (λ (r : Handling Bool). Fenced Anything w del.connection r.0) _ _ _ (inl refl)
          (mark del w.lookup refl),
  )
    where
      save :
          (msg : Message) (edited : Bool) (r : Resolution)
          → w.lookup ≡ r
          → Fenced Enabled w msg.connection
              (elim r as (λ x. Handling (Option Connection)) [
                | refused ↦ ([], value none)
                | unavailable ↦ ([], failure)
                | resolved conn ↦
                    if not conn.is_enabled
                    then ([], value none)
                    else if c.has_quota && not w.admits_capture
                    then ([], value none)
                    else save_entered c w msg edited conn.owner
                        (gate c conn.owner (enter_save c w msg.connection conn))
              ]).0
      save msg edited refused known = inl refl
      save msg edited unavailable known = inl refl
      save msg edited (resolved conn) known =
          if-both (λ (r : Handling (Option Connection)). Fenced Enabled w msg.connection r.0)
            (not conn.is_enabled) _ _ (inl refl)
            (if-both (λ (r : Handling (Option Connection)). Fenced Enabled w msg.connection r.0)
              (c.has_quota && not w.admits_capture) _ _ (inl refl)
              (save_entered-Fenced msg edited conn (enter_save c w msg.connection conn) known
                (enter_save-Locked msg.connection conn known)))

      mark :
          (del : Deletion) (r : Resolution)
          → w.lookup ≡ r
          → Fenced Anything w del.connection
              (elim r as (λ x. Handling Bool) [
                | refused ↦ ([], value true)
                | unavailable ↦ ([], failure)
                | resolved conn ↦
                    mark_entered c w del conn.owner (enter_save c w del.connection conn)
              ]).0
      mark del refused known = inl refl
      mark del unavailable known = inl refl
      mark del (resolved conn) known =
          mark_entered-Fenced del conn (enter_save c w del.connection conn) known
            (enter_save-Locked del.connection conn known)
