-- ===== src/App/Tenancy.antt =====
-- The calls that a save of app/handler.go makes, and for whom.
use undelete.Base.{
  ℕ, suc, ◌≡◌, refl, subst, Bool, true, Option, none, some, List, [], ◌∷◌, ◌++◌, if◌then◌else◌, not,
  ◌&&◌, All, inl, inr, if-both, if-split,
}
use undelete.Base.Int.{ℤ, int_comparable}
use undelete.Base.Rows.{append-All}
use undelete.Business.Cache.{Connection}
use undelete.App.Effects.{
  Message, Attachment, Resolution, resolved, refused, unavailable, Effect, locked, unlocked,
  re_resolved, Config, World, Returned, value, failure, Handling,
}
use undelete.App.Commands.{is_from}
use undelete.App.Save.{
  is_blank, save_media, Entered, skipped, broken, entered, enter_save, gate, rechecked,
  write_message, save_message, released, save_entered, connection_if,
}
use undelete.App.Answers.{IsResolved, Authorised, Answers}

module _ (c : Config) (w : World) (msg : Message) where
  abbrev pub Allowed : List Effect → Type 0
  Allowed effects = All (Authorised w msg) effects

  pub owner-Answers :
      (conn : Connection)
      → IsResolved w conn
      → is_from conn msg ≡ true
      → Answers (Authorised w msg) conn
  owner-Answers conn known mine = record {
    sends = λ a. (conn, known, mine, refl);
    requests = (conn, known, mine, refl);
    confirms = λ code. (conn, known, mine, refl);
    reads = (conn, known, mine, refl);
    sets = λ n. (conn, known, mine, refl);
  }

  save_media-Allowed :
      (conn : Connection) (index : ℕ) (attachments : List Attachment)
      → IsResolved w conn
      → conn.is_enabled ≡ true
      → Allowed (save_media c w conn.owner msg index attachments).0
  unfolding save_media
  save_media-Allowed conn index [] known on = tt
  save_media-Allowed conn index (a ∷ attachments) known on =
      if-both (λ (r : Handling Bool). Allowed r.0) (c.has_quota && not (w.admits_media index)) _ _
        tt
        (if-both (λ (r : Handling Bool). Allowed r.0) (w.saves_media index) _ _
          ((conn, known, on, refl), save_media-Allowed conn (suc index) attachments known on)
          ((conn, known, on, refl), tt))

  write_message-Allowed :
      (edited : Bool) (conn : Connection)
      → IsResolved w conn
      → conn.is_enabled ≡ true
      → Allowed (write_message c w msg edited conn).0
  unfolding write_message
  write_message-Allowed edited conn known on =
      if-both (λ (r : Handling (Option Connection)). Allowed r.0) w.saves _ _
        (
          (conn, known, on, refl),
          if-both (λ (r : Handling Bool). Allowed r.0) c.has_media _ _
              (save_media-Allowed conn 0 msg.attachments known on) tt,
        )
        ((conn, known, on, refl), tt)

  released-Allowed : (owner : ℤ) → Allowed (released c owner)
  released-Allowed owner = if-both Allowed c.has_guard _ _ (tt, tt) tt

  -- What `rechecked` lets through is resolved and enabled.
  abbrev IsLive : List Effect × Entered → Type 0
  IsLive (before, skipped) = Allowed before
  IsLive (before, broken) = Allowed before
  IsLive (before, entered conn) = Allowed before × IsResolved w conn × (conn.is_enabled ≡ true)

  -- What `enter_save` lets through is resolved.
  abbrev IsKnown : List Effect × Entered → Type 0
  IsKnown (before, skipped) = Allowed before
  IsKnown (before, broken) = Allowed before
  IsKnown (before, entered conn) = Allowed before × IsResolved w conn

  gate-IsLive : (owner : ℤ) (e : List Effect × Entered) → IsKnown e → IsLive (gate c owner e)
  gate-IsLive owner (before, skipped) h = h
  gate-IsLive owner (before, broken) h = h
  gate-IsLive owner (before, entered fresh) h =
      if-split IsLive fresh.is_enabled _ _ (λ live. (h.0, h.1, live))
        (λ dead. append-All _ before _ h.0 (released-Allowed owner))

  enter_save-IsKnown :
      (conn : Connection) → w.lookup ≡ resolved conn → IsKnown (enter_save c w msg.connection conn)
  unfolding enter_save
  enter_save-IsKnown conn e =
      if-both IsKnown (not c.has_guard) _ _ (tt, inr (inl e))
        (if-both IsKnown (not w.shares) _ _ tt (go w.relookup refl))
    where
      go :
          (r : Resolution)
          → w.relookup ≡ r
          → IsKnown (elim r [
            | refused ↦
                (locked conn.owner ∷ re_resolved msg.connection ∷ unlocked conn.owner ∷ [], skipped)
            | unavailable ↦
                (locked conn.owner ∷ re_resolved msg.connection ∷ unlocked conn.owner ∷ [], broken)
            | resolved fresh ↦ (locked conn.owner ∷ re_resolved msg.connection ∷ [], entered fresh)
          ])
      go refused f = (tt, (tt, (tt, tt)))
      go unavailable f = (tt, (tt, (tt, tt)))
      go (resolved fresh) f = ((tt, (tt, tt)), inr (inr f))

  rechecked-IsLive :
      (conn : Connection) → w.lookup ≡ resolved conn → IsLive (rechecked c w msg.connection conn)
  unfolding rechecked
  rechecked-IsLive conn e =
      gate-IsLive conn.owner (enter_save c w msg.connection conn) (enter_save-IsKnown conn e)

  -- The connection that a save returns was resolved.
  abbrev pub Saved : Handling (Option Connection) → Type 0
  Saved r = Allowed r.0 × ((conn : Connection) → r.1 ≡ value (some conn) → IsResolved w conn)

  connection_if-holds :
      (conn x : Connection) (r : Returned Bool)
      → IsResolved w conn
      → connection_if conn r ≡ value (some x)
      → IsResolved w x
  connection_if-holds conn x (value b) known e =
      let same : conn ≡ x = cc in subst (IsResolved w) same known
  connection_if-holds conn x failure known e = absurd cc

  write_message-holds :
      (edited : Bool) (conn x : Connection)
      → IsResolved w conn
      → (write_message c w msg edited conn).1 ≡ value (some x)
      → IsResolved w x
  unfolding write_message
  write_message-holds edited conn x known =
      if-both (λ (r : Handling (Option Connection)). r.1 ≡ value (some x) → IsResolved w x) w.saves
        _ _ (connection_if-holds conn x _ known) (λ e. absurd cc)

  save_entered-Saved :
      (edited : Bool) (owner : ℤ) (e : List Effect × Entered)
      → IsLive e
      → Saved (save_entered c w msg edited owner e)
  save_entered-Saved edited owner (before, skipped) h = (h, λ x e. absurd cc)
  save_entered-Saved edited owner (before, broken) h = (h, λ x e. absurd cc)
  save_entered-Saved edited owner (before, entered conn) h = (
    append-All _ (before ++ _) (released c owner)
        (append-All _ before _ h.0 (write_message-Allowed edited conn h.1 h.2))
        (released-Allowed owner),
    λ x. write_message-holds edited conn x h.1,
  )

  pub save_message-Saved : (edited : Bool) → Saved (save_message c w msg edited)
  unfolding save_message
  save_message-Saved edited = if-both Saved (is_blank msg) _ _ nothing (go w.lookup refl)
    where
      nothing : Saved ([], value none)
      nothing = (tt, λ x e. absurd cc)

      go :
          (r : Resolution)
          → w.lookup ≡ r
          → Saved (elim r [
            | refused ↦ ([], value none)
            | unavailable ↦ ([], failure)
            | resolved conn ↦
                if not conn.is_enabled
                then ([], value none)
                else if c.has_quota && not w.admits_capture
                then ([], value none)
                else save_entered c w msg edited conn.owner (rechecked c w msg.connection conn)
          ])
      go refused e = nothing
      go unavailable e = (tt, λ x f. absurd cc)
      go (resolved conn) e =
          if-split Saved (not conn.is_enabled) _ _ (λ off. nothing)
            (λ on. if-both Saved (c.has_quota && not w.admits_capture) _ _ nothing (
              save_entered-Saved edited conn.owner (rechecked c w msg.connection conn)
                (rechecked-IsLive conn e)))
