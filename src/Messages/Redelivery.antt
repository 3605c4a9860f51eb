-- ===== src/Messages/Redelivery.antt =====
-- MarkDeleted on an update that Telegram delivers again.
use undelete.Base.{
  ℕ, ◌≡◌, refl, ap, ◌∙◌, Bool, true, ◌||◌, Option, none, some, List, [], ◌∷◌, ◌++◌, String,
  nat_comparable, string_comparable, All, arith, Bool-cases, if-both, inl, inr, ==-refl,
}
use undelete.Base.Int.{ℤ, int_comparable}
use undelete.Base.Rows.{set_where}
use undelete.Telegram.Split.{Text}
use undelete.Outbox.Row.{Key, Row, Table, exists_row, same_key, PayloadKind}
use undelete.Outbox.Store.{insert_tx}
use undelete.Messages.Store.{Message}
use undelete.Messages.Media.{MediaAlertScope, Entry}
use undelete.Messages.Deletion.{
  Database, Formats, is_deleted, marked, or_now, insert_all, mark_deleted,
}

abbrev pub HasKey : List Row → Key → Type 0
HasKey rs k = exists_row (λ r. same_key r.key k) rs ≡ true

pub exists_row-append :
    (p : Row → Bool) (rs ss : List Row)
    → exists_row p (rs ++ ss) ≡ exists_row p rs || exists_row p ss
unfolding exists_row
exists_row-append p [] ss = refl
exists_row-append p (r ∷ rs) ss = ground (arith, exists_row-append p rs ss)

-- A key that is there is not inserted again.
pub insert_tx-there :
    (now : ℕ) (k : Key) (owner : ℤ) (text : Text) (kind : PayloadKind) (media : String) (t : Table)
    → HasKey t.rows k
    → (insert_tx now k owner text kind media t).rows ≡ t.rows
unfolding insert_tx
insert_tx-there now k owner text kind media t h = rw h refl

pub insert_tx-keeps :
    (now : ℕ) (k : Key) (owner : ℤ) (text : Text) (kind : PayloadKind) (media : String) (t : Table)
    (j : Key)
    → HasKey t.rows j
    → HasKey ((insert_tx now k owner text kind media t).rows) j
unfolding insert_tx exists_row
insert_tx-keeps now k owner text kind media t j h =
    if-both (λ (u : Table). HasKey u.rows j) (exists_row (λ r. same_key r.key k) t.rows) _ _ h
      (rw (exists_row-append (λ r. same_key r.key j) t.rows _, h) refl)

same_key_refl : (k : Key) → same_key k k ≡ true
same_key_refl k =
    rw
      (
        ==-refl k.owner,
        ==-refl k.connection,
        ==-refl k.chat,
        ==-refl k.message,
        ==-refl k.event,
        ==-refl k.chunk,
      )
      refl

pub insert_tx-HasKey :
    (now : ℕ) (k : Key) (owner : ℤ) (text : Text) (kind : PayloadKind) (media : String) (t : Table)
    → HasKey ((insert_tx now k owner text kind media t).rows) k
unfolding insert_tx exists_row
insert_tx-HasKey now k owner text kind media t =
    elim (Bool-cases (exists_row (λ r. same_key r.key k) t.rows)) [
      | inl e ↦ rw (e, insert_tx) e
      | inr e ↦
          rw (e, insert_tx, exists_row-append (λ r. same_key r.key k) t.rows _, e, same_key_refl k)
            refl
    ]

pub insert_all-keeps :
    (now : ℕ) (owner : ℤ) (es : List Entry) (t : Table) (j : Key)
    → HasKey t.rows j
    → HasKey ((insert_all now owner es t).rows) j
unfolding insert_all
insert_all-keeps now owner [] t j h = h
insert_all-keeps now owner (e ∷ es) t j h =
    insert_all-keeps now owner es _ j
      (insert_tx-keeps now e.key owner e.text e.kind e.media_payload t j h)

pub insert_all-HasKey :
    (now : ℕ) (owner : ℤ) (es : List Entry) (t : Table)
    → All (λ (e : Entry). HasKey ((insert_all now owner es t).rows) e.key) es
unfolding insert_all
insert_all-HasKey now owner [] t = tt
insert_all-HasKey now owner (e ∷ es) t = (
  insert_all-keeps now owner es _ e.key
      (insert_tx-HasKey now e.key owner e.text e.kind e.media_payload t),
  insert_all-HasKey now owner es _,
)

insert_all-there :
    (now : ℕ) (owner : ℤ) (es : List Entry) (rs : List Row) (t : Table)
    → t.rows ≡ rs
    → All (λ (e : Entry). HasKey rs e.key) es
    → (insert_all now owner es t).rows ≡ rs
unfolding insert_all
insert_all-there now owner [] rs t same h = same
insert_all-there now owner (e ∷ es) rs t same h =
    let there : HasKey t.rows e.key = rw same h.0 in
    insert_all-there now owner es rs _
      (insert_tx-there now e.key owner e.text e.kind e.media_payload t there ∙ same) h.1

or_now-again : (now later : ℕ) (t : Option ℕ) → or_now later (or_now now t) ≡ or_now now t
or_now-again now later none = refl
or_now-again now later (some t) = refl

marked-again : (now later : ℕ) (m : Message) → marked later (marked now m) ≡ marked now m
marked-again now later m =
    ap (λ d. record m { deleted_at = d }) (or_now-again now later m.deleted_at)

-- An update that repeats itself on its rows changes nothing the second time.
set_where-again :
    (p : Message → Bool) (f g : Message → Message) (ms : List Message)
    → ((m : Message) → p (f m) ≡ p m)
    → ((m : Message) → g (f m) ≡ f m)
    → set_where p g (set_where p f ms) ≡ set_where p f ms
set_where-again p f g [] h k = refl
set_where-again p f g (m ∷ ms) h k = elim (Bool-cases (p m)) [
  | inl e ↦ rw (e, h m, e, k m, set_where-again p f g ms h k) refl
  | inr e ↦ rw (e, e, set_where-again p f g ms h k) refl
]

-- A deletion that is delivered again, while nothing else changed: the same records are found, no
-- message changes (deleted_at keeps the first instant), no label changes, and no alert is added to
-- the outbox.
pub mark_deleted-redelivered :
    (formats : Formats) (now later : ℕ) (scope : MediaAlertScope) (ids : List ℤ) (db : Database)
    → let first = mark_deleted formats now scope ids db in
      let again = mark_deleted formats later scope ids first.0 in
      (again.1 ≡ first.1)
      × (again.0.archive ≡ first.0.archive)
      × (again.0.outbox.rows ≡ first.0.outbox.rows)
unfolding mark_deleted
mark_deleted-redelivered formats now later scope ids db =
    let same =
      set_where-again (is_deleted scope ids) (marked now) (marked later) db.archive.messages
        (λ m. refl) (marked-again now later) in
    rw same (
      refl,
      refl,
      insert_all-there later scope.owner_telegram _ _ _ refl
          (insert_all-HasKey now scope.owner_telegram _ db.outbox),
    )
