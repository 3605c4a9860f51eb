-- ===== src/Messages/Chunks.antt =====
-- The chunk indices that MarkDeleted gives to the alerts of a deletion, which are the keys of its entries.
use undelete.Base.{
  ℕ, suc, ◌≤◌, ◌<◌, ◌≡◌, refl, sym, ap, subst, ◌∙◌, false, List, [], ◌∷◌, ◌++◌, String, ◌==◌,
  nat_comparable, string_comparable, map, All, arith, Bool-cases, inl, inr, ==-refl,
}
use mathlib.Core.List.{append_assoc}
use undelete.Base.Int.{ℤ, int_comparable, int_beq_iff}
use undelete.Base.Rows.{count_where}
use undelete.Telegram.Split.{Text}
use undelete.Telegram.Alert.{SendMessageRequest, build_deletion_message_requests}
use undelete.Outbox.Row.{Row, Table, exists_row, same_key, MediaPayload}
use undelete.Outbox.Store.{insert_tx}
use undelete.Messages.Store.{DeletedRecord}
use undelete.Messages.Media.{
  MediaAlertScope, MediaGroup, Entry, ChunkCount, set_count, alert_key, group_entries,
}
use undelete.Messages.Deletion.{insert_all, chunk_entries, text_entries, alert_of}
use undelete.Messages.Redelivery.{exists_row-append}

abbrev pub entry_of : Row → Entry
entry_of r = record {
  key = r.key;
  text = r.payload_text;
  kind = r.payload_kind;
  media_payload = r.media_payload;
}

map-append : {A B : Type 0} (f : A → B) (xs ys : List A) → map f (xs ++ ys) ≡ map f xs ++ map f ys
map-append f [] ys = refl
map-append f (x ∷ xs) ys = ap (λ zs. f x ∷ zs) (map-append f xs ys)

append-empty : {A : Type 0} (xs : List A) → xs ++ [] ≡ xs
append-empty [] = refl
append-empty (x ∷ xs) = ap (λ zs. x ∷ zs) (append-empty xs)

pub int_beq-sym : (a b : ℤ) → (a == b) ≡ (b == a)
int_beq-sym a b = elim (Bool-cases (a == b)) [
  | inl e ↦ rw (e, (int_beq_iff b a).1 (sym ((int_beq_iff a b).0 e))) refl
  | inr e ↦ elim (Bool-cases (b == a)) [
    | inl f ↦ let g = (int_beq_iff a b).1 (sym ((int_beq_iff b a).0 f)) in cc
    | inr f ↦ rw (e, f) refl
  ]
]

-- Keys of two messages, or of two chunks.
alert_key-message :
    (scope : MediaAlertScope) (m j : ℤ) (a c : ℕ)
    → (m == j) ≡ false
    → same_key (alert_key scope m a) (alert_key scope j c) ≡ false
alert_key-message scope m j a c h = ground (arith, h)

alert_key-chunk :
    (scope : MediaAlertScope) (m j : ℤ) (a c : ℕ)
    → a < c
    → same_key (alert_key scope m a) (alert_key scope j c) ≡ false
alert_key-chunk scope m j a c h = ground (arith, h)

-- `Known` are the messages of the deletion.
module _ (scope : MediaAlertScope) (Known : ℤ → Type 0) where
  -- Each entry has the next index of its message.
  abbrev pub Chained : ChunkCount → List Entry → ChunkCount → Type 0
  Chained counts [] after = counts ≡ after
  Chained counts (e ∷ es) after =
      (m : ℤ) × Known m
      × (e.key ≡ alert_key scope m (counts m))
      × Chained (set_count m (suc (counts m)) counts) es after

  pub Chained-append :
      (es fs : List Entry) (counts middle after : ChunkCount)
      → Chained counts es middle
      → Chained middle fs after
      → Chained counts (es ++ fs) after
  Chained-append [] fs counts middle after h k =
      subst (λ (c : ChunkCount). Chained c fs after) (sym h) k
  Chained-append (e ∷ es) fs counts middle after h k =
      (h.0, h.1, h.2, Chained-append es fs _ middle after h.3 k)

  -- No row has an index that is still to be given.
  abbrev pub Clear : ChunkCount → List Row → Type 0
  Clear counts rs =
      (m : ℤ) (c : ℕ)
      → Known m
      → counts m ≤ c
      → exists_row (λ r. same_key r.key (alert_key scope m c)) rs ≡ false

  Clear-step :
      (counts : ChunkCount) (rs : List Row) (m : ℤ) (r : Row)
      → r.key ≡ alert_key scope m (counts m)
      → Clear counts rs
      → Clear (set_count m (suc (counts m)) counts) (rs ++ r ∷ [])
  unfolding exists_row
  Clear-step counts rs m r e h j c known le = elim (Bool-cases (j == m)) [
    | inl same ↦
        let equal : j ≡ m = (int_beq_iff j m).0 same in
        let next : suc (counts m) ≤ c = rw same at le in
        let below : counts j ≤ c = rw equal (omega (arith, next)) in
        rw
          (
            exists_row-append _ rs _,
            h j c known below,
            e,
            alert_key-chunk scope m j (counts m) c (omega (arith, next)),
          )
          refl
    | inr other ↦
        let below : counts j ≤ c = rw other at le in
        rw
          (
            exists_row-append _ rs _,
            h j c known below,
            e,
            alert_key-message scope m j (counts m) c (int_beq-sym m j ∙ other),
          )
          refl
  ]

  pub insert_all-Chained :
      (now : ℕ) (owner : ℤ) (es : List Entry) (counts after : ChunkCount) (t : Table)
      → Chained counts es after
      → Clear counts t.rows
      → map entry_of (insert_all now owner es t).rows ≡ map entry_of t.rows ++ es
  unfolding insert_all insert_tx
  insert_all-Chained now owner [] counts after t h clear = sym (append-empty (map entry_of t.rows))
  insert_all-Chained now owner (e ∷ es) counts after t h clear =
      let free : exists_row (λ r. same_key r.key e.key) t.rows ≡ false =
        rw h.2 (clear h.0 (counts h.0) h.1 (omega arith)) in
      rw (map, free)
        (insert_all-Chained now owner es _ after _ h.3 (Clear-step counts t.rows h.0 _ h.2 clear)
          ∙ (rw (map-append entry_of t.rows _) (append_assoc (map entry_of t.rows) (e ∷ []) es)))

  pub chunk_entries-Chained :
      (d : DeletedRecord) (index : ℕ) (rs : List SendMessageRequest) (counts : ChunkCount)
      → d.chat_id ≡ scope.chat_id
      → Known d.message_id
      → counts d.message_id ≡ index
      → (let out = chunk_entries scope d index rs counts in Chained counts out.0 out.1)
  unfolding chunk_entries
  chunk_entries-Chained d index [] counts chat known same = refl
  chunk_entries-Chained d index (r ∷ rs) counts chat known same = (
    d.message_id,
    known,
    rw (chat, same) refl,
    rw same (
        chunk_entries-Chained d (suc index) rs (set_count d.message_id (suc index) counts) chat
          known (rw (==-refl d.message_id) refl)),
  )

  chunk_entries-other :
      (d : DeletedRecord) (index : ℕ) (rs : List SendMessageRequest) (counts : ChunkCount) (m : ℤ)
      → (m == d.message_id) ≡ false
      → (chunk_entries scope d index rs counts).1 m ≡ counts m
  unfolding chunk_entries
  chunk_entries-other d index [] counts m h = refl
  chunk_entries-other d index (r ∷ rs) counts m h =
      chunk_entries-other d (suc index) rs _ m h ∙ rw h refl

  abbrev pub occurrences : ℤ → List DeletedRecord → ℕ
  occurrences m ds = count_where (λ (d : DeletedRecord). m == d.message_id) ds

  pub text_entries-Chained :
      (date : ℤ → Text) (names : Text × Text) (ds : List DeletedRecord) (counts : ChunkCount)
      → All (λ (d : DeletedRecord). (d.chat_id ≡ scope.chat_id) × Known d.message_id) ds
      → ((m : ℤ) → occurrences m ds ≤ 1)
      → ((m : ℤ) → 0 < occurrences m ds → counts m ≡ 0)
      → (let out = text_entries date scope names ds counts in Chained counts out.0 out.1)
  unfolding text_entries
  text_entries-Chained date names [] counts all once zero_at = refl
  text_entries-Chained date names (d ∷ ds) counts all once zero_at =
      let requests = build_deletion_message_requests date (alert_of scope names d) in
      let mine = chunk_entries scope d 0 requests counts in
      Chained-append mine.0 _ counts mine.1 _
        (chunk_entries-Chained d 0 requests counts all.0.0 all.0.1
          (zero_at d.message_id (rw (==-refl d.message_id) (omega arith))))
        (text_entries-Chained date names ds mine.1 all.1 (λ m. once_more m (once m))
          (λ m some_left.
            chunk_entries-other d 0 requests counts m (other_id m some_left (once m))
            ∙ zero_at m (more m some_left)))
    where
      once_more : (m : ℤ) → occurrences m (d ∷ ds) ≤ 1 → occurrences m ds ≤ 1
      once_more m h = elim (Bool-cases (m == d.message_id)) [
        | inl e ↦ let next = rw e at h in omega (arith, next)
        | inr e ↦ rw e at h
      ]

      other_id :
          (m : ℤ) → 0 < occurrences m ds → occurrences m (d ∷ ds) ≤ 1 → (m == d.message_id) ≡ false
      other_id m left h = elim (Bool-cases (m == d.message_id)) [
        | inl e ↦ let next = rw e at h in absurd (omega (arith, next))
        | inr e ↦ e
      ]

      more : (m : ℤ) → 0 < occurrences m ds → 0 < occurrences m (d ∷ ds)
      more m left = elim (Bool-cases (m == d.message_id)) [
        | inl e ↦ rw e (omega arith)
        | inr e ↦ rw e left
      ]

  pub group_entries-Chained :
      (encode : MediaPayload → String) (found : List DeletedRecord) (gs : List MediaGroup)
      (counts : ChunkCount)
      → All (λ (g : MediaGroup). Known g.anchor) gs
      → (after : ChunkCount) × Chained counts (group_entries encode scope found gs counts) after
  unfolding group_entries
  group_entries-Chained encode found [] counts all = (counts, refl)
  group_entries-Chained encode found (g ∷ gs) counts all =
      let rest =
        group_entries-Chained encode found gs (set_count g.anchor (suc (counts g.anchor)) counts)
          all.1 in
      (rest.0, (g.anchor, all.0, refl, rest.1))
