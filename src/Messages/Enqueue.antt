-- ===== src/Messages/Enqueue.antt =====
-- What MarkDeleted adds to the outbox for messages that were not announced before.
use undelete.Base.{
  ℕ, ◌≤◌, ◌≡◌, refl, ◌∙◌, Bool, true, false, List, [], ◌∷◌, ◌++◌, ◌==◌, nat_comparable,
  string_comparable, map, keep, All, arith, Bool-cases, inl, inr, if-both,
}
use undelete.Base.Int.{ℤ, int_comparable, int_beq_iff, leb_ℤ}
use undelete.Base.Rows.{keep-holds, All-implies, count_where, set_where}
use undelete.Telegram.Split.{Text}
use undelete.Media.Catalogue.{Catalogue}
use undelete.Media.Queries.{mem_ℤ}
use undelete.Outbox.Row.{exists_row, same_key}
use undelete.Messages.Store.{
  Message, DeletedRecord, returned, insert_record, sort_records, is_message,
}
use undelete.Messages.Media.{MediaAlertScope, ChunkCount, alert_key, enqueue_media_alerts}
use undelete.Messages.Deletion.{
  Database, Formats, is_deleted, marked, mark_deleted, deletion_entries, chat_names, text_entries,
}
use undelete.Messages.Unique.{IsUnique, mark-IsUnique}
use undelete.Messages.Chunks.{
  entry_of, Chained, Chained-append, insert_all-Chained, occurrences, text_entries-Chained,
  group_entries-Chained, int_beq-sym,
}
use undelete.Messages.Known.{group_media-Anchored, OfRecord-mem, sort_records-All, map-returned-All}

abbrev Asked : List ℤ → ℤ → Type 0
Asked ids m = mem_ℤ m ids ≡ true

enqueue-Chained :
    (formats : Formats) (scope : MediaAlertScope) (ids : List ℤ) (found : List DeletedRecord)
    (counts : ChunkCount) (c : Catalogue)
    → All (λ (d : DeletedRecord). Asked ids d.message_id) found
    → (after : ChunkCount) × Chained scope
        (Asked ids)
        counts
        (enqueue_media_alerts formats.encode scope found counts c)
        after
unfolding enqueue_media_alerts
enqueue-Chained formats scope ids [] counts c a = (counts, refl)
enqueue-Chained formats scope ids (d ∷ ds) counts c a =
    group_entries-Chained scope (Asked ids) formats.encode (d ∷ ds) _ counts (
      group_media-Anchored (Asked ids) scope.owner scope.connection scope.chat_id _ c
        (λ m h. OfRecord-mem (Asked ids) m (d ∷ ds) a h))

deletion_entries-Chained :
    (formats : Formats) (scope : MediaAlertScope) (ids : List ℤ) (names : Text × Text)
    (found : List DeletedRecord) (c : Catalogue)
    → All (λ (d : DeletedRecord). (d.chat_id ≡ scope.chat_id) × Asked ids d.message_id) found
    → ((m : ℤ) → occurrences scope (Asked ids) m found ≤ 1)
    → (after : ChunkCount) × Chained scope
        (Asked ids)
        (λ m. 0)
        (deletion_entries formats scope names found c)
        after
unfolding deletion_entries
deletion_entries-Chained formats scope ids names found c a once =
    let texts = text_entries formats.date scope names found (λ m. 0) in
    let media =
      enqueue-Chained formats scope ids found texts.1 c
        (All-implies _ (λ (d : DeletedRecord). Asked ids d.message_id) found (λ d h. h.1) a) in
    (
      media.0,
      Chained-append scope (Asked ids) texts.0 _ (λ m. 0) texts.1 media.0
          (text_entries-Chained scope (Asked ids) formats.date names found (λ m. 0) a once
            (λ m h. refl))
          media.1,
    )

-- Each message is found once.
insert_record-count :
    (p : DeletedRecord → Bool) (d : DeletedRecord) (ds : List DeletedRecord)
    → count_where p (insert_record d ds) ≡ count_where p (d ∷ ds)
insert_record-count p d [] = refl
insert_record-count p d (e ∷ ds) =
    if-both (λ (l : List DeletedRecord). count_where p l ≡ count_where p (d ∷ e ∷ ds))
      (leb_ℤ d.message_id e.message_id) _ _ refl (ground (arith, insert_record-count p d ds))

sort_records-count :
    (p : DeletedRecord → Bool) (ds : List DeletedRecord)
    → count_where p (sort_records ds) ≡ count_where p ds
unfolding sort_records
sort_records-count p [] = refl
sort_records-count p (d ∷ ds) =
    ground (arith, insert_record-count p d (sort_records ds), sort_records-count p ds)

returned-count :
    (scope : MediaAlertScope) (ids : List ℤ) (m : ℤ) (ms : List Message)
    → count_where
        (λ (d : DeletedRecord). m == d.message_id)
        (map returned (keep (is_deleted scope ids) ms))
      ≤ count_where (is_message scope.owner scope.connection scope.chat_id m) ms
returned-count scope ids m [] = omega arith
returned-count scope ids m (r ∷ ms) =
    let rest = returned-count scope ids m ms in
    elim (Bool-cases (is_deleted scope ids r)) [
      | inr e ↦ rw e (ground (arith, rest))
      | inl e ↦ elim (Bool-cases (m == r.message_id)) [
        | inr f ↦ rw (e, f) (ground (arith, rest))
        | inl f ↦
            let same = int_beq-sym r.message_id m ∙ f in
            let here : is_message scope.owner scope.connection scope.chat_id m r ≡ true =
              ground (arith, e, same) in
            rw (e, f, here) (omega (arith, rest))
      ]
    ]

-- Of messages with one row each that have no alert in the outbox yet, a deletion adds all its
-- entries to the outbox, in order: the chunks of each found message's text and then one entry for
-- each group of its stored files. None of them is lost to the unique key.
pub mark_deleted-enqueues :
    (formats : Formats) (now : ℕ) (scope : MediaAlertScope) (ids : List ℤ) (db : Database)
    → IsUnique db.archive.messages
    → ((m : ℤ) (chunk : ℕ)
        → mem_ℤ m ids ≡ true
        → exists_row (λ r. same_key r.key (alert_key scope m chunk)) db.outbox.rows ≡ false)
    → let out = mark_deleted formats now scope ids db in
      let names = chat_names scope.owner scope.connection scope.chat_id db.archive.chats in
      map entry_of out.0.outbox.rows
      ≡ map entry_of db.outbox.rows ++ deletion_entries formats scope names out.1 db.catalogue
unfolding mark_deleted
mark_deleted-enqueues formats now scope ids db unique clear =
    let rows = set_where (is_deleted scope ids) (marked now) db.archive.messages in
    let returns = map returned (keep (is_deleted scope ids) rows) in
    let all =
      sort_records-All (λ (d : DeletedRecord). (d.chat_id ≡ scope.chat_id) × Asked ids d.message_id)
        returns
        (map-returned-All _ (keep (is_deleted scope ids) rows) (
          All-implies _ _ (keep (is_deleted scope ids) rows)
            (λ (m : Message) h.
              ((int_beq_iff m.chat_id scope.chat_id).0 (ground (arith, h)), ground (arith, h)))
            (keep-holds (is_deleted scope ids) rows))) in
    let once : (m : ℤ) → occurrences scope (Asked ids) m (sort_records returns) ≤ 1 = λ m.
      let few =
        mark-IsUnique scope ids now db.archive.messages unique scope.owner scope.connection
          scope.chat_id m in
      let found = returned-count scope ids m rows in
      let sorted = sort_records-count (λ (d : DeletedRecord). m == d.message_id) returns in
      omega (arith, few, found, sorted) in
    let chained =
      deletion_entries-Chained formats scope ids _ (sort_records returns) db.catalogue all once in
    insert_all-Chained scope (Asked ids) now scope.owner_telegram _ (λ m. 0) chained.0 db.outbox
      chained.1 (λ m chunk asked le. clear m chunk asked)
