-- ===== src/Messages/Unique.antt =====
-- The rows of messages and the statements that run on them.
use undelete.Base.{
  ℕ, ◌≤◌, ◌≡◌, refl, sym, Bool, true, List, [], ◌∷◌, String, nat_comparable, string_comparable,
  arith, Bool-cases, inl, inr, if-split, if-both, nat_beq, nat_beq_iff,
}
use undelete.Base.Int.{ℤ, int_comparable, int_beq_iff}
use undelete.Base.Rows.{
  set_where, remove_where, count_where, count-set_where, count-append, count-remove_where-le,
  count-same,
}
use undelete.Messages.Store.{
  Record, Message, Archive, is_message, fresh_message, rewritten, upsert_message, save,
  delete_tenant, TenantRetention, is_expired, purge_expired,
}
use undelete.Messages.Media.{MediaAlertScope}
use undelete.Messages.Deletion.{is_deleted, marked, Database, Formats, mark_deleted}

abbrev pub IsUnique : List Message → Type 0
IsUnique ms =
    (owner : ℤ) (connection : String) (chat message : ℤ)
    → count_where (is_message owner connection chat message) ms ≤ 1

is_message-same :
    (owner other : ℤ) (connection link : String) (chat room message id : ℤ) (r : Message)
    → is_message other link room id r ≡ true
    → r.owner ≡ owner
    → r.connection ≡ connection
    → r.chat_id ≡ chat
    → r.message_id ≡ message
    → (s : Message) → is_message other link room id s ≡ is_message owner connection chat message s
is_message-same owner other connection link chat room message id r h a b c d s =
    let w = (int_beq_iff r.owner other).0 (ground arith) in
    let x = (string_comparable.equals_iff r.connection link).0 (ground arith) in
    let y = (int_beq_iff r.chat_id room).0 (ground arith) in
    let z = (int_beq_iff r.message_id id).0 (ground arith) in
    rw (sym w, sym x, sym y, sym z, a, b, c, d) refl

upsert_message-IsUnique :
    (now : ℕ) (owner : ℤ) (m : Record) (edited : Bool) (ms : List Message)
    → IsUnique ms
    → IsUnique (upsert_message now owner m edited ms)
unfolding upsert_message
upsert_message-IsUnique now owner m edited ms h = λ other link room id.
    if-split (λ (rs : List Message). count_where (is_message other link room id) rs ≤ 1)
      (nat_beq (count_where (is_message owner m.connection m.chat_id m.message_id) ms) 0) _ _
      (λ none_yet.
        let fresh = fresh_message now owner m edited in
        let at_most = h other link room id in
        let no_row =
          (nat_beq_iff (count_where (is_message owner m.connection m.chat_id m.message_id) ms) 0).0
            none_yet in
        elim (Bool-cases (is_message other link room id fresh)) [
          | inl e ↦
              rw
                (
                  count-append (is_message other link room id) ms fresh,
                  e,
                  count-same (is_message other link room id)
                      (is_message owner m.connection m.chat_id m.message_id) ms
                      (is_message-same owner other m.connection link m.chat_id room m.message_id id
                        fresh e refl refl refl refl),
                )
                (omega (arith, no_row))
          | inr e ↦
              rw (count-append (is_message other link room id) ms fresh, e) (omega (arith, at_most))
        ])
      (λ there.
        rw
          (count-set_where (is_message other link room id)
            (is_message owner m.connection m.chat_id m.message_id) (rewritten now m edited) ms
            (λ r. refl))
          (h other link room id))

pub mark-IsUnique :
    (scope : MediaAlertScope) (ids : List ℤ) (now : ℕ) (ms : List Message)
    → IsUnique ms
    → IsUnique (set_where (is_deleted scope ids) (marked now) ms)
mark-IsUnique scope ids now ms h = λ other link room id.
    rw
      (count-set_where (is_message other link room id) (is_deleted scope ids) (marked now) ms
        (λ r. refl))
      (h other link room id)

remove-IsUnique :
    (gone : Message → Bool) (ms : List Message) → IsUnique ms → IsUnique (remove_where gone ms)
remove-IsUnique gone ms h = λ other link room id.
    let fewer = count-remove_where-le (is_message other link room id) gone ms in
    let at_most = h other link room id in omega (arith, fewer, at_most)

purge_expired-IsUnique :
    (now : ℕ) (ts : List (TenantRetention × Bool)) (purged : ℕ) (a : Archive)
    → IsUnique a.messages
    → IsUnique ((purge_expired now ts purged a).0.messages)
unfolding purge_expired
purge_expired-IsUnique now [] purged a h = h
purge_expired-IsUnique now (t ∷ ts) purged a h =
    if-both (λ (r : Archive × ℕ × Bool). IsUnique (r.0.messages)) t.1 _ _
      (purge_expired-IsUnique now ts _ _ (remove-IsUnique (is_expired now t.0) a.messages h)) h

-- One transaction of the package.
pub data Transaction : Type 0 where
  save_message : ℕ → ℤ → Record → Bool → Transaction
  mark_messages : Formats → ℕ → MediaAlertScope → List ℤ → Transaction
  erase_messages : ℤ → Transaction
  purge_messages : ℕ → List (TenantRetention × Bool) → Transaction

unfoldable pub commit : Transaction → Database → Database
commit (save_message now owner m edited) db = record db {
  archive = save now owner m edited db.archive;
}
commit (mark_messages formats now scope ids) db = (mark_deleted formats now scope ids db).0
commit (erase_messages owner) db = record db { archive = (delete_tenant owner db.archive).0 }
commit (purge_messages now ts) db = record db { archive = (purge_expired now ts 0 db.archive).0 }

unfoldable pub commit_all : List Transaction → Database → Database
commit_all [] db = db
commit_all (t ∷ ts) db = commit_all ts (commit t db)

commit-IsUnique :
    (t : Transaction) (db : Database)
    → IsUnique db.archive.messages
    → IsUnique ((commit t db).archive.messages)
unfolding commit save mark_deleted delete_tenant
commit-IsUnique (save_message now owner m edited) db h =
    upsert_message-IsUnique now owner m edited db.archive.messages h
commit-IsUnique (mark_messages formats now scope ids) db h =
    mark-IsUnique scope ids now db.archive.messages h
commit-IsUnique (erase_messages owner) db h = remove-IsUnique _ db.archive.messages h
commit-IsUnique (purge_messages now ts) db h = purge_expired-IsUnique now ts 0 db.archive h

-- From messages with one row for each owner, connection, chat and message id on, there is one row
-- for each after any transactions.
pub commit_all-IsUnique :
    (ts : List Transaction) (db : Database)
    → IsUnique db.archive.messages
    → IsUnique ((commit_all ts db).archive.messages)
unfolding commit_all
commit_all-IsUnique [] db h = h
commit_all-IsUnique (t ∷ ts) db h = commit_all-IsUnique ts (commit t db) (commit-IsUnique t db h)
