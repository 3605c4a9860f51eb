-- ===== src/Outbox/Store.antt =====
-- bot/internal/outbox/repository.go: the statements on notification_outbox, each one transaction
-- under row level security: a statement sees the rows of its tenant.
use undelete.Base.{
  ℕ, suc, ◌+◌, ◌*◌, Bool, true, false, ◌&&◌, ◌||◌, not, Option, none, some, List, [], ◌∷◌, ◌++◌,
  String, if◌then◌else◌, ltb, leb, ◌==◌, nat_comparable, string_comparable,
}
use undelete.Base.Int.{ℤ, int_comparable}
use undelete.Outbox.Row.{
  Text, Status, pending, processing, sent, failed, status_beq, PayloadKind, ErrorClass, text_kind,
  media_kind, MediaPayload, Key, Row, Job, same_message, same_key, Table, shift, update_where,
  affected, exists_row, delete_where,
}

abbrev pub second : ℕ
second = 1000000000

-- Six hours.
abbrev pub failed_resweep_delay : ℕ
failed_resweep_delay = 21600 * second

pub data StoreError : Type 0 where
  lease_lost : ℕ → StoreError
  database : StoreError

-- Row level security: what a transaction of this tenant sees.
abbrev pub visible : ℤ → Row → Bool
visible owner r = r.owner == owner

-- The row that `insertTx` adds; the other columns have the table's defaults.
unfoldable pub insert_tx : ℕ → Key → ℤ → Text → PayloadKind → String → Table → Table
insert_tx now key owner_telegram text kind media t =
    if exists_row (λ r. same_key r.key key) t.rows
    then record t { next_id = suc t.next_id }
    else record {
      rows =
          t.rows
          ++ record {
            id = t.next_id;
            key = key;
            owner_telegram = owner_telegram;
            payload_text = text;
            payload_kind = kind;
            media_payload = media;
            status = pending;
            attempts = 0;
            next_attempt_at = now;
            locked_until = none;
            lease_token = none;
            last_error_class = none;
            created_at = now;
            sent_at = none;
          }
            ∷ [];
      next_id = suc t.next_id;
    }

-- `NOT IN ('sent', 'failed')`.
abbrev pub is_open : Status → Bool
is_open sent = false
is_open failed = false
is_open pending = true
is_open processing = true

-- `IN ('pending', 'processing', 'failed')`.
abbrev pub is_unsent : Status → Bool
is_unsent sent = false
is_unsent failed = true
is_unsent pending = true
is_unsent processing = true

-- `locked_until IS NULL OR locked_until <= clock_timestamp()`.
abbrev pub is_unlocked : Option ℕ → ℕ → Bool
is_unlocked none now = true
is_unlocked (some until) now = leb until now

-- A row that the subquery of `NOT EXISTS` finds.
abbrev pub is_prior : ℤ → Row → Row → Bool
is_prior owner r prior =
    visible owner prior
    && (same_message prior.key r.key && (ltb prior.chunk r.chunk && is_open prior.status))

abbrev pub is_due : Row → ℕ → Bool
is_due r now = is_unsent r.status && (leb r.next_attempt_at now && is_unlocked r.locked_until now)

-- The WHERE clause of the candidates; `busy` are the ids that another transaction has locked.
abbrev pub is_candidate : ℤ → ℕ → (ℕ → Bool) → List Row → Row → Bool
is_candidate owner now busy all r =
    visible owner r
    && (is_due r now && (not (exists_row (is_prior owner r) all) && not (busy r.id)))

-- `ORDER BY next_attempt_at, id`.
abbrev pub is_before : Row → Row → Bool
is_before a b =
    ltb a.next_attempt_at b.next_attempt_at
    || ((a.next_attempt_at == b.next_attempt_at) && ltb a.id b.id)

-- The first of two candidates.
abbrev pub earlier : Row → Option Row → Row
earlier r none = r
earlier r (some b) = if is_before b r then b else r

-- `LIMIT 1`: the first candidate in the order.
unfoldable pub first_candidate : (Row → Bool) → List Row → Option Row
first_candidate p [] = none
first_candidate p (r ∷ rs) =
    let rest = first_candidate p rs in if p r then some (earlier r rest) else rest

-- The row that `Claim` writes.
abbrev pub claimed_row : ℕ → ℕ → String → Row → Row
claimed_row now lease token r = record r {
  status = processing;
  attempts = if status_beq r.status failed then 0 else r.attempts;
  locked_until = some (now + lease);
  lease_token = some token;
}

unfoldable pub decode_media_payload : (String → Option MediaPayload) → String → Option MediaPayload
decode_media_payload unmarshal raw =
    if raw == ""
    then none
    else elim (unmarshal raw) [ none ↦ none | some p ↦ elim p.items [ [] ↦ none | _ ∷ _ ↦ some p ] ]

-- The columns that `RETURNING` hands to `Scan`, and the decoding after it.
unfoldable pub job_of : (String → Option MediaPayload) → String → Row → Job
unfolding decode_media_payload
job_of unmarshal token r = record {
  id = r.id;
  owner_user = r.owner;
  owner_telegram_user = r.owner_telegram;
  business_connection = r.connection;
  chat_id = r.chat;
  message_id = r.message;
  event_type = r.event;
  text = r.payload_text;
  attempts = r.attempts;
  lease = token;
  payload_kind = r.payload_kind;
  media = elim r.payload_kind [
    | text_kind ↦ none
    | media_kind ↦ decode_media_payload unmarshal r.media_payload
  ];
}

-- `unmarshal` is encoding/json's decoder; `token` is the random lease token.
unfoldable pub claim :
    (String → Option MediaPayload) → ℤ → ℕ → ℕ → String → (ℕ → Bool) → Table → Table × Option Job
claim unmarshal owner now lease token busy t =
    elim (first_candidate (is_candidate owner now busy t.rows) t.rows) [
      | none ↦ (t, none)
      | some c ↦ (
        record t {
          rows =
              update_where (λ r. visible owner r && (r.id == c.id)) (claimed_row now lease token)
                t.rows;
        },
        some (job_of unmarshal token (claimed_row now lease token c)),
      )
    ]

-- `lease_token = $2`, false on NULL.
abbrev pub has_token : Option String → String → Bool
has_token none token = false
has_token (some t) token = t == token

-- `id = $1 AND status = 'processing' AND lease_token = $2`.
abbrev pub is_leased : ℤ → ℕ → String → Row → Bool
is_leased owner id token r =
    visible owner r
    && ((r.id == id) && (status_beq r.status processing && has_token r.lease_token token))

-- `verifyLeaseUpdate` of an UPDATE that the database executed.
unfoldable pub verify_lease_update : ℕ → ℕ → Option StoreError
verify_lease_update rows_affected id = if rows_affected == 1 then none else some (lease_lost id)

-- One of the three acknowledgements: the UPDATE of the leased row, and its verdict.
unfoldable pub acknowledge : ℤ → ℕ → String → (Row → Row) → Table → Table × Option StoreError
unfolding verify_lease_update
acknowledge owner id token f t = (
  record t { rows = update_where (is_leased owner id token) f t.rows },
  verify_lease_update (affected (is_leased owner id token) t.rows) id,
)

abbrev pub sent_row : ℕ → Row → Row
sent_row now r = record r {
  status = sent;
  sent_at = some now;
  locked_until = none;
  lease_token = none;
  last_error_class = none;
}

abbrev pub retry_row : ℕ → ℤ → ErrorClass → Row → Row
retry_row now wait class r = record r {
  status = pending;
  attempts = r.attempts + 1;
  next_attempt_at = shift now wait;
  locked_until = none;
  lease_token = none;
  last_error_class = some class;
}

abbrev pub failed_row : ℕ → ErrorClass → Row → Row
failed_row now class r = record r {
  status = failed;
  attempts = r.attempts + 1;
  next_attempt_at = now + failed_resweep_delay;
  locked_until = none;
  lease_token = none;
  last_error_class = some class;
}

unfoldable pub mark_sent : ℤ → ℕ → String → ℕ → Table → Table × Option StoreError
unfolding acknowledge
mark_sent owner id token now t = acknowledge owner id token (sent_row now) t

unfoldable pub mark_retry : ℤ → ℕ → String → ℤ → ErrorClass → ℕ → Table → Table × Option StoreError
unfolding acknowledge
mark_retry owner id token wait class now t = acknowledge owner id token (retry_row now wait class) t

unfoldable pub mark_failed : ℤ → ℕ → String → ErrorClass → ℕ → Table → Table × Option StoreError
unfolding acknowledge
mark_failed owner id token class now t = acknowledge owner id token (failed_row now class) t

unfoldable pub count_tenant : ℤ → Table → ℕ
count_tenant owner t = affected (λ r. visible owner r && is_unsent r.status) t.rows

unfoldable pub count_backlog : List ℤ → Table → ℕ
unfolding count_tenant
count_backlog [] t = 0
count_backlog (owner ∷ owners) t = count_tenant owner t + count_backlog owners t

unfoldable pub delete_tenant : ℤ → Table → Table × ℕ
delete_tenant owner t =
    (record t { rows = delete_where (visible owner) t.rows }, affected (visible owner) t.rows)

abbrev pub day : ℕ
day = 86400 * second

-- `status IN ('sent', 'failed') AND created_at < clock_timestamp() - make_interval(days => $2)`.
abbrev pub is_expired : ℕ → ℕ → Row → Bool
is_expired now days r = not (is_open r.status) && ltb (r.created_at + days * day) now

-- The DELETE of one tenant with its retention in days.
unfoldable pub purge_tenant : ℕ → ℤ × ℕ → Table → Table
purge_tenant now (owner, days) t = record t {
  rows = delete_where (λ r. visible owner r && is_expired now days r) t.rows;
}

unfoldable pub purge_expired : ℕ → List (ℤ × ℕ) → Table → Table
unfolding purge_tenant
purge_expired now [] t = t
purge_expired now (tenant ∷ tenants) t = purge_expired now tenants (purge_tenant now tenant t)
