-- ===== src/Outbox/Examples.antt =====
-- Runs of the queue and its worker on small tables.
use undelete.Base.{
  ℕ, ◌^◌, ◌≡◌, ◌≢◌, refl, Bool, true, false, Option, none, some, [], ◌∷◌, arith, String, inl, inr,
  string_comparable, nat_beq, if◌then◌else◌, length,
}
use undelete.Base.Int.{pos, negsuc}
use undelete.Outbox.Row.{
  pending, sent, text_kind, media_kind, Key, Row, Job, Table, MediaPayload, MediaItem, exists_row,
  affected, update_where,
}
use undelete.Outbox.Store.{
  first_candidate, job_of, mark_sent, claim, acknowledge, lease_lost, sent_row, purge_expired,
}
use undelete.Outbox.Delay.{throttle_wait}
use undelete.Media.Path.{validate_relative_path}
use undelete.Telegram.Upload.{api, send_media_once}
use undelete.Outbox.Worker.{World, process_one, deliver, send_media, check_paths}
use undelete.Outbox.Delivery.{Delivered, deliver-Delivered}
use undelete.Outbox.Claims.{GivesFirst, claim-live}
use undelete.Outbox.Leases.{claim-exclusive, acknowledge-stale}
use undelete.Outbox.Evolution.{EvolveAll, some_accepted, process_one-EvolveAll}
use undelete.Outbox.Tenants.{open_rows, purge_expired-open_rows}
use undelete.Outbox.Delay.{throttle_wait_overflows}

-- Two chunks of one alert, of tenant 7.
abbrev key_of : ℕ → Key
key_of chunk = record {
  owner = pos 7;
  connection = "c1";
  chat = pos 20;
  message = pos 30;
  event = "deleted";
  chunk = chunk;
}

abbrev row_of : ℕ → ℕ → Row
row_of id chunk = record {
  id = id;
  key = key_of chunk;
  owner_telegram = pos 70;
  payload_text = 72 ∷ 105 ∷ [];
  payload_kind = text_kind;
  media_payload = "";
  status = pending;
  attempts = 0;
  next_attempt_at = 5;
  locked_until = none;
  lease_token = none;
  last_error_class = none;
  created_at = 5;
  sent_at = none;
}

abbrev two_rows : Table
two_rows = record { rows = row_of 1 0 ∷ row_of 2 1 ∷ []; next_id = 3 }

-- The same with a first chunk that was sent at 8.
abbrev one_sent : Table
one_sent = record {
  rows = record (row_of 1 0) { status = sent; sent_at = some 8 } ∷ row_of 2 1 ∷ [];
  next_id = 3;
}

abbrev no_payload : String → Option MediaPayload
no_payload json = none

abbrev photo : MediaItem
photo = record {
  media_file_id = pos 1;
  message_id = pos 30;
  file_index = pos 0;
  media_type = "photo";
  relative_path = b'a' ∷ b'/' ∷ b'b' ∷ [];
  file_name = "b";
  caption = [];
}

abbrev voice : MediaItem
voice = record photo { media_type = "voice" }

abbrev media_job : Job
media_job = record {
  id = 1;
  owner_user = pos 7;
  owner_telegram_user = pos 70;
  business_connection = "c1";
  chat_id = pos 20;
  message_id = pos 30;
  event_type = "deleted";
  text = 72 ∷ 105 ∷ [];
  attempts = 0;
  lease = "t1";
  payload_kind = media_kind;
  media = some (record { media_group_id = ""; items = photo ∷ voice ∷ [] });
}

abbrev text_job : Job
text_job = record media_job { payload_kind = text_kind; media = none }

-- The sender accepts texts and the first batch of files, and refuses the second one with a 400.
abbrev world : World
world = record {
  claim_time = 10;
  mark_time = 12;
  token = "t1";
  busy = λ id. false;
  guard_error = none;
  claim_error = none;
  mark_error = none;
  uploads = true;
  send_message = none;
  send_batch = λ index. if nat_beq index 0 then none else some (api (pos 400) (pos 0));
  join_root = λ path. b'/' ∷ path;
  lstat = λ path. some (record { is_regular = true; size = 5 });
  dead_at_guard = false;
  dead_at_claim = false;
  dead_at_media = false;
  dead_at_delivery = false;
  dead_at_mark = false;
}

abbrev no_lock : ℕ → Bool
no_lock id = false

abbrev claimed_job : Job
claimed_job = record text_job { lease = "t1" }

first_claim : (claim no_payload (pos 7) 10 100 "t1" no_lock two_rows).1 ≡ some claimed_job
unfolding claim first_candidate exists_row job_of
first_claim = refl

-- Two alerts of two messages: the second one is claimed while the first one is held.
abbrev two_alerts : Table
two_alerts = record {
  rows = row_of 1 0 ∷ record (row_of 2 0) { key = record (key_of 0) { message = pos 31 } } ∷ [];
  next_id = 3;
}

abbrev second_job : Job
second_job = record text_job { id = 2; message_id = pos 31; lease = "t2" }

first_alert : (claim no_payload (pos 7) 10 100 "t1" no_lock two_alerts).1 ≡ some claimed_job
unfolding claim first_candidate exists_row job_of
first_alert = refl

second_alert :
    (claim no_payload
      (pos 7)
      20
      100
      "t2"
      no_lock
      (claim no_payload (pos 7) 10 100 "t1" no_lock two_alerts).0).1
    ≡ some second_job
unfolding claim first_candidate exists_row job_of update_where
second_alert = refl

claim-exclusive_example : second_job.id ≢ claimed_job.id
claim-exclusive_example =
    claim-exclusive no_payload (pos 7) 10 100 "t1" no_lock two_alerts claimed_job 20 100 "t2"
      no_lock second_job first_alert (omega arith) second_alert

-- The worker sends the first chunk, and holds the second one back until then.
round : some_accepted (process_one no_payload world (pos 7) two_rows).1.accepted ≡ true
unfolding process_one claim first_candidate exists_row deliver job_of mark_sent affected
    update_where
round = refl

process_one-EvolveAll_example :
    EvolveAll
      (pos 7)
      (some_accepted (process_one no_payload world (pos 7) two_rows).1.accepted)
      two_rows.rows
      (process_one no_payload world (pos 7) two_rows).0.rows
process_one-EvolveAll_example = process_one-EvolveAll no_payload world (pos 7) two_rows

-- The photo goes out alone, the voice message is refused, and the text follows.
photo_then_text : length (deliver world media_job).1 ≡ 2
unfolding deliver send_media check_paths validate_relative_path send_media_once
photo_then_text = refl

deliver-Delivered_example : Delivered world media_job media_kind (deliver world media_job)
deliver-Delivered_example = deliver-Delivered world media_job

claim-live_example :
    GivesFirst (pos 7) 10 two_rows.rows (claim no_payload (pos 7) 10 100 "t1" no_lock two_rows).1
claim-live_example =
    claim-live no_payload (pos 7) 10 100 "t1" two_rows (row_of 2 1) (inr (inl refl)) refl refl
      ((omega arith, refl), ((omega arith, refl), tt))

acknowledge-stale_example :
    let t' = (claim no_payload (pos 7) 10 100 "t1" no_lock two_rows).0 in
    (((acknowledge (pos 7) 1 "t0" (sent_row 12) t').0.rows ≡ t'.rows)
      × ((acknowledge (pos 7) 1 "t0" (sent_row 12) t').1 ≡ some (lease_lost 1)))
acknowledge-stale_example =
    acknowledge-stale no_payload (pos 7) 10 100 "t1" "t0" no_lock two_rows claimed_job (sent_row 12)
      first_claim (λ e. let same = (string_comparable.equals_iff "t1" "t0").1 e in cc)

purge_expired-open_rows_example :
    open_rows (purge_expired (10 ^ 18) ((pos 7, 1) ∷ []) one_sent) ≡ open_rows one_sent
purge_expired-open_rows_example = purge_expired-open_rows (10 ^ 18) ((pos 7, 1) ∷ []) one_sent

throttle_wait_overflows_example : (m : ℕ) × (throttle_wait (pos 10000000000) ≡ negsuc m)
throttle_wait_overflows_example = throttle_wait_overflows 10000000000 (omega arith) (omega arith)
