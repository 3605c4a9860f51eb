-- ===== src/Outbox/Worker.antt =====
-- bot/internal/outbox/worker.go: deliver and ProcessOne. What the worker meets outside this process
-- is a `World`: the answers of the sender, failures of the database, the state of the context at
-- each place where it is read, the clock and the lease token.
use undelete.Base.{
  ℕ, ◌+◌, ◌*◌, Bool, true, false, ◌&&◌, not, Option, none, some, List, [], ◌∷◌, ◌++◌, String,
  if◌then◌else◌, leb, map,
}
use undelete.Base.Int.{ℤ, pos, ltb_ℤ, leb_ℤ, int_beq}
use undelete.Media.Path.{FilePath, validate_relative_path}
use undelete.Telegram.Upload.{
  SendError, api, no_media_delivery, media_unavailable, media_too_large, unsafe_path, canceled,
  deadline_exceeded, other, MediaAlertItem, Request, message, FileInfo, send_media_once,
}
use undelete.Telegram.Note.{with_media_unavailable_note}
use undelete.Outbox.Row.{
  text_kind, media_kind, ErrorClass, transport, telegram, MediaItem, MediaPayload, Job, Table,
}
use undelete.Outbox.Store.{StoreError, database, claim, mark_sent, mark_retry, mark_failed, second}
use undelete.Outbox.Delay.{retry_delay, throttle_wait}

pub record World : Type 0 where
  pub claim_time : ℕ
  pub mark_time : ℕ
  pub token : String
  pub busy : ℕ → Bool
  -- An error of `guard.Shared`, of `Claim` and of the acknowledgement.
  pub guard_error : Option SendError
  pub claim_error : Option SendError
  pub mark_error : Option SendError
  -- Whether the sender uploads files and a media root is set.
  pub uploads : Bool
  pub send_message : Option SendError
  -- The answer to the upload of each batch of a media job.
  pub send_batch : ℕ → Option SendError
  -- `filepath.Join` of the media root and a path, and what `os.Lstat` finds.
  pub join_root : FilePath → FilePath
  pub lstat : FilePath → Option FileInfo
  -- Whether the context is cancelled when each of these errors is looked at.
  pub dead_at_guard : Bool
  pub dead_at_claim : Bool
  pub dead_at_media : Bool
  pub dead_at_delivery : Bool
  pub dead_at_mark : Bool

-- Two minutes.
abbrev pub default_lease : ℕ
default_lease = 120 * second

abbrev pub max_delivery_attempts : ℕ
max_delivery_attempts = 10

abbrev pub is_context_error : SendError → Bool
is_context_error canceled = true
is_context_error deadline_exceeded = true
is_context_error _ = false

abbrev pub is_shutdown : Bool → SendError → Bool
is_shutdown dead e = dead && is_context_error e

-- A 4xx that is not a 429.
abbrev pub is_refusal : ℤ → Bool
is_refusal code = leb_ℤ (pos 400) code && (ltb_ℤ code (pos 500) && not (int_beq code (pos 429)))

-- An error that no retry clears, the context aside.
abbrev pub is_hopeless : SendError → Bool
is_hopeless no_media_delivery = true
is_hopeless media_unavailable = true
is_hopeless media_too_large = true
is_hopeless unsafe_path = true
is_hopeless (api code _) = is_refusal code
is_hopeless canceled = false
is_hopeless deadline_exceeded = false
is_hopeless other = false

unfoldable pub media_is_hopeless : Bool → SendError → Bool
media_is_hopeless dead e = not (is_shutdown dead e) && is_hopeless e

-- The loop of `sendMedia`: the first path that is refused.
unfoldable pub check_paths : List MediaItem → Option SendError
check_paths [] = none
check_paths (item ∷ items) =
    let rest = check_paths items in
    elim (validate_relative_path item.relative_path) [ some _ ↦ some unsafe_path | none ↦ rest ]

-- `SendMessageOnce`: the error of the call, or the request that it made.
abbrev pub attempt : Option SendError → Request → Option SendError × List Request
attempt none r = (none, r ∷ [])
attempt (some e) r = (some e, [])

abbrev pub alert_item : World → MediaItem → MediaAlertItem
alert_item w item = record {
  kind = item.media_type;
  path = w.join_root item.relative_path;
  file_name = item.file_name;
  caption = item.caption;
}

-- `sendMedia`: the files below the media root, if each path is safe.
unfoldable pub send_media : World → Job → Option SendError × List Request
unfolding check_paths
send_media w job =
    if w.uploads
    then elim job.media [
      | none ↦ (some no_media_delivery, [])
      | some payload ↦ elim (check_paths payload.items) [
        | some e ↦ (some e, [])
        | none ↦
            send_media_once w.lstat w.send_batch job.owner_telegram_user
              (map (alert_item w) payload.items)
      ]
    ]
    else (some no_media_delivery, [])

unfoldable pub send_text : World → Job → Bool → Option SendError × List Request
send_text w job with_note =
    let text = if with_note then with_media_unavailable_note job.text else job.text in
    attempt w.send_message (message job.owner_telegram_user text)

-- What follows the upload of a media job: a fallback comes after the batches that went out.
unfoldable pub after_media :
    World → Job → Option SendError × List Request → Option SendError × List Request
unfolding media_is_hopeless send_text
after_media w job (none, accepted) = (none, accepted)
after_media w job (some e, accepted) =
    let text = send_text w job true in
    if media_is_hopeless w.dead_at_media e then (text.0, accepted ++ text.1) else (some e, accepted)

unfoldable pub deliver : World → Job → Option SendError × List Request
unfolding after_media send_media send_text
deliver w job = elim job.payload_kind [
  | text_kind ↦ send_text w job false
  | media_kind ↦ after_media w job (send_media w job)
]

pub data WorkerError : Type 0 where
  exclusion reservation : SendError → WorkerError
  acknowledgement permanent_failure attempts_exhausted retry_scheduling : WorkerError

pub record Report : Type 0 where
  pub worked : Bool
  pub error : Option WorkerError
  pub accepted : List Request

abbrev pub idle : List Request → Report
idle accepted = record { worked = false; error = none; accepted = accepted }

-- An acknowledgement, unless the database fails.
abbrev pub marked : World → Table → Table × Option StoreError → Table × Option StoreError
marked w t r = elim w.mark_error [ none ↦ r | some _ ↦ (t, some database) ]

abbrev pub reported : WorkerError → List Request → Option StoreError → Report
reported e accepted none = record { worked = true; error = none; accepted = accepted }
reported e accepted (some _) = record { worked = true; error = some e; accepted = accepted }

-- Whether the acknowledgement failed by the shutdown of the process.
abbrev pub mark_shut_down : World → Bool
mark_shut_down w = elim w.mark_error [ none ↦ false | some e ↦ is_shutdown w.dead_at_mark e ]

unfoldable pub acknowledge_sent : World → ℤ → Job → List Request → Table → Table × Report
acknowledge_sent w owner job accepted t =
    let (t', e) = marked w t (mark_sent owner job.id job.lease w.mark_time t) in
    (t', if mark_shut_down w then idle accepted else reported acknowledgement accepted e)

abbrev pub error_class : SendError → ErrorClass
error_class (api code _) = telegram code
error_class _ = transport

abbrev pub is_permanent : SendError → Bool
is_permanent (api code _) = is_refusal code
is_permanent _ = false

-- `IsRateLimited`, and the wait that it stores; otherwise the backoff.
abbrev pub wait_for : SendError → ℕ → ℤ
wait_for (api code retry_after) attempts =
    if int_beq code (pos 429) && ltb_ℤ (pos 0) retry_after
    then throttle_wait retry_after
    else pos (retry_delay (pos attempts))
wait_for _ attempts = pos (retry_delay (pos attempts))

unfoldable pub reschedule : World → ℤ → Job → SendError → List Request → Table → Table × Report
reschedule w owner job e accepted t =
    let fail = marked w t (mark_failed owner job.id job.lease (error_class e) w.mark_time t) in
    let retry =
      marked w t (
        mark_retry owner job.id job.lease (wait_for e job.attempts) (error_class e) w.mark_time
          t) in
    if is_shutdown w.dead_at_delivery e
    then (t, idle accepted)
    else (if is_permanent e
        then (fail.0, reported permanent_failure accepted fail.1)
        else (if leb max_delivery_attempts (job.attempts + 1)
            then (fail.0, reported attempts_exhausted accepted fail.1)
            else (retry.0, reported retry_scheduling accepted retry.1)))

unfoldable pub settle : World → ℤ → Job → Option SendError × List Request → Table → Table × Report
unfolding acknowledge_sent reschedule
settle w owner job (none, accepted) t = acknowledge_sent w owner job accepted t
settle w owner job (some e, accepted) t = reschedule w owner job e accepted t

-- The claim that succeeded, with or without a job.
unfoldable pub process_claimed : World → ℤ → Table × Option Job → Table × Report
unfolding settle
process_claimed w owner (t, none) = (t, idle [])
process_claimed w owner (t, some job) = settle w owner job (deliver w job) t

abbrev pub stopped : Bool → SendError → WorkerError → Report
stopped dead e failure =
    if is_shutdown dead e
    then idle []
    else record { worked = false; error = some failure; accepted = [] }

unfoldable pub process_one : (String → Option MediaPayload) → World → ℤ → Table → Table × Report
unfolding process_claimed
process_one unmarshal w owner t = elim w.guard_error [
  | some e ↦ (t, stopped w.dead_at_guard e (exclusion e))
  | none ↦ elim w.claim_error [
    | some e ↦ (t, stopped w.dead_at_claim e (reservation e))
    | none ↦
        process_claimed w owner (claim unmarshal owner w.claim_time default_lease w.token w.busy t)
  ]
]
